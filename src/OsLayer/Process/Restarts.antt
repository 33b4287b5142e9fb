-- ===== src/OsLayer/Process/Restarts.antt =====
-- How src/os_layer/process/src/process_manager.cpp counts the abnormal exits of a child.
use justice_flow.Base.{ℕ, suc, ◌≡◌, refl, ap, ◌∙◌, false, some, nat_eq, leb, if◌then◌else◌}
use justice_flow.Base.Dict.{lookup, insert, lookup-insert_self}
use justice_flow.Types.{ok}
use justice_flow.OsLayer.Process.{
  Registry, ProcessRecord, ExitStatus, is_clean, ProcessAction, restart, escalate_error,
  max_restarts, reaped, update_state, rewrite_record, get_record, increment_restart_count, ended,
  recount, counted,
}

update_state-found :
    (pid : ℕ) (r : ProcessRecord) (reg : Registry)
    → lookup pid reg ≡ some r
    → update_state pid reaped reg ≡ (ok, insert pid (record r { state = reaped }) reg)
unfolding update_state insert
update_state-found pid r reg found = rw (update_state, rewrite_record, found) refl

increment-found :
    (pid : ℕ) (r : ProcessRecord) (reg : Registry)
    → lookup pid reg ≡ some r
    → increment_restart_count pid reg
      ≡ (ok, suc r.restart_count, insert pid (record r { restart_count = suc r.restart_count }) reg)
unfolding increment_restart_count insert
increment-found pid r reg found = rw (increment_restart_count, found) refl

abbrev decided : ProcessRecord → ProcessAction
decided r = if leb (suc r.restart_count) max_restarts then restart else escalate_error

recount-found :
    (pid : ℕ) (r : ProcessRecord) (reg : Registry)
    → lookup pid reg ≡ some r
    → recount pid reg
      ≡ (decided r, insert pid (record r { restart_count = suc r.restart_count }) reg)
unfolding get_record counted recount
recount-found pid r reg found =
    rw (recount, get_record, found) (ap counted (increment-found pid r reg found))

-- A child that ended abnormally is marked as reaped and counted, its other fields stay, and it is
-- to be restarted up to the third time, from the fourth on it is an error.
pub ended-abnormal :
    (pid : ℕ) (status : ExitStatus) (r : ProcessRecord) (reg : Registry)
    → is_clean status ≡ false
    → lookup pid reg ≡ some r
    → ((ended pid status reg).0
        ≡ (if leb (suc r.restart_count) max_restarts then restart else escalate_error))
      × (lookup pid (ended pid status reg).1
          ≡ some (record r { state = reaped; restart_count = suc r.restart_count }))
unfolding ended
ended-abnormal pid status r reg unclean found =
    let marked = insert pid (record r { state = reaped }) reg in
    let there : lookup pid marked ≡ some (record r { state = reaped }) =
      lookup-insert_self pid (record r { state = reaped }) reg in
    let recounted = recount-found pid (record r { state = reaped }) marked there in
    let whole = ap (λ u. recount pid u.1) (update_state-found pid r reg found) ∙ recounted in
    rw unclean (
      ap (λ x. x.0) whole,
      ap (λ x. lookup pid x.1) whole
          ∙ lookup-insert_self pid
              (record r { state = reaped; restart_count = suc r.restart_count }) marked,
    )
