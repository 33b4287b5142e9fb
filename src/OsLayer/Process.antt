-- ===== src/OsLayer/Process.antt =====
-- src/os_layer/process: the registry of child processes and their reaping. A pid is a natural number,
-- 0 no process. The kernel's side of `waitpid` and `kill` is a parameter with the law that the code
-- relies on. An `int` that counts restarts is taken as a number: 2^31 restarts are out of reach.
pub mod Restarts
pub mod Shutdown
use justice_flow.Base.{
  ℕ, zero, suc, ◌+◌, ◌≡◌, Bool, true, false, not, ◌&&◌, Option, none, some, List, [], ◌∷◌, ◌==◌,
  nat_eq, is_empty, Bytes, leb, eqb, if◌then◌else◌,
}
use justice_flow.Base.Dict.{Dict, lookup, insert, erase, keys}
use justice_flow.Types.{
  ResultCode, ok, not_found, already_exists, invalid_input, db_error, invalid_state,
}
use justice_flow.OsLayer.UnixSocket.{Outcome, returns, blocks, ◌>>=◌}

pub data ProcessState : Type 0 where
  running completed failed reaped : ProcessState

pub record ProcessRecord : Type 0 where
  pub agent_name : Bytes
  pub fifo_path : Bytes
  pub shm_name : Bytes
  pub state : ProcessState
  pub restart_count : ℕ

abbrev pub Registry : Type 0
Registry = Dict ℕ ProcessRecord

stored : Option ProcessRecord → ℕ → ProcessRecord → Registry → ResultCode × Registry
unfolding insert
stored (some old) pid r reg = (already_exists, reg)
stored none pid r reg = (ok, insert pid r reg)

unfoldable pub register_process : ℕ → ProcessRecord → Registry → ResultCode × Registry
unfolding stored lookup
register_process pid r reg = stored (lookup pid reg) pid r reg

-- The record under the pid is replaced by its image, where there is one.
unfoldable pub rewrite_record :
    (ProcessRecord → ProcessRecord) → ℕ → Registry → ResultCode × Registry
unfolding lookup insert
rewrite_record f pid reg = elim (lookup pid reg) [
  | none ↦ (not_found, reg)
  | some r ↦ (ok, insert pid (f r) reg)
]

unfoldable pub update_state : ℕ → ProcessState → Registry → ResultCode × Registry
unfolding rewrite_record
update_state pid new_state reg = rewrite_record (λ r. record r { state = new_state }) pid reg

-- With the new count, 0 where no record is there.
unfoldable pub increment_restart_count : ℕ → Registry → ResultCode × ℕ × Registry
unfolding lookup insert
increment_restart_count pid reg = elim (lookup pid reg) [
  | none ↦ (not_found, 0, reg)
  | some r ↦
      let count = suc r.restart_count in
      (ok, count, insert pid (record r { restart_count = count }) reg)
]

unfoldable pub get_record : ℕ → Registry → Option ProcessRecord
unfolding lookup
get_record pid reg = lookup pid reg

unfoldable pub remove_record : ℕ → Registry → ResultCode × Registry
unfolding lookup erase
remove_record pid reg = elim (lookup pid reg) [
  | none ↦ (not_found, reg)
  | some r ↦ (ok, erase pid reg)
]

unfoldable pub get_all_pids : Registry → List ℕ
unfolding keys
get_all_pids reg = keys reg

-- How a child ended: `exit` with a status, or by a signal.
pub data ExitStatus : Type 0 where
  exited : ℕ → ExitStatus
  signalled : ExitStatus

-- What `waitpid` on one child gives: the child's end, 0 for one that still runs, or an error.
pub data Wait : Type 0 where
  gone : ExitStatus → Wait
  still_alive no_child interrupted wait_failed : Wait

pub data Kill : Type 0 where
  sent no_process kill_failed : Kill

-- A child is handed out once: after `waitpid(-1)` gave it, a wait for it finds no child.
pub record Kernel (K : Type 0) : Type 0 where
  pub wait_one : ℕ → K → Wait × K
  pub wait_any : K → Option (ℕ × ExitStatus) × K
  pub wait_blocking : ℕ → K → Outcome (Bool × K)
  pub kill : ℕ → Bool → K → Kill × K
  pub reaped_once :
      (k : K) (pid : ℕ) (s : ExitStatus)
      → (wait_any k).0 ≡ some (pid, s)
      → wait_one pid (wait_any k).1 ≡ (no_child, (wait_any k).1)

pub data ProcessAction : Type 0 where
  none_needed restart escalate_error : ProcessAction

abbrev pub max_restarts : ℕ
max_restarts = 3

abbrev pub is_clean : ExitStatus → Bool
is_clean (exited status) = eqb status 0
is_clean signalled = false

-- The count after an abnormal exit, and what is to be done.
counted : ResultCode × ℕ × Registry → ProcessAction × Registry
counted (ok, count, reg) = (if leb count max_restarts then restart else escalate_error, reg)
counted (rc, count, reg) = (none_needed, reg)

recount : ℕ → Registry → ProcessAction × Registry
unfolding get_record increment_restart_count counted
recount pid reg = elim (get_record pid reg) [
  | none ↦ (none_needed, reg)
  | some r ↦ counted (increment_restart_count pid reg)
]

unfoldable pub ended : ℕ → ExitStatus → Registry → ProcessAction × Registry
unfolding update_state recount
ended pid status reg =
    let reg' = (update_state pid reaped reg).1 in
    if is_clean status then (none_needed, reg') else recount pid reg'

-- What `reapOne` does with the answer of `waitpid`.
unfoldable pub after_wait : ℕ → Wait → Registry → ResultCode × ProcessAction × Registry
unfolding ended
after_wait pid still_alive reg = (not_found, none_needed, reg)
after_wait pid no_child reg = (ok, none_needed, reg)
after_wait pid interrupted reg = (db_error, none_needed, reg)
after_wait pid wait_failed reg = (db_error, none_needed, reg)
after_wait pid (gone status) reg = let r = ended pid status reg in (ok, r.0, r.1)

abbrev pub shutdown_timeout_sec : ℕ
shutdown_timeout_sec = 10

abbrev is_reaped : Wait → Bool
is_reaped (gone status) = true
is_reaped no_child = true
is_reaped _ = false

abbrev is_kept : Wait → Bool
is_kept still_alive = true
is_kept interrupted = true
is_kept _ = false

module _ {K : Type 0} (kernel : Kernel K) where
  unfoldable pub reap_one : ℕ → Registry → K → ResultCode × ProcessAction × Registry × K
  unfolding after_wait
  reap_one pid reg k =
      let (answer, k') = kernel.wait_one pid k in
      let (rc, action, reg') = after_wait pid answer reg in (rc, action, reg', k')

  abbrev kill_code : Kill → ResultCode
  kill_code sent = ok
  kill_code no_process = not_found
  kill_code kill_failed = db_error

  -- `hard` is SIGKILL, else SIGTERM.
  unfoldable pub send_signal : ℕ → Bool → K → ResultCode × K
  send_signal pid hard k =
      if eqb pid 0
      then (invalid_input, k)
      else (let (answer, k') = kernel.kill pid hard k in (kill_code answer, k'))

  unfoldable pub send_all : List ℕ → Bool → K → K
  unfolding send_signal
  send_all [] hard k = k
  send_all (pid ∷ pids) hard k = send_all pids hard (send_signal pid hard k).1

  -- One round over the children that are left: those that still live are kept.
  unfoldable pub reap_round : List ℕ → Registry → K → List ℕ × Registry × K
  unfolding update_state
  reap_round [] reg k = ([], reg, k)
  reap_round (pid ∷ pids) reg k =
      let (answer, k') = kernel.wait_one pid k in
      let reg' = if is_reaped answer then (update_state pid reaped reg).1 else reg in
      let rest = reap_round pids reg' k' in
      (if is_kept answer then pid ∷ rest.0 else rest.0, rest.1, rest.2)

  -- `elapsed i` is the clock's reading in round i, in seconds. `none` is a loop out of fuel.
  unfoldable pub reap_loop :
      ℕ → ℕ → (ℕ → ℕ) → List ℕ → Registry → K → Option (List ℕ × Registry × K)
  unfolding reap_round
  reap_loop fuel i elapsed [] reg k = some ([], reg, k)
  reap_loop zero i elapsed (pid ∷ pids) reg k = none
  reap_loop (suc fuel) i elapsed (pid ∷ pids) reg k = elim (leb shutdown_timeout_sec (elapsed i)) [
    | true ↦ some (pid ∷ pids, reg, k)
    | false ↦
        let (left, reg', k') = reap_round (pid ∷ pids) reg k in
        reap_loop fuel (suc i) elapsed left reg' k'
  ]

  -- The waits behind the SIGKILLs: each returns, or blocks for ever.
  unfoldable pub reap_killed : List ℕ → Registry → K → Outcome (Registry × K)
  unfolding update_state
  reap_killed [] reg k = returns (reg, k)
  reap_killed (pid ∷ pids) reg k =
      kernel.wait_blocking pid k
      >>= (λ x. reap_killed pids (if x.0 then (update_state pid reaped reg).1 else reg) x.1)

  kill_left : List ℕ × Registry × K → Outcome (ResultCode × Registry × K)
  unfolding send_all reap_killed
  kill_left (left, reg, k) =
      reap_killed left reg (send_all left true k) >>= (λ r. returns (ok, r.0, r.1))

  unfoldable pub reap_all :
      ℕ → (ℕ → ℕ) → Registry → K → Option (Outcome (ResultCode × Registry × K))
  unfolding get_all_pids send_all reap_loop kill_left
  reap_all fuel elapsed reg k =
      let pids = get_all_pids reg in
      elim (reap_loop fuel 0 elapsed pids reg (send_all pids false k)) [
        | none ↦ none
        | some r ↦ some (kill_left r)
      ]
