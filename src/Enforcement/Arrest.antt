-- ===== src/Enforcement/Arrest.antt =====
-- src/system/subsystem3/enforcement/src/arrest_manager.cpp. Every operation takes the database and
-- returns `out_code` with the database it leaves; the bool that the source returns says that the code
-- is OK. The log, and `out_current`, which no caller reads, are left out. C strings are not null; a
-- null reason is treated as an empty one by the source.
pub mod Effects
pub mod Recorded
pub mod History
use justice_flow.Base.{
  ℕ, ◌≡◌, Bool, true, false, ◌&&◌, ◌||◌, Option, none, some, List, [], ◌∷◌, ◌++◌, ℤ, Bytes, codes,
  is_empty, if◌then◌else◌, is_positive,
}
use justice_flow.Postgres.{ExecResult, command_ok, failed, Table}
use justice_flow.Types.{
  ResultCode, ok, not_found, db_error, invalid_input, invalid_state, SessionContext,
}
use justice_flow.Enforcement.Custody.{
  CustodyStatus, in_custody, bail_granted, remanded, released, escaped, custody_str,
  is_legal_transition,
}
use justice_flow.Enforcement.Database.{
  EnforcementDb, ArrestRow, NewArrest, ArrestUpdate, sql_update_status, sql_set_disputed,
  sql_execute_warrant_on_arrest, document_number,
}

abbrev pub needs_reason : CustodyStatus → Bool
needs_reason released = true
needs_reason escaped = true
needs_reason _ = false

-- `PQclear` runs before the table is searched: `reads` is what the pointer to the status then shows.
check_status : (Bytes → Bytes) → Option ArrestRow → Bytes → Option ResultCode
check_status reads none target = some not_found
check_status reads (some r) target =
    if is_legal_transition (reads r.custody_status) target then none else some invalid_state

-- `warrant_param`.
abbrev pub warrant_param : ℤ → Option ℤ
warrant_param w = if is_positive w then some w else none

module _ {Db : Type 0} (E : EnforcementDb Db) where
  -- The refusal, or none where the transition is allowed.
  unfoldable pub validate_transition : ℤ → Bytes → Db → Option ResultCode
  unfolding check_status
  validate_transition arrest target db =
      check_status (λ s. E.cleared s db) (E.arrests.fetch arrest db) target

  -- The code of an UPDATE.
  update_code : ExecResult × Db → ResultCode × Db
  update_code (command_ok n, db) = (ok, db)
  update_code (failed, db) = (db_error, db)

  update_with_vars : ℕ → ArrestUpdate → ℤ → Bool × Db → ResultCode × Db
  unfolding update_code
  update_with_vars now u arrest (false, db) = (db_error, db)
  update_with_vars now u arrest (true, db) = update_code (E.arrests.exec now u arrest db)

  update_checked : ℕ → SessionContext → ℤ → ArrestUpdate → Option ResultCode → Db → ResultCode × Db
  unfolding update_with_vars
  update_checked now session arrest u (some rc) db = (rc, db)
  update_checked now session arrest u none db =
      update_with_vars now u arrest (E.set_session_vars session.officer_id session.belt_number db)

  unfoldable pub update_custody_status :
      ℕ → SessionContext → ℤ → CustodyStatus → Bytes → Db → ResultCode × Db
  unfolding update_checked
  update_custody_status now session arrest status reason db =
      if needs_reason status && is_empty reason
      then (invalid_input, db)
      else update_checked now session arrest (sql_update_status (custody_str status) reason)
          (validate_transition arrest (custody_str status) db) db

  unfoldable pub mark_as_disputed : ℕ → SessionContext → ℤ → Bytes → Db → ResultCode × Db
  unfolding update_with_vars
  mark_as_disputed now session arrest reason db =
      if is_empty reason
      then (invalid_input, db)
      else update_with_vars now (sql_set_disputed reason) arrest
          (E.set_session_vars session.officer_id session.belt_number db)

  -- Step 5: the result of this UPDATE is only logged.
  execute_warrant : ℕ → SessionContext → ℤ → Db → Db
  execute_warrant now session warrant db =
      if is_positive warrant
      then (E.warrants.exec now (sql_execute_warrant_on_arrest session.officer_id) warrant db).1
      else db

  record_inserted : ℕ → SessionContext → ℤ → Option ℤ × Db → ResultCode × Option ℤ × Db
  unfolding execute_warrant
  record_inserted now session warrant (none, db) = (db_error, none, db)
  record_inserted now session warrant (some arrest, db) =
      (ok, some arrest, execute_warrant now session warrant db)

  record_with_vars : ℕ → SessionContext → NewArrest → ℤ → Bool × Db → ResultCode × Option ℤ × Db
  unfolding record_inserted
  record_with_vars now session n warrant (false, db) = (db_error, none, db)
  record_with_vars now session n warrant (true, db) =
      record_inserted now session warrant (E.arrests.insert_row now n db)

  -- The second part is `out_arrest_id`, which is written on success only.
  unfoldable pub record_arrest :
      ℕ → SessionContext → ℤ → Bytes → Bytes → ℤ → Db → ResultCode × Option ℤ × Db
  unfolding record_with_vars document_number
  record_arrest now session case_id cnic location warrant db =
      let n : NewArrest = record {
        arrest_number = document_number (codes "AR-") now session.officer_id;
        accused_cnic = cnic;
        case_id = case_id;
        warrant_id = warrant_param warrant;
        arresting_officer_id = session.officer_id;
        arrest_location = location;
      } in
      if E.person_exists cnic db
      then record_with_vars now session n warrant
          (E.set_session_vars session.officer_id session.belt_number db)
      else (not_found, none, db)
