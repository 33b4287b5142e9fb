-- ===== src/Enforcement/Bail.antt =====
-- src/system/subsystem3/enforcement/src/bail_manager.cpp, as Arrest.antt models its neighbour:
-- `out_code` and the database after the call. A null C string is treated as an empty one by the source.
pub mod Effects
use justice_flow.Base.{
  ℕ, Bool, true, false, ◌&&◌, ◌||◌, Option, none, some, ℤ, Bytes, codes, ◌==◌, bytes_eq, is_empty,
  eqb, if◌then◌else◌,
}
use justice_flow.Postgres.{ExecResult, command_ok, failed}
use justice_flow.Types.{
  ResultCode, ok, not_found, db_error, invalid_input, invalid_state, rank_insufficient,
  SessionContext, is_ok, inspector, rank_index,
}
use justice_flow.Auth.Manager.{validate_rank}
use justice_flow.Enforcement.Database.{
  EnforcementDb, ArrestRow, BailRow, NewBail, sql_update_arrest_bail_granted, sql_restore_custody,
  sql_revoke_bail, document_number,
}

pub data BailType : Type 0 where
  regular anticipatory interim surety : BailType

unfoldable pub bail_type_str : BailType → Bytes
bail_type_str regular = codes "REGULAR"
bail_type_str anticipatory = codes "ANTICIPATORY"
bail_type_str interim = codes "INTERIM"
bail_type_str surety = codes "SURETY"

-- `Compliance::validateBailAmount`.
abbrev pub validate_bail_amount : BailType → ℕ → ResultCode
validate_bail_amount type amount = if eqb amount 0 then invalid_input else ok

abbrev pub missing_surety : BailType → Bytes → Bytes → Bytes → Bool
missing_surety surety name cnic contact = is_empty name || is_empty cnic || is_empty contact
missing_surety _ name cnic contact = false

abbrev is_in_custody : Option ArrestRow → Bool
is_in_custody none = false
is_in_custody (some r) = r.custody_status == codes "IN_CUSTODY"

module _ {Db : Type 0} (E : EnforcementDb Db) where
  -- A failed query counts as not in custody.
  unfoldable pub arrest_is_in_custody : ℤ → Db → Bool
  arrest_is_in_custody arrest db = is_in_custody (E.arrests.fetch arrest db)

  -- Steps 2 to 4: the refusal, if any.
  unfoldable pub check_bail : NewBail → BailType → Db → Option ResultCode
  unfolding arrest_is_in_custody
  check_bail n type db =
      if arrest_is_in_custody n.arrest_id db
      then (if is_ok (validate_bail_amount type n.bail_amount)
          then (if missing_surety type n.surety_name n.surety_cnic n.surety_contact
              then some invalid_input
              else none)
          else some (validate_bail_amount type n.bail_amount))
      else some invalid_state

  -- Step 8: the result of this UPDATE is only logged.
  bail_inserted : ℕ → ℤ → Option ℤ × Db → ResultCode × Option ℤ × Db
  bail_inserted now arrest (none, db) = (db_error, none, db)
  bail_inserted now arrest (some bail, db) =
      (ok, some bail, (E.arrests.exec now sql_update_arrest_bail_granted arrest db).1)

  bail_with_vars : ℕ → NewBail → Bool × Db → ResultCode × Option ℤ × Db
  unfolding bail_inserted
  bail_with_vars now n (false, db) = (db_error, none, db)
  bail_with_vars now n (true, db) = bail_inserted now n.arrest_id (E.bails.insert_row now n db)

  bail_checked : ℕ → SessionContext → NewBail → Option ResultCode → Db → ResultCode × Option ℤ × Db
  unfolding bail_with_vars
  bail_checked now session n (some rc) db = (rc, none, db)
  bail_checked now session n none db =
      bail_with_vars now n (E.set_session_vars session.officer_id session.belt_number db)

  -- From the second step on, with the code of the rank check.
  unfoldable pub bail_ranked :
      ResultCode → ℕ → SessionContext → NewBail → BailType → Db → ResultCode × Option ℤ × Db
  unfolding bail_checked check_bail
  bail_ranked rank now session n type db =
      if is_ok rank
      then bail_checked now session n (check_bail n type db) db
      else (rank_insufficient, none, db)

  -- The second part is `out_bail_id`, which is written on success only.
  unfoldable pub record_bail :
      ℕ
      → SessionContext
      → ℤ
      → BailType
      → ℕ
      → Bytes
      → Bytes
      → Bytes
      → Bytes
      → Bytes
      → Bytes
      → Db
      → ResultCode × Option ℤ × Db
  unfolding bail_ranked document_number bail_type_str
  record_bail now session arrest type amount court magistrate until name cnic contact db =
      let n : NewBail = record {
        bail_number = document_number (codes "BA-") now session.officer_id;
        arrest_id = arrest;
        bail_type = bail_type_str type;
        bail_amount = amount;
        court_name = court;
        magistrate_name = magistrate;
        valid_until = until;
        surety_name = name;
        surety_cnic = cnic;
        surety_contact = contact;
        recorded_by = session.officer_id;
      } in
      bail_ranked (validate_rank session (rank_index inspector)) now session n type db

  -- Step 5: the result of the second UPDATE is only logged.
  revoke_done : ℕ → ℤ → ExecResult × Db → ResultCode × Db
  revoke_done now arrest (failed, db) = (db_error, db)
  revoke_done now arrest (command_ok n, db) =
      (ok, (E.arrests.exec now sql_restore_custody arrest db).1)

  revoke_with_vars : ℕ → SessionContext → ℤ → Bytes → ℤ → Bool × Db → ResultCode × Db
  unfolding revoke_done
  revoke_with_vars now session bail reason arrest (false, db) = (db_error, db)
  revoke_with_vars now session bail reason arrest (true, db) =
      revoke_done now arrest (E.bails.exec now (sql_revoke_bail session.officer_id reason) bail db)

  -- `_validateState`, and what follows it for the bail that it found. `PQclear` runs before the status is
  -- compared.
  revoke_found : ℕ → SessionContext → ℤ → Bytes → Option BailRow → Db → ResultCode × Db
  unfolding revoke_with_vars
  revoke_found now session bail reason none db = (not_found, db)
  revoke_found now session bail reason (some r) db =
      if E.cleared r.bail_status db == codes "ACTIVE"
      then revoke_with_vars now session bail reason r.arrest_id
          (E.set_session_vars session.officer_id session.belt_number db)
      else (invalid_state, db)

  -- From the second step on, with the code of the rank check.
  unfoldable pub revoke_ranked : ResultCode → ℕ → SessionContext → ℤ → Bytes → Db → ResultCode × Db
  unfolding revoke_found
  revoke_ranked rank now session bail reason db =
      if is_ok rank
      then revoke_found now session bail reason (E.bails.fetch bail db) db
      else (rank_insufficient, db)

  unfoldable pub revoke_bail : ℕ → SessionContext → ℤ → Bytes → Db → ResultCode × Db
  unfolding revoke_ranked
  revoke_bail now session bail reason db =
      if is_empty reason
      then (invalid_input, db)
      else revoke_ranked (validate_rank session (rank_index inspector)) now session bail reason db
