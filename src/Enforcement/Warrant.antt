-- ===== src/Enforcement/Warrant.antt =====
-- src/system/subsystem3/enforcement/src/warrant_manager.cpp, as Arrest.antt models its neighbour:
-- `out_code` and the database after the call. `sscanf` and `timegm` on the expiry text are the
-- parameter `expiry_epoch`. The text is a DATE of PostgreSQL, so it is in one form.
pub mod Effects
use justice_flow.Base.{
  ℕ, Bool, true, false, ◌&&◌, ◌||◌, not, Option, none, some, ℤ, pos, negsuc, Bytes, codes, ◌==◌,
  bytes_eq, is_empty, ltb, if◌then◌else◌,
}
use justice_flow.Postgres.{ExecResult, command_ok, failed}
use justice_flow.Types.{
  ResultCode, ok, not_found, db_error, invalid_input, invalid_state, rank_insufficient,
  SessionContext, is_ok, inspector, rank_index,
}
use justice_flow.Auth.Manager.{validate_rank}
use justice_flow.Enforcement.Database.{
  EnforcementDb, WarrantRow, NewWarrant, WarrantUpdate, sql_execute, sql_cancel, document_number,
}

pub data WarrantType : Type 0 where
  arrest search seizure : WarrantType

unfoldable pub warrant_type_str : WarrantType → Bytes
warrant_type_str arrest = codes "ARREST"
warrant_type_str search = codes "SEARCH"
warrant_type_str seizure = codes "SEIZURE"

-- `std::time(nullptr) > expiry`.
abbrev pub is_past : ℕ → ℤ → Bool
is_past now (pos n) = ltb n now
is_past now (negsuc n) = true

module _ (expiry_epoch : Bytes → ℤ) where
  check_warrant : Option WarrantRow → ℕ → Bytes → Bool → Option ResultCode
  check_warrant none now expected check_expiry = some not_found
  check_warrant (some r) now expected check_expiry =
      if not (r.warrant_status == expected)
      then some invalid_state
      else if check_expiry
          && not (is_empty r.valid_until)
          && is_past now (expiry_epoch r.valid_until)
      then some invalid_state
      else none

is_open_case : Option Bytes → Option ResultCode
is_open_case none = some not_found
is_open_case (some s) =
    if s == codes "REGISTERED" || s == codes "UNDER_INVESTIGATION" then none else some invalid_state

module _ {Db : Type 0} (E : EnforcementDb Db) where
  inserted_code : Option ℤ × Db → ResultCode × Option ℤ × Db
  inserted_code (none, db) = (db_error, none, db)
  inserted_code (some k, db) = (ok, some k, db)

  request_with_vars : ℕ → NewWarrant → Bool × Db → ResultCode × Option ℤ × Db
  unfolding inserted_code
  request_with_vars now n (false, db) = (db_error, none, db)
  request_with_vars now n (true, db) = inserted_code (E.warrants.insert_row now n db)

  request_checked :
      ℕ → SessionContext → NewWarrant → Option ResultCode → Db → ResultCode × Option ℤ × Db
  unfolding request_with_vars
  request_checked now session n (some rc) db = (rc, none, db)
  request_checked now session n none db =
      request_with_vars now n (E.set_session_vars session.officer_id session.belt_number db)

  -- From the second step on, with the code of the rank check.
  request_ranked : ResultCode → ℕ → SessionContext → NewWarrant → Db → ResultCode × Option ℤ × Db
  unfolding request_checked is_open_case
  request_ranked rank now session n db =
      if is_ok rank
      then request_checked now session n (is_open_case (E.case_status n.case_id db)) db
      else (rank_insufficient, none, db)

  -- The second part is `out_warrant_id`, which is written on success only.
  unfoldable pub request_warrant :
      ℕ
      → SessionContext
      → ℤ
      → Bytes
      → WarrantType
      → Bytes
      → Bytes
      → Bytes
      → Bytes
      → Db
      → ResultCode × Option ℤ × Db
  unfolding request_ranked document_number warrant_type_str
  request_warrant now session case_id cnic type magistrate court valid_until address db =
      let n : NewWarrant = record {
        warrant_number = document_number (codes "WR-") now session.officer_id;
        case_id = case_id;
        accused_cnic = cnic;
        warrant_type = warrant_type_str type;
        issuing_court = court;
        magistrate_name = magistrate;
        target_address = address;
        valid_until = valid_until;
        requested_by = session.officer_id;
      } in
      request_ranked (validate_rank session (rank_index inspector)) now session n db

  update_code : ExecResult × Db → ResultCode × Db
  update_code (command_ok n, db) = (ok, db)
  update_code (failed, db) = (db_error, db)

  update_with_vars : ℕ → WarrantUpdate → ℤ → Bool × Db → ResultCode × Db
  unfolding update_code
  update_with_vars now u warrant (false, db) = (db_error, db)
  update_with_vars now u warrant (true, db) = update_code (E.warrants.exec now u warrant db)

  update_checked : ℕ → SessionContext → ℤ → WarrantUpdate → Option ResultCode → Db → ResultCode × Db
  unfolding update_with_vars
  update_checked now session warrant u (some rc) db = (rc, db)
  update_checked now session warrant u none db =
      update_with_vars now u warrant (E.set_session_vars session.officer_id session.belt_number db)

  module _ (expiry_epoch : Bytes → ℤ) where
    -- The refusal, or none where the state and the expiry allow the change.
    unfoldable pub validate_state : ℤ → ℕ → Bytes → Bool → Db → Option ResultCode
    unfolding check_warrant
    validate_state warrant now expected check_expiry db =
        check_warrant expiry_epoch (E.warrants.fetch warrant db) now expected check_expiry

    -- From the second step on, with the code of the rank check.
    unfoldable pub update_ranked :
        ResultCode → ℕ → SessionContext → ℤ → WarrantUpdate → Bool → Db → ResultCode × Db
    unfolding update_checked
    update_ranked rank now session warrant u check_expiry db =
        if is_ok rank
        then update_checked now session warrant u
            (validate_state warrant now (codes "ISSUED") check_expiry db) db
        else (rank_insufficient, db)

    unfoldable pub execute_warrant : ℕ → SessionContext → ℤ → Db → ResultCode × Db
    unfolding update_ranked
    execute_warrant now session warrant db =
        update_ranked (validate_rank session (rank_index inspector)) now session warrant
          (sql_execute session.officer_id) true db

    unfoldable pub cancel_warrant : ℕ → SessionContext → ℤ → Bytes → Db → ResultCode × Db
    unfolding update_ranked
    cancel_warrant now session warrant reason db =
        if is_empty reason
        then (invalid_input, db)
        else update_ranked (validate_rank session (rank_index inspector)) now session warrant
            (sql_cancel session.officer_id reason) false db
