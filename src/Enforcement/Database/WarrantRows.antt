-- ===== src/Enforcement/Database/WarrantRows.antt =====
-- The table of warrants, by the SQL texts of src/system/subsystem3/enforcement/src/warrant_manager.cpp
-- and arrest_manager.cpp.
use justice_flow.Base.{
  ℕ, Option, none, some, ℤ, Bytes, codes, ◌==◌, bytes_eq, int_eq, if◌then◌else◌,
}

pub record WarrantRow : Type 0 where
  pub warrant_number : Bytes
  pub case_id : ℤ
  pub accused_cnic : Bytes
  pub warrant_type : Bytes
  pub warrant_status : Bytes
  pub issuing_court : Bytes
  pub magistrate_name : Bytes
  pub target_address : Bytes
  pub issue_date : ℕ
  pub valid_until : Bytes
  pub requested_by : ℤ
  pub executed_by : Option ℤ
  pub executed_at : Option ℕ
  pub cancelled_by : Option ℤ
  pub cancellation_reason : Option Bytes
  pub cancelled_at : Option ℕ
  pub created_at : ℕ
  pub updated_at : ℕ

pub record NewWarrant : Type 0 where
  pub warrant_number : Bytes
  pub case_id : ℤ
  pub accused_cnic : Bytes
  pub warrant_type : Bytes
  pub issuing_court : Bytes
  pub magistrate_name : Bytes
  pub target_address : Bytes
  pub valid_until : Bytes
  pub requested_by : ℤ

-- `SQL_INSERT`.
abbrev pub create_warrant : ℕ → NewWarrant → WarrantRow
create_warrant now n = record {
  warrant_number = n.warrant_number;
  case_id = n.case_id;
  accused_cnic = n.accused_cnic;
  warrant_type = n.warrant_type;
  warrant_status = codes "ISSUED";
  issuing_court = n.issuing_court;
  magistrate_name = n.magistrate_name;
  target_address = n.target_address;
  issue_date = now;
  valid_until = n.valid_until;
  requested_by = n.requested_by;
  executed_by = none;
  executed_at = none;
  cancelled_by = none;
  cancellation_reason = none;
  cancelled_at = none;
  created_at = now;
  updated_at = now;
}

-- `SQL_EXECUTE_WARRANT_ON_ARREST`, `SQL_EXECUTE` and `SQL_CANCEL`.
pub data WarrantUpdate : Type 0 where
  sql_execute_warrant_on_arrest : ℤ → WarrantUpdate
  sql_execute : ℤ → WarrantUpdate
  sql_cancel : ℤ → Bytes → WarrantUpdate

abbrev execute_row : ℕ → ℤ → WarrantRow → WarrantRow
execute_row now officer r = record r {
  warrant_status = codes "EXECUTED";
  executed_by = some officer;
  executed_at = some now;
  updated_at = now;
}

-- The first statement has `AND warrant_status = 'ISSUED'` in its WHERE clause.
abbrev pub apply_warrant : ℕ → WarrantUpdate → WarrantRow → WarrantRow
apply_warrant now (sql_execute_warrant_on_arrest officer) r =
    if r.warrant_status == codes "ISSUED" then execute_row now officer r else r
apply_warrant now (sql_execute officer) r = execute_row now officer r
apply_warrant now (sql_cancel officer reason) r = record r {
  warrant_status = codes "CANCELLED";
  cancelled_by = some officer;
  cancellation_reason = some reason;
  cancelled_at = some now;
  updated_at = now;
}
