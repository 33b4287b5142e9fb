-- ===== src/Enforcement/Database/BailRows.antt =====
-- The table of bails, by the SQL texts of src/system/subsystem3/enforcement/src/bail_manager.cpp.
use justice_flow.Base.{
  ℕ, Option, none, some, ℤ, Bytes, codes, bytes_eq, int_eq, is_empty, if◌then◌else◌,
}

pub record BailRow : Type 0 where
  pub bail_number : Bytes
  pub arrest_id : ℤ
  pub bail_status : Bytes
  pub bail_type : Bytes
  pub bail_amount : ℕ
  pub court_name : Bytes
  pub magistrate_name : Bytes
  pub valid_until : Option Bytes
  pub surety_name : Bytes
  pub surety_cnic : Bytes
  pub surety_contact : Bytes
  pub recorded_by : ℤ
  pub bail_date : ℕ
  pub revoked_by : Option ℤ
  pub revocation_reason : Option Bytes
  pub revoked_at : Option ℕ
  pub created_at : ℕ
  pub updated_at : ℕ

pub record NewBail : Type 0 where
  pub bail_number : Bytes
  pub arrest_id : ℤ
  pub bail_type : Bytes
  pub bail_amount : ℕ
  pub court_name : Bytes
  pub magistrate_name : Bytes
  pub valid_until : Bytes
  pub surety_name : Bytes
  pub surety_cnic : Bytes
  pub surety_contact : Bytes
  pub recorded_by : ℤ

-- `SQL_INSERT_BAIL`, with its `NULLIF($7, '')`.
abbrev pub create_bail : ℕ → NewBail → BailRow
create_bail now n = record {
  bail_number = n.bail_number;
  arrest_id = n.arrest_id;
  bail_status = codes "ACTIVE";
  bail_type = n.bail_type;
  bail_amount = n.bail_amount;
  court_name = n.court_name;
  magistrate_name = n.magistrate_name;
  valid_until = if is_empty n.valid_until then none else some n.valid_until;
  surety_name = n.surety_name;
  surety_cnic = n.surety_cnic;
  surety_contact = n.surety_contact;
  recorded_by = n.recorded_by;
  bail_date = now;
  revoked_by = none;
  revocation_reason = none;
  revoked_at = none;
  created_at = now;
  updated_at = now;
}

-- `SQL_REVOKE_BAIL` with its officer and reason.
pub data BailUpdate : Type 0 where
  sql_revoke_bail : ℤ → Bytes → BailUpdate

abbrev pub apply_bail : ℕ → BailUpdate → BailRow → BailRow
apply_bail now (sql_revoke_bail officer reason) r = record r {
  bail_status = codes "REVOKED";
  revoked_by = some officer;
  revocation_reason = some reason;
  revoked_at = some now;
  updated_at = now;
}
