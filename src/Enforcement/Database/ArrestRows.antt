-- ===== src/Enforcement/Database/ArrestRows.antt =====
-- The table of arrests, by the SQL texts of src/system/subsystem3/enforcement/src/arrest_manager.cpp and
-- bail_manager.cpp.
use justice_flow.Base.{
  ℕ, Bool, true, false, ◌||◌, Option, none, some, ℤ, Bytes, codes, ◌==◌, bytes_eq, int_eq,
  if◌then◌else◌,
}

-- `SQL NULL` is `none`.
pub record ArrestRow : Type 0 where
  pub arrest_number : Bytes
  pub accused_cnic : Bytes
  pub case_id : ℤ
  pub warrant_id : Option ℤ
  pub arresting_officer_id : ℤ
  pub custody_status : Bytes
  pub arrest_location : Bytes
  pub release_reason : Option Bytes
  pub dispute_reason : Option Bytes
  pub is_disputed : Bool
  pub arrested_at : ℕ
  pub released_at : Option ℕ
  pub created_at : ℕ
  pub updated_at : ℕ

pub record NewArrest : Type 0 where
  pub arrest_number : Bytes
  pub accused_cnic : Bytes
  pub case_id : ℤ
  pub warrant_id : Option ℤ
  pub arresting_officer_id : ℤ
  pub arrest_location : Bytes

-- `SQL_INSERT_ARREST`; the columns it does not name are NULL, and `is_disputed` is FALSE.
abbrev pub create_arrest : ℕ → NewArrest → ArrestRow
create_arrest now n = record {
  arrest_number = n.arrest_number;
  accused_cnic = n.accused_cnic;
  case_id = n.case_id;
  warrant_id = n.warrant_id;
  arresting_officer_id = n.arresting_officer_id;
  custody_status = codes "IN_CUSTODY";
  arrest_location = n.arrest_location;
  release_reason = none;
  dispute_reason = none;
  is_disputed = false;
  arrested_at = now;
  released_at = none;
  created_at = now;
  updated_at = now;
}

-- `SQL_UPDATE_STATUS` with its status and reason, `SQL_SET_DISPUTED` with its reason, and the two
-- statements of bail_manager.cpp, `SQL_UPDATE_ARREST_BAIL_GRANTED` and `SQL_RESTORE_CUSTODY`.
pub data ArrestUpdate : Type 0 where
  sql_update_status : Bytes → Bytes → ArrestUpdate
  sql_set_disputed : Bytes → ArrestUpdate
  sql_update_arrest_bail_granted sql_restore_custody : ArrestUpdate

abbrev pub apply_arrest : ℕ → ArrestUpdate → ArrestRow → ArrestRow
apply_arrest now (sql_update_status status reason) r = record r {
  custody_status = status;
  release_reason = some reason;
  released_at =
      if status == codes "RELEASED" || status == codes "ESCAPED" then some now else r.released_at;
  updated_at = now;
}
apply_arrest now (sql_set_disputed reason) r = record r {
  is_disputed = true;
  dispute_reason = some reason;
  updated_at = now;
}
apply_arrest now sql_update_arrest_bail_granted r =
    if r.custody_status == codes "IN_CUSTODY"
    then record r { custody_status = codes "BAIL_GRANTED"; updated_at = now }
    else r
apply_arrest now sql_restore_custody r = record r {
  custody_status = codes "IN_CUSTODY";
  updated_at = now;
}
