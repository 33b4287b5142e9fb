-- ===== src/Forensic/Repository.antt =====
-- The table of src/system/subsystem3/forensic/src/forensic_repository.cpp and the functions that
-- write it: the result with the database it leaves. `NOW()` and `time` are one clock. The triggers
-- on these statements write the evidence table.
use justice_flow.Base.{
  ℕ, zero, suc, ◌≡◌, Bool, true, false, Option, none, some, [], ◌++◌, ◌∷◌, ℤ, pos, Bytes, codes,
  to_decimal, int_decimal,
}
use justice_flow.Postgres.{Table, ExecResult, command_ok, failed}
use justice_flow.Types.{ResultCode, ok, not_found, db_error}

-- `SQL NULL` is `none`; dates are the texts that were written.
pub record RequestRow : Type 0 where
  pub request_number : Bytes
  pub case_id : ℤ
  pub request_status : Bytes
  pub lab_name : Bytes
  pub examiner_name : Bytes
  pub examination_purpose : Bytes
  pub purpose_description : Bytes
  pub authorized_by : ℤ
  pub created_at : ℕ
  pub received_by_lab_date : Option Bytes
  pub examination_start_date : Option ℕ
  pub findings : Option Bytes
  pub report_file_path : Option Bytes
  pub report_ready_date : Option ℕ
  pub report_delivered_date : Option Bytes
  pub is_contested : Bool
  pub contest_reason : Option Bytes
  pub contested_by : Option ℤ
  pub contested_at : Option ℕ
  pub updated_at : ℕ

pub record NewRequest : Type 0 where
  pub request_number : Bytes
  pub case_id : ℤ
  pub examination_purpose : Bytes
  pub purpose_description : Bytes
  pub lab_name : Bytes
  pub examiner_name : Bytes
  pub authorized_by : ℤ

-- The INSERT of `insertRequest`.
abbrev pub create_request : ℕ → NewRequest → RequestRow
create_request now n = record {
  request_number = n.request_number;
  case_id = n.case_id;
  request_status = codes "REQUESTED";
  lab_name = n.lab_name;
  examiner_name = n.examiner_name;
  examination_purpose = n.examination_purpose;
  purpose_description = n.purpose_description;
  authorized_by = n.authorized_by;
  created_at = now;
  received_by_lab_date = none;
  examination_start_date = none;
  findings = none;
  report_file_path = none;
  report_ready_date = none;
  report_delivered_date = none;
  is_contested = false;
  contest_reason = none;
  contested_by = none;
  contested_at = none;
  updated_at = now;
}

-- The UPDATE of each function, with its parameters.
pub data RequestUpdate : Type 0 where
  set_status : Bytes → RequestUpdate
  set_received_date : Bytes → RequestUpdate
  set_examination_start : RequestUpdate
  set_findings : Bytes → Bytes → Bytes → RequestUpdate
  set_amendment : Bytes → RequestUpdate
  set_contest : Bytes → ℤ → RequestUpdate

abbrev pub apply_request : ℕ → RequestUpdate → RequestRow → RequestRow
apply_request now (set_status status) r = record r { request_status = status; updated_at = now }
apply_request now (set_received_date date) r = record r {
  received_by_lab_date = some date;
  updated_at = now;
}
apply_request now set_examination_start r = record r {
  examination_start_date = some now;
  updated_at = now;
}
apply_request now (set_findings findings path date) r = record r {
  findings = some findings;
  report_file_path = some path;
  report_ready_date = some now;
  report_delivered_date = some date;
  updated_at = now;
}
apply_request now (set_amendment findings) r = record r {
  findings = some findings;
  updated_at = now;
}
apply_request now (set_contest reason officer) r = record r {
  is_contested = true;
  contest_reason = some reason;
  contested_by = some officer;
  contested_at = some now;
  updated_at = now;
}

-- What the query on an item of evidence shows: `is_deleted`, its status and its case.
pub record EvidenceInfo : Type 0 where
  pub is_deleted : Bytes
  pub evidence_status : Bytes
  pub case_id : ℤ

-- `date_epoch` is `EXTRACT(EPOCH FROM …)` of a stored date. `link` is the INSERT that joins evidence
-- to a request, and says whether it succeeded.
pub record ForensicDb (Db : Type 0) : Type 0 where
  pub requests : Table Db RequestRow RequestUpdate NewRequest apply_request create_request
  pub date_epoch : Bytes → ℤ
  pub case_status : ℤ → Db → Option Bytes
  pub evidence : ℤ → Db → Option EvidenceInfo
  pub cleared : Bytes → Db → Bytes
  pub link : ℕ → ℤ → ℤ → Bytes → Db → Bool × Db
  pub requests-link :
      (now : ℕ) (r e : ℤ) (notes : Bytes) (db : Db) (j : ℤ)
      → requests.find j (link now r e notes db).1 ≡ requests.find j db

-- The first n bytes.
abbrev pub take_bytes : ℕ → Bytes → Bytes
take_bytes zero s = []
take_bytes (suc n) [] = []
take_bytes (suc n) (c ∷ s) = c ∷ take_bytes n s

-- The parameters of the INSERT.
unfoldable pub request_of : ℕ → ℤ → Bytes → Bytes → Bytes → Bytes → ℤ → NewRequest
request_of now case_id purpose description lab examiner officer = record {
  request_number = codes "FR-" ++ (to_decimal now ++ (b'-' ∷ int_decimal case_id));
  case_id = case_id;
  examination_purpose = purpose;
  purpose_description = description;
  lab_name = lab;
  examiner_name = examiner;
  authorized_by = officer;
}

module _ {Db : Type 0} (F : ForensicDb Db) where
  -- The status is copied into 24 bytes with the final 0; the epoch of a NULL is 0.
  unfoldable pub current_of : Option RequestRow → Option (Bytes × ℤ)
  current_of none = none
  current_of (some r) = some (
    take_bytes 23 r.request_status,
    elim r.received_by_lab_date [ none ↦ pos 0 | some d ↦ F.date_epoch d ],
  )

  unfoldable pub fetch_current_status : ℤ → Db → Option (Bytes × ℤ)
  unfolding current_of
  fetch_current_status request db = current_of (F.requests.fetch request db)

  unfoldable pub status_code : ExecResult × Db → ResultCode × Db
  status_code (failed, db) = (db_error, db)
  status_code (command_ok zero, db) = (not_found, db)
  status_code (command_ok (suc n), db) = (ok, db)

  unfoldable pub update_status : ℕ → ℤ → Bytes → Db → ResultCode × Db
  unfolding status_code
  update_status now request status db =
      status_code (F.requests.exec now (set_status status) request db)

  unfoldable pub plain_code : ExecResult × Db → ResultCode × Db
  plain_code (failed, db) = (db_error, db)
  plain_code (command_ok n, db) = (ok, db)

  -- `updateReceivedDate`, `updateExaminationStartDate`, `updateFindings`, `updateAmendment` and
  -- `updateContest`, which differ in the statement only.
  unfoldable pub update_fields : ℕ → ℤ → RequestUpdate → Db → ResultCode × Db
  unfolding plain_code
  update_fields now request u db = plain_code (F.requests.exec now u request db)

  unfoldable pub inserted : Option ℤ × Db → ResultCode × Option ℤ × Db
  inserted (none, db) = (db_error, none, db)
  inserted (some k, db) = (ok, some k, db)

  -- The second part is `out_request_id`, which is written on success only.
  unfoldable pub insert_request :
      ℕ → ℤ → Bytes → Bytes → Bytes → Bytes → ℤ → Db → ResultCode × Option ℤ × Db
  unfolding inserted
  insert_request now case_id purpose description lab examiner officer db = inserted (
      F.requests.insert_row now (request_of now case_id purpose description lab examiner officer)
        db)

  unfoldable pub link_code : Bool × Db → ResultCode × Db
  link_code (true, db) = (ok, db)
  link_code (false, db) = (db_error, db)

  unfoldable pub insert_evidence_link : ℕ → ℤ → ℤ → Bytes → Db → ResultCode × Db
  unfolding link_code
  insert_evidence_link now request evidence notes db =
      link_code (F.link now request evidence notes db)
