-- ===== src/Forensic/Manager/Lifecycle.antt =====
-- The status of a request over the bodies of all operations of src/system/subsystem3/forensic/src/
-- forensic_manager.cpp.
use justice_flow.Base.{
  ℕ, ◌≡◌, ◌||◌, Option, some, ℤ, negsuc, pos, int_eq, int_ltb, Bytes, ◌==◌, is_empty, inl, inr,
  Bool-cases,
}
use justice_flow.Types.{SessionContext}
use justice_flow.Forensic.Status.{LabStatus, received_by_lab, under_examination, contested, lab_str}
use justice_flow.Forensic.Repository.{
  ForensicDb, RequestRow, set_received_date, set_examination_start, set_contest,
}
use justice_flow.Forensic.Body.{
  parse_date, record_lab_receipt, record_examination_start, contest_report,
}
use justice_flow.Forensic.Body.Moves.{Later, unchanged}
use justice_flow.Forensic.Body.Operations.{
  advance_to-Later, record_findings-Later, record_amendment-Later, link_evidence-Later,
  create-Later, date_kept, start_kept, contest_kept,
}
use justice_flow.Forensic.Manager.{
  ForensicCall, create_call, link_call, receipt_call, examination_call, findings_call,
  amendment_call, contest_call, query_call, body,
}

module _ {Db : Type 0} (F : ForensicDb Db) (m : Bytes → Option ℤ) where
  -- Whatever the body of an operation does and returns, a request that is in a state keeps its row
  -- and its case, and its status is one that follows by the order of the work: no state is skipped,
  -- none is left backwards, and a contested report stays contested, amended or not.
  pub body-Later :
      (c : ForensicCall) (now : ℕ) (s : SessionContext) (db : Db) (f : LabStatus) (r : RequestRow)
      (j : ℤ)
      → F.requests.find j db ≡ some r
      → lab_str f ≡ r.request_status
      → Later F f r j (body F m c now s db).1
  unfolding body record_lab_receipt record_examination_start contest_report
  body-Later (create_call case_id purpose description lab examiner) now s db f r j p q =
      create-Later F m now s case_id purpose description lab examiner j db f r p q
  body-Later (link_call k e notes) now s db f r j p q =
      link_evidence-Later F m now k e j notes db f r p q
  body-Later (receipt_call k date) now s db f r j p q =
      elim (Bool-cases
        (is_empty date || parse_date m date == negsuc 0 || int_ltb (pos now) (parse_date m date))) [
          | inl e ↦ rw e (unchanged F f r j db p q)
          | inr e ↦ rw e (
              advance_to-Later F m now k j received_by_lab (set_received_date date) db f r
                (date_kept date) p q)
        ]
  body-Later (examination_call k) now s db f r j p q =
      advance_to-Later F m now k j under_examination set_examination_start db f r start_kept p q
  body-Later (findings_call k findings path date) now s db f r j p q =
      record_findings-Later F m now k j findings path date db f r p q
  body-Later (amendment_call k findings) now s db f r j p q =
      record_amendment-Later F m now k j findings db f r p q
  body-Later (contest_call k reason) now s db f r j p q = elim (Bool-cases (is_empty reason)) [
    | inl e ↦ rw e (unchanged F f r j db p q)
    | inr e ↦ rw e (
        advance_to-Later F m now k j contested (set_contest reason s.officer_id) db f r
          (contest_kept reason s.officer_id) p q)
  ]
  body-Later (query_call n) now s db f r j p q = unchanged F f r j db p q
