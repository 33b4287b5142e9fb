-- ===== src/Forensic/Body.antt =====
-- src/system/subsystem3/forensic/src/forensic_manager.cpp: what each operation does once the session,
-- the duty and, where it asks for one, the rank are checked. C strings are not null; a null one is
-- treated as an empty one by the source. `strptime` with `timegm` is the parameter `midnight`, none
-- where the text is no date.
pub mod Advances
pub mod Moves
pub mod Operations
use justice_flow.Base.{
  ℕ, Bool, true, false, ◌&&◌, ◌||◌, not, Option, none, some, List, [], ◌∷◌, ℤ, pos, negsuc, int_eq,
  int_ltb, Bytes, bytes_eq, codes, ◌==◌, any, is_empty, is_positive, if◌then◌else◌,
}
use justice_flow.Types.{ResultCode, ok, not_found, invalid_input, invalid_state, SessionContext}
use justice_flow.Forensic.Status.{
  LabStatus, received_by_lab, under_examination, report_ready, report_delivered, contested, lab_str,
  validate_transition,
}
use justice_flow.Forensic.Repository.{
  ForensicDb, RequestUpdate, set_received_date, set_examination_start, set_findings, set_amendment,
  set_contest, EvidenceInfo, fetch_current_status, update_status, update_fields, insert_request,
  insert_evidence_link,
}

purposes : List Bytes
purposes =
    codes "DNA_ANALYSIS"
    ∷ codes "FINGERPRINT_ANALYSIS"
    ∷ codes "TOXICOLOGY"
    ∷ codes "BALLISTICS"
    ∷ codes "DIGITAL_FORENSICS"
    ∷ codes "DOCUMENT_EXAMINATION"
    ∷ codes "OTHER"
    ∷ []

unfoldable pub known_purpose : Bytes → Bool
unfolding purposes
known_purpose purpose = any (λ p. purpose == p) purposes

-- The time of midnight, or -1.
abbrev pub parse_date : (Bytes → Option ℤ) → Bytes → ℤ
parse_date midnight s =
    if is_empty s then negsuc 0 else elim (midnight s) [ none ↦ negsuc 0 | some t ↦ t ]

is_linkable_state : Bytes → Bool
is_linkable_state s = s == codes "REQUESTED" || s == codes "RECEIVED_BY_LAB"

is_amendable : Bytes → Bool
is_amendable s = s == codes "REPORT_DELIVERED" || s == codes "CONTESTED"

-- The refusal by the state that was fetched, or none.
pub unless_state : (Bytes → Bool) → Option (Bytes × ℤ) → Option ResultCode
unless_state allowed none = some not_found
unless_state allowed (some (s, t)) = if allowed s then none else some invalid_state

-- The refusal of `recordFindings` by the state and the date of the receipt.
pub unless_delivery : ℤ → Option (Bytes × ℤ) → Option ResultCode
unless_delivery delivery none = some not_found
unless_delivery delivery (some (s, receipt)) =
    if validate_transition s (lab_str report_ready)
    then (if is_positive receipt && int_ltb delivery receipt then some invalid_input else none)
    else some invalid_state

-- The refusal of an item of evidence for a request of this case. `PQclear` runs before the two texts are
-- compared: `reads` is what the pointers to them then show. The case was converted before.
check_evidence : (Bytes → Bytes) → Option EvidenceInfo → Option ℤ → Option ResultCode
check_evidence reads none request_case = some not_found
check_evidence reads (some e) request_case =
    if reads e.is_deleted == codes "t" || reads e.is_deleted == codes "true"
    then some invalid_state
    else if not (
        reads e.evidence_status == codes "RECEIVED"
        || reads e.evidence_status == codes "SEALED"
        || reads e.evidence_status == codes "RETURNED_FROM_LAB")
    then some invalid_state
    else elim request_case [
      | none ↦ some not_found
      | some c ↦ if e.case_id == c then none else some invalid_input
    ]

check_case : Option Bytes → Option ResultCode
check_case none = some not_found
check_case (some s) =
    if s == codes "REGISTERED"
      || s == codes "UNDER_INVESTIGATION"
      || s == codes "EVIDENCE_COLLECTED"
    then none
    else some invalid_state

module _ {Db : Type 0} (F : ForensicDb Db) (midnight : Bytes → Option ℤ) where
  -- An early return with the refusal.
  pub guarded : Option ResultCode → ResultCode × Db → Db → ResultCode × Db
  guarded (some rc) x db = (rc, db)
  guarded none x db = x

  -- The status is written where the fields were.
  pub then_status : ℕ → ℤ → LabStatus → ResultCode × Db → ResultCode × Db
  then_status now request status (ok, db) = update_status F now request (lab_str status) db
  then_status now request status (rc, db) = (rc, db)

  -- `fetchCurrentStatus`, `_validateTransition`, one UPDATE of fields and one of the status.
  unfoldable pub advance_to : ℕ → ℤ → LabStatus → RequestUpdate → Db → ResultCode × Db
  unfolding guarded then_status unless_state
  advance_to now request status u db =
      guarded
        (unless_state (λ s. validate_transition s (lab_str status))
          (fetch_current_status F request db))
        (then_status now request status (update_fields F now request u db)) db

  unfoldable pub record_lab_receipt : ℕ → ℤ → Bytes → Db → ResultCode × Db
  record_lab_receipt now request date db =
      if is_empty date
        || parse_date midnight date == negsuc 0
        || int_ltb (pos now) (parse_date midnight date)
      then (invalid_input, db)
      else advance_to now request received_by_lab (set_received_date date) db

  unfoldable pub record_examination_start : ℕ → ℤ → Db → ResultCode × Db
  record_examination_start now request db =
      advance_to now request under_examination set_examination_start db

  unfoldable pub record_findings : ℕ → ℤ → Bytes → Bytes → Bytes → Db → ResultCode × Db
  unfolding guarded then_status unless_delivery
  record_findings now request findings path date db =
      if is_empty findings || is_empty path || parse_date midnight date == negsuc 0
      then (invalid_input, db)
      else guarded (unless_delivery (parse_date midnight date) (fetch_current_status F request db))
          (then_status now request report_delivered (
            then_status now request report_ready
              (update_fields F now request (set_findings findings path date) db)))
          db

  unfoldable pub contest_report : ℕ → SessionContext → ℤ → Bytes → Db → ResultCode × Db
  contest_report now session request reason db =
      if is_empty reason
      then (invalid_input, db)
      else advance_to now request contested (set_contest reason session.officer_id) db

  -- After the rank check, which no session passes.
  unfoldable pub record_amendment : ℕ → ℤ → Bytes → Db → ResultCode × Db
  unfolding guarded unless_state is_amendable
  record_amendment now request findings db =
      if is_empty findings
      then (invalid_input, db)
      else guarded (unless_state is_amendable (fetch_current_status F request db))
          (update_fields F now request (set_amendment findings) db) db

  request_case : ℤ → Db → Option ℤ
  request_case request db = elim (F.requests.fetch request db) [
    | none ↦ none
    | some r ↦ some r.case_id
  ]

  unfoldable pub link_evidence : ℕ → ℤ → ℤ → Bytes → Db → ResultCode × Db
  unfolding guarded unless_state is_linkable_state check_evidence request_case
  link_evidence now request evidence notes db =
      guarded (unless_state is_linkable_state (fetch_current_status F request db))
        (guarded
          (check_evidence (λ s. F.cleared s db) (F.evidence evidence db) (request_case request db))
          (insert_evidence_link F now request evidence notes db) db)
        db

  guarded_new : Option ResultCode → ResultCode × Option ℤ × Db → Db → ResultCode × Option ℤ × Db
  guarded_new (some rc) x db = (rc, none, db)
  guarded_new none x db = x

  -- After the rank check, which no session passes.
  unfoldable pub create_forensic_request :
      ℕ → SessionContext → ℤ → Bytes → Bytes → Bytes → Bytes → Db → ResultCode × Option ℤ × Db
  unfolding guarded_new check_case
  create_forensic_request now session case_id purpose description lab examiner db =
      guarded_new (check_case (F.case_status case_id db))
        (if not (known_purpose purpose) || is_empty lab || is_empty examiner || is_empty description
          then (invalid_input, none, db)
          else insert_request F now case_id purpose description lab examiner session.officer_id db)
        db
