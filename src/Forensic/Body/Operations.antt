-- ===== src/Forensic/Body/Operations.antt =====
-- The operations of src/system/subsystem3/forensic/src/forensic_manager.cpp and the states that they leave a request in.
use justice_flow.Base.{
  ℕ, ◌≡◌, ◌≢◌, refl, sym, ap, ◌∙◌, Bool, true, false, ◌||◌, not, Option, none, some, ℤ, negsuc,
  int_eq, Bytes, bytes_eq, ◌==◌, is_empty, arith, if◌then◌else◌, inl, inr, Bool-cases, absurd,
}
use justice_flow.Types.{invalid_input, ResultCode, SessionContext}
use justice_flow.Forensic.Status.{
  LabStatus, report_ready, report_delivered, lab_str, validate_transition, deliver,
}
use justice_flow.Forensic.Repository.{
  ForensicDb, RequestRow, RequestUpdate, set_received_date, set_examination_start, set_findings,
  set_amendment, set_contest, fetch_current_status, update_fields, NewRequest, link_code, inserted,
  insert_evidence_link, insert_request, request_of,
}
use justice_flow.Forensic.Body.{
  guarded, then_status, unless_state, unless_delivery, advance_to, record_findings,
  record_amendment, link_evidence, create_forensic_request, parse_date, is_amendable,
  is_linkable_state, check_evidence, request_case, guarded_new, check_case, known_purpose,
}
use justice_flow.Forensic.Body.Advances.{keeps_status, then-Reached}
use justice_flow.Forensic.Body.Moves.{
  guarded-Later, fields-Reached, Reached-Later, legal-step, current-status, unless_state-none,
  unless_delivery-none, unchanged, Later,
}

pub date_kept : (s : Bytes) → keeps_status (set_received_date s) ≡ true
unfolding keeps_status
date_kept s = refl

pub start_kept : keeps_status set_examination_start ≡ true
unfolding keeps_status
start_kept = refl

pub contest_kept : (s : Bytes) (o : ℤ) → keeps_status (set_contest s o) ≡ true
unfolding keeps_status
contest_kept s o = refl

amendment_kept : (s : Bytes) → keeps_status (set_amendment s) ≡ true
unfolding keeps_status
amendment_kept s = refl

none-some : {r : RequestRow} → none ≢ some r
none-some h = grind (arith, h)

module _ {Db : Type 0} (F : ForensicDb Db) where
  module _ (m : Bytes → Option ℤ) where
    pub advance_to-Later :
        (now : ℕ) (k j : ℤ) (s : LabStatus) (u : RequestUpdate) (db : Db) (f : LabStatus)
        (r : RequestRow)
        → keeps_status u ≡ true
        → F.requests.find j db ≡ some r
        → lab_str f ≡ r.request_status
        → Later F f r j (advance_to F m now k s u db).1
    unfolding advance_to
    advance_to-Later now k j s u db f r h p q =
        guarded-Later F m
          (unless_state (λ v. validate_transition v (lab_str s)) (fetch_current_status F k db))
          (then_status F m now k s (update_fields F now k u db)) db f r j (unchanged F f r j db p q)
          (λ none_left.
            let (text, t, found, legal) =
              unless_state-none F (λ v. validate_transition v (lab_str s))
                (fetch_current_status F k db) none_left in
            Reached-Later F f r j k (then_status F m now k s (update_fields F now k u db)) s (
              then-Reached F now f s k j (update_fields F now k u db) f r m
                (λ e. legal-step F f s text (current-status F k j db f r text t p q found e) legal)
                (fields-Reached F now u k j db f r h p q)))

    pub record_findings-Later :
        (now : ℕ) (k j : ℤ) (findings path date : Bytes) (db : Db) (f : LabStatus) (r : RequestRow)
        → F.requests.find j db ≡ some r
        → lab_str f ≡ r.request_status
        → Later F f r j (record_findings F m now k findings path date db).1
    unfolding record_findings keeps_status
    record_findings-Later now k j findings path date db f r p q =
        let written = update_fields F now k (set_findings findings path date) db in
        let ready = then_status F m now k report_ready written in
        elim (Bool-cases (is_empty findings || is_empty path || parse_date m date == negsuc 0)) [
          | inl e ↦ rw e (unchanged F f r j db p q)
          | inr e ↦ rw e (
              guarded-Later F m (unless_delivery (parse_date m date) (fetch_current_status F k db))
                (then_status F m now k report_delivered ready) db f r j (unchanged F f r j db p q)
                (λ none_left.
                  let (text, t, found, legal) =
                    unless_delivery-none F (parse_date m date) (fetch_current_status F k db)
                      none_left in
                  Reached-Later F f r j k (then_status F m now k report_delivered ready)
                    report_delivered
                    (then-Reached F now report_ready report_delivered k j ready f r m (λ e. deliver)
                      (then-Reached F now f report_ready k j written f r m
                        (λ e.
                          legal-step F f report_ready text
                            (current-status F k j db f r text t p q found e) legal)
                        (fields-Reached F now (set_findings findings path date) k j db f r refl p
                          q)))))
        ]

    pub record_amendment-Later :
        (now : ℕ) (k j : ℤ) (findings : Bytes) (db : Db) (f : LabStatus) (r : RequestRow)
        → F.requests.find j db ≡ some r
        → lab_str f ≡ r.request_status
        → Later F f r j (record_amendment F m now k findings db).1
    unfolding record_amendment
    record_amendment-Later now k j findings db f r p q = elim (Bool-cases (is_empty findings)) [
      | inl e ↦ rw e (unchanged F f r j db p q)
      | inr e ↦ rw e (
          guarded-Later F m (unless_state is_amendable (fetch_current_status F k db))
            (update_fields F now k (set_amendment findings) db) db f r j (unchanged F f r j db p q)
            (λ none_left.
              Reached-Later F f r j k (update_fields F now k (set_amendment findings) db) f (
                fields-Reached F now (set_amendment findings) k j db f r (amendment_kept findings) p
                  q)))
    ]

    link_code-db : (x : Bool × Db) → (link_code F x).1 ≡ x.1
    unfolding link_code
    link_code-db (true, db) = refl
    link_code-db (false, db) = refl

    pub link_evidence-Later :
        (now : ℕ) (k e j : ℤ) (notes : Bytes) (db : Db) (f : LabStatus) (r : RequestRow)
        → F.requests.find j db ≡ some r
        → lab_str f ≡ r.request_status
        → Later F f r j (link_evidence F m now k e notes db).1
    unfolding link_evidence insert_evidence_link
    link_evidence-Later now k e j notes db f r p q =
        let linked = insert_evidence_link F now k e notes db in
        let checked =
          check_evidence (λ s. F.cleared s db) (F.evidence e db) (request_case F m k db) in
        guarded-Later F m (unless_state is_linkable_state (fetch_current_status F k db))
          (guarded F m checked linked db) db f r j (unchanged F f r j db p q)
          (λ a. guarded-Later F m checked linked db f r j (unchanged F f r j db p q) (λ b.
            unchanged F f r j linked.1
              (ap (F.requests.find j) (link_code-db (F.link now k e notes db))
                ∙ (F.requests-link now k e notes db j ∙ p))
              q))

    inserted-Later :
        (n : NewRequest) (now : ℕ) (j : ℤ) (db : Db) (x : Option ℤ × Db) (f : LabStatus)
        (r : RequestRow)
        → F.requests.insert_row now n db ≡ x
        → F.requests.find j db ≡ some r
        → lab_str f ≡ r.request_status
        → Later F f r j (inserted F x).2
    unfolding inserted
    inserted-Later n now j db (none, db') f r h p q =
        unchanged F f r j db'
          (ap (λ x. F.requests.find j x.1) (sym h)
            ∙ (F.requests.insert_failed now n db j (ap (λ x. x.0) h) ∙ p))
          q
    inserted-Later n now j db (some k, db') f r h p q =
        unchanged F f r j db'
          (ap (λ x. F.requests.find j x.1) (sym h)
            ∙ (F.requests.insert_done now n db k j (ap (λ x. x.0) h) ∙ elim (Bool-cases (k == j)) [
              | inl e ↦ absurd (
                  none-some (
                    sym (F.requests.insert_fresh now n db k (ap (λ x. x.0) h))
                    ∙ (ap (λ i. F.requests.find i db) ((int_eq.test_iff k j).0 e) ∙ p)))
              | inr e ↦ rw e p
            ]))
          q

    guarded_new-Later :
        (v : Option ResultCode) (x : ResultCode × Option ℤ × Db) (db : Db) (f : LabStatus)
        (r : RequestRow) (j : ℤ)
        → Later F f r j db
        → Later F f r j x.2
        → Later F f r j (guarded_new F m v x db).2
    unfolding guarded_new
    guarded_new-Later (some rc) x db f r j before after = before
    guarded_new-Later none x db f r j before after = after

    pub create-Later :
        (now : ℕ) (s : SessionContext) (case_id : ℤ) (purpose description lab examiner : Bytes)
        (j : ℤ) (db : Db) (f : LabStatus) (r : RequestRow)
        → F.requests.find j db ≡ some r
        → lab_str f ≡ r.request_status
        → Later F f r j
            (create_forensic_request F m now s case_id purpose description lab examiner db).2
    unfolding create_forensic_request insert_request
    create-Later now s case_id purpose description lab examiner j db f r p q =
        guarded_new-Later (check_case (F.case_status case_id db))
          (if not (known_purpose purpose)
              || is_empty lab
              || is_empty examiner
              || is_empty description
            then (invalid_input, none, db)
            else insert_request F now case_id purpose description lab examiner s.officer_id db)
          db f r j (unchanged F f r j db p q)
          (elim (Bool-cases (
            not (known_purpose purpose)
            || is_empty lab
            || is_empty examiner
            || is_empty description)) [
              | inl e ↦ rw e (unchanged F f r j db p q)
              | inr e ↦ rw e (
                  inserted-Later _ now j db
                    (F.requests.insert_row now
                      (request_of now case_id purpose description lab examiner s.officer_id) db)
                    f r refl p q)
            ])
