-- ===== src/Forensic/Body/Moves.antt =====
-- The states that the operations of src/system/subsystem3/forensic/src/forensic_manager.cpp leave a request in.
use justice_flow.Base.{
  ℕ, ◌≡◌, refl, sym, ap, ◌∙◌, Bool, true, Option, none, some, ℤ, int_eq, Bytes, bytes_eq, arith,
  inl, inr, Bool-cases,
}
use justice_flow.Types.{ResultCode}
use justice_flow.Forensic.Status.{
  LabStatus, report_ready, lab_str, validate_transition, Advance, legal-Advance, here,
}
use justice_flow.Forensic.Repository.{
  ForensicDb, RequestRow, RequestUpdate, take_bytes, fetch_current_status, update_fields,
  current_of,
}
use justice_flow.Forensic.Body.{guarded, unless_state, unless_delivery}
use justice_flow.Forensic.Body.Advances.{take-lab_str, keeps_status, At, Reached, fields-At}

module _ {Db : Type 0} (F : ForensicDb Db) where
  -- What is found of the request `k` where it is the one in the state `f`.
  current_of-row :
      (o : Option RequestRow) (s : Bytes) (t : ℤ)
      → current_of F o ≡ some (s, t)
      → (r0 : RequestRow) × (o ≡ some r0) × (s ≡ take_bytes 23 r0.request_status)
  unfolding current_of
  current_of-row none s t h = grind (arith, h)
  current_of-row (some r0) s t h = (r0, refl, ap (λ o. elim o [ none ↦ s | some x ↦ x.0 ]) (sym h))

  pub current-status :
      (k j : ℤ) (db : Db) (f : LabStatus) (r : RequestRow) (s : Bytes) (t : ℤ)
      → F.requests.find j db ≡ some r
      → lab_str f ≡ r.request_status
      → fetch_current_status F k db ≡ some (s, t)
      → k ≡ j
      → s ≡ lab_str f
  unfolding fetch_current_status
  current-status k j db f r s t p q h e =
      let (r0, p0, l) = current_of-row (F.requests.fetch k db) s t h in
      let found = F.requests.fetch_shows k db r0 p0 in
      let same : r0.request_status ≡ r.request_status =
        ap (λ o. elim o [ none ↦ r0.request_status | some x ↦ x.request_status ])
          (sym found ∙ (ap (λ i. F.requests.find i db) e ∙ p)) in
      l ∙ (ap (take_bytes 23) (same ∙ sym q) ∙ take-lab_str f)

  pub unless_state-none :
      (allowed : Bytes → Bool) (o : Option (Bytes × ℤ))
      → unless_state allowed o ≡ none
      → (s : Bytes) × (t : ℤ) × (o ≡ some (s, t)) × (allowed s ≡ true)
  unfolding unless_state
  unless_state-none allowed none h = grind (arith, h)
  unless_state-none allowed (some (s, t)) h = elim (Bool-cases (allowed s)) [
    | inl e ↦ (s, t, refl, e)
    | inr e ↦ grind (arith, h, e)
  ]

  pub unless_delivery-none :
      (d : ℤ) (o : Option (Bytes × ℤ))
      → unless_delivery d o ≡ none
      → (s : Bytes) × (t : ℤ) × (o ≡ some (s, t))
        × (validate_transition s (lab_str report_ready) ≡ true)
  unfolding unless_delivery
  unless_delivery-none d none h = grind (arith, h)
  unless_delivery-none d (some (s, t)) h =
      elim (Bool-cases (validate_transition s (lab_str report_ready))) [
        | inl e ↦ (s, t, refl, e)
        | inr e ↦ grind (arith, h, e)
      ]

  -- The row of a request is there afterwards, for the same case, in a state that is reached from `f`.
  pub Later : LabStatus → RequestRow → ℤ → Db → Type 0
  Later f r j db = (t : LabStatus) × At F f r j db t

  pub guarded-Later :
      (m : Bytes → Option ℤ) (v : Option ResultCode) (x : ResultCode × Db) (db : Db) (f : LabStatus)
      (r : RequestRow) (j : ℤ)
      → Later f r j db
      → (v ≡ none → Later f r j x.1)
      → Later f r j (guarded F m v x db).1
  unfolding guarded
  guarded-Later m (some rc) x db f r j before after = before
  guarded-Later m none x db f r j before after = after refl

  pub unchanged :
      (f : LabStatus) (r : RequestRow) (j : ℤ) (db : Db)
      → F.requests.find j db ≡ some r
      → lab_str f ≡ r.request_status
      → Later f r j db
  unfolding Later At
  unchanged f r j db p q = (f, (r, p, refl, q, here))

  -- After fields were written the request is in the state it had.
  pub fields-Reached :
      (now : ℕ) (u : RequestUpdate) (k j : ℤ) (db : Db) (f : LabStatus) (r : RequestRow)
      → keeps_status u ≡ true
      → F.requests.find j db ≡ some r
      → lab_str f ≡ r.request_status
      → Reached F f r j k (update_fields F now k u db) f
  unfolding Reached At
  fields-Reached now u k j db f r h p q =
      (f, fields-At F now u k j db f f r h (r, p, refl, q, here), λ a b. refl)

  pub Reached-Later :
      (f : LabStatus) (r : RequestRow) (j k : ℤ) (x : ResultCode × Db) (s : LabStatus)
      → Reached F f r j k x s
      → Later f r j x.1
  unfolding Reached Later
  Reached-Later f r j k x s (t, a, at) = (t, a)

  pub legal-step :
      (f s : LabStatus) (text : Bytes)
      → text ≡ lab_str f
      → validate_transition text (lab_str s) ≡ true
      → Advance f s
  legal-step f s text e h = legal-Advance f s ((λ i. validate_transition (sym e i) (lab_str s)) ∙ h)
