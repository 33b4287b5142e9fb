-- ===== src/Enforcement/Arrest/History.antt =====
-- Sequences of calls of src/system/subsystem3/enforcement/src/arrest_manager.cpp on one database.
use justice_flow.Base.{
  ℕ, ◌≡◌, refl, sym, ap, subst, ◌∙◌, Bool, true, false, ◌&&◌, Option, none, some, List, [], ◌∷◌, ℤ,
  Bytes, int_eq, ◌==◌, if◌then◌else◌, arith, and_both,
}
use justice_flow.Postgres.{map_row}
use justice_flow.Types.{ResultCode, ok, is_ok, SessionContext}
use justice_flow.Enforcement.Custody.{
  CustodyStatus, custody_str, Step, Reaches, here, onward, Reaches-trans, Spelled-Step, is_terminal,
  terminal_stays,
}
use justice_flow.Enforcement.Database.{
  EnforcementDb, ArrestRow, ArrestUpdate, apply_arrest, sql_update_status, sql_set_disputed,
  NewArrest,
}
use justice_flow.Enforcement.Arrest.{update_custody_status, mark_as_disputed, record_arrest}
use justice_flow.Enforcement.Arrest.Effects.{
  updated, update_custody_status-rows, update_custody_status-Step, mark_as_disputed-rows,
}
use justice_flow.Enforcement.Arrest.Recorded.{Recorded, record_arrest-Recorded, arrest_of}

-- A call, with the time at which it is made and the session of the officer.
pub data ArrestCall : Type 0 where
  record_call : ℕ → SessionContext → ℤ → Bytes → Bytes → ℤ → ArrestCall
  update_call : ℕ → SessionContext → ℤ → CustodyStatus → Bytes → ArrestCall
  dispute_call : ℕ → SessionContext → ℤ → Bytes → ArrestCall

-- What a later row of an arrest in the state `f` may be.
pub Evolves : CustodyStatus → ArrestRow → ArrestRow → Type 0
Evolves f r r' =
    (t : CustodyStatus) × (custody_str t ≡ r'.custody_status)
    × Reaches f t
    × (r'.accused_cnic ≡ r.accused_cnic)
    × (r'.case_id ≡ r.case_id)
    × (r.is_disputed ≡ true → r'.is_disputed ≡ true)

stays : (f : CustodyStatus) (r : ArrestRow) → custody_str f ≡ r.custody_status → Evolves f r r
unfolding Evolves
stays f r p = (f, p, here, refl, refl, λ h. h)

disputed :
    (f : CustodyStatus) (r : ArrestRow) (now : ℕ) (reason : Bytes)
    → custody_str f ≡ r.custody_status
    → Evolves f r (apply_arrest now (sql_set_disputed reason) r)
unfolding Evolves
disputed f r now reason p = (f, p, here, refl, refl, λ h. refl)

stepped :
    (f t : CustodyStatus) (r : ArrestRow) (now : ℕ) (reason : Bytes)
    → Step f t
    → Evolves f r (apply_arrest now (sql_update_status (custody_str t) reason) r)
unfolding Evolves
stepped f t r now reason s = (t, refl, onward s here, refl, refl, λ h. h)

true-ok : (rc : ResultCode) → is_ok rc ≡ true → rc ≡ ok
true-ok ok h = refl
true-ok _ h = grind (arith, h)

module _ {Db : Type 0} (E : EnforcementDb Db) where
  -- The memory of a result reads as before once it is cleared, which the C library does not promise.
  abbrev pub ReadsOn : Type 0
  ReadsOn = (s : Bytes) (db : Db) → E.cleared s db ≡ s

  pub step : ArrestCall → Db → Db
  step (record_call now session case_id cnic location w) db =
      (record_arrest E now session case_id cnic location w db).2
  step (update_call now session arrest status reason) db =
      (update_custody_status E now session arrest status reason db).1
  step (dispute_call now session arrest reason) db =
      (mark_as_disputed E now session arrest reason db).1

  pub run : List ArrestCall → Db → Db
  run [] db = db
  run (c ∷ cs) db = run cs (step c db)

  -- The row of the arrest `j` in `db'`, which evolved from `r`.
  Later : CustodyStatus → ArrestRow → ℤ → Db → Type 0
  Later f r j db' = (r' : ArrestRow) × (E.arrests.find j db' ≡ some r') × Evolves f r r'

  Recorded-Later :
      (now : ℕ) (n : NewArrest) (db : Db) (x : ResultCode × Option ℤ × Db) (f : CustodyStatus)
      (r : ArrestRow) (j : ℤ)
      → Recorded E now n db x
      → E.arrests.find j db ≡ some r
      → custody_str f ≡ r.custody_status
      → Later f r j x.2
  unfolding Later Recorded
  Recorded-Later now n db (rc, none, db') f r j h p q = (r, h.1 j ∙ p, stays f r q)
  Recorded-Later now n db (rc, some k, db') f r j h p q =
      (r, ground (arith, h.2 j, h.1, p, int_eq.test_iff k j), stays f r q)

  chosen-Later :
      (b : Bool) (u : ArrestRow → ArrestRow) (f : CustodyStatus) (r : ArrestRow) (j : ℤ) (db' : Db)
      → E.arrests.find j db' ≡ (if b then map_row u (some r) else some r)
      → custody_str f ≡ r.custody_status
      → (b ≡ true → Evolves f r (u r))
      → Later f r j db'
  unfolding Later
  chosen-Later true u f r j db' p q h = (u r, p, h refl)
  chosen-Later false u f r j db' p q h = (r, p, stays f r q)

  update-Step :
      (now : ℕ) (session : SessionContext) (k : ℤ) (status : CustodyStatus) (reason : Bytes)
      (db : Db) (f : CustodyStatus) (r : ArrestRow)
      → ReadsOn
      → E.arrests.find k db ≡ some r
      → custody_str f ≡ r.custody_status
      → (update_custody_status E now session k status reason db).0 ≡ ok
      → Step f status
  update-Step now session k status reason db f r reads p q h =
      let (r0, p0, s, e) = update_custody_status-Step E now session k status reason db h in
      Spelled-Step f status (E.cleared r0.custody_status db)
        (q
          ∙ (ap (λ o. elim o [ none ↦ r.custody_status | some x ↦ x.custody_status ]) (sym p ∙ p0)
              ∙ sym (reads r0.custody_status db)))
        s

  rows-Later :
      (rc : ResultCode) (now : ℕ) (u : ArrestUpdate) (k : ℤ) (db db' : Db) (f : CustodyStatus)
      (r : ArrestRow) (j : ℤ)
      → E.arrests.find j db' ≡ updated E rc now u k db j
      → E.arrests.find j db ≡ some r
      → custody_str f ≡ r.custody_status
      → (rc ≡ ok → k ≡ j → Evolves f r (apply_arrest now u r))
      → Later f r j db'
  rows-Later rc now u k db db' f r j rows p q h =
      chosen-Later (is_ok rc && k == j) (apply_arrest now u) f r j db'
        (subst
          (λ o.
            E.arrests.find j db'
            ≡ (if is_ok rc && k == j then map_row (apply_arrest now u) o else o))
          p rows)
        q
        (λ e.
          let (a, b) = and_both (is_ok rc) (k == j) e in
          h (true-ok rc a) ((int_eq.test_iff k j).0 b))

  step-Later :
      (c : ArrestCall) (db : Db) (f : CustodyStatus) (r : ArrestRow) (j : ℤ)
      → ReadsOn
      → E.arrests.find j db ≡ some r
      → custody_str f ≡ r.custody_status
      → Later f r j (step c db)
  unfolding step
  step-Later (record_call now session case_id cnic location w) db f r j reads p q =
      Recorded-Later now (arrest_of now session case_id cnic location w) db
        (record_arrest E now session case_id cnic location w db) f r j
        (record_arrest-Recorded E now session case_id cnic location w db).0 p q
  step-Later (update_call now session k status reason) db f r j reads p q =
      rows-Later (update_custody_status E now session k status reason db).0 now
        (sql_update_status (custody_str status) reason) k db
        (update_custody_status E now session k status reason db).1 f r j
        (update_custody_status-rows E now session k status reason db j) p q
        (λ h e. stepped f status r now reason (
          update-Step now session k status reason db f r reads (ap (λ i. E.arrests.find i db) e ∙ p)
            q h))
  step-Later (dispute_call now session k reason) db f r j reads p q =
      rows-Later (mark_as_disputed E now session k reason db).0 now (sql_set_disputed reason) k db
        (mark_as_disputed E now session k reason db).1 f r j
        (mark_as_disputed-rows E now session k reason db j) p q (λ h e. disputed f r now reason q)

  Later-trans :
      (f : CustodyStatus) (r : ArrestRow) (j : ℤ) (db db' : Db)
      → ((g : CustodyStatus) (r1 : ArrestRow)
          → E.arrests.find j db ≡ some r1
          → custody_str g ≡ r1.custody_status
          → Later g r1 j db')
      → Later f r j db
      → Later f r j db'
  unfolding Later Evolves
  Later-trans f r j db db' next (r1, p1, (t, q1, s1, a1, c1, d1)) =
      let (r2, p2, (u, q2, s2, a2, c2, d2)) = next t r1 p1 q1 in
      (r2, p2, (u, q2, Reaches-trans s1 s2, a2 ∙ a1, c2 ∙ c1, λ h. d2 (d1 h)))

  pub run-Evolves :
      (cs : List ArrestCall) (db : Db) (f : CustodyStatus) (r : ArrestRow) (j : ℤ)
      → ReadsOn
      → E.arrests.find j db ≡ some r
      → custody_str f ≡ r.custody_status
      → (r' : ArrestRow) × (E.arrests.find j (run cs db) ≡ some r') × Evolves f r r'
  unfolding run Later
  run-Evolves [] db f r j reads p q = (r, p, stays f r q)
  run-Evolves (c ∷ cs) db f r j reads p q =
      Later-trans f r j (step c db) (run cs (step c db))
        (λ g r1 a b. run-Evolves cs (step c db) g r1 j reads a b) (step-Later c db f r j reads p q)

  -- The status of an arrest that is released or escaped is never changed again by any calls.
  pub run-terminal :
      (cs : List ArrestCall) (db : Db) (f : CustodyStatus) (r : ArrestRow) (j : ℤ)
      → ReadsOn
      → E.arrests.find j db ≡ some r
      → custody_str f ≡ r.custody_status
      → is_terminal f ≡ true
      → (r' : ArrestRow) × (E.arrests.find j (run cs db) ≡ some r')
        × (r'.custody_status ≡ r.custody_status)
  unfolding Evolves
  run-terminal cs db f r j reads p q h =
      let (r', p', (t, q', s, a, c, d)) = run-Evolves cs db f r j reads p q in
      (r', p', sym q' ∙ (ap custody_str (terminal_stays s h) ∙ q))
