-- ===== src/Enforcement/Arrest/Recorded.antt =====
-- What `recordArrest` of src/system/subsystem3/enforcement/src/arrest_manager.cpp does to the arrests.
use justice_flow.Base.{
  ℕ, ◌≡◌, refl, sym, ◌∙◌, Bool, true, false, inl, inr, Option, none, some, ℤ, Bytes, codes, int_eq,
  ◌==◌, if◌then◌else◌, Bool-cases, is_positive, not, ◌&&◌, and_false,
}
use justice_flow.Types.{ResultCode, ok, is_ok, SessionContext}
use justice_flow.Enforcement.Database.{
  EnforcementDb, NewArrest, create_arrest, sql_execute_warrant_on_arrest, document_number,
}
use justice_flow.Enforcement.Arrest.{
  execute_warrant, record_inserted, record_with_vars, record_arrest, warrant_param,
}

-- The row that `recordArrest` asks for.
unfoldable pub arrest_of : ℕ → SessionContext → ℤ → Bytes → Bytes → ℤ → NewArrest
unfolding document_number
arrest_of now session case_id cnic location warrant = record {
  arrest_number = document_number (codes "AR-") now session.officer_id;
  accused_cnic = cnic;
  case_id = case_id;
  warrant_id = warrant_param warrant;
  arresting_officer_id = session.officer_id;
  arrest_location = location;
}

module _ {Db : Type 0} (E : EnforcementDb Db) where
  -- The row of the new arrest, or no change.
  unfoldable pub Recorded : ℕ → NewArrest → Db → ResultCode × Option ℤ × Db → Type 0
  Recorded now n db (rc, none, db') =
      (is_ok rc ≡ false) × ((j : ℤ) → E.arrests.find j db' ≡ E.arrests.find j db)
  Recorded now n db (rc, some k, db') =
      (rc ≡ ok)
      × (E.arrests.find k db ≡ none)
      × ((j : ℤ)
          → E.arrests.find j db'
            ≡ (if k == j then some (create_arrest now n) else E.arrests.find j db))

  execute_warrant-arrests :
      (now : ℕ) (session : SessionContext) (w : ℤ) (db : Db) (j : ℤ)
      → E.arrests.find j (execute_warrant E now session w db) ≡ E.arrests.find j db
  unfolding execute_warrant
  execute_warrant-arrests now session w db j = elim (Bool-cases (is_positive w)) [
    | inl e ↦ rw e (E.arrests-exec now (sql_execute_warrant_on_arrest session.officer_id) w db j)
    | inr e ↦ rw e refl
  ]

  inserted-Recorded :
      (now : ℕ) (session : SessionContext) (w : ℤ) (n : NewArrest) (db : Db) (x : Option ℤ × Db)
      → ((k : ℤ) → x.0 ≡ some k → E.arrests.find k db ≡ none)
      → ((k j : ℤ)
          → x.0 ≡ some k
          → E.arrests.find j x.1
            ≡ (if k == j then some (create_arrest now n) else E.arrests.find j db))
      → ((j : ℤ) → x.0 ≡ none → E.arrests.find j x.1 ≡ E.arrests.find j db)
      → Recorded now n db (record_inserted E now session w x)
  unfolding Recorded record_inserted
  inserted-Recorded now session w n db (none, db') fresh done fail = (refl, λ j. fail j refl)
  inserted-Recorded now session w n db (some k, db') fresh done fail =
      (refl, fresh k refl, λ j. execute_warrant-arrests now session w db' j ∙ done k j refl)

  with_vars-Recorded :
      (now : ℕ) (session : SessionContext) (n : NewArrest) (w : ℤ) (db : Db) (x : Bool × Db)
      → ((j : ℤ) → E.arrests.find j x.1 ≡ E.arrests.find j db)
      → Recorded now n db (record_with_vars E now session n w x)
  unfolding Recorded record_with_vars
  with_vars-Recorded now session n w db (false, db') p = (refl, p)
  with_vars-Recorded now session n w db (true, db') p =
      inserted-Recorded now session w n db (E.arrests.insert_row now n db')
        (λ k e. sym (p k) ∙ E.arrests.insert_fresh now n db' k e)
        (λ k j e. rw (sym (p j)) (E.arrests.insert_done now n db' k j e))
        (λ j e. E.arrests.insert_failed now n db' j e ∙ p j)

  -- Recording an arrest that succeeds returns OK with a new id, under which there is now a row in
  -- custody with the number, accused, case, warrant and officer of the call, and every other arrest
  -- stays; where it fails, it returns no id and every arrest stays. An accused who is not among the
  -- persons is refused.
  pub record_arrest-Recorded :
      (now : ℕ) (session : SessionContext) (case_id : ℤ) (cnic location : Bytes) (w : ℤ) (db : Db)
      → Recorded now
          (arrest_of now session case_id cnic location w)
          db
          (record_arrest E now session case_id cnic location w db)
        × ((is_ok (record_arrest E now session case_id cnic location w db).0
              && not (E.person_exists cnic db))
            ≡ false)
  unfolding record_arrest arrest_of Recorded document_number
  record_arrest-Recorded now session case_id cnic location w db =
      elim (Bool-cases (E.person_exists cnic db)) [
        | inl e ↦ (
          rw e (
              with_vars-Recorded now session (arrest_of now session case_id cnic location w) w db
                (E.set_session_vars session.officer_id session.belt_number db)
                (λ j. E.arrests-vars session.officer_id session.belt_number db j)),
          rw e (
              and_false (
                is_ok
                  (record_with_vars E now session (arrest_of now session case_id cnic location w) w
                    (E.set_session_vars session.officer_id session.belt_number db)).0)),
        )
        | inr e ↦ (rw e (refl, λ j. refl), rw e refl)
      ]
