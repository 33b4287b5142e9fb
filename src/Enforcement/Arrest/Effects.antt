-- ===== src/Enforcement/Arrest/Effects.antt =====
-- What the updates of src/system/subsystem3/enforcement/src/arrest_manager.cpp do to the table.
use justice_flow.Base.{
  ℕ, ◌≡◌, refl, sym, Bool, true, false, ◌&&◌, inl, inr, Option, none, some, ℤ, Bytes, int_eq, ◌==◌,
  is_empty, if◌then◌else◌, arith, Bool-cases,
}
use justice_flow.Postgres.{ExecResult, command_ok, failed, map_row}
use justice_flow.Types.{ResultCode, ok, is_ok, invalid_input, SessionContext}
use justice_flow.Enforcement.Custody.{
  CustodyStatus, custody_str, is_legal_transition, Spelled, is_legal_transition_iff,
}
use justice_flow.Enforcement.Database.{
  EnforcementDb, ArrestRow, ArrestUpdate, apply_arrest, sql_update_status, sql_set_disputed,
}
use justice_flow.Enforcement.Arrest.{
  needs_reason, update_code, update_with_vars, update_custody_status, mark_as_disputed,
  validate_transition, check_status, update_checked,
}

module _ {Db : Type 0} (E : EnforcementDb Db) where
  -- The row with key `j` after an operation with code `rc` that was to do the update `u` to `k`.
  abbrev pub updated : ResultCode → ℕ → ArrestUpdate → ℤ → Db → ℤ → Option ArrestRow
  updated rc now u k db j =
      if is_ok rc && k == j
      then map_row (apply_arrest now u) (E.arrests.find j db)
      else E.arrests.find j db

  code-rows :
      (b : Bool) (j : ℤ) (A B : Option ArrestRow) (x : ExecResult × Db)
      → ((n : ℕ) → x.0 ≡ command_ok n → E.arrests.find j x.1 ≡ (if b then A else B))
      → (x.0 ≡ failed → E.arrests.find j x.1 ≡ B)
      → E.arrests.find j (update_code E x).1 ≡ (if is_ok (update_code E x).0 && b then A else B)
  unfolding update_code
  code-rows b j A B (command_ok n, db) done fail = done n refl
  code-rows b j A B (failed, db) done fail = fail refl

  with_vars-rows :
      (now : ℕ) (u : ArrestUpdate) (k : ℤ) (db : Db) (j : ℤ) (x : Bool × Db)
      → E.arrests.find j x.1 ≡ E.arrests.find j db
      → E.arrests.find j (update_with_vars E now u k x).1
        ≡ updated (update_with_vars E now u k x).0 now u k db j
  unfolding update_with_vars
  with_vars-rows now u k db j (false, db') p = p
  with_vars-rows now u k db j (true, db') p = rw (sym p) (
      code-rows (k == j) j (map_row (apply_arrest now u) (E.arrests.find j db'))
        (E.arrests.find j db') (E.arrests.exec now u k db')
        (λ n e. E.arrests.exec_done now u k db' n j e) (λ e. E.arrests.exec_failed now u k db' j e))

  check_status-refuses :
      (reads : Bytes → Bytes) (o : Option ArrestRow) (target : Bytes) (rc : ResultCode)
      → check_status reads o target ≡ some rc
      → is_ok rc ≡ false
  unfolding check_status
  check_status-refuses reads none target rc h = ground (arith, h)
  check_status-refuses reads (some r) target rc h = ground (arith, h)

  checked-rows :
      (now : ℕ) (session : SessionContext) (k : ℤ) (u : ArrestUpdate) (v : Option ResultCode)
      (db : Db) (j : ℤ)
      → ((rc : ResultCode) → v ≡ some rc → is_ok rc ≡ false)
      → E.arrests.find j (update_checked E now session k u v db).1
        ≡ updated (update_checked E now session k u v db).0 now u k db j
  unfolding update_checked
  checked-rows now session k u (some rc) db j h = rw (h rc refl) refl
  checked-rows now session k u none db j h =
      with_vars-rows now u k db j (E.set_session_vars session.officer_id session.belt_number db)
        (E.arrests-vars session.officer_id session.belt_number db j)

  -- A status update changes no row but the one it names, and that one exactly when it returns OK, by
  -- what the SQL text says: the new status with its reason, and the release time of a terminal one.
  pub update_custody_status-rows :
      (now : ℕ) (session : SessionContext) (arrest : ℤ) (status : CustodyStatus) (reason : Bytes)
      (db : Db) (j : ℤ)
      → E.arrests.find j (update_custody_status E now session arrest status reason db).1
        ≡ updated
            (update_custody_status E now session arrest status reason db).0
            now
            (sql_update_status (custody_str status) reason)
            arrest
            db
            j
  unfolding update_custody_status validate_transition
  update_custody_status-rows now session arrest status reason db j =
      elim (Bool-cases (needs_reason status && is_empty reason)) [
        | inl e ↦ rw e refl
        | inr e ↦ rw e (
            checked-rows now session arrest (sql_update_status (custody_str status) reason)
              (check_status (λ s. E.cleared s db) (E.arrests.fetch arrest db) (custody_str status))
              db j
              (check_status-refuses (λ s. E.cleared s db) (E.arrests.fetch arrest db)
                (custody_str status)))
      ]

  -- Marking an arrest as disputed changes no row but the one it names, and that one exactly when it
  -- returns OK: its custody status stays.
  pub mark_as_disputed-rows :
      (now : ℕ) (session : SessionContext) (arrest : ℤ) (reason : Bytes) (db : Db) (j : ℤ)
      → E.arrests.find j (mark_as_disputed E now session arrest reason db).1
        ≡ updated
            (mark_as_disputed E now session arrest reason db).0
            now
            (sql_set_disputed reason)
            arrest
            db
            j
  unfolding mark_as_disputed
  mark_as_disputed-rows now session arrest reason db j = elim (Bool-cases (is_empty reason)) [
    | inl e ↦ rw e refl
    | inr e ↦ rw e (
        with_vars-rows now (sql_set_disputed reason) arrest db j
          (E.set_session_vars session.officer_id session.belt_number db)
          (E.arrests-vars session.officer_id session.belt_number db j))
  ]

  checked-legal :
      (reads : Bytes → Bytes) (now : ℕ) (session : SessionContext) (k : ℤ) (u : ArrestUpdate)
      (o : Option ArrestRow) (target : Bytes) (db : Db)
      → (update_checked E now session k u (check_status reads o target) db).0 ≡ ok
      → (r : ArrestRow) × (o ≡ some r)
        × (is_legal_transition (reads r.custody_status) target ≡ true)
  unfolding update_checked check_status
  checked-legal reads now session k u none target db h = grind (arith, h)
  checked-legal reads now session k u (some r) target db h =
      elim (Bool-cases (is_legal_transition (reads r.custody_status) target)) [
        | inl e ↦ (r, refl, e)
        | inr e ↦ grind (arith, h, e)
      ]

  guarded-ok :
      (b : Bool) (db : Db) (x : ResultCode × Db)
      → (if b then (invalid_input, db) else x).0 ≡ ok
      → (b ≡ false) × (x.0 ≡ ok)
  guarded-ok true db x h = grind (arith, h)
  guarded-ok false db x h = (refl, h)

  -- A status update that returns OK found the row, was a step of the custody relation from the text
  -- that the row's status reads as once its result is cleared, and had a reason where the new status
  -- is terminal.
  pub update_custody_status-Step :
      (now : ℕ) (session : SessionContext) (arrest : ℤ) (status : CustodyStatus) (reason : Bytes)
      (db : Db)
      → (update_custody_status E now session arrest status reason db).0 ≡ ok
      → (r : ArrestRow) × (E.arrests.find arrest db ≡ some r)
        × Spelled (E.cleared r.custody_status db) (custody_str status)
        × ((needs_reason status && is_empty reason) ≡ false)
  unfolding update_custody_status validate_transition
  update_custody_status-Step now session arrest status reason db h =
      let (e, h') =
        guarded-ok (needs_reason status && is_empty reason) db
          (update_checked E now session arrest (sql_update_status (custody_str status) reason)
            (check_status (λ s. E.cleared s db) (E.arrests.fetch arrest db) (custody_str status))
            db)
          h in
      let (r, p, q) =
        checked-legal (λ s. E.cleared s db) now session arrest
          (sql_update_status (custody_str status) reason) (E.arrests.fetch arrest db)
          (custody_str status) db h' in
      (
        r,
        E.arrests.fetch_shows arrest db r p,
        (is_legal_transition_iff (E.cleared r.custody_status db) (custody_str status)).0 q,
        e,
      )
