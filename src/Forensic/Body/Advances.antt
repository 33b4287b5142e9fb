-- ===== src/Forensic/Body/Advances.antt =====
-- What the operations of src/system/subsystem3/forensic/src/forensic_manager.cpp do to the status of a
-- request.
use justice_flow.Base.{
  ℕ, zero, suc, ◌≡◌, ◌⊎◌, refl, sym, ap, subst, ◌∙◌, Bool, true, false, Option, some, ℤ, int_eq,
  Bytes, bytes_eq, ◌==◌, arith, inl, inr, Bool-cases, not_true,
}
use justice_flow.Postgres.{ExecResult, command_ok, failed}
use justice_flow.Types.{ResultCode, ok, is_ok}
use justice_flow.Forensic.Status.{
  LabStatus, lab_str, Advance, Progress, here, onward, Progress-trans,
}
use justice_flow.Forensic.Repository.{
  ForensicDb, RequestRow, RequestUpdate, set_status, apply_request, take_bytes, update_status,
  update_fields, plain_code, status_code,
}
use justice_flow.Forensic.Body.{then_status}

-- The status text fits into the buffer.
pub take-lab_str : (f : LabStatus) → take_bytes 23 (lab_str f) ≡ lab_str f
unfolding lab_str
take-lab_str f = ground arith

unfoldable pub keeps_status : RequestUpdate → Bool
keeps_status (set_status s) = false
keeps_status _ = true

apply-keeps :
    (now : ℕ) (u : RequestUpdate) (r : RequestRow)
    → keeps_status u ≡ true
    → ((apply_request now u r).request_status ≡ r.request_status)
      × ((apply_request now u r).case_id ≡ r.case_id)
unfolding keeps_status
apply-keeps now (set_status s) r h = grind (arith, h)
apply-keeps now _ r h = (refl, refl)

module _ {Db : Type 0} (F : ForensicDb Db) where
  -- The row `j` in `db`, where a request that was in the state `f` with row `r` is now in `t`.
  unfoldable pub At : LabStatus → RequestRow → ℤ → Db → LabStatus → Type 0
  At f r j db t =
      (r1 : RequestRow) × (F.requests.find j db ≡ some r1)
      × (r1.case_id ≡ r.case_id)
      × (lab_str t ≡ r1.request_status)
      × Progress f t

  -- An UPDATE does its work on a row, or fails, or names another row.
  exec-row :
      (now : ℕ) (u : RequestUpdate) (k j : ℤ) (db : Db) (r1 : RequestRow) (o : ExecResult)
      → F.requests.find j db ≡ some r1
      → (F.requests.exec now u k db).0 ≡ o
      → ((F.requests.find j (F.requests.exec now u k db).1 ≡ some r1)
          × ((o ≡ failed) ⊎ ((k == j) ≡ false)))
        ⊎ ((k ≡ j)
            × (F.requests.find j (F.requests.exec now u k db).1 ≡ some (apply_request now u r1)))
  exec-row now u k j db r1 failed p h = inl (F.requests.exec_failed now u k db j h ∙ p, inl refl)
  exec-row now u k j db r1 (command_ok n) p h = elim (Bool-cases (k == j)) [
    | inl e ↦
        inr ((int_eq.test_iff k j).0 e, F.requests.exec_done now u k db n j h ∙ rw (e, p) refl)
    | inr e ↦ inl (F.requests.exec_done now u k db n j h ∙ rw e p, inr e)
  ]

  exec-At :
      (now : ℕ) (u : RequestUpdate) (k j : ℤ) (db : Db) (f t : LabStatus) (r : RequestRow)
      → keeps_status u ≡ true
      → At f r j db t
      → At f r j (F.requests.exec now u k db).1 t
  unfolding At
  exec-At now u k j db f t r h (r1, p, c, s, g) =
      elim (exec-row now u k j db r1 (F.requests.exec now u k db).0 p refl) [
        | inl (q, why) ↦ (r1, q, c, s, g)
        | inr (e, q) ↦ (
          apply_request now u r1,
          q,
          (apply-keeps now u r1 h).1 ∙ c,
          s ∙ sym (apply-keeps now u r1 h).0,
          g,
        )
      ]

  plain_code-db : (x : ExecResult × Db) → (plain_code F x).1 ≡ x.1
  unfolding plain_code
  plain_code-db (failed, db) = refl
  plain_code-db (command_ok n, db) = refl

  status_code-db : (x : ExecResult × Db) → (status_code F x).1 ≡ x.1
  unfolding status_code
  status_code-db (failed, db) = refl
  status_code-db (command_ok zero, db) = refl
  status_code-db (command_ok (suc n), db) = refl

  status_code-failed : (x : ExecResult × Db) → x.0 ≡ failed → is_ok (status_code F x).0 ≡ false
  unfolding status_code
  status_code-failed (failed, db) h = refl
  status_code-failed (command_ok zero, db) h = refl
  status_code-failed (command_ok (suc n), db) h = grind (arith, h)

  pub fields-At :
      (now : ℕ) (u : RequestUpdate) (k j : ℤ) (db : Db) (f t : LabStatus) (r : RequestRow)
      → keeps_status u ≡ true
      → At f r j db t
      → At f r j (update_fields F now k u db).1 t
  unfolding update_fields
  fields-At now u k j db f t r h a =
      rw (plain_code-db (F.requests.exec now u k db)) (exec-At now u k j db f t r h a)

  -- The same after a call with a code: where the code is OK, the request `k` is in `target`.
  unfoldable pub Reached : LabStatus → RequestRow → ℤ → ℤ → ResultCode × Db → LabStatus → Type 0
  Reached f r j k x target =
      (t : LabStatus) × At f r j x.1 t × (is_ok x.0 ≡ true → k ≡ j → t ≡ target)

  status-Reached :
      (now : ℕ) (s t : LabStatus) (k j : ℤ) (db : Db) (f : LabStatus) (r : RequestRow)
      → (k ≡ j → Advance t s)
      → At f r j db t
      → Reached f r j k (update_status F now k (lab_str s) db) s
  unfolding At Reached update_status
  status-Reached now s t k j db f r adv (r1, p, c, l, g) =
      let x = F.requests.exec now (set_status (lab_str s)) k db in
      elim (exec-row now (set_status (lab_str s)) k j db r1 x.0 p refl) [
        | inl (q, inl fails) ↦ (
          t,
          (r1, ap (F.requests.find j) (status_code-db x) ∙ q, c, l, g),
          λ h e. not_true (status_code-failed x fails) h,
        )
        | inl (q, inr other) ↦ (
          t,
          (r1, ap (F.requests.find j) (status_code-db x) ∙ q, c, l, g),
          λ h e. not_true other ((int_eq.test_iff k j).1 e),
        )
        | inr (e, q) ↦ (
          s,
          (
            apply_request now (set_status (lab_str s)) r1,
            ap (F.requests.find j) (status_code-db x) ∙ q,
            c,
            refl,
            Progress-trans g (onward (adv e) here),
          ),
          λ h e1. refl,
        )
      ]

  pub then-Reached :
      (now : ℕ) (s0 s : LabStatus) (k j : ℤ) (x : ResultCode × Db) (f : LabStatus) (r : RequestRow)
      (m : Bytes → Option ℤ)
      → (k ≡ j → Advance s0 s)
      → Reached f r j k x s0
      → Reached f r j k (then_status F m now k s x) s
  unfolding Reached then_status
  then-Reached now s0 s k j (ok, db) f r m adv (t, a, at) =
      status-Reached now s t k j db f r (λ e. subst (λ v. Advance v s) (sym (at refl e)) (adv e)) a
  then-Reached now s0 s k j (_, db) f r m adv (t, a, at) = (t, a, λ h e. not_true refl h)
