-- ===== src/Cases/ChargeSheet/Lock.antt =====
-- A charge sheet of src/system/subsystem2 through any sequence of operations.
use justice_flow.Base.{
  ℕ, ◌≡◌, refl, true, false, some, List, [], ◌∷◌, ℤ, Bytes, All, is_empty, arith, Bool-cases, inl,
  inr, absurd,
}
use justice_flow.Types.{ResultCode, ok, record_locked}
use justice_flow.OsLayer.UnixSocket.{UnixSocket}
use justice_flow.Cases.ChargeSheet.{
  ChargeSheet, submitted_to_court, add_law_invoked, submit_to_magistrate,
}

-- An operation on the sheet at some time.
pub data Operation : Type 0 where
  adds_law : ℕ → Bytes → Operation
  submits : ℕ → ℤ → Operation

unfoldable pub apply_operation : Operation → ChargeSheet → ResultCode × ChargeSheet
unfolding add_law_invoked submit_to_magistrate
apply_operation (adds_law now law) sheet = add_law_invoked now law sheet
apply_operation (submits now officer_id) sheet = submit_to_magistrate now officer_id sheet

-- The codes of a sequence of operations, and the sheet after them.
unfoldable pub operate_all : List Operation → ChargeSheet → List ResultCode × ChargeSheet
unfolding apply_operation
operate_all [] sheet = ([], sheet)
operate_all (o ∷ os) sheet =
    let first = apply_operation o sheet in
    let rest = operate_all os first.1 in (first.0 ∷ rest.0, rest.1)

apply_operation-locked :
    (o : Operation) (sheet : ChargeSheet)
    → sheet.is_locked ≡ true
    → apply_operation o sheet ≡ (record_locked, sheet)
unfolding apply_operation add_law_invoked submit_to_magistrate
apply_operation-locked (adds_law now law) sheet h = rw h refl
apply_operation-locked (submits now officer_id) sheet h = rw h refl

-- A locked sheet is refused every operation with RECORD_LOCKED and stays as it is.
pub operate_all-locked :
    (os : List Operation) (sheet : ChargeSheet)
    → sheet.is_locked ≡ true
    → ((operate_all os sheet).1 ≡ sheet) × All (λ rc. rc ≡ record_locked) (operate_all os sheet).0
unfolding operate_all
operate_all-locked [] sheet h = (refl, tt)
operate_all-locked (o ∷ os) sheet h =
    rw (apply_operation-locked o sheet h)
      (let rest = operate_all-locked os sheet h in (rest.0, (refl, rest.1)))

-- A locked sheet names a law and was submitted.
pub IsLawful : ChargeSheet → Type 0
IsLawful sheet =
    sheet.is_locked ≡ true
    → (is_empty sheet.laws_invoked ≡ false) × (sheet.charge_sheet_status ≡ submitted_to_court)

apply_operation-IsLawful :
    (o : Operation) (sheet : ChargeSheet) → IsLawful sheet → IsLawful (apply_operation o sheet).1
unfolding IsLawful apply_operation add_law_invoked submit_to_magistrate
apply_operation-IsLawful (adds_law now law) sheet h = ground arith
apply_operation-IsLawful (submits now officer_id) sheet h = ground arith

-- From a sheet that is not locked, whatever is done, it is locked only with a law named and with the
-- status SUBMITTED_TO_COURT.
pub operate_all-IsLawful :
    (os : List Operation) (sheet : ChargeSheet) → IsLawful sheet → IsLawful (operate_all os sheet).1
unfolding operate_all
operate_all-IsLawful [] sheet h = h
operate_all-IsLawful (o ∷ os) sheet h =
    operate_all-IsLawful os (apply_operation o sheet).1 (apply_operation-IsLawful o sheet h)

abbrev locked_sheet : ℕ → ℤ → ChargeSheet → ChargeSheet
locked_sheet now officer_id sheet = record sheet {
  charge_sheet_status = submitted_to_court;
  submitted_to_court_at = some now;
  submitted_by = some officer_id;
  updated_at = some now;
  is_locked = true;
  locked_at = some now;
  locked_by = some officer_id;
}

-- What a submission that returns OK found and left.
submitted-ok :
    (now : ℕ) (officer_id : ℤ) (sheet : ChargeSheet)
    → (submit_to_magistrate now officer_id sheet).0 ≡ ok
    → (is_empty sheet.laws_invoked ≡ false)
      × ((submit_to_magistrate now officer_id sheet).1 ≡ locked_sheet now officer_id sheet)
unfolding submit_to_magistrate
submitted-ok now officer_id sheet h = elim (Bool-cases sheet.is_locked) [
  | inl e ↦ absurd (ground (arith, h, e))
  | inr e ↦ elim (Bool-cases (is_empty sheet.laws_invoked)) [
    | inl f ↦ absurd (ground (arith, h, e, f))
    | inr f ↦ (f, rw (e, f) refl)
  ]
]

-- A submission that returns OK found a law named and is the last change of the sheet: every later operation
-- is refused with RECORD_LOCKED, and the sheet keeps its laws, its officer, its time and its status
-- SUBMITTED_TO_COURT.
pub submission_stands :
    (now : ℕ) (officer_id : ℤ) (sheet : ChargeSheet) (later : List Operation)
    → (submit_to_magistrate now officer_id sheet).0 ≡ ok
    → let final : List ResultCode × ChargeSheet =
        operate_all later (submit_to_magistrate now officer_id sheet).1 in
      All (λ rc. rc ≡ record_locked) final.0
      × (is_empty final.1.laws_invoked ≡ false)
      × (final.1.laws_invoked ≡ sheet.laws_invoked)
      × (final.1.submitted_by ≡ some officer_id)
      × (final.1.submitted_to_court_at ≡ some now)
      × (final.1.charge_sheet_status ≡ submitted_to_court)
submission_stands now officer_id sheet later h =
    let (named, left) = submitted-ok now officer_id sheet h in
    let (same, refused) = operate_all-locked later (locked_sheet now officer_id sheet) refl in
    rw (left, same) (refused, named, refl, refl, refl, refl)
