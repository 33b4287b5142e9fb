-- ===== src/Gateway/Request/Decimal.antt =====
-- Numbers in decimal, as `std::stoul` and `parsePrimitive` of
-- src/os_layer/ipc/src/socket_request.cpp read them.
use justice_flow.Base.{
  ℕ, zero, suc, ◌+◌, ◌-◌, ◌*◌, ◌/◌, ◌%◌, ◌^◌, ◌<◌, ◌≡◌, refl, ◌∙◌, true, false, none, some, inl,
  inr, [], ◌∷◌, ◌++◌, Bytes, All, eqb, ltb, Bool-cases, is_digit, skip_spaces, leading_number,
  decimal_digits, to_decimal, absurd, arith,
}
use justice_flow.Gateway.Json.{primitive_body, ends_primitive}
use justice_flow.Gateway.Request.{stoul, strip_prefix, find_after}

abbrev pub IsDigit : ℕ → Type 0
IsDigit c = (47 < c) × (c < 58)

digits-All : (fuel n : ℕ) (acc : Bytes) → All IsDigit acc → All IsDigit (decimal_digits fuel n acc)
unfolding decimal_digits
digits-All zero n acc h = h
digits-All (suc fuel) n acc h = elim (Bool-cases (ltb n 10)) [
  | inl e ↦ rw e ((ground (arith, e), ground (arith, e)), h)
  | inr e ↦ rw e (digits-All fuel (n / 10) ((b'0' + n % 10) ∷ acc) ((omega arith, omega arith), h))
]

pub to_decimal-All : (n : ℕ) → All IsDigit (to_decimal n)
unfolding to_decimal
to_decimal-All n = digits-All (suc n) n [] tt

is_digit_lem : (d : ℕ) → d < 10 → is_digit (b'0' + d) ≡ true
is_digit_lem d h = ground arith

digits_value :
    (fuel n : ℕ) (acc : Bytes)
    → n < fuel
    → leading_number none (decimal_digits fuel n acc) ≡ leading_number (some n) acc
unfolding decimal_digits leading_number
digits_value zero n acc h = absurd (omega (arith, h))
digits_value (suc fuel) n acc h = elim (Bool-cases (ltb n 10)) [
  | inl e ↦ rw e (
      let same : b'0' + n - b'0' ≡ n = omega arith in
      rw (is_digit_lem n (ground (arith, e)), same) refl)
  | inr e ↦ rw e (
      digits_value fuel (n / 10) ((b'0' + n % 10) ∷ acc) (ground (arith, e, h))
      ∙ (let same : n / 10 * 10 + (b'0' + n % 10 - b'0') ≡ n = omega arith in
          rw (is_digit_lem (n % 10) (omega arith), same) refl))
]

pub leading-to_decimal : (n : ℕ) → leading_number none (to_decimal n) ≡ some n
unfolding to_decimal leading_number
leading-to_decimal n = digits_value (suc n) n [] (omega arith)

-- The text starts with a digit, which is no white space and no sign.
pub stoul-to_decimal : (n : ℕ) → n < 2 ^ 64 → stoul (to_decimal n) ≡ some n
unfolding stoul leading_number skip_spaces
stoul-to_decimal n h = go (to_decimal n) (to_decimal-All n) (leading-to_decimal n)
  where
    go : (s : Bytes) → All IsDigit s → leading_number none s ≡ some n → stoul s ≡ some n
    go [] k e = ground (arith, e)
    go (c ∷ s) k e = ground (arith, h, k, e)

-- A run of bytes that end no primitive, up to one that does.
pub primitive_body-word :
    (w : Bytes) (c : ℕ) (rest : Bytes)
    → All (λ d. ends_primitive d ≡ false) w
    → ends_primitive c ≡ true
    → primitive_body (w ++ (c ∷ rest)) ≡ (w, c ∷ rest)
unfolding primitive_body
primitive_body-word [] c rest h k = rw k refl
primitive_body-word (d ∷ w) c rest h k = rw (h.0, primitive_body-word w c rest h.1 k) refl

pub digit-ends : (c : ℕ) → IsDigit c → ends_primitive c ≡ false
digit-ends c h = ground arith

-- No digit starts a text that starts with a quote.
pub find_after-digits :
    (needle ds rest : Bytes)
    → All IsDigit ds
    → find_after (b'"' ∷ needle) (ds ++ rest) ≡ find_after (b'"' ∷ needle) rest
unfolding find_after strip_prefix
find_after-digits needle [] rest h = refl
find_after-digits needle (d ∷ ds) rest h =
    let other : eqb b'"' d ≡ false = ground (arith, h) in
    rw (other, find_after-digits needle ds rest h.1) refl
