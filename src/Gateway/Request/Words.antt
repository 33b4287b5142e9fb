-- ===== src/Gateway/Request/Words.antt =====
-- Pairs of an object whose value is a run of bytes, a number in decimal among them.
use justice_flow.Base.{
  ℕ, suc, ◌≡◌, refl, ap, true, false, none, some, [], ◌∷◌, ◌++◌, Bytes, All, eqb, skip_spaces,
  is_space, leading_number, bytes_eq, to_decimal, arith,
}
use justice_flow.Base.Dict.{Dict, insert}
use justice_flow.Gateway.Json.{
  returned, expect, expect_here, parse_value, parse_pair, parse_primitive, ends_primitive,
  after_comma, parse_pairs, json_quote,
}
use justice_flow.Gateway.Json.Strings.{parse_string-json_quote}
use justice_flow.Gateway.Rows.ReadBack.{IsPlainText}
use justice_flow.Gateway.Request.Decimal.{
  IsDigit, to_decimal-All, leading-to_decimal, primitive_body-word, digit-ends,
}

-- A value that is neither quoted nor white space.
pub value_of_word :
    (d : ℕ) (w : Bytes) (c : ℕ) (rest : Bytes)
    → eqb d b'"' ≡ false
    → ends_primitive d ≡ false
    → All (λ b. ends_primitive b ≡ false) w
    → ends_primitive c ≡ true
    → parse_value ((d ∷ w) ++ (c ∷ rest)) ≡ returned (d ∷ w, c ∷ rest)
unfolding parse_value parse_primitive skip_spaces
value_of_word d w c rest q e h k =
    let no_space : is_space d ≡ false = ground (arith, e) in
    rw (q, no_space) (ap returned (primitive_body-word (d ∷ w) c rest (e, h) k))

pub word_pair :
    (n : Bytes) (d : ℕ) (w : Bytes) (c : ℕ) (rest : Bytes)
    → IsPlainText n
    → eqb d b'"' ≡ false
    → ends_primitive d ≡ false
    → All (λ b. ends_primitive b ≡ false) w
    → ends_primitive c ≡ true
    → parse_pair (json_quote n ++ (b':' ∷ (d ∷ w) ++ (c ∷ rest)))
      ≡ returned (n, d ∷ w, skip_spaces (c ∷ rest))
unfolding parse_pair expect expect_here
word_pair n d w c rest p q e h k =
    let no_space : is_space d ≡ false = ground (arith, e) in
    rw
      (
        parse_string-json_quote n (b':' ∷ (d ∷ w) ++ (c ∷ rest)) p,
        no_space,
        value_of_word d w c rest q e h k,
      )
      refl

pub pairs_step :
    (fuel : ℕ) (obj : Dict Bytes Bytes) (c : ℕ) (s key val rest : Bytes)
    → parse_pair (c ∷ s) ≡ returned (key, val, b',' ∷ rest)
    → parse_pairs (suc fuel) obj (c ∷ s) ≡ parse_pairs fuel (insert key val obj) (skip_spaces rest)
unfolding parse_pairs after_comma
pairs_step fuel obj c s key val rest h = rw h refl

digits-end : (ds : Bytes) → All IsDigit ds → All (λ b. ends_primitive b ≡ false) ds
digits-end [] h = tt
digits-end (d ∷ ds) h = (digit-ends d h.0, digits-end ds h.1)

digits_pair :
    (key : Bytes) (n : ℕ) (ds rest : Bytes)
    → IsPlainText key
    → All IsDigit ds
    → leading_number none ds ≡ some n
    → parse_pair (json_quote key ++ (b':' ∷ ds ++ (b',' ∷ rest))) ≡ returned (key, ds, b',' ∷ rest)
unfolding leading_number skip_spaces
digits_pair key n [] rest p h e = ground (arith, e)
digits_pair key n (d ∷ ds) rest p h e =
    word_pair key d ds b',' rest p (ground (arith, h)) (digit-ends d h.0) (digits-end ds h.1) refl

-- A pair with a number in decimal, and a comma.
pub decimal_pair :
    (key : Bytes) (n : ℕ) (rest : Bytes)
    → IsPlainText key
    → parse_pair (json_quote key ++ (b':' ∷ to_decimal n ++ (b',' ∷ rest)))
      ≡ returned (key, to_decimal n, b',' ∷ rest)
decimal_pair key n rest p =
    digits_pair key n (to_decimal n) rest p (to_decimal-All n) (leading-to_decimal n)
