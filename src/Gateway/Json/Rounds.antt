-- ===== src/Gateway/Json/Rounds.antt =====
-- The loop over the pairs of an object never runs out of fuel: every part of a pair leaves a text
-- that is no longer than the one it was given.
use justice_flow.Base.{
  ℕ, zero, suc, ◌≤◌, ◌≡◌, ◌≢◌, some, inl, inr, [], ◌∷◌, Bytes, length, eqb, skip_spaces, Bool-cases,
  Option-cases, bytes_eq, absurd, arith,
}
use justice_flow.Base.Dict.{Dict, insert}
use justice_flow.Gateway.Json.{
  Parse, returned, throws, stuck, ◌>>=◌, expect, expect_here, string_body, parse_string,
  primitive_body, parse_primitive, parse_value, parse_pair, after_comma, close_object, parse_pairs,
  object_inner, parse_object,
}

-- A result that is not stuck, and whose value, where there is one, is as `Q` says.
abbrev Ends {ℓ} : {A : Type ℓ} → (A → Type 0) → Parse A → Type 0
Ends Q (returned a) = Q a
Ends Q throws = Unit
Ends Q stuck = ⊥

Ends-bind {ℓ κ} :
    {A : Type ℓ} {B : Type κ} (P : A → Type 0) (Q : B → Type 0) (p : Parse A) (f : A → Parse B)
    → Ends P p
    → ((a : A) → P a → Ends Q (f a))
    → Ends Q (p >>= f)
Ends-bind P Q (returned a) f h k = k a h
Ends-bind P Q throws f h k = tt
Ends-bind P Q stuck f h k = h

string_body-length : (s : Bytes) → length (string_body s).1 ≤ length s
unfolding string_body
string_body-length [] = omega arith
string_body-length (c ∷ []) = ground arith
string_body-length (c ∷ d ∷ s) = ground (arith, string_body-length s, string_body-length (d ∷ s))

skip_spaces-length : (s : Bytes) → length (skip_spaces s) ≤ length s
unfolding skip_spaces
skip_spaces-length [] = omega arith
skip_spaces-length (c ∷ s) = ground (arith, skip_spaces-length s)

primitive_body-length : (s : Bytes) → length (primitive_body s).1 ≤ length s
unfolding primitive_body
primitive_body-length [] = omega arith
primitive_body-length (c ∷ s) = ground (arith, primitive_body-length s)

expect_here-Ends :
    (ch : ℕ) (s : Bytes) → Ends (λ rest. suc (length rest) ≤ length s) (expect_here ch s)
unfolding expect_here
expect_here-Ends ch [] = tt
expect_here-Ends ch (c ∷ s) = elim (Bool-cases (eqb c ch)) [
  | inl e ↦ rw e (omega arith)
  | inr e ↦ rw e tt
]

Ends-weaken {ℓ} :
    {A : Type ℓ} (P Q : A → Type 0) (p : Parse A) → Ends P p → ((a : A) → P a → Q a) → Ends Q p
Ends-weaken P Q (returned a) h k = k a h
Ends-weaken P Q throws h k = tt
Ends-weaken P Q stuck h k = h

expect-Ends : (ch : ℕ) (s : Bytes) → Ends (λ rest. suc (length rest) ≤ length s) (expect ch s)
unfolding expect
expect-Ends ch s =
    Ends-weaken _ _ (expect_here ch (skip_spaces s)) (expect_here-Ends ch (skip_spaces s))
      (λ rest h. omega (arith, h, skip_spaces-length s))

parse_string-Ends : (s : Bytes) → Ends (λ r. suc (length r.1) ≤ length s) (parse_string s)
unfolding parse_string
parse_string-Ends s =
    Ends-bind _ _ (expect b'"' (skip_spaces s)) _ (expect-Ends b'"' (skip_spaces s)) λ inner h.
      Ends-bind _ _ (expect b'"' (string_body inner).1) _ (expect-Ends b'"' (string_body inner).1)
        λ rest k. omega (arith, h, k, skip_spaces-length s, string_body-length inner)

parse_value-Ends : (s : Bytes) → Ends (λ r. length r.1 ≤ length s) (parse_value s)
unfolding parse_value parse_primitive
parse_value-Ends [] = omega arith
parse_value-Ends (c ∷ s) = elim (Bool-cases (eqb c b'"')) [
  | inl e ↦
      rw e (
        Ends-weaken _ _ (parse_string (c ∷ s)) (parse_string-Ends (c ∷ s))
          (λ r h. omega (arith, h)))
  | inr e ↦
      rw e (omega (arith, skip_spaces-length (c ∷ s), primitive_body-length (skip_spaces (c ∷ s))))
]

parse_pair-Ends : (s : Bytes) → Ends (λ r. suc (length r.2) ≤ length s) (parse_pair s)
unfolding parse_pair
parse_pair-Ends s = Ends-bind _ _ (parse_string s) _ (parse_string-Ends s) λ k h.
    Ends-bind _ _ (expect b':' (skip_spaces k.1)) _ (expect-Ends b':' (skip_spaces k.1)) λ after h'.
      Ends-bind _ _ (parse_value (skip_spaces after)) _ (parse_value-Ends (skip_spaces after))
        λ v h''. omega (
          arith,
          h,
          h',
          h'',
          skip_spaces-length k.1,
          skip_spaces-length after,
          skip_spaces-length v.1,
        )

close_object-Ends : (obj : Dict Bytes Bytes) (s : Bytes) → Ends (λ r. Unit) (close_object obj s)
unfolding close_object
close_object-Ends obj s = Ends-bind _ _ (expect b'}' s) _ (expect-Ends b'}' s) (λ rest h. tt)

after_comma-length : (s rest : Bytes) → after_comma s ≡ some rest → suc (length rest) ≤ length s
unfolding after_comma
after_comma-length [] rest e = ground (arith, e)
after_comma-length (c ∷ s) rest e = ground (arith, e)

parse_pairs-Ends :
    (fuel : ℕ) (obj : Dict Bytes Bytes) (s : Bytes)
    → length s ≤ fuel
    → Ends (λ r. Unit) (parse_pairs fuel obj s)
unfolding parse_pairs
parse_pairs-Ends fuel obj [] h = close_object-Ends obj []
parse_pairs-Ends zero obj (c ∷ s) h = absurd (omega (arith, h))
parse_pairs-Ends (suc fuel) obj (c ∷ s) h =
    Ends-bind _ _ (parse_pair (c ∷ s)) _ (parse_pair-Ends (c ∷ s)) λ r k.
      elim (Option-cases (after_comma r.2)) [
        | inl e ↦ rw e (close_object-Ends (insert r.0 r.1 obj) r.2)
        | inr (rest, e) ↦ rw e (
            parse_pairs-Ends fuel (insert r.0 r.1 obj) (skip_spaces rest)
              (omega (arith, h, k, after_comma-length r.2 rest e, skip_spaces-length rest)))
      ]

object_inner-Ends : (s : Bytes) → Ends (λ r. Unit) (object_inner s)
unfolding object_inner
object_inner-Ends [] = close_object-Ends [] []
object_inner-Ends (c ∷ s) = elim (Bool-cases (eqb c b'}')) [
  | inl e ↦ rw e tt
  | inr e ↦ rw e (parse_pairs-Ends (suc (length s)) [] (c ∷ s) (omega arith))
]

Ends-not_stuck {ℓ} : {A : Type ℓ} (Q : A → Type 0) (p : Parse A) → Ends Q p → p ≢ stuck
Ends-not_stuck Q (returned a) h e = ground (arith, e)
Ends-not_stuck Q throws h e = ground (arith, e)
Ends-not_stuck Q stuck h e = h

-- On every text `parseObject` returns or throws: its loop ends within one round per byte.
pub parse_object-ends : (s : Bytes) → parse_object s ≢ stuck
unfolding parse_object
parse_object-ends s =
    Ends-not_stuck (λ r. Unit) (parse_object s)
      (Ends-bind _ _ (expect b'{' (skip_spaces s)) _ (expect-Ends b'{' (skip_spaces s))
        (λ inner h. object_inner-Ends (skip_spaces inner)))
