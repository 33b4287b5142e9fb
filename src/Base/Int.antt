-- ===== src/Base/Int.antt =====
-- C++ `int`: its values, and `std::stoi`.
use Prim.Native.Nat.{ℕ, zero, suc, ◌^◌}
use mathlib.Core.Path.{◌≡◌}
use mathlib.Core.Logic.{◌↔◌}
use mathlib.Core.Bool.{Bool, true, false}
use mathlib.Core.Option.{Option, none, some}
use mathlib.Core.List.{[], ◌∷◌}
use native.Mathlib.Omega.{arith}
use justice_flow.Base.Tests.{ltb, eqb, if◌then◌else◌}
use justice_flow.Base.Keys.{Eq}
use justice_flow.Base.Text.{Bytes, skip_spaces, leading_number, to_decimal}

-- `negsuc n` is -(n + 1).
pub data ℤ : Type 0 where
  pos : ℕ → ℤ
  negsuc : ℕ → ℤ

unfoldable pub int_beq : ℤ → ℤ → Bool
int_beq (pos m) (pos n) = eqb m n
int_beq (negsuc m) (negsuc n) = eqb m n
int_beq (pos m) (negsuc n) = false
int_beq (negsuc m) (pos n) = false

pub int_beq_iff : (a b : ℤ) → (int_beq a b ≡ true) ↔ (a ≡ b)
unfolding int_beq
int_beq_iff (pos m) (pos n) = ground arith
int_beq_iff (negsuc m) (negsuc n) = ground arith
int_beq_iff (pos m) (negsuc n) = ground arith
int_beq_iff (negsuc m) (pos n) = ground arith

instance abbrev pub int_eq : Eq ℤ
int_eq = record { test = int_beq; test_iff = int_beq_iff }

-- `n > 0`.
abbrev pub is_positive : ℤ → Bool
is_positive (pos n) = ltb 0 n
is_positive (negsuc n) = false

-- What `std::stoi` does: it returns, or throws `std::invalid_argument` or `std::out_of_range`.
pub data Stoi : Type 0 where
  value : ℤ → Stoi
  invalid_argument out_of_range : Stoi

abbrev positive_int : Option ℕ → Stoi
positive_int none = invalid_argument
positive_int (some n) = if ltb n (2 ^ 31) then value (pos n) else out_of_range

abbrev negative_int : Option ℕ → Stoi
negative_int none = invalid_argument
negative_int (some zero) = value (pos 0)
negative_int (some (suc n)) = if ltb n (2 ^ 31) then value (negsuc n) else out_of_range

signed_int : Bytes → Stoi
signed_int [] = invalid_argument
signed_int (c ∷ s) =
    if eqb c b'-'
    then negative_int (leading_number none s)
    else if eqb c b'+'
    then positive_int (leading_number none s)
    else positive_int (leading_number none (c ∷ s))

unfoldable pub stoi : Bytes → Stoi
unfolding signed_int leading_number skip_spaces
stoi s = signed_int (skip_spaces s)

-- `%d`.
unfoldable pub int_decimal : ℤ → Bytes
unfolding to_decimal
int_decimal (pos n) = to_decimal n
int_decimal (negsuc n) = b'-' ∷ to_decimal (suc n)

-- `m < n`.
abbrev pub int_ltb : ℤ → ℤ → Bool
int_ltb (pos m) (pos n) = ltb m n
int_ltb (negsuc m) (pos n) = true
int_ltb (pos m) (negsuc n) = false
int_ltb (negsuc m) (negsuc n) = ltb n m
