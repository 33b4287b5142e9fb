-- ===== src/Auth/Token/Format.antt =====
-- The tokens that the generator makes, against the UUID check of the gateway.
use justice_flow.Base.{
  hex_digit, hex_byte, ℕ, zero, suc, ◌+◌, ◌/◌, ◌%◌, ◌<◌, ◌≡◌, refl, bit_and, bit_or, Bool, true,
  ◌&&◌, ◌⊎◌, List, [], ◌∷◌, Bytes, All, eqb, eqb_iff, length, get_or, set, arith, ap, ◌∙◌,
}
use justice_flow.Auth.Token.{
  generate, bytes_read, is_valid_uuid, is_hex, format_uuid, stamp, hex_bytes,
}

hex_digit-is_hex : (d : ℕ) → d < 16 → is_hex (hex_digit d) ≡ true
unfolding hex_digit is_hex
hex_digit-is_hex d h = ground arith

-- A test that succeeds on every number below a bound.
passes_below : (ℕ → Bool) → ℕ → Bool
passes_below test zero = true
passes_below test (suc k) = passes_below test k && test k

passes_below-lt : (test : ℕ → Bool) (k b : ℕ) → b < k → passes_below test k ≡ true → test b ≡ true
unfolding passes_below
passes_below-lt test zero b lt h = absurd (omega arith)
passes_below-lt test (suc k) b lt h = ground (arith, passes_below-lt test k b)

version_table : passes_below (λ b. eqb (bit_or (bit_and b 0x0f) 0x40) (64 + b % 16)) 256 ≡ true
unfolding passes_below
version_table = refl

variant_table : passes_below (λ b. eqb (bit_or (bit_and b 0x3f) 0x80) (128 + b % 64)) 256 ≡ true
unfolding passes_below
variant_table = refl

version_byte : (b : ℕ) → b < 256 → bit_or (bit_and b 0x0f) 0x40 ≡ 64 + b % 16
version_byte b h = (eqb_iff _ _).0 (passes_below-lt _ 256 b h version_table)

variant_byte : (b : ℕ) → b < 256 → bit_or (bit_and b 0x3f) 0x80 ≡ 128 + b % 64
variant_byte b h = (eqb_iff _ _).0 (passes_below-lt _ 256 b h variant_table)

hex_high : (b : ℕ) → b < 256 → is_hex (hex_digit (b / 16)) ≡ true
hex_high b h = hex_digit-is_hex (b / 16) (omega arith)

hex_low : (b : ℕ) → is_hex (hex_digit (b % 16)) ≡ true
hex_low b = hex_digit-is_hex (b % 16) (omega arith)

module _ (r : ℕ → ℕ) (h : (i : ℕ) → r i < 256) where
  high : (i : ℕ) → is_hex (hex_digit (r i / 16)) ≡ true
  high i = hex_high (r i) (h i)

  low : (i : ℕ) → is_hex (hex_digit (r i % 16)) ≡ true
  low i = hex_low (r i)

  format_uuid-valid : is_valid_uuid (format_uuid r) ≡ true
  unfolding is_valid_uuid format_uuid hex_bytes hex_byte
  format_uuid-valid = simp (high, low)

set-All :
    (bs : List ℕ) (i v : ℕ) → All (λ b. b < 256) bs → v < 256 → All (λ b. b < 256) (set bs i v)
set-All [] i v h lt = tt
set-All (b ∷ bs) zero v h lt = (lt, h.1)
set-All (b ∷ bs) (suc i) v h lt = (h.0, set-All bs i v h.1 lt)

get_or-lt : (bs : List ℕ) (i : ℕ) → All (λ b. b < 256) bs → get_or bs i 0 < 256
get_or-lt [] i h = omega arith
get_or-lt (b ∷ bs) zero h = h.0
get_or-lt (b ∷ bs) (suc i) h = get_or-lt bs i h.1

length-set : (bs : List ℕ) (i v : ℕ) → length (set bs i v) ≡ length bs
length-set [] i v = refl
length-set (b ∷ bs) zero v = refl
length-set (b ∷ bs) (suc i) v = ap suc (length-set bs i v)

get_or-set_self : (bs : List ℕ) (i v : ℕ) → i < length bs → get_or (set bs i v) i 0 ≡ v
get_or-set_self [] i v h = absurd (omega arith)
get_or-set_self (b ∷ bs) zero v h = refl
get_or-set_self (b ∷ bs) (suc i) v h = get_or-set_self bs i v (omega arith)

get_or-set_ne : (bs : List ℕ) (i j v : ℕ) → (i ≡ j → ⊥) → get_or (set bs i v) j 0 ≡ get_or bs j 0
get_or-set_ne [] i j v h = refl
get_or-set_ne (b ∷ bs) zero zero v h = absurd (h refl)
get_or-set_ne (b ∷ bs) zero (suc j) v h = refl
get_or-set_ne (b ∷ bs) (suc i) zero v h = refl
get_or-set_ne (b ∷ bs) (suc i) (suc j) v h = get_or-set_ne bs i j v (λ e. h (ap suc e))

module _ (bs : List ℕ) (h : All (λ b. b < 256) bs) (n : length bs ≡ 16) where
  version_lt : bit_or (bit_and (get_or bs 6 0) 0x0f) 0x40 < 256
  version_lt = rw (version_byte _ (get_or-lt bs 6 h)) (omega arith)

  stamp-All : All (λ b. b < 256) (stamp bs)
  unfolding stamp
  stamp-All =
      let versioned = set bs 6 (bit_or (bit_and (get_or bs 6 0) 0x0f) 0x40) in
      let ok = set-All bs 6 _ h version_lt in
      set-All versioned 8 _ ok
        (rw (variant_byte (get_or versioned 8 0) (get_or-lt versioned 8 ok)) (omega arith))

  stamp_version : get_or (stamp bs) 6 0 ≡ 64 + get_or bs 6 0 % 16
  unfolding stamp
  stamp_version =
      get_or-set_ne (set bs 6 _) 8 6 _ (λ e. omega arith)
      ∙ get_or-set_self bs 6 _ (omega arith)
      ∙ version_byte _ (get_or-lt bs 6 h)

  stamp_variant : get_or (stamp bs) 8 0 ≡ 128 + get_or bs 8 0 % 64
  unfolding stamp
  stamp_variant =
      get_or-set_self (set bs 6 _) 8 _ (omega (arith, length-set bs 6))
      ∙ ap (λ b. bit_or (bit_and b 0x3f) 0x80) (get_or-set_ne bs 6 8 _ (λ e. omega arith))
      ∙ variant_byte _ (get_or-lt bs 8 h)

version_digit : (v x : ℕ) → v ≡ 64 + x % 16 → hex_digit (v / 16) ≡ b'4'
unfolding hex_digit
version_digit v x e = ground arith

-- The digits 8, 9, a and b.
abbrev pub IsVariant : ℕ → Type 0
IsVariant c = (c ≡ b'8') ⊎ (c ≡ b'9') ⊎ (c ≡ b'a') ⊎ (c ≡ b'b')

digit-IsVariant : (v x : ℕ) → v ≡ 128 + x % 64 → IsVariant (hex_digit (v / 16))
unfolding hex_digit
digit-IsVariant v x e = ground arith

-- From sixteen random bytes the generator makes a text that the gateway accepts as a UUID, with
-- version digit 4 and a variant digit from 8 to b.
pub generate_valid :
    (bs : Bytes)
    → All (λ b. b < 256) bs
    → length bs ≡ 16
    → let token = generate (bytes_read bs) in
      (is_valid_uuid token ≡ true) × (get_or token 14 0 ≡ b'4') × IsVariant (get_or token 19 0)
unfolding generate
generate_valid bs h n = rw n (
  format_uuid-valid (λ i. get_or (stamp bs) i 0) (λ i. get_or-lt (stamp bs) i (stamp-All bs h n)),
  version_digit _ _ (stamp_version bs h n),
  digit-IsVariant _ _ (stamp_variant bs h n),
)
