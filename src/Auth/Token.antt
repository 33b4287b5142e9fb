-- ===== src/Auth/Token.antt =====
-- src/system/shr_infra/auth/src/token_generator.cpp, and the UUID check of
-- src/os_layer/ipc/src/domain_socket.cpp. The random device is an argument: what `open` and one
-- `read` of it gave.
pub mod Format
use justice_flow.Base.{
  ℕ, ◌+◌, ◌/◌, ◌%◌, ◌≡◌, bit_and, bit_or, Bool, true, false, ◌&&◌, ◌||◌, List, [], ◌∷◌, ◌++◌, Bytes,
  ltb, leb, eqb, if◌then◌else◌, length, get_or, set, hex_byte, hex_digit,
}

pub data Urandom : Type 0 where
  open_failed read_failed : Urandom
  bytes_read : Bytes → Urandom

hex_bytes : Bytes → Bytes
hex_bytes [] = []
hex_bytes (b ∷ bs) = hex_byte b ++ hex_bytes bs

-- The five groups of the format string, from the sixteen bytes.
format_uuid : (ℕ → ℕ) → Bytes
format_uuid r =
    hex_bytes (r 0 ∷ r 1 ∷ r 2 ∷ r 3 ∷ [])
    ++ (b'-' ∷ hex_bytes (r 4 ∷ r 5 ∷ [])
        ++ (b'-' ∷ hex_bytes (r 6 ∷ r 7 ∷ [])
            ++ (b'-' ∷ hex_bytes (r 8 ∷ r 9 ∷ [])
                ++ (b'-' ∷ hex_bytes (r 10 ∷ r 11 ∷ r 12 ∷ r 13 ∷ r 14 ∷ r 15 ∷ [])))))

-- The version in byte 6 and the variant in byte 8.
stamp : Bytes → Bytes
stamp bs =
    let versioned = set bs 6 (bit_or (bit_and (get_or bs 6 0) 0x0f) 0x40) in
    set versioned 8 (bit_or (bit_and (get_or versioned 8 0) 0x3f) 0x80)

-- The empty string stands for a failure.
unfoldable pub generate : Urandom → Bytes
unfolding stamp format_uuid hex_bytes hex_byte hex_digit
generate open_failed = []
generate read_failed = []
generate (bytes_read bs) =
    if eqb (length bs) 16 then format_uuid (λ i. get_or (stamp bs) i 0) else []

pub is_hex : ℕ → Bool
is_hex c = (leb b'0' c && leb c b'9') || (leb b'a' c && leb c b'f') || (leb b'A' c && leb c b'F')

is_dash_place : ℕ → Bool
is_dash_place i = eqb i 8 || eqb i 13 || eqb i 18 || eqb i 23

-- The loop of `isValidUuid`, from place `i` on.
uuid_from : ℕ → Bytes → Bool
uuid_from i [] = true
uuid_from i (c ∷ s) =
    let rest = uuid_from (i + 1) s in
    if is_dash_place i
    then (if eqb c b'-' then rest else false)
    else (if is_hex c then rest else false)

unfoldable pub is_valid_uuid : Bytes → Bool
unfolding uuid_from is_dash_place
is_valid_uuid s = if eqb (length s) 36 then uuid_from 0 s else false
