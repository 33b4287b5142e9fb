-- ===== src/Gateway/Json.antt =====
-- The parser and the printer of src/os_layer/ipc/src/socket_request.cpp, and the `je` and `jq` of
-- domain_socket.cpp. A position in a text is the part of the text from there on. The loop over the
-- pairs of an object has fuel for one round per byte, and a round reads two bytes at least.
pub mod Strings
pub mod Rounds
use justice_flow.Base.{
  ℕ, zero, suc, Bool, true, false, ◌||◌, Option, none, some, List, [], ◌∷◌, ◌++◌, Bytes, codes, eqb,
  ltb, if◌then◌else◌, is_space, skip_spaces, length, bytes_eq, hex_byte,
}
use justice_flow.Base.Dict.{Dict, insert}

-- A function that returns, or throws an exception; `stuck` is a loop that ran out of fuel.
pub data Parse {ℓ} (A : Type ℓ) : Type ℓ where
  returned : A → Parse A
  throws stuck : Parse A

infixl 5 ◌>>=◌
abbrev pub ◌>>=◌ {ℓ κ} : {A : Type ℓ} {B : Type κ} → Parse A → (A → Parse B) → Parse B
returned a >>= f = f a
throws >>= f = throws
stuck >>= f = stuck

-- Past the white space and the character; the rest of the text is returned.
unfoldable pub expect_here : ℕ → Bytes → Parse Bytes
expect_here ch [] = throws
expect_here ch (c ∷ s) = if eqb c ch then returned s else throws

unfoldable pub expect : ℕ → Bytes → Parse Bytes
unfolding skip_spaces expect_here
expect ch s = expect_here ch (skip_spaces s)

unfoldable pub unescape : ℕ → ℕ
unescape c = if eqb c b'n' then 10 else if eqb c b'r' then 13 else if eqb c b't' then 9 else c

-- What the loop of `parseString` collects, and the text from where it stops: a quote or the end.
unfoldable pub string_body : Bytes → Bytes × Bytes
unfolding unescape
string_body [] = ([], [])
string_body (c ∷ []) = if eqb c b'"' then ([], c ∷ []) else (c ∷ [], [])
string_body (c ∷ d ∷ s) = elim (eqb c b'"') [
  | true ↦ ([], c ∷ d ∷ s)
  | false ↦ elim (eqb c b'\\') [
    | true ↦ let rest = string_body s in (unescape d ∷ rest.0, rest.1)
    | false ↦ let rest = string_body (d ∷ s) in (c ∷ rest.0, rest.1)
  ]
]

unfoldable pub parse_string : Bytes → Parse (Bytes × Bytes)
unfolding skip_spaces expect string_body
parse_string s = do
  inner ← expect b'"' (skip_spaces s)
  rest ← expect b'"' (string_body inner).1
  returned ((string_body inner).0, rest)

abbrev pub ends_primitive : ℕ → Bool
ends_primitive c = eqb c b',' || (eqb c b'}' || (eqb c b']' || is_space c))

unfoldable pub primitive_body : Bytes → Bytes × Bytes
primitive_body [] = ([], [])
primitive_body (c ∷ s) =
    let rest = primitive_body s in if ends_primitive c then ([], c ∷ s) else (c ∷ rest.0, rest.1)

unfoldable pub parse_primitive : Bytes → Bytes × Bytes
unfolding skip_spaces primitive_body
parse_primitive s = primitive_body (skip_spaces s)

-- `s[pos]` at the end of the text is a zero byte.
unfoldable pub parse_value : Bytes → Parse (Bytes × Bytes)
unfolding parse_string parse_primitive
parse_value [] = returned ([], [])
parse_value (c ∷ s) =
    if eqb c b'"' then parse_string (c ∷ s) else returned (parse_primitive (c ∷ s))

-- The text after a comma at its start.
unfoldable pub after_comma : Bytes → Option Bytes
after_comma [] = none
after_comma (c ∷ s) = if eqb c b',' then some s else none

unfoldable pub close_object : Dict Bytes Bytes → Bytes → Parse (Dict Bytes Bytes × Bytes)
unfolding expect
close_object obj s = do rest ← expect b'}' s; returned (obj, rest)

-- A key, a colon and a value; the white space after it is skipped.
unfoldable pub parse_pair : Bytes → Parse (Bytes × Bytes × Bytes)
unfolding parse_string expect skip_spaces parse_value
parse_pair s = do
  (key, after_key) ← parse_string s
  after_colon ← expect b':' (skip_spaces after_key)
  (val, after_val) ← parse_value (skip_spaces after_colon)
  returned (key, val, skip_spaces after_val)

unfoldable pub parse_pairs : ℕ → Dict Bytes Bytes → Bytes → Parse (Dict Bytes Bytes × Bytes)
unfolding close_object parse_pair after_comma skip_spaces insert
parse_pairs fuel obj [] = close_object obj []
parse_pairs zero obj (c ∷ s) = stuck
parse_pairs (suc fuel) obj (c ∷ s) = do
  (key, val, after) ← parse_pair (c ∷ s)
  elim (after_comma after) [
    | none ↦ close_object (insert key val obj) after
    | some rest ↦ parse_pairs fuel (insert key val obj) (skip_spaces rest)
  ]

unfoldable pub object_inner : Bytes → Parse (Dict Bytes Bytes × Bytes)
unfolding close_object parse_pairs
object_inner [] = close_object [] []
object_inner (c ∷ s) =
    if eqb c b'}' then returned ([], s) else parse_pairs (suc (length s)) [] (c ∷ s)

unfoldable pub parse_object : Bytes → Parse (Dict Bytes Bytes × Bytes)
unfolding expect object_inner skip_spaces
parse_object s = do inner ← expect b'{' (skip_spaces s); object_inner (skip_spaces inner)

-- `\u%04x` of a number below 32.
abbrev pub unicode_escape : ℕ → Bytes
unicode_escape c = codes "\\u00" ++ hex_byte c

unfoldable pub escape_char : ℕ → Bytes
unfolding hex_byte
escape_char c =
    if eqb c b'"'
    then codes "\\\""
    else if eqb c b'\\'
    then codes "\\\\"
    else if eqb c 10
    then codes "\\n"
    else if eqb c 13
    then codes "\\r"
    else if eqb c 9
    then codes "\\t"
    else if ltb c 32
    then unicode_escape c
    else c ∷ []

unfoldable pub json_escape : Bytes → Bytes
unfolding escape_char
json_escape [] = []
json_escape (c ∷ s) = escape_char c ++ json_escape s

unfoldable pub json_quote : Bytes → Bytes
unfolding json_escape
json_quote s = b'"' ∷ json_escape s ++ (b'"' ∷ [])
