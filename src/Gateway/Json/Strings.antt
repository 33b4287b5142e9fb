-- ===== src/Gateway/Json/Strings.antt =====
-- Quoted strings: what the printer escapes, the parser reads back, and the text behind is left.
use justice_flow.Base.{
  ℕ, ◌<◌, ◌≡◌, refl, false, ◌⊎◌, [], ◌∷◌, ◌++◌, append_assoc, Bytes, All, eqb, skip_spaces, arith,
}
use justice_flow.Gateway.Json.{
  returned, unescape, string_body, parse_string, escape_char, json_escape, json_quote,
}

-- A byte that is no control character, or one that the printer has a short escape for.
abbrev pub IsPlain : ℕ → Type 0
IsPlain c = (31 < c) ⊎ ((c ≡ 9) ⊎ ((c ≡ 10) ⊎ (c ≡ 13)))

string_body-quote : (rest : Bytes) → string_body (b'"' ∷ rest) ≡ ([], b'"' ∷ rest)
unfolding string_body
string_body-quote [] = refl
string_body-quote (d ∷ rest) = refl

string_body-plain :
    (c : ℕ) (s : Bytes)
    → eqb c b'"' ≡ false
    → eqb c b'\\' ≡ false
    → string_body (c ∷ s) ≡ (c ∷ (string_body s).0, (string_body s).1)
unfolding string_body
string_body-plain c [] p q = ground arith
string_body-plain c (d ∷ s) p q = ground arith

string_body-escape_char :
    (c : ℕ) (s : Bytes)
    → IsPlain c
    → string_body (escape_char c ++ s) ≡ (c ∷ (string_body s).0, (string_body s).1)
unfolding escape_char string_body unescape
string_body-escape_char c s h = grind (arith, string_body-plain c s)

pub string_body-json_escape :
    (s rest : Bytes)
    → All IsPlain s
    → string_body (json_escape s ++ (b'"' ∷ rest)) ≡ (s, b'"' ∷ rest)
unfolding json_escape
string_body-json_escape [] rest h = string_body-quote rest
string_body-json_escape (c ∷ s) rest h =
    rw
      (
        append_assoc (escape_char c) (json_escape s) (b'"' ∷ rest),
        string_body-escape_char c (json_escape s ++ (b'"' ∷ rest)) h.0,
        string_body-json_escape s rest h.1,
      )
      refl

-- What the printer quotes the parser reads back, and it leaves the text behind, where the string
-- has no control character without a short escape.
pub parse_string-json_quote :
    (s rest : Bytes) → All IsPlain s → parse_string (json_quote s ++ rest) ≡ returned (s, rest)
unfolding parse_string json_quote skip_spaces
parse_string-json_quote s rest h =
    rw (append_assoc (json_escape s) (b'"' ∷ []) rest, string_body-json_escape s rest h) refl
