-- ===== src/Gateway/Rows/ReadBack.antt =====
-- A printed row is read back by the parser of src/os_layer/ipc/src/socket_request.cpp.
use justice_flow.Base.{
  ℕ, zero, suc, ◌≤◌, ◌≡◌, refl, ap, ◌∙◌, List, [], ◌∷◌, ◌++◌, append_assoc, Bytes, All, length,
  length-append, skip_spaces, bytes_eq, absurd, arith,
}
use justice_flow.Base.Dict.{Dict, insert}
use justice_flow.Gateway.Json.{
  returned, expect, expect_here, parse_value, parse_pair, after_comma, close_object, parse_pairs,
  object_inner, parse_object, json_quote,
}
use justice_flow.Gateway.Json.Strings.{IsPlain, parse_string-json_quote}
use justice_flow.Gateway.Rows.{json_pair, more_pairs, pairs, json_row}

-- The object that the names and the cells side by side are.
unfoldable pub fields : List Bytes → List Bytes → Dict Bytes Bytes → Dict Bytes Bytes
fields [] cells obj = obj
fields (n ∷ names) [] obj = obj
fields (n ∷ names) (c ∷ cells) obj = fields names cells (insert n c obj)

abbrev pub IsPlainText : Bytes → Type 0
IsPlainText s = All IsPlain s

value_of_quote :
    (c rest : Bytes) → IsPlainText c → parse_value (json_quote c ++ rest) ≡ returned (c, rest)
unfolding parse_value json_quote
value_of_quote c rest h = parse_string-json_quote c rest h

pub colon_then :
    (n c rest : Bytes)
    → IsPlainText n
    → IsPlainText c
    → parse_pair (json_quote n ++ (b':' ∷ json_quote c ++ rest)) ≡ returned (n, c, skip_spaces rest)
unfolding parse_pair expect expect_here json_quote
colon_then n c rest h k =
    rw (parse_string-json_quote n (b':' ∷ json_quote c ++ rest) h, value_of_quote c rest k) refl

pair_read :
    (n c rest : Bytes)
    → IsPlainText n
    → IsPlainText c
    → parse_pair (json_pair n c ++ rest) ≡ returned (n, c, skip_spaces rest)
unfolding json_pair
pair_read n c rest h k =
    ap parse_pair (append_assoc (json_quote n) (b':' ∷ json_quote c) rest) ∙ colon_then n c rest h k

-- The loop from a pair on, with the pairs behind it and the brace.
pub pairs_read :
    (fuel : ℕ) (obj : Dict Bytes Bytes) (n c : Bytes) (names cells : List Bytes) (rest : Bytes)
    → length (more_pairs names cells) ≤ fuel
    → IsPlainText n
    → IsPlainText c
    → All IsPlainText names
    → All IsPlainText cells
    → parse_pairs (suc fuel) obj (json_pair n c ++ (more_pairs names cells ++ (b'}' ∷ rest)))
      ≡ returned (fields names cells (insert n c obj), rest)
unfolding parse_pairs json_pair more_pairs after_comma close_object fields
pairs_read fuel obj n c [] cells rest f h k hs ks = rw (pair_read n c (b'}' ∷ rest) h k) refl
pairs_read fuel obj n c (n' ∷ names) [] rest f h k hs ks = rw (pair_read n c (b'}' ∷ rest) h k) refl
pairs_read zero obj n c (n' ∷ names) (c' ∷ cells) rest f h k hs ks = absurd (omega (arith, f))
pairs_read (suc fuel) obj n c (n' ∷ names) (c' ∷ cells) rest f h k hs ks =
    rw (pair_read n c (more_pairs (n' ∷ names) (c' ∷ cells) ++ (b'}' ∷ rest)) h k) (
      ap (parse_pairs (suc fuel) (insert n c obj))
        (append_assoc (json_pair n' c') (more_pairs names cells) (b'}' ∷ rest))
      ∙ pairs_read fuel (insert n c obj) n' c' names cells rest
          (omega (arith, f, length-append (json_pair n' c') (more_pairs names cells))) hs.0 ks.0
          hs.1 ks.1)

json_row_text :
    (n c : Bytes) (names cells : List Bytes) (rest : Bytes)
    → (json_pair n c ++ more_pairs names cells ++ (b'}' ∷ [])) ++ rest
      ≡ json_pair n c ++ (more_pairs names cells ++ (b'}' ∷ rest))
json_row_text n c names cells rest =
    append_assoc (json_pair n c ++ more_pairs names cells) (b'}' ∷ []) rest
    ∙ append_assoc (json_pair n c) (more_pairs names cells) (b'}' ∷ rest)

-- A printed row whose names and cells have no control character without a short escape is read back
-- as the object it shows, and the text behind it is left.
pub parse_object-json_row :
    (names cells : List Bytes) (rest : Bytes)
    → All IsPlainText names
    → All IsPlainText cells
    → parse_object (json_row names cells ++ rest) ≡ returned (fields names cells [], rest)
unfolding parse_object json_row pairs object_inner fields
parse_object-json_row [] cells rest hs ks = refl
parse_object-json_row (n ∷ names) [] rest hs ks = refl
parse_object-json_row (n ∷ names) (c ∷ cells) rest hs ks =
    ap object_inner (json_row_text n c names cells rest)
    ∙ pairs_read _ [] n c names cells rest
        (omega (
          arith,
          length-append (json_pair n c) (more_pairs names cells ++ (b'}' ∷ rest)),
          length-append (more_pairs names cells) (b'}' ∷ rest),
        ))
        hs.0 ks.0 hs.1 ks.1
