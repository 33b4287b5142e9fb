-- ===== src/Gateway/Request/Compact/Top.antt =====
-- The object that `parseObject` of src/os_layer/ipc/src/socket_request.cpp reads at the top of a
-- request: the id, the command, the parameters as far as their first pair, and the others.
use justice_flow.Base.{
  ℕ, zero, suc, ◌≤◌, ◌≡◌, refl, ap, ◌∙◌, false, List, [], ◌∷◌, ◌++◌, append_assoc, Bytes, codes,
  All, length, length-append, skip_spaces, bytes_eq, to_decimal, absurd, arith,
}
use justice_flow.Base.Dict.{Dict, insert}
use justice_flow.Gateway.Json.{
  returned, expect, expect_here, ends_primitive, after_comma, close_object, parse_pairs,
  object_inner, parse_object, json_escape, json_quote, escape_char,
}
use justice_flow.Gateway.Rows.{json_pair, more_pairs, json_row}
use justice_flow.Gateway.Rows.ReadBack.{fields, IsPlainText, pairs_read, colon_then}
use justice_flow.Gateway.Request.{
  CommandType, ping, get_agent_status, get_agent_status_by_index, get_active_sessions,
  get_case_list, get_case_by_id, get_hotspot_data, get_priority_cases, get_officer_workload,
  unknown,
}
use justice_flow.Gateway.Request.Words.{word_pair, pairs_step, decimal_pair}
use justice_flow.Gateway.Request.Compact.{command_name, params_text, command_text, request_text}

plain_params : IsPlainText (codes "params")
plain_params = ground arith

-- The pairs behind the first parameter, and the brace.
params_tail :
    (fuel : ℕ) (obj : Dict Bytes Bytes) (k v : Bytes) (names cells : List Bytes)
    → length (more_pairs names cells) ≤ fuel
    → All (λ b. ends_primitive b ≡ false) (json_pair k v)
    → All IsPlainText names
    → All IsPlainText cells
    → parse_pairs
        (suc (suc fuel))
        obj
        (codes "\"params\":" ++ ((b'{' ∷ json_pair k v) ++ (more_pairs names cells ++ codes "}}")))
      ≡ returned
          (fields names cells (insert (codes "params") (b'{' ∷ json_pair k v) obj), codes "}")
unfolding parse_pairs more_pairs json_quote json_escape escape_char after_comma close_object
    skip_spaces fields expect expect_here
params_tail fuel obj k v [] cells f w hs ks =
    rw
      (word_pair (codes "params") b'{' (json_pair k v) b'}' (codes "}") plain_params refl refl w
        refl)
      refl
params_tail fuel obj k v (n ∷ names) [] f w hs ks =
    rw
      (word_pair (codes "params") b'{' (json_pair k v) b'}' (codes "}") plain_params refl refl w
        refl)
      refl
params_tail zero obj k v (n ∷ names) (c ∷ cells) f w hs ks = absurd (omega (arith, f))
params_tail (suc fuel) obj k v (n ∷ names) (c ∷ cells) f w hs ks =
    let more = (json_pair n c ++ more_pairs names cells) ++ codes "}}" in
    let first = b'{' ∷ json_pair k v in
    pairs_step (suc (suc fuel)) obj b'"' (codes "params\":" ++ (first ++ (b',' ∷ more)))
      (codes "params") first more
      (word_pair (codes "params") b'{' (json_pair k v) b',' more plain_params refl refl w refl)
    ∙ (ap (parse_pairs (suc (suc fuel)) (insert (codes "params") (b'{' ∷ json_pair k v) obj))
          (append_assoc (json_pair n c) (more_pairs names cells) (codes "}}"))
        ∙ pairs_read (suc fuel) _ n c names cells (codes "}")
            (omega (arith, f, length-append (json_pair n c) (more_pairs names cells))) hs.0 ks.0
            hs.1 ks.1)

length-command_text : (c : CommandType) (rest : Bytes) → length rest ≤ length (command_text c rest)
unfolding command_text json_quote
length-command_text c rest = omega (arith, length-append (json_quote (command_name c)) rest)

plain_command : (c : CommandType) → IsPlainText (command_name c)
unfolding command_name
plain_command ping = ground arith
plain_command get_agent_status = ground arith
plain_command get_agent_status_by_index = ground arith
plain_command get_active_sessions = ground arith
plain_command get_case_list = ground arith
plain_command get_case_by_id = ground arith
plain_command get_hotspot_data = ground arith
plain_command get_priority_cases = ground arith
plain_command get_officer_workload = ground arith
plain_command unknown = ground arith

-- The object read at the top.
unfoldable pub top_of : ℕ → CommandType → Bytes → Bytes → List Bytes → List Bytes → Dict Bytes Bytes
top_of id c k v names cells = fields names cells (
    insert (codes "params") (b'{' ∷ json_pair k v)
      (insert (codes "command") (command_name c) (insert (codes "request_id") (to_decimal id) [])))

pub command_step :
    (fuel : ℕ) (obj : Dict Bytes Bytes) (c : CommandType) (rest : Bytes)
    → parse_pairs
        (suc fuel)
        obj
        (codes "\"command\":" ++ (json_quote (command_name c) ++ (b',' ∷ rest)))
      ≡ parse_pairs fuel (insert (codes "command") (command_name c) obj) (skip_spaces rest)
unfolding json_quote json_escape escape_char skip_spaces
command_step fuel obj c rest =
    pairs_step fuel obj b'"' (codes "command\":" ++ (json_quote (command_name c) ++ (b',' ∷ rest)))
      (codes "command") (command_name c) rest
      (colon_then (codes "command") (command_name c) (b',' ∷ rest) (ground arith) (plain_command c))

pub id_step :
    (fuel id : ℕ) (obj : Dict Bytes Bytes) (rest : Bytes)
    → parse_pairs (suc fuel) obj (codes "\"request_id\":" ++ (to_decimal id ++ (b',' ∷ rest)))
      ≡ parse_pairs fuel (insert (codes "request_id") (to_decimal id) obj) (skip_spaces rest)
unfolding json_quote json_escape escape_char
id_step fuel id obj rest =
    pairs_step fuel obj b'"' (codes "request_id\":" ++ (to_decimal id ++ (b',' ∷ rest)))
      (codes "request_id") (to_decimal id) rest
      (decimal_pair (codes "request_id") id rest (ground arith))

row_text :
    (k v : Bytes) (names cells : List Bytes)
    → json_row (k ∷ names) (v ∷ cells) ++ codes "}"
      ≡ (b'{' ∷ json_pair k v) ++ (more_pairs names cells ++ codes "}}")
unfolding json_row
row_text k v names cells =
    ap (λ t. b'{' ∷ t)
      (append_assoc (json_pair k v ++ more_pairs names cells) (codes "}") (codes "}")
        ∙ append_assoc (json_pair k v) (more_pairs names cells) (codes "}}"))

length-row_text :
    (k v : Bytes) (names cells : List Bytes)
    → length (more_pairs names cells) ≤ length (json_row (k ∷ names) (v ∷ cells) ++ codes "}")
length-row_text k v names cells = rw (row_text k v names cells) (
    omega (
      arith,
      length-append (b'{' ∷ json_pair k v) (more_pairs names cells ++ codes "}}"),
      length-append (more_pairs names cells) (codes "}}"),
    ))

pub top_read :
    (id : ℕ) (c : CommandType) (k v : Bytes) (names cells : List Bytes)
    → All (λ b. ends_primitive b ≡ false) (json_pair k v)
    → All IsPlainText names
    → All IsPlainText cells
    → parse_object (request_text id c (k ∷ names) (v ∷ cells))
      ≡ returned (top_of id c k v names cells, codes "}")
unfolding parse_object expect expect_here skip_spaces object_inner request_text command_text
    params_text top_of
top_read id c k v names cells w hs ks =
    let row = json_row (k ∷ names) (v ∷ cells) ++ codes "}" in
    let fuel = length (to_decimal id ++ command_text c (params_text (k ∷ names) (v ∷ cells))) in
    let enough : length (more_pairs names cells) ≤ fuel = omega (
      arith,
      length-row_text k v names cells,
      length-command_text c (params_text (k ∷ names) (v ∷ cells)),
      length-append (to_decimal id) (command_text c (params_text (k ∷ names) (v ∷ cells))),
    ) in
    let plenty = suc (suc (suc (suc (suc (suc (suc (suc (suc fuel)))))))) in
    let behind = codes "\"params\":" ++ row in
    let obj = insert (codes "request_id") (to_decimal id) [] in
    id_step (suc (suc (suc plenty))) id []
      (codes "\"command\":" ++ (json_quote (command_name c) ++ (b',' ∷ behind)))
    ∙ (command_step (suc (suc plenty)) obj c behind
        ∙ (ap
              (λ t.
                parse_pairs (suc (suc plenty)) (insert (codes "command") (command_name c) obj)
                  (codes "\"params\":" ++ t))
              (row_text k v names cells)
            ∙ params_tail plenty _ k v names cells (omega (arith, enough)) w hs ks))
