-- ===== src/Gateway/Response/ReadBack.antt =====
-- A response of src/os_layer/ipc/src/socket_request.cpp without a payload, read by the parser of the
-- same file.
use justice_flow.Base.{
  ℕ, suc, ◌≡◌, refl, sym, ap, ◌∙◌, [], ◌∷◌, ◌++◌, append_assoc, Bytes, codes, length, skip_spaces,
  to_decimal, bytes_eq, bytes_beq, arith,
}
use justice_flow.Base.Dict.{Dict, insert}
use justice_flow.Types.{ResultCode, code_number}
use justice_flow.Gateway.Json.{
  returned, expect, expect_here, parse_pair, parse_pairs, after_comma, close_object, object_inner,
  parse_object, json_escape, json_quote, escape_char,
}
use justice_flow.Gateway.Rows.ReadBack.{IsPlainText, colon_then}
use justice_flow.Gateway.Request.Words.{pairs_step, decimal_pair}
use justice_flow.Gateway.Response.{response_error, data_text, to_json}

-- The message and what follows it.
message_tail : Bytes → Bytes
unfolding json_escape
message_tail msg = codes "\"message\":\"" ++ (json_escape msg ++ codes "\",\"data\":null}")

pub error_object : ℕ → ResultCode → Bytes → Dict Bytes Bytes
error_object id code msg =
    (codes "request_id", to_decimal id)
    ∷ (codes "status", to_decimal (code_number code))
    ∷ (codes "message", msg)
    ∷ (codes "data", codes "null")
    ∷ []

message_step :
    (fuel : ℕ) (obj : Dict Bytes Bytes) (msg : Bytes)
    → IsPlainText msg
    → parse_pairs (suc fuel) obj (message_tail msg)
      ≡ parse_pairs fuel (insert (codes "message") msg obj) (codes "\"data\":null}")
unfolding message_tail json_quote json_escape escape_char skip_spaces
message_step fuel obj msg h =
    pairs_step fuel obj b'"'
      (codes "message\":\"" ++ (json_escape msg ++ codes "\",\"data\":null}")) (codes "message") msg
      (codes "\"data\":null}")
      (ap (λ t. parse_pair (codes "\"message\":\"" ++ t))
          (sym (append_assoc (json_escape msg) (codes "\"") (codes ",\"data\":null}")))
        ∙ colon_then (codes "message") msg (codes ",\"data\":null}") (ground arith) h)

data_step :
    (fuel : ℕ) (obj : Dict Bytes Bytes)
    → parse_pairs (suc fuel) obj (codes "\"data\":null}")
      ≡ returned (insert (codes "data") (codes "null") obj, [])
unfolding parse_pairs parse_pair after_comma close_object expect expect_here
data_step fuel obj = refl

-- An error response whose message has no control character without a short escape is read back as
-- the object of its id, its code's number, its message and null data.
pub parse_object-response_error :
    (id : ℕ) (code : ResultCode) (msg : Bytes)
    → IsPlainText msg
    → parse_object (to_json (response_error id code msg)) ≡ returned (error_object id code msg, [])
unfolding parse_object expect expect_here skip_spaces object_inner to_json data_text error_object
    message_tail json_quote json_escape escape_char insert bytes_beq
parse_object-response_error id code msg h =
    let after_status = message_tail msg in
    let status = to_decimal (code_number code) ++ (b',' ∷ after_status) in
    let after_id = codes "\"status\":" ++ status in
    let fuel = length (to_decimal id ++ (b',' ∷ after_id)) in
    let plenty = suc (suc (suc (suc (suc (suc (suc (suc fuel))))))) in
    let ids = insert (codes "request_id") (to_decimal id) [] in
    let statuses = insert (codes "status") (to_decimal (code_number code)) ids in
    pairs_step (suc (suc (suc (suc plenty)))) [] b'"'
      (codes "request_id\":" ++ (to_decimal id ++ (b',' ∷ after_id))) (codes "request_id")
      (to_decimal id) after_id (decimal_pair (codes "request_id") id after_id (ground arith))
    ∙ (pairs_step (suc (suc (suc plenty))) ids b'"' (codes "status\":" ++ status) (codes "status")
          (to_decimal (code_number code)) after_status
          (decimal_pair (codes "status") (code_number code) after_status (ground arith))
        ∙ (message_step (suc (suc plenty)) statuses msg h
            ∙ data_step (suc plenty) (insert (codes "message") msg statuses)))
