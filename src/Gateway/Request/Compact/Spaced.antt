-- ===== src/Gateway/Request/Compact/Spaced.antt =====
-- A request whose parameters have white space behind the brace, as in the example of
-- src/os_layer/ipc/include/socket_request.h, on `fromJson` of socket_request.cpp.
use justice_flow.Base.{
  ℕ, suc, ◌≡◌, refl, ◌∙◌, true, [], ◌∷◌, ◌++◌, Bytes, codes, length, skip_spaces, is_space,
  bytes_eq, to_decimal, arith,
}
use justice_flow.Base.Dict.{Dict, insert}
use justice_flow.Types.{invalid_input}
use justice_flow.Gateway.Json.{
  throws, expect, expect_here, ends_primitive, after_comma, close_object, parse_pairs, object_inner,
  parse_object, json_escape, json_quote, escape_char,
}
use justice_flow.Gateway.Request.{SocketRequest, CommandType, from_json}
use justice_flow.Gateway.Request.Words.{word_pair}
use justice_flow.Gateway.Request.Compact.{command_name, command_text}
use justice_flow.Gateway.Request.Compact.Top.{id_step, command_step}

pub spaced_text : ℕ → CommandType → ℕ → Bytes → Bytes
unfolding to_decimal command_text
spaced_text id command c rest =
    codes "{\"request_id\":"
    ++ (to_decimal id ++ command_text command (codes ",\"params\":{" ++ (c ∷ b'"' ∷ rest)))

-- What follows the first two pairs of such a request: white space and a quote behind the brace.
spaced_pair :
    (fuel : ℕ) (obj : Dict Bytes Bytes) (c : ℕ) (rest : Bytes)
    → is_space c ≡ true
    → parse_pairs (suc fuel) obj (codes "\"params\":{" ++ (c ∷ b'"' ∷ rest)) ≡ throws
unfolding parse_pairs json_quote json_escape escape_char skip_spaces after_comma close_object expect
    expect_here
spaced_pair fuel obj c rest h =
    let ending : ends_primitive c ≡ true = ground (arith, h) in
    rw (word_pair (codes "params") b'{' [] c (b'"' ∷ rest) (ground arith) refl refl tt ending, h)
      refl

-- A request whose parameters have white space between the brace and the first quote is refused,
-- whatever follows.
pub spaced_params_refused :
    (id : ℕ) (command : CommandType) (c : ℕ) (rest : Bytes) (out : SocketRequest)
    → is_space c ≡ true
    → from_json (spaced_text id command c rest) out ≡ (invalid_input, out)
unfolding from_json parse_object expect expect_here skip_spaces object_inner command_text
    spaced_text
spaced_params_refused id command c rest out h =
    let behind = codes "\"params\":{" ++ (c ∷ b'"' ∷ rest) in
    let fuel = length (to_decimal id ++ command_text command (b',' ∷ behind)) in
    let plenty = suc (suc (suc (suc (suc (suc (suc (suc (suc fuel)))))))) in
    let read : parse_object (spaced_text id command c rest) ≡ throws =
      id_step (suc (suc (suc plenty))) id []
        (codes "\"command\":" ++ (json_quote (command_name command) ++ (b',' ∷ behind)))
      ∙ (command_step (suc (suc plenty)) (insert (codes "request_id") (to_decimal id) []) command
            behind
          ∙ spaced_pair (suc plenty)
              (insert (codes "command") (command_name command)
                (insert (codes "request_id") (to_decimal id) []))
              c rest h) in
    rw (from_json, read) refl
