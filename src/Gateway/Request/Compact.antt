-- ===== src/Gateway/Request/Compact.antt =====
-- Requests without white space, laid out as in src/os_layer/ipc/include/socket_request.h.
pub mod Top
pub mod Read
pub mod Spaced
use justice_flow.Base.{
  ℕ, zero, suc, ◌+◌, ◌*◌, ◌%◌, ◌^◌, ◌≤◌, ◌<◌, ◌≡◌, refl, sym, ap, ◌∙◌, Bool, true, false, ◌||◌,
  Option, none, some, ◌⊎◌, inl, inr, List, [], ◌∷◌, ◌++◌, append_assoc, Bytes, codes, All, eqb,
  if◌then◌else◌, length, length-append, skip_spaces, is_space, is_digit, leading_number, bytes_beq,
  bytes_eq, to_decimal, Bool-cases, absurd, arith,
}
use justice_flow.Base.Dict.{Dict, lookup, insert, lookup-insert}
use justice_flow.Types.{ResultCode, ok, invalid_input}
use justice_flow.Gateway.Json.{
  Parse, returned, throws, stuck, ◌>>=◌, expect, expect_here, string_body, parse_string,
  parse_value, parse_pair, primitive_body, parse_primitive, ends_primitive, after_comma,
  close_object, parse_pairs, object_inner, parse_object, json_escape, json_quote, escape_char,
}
use justice_flow.Gateway.Json.Strings.{parse_string-json_quote}
use justice_flow.Gateway.Rows.{json_pair, more_pairs, pairs, json_row}
use justice_flow.Gateway.Rows.ReadBack.{
  fields, IsPlainText, pairs_read, colon_then, parse_object-json_row,
}
use justice_flow.Gateway.Request.{
  SocketRequest, CommandType, ping, get_agent_status, get_agent_status_by_index,
  get_active_sessions, get_case_list, get_case_by_id, get_hotspot_data, get_priority_cases,
  get_officer_workload, unknown, to_command_type, from_json, read_top, read_id, read_command,
  read_params, params_start, find_after, strip_prefix, stoul,
}
use justice_flow.Gateway.Request.Decimal.{
  IsDigit, to_decimal-All, stoul-to_decimal, leading-to_decimal, primitive_body-word, digit-ends,
  find_after-digits,
}

-- The names of the commands on the wire.
unfoldable pub command_name : CommandType → Bytes
command_name ping = codes "PING"
command_name get_agent_status = codes "GET_AGENT_STATUS"
command_name get_agent_status_by_index = codes "GET_AGENT_STATUS_BY_INDEX"
command_name get_active_sessions = codes "GET_ACTIVE_SESSIONS"
command_name get_case_list = codes "GET_CASE_LIST"
command_name get_case_by_id = codes "GET_CASE_BY_ID"
command_name get_hotspot_data = codes "GET_HOTSPOT_DATA"
command_name get_priority_cases = codes "GET_PRIORITY_CASES"
command_name get_officer_workload = codes "GET_OFFICER_WORKLOAD"
command_name unknown = codes "UNKNOWN"

pub to_command_type-command_name : (c : CommandType) → to_command_type (command_name c) ≡ c
unfolding to_command_type command_name bytes_beq
to_command_type-command_name ping = refl
to_command_type-command_name get_agent_status = refl
to_command_type-command_name get_agent_status_by_index = refl
to_command_type-command_name get_active_sessions = refl
to_command_type-command_name get_case_list = refl
to_command_type-command_name get_case_by_id = refl
to_command_type-command_name get_hotspot_data = refl
to_command_type-command_name get_priority_cases = refl
to_command_type-command_name get_officer_workload = refl
to_command_type-command_name unknown = refl

-- The text from the parameters on, and from the command on, and the whole.
unfoldable pub params_text : List Bytes → List Bytes → Bytes
unfolding json_row
params_text names cells = codes ",\"params\":" ++ (json_row names cells ++ codes "}")

unfoldable pub command_text : CommandType → Bytes → Bytes
unfolding json_quote command_name
command_text c rest = codes ",\"command\":" ++ (json_quote (command_name c) ++ rest)

unfoldable pub request_text : ℕ → CommandType → List Bytes → List Bytes → Bytes
unfolding to_decimal params_text command_text
request_text id c names cells =
    codes "{\"request_id\":" ++ (to_decimal id ++ command_text c (params_text names cells))

-- Where the parameters are found.
find_params-command :
    (c : CommandType) (rest : Bytes)
    → find_after (codes "\"params\"") (command_text c (codes ",\"params\":" ++ rest))
      ≡ some (b':' ∷ rest)
unfolding command_text command_name json_quote find_after strip_prefix
find_params-command ping rest = refl
find_params-command get_agent_status rest = refl
find_params-command get_agent_status_by_index rest = refl
find_params-command get_active_sessions rest = refl
find_params-command get_case_list rest = refl
find_params-command get_case_by_id rest = refl
find_params-command get_hotspot_data rest = refl
find_params-command get_priority_cases rest = refl
find_params-command get_officer_workload rest = refl
find_params-command unknown rest = refl

find_params :
    (id : ℕ) (c : CommandType) (names cells : List Bytes)
    → find_after (codes "\"params\"") (request_text id c names cells)
      ≡ some (b':' ∷ json_row names cells ++ codes "}")
unfolding request_text find_after strip_prefix params_text
find_params id c names cells =
    find_after-digits (codes "params\"") (to_decimal id) _ (to_decimal-All id)
    ∙ find_params-command c (json_row names cells ++ codes "}")

pub params_start-request :
    (id : ℕ) (c : CommandType) (names cells : List Bytes)
    → params_start (request_text id c names cells) ≡ some (json_row names cells ++ codes "}")
unfolding params_start json_row find_after strip_prefix skip_spaces
params_start-request id c names cells = rw (params_start, find_params id c names cells) refl
