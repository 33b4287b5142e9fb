-- ===== src/Gateway/Response.antt =====
-- `SocketResponse` of src/os_layer/ipc/include/socket_request.h and socket_request.cpp.
pub mod ReadBack
use justice_flow.Base.{
  ℕ, Bool, true, false, ◌||◌, List, [], ◌∷◌, ◌++◌, Bytes, codes, eqb, if◌then◌else◌, is_space,
  is_empty, to_decimal,
}
use justice_flow.Types.{
  ResultCode, code_number, ok, auth_failed, rank_insufficient, session_expired, jurisdiction_denied,
  not_found, already_exists, invalid_input, invalid_argument, db_error, foreign_key_violation,
  file_system_error, invalid_state, duty_inactive, record_locked, analysis_failed,
  threshold_not_met,
}
use justice_flow.Gateway.Json.{json_escape, json_quote}

pub record SocketResponse : Type 0 where
  pub request_id : ℕ
  pub status : ResultCode
  pub message : Bytes
  pub payload : Bytes

-- The first byte that is no white space opens an object or an array.
unfoldable pub looks_like_json : Bytes → Bool
looks_like_json [] = false
looks_like_json (c ∷ s) =
    let rest = looks_like_json s in if is_space c then rest else eqb c b'{' || eqb c b'['

unfoldable pub data_text : Bytes → Bytes
unfolding looks_like_json json_quote
data_text payload =
    if is_empty payload
    then codes "null"
    else if looks_like_json payload
    then payload
    else json_quote payload

unfoldable pub to_json : SocketResponse → Bytes
unfolding to_decimal json_escape data_text
to_json r =
    codes "{\"request_id\":"
    ++ (to_decimal r.request_id
        ++ (codes ",\"status\":"
            ++ (to_decimal (code_number r.status)
                ++ (codes ",\"message\":\""
                    ++ (json_escape r.message
                        ++ (codes "\",\"data\":" ++ (data_text r.payload ++ codes "}")))))))

abbrev pub response_ok : ℕ → Bytes → SocketResponse
response_ok req_id payload = record {
  request_id = req_id;
  status = ok;
  message = codes "OK";
  payload = payload;
}

abbrev pub response_error : ℕ → ResultCode → Bytes → SocketResponse
response_error req_id code msg = record {
  request_id = req_id;
  status = code;
  message = msg;
  payload = [];
}

unfoldable pub result_code_to_string : ResultCode → Bytes
result_code_to_string ok = codes "OK"
result_code_to_string auth_failed = codes "AUTH_FAILED"
result_code_to_string rank_insufficient = codes "RANK_INSUFFICIENT"
result_code_to_string session_expired = codes "SESSION_EXPIRED"
result_code_to_string jurisdiction_denied = codes "JURISDICTION_DENIED"
result_code_to_string not_found = codes "NOT_FOUND"
result_code_to_string already_exists = codes "ALREADY_EXISTS"
result_code_to_string invalid_input = codes "INVALID_INPUT"
result_code_to_string invalid_argument = codes "INVALID_ARGUMENT"
result_code_to_string db_error = codes "DB_ERROR"
result_code_to_string foreign_key_violation = codes "FOREIGN_KEY_VIOLATION"
result_code_to_string file_system_error = codes "FILE_SYSTEM_ERROR"
result_code_to_string invalid_state = codes "INVALID_STATE"
result_code_to_string duty_inactive = codes "DUTY_INACTIVE"
result_code_to_string record_locked = codes "RECORD_LOCKED"
result_code_to_string analysis_failed = codes "ANALYSIS_FAILED"
result_code_to_string threshold_not_met = codes "THRESHOLD_NOT_MET"
