-- ===== src/Gateway/Request.antt =====
-- `SocketRequest` of src/os_layer/ipc/include/socket_request.h and socket_request.cpp. What an
-- exception leaves written in the request stays written.
pub mod Decimal
pub mod Words
pub mod Compact
use justice_flow.Base.{
  ℕ, zero, suc, ◌+◌, ◌-◌, ◌%◌, ◌^◌, Bool, true, false, Option, none, some, List, [], ◌∷◌, Bytes,
  codes, bytes_beq, bytes_eq, eqb, ltb, if◌then◌else◌, ℤ, Stoi, value, stoi, skip_spaces,
  leading_number,
}
use justice_flow.Base.Dict.{Dict, lookup}
use justice_flow.Types.{ResultCode, ok, invalid_input}
use justice_flow.Gateway.Json.{Parse, returned, throws, stuck, parse_object}

pub data CommandType : Type 0 where
  ping get_agent_status get_agent_status_by_index get_active_sessions get_case_list : CommandType
  get_case_by_id get_hotspot_data get_priority_cases get_officer_workload unknown : CommandType

unfoldable pub to_command_type : Bytes → CommandType
unfolding bytes_beq
to_command_type cmd =
    if bytes_beq cmd (codes "PING")
    then ping
    else if bytes_beq cmd (codes "GET_AGENT_STATUS")
    then get_agent_status
    else if bytes_beq cmd (codes "GET_AGENT_STATUS_BY_INDEX")
    then get_agent_status_by_index
    else if bytes_beq cmd (codes "GET_ACTIVE_SESSIONS")
    then get_active_sessions
    else if bytes_beq cmd (codes "GET_CASE_LIST")
    then get_case_list
    else if bytes_beq cmd (codes "GET_CASE_BY_ID")
    then get_case_by_id
    else if bytes_beq cmd (codes "GET_HOTSPOT_DATA")
    then get_hotspot_data
    else if bytes_beq cmd (codes "GET_PRIORITY_CASES")
    then get_priority_cases
    else if bytes_beq cmd (codes "GET_OFFICER_WORKLOAD")
    then get_officer_workload
    else unknown

pub record SocketRequest : Type 0 where
  pub request_id : ℕ
  pub command : CommandType
  pub params : Dict Bytes Bytes

-- A request before it is read.
abbrev pub empty_request : SocketRequest
empty_request = record { request_id = 0; command = unknown; params = [] }

-- `std::stoul` on 64 bits: `none` where it throws. A number after a minus sign is negated modulo
-- 2^64.
abbrev in_long : (ℕ → ℕ) → Option ℕ → Option ℕ
in_long sign none = none
in_long sign (some n) = if ltb n (2 ^ 64) then some (sign n) else none

abbrev signed_long : Bytes → Option ℕ
signed_long [] = none
signed_long (c ∷ s) =
    if eqb c b'-'
    then in_long (λ n. (2 ^ 64 - n) % 2 ^ 64) (leading_number none s)
    else if eqb c b'+'
    then in_long (λ n. n) (leading_number none s)
    else in_long (λ n. n) (leading_number none (c ∷ s))

unfoldable pub stoul : Bytes → Option ℕ
unfolding leading_number skip_spaces
stoul s = signed_long (skip_spaces s)

-- The text behind a prefix.
unfoldable pub strip_prefix : Bytes → Bytes → Option Bytes
strip_prefix [] s = some s
strip_prefix (n ∷ needle) [] = none
strip_prefix (n ∷ needle) (c ∷ s) =
    let rest = strip_prefix needle s in if eqb n c then rest else none

abbrev first_found : Option Bytes → Option Bytes → Option Bytes
first_found (some rest) later = some rest
first_found none later = later

-- The text behind the first occurrence of a text that is not empty.
unfoldable pub find_after : Bytes → Bytes → Option Bytes
unfolding strip_prefix
find_after needle [] = none
find_after needle (c ∷ s) = first_found (strip_prefix needle (c ∷ s)) (find_after needle s)

-- `out.request_id`, where it is given; `none` where `std::stoul` throws.
unfoldable pub read_id : Option Bytes → SocketRequest → Option SocketRequest
unfolding stoul
read_id none out = some out
read_id (some text) out = elim (stoul text) [
  | none ↦ none
  | some n ↦ some (record out { request_id = n % 2 ^ 32 })
]

unfoldable pub read_command : Option Bytes → SocketRequest → SocketRequest
unfolding to_command_type
read_command none out = record out { command = unknown }
read_command (some text) out = record out { command = to_command_type text }

-- Where the object of the parameters starts, if one does.
unfoldable pub params_start : Bytes → Option Bytes
unfolding find_after skip_spaces
params_start json = elim (find_after (codes "\"params\"") json) [
  | none ↦ none
  | some behind ↦ elim (find_after (b':' ∷ []) behind) [
    | none ↦ none
    | some start ↦ elim (skip_spaces start) [
      | [] ↦ none
      | c ∷ s ↦ if eqb c b'{' then some (c ∷ s) else none
    ]
  ]
]

unfoldable pub read_params : Option Bytes → SocketRequest → ResultCode × SocketRequest
unfolding parse_object
read_params none out = (ok, out)
read_params (some text) out = elim (parse_object text) [
  | returned r ↦ (ok, record out { params = r.0 })
  | throws ↦ (invalid_input, out)
  | stuck ↦ (invalid_input, out)
]

unfoldable pub read_top : Bytes → Dict Bytes Bytes → SocketRequest → ResultCode × SocketRequest
unfolding read_id read_command params_start read_params lookup
read_top json top out = elim (read_id (lookup (codes "request_id") top) out) [
  | none ↦ (invalid_input, out)
  | some out' ↦ read_params (params_start json) (read_command (lookup (codes "command") top) out')
]

unfoldable pub from_json : Bytes → SocketRequest → ResultCode × SocketRequest
unfolding parse_object read_top
from_json json out = elim (parse_object json) [
  | returned r ↦ read_top json r.0 out
  | throws ↦ (invalid_input, out)
  | stuck ↦ (invalid_input, out)
]

unfoldable pub param : SocketRequest → Bytes → Bytes → Bytes
unfolding lookup
param req key default_val = elim (lookup key req.params) [ none ↦ default_val | some text ↦ text ]

abbrev stoi_or : Stoi → ℤ → ℤ
stoi_or (value n) default_val = n
stoi_or _ default_val = default_val

unfoldable pub int_param : SocketRequest → Bytes → ℤ → ℤ
unfolding lookup stoi
int_param req key default_val = elim (lookup key req.params) [
  | none ↦ default_val
  | some text ↦ stoi_or (stoi text) default_val
]
