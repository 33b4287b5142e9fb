-- ===== src/Types.antt =====
-- src/common/constants.h and src/common/common.h: the codes that operations return, the ranks and
-- the session of an officer. `time_t` is a count of seconds since the epoch.
use justice_flow.Base.{ℕ, Bool, true, false, ℤ, Bytes}

pub data ResultCode : Type 0 where
  ok : ResultCode
  auth_failed rank_insufficient session_expired jurisdiction_denied : ResultCode
  not_found already_exists invalid_input invalid_argument : ResultCode
  db_error foreign_key_violation file_system_error : ResultCode
  invalid_state duty_inactive record_locked : ResultCode
  analysis_failed threshold_not_met : ResultCode

-- `rc == ResultCode::OK`.
abbrev pub is_ok : ResultCode → Bool
is_ok ok = true
is_ok _ = false

pub data OfficerRank : Type 0 where
  constable head_constable asi si inspector dsp sp ssp dig addl_ig igp : OfficerRank

-- `static_cast<int>(rank)`.
abbrev pub rank_index : OfficerRank → ℕ
rank_index constable = 0
rank_index head_constable = 1
rank_index asi = 2
rank_index si = 3
rank_index inspector = 4
rank_index dsp = 5
rank_index sp = 6
rank_index ssp = 7
rank_index dig = 8
rank_index addl_ig = 9
rank_index igp = 10

pub record SessionContext : Type 0 where
  pub officer_id : ℤ
  pub cnic : Bytes
  pub rank : OfficerRank
  pub station_id : ℤ
  pub belt_number : Bytes
  pub created_at : ℕ
  pub expires_at : ℕ
  pub is_valid : Bool
  pub session_token : Bytes

-- `static_cast<int>(code)`.
abbrev pub code_number : ResultCode → ℕ
code_number ok = 0
code_number auth_failed = 1
code_number rank_insufficient = 2
code_number session_expired = 3
code_number jurisdiction_denied = 4
code_number not_found = 10
code_number already_exists = 11
code_number invalid_input = 12
code_number invalid_argument = 13
code_number db_error = 20
code_number foreign_key_violation = 21
code_number file_system_error = 22
code_number invalid_state = 30
code_number duty_inactive = 31
code_number record_locked = 32
code_number analysis_failed = 40
code_number threshold_not_met = 41
