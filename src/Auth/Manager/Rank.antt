-- ===== src/Auth/Manager/Rank.antt =====
-- The rank check, and what the callers that ask for an inspector get from it.
use justice_flow.Base.{absurd, false, refl, ◌≡◌, ◌≢◌, arith}
use justice_flow.Types.{is_ok, ResultCode, ok, rank_index, inspector, SessionContext}
use justice_flow.Auth.Manager.{validate_rank}

-- Asked for the enumerator INSPECTOR, as every caller in subsystem 3 does, the check passes for no
-- session at all, since the ladder's values end at 3 and the enumerator's index is 4.
pub validate_rank-inspector : (s : SessionContext) → validate_rank s (rank_index inspector) ≢ ok
unfolding validate_rank
validate_rank-inspector s = ground arith

not_ok : (rc : ResultCode) → rc ≢ ok → is_ok rc ≡ false
not_ok ok h = absurd (h refl)
not_ok _ h = refl

pub refused-is_ok : (s : SessionContext) → is_ok (validate_rank s (rank_index inspector)) ≡ false
refused-is_ok s = not_ok (validate_rank s (rank_index inspector)) (validate_rank-inspector s)
