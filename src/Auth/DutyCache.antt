-- ===== src/Auth/DutyCache.antt =====
-- src/system/shr_infra/auth/{include/duty_cache.h, src/duty_cache.cpp}. The clock and the answer to the
-- status query are arguments. `now - cached_at` stops at 0 here; below 0 it is fresh all the same.
pub mod Laws
use justice_flow.Base.{
  ℕ, ◌*◌, ◌-◌, ℤ, int_eq, Bool, true, false, ◌||◌, Option, none, some, List, [], ◌∷◌, Bytes,
  bytes_eq, codes, ltb, if◌then◌else◌, ◌==◌, length,
}
use justice_flow.Base.Dict
use justice_flow.Base.Dict.{Dict}
use justice_flow.Types.{ResultCode, ok, db_error, not_found, is_ok}
use justice_flow.OsLayer.UnixSocket.{Outcome, returns, blocks, ◌>>=◌, Rows, UnixSocket, execute}

pub record DutyCacheEntry : Type 0 where
  pub is_active : Bool
  pub cached_at : ℕ
  pub status : Bytes

abbrev pub DutyCache : Type 0
DutyCache = Dict ℤ DutyCacheEntry

abbrev pub ttl_seconds : ℕ
ttl_seconds = 5 * 60

is_duty_text : Bytes → Bool
is_duty_text s = s == codes "true" || s == codes "t" || s == codes "1"

read_duty : ResultCode → Rows → ResultCode × Option Bool
unfolding is_duty_text
read_duty ok [] = (not_found, none)
read_duty ok ([] ∷ rows) = (not_found, none)
read_duty ok ((cell ∷ row) ∷ rows) = (ok, some (is_duty_text cell))
read_duty _ rows = (db_error, none)

-- The second part is `out_active`, which is written on success only.
pub query_duty_status : Option Rows → UnixSocket → Outcome (ResultCode × Option Bool × UnixSocket)
unfolding read_duty
query_duty_status answer socket = do
  (rc, rows, s) ← execute answer socket
  let (code, active) = read_duty rc rows
  returns (code, active, s)

-- What is kept of an answer.
abbrev pub asked_entry : Bool → ℕ → DutyCacheEntry
asked_entry active now = record {
  is_active = active;
  cached_at = now;
  status = if active then codes "ON_DUTY" else codes "OFF_DUTY";
}

store :
    ℤ
    → ℕ
    → ResultCode × Option Bool × UnixSocket
    → DutyCache
    → ResultCode × Option Bool × DutyCache × UnixSocket
store officer now (ok, some active, s) cache =
    (ok, some active, Dict.insert officer (asked_entry active now) cache, s)
store officer now (rc, active, s) cache = (rc, active, cache, s)

-- The value of a fresh entry.
fresh_entry : ℕ → Option DutyCacheEntry → Option Bool
fresh_entry now none = none
fresh_entry now (some e) = if ltb (now - e.cached_at) ttl_seconds then some e.is_active else none

check_from :
    Option Bool
    → ℤ
    → ℕ
    → Option Rows
    → DutyCache
    → UnixSocket
    → Outcome (ResultCode × Option Bool × DutyCache × UnixSocket)
unfolding query_duty_status store
check_from (some active) officer now answer cache socket = returns (ok, some active, cache, socket)
check_from none officer now answer cache socket = do
  r ← query_duty_status answer socket
  returns (store officer now r cache)

unfoldable pub check :
    ℤ
    → ℕ
    → Option Rows
    → DutyCache
    → UnixSocket
    → Outcome (ResultCode × Option Bool × DutyCache × UnixSocket)
unfolding check_from fresh_entry
check officer now answer cache socket =
    check_from (fresh_entry now (Dict.lookup officer cache)) officer now answer cache socket

unfoldable pub invalidate : ℤ → DutyCache → DutyCache
invalidate officer cache = Dict.erase officer cache

unfoldable pub get_cache_size : DutyCache → ℕ
get_cache_size cache = length cache
