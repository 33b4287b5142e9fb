-- ===== src/Auth/SessionStore/History.antt =====
-- The store after any history of calls, against a reading of the history alone.
use justice_flow.Base.{
  ℕ, suc, ◌<◌, ◌≤◌, ◌≡◌, ◌↔◌, refl, Option, none, some, List, [], ◌∷◌, Bytes, ◌==◌, bytes_eq,
  if◌then◌else◌, arith, length,
}
use justice_flow.Base.Dict.{Dict, lookup, lookup-insert, lookup-erase}
use justice_flow.Types.{ok, SessionContext}
use justice_flow.Auth.SessionStore.{
  SessionStore, empty, insert, refresh, remove, validate, get_active_count, is_expired,
}
use justice_flow.Auth.SessionStore.Laws.{validate_iff}

pub data StoreCall : Type 0 where
  inserts : SessionContext → StoreCall
  refreshes removes : Bytes → ℕ → StoreCall

pub step : StoreCall → SessionStore → SessionStore
step (inserts s) st = (insert s st).1
step (refreshes token now) st = (refresh token now st).1
step (removes token now) st = (remove token now st).1

-- The newest call stands first.
pub run : List StoreCall → SessionStore
run [] = empty
run (c ∷ earlier) = step c (run earlier)

-- The session that the history leaves under a token: that of its last login, unless a logout of the
-- token came later.
pub live : Bytes → List StoreCall → Option SessionContext
live token [] = none
live token (inserts s ∷ earlier) = if s.session_token == token then some s else live token earlier
live token (refreshes _ _ ∷ earlier) = live token earlier
live token (removes gone _ ∷ earlier) = if gone == token then none else live token earlier

lookup-step-remove :
    (token gone : Bytes) (now : ℕ) (st : SessionStore)
    → lookup token (remove gone now st).1.session_map
      ≡ (if gone == token then none else lookup token st.session_map)
unfolding remove
lookup-step-remove token gone now st =
    ground (arith, lookup-erase gone token st.session_map, bytes_eq.test_iff gone token)

lookup-run : (token : Bytes) (h : List StoreCall) → lookup token (run h).session_map ≡ live token h
unfolding run step live insert refresh lookup empty
lookup-run token [] = refl
lookup-run token (inserts s ∷ h) =
    ground (arith, lookup-insert s.session_token token s (run h).session_map, lookup-run token h)
lookup-run token (refreshes t now ∷ h) = ground (arith, lookup-run token h)
lookup-run token (removes gone now ∷ h) =
    ground (arith, lookup-step-remove token gone now (run h), lookup-run token h)

-- After any history of logins, refreshes and logouts, a token is accepted with session `s` exactly
-- when the history leaves `s` under it and the clock has not reached the hard expiry of `s`.
pub validate-run :
    (h : List StoreCall) (token : Bytes) (now : ℕ) (s : SessionContext)
    → (validate token now (run h) ≡ (ok, some s)) ↔ ((live token h ≡ some s) × (now < s.expires_at))
validate-run h token now s = ground (arith, validate_iff token now (run h) s, lookup-run token h)

count_live : ℕ → Dict Bytes SessionContext → ℕ
count_live now [] = 0
count_live now ((t, s) ∷ m) =
    let rest = count_live now m in if is_expired s now then rest else suc rest

-- The sessions of a store that have not expired.
pub valid_count : ℕ → SessionStore → ℕ
unfolding count_live
valid_count now st = count_live now st.session_map

count_live-le : (now : ℕ) (m : Dict Bytes SessionContext) → count_live now m ≤ length m
unfolding count_live
count_live-le now [] = omega arith
count_live-le now ((t, s) ∷ m) = ground (arith, count_live-le now m)

count_live-lt :
    (now : ℕ) (token : Bytes) (s : SessionContext) (m : Dict Bytes SessionContext)
    → lookup token m ≡ some s
    → s.expires_at ≤ now
    → count_live now m < length m
unfolding count_live lookup
count_live-lt now token s [] found old = ground arith
count_live-lt now token s ((t, u) ∷ m) found old =
    ground (arith, count_live-le now m, count_live-lt now token s m)

-- Where a stored session has expired, `get_active_count` reports more than the valid sessions.
pub get_active_count_overcounts :
    (now : ℕ) (token : Bytes) (s : SessionContext) (st : SessionStore)
    → lookup token st.session_map ≡ some s
    → s.expires_at ≤ now
    → valid_count now st < get_active_count st
unfolding valid_count get_active_count
get_active_count_overcounts now token s st found old =
    count_live-lt now token s st.session_map found old
