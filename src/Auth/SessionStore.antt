-- ===== src/Auth/SessionStore.antt =====
-- src/system/shr_infra/auth/{include/session_store.h, src/session_store.cpp}: the sessions in memory.
-- A write to the sessions table is best effort, so its result is read by nobody; the statements that
-- were sent are kept in order in `trail`. The clock is an argument. The 512 byte query buffers hold
-- every statement, since a token has 36 characters. That a write waits where the connection is locked
-- is left out.
pub mod Laws
pub mod History
use justice_flow.Base.{
  ℕ, ℤ, ◌++◌, Bool, Option, none, some, List, [], ◌∷◌, Bytes, leb, if◌then◌else◌, length, bytes_eq,
}
use justice_flow.Base.Dict
use justice_flow.Base.Dict.{Dict}
use justice_flow.Types.{ResultCode, ok, not_found, session_expired, SessionContext}

pub data SessionWrite : Type 0 where
  insert_row : Bytes → ℤ → ℕ → ℕ → SessionWrite
  touch_row : ℕ → Bytes → SessionWrite
  close_row : ℕ → Bytes → SessionWrite

pub record SessionStore : Type 0 where
  pub session_map : Dict Bytes SessionContext
  pub trail : List SessionWrite

pub empty : SessionStore
empty = record { session_map = []; trail = [] }

unfoldable pub insert : SessionContext → SessionStore → ResultCode × SessionStore
insert session st = (
  ok,
  record {
    session_map = Dict.insert session.session_token session st.session_map;
    trail =
        st.trail
        ++ insert_row session.session_token session.officer_id session.created_at session.expires_at
          ∷ [];
  },
)

-- The idle timeout is commented out in the source.
abbrev pub is_expired : SessionContext → ℕ → Bool
is_expired session now = leb session.expires_at now

check_found : Option SessionContext → ℕ → ResultCode × Option SessionContext
check_found none now = (not_found, none)
check_found (some s) now = if is_expired s now then (session_expired, none) else (ok, some s)

-- The second part is `out_session`, which is written on success only.
unfoldable pub validate : Bytes → ℕ → SessionStore → ResultCode × Option SessionContext
unfolding check_found
validate token now st = check_found (Dict.lookup token st.session_map) now

refresh_found : Option SessionContext → Bytes → ℕ → SessionStore → ResultCode × SessionStore
refresh_found none token now st = (not_found, st)
refresh_found (some s) token now st =
    if leb s.expires_at now
    then (session_expired, st)
    else (ok, record st { trail = st.trail ++ touch_row now token ∷ [] })

-- `lastActiveAt` is not written: that line is commented out in the source.
unfoldable pub refresh : Bytes → ℕ → SessionStore → ResultCode × SessionStore
unfolding refresh_found
refresh token now st = refresh_found (Dict.lookup token st.session_map) token now st

remove_found : Option SessionContext → Bytes → ℕ → SessionStore → ResultCode × SessionStore
remove_found none token now st = (not_found, st)
remove_found (some s) token now st = (
  ok,
  record {
    session_map = Dict.erase token st.session_map;
    trail = st.trail ++ close_row now token ∷ [];
  },
)

unfoldable pub remove : Bytes → ℕ → SessionStore → ResultCode × SessionStore
unfolding remove_found
remove token now st = remove_found (Dict.lookup token st.session_map) token now st

unfoldable pub get_active_count : SessionStore → ℕ
get_active_count st = length st.session_map
