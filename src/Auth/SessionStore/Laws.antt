-- ===== src/Auth/SessionStore/Laws.antt =====
-- What one call on the session store does, on every branch.
use justice_flow.Base.{
  ℕ, ◌<◌, ◌≡◌, ◌↔◌, none, some, Bytes, ◌==◌, bytes_eq, bytes_beq_iff, if◌then◌else◌, arith, leb,
}
use justice_flow.Base.Dict.{lookup, lookup-insert, lookup-erase}
use justice_flow.Types.{ok, not_found, session_expired, SessionContext}
use justice_flow.Auth.SessionStore.{SessionStore, insert, validate, refresh, remove}

-- A token is accepted, with session `s`, exactly when `s` is stored under it and the clock has not
-- reached the hard expiry of `s`.
pub validate_iff :
    (token : Bytes) (now : ℕ) (st : SessionStore) (s : SessionContext)
    → (validate token now st ≡ (ok, some s))
      ↔ ((lookup token st.session_map ≡ some s) × (now < s.expires_at))
unfolding validate
validate_iff token now st s = ground arith

-- After a session is inserted, its own token is decided by its hard expiry alone, and every other
-- token is answered as before.
pub validate-insert :
    (s : SessionContext) (token : Bytes) (now : ℕ) (st : SessionStore)
    → validate token now (insert s st).1 ≡ (
        if s.session_token == token
        then (if leb s.expires_at now then (session_expired, none) else (ok, some s))
        else validate token now st)
unfolding validate insert
validate-insert s token now st =
    ground (arith, lookup-insert s.session_token token s st.session_map)

-- After a logout the token is unknown, and every other token is answered as before.
pub validate-remove :
    (gone token : Bytes) (at now : ℕ) (st : SessionStore)
    → validate token now (remove gone at st).1
      ≡ (if gone == token then (not_found, none) else validate token now st)
unfolding validate remove
validate-remove gone token at now st =
    ground (arith, lookup-erase gone token st.session_map, bytes_beq_iff gone token)

-- A refresh, whatever it answers, changes the outcome of no later validation: no session lives
-- longer by it, and none is kept from an idle timeout.
pub validate-refresh :
    (kept token : Bytes) (at now : ℕ) (st : SessionStore)
    → validate token now (refresh kept at st).1 ≡ validate token now st
unfolding validate refresh
validate-refresh kept token at now st = ground arith

-- A refresh is granted exactly where the token would be accepted, and refused by the same code.
pub refresh_agrees :
    (token : Bytes) (now : ℕ) (st : SessionStore)
    → (refresh token now st).0 ≡ (validate token now st).0
unfolding validate refresh
refresh_agrees token now st = ground arith
