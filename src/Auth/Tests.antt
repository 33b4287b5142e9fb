-- ===== src/Auth/Tests.antt =====
-- Concrete sessions, logins and duty entries, and the theorems of this component at them.
use justice_flow.Base.{
  ◌≡◌, ◌<◌, ◌↔◌, refl, true, false, Option, none, some, List, [], ◌∷◌, Bytes, codes, pos, bytes_eq,
  bytes_beq, has_pair, stoi, int_eq,
}
use justice_flow.Types.{ok, si, SessionContext}
use justice_flow.Auth.SessionStore.{SessionStore, insert, validate}
use justice_flow.Auth.SessionStore.History.{
  StoreCall, inserts, refreshes, removes, run, live, validate-run,
}
use justice_flow.Auth.Token.{bytes_read, generate}
use justice_flow.Auth.Manager.{
  LoginEnv, login, returns as answers, is_rejected_credential_input, parse_officer_rank,
}
use justice_flow.Auth.Manager.Login.{Ends, login-Ends}
use justice_flow.Auth.DutyCache.{DutyCache, DutyCacheEntry}
use justice_flow.OsLayer.UnixSocket.{UnixSocket, Rows}

abbrev token_a : Bytes
token_a = codes "7a"

abbrev session_a : SessionContext
session_a = record {
  officer_id = pos 7;
  cnic = codes "35202";
  rank = si;
  station_id = pos 3;
  belt_number = [];
  created_at = 100;
  expires_at = 28900;
  is_valid = true;
  session_token = token_a;
}

abbrev calls : List StoreCall
calls = refreshes token_a 200 ∷ inserts session_a ∷ removes token_a 50 ∷ []

abbrev store_a : SessionStore
store_a = record { session_map = (token_a, session_a) ∷ []; trail = [] }

validate-run_example :
    (validate token_a 300 (run calls) ≡ (ok, some session_a))
    ↔ ((live token_a calls ≡ some session_a) × (300 < session_a.expires_at))
validate-run_example = validate-run calls token_a 300 session_a

abbrev sixteen : Bytes
sixteen = 0 ∷ 1 ∷ 2 ∷ 3 ∷ 4 ∷ 5 ∷ 6 ∷ 7 ∷ 248 ∷ 249 ∷ 250 ∷ 251 ∷ 252 ∷ 253 ∷ 254 ∷ 255 ∷ []

abbrev login_env : LoginEnv
login_env = record {
  query = some ((codes "7" ∷ codes "SI" ∷ codes "3" ∷ []) ∷ []);
  fallback = none;
  urandom = bytes_read sixteen;
  now = 100;
}

login-Ends_example :
    Ends login_env (codes "35202") store_a (login login_env (codes "35202") (codes "pw") store_a)
login-Ends_example = login-Ends login_env (codes "35202") (codes "pw") store_a

login_granted : (login login_env (codes "35202") (codes "pw") store_a).result ≡ answers ok
unfolding login insert generate is_rejected_credential_input has_pair stoi parse_officer_rank
    bytes_beq
login_granted = refl

abbrev entry_a : DutyCacheEntry
entry_a = record { is_active = true; cached_at = 1000; status = codes "ON_DUTY" }

abbrev cache_a : DutyCache
cache_a = (pos 7, entry_a) ∷ []

abbrev open_socket : UnixSocket
open_socket = record { connected = true; locked = false }

abbrev held_socket : UnixSocket
held_socket = record { connected = true; locked = true }

abbrev on_duty : Option Rows
on_duty = some ((codes "t" ∷ []) ∷ [])
