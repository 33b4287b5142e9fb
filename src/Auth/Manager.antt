-- ===== src/Auth/Manager.antt =====
-- src/system/shr_infra/auth/src/auth_manager.cpp: login, and the calls that pass a request on to the
-- session store. An argument stands for the environment of a login: what the dedicated database
-- connection answers (`none` where no query could be run or it failed), the variable
-- `JF_TEST_AUTH_FALLBACK`, the random device and the clock. The log is left out.
pub mod Rank
pub mod Login
use justice_flow.Base.{
  ℕ, zero, suc, ◌+◌, ◌*◌, Bool, true, false, ◌&&◌, ◌||◌, not, Option, none, some, List, [], ◌∷◌,
  Bytes, String, codes, leb, eqb, if◌then◌else◌, length, replicate, is_empty, any, get_or, has_pair,
  is_cntrl, ◌==◌, bytes_eq, ℤ, pos, stoi, Stoi, value,
}
use justice_flow.Types.{
  ResultCode, ok, auth_failed, rank_insufficient, invalid_input, invalid_state, OfficerRank,
  constable, si, inspector, dsp, SessionContext,
}
use justice_flow.Auth.SessionStore.{SessionStore}
use justice_flow.Auth.SessionStore
use justice_flow.Auth.Token.{Urandom, generate}

pub record LoginEnv : Type 0 where
  pub query : Option (List (List Bytes))
  pub fallback : Option Bytes
  pub urandom : Urandom
  pub now : ℕ

-- `strchr` also finds the terminating 0 of "'\";\\".
dangerous : ℕ → Bool
dangerous c = eqb c 0x27 || eqb c 0x22 || eqb c b';' || eqb c 0x5c || eqb c 0

unfoldable pub is_rejected_credential_input : Bytes → Bytes → Bool
unfolding dangerous
is_rejected_credential_input cnic password =
    any dangerous cnic
    || has_pair b'-' b'-' cnic
    || has_pair b'/' b'*' cnic
    || any is_cntrl password

unfoldable pub parse_officer_rank : Bytes → Option OfficerRank
parse_officer_rank rank =
    if rank == codes "CONSTABLE"
    then some constable
    else if rank == codes "INSPECTOR"
    then some inspector
    else if rank == codes "SI"
    then some si
    else if rank == codes "DSP"
    then some dsp
    else none

-- The part of a text before the first `c`, and what follows it.
unfoldable pub cut : ℕ → Bytes → Bytes × Option Bytes
cut c [] = ([], none)
cut c (x ∷ s) = let (a, b) = cut c s in if eqb x c then ([], some s) else (x ∷ a, b)

pair_matches : Bytes → Bytes → Bytes × Option Bytes → Bool
pair_matches cnic password (name, none) = false
pair_matches cnic password (name, some secret) = name == cnic && secret == password

-- The `getline` loop over the pairs; a pair takes a byte at least, or ends the text.
matches_any : ℕ → Bytes → Bytes → Bytes → Bool
matches_any fuel cnic password [] = false
matches_any zero cnic password (x ∷ s) = false
matches_any (suc fuel) cnic password (x ∷ s) =
    pair_matches cnic password (cut b'=' (cut b';' (x ∷ s)).0)
    || elim (cut b';' (x ∷ s)).1 [ none ↦ false | some rest ↦ matches_any fuel cnic password rest ]

-- `expiresAt` is eight hours after the login.
abbrev pub hard_expiry : ℕ
hard_expiry = 8 * 3600

make_session : Bytes → ℤ → OfficerRank → Bytes → ℤ → ℕ → SessionContext
make_session token officer rank cnic station now = record {
  officer_id = officer;
  cnic = cnic;
  rank = rank;
  station_id = station;
  belt_number = [];
  created_at = now;
  expires_at = now + hard_expiry;
  is_valid = true;
  session_token = token;
}

raw_matches : Option Bytes → Bytes → Bytes → Bool
unfolding matches_any pair_matches cut
raw_matches none cnic password = false
raw_matches (some raw) cnic password = matches_any (length raw) cnic password raw

-- The session that the fallback makes, if the pair is listed and a token could be generated.
unfoldable pub authenticate_fallback_user : LoginEnv → Bytes → Bytes → Option SessionContext
unfolding raw_matches make_session
authenticate_fallback_user env cnic password =
    let token = generate env.urandom in
    if raw_matches env.fallback cnic password && not (is_empty token)
    then some (make_session token (pos 1) si cnic (pos 1) env.now)
    else none

-- `std::stoi` on an id column: an exception leaves `login`.
pub data LoginResult : Type 0 where
  returns : ResultCode → LoginResult
  throws : LoginResult

-- How a login ends: its result, the session that it gave out, the store, and what the caller's
-- password buffer holds.
pub record LoginEnd : Type 0 where
  pub result : LoginResult
  pub session : Option SessionContext
  pub store : SessionStore
  pub password : Bytes

finish : ResultCode → SessionStore → Bytes → LoginEnd
finish rc st password = record {
  result = returns rc;
  session = none;
  store = st;
  password = password;
}

-- `SessionStore::insert`, whose code the login returns.
open_session : SessionContext → SessionStore → Bytes → LoginEnd
open_session s st password =
    let (rc, st') = SessionStore.insert s st in
    record { result = returns rc; session = some s; store = st'; password = password }

login_fallback : Option SessionContext → SessionStore → Bytes → LoginEnd
login_fallback none st password = finish auth_failed st password
login_fallback (some s) st password = open_session s st password

-- The third column; it is read last, after the token was made.
login_station : LoginEnv → Bytes → ℤ → OfficerRank → Stoi → SessionStore → Bytes → LoginEnd
login_station env cnic officer rank (value stn) st password =
    open_session (make_session (generate env.urandom) officer rank cnic stn env.now) st password
login_station env cnic officer rank _ st password = record {
  result = throws;
  session = none;
  store = st;
  password = password;
}

login_rank : LoginEnv → Bytes → ℤ → Option OfficerRank → Stoi → SessionStore → Bytes → LoginEnd
unfolding login_station
login_rank env cnic officer none stn st password = finish invalid_state st password
login_rank env cnic officer (some rank) stn st password =
    if is_empty (generate env.urandom)
    then finish invalid_state st password
    else login_station env cnic officer rank stn st password

login_officer :
    LoginEnv → Bytes → Stoi → Option OfficerRank → Stoi → SessionStore → Bytes → LoginEnd
unfolding login_rank
login_officer env cnic (value officer) rank stn st password =
    login_rank env cnic officer rank stn st password
login_officer env cnic _ rank stn st password = record {
  result = throws;
  session = none;
  store = st;
  password = password;
}

station_column : List Bytes → Stoi
station_column row = if leb 3 (length row) then stoi (get_or row 2 []) else value (pos 0)

-- The query selects three columns, so a row that is not empty has a second one.
login_rows : LoginEnv → Bytes → List (List Bytes) → SessionStore → Bytes → LoginEnd
unfolding login_officer station_column
login_rows env cnic [] st password = finish auth_failed st password
login_rows env cnic (row ∷ rows) st password =
    if is_empty row
    then finish auth_failed st password
    else login_officer env cnic (stoi (get_or row 0 [])) (parse_officer_rank (get_or row 1 []))
        (station_column row) st password

login_query :
    LoginEnv → Bytes → Bytes → Option (List (List Bytes)) → SessionStore → Bytes → LoginEnd
unfolding login_rows login_fallback open_session
login_query env cnic password none st wiped =
    login_fallback (authenticate_fallback_user env cnic password) st wiped
login_query env cnic password (some rows) st wiped = login_rows env cnic rows st wiped

-- `mlock_guard` fills the caller's buffer with zeros when `login` is left, by a throw too.
unfoldable pub login : LoginEnv → Bytes → Bytes → SessionStore → LoginEnd
unfolding login_query finish make_session raw_matches
login env cnic password st =
    if is_empty cnic || is_empty password || is_rejected_credential_input cnic password
    then finish auth_failed st password
    else login_query env cnic password env.query st (replicate (length password) 0)

unfoldable pub validate_token : Bytes → ℕ → SessionStore → ResultCode × Option SessionContext
validate_token token now st =
    if is_empty token then (invalid_input, none) else SessionStore.validate token now st

-- The ladder of `validateRank`, for the ranks that it knows.
unfoldable pub rank_value : OfficerRank → Option ℕ
rank_value constable = some 0
rank_value inspector = some 1
rank_value si = some 2
rank_value dsp = some 3
rank_value _ = none

compare_rank : Option ℕ → ℕ → ResultCode
compare_rank none minimum_rank = invalid_state
compare_rank (some v) minimum_rank = if leb minimum_rank v then ok else rank_insufficient

unfoldable pub validate_rank : SessionContext → ℕ → ResultCode
unfolding rank_value compare_rank
validate_rank session minimum_rank = compare_rank (rank_value session.rank) minimum_rank

unfoldable pub refresh_session : SessionContext → ℕ → SessionStore → ResultCode × SessionStore
refresh_session session now st = SessionStore.refresh session.session_token now st

unfoldable pub logout : SessionContext → ℕ → SessionStore → ResultCode × SessionStore
logout session now st = SessionStore.remove session.session_token now st
