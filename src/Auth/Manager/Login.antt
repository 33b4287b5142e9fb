-- ===== src/Auth/Manager/Login.antt =====
-- How a login ends.
use justice_flow.Base.{
  ℕ, ◌+◌, ◌≡◌, ◌≢◌, ◌⊎◌, inl, inr, refl, false, Option, none, some, List, [], ◌∷◌, Bytes, length,
  is_empty, arith, leb, replicate, ℤ, pos, Stoi, value, ◌||◌, Bool-cases, if◌then◌else◌, bytes_eq,
}
use justice_flow.Types.{ok, session_expired, OfficerRank, si, SessionContext}
use justice_flow.Auth.SessionStore.{SessionStore, insert, validate}
use justice_flow.Auth.SessionStore.Laws.{validate-insert}
use justice_flow.Auth.Token.{generate}
use justice_flow.Auth.Manager.{
  LoginEnv, LoginEnd, returns, hard_expiry, login, login_query, login_rows, login_officer,
  login_rank, login_station, login_fallback, authenticate_fallback_user, open_session, finish,
  station_column, make_session, raw_matches, is_rejected_credential_input,
}

-- A session made by a login at this environment.
pub record IsFresh (env : LoginEnv) (cnic : Bytes) (s : SessionContext) : Type 0 where
  pub token : s.session_token ≡ generate env.urandom
  pub token_made : is_empty s.session_token ≡ false
  pub holder : s.cnic ≡ cnic
  pub opened : s.created_at ≡ env.now
  pub expiry : s.expires_at ≡ env.now + hard_expiry

-- Either the login was not granted and the store is as it was, or exactly a fresh session was added.
abbrev pub Ends : LoginEnv → Bytes → SessionStore → LoginEnd → Type 0
Ends env cnic st e =
    ((e.result ≢ returns ok) × (e.store ≡ st))
    ⊎ ((s : SessionContext) × (e.result ≡ returns ok)
        × (e.store ≡ (insert s st).1)
        × IsFresh env cnic s)

module _ (env : LoginEnv) (cnic : Bytes) (st : SessionStore) where
  station-Ends :
      (o : ℤ) (r : OfficerRank) (stn : Stoi) (p : Bytes)
      → is_empty (generate env.urandom) ≡ false
      → Ends env cnic st (login_station env cnic o r stn st p)
  unfolding login_station open_session finish make_session insert
  station-Ends o r (value n) p made = inr (
    make_session (generate env.urandom) o r cnic n env.now,
    refl,
    refl,
    record { token = refl; token_made = made; holder = refl; opened = refl; expiry = refl },
  )
  station-Ends o r _ p made = inl (λ e. cc, refl)

  rank-Ends :
      (o : ℤ) (r : Option OfficerRank) (stn : Stoi) (p : Bytes)
      → Ends env cnic st (login_rank env cnic o r stn st p)
  unfolding login_rank finish
  rank-Ends o none stn p = inl (λ e. cc, refl)
  rank-Ends o (some r) stn p = elim (Bool-cases (is_empty (generate env.urandom))) [
    | inl missing ↦ rw missing (inl (λ e. cc, refl))
    | inr made ↦ rw made (station-Ends o r stn p made)
  ]

  officer-Ends :
      (o : Stoi) (r : Option OfficerRank) (stn : Stoi) (p : Bytes)
      → Ends env cnic st (login_officer env cnic o r stn st p)
  unfolding login_officer
  officer-Ends (value o) r stn p = rank-Ends o r stn p
  officer-Ends _ r stn p = inl (λ e. cc, refl)

  rows-Ends :
      (rows : List (List Bytes)) (p : Bytes) → Ends env cnic st (login_rows env cnic rows st p)
  unfolding login_rows finish
  rows-Ends [] p = inl (λ e. cc, refl)
  rows-Ends (row ∷ rows) p = elim (Bool-cases (is_empty row)) [
    | inl missing ↦ rw missing (inl (λ e. cc, refl))
    | inr there ↦ rw there (officer-Ends _ _ (station_column row) p)
  ]

  fallback-Ends :
      (password p : Bytes)
      → Ends env cnic st (login_fallback (authenticate_fallback_user env cnic password) st p)
  unfolding authenticate_fallback_user make_session login_fallback open_session finish insert
  fallback-Ends password p = elim (Bool-cases (is_empty (generate env.urandom))) [
    | inl missing ↦ inl (ground arith, ground arith)
    | inr made ↦ elim (Bool-cases (raw_matches env.fallback cnic password)) [
      | inl listed ↦
          rw (listed, made)
            (inr (
              make_session (generate env.urandom) (pos 1) si cnic (pos 1) env.now,
              refl,
              refl,
              record {
                token = refl;
                token_made = made;
                holder = refl;
                opened = refl;
                expiry = refl;
              },
            ))
      | inr unlisted ↦ inl (ground arith, ground arith)
    ]
  ]

  query-Ends :
      (password p : Bytes) (q : Option (List (List Bytes)))
      → Ends env cnic st (login_query env cnic password q st p)
  unfolding login_query
  query-Ends password p none = fallback-Ends password p
  query-Ends password p (some rows) = rows-Ends rows p

-- A login either is not granted and leaves every stored session as it was, or it adds exactly one:
-- a session of the given officer, under a token that the generator made, which ends eight hours
-- after the login.
pub login-Ends :
    (env : LoginEnv) (cnic password : Bytes) (st : SessionStore)
    → Ends env cnic st (login env cnic password st)
unfolding login
login-Ends env cnic password st =
    elim (Bool-cases
      (is_empty cnic || is_empty password || is_rejected_credential_input cnic password)) [
        | inl bad ↦ rw bad (inl (λ e. cc, refl))
        | inr fine ↦
            rw fine (query-Ends env cnic st password (replicate (length password) 0) env.query)
      ]

-- A granted login makes a session that is accepted for the next eight hours and no longer.
pub login-validate :
    (env : LoginEnv) (cnic password : Bytes) (st : SessionStore) (later : ℕ)
    → (login env cnic password st).result ≡ returns ok
    → (s : SessionContext) × IsFresh env cnic s
      × (validate (generate env.urandom) later (login env cnic password st).store
          ≡ (if leb (env.now + hard_expiry) later then (session_expired, none) else (ok, some s)))
login-validate env cnic password st later granted = elim (login-Ends env cnic password st) [
  | inl (refused, _) ↦ absurd (refused granted)
  | inr (s, _, stored, fresh) ↦ (
    s,
    fresh,
    rw stored (
        rw (← fresh.token) (
          ground (
            arith,
            validate-insert s s.session_token later st,
            bytes_eq.test_iff s.session_token s.session_token,
            fresh.expiry,
          ))),
  )
]

login_query-password :
    (env : LoginEnv) (cnic password : Bytes) (q : Option (List (List Bytes))) (st : SessionStore)
    (p : Bytes)
    → (login_query env cnic password q st p).password ≡ p
unfolding login_query login_fallback login_rows login_officer login_rank open_session finish
login_query-password env cnic password none st p = ground arith
login_query-password env cnic password (some []) st p = refl
login_query-password env cnic password (some (row ∷ rows)) st p = ground arith

-- Once a login has passed the checks on its input, no byte of the password is left in the caller's
-- buffer, however the login ends.
pub login_wipes :
    (env : LoginEnv) (cnic password : Bytes) (st : SessionStore)
    → cnic ≢ []
    → is_rejected_credential_input cnic password ≡ false
    → (login env cnic password st).password ≡ replicate (length password) 0
unfolding login
login_wipes env cnic password st named fine =
    ground
      (arith, login_query-password env cnic password env.query st (replicate (length password) 0))
