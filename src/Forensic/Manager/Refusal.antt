-- ===== src/Forensic/Manager/Refusal.antt =====
-- The operations of src/system/subsystem3/forensic/src/forensic_manager.cpp that ask for an inspector.
use justice_flow.Base.{
  ℕ, ◌≡◌, ◌≢◌, refl, Bool, true, false, Option, none, some, ℤ, Bytes, arith, inl, inr, Bool-cases,
  absurd,
}
use justice_flow.Types.{ResultCode, ok, is_ok, SessionContext}
use justice_flow.OsLayer.UnixSocket.{Outcome, returns, blocks, ◌>>=◌, UnixSocket, lock}
use justice_flow.OsLayer.UnixSocket
use justice_flow.Auth.SessionStore.{SessionStore}
use justice_flow.Auth.SessionStore
use justice_flow.Auth.Manager.{validate_token}
use justice_flow.Forensic.Repository.{ForensicDb}
use justice_flow.Forensic.Manager.{
  ForensicCall, create_call, amendment_call, needs_rank, World, granted, auth_and_conn,
  after_validate, duty_check, after_duty, after_access, operate, rank_refused,
}

no_gap : (t : Bytes) (now : ℕ) (st : SessionStore) → validate_token t now st ≢ (ok, none)
unfolding validate_token SessionStore.validate
no_gap t now st = ground arith

-- A call that returns OK.
pub returns_ok {ℓ} : {A : Type ℓ} → Outcome (ResultCode × A) → Bool
returns_ok (returns (rc, w)) = is_ok rc
returns_ok blocks = false

module _ {Db : Type 0} (F : ForensicDb Db) (midnight : Bytes → Option ℤ) where
  duty-refused :
      (c : ForensicCall) (now : ℕ) (s : SessionContext) (d : Bool × World Db)
      → needs_rank c ≡ true
      → is_ok (after_duty F midnight c now s d).0 ≡ false
  unfolding after_duty rank_refused
  duty-refused c now s (false, w) ranked = refl
  duty-refused c now s (true, w) ranked = ground (arith, ranked)

  bound-refused :
      (c : ForensicCall) (now : ℕ) (s : SessionContext) (o : Outcome (Bool × World Db))
      → needs_rank c ≡ true
      → returns_ok (o >>= (λ d. returns (after_duty F midnight c now s d))) ≡ false
  unfolding returns_ok
  bound-refused c now s blocks ranked = refl
  bound-refused c now s (returns d) ranked = duty-refused c now s d ranked

  granted-refused :
      (c : ForensicCall) (now : ℕ) (answer : Option UnixSocket.Rows) (s : SessionContext)
      (w : World Db)
      → needs_rank c ≡ true
      → returns_ok (after_access F midnight c now answer (granted s w)) ≡ false
  unfolding after_access
  granted-refused (create_call _ _ _ _ _) now answer s w ranked =
      bound-refused (create_call _ _ _ _ _) now s (duty_check s.officer_id now answer w) ranked
  granted-refused (amendment_call _ _) now answer s w ranked =
      bound-refused (amendment_call _ _) now s (duty_check s.officer_id now answer w) ranked
  granted-refused _ now answer s w ranked = absurd (ground (arith, ranked))

  validated-refused :
      (c : ForensicCall) (now : ℕ) (answer : Option UnixSocket.Rows)
      (x : ResultCode × Option SessionContext) (w : World Db)
      → needs_rank c ≡ true
      → x ≢ (ok, none)
      → returns_ok (after_access F midnight c now answer (after_validate x w)) ≡ false
  unfolding after_validate after_access returns_ok
  validated-refused c now answer (ok, some s) w ranked gap = granted-refused c now answer s w ranked
  validated-refused c now answer (ok, none) w ranked gap = absurd (gap refl)
  validated-refused c now answer (_, o) w ranked gap = refl

  -- Creating a request and amending a report never return OK, whatever the session, the rank, the
  -- duty and the database: the flag that the code tests beside the rank is never set.
  pub inspector_calls_refused :
      (c : ForensicCall) (now : ℕ) (answer : Option UnixSocket.Rows) (token : Bytes) (w : World Db)
      → needs_rank c ≡ true
      → returns_ok (operate F midnight c now answer token w) ≡ false
  unfolding operate auth_and_conn lock returns_ok after_access
  inspector_calls_refused c now answer token w ranked = elim (Bool-cases w.socket.locked) [
    | inl held ↦ rw held refl
    | inr free ↦ elim (Bool-cases w.socket.connected) [
      | inl up ↦
          rw (free, up)
            (validated-refused c now answer (validate_token token now w.sessions)
              (record w { socket = record { connected = true; locked = true } }) ranked
              (no_gap token now w.sessions))
      | inr down ↦ rw (free, down) refl
    ]
  ]
