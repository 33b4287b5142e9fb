-- ===== src/Forensic/Manager/Locking.antt =====
-- The lock of the connection over the operations of src/system/subsystem3/forensic/src/
-- forensic_manager.cpp.
use justice_flow.Base.{
  ℕ, ◌+◌, ◌≤◌, ◌≡◌, ◌≢◌, refl, Bool, true, false, ◌&&◌, Option, some, ℤ, int_eq, absurd, Bytes, inl,
  inr, Bool-cases,
}
use justice_flow.Base.Dict.{lookup}
use justice_flow.Types.{ResultCode, ok, SessionContext}
use justice_flow.OsLayer.UnixSocket.{Outcome, returns, blocks, ◌>>=◌, UnixSocket, lock, execute}
use justice_flow.OsLayer.UnixSocket
use justice_flow.Auth.Manager.{validate_token}
use justice_flow.Auth.DutyCache.{DutyCacheEntry, ttl_seconds}
use justice_flow.Auth.DutyCache.Laws.{check_miss_locked, check_locked}
use justice_flow.Forensic.Repository.{ForensicDb}
use justice_flow.Forensic.Manager.{
  ForensicCall, is_query, needs_rank, World, granted, auth_and_conn, after_validate, duty_check,
  after_duty, after_access, operate, run_body, rank_refused, unlocked,
}

module _ {Db : Type 0} (F : ForensicDb Db) (midnight : Bytes → Option ℤ) where
  -- Where the session is accepted, what follows runs with the lock held.
  operate-granted :
      (c : ForensicCall) (now : ℕ) (answer : Option UnixSocket.Rows) (token : Bytes) (w : World Db)
      (s : SessionContext)
      → w.socket.locked ≡ false
      → w.socket.connected ≡ true
      → validate_token token now w.sessions ≡ (ok, some s)
      → operate F midnight c now answer token w
        ≡ after_access F midnight c now answer
            (granted s (record w { socket = record w.socket { locked = true } }))
  unfolding operate auth_and_conn lock after_validate
  operate-granted c now answer token w s free up valid = rw (free, up, valid) refl

  blocked :
      (c : ForensicCall) (now : ℕ) (answer : Option UnixSocket.Rows) (token : Bytes) (w : World Db)
      → w.socket.locked ≡ true
      → operate F midnight c now answer token w ≡ blocks
  unfolding operate auth_and_conn lock
  blocked c now answer token w held = rw held refl

  -- Two calls, one after the other.
  pub then_operate :
      ForensicCall
      → ℕ
      → Option UnixSocket.Rows
      → Bytes
      → Outcome (ResultCode × World Db)
      → Outcome (ResultCode × World Db)
  then_operate c now answer token first = do
    (rc, w) ← first
    operate F midnight c now answer token w

  after_duty-blocked :
      (c d : ForensicCall) (now later : ℕ) (s : SessionContext) (b : Bool) (w : World Db)
      (other : Option UnixSocket.Rows) (next : Bytes)
      → w.socket.locked ≡ true
      → then_operate d later other next (returns (after_duty F midnight c now s (b, w))) ≡ blocks
  unfolding then_operate after_duty run_body
  after_duty-blocked c d now later s false w other next held = blocked d later other next w held
  after_duty-blocked c d now later s true w other next held =
      elim (Bool-cases (needs_rank c && rank_refused s)) [
        | inl e ↦ rw e (blocked d later other next w held)
        | inr e ↦ rw e (blocked d later other next (run_body F midnight c now s w).1 held)
      ]

  granted-blocked :
      (c d : ForensicCall) (now later : ℕ) (answer other : Option UnixSocket.Rows) (next : Bytes)
      (s : SessionContext) (w : World Db)
      → w.socket.locked ≡ true
      → then_operate d later other next (after_access F midnight c now answer (granted s w))
        ≡ blocks
  unfolding then_operate after_access run_body duty_check
  granted-blocked c d now later answer other next s w held = elim (Bool-cases (is_query c)) [
    | inl e ↦ rw e (blocked d later other next (run_body F midnight c now s w).1 held)
    | inr e ↦ elim (check_locked s.officer_id now answer w.duty w.socket held) [
      | inl waits ↦ rw (e, waits) refl
      | inr (active, hit) ↦
          rw (e, hit) (after_duty-blocked c d now later s active w other next held)
    ]
  ]

  -- Once an operation was called with a valid session on a free connection, no operation ever
  -- returns again: the call itself waits for ever, or the next one does, whatever its token.
  pub second_call_blocks :
      (c d : ForensicCall) (now later : ℕ) (answer other : Option UnixSocket.Rows)
      (token next : Bytes) (w : World Db) (s : SessionContext)
      → w.socket.locked ≡ false
      → w.socket.connected ≡ true
      → validate_token token now w.sessions ≡ (ok, some s)
      → then_operate d later other next (operate F midnight c now answer token w) ≡ blocks
  second_call_blocks c d now later answer other token next w s free up valid =
      rw (operate-granted c now answer token w s free up valid) (
        granted-blocked c d now later answer other next s
          (record w { socket = record w.socket { locked = true } }) refl)

  -- An operation that is no query never returns where the duty of the officer is not in the cache,
  -- or was read five minutes ago or earlier: it waits for the lock that it holds itself.
  pub uncached_duty_blocks :
      (c : ForensicCall) (now : ℕ) (answer : Option UnixSocket.Rows) (token : Bytes) (w : World Db)
      (s : SessionContext)
      → is_query c ≡ false
      → w.socket.locked ≡ false
      → w.socket.connected ≡ true
      → validate_token token now w.sessions ≡ (ok, some s)
      → ((e : DutyCacheEntry)
          → lookup s.officer_id w.duty ≡ some e
          → e.cached_at + ttl_seconds ≤ now)
      → operate F midnight c now answer token w ≡ blocks
  unfolding after_access duty_check
  uncached_duty_blocks c now answer token w s op free up valid stale =
      rw (operate-granted c now answer token w s free up valid) (
        rw
          (
            op,
            check_miss_locked s.officer_id now answer w.duty (record w.socket { locked = true })
                stale refl,
          )
          refl)

  after_validate-refused :
      (c : ForensicCall) (now : ℕ) (answer : Option UnixSocket.Rows)
      (x : ResultCode × Option SessionContext) (w : World Db)
      → x.0 ≢ ok
      → after_access F midnight c now answer (after_validate x w) ≡ returns (x.0, unlocked w)
  unfolding after_access after_validate
  after_validate-refused c now answer (ok, o) w bad = absurd (bad refl)
  after_validate-refused c now answer (_, o) w bad = refl

  -- An operation whose session is not accepted returns that code and leaves everything as it was, the
  -- lock included.
  pub refused_unchanged :
      (c : ForensicCall) (now : ℕ) (answer : Option UnixSocket.Rows) (token : Bytes) (w : World Db)
      → w.socket.locked ≡ false
      → w.socket.connected ≡ true
      → (validate_token token now w.sessions).0 ≢ ok
      → operate F midnight c now answer token w
        ≡ returns ((validate_token token now w.sessions).0, w)
  unfolding operate auth_and_conn lock unlocked UnixSocket.unlock
  refused_unchanged c now answer token w free up bad =
      rw (free, up)
        (after_validate-refused c now answer (validate_token token now w.sessions)
          (record w { socket = record { connected = true; locked = true } }) bad)
