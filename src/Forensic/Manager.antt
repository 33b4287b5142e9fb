-- ===== src/Forensic/Manager.antt =====
-- src/system/subsystem3/forensic/src/forensic_manager.cpp: the public operations, from the lock of the
-- connection to the body. The state is what the operations share: the database, the connection with
-- its mutex, the sessions and the duty cache. The clock and what the database answers to the duty
-- query are arguments; the ids and rows that an operation hands out are left out.
pub mod Locking
pub mod Refusal
pub mod Lifecycle
use justice_flow.Base.{
  ℕ, zero, suc, Bool, true, false, ◌&&◌, ◌||◌, not, Option, none, some, ℤ, Bytes, if◌then◌else◌,
}
use justice_flow.Types.{
  ResultCode, ok, db_error, not_found, duty_inactive, rank_insufficient, is_ok, SessionContext,
  rank_index, inspector,
}
use justice_flow.OsLayer.UnixSocket.{
  Outcome, returns, blocks, ◌>>=◌, Rows, UnixSocket, lock, unlock,
}
use justice_flow.Auth.SessionStore.{SessionStore}
use justice_flow.Auth.Manager.{validate_token, validate_rank}
use justice_flow.Auth.DutyCache.{DutyCache}
use justice_flow.Auth.DutyCache
use justice_flow.Forensic.Repository.{ForensicDb}
use justice_flow.Forensic.Body.{
  record_lab_receipt, record_examination_start, record_findings, contest_report, record_amendment,
  link_evidence, create_forensic_request,
}

-- A call with its arguments after the token. A query has the number of rows that its SELECT gave,
-- none where it failed; its list is empty before.
pub data ForensicCall : Type 0 where
  create_call : ℤ → Bytes → Bytes → Bytes → Bytes → ForensicCall
  link_call : ℤ → ℤ → Bytes → ForensicCall
  receipt_call : ℤ → Bytes → ForensicCall
  examination_call : ℤ → ForensicCall
  findings_call : ℤ → Bytes → Bytes → Bytes → ForensicCall
  amendment_call : ℤ → Bytes → ForensicCall
  contest_call : ℤ → Bytes → ForensicCall
  query_call : Option ℕ → ForensicCall

pub record World (Db : Type 0) : Type 0 where
  pub db : Db
  pub socket : UnixSocket
  pub sessions : SessionStore
  pub duty : DutyCache

pub data Access (Db : Type 0) : Type 0 where
  refused : ResultCode → World Db → Access Db
  granted : SessionContext → World Db → Access Db

abbrev pub is_query : ForensicCall → Bool
is_query (query_call n) = true
is_query _ = false

-- The two operations that ask for an inspector.
abbrev pub needs_rank : ForensicCall → Bool
needs_rank (create_call _ _ _ _ _) = true
needs_rank (amendment_call _ _) = true
needs_rank _ = false

-- `bool rank_ok = false`, which nothing sets afterwards.
abbrev pub rank_ok : Bool
rank_ok = false

rank_refused : SessionContext → Bool
rank_refused s = not (is_ok (validate_rank s (rank_index inspector))) || not rank_ok

query_code : Option ℕ → ResultCode
query_code none = db_error
query_code (some zero) = not_found
query_code (some (suc n)) = ok

is_on_duty : ResultCode → Option Bool → Bool
is_on_duty ok (some active) = active
is_on_duty _ active = false

module _ {Db : Type 0} where
  unlocked : World Db → World Db
  unlocked w = record w { socket = unlock w.socket }

  after_validate : ResultCode × Option SessionContext → World Db → Access Db
  unfolding unlocked
  after_validate (ok, some s) w = granted s w
  after_validate (rc, out) w = refused rc (unlocked w)

  -- On success the connection stays locked.
  pub auth_and_conn : Bytes → ℕ → World Db → Outcome (Access Db)
  unfolding after_validate unlocked
  auth_and_conn token now w = do
    s ← lock w.socket
    let locked : World Db = record w { socket = s }
    returns (
        if s.connected
        then after_validate (validate_token token now w.sessions) locked
        else refused db_error (unlocked locked))

  -- `isDutyActive`, and whether the operation goes on.
  duty_check : ℤ → ℕ → Option Rows → World Db → Outcome (Bool × World Db)
  unfolding is_on_duty
  duty_check officer now answer w = do
    (rc, active, cache, s) ← DutyCache.check officer now answer w.duty w.socket
    returns (is_on_duty rc active, record w { duty = cache; socket = s })

module _ {Db : Type 0} (F : ForensicDb Db) (midnight : Bytes → Option ℤ) where
  pub body : ForensicCall → ℕ → SessionContext → Db → ResultCode × Db
  unfolding query_code
  body (create_call case_id purpose description lab examiner) now s db =
      let (rc, out, db') =
        create_forensic_request F midnight now s case_id purpose description lab examiner db in
      (rc, db')
  body (link_call request evidence notes) now s db =
      link_evidence F midnight now request evidence notes db
  body (receipt_call request date) now s db = record_lab_receipt F midnight now request date db
  body (examination_call request) now s db = record_examination_start F midnight now request db
  body (findings_call request findings path date) now s db =
      record_findings F midnight now request findings path date db
  body (amendment_call request findings) now s db =
      record_amendment F midnight now request findings db
  body (contest_call request reason) now s db = contest_report F midnight now s request reason db
  body (query_call n) now s db = (query_code n, db)

  run_body : ForensicCall → ℕ → SessionContext → World Db → ResultCode × World Db
  unfolding body
  run_body c now s w = let (rc, db) = body c now s w.db in (rc, record w { db = db })

  after_duty : ForensicCall → ℕ → SessionContext → Bool × World Db → ResultCode × World Db
  unfolding run_body rank_refused
  after_duty c now s (false, w) = (duty_inactive, w)
  after_duty c now s (true, w) =
      if needs_rank c && rank_refused s then (rank_insufficient, w) else run_body c now s w

  after_access : ForensicCall → ℕ → Option Rows → Access Db → Outcome (ResultCode × World Db)
  unfolding run_body after_duty duty_check
  after_access c now answer (refused rc w) = returns (rc, w)
  after_access c now answer (granted s w) =
      if is_query c
      then returns (run_body c now s w)
      else do d ← duty_check s.officer_id now answer w; returns (after_duty c now s d)

  -- One operation with its token.
  unfoldable pub operate :
      ForensicCall → ℕ → Option Rows → Bytes → World Db → Outcome (ResultCode × World Db)
  unfolding auth_and_conn after_access
  operate c now answer token w = do a ← auth_and_conn token now w; after_access c now answer a
