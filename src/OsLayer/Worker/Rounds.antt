-- ===== src/OsLayer/Worker/Rounds.antt =====
-- The thread of a client of src/os_layer/threading/src/worker.cpp comes to an end.
pub mod Ends
use justice_flow.Base.{
  ℕ, zero, suc, ◌+◌, ◌-◌, ◌≤◌, ◌<◌, ◌≡◌, ◌≢◌, refl, sym, ap, ◌∙◌, Bool, true, false, Option, none,
  some, List, [], ◌∷◌, ◌++◌, Bytes, codes, eqb, ltb, leb, if◌then◌else◌, length, length-append,
  is_empty, is_positive, Bool-cases, inl, inr, Stoi, value, absurd, arith,
}
use justice_flow.Types.{ResultCode, ok, session_expired, SessionContext}
use justice_flow.Auth.Manager.{LoginResult, LoginEnd, login, validate_token, logout}
use justice_flow.Auth.Manager
use justice_flow.OsLayer.UnixSocket.{UnixSocket, Outcome, returns, blocks, Rows, execute}
use justice_flow.OsLayer.Sessions.{SemGuard, acquired, not_acquired, sem_waits, sem_wait}
use justice_flow.Gateway.Frame.{
  RecvEvent, arrived, recv_interrupted, recv_failed, take, drop, encode_length,
}
use justice_flow.Gateway.Frame.Transfer.{arriving}
use justice_flow.OsLayer.Wire.{
  error_response, Connection, ReadFrame, read_some, read_payload, checked_payload, read_header,
  read_frame, written, after_header, write_frame, send_error_response, serialize, frame_header_size,
  max_frame_size,
}
use justice_flow.OsLayer.Worker.{
  World, Turn, Desk, WorkerTask, refuse, send, officer_number, RoundStep, goes_on, leaves,
  throws_out, hangs, overruns, said, admitted, rejected, logged_in, credentials,
  handle_login_request, drop_nul, sent_rows, answered, query_request, query_result, auth_response,
  logout_request, auth_request,
}
use justice_flow.OsLayer.Worker.Loop.{
  after_answer, behind_gate, run_statement, after_token_check, after_logout, handle_request,
  received, handle_frame, after_read, End, closed, hung, overran, out_of_fuel, cleaned,
  continue_with, process_client, process_task, newcomer,
}

-- Writing reads nothing.
written-reads :
    (s : Bytes) (c : Connection) (writes : List (Option ℕ)) → (written s c writes).1.reads ≡ c.reads
unfolding written
written-reads s c [] = refl
written-reads s c (none ∷ more) = refl
written-reads s c (some n ∷ more) = refl

after_header-reads :
    (payload : Bytes) (r : Bool × Connection) → (after_header payload r).1.reads ≡ r.1.reads
unfolding after_header
after_header-reads payload (false, c) = refl
after_header-reads [] (true, c) = refl
after_header-reads (b ∷ payload) (true, c) = written-reads (b ∷ payload) c c.writes

pub write_frame-reads :
    (type : ℕ) (payload : Bytes) (c : Connection) → (write_frame type payload c).1.reads ≡ c.reads
unfolding write_frame
write_frame-reads type payload c =
    let header = encode_length (length payload) ++ encode_length type in
    after_header-reads payload (written header c c.writes) ∙ written-reads header c c.writes

pub refuse-reads :
    (code : ℕ) (msg : Bytes) (w : World) → (refuse code msg w).connection.reads ≡ w.connection.reads
unfolding refuse send_error_response
refuse-reads code msg w = write_frame-reads error_response (encode_length code ++ msg) w.connection

pub send-reads :
    (type : ℕ) (payload : Bytes) (w : World)
    → (send type payload w).connection.reads ≡ w.connection.reads
unfolding send
send-reads type payload w = write_frame-reads type payload w.connection

-- A round that goes on has read what the frame took, and no more.
module _ (events : List RecvEvent) where
  pub Rests : RoundStep → Type 0
  Rests (goes_on desk w) = w.connection.reads ≡ events
  Rests _ = Unit

  said-Rests : (s : SessionContext) (w : World) (k : RoundStep) → Rests k → Rests (said s w k)
  unfolding said Rests
  said-Rests s w k f =
      elim (officer_number s) as (λ n. Rests (elim n [ value m ↦ k | _ ↦ throws_out w ])) [
        | value n ↦ f
        | _ ↦ tt
      ]

  admitted-Rests :
      (task : WorkerTask) (s : SessionContext) (w : World) (n : Stoi)
      → w.connection.reads ≡ events
      → Rests (admitted task s w n)
  unfolding admitted Rests
  admitted-Rests task s w (value n) e = elim (Bool-cases (is_positive n)) [
    | inl p ↦ rw p e
    | inr p ↦ rw p e
  ]
  admitted-Rests task s w _ e = tt

  logged_in-Rests :
      (task : WorkerTask) (r : LoginResult) (s : Option SessionContext) (w : World)
      → w.connection.reads ≡ events
      → Rests (logged_in task r s w)
  unfolding logged_in Rests
  logged_in-Rests task Manager.throws s w e = tt
  logged_in-Rests task (Manager.returns ok) (some s) w e =
      admitted-Rests task s _ (officer_number s) (send-reads auth_response s.session_token w ∙ e)
  logged_in-Rests task (Manager.returns ok) none w e =
      refuse-reads 1 (codes "Authentication failed") w ∙ e
  logged_in-Rests task (Manager.returns rc) s w e =
      refuse-reads 1 (codes "Authentication failed") w ∙ e

  Untaken : Outcome (Option World) → Type 0
  Untaken (returns (some w)) = w.connection.reads ≡ events
  Untaken _ = Unit

  rows-Untaken :
      (payload : Option Bytes) (w : World)
      → w.connection.reads ≡ events
      → Untaken (returns (sent_rows payload w))
  unfolding Untaken sent_rows
  rows-Untaken none w e = tt
  rows-Untaken (some payload) w e = send-reads query_result payload w ∙ e

  answered-Untaken :
      (o : Outcome (ResultCode × Rows × UnixSocket)) (w : World)
      → w.connection.reads ≡ events
      → Untaken (answered o w)
  unfolding Untaken answered
  answered-Untaken blocks w e = tt
  answered-Untaken (returns (ok, rows, db)) w e =
      rows-Untaken (serialize rows) (record w { db = db }) e
  answered-Untaken (returns (rc, rows, db)) w e =
      refuse-reads 4 (codes "Query execution failed") (record w { db = db }) ∙ e

  after_answer-Rests :
      (turn : Turn) (s : SessionContext) (guard : SemGuard) (o : Outcome (Option World))
      → Untaken o
      → Rests (after_answer turn s guard o)
  unfolding after_answer Rests Untaken
  after_answer-Rests turn s guard blocks u = tt
  after_answer-Rests turn s guard (returns none) u = tt
  after_answer-Rests turn s guard (returns (some w)) u = u

  behind_gate-Rests :
      (turn : Turn) (s : SessionContext) (query : Bytes) (guard : SemGuard) (w : World)
      → w.connection.reads ≡ events
      → Rests (behind_gate turn s query guard w)
  unfolding behind_gate Rests
  behind_gate-Rests turn s query sem_waits w e = tt
  behind_gate-Rests turn s query not_acquired w e =
      after_answer-Rests turn s not_acquired _ (answered-Untaken _ w e)
  behind_gate-Rests turn s query (acquired left) w e =
      after_answer-Rests turn s (acquired left) _
        (answered-Untaken _ (record w { free_slots = left }) e)

  run_statement-Rests :
      (turn : Turn) (s : SessionContext) (query : Bytes) (w : World)
      → w.connection.reads ≡ events
      → Rests (run_statement turn s query w)
  unfolding run_statement Rests
  run_statement-Rests turn s query w e = elim (Bool-cases (is_empty query)) [
    | inl n ↦ rw n (refuse-reads 5 (codes "Empty query") w ∙ e)
    | inr n ↦ rw n (
        said-Rests s w (behind_gate turn s query (sem_wait turn.interrupted w.free_slots) w)
          (behind_gate-Rests turn s query (sem_wait turn.interrupted w.free_slots) w e))
  ]

  after_token_check-Rests :
      (turn : Turn) (desk : Desk) (payload : Bytes) (v : ResultCode × Option SessionContext)
      (w : World)
      → w.connection.reads ≡ events
      → Rests (after_token_check turn desk payload v w)
  unfolding after_token_check Rests
  after_token_check-Rests turn desk payload (ok, some s) w e =
      run_statement-Rests turn s (drop_nul payload) w e
  after_token_check-Rests turn desk payload (session_expired, s) w e =
      said-Rests desk.session w (leaves desk (refuse 2 (codes "Session expired") w)) tt
  after_token_check-Rests turn desk payload (rc, s) w e =
      said-Rests desk.session w (leaves desk (refuse 1 (codes "Session validation failed") w)) tt

  after_logout-Rests : (desk : Desk) (rc : ResultCode) (w : World) → Rests (after_logout desk rc w)
  unfolding after_logout Rests
  after_logout-Rests desk ok w = said-Rests desk.session w (leaves desk w) tt
  after_logout-Rests desk rc w = tt

  handle_request-Rests :
      (turn : Turn) (desk : Desk) (type : ℕ) (payload : Bytes) (w : World)
      → w.connection.reads ≡ events
      → Rests (handle_request turn desk type payload w)
  unfolding handle_request Rests
  handle_request-Rests turn desk type payload w e = elim (Bool-cases (eqb type query_request)) [
    | inl q ↦ rw q (
        after_token_check-Rests turn desk payload
          (validate_token desk.session.session_token turn.validated_at w.store) w e)
    | inr q ↦ elim (Bool-cases (eqb type logout_request)) [
      | inl l ↦
          let done = logout desk.session turn.logged_out_at w.store in
          rw (q, l) (after_logout-Rests desk done.0 (record w { store = done.1 }))
      | inr l ↦ rw (q, l) (refuse-reads 5 (codes "Unknown message type") w ∙ e)
    ]
  ]

  login-Rests :
      (task : WorkerTask) (turn : Turn) (c : Option (Bytes × Bytes)) (w : World)
      → w.connection.reads ≡ events
      → Rests (handle_login_request task turn c w)
  unfolding handle_login_request Rests
  login-Rests task turn none w e = refuse-reads 5 (codes "Malformed auth request") w ∙ e
  login-Rests task turn (some (cnic, password)) w e =
      let end = login turn.login_env cnic password w.store in
      logged_in-Rests task end.result end.session (record w { store = end.store }) e

  pub received-Rests :
      (task : WorkerTask) (turn : Turn) (desk : Desk) (type : ℕ) (payload : Bytes) (w : World)
      (a b : Bool)
      → w.connection.reads ≡ events
      → Rests (received task turn desk type payload w a b)
  unfolding received Rests handle_login_request
  received-Rests task turn desk type payload w true true e =
      refuse-reads 5 (codes "Already authenticated") w ∙ e
  received-Rests task turn desk type payload w false true e =
      login-Rests task turn (credentials payload) w e
  received-Rests task turn desk type payload w true false e =
      handle_request-Rests turn desk type payload w e
  received-Rests task turn desk type payload w false false e =
      refuse-reads 1 (codes "Not authenticated") w ∙ e
