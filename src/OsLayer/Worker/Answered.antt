-- ===== src/OsLayer/Worker/Answered.antt =====
-- What a query and a logout come to in src/os_layer/threading/src/worker.cpp.
use justice_flow.Base.{
  ℕ, suc, ◌≤◌, ◌≡◌, ◌≢◌, ◌⊎◌, refl, ap, ◌∙◌, Bool, true, false, Option, none, some, inl, inr, List,
  ◌∷◌, ◌++◌, Bytes, eqb, length, is_empty, ℤ, value, absurd, arith,
}
use justice_flow.Types.{ResultCode, ok, SessionContext}
use justice_flow.Auth.Manager.{validate_token, refresh_session}
use justice_flow.OsLayer.UnixSocket.{UnixSocket, returns, Rows, execute, lock, unlock}
use justice_flow.OsLayer.Sessions.{acquired, sem_wait, sem_release}
use justice_flow.OsLayer.Wire.{write_frame, frame_header_size, max_frame_size}
use justice_flow.OsLayer.Wire.Packed.{plain, serialize-plain}
use justice_flow.OsLayer.Wire.Delivered.{frame, write_frame-sent}
use justice_flow.OsLayer.Worker.{
  World, Turn, Desk, WorkerTask, send, officer_number, RoundStep, goes_on, throws_out, said,
  credentials, handle_login_request, drop_nul, sent_rows, answered, query_request, query_result,
  auth_request,
}
use justice_flow.OsLayer.Worker.Loop.{
  after_answer, behind_gate, run_statement, after_token_check, handle_request, received,
  handle_frame,
}

-- The world after a query was answered by these rows.
abbrev pub after_query : Turn → SessionContext → Rows → World → World
after_query turn s rows w = record w {
  store = (refresh_session s turn.refreshed_at w.store).1;
  db = record w.db { locked = false };
  connection = (write_frame query_result (plain rows) w.connection).1;
}

execute-answered :
    (rows : Rows) (db : UnixSocket)
    → db.locked ≡ false
    → db.connected ≡ true
    → execute (some rows) db ≡ returns (ok, rows, record db { locked = false })
unfolding execute lock unlock
execute-answered rows db free up = rw (execute, lock, free, up) refl

behind_gate-answered :
    (turn : Turn) (s : SessionContext) (query : Bytes) (rows : Rows) (left : ℕ) (w : World)
    → w.free_slots ≡ suc left
    → turn.answer query ≡ some rows
    → w.db.locked ≡ false
    → w.db.connected ≡ true
    → length (plain rows) ≤ max_frame_size
    → behind_gate turn s query (acquired left) w
      ≡ goes_on (record { session = s; authenticated = true }) (after_query turn s rows w)
unfolding behind_gate answered sent_rows after_answer sem_release send
behind_gate-answered turn s query rows left w slots replies free up fits =
    rw (replies, execute-answered rows w.db free up, serialize-plain rows fits)
      (ap
        (λ n.
          goes_on (record { session = s; authenticated = true })
            (record (after_query turn s rows w) { free_slots = n }))
        (omega (arith, slots)))

said-named :
    (s : SessionContext) (w : World) (k : RoundStep) (n : ℤ)
    → officer_number s ≡ value n
    → said s w k ≡ k
unfolding said
said-named s w k n h = ap (λ v. elim v [ value m ↦ k | _ ↦ throws_out w ]) h

-- An officer whose session is accepted, and who asks where a slot is free and the database is not in
-- use, is answered: the frame with the rows goes out behind what was sent, the session is refreshed, and
-- the slot and the database are free again. The rows fit the buffer, the database answers them, the
-- officer has a number, and the two writes take all.
pub query_answered :
    (task : WorkerTask) (turn : Turn) (desk : Desk) (payload : Bytes) (w : World)
    (s : SessionContext) (number : ℤ) (rows : Rows) (left m n : ℕ) (more : List (Option ℕ))
    → desk.authenticated ≡ true
    → validate_token desk.session.session_token turn.validated_at w.store ≡ (ok, some s)
    → officer_number s ≡ value number
    → is_empty (drop_nul payload) ≡ false
    → turn.interrupted ≡ false
    → w.free_slots ≡ suc left
    → turn.answer (drop_nul payload) ≡ some rows
    → w.db.locked ≡ false
    → w.db.connected ≡ true
    → length (plain rows) ≤ max_frame_size
    → w.connection.writes ≡ some m ∷ some n ∷ more
    → frame_header_size ≤ m
    → length (plain rows) ≤ n
    → (handle_frame task turn desk query_request payload w
        ≡ goes_on (record { session = s; authenticated = true }) (after_query turn s rows w))
      × ((after_query turn s rows w).connection.sent
          ≡ w.connection.sent ++ frame query_result (plain rows))
unfolding handle_frame received handle_request after_token_check run_statement said sem_wait
query_answered task turn desk payload w s number rows left m n more auth valid named asked calm
      slots replies free up fits writes h k =
    let gate : sem_wait turn.interrupted w.free_slots ≡ acquired left = rw (calm, slots) refl in
    let q = drop_nul payload in
    (
      rw (auth, valid, asked)
          (said-named s w _ number named
            ∙ (ap (λ g. behind_gate turn s q g w) gate
                ∙ behind_gate-answered turn s q rows left w slots replies free up fits)),
      (write_frame-sent query_result (plain rows) w.connection m n more writes h k).1,
    )

module _ (turn : Turn) (answer : Bytes → Option Rows) where
  login-deaf :
      (task : WorkerTask) (c : Option (Bytes × Bytes)) (w : World)
      → handle_login_request task (record turn { answer = answer }) c w
        ≡ handle_login_request task turn c w
  unfolding handle_login_request
  login-deaf task none w = refl
  login-deaf task (some (cnic, password)) w = refl

  after_token_check-deaf :
      (desk : Desk) (payload : Bytes) (v : ResultCode × Option SessionContext) (w : World)
      → v.0 ≢ ok
      → after_token_check (record turn { answer = answer }) desk payload v w
        ≡ after_token_check turn desk payload v w
  unfolding after_token_check
  after_token_check-deaf desk payload (ok, s) w h = absurd (h refl)
  after_token_check-deaf desk payload (rc, s) w h = refl

  handle_request-deaf :
      (desk : Desk) (type : ℕ) (payload : Bytes) (w : World)
      → (validate_token desk.session.session_token turn.validated_at w.store).0 ≢ ok
      → handle_request (record turn { answer = answer }) desk type payload w
        ≡ handle_request turn desk type payload w
  unfolding handle_request
  handle_request-deaf desk type payload w h =
      let v = validate_token desk.session.session_token turn.validated_at w.store in
      rw (after_token_check-deaf desk payload v w h) refl

  received-deaf :
      (task : WorkerTask) (desk : Desk) (type : ℕ) (payload : Bytes) (w : World) (a b : Bool)
      → (a ≡ false) ⊎ ((validate_token desk.session.session_token turn.validated_at w.store).0 ≢ ok)
      → received task (record turn { answer = answer }) desk type payload w a b
        ≡ received task turn desk type payload w a b
  unfolding received
  received-deaf task desk type payload w true true h = refl
  received-deaf task desk type payload w false true h = login-deaf task (credentials payload) w
  received-deaf task desk type payload w true false (inl e) = absurd (ground (arith, e))
  received-deaf task desk type payload w true false (inr h) =
      handle_request-deaf desk type payload w h
  received-deaf task desk type payload w false false h = refl

-- A statement is sent for an officer who has logged in and whose session is accepted at that moment, and
-- for nobody else: in any other case nothing that the database would answer changes the round.
pub query_permitted :
    (task : WorkerTask) (turn : Turn) (answer : Bytes → Option Rows) (desk : Desk) (type : ℕ)
    (payload : Bytes) (w : World)
    → (desk.authenticated ≡ false)
      ⊎ ((validate_token desk.session.session_token turn.validated_at w.store).0 ≢ ok)
    → handle_frame task (record turn { answer = answer }) desk type payload w
      ≡ handle_frame task turn desk type payload w
unfolding handle_frame
query_permitted task turn answer desk type payload w h =
    received-deaf turn answer task desk type payload w desk.authenticated (eqb type auth_request) h
