-- ===== src/OsLayer/Worker/Loop.antt =====
-- The loop of src/os_layer/threading/src/worker.cpp over the frames of a client, and the task around it.
use justice_flow.Base.{
  ℕ, zero, suc, Bool, true, false, Option, none, some, Bytes, codes, eqb, if◌then◌else◌, is_empty,
}
use justice_flow.Types.{ResultCode, ok, session_expired, SessionContext}
use justice_flow.Auth.Manager.{validate_token, refresh_session, logout}
use justice_flow.OsLayer.UnixSocket.{Outcome, returns, blocks, execute}
use justice_flow.OsLayer.Sessions.{
  unregister_session, SemGuard, acquired, not_acquired, sem_waits, sem_wait, sem_release,
}
use justice_flow.OsLayer.Wire.{ReadFrame, read_frame}
use justice_flow.OsLayer.Worker.{
  World, Turn, Desk, WorkerTask, empty_session, auth_request, query_request, logout_request, refuse,
  RoundStep, goes_on, leaves, throws_out, hangs, overruns, said, credentials, handle_login_request,
  drop_nul, answered,
}

-- The end of a query, at the world after the answer was sent. The slot goes back, and the session is
-- refreshed; where that fails only the log tells.
unfoldable pub after_answer : Turn → SessionContext → SemGuard → Outcome (Option World) → RoundStep
unfolding sem_release refresh_session
after_answer turn s guard blocks = hangs
after_answer turn s guard (returns none) = overruns
after_answer turn s guard (returns (some w)) =
    goes_on (record { session = s; authenticated = true })
      (record w {
        store = (refresh_session s turn.refreshed_at w.store).1;
        free_slots = sem_release guard w.free_slots;
      })

-- The statement behind the gate. The slots that the others see while it runs are in the world.
unfoldable pub behind_gate : Turn → SessionContext → Bytes → SemGuard → World → RoundStep
unfolding answered execute after_answer
behind_gate turn s query sem_waits w = hangs
behind_gate turn s query not_acquired w =
    after_answer turn s not_acquired (answered (execute (turn.answer query) w.db) w)
behind_gate turn s query (acquired left) w =
    after_answer turn s (acquired left)
      (answered (execute (turn.answer query) w.db) (record w { free_slots = left }))

-- A query that is not empty. The log names the officer at several places, always from this session.
unfoldable pub run_statement : Turn → SessionContext → Bytes → World → RoundStep
unfolding behind_gate sem_wait said
run_statement turn s query w =
    if is_empty query
    then goes_on (record { session = s; authenticated = true }) (refuse 5 (codes "Empty query") w)
    else said s w (behind_gate turn s query (sem_wait turn.interrupted w.free_slots) w)

-- After `validateToken`.
unfoldable pub after_token_check :
    Turn → Desk → Bytes → ResultCode × Option SessionContext → World → RoundStep
unfolding run_statement drop_nul said refuse
after_token_check turn desk payload (ok, some s) w = run_statement turn s (drop_nul payload) w
after_token_check turn desk payload (session_expired, s) w =
    said desk.session w (leaves desk (refuse 2 (codes "Session expired") w))
after_token_check turn desk payload (rc, s) w =
    said desk.session w (leaves desk (refuse 1 (codes "Session validation failed") w))

-- After `logout`: the log tells of a session that was found.
unfoldable pub after_logout : Desk → ResultCode → World → RoundStep
unfolding said
after_logout desk ok w = said desk.session w (leaves desk w)
after_logout desk rc w = leaves desk w

-- A frame other than a login request, from an officer who has logged in.
unfoldable pub handle_request : Turn → Desk → ℕ → Bytes → World → RoundStep
unfolding after_token_check after_logout validate_token logout refuse
handle_request turn desk type payload w =
    if eqb type query_request
    then after_token_check turn desk payload
        (validate_token desk.session.session_token turn.validated_at w.store) w
    else if eqb type logout_request
    then (let done = logout desk.session turn.logged_out_at w.store in
        after_logout desk done.0 (record w { store = done.1 }))
    else goes_on desk (refuse 5 (codes "Unknown message type") w)

-- The first two tests of the loop: whether the officer has logged in, and whether the frame is a login
-- request.
unfoldable pub received : WorkerTask → Turn → Desk → ℕ → Bytes → World → Bool → Bool → RoundStep
unfolding handle_login_request credentials handle_request refuse
received task turn desk type payload w true true =
    goes_on desk (refuse 5 (codes "Already authenticated") w)
received task turn desk type payload w false true =
    handle_login_request task turn (credentials payload) w
received task turn desk type payload w true false = handle_request turn desk type payload w
received task turn desk type payload w false false =
    goes_on desk (refuse 1 (codes "Not authenticated") w)

unfoldable pub handle_frame : WorkerTask → Turn → Desk → ℕ → Bytes → World → RoundStep
unfolding received
handle_frame task turn desk type payload w =
    received task turn desk type payload w desk.authenticated (eqb type auth_request)

-- What reading a frame came to: where there is none, the loop ends.
unfoldable pub after_read : WorkerTask → Turn → Desk → World → ReadFrame → RoundStep
unfolding handle_frame
after_read task turn desk w (none, events) =
    leaves desk (record w { connection = record w.connection { reads = events } })
after_read task turn desk w (some (type, payload), events) =
    handle_frame task turn desk type payload
      (record w { connection = record w.connection { reads = events } })

-- How a task ends: the connection is closed, a call never returned, or a buffer was overrun.
pub data End : Type 0 where
  closed : World → End
  hung : End
  overran : End
  out_of_fuel : End

-- What follows the loop, and the handlers around it: a session that was registered is taken out. The
-- log that then names the officer may throw, and the handler takes the session out once more.
unfoldable pub cleaned : WorkerTask → Desk → World → World
unfolding unregister_session
cleaned task desk w =
    if desk.authenticated
    then record w { registry = unregister_session task.thread_id w.registry }
    else w

-- The end of a round, with the rounds that follow where the loop goes on.
unfoldable pub continue_with : WorkerTask → RoundStep → (Desk → World → End) → End
unfolding cleaned unregister_session
continue_with task (goes_on desk w) next = next desk w
continue_with task (leaves desk w) next = closed (cleaned task desk w)
continue_with task (throws_out w) next =
    closed (record w { registry = unregister_session task.thread_id w.registry })
continue_with task hangs next = hung
continue_with task overruns next = overran

-- `processClientRequests` inside `process_task`, from round i on.
unfoldable pub process_client : ℕ → ℕ → WorkerTask → (ℕ → Turn) → Desk → World → End
unfolding continue_with after_read read_frame
process_client zero i task turns desk w = out_of_fuel
process_client (suc fuel) i task turns desk w =
    continue_with task (after_read task (turns i) desk w (read_frame w.connection.reads))
      (process_client fuel (suc i) task turns)

abbrev pub newcomer : Desk
newcomer = record { session = empty_session; authenticated = false }

unfoldable pub process_task : ℕ → WorkerTask → (ℕ → Turn) → World → End
unfolding process_client
process_task fuel task turns w = process_client fuel 0 task turns newcomer w
