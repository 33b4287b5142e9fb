-- ===== src/OsLayer/Worker/Tests.antt =====
-- Clients of the worker threads, and the theorems about them at concrete inputs.
use justice_flow.Base.{
  ℕ, zero, suc, ◌≡◌, ◌≢◌, refl, inl, true, false, Option, none, some, List, [], ◌∷◌, ◌++◌, ℤ, pos,
  Bytes, codes, length, arith, int_eq, bytes_beq, has_pair,
}
use justice_flow.Base.Dict.{lookup}
use justice_flow.Types.{si, SessionContext}
use justice_flow.Auth.SessionStore.{validate}
use justice_flow.Auth.Token.{bytes_read}
use justice_flow.Auth.Manager.{LoginEnv, login, validate_token, is_rejected_credential_input}
use justice_flow.OsLayer.UnixSocket.{Rows}
use justice_flow.Gateway.Frame.{arrived}
use justice_flow.Gateway.Frame.Transfer.{arriving}
use justice_flow.OsLayer.Wire.{Connection, read_frame, write_frame, send_error_response, serialize}
use justice_flow.OsLayer.Wire.Packed.{plain, serialize-plain}
use justice_flow.OsLayer.Wire.Overrun.{serialize-overruns}
use justice_flow.OsLayer.Wire.Delivered.{frame, frame_delivered}
use justice_flow.OsLayer.Worker.{
  World, Turn, Desk, WorkerTask, auth_request, query_request, query_result, goes_on, officer_number,
  drop_nul,
}
use justice_flow.OsLayer.Worker.Loop.{process_task, handle_frame, End, closed, out_of_fuel}
use justice_flow.OsLayer.Worker.Released.Closed.{process_task-released}
use justice_flow.OsLayer.Worker.Rounds.Ends.{process_task-ends}
use justice_flow.OsLayer.Worker.Answered.{query_answered, query_permitted, after_query}

abbrev token : Bytes
token = codes "token-1"

abbrev session : SessionContext
session = record {
  officer_id = pos 7;
  cnic = codes "35202";
  rank = si;
  station_id = pos 1;
  belt_number = [];
  created_at = 100;
  expires_at = 28_900;
  is_valid = true;
  session_token = token;
}

abbrev desk : Desk
desk = record { session = session; authenticated = true }

abbrev task : WorkerTask
task = record { client_socket_fd = pos 9; thread_id = pos 3 }

-- No officer has the credentials.
abbrev nobody : LoginEnv
nobody = record { query = some []; fallback = none; urandom = bytes_read []; now = 100 }

abbrev reply : Bytes → Option Rows
reply sql = some ((codes "42" ∷ codes "OPEN" ∷ []) ∷ [])

abbrev turn : Turn
turn = record {
  login_env = nobody;
  validated_at = 200;
  refreshed_at = 200;
  logged_out_at = 200;
  interrupted = false;
  answer = reply;
}

abbrev connection : Connection
connection = record {
  reads = arrived (frame auth_request (codes "35202" ++ 0 ∷ codes "x" ++ 0 ∷ [])) ∷ [];
  writes = some 100 ∷ some 100 ∷ [];
  sent = [];
}

abbrev world : World
world = record {
  store = record { session_map = (token, session) ∷ []; trail = [] };
  db = record { connected = true; locked = false };
  free_slots = 50;
  registry = [];
  connection = connection;
}

-- The world of a connection that was closed.
abbrev world_of : End → World
world_of (closed w) = w
world_of _ = world

abbrev last_world : World
unfolding process_task
last_world = world_of (process_task 40 task (λ n. turn) world)

process_task-released_example :
    (lookup task.thread_id last_world.registry ≡ none)
    × (last_world.free_slots ≡ world.free_slots)
    × ((t : ℤ) → t ≢ task.thread_id → lookup t last_world.registry ≡ lookup t world.registry)
unfolding process_task lookup login is_rejected_credential_input has_pair send_error_response
process_task-released_example = process_task-released 40 task (λ n. turn) world last_world refl refl

process_task-ends_example : process_task 40 task (λ n. turn) world ≢ out_of_fuel
unfolding arriving
process_task-ends_example = process_task-ends 40 task (λ n. turn) world (omega arith)

abbrev question : Bytes
question = codes "SELECT 1" ++ 0 ∷ []

abbrev one_row : Rows
one_row = (codes "42" ∷ codes "OPEN" ∷ []) ∷ []

query_answered_example :
    (handle_frame task turn desk query_request question world
      ≡ goes_on
          (record { session = session; authenticated = true })
          (after_query turn session one_row world))
    × ((after_query turn session one_row world).connection.sent
        ≡ [] ++ frame query_result (plain one_row))
unfolding validate_token officer_number drop_nul validate lookup bytes_beq
query_answered_example =
    query_answered task turn desk question world session (pos 7) one_row 49 100 100 [] refl refl
      refl refl refl refl refl refl refl (omega arith) refl (omega arith) (omega arith)

abbrev stranger : Desk
stranger = record { session = session; authenticated = false }

query_permitted_example :
    handle_frame task (record turn { answer = λ sql. none }) stranger query_request question world
    ≡ handle_frame task turn stranger query_request question world
query_permitted_example =
    query_permitted task turn (λ sql. none) stranger query_request question world (inl refl)

serialize-plain_example : serialize one_row ≡ some (plain one_row)
serialize-plain_example = serialize-plain one_row (omega arith)

empty_rows : ℕ → List (List Bytes)
empty_rows zero = []
empty_rows (suc n) = [] ∷ empty_rows n

length-empty_rows : (n : ℕ) → length (empty_rows n) ≡ n
unfolding empty_rows
length-empty_rows zero = refl
length-empty_rows (suc n) = omega (arith, length-empty_rows n)

serialize-overruns_example : serialize (empty_rows 20_000) ≡ none
serialize-overruns_example =
    serialize-overruns (empty_rows 20_000) (omega (arith, length-empty_rows 20_000))

abbrev writer : Connection
writer = record { reads = []; writes = some 8 ∷ some 9 ∷ []; sent = [] }

frame_delivered_example :
    read_frame (arrived (write_frame query_request question writer).1.sent ∷ [])
    ≡ (some (query_request, question), [])
frame_delivered_example =
    frame_delivered query_request question writer 8 9 [] [] (omega arith) (omega arith)
      (omega arith) refl refl (omega arith) (omega arith)
