-- ===== src/OsLayer/Worker.antt =====
-- src/os_layer/threading/src/worker.cpp: a thread that serves one client, from the login to the end of
-- the connection. An argument stands for what the surroundings of each round do: the login, the
-- clock, the semaphore and what the database answers. The log is left out, but the `std::stoi` in its
-- arguments is not. The statement buffer holds every message of the code.
pub mod Loop
pub mod Released
pub mod Refused
pub mod Rounds
pub mod Answered
mod Tests
use justice_flow.Base.{
  ℕ, zero, suc, ◌-◌, Bool, true, false, not, Option, none, some, List, [], ◌∷◌, Bytes, codes, eqb,
  if◌then◌else◌, is_empty, ℤ, pos, is_positive, Stoi, value, stoi,
}
use justice_flow.Types.{ResultCode, ok, session_expired, constable, SessionContext}
use justice_flow.Auth.SessionStore.{SessionStore}
use justice_flow.Auth.Manager.{
  LoginEnv, LoginResult, LoginEnd, returns, throws, cut, login, validate_token, refresh_session,
  logout,
}
use justice_flow.OsLayer.UnixSocket.{UnixSocket, Outcome, blocks, Rows, execute}
use justice_flow.OsLayer.UnixSocket
use justice_flow.OsLayer.Sessions.{
  SessionRegistry, register_session, unregister_session, SemGuard, sem_waits, sem_wait, sem_release,
}
use justice_flow.OsLayer.Wire.{
  Connection, ReadFrame, read_frame, write_frame, send_error_response, serialize,
}

-- What a thread shares with the others, and its connection.
pub record World : Type 0 where
  pub store : SessionStore
  pub db : UnixSocket
  pub free_slots : ℕ
  pub registry : SessionRegistry
  pub connection : Connection

-- The surroundings of a round of the loop.
pub record Turn : Type 0 where
  pub login_env : LoginEnv
  pub validated_at : ℕ
  pub refreshed_at : ℕ
  pub logged_out_at : ℕ
  pub interrupted : Bool
  pub answer : Bytes → Option Rows

-- The variables of the loop.
pub record Desk : Type 0 where
  pub session : SessionContext
  pub authenticated : Bool

-- `WorkerTask`.
pub record WorkerTask : Type 0 where
  pub client_socket_fd : ℤ
  pub thread_id : ℤ

abbrev pub empty_session : SessionContext
empty_session = record {
  officer_id = pos 0;
  cnic = [];
  rank = constable;
  station_id = pos 0;
  belt_number = [];
  created_at = 0;
  expires_at = 0;
  is_valid = false;
  session_token = [];
}

abbrev pub auth_request : ℕ
auth_request = 1

abbrev pub query_request : ℕ
query_request = 2

abbrev pub query_result : ℕ
query_result = 3

abbrev pub auth_response : ℕ
auth_response = 5

abbrev pub logout_request : ℕ
logout_request = 6

-- The error codes, by their numbers: 1 AUTH_FAILED, 2 SESSION_EXPIRED, 4 QUERY_FAILED, 5 PROTOCOL_ERROR.
unfoldable pub refuse : ℕ → Bytes → World → World
refuse code msg w = record w { connection = send_error_response code msg w.connection }

unfoldable pub send : ℕ → Bytes → World → World
send type payload w = record w { connection = (write_frame type payload w.connection).1 }

-- The number that the log and the registry show; a belt number that is no `int` throws.
unfoldable pub officer_number : SessionContext → Stoi
officer_number s = if is_empty s.belt_number then value s.officer_id else stoi s.belt_number

-- A round of the loop: `continue`, `break`, an exception, a call that never returns, or a write past
-- the end of the result buffer.
pub data RoundStep : Type 0 where
  goes_on : Desk → World → RoundStep
  leaves : Desk → World → RoundStep
  throws_out : World → RoundStep
  hangs : RoundStep
  overruns : RoundStep

-- A line of the log that names the officer, and what comes after it.
unfoldable pub said : SessionContext → World → RoundStep → RoundStep
said s w k = elim (officer_number s) [ value n ↦ k | _ ↦ throws_out w ]

-- The two texts of a login request, each ended by a 0.
second_text : Bytes → Bytes × Option Bytes → Option (Bytes × Bytes)
second_text cnic (password, none) = none
second_text cnic (password, some rest) = some (cnic, password)

first_text : Bytes × Option Bytes → Option (Bytes × Bytes)
unfolding second_text cut
first_text (cnic, none) = none
first_text (cnic, some rest) = second_text cnic (cut 0 rest)

unfoldable pub credentials : Bytes → Option (Bytes × Bytes)
unfolding first_text cut
credentials payload = first_text (cut 0 payload)

-- After `handleLoginRequest` gave a session, empty or not.
unfoldable pub admitted : WorkerTask → SessionContext → World → Stoi → RoundStep
unfolding register_session
admitted task s w (value n) =
    if is_positive n
    then goes_on (record { session = s; authenticated = true })
        (record w {
          registry =
              register_session task.thread_id
                (record {
                  officer_id = n;
                  socket_fd = task.client_socket_fd;
                  login_timestamp = s.created_at;
                })
                w.registry;
        })
    else goes_on (record { session = s; authenticated = false }) w
admitted task s w _ = throws_out w

abbrev pub rejected : World → RoundStep
rejected w = goes_on (record { session = empty_session; authenticated = false }) w

-- After `AuthManager::login`; the world has its store already.
unfoldable pub logged_in : WorkerTask → LoginResult → Option SessionContext → World → RoundStep
unfolding admitted send refuse
logged_in task throws s w = throws_out w
logged_in task (returns ok) (some s) w =
    admitted task s (send auth_response s.session_token w) (officer_number s)
logged_in task (returns rc) s w = rejected (refuse 1 (codes "Authentication failed") w)

unfoldable pub handle_login_request : WorkerTask → Turn → Option (Bytes × Bytes) → World → RoundStep
unfolding logged_in
handle_login_request task turn none w = rejected (refuse 5 (codes "Malformed auth request") w)
handle_login_request task turn (some (cnic, password)) w =
    let e = login turn.login_env cnic password w.store in
    logged_in task e.result e.session (record w { store = e.store })

-- The trailing 0 of a query, where there is one.
unfoldable pub drop_nul : Bytes → Bytes
drop_nul [] = []
drop_nul (c ∷ []) = if eqb c 0 then [] else c ∷ []
drop_nul (c ∷ d ∷ s) = c ∷ drop_nul (d ∷ s)

-- The rows of a result on the connection; `none` where they run over the buffer.
unfoldable pub sent_rows : Option Bytes → World → Option World
sent_rows none w = none
sent_rows (some payload) w = some (send query_result payload w)

-- `executeAndSendQuery` after the statement.
unfoldable pub answered : Outcome (ResultCode × Rows × UnixSocket) → World → Outcome (Option World)
unfolding sent_rows
answered blocks w = blocks
answered (UnixSocket.returns (ok, rows, db)) w =
    UnixSocket.returns (sent_rows (serialize rows) (record w { db = db }))
answered (UnixSocket.returns (rc, rows, db)) w =
    UnixSocket.returns (some (refuse 4 (codes "Query execution failed") (record w { db = db })))
