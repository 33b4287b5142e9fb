-- ===== src/Gateway/Server.antt =====
-- The server of src/os_layer/ipc/src/domain_socket.cpp: the dispatch of a request, and the loop
-- that serves one client. A client's thread runs on its own; the model is of one such thread.
pub mod Crashes
pub mod Survival
pub mod Queries
pub mod Rounds
pub mod Exchange
use justice_flow.Base.{
  ℕ, zero, suc, Bool, true, false, Option, none, some, List, [], ◌∷◌, ◌++◌, Bytes, codes,
}
use justice_flow.Types.{ResultCode, ok, invalid_input}
use justice_flow.OsLayer.UnixSocket.{UnixSocket}
use justice_flow.Gateway.Request.{
  SocketRequest, empty_request, from_json, ping, get_agent_status, get_agent_status_by_index,
  get_active_sessions, get_case_list, get_case_by_id, get_hotspot_data, get_priority_cases,
  get_officer_workload, unknown, CommandType,
}
use justice_flow.Gateway.Handlers.{
  Env, Reply, Served, served, crashes, waits, ◌>>=◌, handle_ping, handle_get_agent_status,
  handle_get_agent_status_by_index, handle_get_active_sessions, handle_get_case_list,
  handle_get_case_by_id, handle_get_hotspot_data, handle_get_priority_cases,
  handle_get_officer_workload,
}
use justice_flow.Gateway.Response.{SocketResponse, response_error, to_json}
use justice_flow.Gateway.Frame.{RecvEvent, SendEvent, recv_frame, send_frame}

unfoldable pub dispatch_command : CommandType → Env → SocketRequest → UnixSocket → Reply
unfolding handle_ping handle_get_agent_status handle_get_agent_status_by_index
    handle_get_active_sessions handle_get_case_list handle_get_case_by_id handle_get_hotspot_data
    handle_get_priority_cases handle_get_officer_workload
dispatch_command ping env req db = handle_ping env req db
dispatch_command get_agent_status env req db = handle_get_agent_status env req db
dispatch_command get_agent_status_by_index env req db = handle_get_agent_status_by_index env req db
dispatch_command get_active_sessions env req db = handle_get_active_sessions env req db
dispatch_command get_case_list env req db = handle_get_case_list env req db
dispatch_command get_case_by_id env req db = handle_get_case_by_id env req db
dispatch_command get_hotspot_data env req db = handle_get_hotspot_data env req db
dispatch_command get_priority_cases env req db = handle_get_priority_cases env req db
dispatch_command get_officer_workload env req db = handle_get_officer_workload env req db
dispatch_command unknown env req db =
    served (response_error req.request_id invalid_input (codes "Unknown command"), db)

unfoldable pub dispatch : Env → SocketRequest → UnixSocket → Reply
unfolding dispatch_command
dispatch env req db = dispatch_command req.command env req db

respond_to : Env → ResultCode × SocketRequest → UnixSocket → Reply
unfolding dispatch
respond_to env (ok, req) db = dispatch env req db
respond_to env (rc, req) db =
    served (response_error req.request_id invalid_input (codes "Malformed JSON request"), db)

-- The text of a request to the text of its response.
unfoldable pub serve_text : Env → Bytes → UnixSocket → Served (Bytes × UnixSocket)
unfolding respond_to from_json to_json
serve_text env json db = do
  (resp, db') ← respond_to env (from_json json empty_request) db
  served (to_json resp, db')

-- What a client's thread comes to: it closed the connection, the daemon crashed, it waits for ever
-- in the database or in `send`, or the model ran out of fuel.
pub data Session : Type 0 where
  closed crashed waits_db waits_send out_of_fuel : Session

-- One round of a client's thread: the session ends, or goes on with the bytes that it sent, the
-- events left and the connection.
pub data Round : Type 0 where
  ends : Session → Bytes → Round
  goes_on : Bytes → List RecvEvent → List SendEvent → UnixSocket → Round

unfoldable pub round_sent :
    Option ResultCode × Bytes × List SendEvent → List RecvEvent → UnixSocket → Round
round_sent (none, wire, sends) recvs db = ends waits_send wire
round_sent (some ok, wire, sends) recvs db = goes_on wire recvs sends db
round_sent (some rc, wire, sends) recvs db = ends closed wire

unfoldable pub round_served : Served (Bytes × UnixSocket) → List RecvEvent → List SendEvent → Round
unfolding send_frame round_sent
round_served (served (out, db)) recvs sends = round_sent (send_frame out sends) recvs db
round_served crashes recvs sends = ends crashed []
round_served waits recvs sends = ends waits_db []

unfoldable pub round_received :
    Env → ResultCode × Bytes × List RecvEvent → List SendEvent → UnixSocket → Round
unfolding serve_text round_served
round_received env (ok, json, recvs) sends db = round_served (serve_text env json db) recvs sends
round_received env (rc, json, recvs) sends db = ends closed []

unfoldable pub resume :
    Round → (List RecvEvent → List SendEvent → UnixSocket → Session × Bytes) → Session × Bytes
resume (ends session wire) next = (session, wire)
resume (goes_on wire recvs sends db) next =
    let rest = next recvs sends db in (rest.0, wire ++ rest.1)

-- `env i` is what round i sees. A round that goes on took five bytes at least.
unfoldable pub client_handler :
    ℕ → ℕ → (ℕ → Env) → List RecvEvent → List SendEvent → UnixSocket → Session × Bytes
unfolding recv_frame round_received resume
client_handler zero i env recvs sends db = (out_of_fuel, [])
client_handler (suc fuel) i env recvs sends db =
    resume (round_received (env i) (recv_frame recvs) sends db) (client_handler fuel (suc i) env)
