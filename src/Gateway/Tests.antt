-- ===== src/Gateway/Tests.antt =====
-- Runs of the gateway's parser, frames and handlers, and the theorems about them at concrete inputs.
use justice_flow.Base.{
  ◌≤◌, ◌<◌, ◌≡◌, ◌≢◌, refl, sym, subst, Bool-cases, true, false, Option, none, some, inl, inr, List,
  [], ◌∷◌, ◌++◌, Bytes, codes, bytes_beq, bytes_eq, length, if◌then◌else◌, stoi, skip_spaces,
  leading_number, arith,
}
use justice_flow.Base.Dict.{lookup}
use justice_flow.OsLayer.UnixSocket.{UnixSocket, Rows}
use justice_flow.Gateway.Json.{returned, stuck, parse_object}
use justice_flow.Gateway.Json.Rounds.{parse_object-ends}
use justice_flow.Gateway.Rows.{json_row}
use justice_flow.Gateway.Rows.ReadBack.{fields, parse_object-json_row}
use justice_flow.Gateway.Request.{SocketRequest, get_case_list}
use justice_flow.Gateway.Frame.{
  RecvEvent, arrived, recv_interrupted, recv_frame, SendEvent, taken, send_interrupted,
  max_msg_bytes,
}
use justice_flow.Gateway.Frame.Transfer.{arriving, IsCalm}
use justice_flow.Gateway.Frame.Bounds.{recv_frame_bounds}
use justice_flow.Gateway.Handlers.{
  Env, crashes, case_list_query, case_by_id_query, hotspot_query, priority_query, workload_query,
}
use justice_flow.Gateway.Server.{dispatch, client_handler, closed, out_of_fuel}
use justice_flow.Gateway.Server.Rounds.{client_handler-ends}
use justice_flow.Gateway.Server.Exchange.{frames, exchange, AllSent, client_handler_answers}
use justice_flow.Gateway.Server.Crashes.{IsTooLong}
use justice_flow.Gateway.Server.Survival.{AllShort, dispatch_survives}
use justice_flow.Gateway.Server.Queries.{
  IsPermitted, cases, one, hotspots, priorities, workload, dispatch_permitted,
}

abbrev nothing : Bytes
nothing = codes "{ "

parse_object-ends_example : parse_object nothing ≢ stuck
parse_object-ends_example = parse_object-ends nothing

abbrev two_names : List Bytes
two_names = codes "case_id" ∷ codes "status" ∷ []

abbrev two_cells : List Bytes
two_cells = codes "17" ∷ codes "say \"ok\"\n" ∷ []

json_row_example :
    parse_object (json_row two_names two_cells ++ codes ",")
    ≡ returned (fields two_names two_cells [], codes ",")
json_row_example =
    parse_object-json_row two_names two_cells (codes ",") (ground arith) (ground arith)

abbrev hello : Bytes
hello = codes "hello"

abbrev some_sends : List SendEvent
some_sends = taken 1 ∷ send_interrupted ∷ taken 9 ∷ taken 2 ∷ taken 9 ∷ []

abbrev some_recvs : List RecvEvent
some_recvs =
    arrived (5 ∷ 0 ∷ [])
    ∷ recv_interrupted
    ∷ arrived (0 ∷ 0 ∷ codes "hel")
    ∷ arrived (codes "lo!")
    ∷ []

recv_frame_bounds_example :
    (0 < length (recv_frame some_recvs).1) × (length (recv_frame some_recvs).1 ≤ max_msg_bytes)
unfolding recv_frame
recv_frame_bounds_example = recv_frame_bounds some_recvs refl

abbrev socket : UnixSocket
socket = record { connected = true; locked = false }

abbrev quiet : Env
quiet = record { now = 100; start_time = 58; table = none; answer = λ q. none }

abbrev ping_text : Bytes
ping_text = codes "{\"command\":\"PING\"}"

abbrev pong_text : Bytes
pong_text =
    codes
      "{\"request_id\":0,\"status\":0,\"message\":\"OK\",\"data\":{\"pong\":true,\"uptime_seconds\":42}}"

client_handler_example :
    client_handler 3 0
      (λ i. quiet)
      (arrived (frames (ping_text ∷ ping_text ∷ [])) ∷ [])
      (taken 4 ∷ taken 200 ∷ taken 4 ∷ taken 200 ∷ [])
      socket
    ≡ (closed, frames (pong_text ∷ pong_text ∷ []))
unfolding frames exchange arriving IsCalm AllSent
client_handler_example =
    client_handler_answers (ping_text ∷ ping_text ∷ []) 3 0 (λ i. quiet)
      (arrived (frames (ping_text ∷ ping_text ∷ [])) ∷ [])
      (taken 4 ∷ taken 200 ∷ taken 4 ∷ taken 200 ∷ []) socket (pong_text ∷ pong_text ∷ [])
      (omega arith) ((omega arith, omega arith), ((omega arith, omega arith), tt)) tt refl refl
      (omega arith, refl, (omega arith, refl, tt))

client_handler-ends_example :
    (client_handler 100 0 (λ i. quiet) some_recvs some_sends socket).0 ≢ out_of_fuel
unfolding arriving
client_handler-ends_example =
    client_handler-ends 100 0 (λ i. quiet) some_recvs some_sends socket (omega arith)

abbrev list_request : Bytes → SocketRequest
list_request limit = record {
  request_id = 1;
  command = get_case_list;
  params = (codes "limit", limit) ∷ [];
}

fits : IsTooLong (codes "2147483647") → ⊥
unfolding IsTooLong stoi leading_number skip_spaces
fits long = ground (arith, long)

short_limit : AllShort (list_request (codes "2147483647"))
unfolding AllShort lookup
short_limit key text found long = elim (Bool-cases (bytes_beq (codes "limit") key)) [
  | inl e ↦
      let same : codes "2147483647" ≡ text = ground (arith, found, e) in
      fits (subst IsTooLong (sym same) long)
  | inr e ↦ ground (arith, found, e)
]

dispatch_survives_example : dispatch quiet (list_request (codes "2147483647")) socket ≢ crashes
dispatch_survives_example =
    dispatch_survives quiet (list_request (codes "2147483647")) socket short_limit

-- A database that answers a statement which the handlers cannot put.
abbrev dropped : Bytes → Option Rows
dropped q = if bytes_beq q (codes "DROP TABLE cases;") then some [] else none

never_dropped : (q : Bytes) → IsPermitted q → none ≡ dropped q
unfolding case_list_query case_by_id_query hotspot_query priority_query workload_query bytes_beq
never_dropped q (cases limit offset h k) = refl
never_dropped q (one case_id h) = refl
never_dropped q (hotspots limit h) = refl
never_dropped q (priorities level limit h k) = refl
never_dropped q (workload limit h) = refl

dispatch_permitted_example :
    dispatch quiet (list_request (codes "10; DROP TABLE cases;")) socket
    ≡ dispatch
        (record quiet { answer = dropped })
        (list_request (codes "10; DROP TABLE cases;"))
        socket
dispatch_permitted_example =
    dispatch_permitted quiet dropped (list_request (codes "10; DROP TABLE cases;")) socket
      never_dropped
