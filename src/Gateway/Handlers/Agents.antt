-- ===== src/Gateway/Handlers/Agents.antt =====
-- The handlers of src/os_layer/ipc/src/domain_socket.cpp that read the clock or the shared memory.
use justice_flow.Base.{
  ℕ, zero, suc, ◌-◌, not, none, some, [], ◌++◌, Bytes, codes, bytes_eq, leb, eqb, if◌then◌else◌, ℤ,
  pos, negsuc, stoi, int_decimal, to_decimal,
}
use justice_flow.OsLayer.UnixSocket.{UnixSocket}
use justice_flow.Gateway.Json.{json_quote}
use justice_flow.Gateway.Request.{SocketRequest, param}
use justice_flow.Gateway.Response.{response_ok}
use justice_flow.Gateway.Handlers.Replies.{
  served, ◌>>=◌, Env, AgentStatus, max_agents, Reply, is_all_digits, uncaught, no_table,
  bad_request,
}

-- The difference of two times.
abbrev seconds_between : ℕ → ℕ → ℤ
seconds_between start now = if leb start now then pos (now - start) else negsuc (start - now - 1)

unfoldable pub handle_ping : Env → SocketRequest → UnixSocket → Reply
unfolding int_decimal
handle_ping env req db = served (
  response_ok req.request_id (
      codes "{\"pong\":true,\"uptime_seconds\":"
      ++ (int_decimal (seconds_between env.start_time env.now) ++ codes "}")),
  db,
)

agent_json : ℕ → AgentStatus → Bytes
unfolding to_decimal int_decimal json_quote
agent_json i a =
    codes "{\"index\":"
    ++ (to_decimal i
        ++ (codes ",\"name\":"
            ++ (json_quote a.agent_name
                ++ (codes ",\"status_code\":"
                    ++ (int_decimal a.current_status
                        ++ (codes ",\"error_detail\":"
                            ++ (json_quote a.error_detail
                                ++ (codes ",\"last_updated\":"
                                    ++ (int_decimal a.last_updated ++ codes "}")))))))))

-- The rounds left of the loop over the array, each after the first with its comma.
more_agents : ℕ → ℕ → (ℕ → AgentStatus) → Bytes
unfolding agent_json
more_agents zero i agents = []
more_agents (suc n) i agents =
    (if eqb i 0 then [] else codes ",") ++ (agent_json i (agents i) ++ more_agents n (suc i) agents)

unfoldable pub handle_get_agent_status : Env → SocketRequest → UnixSocket → Reply
unfolding more_agents no_table
handle_get_agent_status env req db = elim env.table [
  | none ↦ no_table req db
  | some table ↦ served (
    response_ok req.request_id
        (codes "{\"agents\":[" ++ (more_agents max_agents 0 table.agents ++ codes "]}")),
    db,
  )
]

unfoldable pub agent_at : Env → SocketRequest → ℤ → UnixSocket → Reply
unfolding agent_json no_table bad_request
agent_at env req (negsuc i) db = bad_request req (codes "Param 'index' out of range [0, 2]") db
agent_at env req (pos i) db =
    if leb max_agents i
    then bad_request req (codes "Param 'index' out of range [0, 2]") db
    else elim env.table [
      | none ↦ no_table req db
      | some table ↦ served (response_ok req.request_id (agent_json i (table.agents i)), db)
    ]

unfoldable pub handle_get_agent_status_by_index : Env → SocketRequest → UnixSocket → Reply
unfolding param is_all_digits stoi agent_at bad_request
handle_get_agent_status_by_index env req db =
    let text = param req (codes "index") [] in
    if not (is_all_digits text)
    then bad_request req (codes "Param 'index' must be 0, 1, or 2") db
    else (do idx ← uncaught (stoi text); agent_at env req idx db)

unfoldable pub handle_get_active_sessions : Env → SocketRequest → UnixSocket → Reply
unfolding no_table int_decimal
handle_get_active_sessions env req db = elim env.table [
  | none ↦ no_table req db
  | some table ↦ served (
    response_ok req.request_id
        (codes "{\"active_sessions\":" ++ (int_decimal table.active_sessions ++ codes "}")),
    db,
  )
]
