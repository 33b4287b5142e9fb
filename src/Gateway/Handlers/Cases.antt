-- ===== src/Gateway/Handlers/Cases.antt =====
-- The handlers of src/os_layer/ipc/src/domain_socket.cpp that query the database.
use justice_flow.Base.{
  not, List, [], ◌∷◌, ◌++◌, Bytes, codes, bytes_beq, bytes_eq, if◌then◌else◌, any, pos,
}
use justice_flow.Types.{ResultCode, ok, not_found}
use justice_flow.OsLayer.UnixSocket.{UnixSocket, Outcome, returns, blocks, Rows, execute}
use justice_flow.Auth.Token.{is_valid_uuid}
use justice_flow.Gateway.Rows.{json_row, rows_to_json_array}
use justice_flow.Gateway.Request.{SocketRequest, param}
use justice_flow.Gateway.Response.{SocketResponse, response_ok, response_error}
use justice_flow.Gateway.Handlers.Replies.{
  served, waits, ◌>>=◌, Env, Reply, safe_int_str, bad_request,
}

-- `IpcManager::executeQuery`, and what is answered where it does not return OK.
unfoldable pub finish_query :
    SocketRequest
    → Bytes
    → (Rows → SocketResponse)
    → Outcome (ResultCode × Rows × UnixSocket)
    → Reply
finish_query req msg found blocks = waits
finish_query req msg found (returns (ok, rows, db)) = served (found rows, db)
finish_query req msg found (returns (rc, rows, db)) =
    served (response_error req.request_id rc msg, db)

unfoldable pub run_query :
    Env → SocketRequest → UnixSocket → Bytes → Bytes → (Rows → SocketResponse) → Reply
unfolding execute finish_query
run_query env req db query msg found = finish_query req msg found (execute (env.answer query) db)

-- `{"<name>":[<rows>]}`
unfoldable pub listed : SocketRequest → Bytes → List Bytes → Rows → SocketResponse
unfolding rows_to_json_array
listed req name cols rows =
    response_ok req.request_id
      (codes "{\"" ++ (name ++ (codes "\":" ++ (rows_to_json_array cols rows ++ codes "}"))))

unfoldable pub case_list_query : Bytes → Bytes → Bytes
case_list_query limit offset =
    codes
      "SELECT case_id, case_type, status, registered_at FROM cases ORDER BY registered_at DESC LIMIT "
    ++ (limit ++ (codes " OFFSET " ++ (offset ++ codes ";")))

unfoldable pub handle_get_case_list : Env → SocketRequest → UnixSocket → Reply
unfolding param safe_int_str run_query listed case_list_query
handle_get_case_list env req db = do
  limit ← safe_int_str (param req (codes "limit") (codes "100")) (pos 100) (pos 1) (pos 500)
  offset ← safe_int_str (param req (codes "offset") (codes "0")) (pos 0) (pos 0) (pos 100_000)
  run_query env req db (case_list_query limit offset) (codes "Database query failed") (
      listed req (codes "cases")
        (codes "case_id" ∷ codes "case_type" ∷ codes "status" ∷ codes "registered_at" ∷ []))

unfoldable pub case_by_id_query : Bytes → Bytes
case_by_id_query case_id =
    codes "SELECT case_id, case_type, status, registered_at,        station_id, lead_officer_id "
    ++ (codes "FROM cases WHERE case_id = '" ++ (case_id ++ codes "' LIMIT 1;"))

unfoldable pub one_case : SocketRequest → Rows → SocketResponse
unfolding json_row
one_case req [] = response_error req.request_id not_found (codes "Case not found")
one_case req (row ∷ rows) = response_ok req.request_id (
    json_row
      (codes "case_id"
        ∷ codes "case_type"
        ∷ codes "status"
        ∷ codes "registered_at"
        ∷ codes "station_id"
        ∷ codes "lead_officer_id"
        ∷ [])
      row)

unfoldable pub handle_get_case_by_id : Env → SocketRequest → UnixSocket → Reply
unfolding param is_valid_uuid run_query one_case case_by_id_query bad_request
handle_get_case_by_id env req db =
    let case_id = param req (codes "case_id") [] in
    if not (is_valid_uuid case_id)
    then bad_request req (codes "Invalid or missing 'case_id' (expected UUID)") db
    else run_query env req db (case_by_id_query case_id) (codes "Database query failed")
        (one_case req)

unfoldable pub hotspot_query : Bytes → Bytes
hotspot_query limit =
    codes "SELECT zone_id, zone_name, risk_level, incident_count, updated_at "
    ++ (codes "FROM analytics.crime_hotspots ORDER BY incident_count DESC LIMIT "
        ++ (limit ++ codes ";"))

unfoldable pub handle_get_hotspot_data : Env → SocketRequest → UnixSocket → Reply
unfolding param safe_int_str run_query listed hotspot_query
handle_get_hotspot_data env req db = do
  limit ← safe_int_str (param req (codes "limit") (codes "50")) (pos 50) (pos 1) (pos 200)
  run_query env req db (hotspot_query limit) (codes "Hotspot query failed") (
      listed req (codes "hotspots") (
        codes "zone_id"
        ∷ codes "zone_name"
        ∷ codes "risk_level"
        ∷ codes "incident_count"
        ∷ codes "updated_at"
        ∷ []))

abbrev pub valid_priorities : List Bytes
valid_priorities = codes "LOW" ∷ codes "MEDIUM" ∷ codes "HIGH" ∷ codes "CRITICAL" ∷ []

unfoldable pub priority_query : Bytes → Bytes → Bytes
priority_query level limit =
    codes "SELECT c.case_id, c.case_type, c.status,        ca.priority_level, "
    ++ (codes "ca.assignment_status, ca.assigned_at FROM cases c "
        ++ (codes "JOIN analytics.case_assignments ca ON ca.case_id = c.case_id "
            ++ (codes "WHERE ca.priority_level IN (     SELECT unnest(ARRAY[        CASE WHEN '"
                ++ (level
                    ++ (codes "' = 'LOW'      THEN 'LOW'      ELSE NULL END,        CASE WHEN '"
                        ++ (level
                            ++ (codes
                                  "' IN ('LOW','MEDIUM') THEN 'MEDIUM' ELSE NULL END,        CASE WHEN '"
                                ++ (level
                                    ++ (codes
                                          "' IN ('LOW','MEDIUM','HIGH') THEN 'HIGH' ELSE NULL END,"
                                        ++ (codes "        'CRITICAL'    ]::text[]) ) ORDER BY "
                                            ++ (codes
                                                  "ca.priority_level DESC, ca.assigned_at ASC LIMIT "
                                                ++ (limit ++ codes ";"))))))))))))

unfoldable pub handle_get_priority_cases : Env → SocketRequest → UnixSocket → Reply
unfolding param bytes_beq safe_int_str run_query listed priority_query bad_request
handle_get_priority_cases env req db =
    let min_priority = param req (codes "min_priority") (codes "HIGH") in
    if not (any (bytes_beq min_priority) valid_priorities)
    then bad_request req (codes "Invalid 'min_priority': must be LOW|MEDIUM|HIGH|CRITICAL") db
    else (do
      limit ← safe_int_str (param req (codes "limit") (codes "50")) (pos 50) (pos 1) (pos 200)
      run_query env req db (priority_query min_priority limit) (codes "Priority cases query failed")
          (listed req (codes "cases") (
            codes "case_id"
            ∷ codes "case_type"
            ∷ codes "status"
            ∷ codes "priority_level"
            ∷ codes "assignment_status"
            ∷ codes "assigned_at"
            ∷ [])))

unfoldable pub workload_query : Bytes → Bytes
workload_query limit =
    codes
      "SELECT o.officer_id, o.name, o.rank, o.status,        COUNT(co.case_id) AS active_cases, "
    ++ (codes "       d.duty_status FROM officers o LEFT JOIN case_officers co "
        ++ (codes "       ON co.officer_id = o.officer_id        AND co.removed_at IS NULL "
            ++ (codes "LEFT JOIN duty_roster d        ON d.officer_id = o.officer_id "
                ++ (codes "       AND d.duty_status = 'ON_DUTY' WHERE o.status = 'ACTIVE' "
                    ++ (codes "GROUP BY o.officer_id, o.name, o.rank, o.status, d.duty_status "
                        ++ (codes "ORDER BY active_cases DESC LIMIT " ++ (limit ++ codes ";")))))))

unfoldable pub handle_get_officer_workload : Env → SocketRequest → UnixSocket → Reply
unfolding param safe_int_str run_query listed workload_query
handle_get_officer_workload env req db = do
  limit ← safe_int_str (param req (codes "limit") (codes "50")) (pos 50) (pos 1) (pos 200)
  run_query env req db (workload_query limit) (codes "Officer workload query failed") (
      listed req (codes "officers") (
        codes "officer_id"
        ∷ codes "name"
        ∷ codes "rank"
        ∷ codes "status"
        ∷ codes "active_cases"
        ∷ codes "duty_status"
        ∷ []))
