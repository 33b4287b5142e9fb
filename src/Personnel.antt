-- ===== src/Personnel.antt =====
-- src/system/subsystem1: officers, duties, patrols and deployments. An enum in a statement is its number.
-- What the database answers to a statement is an argument.
pub mod Queries
pub mod Changes
pub mod Rosters
pub mod Observers
mod Tests
use justice_flow.Base.{
  Bool, true, false, Option, none, some, List, [], ◌∷◌, ◌++◌, ℕ, ℤ, Bytes, codes, Stoi, value, stoi,
  int_decimal, to_decimal, if◌then◌else◌,
}
use justice_flow.Types.{ResultCode, ok, auth_failed, is_ok, SessionContext}
use justice_flow.OsLayer.UnixSocket.{UnixSocket, Outcome, returns, blocks, Rows, execute}
use justice_flow.Gateway.Handlers.{Served, served, crashes, waits}

abbrev pub pieces : List Bytes → Bytes
pieces [] = []
pieces (s ∷ ss) = s ++ pieces ss

-- What a change reports: its `bool`, its code, and the connection.
abbrev pub Changed : Type 0
Changed = Served (Bool × ResultCode × UnixSocket)

reported : Outcome (ResultCode × Rows × UnixSocket) → Changed
reported blocks = waits
reported (returns (rc, rows, db)) = served (is_ok rc, rc, db)

-- The end of the changes that give nothing out.
unfoldable pub change : (Bytes → Option Rows) → SessionContext → Bytes → UnixSocket → Changed
unfolding reported execute
change answer session sql db =
    if session.is_valid then reported (execute (answer sql) db) else served (false, auth_failed, db)

-- The end of the changes that give out an id.
abbrev pub Inserted : Type 0
Inserted = Served (Bool × Option ℤ × ResultCode × UnixSocket)

given_id : Stoi → UnixSocket → Inserted
given_id (value n) db = served (true, some n, ok, db)
given_id _ db = crashes

-- A row without a column is read out of bounds, which ends as `crashes` here.
id_of : List Bytes → UnixSocket → Inserted
unfolding given_id stoi
id_of [] db = crashes
id_of (id ∷ rest) db = given_id (stoi id) db

-- No row and an OK are passed on as they are.
given_out : Outcome (ResultCode × Rows × UnixSocket) → Inserted
unfolding id_of
given_out blocks = waits
given_out (returns (ok, row ∷ rows, db)) = id_of row db
given_out (returns (rc, rows, db)) = served (false, none, rc, db)

unfoldable pub insert_returning :
    (Bytes → Option Rows) → SessionContext → Bytes → UnixSocket → Inserted
unfolding given_out execute
insert_returning answer session sql db =
    if session.is_valid
    then given_out (execute (answer sql) db)
    else served (false, none, auth_failed, db)

-- The changes with their arguments.
pub data StaffChange : Type 0 where
  mark_duty_start mark_duty_end cancel_duty deactivate_patrol_route end_deployment : ℤ → StaffChange
  update_duty_status : ℤ → ℕ → Option Bytes → StaffChange
  update_officer_status : ℤ → ℕ → StaffChange

pub data StaffInsert : Type 0 where
  schedule_duty : ℤ → ℤ → ℤ → ℕ → Bytes → ℤ → ℤ → StaffInsert
  create_patrol_route : ℤ → Bytes → Bytes → Bytes → StaffInsert
  promote_officer : ℤ → ℕ → Bytes → Bytes → Bytes → Bytes → StaffInsert
  deploy_officer : ℤ → ℤ → Bytes → Bytes → Bytes → Bytes → StaffInsert

or_empty : Option Bytes → Bytes
or_empty none = []
or_empty (some s) = s

unfoldable pub change_sql : StaffChange → Bytes
unfolding int_decimal to_decimal or_empty
change_sql (mark_duty_start duty_id) = pieces (
    codes "UPDATE duty_roster SET status='ON_DUTY', actual_start=now() WHERE duty_id="
    ∷ int_decimal duty_id
    ∷ codes " AND status='SCHEDULED';"
    ∷ [])
change_sql (mark_duty_end duty_id) = pieces (
    codes "UPDATE duty_roster SET status='COMPLETED', actual_end=now() WHERE duty_id="
    ∷ int_decimal duty_id
    ∷ codes " AND status='ON_DUTY';"
    ∷ [])
change_sql (cancel_duty duty_id) = pieces (
    codes "DELETE FROM duty_roster WHERE duty_id="
    ∷ int_decimal duty_id
    ∷ codes " AND status='SCHEDULED';"
    ∷ [])
change_sql (deactivate_patrol_route route_id) = pieces (
    codes "UPDATE patrol_routes SET active=FALSE WHERE route_id="
    ∷ int_decimal route_id
    ∷ codes ";"
    ∷ [])
change_sql (end_deployment deployment_id) = pieces (
    codes "UPDATE officer_deployments SET active=FALSE WHERE deployment_id="
    ∷ int_decimal deployment_id
    ∷ codes ";"
    ∷ [])
change_sql (update_duty_status duty_id new_status absence_reason) = pieces (
    codes "UPDATE duty_roster SET status='"
    ∷ to_decimal new_status
    ∷ codes "', absence_reason='"
    ∷ or_empty absence_reason
    ∷ codes "' WHERE duty_id="
    ∷ int_decimal duty_id
    ∷ codes ";"
    ∷ [])
change_sql (update_officer_status officer_id new_status) = pieces (
    codes "UPDATE officers SET status="
    ∷ to_decimal new_status
    ∷ codes " WHERE officer_id="
    ∷ int_decimal officer_id
    ∷ codes ";"
    ∷ [])

unfoldable pub insert_sql : StaffInsert → Bytes
unfolding int_decimal to_decimal
insert_sql (schedule_duty officer_id station_id route_id shift_type duty_date start end) = pieces (
    codes
      "INSERT INTO duty_roster (officer_id, station_id, patrol_route_id, shift_type, duty_date, "
    ∷ codes "scheduled_start, scheduled_end, status) VALUES ("
    ∷ int_decimal officer_id
    ∷ codes ", "
    ∷ int_decimal station_id
    ∷ codes ", "
    ∷ int_decimal route_id
    ∷ codes ", '"
    ∷ to_decimal shift_type
    ∷ codes "', '"
    ∷ duty_date
    ∷ codes "', to_timestamp("
    ∷ int_decimal start
    ∷ codes "), to_timestamp("
    ∷ int_decimal end
    ∷ codes "), 'SCHEDULED') RETURNING duty_id;"
    ∷ [])
insert_sql (create_patrol_route station_id beat_code route_name area_description) = pieces (
    codes
      "INSERT INTO patrol_routes (station_id, beat_code, route_name, area_description, active) VALUES ("
    ∷ int_decimal station_id
    ∷ codes ", '"
    ∷ beat_code
    ∷ codes "', '"
    ∷ route_name
    ∷ codes "', '"
    ∷ area_description
    ∷ codes "', TRUE) RETURNING route_id;"
    ∷ [])
insert_sql (promote_officer officer_id new_rank belt promotion_type effective_date order_date) =
    pieces (
      codes "INSERT INTO officer_rank_history (officer_id, new_rank, belt_number, promotion_type, "
      ∷ codes "effective_date, order_date) VALUES ("
      ∷ int_decimal officer_id
      ∷ codes ", "
      ∷ to_decimal new_rank
      ∷ codes ", '"
      ∷ belt
      ∷ codes "', '"
      ∷ promotion_type
      ∷ codes "', '"
      ∷ effective_date
      ∷ codes "', '"
      ∷ order_date
      ∷ codes "') RETURNING history_id;"
      ∷ [])
insert_sql (deploy_officer officer_id to_station_id reason order_number deployed_from until) =
    pieces (
      codes "INSERT INTO officer_deployments (officer_id, station_id, reason, order_number, "
      ∷ codes "deployed_from, deployed_until, active) VALUES ("
      ∷ int_decimal officer_id
      ∷ codes ", "
      ∷ int_decimal to_station_id
      ∷ codes ", '"
      ∷ reason
      ∷ codes "', '"
      ∷ order_number
      ∷ codes "', '"
      ∷ deployed_from
      ∷ codes "', '"
      ∷ until
      ∷ codes "', TRUE) RETURNING deployment_id;"
      ∷ [])

unfoldable pub change_staff :
    (Bytes → Option Rows) → SessionContext → StaffChange → UnixSocket → Changed
unfolding change change_sql
change_staff answer session c db = change answer session (change_sql c) db

unfoldable pub insert_staff :
    (Bytes → Option Rows) → SessionContext → StaffInsert → UnixSocket → Inserted
unfolding insert_returning insert_sql
insert_staff answer session i db = insert_returning answer session (insert_sql i) db
