-- ===== src/Audit/Query.antt =====
-- src/system/subsystem3/audit/src/audit_query.cpp: a query with its parameters, and the rows as audit
-- records. What libpq answers on a connection is an argument, `none` where the status is not
-- PGRES_TUPLES_OK; so are `atoi` and `atoll`.
pub mod Appends
use justice_flow.Base.{
  ℕ, ◌-◌, Bool, true, false, Option, none, some, List, [], ◌∷◌, ◌++◌, ℤ, Bytes, codes, get_or,
  int_decimal, map, if◌then◌else◌,
}
use justice_flow.Types.{ResultCode, ok, not_found, db_error}
use justice_flow.Gateway.Frame.{take}
use justice_flow.OsLayer.UnixSocket.{Rows}
use justice_flow.Audit.{
  sql_case_history, sql_officer_actions, sql_table_changes, sql_time_window, sql_suspicious,
}

abbrev pub audit_table_name_len : ℕ
audit_table_name_len = 32

abbrev pub audit_operation_len : ℕ
audit_operation_len = 16

abbrev pub audit_belt_len : ℕ
audit_belt_len = 32

abbrev pub audit_addr_len : ℕ
audit_addr_len = 48

abbrev pub audit_jsonb_len : ℕ
audit_jsonb_len = 8192

-- The arrays are the C strings in them.
pub record AuditRecord : Type 0 where
  pub log_id : ℤ
  pub table_name : Bytes
  pub record_pk : ℤ
  pub operation : Bytes
  pub officer_id : ℤ
  pub belt_number : Bytes
  pub backend_pid : ℤ
  pub client_addr : Bytes
  pub old_values : Bytes
  pub new_values : Bytes
  pub changed_at : ℤ

-- A connection as the queries see it: whether its status is CONNECTION_OK, and whether its session was
-- set to read only.
pub record PgConn : Type 0 where
  pub is_ok : Bool
  pub read_only : Bool

-- The C library's readers of numbers, and what a server answers.
pub record Library : Type 0 where
  pub atoi : Bytes → ℤ
  pub atoll : Bytes → ℤ
  pub exec_params : PgConn → Bytes → List Bytes → Option Rows

-- `strncpy` and the byte after it: the source has no 0 in it, as `PQgetvalue` gives it.
abbrev pub scopy : Bytes → ℕ → Bytes
unfolding take
scopy src max = take (max - 1) src

-- No row is no suspicion.
unfoldable pub not_found_is_ok : ResultCode × List AuditRecord → ResultCode × List AuditRecord
not_found_is_ok (not_found, out) = (ok, out)
not_found_is_ok (rc, out) = (rc, out)

module _ (L : Library) where
  -- A row of the statements has eleven columns; the source reads a null pointer on a shorter one, which no
  -- statement gives.
  unfoldable pub map_record : List Bytes → AuditRecord
  unfolding take
  map_record row = record {
    log_id = L.atoi (get_or row 0 []);
    table_name = scopy (get_or row 1 []) audit_table_name_len;
    record_pk = L.atoi (get_or row 2 []);
    operation = scopy (get_or row 3 []) audit_operation_len;
    officer_id = L.atoi (get_or row 4 []);
    belt_number = scopy (get_or row 5 []) audit_belt_len;
    backend_pid = L.atoi (get_or row 6 []);
    client_addr = scopy (get_or row 7 []) audit_addr_len;
    old_values = scopy (get_or row 8 []) audit_jsonb_len;
    new_values = scopy (get_or row 9 []) audit_jsonb_len;
    changed_at = L.atoll (get_or row 10 []);
  }

  -- The rows behind what `out` holds.
  unfoldable pub push_rows : Rows → List AuditRecord → List AuditRecord
  push_rows [] out = out
  push_rows (row ∷ rows) out = push_rows rows (out ++ map_record row ∷ [])

  unfoldable pub mapped : Option Rows → List AuditRecord → ResultCode × List AuditRecord
  unfolding push_rows
  mapped none out = (db_error, out)
  mapped (some []) out = (not_found, out)
  mapped (some (row ∷ rows)) out = (ok, push_rows (row ∷ rows) out)

  unfoldable pub execute_and_map :
      Option PgConn → Bytes → List Bytes → List AuditRecord → ResultCode × List AuditRecord
  unfolding mapped
  execute_and_map none sql params out = (db_error, out)
  execute_and_map (some conn) sql params out = mapped (L.exec_params conn sql params) out

  unfoldable pub get_change_history :
      Option PgConn → ℤ → List AuditRecord → ResultCode × List AuditRecord
  unfolding execute_and_map int_decimal
  get_change_history conn case_id out =
      execute_and_map conn sql_case_history (int_decimal case_id ∷ []) out

  unfoldable pub get_officer_actions :
      Option PgConn → ℤ → ℤ → ℤ → List AuditRecord → ResultCode × List AuditRecord
  unfolding execute_and_map int_decimal
  get_officer_actions conn officer_id from to out =
      execute_and_map conn sql_officer_actions
        (int_decimal officer_id ∷ int_decimal from ∷ int_decimal to ∷ []) out

  unfoldable pub get_table_changes :
      Option PgConn → Bytes → ℤ → List AuditRecord → ResultCode × List AuditRecord
  unfolding execute_and_map int_decimal
  get_table_changes conn table_name record_id out =
      execute_and_map conn sql_table_changes (table_name ∷ int_decimal record_id ∷ []) out

  unfoldable pub query_by_time_window :
      Option PgConn → ℤ → ℤ → List AuditRecord → ResultCode × List AuditRecord
  unfolding execute_and_map int_decimal
  query_by_time_window conn from to out =
      execute_and_map conn sql_time_window (int_decimal from ∷ int_decimal to ∷ []) out

  unfoldable pub detect_suspicious_activity :
      Option PgConn → ℤ → List AuditRecord → ResultCode × List AuditRecord
  unfolding execute_and_map not_found_is_ok int_decimal
  detect_suspicious_activity conn station_id out =
      not_found_is_ok (execute_and_map conn sql_suspicious (int_decimal station_id ∷ []) out)

-- The five calls with their arguments.
pub data AuditCall : Type 0 where
  change_history : ℤ → AuditCall
  officer_actions : ℤ → ℤ → ℤ → AuditCall
  table_changes : Bytes → ℤ → AuditCall
  time_window : ℤ → ℤ → AuditCall
  suspicious_activity : ℤ → AuditCall

unfoldable pub delegate :
    Library → Option PgConn → AuditCall → List AuditRecord → ResultCode × List AuditRecord
unfolding get_change_history get_officer_actions get_table_changes query_by_time_window
    detect_suspicious_activity
delegate L conn (change_history case_id) out = get_change_history L conn case_id out
delegate L conn (officer_actions officer_id from to) out =
    get_officer_actions L conn officer_id from to out
delegate L conn (table_changes table_name record_id) out =
    get_table_changes L conn table_name record_id out
delegate L conn (time_window from to) out = query_by_time_window L conn from to out
delegate L conn (suspicious_activity station_id) out =
    detect_suspicious_activity L conn station_id out
