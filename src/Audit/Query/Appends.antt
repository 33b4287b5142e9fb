-- ===== src/Audit/Query/Appends.antt =====
-- What a query of src/system/subsystem3/audit/src/audit_query.cpp returns, on every branch.
use justice_flow.Base.{
  ◌≡◌, refl, sym, ap, ◌∙◌, Option, none, some, List, [], ◌∷◌, ◌++◌, Bytes, map, int_decimal,
  append_assoc, append-nil,
}
use justice_flow.Types.{ResultCode, ok, not_found, db_error}
use justice_flow.OsLayer.UnixSocket.{Rows}
use justice_flow.Audit.{
  sql_case_history, sql_officer_actions, sql_table_changes, sql_time_window, sql_suspicious,
}
use justice_flow.Audit.Query.{
  AuditRecord, PgConn, Library, map_record, push_rows, mapped, execute_and_map, not_found_is_ok,
  AuditCall, change_history, officer_actions, table_changes, time_window, suspicious_activity,
  delegate,
}

-- The code of a query where no row came.
abbrev pub no_row : AuditCall → ResultCode
no_row (suspicious_activity station_id) = ok
no_row _ = not_found

module _ (L : Library) where
  push_rows-map :
      (rows : Rows) (out : List AuditRecord) → push_rows L rows out ≡ out ++ map (map_record L) rows
  unfolding push_rows
  push_rows-map [] out = sym (append-nil out)
  push_rows-map (row ∷ rows) out =
      push_rows-map rows (out ++ map_record L row ∷ [])
      ∙ append_assoc out (map_record L row ∷ []) (map (map_record L) rows)

  -- What a query gives for an answer; the first argument is the code where no row came.
  abbrev pub given : ResultCode → List AuditRecord → Option Rows → ResultCode × List AuditRecord
  given rc out none = (db_error, out)
  given rc out (some []) = (rc, out)
  given rc out (some (row ∷ rows)) = (ok, out ++ map (map_record L) (row ∷ rows))

  mapped-given :
      (answer : Option Rows) (out : List AuditRecord)
      → mapped L answer out ≡ given not_found out answer
  unfolding mapped
  mapped-given none out = refl
  mapped-given (some []) out = refl
  mapped-given (some (row ∷ rows)) out = ap (λ o. (ok, o)) (push_rows-map (row ∷ rows) out)

  ok-given :
      (answer : Option Rows) (out : List AuditRecord)
      → not_found_is_ok (given not_found out answer) ≡ given ok out answer
  unfolding not_found_is_ok
  ok-given none out = refl
  ok-given (some []) out = refl
  ok-given (some (row ∷ rows)) out = refl

-- The text of a call and its parameters.
abbrev pub statement : AuditCall → Bytes × List Bytes
unfolding int_decimal
statement (change_history case_id) = (sql_case_history, int_decimal case_id ∷ [])
statement (officer_actions officer_id from to) =
    (sql_officer_actions, int_decimal officer_id ∷ int_decimal from ∷ int_decimal to ∷ [])
statement (table_changes table_name record_id) =
    (sql_table_changes, table_name ∷ int_decimal record_id ∷ [])
statement (time_window from to) = (sql_time_window, int_decimal from ∷ int_decimal to ∷ [])
statement (suspicious_activity station_id) = (sql_suspicious, int_decimal station_id ∷ [])

-- Each query sends its own statement and returns OK with a record for each row behind those that the
-- caller had, in the order of the answer; where no row comes it returns NOT_FOUND, or OK from the search for
-- suspicious activity, and where the server fails DB_ERROR, and leaves the caller's records as they are.
pub delegate-given :
    (L : Library) (c : PgConn) (call : AuditCall) (out : List AuditRecord)
    → delegate L (some c) call out
      ≡ given L (no_row call) out (L.exec_params c (statement call).0 (statement call).1)
unfolding delegate execute_and_map
delegate-given L c (change_history case_id) out = mapped-given L _ out
delegate-given L c (officer_actions officer_id from to) out = mapped-given L _ out
delegate-given L c (table_changes table_name record_id) out = mapped-given L _ out
delegate-given L c (time_window from to) out = mapped-given L _ out
delegate-given L c (suspicious_activity station_id) out =
    ap not_found_is_ok (mapped-given L _ out) ∙ ok-given L _ out
