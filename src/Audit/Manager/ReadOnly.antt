-- ===== src/Audit/Manager/ReadOnly.antt =====
-- The audit manager asks the database on read-only sessions only.
use justice_flow.Base.{
  ◌≡◌, refl, sym, ap, subst, ◌∙◌, Bool, true, false, Option, none, some, List, [], ◌∷◌, ◌++◌, Bytes,
  is_empty, Bool-cases, inl, inr,
}
use justice_flow.Types.{ok}
use justice_flow.Gateway.Frame.{take}
use justice_flow.OsLayer.UnixSocket.{Rows}
use justice_flow.Audit.Query.{
  AuditRecord, PgConn, Library, map_record, push_rows, mapped, execute_and_map, not_found_is_ok,
  AuditCall, change_history, officer_actions, table_changes, time_window, suspicious_activity,
  delegate,
}
use justice_flow.Audit.Manager.{
  AuditManager, new_manager, Attempt, open_session, holds, result_of, connect, finished, disconnect,
  reconnect, ensured, ensure_connected, replied, query, AuditEvent, connects_to, disconnects,
  loses_connection, asks, lost, happen, run,
}

-- A connection that is held has a read-only session.
IsReadOnly : Option PgConn → Type 0
IsReadOnly none = Unit
IsReadOnly (some c) = c.read_only ≡ true

open_session-IsReadOnly :
    (attempt : Attempt) (m : AuditManager) → IsReadOnly (open_session attempt m).1.conn
unfolding IsReadOnly open_session
open_session-IsReadOnly attempt m = elim (Bool-cases attempt.connects) [
  | inl c ↦ elim (Bool-cases attempt.sets) [ inl s ↦ rw (c, s) refl | inr s ↦ rw (c, s) tt ]
  | inr c ↦ rw c tt
]

result_of-manager : (r : Bool × AuditManager) → (result_of r).1 ≡ r.1
unfolding result_of
result_of-manager (true, m) = refl
result_of-manager (false, m) = refl

connect-IsReadOnly :
    (attempt : Attempt) (conninfo : Bytes) (m : AuditManager)
    → IsReadOnly m.conn
    → IsReadOnly (connect attempt conninfo m).1.conn
unfolding connect
connect-IsReadOnly attempt conninfo m k = elim (Bool-cases (holds m.conn)) [
  | inl h ↦ rw h k
  | inr h ↦ elim (Bool-cases (is_empty conninfo)) [
    | inl e ↦ rw (h, e) k
    | inr e ↦
        let m' = record m { conninfo = take 255 conninfo } in
        rw (h, e, result_of-manager (open_session attempt m')) (open_session-IsReadOnly attempt m')
  ]
]

ensured-IsReadOnly :
    (attempt : Attempt) (c : Option PgConn) (m : AuditManager)
    → IsReadOnly m.conn
    → IsReadOnly (ensured attempt c m).1.conn
unfolding ensured reconnect
ensured-IsReadOnly attempt none m k = k
ensured-IsReadOnly attempt (some c) m k = elim (Bool-cases c.is_ok) [
  | inl g ↦ rw g k
  | inr g ↦ elim (Bool-cases (is_empty m.conninfo)) [
    | inl e ↦ rw (g, e) k
    | inr e ↦ rw (g, e) (open_session-IsReadOnly attempt (finished m.conn m))
  ]
]

-- Two servers that answer alike on read-only sessions.
module _ (L : Library) (exec : PgConn → Bytes → List Bytes → Option Rows)
    (agree : (c : PgConn) (sql : Bytes) (params : List Bytes)
      → c.read_only ≡ true
      → exec c sql params ≡ L.exec_params c sql params) where
  abbrev other : Library
  other = record L { exec_params = exec }

  push_rows-same :
      (rows : Rows) (out : List AuditRecord) → push_rows other rows out ≡ push_rows L rows out
  unfolding push_rows map_record
  push_rows-same [] out = refl
  push_rows-same (row ∷ rows) out = push_rows-same rows (out ++ map_record L row ∷ [])

  mapped-same :
      (answer : Option Rows) (out : List AuditRecord)
      → mapped other answer out ≡ mapped L answer out
  unfolding mapped
  mapped-same none out = refl
  mapped-same (some []) out = refl
  mapped-same (some (row ∷ rows)) out = ap (λ o. (ok, o)) (push_rows-same (row ∷ rows) out)

  execute-same :
      (c : Option PgConn) (sql : Bytes) (params : List Bytes) (out : List AuditRecord)
      → IsReadOnly c
      → execute_and_map other c sql params out ≡ execute_and_map L c sql params out
  unfolding execute_and_map IsReadOnly
  execute-same none sql params out k = refl
  execute-same (some c) sql params out k =
      ap (λ a. mapped other a out) (agree c sql params k)
      ∙ mapped-same (L.exec_params c sql params) out

  delegate-same :
      (c : Option PgConn) (call : AuditCall) (out : List AuditRecord)
      → IsReadOnly c
      → delegate other c call out ≡ delegate L c call out
  unfolding delegate
  delegate-same c (change_history case_id) out k = execute-same c _ _ out k
  delegate-same c (officer_actions officer_id from to) out k = execute-same c _ _ out k
  delegate-same c (table_changes table_name record_id) out k = execute-same c _ _ out k
  delegate-same c (time_window from to) out k = execute-same c _ _ out k
  delegate-same c (suspicious_activity station_id) out k =
      ap not_found_is_ok (execute-same c _ _ out k)

  replied-same :
      (call : AuditCall) (out : List AuditRecord) (r : Bool × AuditManager)
      → IsReadOnly r.1.conn
      → replied other call out r ≡ replied L call out r
  unfolding replied
  replied-same call out (false, m) k = refl
  replied-same call out (true, m) k = ap (λ d. (d.0, d.1, m)) (delegate-same m.conn call out k)

  happen-same :
      (e : AuditEvent) (m : AuditManager) → IsReadOnly m.conn → happen other e m ≡ happen L e m
  unfolding happen query ensure_connected
  happen-same (connects_to attempt conninfo) m k = refl
  happen-same disconnects m k = refl
  happen-same loses_connection m k = refl
  happen-same (asks attempt call out) m k =
      ap (λ r. (some (r.0, r.1), r.2))
        (replied-same call out (ensured attempt m.conn m) (ensured-IsReadOnly attempt m.conn m k))

  replied-manager :
      (call : AuditCall) (out : List AuditRecord) (r : Bool × AuditManager)
      → (replied L call out r).2 ≡ r.1
  unfolding replied
  replied-manager call out (false, m) = refl
  replied-manager call out (true, m) = refl

  finished-IsReadOnly :
      (c : Option PgConn) (m : AuditManager) → IsReadOnly m.conn → IsReadOnly (finished c m).conn
  unfolding finished IsReadOnly
  finished-IsReadOnly none m k = k
  finished-IsReadOnly (some c) m k = tt

  lost-IsReadOnly : (c : Option PgConn) → IsReadOnly c → IsReadOnly (lost c)
  unfolding lost IsReadOnly
  lost-IsReadOnly none k = k
  lost-IsReadOnly (some c) k = k

  happen-IsReadOnly :
      (e : AuditEvent) (m : AuditManager) → IsReadOnly m.conn → IsReadOnly (happen L e m).1.conn
  unfolding happen query ensure_connected disconnect
  happen-IsReadOnly (connects_to attempt conninfo) m k = connect-IsReadOnly attempt conninfo m k
  happen-IsReadOnly disconnects m k = finished-IsReadOnly m.conn m k
  happen-IsReadOnly loses_connection m k = lost-IsReadOnly m.conn k
  happen-IsReadOnly (asks attempt call out) m k =
      subst (λ n. IsReadOnly n.conn) (sym (replied-manager call out (ensured attempt m.conn m)))
        (ensured-IsReadOnly attempt m.conn m k)

  run-same :
      (es : List AuditEvent) (m : AuditManager) → IsReadOnly m.conn → run other es m ≡ run L es m
  unfolding run
  run-same [] m k = refl
  run-same (e ∷ es) m k = rw (happen-same e m k) (
      ap (λ r. ((happen L e m).0 ∷ r.0, r.1))
        (run-same es (happen L e m).1 (happen-IsReadOnly e m k)))

-- Whatever is called, and whenever connections are lost, the audit asks the server on sessions that are
-- read only, and on no others: two servers that answer alike on those cannot be told apart.
pub run-read_only :
    (L : Library) (exec : PgConn → Bytes → List Bytes → Option Rows) (es : List AuditEvent)
    → ((c : PgConn) (sql : Bytes) (params : List Bytes)
        → c.read_only ≡ true
        → exec c sql params ≡ L.exec_params c sql params)
    → run (record L { exec_params = exec }) es new_manager ≡ run L es new_manager
unfolding IsReadOnly
run-read_only L exec es agree = run-same L exec agree es new_manager tt
