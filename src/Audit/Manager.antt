-- ===== src/Audit/Manager.antt =====
-- src/system/subsystem3/audit/src/audit_manager.cpp: the connection of the audit. `handles` counts the
-- connections that libpq has open for it. What an attempt to connect comes to is an argument.
pub mod ReadOnly
pub mod Leaks
use justice_flow.Base.{
  ℕ, ◌+◌, ◌-◌, Bool, true, false, Option, none, some, List, [], ◌∷◌, Bytes, if◌then◌else◌, is_empty,
}
use justice_flow.Types.{ResultCode, ok, db_error}
use justice_flow.Gateway.Frame.{take}
use justice_flow.Audit.Query.{AuditRecord, PgConn, Library, AuditCall, delegate}

pub record AuditManager : Type 0 where
  pub conn : Option PgConn
  pub conninfo : Bytes
  pub handles : ℕ

abbrev pub new_manager : AuditManager
new_manager = record { conn = none; conninfo = []; handles = 0 }

-- Whether `PQconnectdb` gives a good connection, and whether the SET on it succeeds.
pub record Attempt : Type 0 where
  pub connects : Bool
  pub sets : Bool

abbrev pub conninfo_size : ℕ
conninfo_size = 256

-- `PQconnectdb` and the SET, on a manager whose old connection is finished or forgotten. The
-- connection that failed is finished.
unfoldable pub open_session : Attempt → AuditManager → Bool × AuditManager
open_session attempt m =
    if attempt.connects
    then (if attempt.sets
        then (
          true,
          record m {
            conn = some (record { is_ok = true; read_only = true });
            handles = m.handles + 1;
          },
        )
        else (false, record m { conn = none }))
    else (false, record m { conn = none })

holds : Option PgConn → Bool
holds none = false
holds (some c) = c.is_ok

result_of : Bool × AuditManager → ResultCode × AuditManager
result_of (true, m) = (ok, m)
result_of (false, m) = (db_error, m)

-- `none` and the empty text are refused. A connection that is held but not good is not finished.
unfoldable pub connect : Attempt → Bytes → AuditManager → ResultCode × AuditManager
unfolding holds result_of open_session take
connect attempt conninfo m =
    if holds m.conn
    then (ok, m)
    else if is_empty conninfo
    then (db_error, m)
    else result_of
        (open_session attempt (record m { conninfo = take (conninfo_size - 1) conninfo }))

-- `PQfinish` on the connection, where there is one.
unfoldable pub finished : Option PgConn → AuditManager → AuditManager
finished none m = m
finished (some c) m = record m { conn = none; handles = m.handles - 1 }

unfoldable pub disconnect : AuditManager → AuditManager
unfolding finished
disconnect m = finished m.conn m

unfoldable pub reconnect : Attempt → AuditManager → Bool × AuditManager
unfolding open_session finished
reconnect attempt m =
    if is_empty m.conninfo then (false, m) else open_session attempt (finished m.conn m)

ensured : Attempt → Option PgConn → AuditManager → Bool × AuditManager
unfolding reconnect
ensured attempt none m = (false, m)
ensured attempt (some c) m = if c.is_ok then (true, m) else reconnect attempt m

unfoldable pub ensure_connected : Attempt → AuditManager → Bool × AuditManager
unfolding ensured
ensure_connected attempt m = ensured attempt m.conn m

replied :
    Library
    → AuditCall
    → List AuditRecord
    → Bool × AuditManager
    → ResultCode × List AuditRecord × AuditManager
unfolding delegate
replied L call out (false, m) = (db_error, out, m)
replied L call out (true, m) = let r = delegate L m.conn call out in (r.0, r.1, m)

-- Each of the five queries of the manager.
unfoldable pub query :
    Library
    → Attempt
    → AuditCall
    → List AuditRecord
    → AuditManager
    → ResultCode × List AuditRecord × AuditManager
unfolding replied ensure_connected
query L attempt call out m = replied L call out (ensure_connected attempt m)

-- What happens to the manager: its calls, and the loss of a connection.
pub data AuditEvent : Type 0 where
  connects_to : Attempt → Bytes → AuditEvent
  disconnects : AuditEvent
  loses_connection : AuditEvent
  asks : Attempt → AuditCall → List AuditRecord → AuditEvent

lost : Option PgConn → Option PgConn
lost none = none
lost (some c) = some (record c { is_ok = false })

-- The code and the records that a call gives, and the manager after it.
unfoldable pub happen :
    Library → AuditEvent → AuditManager → Option (ResultCode × List AuditRecord) × AuditManager
unfolding connect disconnect query lost
happen L (connects_to attempt conninfo) m =
    let r = connect attempt conninfo m in (some (r.0, []), r.1)
happen L disconnects m = (none, disconnect m)
happen L loses_connection m = (none, record m { conn = lost m.conn })
happen L (asks attempt call out) m = let r = query L attempt call out m in (some (r.0, r.1), r.2)

unfoldable pub run :
    Library
    → List AuditEvent
    → AuditManager
    → List (Option (ResultCode × List AuditRecord)) × AuditManager
unfolding happen
run L [] m = ([], m)
run L (e ∷ es) m =
    let first = happen L e m in let rest = run L es first.1 in (first.0 ∷ rest.0, rest.1)
