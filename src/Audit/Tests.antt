-- ===== src/Audit/Tests.antt =====
-- An audit manager and a server, and the theorems about them at concrete inputs.
use justice_flow.Base.{
  ◌≡◌, refl, true, false, if◌then◌else◌, Option, none, some, List, [], ◌∷◌, pos, Bytes, codes,
}
use justice_flow.OsLayer.UnixSocket.{Rows}
use justice_flow.Audit.Query.{PgConn, Library, officer_actions, suspicious_activity, delegate}
use justice_flow.Audit.Query.Appends.{statement, no_row, given, delegate-given}
use justice_flow.Audit.Manager.{
  AuditManager, new_manager, Attempt, AuditEvent, connects_to, disconnects, loses_connection, asks,
  run,
}
use justice_flow.Audit.Manager.ReadOnly.{run-read_only}

abbrev one_row : Rows
one_row =
    (codes "1"
      ∷ codes "WARRANTS"
      ∷ codes "4"
      ∷ codes "UPDATE"
      ∷ codes "7"
      ∷ codes "B7"
      ∷ codes "99"
      ∷ codes "::1"
      ∷ codes "{}"
      ∷ codes "{}"
      ∷ codes "150"
      ∷ [])
    ∷ []

abbrev library : Library
library = record {
  atoi = λ s. pos 1;
  atoll = λ s. pos 2;
  exec_params = λ c sql params. some one_row;
}

-- It fails on sessions that may write.
abbrev strict : PgConn → Bytes → List Bytes → Option Rows
strict c sql params = if c.read_only then some one_row else none

abbrev well : Attempt
well = record { connects = true; sets = true }

abbrev events : List AuditEvent
events =
    connects_to well (codes "host=db")
    ∷ asks well (officer_actions (pos 7) (pos 100) (pos 200)) []
    ∷ loses_connection
    ∷ asks well (suspicious_activity (pos 2)) []
    ∷ disconnects
    ∷ []

run-read_only_example :
    run (record library { exec_params = strict }) events new_manager
    ≡ run library events new_manager
run-read_only_example = run-read_only library strict events (λ c sql params h. rw h refl)

abbrev read_session : PgConn
read_session = record { is_ok = true; read_only = true }

delegate-given_example :
    delegate library (some read_session) (suspicious_activity (pos 2)) []
    ≡ given library (no_row (suspicious_activity (pos 2))) [] (
        library.exec_params read_session
          (statement (suspicious_activity (pos 2))).0
          (statement (suspicious_activity (pos 2))).1)
delegate-given_example = delegate-given library read_session (suspicious_activity (pos 2)) []

abbrev lost_session : PgConn
lost_session = record { is_ok = false; read_only = true }

abbrev stale : AuditManager
stale = record { conn = some lost_session; conninfo = codes "host=db"; handles = 1 }
