-- ===== src/Audit/Manager/Leaks.antt =====
-- The connections that the audit manager of src/system/subsystem3/audit/src/audit_manager.cpp leaves open.
use justice_flow.Base.{
  ℕ, ◌≡◌, refl, ap, ◌∙◌, Bool, true, false, Option, none, some, Bytes, is_empty, Bool-cases, inl,
  inr, List, arith,
}
use justice_flow.Types.{ok}
use justice_flow.Audit.Query.{PgConn, Library, AuditCall, AuditRecord}
use justice_flow.Audit.Manager.{
  AuditManager, Attempt, open_session, holds, result_of, connect, finished, disconnect, reconnect,
  ensured, ensure_connected, replied, query,
}

abbrev open_count : Option PgConn → ℕ
open_count none = 0
open_count (some c) = 1

-- libpq has open just the connection that the manager holds.
abbrev pub IsCounted : AuditManager → Type 0
IsCounted m = m.handles ≡ open_count m.conn

open_session-IsCounted :
    (attempt : Attempt) (m : AuditManager) → m.handles ≡ 0 → IsCounted (open_session attempt m).1
unfolding open_session
open_session-IsCounted attempt m h = elim (Bool-cases attempt.connects) [
  | inl c ↦ elim (Bool-cases attempt.sets) [
    | inl s ↦ rw (c, s) (omega (arith, h))
    | inr s ↦ rw (c, s) h
  ]
  | inr c ↦ rw c h
]

finished-none :
    (c : Option PgConn) (m : AuditManager) → m.handles ≡ open_count c → (finished c m).handles ≡ 0
unfolding finished
finished-none none m h = h
finished-none (some c) m h = omega (arith, h)

ensured-IsCounted :
    (attempt : Attempt) (c : Option PgConn) (m : AuditManager)
    → IsCounted m
    → IsCounted (ensured attempt c m).1
unfolding ensured reconnect
ensured-IsCounted attempt none m k = k
ensured-IsCounted attempt (some c) m k = elim (Bool-cases c.is_ok) [
  | inl g ↦ rw g k
  | inr g ↦ elim (Bool-cases (is_empty m.conninfo)) [
    | inl e ↦ rw (g, e) k
    | inr e ↦
        rw (g, e) (open_session-IsCounted attempt (finished m.conn m) (finished-none m.conn m k))
  ]
]

replied-keeps :
    (L : Library) (call : AuditCall) (out : List AuditRecord) (r : Bool × AuditManager)
    → (replied L call out r).2 ≡ r.1
unfolding replied
replied-keeps L call out (false, m) = refl
replied-keeps L call out (true, m) = refl

-- A query, with the attempt to connect again that it may make, leaves no connection open but the one that
-- is held.
pub query-IsCounted :
    (L : Library) (attempt : Attempt) (call : AuditCall) (out : List AuditRecord) (m : AuditManager)
    → IsCounted m
    → IsCounted (query L attempt call out m).2
unfolding query ensure_connected
query-IsCounted L attempt call out m k =
    rw (replied-keeps L call out (ensured attempt m.conn m)) (ensured-IsCounted attempt m.conn m k)

-- To connect again after the connection was lost leaves the lost one open: after the disconnection
-- that follows, as many connections are open as before, where none should be.
pub connect-leaks :
    (attempt : Attempt) (conninfo : Bytes) (m : AuditManager) (c : PgConn)
    → m.conn ≡ some c
    → c.is_ok ≡ false
    → IsCounted m
    → is_empty conninfo ≡ false
    → attempt.connects ≡ true
    → attempt.sets ≡ true
    → ((connect attempt conninfo m).0 ≡ ok)
      × ((disconnect (connect attempt conninfo m).1).handles ≡ 1)
unfolding connect open_session result_of disconnect finished
connect-leaks attempt conninfo m c held gone counted given connects sets =
    let one : m.handles ≡ 1 = counted ∙ ap open_count held in
    let down : holds m.conn ≡ false = ap holds held ∙ gone in
    rw (connect, down, given, connects, sets) (refl, omega (arith, one))
