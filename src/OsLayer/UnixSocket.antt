-- ===== src/OsLayer/UnixSocket.antt =====
-- src/os_layer/ipc/src/unix_socket.cpp, which src/os_layer/ipc/src/ipc_manager.cpp passes on: the one
-- database connection and its mutex. The mutex has default attributes, so a thread that locks it
-- while it is held waits; where nobody else is there to release it, the call never returns. What the
-- server answers to a statement is an argument: `none` where the query fails.
use justice_flow.Base.{Bool, true, false, Option, none, some, List, [], Bytes, if◌then◌else◌}
use justice_flow.Types.{ResultCode, ok, db_error}

-- A call that returns, or one that waits for ever.
pub data Outcome {ℓ} (A : Type ℓ) : Type ℓ where
  returns : A → Outcome A
  blocks : Outcome A

infixl 5 ◌>>=◌
abbrev pub ◌>>=◌ {ℓ κ} : {A : Type ℓ} {B : Type κ} → Outcome A → (A → Outcome B) → Outcome B
returns a >>= f = f a
blocks >>= f = blocks

abbrev pub Rows : Type 0
Rows = List (List Bytes)

pub record UnixSocket : Type 0 where
  pub connected : Bool
  pub locked : Bool

unfoldable pub lock : UnixSocket → Outcome UnixSocket
lock s = if s.locked then blocks else returns (record s { locked = true })

unfoldable pub unlock : UnixSocket → UnixSocket
unlock s = record s { locked = false }

-- The statement under the lock; `out_results` is cleared and filled on success only.
answer_locked : UnixSocket → Option Rows → Outcome (ResultCode × Rows × UnixSocket)
unfolding unlock
answer_locked s none = returns (db_error, [], unlock s)
answer_locked s (some rows) =
    returns (if s.connected then (ok, rows, unlock s) else (db_error, [], unlock s))

unfoldable pub execute : Option Rows → UnixSocket → Outcome (ResultCode × Rows × UnixSocket)
unfolding lock answer_locked
execute answer s = do s' ← lock s; answer_locked s' answer

pub disconnect : UnixSocket → Outcome UnixSocket
unfolding lock unlock
disconnect s = do s' ← lock s; returns (unlock (record s' { connected = false }))
