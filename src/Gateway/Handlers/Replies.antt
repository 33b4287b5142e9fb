-- ===== src/Gateway/Handlers/Replies.antt =====
-- What a handler of src/os_layer/ipc/src/domain_socket.cpp works with and gives back, and the check of
-- its integer parameters.
use justice_flow.Base.{
  ℕ, Bool, true, false, not, ◌&&◌, Option, [], ◌∷◌, Bytes, codes, bytes_eq, if◌then◌else◌, is_digit,
  is_empty, ℤ, Stoi, value, stoi, int_decimal, int_ltb,
}
use justice_flow.Types.{invalid_input, invalid_state}
use justice_flow.OsLayer.UnixSocket.{UnixSocket, Rows}
use justice_flow.Gateway.Request.{SocketRequest}
use justice_flow.Gateway.Response.{SocketResponse, response_error}

-- A handler that returns, one that an uncaught exception ends, the daemon with it, and one that
-- waits for ever for the lock of the database connection.
pub data Served {ℓ} (A : Type ℓ) : Type ℓ where
  served : A → Served A
  crashes waits : Served A

infixl 5 ◌>>=◌
abbrev pub ◌>>=◌ {ℓ κ} : {A : Type ℓ} {B : Type κ} → Served A → (A → Served B) → Served B
served a >>= f = f a
crashes >>= f = crashes
waits >>= f = waits

-- The names are the texts up to the zero byte of their arrays.
pub record AgentStatus : Type 0 where
  pub agent_name : Bytes
  pub current_status : ℤ
  pub error_detail : Bytes
  pub last_updated : ℤ

abbrev pub max_agents : ℕ
max_agents = 3

-- `agents` is the array, read below `max_agents` only.
pub record SharedStatusTable : Type 0 where
  pub active_sessions : ℤ
  pub agents : ℕ → AgentStatus

-- The clock, the time of the start, the shared memory where it is attached, and what the database
-- answers to a statement.
pub record Env : Type 0 where
  pub now : ℕ
  pub start_time : ℕ
  pub table : Option SharedStatusTable
  pub answer : Bytes → Option Rows

abbrev pub Reply : Type 0
Reply = Served (SocketResponse × UnixSocket)

all_digits_from : Bytes → Bool
all_digits_from [] = true
all_digits_from (c ∷ s) = if is_digit c then all_digits_from s else false

unfoldable pub is_all_digits : Bytes → Bool
unfolding all_digits_from
is_all_digits s = if is_empty s then false else all_digits_from s

-- `std::stoi` where nothing catches what it throws.
abbrev pub uncaught : Stoi → Served ℤ
uncaught (value n) = served n
uncaught _ = crashes

-- `std::max(min_val, std::min(max_val, v))`.
abbrev pub clamp : ℤ → ℤ → ℤ → ℤ
clamp min_val max_val v =
    let capped = if int_ltb v max_val then v else max_val in
    if int_ltb min_val capped then capped else min_val

unfoldable pub safe_int_str : Bytes → ℤ → ℤ → ℤ → Served Bytes
unfolding is_all_digits stoi int_decimal
safe_int_str raw default_val min_val max_val =
    if not (is_empty raw) && is_all_digits raw
    then (do v ← uncaught (stoi raw); served (int_decimal (clamp min_val max_val v)))
    else served (int_decimal default_val)

unfoldable pub no_table : SocketRequest → UnixSocket → Reply
no_table req db =
    served (response_error req.request_id invalid_state (codes "Shared memory not attached"), db)

unfoldable pub bad_request : SocketRequest → Bytes → UnixSocket → Reply
bad_request req msg db = served (response_error req.request_id invalid_input msg, db)
