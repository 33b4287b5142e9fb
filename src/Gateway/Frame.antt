-- ===== src/Gateway/Frame.antt =====
-- The frames of src/os_layer/ipc/src/domain_socket.cpp: four bytes of length, least significant
-- first, and the text. What `recv` and `send` do on the connection is an argument, a list of
-- events in their order: a `recv` gives at most as many bytes as it was asked for and keeps the rest.
pub mod Transfer
pub mod RoundTrip
pub mod Bounds
use justice_flow.Base.{
  ℕ, zero, suc, ◌+◌, ◌*◌, ◌-◌, ◌/◌, ◌%◌, ◌^◌, Bool, true, false, ◌||◌, Option, none, some, List, [],
  ◌∷◌, ◌++◌, Bytes, eqb, ltb, leb, if◌then◌else◌, length, get_or,
}
use justice_flow.Types.{ResultCode, ok, not_found, invalid_input, file_system_error}

abbrev pub max_msg_bytes : ℕ
max_msg_bytes = 65_536

-- Bytes that have arrived, a call that a signal interrupts, or one that fails. After the last event
-- the peer has closed.
pub data RecvEvent : Type 0 where
  arrived : Bytes → RecvEvent
  recv_interrupted recv_failed : RecvEvent

unfoldable pub take : ℕ → Bytes → Bytes
take zero s = []
take (suc n) [] = []
take (suc n) (c ∷ s) = c ∷ take n s

unfoldable pub drop : ℕ → Bytes → Bytes
drop zero s = s
drop (suc n) [] = []
drop (suc n) (c ∷ s) = drop n s

-- The loop that reads until it has `need` more bytes: the code where it stops early, what it read,
-- and the events left. `recv` returns 0 at the end and where no byte arrived.
unfoldable pub recv_all : ℕ → List RecvEvent → ResultCode × Bytes × List RecvEvent
unfolding take drop
recv_all zero events = (ok, [], events)
recv_all (suc need) [] = (not_found, [], [])
recv_all (suc need) (recv_interrupted ∷ events) = recv_all (suc need) events
recv_all (suc need) (recv_failed ∷ events) = (file_system_error, [], events)
recv_all (suc need) (arrived [] ∷ events) = (not_found, [], events)
recv_all (suc need) (arrived (c ∷ s) ∷ events) =
    let rest = recv_all (need - length s) events in
    if ltb need (length s)
    then (ok, take (suc need) (c ∷ s), arrived (drop (suc need) (c ∷ s)) ∷ events)
    else (rest.0, (c ∷ s) ++ rest.1, rest.2)

-- The number in four bytes: `|` of shifts that do not overlap is their sum.
abbrev pub decode_length : Bytes → ℕ
decode_length b =
    get_or b 0 0 + get_or b 1 0 * 2 ^ 8 + get_or b 2 0 * 2 ^ 16 + get_or b 3 0 * 2 ^ 24

-- The check of the length, and the text.
unfoldable pub recv_body : ResultCode × Bytes × List RecvEvent → ResultCode × Bytes × List RecvEvent
unfolding recv_all
recv_body (ok, len_buf, events) =
    let n = decode_length len_buf in
    if eqb n 0 || ltb max_msg_bytes n then (invalid_input, [], events) else recv_all n events
recv_body (rc, len_buf, events) = (rc, [], events)

unfoldable pub recv_frame : List RecvEvent → ResultCode × Bytes × List RecvEvent
unfolding recv_all recv_body
recv_frame events = recv_body (recv_all 4 events)

abbrev pub encode_length : ℕ → Bytes
encode_length n = n % 256 ∷ n / 2 ^ 8 % 256 ∷ n / 2 ^ 16 % 256 ∷ n / 2 ^ 24 % 256 ∷ []

-- A call that takes some bytes, fewer than it was given or all, one that a signal interrupts, or
-- one that fails. After the last event `send` waits for ever.
pub data SendEvent : Type 0 where
  taken : ℕ → SendEvent
  send_interrupted send_failed : SendEvent

-- What the loop returns, `none` where it waits, with the bytes on the wire and the events left.
unfoldable pub send_all : Bytes → List SendEvent → Option ResultCode × Bytes × List SendEvent
unfolding take drop
send_all [] events = (some ok, [], events)
send_all (c ∷ s) [] = (none, [], [])
send_all (c ∷ s) (send_interrupted ∷ events) = send_all (c ∷ s) events
send_all (c ∷ s) (send_failed ∷ events) = (some file_system_error, [], events)
send_all (c ∷ s) (taken n ∷ events) =
    let rest = send_all (drop n (c ∷ s)) events in (rest.0, take n (c ∷ s) ++ rest.1, rest.2)

-- The text after the length: only its first `payload_len` bytes.
unfoldable pub send_body :
    Bytes → Option ResultCode × Bytes × List SendEvent → Option ResultCode × Bytes × List SendEvent
unfolding send_all
send_body text (some ok, wire, events) =
    let rest = send_all text events in (rest.0, wire ++ rest.1, rest.2)
send_body text (rc, wire, events) = (rc, wire, events)

unfoldable pub send_frame : Bytes → List SendEvent → Option ResultCode × Bytes × List SendEvent
unfolding send_all send_body take
send_frame json events =
    let payload_len = length json % 2 ^ 32 in
    send_body (take payload_len json) (send_all (encode_length payload_len) events)
