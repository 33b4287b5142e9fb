-- ===== src/OsLayer/Wire.antt =====
-- The frames of src/os_layer/threading/src/worker.cpp: four bytes of length, four of type, and the
-- payload, each read and written by one call; and the rows of a result as a payload. What `read` and
-- `write` do is an argument.
pub mod Packed
pub mod Overrun
pub mod Delivered
use justice_flow.Base.{
  ℕ, ◌+◌, ◌-◌, Bool, true, false, Option, none, some, List, [], ◌∷◌, ◌++◌, Bytes, eqb, ltb, leb,
  if◌then◌else◌, length, is_empty,
}
use justice_flow.Gateway.Frame.{
  RecvEvent, arrived, recv_interrupted, recv_failed, take, drop, encode_length, decode_length,
}

abbrev pub frame_header_size : ℕ
frame_header_size = 8

abbrev pub max_frame_size : ℕ
max_frame_size = 65_536

-- `writes` has the bytes that each `write` takes at most, `none` where it fails; after the last one
-- every call fails. `sent` is what went out.
pub record Connection : Type 0 where
  pub reads : List RecvEvent
  pub writes : List (Option ℕ)
  pub sent : Bytes

-- One `read` of n bytes: `none` is -1, and no byte is the end of the connection.
unfoldable pub read_some : ℕ → List RecvEvent → Option Bytes × List RecvEvent
unfolding take drop
read_some n [] = (some [], [])
read_some n (recv_interrupted ∷ events) = (none, events)
read_some n (recv_failed ∷ events) = (none, events)
read_some n (arrived s ∷ events) =
    if ltb n (length s) then (some (take n s), arrived (drop n s) ∷ events) else (some s, events)

-- The type and the payload, where a frame could be read.
abbrev pub ReadFrame : Type 0
ReadFrame = Option (ℕ × Bytes) × List RecvEvent

unfoldable pub read_payload : ℕ → ℕ → Option Bytes × List RecvEvent → ReadFrame
read_payload n type (none, events) = (none, events)
read_payload n type (some s, events) =
    if eqb (length s) n then (some (type, s), events) else (none, events)

unfoldable pub checked_payload : ℕ → ℕ → List RecvEvent → ReadFrame
unfolding read_some read_payload
checked_payload n type events =
    if ltb (max_frame_size - frame_header_size) n
    then (none, events)
    else if ltb 0 n
    then read_payload n type (read_some n events)
    else (some (type, []), events)

unfoldable pub read_header : Option Bytes × List RecvEvent → ReadFrame
unfolding checked_payload drop
read_header (none, events) = (none, events)
read_header (some h, events) =
    if eqb (length h) frame_header_size
    then checked_payload (decode_length h) (decode_length (drop 4 h)) events
    else (none, events)

unfoldable pub read_frame : List RecvEvent → ReadFrame
unfolding read_some read_header
read_frame events = read_header (read_some frame_header_size events)

-- One `write`: whether it took every byte.
unfoldable pub written : Bytes → Connection → List (Option ℕ) → Bool × Connection
unfolding take
written s c [] = (false, c)
written s c (none ∷ more) = (false, record c { writes = more })
written s c (some n ∷ more) =
    (leb (length s) n, record c { writes = more; sent = c.sent ++ take n s })

unfoldable pub after_header : Bytes → Bool × Connection → Bool × Connection
unfolding written
after_header payload (false, c) = (false, c)
after_header payload (true, c) = if is_empty payload then (true, c) else written payload c c.writes

-- The lower four bytes of the length go out.
unfoldable pub write_frame : ℕ → Bytes → Connection → Bool × Connection
unfolding written after_header
write_frame type payload c =
    after_header payload (written (encode_length (length payload) ++ encode_length type) c c.writes)

abbrev pub error_response : ℕ
error_response = 4

unfoldable pub send_error_response : ℕ → Bytes → Connection → Connection
unfolding write_frame
send_error_response code msg c = (write_frame error_response (encode_length code ++ msg) c).1

-- The cells of a row behind what is in the buffer; the first cell that does not fit ends the row.
unfoldable pub pack_cells : List Bytes → Bytes → Bytes
pack_cells [] out = out
pack_cells (cell ∷ cells) out =
    let rest = pack_cells cells (out ++ (cell ++ 0 ∷ [])) in
    if ltb max_frame_size (length out + (length cell + 1)) then out else rest

-- `none` where the number of columns is written past the end of the buffer.
unfoldable pub pack_rows : List (List Bytes) → Bytes → Option Bytes
unfolding pack_cells
pack_rows [] out = some out
pack_rows (row ∷ rows) out =
    let rest = pack_rows rows (pack_cells row (out ++ encode_length (length row))) in
    if ltb max_frame_size (length out + 4) then none else rest

unfoldable pub serialize : List (List Bytes) → Option Bytes
unfolding pack_rows
serialize rows = pack_rows rows (encode_length (length rows))
