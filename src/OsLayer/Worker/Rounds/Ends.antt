-- ===== src/OsLayer/Worker/Rounds/Ends.antt =====
-- The thread of a client of src/os_layer/threading/src/worker.cpp comes to an end.
use justice_flow.Base.{
  ℕ, zero, suc, ◌+◌, ◌≤◌, ◌<◌, ◌≢◌, ◌-◌, refl, Option, none, some, List, [], ◌∷◌, Bytes, eqb, ltb,
  length, length-append, Bool-cases, inl, inr, absurd, arith,
}
use justice_flow.Gateway.Frame.{
  RecvEvent, arrived, recv_interrupted, recv_failed, drop, decode_length,
}
use justice_flow.Gateway.Frame.Transfer.{arriving, length-take}
use justice_flow.Gateway.Server.Rounds.{drop-length}
use justice_flow.OsLayer.Wire.{
  ReadFrame, read_some, read_payload, checked_payload, read_header, read_frame, frame_header_size,
  max_frame_size,
}
use justice_flow.OsLayer.Worker.{
  World, Turn, Desk, WorkerTask, RoundStep, goes_on, leaves, throws_out, hangs, overruns,
  auth_request,
}
use justice_flow.OsLayer.Worker.Loop.{
  received, handle_frame, after_read, End, out_of_fuel, continue_with, process_client, process_task,
  newcomer,
}
use justice_flow.OsLayer.Worker.Rounds.{Rests, received-Rests}

-- What a read took is not there any more.
Took : List RecvEvent → Option Bytes × List RecvEvent → Type 0
Took events (none, rest) = Unit
Took events (some s, rest) = length (arriving rest) + length s ≤ length (arriving events)

arrived-Took :
    (n : ℕ) (s : Bytes) (events : List RecvEvent)
    → Took (arrived s ∷ events) (read_some n (arrived s ∷ events))
unfolding Took read_some arriving
arrived-Took n s events = elim (Bool-cases (ltb n (length s))) [
  | inl part ↦ rw part (
      ground (
        arith,
        part,
        length-append s (arriving events),
        length-append (drop n s) (arriving events),
        drop-length n s,
        length-take n s,
      ))
  | inr all ↦ rw all (omega (arith, length-append s (arriving events)))
]

read_some-Took : (n : ℕ) (events : List RecvEvent) → Took events (read_some n events)
unfolding Took read_some arriving
read_some-Took n [] = omega arith
read_some-Took n (recv_interrupted ∷ events) = tt
read_some-Took n (recv_failed ∷ events) = tt
read_some-Took n (arrived s ∷ events) = arrived-Took n s events

-- A frame that was read is not there any more; a header has eight bytes.
Within : List RecvEvent → ReadFrame → Type 0
Within events (none, rest) = Unit
Within events (some f, rest) = length (arriving rest) ≤ length (arriving events)

Shorter : List RecvEvent → ReadFrame → Type 0
Shorter events (none, rest) = Unit
Shorter events (some f, rest) = length (arriving rest) < length (arriving events)

payload-Within :
    (n type : ℕ) (events : List RecvEvent) (r : Option Bytes × List RecvEvent)
    → Took events r
    → Within events (read_payload n type r)
unfolding Within Took read_payload
payload-Within n type events (none, rest) k = tt
payload-Within n type events (some s, rest) k = elim (Bool-cases (eqb (length s) n)) [
  | inl e ↦ rw e (omega (arith, k))
  | inr e ↦ rw e tt
]

checked-Within :
    (n type : ℕ) (events : List RecvEvent) → Within events (checked_payload n type events)
unfolding Within checked_payload
checked-Within n type events = elim (Bool-cases (ltb (max_frame_size - frame_header_size) n)) [
  | inl large ↦ rw large tt
  | inr small ↦ elim (Bool-cases (ltb 0 n)) [
    | inl more ↦
        rw (small, more)
          (payload-Within n type events (read_some n events) (read_some-Took n events))
    | inr last ↦ rw (small, last) (omega arith)
  ]
]

Within-Shorter :
    (events rest : List RecvEvent) (f : ReadFrame)
    → length (arriving rest) < length (arriving events)
    → Within rest f
    → Shorter events f
unfolding Within Shorter
Within-Shorter events rest (none, last) h k = tt
Within-Shorter events rest (some f, last) h k = omega (arith, h, k)

header-Shorter :
    (events : List RecvEvent) (r : Option Bytes × List RecvEvent)
    → Took events r
    → Shorter events (read_header r)
unfolding Shorter Took read_header
header-Shorter events (none, rest) k = tt
header-Shorter events (some h, rest) k = elim (Bool-cases (eqb (length h) frame_header_size)) [
  | inl e ↦ rw e (
      Within-Shorter events rest (checked_payload (decode_length h) (decode_length (drop 4 h)) rest)
        (ground (arith, e, k)) (checked-Within (decode_length h) (decode_length (drop 4 h)) rest))
  | inr e ↦ rw e tt
]

read_frame-Shorter : (events : List RecvEvent) → Shorter events (read_frame events)
unfolding read_frame
read_frame-Shorter events =
    header-Shorter events (read_some frame_header_size events)
      (read_some-Took frame_header_size events)

-- A round that goes on has taken something.
Falls : List RecvEvent → RoundStep → Type 0
Falls events (goes_on desk w) = length (arriving w.connection.reads) < length (arriving events)
Falls events _ = Unit

Rests-Falls :
    (events rest : List RecvEvent) (r : RoundStep)
    → length (arriving rest) < length (arriving events)
    → Rests rest r
    → Falls events r
unfolding Rests Falls
Rests-Falls events rest (goes_on desk w) h k = rw k h
Rests-Falls events rest (leaves desk w) h k = tt
Rests-Falls events rest (throws_out w) h k = tt
Rests-Falls events rest hangs h k = tt
Rests-Falls events rest overruns h k = tt

after_read-Falls :
    (task : WorkerTask) (turn : Turn) (desk : Desk) (w : World) (events : List RecvEvent)
    (r : ReadFrame)
    → Shorter events r
    → Falls events (after_read task turn desk w r)
unfolding after_read handle_frame Shorter Falls
after_read-Falls task turn desk w events (none, rest) h = tt
after_read-Falls task turn desk w events (some (type, payload), rest) h =
    let w' = record w { connection = record w.connection { reads = rest } } in
    let step = received task turn desk type payload w' desk.authenticated (eqb type auth_request) in
    Rests-Falls events rest step h (
      received-Rests rest task turn desk type payload w' desk.authenticated (eqb type auth_request)
        refl)

continue_with-ends :
    (fuel : ℕ) (task : WorkerTask) (events : List RecvEvent) (r : RoundStep)
    (next : Desk → World → End)
    → length (arriving events) < suc fuel
    → ((desk : Desk) (w : World)
        → length (arriving w.connection.reads) < fuel
        → next desk w ≢ out_of_fuel)
    → Falls events r
    → continue_with task r next ≢ out_of_fuel
unfolding continue_with Falls
continue_with-ends fuel task events (goes_on desk w) next h later k =
    later desk w (omega (arith, h, k))
continue_with-ends fuel task events (leaves desk w) next h later k = λ e. cc
continue_with-ends fuel task events (throws_out w) next h later k = λ e. cc
continue_with-ends fuel task events hangs next h later k = λ e. cc
continue_with-ends fuel task events overruns next h later k = λ e. cc

process_client-ends :
    (fuel i : ℕ) (task : WorkerTask) (turns : ℕ → Turn) (desk : Desk) (w : World)
    → length (arriving w.connection.reads) < fuel
    → process_client fuel i task turns desk w ≢ out_of_fuel
unfolding process_client
process_client-ends zero i task turns desk w h = absurd (omega (arith, h))
process_client-ends (suc fuel) i task turns desk w h =
    let events = w.connection.reads in
    continue_with-ends fuel task events (after_read task (turns i) desk w (read_frame events))
      (process_client fuel (suc i) task turns) h (process_client-ends fuel (suc i) task turns)
      (after_read-Falls task (turns i) desk w events (read_frame events)
        (read_frame-Shorter events))

-- Whatever a client sends and however the calls go, its thread closes the connection, waits for ever
-- in a call, or runs over its result buffer: one round more than the bytes that arrive is enough.
pub process_task-ends :
    (fuel : ℕ) (task : WorkerTask) (turns : ℕ → Turn) (w : World)
    → length (arriving w.connection.reads) < fuel
    → process_task fuel task turns w ≢ out_of_fuel
unfolding process_task
process_task-ends fuel task turns w h = process_client-ends fuel 0 task turns newcomer w h
