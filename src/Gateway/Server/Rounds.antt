-- ===== src/Gateway/Server/Rounds.antt =====
-- A client's thread of src/os_layer/ipc/src/domain_socket.cpp ends, and answers every request of a
-- client that sends frames and closes.
use justice_flow.Base.{
  ℕ, zero, suc, ◌+◌, ◌-◌, ◌≤◌, ◌<◌, ◌≡◌, ◌≢◌, refl, Bool, true, false, ◌||◌, Option, none, some,
  List, [], ◌∷◌, Bytes, eqb, ltb, if◌then◌else◌, length, length-append, absurd, arith,
}
use justice_flow.Types.{ResultCode, ok, invalid_input}
use justice_flow.OsLayer.UnixSocket.{UnixSocket}
use justice_flow.Gateway.Frame.{
  RecvEvent, arrived, recv_interrupted, recv_failed, SendEvent, drop, recv_all, recv_body,
  recv_frame, send_frame, decode_length, max_msg_bytes,
}
use justice_flow.Gateway.Frame.Transfer.{arriving}
use justice_flow.Gateway.Handlers.{Env, Served, served, crashes, waits}
use justice_flow.Gateway.Server.{
  Session, out_of_fuel, Round, ends, goes_on, round_sent, round_served, round_received, resume,
  serve_text, client_handler,
}

-- What a read leaves is no longer than what it found, and shorter by what was read with OK.
unfoldable pub Shrinks : ℕ → List RecvEvent → ResultCode × Bytes × List RecvEvent → Type 0
Shrinks need events r = r.0 ≡ ok → length (arriving r.2) + need ≤ length (arriving events)

Shrinks-if :
    (need : ℕ) (events : List RecvEvent) (b : Bool) (p q : ResultCode × Bytes × List RecvEvent)
    → (b ≡ true → Shrinks need events p)
    → (b ≡ false → Shrinks need events q)
    → Shrinks need events (if b then p else q)
Shrinks-if need events true p q h k = h refl
Shrinks-if need events false p q h k = k refl

pub drop-length : (n : ℕ) (s : Bytes) → n ≤ length s → length (drop n s) + n ≡ length s
unfolding drop
drop-length zero s h = omega arith
drop-length (suc n) [] h = absurd (omega (arith, h))
drop-length (suc n) (c ∷ s) h = omega (arith, drop-length n s (omega (arith, h)))

recv_all-Shrinks : (need : ℕ) (events : List RecvEvent) → Shrinks need events (recv_all need events)
unfolding recv_all arriving Shrinks
recv_all-Shrinks zero events = λ e. omega arith
recv_all-Shrinks (suc need) [] = λ e. ground (arith, e)
recv_all-Shrinks (suc need) (recv_interrupted ∷ events) = recv_all-Shrinks (suc need) events
recv_all-Shrinks (suc need) (recv_failed ∷ events) = λ e. ground (arith, e)
recv_all-Shrinks (suc need) (arrived [] ∷ events) = λ e. ground (arith, e)
recv_all-Shrinks (suc need) (arrived (c ∷ s) ∷ events) =
    Shrinks-if (suc need) (arrived (c ∷ s) ∷ events) (ltb need (length s)) _ _
      (λ p e. omega (
        arith,
        length-append (c ∷ s) (arriving events),
        length-append (drop need s) (arriving events),
        drop-length need s (ground (arith, p)),
      ))
      (λ p e. ground (
        arith,
        p,
        length-append (c ∷ s) (arriving events),
        recv_all-Shrinks (need - length s) events e,
      ))

recv_body-Shrinks :
    (r : ResultCode × Bytes × List RecvEvent)
    → (recv_body r).0 ≡ ok
    → (r.0 ≡ ok) × (length (arriving (recv_body r).2) ≤ length (arriving r.2))
unfolding recv_body Shrinks
recv_body-Shrinks (ok, len_buf, events) =
    let n = decode_length len_buf in
    let shrinks =
      Shrinks-if 0 events (eqb n 0 || ltb max_msg_bytes n) (invalid_input, [], events)
        (recv_all n events) (λ p e. ground (arith, e))
        (λ p e. omega (arith, recv_all-Shrinks n events e)) in
    λ e. (refl, omega (arith, shrinks e))
recv_body-Shrinks (rc, len_buf, events) = λ e. ground (arith, e)

pub recv_frame-Shrinks : (events : List RecvEvent) → Shrinks 4 events (recv_frame events)
unfolding recv_frame Shrinks
recv_frame-Shrinks events = λ e.
    let (read, less) = recv_body-Shrinks (recv_all 4 events) e in
    omega (arith, less, recv_all-Shrinks 4 events read)

-- A round that goes on received a frame with OK.
Took : List RecvEvent → Round → Type 0
Took recvs (ends session wire) = session ≢ out_of_fuel
Took recvs (goes_on wire recvs' sends db) = length (arriving recvs') < length (arriving recvs)

round_sent-Took :
    (recvs recvs' : List RecvEvent) (r : Option ResultCode × Bytes × List SendEvent)
    (db : UnixSocket)
    → length (arriving recvs') < length (arriving recvs)
    → Took recvs (round_sent r recvs' db)
unfolding round_sent Took
round_sent-Took recvs recvs' (none, wire, sends) db h = ground arith
round_sent-Took recvs recvs' (some ok, wire, sends) db h = h
round_sent-Took recvs recvs' (some rc, wire, sends) db h = ground arith

round_served-Took :
    (recvs recvs' : List RecvEvent) (s : Served (Bytes × UnixSocket)) (sends : List SendEvent)
    → length (arriving recvs') < length (arriving recvs)
    → Took recvs (round_served s recvs' sends)
unfolding round_served Took
round_served-Took recvs recvs' (served (out, db)) sends h =
    round_sent-Took recvs recvs' (send_frame out sends) db h
round_served-Took recvs recvs' crashes sends h = ground arith
round_served-Took recvs recvs' waits sends h = ground arith

round_received-Took :
    (recvs : List RecvEvent) (env : Env) (r : ResultCode × Bytes × List RecvEvent)
    (sends : List SendEvent) (db : UnixSocket)
    → Shrinks 4 recvs r
    → Took recvs (round_received env r sends db)
unfolding round_received Took Shrinks
round_received-Took recvs env (ok, json, recvs') sends db h =
    round_served-Took recvs recvs' (serve_text env json db) sends (omega (arith, h refl))
round_received-Took recvs env (rc, json, recvs') sends db h = ground arith

resume-ends :
    (fuel : ℕ) (recvs : List RecvEvent) (r : Round)
    (next : List RecvEvent → List SendEvent → UnixSocket → Session × Bytes)
    → length (arriving recvs) < suc fuel
    → ((recvs : List RecvEvent) (sends : List SendEvent) (db : UnixSocket)
        → length (arriving recvs) < fuel
        → (next recvs sends db).0 ≢ out_of_fuel)
    → Took recvs r
    → (resume r next).0 ≢ out_of_fuel
unfolding resume Took
resume-ends fuel recvs (ends session wire) next h later k = k
resume-ends fuel recvs (goes_on wire recvs' sends db) next h later k =
    later recvs' sends db (omega (arith, h, k))

-- However the calls of a connection go, and whatever was sent on it, the thread of a client comes
-- to an end or to a call that waits for ever: one round more than the bytes that arrive is enough.
pub client_handler-ends :
    (fuel i : ℕ) (env : ℕ → Env) (recvs : List RecvEvent) (sends : List SendEvent) (db : UnixSocket)
    → length (arriving recvs) < fuel
    → (client_handler fuel i env recvs sends db).0 ≢ out_of_fuel
unfolding client_handler
client_handler-ends zero i env recvs sends db h = absurd (omega (arith, h))
client_handler-ends (suc fuel) i env recvs sends db h =
    resume-ends fuel recvs (round_received (env i) (recv_frame recvs) sends db)
      (client_handler fuel (suc i) env) h (client_handler-ends fuel (suc i) env)
      (round_received-Took recvs (env i) (recv_frame recvs) sends db (recv_frame-Shrinks recvs))
