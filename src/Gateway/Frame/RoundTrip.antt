-- ===== src/Gateway/Frame/RoundTrip.antt =====
-- A text sent in a frame is received again, whatever pieces the calls take and give.
use justice_flow.Base.{
  ℕ, ◌%◌, ◌^◌, ◌≤◌, ◌<◌, ◌≡◌, refl, ap, ◌∙◌, Option, some, List, [], ◌∷◌, ◌++◌, Bytes, length,
  length-append, absurd, arith,
}
use justice_flow.Types.{ResultCode, ok}
use justice_flow.Gateway.Frame.{
  RecvEvent, SendEvent, take, recv_all, recv_body, recv_frame, send_all, send_body, send_frame,
  encode_length, decode_length, max_msg_bytes,
}
use justice_flow.Gateway.Frame.Transfer.{
  arriving, IsCalm, Received, recv_all-Received, send_all-done,
}

append-inj : (a b x y : Bytes) → length a ≡ length b → a ++ x ≡ b ++ y → (a ≡ b) × (x ≡ y)
append-inj [] [] x y h e = (refl, e)
append-inj [] (c ∷ b) x y h e = absurd (omega (arith, h))
append-inj (c ∷ a) [] x y h e = absurd (omega (arith, h))
append-inj (c ∷ a) (d ∷ b) x y h e =
    let rest = append-inj a b x y (omega (arith, h)) (ground (arith, e)) in ground (arith, e, rest)

take-all : (s : Bytes) → take (length s) s ≡ s
unfolding take
take-all [] = refl
take-all (c ∷ s) = ap (λ t. c ∷ t) (take-all s)

pub decode-encode : (n : ℕ) → n < 2 ^ 32 → decode_length (encode_length n) ≡ n
decode-encode n h = omega arith

-- What went out where the sending of a frame returns OK.
send_body-done :
    (text : Bytes) (r : Option ResultCode × Bytes × List SendEvent)
    → (send_body text r).0 ≡ some ok
    → (r.0 ≡ some ok) × ((send_body text r).1 ≡ r.1 ++ text)
unfolding send_body
send_body-done text (some ok, wire, events) e =
    (refl, ap (λ t. wire ++ t) (send_all-done text events e))
send_body-done text r e = ground (arith, e)

send_both-done :
    (n : ℕ) (text : Bytes) (events : List SendEvent)
    → (send_body text (send_all (encode_length n) events)).0 ≡ some ok
    → (send_body text (send_all (encode_length n) events)).1 ≡ encode_length n ++ text
send_both-done n text events e =
    let (sent, both) = send_body-done text (send_all (encode_length n) events) e in
    both ∙ ap (λ t. t ++ text) (send_all-done (encode_length n) events sent)

pub send_frame-done :
    (json : Bytes) (events : List SendEvent)
    → length json < 2 ^ 32
    → (send_frame json events).0 ≡ some ok
    → (send_frame json events).1 ≡ encode_length (length json) ++ json
unfolding send_frame
send_frame-done json events h e =
    let small : length json % 2 ^ 32 ≡ length json = omega (arith, h) in
    send_both-done (length json % 2 ^ 32) (take (length json % 2 ^ 32) json) events e
    ∙ (ap (λ n. encode_length n ++ take n json) small
        ∙ ap (λ t. encode_length (length json) ++ t) (take-all json))

recv_body-in_range :
    (n : ℕ) (len_buf : Bytes) (events : List RecvEvent)
    → 0 < n
    → n ≤ max_msg_bytes
    → decode_length len_buf ≡ n
    → recv_body (ok, len_buf, events) ≡ recv_all n events
unfolding recv_body
recv_body-in_range n len_buf events h k e = rw e (ground (arith, h, k))

-- A frame that arrived: its code, its text and what comes behind it.
unfoldable pub Gives : Bytes → Bytes → ResultCode × Bytes × List RecvEvent → Type 0
Gives json more r = (r.0 ≡ ok) × (r.1 ≡ json) × (arriving r.2 ≡ more) × IsCalm r.2

Received-Gives :
    (json more : Bytes) (events : List RecvEvent) (r : ResultCode × Bytes × List RecvEvent)
    → Received (length json) events r
    → arriving events ≡ json ++ more
    → Gives json more r
unfolding Received Gives
Received-Gives json more events r (a, b, c, d) e =
    let (same, behind) = append-inj r.1 json (arriving r.2) more b (c ∙ e) in (a, same, behind, d)

enough :
    (a b : Bytes) (events : List RecvEvent)
    → arriving events ≡ a ++ b
    → length a ≤ length (arriving events)
enough a b events e = rw e (omega (arith, length-append a b))

-- A body behind the length that was sent.
recv_body-sent :
    (json more : Bytes) (r : ResultCode × Bytes × List RecvEvent)
    → 0 < length json
    → length json ≤ max_msg_bytes
    → Gives (encode_length (length json)) (json ++ more) r
    → Gives json more (recv_body r)
unfolding Gives
recv_body-sent json more r h k (a, b, c, d) =
    let n = length json in
    let read : recv_body r ≡ recv_all n r.2 =
      ap (λ rc. recv_body (rc, r.1, r.2)) a
      ∙ recv_body-in_range n r.1 r.2 h k
          (ap decode_length b ∙ decode-encode n (omega (arith, k))) in
    rw read (
      Received-Gives json more r.2 (recv_all n r.2)
        (recv_all-Received n r.2 d (enough json more r.2 c)) c)

pub frame_received :
    (json more : Bytes) (events : List RecvEvent)
    → 0 < length json
    → length json ≤ max_msg_bytes
    → IsCalm events
    → arriving events ≡ encode_length (length json) ++ (json ++ more)
    → Gives json more (recv_frame events)
unfolding recv_frame
frame_received json more events h k calm there = recv_body-sent json more (recv_all 4 events) h k (
    Received-Gives (encode_length (length json)) (json ++ more) events (recv_all 4 events)
      (recv_all-Received 4 events calm
        (enough (encode_length (length json)) (json ++ more) events there))
      there)
