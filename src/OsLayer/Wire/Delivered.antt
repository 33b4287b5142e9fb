-- ===== src/OsLayer/Wire/Delivered.antt =====
-- A frame of src/os_layer/threading/src/worker.cpp from the writer to the reader.
use justice_flow.Base.{
  ℕ, zero, suc, ◌-◌, ◌^◌, ◌≤◌, ◌<◌, ◌≡◌, refl, sym, ap, subst, ◌∙◌, true, Option, some, List, [],
  ◌∷◌, ◌++◌, Bytes, ltb, leb, length, append_assoc, append-nil, absurd, arith,
}
use justice_flow.Gateway.Frame.{RecvEvent, arrived, take, drop, encode_length, decode_length}
use justice_flow.Gateway.Frame.RoundTrip.{decode-encode}
use justice_flow.OsLayer.Wire.{
  Connection, read_some, read_payload, checked_payload, read_header, read_frame, written,
  after_header, write_frame, frame_header_size, max_frame_size,
}

abbrev pub header : ℕ → Bytes → Bytes
header type payload = encode_length (length payload) ++ encode_length type

abbrev pub frame : ℕ → Bytes → Bytes
frame type payload = header type payload ++ payload

take-more : (s : Bytes) (n : ℕ) → length s ≤ n → take n s ≡ s
unfolding take
take-more [] zero h = refl
take-more [] (suc n) h = refl
take-more (c ∷ s) zero h = absurd (omega (arith, h))
take-more (c ∷ s) (suc n) h = ap (λ t. c ∷ t) (take-more s n (omega (arith, h)))

written-all :
    (s : Bytes) (c : Connection) (n : ℕ) (more : List (Option ℕ))
    → length s ≤ n
    → written s c (some n ∷ more) ≡ (true, record c { writes = more; sent = c.sent ++ s })
unfolding written
written-all s c n more h =
    let taken : leb (length s) n ≡ true = ground (arith, h) in rw (taken, take-more s n h) refl

after_header-sent :
    (payload : Bytes) (c : Connection) (n : ℕ) (more : List (Option ℕ))
    → c.writes ≡ some n ∷ more
    → length payload ≤ n
    → ((after_header payload (true, c)).0 ≡ true)
      × ((after_header payload (true, c)).1.sent ≡ c.sent ++ payload)
unfolding after_header
after_header-sent [] c n more w h = (refl, sym (append-nil c.sent))
after_header-sent (b ∷ payload) c n more w h =
    subst (λ r. (r.0 ≡ true) × (r.1.sent ≡ c.sent ++ (b ∷ payload)))
      (sym (ap (written (b ∷ payload) c) w ∙ written-all (b ∷ payload) c n more h)) (refl, refl)

-- Where each of the two calls takes all that it is given, the frame goes out.
pub write_frame-sent :
    (type : ℕ) (payload : Bytes) (c : Connection) (m n : ℕ) (more : List (Option ℕ))
    → c.writes ≡ some m ∷ some n ∷ more
    → frame_header_size ≤ m
    → length payload ≤ n
    → ((write_frame type payload c).0 ≡ true)
      × ((write_frame type payload c).1.sent ≡ c.sent ++ frame type payload)
unfolding write_frame
write_frame-sent type payload c m n more w h k =
    let c' = record c { writes = some n ∷ more; sent = c.sent ++ header type payload } in
    let first : written (header type payload) c c.writes ≡ (true, c') =
      rw w (written-all (header type payload) c m (some n ∷ more) h) in
    let last = after_header-sent payload c' n more refl k in
    rw first (last.0, last.1 ∙ append_assoc c.sent (header type payload) payload)

-- The payload has arrived.
checked_payload-read :
    (type : ℕ) (payload : Bytes) (events : List RecvEvent)
    → 0 < length payload
    → length payload ≤ max_frame_size - frame_header_size
    → checked_payload (length payload) type (arrived payload ∷ events)
      ≡ (some (type, payload), events)
unfolding checked_payload read_some read_payload
checked_payload-read type payload events h k = ground (arith, h, k)

-- A frame written whole, with 1 to 65528 bytes of payload, that arrives in one piece is read with its type
-- and its payload.
pub frame_delivered :
    (type : ℕ) (payload : Bytes) (c : Connection) (m n : ℕ) (more : List (Option ℕ))
    (events : List RecvEvent)
    → type < 2 ^ 32
    → 0 < length payload
    → length payload ≤ max_frame_size - frame_header_size
    → c.writes ≡ some m ∷ some n ∷ more
    → c.sent ≡ []
    → frame_header_size ≤ m
    → length payload ≤ n
    → read_frame (arrived (write_frame type payload c).1.sent ∷ events)
      ≡ (some (type, payload), events)
unfolding read_frame read_header read_some take drop
frame_delivered type payload c m n more events small some_bytes fits w s h k =
    let sent = (write_frame-sent type payload c m n more w h k).1 in
    let events' = arrived payload ∷ events in
    let large : ltb frame_header_size (length (frame type payload)) ≡ true =
      ground (arith, some_bytes) in
    let read : read_header (some (header type payload), events') ≡ (some (type, payload), events) =
      ap (λ i. checked_payload i (decode_length (encode_length type)) events')
        (decode-encode (length payload) (omega (arith, fits)))
      ∙ (ap (λ t. checked_payload (length payload) t events') (decode-encode type small)
          ∙ checked_payload-read type payload events some_bytes fits) in
    rw (sent, s) (rw large read)
