-- ===== src/Gateway/Frame/Bounds.antt =====
-- The size of a text that was received.
use justice_flow.Base.{
  ℕ, zero, suc, ◌+◌, ◌-◌, ◌≤◌, ◌<◌, ◌≡◌, refl, Bool, true, false, ◌||◌, inl, inr, List, [], ◌∷◌,
  ◌++◌, Bytes, eqb, ltb, if◌then◌else◌, Bool-cases, length, length-append, arith,
}
use justice_flow.Types.{ResultCode, ok, invalid_input}
use justice_flow.Gateway.Frame.{
  RecvEvent, arrived, recv_interrupted, recv_failed, recv_all, recv_body, recv_frame, decode_length,
  max_msg_bytes,
}
use justice_flow.Gateway.Frame.Transfer.{length-take}

-- A part received has the size asked for, where it is received at all.
IsSized : ℕ → ResultCode × Bytes × List RecvEvent → Type 0
IsSized need r = r.0 ≡ ok → length r.1 ≡ need

IsSized-more :
    (need left : ℕ) (s : Bytes) (r : ResultCode × Bytes × List RecvEvent)
    → length s + left ≡ need
    → IsSized left r
    → IsSized need (r.0, s ++ r.1, r.2)
unfolding IsSized
IsSized-more need left s r h k e = omega (arith, h, k e, length-append s r.1)

IsSized-if :
    (need : ℕ) (b : Bool) (p q : ResultCode × Bytes × List RecvEvent)
    → (b ≡ true → IsSized need p)
    → (b ≡ false → IsSized need q)
    → IsSized need (if b then p else q)
IsSized-if need true p q h k = h refl
IsSized-if need false p q h k = k refl

recv_all-IsSized : (need : ℕ) (events : List RecvEvent) → IsSized need (recv_all need events)
unfolding recv_all IsSized
recv_all-IsSized zero events = λ e. refl
recv_all-IsSized (suc need) [] = λ e. ground (arith, e)
recv_all-IsSized (suc need) (recv_interrupted ∷ events) = recv_all-IsSized (suc need) events
recv_all-IsSized (suc need) (recv_failed ∷ events) = λ e. ground (arith, e)
recv_all-IsSized (suc need) (arrived [] ∷ events) = λ e. ground (arith, e)
recv_all-IsSized (suc need) (arrived (c ∷ s) ∷ events) =
    IsSized-if (suc need) (ltb need (length s)) _ _
      (λ p e. length-take (suc need) (c ∷ s) (ground (arith, p)))
      (λ p.
        IsSized-more (suc need) (need - length s) (c ∷ s) (recv_all (need - length s) events)
          (ground (arith, p)) (recv_all-IsSized (need - length s) events))

HasRange : ResultCode × Bytes × List RecvEvent → Type 0
HasRange r = r.0 ≡ ok → (0 < length r.1) × (length r.1 ≤ max_msg_bytes)

body-HasRange :
    (n : ℕ) (events : List RecvEvent)
    → HasRange
        (if eqb n 0 || ltb max_msg_bytes n then (invalid_input, [], events) else recv_all n events)
unfolding HasRange IsSized
body-HasRange n events = elim (Bool-cases (eqb n 0 || ltb max_msg_bytes n)) [
  | inl p ↦ rw p (λ e. ground (arith, e))
  | inr p ↦ rw p (λ e. ground (arith, p, recv_all-IsSized n events e))
]

recv_body-HasRange : (r : ResultCode × Bytes × List RecvEvent) → HasRange (recv_body r)
unfolding recv_body HasRange
recv_body-HasRange (ok, len_buf, events) = body-HasRange (decode_length len_buf) events
recv_body-HasRange (rc, len_buf, events) = λ e. ground (arith, e)

-- Whatever happens on the connection, a text received with OK has 1 to 65536 bytes.
pub recv_frame_bounds :
    (events : List RecvEvent)
    → (recv_frame events).0 ≡ ok
    → (0 < length (recv_frame events).1) × (length (recv_frame events).1 ≤ max_msg_bytes)
unfolding recv_frame HasRange
recv_frame_bounds events = recv_body-HasRange (recv_all 4 events)
