-- ===== src/Gateway/Frame/Transfer.antt =====
-- The loops around `recv` and `send`, whatever pieces the bytes travel in.
use justice_flow.Base.{
  ℕ, zero, suc, ◌+◌, ◌-◌, ◌≤◌, ◌<◌, ◌≡◌, refl, sym, ap, ◌∙◌, some, inl, inr, List, [], ◌∷◌, ◌++◌,
  append_assoc, Bytes, ltb, Bool-cases, length, length-append, absurd, arith,
}
use justice_flow.Types.{ResultCode, ok}
use justice_flow.Gateway.Frame.{
  RecvEvent, arrived, recv_interrupted, recv_failed, take, drop, recv_all, SendEvent, taken,
  send_interrupted, send_failed, send_all,
}

-- The bytes that the events bring.
unfoldable pub arriving : List RecvEvent → Bytes
arriving [] = []
arriving (arrived s ∷ events) = s ++ arriving events
arriving (recv_interrupted ∷ events) = arriving events
arriving (recv_failed ∷ events) = arriving events

-- No call fails, and the peer closes after the last event only.
unfoldable pub IsCalm : List RecvEvent → Type 0
IsCalm [] = Unit
IsCalm (arrived [] ∷ events) = ⊥
IsCalm (arrived (c ∷ s) ∷ events) = IsCalm events
IsCalm (recv_interrupted ∷ events) = IsCalm events
IsCalm (recv_failed ∷ events) = ⊥

take-drop : (n : ℕ) (s : Bytes) → take n s ++ drop n s ≡ s
unfolding take drop
take-drop zero s = refl
take-drop (suc n) [] = refl
take-drop (suc n) (c ∷ s) = ap (λ t. c ∷ t) (take-drop n s)

pub length-take : (n : ℕ) (s : Bytes) → n ≤ length s → length (take n s) ≡ n
unfolding take
length-take zero s h = refl
length-take (suc n) [] h = absurd (omega (arith, h))
length-take (suc n) (c ∷ s) h = omega (arith, length-take n s (omega (arith, h)))

drop-IsCalm :
    (n : ℕ) (s : Bytes) (events : List RecvEvent)
    → n < length s
    → IsCalm events
    → IsCalm (arrived (drop n s) ∷ events)
unfolding drop IsCalm
drop-IsCalm n [] events h k = absurd (omega (arith, h))
drop-IsCalm zero (c ∷ s) events h k = k
drop-IsCalm (suc n) (c ∷ s) events h k = drop-IsCalm n s events (omega (arith, h)) k

-- What a read of `need` bytes gave: exactly these, and what comes next is what was behind them.
unfoldable pub Received : ℕ → List RecvEvent → ResultCode × Bytes × List RecvEvent → Type 0
Received need events r =
    (r.0 ≡ ok) × (length r.1 ≡ need) × (r.1 ++ arriving r.2 ≡ arriving events) × IsCalm r.2

Received-more :
    (need left : ℕ) (s : Bytes) (events : List RecvEvent) (r : ResultCode × Bytes × List RecvEvent)
    → length s + left ≡ need
    → Received left events r
    → Received need (arrived s ∷ events) (r.0, s ++ r.1, r.2)
unfolding Received arriving
Received-more need left s events r h (a, b, c, d) = (
  a,
  omega (arith, h, b, length-append s r.1),
  append_assoc s r.1 (arriving r.2) ∙ ap (λ t. s ++ t) c,
  d,
)

Received-part :
    (need : ℕ) (s : Bytes) (events : List RecvEvent)
    → need < length s
    → IsCalm events
    → Received need (arrived s ∷ events) (ok, take need s, arrived (drop need s) ∷ events)
unfolding Received arriving
Received-part need s events h k = (
  refl,
  length-take need s (omega (arith, h)),
  sym (append_assoc (take need s) (drop need s) (arriving events))
      ∙ ap (λ t. t ++ arriving events) (take-drop need s),
  drop-IsCalm need s events h k,
)

pub recv_all-Received :
    (need : ℕ) (events : List RecvEvent)
    → IsCalm events
    → need ≤ length (arriving events)
    → Received need events (recv_all need events)
unfolding recv_all arriving IsCalm Received
recv_all-Received zero events h k = (refl, refl, refl, h)
recv_all-Received (suc need) [] h k = absurd (omega (arith, k))
recv_all-Received (suc need) (arrived [] ∷ events) h k = absurd h
recv_all-Received (suc need) (recv_interrupted ∷ events) h k =
    recv_all-Received (suc need) events h k
recv_all-Received (suc need) (recv_failed ∷ events) h k = absurd h
recv_all-Received (suc need) (arrived (c ∷ s) ∷ events) h k =
    elim (Bool-cases (ltb need (length s))) [
      | inl e ↦ rw e (Received-part (suc need) (c ∷ s) events (ground (arith, e)) h)
      | inr e ↦ rw e (
          Received-more (suc need) (need - length s) (c ∷ s) events
            (recv_all (need - length s) events) (ground (arith, e))
            (recv_all-Received (need - length s) events h
              (omega (arith, k, length-append (c ∷ s) (arriving events)))))
    ]

-- Where a send of some bytes is done, these bytes are on the wire.
pub send_all-done :
    (s : Bytes) (events : List SendEvent)
    → (send_all s events).0 ≡ some ok
    → (send_all s events).1 ≡ s
unfolding send_all
send_all-done [] events e = refl
send_all-done (c ∷ s) [] e = ground (arith, e)
send_all-done (c ∷ s) (taken n ∷ events) e =
    ap (λ t. take n (c ∷ s) ++ t) (send_all-done (drop n (c ∷ s)) events e) ∙ take-drop n (c ∷ s)
send_all-done (c ∷ s) (send_interrupted ∷ events) e = send_all-done (c ∷ s) events e
send_all-done (c ∷ s) (send_failed ∷ events) e = ground (arith, e)
