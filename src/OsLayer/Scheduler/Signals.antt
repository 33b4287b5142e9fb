-- ===== src/OsLayer/Scheduler/Signals.antt =====
-- What src/os_layer/scheduler/src/signal_handler.cpp does with children that ended.
use justice_flow.Base.{
  ℕ, zero, suc, ◌≡◌, refl, sym, subst, ◌∙◌, Bool, some, Option-cases, Bool-cases, inl, inr, ◌∷◌,
  All,
}
use justice_flow.Types.{ok}
use justice_flow.OsLayer.Process.{Registry, Kernel, ExitStatus, none_needed, reap_one, after_wait}
use justice_flow.OsLayer.Scheduler.{
  Pending, handle_drain_request, pending_alarm, pending_children, reap_children,
  process_pending_signals,
}

module _ {K : Type 0} (kernel : Kernel K) where
  -- A child that `waitpid(-1)` has handed out is unknown to the wait in `reapOne`.
  reap_one-again :
      (reg : Registry) (k : K) (pid : ℕ) (s : ExitStatus)
      → (kernel.wait_any k).0 ≡ some (pid, s)
      → reap_one kernel pid reg (kernel.wait_any k).1
        ≡ (ok, none_needed, reg, (kernel.wait_any k).1)
  unfolding reap_one after_wait
  reap_one-again reg k pid s h = rw (kernel.reaped_once k pid s h) refl

  reap_children-unseen :
      (fuel : ℕ) (reg : Registry) (k : K)
      → ((reap_children kernel fuel reg k).1 ≡ reg)
        × All (λ a. a ≡ none_needed) (reap_children kernel fuel reg k).0
  unfolding reap_children
  reap_children-unseen zero reg k = (refl, tt)
  reap_children-unseen (suc fuel) reg k = elim (Option-cases (kernel.wait_any k).0) [
    | inl e ↦ rw (reap_children, e) (refl, tt)
    | inr (child, e) ↦
        let rest = reap_children-unseen fuel reg (kernel.wait_any k).1 in
        rw (reap_children, e)
          (subst
            (λ r.
              ((reap_children kernel fuel r.2 r.3).1 ≡ reg)
              × All (λ a. a ≡ none_needed) (r.1 ∷ (reap_children kernel fuel r.2 r.3).0))
            (sym (reap_one-again reg k child.0 child.1 e)) (rest.0, (refl, rest.1)))
  ]

  pending_alarm-registry :
      (throws_at : ℕ → Bool) (p : Pending K)
      → (pending_alarm kernel throws_at p).registry ≡ p.registry
  unfolding pending_alarm
  pending_alarm-registry throws_at p = elim (Bool-cases p.alarm_pending) [
    | inl e ↦ rw e refl
    | inr e ↦ rw e refl
  ]

  pending_children-registry :
      (fuel : ℕ) (p : Pending K) → (pending_children kernel fuel p).registry ≡ p.registry
  unfolding pending_children
  pending_children-registry fuel p = elim (Bool-cases p.chld_pending) [
    | inl e ↦ rw e (reap_children-unseen fuel p.registry p.kernel_state).0
    | inr e ↦ rw e refl
  ]

-- Between two rounds of the main loop no record of a child changes, whatever signals came and
-- whichever children ended.
pub process_pending-registry :
    {K : Type 0} (kernel : Kernel K) (fuel : ℕ) (throws_at : ℕ → Bool) (p : Pending K)
    → (process_pending_signals kernel fuel throws_at p).registry ≡ p.registry
unfolding process_pending_signals
process_pending-registry kernel fuel throws_at p =
    let drained = record p { scheduler = (handle_drain_request p.scheduler).0 } in
    pending_children-registry kernel fuel (pending_alarm kernel throws_at drained)
    ∙ pending_alarm-registry kernel throws_at drained
