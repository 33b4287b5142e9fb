-- ===== src/OsLayer/Process/Shutdown.antt =====
-- The shutdown of the children in src/os_layer/process/src/process_manager.cpp ends.
use justice_flow.Base.{
  ℕ, zero, suc, ◌+◌, ◌≤◌, ◌≡◌, refl, subst, true, false, some, List, [], ◌∷◌, leb, leb_iff,
  Bool-cases, inl, inr, arith, Bool, All, eqb, if◌then◌else◌,
}
use justice_flow.Types.{ok}
use justice_flow.OsLayer.UnixSocket.{returns}
use justice_flow.OsLayer.Process.{
  Registry, Kernel, shutdown_timeout_sec, reaped, update_state, is_reaped, is_kept, send_signal,
  reap_killed, reap_loop, reap_round, reap_all, get_all_pids, send_all, kill_left,
}

-- No process id is 0, for which `sendSignal` sends nothing.
abbrev pub AllChildren : List ℕ → Type 0
AllChildren pids = All (λ pid. eqb pid 0 ≡ false) pids

module _ {K : Type 0} (kernel : Kernel K) where
  reap_round-AllChildren :
      (pids : List ℕ) (reg : Registry) (k : K)
      → AllChildren pids
      → AllChildren (reap_round kernel pids reg k).0
  unfolding reap_round
  reap_round-AllChildren [] reg k h = tt
  reap_round-AllChildren (pid ∷ pids) reg k h =
      let answer = kernel.wait_one pid k in
      let rest =
        reap_round-AllChildren pids
          (if is_reaped answer.0 then (update_state pid reaped reg).1 else reg) answer.1 h.1 in
      elim (Bool-cases (is_kept answer.0)) [ inl e ↦ rw e (h.0, rest) | inr e ↦ rw e rest ]

module _ {K : Type 0} (kernel : Kernel K) (elapsed : ℕ → ℕ) where
  reap_loop-ends :
      (n i : ℕ) (left : List ℕ) (reg : Registry) (k : K)
      → shutdown_timeout_sec ≤ elapsed (i + n)
      → AllChildren left
      → (r : List ℕ × Registry × K) × (reap_loop kernel (suc n) i elapsed left reg k ≡ some r)
        × AllChildren r.0
  unfolding reap_loop
  reap_loop-ends n i [] reg k h all = (([], reg, k), refl, tt)
  reap_loop-ends zero i (pid ∷ pids) reg k h all =
      let same : i + 0 ≡ i = omega arith in
      let late : leb shutdown_timeout_sec (elapsed i) ≡ true =
        (leb_iff _ _).1 (subst (λ j. shutdown_timeout_sec ≤ elapsed j) same h) in
      ((pid ∷ pids, reg, k), rw (reap_loop, late) refl, all)
  reap_loop-ends (suc n) i (pid ∷ pids) reg k h all =
      elim (Bool-cases (leb shutdown_timeout_sec (elapsed i))) [
        | inl e ↦ ((pid ∷ pids, reg, k), rw (reap_loop, e) refl, all)
        | inr e ↦
            let next : i + suc n ≡ suc i + n = omega arith in
            let round = reap_round kernel (pid ∷ pids) reg k in
            let (r, later, kept) =
              reap_loop-ends n (suc i) round.0 round.1 round.2
                (subst (λ j. shutdown_timeout_sec ≤ elapsed j) next h)
                (reap_round-AllChildren kernel (pid ∷ pids) reg k all) in
            (r, rw (reap_loop, e) later, kept)
      ]

-- What is documented of a child that SIGKILL was sent to, where the sender may signal its children: it ends
-- whatever it does, and so a wait for it returns, also behind signals to others and waits for others.
pub record SigkillEnds {K : Type 0} (kernel : Kernel K) : Type 0 where
  pub ending : ℕ → K → Bool
  pub killed : (pid : ℕ) (k : K) → ending pid (kernel.kill pid true k).1 ≡ true
  pub kept_by_kill :
      (pid other : ℕ) (k : K) → ending pid k ≡ true → ending pid (kernel.kill other true k).1 ≡ true
  pub kept_by_wait :
      (pid other : ℕ) (k : K) (x : Bool × K)
      → ending pid k ≡ true
      → kernel.wait_blocking other k ≡ returns x
      → ending pid x.1 ≡ true
  pub waited :
      (pid : ℕ) (k : K)
      → ending pid k ≡ true
      → (x : Bool × K) × (kernel.wait_blocking pid k ≡ returns x)

module _ {K : Type 0} (kernel : Kernel K) (ends : SigkillEnds kernel) where
  send_all-ending :
      (pids : List ℕ) (pid : ℕ) (k : K)
      → ends.ending pid k ≡ true
      → ends.ending pid (send_all kernel pids true k) ≡ true
  unfolding send_all send_signal
  send_all-ending [] pid k h = h
  send_all-ending (p ∷ ps) pid k h = elim (Bool-cases (eqb p 0)) [
    | inl e ↦ rw e (send_all-ending ps pid k h)
    | inr e ↦ rw e (send_all-ending ps pid (kernel.kill p true k).1 (ends.kept_by_kill pid p k h))
  ]

  send_all-kills :
      (pids : List ℕ) (k : K)
      → AllChildren pids
      → All (λ pid. ends.ending pid (send_all kernel pids true k) ≡ true) pids
  unfolding send_all send_signal
  send_all-kills [] k h = tt
  send_all-kills (p ∷ ps) k h = (
    send_all-ending ps p (send_signal kernel p true k).1 (rw h.0 (ends.killed p k)),
    send_all-kills ps (send_signal kernel p true k).1 h.1,
  )

  All-ending :
      (pids : List ℕ) (k k' : K)
      → ((pid : ℕ) → ends.ending pid k ≡ true → ends.ending pid k' ≡ true)
      → All (λ pid. ends.ending pid k ≡ true) pids
      → All (λ pid. ends.ending pid k' ≡ true) pids
  All-ending [] k k' keep h = tt
  All-ending (p ∷ ps) k k' keep h = (keep p h.0, All-ending ps k k' keep h.1)

  reap_killed-returns :
      (pids : List ℕ) (reg : Registry) (k : K)
      → All (λ pid. ends.ending pid k ≡ true) pids
      → (r : Registry × K) × (reap_killed kernel pids reg k ≡ returns r)
  unfolding reap_killed
  reap_killed-returns [] reg k h = ((reg, k), refl)
  reap_killed-returns (p ∷ ps) reg k h =
      let (x, e) = ends.waited p k h.0 in
      let (r, later) =
        reap_killed-returns ps (if x.0 then (update_state p reaped reg).1 else reg) x.1
          (All-ending ps k x.1 (λ q hq. ends.kept_by_wait q p k x hq e) h.1) in
      (r, rw (reap_killed, e) later)

-- Where SIGKILL ends the children and no process id is 0: once a round reads ten seconds on the clock, the
-- shutdown of the children has ended and returned OK, whatever else the children and the kernel do.
pub reap_all-ends :
    {K : Type 0} (kernel : Kernel K) (elapsed : ℕ → ℕ) (n : ℕ) (reg : Registry) (k : K)
    → SigkillEnds kernel
    → AllChildren (get_all_pids reg)
    → shutdown_timeout_sec ≤ elapsed n
    → (r : Registry × K) × (reap_all kernel (suc n) elapsed reg k ≡ some (returns (ok, r.0, r.1)))
unfolding reap_all kill_left
reap_all-ends kernel elapsed n reg k ends children h =
    let same : n ≡ 0 + n = omega arith in
    let (r, e, left) =
      reap_loop-ends kernel elapsed n 0 (get_all_pids reg) reg
        (send_all kernel (get_all_pids reg) false k)
        (subst (λ j. shutdown_timeout_sec ≤ elapsed j) same h) children in
    let (after, done) =
      reap_killed-returns kernel ends r.0 r.1 (send_all kernel r.0 true r.2)
        (send_all-kills kernel ends r.0 r.2 left) in
    (after, rw (reap_all, e, done) refl)
