-- ===== src/OsLayer/Scheduler/Ticks.antt =====
-- The ticks of src/os_layer/scheduler/src/scheduler.cpp against timers that count down.
use justice_flow.Base.{
  ℕ, zero, suc, ◌+◌, ◌-◌, ◌<◌, ◌≡◌, refl, Bool, true, false, List, [], ◌∷◌, ◌++◌, All, map, eqb,
  leb, if◌then◌else◌, Bool-cases, inl, inr, arith,
}
use justice_flow.OsLayer.Scheduler.{
  Scheduler, running, Job, Notice, job_result, fire_from, tick_running, tick,
}

-- A timer: the ticks from one run to the next, and those left to the next one.
abbrev pub Timer : Type 0
Timer = ℕ × ℕ

abbrev pub IsLive : Timer → Type 0
IsLive t = (0 < t.0) × (0 < t.1)

abbrev count_down : Timer → Timer
count_down t = if eqb t.1 1 then (t.0, t.0) else (t.0, t.1 - 1)

-- The timers as jobs at tick `now`.
pub jobs_at : ℕ → List Timer → List Job
jobs_at now [] = []
jobs_at now (t ∷ timers) =
    record { interval_ticks = t.0; next_fire_tick = now + t.1 } ∷ jobs_at now timers

-- The calls of the observers for the timers at their last tick, in order.
pub calls : (ℕ → Bool) → List ℕ → ℕ → List Timer → List Notice
calls throws_at observers i [] = []
calls throws_at observers i (t ∷ timers) =
    let rest = calls throws_at observers (suc i) timers in
    if eqb t.1 1 then map (λ obs. (obs, i, job_result (throws_at i))) observers ++ rest else rest

fire_from-timers :
    (throws_at : ℕ → Bool) (now : ℕ) (observers : List ℕ) (i : ℕ) (timers : List Timer)
    → All IsLive timers
    → fire_from throws_at (suc now) observers i (jobs_at now timers)
      ≡ (jobs_at (suc now) (map count_down timers), calls throws_at observers i timers)
unfolding fire_from jobs_at calls
fire_from-timers throws_at now observers i [] h = refl
fire_from-timers throws_at now observers i (t ∷ timers) h = elim (Bool-cases (eqb t.1 1)) [
  | inl e ↦
      let due : leb (now + t.1) (suc now) ≡ true = ground (arith, e) in
      rw (fire_from-timers throws_at now observers (suc i) timers h.1, e, due) refl
  | inr e ↦
      let not_due : leb (now + t.1) (suc now) ≡ false = ground (arith, e, h) in
      let next : suc now + (t.1 - 1) ≡ now + t.1 = omega (arith, h.0.1) in
      rw (fire_from-timers throws_at now observers (suc i) timers h.1, e, not_due, next) refl
]

count_down-IsLive : (timers : List Timer) → All IsLive timers → All IsLive (map count_down timers)
count_down-IsLive [] h = tt
count_down-IsLive (t ∷ timers) h = (ground (arith, h), count_down-IsLive timers h.1)

-- Ticks in a row: tick number n from the first of them on throws as `throws_at n` says.
pub ticks : ℕ → ℕ → (ℕ → ℕ → Bool) → Scheduler → Scheduler × List Notice
unfolding tick
ticks zero n throws_at s = (s, [])
ticks (suc count) n throws_at s =
    let first = tick (throws_at n) s in
    let rest = ticks count (suc n) throws_at first.0 in (rest.0, first.1 ++ rest.1)

pub timer_ticks : ℕ → ℕ → (ℕ → ℕ → Bool) → List ℕ → List Timer → List Timer × List Notice
unfolding calls
timer_ticks zero n throws_at observers timers = (timers, [])
timer_ticks (suc count) n throws_at observers timers =
    let rest = timer_ticks count (suc n) throws_at observers (map count_down timers) in
    (rest.0, calls (throws_at n) observers 0 timers ++ rest.1)

-- A running scheduler at tick `now` with these timers.
pub run_with : ℕ → Bool → List ℕ → List Timer → Scheduler
unfolding jobs_at
run_with now drain observers timers = record {
  state = running;
  drain_requested = drain;
  current_tick = now;
  jobs = jobs_at now timers;
  observers = observers;
}

-- A running scheduler runs its jobs and calls its observers as timers that count down do: each job
-- at every interval from its first run on, in the order of their registration.
pub ticks-timers :
    (count n now : ℕ) (throws_at : ℕ → ℕ → Bool) (drain : Bool) (observers : List ℕ)
    (timers : List Timer)
    → All IsLive timers
    → ticks count n throws_at (run_with now drain observers timers) ≡ (
      run_with (count + now) drain observers (timer_ticks count n throws_at observers timers).0,
      (timer_ticks count n throws_at observers timers).1,
    )
unfolding ticks timer_ticks run_with tick tick_running
ticks-timers zero n now throws_at drain observers timers h =
    let same : 0 + now ≡ now = omega arith in rw same refl
ticks-timers (suc count) n now throws_at drain observers timers h =
    let later : count + suc now ≡ suc count + now = omega arith in
    rw
      (
        fire_from-timers (throws_at n) now observers 0 timers h,
        ticks-timers count (suc n) (suc now) throws_at drain observers (map count_down timers)
            (count_down-IsLive timers h),
        later,
      )
      refl
