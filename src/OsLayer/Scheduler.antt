-- ===== src/OsLayer/Scheduler.antt =====
-- src/os_layer/scheduler/src/scheduler.cpp and signal_handler.cpp: the ticks of the jobs, the drain,
-- and the flags that signals set. What a job's `execute` does is an argument: whether it throws. The
-- tick counters are numbers: 2^31 seconds are out of reach.
pub mod Ticks
pub mod Signals
mod Tests
use justice_flow.Base.{
  ℕ, zero, suc, ◌+◌, ◌≡◌, Bool, true, false, Option, none, some, List, [], ◌∷◌, ◌++◌, ltb, leb,
  length, map, if◌then◌else◌,
}
use justice_flow.Types.{ResultCode, ok, invalid_state}
use justice_flow.OsLayer.Process.{Registry, Kernel, ExitStatus, ProcessAction, reap_one}

pub data SchedulerState : Type 0 where
  initializing running draining stopped : SchedulerState

pub record Job : Type 0 where
  pub interval_ticks : ℕ
  pub next_fire_tick : ℕ

-- `Job(interval)`.
abbrev pub make_job : ℕ → Job
make_job interval = record { interval_ticks = interval; next_fire_tick = interval }

abbrev pub max_jobs : ℕ
max_jobs = 32

-- `jobs` is the part of the registry below `job_count`; observers are numbered.
pub record Scheduler : Type 0 where
  pub state : SchedulerState
  pub drain_requested : Bool
  pub current_tick : ℕ
  pub jobs : List Job
  pub observers : List ℕ

pub initial : Scheduler
initial = record {
  state = initializing;
  drain_requested = false;
  current_tick = 0;
  jobs = [];
  observers = [];
}

unfoldable pub register_job : Job → Scheduler → Scheduler
register_job job s =
    if ltb (length s.jobs) max_jobs then record s { jobs = s.jobs ++ (job ∷ []) } else s

unfoldable pub register_observer : ℕ → Scheduler → Scheduler
register_observer obs s = record s { observers = s.observers ++ (obs ∷ []) }

-- A call of an observer: the observer, the job's place, the result.
abbrev pub Notice : Type 0
Notice = ℕ × ℕ × ResultCode

abbrev job_result : Bool → ResultCode
job_result thrown = if thrown then invalid_state else ok

-- The loop over the jobs from place i on: the jobs after it, and the calls in their order.
unfoldable pub fire_from : (ℕ → Bool) → ℕ → List ℕ → ℕ → List Job → List Job × List Notice
fire_from throws_at now observers i [] = ([], [])
fire_from throws_at now observers i (job ∷ jobs) =
    let rest = fire_from throws_at now observers (suc i) jobs in
    if leb job.next_fire_tick now
    then (
      record job { next_fire_tick = now + job.interval_ticks } ∷ rest.0,
      map (λ obs. (obs, i, job_result (throws_at i))) observers ++ rest.1,
    )
    else (job ∷ rest.0, rest.1)

-- `throws_at i`: whether the job at place i throws in this tick.
unfoldable pub tick_running : (ℕ → Bool) → Scheduler → Scheduler × List Notice
unfolding fire_from
tick_running throws_at s =
    let now = suc s.current_tick in
    let fired = fire_from throws_at now s.observers 0 s.jobs in
    (record s { current_tick = now; jobs = fired.0 }, fired.1)

unfoldable pub tick : (ℕ → Bool) → Scheduler → Scheduler × List Notice
unfolding tick_running
tick throws_at s = elim s.state [
  | running ↦ tick_running throws_at s
  | initializing ↦ (s, [])
  | draining ↦ (s, [])
  | stopped ↦ (s, [])
]

unfoldable pub set_state : SchedulerState → Scheduler → Scheduler
set_state new_state s = record s { state = new_state }

unfoldable pub request_drain : Scheduler → Scheduler
request_drain s = record s { drain_requested = true }

-- With whether the teardown ran: the timer, the children, the pool and the connection.
unfoldable pub handle_drain_request : Scheduler → Scheduler × Bool
unfolding set_state
handle_drain_request s =
    if s.drain_requested
    then (set_state stopped (set_state draining (record s { drain_requested = false })), true)
    else (s, false)

-- What a signal's handler sets, and the state of a run between two rounds of the main loop.
pub data Signal : Type 0 where
  sigalrm sigchld sigterm sigint sighup : Signal

pub record Pending (K : Type 0) : Type 0 where
  pub alarm_pending : Bool
  pub chld_pending : Bool
  pub scheduler : Scheduler
  pub registry : Registry
  pub kernel_state : K

-- `master_handler`; SIGHUP calls a function that the daemon sets, and which is not in this model.
unfoldable pub master_handler : {K : Type 0} → Signal → Pending K → Pending K
unfolding request_drain
master_handler sigalrm p = record p { alarm_pending = true }
master_handler sigchld p = record p { chld_pending = true }
master_handler sigterm p = record p { scheduler = request_drain p.scheduler }
master_handler sigint p = record p { scheduler = request_drain p.scheduler }
master_handler sighup p = p

module _ {K : Type 0} (kernel : Kernel K) where
  -- The loop over `waitpid(-1)`, with what `reapOne` decided for each child. A child is handed out
  -- in each round, so fuel for the children is enough.
  unfoldable pub reap_children : ℕ → Registry → K → List ProcessAction × Registry × K
  unfolding reap_one
  reap_children zero reg k = ([], reg, k)
  reap_children (suc fuel) reg k = elim (kernel.wait_any k).0 [
    | none ↦ ([], reg, (kernel.wait_any k).1)
    | some child ↦
        let (rc, action, reg', k') = reap_one kernel child.0 reg (kernel.wait_any k).1 in
        let rest = reap_children fuel reg' k' in (action ∷ rest.0, rest.1, rest.2)
  ]

  pending_alarm : (ℕ → Bool) → Pending K → Pending K
  unfolding tick
  pending_alarm throws_at p =
      if p.alarm_pending
      then record p { alarm_pending = false; scheduler = (tick throws_at p.scheduler).0 }
      else p

  pending_children : ℕ → Pending K → Pending K
  unfolding reap_children
  pending_children fuel p =
      let r = reap_children fuel p.registry p.kernel_state in
      if p.chld_pending
      then record p { chld_pending = false; registry = r.1; kernel_state = r.2 }
      else p

  unfoldable pub process_pending_signals : ℕ → (ℕ → Bool) → Pending K → Pending K
  unfolding handle_drain_request pending_alarm pending_children
  process_pending_signals fuel throws_at p =
      pending_children fuel
        (pending_alarm throws_at (record p { scheduler = (handle_drain_request p.scheduler).0 }))
