-- ===== src/OsLayer/ThreadPool.antt =====
-- src/os_layer/threading/{include/thread_pool.h, src/thread_pool.cpp}. Each call holds `queue_mutex`
-- from its first read to its last write, so a call is one step. A worker's turn runs from the moment
-- it holds the mutex to the moment it gives it up: by the wait, by leaving its loop, or with a task.
-- The condition variables only decide who tries next.
pub mod Ring
pub mod Runs
pub mod Start
use justice_flow.Base.{
  ℕ, zero, suc, ◌+◌, ◌-◌, ◌%◌, Bool, true, false, not, ◌&&◌, List, [], ◌∷◌, ◌++◌, Option, none,
  some, ltb, eqb, if◌then◌else◌,
}

abbrev pub max_workers : ℕ
max_workers = 50

abbrev pub queue_capacity : ℕ
queue_capacity = 100

pub record ThreadPool (Task : Type 0) : Type 0 where
  pub active_worker_count : ℕ
  pub initialized : Bool
  pub task_queue : ℕ → Task
  pub queue_head : ℕ
  pub queue_tail : ℕ
  pub task_count : ℕ
  pub shutdown_flag : Bool

-- What a worker does with its turn.
pub data Turn (Task : Type 0) : Type 0 where
  waits leaves : Turn Task
  runs : Task → Turn Task

abbrev pub write : {Task : Type 0} → (ℕ → Task) → ℕ → Task → ℕ → Task
write slots i t j = if eqb i j then t else slots j

-- How many threads `init` tries to start, at most `MAX_WORKERS`.
pub worker_total : ℕ → ℕ
worker_total num_workers = if ltb max_workers num_workers then max_workers else num_workers

-- The spawn loop of `init`: `created i` says whether `pthread_create` for place i succeeded. The
-- result is the worker count and the places that hold a thread. A round raises i, and the count
-- never grows, so as many rounds as the count are enough.
pub spawn : ℕ → (ℕ → Bool) → ℕ → ℕ → List ℕ → ℕ × List ℕ
spawn zero created i count places = (count, places)
spawn (suc fuel) created i count places =
    let next =
      spawn fuel created (i + 1) (if created i then count else count - 1)
        (if created i then places ++ i ∷ [] else places) in
    if ltb i count then next else (count, places)

places_below : ℕ → List ℕ
places_below zero = []
places_below (suc n) = places_below n ++ n ∷ []

module _ {Task : Type 0} where
  -- The array holds default tasks at first.
  pub empty : Task → ThreadPool Task
  empty default = record {
    active_worker_count = 0;
    initialized = false;
    task_queue = λ i. default;
    queue_head = 0;
    queue_tail = 0;
    task_count = 0;
    shutdown_flag = false;
  }

  unfoldable pub submit : Task → ThreadPool Task → Bool × ThreadPool Task
  submit t p = if eqb p.task_count queue_capacity then (false, p) else (
    true,
    record p {
      task_queue = write p.task_queue p.queue_tail t;
      queue_tail = (p.queue_tail + 1) % queue_capacity;
      task_count = p.task_count + 1;
    },
  )

  -- One turn of `worker_routine`: the wait, the break, or the dequeue.
  unfoldable pub worker_turn : ThreadPool Task → Turn Task × ThreadPool Task
  worker_turn p =
      if eqb p.task_count 0 && not p.shutdown_flag
      then (waits, p)
      else if p.shutdown_flag && eqb p.task_count 0
      then (leaves, p)
      else (
        runs (p.task_queue p.queue_head),
        record p {
          queue_head = (p.queue_head + 1) % queue_capacity;
          task_count = p.task_count - 1;
        },
      )

  -- The part of `shutdown` before the joins.
  pub raise_shutdown : ThreadPool Task → ThreadPool Task
  raise_shutdown p = record p { shutdown_flag = true }

  -- The pool after `init`, and the places of `workers` that hold a thread.
  unfoldable pub init : (ℕ → Bool) → ℕ → ThreadPool Task → ThreadPool Task × List ℕ
  init created num_workers p =
      if p.initialized
      then (p, [])
      else if eqb num_workers 0
      then (p, [])
      else let n = worker_total num_workers in
        let (count, places) = spawn n created 0 n [] in
        (record p { active_worker_count = count; initialized = true }, places)

  -- The places that the join loop of `shutdown` reads.
  unfoldable pub joined : ThreadPool Task → List ℕ
  unfolding places_below
  joined p = places_below p.active_worker_count
