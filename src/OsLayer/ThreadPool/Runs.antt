-- ===== src/OsLayer/ThreadPool/Runs.antt =====
-- Any interleaving of submissions, worker turns and a shutdown.
use justice_flow.Base.{
  ◌≡◌, refl, sym, ◌∙◌, Bool, true, false, List, [], ◌∷◌, ◌++◌, append-nil, append_assoc, arith,
  replicate, length,
}
use justice_flow.OsLayer.ThreadPool.{
  ThreadPool, Turn, waits, leaves, runs, empty, submit, worker_turn, raise_shutdown,
}
use justice_flow.OsLayer.ThreadPool.Ring.{
  IsRing, contents, submit-IsRing, worker_turn-IsRing, submit_laws, worker_turn-Took, Took,
}

pub data Event (Task : Type 0) : Type 0 where
  submits : Task → Event Task
  turn stops : Event Task

-- The pool, the tasks that it accepted and the tasks that workers ran, oldest first.
pub record Trace (Task : Type 0) : Type 0 where
  pub pool : ThreadPool Task
  pub accepted : List Task
  pub ran : List Task

module _ {Task : Type 0} where
  pub after_submit : Task → Bool × ThreadPool Task → Trace Task → Trace Task
  after_submit t (true, p) s = record s { pool = p; accepted = s.accepted ++ t ∷ [] }
  after_submit t (false, p) s = record s { pool = p }

  pub after_turn : Turn Task × ThreadPool Task → Trace Task → Trace Task
  after_turn (runs t, p) s = record s { pool = p; ran = s.ran ++ t ∷ [] }
  after_turn (waits, p) s = record s { pool = p }
  after_turn (leaves, p) s = record s { pool = p }

  pub step : Event Task → Trace Task → Trace Task
  unfolding after_submit after_turn
  step (submits t) s = after_submit t (submit t s.pool) s
  step turn s = after_turn (worker_turn s.pool) s
  step stops s = record s { pool = raise_shutdown s.pool }

  -- The first event of the list happens first.
  unfoldable pub run : List (Event Task) → Trace Task → Trace Task
  run [] s = s
  run (e ∷ es) s = run es (step e s)

  pub start : Task → Trace Task
  start default = record { pool = empty default; accepted = []; ran = [] }

  -- What was accepted was run or still waits, in this order.
  pub record IsFifo (s : Trace Task) : Type 0 where
    pub ring : IsRing s.pool
    pub order : s.accepted ≡ s.ran ++ contents s.pool

  submit-IsFifo :
      (t : Task) (s : Trace Task) (r : Bool × ThreadPool Task)
      → IsFifo s
      → IsRing r.1
      → (r.0 ≡ true → contents r.1 ≡ contents s.pool ++ t ∷ [])
      → (r.0 ≡ false → r.1 ≡ s.pool)
      → IsFifo (after_submit t r s)
  unfolding after_submit
  submit-IsFifo t s (true, p) h ring added kept = record {
    ring = ring;
    order = rw (h.order, added refl) (append_assoc s.ran (contents s.pool) (t ∷ []));
  }
  submit-IsFifo t s (false, p) h ring added kept = record {
    ring = ring;
    order = rw (kept refl) h.order;
  }

  turn-IsFifo :
      (s : Trace Task) (r : Turn Task × ThreadPool Task)
      → IsFifo s
      → IsRing r.1
      → Took s.pool r.1 r.0
      → IsFifo (after_turn r s)
  unfolding after_turn
  turn-IsFifo s (runs t, p) h ring took = record {
    ring = ring;
    order = h.order ∙ rw took.0 (sym (append_assoc s.ran (t ∷ []) (contents p)));
  }
  turn-IsFifo s (waits, p) h ring took = record { ring = ring; order = rw took.2 h.order }
  turn-IsFifo s (leaves, p) h ring took = record { ring = ring; order = rw took.2 h.order }

  step-IsFifo : (e : Event Task) (s : Trace Task) → IsFifo s → IsFifo (step e s)
  unfolding step contents raise_shutdown
  step-IsFifo (submits t) s h =
      let laws = submit_laws t s.pool h.ring in
      submit-IsFifo t s (submit t s.pool) h (submit-IsRing t s.pool h.ring) laws.0 laws.1
  step-IsFifo turn s h =
      turn-IsFifo s (worker_turn s.pool) h (worker_turn-IsRing s.pool h.ring)
        (worker_turn-Took s.pool)
  step-IsFifo stops s h = record {
    ring = record {
      head_in_range = h.ring.head_in_range;
      count_in_range = h.ring.count_in_range;
      tail_placed = h.ring.tail_placed;
    };
    order = h.order;
  }

  start-IsFifo : (default : Task) → IsFifo (start default)
  unfolding start empty contents
  start-IsFifo default = record {
    ring = record {
      head_in_range = omega arith;
      count_in_range = omega arith;
      tail_placed = omega arith;
    };
    order = refl;
  }

  run-IsFifo : (es : List (Event Task)) (s : Trace Task) → IsFifo s → IsFifo (run es s)
  unfolding run
  run-IsFifo [] s h = h
  run-IsFifo (e ∷ es) s h = run-IsFifo es (step e s) (step-IsFifo e s h)

  -- Under every interleaving of submissions, worker turns and shutdowns, each accepted task is run at
  -- most once, tasks are run in the order in which they were accepted, and those not yet run are
  -- exactly those in the queue.
  pub run_fifo :
      (default : Task) (es : List (Event Task))
      → let s = run es (start default) in s.accepted ≡ s.ran ++ contents s.pool
  run_fifo default es = (run-IsFifo es (start default) (start-IsFifo default)).order

  drain_turn :
      (s : Trace Task) (t : Task) (ts : List Task) (r : Turn Task × ThreadPool Task)
      → contents s.pool ≡ t ∷ ts
      → Took s.pool r.1 r.0
      → (contents (after_turn r s).pool ≡ ts)
        × ((after_turn r s).ran ≡ s.ran ++ t ∷ [])
        × ((after_turn r s).pool.shutdown_flag ≡ s.pool.shutdown_flag)
  unfolding after_turn
  drain_turn s t ts (runs u, p) waiting took = ground arith
  drain_turn s t ts (waits, p) waiting took = ground arith
  drain_turn s t ts (leaves, p) waiting took = ground arith

  leave_turn :
      (p : ThreadPool Task) (r : Turn Task × ThreadPool Task)
      → contents p ≡ []
      → p.shutdown_flag ≡ true
      → Took p r.1 r.0
      → r.0 ≡ leaves
  leave_turn p (runs u, q) none_left raised took = ground arith
  leave_turn p (waits, q) none_left raised took = ground arith
  leave_turn p (leaves, q) none_left raised took = refl

  drain_from :
      (ts : List Task) (s : Trace Task)
      → contents s.pool ≡ ts
      → s.pool.shutdown_flag ≡ true
      → let e = run (replicate (length ts) turn) s in
        (e.ran ≡ s.ran ++ ts) × ((worker_turn e.pool).0 ≡ leaves)
  unfolding run step
  drain_from [] s waiting raised = (
    sym (append-nil s.ran),
    leave_turn s.pool (worker_turn s.pool) waiting raised (worker_turn-Took s.pool),
  )
  drain_from (t ∷ ts) s waiting raised =
      let (kept, ran, flag) =
        drain_turn s t ts (worker_turn s.pool) waiting (worker_turn-Took s.pool) in
      let (all, left) = drain_from ts (step turn s) kept (flag ∙ raised) in
      (all ∙ rw ran (append_assoc s.ran (t ∷ []) ts), left)

  -- After a shutdown was raised, as many worker turns as tasks wait run all of them, in order, and
  -- only then does a worker leave its loop.
  pub shutdown_drains :
      (s : Trace Task)
      → s.pool.shutdown_flag ≡ true
      → let e = run (replicate (length (contents s.pool)) turn) s in
        (e.ran ≡ s.ran ++ contents s.pool) × ((worker_turn e.pool).0 ≡ leaves)
  shutdown_drains s raised = drain_from (contents s.pool) s refl raised
