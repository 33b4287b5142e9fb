-- ===== src/OsLayer/ThreadPool/Ring.antt =====
-- The ring buffer as a queue.
use justice_flow.Base.{
  ℕ, zero, suc, ◌+◌, ◌-◌, ◌%◌, ◌≤◌, ◌<◌, ◌≡◌, ◌↔◌, refl, ap, true, false, List, [], ◌∷◌, ◌++◌,
  arith, length, inl, inr, Bool-cases, if◌then◌else◌,
}
use justice_flow.OsLayer.ThreadPool.{
  ThreadPool, Turn, waits, leaves, runs, queue_capacity, write, submit, worker_turn,
}

pub record IsRing {Task : Type 0} (p : ThreadPool Task) : Type 0 where
  pub head_in_range : p.queue_head < queue_capacity
  pub count_in_range : p.task_count ≤ queue_capacity
  pub tail_placed : p.queue_tail ≡ (p.queue_head + p.task_count) % queue_capacity

module _ {Task : Type 0} where
  -- The tasks from place `i` on, round the end of the array.
  pub read_from : (ℕ → Task) → ℕ → ℕ → List Task
  read_from slots i zero = []
  read_from slots i (suc n) = slots i ∷ read_from slots ((i + 1) % queue_capacity) n

  -- The waiting tasks, oldest first.
  unfoldable pub contents : ThreadPool Task → List Task
  unfolding read_from
  contents p = read_from p.task_queue p.queue_head p.task_count

  pub submit-IsRing : (t : Task) (p : ThreadPool Task) → IsRing p → IsRing (submit t p).1
  unfolding submit
  submit-IsRing t p h = ground arith

  pub worker_turn-IsRing : (p : ThreadPool Task) → IsRing p → IsRing (worker_turn p).1
  unfolding worker_turn
  worker_turn-IsRing p h = ground arith

  -- A write to the free place behind the last task adds it at the end.
  read_from-write :
      (slots : ℕ → Task) (t : Task) (n i j : ℕ)
      → i < queue_capacity
      → n < queue_capacity
      → j ≡ (i + n) % queue_capacity
      → read_from (write slots j t) i (suc n) ≡ read_from slots i n ++ t ∷ []
  unfolding read_from
  read_from-write slots t zero i j hi hn e = ground arith
  read_from-write slots t (suc n) i j hi hn e =
      ground (arith, read_from-write slots t n ((i + 1) % queue_capacity) j)

  length-read_from : (slots : ℕ → Task) (i n : ℕ) → length (read_from slots i n) ≡ n
  unfolding read_from
  length-read_from slots i zero = refl
  length-read_from slots i (suc n) = ap suc (length-read_from slots ((i + 1) % queue_capacity) n)

  pub length-contents : (p : ThreadPool Task) → length (contents p) ≡ p.task_count
  unfolding contents
  length-contents p = length-read_from p.task_queue p.queue_head p.task_count

  contents-submit_accepted :
      (t : Task) (p : ThreadPool Task)
      → IsRing p
      → (submit t p).0 ≡ true
      → contents (submit t p).1 ≡ contents p ++ t ∷ []
  unfolding submit contents
  contents-submit_accepted t p h e =
      ground (arith, read_from-write p.task_queue t p.task_count p.queue_head p.queue_tail)

  submit_full :
      (t : Task) (p : ThreadPool Task) → ((submit t p).0 ≡ false) ↔ (p.task_count ≡ queue_capacity)
  unfolding submit
  submit_full t p = ground arith

  submit_refused : (t : Task) (p : ThreadPool Task) → (submit t p).0 ≡ false → (submit t p).1 ≡ p
  unfolding submit
  submit_refused t p e = ground arith

  pub submit_laws :
      (t : Task) (p : ThreadPool Task)
      → IsRing p
      → ((submit t p).0 ≡ true → contents (submit t p).1 ≡ contents p ++ t ∷ [])
        × ((submit t p).0 ≡ false → (submit t p).1 ≡ p)
  submit_laws t p h = (contents-submit_accepted t p h, submit_refused t p)

  -- A task that is accepted goes to the end of the queue; it is refused exactly when 100 tasks wait,
  -- and then the queue stays as it is.
  pub contents-submit :
      (t : Task) (p : ThreadPool Task)
      → IsRing p
      → (contents (submit t p).1 ≡ (if (submit t p).0 then contents p ++ t ∷ [] else contents p))
        × (((submit t p).0 ≡ false) ↔ (length (contents p) ≡ queue_capacity))
  contents-submit t p h = (
    elim (Bool-cases (submit t p).0) [
      | inl e ↦ rw e (contents-submit_accepted t p h e)
      | inr e ↦ rw e (ap contents (submit_refused t p e))
    ],
    rw (length-contents p) (submit_full t p),
  )

  read_from-head :
      (slots : ℕ → Task) (i n : ℕ)
      → 0 < n
      → read_from slots i n ≡ slots i ∷ read_from slots ((i + 1) % queue_capacity) (n - 1)
  unfolding read_from
  read_from-head slots i zero h = absurd (omega arith)
  read_from-head slots i (suc n) h = ground arith

  -- What the queue holds and how the pool has changed, by what the worker did.
  abbrev pub Took : ThreadPool Task → ThreadPool Task → Turn Task → Type 0
  Took p q waits = (contents p ≡ []) × (p.shutdown_flag ≡ false) × (q ≡ p)
  Took p q leaves = (contents p ≡ []) × (p.shutdown_flag ≡ true) × (q ≡ p)
  Took p q (runs t) = (contents p ≡ t ∷ contents q) × (q.shutdown_flag ≡ p.shutdown_flag)

  -- A worker takes the oldest task. It waits only where no task is left and no shutdown was raised,
  -- and leaves only where no task is left and a shutdown was raised.
  pub worker_turn-Took : (p : ThreadPool Task) → Took p (worker_turn p).1 (worker_turn p).0
  unfolding worker_turn contents
  worker_turn-Took p = ground (arith, read_from-head p.task_queue p.queue_head p.task_count)
