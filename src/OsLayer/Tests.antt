-- ===== src/OsLayer/Tests.antt =====
-- A small pool of workers, and the theorems of this component at it.
use justice_flow.Base.{ℕ, ◌≡◌, true, false, List, [], ◌∷◌, ◌++◌}
use justice_flow.OsLayer.ThreadPool.{ThreadPool}
use justice_flow.OsLayer.ThreadPool.Ring.{contents}
use justice_flow.OsLayer.ThreadPool.Runs.{Event, submits, turn, stops, Trace, run, start, run_fifo}

-- Two tasks, the second of which stands round the end of the array.
abbrev wrapped : ThreadPool ℕ
wrapped = record {
  active_worker_count = 2;
  initialized = true;
  task_queue = λ i. i;
  queue_head = 99;
  queue_tail = 1;
  task_count = 2;
  shutdown_flag = true;
}

abbrev events : List (Event ℕ)
events = submits 5 ∷ turn ∷ submits 6 ∷ turn ∷ stops ∷ turn ∷ []

run_fifo_example :
    (run events (start 0)).accepted
    ≡ (run events (start 0)).ran ++ contents (run events (start 0)).pool
run_fifo_example = run_fifo 0 events

abbrev stopping : Trace ℕ
stopping = record { pool = wrapped; accepted = []; ran = [] }

abbrev idle : ThreadPool ℕ
idle = record wrapped { initialized = false; shutdown_flag = false }
