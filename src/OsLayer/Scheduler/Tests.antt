-- ===== src/OsLayer/Scheduler/Tests.antt =====
-- A scheduler and its children, and the theorems about them at concrete inputs.
use justice_flow.Base.{
  ℕ, ◌≡◌, refl, true, false, Option, none, some, List, [], ◌∷◌, codes, if◌then◌else◌, eqb, nat_eq,
  arith, Bool, ◌||◌,
}
use justice_flow.Types.{ok}
use justice_flow.OsLayer.UnixSocket.{returns, blocks}
use justice_flow.OsLayer.Process.{
  Registry, ProcessRecord, running, Kernel, ExitStatus, signalled, Wait, gone, no_child,
  still_alive, sent, reap_all, get_all_pids,
}
use justice_flow.OsLayer.Process.Shutdown.{SigkillEnds, reap_all-ends}
use justice_flow.OsLayer.Scheduler.{Pending, initial}
use justice_flow.OsLayer.Scheduler.Ticks.{Timer, ticks, timer_ticks, run_with, ticks-timers}

-- One child at most, which has ended.
abbrev Child : Type 0
Child = Option (ℕ × ExitStatus)

wait_for : ℕ → Child → Wait × Child
wait_for pid none = (no_child, none)
wait_for pid (some (child, s)) =
    if eqb child pid then (gone s, none) else (no_child, some (child, s))

one_reaped :
    (k : Child) (pid : ℕ) (s : ExitStatus)
    → k ≡ some (pid, s)
    → wait_for pid none ≡ (no_child, none)
unfolding wait_for
one_reaped k pid s h = refl

abbrev one_child : Kernel Child
one_child = record {
  wait_one = wait_for;
  wait_any = λ k. (k, none);
  wait_blocking = λ pid k. returns (true, none);
  kill = λ pid hard k. (sent, k);
  reaped_once = one_reaped;
}

abbrev agent : ProcessRecord
agent = record {
  agent_name = codes "hotspot";
  fifo_path = [];
  shm_name = [];
  state = running;
  restart_count = 3;
}

abbrev agents : Registry
agents = (42, agent) ∷ []

abbrev crashed_child : Pending Child
crashed_child = record {
  alarm_pending = true;
  chld_pending = true;
  scheduler = initial;
  registry = agents;
  kernel_state = some (42, signalled);
}

-- A child that ends by SIGKILL only; the state says that it was sent.
abbrev stubborn_child : Kernel Bool
stubborn_child = record {
  wait_one = λ pid k. (still_alive, k);
  wait_any = λ k. (none, k);
  wait_blocking = λ pid k. if k then returns (true, k) else blocks;
  kill = λ pid hard k. (sent, hard || k);
  reaped_once = λ k pid s h. ground (arith, h);
}

kept_waiting :
    (pid other : ℕ) (k : Bool) (x : Bool × Bool)
    → k ≡ true
    → stubborn_child.wait_blocking other k ≡ returns x
    → x.1 ≡ true
kept_waiting pid other true x h e = ground (arith, e)
kept_waiting pid other false x h e = ground (arith, h)

stubborn_ends : SigkillEnds stubborn_child
stubborn_ends = record {
  ending = λ pid k. k;
  killed = λ pid k. refl;
  kept_by_kill = λ pid other k h. refl;
  kept_by_wait = kept_waiting;
  waited = λ pid k h. ((true, k), rw h refl);
}

reap_all-ends_example :
    (r : Registry × Bool) × (reap_all stubborn_child 11 (λ i. i) agents false
      ≡ some (returns (ok, r.0, r.1)))
unfolding get_all_pids
reap_all-ends_example =
    reap_all-ends stubborn_child (λ i. i) 10 agents false stubborn_ends (refl, tt) (omega arith)

abbrev two_timers : List Timer
two_timers = (2, 1) ∷ (3, 3) ∷ []

ticks-timers_example : ticks 4 0 (λ n i. false) (run_with 7 false (0 ∷ []) two_timers) ≡ (
  run_with 11 false (0 ∷ []) (timer_ticks 4 0 (λ n i. false) (0 ∷ []) two_timers).0,
  (timer_ticks 4 0 (λ n i. false) (0 ∷ []) two_timers).1,
)
ticks-timers_example =
    ticks-timers 4 0 7 (λ n i. false) false (0 ∷ []) two_timers
      ((omega arith, omega arith), ((omega arith, omega arith), tt))
