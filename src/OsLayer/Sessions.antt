-- ===== src/OsLayer/Sessions.antt =====
-- src/os_layer/threading/src/session_manager.cpp, connection_gate.cpp and the semaphore of sync.cpp:
-- who is connected on which thread, and how many may use the database at once.
use justice_flow.Base.{
  ℕ, zero, suc, ◌+◌, Bool, true, false, Option, none, some, ℤ, length, int_eq, int_beq, int_beq_iff,
  ◌≡◌, ◌≢◌, sym, Bool-cases, inl, inr, ◌∙◌, if◌then◌else◌, ap, absurd,
}
use justice_flow.Base.Dict
use justice_flow.Base.Dict.{Dict, lookup, lookup-insert, lookup-erase}

-- `SessionContext` of the threads; `login_timestamp` is the time of the login.
pub record Registered : Type 0 where
  pub officer_id : ℤ
  pub socket_fd : ℤ
  pub login_timestamp : ℕ

abbrev pub SessionRegistry : Type 0
SessionRegistry = Dict ℤ Registered

unfoldable pub register_session : ℤ → Registered → SessionRegistry → SessionRegistry
register_session thread_id context registry = Dict.insert thread_id context registry

unfoldable pub unregister_session : ℤ → SessionRegistry → SessionRegistry
unregister_session thread_id registry = Dict.erase thread_id registry

-- The context, where the source returns true.
unfoldable pub get_session : ℤ → SessionRegistry → Option Registered
get_session thread_id registry = Dict.lookup thread_id registry

unfoldable pub active_count : SessionRegistry → ℕ
active_count registry = length registry

other_thread : (t thread : ℤ) → t ≢ thread → int_beq thread t ≡ false
other_thread t thread d = elim (Bool-cases (int_beq thread t)) [
  | inl same ↦ absurd (d (sym ((int_beq_iff thread t).0 same)))
  | inr other ↦ other
]

-- What a thread does with its own entry, no other thread sees.
pub register_session-other :
    (t thread : ℤ) (c : Registered) (r : SessionRegistry)
    → t ≢ thread
    → lookup t (register_session thread c r) ≡ lookup t r
unfolding register_session
register_session-other t thread c r d =
    lookup-insert thread t c r
    ∙ ap (λ b. if b then some c else lookup t r) (other_thread t thread d)

pub unregister_session-other :
    (t thread : ℤ) (r : SessionRegistry)
    → t ≢ thread
    → lookup t (unregister_session thread r) ≡ lookup t r
unfolding unregister_session
unregister_session-other t thread r d =
    lookup-erase thread t r ∙ ap (λ b. if b then none else lookup t r) (other_thread t thread d)

abbrev pub default_max_connections : ℕ
default_max_connections = 50

-- What `sem_wait` does: it takes a slot if one is free, waits for ever where nobody gives one back, or
-- is interrupted.
pub data SemGuard : Type 0 where
  acquired : ℕ → SemGuard
  not_acquired : SemGuard
  sem_waits : SemGuard

unfoldable pub sem_wait : Bool → ℕ → SemGuard
sem_wait true slots = not_acquired
sem_wait false zero = sem_waits
sem_wait false (suc slots) = acquired slots

-- The end of the guard gives the slot back if it was taken.
unfoldable pub sem_release : SemGuard → ℕ → ℕ
sem_release (acquired taken) slots = slots + 1
sem_release guard slots = slots
