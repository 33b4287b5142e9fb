-- ===== src/OsLayer/Worker/Released.antt =====
-- What a client of src/os_layer/threading/src/worker.cpp leaves behind when its connection is closed.
pub mod Closed
use justice_flow.Base.{
  ℕ, zero, suc, ◌+◌, ◌≡◌, ◌≢◌, refl, sym, ap, subst, ◌∙◌, Bool, true, false, Option, none, some,
  List, [], ◌∷◌, Bytes, codes, eqb, if◌then◌else◌, is_empty, is_positive, Bool-cases, inl, inr, ℤ,
  int_eq, int_beq_iff, Stoi, value, ◌==◌, absurd, arith,
}
use justice_flow.Base.Dict.{lookup, insert, erase, lookup-insert, lookup-erase, lookup-erase_self}
use justice_flow.Types.{ResultCode, ok, session_expired, SessionContext}
use justice_flow.Auth.Manager.{
  LoginResult, LoginEnd, login, validate_token, refresh_session, logout,
}
use justice_flow.Auth.Manager
use justice_flow.OsLayer.UnixSocket.{UnixSocket, Outcome, returns, blocks, Rows, execute}
use justice_flow.OsLayer.Sessions.{
  Registered, register_session, unregister_session, register_session-other,
  unregister_session-other, SemGuard, acquired, not_acquired, sem_waits, sem_wait, sem_release,
}
use justice_flow.OsLayer.Wire.{ReadFrame, read_frame, serialize}
use justice_flow.OsLayer.Worker.{
  World, Turn, Desk, WorkerTask, refuse, send, officer_number, RoundStep, goes_on, leaves,
  throws_out, hangs, overruns, said, admitted, rejected, logged_in, credentials,
  handle_login_request, drop_nul, sent_rows, answered,
}
use justice_flow.OsLayer.Worker.Loop.{
  after_answer, behind_gate, run_statement, after_token_check, after_logout, handle_request,
  handle_frame, after_read, End, closed, hung, overran, out_of_fuel, cleaned, continue_with,
  process_client, process_task, newcomer,
}

module _ (task : WorkerTask) (w0 : World) where
  -- The slots are those of the start, and the other threads' sessions too.
  Others : World → Type 0
  Others w =
      (w.free_slots ≡ w0.free_slots)
      × ((t : ℤ) → t ≢ task.thread_id → lookup t w.registry ≡ lookup t w0.registry)

  -- An officer who has not logged in is not registered.
  Unlisted : Bool → World → Type 0
  Unlisted true w = Unit
  Unlisted false w = lookup task.thread_id w.registry ≡ none

  Unlisted-moved : (b : Bool) (v w : World) → v.registry ≡ w.registry → Unlisted b w → Unlisted b v
  unfolding Unlisted
  Unlisted-moved true v w e u = tt
  Unlisted-moved false v w e u = rw e u

  Unlisted-known : (b : Bool) (w : World) → b ≡ true → Unlisted b w
  unfolding Unlisted
  Unlisted-known true w a = tt
  Unlisted-known false w a = absurd (ground (arith, a))

  Fine : RoundStep → Type 0
  Fine (goes_on desk w) = Others w × Unlisted desk.authenticated w
  Fine (leaves desk w) = Others w × Unlisted desk.authenticated w
  Fine (throws_out w) = Others w
  Fine hangs = Unit
  Fine overruns = Unit

  said-Fine :
      (s : SessionContext) (w : World) (k : RoundStep) → Others w → Fine k → Fine (said s w k)
  unfolding said Fine
  said-Fine s w k o f =
      elim (officer_number s) as (λ n. Fine (elim n [ value m ↦ k | _ ↦ throws_out w ])) [
        | value n ↦ f
        | _ ↦ o
      ]

  admitted-Fine :
      (s : SessionContext) (w : World) (n : Stoi)
      → Others w
      → Unlisted false w
      → Fine (admitted task s w n)
  unfolding admitted Fine Others Unlisted
  admitted-Fine s w (value n) o u = elim (Bool-cases (is_positive n)) [
    | inl p ↦ rw p ((o.0, λ t d. register_session-other t _ _ w.registry d ∙ o.1 t d), tt)
    | inr p ↦ rw p (o, u)
  ]
  admitted-Fine s w _ o u = o

  logged_in-Fine :
      (r : LoginResult) (s : Option SessionContext) (w : World)
      → Others w
      → Unlisted false w
      → Fine (logged_in task r s w)
  unfolding logged_in Fine Others Unlisted send refuse
  logged_in-Fine Manager.throws s w o u = o
  logged_in-Fine (Manager.returns ok) (some s) w o u = admitted-Fine s _ (officer_number s) o u
  logged_in-Fine (Manager.returns ok) none w o u = (o, u)
  logged_in-Fine (Manager.returns rc) s w o u = (o, u)

  -- The answer to a statement changes neither the slots nor the registry.
  Still : World → Outcome (Option World) → Type 0
  Still w (returns (some w')) = (w'.free_slots ≡ w.free_slots) × (w'.registry ≡ w.registry)
  Still w _ = Unit

  rows-Still : (payload : Option Bytes) (w : World) → Still w (returns (sent_rows payload w))
  unfolding Still sent_rows send
  rows-Still none w = tt
  rows-Still (some payload) w = (refl, refl)

  answered-Still :
      (o : Outcome (ResultCode × Rows × UnixSocket)) (w : World) → Still w (answered o w)
  unfolding Still answered refuse
  answered-Still blocks w = tt
  answered-Still (returns (ok, rows, db)) w = rows-Still (serialize rows) (record w { db = db })
  answered-Still (returns (rc, rows, db)) w = (refl, refl)

  after_answer-Fine :
      (turn : Turn) (s : SessionContext) (guard : SemGuard) (o : Outcome (Option World))
      (w v : World)
      → Others w
      → Still v o
      → v.registry ≡ w.registry
      → sem_release guard v.free_slots ≡ w.free_slots
      → Fine (after_answer turn s guard o)
  unfolding after_answer Fine Others Unlisted Still
  after_answer-Fine turn s guard blocks w v o k r f = tt
  after_answer-Fine turn s guard (returns none) w v o k r f = tt
  after_answer-Fine turn s guard (returns (some w')) w v o k r f =
      ((ap (sem_release guard) k.0 ∙ f ∙ o.0, λ t d. rw (k.1, r) (o.1 t d)), tt)

  behind_gate-Fine :
      (turn : Turn) (s : SessionContext) (query : Bytes) (guard : SemGuard) (w : World)
      → Others w
      → ((left : ℕ) → guard ≡ acquired left → w.free_slots ≡ suc left)
      → Fine (behind_gate turn s query guard w)
  unfolding behind_gate Fine sem_release
  behind_gate-Fine turn s query sem_waits w o k = tt
  behind_gate-Fine turn s query not_acquired w o k =
      after_answer-Fine turn s not_acquired _ w w o (answered-Still _ w) refl refl
  behind_gate-Fine turn s query (acquired left) w o k =
      after_answer-Fine turn s (acquired left) _ w (record w { free_slots = left }) o
        (answered-Still _ (record w { free_slots = left })) refl (omega (arith, k left refl))

  sem_wait-slots : (b : Bool) (slots left : ℕ) → sem_wait b slots ≡ acquired left → slots ≡ suc left
  unfolding sem_wait
  sem_wait-slots true slots left e = ground (arith, e)
  sem_wait-slots false zero left e = ground (arith, e)
  sem_wait-slots false (suc slots) left e = ground (arith, e)

  run_statement-Fine :
      (turn : Turn) (s : SessionContext) (query : Bytes) (w : World)
      → Others w
      → Fine (run_statement turn s query w)
  unfolding run_statement Fine Others Unlisted refuse
  run_statement-Fine turn s query w o = elim (Bool-cases (is_empty query)) [
    | inl e ↦ rw e (o, tt)
    | inr e ↦ rw e (
        said-Fine s w (behind_gate turn s query (sem_wait turn.interrupted w.free_slots) w) o
          (behind_gate-Fine turn s query _ w o (sem_wait-slots turn.interrupted w.free_slots)))
  ]

  after_token_check-Fine :
      (turn : Turn) (desk : Desk) (payload : Bytes) (v : ResultCode × Option SessionContext)
      (w : World)
      → Others w
      → desk.authenticated ≡ true
      → Fine (after_token_check turn desk payload v w)
  unfolding after_token_check Fine Others refuse
  after_token_check-Fine turn desk payload (ok, some s) w o a =
      run_statement-Fine turn s (drop_nul payload) w o
  after_token_check-Fine turn desk payload (session_expired, s) w o a =
      said-Fine desk.session w (leaves desk (refuse 2 (codes "Session expired") w)) o
        (o, Unlisted-known desk.authenticated _ a)
  after_token_check-Fine turn desk payload (rc, s) w o a =
      said-Fine desk.session w (leaves desk (refuse 1 (codes "Session validation failed") w)) o
        (o, Unlisted-known desk.authenticated _ a)

  after_logout-Fine :
      (desk : Desk) (rc : ResultCode) (w : World)
      → Others w
      → desk.authenticated ≡ true
      → Fine (after_logout desk rc w)
  unfolding after_logout Fine
  after_logout-Fine desk ok w o a =
      said-Fine desk.session w (leaves desk w) o (o, Unlisted-known desk.authenticated w a)
  after_logout-Fine desk rc w o a = (o, Unlisted-known desk.authenticated w a)
