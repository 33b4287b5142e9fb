-- ===== src/OsLayer/Worker/Released/Closed.antt =====
-- The rounds of a client of src/os_layer/threading/src/worker.cpp up to the end of its connection.
use justice_flow.Base.{
  ℕ, zero, suc, ◌≡◌, ◌≢◌, refl, subst, ◌∙◌, Bool, true, false, Option, none, some, Bytes, eqb,
  Bool-cases, inl, inr, ℤ, int_eq,
}
use justice_flow.Base.Dict.{lookup, lookup-erase_self}
use justice_flow.Auth.Manager.{login, validate_token, logout}
use justice_flow.OsLayer.Sessions.{unregister_session, unregister_session-other}
use justice_flow.OsLayer.Wire.{ReadFrame, read_frame}
use justice_flow.OsLayer.Worker.{
  World, Turn, Desk, WorkerTask, refuse, RoundStep, goes_on, leaves, throws_out, hangs, overruns,
  credentials, handle_login_request,
}
use justice_flow.OsLayer.Worker.Loop.{
  handle_request, received, handle_frame, after_read, End, closed, hung, overran, out_of_fuel,
  cleaned, continue_with, process_client, process_task, newcomer,
}
use justice_flow.OsLayer.Worker.{auth_request, query_request, logout_request}
use justice_flow.OsLayer.Worker.Released.{
  Others, Unlisted, Fine, Unlisted-known, Unlisted-moved, after_token_check-Fine, after_logout-Fine,
  logged_in-Fine,
}

module _ (task : WorkerTask) (w0 : World) where
  handle_request-Fine :
      (turn : Turn) (desk : Desk) (type : ℕ) (payload : Bytes) (w : World)
      → Others task w0 w
      → desk.authenticated ≡ true
      → Fine task w0 (handle_request turn desk type payload w)
  unfolding handle_request Fine Others refuse
  handle_request-Fine turn desk type payload w o a = elim (Bool-cases (eqb type query_request)) [
    | inl q ↦ rw q (
        after_token_check-Fine task w0 turn desk payload
          (validate_token desk.session.session_token turn.validated_at w.store) w o a)
    | inr q ↦ elim (Bool-cases (eqb type logout_request)) [
      | inl l ↦
          let done = logout desk.session turn.logged_out_at w.store in
          rw (q, l) (after_logout-Fine task w0 desk done.0 (record w { store = done.1 }) o a)
      | inr l ↦ rw (q, l) (o, Unlisted-known task w0 desk.authenticated _ a)
    ]
  ]

  handle_login_request-Fine :
      (turn : Turn) (c : Option (Bytes × Bytes)) (w : World)
      → Others task w0 w
      → Unlisted task w0 false w
      → Fine task w0 (handle_login_request task turn c w)
  unfolding handle_login_request Fine Others Unlisted refuse
  handle_login_request-Fine turn none w o u = (o, u)
  handle_login_request-Fine turn (some (cnic, password)) w o u =
      let e = login turn.login_env cnic password w.store in
      logged_in-Fine task w0 e.result e.session (record w { store = e.store }) o u

  received-Fine :
      (turn : Turn) (desk : Desk) (type : ℕ) (payload : Bytes) (w : World) (a b : Bool)
      → desk.authenticated ≡ a
      → Others task w0 w
      → Unlisted task w0 desk.authenticated w
      → Fine task w0 (received task turn desk type payload w a b)
  unfolding received Fine Others Unlisted refuse
  received-Fine turn desk type payload w true true e o u =
      (o, Unlisted-moved task w0 desk.authenticated _ w refl u)
  received-Fine turn desk type payload w false true e o u =
      handle_login_request-Fine turn (credentials payload) w o
        (subst (λ b. Unlisted task w0 b w) e u)
  received-Fine turn desk type payload w true false e o u =
      handle_request-Fine turn desk type payload w o e
  received-Fine turn desk type payload w false false e o u =
      (o, Unlisted-moved task w0 desk.authenticated _ w refl u)

  handle_frame-Fine :
      (turn : Turn) (desk : Desk) (type : ℕ) (payload : Bytes) (w : World)
      → Others task w0 w
      → Unlisted task w0 desk.authenticated w
      → Fine task w0 (handle_frame task turn desk type payload w)
  unfolding handle_frame
  handle_frame-Fine turn desk type payload w o u =
      received-Fine turn desk type payload w desk.authenticated (eqb type auth_request) refl o u

  after_read-Fine :
      (turn : Turn) (desk : Desk) (w : World) (r : ReadFrame)
      → Others task w0 w
      → Unlisted task w0 desk.authenticated w
      → Fine task w0 (after_read task turn desk w r)
  unfolding after_read Fine Others
  after_read-Fine turn desk w (none, events) o u =
      (o, Unlisted-moved task w0 desk.authenticated _ w refl u)
  after_read-Fine turn desk w (some (type, payload), events) o u =
      handle_frame-Fine turn desk type payload _ o
        (Unlisted-moved task w0 desk.authenticated _ w refl u)

  -- A connection that ended.
  pub Left : End → Type 0
  Left (closed w) = Others task w0 w × (lookup task.thread_id w.registry ≡ none)
  Left hung = Unit
  Left overran = Unit
  Left out_of_fuel = Unit

  cleaned-Left :
      (desk : Desk) (w : World)
      → Others task w0 w
      → Unlisted task w0 desk.authenticated w
      → Left (closed (cleaned task desk w))
  unfolding Left cleaned Others Unlisted unregister_session
  cleaned-Left desk w o u = elim (Bool-cases desk.authenticated) [
    | inl a ↦ rw a (
      (o.0, λ t d. unregister_session-other t task.thread_id w.registry d ∙ o.1 t d),
      lookup-erase_self task.thread_id w.registry,
    )
    | inr a ↦ rw a (o, subst (λ b. Unlisted task w0 b w) a u)
  ]

  continue_with-Left :
      (r : RoundStep) (next : Desk → World → End)
      → Fine task w0 r
      → ((desk : Desk) (w : World)
          → Others task w0 w
          → Unlisted task w0 desk.authenticated w
          → Left (next desk w))
      → Left (continue_with task r next)
  unfolding continue_with Fine Left Others unregister_session
  continue_with-Left (goes_on desk w) next f k = k desk w f.0 f.1
  continue_with-Left (leaves desk w) next f k = cleaned-Left desk w f.0 f.1
  continue_with-Left (throws_out w) next f k = (
    (f.0, λ t d. unregister_session-other t task.thread_id w.registry d ∙ f.1 t d),
    lookup-erase_self task.thread_id w.registry,
  )
  continue_with-Left hangs next f k = tt
  continue_with-Left overruns next f k = tt

  process_client-Left :
      (fuel i : ℕ) (turns : ℕ → Turn) (desk : Desk) (w : World)
      → Others task w0 w
      → Unlisted task w0 desk.authenticated w
      → Left (process_client fuel i task turns desk w)
  unfolding process_client Left
  process_client-Left zero i turns desk w o u = tt
  process_client-Left (suc fuel) i turns desk w o u =
      continue_with-Left (after_read task (turns i) desk w (read_frame w.connection.reads)) _
        (after_read-Fine (turns i) desk w (read_frame w.connection.reads) o u)
        (process_client-Left fuel (suc i) turns)

-- However a client's connection goes, once it is closed, by an exception too, its thread is not
-- registered any more, every slot of the gate that it took is free again, and the entries of the other
-- threads are as they were; a thread that was not registered at the start is meant.
pub process_task-released :
    (fuel : ℕ) (task : WorkerTask) (turns : ℕ → Turn) (w w' : World)
    → lookup task.thread_id w.registry ≡ none
    → process_task fuel task turns w ≡ closed w'
    → (lookup task.thread_id w'.registry ≡ none)
      × (w'.free_slots ≡ w.free_slots)
      × ((t : ℤ) → t ≢ task.thread_id → lookup t w'.registry ≡ lookup t w.registry)
unfolding process_task Left Others Unlisted
process_task-released fuel task turns w w' free ends =
    let left =
      subst (Left task w) ends
        (process_client-Left task w fuel 0 turns newcomer w (refl, λ t d. refl) free) in
    (left.1, left.0.0, left.0.1)
