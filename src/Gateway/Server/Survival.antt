-- ===== src/Gateway/Server/Survival.antt =====
-- Requests that cannot end the daemon in src/os_layer/ipc/src/domain_socket.cpp.
use justice_flow.Base.{
  ℕ, ◌-◌, ◌≡◌, ◌≢◌, refl, subst, true, not, ◌&&◌, Option, none, some, inl, inr, [], ◌∷◌, Bytes,
  codes, bytes_beq, bytes_eq, is_digit, skip_spaces, leading_number, leb, any, is_empty, ℤ, pos,
  negsuc, Stoi, value, stoi, Bool-cases, Option-cases, and_both, arith,
}
use justice_flow.Base.Dict.{lookup}
use justice_flow.Types.{ResultCode, ok}
use justice_flow.OsLayer.UnixSocket.{UnixSocket, Rows, Outcome, returns, blocks, execute}
use justice_flow.Auth.Token.{is_valid_uuid}
use justice_flow.Gateway.Request.{
  SocketRequest, CommandType, param, ping, get_agent_status, get_agent_status_by_index,
  get_active_sessions, get_case_list, get_case_by_id, get_hotspot_data, get_priority_cases,
  get_officer_workload, unknown,
}
use justice_flow.Gateway.Response.{SocketResponse}
use justice_flow.Gateway.Handlers.{
  Env, SharedStatusTable, max_agents, valid_priorities, Reply, Served, served, crashes, waits,
  ◌>>=◌, uncaught, is_all_digits, safe_int_str, run_query, finish_query, handle_get_case_list,
  handle_get_case_by_id, handle_get_hotspot_data, handle_get_priority_cases,
  handle_get_officer_workload, handle_ping, handle_get_agent_status,
  handle_get_agent_status_by_index, handle_get_active_sessions, agent_at, no_table, bad_request,
}
use justice_flow.Gateway.Server.{dispatch, dispatch_command}
use justice_flow.Gateway.Server.Crashes.{IsTooLong, param-found}

leading-some : (s : Bytes) (n : ℕ) → (m : ℕ) × (leading_number (some n) s ≡ some m)
unfolding leading_number
leading-some [] n = (n, refl)
leading-some (c ∷ s) n = elim (Bool-cases (is_digit c)) [
  | inl e ↦ rw e (leading-some s _)
  | inr e ↦ rw e (n, refl)
]

-- A text of digits is a number to `std::stoi`, in range or not.
digits-valid : (s : Bytes) → is_all_digits s ≡ true → stoi s ≢ Stoi.invalid_argument
unfolding is_all_digits stoi leading_number skip_spaces
digits-valid [] h e = ground (arith, h)
digits-valid (c ∷ s) h e =
    let (m, number) = leading-some s (c - b'0') in ground (arith, h, e, number)

-- A handler's step that does not crash.
Survives {ℓ} : {A : Type ℓ} → Served A → Type 0
Survives (served a) = Unit
Survives crashes = ⊥
Survives waits = Unit

Survives-bind {ℓ κ} :
    {A : Type ℓ} {B : Type κ} (s : Served A) (f : A → Served B)
    → Survives s
    → ((a : A) → Survives (f a))
    → Survives (s >>= f)
unfolding Survives
Survives-bind (served a) f h k = k a
Survives-bind crashes f h k = h
Survives-bind waits f h k = tt

stoi-Survives :
    (s : Stoi) → s ≢ Stoi.invalid_argument → s ≢ Stoi.out_of_range → Survives (uncaught s)
unfolding Survives
stoi-Survives (value n) h k = tt
stoi-Survives Stoi.invalid_argument h k = h refl
stoi-Survives Stoi.out_of_range h k = k refl

digits-Survives :
    (text : Bytes)
    → is_all_digits text ≡ true
    → (IsTooLong text → ⊥)
    → Survives (uncaught (stoi text))
unfolding IsTooLong
digits-Survives text h k = stoi-Survives (stoi text) (digits-valid text h) (λ e. k (h, e))

safe_int_str-Survives :
    (raw : Bytes) (d low high : ℤ) → (IsTooLong raw → ⊥) → Survives (safe_int_str raw d low high)
unfolding safe_int_str Survives
safe_int_str-Survives raw d low high h =
    elim (Bool-cases (not (is_empty raw) && is_all_digits raw)) [
      | inl e ↦ rw e (
          Survives-bind (uncaught (stoi raw)) _
            (digits-Survives raw (and_both (not (is_empty raw)) (is_all_digits raw) e).1 h)
            (λ v. tt))
      | inr e ↦ rw e tt
    ]

-- No parameter of the request is a number of digits that is no `int`.
unfoldable pub AllShort : SocketRequest → Type 0
AllShort req = (key text : Bytes) → lookup key req.params ≡ some text → IsTooLong text → ⊥

param-short :
    (req : SocketRequest) (key d : Bytes)
    → AllShort req
    → (IsTooLong d → ⊥)
    → IsTooLong (param req key d)
    → ⊥
unfolding AllShort param
param-short req key d short h long = elim (Option-cases (lookup key req.params)) [
  | inl e ↦ h (subst IsTooLong (rw (param, e) refl) long)
  | inr (text, e) ↦ short key text e (subst IsTooLong (param-found req key text d e) long)
]

module _ (env : Env) (req : SocketRequest) (db : UnixSocket) (short : AllShort req) where
  finish-Survives :
      (msg : Bytes) (found : Rows → SocketResponse) (o : Outcome (ResultCode × Rows × UnixSocket))
      → Survives (finish_query req msg found o)
  unfolding finish_query Survives
  finish-Survives msg found blocks = tt
  finish-Survives msg found (returns (ok, rows, db)) = tt
  finish-Survives msg found (returns (rc, rows, db)) = tt

  query-Survives :
      (query msg : Bytes) (found : Rows → SocketResponse)
      → Survives (run_query env req db query msg found)
  unfolding run_query
  query-Survives query msg found = finish-Survives msg found (execute (env.answer query) db)

  limited-Survives :
      (key raw : Bytes) (d low high : ℤ) (next : Bytes → Reply)
      → (IsTooLong raw → ⊥)
      → ((limit : Bytes) → Survives (next limit))
      → Survives (safe_int_str (param req key raw) d low high >>= next)
  limited-Survives key raw d low high next h k =
      Survives-bind (safe_int_str (param req key raw) d low high) next
        (safe_int_str-Survives (param req key raw) d low high (param-short req key raw short h)) k

  case_list-Survives : Survives (handle_get_case_list env req db)
  unfolding handle_get_case_list IsTooLong stoi
  case_list-Survives =
      limited-Survives (codes "limit") (codes "100") (pos 100) (pos 1) (pos 500) _
        (λ h. ground (arith, h))
        λ limit.
          limited-Survives (codes "offset") (codes "0") (pos 0) (pos 0) (pos 100_000) _
            (λ h. ground (arith, h)) (λ offset. query-Survives _ _ _)

  fifty-Survives :
      (next : Bytes → Reply)
      → ((limit : Bytes) → Survives (next limit))
      → Survives (
          safe_int_str (param req (codes "limit") (codes "50")) (pos 50) (pos 1) (pos 200) >>= next)
  unfolding IsTooLong stoi
  fifty-Survives next k =
      limited-Survives (codes "limit") (codes "50") (pos 50) (pos 1) (pos 200) next
        (λ h. ground (arith, h)) k

  case_by_id-Survives : Survives (handle_get_case_by_id env req db)
  unfolding handle_get_case_by_id Survives bad_request
  case_by_id-Survives = elim (Bool-cases (is_valid_uuid (param req (codes "case_id") []))) [
    | inl e ↦ rw e (query-Survives _ _ _)
    | inr e ↦ rw e tt
  ]

  priorities-Survives : Survives (handle_get_priority_cases env req db)
  unfolding handle_get_priority_cases Survives bad_request
  priorities-Survives =
      elim (Bool-cases
        (any (bytes_beq (param req (codes "min_priority") (codes "HIGH"))) valid_priorities)) [
          | inl e ↦ rw e (fifty-Survives _ (λ limit. query-Survives _ _ _))
          | inr e ↦ rw e tt
        ]

  table-Survives :
      (table : Option SharedStatusTable) (f : SharedStatusTable → SocketResponse)
      → Survives (elim table as (λ x. Reply) [ none ↦ no_table req db | some t ↦ served (f t, db) ])
  unfolding Survives no_table
  table-Survives none f = tt
  table-Survives (some t) f = tt

  agent_at-Survives : (n : ℤ) → Survives (agent_at env req n db)
  unfolding agent_at Survives bad_request
  agent_at-Survives (negsuc i) = tt
  agent_at-Survives (pos i) = elim (Bool-cases (leb max_agents i)) [
    | inl e ↦ rw e tt
    | inr e ↦ rw e (table-Survives env.table _)
  ]

  by_index-Survives : Survives (handle_get_agent_status_by_index env req db)
  unfolding handle_get_agent_status_by_index Survives bad_request IsTooLong is_all_digits
  by_index-Survives =
      let text = param req (codes "index") [] in
      elim (Bool-cases (is_all_digits text)) [
        | inl e ↦ rw e (
            Survives-bind (uncaught (stoi text)) _
              (digits-Survives text e
                (param-short req (codes "index") [] short (λ h. ground (arith, h))))
              agent_at-Survives)
        | inr e ↦ rw e tt
      ]

  command-Survives : (c : CommandType) → Survives (dispatch_command c env req db)
  unfolding dispatch_command handle_ping handle_get_agent_status handle_get_active_sessions
      handle_get_hotspot_data handle_get_officer_workload Survives
  command-Survives ping = tt
  command-Survives get_agent_status = table-Survives env.table _
  command-Survives get_agent_status_by_index = by_index-Survives
  command-Survives get_active_sessions = table-Survives env.table _
  command-Survives get_case_list = case_list-Survives
  command-Survives get_case_by_id = case_by_id-Survives
  command-Survives get_hotspot_data = fifty-Survives _ (λ limit. query-Survives _ _ _)
  command-Survives get_priority_cases = priorities-Survives
  command-Survives get_officer_workload = fifty-Survives _ (λ limit. query-Survives _ _ _)
  command-Survives unknown = tt

Survives-not_crash {ℓ} : {A : Type ℓ} (s : Served A) → Survives s → s ≢ crashes
unfolding Survives
Survives-not_crash (served a) h e = ground (arith, e)
Survives-not_crash crashes h e = h
Survives-not_crash waits h e = ground (arith, e)

-- A request without a parameter that is a number of digits and no `int` does not end the daemon,
-- whatever its command, the database and the shared memory.
pub dispatch_survives :
    (env : Env) (req : SocketRequest) (db : UnixSocket)
    → AllShort req
    → dispatch env req db ≢ crashes
unfolding dispatch
dispatch_survives env req db short =
    Survives-not_crash (dispatch env req db) (command-Survives env req db short req.command)
