-- ===== src/Gateway/Server/Queries.antt =====
-- Which statements the handlers of src/os_layer/ipc/src/domain_socket.cpp can put to the database.
use justice_flow.Base.{
  ℕ, ◌≤◌, ◌≡◌, refl, sym, ap, subst, Bool, true, false, not, ◌&&◌, Option, inl, inr, [], Bytes,
  codes, bytes_beq, if◌then◌else◌, any, is_empty, ℤ, pos, negsuc, Stoi, value, stoi, int_decimal,
  int_ltb, Bool-cases, arith,
}
use justice_flow.OsLayer.UnixSocket.{UnixSocket, Rows, execute}
use justice_flow.Auth.Token.{is_valid_uuid}
use justice_flow.Gateway.Request.{
  SocketRequest, CommandType, param, ping, get_agent_status, get_agent_status_by_index,
  get_active_sessions, get_case_list, get_case_by_id, get_hotspot_data, get_priority_cases,
  get_officer_workload, unknown,
}
use justice_flow.Gateway.Response.{SocketResponse}
use justice_flow.Gateway.Handlers.{
  Env, Reply, Served, served, crashes, waits, ◌>>=◌, clamp, uncaught, is_all_digits, safe_int_str,
  case_list_query, case_by_id_query, hotspot_query, priority_query, workload_query,
  valid_priorities, run_query, finish_query, handle_get_case_list, handle_get_case_by_id,
  handle_get_hotspot_data, handle_get_priority_cases, handle_get_officer_workload, handle_ping,
  handle_get_agent_status, handle_get_agent_status_by_index, handle_get_active_sessions, agent_at,
}
use justice_flow.Gateway.Server.{dispatch, dispatch_command}

-- `low <= n && n <= high`.
abbrev pub IsWithin : ℤ → ℤ → ℤ → Type 0
IsWithin low high n = (int_ltb n low ≡ false) × (int_ltb high n ≡ false)

-- The five statements, with numbers in the limits of the code, a UUID and a priority of the list.
pub data IsPermitted : Bytes → Type 0 where
  cases :
      (limit offset : ℤ)
      → IsWithin (pos 1) (pos 500) limit
      → IsWithin (pos 0) (pos 100_000) offset
      → IsPermitted (case_list_query (int_decimal limit) (int_decimal offset))
  one : (case_id : Bytes) → is_valid_uuid case_id ≡ true → IsPermitted (case_by_id_query case_id)
  hotspots :
      (limit : ℤ)
      → IsWithin (pos 1) (pos 200) limit
      → IsPermitted (hotspot_query (int_decimal limit))
  priorities :
      (level : Bytes) (limit : ℤ)
      → any (bytes_beq level) valid_priorities ≡ true
      → IsWithin (pos 1) (pos 200) limit
      → IsPermitted (priority_query level (int_decimal limit))
  workload :
      (limit : ℤ)
      → IsWithin (pos 1) (pos 200) limit
      → IsPermitted (workload_query (int_decimal limit))

-- The value of a handler's step, where it has one, is as `P` says.
Yields {ℓ} : {A : Type ℓ} → (A → Type 0) → Served A → Type 0
Yields P (served a) = P a
Yields P crashes = Unit
Yields P waits = Unit

bind-same {ℓ κ} :
    {A : Type ℓ} {B : Type κ} (P : A → Type 0) (s : Served A) (f g : A → Served B)
    → Yields P s
    → ((a : A) → P a → f a ≡ g a)
    → s >>= f ≡ s >>= g
unfolding Yields
bind-same P (served a) f g h k = k a h
bind-same P crashes f g h k = refl
bind-same P waits f g h k = refl

clamp-IsWithin :
    (low high : ℕ) (n : ℤ)
    → low ≤ high
    → IsWithin (pos low) (pos high) (clamp (pos low) (pos high) n)
clamp-IsWithin low high (pos n) h = ground arith
clamp-IsWithin low high (negsuc n) h = ground arith

-- A number of these limits, in decimal.
IsNumber : ℕ → ℕ → Bytes → Type 0
IsNumber low high text = (n : ℤ) × (text ≡ int_decimal n) × IsWithin (pos low) (pos high) n

clamped-IsNumber :
    (low high : ℕ) (s : Stoi)
    → low ≤ high
    → Yields
        (IsNumber low high)
        (uncaught s >>= λ v. served (int_decimal (clamp (pos low) (pos high) v)))
unfolding Yields IsNumber
clamped-IsNumber low high (value n) h =
    (clamp (pos low) (pos high) n, refl, clamp-IsWithin low high n h)
clamped-IsNumber low high Stoi.invalid_argument h = tt
clamped-IsNumber low high Stoi.out_of_range h = tt

safe_int_str-IsNumber :
    (raw : Bytes) (d low high : ℕ)
    → low ≤ d
    → d ≤ high
    → Yields (IsNumber low high) (safe_int_str raw (pos d) (pos low) (pos high))
unfolding safe_int_str Yields IsNumber
safe_int_str-IsNumber raw d low high h k =
    elim (Bool-cases (not (is_empty raw) && is_all_digits raw)) [
      | inl e ↦ rw e (clamped-IsNumber low high (stoi raw) (omega (arith, h, k)))
      | inr e ↦ rw e (pos d, refl, (ground (arith, h), ground (arith, k)))
    ]

-- Two databases that answer alike where the handlers may ask.
module _ (env : Env) (answer : Bytes → Option Rows)
    (alike : (q : Bytes) → IsPermitted q → env.answer q ≡ answer q) (req : SocketRequest)
    (db : UnixSocket) where
  abbrev other : Env
  other = record env { answer = answer }

  run_query-same :
      (query msg : Bytes) (found : Rows → SocketResponse)
      → IsPermitted query
      → run_query env req db query msg found ≡ run_query other req db query msg found
  unfolding run_query
  run_query-same query msg found h =
      ap (λ a. finish_query req msg found (execute a db)) (alike query h)

  -- A handler whose only number is its limit.
  limited-same :
      (raw : Bytes) (d low high : ℕ) (query : Bytes → Bytes) (msg : Bytes)
      (found : Rows → SocketResponse)
      → low ≤ d
      → d ≤ high
      → ((n : ℤ) → IsWithin (pos low) (pos high) n → IsPermitted (query (int_decimal n)))
      → (safe_int_str raw (pos d) (pos low) (pos high) >>= λ limit.
          run_query env req db (query limit) msg found)
        ≡ (safe_int_str raw (pos d) (pos low) (pos high) >>= λ limit.
            run_query other req db (query limit) msg found)
  unfolding IsNumber
  limited-same raw d low high query msg found h k permitted =
      bind-same (IsNumber low high) (safe_int_str raw (pos d) (pos low) (pos high)) _ _
        (safe_int_str-IsNumber raw d low high h k)
        λ limit (n, e, within).
          run_query-same (query limit) msg found
            (subst (λ t. IsPermitted (query t)) (sym e) (permitted n within))

  case_list-same : handle_get_case_list env req db ≡ handle_get_case_list other req db
  unfolding handle_get_case_list IsNumber
  case_list-same =
      bind-same (IsNumber 1 500) _ _ _
        (safe_int_str-IsNumber (param req (codes "limit") (codes "100")) 100 1 500 (omega arith)
          (omega arith))
        λ limit (n, e, within).
          limited-same (param req (codes "offset") (codes "0")) 0 0 100_000 (case_list_query limit)
            (codes "Database query failed") _ (omega arith) (omega arith)
            λ offset h.
              subst (λ t. IsPermitted (case_list_query t (int_decimal offset))) (sym e)
                (cases n offset within h)

  case_by_id-same : handle_get_case_by_id env req db ≡ handle_get_case_by_id other req db
  unfolding handle_get_case_by_id
  case_by_id-same =
      let case_id = param req (codes "case_id") [] in
      elim (Bool-cases (is_valid_uuid case_id)) [
        | inl e ↦ rw e (
            run_query-same (case_by_id_query case_id) (codes "Database query failed") _
              (one case_id e))
        | inr e ↦ rw e refl
      ]

  hotspots-same : handle_get_hotspot_data env req db ≡ handle_get_hotspot_data other req db
  unfolding handle_get_hotspot_data
  hotspots-same =
      limited-same (param req (codes "limit") (codes "50")) 50 1 200 hotspot_query _ _ (omega arith)
        (omega arith) hotspots

  priorities-same : handle_get_priority_cases env req db ≡ handle_get_priority_cases other req db
  unfolding handle_get_priority_cases
  priorities-same =
      let level = param req (codes "min_priority") (codes "HIGH") in
      elim (Bool-cases (any (bytes_beq level) valid_priorities)) [
        | inl e ↦ rw e (
            limited-same (param req (codes "limit") (codes "50")) 50 1 200 (priority_query level) _
              _ (omega arith) (omega arith) (λ limit. priorities level limit e))
        | inr e ↦ rw e refl
      ]

  workload-same : handle_get_officer_workload env req db ≡ handle_get_officer_workload other req db
  unfolding handle_get_officer_workload
  workload-same =
      limited-same (param req (codes "limit") (codes "50")) 50 1 200 workload_query _ _
        (omega arith) (omega arith) workload

  agent_at-same : (n : ℤ) → agent_at env req n db ≡ agent_at other req n db
  unfolding agent_at
  agent_at-same (pos i) = refl
  agent_at-same (negsuc i) = refl

  by_index-same :
      (b : Bool) (s : Stoi) (refused : Reply)
      → (if b then refused else (uncaught s >>= λ idx. agent_at env req idx db))
        ≡ (if b then refused else (uncaught s >>= λ idx. agent_at other req idx db))
  by_index-same true s refused = refl
  by_index-same false (value n) refused = agent_at-same n
  by_index-same false Stoi.invalid_argument refused = refl
  by_index-same false Stoi.out_of_range refused = refl

  command-same : (c : CommandType) → dispatch_command c env req db ≡ dispatch_command c other req db
  unfolding dispatch_command handle_ping handle_get_agent_status handle_get_agent_status_by_index
      handle_get_active_sessions
  command-same get_case_list = case_list-same
  command-same get_case_by_id = case_by_id-same
  command-same get_hotspot_data = hotspots-same
  command-same get_priority_cases = priorities-same
  command-same get_officer_workload = workload-same
  command-same ping = refl
  command-same get_agent_status = refl
  command-same get_agent_status_by_index =
      by_index-same (not (is_all_digits (param req (codes "index") [])))
        (stoi (param req (codes "index") [])) _
  command-same get_active_sessions = refl
  command-same unknown = refl

-- Whatever a request says, its response depends on the database only through the answers to
-- permitted statements: no other statement can be put to it.
pub dispatch_permitted :
    (env : Env) (answer : Bytes → Option Rows) (req : SocketRequest) (db : UnixSocket)
    → ((q : Bytes) → IsPermitted q → env.answer q ≡ answer q)
    → dispatch env req db ≡ dispatch (record env { answer = answer }) req db
unfolding dispatch
dispatch_permitted env answer req db alike = command-same env answer alike req db req.command
