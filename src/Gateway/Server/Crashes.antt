-- ===== src/Gateway/Server/Crashes.antt =====
-- When a handler of src/os_layer/ipc/src/domain_socket.cpp throws out of its thread, which ends the
-- daemon: `std::stoi` on a parameter of digits that is no `int`.
use justice_flow.Base.{
  ◌≡◌, refl, ap, ◌∙◌, true, not, some, ◌⊎◌, inl, inr, [], ◌∷◌, Bytes, codes, bytes_eq, is_empty, ℤ,
  pos, Stoi, stoi, arith,
}
use justice_flow.Base.Dict.{lookup}
use justice_flow.OsLayer.UnixSocket.{UnixSocket}
use justice_flow.Gateway.Request.{
  SocketRequest, param, get_case_list, get_hotspot_data, get_officer_workload,
}
use justice_flow.Gateway.Handlers.{
  Env, Reply, crashes, ◌>>=◌, is_all_digits, safe_int_str, handle_get_case_list,
  handle_get_hotspot_data, handle_get_officer_workload,
}
use justice_flow.Gateway.Server.{dispatch, dispatch_command}

-- A text of digits that `std::stoi` throws on.
unfoldable pub IsTooLong : Bytes → Type 0
unfolding is_all_digits stoi
IsTooLong text = (is_all_digits text ≡ true) × (stoi text ≡ Stoi.out_of_range)

digits_not_empty : (s : Bytes) → is_all_digits s ≡ true → not (is_empty s) ≡ true
unfolding is_all_digits
digits_not_empty [] h = ground (arith, h)
digits_not_empty (c ∷ s) h = refl

too_long_crashes :
    (raw : Bytes) (d low high : ℤ) → IsTooLong raw → safe_int_str raw d low high ≡ crashes
unfolding IsTooLong safe_int_str
too_long_crashes raw d low high (a, b) = rw (digits_not_empty raw a, a, b) refl

pub param-found :
    (req : SocketRequest) (key text default_val : Bytes)
    → lookup key req.params ≡ some text
    → param req key default_val ≡ text
unfolding param
param-found req key text default_val h = rw (param, h) refl

limit_crashes :
    (raw limit : Bytes) (d low high : ℤ) (next : Bytes → Reply)
    → raw ≡ limit
    → IsTooLong limit
    → (safe_int_str raw d low high >>= next) ≡ crashes
limit_crashes raw limit d low high next e long = rw (e, too_long_crashes limit d low high long) refl

-- A request to list cases, hotspots or officers whose limit is a number of digits that is no `int`
-- ends the daemon.
pub long_limit_crashes :
    (env : Env) (req : SocketRequest) (db : UnixSocket) (limit : Bytes)
    → (req.command ≡ get_case_list)
      ⊎ ((req.command ≡ get_hotspot_data) ⊎ (req.command ≡ get_officer_workload))
    → lookup (codes "limit") req.params ≡ some limit
    → IsTooLong limit
    → dispatch env req db ≡ crashes
unfolding dispatch dispatch_command handle_get_case_list handle_get_hotspot_data
    handle_get_officer_workload
long_limit_crashes env req db limit c h long = elim c [
  | inl e ↦
      ap (λ c. dispatch_command c env req db) e
      ∙ limit_crashes _ limit (pos 100) (pos 1) (pos 500) _ (param-found req _ limit _ h) long
  | inr (inl e) ↦
      ap (λ c. dispatch_command c env req db) e
      ∙ limit_crashes _ limit (pos 50) (pos 1) (pos 200) _ (param-found req _ limit _ h) long
  | inr (inr e) ↦
      ap (λ c. dispatch_command c env req db) e
      ∙ limit_crashes _ limit (pos 50) (pos 1) (pos 200) _ (param-found req _ limit _ h) long
]
