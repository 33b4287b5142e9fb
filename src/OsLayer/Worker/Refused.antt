-- ===== src/OsLayer/Worker/Refused.antt =====
-- A client of src/os_layer/threading/src/worker.cpp that no login accepts.
use justice_flow.Base.{◌≡◌, ◌≢◌, false, Bytes}
use justice_flow.Types.{ok}
use justice_flow.Auth.Manager.{LoginEnd, login}
use justice_flow.Auth.Manager
use justice_flow.Auth.SessionStore.{SessionStore}
use justice_flow.OsLayer.Worker.{
  World, Turn, RoundStep, goes_on, leaves, throws_out, hangs, overruns,
}
use justice_flow.OsLayer.Worker.Loop.{End, closed, out_of_fuel}

-- Whatever credentials are given, the login does not return OK.
abbrev pub Refuses : Turn → Type 0
Refuses turn =
    (cnic password : Bytes) (st : SessionStore)
    → (login turn.login_env cnic password st).result ≢ Manager.returns ok

module _ (w0 : World) where
  -- Only the connection and the registry may differ.
  abbrev Same : World → Type 0
  Same w = (w.store ≡ w0.store) × (w.db ≡ w0.db) × (w.free_slots ≡ w0.free_slots)

  Outside : RoundStep → Type 0
  Outside (goes_on desk w) = Same w × (desk.authenticated ≡ false)
  Outside (leaves desk w) = Same w
  Outside (throws_out w) = Same w
  Outside hangs = ⊥
  Outside overruns = ⊥

  Shut : End → Type 0
  Shut (closed w) = Same w
  Shut out_of_fuel = Unit
  Shut _ = ⊥
