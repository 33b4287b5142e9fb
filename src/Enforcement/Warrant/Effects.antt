-- ===== src/Enforcement/Warrant/Effects.antt =====
-- The operations of src/system/subsystem3/enforcement/src/warrant_manager.cpp with their rank check.
use justice_flow.Base.{
  ℕ, ◌≡◌, refl, Bool, true, false, none, ℤ, Bytes, int_eq, bytes_eq, is_empty, if◌then◌else◌,
}
use justice_flow.Types.{ResultCode, invalid_input, rank_insufficient, SessionContext}
use justice_flow.Auth.Manager.Rank.{refused-is_ok}
use justice_flow.Enforcement.Database.{EnforcementDb}
use justice_flow.Enforcement.Warrant.{
  WarrantType, request_ranked, request_warrant, update_ranked, execute_warrant, cancel_warrant,
}

module _ {Db : Type 0} (E : EnforcementDb Db) where
  push_pair :
      (b : Bool) (db : Db)
      → ◌≡◌ {A = ResultCode × Db}
          (if b then (invalid_input, db) else (rank_insufficient, db))
          ((if b then invalid_input else rank_insufficient), db)
  push_pair true db = refl
  push_pair false db = refl

  module _ (expiry_epoch : Bytes → ℤ) where
    -- No session is ever allowed to request, execute or cancel a warrant: each call ends with
    -- RANK_INSUFFICIENT, or INVALID_INPUT for a cancellation without a reason, and leaves the database
    -- as it was.
    pub warrants_never :
        (now : ℕ) (s : SessionContext) (case_id warrant : ℤ) (type : WarrantType)
        (cnic magistrate court valid_until address reason : Bytes) (db : Db)
        → (request_warrant E now s case_id cnic type magistrate court valid_until address db
            ≡ (rank_insufficient, none, db))
          × (execute_warrant E expiry_epoch now s warrant db ≡ (rank_insufficient, db))
          × (cancel_warrant E expiry_epoch now s warrant reason db
              ≡ ((if is_empty reason then invalid_input else rank_insufficient), db))
    unfolding request_warrant request_ranked execute_warrant cancel_warrant update_ranked
    warrants_never now s case_id warrant type cnic magistrate court valid_until address reason db =
        (
          rw (refused-is_ok s) refl,
          rw (refused-is_ok s) refl,
          rw (refused-is_ok s) (push_pair (is_empty reason) db),
        )
