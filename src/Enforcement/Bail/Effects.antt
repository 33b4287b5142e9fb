-- ===== src/Enforcement/Bail/Effects.antt =====
-- The operations of src/system/subsystem3/enforcement/src/bail_manager.cpp with their rank check.
use justice_flow.Base.{
  ℕ, ◌≡◌, refl, none, ℤ, Bytes, int_eq, bytes_eq, is_empty, if◌then◌else◌, arith,
}
use justice_flow.Types.{invalid_input, rank_insufficient, SessionContext}
use justice_flow.Auth.Manager.Rank.{refused-is_ok}
use justice_flow.Enforcement.Database.{EnforcementDb}
use justice_flow.Enforcement.Bail.{BailType, bail_ranked, record_bail, revoke_ranked, revoke_bail}

module _ {Db : Type 0} (E : EnforcementDb Db) where
  -- No session is ever allowed to record or to revoke a bail: each call ends with RANK_INSUFFICIENT,
  -- or INVALID_INPUT for a revocation without a reason, and leaves the database as it was.
  pub bails_never :
      (now : ℕ) (s : SessionContext) (arrest bail : ℤ) (type : BailType) (amount : ℕ)
      (court magistrate until name cnic contact reason : Bytes) (db : Db)
      → (record_bail E now s arrest type amount court magistrate until name cnic contact db
          ≡ (rank_insufficient, none, db))
        × (revoke_bail E now s bail reason db
            ≡ ((if is_empty reason then invalid_input else rank_insufficient), db))
  unfolding record_bail bail_ranked revoke_bail revoke_ranked
  bails_never now s arrest bail type amount court magistrate until name cnic contact reason db =
      (rw (refused-is_ok s) refl, rw (refused-is_ok s) (ground arith))
