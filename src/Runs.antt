-- ===== src/Runs.antt =====
-- The `runs` table (dpp/apps/api/dpp_api/db/models.py, `Run`) and its repository with optimistic
-- locking (db/repo_runs.py). Identifiers, tokens and hashes are only compared, so they are numbers;
-- instants are seconds. Each repository method is one SQL statement and its commit, so it is one
-- step on the table. The column `min_reliability_score`, a float that nothing reads, is left out.
mod Defs
pub mod Locking
pub mod History
pub mod Keys
pub mod Scans
mod Tests
pub use Defs.{
  Status, MoneyState, Stage, Run, Runs, Condition, status_is, stage_is, lease_token_is,
  finalize_token_is, holds, all_hold, is_status, is_money_state, is_stage, matches, bump, before,
  CreateError, primary_key, uq_runs_tenant_idempotency, Created, created, rejected,
}
unfoldable pub use Defs.{
  get_by_id, get_by_idempotency_key, create, update_with_version_check, claim_for_processing,
  force_update_claimed_only, list_expired_leases, scan,
}
