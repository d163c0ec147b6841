-- ===== src/Finalize.antt =====
-- Two-phase finalize with optimistic locking
-- (dpp/apps/worker/dpp_worker/finalize/optimistic_commit.py). A fresh UUID is an argument, and so is
-- the instant; what an exception says is left out.
pub mod Claim
pub mod Commit
pub mod Finalizers
pub mod Once
pub mod Race
pub mod Frame
mod Tests
use Prim.Native.String.{String}
use decisionproof.Base.{
  ℕ, ◌+◌, ℤ, ltb_ℤ, Bool, true, false, not, Option, none, some, List, [], ◌∷◌, ◌++◌, if◌then◌else◌,
}
use decisionproof.Budget.{SettleReply, settled, no_reserve}
use decisionproof.Runs.{
  Run, Status, MoneyState, Stage, Condition, status_is, stage_is, lease_token_is, finalize_token_is,
  is_status, is_money_state,
}
use decisionproof.World.{
  World, Action, pure, raise, gets, or_raise, ◌>>=◌, ◌>>◌, raise_unless, read_run, update_run,
  settle_run, meter,
}

-- `ClaimError`, and a `FinalizeError` that is none.
pub data FinalizeError : Type 0 where
  claim_error finalize_error : FinalizeError

-- The updates of the claim.
abbrev pub claim_updates : ℕ → ℕ → Run → Run
claim_updates token now run = record run {
  finalize_stage = Stage.claimed;
  finalize_token = some token;
  finalize_claimed_at = some now;
}

-- `claim_conditions`, with the extra conditions behind them.
abbrev pub claim_conditions : List Condition → List Condition
claim_conditions extra = status_is Status.processing ∷ stage_is Stage.null ∷ extra

-- Returns the finalize token and the claimed version.
unfoldable pub claim_finalize :
    ℕ → ℕ → List Condition → (token now : ℕ) → Action FinalizeError (ℕ × ℕ)
claim_finalize run_id tenant extra token now = do
  run ← or_raise (← read_run run_id tenant) finalize_error
  raise_unless (is_status run.status Status.processing) claim_error
  raise_unless (is_money_state run.money_state MoneyState.reserved) finalize_error
  won ← update_run run_id tenant run.version (claim_updates token now) (claim_conditions extra) now
  raise_unless won claim_error
  pure (token, run.version + 1)

-- The updates of the final commit, with the caller's extra updates over them.
abbrev pub commit_updates : Status → ℤ → ℕ → (Run → Run) → Run → Run
commit_updates final_status charge now extra run = extra (record run {
  status = final_status;
  money_state = MoneyState.settled;
  actual_cost_usd_micros = some charge;
  finalize_stage = Stage.committed;
  completed_at = some now;
})

abbrev pub commit_conditions : Option ℕ → List Condition
commit_conditions token = finalize_token_is token ∷ stage_is Stage.claimed ∷ []

-- `if settle_status != "OK": raise`
abbrev pub charge_or_raise : SettleReply → Action FinalizeError ℤ
charge_or_raise (settled charge _ _) = pure charge
charge_or_raise no_reserve = raise finalize_error

-- Phase 2 of `commit_finalize`: the checks, and the settlement in Redis. Returns the charge.
unfoldable pub settle_phase : ℕ → ℕ → ℤ → ℕ → Action FinalizeError ℤ
settle_phase run_id tenant charge now = do
  run ← or_raise (← read_run run_id tenant) finalize_error
  raise_unless (not (ltb_ℤ run.reservation_max_cost_usd_micros charge)) finalize_error
  charge_or_raise (← settle_run tenant run_id charge now)

-- Phase 3 of `commit_finalize`: the final commit in the database, and the metering.
unfoldable pub commit_phase :
    ℕ → ℕ → (token claimed_version : ℕ) → ℤ → Status → (Run → Run) → ℕ → Action FinalizeError Unit
commit_phase run_id tenant token claimed_version charge final_status extra now = do
  won ←
      update_run run_id tenant claimed_version (commit_updates final_status charge now extra)
        (commit_conditions (some token)) now
  raise_unless won finalize_error
  meter run_id tenant now

-- Returning is `"WINNER"`.
unfoldable pub commit_finalize :
    ℕ → ℕ → (token claimed_version : ℕ) → ℤ → Status → (Run → Run) → ℕ → Action FinalizeError Unit
commit_finalize run_id tenant token claimed_version charge final_status extra now = do
  actual ← settle_phase run_id tenant charge now
  commit_phase run_id tenant token claimed_version actual final_status extra now

-- `_do_2phase_finalize`
unfoldable pub do_2phase_finalize :
    ℕ → ℕ → ℤ → Status → List Condition → (Run → Run) → (token now : ℕ) → Action FinalizeError Unit
do_2phase_finalize run_id tenant charge final_status conditions extra token now = do
  claim ← claim_finalize run_id tenant conditions token now
  commit_finalize run_id tenant claim.0 claim.1 charge final_status extra now

abbrev pub result_updates : String → String → ℕ → Run → Run
result_updates bucket key sha256 run = record run {
  result_bucket = some bucket;
  result_key = some key;
  result_sha256 = some sha256;
}

abbrev pub error_updates : String → String → Run → Run
error_updates reason_code detail run = record run {
  last_error_reason_code = some reason_code;
  last_error_detail = some detail;
}

unfoldable pub finalize_success :
    ℕ → ℕ → (lease : ℕ) → ℤ → String → String → ℕ → (token now : ℕ) → Action FinalizeError Unit
finalize_success run_id tenant lease cost bucket key sha256 token now =
    do_2phase_finalize run_id tenant cost Status.completed (lease_token_is (some lease) ∷ [])
      (result_updates bucket key sha256) token now

unfoldable pub finalize_failure :
    ℕ → ℕ → (lease : ℕ) → ℤ → String → String → (token now : ℕ) → Action FinalizeError Unit
finalize_failure run_id tenant lease fee reason_code detail token now =
    do_2phase_finalize run_id tenant fee Status.failed (lease_token_is (some lease) ∷ [])
      (error_updates reason_code detail) token now

unfoldable pub finalize_timeout : ℕ → ℕ → ℤ → (token now : ℕ) → Action FinalizeError Unit
finalize_timeout run_id tenant fee token now =
    do_2phase_finalize run_id tenant fee Status.failed (status_is Status.processing ∷ [])
      (error_updates "WORKER_TIMEOUT" "Worker lease expired, run terminated by Reaper") token now
