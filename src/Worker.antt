-- ===== src/Worker.antt =====
-- The worker's message handler (dpp/apps/worker/dpp_worker/loops/sqs_loop.py, `_process_message`) and
-- its heartbeat (dpp/apps/worker/dpp_worker/heartbeat.py). Executing a pack, making its envelope and
-- the upload to the object store are parameters. The heartbeat thread runs between the start of the
-- run and its finalize, since it is stopped and joined before that: its ticks are a list of instants.
-- The SQS calls that extend a message's visibility, and the lease key in Redis, which nothing reads,
-- are left out.
pub mod Heartbeat
pub mod Verdicts
pub mod Deletes
pub mod Completes
pub mod Tests
use Prim.Native.String.{String}
use decisionproof.Base.{
  ℕ, ◌+◌, ℤ, Bool, true, false, ◌||◌, Option, none, some, List, [], ◌∷◌, if◌then◌else◌,
}
use decisionproof.Runs.{
  Run, Status, Stage, Condition, status_is, lease_token_is, is_status, is_stage, get_by_id,
  update_with_version_check,
}
use decisionproof.World.{World, Result, ok, err}
use decisionproof.Finalize.{
  FinalizeError, claim_error, finalize_error, claim_finalize, commit_finalize, result_updates,
  finalize_failure,
}

-- True, False, or an exception. `run_once` deletes the message on True alone.
pub data Verdict : Type 0 where
  delete_message keep_message raised : Verdict

-- One message, and what the handler draws or reads while it works on it: UUIDs, instants, the result's
-- place, the text of an exception.
pub record Job : Type 0 where
  pub run_id : ℕ
  pub tenant_id : ℕ
  pub lease_token : ℕ
  pub lease_ttl_sec : ℕ
  pub finalize_token : ℕ
  pub failure_token : ℕ
  pub started_at : ℕ
  pub ticks : List ℕ
  pub finalized_at : ℕ
  pub result_bucket : String
  pub s3_key : String
  pub error_detail : String

abbrev pub extend_lease : ℕ → Run → Run
extend_lease expires run = record run { lease_expires_at = some expires }

-- `_send_heartbeat`, on `self.current_version` and the table.
unfoldable pub send_heartbeat : Job → ℕ → ℕ × World → ℕ × World
send_heartbeat job now (version, w) =
    let (success, runs') =
      update_with_version_check job.run_id job.tenant_id version
        (extend_lease (now + job.lease_ttl_sec))
        (lease_token_is (some job.lease_token) ∷ status_is Status.processing ∷ []) now w.runs in
    (if success then version + 1 else version, record w { runs = runs' })

unfoldable pub send_heartbeats : Job → List ℕ → ℕ × World → ℕ × World
send_heartbeats job [] state = state
send_heartbeats job (now ∷ ticks) state = send_heartbeats job ticks (send_heartbeat job now state)

abbrev pub start_updates : Job → Run → Run
start_updates job run = record run {
  status = Status.processing;
  lease_token = some job.lease_token;
  lease_expires_at = some (job.started_at + job.lease_ttl_sec);
}

-- What becomes of a message by the status of its run; `none` is QUEUED, which goes on.
abbrev pub status_verdict : Status → Option Verdict
status_verdict Status.queued = none
status_verdict Status.processing = some keep_message
status_verdict _ = some delete_message

-- The start: a verdict, or the run to execute.
pub data Begun : Type 0 where
  stopped : Verdict → Begun
  started : Run → Begun

-- The transition QUEUED → PROCESSING. If it fails, another worker has the run.
abbrev pub take_run : Job → Run → World → Begun × World
take_run job run w =
    let (success, runs') =
      update_with_version_check job.run_id job.tenant_id run.version (start_updates job)
        (status_is Status.queued ∷ []) job.started_at w.runs in
    (if success then started run else stopped delete_message, record w { runs = runs' })

abbrev pub by_status : Job → Run → Option Verdict → World → Begun × World
by_status job run none w = take_run job run w
by_status job run (some v) w = (stopped v, w)

abbrev pub by_row : Job → Option Run → World → Begun × World
by_row job none w = (stopped delete_message, w)
by_row job (some run) w = by_status job run (status_verdict run.status) w

unfoldable pub begin_run : Job → World → Begun × World
begin_run job w = by_row job (get_by_id job.run_id job.tenant_id w.runs) w

-- COMMITTED, or in a terminal status.
abbrev pub is_finalized : Run → Bool
is_finalized run =
    is_stage run.finalize_stage Stage.committed
    || (is_status run.status Status.completed
        || (is_status run.status Status.failed
            || (is_status run.status Status.timed_out || is_status run.status Status.cancelled)))

-- After a lost claim the run is read again.
abbrev pub loser_verdict : Option Run → Verdict
loser_verdict none = keep_message
loser_verdict (some run) = if is_finalized run then delete_message else keep_message

abbrev pub after_loss : Job → World → Verdict × World
after_loss job w = (loser_verdict (get_by_id job.run_id job.tenant_id w.runs), w)

abbrev pub by_failure : Job → Result FinalizeError Unit × World → Verdict × World
by_failure job (ok _, w) = (delete_message, w)
by_failure job (err claim_error, w) = after_loss job w
by_failure job (err finalize_error, w) = (raised, w)

-- The handler of every exception behind the start.
unfoldable pub fail_run : Job → Run → World → Verdict × World
fail_run job run w = by_failure job (
    finalize_failure job.run_id job.tenant_id job.lease_token run.minimum_fee_usd_micros
      "PACK_EXECUTION_FAILED" job.error_detail job.failure_token job.finalized_at w)

abbrev pub by_commit : Job → Run → Result FinalizeError Unit × World → Verdict × World
by_commit job run (ok _, w) = (delete_message, w)
by_commit job run (err _, w) = fail_run job run w

-- The upload, which raises or not, and the commit behind it.
abbrev pub by_upload : Job → Run → ℤ × ℕ → Bool → ℕ × ℕ → World → Verdict × World
by_upload job run result false claim w = fail_run job run w
by_upload job run (cost, sha256) true claim w = by_commit job run (
    commit_finalize job.run_id job.tenant_id claim.0 claim.1 cost Status.completed
      (result_updates job.result_bucket job.s3_key sha256) job.finalized_at w)

abbrev pub by_claim :
    Job → Run → ℤ × ℕ → Bool → Result FinalizeError (ℕ × ℕ) × World → Verdict × World
by_claim job run result upload (ok claim, w) = by_upload job run result upload claim w
by_claim job run result upload (err claim_error, w) = after_loss job w
by_claim job run result upload (err finalize_error, w) = fail_run job run w

-- The cost and the hash of the envelope; `none` is an exception, also for an unknown pack type.
abbrev pub by_execution : Job → Run → Option (ℤ × ℕ) → Bool → World → Verdict × World
by_execution job run none upload w = fail_run job run w
by_execution job run (some result) upload w = by_claim job run result upload (
    claim_finalize job.run_id job.tenant_id (lease_token_is (some job.lease_token) ∷ [])
      job.finalize_token job.finalized_at w)

abbrev pub by_start : Job → (Run → Option (ℤ × ℕ)) → Bool → Begun × World → Verdict × World
by_start job execute upload (stopped v, w) = (v, w)
by_start job execute upload (started run, w) =
    by_execution job run (execute run) upload (send_heartbeats job job.ticks (run.version + 1, w)).1

unfoldable pub process_message : Job → (Run → Option (ℤ × ℕ)) → Bool → World → Verdict × World
process_message job execute upload w = by_start job execute upload (begin_run job w)
