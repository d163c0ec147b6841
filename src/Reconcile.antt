-- ===== src/Reconcile.antt =====
-- The reconcile loop (dpp/apps/reaper/dpp_reaper/loops/reconcile_loop.py): it ends runs that a worker
-- claimed for finalizing and left. The object store is a parameter. Every exception in a roll-forward
-- or a roll-back becomes False; what it wrote before stays, as in `World`. One iteration is one
-- function. The row that an attempt works with is the object in the session: as it was scanned, until
-- a commit of the session expires it, and after that as it is read again when the attempt begins.
pub mod Recover
pub mod Outcome
pub mod Reread
pub mod Once
pub mod Crash
pub mod Stale
mod Tests
use Prim.Native.String.{String, len}
use decisionproof.Base.{
  ℕ, ◌+◌, ◌*◌, ◌-◌, ℤ, pos, min_ℤ, Bool, true, false, not, ◌&&◌, ◌||◌, Option, none, some, List, [],
  ◌∷◌, eqb, or_default, if◌then◌else◌, lookup, nat_eq,
}
use decisionproof.Budget.{
  Reservation, Receipt, SettleReply, settled, no_reserve, settle, get_reservation,
  get_settlement_receipt,
}
use decisionproof.Runs.{
  Run, Runs, Status, MoneyState, Stage, Condition, stage_is, finalize_token_is, is_status, is_stage,
  before, scan, get_by_id, update_with_version_check,
}
use decisionproof.World.{World, record_usage}
use decisionproof.Finalize.{commit_updates, commit_conditions, error_updates}

-- storage/s3_client.py, as the loop calls it. `none` is an exception. `object_exists` is its Boolean;
-- `actual_cost` is the metadata entry `actual-cost-usd-micros` of `head_object` as an integer, or
-- `none` inside where it is missing or empty; text that is no integer is an exception.
pub record Storage : Type 0 where
  pub object_exists : String → String → Option Bool
  pub actual_cost : String → String → Option (Option ℤ)

-- `finalize_claimed_at < now - minutes`, so far after the epoch that nothing is cut off.
unfoldable pub scan_stuck_claimed_runs : (minutes limit now : ℕ) → Runs → List (ℕ × Run)
scan_stuck_claimed_runs minutes limit now =
    scan
      (λ run.
        is_status run.status Status.processing
        && (is_stage run.finalize_stage Stage.claimed
            && before run.finalize_claimed_at (now - minutes * 60)))
      limit

-- Python's truth of a string that may be None.
abbrev pub truthy : Option String → Option String
truthy none = none
truthy (some s) = if eqb (len s) 0 then none else some s

abbrev pub both : Option String → Option String → Option (String × String)
both (some bucket) (some key) = some (bucket, key)
both (some _) none = none
both none _ = none

abbrev pub pointers : Run → Option (String × String)
pointers run = both (truthy run.result_bucket) (truthy run.result_key)

-- A failing check counts as "does not exist".
abbrev pub exists_at : Storage → Option (String × String) → Bool
exists_at s3 none = false
exists_at s3 (some (bucket, key)) = or_default (s3.object_exists bucket key) false

unfoldable pub check_s3_result_exists : Storage → Run → Bool
check_s3_result_exists s3 run = exists_at s3 (pointers run)

-- The charge read from the object's metadata, else the reserved maximum.
abbrev pub metadata_cost : Storage → Option (String × String) → ℤ → ℤ
metadata_cost s3 none most = most
metadata_cost s3 (some (bucket, key)) most =
    or_default (or_default (s3.actual_cost bucket key) none) most

abbrev pub roll_forward_charge : Storage → Run → ℤ
roll_forward_charge s3 run =
    or_default run.actual_cost_usd_micros
      (metadata_cost s3 (pointers run) run.reservation_max_cost_usd_micros)

abbrev pub roll_back_charge : Run → ℤ
roll_back_charge run = min_ℤ run.minimum_fee_usd_micros run.reservation_max_cost_usd_micros

-- "Record usage": the run is read again and metered.
abbrev pub record_committed : Bool → ℕ → ℕ → ℕ → World → Bool × World
record_committed false run_id tenant now w = (false, w)
record_committed true run_id tenant now w =
    (true, record_usage (get_by_id run_id tenant w.runs) now w)

-- The guarded final commit, and the metering behind it.
unfoldable pub commit_stuck : ℕ → Run → Status → ℤ → (Run → Run) → ℕ → World → Bool × World
commit_stuck run_id run final_status charge extra now w =
    let (won, runs') =
      update_with_version_check run_id run.tenant_id run.version
        (commit_updates final_status charge now extra) (commit_conditions run.finalize_token) now
        w.runs in
    record_committed won run_id run.tenant_id now (record w { runs = runs' })

-- The commit after a settlement that went through.
abbrev pub commit_settled : ℕ → Run → Status → (Run → Run) → ℕ → SettleReply → World → Bool × World
commit_settled run_id run final_status extra now no_reserve w = (false, w)
commit_settled run_id run final_status extra now (settled charge _ _) w =
    commit_stuck run_id run final_status charge extra now w

-- The common course of roll-forward and roll-back: settle, then commit.
unfoldable pub settle_stuck : ℕ → Run → Status → ℤ → (Run → Run) → ℕ → World → Bool × World
settle_stuck run_id run final_status charge extra now w =
    let (reply, r') = settle run.tenant_id run_id charge (now * 1000) w.redis in
    commit_settled run_id run final_status extra now reply (record w { redis = r' })

unfoldable pub roll_forward_stuck_run : Storage → ℕ → Run → ℕ → World → Bool × World
unfolding settle_stuck
roll_forward_stuck_run s3 run_id run =
    settle_stuck run_id run Status.completed (roll_forward_charge s3 run) (λ r. r)

unfoldable pub roll_back_stuck_run : ℕ → Run → ℕ → World → Bool × World
unfolding settle_stuck
roll_back_stuck_run run_id run = settle_stuck run_id run Status.failed (roll_back_charge run) (
    error_updates "WORKER_CRASH_DURING_FINALIZE"
      "Worker crashed after claim but before S3 upload completed")

unfoldable pub reconcile_stuck_run : Storage → ℕ → Run → ℕ → World → Bool × World
unfolding roll_forward_stuck_run roll_back_stuck_run
reconcile_stuck_run s3 run_id run now w =
    if check_s3_result_exists s3 run
    then roll_forward_stuck_run s3 run_id run now w
    else roll_back_stuck_run run_id run now w

-- The updates without a receipt.
abbrev pub audit_updates : ℕ → Run → Run
audit_updates now run = record run {
  status = Status.failed;
  money_state = MoneyState.audit_required;
  actual_cost_usd_micros = some (pos 0);
  finalize_stage = Stage.committed;
  last_error_reason_code = some "MS6_NO_SETTLEMENT_RECEIPT";
  last_error_detail =
      some "Reservation missing with no settlement receipt (manual reconciliation required)";
  completed_at = some now;
}

unfoldable pub mark_for_audit : ℕ → Run → ℕ → World → Bool × World
mark_for_audit run_id run now w =
    let (won, runs') =
      update_with_version_check run_id run.tenant_id run.version (audit_updates now) [] now
        w.runs in
    (won, record w { runs = runs' })

abbrev pub receipt_status : Bool → Status
receipt_status true = Status.completed
receipt_status false = Status.failed

abbrev pub receipt_error : Bool → Run → Run
receipt_error true run = run
receipt_error false run =
    error_updates "MS6_S3_MISSING_AFTER_SETTLEMENT"
      "S3 upload missing despite successful settlement" run

unfoldable pub commit_receipt : Storage → ℕ → Run → Receipt → ℕ → World → Bool × World
unfolding commit_stuck
commit_receipt s3 run_id run receipt now w =
    if eqb receipt.tenant_id run.tenant_id
    then commit_stuck run_id run (receipt_status (check_s3_result_exists s3 run))
        receipt.charged_usd_micros (receipt_error (check_s3_result_exists s3 run)) now w
    else (false, w)

-- By what Redis has of the run: its reservation, and its settlement receipt.
abbrev pub by_proof :
    Storage → ℕ → Run → ℕ → Option Reservation → Option Receipt → World → Bool × World
by_proof s3 run_id run now (some _) receipt w = reconcile_stuck_run s3 run_id run now w
by_proof s3 run_id run now none (some receipt) w = commit_receipt s3 run_id run receipt now w
by_proof s3 run_id run now none none w = mark_for_audit run_id run now w

unfoldable pub reconcile_stuck_claimed_run : Storage → ℕ → Run → ℕ → World → Bool × World
reconcile_stuck_claimed_run s3 run_id run now w =
    by_proof s3 run_id run now (get_reservation run.tenant_id run_id w.redis)
      (get_settlement_receipt run.tenant_id run_id w.redis) w

-- `updated_run and updated_run.status == "COMPLETED"`
abbrev pub is_completed : Option Run → Bool
is_completed none = false
is_completed (some run) = is_status run.status Status.completed

-- Roll-forwards and roll-backs.
abbrev pub tally : Bool → Bool → ℕ × ℕ → ℕ × ℕ
tally true true (forwards, backs) = (forwards + 1, backs)
tally true false (forwards, backs) = (forwards, backs + 1)
tally false _ counts = counts

-- A session expires its objects when it commits; the next access reads the row again, and raises if
-- it is not there.
abbrev pub reload : Bool → ℕ → Run → Runs → Option Run
reload false run_id run runs = some run
reload true run_id run runs = lookup run_id runs

-- Whether an attempt comes to a commit: on every path but for a receipt of another tenant.
abbrev pub commits_by : Run → Option Reservation → Option Receipt → Bool
commits_by run (some _) receipt = true
commits_by run none (some receipt) = eqb receipt.tenant_id run.tenant_id
commits_by run none none = true

abbrev pub commits : ℕ → Run → World → Bool
commits run_id run w =
    commits_by run (get_reservation run.tenant_id run_id w.redis)
      (get_settlement_receipt run.tenant_id run_id w.redis)

-- The rows of a scan one after the other; `meanwhile` is what other processes do before each. A row
-- that is gone ends the iteration.
unfoldable pub reconcile_all :
    Storage
    → (now : ℕ → ℕ) → (meanwhile : ℕ → World → World) → (is_expired : Bool) → List (ℕ × Run)
    → World
    → (ℕ × ℕ) × World
reconcile_all s3 now meanwhile is_expired [] w = ((0, 0), w)
reconcile_all s3 now meanwhile is_expired ((run_id, run) ∷ runs) w =
    let w0 = meanwhile run_id w in
    elim (reload is_expired run_id run w0.runs) [
      | none ↦ ((0, 0), w0)
      | some held ↦
          let (success, w1) = reconcile_stuck_claimed_run s3 run_id held (now run_id) w0 in
          let (counts, w2) =
            reconcile_all s3 now meanwhile (is_expired || commits run_id held w0) runs w1 in
          (tally success (is_completed (get_by_id run_id held.tenant_id w1.runs)) counts, w2)
    ]

unfoldable pub reconcile_iteration :
    Storage
    → (minutes limit scanned_at : ℕ) → (now : ℕ → ℕ) → (meanwhile : ℕ → World → World) → World
    → (ℕ × ℕ) × World
reconcile_iteration s3 minutes limit scanned_at now meanwhile w =
    reconcile_all s3 now meanwhile false (scan_stuck_claimed_runs minutes limit scanned_at w.runs) w
