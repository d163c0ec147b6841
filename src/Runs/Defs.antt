-- ===== src/Runs/Defs.antt =====
-- The rows, and the statements of `RunRepository`.
use Prim.Native.String.{String}
use decisionproof.Base.{
  ℕ, zero, suc, ◌+◌, ℤ, Bool, true, false, ◌&&◌, Option, none, some, List, [], ◌∷◌, ltb, eqb,
  eqb_option, is_some, if◌then◌else◌, Dict, lookup, insert, nat_eq,
}

-- QUEUED, PROCESSING, COMPLETED, FAILED, TIMED_OUT, CANCELLED; the column is free text, so any
-- other value is `other`.
pub data Status : Type 0 where
  queued processing completed failed timed_out cancelled other : Status

-- NONE, RESERVED, SETTLED, REFUNDED, AUDIT_REQUIRED.
pub data MoneyState : Type 0 where
  unreserved reserved settled refunded audit_required : MoneyState

-- `finalize_stage`: NULL, CLAIMED, COMMITTED.
pub data Stage : Type 0 where
  null claimed committed : Stage

abbrev pub is_status : Status → Status → Bool
is_status Status.queued Status.queued = true
is_status Status.processing Status.processing = true
is_status Status.completed Status.completed = true
is_status Status.failed Status.failed = true
is_status Status.timed_out Status.timed_out = true
is_status Status.cancelled Status.cancelled = true
is_status Status.other Status.other = true
is_status _ _ = false

abbrev pub is_money_state : MoneyState → MoneyState → Bool
is_money_state MoneyState.unreserved MoneyState.unreserved = true
is_money_state MoneyState.reserved MoneyState.reserved = true
is_money_state MoneyState.settled MoneyState.settled = true
is_money_state MoneyState.refunded MoneyState.refunded = true
is_money_state MoneyState.audit_required MoneyState.audit_required = true
is_money_state _ _ = false

abbrev pub is_stage : Stage → Stage → Bool
is_stage Stage.null Stage.null = true
is_stage Stage.claimed Stage.claimed = true
is_stage Stage.committed Stage.committed = true
is_stage _ _ = false

pub record Run : Type 0 where
  pub tenant_id : ℕ
  pub pack_type : ℕ
  pub profile_version : ℕ
  pub status : Status
  pub money_state : MoneyState
  pub idempotency_key : Option ℕ
  pub payload_hash : ℕ
  pub version : ℕ
  pub reservation_max_cost_usd_micros : ℤ
  pub actual_cost_usd_micros : Option ℤ
  pub minimum_fee_usd_micros : ℤ
  pub timebox_sec : Option ℕ
  pub inputs_json : Option ℕ
  pub result_bucket : Option String
  pub result_key : Option String
  pub result_sha256 : Option ℕ
  pub retention_until : ℕ
  pub lease_token : Option ℕ
  pub lease_expires_at : Option ℕ
  pub finalize_token : Option ℕ
  pub finalize_stage : Stage
  pub finalize_claimed_at : Option ℕ
  pub completed_at : Option ℕ
  pub last_error_reason_code : Option String
  pub last_error_detail : Option String
  pub trace_id : Option ℕ
  pub created_at : ℕ
  pub updated_at : ℕ

-- Under the primary key `run_id`.
abbrev pub Runs : Type 0
Runs = Dict ℕ Run

-- The entries of `extra_conditions` that the program passes. `None` as the value is `IS NULL`.
pub data Condition : Type 0 where
  status_is : Status → Condition
  stage_is : Stage → Condition
  lease_token_is : Option ℕ → Condition
  finalize_token_is : Option ℕ → Condition

abbrev pub holds : Condition → Run → Bool
holds (status_is s) run = is_status run.status s
holds (stage_is s) run = is_stage run.finalize_stage s
holds (lease_token_is t) run = eqb_option run.lease_token t
holds (finalize_token_is t) run = eqb_option run.finalize_token t

abbrev pub all_hold : List Condition → Run → Bool
all_hold [] run = true
all_hold (c ∷ cs) run = holds c run && all_hold cs run

-- The WHERE clause of `update_with_version_check`, beside the primary key.
abbrev pub matches : ℕ → ℕ → List Condition → Run → Bool
matches tenant expected conditions run =
    eqb run.tenant_id tenant && (eqb run.version expected && all_hold conditions run)

-- `updates["version"] = expected_version + 1`, `updates["updated_at"] = now`, over what the caller
-- assigns.
abbrev pub bump : ℕ → ℕ → (Run → Run) → Run → Run
bump expected now updates run = record (updates run) { version = expected + 1; updated_at = now }

unfoldable pub get_by_id : ℕ → ℕ → Runs → Option Run
get_by_id run_id tenant runs = elim (lookup run_id runs) [
  | none ↦ none
  | some run ↦ if eqb run.tenant_id tenant then some run else none
]

unfoldable pub get_by_idempotency_key : ℕ → ℕ → Runs → Option (ℕ × Run)
get_by_idempotency_key tenant key [] = none
get_by_idempotency_key tenant key ((run_id, run) ∷ runs) =
    if eqb run.tenant_id tenant && eqb_option run.idempotency_key (some key)
    then some (run_id, run)
    else get_by_idempotency_key tenant key runs

-- `IntegrityError`, by the constraint that fails.
pub data CreateError : Type 0 where
  primary_key : CreateError
  uq_runs_tenant_idempotency : CreateError

-- A NULL idempotency key is in no one's way.
abbrev pub same_key : ℕ → Option ℕ → Runs → Bool
same_key tenant none runs = false
same_key tenant (some key) runs = is_some (get_by_idempotency_key tenant key runs)

-- `create`: the error, or the table with the new row.
pub data Created : Type 0 where
  created : Runs → Created
  rejected : CreateError → Created

unfoldable pub create : ℕ → Run → Runs → Created
create run_id run runs =
    if is_some (lookup run_id runs)
    then rejected primary_key
    else if same_key run.tenant_id run.idempotency_key runs
    then rejected uq_runs_tenant_idempotency
    else created (insert run_id run runs)

-- True, and the row changed, if one row matches; else false, and nothing changed.
unfoldable pub update_with_version_check :
    ℕ → ℕ → ℕ → (Run → Run) → List Condition → ℕ → Runs → Bool × Runs
update_with_version_check run_id tenant expected updates conditions now runs =
    elim (lookup run_id runs) [
      | none ↦ (false, runs)
      | some run ↦
          if matches tenant expected conditions run
          then (true, insert run_id (bump expected now updates run) runs)
          else (false, runs)
    ]

-- `claim_for_processing`, which no caller uses, sets the lease without a new version.
unfoldable pub claim_for_processing : ℕ → ℕ → ℕ → ℕ → Runs → Option Run × Runs
claim_for_processing run_id token expires now runs = elim (lookup run_id runs) [
  | none ↦ (none, runs)
  | some run ↦
      let run' = record run {
        status = Status.processing;
        lease_token = some token;
        lease_expires_at = some expires;
        updated_at = now;
      } in
      if is_status run.status Status.queued
      then (some run', insert run_id run' runs)
      else (none, runs)
]

-- `force_update_claimed_only`: `none` is the `ValueError` of its two validations. The caller's
-- assignments are given with the money state and the stage that they set.
unfoldable pub force_update_claimed_only :
    ℕ → (Run → Run) → Option MoneyState → Option Stage → ℕ → Runs → Option (Bool × Runs)
force_update_claimed_only run_id updates (some MoneyState.settled) (some Stage.committed) now runs =
    elim (lookup run_id runs) [
      | none ↦ some (false, runs)
      | some run ↦
          if is_stage run.finalize_stage Stage.claimed
            && is_money_state run.money_state MoneyState.reserved
          then some (
            true,
            insert run_id
                (record (updates run) {
                  money_state = MoneyState.settled;
                  finalize_stage = Stage.committed;
                  updated_at = now;
                })
                runs,
          )
          else some (false, runs)
    ]
force_update_claimed_only run_id updates _ _ now runs = none

-- A SELECT with a LIMIT: the first rows that the test lets through, in the table's order.
unfoldable pub scan : (Run → Bool) → ℕ → Runs → List (ℕ × Run)
scan test zero runs = []
scan test (suc limit) [] = []
scan test (suc limit) ((run_id, run) ∷ runs) =
    let here = (run_id, run) ∷ scan test limit runs in
    let past = scan test (suc limit) runs in if test run then here else past

-- `lease_expires_at < now`, which NULL does not meet.
abbrev pub before : Option ℕ → ℕ → Bool
before none now = false
before (some t) now = ltb t now

unfoldable pub list_expired_leases : ℕ → ℕ → Runs → List (ℕ × Run)
unfolding scan
list_expired_leases limit now =
    scan (λ run. is_status run.status Status.processing && before run.lease_expires_at now) limit
