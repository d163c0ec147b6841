-- ===== src/Demo.antt =====
-- The demo runs: dpp/apps/api/dpp_api/routers/demo_runs.py. The store is Redis, with one table for each
-- kind of key; the fallback in memory is left out. Instants are seconds, one for each request, and
-- for a submission one more, at which the run is stored; actors, hashes and secrets are numbers.
pub mod Polls
pub mod Keeps
pub mod Expiry
mod Tests
use decisionproof.Base.{
  ℕ, ◌+◌, ◌-◌, ◌*◌, ℤ, pos, ◌-ℤ◌, ltb_ℤ, Bool, true, false, not, ◌&&◌, ◌||◌, Option, none, some,
  List, [], ◌∷◌, ltb, leb, eqb, if◌then◌else◌, Dict, lookup, insert, erase, nat_eq, pair_eq,
}

pub data DemoPlan : Type 0 where
  basic pro : DemoPlan

-- An entry of PLAN_LIMITS.
pub record Limits : Type 0 where
  pub post_rpm : ℕ
  pub get_rpm : ℕ
  pub poll_min_interval_s : ℕ
  pub poll_max_count : ℕ
  pub max_active : ℕ
  pub zombie_timeout_s : ℕ
  pub retention_days : ℕ
  pub poll_delay_ms : ℕ

abbrev pub plan_limits : DemoPlan → Limits
plan_limits DemoPlan.basic = record {
  post_rpm = 6;
  get_rpm = 24;
  poll_min_interval_s = 3;
  poll_max_count = 40;
  max_active = 1;
  zombie_timeout_s = 300;
  retention_days = 7;
  poll_delay_ms = 3000;
}
plan_limits DemoPlan.pro = record {
  post_rpm = 24;
  get_rpm = 96;
  poll_min_interval_s = 2;
  poll_max_count = 60;
  max_active = 3;
  zombie_timeout_s = 600;
  retention_days = 30;
  poll_delay_ms = 2000;
}

abbrev pub tombstone_ttl_s : ℕ
tombstone_ttl_s = 90 * 24 * 3600

abbrev pub max_body_bytes : ℕ
max_body_bytes = 4096

pub data DemoStatus : Type 0 where
  queued processing completed timeout : DemoStatus

pub record DemoRun : Type 0 where
  pub status : DemoStatus
  pub plan : DemoPlan
  pub created_at : ℕ
  pub owner_key : ℕ
  pub actor_key : ℕ
  pub inputs_hash : ℕ
  pub inputs_len : ℕ
  pub retention_until : ℕ
  pub is_in_s3 : Bool

-- A value with the instant from which its key is gone.
pub record Kept (A : Type 0) : Type 0 where
  pub value : A
  pub expires_at : ℕ

pub record DemoStore : Type 0 where
  pub runs : Dict ℕ (Kept DemoRun)
  pub tombstones : Dict ℕ (Kept ℕ)
  pub post_rates : Dict ℕ (Kept ℕ)
  pub get_rates : Dict ℕ (Kept ℕ)
  pub active : Dict ℕ ℤ
  pub poll_counts : Dict (ℕ × ℕ) (Kept ℕ)
  pub poll_last : Dict (ℕ × ℕ) (Kept ℕ)

-- `_store_get` of a key with a time to live.
abbrev pub live_value : {A : Type 0} → ℕ → Option (Kept A) → Option A
live_value now none = none
live_value now (some k) = if ltb now k.expires_at then some k.value else none

-- `_store_incr`: the time to live is set with the first count.
abbrev pub incr_kept : (now ex : ℕ) → Option (Kept ℕ) → Kept ℕ
incr_kept now ex none = record { value = 1; expires_at = now + ex }
incr_kept now ex (some k) =
    if ltb now k.expires_at
    then record { value = k.value + 1; expires_at = k.expires_at }
    else record { value = 1; expires_at = now + ex }

abbrev pub count_or_zero : Option ℕ → ℕ
count_or_zero none = 0
count_or_zero (some n) = n

abbrev pub active_or_zero : Option ℤ → ℤ
active_or_zero none = pos 0
active_or_zero (some n) = n

-- `_check_rpm`: whether the request is blocked, and the counters after it.
unfoldable pub check_rpm : ℕ → (limit now : ℕ) → Dict ℕ (Kept ℕ) → Bool × Dict ℕ (Kept ℕ)
check_rpm actor limit now rates =
    let k = incr_kept now 60 (lookup actor rates) in (ltb limit k.value, insert actor k rates)

pub data DemoReply : Type 0 where
  receipt : (run_id poll_delay_ms : ℕ) (plan : DemoPlan) → DemoReply
  result : (run_id created_at : ℕ) (plan : DemoPlan) (has_download : Bool) → DemoReply
  pending : (run_id : ℕ) (status : DemoStatus) (created_at : ℕ) (plan : DemoPlan) → DemoReply
  problem : ℕ → DemoReply

-- The Authorization header: absent or empty, without `Bearer `, or a token.
pub data AuthHeader : Type 0 where
  no_header other_scheme : AuthHeader
  bearer : ℕ → AuthHeader

abbrev pub bearer_error : Option ℕ → AuthHeader → Option ℕ
bearer_error none auth = none
bearer_error (some expected) no_header = none
bearer_error (some expected) other_scheme = some 401
bearer_error (some expected) (bearer token) = if eqb token expected then none else some 401

-- The status of the HTTPException, or none.
unfoldable pub verify_rapid_auth : (proxy_secret token : Option ℕ) → ℕ → AuthHeader → Option ℕ
verify_rapid_auth none token provided auth = some 503
verify_rapid_auth (some expected) token provided auth =
    if eqb provided expected then bearer_error token auth else some 401

-- What parsing and validation make of the body.
pub data Parsed : Type 0 where
  not_json invalid : Parsed
  question : (hash length : ℕ) → Parsed

-- What a submission brings and meets: its body, the new id, whether the upload of the result went
-- through, and the instant after it at which the run is stored.
pub record Draft : Type 0 where
  pub body_bytes : ℕ
  pub parsed : Parsed
  pub run_id : ℕ
  pub is_uploaded : Bool
  pub stored_at : ℕ

abbrev pub retention_s : DemoPlan → ℕ
retention_s plan = (plan_limits plan).retention_days * 24 * 3600

abbrev pub demo_run : DemoPlan → ℕ → (hash length : ℕ) → Bool → ℕ → DemoRun
demo_run plan actor hash length is_uploaded now = record {
  status = DemoStatus.completed;
  plan = plan;
  created_at = now;
  owner_key = actor;
  actor_key = actor;
  inputs_hash = hash;
  inputs_len = length;
  retention_until = now + retention_s plan;
  is_in_s3 = is_uploaded;
}

abbrev pub put_run : ℕ → DemoRun → (ex now : ℕ) → DemoStore → DemoStore
put_run id run ex now s = record s {
  runs = insert id (record { value = run; expires_at = now + ex }) s.runs;
}

abbrev pub by_active :
    DemoPlan → ℕ → Draft → (hash length now : ℕ) → DemoStore → DemoReply × DemoStore
by_active plan actor d hash length now s =
    if ltb_ℤ (active_or_zero (lookup actor s.active)) (pos (plan_limits plan).max_active)
    then (
      receipt d.run_id (plan_limits plan).poll_delay_ms plan,
      put_run d.run_id (demo_run plan actor hash length d.is_uploaded now) (retention_s plan)
          d.stored_at s,
    )
    else (problem 429, s)

abbrev pub by_parsed : DemoPlan → ℕ → Draft → Parsed → ℕ → DemoStore → DemoReply × DemoStore
by_parsed plan actor d not_json now s = (problem 422, s)
by_parsed plan actor d invalid now s = (problem 422, s)
by_parsed plan actor d (question hash length) now s = by_active plan actor d hash length now s

unfoldable pub create_demo_run : DemoPlan → ℕ → Draft → ℕ → DemoStore → DemoReply × DemoStore
create_demo_run plan actor d now s =
    let (is_blocked, rates) = check_rpm actor (plan_limits plan).post_rpm now s.post_rates in
    let s1 : DemoStore = record s { post_rates = rates } in
    if is_blocked
    then (problem 429, s1)
    else if ltb max_body_bytes d.body_bytes
    then (problem 413, s1)
    else by_parsed plan actor d d.parsed now s1
