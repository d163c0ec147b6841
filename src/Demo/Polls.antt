-- ===== src/Demo/Polls.antt =====
-- Polling a demo run: `get_demo_run` of dpp/apps/api/dpp_api/routers/demo_runs.py, with the time-out of
-- runs that hang and the tombstones.
use decisionproof.Base.{
  ℕ, ◌+◌, ◌-◌, ◌*◌, pos, ◌-ℤ◌, Bool, true, false, ◌&&◌, Option, none, some, ltb, leb, eqb,
  if◌then◌else◌, lookup, insert, erase, nat_eq, pair_eq,
}
use decisionproof.Demo.{
  DemoReply, DemoRun, DemoStatus, DemoStore, DemoPlan, active_or_zero, check_rpm, count_or_zero,
  incr_kept, live_value, pending, plan_limits, problem, put_run, result, tombstone_ttl_s,
}

abbrev pub is_running : DemoStatus → Bool
is_running DemoStatus.queued = true
is_running DemoStatus.processing = true
is_running status = false

abbrev pub at_least_one : ℕ → ℕ
at_least_one n = if ltb n 1 then 1 else n

abbrev pub time_out : ℕ → DemoRun → ℕ → DemoStore → DemoRun × DemoStore
time_out id run now s =
    let run' : DemoRun = record run { status = DemoStatus.timeout } in
    let count = active_or_zero (lookup run.actor_key s.active) -ℤ pos 1 in
    (
      run',
      put_run id run' (at_least_one (run.retention_until - now)) now
          (record s { active = insert run.actor_key count s.active }),
    )

-- The run as it is answered, and the store.
unfoldable pub maybe_enforce_zombie : ℕ → DemoRun → ℕ → DemoStore → DemoRun × DemoStore
maybe_enforce_zombie id run now s =
    if is_running run.status && ltb (run.created_at + (plan_limits run.plan).zombie_timeout_s) now
    then time_out id run now s
    else (run, s)

abbrev pub create_tombstone : ℕ → ℕ → ℕ → DemoStore → DemoStore
create_tombstone id owner now s = record s {
  tombstones =
      insert id (record { value = owner; expires_at = now + tombstone_ttl_s }) s.tombstones;
}

abbrev pub gone_for : ℕ → ℕ → DemoReply
gone_for owner actor = if eqb owner actor then problem 410 else problem 404

abbrev pub answer_run : ℕ → Bool → DemoRun → DemoStatus → DemoReply
answer_run id can_sign run DemoStatus.completed =
    result id run.created_at run.plan (run.is_in_s3 && can_sign)
answer_run id can_sign run status = pending id status run.created_at run.plan

-- A poll that passes is counted.
abbrev pub track : DemoPlan → ℕ → ℕ → ℕ → DemoStore → DemoStore
track plan actor id now s = record s {
  poll_last =
      insert (actor, id) (record { value = now; expires_at = now + tombstone_ttl_s }) s.poll_last;
  poll_counts =
      insert (actor, id)
        (incr_kept now ((plan_limits plan).retention_days * 86400)
          (lookup (actor, id) s.poll_counts))
        s.poll_counts;
}

abbrev pub is_too_fast : (interval now : ℕ) → Option ℕ → Bool
is_too_fast interval now none = false
is_too_fast interval now (some last) = ltb now (last + interval)

unfoldable pub poll : DemoPlan → ℕ → ℕ → Bool → DemoRun → ℕ → DemoStore → DemoReply × DemoStore
poll plan actor id can_sign run now s =
    if is_too_fast (plan_limits plan).poll_min_interval_s now
      (live_value now (lookup (actor, id) s.poll_last))
    then (problem 429, s)
    else if leb (plan_limits plan).poll_max_count
        (count_or_zero (live_value now (lookup (actor, id) s.poll_counts)))
    then (problem 429, s)
    else (answer_run id can_sign run run.status, track plan actor id now s)

abbrev pub by_run : DemoPlan → ℕ → ℕ → Bool → Option DemoRun → ℕ → DemoStore → DemoReply × DemoStore
by_run plan actor id can_sign none now s = (problem 404, s)
by_run plan actor id can_sign (some run) now s =
    if ltb run.retention_until now
    then (
      gone_for run.owner_key actor,
      (let s1 = create_tombstone id run.owner_key now s in record s1 { runs = erase id s1.runs }),
    )
    else let (run', s1) = maybe_enforce_zombie id run now s in
      poll plan actor id can_sign run' now s1

abbrev pub by_tombstone : DemoPlan → ℕ → ℕ → Bool → Option ℕ → ℕ → DemoStore → DemoReply × DemoStore
by_tombstone plan actor id can_sign (some owner) now s = (gone_for owner actor, s)
by_tombstone plan actor id can_sign none now s =
    by_run plan actor id can_sign (live_value now (lookup id s.runs)) now s

unfoldable pub get_demo_run : DemoPlan → ℕ → ℕ → Bool → ℕ → DemoStore → DemoReply × DemoStore
get_demo_run plan actor id can_sign now s =
    let (is_blocked, rates) = check_rpm actor (plan_limits plan).get_rpm now s.get_rates in
    let s1 : DemoStore = record s { get_rates = rates } in
    if is_blocked
    then (problem 429, s1)
    else by_tombstone plan actor id can_sign (live_value now (lookup id s1.tombstones)) now s1
