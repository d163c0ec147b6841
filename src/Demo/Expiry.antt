-- ===== src/Demo/Expiry.antt =====
-- What becomes of a demo run that was submitted, over any requests after it.
use decisionproof.Base.{
  ℕ, ◌+◌, ◌≤◌, ◌≡◌, refl, ap, inl, inr, Bool, true, false, ◌&&◌, none, List, [], ◌∷◌, arith, ltb,
  leb, eqb, eqb_iff, if◌then◌else◌, lookup, lookup-insert_self, nat_eq, pair_eq, Bool-cases,
}
use decisionproof.Demo.{
  DemoPlan, plan_limits, DemoStatus, DemoRun, Kept, DemoStore, live_value, count_or_zero, check_rpm,
  DemoReply, receipt, result, problem, Draft, create_demo_run, demo_run, retention_s,
}
use decisionproof.Demo.Polls.{
  maybe_enforce_zombie, is_too_fast, gone_for, answer_run, poll, by_run, get_demo_run,
}
use decisionproof.Demo.Keeps.{
  DemoCall, create, get, serve_all, AreEarly, IsThere, receipt-IsSubmitted, create-IsThere,
  polled-IsThere, other-IsThere,
}

-- A poll in time: 429 if the actor's last poll of the run is too near or its polls are used up.
abbrev pub paced : DemoPlan → ℕ → ℕ → ℕ → DemoStore → DemoReply → DemoReply
paced plan actor id now s reply =
    if is_too_fast (plan_limits plan).poll_min_interval_s now
      (live_value now (lookup (actor, id) s.poll_last))
    then problem 429
    else if leb (plan_limits plan).poll_max_count
        (count_or_zero (live_value now (lookup (actor, id) s.poll_counts)))
    then problem 429
    else reply

-- What a poll answers while the actor's polls of the minute are not used up.
abbrev pub outcome : DemoPlan → ℕ → ℕ → Bool → ℕ → DemoStore → Kept DemoRun → DemoReply
outcome plan actor id can_sign now s k =
    if leb k.expires_at now
    then problem 404
    else if ltb k.value.retention_until now
    then gone_for k.value.owner_key actor
    else paced plan actor id now s
        (result id k.value.created_at k.value.plan (k.value.is_in_s3 && can_sign))

module _ (id : ℕ) (k : Kept DemoRun) (done : k.value.status ≡ DemoStatus.completed)
    (plan : DemoPlan) (actor : ℕ) (can_sign : Bool) (now : ℕ) (s : DemoStore) where
  -- A completed run is never timed out.
  still : maybe_enforce_zombie id k.value now s ≡ (k.value, s)
  unfolding maybe_enforce_zombie
  still = ground (arith, done)

  paced-poll :
      (poll plan actor id can_sign k.value now s).0
      ≡ paced plan actor id now s
          (result id k.value.created_at k.value.plan (k.value.is_in_s3 && can_sign))
  unfolding poll
  paced-poll =
      elim (Bool-cases (
        is_too_fast (plan_limits plan).poll_min_interval_s now
          (live_value now (lookup (actor, id) s.poll_last)))) [
            | inl fast ↦ rw fast refl
            | inr slow ↦
                rw slow
                  (elim (Bool-cases (
                    leb (plan_limits plan).poll_max_count
                      (count_or_zero (live_value now (lookup (actor, id) s.poll_counts))))) [
                        | inl many ↦ rw many refl
                        | inr few ↦ rw few (ap (answer_run id can_sign k.value) done)
                      ])
          ]

  -- The two sides of a poll of the run: its answer, and that a poll in time leaves it there.
  abbrev Polls : DemoReply × DemoStore → Type 0
  Polls x =
      (x.0 ≡ outcome plan actor id can_sign now s k)
      × (now ≤ k.value.retention_until → IsThere id k x.1)

  found-Polls :
      IsThere id k s
      → Polls (by_run plan actor id can_sign (live_value now (lookup id s.runs)) now s)
  found-Polls h = rw h.there (elim (Bool-cases (leb k.expires_at now)) [
    | inl gone ↦
        let dead : ltb now k.expires_at ≡ false = ground (arith, gone) in
        rw (gone, dead) (refl, λ le. h)
    | inr stays ↦
        let alive : ltb now k.expires_at ≡ true = ground (arith, stays) in
        rw (stays, alive)
          (elim (Bool-cases (ltb k.value.retention_until now)) [
            | inl past ↦ rw past (refl, λ le. absurd (ground (arith, past, le)))
            | inr kept ↦
                rw (kept, still)
                  (paced-poll, λ le. polled-IsThere id k plan actor id can_sign k.value now s h)
          ])
  ])

own-poll :
    (id : ℕ) (k : Kept DemoRun) (plan : DemoPlan) (actor : ℕ) (can_sign : Bool) (now : ℕ)
    (s : DemoStore)
    → k.value.status ≡ DemoStatus.completed
    → IsThere id k s
    → let x = get_demo_run plan actor id can_sign now s in
      (x.0 ≡ (
        if (check_rpm actor (plan_limits plan).get_rpm now s.get_rates).0
        then problem 429
        else outcome plan actor id can_sign now s k))
      × (now ≤ k.value.retention_until → IsThere id k x.1)
unfolding get_demo_run
own-poll id k plan actor can_sign now s done h =
    elim (Bool-cases (check_rpm actor (plan_limits plan).get_rpm now s.get_rates).0) [
      | inl blocked ↦ rw blocked (refl, λ le. record { there = h.there; unmarked = h.unmarked })
      | inr passed ↦
          let rates = (check_rpm actor (plan_limits plan).get_rpm now s.get_rates).1 in
          rw (passed, h.unmarked)
            (found-Polls id k done plan actor can_sign now (record s { get_rates = rates })
              (record { there = h.there; unmarked = h.unmarked }))
    ]

serve_all-IsThere :
    (id : ℕ) (k : Kept DemoRun) (cs : List (ℕ × DemoCall)) (s : DemoStore)
    → k.value.status ≡ DemoStatus.completed
    → AreEarly id k.value.retention_until cs
    → IsThere id k s
    → IsThere id k (serve_all cs s)
serve_all-IsThere id k [] s done early h = h
serve_all-IsThere id k ((now, create plan actor d) ∷ cs) s done early h =
    serve_all-IsThere id k cs _ done early.1 (create-IsThere id k plan actor d now s early.0 h)
serve_all-IsThere id k ((now, get plan actor j can_sign) ∷ cs) s done early h =
    serve_all-IsThere id k cs (get_demo_run plan actor j can_sign now s).1 done early.1
      (elim (Bool-cases (eqb j id)) [
        | inl same ↦
            rw ((eqb_iff j id).0 same) ((own-poll id k plan actor can_sign now s done h).1 early.0)
        | inr other ↦
            other-IsThere id k plan actor j can_sign now s (λ e. apart other ((eqb_iff j id).1 e)) h
      ])
  where
    apart : {b : Bool} → b ≡ false → b ≡ true → ⊥
    apart p q = cc

-- What becomes of a submission. Let a submission with a new id be answered by a receipt, and let any
-- submissions with other ids and any polls up to the end of its retention follow, by any actors. Then
-- a poll of the run at any instant is answered so. It is 429 if the actor has polled too often in the
-- minute. Else, up to the end of the retention, it is 429 if the actor's last poll of the run is too
-- near or its polls are used up, and else the completed result, with the plan and the instant of the
-- submission, whoever polls. After the end of the retention, while the run is still stored, it is 410
-- for the actor that submitted and 404 for others. Once the key of the run is gone it is 404, for
-- the actor that submitted too.
pub submitted_run :
    (plan plan' : DemoPlan) (actor actor' : ℕ) (d : Draft) (now at delay : ℕ) (can_sign : Bool)
    (s : DemoStore) (cs : List (ℕ × DemoCall))
    → lookup d.run_id s.tombstones ≡ none
    → (create_demo_run plan actor d now s).0 ≡ receipt d.run_id delay plan
    → AreEarly d.run_id (now + retention_s plan) cs
    → let s' = serve_all cs (create_demo_run plan actor d now s).1 in
      (get_demo_run plan' actor' d.run_id can_sign at s').0 ≡ (
        if (check_rpm actor' (plan_limits plan').get_rpm at s'.get_rates).0
        then problem 429
        else if leb (d.stored_at + retention_s plan) at
        then problem 404
        else if ltb (now + retention_s plan) at
        then gone_for actor actor'
        else paced plan' actor' d.run_id at s'
            (result d.run_id now plan (d.is_uploaded && can_sign)))
submitted_run plan plan' actor actor' d now at delay can_sign s cs new made early =
    let (p, marks) = receipt-IsSubmitted plan plan actor d now delay s made in
    let k : Kept DemoRun = record {
      value = demo_run plan actor p.hash p.length d.is_uploaded now;
      expires_at = d.stored_at + retention_s plan;
    } in
    let s1 = (create_demo_run plan actor d now s).1 in
    let there : IsThere d.run_id k s1 = record {
      there = rw p.runs (lookup-insert_self d.run_id k s.runs);
      unmarked = rw marks new;
    } in
    (own-poll d.run_id k plan' actor' can_sign at (serve_all cs s1) refl
      (serve_all-IsThere d.run_id k cs s1 refl early there)).0
