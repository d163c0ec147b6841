-- ===== src/Demo/Keeps.antt =====
-- What requests leave of a demo run that is stored.
use decisionproof.Base.{
  ℕ, ◌+◌, ◌≤◌, ◌≡◌, ◌≢◌, refl, sym, ◌∙◌, ◌⊎◌, inl, inr, Bool, ◌&&◌, Option, none, some, List, [],
  ◌∷◌, arith, ltb_ℤ, pos, ltb, leb, eqb_iff, Dict, lookup, insert, erase, lookup-insert, nat_eq,
  pair_eq, Bool-cases,
}
use decisionproof.Demo.{
  DemoPlan, plan_limits, DemoRun, Kept, DemoStore, live_value, count_or_zero, check_rpm, DemoReply,
  receipt, problem, Draft, Parsed, not_json, invalid, question, create_demo_run, by_parsed,
  demo_run, retention_s, max_body_bytes, active_or_zero,
}
use decisionproof.Demo.Polls.{
  maybe_enforce_zombie, is_too_fast, is_running, poll, by_run, by_tombstone, get_demo_run,
}

pub data DemoCall : Type 0 where
  create : DemoPlan → (actor : ℕ) → Draft → DemoCall
  get : DemoPlan → (actor id : ℕ) (can_sign : Bool) → DemoCall

abbrev pub serve : ℕ → DemoCall → DemoStore → DemoStore
serve now (create plan actor d) s = (create_demo_run plan actor d now s).1
serve now (get plan actor id can_sign) s = (get_demo_run plan actor id can_sign now s).1

abbrev pub serve_all : List (ℕ × DemoCall) → DemoStore → DemoStore
serve_all [] s = s
serve_all ((now, c) ∷ cs) s = serve_all cs (serve now c s)

-- Requests that create no run with the id and poll nothing after an instant.
abbrev pub AreEarly : (id limit : ℕ) → List (ℕ × DemoCall) → Type 0
AreEarly id limit [] = Unit
AreEarly id limit ((now, create plan actor d) ∷ cs) = (d.run_id ≢ id) × AreEarly id limit cs
AreEarly id limit ((now, get plan actor j can_sign) ∷ cs) = (now ≤ limit) × AreEarly id limit cs

-- The run is stored, and has no tombstone.
pub record IsThere (id : ℕ) (k : Kept DemoRun) (s : DemoStore) : Type 0 where
  pub there : lookup id s.runs ≡ some k
  pub unmarked : lookup id s.tombstones ≡ none

-- A submission leaves the runs as they are, or its reply is a receipt and its run is stored.
pub record IsSubmitted (plan : DemoPlan) (actor : ℕ) (d : Draft) (now : ℕ) (s : DemoStore)
    (x : DemoReply × DemoStore) : Type 0 where
  pub hash : ℕ
  pub length : ℕ
  pub runs :
      x.1.runs
      ≡ insert d.run_id
          (record {
            value = demo_run plan actor hash length d.is_uploaded now;
            expires_at = d.stored_at + retention_s plan;
          })
          s.runs

abbrev Submits : DemoPlan → ℕ → Draft → ℕ → DemoStore → DemoReply × DemoStore → Type 0
Submits plan actor d now s x =
    (((status : ℕ) × (x.0 ≡ problem status) × (x.1.runs ≡ s.runs))
      ⊎ IsSubmitted plan actor d now s x)
    × (x.1.tombstones ≡ s.tombstones)

parsed-Submits :
    (plan : DemoPlan) (actor : ℕ) (d : Draft) (p : Parsed) (now : ℕ) (s : DemoStore)
    → Submits plan actor d now s (by_parsed plan actor d p now s)
parsed-Submits plan actor d not_json now s = (inl (422, refl, refl), refl)
parsed-Submits plan actor d invalid now s = (inl (422, refl, refl), refl)
parsed-Submits plan actor d (question hash length) now s =
    elim (Bool-cases
      (ltb_ℤ (active_or_zero (lookup actor s.active)) (pos (plan_limits plan).max_active))) [
        | inl free ↦ rw free (inr (record { hash = hash; length = length; runs = refl }), refl)
        | inr full ↦ rw full (inl (429, refl, refl), refl)
      ]

create-Submits :
    (plan : DemoPlan) (actor : ℕ) (d : Draft) (now : ℕ) (s : DemoStore)
    → Submits plan actor d now s (create_demo_run plan actor d now s)
unfolding create_demo_run
create-Submits plan actor d now s =
    elim (Bool-cases (check_rpm actor (plan_limits plan).post_rpm now s.post_rates).0) [
      | inl blocked ↦ rw blocked (inl (429, refl, refl), refl)
      | inr passed ↦ rw passed (elim (Bool-cases (ltb max_body_bytes d.body_bytes)) [
        | inl large ↦ rw large (inl (413, refl, refl), refl)
        | inr fits ↦
            let rates = (check_rpm actor (plan_limits plan).post_rpm now s.post_rates).1 in
            let x = parsed-Submits plan actor d d.parsed now (record s { post_rates = rates }) in
            rw fits (again x)
      ])
    ]
  where
    again :
        {x : DemoReply × DemoStore} {r : Dict ℕ (Kept ℕ)}
        → Submits plan actor d now (record s { post_rates = r }) x
        → Submits plan actor d now s x
    again (inl e, t) = (inl e, t)
    again (inr e, t) = (inr (record { hash = e.hash; length = e.length; runs = e.runs }), t)

-- A receipt means that the run is stored.
pub receipt-IsSubmitted :
    (plan plan' : DemoPlan) (actor : ℕ) (d : Draft) (now delay : ℕ) (s : DemoStore)
    → (create_demo_run plan actor d now s).0 ≡ receipt d.run_id delay plan'
    → IsSubmitted plan actor d now s (create_demo_run plan actor d now s)
      × ((create_demo_run plan actor d now s).1.tombstones ≡ s.tombstones)
receipt-IsSubmitted plan plan' actor d now delay s made =
    let (runs, marks) = create-Submits plan actor d now s in (by_runs runs, marks)
  where
    x : DemoReply × DemoStore
    x = create_demo_run plan actor d now s

    clash : {status : ℕ} → problem status ≡ receipt d.run_id delay plan' → ⊥
    clash p = cc

    by_runs :
        ((status : ℕ) × (x.0 ≡ problem status) × (x.1.runs ≡ s.runs))
          ⊎ IsSubmitted plan actor d now s x
        → IsSubmitted plan actor d now s x
    by_runs (inl (status, e, same)) = absurd (clash (sym e ∙ made))
    by_runs (inr p) = p

pub create-IsThere :
    (id : ℕ) (k : Kept DemoRun) (plan : DemoPlan) (actor : ℕ) (d : Draft) (now : ℕ) (s : DemoStore)
    → d.run_id ≢ id
    → IsThere id k s
    → IsThere id k (create_demo_run plan actor d now s).1
create-IsThere id k plan actor d now s apart h =
    let (runs, marks) = create-Submits plan actor d now s in
    record { there = by_runs runs; unmarked = rw marks h.unmarked }
  where
    x : DemoReply × DemoStore
    x = create_demo_run plan actor d now s

    by_runs :
        ((status : ℕ) × (x.0 ≡ problem status) × (x.1.runs ≡ s.runs))
          ⊎ IsSubmitted plan actor d now s x
        → lookup id x.1.runs ≡ some k
    by_runs (inl (status, e, same)) = rw same h.there
    by_runs (inr made) =
        rw made.runs
          (lookup-insert d.run_id id _ s.runs ∙ ground (arith, apart, eqb_iff d.run_id id, h.there))

lookup-erase_other :
    (j id : ℕ) (d : Dict ℕ (Kept DemoRun)) → j ≢ id → lookup id (erase j d) ≡ lookup id d
lookup-erase_other j id [] apart = refl
lookup-erase_other j id ((i, k) ∷ d) apart =
    ground (arith, apart, eqb_iff i j, eqb_iff i id, lookup-erase_other j id d apart)

-- A poll is paced: it touches neither runs nor tombstones.
poll-runs :
    (plan : DemoPlan) (actor j : ℕ) (can_sign : Bool) (run : DemoRun) (now : ℕ) (s : DemoStore)
    → ((poll plan actor j can_sign run now s).1.runs ≡ s.runs)
      × ((poll plan actor j can_sign run now s).1.tombstones ≡ s.tombstones)
unfolding poll
poll-runs plan actor j can_sign run now s =
    elim (Bool-cases (
      is_too_fast (plan_limits plan).poll_min_interval_s now
        (live_value now (lookup (actor, j) s.poll_last)))) [
          | inl fast ↦ rw fast (refl, refl)
          | inr slow ↦
              rw slow
                (elim (Bool-cases (
                  leb (plan_limits plan).poll_max_count
                    (count_or_zero (live_value now (lookup (actor, j) s.poll_counts))))) [
                      | inl many ↦ rw many (refl, refl)
                      | inr few ↦ rw few (refl, refl)
                    ])
        ]

module _ (id : ℕ) (k : Kept DemoRun) where
  pub polled-IsThere :
      (plan : DemoPlan) (actor j : ℕ) (can_sign : Bool) (run : DemoRun) (now : ℕ) (s : DemoStore)
      → IsThere id k s
      → IsThere id k (poll plan actor j can_sign run now s).1
  polled-IsThere plan actor j can_sign run now s h =
      let (runs, marks) = poll-runs plan actor j can_sign run now s in
      record { there = rw runs h.there; unmarked = rw marks h.unmarked }

  zombie-IsThere :
      (j : ℕ) (run : DemoRun) (now : ℕ) (s : DemoStore)
      → j ≢ id
      → IsThere id k s
      → IsThere id k (maybe_enforce_zombie j run now s).1
  unfolding maybe_enforce_zombie
  zombie-IsThere j run now s apart h =
      elim (Bool-cases (
        is_running run.status
        && ltb (run.created_at + (plan_limits run.plan).zombie_timeout_s) now)) [
          | inr alive ↦ rw alive h
          | inl dead ↦ rw dead (record {
            there = lookup-insert j id _ s.runs ∙ ground (arith, apart, eqb_iff j id, h.there);
            unmarked = h.unmarked;
          })
        ]

  -- Polls of other runs leave it there.
  pub other-IsThere :
      (plan : DemoPlan) (actor j : ℕ) (can_sign : Bool) (now : ℕ) (s : DemoStore)
      → j ≢ id
      → IsThere id k s
      → IsThere id k (get_demo_run plan actor j can_sign now s).1
  unfolding get_demo_run
  other-IsThere plan actor j can_sign now s apart h =
      elim (Bool-cases (check_rpm actor (plan_limits plan).get_rpm now s.get_rates).0) [
        | inl blocked ↦ rw blocked h1
        | inr passed ↦ rw passed (by_mark (live_value now (lookup j s.tombstones)))
      ]
    where
      s1 : DemoStore
      s1 = record s { get_rates = (check_rpm actor (plan_limits plan).get_rpm now s.get_rates).1 }

      h1 : IsThere id k s1
      h1 = record { there = h.there; unmarked = h.unmarked }

      by_found :
          (found : Option DemoRun) → IsThere id k (by_run plan actor j can_sign found now s1).1
      by_found none = h1
      by_found (some run) = elim (Bool-cases (ltb run.retention_until now)) [
        | inl past ↦ rw past (record {
          there = lookup-erase_other j id s.runs apart ∙ h.there;
          unmarked =
              lookup-insert j id _ s.tombstones ∙ ground (arith, apart, eqb_iff j id, h.unmarked);
        })
        | inr kept ↦ rw kept (
            polled-IsThere plan actor j can_sign (maybe_enforce_zombie j run now s1).0 now
              (maybe_enforce_zombie j run now s1).1 (zombie-IsThere j run now s1 apart h1))
      ]

      by_mark : (mark : Option ℕ) → IsThere id k (by_tombstone plan actor j can_sign mark now s1).1
      by_mark (some owner) = h1
      by_mark none = by_found (live_value now (lookup j s.runs))
