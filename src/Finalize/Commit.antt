-- ===== src/Finalize/Commit.antt =====
-- The settlement and the final commit, and a whole finalize.
use decisionproof.Base.{
  ℕ, ◌*◌, ℤ, ◌-ℤ◌, ltb_ℤ, ◌≡◌, sym, ◌∙◌, ap, ◌⊎◌, inl, inr, false, some, insert, nat_eq, Bool-cases,
  Option-cases,
}
use decisionproof.Budget.{Reservation, settled, settle, get_reservation, clamp_charge}
use decisionproof.Budget.Receipts.{settle-inv}
use decisionproof.Runs.{Run, Status, bump, get_by_id}
use decisionproof.Runs.Locking.{Matched, update-Matched, update-inv}
use decisionproof.World.{World, Result, ok, err, record_usage}
use decisionproof.Finalize.{
  FinalizeError, finalize_error, commit_updates, commit_conditions, settle_phase, commit_phase,
  commit_finalize,
}

-- Settling in the world: only Redis changes.
abbrev pub settled_world : ℕ → ℕ → ℤ → ℕ → World → World
settled_world run_id tenant charge now w = record w {
  redis = (settle tenant run_id charge (now * 1000) w.redis).1;
}

module _ (run_id tenant : ℕ) (charge : ℤ) (now : ℕ) (w : World) where
  -- A run whose settlement goes through.
  pub record Settles : Type 0 where
    pub run : Run
    pub reservation : Reservation
    pub balance : ℤ
    pub found : get_by_id run_id tenant w.runs ≡ some run
    pub within : ltb_ℤ run.reservation_max_cost_usd_micros charge ≡ false
    pub held : get_reservation tenant run_id w.redis ≡ some reservation
    pub replied :
        (settle tenant run_id charge (now * 1000) w.redis).0
        ≡ settled
            (clamp_charge charge reservation.reserved_usd_micros)
            (reservation.reserved_usd_micros -ℤ clamp_charge charge reservation.reserved_usd_micros)
            balance

  pub settle_phase-ok :
      (s : Settles)
      → settle_phase run_id tenant charge now w ≡ (
        ok (clamp_charge charge s.reservation.reserved_usd_micros),
        settled_world run_id tenant charge now w,
      )
  unfolding settle_phase
  settle_phase-ok s = rw (s.found, s.within, s.replied)

  -- The settlement phase charges what Redis says, or raises and changes nothing.
  pub settle_phase-inv :
      Settles ⊎ (settle_phase run_id tenant charge now w ≡ (err finalize_error, w))
  unfolding settle_phase
  settle_phase-inv = elim (Option-cases (get_by_id run_id tenant w.runs)) [
    | inl missing ↦ inr (rw missing)
    | inr (run, found) ↦ elim (Bool-cases (ltb_ℤ run.reservation_max_cost_usd_micros charge)) [
      | inl over ↦ inr (rw (found, over))
      | inr within ↦ elim (settle-inv tenant run_id charge (now * 1000) w.redis) [
        | inr (_, gone) ↦ inr (rw (found, within, gone))
        | inl (v, bal, there, replied) ↦ inl (record {
          run = run;
          reservation = v;
          balance = bal;
          found = found;
          within = within;
          held = there;
          replied = replied;
        })
      ]
    ]
  ]

module _ (run_id tenant token claimed_version : ℕ) (charge : ℤ) (final : Status) (extra : Run → Run)
    (now : ℕ) (w : World) where
  abbrev pub committed_world : Run → World
  committed_world run =
      let runs =
        insert run_id (bump claimed_version now (commit_updates final charge now extra) run)
          w.runs in
      record_usage (get_by_id run_id tenant runs) now (record w { runs = runs })

  -- The row that the final commit is for.
  abbrev pub IsClaimed : Run → Type 0
  IsClaimed run = Matched run_id tenant claimed_version (commit_conditions (some token)) w.runs run

  pub commit_phase-ok :
      (run : Run)
      → IsClaimed run
      → commit_phase run_id tenant token claimed_version charge final extra now w
        ≡ (ok tt, committed_world run)
  unfolding commit_phase
  commit_phase-ok run m = rw (
      update-Matched run_id tenant claimed_version (commit_updates final charge now extra)
        (commit_conditions (some token)) now w.runs run m)

  pub commit_phase-inv :
      ((run : Run) × IsClaimed run
        × (commit_phase run_id tenant token claimed_version charge final extra now w
            ≡ (ok tt, committed_world run)))
      ⊎ (commit_phase run_id tenant token claimed_version charge final extra now w
          ≡ (err finalize_error, w))
  unfolding commit_phase
  commit_phase-inv =
      elim (update-inv run_id tenant claimed_version (commit_updates final charge now extra)
        (commit_conditions (some token)) now w.runs) [
          | inr lost ↦ inr (rw lost)
          | inl (run, m, won) ↦ inl (run, m, commit_phase-ok run m)
        ]

module _ (run_id tenant token claimed_version : ℕ) (charge : ℤ) (final : Status) (extra : Run → Run)
    (now : ℕ) (w : World) where
  abbrev whole : Result FinalizeError Unit × World
  whole = commit_finalize run_id tenant token claimed_version charge final extra now w

  -- The commit goes on from the settlement, or stops with its error.
  pub commit_finalize-after :
      (c : ℤ) (w1 : World)
      → settle_phase run_id tenant charge now w ≡ (ok c, w1)
      → whole ≡ commit_phase run_id tenant token claimed_version c final extra now w1
  unfolding commit_finalize
  commit_finalize-after c w1 e = rw e

  pub commit_finalize-stops :
      settle_phase run_id tenant charge now w ≡ (err finalize_error, w)
      → whole ≡ (err finalize_error, w)
  unfolding commit_finalize
  commit_finalize-stops e = rw e

-- A commit that raises has not touched the runs or the usage; and it has touched Redis only where
-- the settlement went through and the final commit then found that the claim was no longer its own.
pub commit_finalize_raises :
    (run_id tenant token claimed_version : ℕ) (charge : ℤ) (final : Status) (extra : Run → Run)
    (now : ℕ) (w w' : World) (e : FinalizeError)
    → commit_finalize run_id tenant token claimed_version charge final extra now w ≡ (err e, w')
    → (w' ≡ w)
      ⊎ ((w' ≡ settled_world run_id tenant charge now w)
          × ((run : Run)
              → ¬ IsClaimed run_id tenant token claimed_version charge final extra now w run))
commit_finalize_raises run_id tenant token claimed_version charge final extra now w w' e h =
    elim (settle_phase-inv run_id tenant charge now w) [
      | inr failed ↦ inl (
          second (
            sym (
              commit_finalize-stops run_id tenant token claimed_version charge final extra now w
                failed)
            ∙ h))
      | inl s ↦
          let c = clamp_charge charge s.reservation.reserved_usd_micros in
          let w1 = settled_world run_id tenant charge now w in
          let h' =
            sym (
              commit_finalize-after run_id tenant token claimed_version charge final extra now w c
                w1 (settle_phase-ok run_id tenant charge now w s))
            ∙ h in
          elim (commit_phase-inv run_id tenant token claimed_version c final extra now w1) [
            | inl (run, m, won) ↦ absurd (ok_err (sym won ∙ h'))
            | inr lost ↦ inr (
              second (sym lost ∙ h'),
              λ run m. ok_err (
                  sym
                    (commit_phase-ok run_id tenant token claimed_version c final extra now w1 run m)
                  ∙ h'),
            )
          ]
    ]
  where
    ok_err : {u v : World} → ◌≡◌ {A = Result FinalizeError Unit × World} (ok tt, u) (err e, v) → ⊥
    ok_err p = cc (ap (λ (y : Result FinalizeError Unit × World). y.0) p)

    second :
        {e' : FinalizeError} {u v : World}
        → ◌≡◌ {A = Result FinalizeError Unit × World} (err e', u) (err e, v)
        → v ≡ u
    second p = sym (ap (λ (y : Result FinalizeError Unit × World). y.1) p)
