-- ===== src/Finalize/Claim.antt =====
-- The claim: one caller wins it, and nothing happens for the others.
use decisionproof.Base.{
  ℕ, ◌+◌, ◌≡◌, refl, sym, ◌∙◌, ap, ◌⊎◌, inl, inr, ◌↔◌, Bool, true, ◌&&◌, some, List, arith, lookup,
  insert, lookup-insert_self, nat_eq, Bool-cases, Option-cases,
}
use decisionproof.Runs.{
  Run, Status, MoneyState, Stage, Condition, all_hold, is_status, is_money_state, is_stage, bump,
  get_by_id,
}
use decisionproof.Runs.Locking.{update-Matched, update-inv, get_by_id-inv, get_by_id-found}
use decisionproof.World.{World, Result, ok, err}
use decisionproof.Finalize.{
  FinalizeError, claim_error, finalize_error, claim_updates, claim_conditions, claim_finalize,
}

-- A row that can be claimed under the extra conditions.
pub record IsClaimable (tenant : ℕ) (extra : List Condition) (run : Run) : Type 0 where
  pub owned : run.tenant_id ≡ tenant
  pub running : run.status ≡ Status.processing
  pub funded : run.money_state ≡ MoneyState.reserved
  pub unclaimed : run.finalize_stage ≡ Stage.null
  pub allowed : all_hold extra run ≡ true

pub processing_iff : (s : Status) → (is_status s Status.processing ≡ true) ↔ (s ≡ Status.processing)
processing_iff s = ground arith

pub reserved_iff :
    (m : MoneyState) → (is_money_state m MoneyState.reserved ≡ true) ↔ (m ≡ MoneyState.reserved)
reserved_iff m = ground arith

pub null_iff : (s : Stage) → (is_stage s Stage.null ≡ true) ↔ (s ≡ Stage.null)
null_iff s = ground arith

all_three : {a b c : Bool} → a ≡ true → b ≡ true → c ≡ true → a && (b && c) ≡ true
all_three p q r = rw (p, q, r)

module _ (run_id tenant : ℕ) (extra : List Condition) (token now : ℕ) (w : World) where
  abbrev pub claimed_world : Run → World
  claimed_world run = record w {
    runs = insert run_id (bump run.version now (claim_updates token now) run) w.runs;
  }

  pub claim-won :
      (run : Run)
      → lookup run_id w.runs ≡ some run
      → IsClaimable tenant extra run
      → claim_finalize run_id tenant extra token now w
        ≡ (ok (token, run.version + 1), claimed_world run)
  unfolding claim_finalize
  claim-won run e c =
      let running = (processing_iff run.status).1 c.running in
      let funded = (reserved_iff run.money_state).1 c.funded in
      let unclaimed = (null_iff run.finalize_stage).1 c.unclaimed in
      rw (
        get_by_id-found run_id tenant run w.runs e c.owned,
        running,
        funded,
        update-Matched run_id tenant run.version (claim_updates token now) (claim_conditions extra)
            now w.runs run (e, c.owned, refl, all_three running unclaimed c.allowed),
      )

  -- Either a claimable row is claimed, or an exception is raised and nothing has changed.
  pub claim_finalize-inv :
      ((run : Run) × (lookup run_id w.runs ≡ some run)
        × IsClaimable tenant extra run
        × (claim_finalize run_id tenant extra token now w
            ≡ (ok (token, run.version + 1), claimed_world run)))
      ⊎ ((e : FinalizeError) × (claim_finalize run_id tenant extra token now w ≡ (err e, w)))
  unfolding claim_finalize
  claim_finalize-inv = elim (Option-cases (get_by_id run_id tenant w.runs)) [
    | inl missing ↦ inr (finalize_error, rw missing)
    | inr (run, found) ↦ elim (Bool-cases (is_status run.status Status.processing)) [
      | inr idle ↦ inr (claim_error, rw (found, idle))
      | inl running ↦ elim (Bool-cases (is_money_state run.money_state MoneyState.reserved)) [
        | inr unfunded ↦ inr (finalize_error, rw (found, running, unfunded))
        | inl funded ↦
            elim (update-inv run_id tenant run.version (claim_updates token now)
              (claim_conditions extra) now w.runs) [
                | inr lost ↦ inr (claim_error, rw (found, running, funded, lost))
                | inl (row, m, won) ↦
                    let (at, owned) = get_by_id-inv run_id tenant run w.runs found in
                    let same : row ≡ run = ground (arith, m.0, at) in
                    inl (
                      run,
                      at,
                      record {
                        owned = owned;
                        running = (processing_iff run.status).0 running;
                        funded = (reserved_iff run.money_state).0 funded;
                        unclaimed = ground (arith, m.3, same);
                        allowed = ground (arith, m.3, same);
                      },
                      rw (found, running, funded, won) (rw same),
                    )
              ]
      ]
    ]
  ]

-- The claim succeeds exactly when the run is the tenant's, PROCESSING, with its money RESERVED, in
-- no finalize stage, and meets the caller's extra conditions. It returns the token and the next
-- version; the run is then CLAIMED under the token with that version, and Redis, the usage and the
-- other runs are as they were. In all other cases it raises and changes nothing.
pub claim_finalize_lem :
    (run_id tenant : ℕ) (extra : List Condition) (token now : ℕ) (w : World)
    → let (result, w') = claim_finalize run_id tenant extra token now w in
      ((run : Run)
        → lookup run_id w.runs ≡ some run
        → IsClaimable tenant extra run
        → (result ≡ ok (token, run.version + 1))
          × (w' ≡ claimed_world run_id tenant extra token now w run))
      × (¬ ((run : Run) × (lookup run_id w.runs ≡ some run) × IsClaimable tenant extra run)
          → (e : FinalizeError) × (result ≡ err e) × (w' ≡ w))
claim_finalize_lem run_id tenant extra token now w = (
  λ run e c. let won = claim-won run_id tenant extra token now w run e c in (rw won, rw won),
  λ not_claimable. elim (claim_finalize-inv run_id tenant extra token now w) [
    | inl (run, e, c, _) ↦ absurd (not_claimable (run, e, c))
    | inr (e, lost) ↦ (e, rw lost, rw lost)
  ],
)

-- One claimant. After a successful claim, every other claim of the run, under any token, tenant and
-- extra conditions, raises and changes nothing.
pub claim_exclusive :
    (run_id tenant tenant' : ℕ) (extra extra' : List Condition) (token token' now now' : ℕ)
    (w w' : World) (claim : ℕ × ℕ)
    → claim_finalize run_id tenant extra token now w ≡ (ok claim, w')
    → (e : FinalizeError) × (claim_finalize run_id tenant' extra' token' now' w' ≡ (err e, w'))
claim_exclusive run_id tenant tenant' extra extra' token token' now now' w w' claim h =
    elim (claim_finalize-inv run_id tenant extra token now w) [
      | inr (e, lost) ↦ absurd (ok_err (sym lost ∙ h))
      | inl (run, e, c, won) ↦ elim (claim_finalize-inv run_id tenant' extra' token' now' w') [
        | inr lost ↦ lost
        | inl (run', e', c', won') ↦
            let after : w' ≡ claimed_world run_id tenant extra token now w run =
              ap (λ (x : Result FinalizeError (ℕ × ℕ) × World). x.1) (sym h ∙ won) in
            let row =
              lookup-insert_self run_id (bump run.version now (claim_updates token now) run)
                w.runs in
            absurd (stuck run e' (rw after row) c'.unclaimed)
      ]
    ]
  where
    ok_err :
        {e : FinalizeError} {x : ℕ × ℕ} {u v : World}
        → ◌≡◌ {A = Result FinalizeError (ℕ × ℕ) × World} (err e, u) (ok x, v)
        → ⊥
    ok_err p = cc (ap (λ (y : Result FinalizeError (ℕ × ℕ) × World). y.0) p)

    stuck :
        (run : Run) {row : Run}
        → lookup run_id w'.runs ≡ some row
        → lookup run_id w'.runs ≡ some (bump run.version now (claim_updates token now) run)
        → row.finalize_stage ≡ Stage.null
        → ⊥
    stuck p q r = ground arith
