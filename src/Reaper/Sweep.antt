-- ===== src/Reaper/Sweep.antt =====
-- A whole iteration of the reaper.
use decisionproof.Base.{
  zero, Bool, eqb, eqb_iff, Distinct, suc, none, some, true, false, ◌&&◌, Option, ℕ, ◌+◌, ◌≡◌, ◌≢◌,
  refl, sym, ◌∙◌, ap, inl, inr, List, [], ◌∷◌, length, arith, lookup, nat_eq, Bool-cases,
}
use decisionproof.Budget.Scripts.{IsValid}
use decisionproof.Runs.{Runs, Status, is_status, before, scan, Run}
use decisionproof.World.{World, Result, ok, err}
use decisionproof.Finalize.{FinalizeError}
use decisionproof.Finalize.Finalizers.{timeout, run_finalizer}
use decisionproof.Finalize.Frame.{Spares, finalize-Spares}
use decisionproof.Reaper.{
  caught, reap_charge, reap_run, reap_all, reap_iteration, scan_expired_runs,
}
use decisionproof.Reaper.Wins.{IsReapable, IsReaped, reap_run_wins}

caught-world : (x : Result FinalizeError Unit × World) → (caught x).1 ≡ x.1
caught-world (ok _, w) = refl
caught-world (err _, w) = refl

reap_run-Spares :
    (run_id : ℕ) (run : Run) (token now : ℕ) (w : World)
    → IsValid w.redis
    → Spares run_id w (reap_run run_id run token now w).1
unfolding reap_run
reap_run-Spares run_id run token now w valid =
    let f = timeout (reap_charge run) in
    rw (caught-world (run_finalizer f run_id run.tenant_id token now w))
      (finalize-Spares f run_id run.tenant_id token now w valid)

-- The rows of a scan have different ids.
abbrev pub Absent : ℕ → List (ℕ × Run) → Type 0
Absent run_id [] = Unit
Absent run_id ((id, _) ∷ runs) = (id ≢ run_id) × Absent run_id runs

abbrev pub AllApart : List (ℕ × Run) → Type 0
AllApart [] = Unit
AllApart ((id, _) ∷ runs) = Absent id runs × AllApart runs

-- Every run of the list is one that the reaper can end.
abbrev pub AllReapable : List (ℕ × Run) → World → Type 0
AllReapable [] w = Unit
AllReapable ((id, run) ∷ runs) w = IsReapable id run w × AllReapable runs w

abbrev pub AllReaped : List (ℕ × Run) → World → Type 0
AllReaped [] w = Unit
AllReaped ((id, _) ∷ runs) w = IsReaped id w × AllReaped runs w

-- What one reap leaves alone it leaves reapable.
spared :
    (run_id : ℕ) (w w' : World) (runs : List (ℕ × Run))
    → Spares run_id w w'
    → Absent run_id runs
    → AllReapable runs w
    → AllReapable runs w'
spared run_id w w' [] s out p = tt
spared run_id w w' ((id, run) ∷ runs) s (apart, out) (p, ps) = (
  record {
    reservation = p.reservation;
    at = s.rows id apart ∙ p.at;
    claimable = p.claimable;
    held = s.reserves run.tenant_id id apart ∙ p.held;
  },
  spared run_id w w' runs s out ps,
)

-- Reaping others leaves a run as it is.
reap_all-row :
    (id : ℕ) (token now : ℕ → ℕ) (runs : List (ℕ × Run)) (w : World)
    → IsValid w.redis
    → Absent id runs
    → lookup id (reap_all token now runs w).1.runs ≡ lookup id w.runs
unfolding reap_all
reap_all-row id token now [] w valid out = refl
reap_all-row id token now ((run_id, run) ∷ runs) w valid (apart, out) =
    let s = reap_run-Spares run_id run (token run_id) (now run_id) w valid in
    reap_all-row id token now runs (reap_run run_id run (token run_id) (now run_id) w).1
      s.still_valid out
    ∙ s.rows id (λ p. apart (sym p))

-- A sweep over different runs that can all be ended, in a valid store, ends them all: it counts a win
-- for each of them and no loss, and every one is FAILED with the reason WORKER_TIMEOUT, SETTLED and
-- COMMITTED when it is over.
pub reap_all_reaps :
    (token now : ℕ → ℕ) (runs : List (ℕ × Run)) (w : World)
    → IsValid w.redis
    → AllApart runs
    → AllReapable runs w
    → ((reap_all token now runs w).0 ≡ (length runs, 0))
      × AllReaped runs (reap_all token now runs w).1
unfolding reap_all
reap_all_reaps token now [] w valid apart p = (refl, tt)
reap_all_reaps token now ((id, run) ∷ runs) w valid (out, apart) (p, ps) =
    let w1 = (reap_run id run (token id) (now id) w).1 in
    let s = reap_run-Spares id run (token id) (now id) w valid in
    let (won, reaped) = reap_run_wins id run (token id) (now id) w p in
    let (counts, rest) =
      reap_all_reaps token now runs w1 s.still_valid apart (spared id w w1 runs s out ps) in
    (
      rw (won, counts) (ap (λ n. (n, 0)) (omega arith)),
      (
        record {
          run = reaped.run;
          at = reap_all-row id token now runs w1 s.still_valid out ∙ reaped.at;
          failed = reaped.failed;
          paid = reaped.paid;
          committed = reaped.committed;
          reason = reaped.reason;
        },
        rest,
      ),
    )

counts :
    (token now : ℕ → ℕ) (runs : List (ℕ × Run)) (w : World)
    → (reap_all token now runs w).0.0 + (reap_all token now runs w).0.1 ≡ length runs
unfolding reap_all
counts token now [] w = refl
counts token now ((id, run) ∷ runs) w =
    let ih = counts token now runs (reap_run id run (token id) (now id) w).1 in
    elim (Bool-cases (reap_run id run (token id) (now id) w).0) [
      | inl won ↦ rw won (omega (arith, ih))
      | inr lost ↦ rw lost (omega (arith, ih))
    ]

-- An iteration accounts for every row that it scanned: wins and losses add up to their number.
pub reap_iteration_counts :
    (limit scanned_at : ℕ) (token now : ℕ → ℕ) (w : World)
    → let ((wins, losses), _) = reap_iteration limit scanned_at token now w in
      wins + losses ≡ length (scan_expired_runs limit scanned_at w.runs)
unfolding reap_iteration
reap_iteration_counts limit scanned_at token now w =
    counts token now (scan_expired_runs limit scanned_at w.runs) w

scan-Absent :
    (test : Run → Bool) (limit id : ℕ) (d : Runs)
    → lookup id d ≡ none
    → Absent id (scan test limit d)
unfolding scan
scan-Absent test zero id d e = tt
scan-Absent test (suc limit) id [] e = tt
scan-Absent test (suc limit) id ((j, run) ∷ d) e = elim (Bool-cases (eqb j id)) [
  | inl here ↦ absurd (some_none {x = run} (sym (rw here refl) ∙ e))
  | inr there ↦
      let e' = sym (rw there refl) ∙ e in
      elim (Bool-cases (test run)) [
        | inl hit ↦
            rw hit (λ p. different (sym there ∙ (eqb_iff j id).1 p), scan-Absent test limit id d e')
        | inr miss ↦ rw miss (scan-Absent test (suc limit) id d e')
      ]
]
  where
    some_none : {x : Run} → ◌≡◌ {A = Option Run} (some x) none → ⊥
    some_none p = cc

    different : false ≡ true → ⊥
    different p = cc

scan-AllApart :
    (test : Run → Bool) (limit : ℕ) (d : Runs) → Distinct d → AllApart (scan test limit d)
unfolding scan
scan-AllApart test zero d apart = tt
scan-AllApart test (suc limit) [] apart = tt
scan-AllApart test (suc limit) ((j, run) ∷ d) apart = elim (Bool-cases (test run)) [
  | inl hit ↦ rw hit (scan-Absent test limit j d apart.0, scan-AllApart test limit d apart.1)
  | inr miss ↦ rw miss (scan-AllApart test (suc limit) d apart.1)
]

-- An iteration ends every run that it scans and can end. In a table with distinct ids and a valid
-- store, if every run of the scan can be claimed and has its reservation, then all are counted as
-- wins, none as a loss, and each is FAILED with the reason WORKER_TIMEOUT, SETTLED and COMMITTED when
-- the iteration is over.
pub reap_iteration_reaps :
    (limit scanned_at : ℕ) (token now : ℕ → ℕ) (w : World)
    → IsValid w.redis
    → Distinct w.runs
    → AllReapable (scan_expired_runs limit scanned_at w.runs) w
    → ((reap_iteration limit scanned_at token now w).0
        ≡ (length (scan_expired_runs limit scanned_at w.runs), 0))
      × AllReaped
          (scan_expired_runs limit scanned_at w.runs)
          (reap_iteration limit scanned_at token now w).1
unfolding reap_iteration scan_expired_runs
reap_iteration_reaps limit scanned_at token now w valid distinct p =
    reap_all_reaps token now (scan_expired_runs limit scanned_at w.runs) w valid
      (scan-AllApart
        (λ run. is_status run.status Status.processing && before run.lease_expires_at scanned_at)
        limit w.runs distinct)
      p
