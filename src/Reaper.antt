-- ===== src/Reaper.antt =====
-- The reaper (dpp/apps/reaper/dpp_reaper/loops/reaper_loop.py): it ends runs whose lease has run out.
-- An iteration of the endless loop is one function; its log counters are its result. The UUID and the
-- instant of each finalize are given for each run. The rows of the scan are used as they were read:
-- reading one again after a commit gives the same, since no finalize touches another run.
pub mod Wins
pub mod Sweep
mod Tests
use decisionproof.Base.{
  ℕ, suc, ◌+◌, ℤ, min_ℤ, Bool, true, false, ◌&&◌, List, [], ◌∷◌, if◌then◌else◌,
}
use decisionproof.Runs.{Run, Runs, Status, is_status, before, scan}
use decisionproof.World.{World, Result, ok, err}
use decisionproof.Finalize.{FinalizeError, finalize_timeout}

unfoldable pub scan_expired_runs : ℕ → ℕ → Runs → List (ℕ × Run)
scan_expired_runs limit now =
    scan (λ run. is_status run.status Status.processing && before run.lease_expires_at now) limit

-- `min(minimum_fee, reserved)`; both columns are NOT NULL.
abbrev pub reap_charge : Run → ℤ
reap_charge run = min_ℤ run.minimum_fee_usd_micros run.reservation_max_cost_usd_micros

-- Every exception is logged and becomes False.
abbrev pub caught : Result FinalizeError Unit × World → Bool × World
caught (ok _, w) = (true, w)
caught (err _, w) = (false, w)

unfoldable pub reap_run : ℕ → Run → (token now : ℕ) → World → Bool × World
reap_run run_id run token now w =
    caught (finalize_timeout run_id run.tenant_id (reap_charge run) token now w)

-- Wins and losses.
abbrev pub tally : Bool → ℕ × ℕ → ℕ × ℕ
tally true (wins, losses) = (wins + 1, losses)
tally false (wins, losses) = (wins, losses + 1)

unfoldable pub reap_all : (token now : ℕ → ℕ) → List (ℕ × Run) → World → (ℕ × ℕ) × World
reap_all token now [] w = ((0, 0), w)
reap_all token now ((run_id, run) ∷ runs) w =
    let (won, w1) = reap_run run_id run (token run_id) (now run_id) w in
    let (counts, w2) = reap_all token now runs w1 in (tally won counts, w2)

unfoldable pub reap_iteration :
    (limit scanned_at : ℕ) → (token now : ℕ → ℕ) → World → (ℕ × ℕ) × World
reap_iteration limit scanned_at token now w =
    reap_all token now (scan_expired_runs limit scanned_at w.runs) w
