-- ===== src/Reaper/Tests.antt =====
-- The reaper on the example world.
use decisionproof.Base.{◌≡◌, refl, ap, Bool, true, [], ◌∷◌, nat_eq}
use decisionproof.Runs.{scan}
use decisionproof.Reaper.{reap_run, scan_expired_runs}
use decisionproof.Reaper.Wins.{IsReapable, reap_run_wins}
use decisionproof.Reaper.Sweep.{AllReaped}
use decisionproof.Reaper.{reap_iteration}
use decisionproof.Reaper.Sweep.{AllReapable, reap_iteration_reaps}
use decisionproof.Base.{length}
use decisionproof.Examples.{running, held_run, store-IsValid, table, world}

expired : scan_expired_runs 100 121 table ≡ (8, running) ∷ []
unfolding scan_expired_runs scan
expired = refl

reapable : IsReapable 8 running world
reapable = record {
  reservation = held_run;
  at = refl;
  claimable = record {
    owned = refl;
    running = refl;
    funded = refl;
    unclaimed = refl;
    allowed = refl;
  };
  held = refl;
}

won : reap_run 8 running 500 121 world ≡ (true, (reap_run 8 running 500 121 world).1)
won =
    ap (λ (b : Bool). (b, (reap_run 8 running 500 121 world).1))
      (reap_run_wins 8 running 500 121 world reapable).0

all_reapable : AllReapable (scan_expired_runs 100 121 table) world
unfolding scan_expired_runs scan
all_reapable = (reapable, tt)

reap_iteration_reaps_example :
    ((reap_iteration 100 121 (λ id. 500) (λ id. 121) world).0
      ≡ (length (scan_expired_runs 100 121 table), 0))
    × AllReaped
        (scan_expired_runs 100 121 table)
        (reap_iteration 100 121 (λ id. 500) (λ id. 121) world).1
reap_iteration_reaps_example =
    reap_iteration_reaps 100 121 (λ id. 500) (λ id. 121) world store-IsValid (refl, (refl, tt))
      all_reapable
