-- ===== src/Finalize/Once.antt =====
-- A whole finalize, by the worker or by the reaper: what the winner leaves, and that it happens once.
use decisionproof.Base.{
  ℕ, ◌+◌, ◌*◌, ℤ, ◌-ℤ◌, ◌≤ℤ◌, ◌≡◌, ◌≢◌, refl, sym, ◌∙◌, ap, ◌⊎◌, inl, inr, some, arith,
  eqb_option_iff, lookup, insert, lookup-insert, lookup-insert_self, nat_eq,
}
use decisionproof.Budget.{Reservation, settled, settle, get_reservation, clamp_charge}
use decisionproof.Budget.Receipts.{settle-inv}
use decisionproof.Runs.{Run, bump}
use decisionproof.Runs.Locking.{get_by_id-found}
use decisionproof.World.{World, Result, ok, err, record_usage}
use decisionproof.Finalize.{
  FinalizeError, finalize_error, claim_updates, commit_updates, commit_finalize, do_2phase_finalize,
}
use decisionproof.Finalize.Claim.{IsClaimable, claimed_world, claim-won, claim_finalize-inv}
use decisionproof.Finalize.Commit.{
  Settles, settled_world, settle_phase-ok, settle_phase-inv, committed_world, commit_phase-ok,
  commit_finalize-after, commit_finalize-stops,
}
use decisionproof.Finalize.Finalizers.{
  Finalizer, run_finalizer, requested, final_status, conditions, extra, run_finalizer-eq,
  extra-tenant,
}

module _ (f : Finalizer) (run_id tenant token now : ℕ) (w : World) where
  -- The row after the claim, and after the commit.
  abbrev pub claimed_row : Run → Run
  claimed_row run = bump run.version now (claim_updates token now) run

  abbrev pub final_row : ℤ → Run → Run
  final_row charge run =
      bump (run.version + 1) now (commit_updates (final_status f) charge now (extra f))
        (claimed_row run)

  abbrev pub world1 : Run → World
  world1 run = claimed_world run_id tenant (conditions f) token now w run

  abbrev pub world2 : Run → World
  world2 run = settled_world run_id tenant (requested f) now (world1 run)

  abbrev pub world3 : ℤ → Run → World
  world3 charge run =
      committed_world run_id tenant token (run.version + 1) charge (final_status f) (extra f) now
        (world2 run) (claimed_row run)

  row1 : (run : Run) → lookup run_id (world1 run).runs ≡ some (claimed_row run)
  row1 run = lookup-insert_self run_id (claimed_row run) w.runs

  run_finalizer-claimed :
      (run : Run)
      → lookup run_id w.runs ≡ some run
      → IsClaimable tenant (conditions f) run
      → run_finalizer f run_id tenant token now w
        ≡ commit_finalize run_id tenant token
            (run.version + 1)
            (requested f)
            (final_status f)
            (extra f)
            now
            (world1 run)
  unfolding do_2phase_finalize
  run_finalizer-claimed run e c =
      run_finalizer-eq f run_id tenant token now w
      ∙ rw (claim-won run_id tenant (conditions f) token now w run e c)

  -- After its own claim and a settlement, the final commit cannot fail.
  run_finalizer-settled :
      (run : Run)
      → lookup run_id w.runs ≡ some run
      → IsClaimable tenant (conditions f) run
      → (s : Settles run_id tenant (requested f) now (world1 run))
      → run_finalizer f run_id tenant token now w
        ≡ (ok tt, world3 (clamp_charge (requested f) s.reservation.reserved_usd_micros) run)
  run_finalizer-settled run e c s =
      run_finalizer-claimed run e c
      ∙ commit_finalize-after run_id tenant token (run.version + 1) (requested f) (final_status f)
          (extra f) now (world1 run) _ (world2 run)
          (settle_phase-ok run_id tenant (requested f) now (world1 run) s)
      ∙ commit_phase-ok run_id tenant token (run.version + 1) _ (final_status f) (extra f) now
          (world2 run) (claimed_row run)
          (row1 run, c.owned, refl, rw ((eqb_option_iff (some token) (some token)).1 refl))

  -- How a finalize can end.
  pub run_finalizer-inv :
      ((run : Run) × (lookup run_id w.runs ≡ some run)
        × IsClaimable tenant (conditions f) run
        × (s : Settles run_id tenant (requested f) now (world1 run)) × (run_finalizer f run_id
              tenant token now w
            ≡ (ok tt, world3 (clamp_charge (requested f) s.reservation.reserved_usd_micros) run)))
      ⊎ ((run : Run) × (lookup run_id w.runs ≡ some run)
          × IsClaimable tenant (conditions f) run
          × (run_finalizer f run_id tenant token now w ≡ (err finalize_error, world1 run)))
      ⊎ ((e : FinalizeError) × (run_finalizer f run_id tenant token now w ≡ (err e, w)))
  unfolding do_2phase_finalize
  run_finalizer-inv = elim (claim_finalize-inv run_id tenant (conditions f) token now w) [
    | inr (e, lost) ↦ inr (inr (e, run_finalizer-eq f run_id tenant token now w ∙ rw lost))
    | inl (run, e, c, won) ↦ elim (settle_phase-inv run_id tenant (requested f) now (world1 run)) [
      | inl s ↦ inl (run, e, c, s, run_finalizer-settled run e c s)
      | inr failed ↦ inr (
          inl (
            run,
            e,
            c,
            run_finalizer-claimed run e c
                ∙ commit_finalize-stops run_id tenant token (run.version + 1) (requested f)
                    (final_status f) (extra f) now (world1 run) failed,
          ))
    ]
  ]

  -- What a winning finalize leaves, with `v` the reservation that it settled.
  pub record IsWin (run : Run) (v : Reservation) (w' : World) : Type 0 where
    pub cost : ℤ
    pub balance : ℤ
    pub charged_cost : cost ≡ clamp_charge (requested f) v.reserved_usd_micros
    pub replied :
        (settle tenant run_id (requested f) (now * 1000) w.redis).0
        ≡ settled cost (v.reserved_usd_micros -ℤ cost) balance
    pub row : lookup run_id w'.runs ≡ some (final_row cost run)
    pub others : (id : ℕ) → id ≢ run_id → lookup id w'.runs ≡ lookup id w.runs
    pub money : w'.redis ≡ (settle tenant run_id (requested f) (now * 1000) w.redis).1
    pub metered : w'.usage ≡ (record_usage (some (final_row cost run)) now w).usage

  world3-IsWin :
      (run : Run)
      → lookup run_id w.runs ≡ some run
      → IsClaimable tenant (conditions f) run
      → (s : Settles run_id tenant (requested f) now (world1 run))
      → IsWin run s.reservation
          (world3 (clamp_charge (requested f) s.reservation.reserved_usd_micros) run)
  world3-IsWin run e c s =
      let cost = clamp_charge (requested f) s.reservation.reserved_usd_micros in
      let runs1 = (world1 run).runs in
      let runs3 = insert run_id (final_row cost run) runs1 in
      let at = lookup-insert_self run_id (final_row cost run) runs1 in
      let read =
        get_by_id-found run_id tenant (final_row cost run) runs3 at
          (final_tenant (extra-tenant f) c.owned) in
      record {
        cost = cost;
        balance = s.balance;
        charged_cost = refl;
        replied = s.replied;
        row = rw read at;
        others = λ id apart. rw read (
            ground (
              arith,
              apart,
              lookup-insert run_id id (final_row cost run) runs1,
              lookup-insert run_id id (claimed_row run) w.runs,
            ));
        money = rw read;
        metered = rw read;
      }
    where
      final_tenant :
          ((r : Run) → (extra f r).tenant_id ≡ r.tenant_id)
          → run.tenant_id ≡ tenant
          → (final_row (clamp_charge (requested f) s.reservation.reserved_usd_micros) run).tenant_id
            ≡ tenant
      final_tenant h p = h _ ∙ p

-- A finalize that returns won the claim, and has done all of this, and only this: the run is
-- COMPLETED or FAILED, as the finalizer says, SETTLED and COMMITTED, two versions on, with the
-- result pointers or the error of the finalizer; its cost is the requested charge, held between zero
-- and the reservation; Redis has had exactly one settlement of the run, which replied with that
-- cost; the final row has been metered once; and every other run is as it was.
pub finalize_returns :
    (f : Finalizer) (run_id tenant token now : ℕ) (w w' : World)
    → run_finalizer f run_id tenant token now w ≡ (ok tt, w')
    → (run : Run) × (v : Reservation) × (lookup run_id w.runs ≡ some run)
      × IsClaimable tenant (conditions f) run
      × (get_reservation tenant run_id w.redis ≡ some v)
      × IsWin f run_id tenant token now w run v w'
finalize_returns f run_id tenant token now w w' h =
    elim (run_finalizer-inv f run_id tenant token now w) [
      | inl (run, e, c, s, won) ↦
          let same = ap (λ (y : Result FinalizeError Unit × World). y.1) (sym won ∙ h) in
          (
            run,
            s.reservation,
            e,
            c,
            s.held,
            rw (← same) (world3-IsWin f run_id tenant token now w run e c s),
          )
      | inr (inl (run, e, c, failed)) ↦ absurd (err_ok (sym failed ∙ h))
      | inr (inr (e, failed)) ↦ absurd (err_ok (sym failed ∙ h))
    ]
  where
    err_ok :
        {e : FinalizeError} {u v : World}
        → ◌≡◌ {A = Result FinalizeError Unit × World} (err e, u) (ok tt, v)
        → ⊥
    err_ok p = cc (ap (λ (y : Result FinalizeError Unit × World). y.0) p)

-- A run that can be claimed, with a reservation in Redis that covers its reserved maximum, is
-- finalized: if the requested charge is not above that maximum, the finalizer returns.
pub finalize_succeeds :
    (f : Finalizer) (run_id tenant token now : ℕ) (w : World) (run : Run) (v : Reservation)
    → lookup run_id w.runs ≡ some run
    → IsClaimable tenant (conditions f) run
    → get_reservation tenant run_id w.redis ≡ some v
    → requested f ≤ℤ run.reservation_max_cost_usd_micros
    → (w' : World) × (run_finalizer f run_id tenant token now w ≡ (ok tt, w'))
finalize_succeeds f run_id tenant token now w run v e c held p =
    elim (settle-inv tenant run_id (requested f) (now * 1000) w.redis) [
      | inr (gone, _) ↦ cc (gone, held)
      | inl (v', bal, held', replied) ↦
          let s : Settles run_id tenant (requested f) now (world1 f run_id tenant token now w run) =
            record {
              run = claimed_row f run_id tenant token now w run;
              reservation = v';
              balance = bal;
              found =
                  get_by_id-found run_id tenant _ _ (row1 f run_id tenant token now w run) c.owned;
              within = ground arith;
              held = held';
              replied = replied;
            } in
          (_, run_finalizer-settled f run_id tenant token now w run e c s)
    ]
