-- ===== src/Submit/Outcome.antt =====
-- What a submission does that got as far as creating its row.
use Prim.Native.String.{String}
use decisionproof.Base.{
  ℕ, ◌*◌, ℤ, pos, ◌≤ℤ◌, ◌≡◌, ◌≢◌, refl, ◌∙◌, inl, inr, Option, none, some, arith, lookup, insert,
  lookup-insert_self, nat_eq,
}
use decisionproof.Money.Rounding.{validate_usd_micros_lem}
use decisionproof.Budget.{Redis, refund_full}
use decisionproof.Budget.Ledger.{total}
use decisionproof.Budget.Scripts.{IsValid, reserve-keeps}
use decisionproof.Budget.Settling.{refund_full-keeps}
use decisionproof.Budget.Reserving.{reserve_reserved, reserve-refund}
use decisionproof.Runs.Locking.{get_by_id-found}
use decisionproof.World.{World}
use decisionproof.Manager.{BudgetError, reserve_budget}
use decisionproof.Manager.Reserve.{IsReserved, after_script, reserve_budget-inv}
use decisionproof.Submit.{
  Request, new_run, Draw, roll_back, enqueue, reserve_failed, reserve_status, after_reserve, submit,
}
use decisionproof.Submit.Rows.{
  IsFresh, IsUntouched, queued_row, HasKey, Submits, lookup-insert_other, submit-created, undone,
  mark_failed-others, mark_failed-redis, mark_failed-HasKey, key_kept, made-HasKey, made-others,
  made-at, made_world, row0,
}

module _ (tenant : ℕ) (q : Request) (d : Draw) (cost : ℤ) (w : World) where
  -- A failure at version 0.
  failed_at_zero :
      (e : Option BudgetError) (r' : Redis)
      → IsFresh tenant q d w
      → IsUntouched tenant d.run_id w.redis r'
      → IsValid r'
      → ((t : ℕ) → total t r' ≡ total t w.redis)
      → Submits tenant q d cost w
          (reserve_failed tenant d e (record (made_world tenant q d cost w) { redis = r' }))
  unfolding new_run
  failed_at_zero e r' fresh money valid conserved =
      let w' : World = record (made_world tenant q d cost w) { redis = r' } in
      let same =
        mark_failed-redis tenant q d cost w 0 "BUDGET_RESERVE_FAILED" (d.detail e)
          (row0 tenant q d cost w) w' (made-at tenant q d cost w) refl refl in
      record {
        ends = inr (
          reserve_status e,
          refl,
          undone tenant q d cost w 0 "BUDGET_RESERVE_FAILED" (d.detail e) (row0 tenant q d cost w)
              w' (made-at tenant q d cost w) refl refl refl money,
        );
        by_key =
            mark_failed-HasKey tenant q d cost w 0 "BUDGET_RESERVE_FAILED" (d.detail e)
              (row0 tenant q d cost w) w' (made-at tenant q d cost w) refl refl refl refl
              (made-HasKey tenant q d cost w fresh);
        others = λ other apart.
            mark_failed-others tenant q d cost w 0 "BUDGET_RESERVE_FAILED" (d.detail e)
              (row0 tenant q d cost w) w' (made-at tenant q d cost w) refl refl other apart
            ∙ made-others tenant q d cost w other apart;
        still_valid = rw same valid;
        conserved = λ t. rw same (conserved t);
      }

  module _ (valid : IsValid w.redis) (fresh : IsFresh tenant q d w) where
    nonneg : IsReserved d.run_id tenant 0 cost d.now (made_world tenant q d cost w) → pos 0 ≤ℤ cost
    nonneg s = ((validate_usd_micros_lem cost).0 s.valid_amount).0

    abbrev script : Redis
    script = after_script d.run_id tenant 0 cost d.now (made_world tenant q d cost w)

    abbrev refunded : Redis
    refunded = (refund_full tenant d.run_id script).1

    refunded-IsUntouched :
        IsReserved d.run_id tenant 0 cost d.now (made_world tenant q d cost w)
        → IsUntouched tenant d.run_id w.redis refunded
    refunded-IsUntouched s =
        let (same, gone) =
          reserve-refund tenant d.run_id cost s.balance (d.now * 1000) w.redis valid (nonneg s)
            s.replied in
        record { balances = same; none_held = gone }

    script-keeps :
        IsReserved d.run_id tenant 0 cost d.now (made_world tenant q d cost w)
        → IsValid script × ((t : ℕ) → total t script ≡ total t w.redis)
    script-keeps s = reserve-keeps tenant d.run_id cost (d.now * 1000) w.redis valid (nonneg s)

    refunded-keeps :
        IsReserved d.run_id tenant 0 cost d.now (made_world tenant q d cost w)
        → IsValid refunded × ((t : ℕ) → total t refunded ≡ total t w.redis)
    refunded-keeps s =
        let (valid', keeps) = script-keeps s in
        let (valid'', keeps') = refund_full-keeps tenant d.run_id script valid' in
        (valid'', λ t. keeps' t ∙ keeps t)

    -- The row is QUEUED at version 1, the money is reserved; now the queue decides.
    abbrev reserved_world : World
    reserved_world = record (made_world tenant q d cost w) {
      runs = insert d.run_id (queued_row tenant q d cost) (made_world tenant q d cost w).runs;
      redis = script;
    }

    reserved-at : lookup d.run_id reserved_world.runs ≡ some (queued_row tenant q d cost)
    reserved-at =
        lookup-insert_self d.run_id (queued_row tenant q d cost) (made_world tenant q d cost w).runs

    reserved-others :
        (other : ℕ) → other ≢ d.run_id → lookup other reserved_world.runs ≡ lookup other w.runs
    reserved-others other apart =
        lookup-insert_other d.run_id other (queued_row tenant q d cost)
          (made_world tenant q d cost w).runs apart
        ∙ made-others tenant q d cost w other apart

    reserved-HasKey : HasKey tenant q d reserved_world
    unfolding new_run
    reserved-HasKey =
        key_kept tenant q d cost w (queued_row tenant q d cost) (made_world tenant q d cost w) refl
          refl refl (made-HasKey tenant q d cost w fresh)

    queued :
        IsReserved d.run_id tenant 0 cost d.now (made_world tenant q d cost w)
        → Submits tenant q d cost w (enqueue tenant d none reserved_world)
    unfolding new_run
    queued s =
        let (bal, held) =
          reserve_reserved tenant d.run_id cost s.balance (d.now * 1000) w.redis s.replied in
        let (valid', keeps) = script-keeps s in
        record {
          ends = inl (
            rw
                (get_by_id-found d.run_id tenant (queued_row tenant q d cost) reserved_world.runs
                  reserved-at refl)
                refl,
            record { at = reserved-at; held = held; taken = bal },
          );
          by_key = reserved-HasKey;
          others = reserved-others;
          still_valid = valid';
          conserved = keeps;
        }

    rolled_back :
        (e : String)
        → IsReserved d.run_id tenant 0 cost d.now (made_world tenant q d cost w)
        → Submits tenant q d cost w (enqueue tenant d (some e) reserved_world)
    unfolding new_run roll_back
    rolled_back e s =
        let w' : World = record reserved_world { redis = refunded } in
        let row = queued_row tenant q d cost in
        let same =
          mark_failed-redis tenant q d cost w 1 "QUEUE_ENQUEUE_FAILED" e row w' reserved-at refl
            refl in
        let (valid', keeps) = refunded-keeps s in
        record {
          ends = inr (
            500,
            refl,
            undone tenant q d cost w 1 "QUEUE_ENQUEUE_FAILED" e row w' reserved-at refl refl refl
                (refunded-IsUntouched s),
          );
          by_key =
              mark_failed-HasKey tenant q d cost w 1 "QUEUE_ENQUEUE_FAILED" e row w' reserved-at
                refl refl refl refl reserved-HasKey;
          others = λ other apart.
              mark_failed-others tenant q d cost w 1 "QUEUE_ENQUEUE_FAILED" e row w' reserved-at
                refl refl other apart
              ∙ reserved-others other apart;
          still_valid = rw same valid';
          conserved = λ t. rw same (keeps t);
        }

    by_queue :
        (e : Option String)
        → IsReserved d.run_id tenant 0 cost d.now (made_world tenant q d cost w)
        → Submits tenant q d cost w (enqueue tenant d e reserved_world)
    by_queue none s = queued s
    by_queue (some e) s = rolled_back e s

    after_reserve-Submits : Submits tenant q d cost w (
        after_reserve tenant d
          (reserve_budget d.run_id tenant 0 cost d.now (made_world tenant q d cost w)))
    after_reserve-Submits =
        elim (reserve_budget-inv d.run_id tenant 0 cost d.now (made_world tenant q d cost w)) [
          | inl (s, run, m, won) ↦
              let same : run ≡ (row0 tenant q d cost w) =
                ground (arith, m.0, (made-at tenant q d cost w)) in
              rw won (rw same (by_queue d.enqueue_error s))
          | inr (inl (s, lost)) ↦
              let (valid', keeps) = refunded-keeps s in
              rw lost (failed_at_zero none refunded fresh (refunded-IsUntouched s) valid' keeps)
          | inr (inr (e, failed)) ↦ rw failed (
              failed_at_zero (some e) w.redis fresh
                (record { balances = λ t. refl; none_held = fresh.no_reservation }) valid
                (λ t. refl))
        ]

-- A submission with a new key keeps the database, Redis and the queue together. On a valid store,
-- with a new UUID, it ends in one of two ways. The reply is a receipt; the run is QUEUED and RESERVED
-- at version 1, Redis holds a reservation of the maximum cost, and the balance is less by it. Or the
-- reply is an error; the run is FAILED and REFUNDED, there is no reservation of it, and every balance
-- is what it was. Either way the key now finds the run. No other run changes, the store stays valid, and no money is made or lost.
pub submit_lem :
    (tenant : ℕ) (q : Request) (d : Draw) (cost : ℤ) (w : World)
    → IsValid w.redis
    → IsFresh tenant q d w
    → Submits tenant q d cost w (submit tenant q d cost w)
submit_lem tenant q d cost w valid fresh =
    rw (submit-created tenant q d cost w fresh)
      (after_reserve-Submits tenant q d cost w valid fresh)
