-- ===== src/Submit/Late.antt =====
-- The queue has taken the message, but its answer is lost: `enqueue_run` raises, and a worker is
-- already at work.
use Prim.Native.String.{String}
use decisionproof.Base.{
  ℕ, ℤ, ◌+ℤ◌, ◌≡◌, refl, sym, ◌∙◌, ap, inl, inr, Option, none, some, [], arith, lookup,
  lookup-insert_self, nat_eq,
}
use decisionproof.Budget.{Reservation, get_balance, get_reservation, refund_full}
use decisionproof.Budget.Scripts.{IsValid}
use decisionproof.Budget.Reserving.{refund_full_cases}
use decisionproof.Runs.{Run, Status, MoneyState}
use decisionproof.Runs.Locking.{update-inv}
use decisionproof.World.{World}
use decisionproof.Worker.{Job, begin_run}
use decisionproof.Worker.Completes.{IsReady, started_row, started_world, begin_run-started}
use decisionproof.Submit.{Draw, fail_updates, mark_failed, roll_back}

mark_failed-lost :
    (run_id tenant expected : ℕ) (code detail : String) (now : ℕ) (run : Run) (w : World)
    → lookup run_id w.runs ≡ some run
    → (run.version ≡ expected → ⊥)
    → mark_failed run_id tenant expected code detail now w ≡ w
mark_failed-lost run_id tenant expected code detail now run w e apart =
    elim (update-inv run_id tenant expected (fail_updates code detail) [] now w.runs) [
      | inl (row, m, won) ↦
          let same : row ≡ run = ground (arith, m.0, e) in
          absurd (apart (ap (λ (r : Run). r.version) (sym same) ∙ m.2))
      | inr lost ↦ rw lost refl
    ]

-- The run goes on without its money.
pub record IsUnpaid (job : Job) (v : Reservation) (w w' : World) : Type 0 where
  pub row : Run
  pub at : lookup job.run_id w'.runs ≡ some row
  pub processing : row.status ≡ Status.processing
  pub reserved : row.money_state ≡ MoneyState.reserved
  pub none_held : get_reservation job.tenant_id job.run_id w'.redis ≡ none
  pub given_back :
      get_balance job.tenant_id w'.redis
      ≡ get_balance job.tenant_id w.redis +ℤ v.reserved_usd_micros

-- The refund does not wait for the version check. If a worker has started a run that was submitted at
-- version 1, and then the submission's rollback comes, because the queue took the message and raised
-- all the same, the reserved amount is given back while the row stays as the worker has it:
-- PROCESSING, with the money state RESERVED and no reservation.
pub late_roll_back :
    (job : Job) (execute : Run → Option (ℤ × ℕ)) (cost : ℤ) (sha256 : ℕ) (run : Run)
    (v : Reservation) (w : World) (d : Draw) (e : String)
    → IsReady job execute cost sha256 run v w
    → IsValid w.redis
    → run.version ≡ 1
    → d.run_id ≡ job.run_id
    → IsUnpaid job v w (roll_back job.tenant_id d e (begin_run job w).1)
unfolding roll_back
late_roll_back job execute cost sha256 run v w d e p valid first same =
    let w1 = started_world job execute cost sha256 run v w p in
    let row = started_row job execute cost sha256 run v w p in
    let at : lookup job.run_id w1.runs ≡ some row = lookup-insert_self job.run_id row w.runs in
    let w2 : World = record w1 { redis = (refund_full job.tenant_id job.run_id w.redis).1 } in
    let kept =
      mark_failed-lost job.run_id job.tenant_id 1 "QUEUE_ENQUEUE_FAILED" e d.now row w2 at
        (λ h. omega (arith, h, first)) in
    let (gone, back, _) = refund_full_cases job.tenant_id job.run_id w.redis valid in
    rw (begin_run-started job execute cost sha256 run v w p, same, kept)
      (record {
        row = row;
        at = at;
        processing = refl;
        reserved = p.funded;
        none_held = gone;
        given_back = (back v p.held).1;
      })
