-- ===== src/Submit/Completes.antt =====
-- From the request to the result.
use decisionproof.Base.{ℕ, ℤ, ◌≤ℤ◌, ◌≡◌, refl, sym, ◌∙◌, inl, inr, true, Option, some, nat_eq, ◌*◌}
use decisionproof.Budget.{clamp_charge}
use decisionproof.Budget.Reserving.{new_reservation}
use decisionproof.Runs.{Run}
use decisionproof.Worker.{delete_message, Job, process_message}
use decisionproof.Worker.Completes.{IsReady, IsCompleted, process_message_completes}
use decisionproof.Plans.{Plan}
use decisionproof.Submit.{Request, Api, Receipt, replied, http_error, new_run, Draw, create_run}
use decisionproof.Submit.Rows.{queued_row, IsQueued}
use decisionproof.Submit.Outcome.{submit_lem}
use decisionproof.Submit.Idempotent.{IsAdmitted, create_run-submits}

module _ (tenant : ℕ) (q : Request) (d : Draw) (cost : ℤ) (plan : Plan) (a : Api)
    (p : IsAdmitted tenant q d cost plan a) where
  -- A receipt means that the run is in the queue.
  receipt-IsQueued :
      (r : Receipt)
      → (create_run tenant q d a).0 ≡ replied r
      → IsQueued tenant q d cost a.world (create_run tenant q d a).1.world
  receipt-IsQueued r e =
      let (same, same_world) = create_run-submits tenant q d a cost plan p in
      elim (submit_lem tenant q d cost a.world p.valid p.fresh).ends [
        | inl (_, queued) ↦ rw same_world queued
        | inr (code, failed, _) ↦ absurd (clash code (sym failed ∙ sym same ∙ e))
      ]
    where
      clash : (code : ℕ) → http_error code ≡ replied r → ⊥
      clash code h = cc

  pub queued-IsReady :
      (job : Job) (execute : Run → Option (ℤ × ℕ)) (charge : ℤ) (sha256 : ℕ) (r : Receipt)
      → (create_run tenant q d a).0 ≡ replied r
      → job.run_id ≡ d.run_id
      → job.tenant_id ≡ tenant
      → execute (queued_row tenant q d cost) ≡ some (charge, sha256)
      → charge ≤ℤ cost
      → IsReady job execute charge sha256
          (queued_row tenant q d cost)
          (new_reservation tenant cost (d.now * 1000))
          (create_run tenant q d a).1.world
  unfolding new_run
  queued-IsReady job execute charge sha256 r e same_run same_tenant runs within =
      let s = receipt-IsQueued r e in
      record {
        at = rw same_run s.at;
        owned = sym same_tenant;
        queued = refl;
        funded = refl;
        unclaimed = refl;
        held = rw (same_run, same_tenant) s.held;
        executes = runs;
        within = within;
      }

-- A request that gets a receipt leads to its result. If the pack executes for a cost within the
-- maximum that was asked for, and the upload goes through, then the worker that gets the message,
-- after any number of heartbeats, has it deleted, with the run COMPLETED, SETTLED and COMMITTED for
-- its cost. No one else writes in between.
pub create_run_completes :
    (tenant : ℕ) (q : Request) (d : Draw) (cost : ℤ) (plan : Plan) (a : Api) (job : Job)
    (execute : Run → Option (ℤ × ℕ)) (charge : ℤ) (sha256 : ℕ) (r : Receipt)
    → IsAdmitted tenant q d cost plan a
    → (create_run tenant q d a).0 ≡ replied r
    → job.run_id ≡ d.run_id
    → job.tenant_id ≡ tenant
    → execute (queued_row tenant q d cost) ≡ some (charge, sha256)
    → charge ≤ℤ cost
    → let (verdict, w) = process_message job execute true (create_run tenant q d a).1.world in
      (verdict ≡ delete_message) × IsCompleted job (clamp_charge charge cost) sha256 w
create_run_completes tenant q d cost plan a job execute charge sha256 r p e same_run same_tenant
      runs within =
    process_message_completes job execute charge sha256 (queued_row tenant q d cost)
      (new_reservation tenant cost (d.now * 1000)) (create_run tenant q d a).1.world
      (queued-IsReady tenant q d cost plan a p job execute charge sha256 r e same_run same_tenant
        runs within)
