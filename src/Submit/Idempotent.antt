-- ===== src/Submit/Idempotent.antt =====
-- A request that is sent again.
use decisionproof.Base.{ℕ, ℤ, ◌≡◌, ◌≢◌, refl, ◌∙◌, ap, false, Option, some, List, arith, eqb_iff}
use decisionproof.Money.{Checked, decimal_to_usd_micros}
use decisionproof.Budget.Scripts.{IsValid}
use decisionproof.Runs.{Run, get_by_idempotency_key}
use decisionproof.Runs.Keys.{RowChange, apply_all, AllKeepKeys, apply_all-IsKeyed}
use decisionproof.World.{World}
use decisionproof.Plans.{Plan, Counter, Enforced, enforced, enforce}
use decisionproof.Submit.{
  Request, Api, Receipt, Reply, replied, http_error, build_receipt, is_bad_key, Draw, by_hash,
  after_enforce, submit, create_run,
}
use decisionproof.Submit.Rows.{IsFresh}
use decisionproof.Submit.Outcome.{submit_lem}

-- A request that gets as far as its row, on a valid store.
pub record IsAdmitted (tenant : ℕ) (q : Request) (d : Draw) (cost : ℤ) (plan : Plan) (a : Api)
    : Type 0 where
  pub good_key : is_bad_key q.key_length ≡ false
  pub parses : decimal_to_usd_micros q.max_cost_usd ≡ Checked.ok cost
  pub let_through :
      (enforce tenant q.pack_type cost d.now a.mappings a.plans (a.post_keys tenant)).0
      ≡ enforced plan
  pub fresh : IsFresh tenant q d a.world
  pub valid : IsValid a.world.redis

module _ (tenant : ℕ) (q : Request) (d : Draw) (a : Api) where
  pub create_run-submits :
      (cost : ℤ) (plan : Plan)
      → IsAdmitted tenant q d cost plan a
      → ((create_run tenant q d a).0 ≡ (submit tenant q d cost a.world).0)
        × ((create_run tenant q d a).1.world ≡ (submit tenant q d cost a.world).1)
  unfolding create_run
  create_run-submits cost plan p =
      rw (p.good_key, p.fresh.no_key, p.parses)
        (through cost plan
          (enforce tenant q.pack_type cost d.now a.mappings a.plans (a.post_keys tenant))
          p.let_through)
    where
      through :
          (cost : ℤ) (plan : Plan) (x : Enforced × Option Counter)
          → x.0 ≡ enforced plan
          → ((after_enforce tenant q d cost x a).0 ≡ (submit tenant q d cost a.world).0)
            × ((after_enforce tenant q d cost x a).1.world ≡ (submit tenant q d cost a.world).1)
      through cost plan (Enforced.enforced _, k) e = (refl, refl)
      through cost plan (Enforced.violated _, k) e = absurd (clash e)
        where
          clash : {v : _} → Enforced.violated v ≡ enforced plan → ⊥
          clash e = cc

  replayed :
      (run_id : ℕ) (run : Run)
      → is_bad_key q.key_length ≡ false
      → get_by_idempotency_key tenant q.idempotency_key a.world.runs ≡ some (run_id, run)
      → create_run tenant q d a ≡ (by_hash q.payload_hash (run_id, run), a)
  unfolding create_run
  replayed run_id run good found = rw (good, found) refl

-- Once a request of a tenant has created its run, every later request of the tenant with the same key
-- changes nothing: no second run, no second reservation, and no use of the rate limit. Between the two
-- the table of runs may have had any updates that assign no key and no hash, as when the run is
-- executed, finalized or reaped, and any new rows; everything else may be different altogether. With
-- the same payload the later request gets the receipt of the first run as its row is by then,
-- COMPLETED or FAILED too; with another payload it gets the error 409.
pub create_run_twice :
    (tenant : ℕ) (q q' : Request) (d d' : Draw) (cost : ℤ) (plan : Plan) (a later : Api)
    (changes : List RowChange)
    → IsAdmitted tenant q d cost plan a
    → later.world.runs ≡ apply_all changes (create_run tenant q d a).1.world.runs
    → AllKeepKeys changes
    → q'.idempotency_key ≡ q.idempotency_key
    → is_bad_key q'.key_length ≡ false
    → let (reply, a') = create_run tenant q' d' later in
      (a' ≡ later)
      × (q'.payload_hash ≡ q.payload_hash
          → (row : Run) × (get_by_idempotency_key tenant q.idempotency_key later.world.runs
              ≡ some (d.run_id, row))
            × (reply ≡ replied (build_receipt d.run_id row)))
      × (q'.payload_hash ≢ q.payload_hash → reply ≡ http_error 409)
create_run_twice tenant q q' d d' cost plan a later changes p since keeps same_key good =
    let s = submit_lem tenant q d cost a.world p.valid p.fresh in
    let (row, found, hash) = s.by_key in
    let same_world = (create_run-submits tenant q d a cost plan p).1 in
    let keyed =
      apply_all-IsKeyed tenant q.idempotency_key d.run_id q.payload_hash changes
        (create_run tenant q d a).1.world.runs keeps
        (record {
          row = row;
          found =
              ap (λ (x : World). get_by_idempotency_key tenant q.idempotency_key x.runs) same_world
              ∙ found;
          same_hash = hash;
        }) in
    let found' : get_by_idempotency_key tenant q.idempotency_key later.world.runs
        ≡ some (d.run_id, keyed.row) =
      ap (get_by_idempotency_key tenant q.idempotency_key) since ∙ keyed.found in
    let again =
      replayed tenant q' d' later d.run_id keyed.row good
        (ap (λ (k : ℕ). get_by_idempotency_key tenant k later.world.runs) same_key ∙ found') in
    (
      ap (λ (x : Reply Receipt × Api). x.1) again,
      λ same. (
        keyed.row,
        found',
        ap (λ (x : Reply Receipt × Api). x.0) again
            ∙ rw (keyed.same_hash, same, (eqb_iff q.payload_hash q.payload_hash).1 refl) refl,
      ),
      λ other.
          ap (λ (x : Reply Receipt × Api). x.0) again ∙ differs keyed.row keyed.same_hash other,
    )
  where
    differs :
        (row : Run)
        → row.payload_hash ≡ q.payload_hash
        → q'.payload_hash ≢ q.payload_hash
        → by_hash q'.payload_hash (d.run_id, row) ≡ http_error 409
    differs row h other = ground (arith, h, other, eqb_iff row.payload_hash q'.payload_hash)
