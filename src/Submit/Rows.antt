-- ===== src/Submit/Rows.antt =====
-- The row of a submission: how it is made, and how it is given up.
use Prim.Native.String.{String}
use mathlib.Core.Path.{subst}
use decisionproof.Base.{
  ℕ, ◌*◌, ℤ, ◌-ℤ◌, ◌≡◌, ◌≢◌, refl, sym, ◌∙◌, ap, ◌⊎◌, none, some, [], arith, lookup, insert,
  lookup-insert, lookup-insert_self, nat_eq, eqb_iff,
}
use decisionproof.Budget.{Redis, get_balance, get_reservation}
use decisionproof.Budget.Ledger.{total}
use decisionproof.Budget.Scripts.{IsValid}
use decisionproof.Budget.Reserving.{new_reservation}
use decisionproof.Runs.{Status, MoneyState, Run, bump, get_by_idempotency_key, create}
use decisionproof.Runs.Scans.{get_by_idempotency_key-insert, get_by_idempotency_key-again}
use decisionproof.Runs.Locking.{update-Matched}
use decisionproof.World.{World}
use decisionproof.Manager.{reserve_budget}
use decisionproof.Manager.Reserve.{reserve_updates}
use decisionproof.Submit.{
  Request, Receipt, Reply, replied, http_error, build_receipt, new_run, fail_updates, mark_failed,
  Draw, after_reserve, submit,
}

-- A new UUID, and a key that the tenant has not used.
pub record IsFresh (tenant : ℕ) (q : Request) (d : Draw) (w : World) : Type 0 where
  pub no_row : lookup d.run_id w.runs ≡ none
  pub no_reservation : get_reservation tenant d.run_id w.redis ≡ none
  pub no_key : get_by_idempotency_key tenant q.idempotency_key w.runs ≡ none

-- The money is where it was.
pub record IsUntouched (tenant run_id : ℕ) (r r' : Redis) : Type 0 where
  pub balances : (t : ℕ) → get_balance t r' ≡ get_balance t r
  pub none_held : get_reservation tenant run_id r' ≡ none

abbrev pub IsFailed : ℕ → Request → Run → Type 0
IsFailed tenant q row =
    (row.status ≡ Status.failed)
    × (row.money_state ≡ MoneyState.refunded)
    × (row.tenant_id ≡ tenant)
    × (row.payload_hash ≡ q.payload_hash)

abbrev pub queued_row : ℕ → Request → Draw → ℤ → Run
queued_row tenant q d cost = bump 0 d.now (reserve_updates cost) (new_run tenant q cost d.now)

-- The run waits in the queue, with its money reserved.
pub record IsQueued (tenant : ℕ) (q : Request) (d : Draw) (cost : ℤ) (w w' : World) : Type 0 where
  pub at : lookup d.run_id w'.runs ≡ some (queued_row tenant q d cost)
  pub held :
      get_reservation tenant d.run_id w'.redis ≡ some (new_reservation tenant cost (d.now * 1000))
  pub taken : get_balance tenant w'.redis ≡ get_balance tenant w.redis -ℤ cost

-- The run is kept as FAILED, and the tenant has all the money.
pub record IsUndone (tenant : ℕ) (q : Request) (d : Draw) (w w' : World) : Type 0 where
  pub row : Run
  pub at : lookup d.run_id w'.runs ≡ some row
  pub failed : IsFailed tenant q row
  pub money : IsUntouched tenant d.run_id w.redis w'.redis

-- The run is the one that the request's key finds.
abbrev pub HasKey : ℕ → Request → Draw → World → Type 0
HasKey tenant q d w =
    (row : Run) × (get_by_idempotency_key tenant q.idempotency_key w.runs ≡ some (d.run_id, row))
    × (row.payload_hash ≡ q.payload_hash)

pub record Submits (tenant : ℕ) (q : Request) (d : Draw) (cost : ℤ) (w : World)
    (result : Reply Receipt × World) : Type 0 where
  pub ends :
      ((result.0 ≡ replied (build_receipt d.run_id (queued_row tenant q d cost)))
        × IsQueued tenant q d cost w result.1)
      ⊎ ((code : ℕ) × (result.0 ≡ http_error code) × IsUndone tenant q d w result.1)
  pub by_key : HasKey tenant q d result.1
  pub others : (other : ℕ) → other ≢ d.run_id → lookup other result.1.runs ≡ lookup other w.runs
  pub still_valid : IsValid result.1.redis
  pub conserved : (t : ℕ) → total t result.1.redis ≡ total t w.redis

mark_failed-Matched :
    (run_id tenant expected : ℕ) (code detail : String) (now : ℕ) (run : Run) (w : World)
    → lookup run_id w.runs ≡ some run
    → run.tenant_id ≡ tenant
    → run.version ≡ expected
    → mark_failed run_id tenant expected code detail now w
      ≡ record w { runs = insert run_id (bump expected now (fail_updates code detail) run) w.runs }
mark_failed-Matched run_id tenant expected code detail now run w e t v =
    rw
      (update-Matched run_id tenant expected (fail_updates code detail) [] now w.runs run
        (e, t, v, refl))
      refl

pub lookup-insert_other :
    (k j : ℕ) (run : Run) (runs : _) → j ≢ k → lookup j (insert k run runs) ≡ lookup j runs
lookup-insert_other k j run runs apart = ground (arith, lookup-insert k j run runs, eqb_iff k j)

module _ (tenant : ℕ) (q : Request) (d : Draw) (cost : ℤ) (w : World) where
  abbrev pub row0 : Run
  row0 = new_run tenant q cost d.now

  abbrev pub made_world : World
  made_world = record w { runs = insert d.run_id row0 w.runs }

  pub submit-created :
      IsFresh tenant q d w
      → submit tenant q d cost w
        ≡ after_reserve tenant d (reserve_budget d.run_id tenant 0 cost d.now made_world)
  unfolding submit create new_run
  submit-created fresh = rw (fresh.no_row, fresh.no_key) refl

  -- The row is given up at version `expected`, with Redis as `r`.
  pub undone :
      (expected : ℕ) (code detail : String) (row : Run) (w' : World)
      → lookup d.run_id w'.runs ≡ some row
      → row.tenant_id ≡ tenant
      → row.version ≡ expected
      → row.payload_hash ≡ q.payload_hash
      → IsUntouched tenant d.run_id w.redis w'.redis
      → IsUndone tenant q d w (mark_failed d.run_id tenant expected code detail d.now w')
  undone expected code detail row w' e t v h money =
      rw (mark_failed-Matched d.run_id tenant expected code detail d.now row w' e t v) (record {
        row = bump expected d.now (fail_updates code detail) row;
        at = lookup-insert_self d.run_id _ w'.runs;
        failed = (refl, refl, t, h);
        money = money;
      })

  pub mark_failed-others :
      (expected : ℕ) (code detail : String) (row : Run) (w' : World)
      → lookup d.run_id w'.runs ≡ some row
      → row.tenant_id ≡ tenant
      → row.version ≡ expected
      → (other : ℕ) → other ≢ d.run_id
      → lookup other (mark_failed d.run_id tenant expected code detail d.now w').runs
        ≡ lookup other w'.runs
  mark_failed-others expected code detail row w' e t v other apart =
      ap (λ (x : World). lookup other x.runs)
        (mark_failed-Matched d.run_id tenant expected code detail d.now row w' e t v)
      ∙ lookup-insert_other d.run_id other _ w'.runs apart

  pub mark_failed-redis :
      (expected : ℕ) (code detail : String) (row : Run) (w' : World)
      → lookup d.run_id w'.runs ≡ some row
      → row.tenant_id ≡ tenant
      → row.version ≡ expected
      → (mark_failed d.run_id tenant expected code detail d.now w').redis ≡ w'.redis
  mark_failed-redis expected code detail row w' e t v =
      ap (λ (x : World). x.redis)
        (mark_failed-Matched d.run_id tenant expected code detail d.now row w' e t v)

  -- An update of the row keeps the key.
  pub key_kept :
      (row : Run) (w' : World)
      → row.tenant_id ≡ tenant
      → row.idempotency_key ≡ some q.idempotency_key
      → row.payload_hash ≡ q.payload_hash
      → HasKey tenant q d w'
      → HasKey tenant q d (record w' { runs = insert d.run_id row w'.runs })
  key_kept row w' t k h (old, found, _) = (
    row,
    get_by_idempotency_key-again tenant q.idempotency_key d.run_id old row w'.runs found t k,
    h,
  )

  pub mark_failed-HasKey :
      (expected : ℕ) (code detail : String) (row : Run) (w' : World)
      → lookup d.run_id w'.runs ≡ some row
      → row.tenant_id ≡ tenant
      → row.version ≡ expected
      → row.idempotency_key ≡ some q.idempotency_key
      → row.payload_hash ≡ q.payload_hash
      → HasKey tenant q d w'
      → HasKey tenant q d (mark_failed d.run_id tenant expected code detail d.now w')
  mark_failed-HasKey expected code detail row w' e t v k h found =
      subst (λ (x : World). HasKey tenant q d x)
        (sym (mark_failed-Matched d.run_id tenant expected code detail d.now row w' e t v))
        (key_kept (bump expected d.now (fail_updates code detail) row) w' t k h found)

  pub made-HasKey : IsFresh tenant q d w → HasKey tenant q d made_world
  unfolding new_run
  made-HasKey fresh = (
    row0,
    get_by_idempotency_key-insert tenant q.idempotency_key d.run_id row0 w.runs fresh.no_row refl
          refl
        ∙ rw fresh.no_key refl,
    refl,
  )

  pub made-others :
      (other : ℕ) → other ≢ d.run_id → lookup other made_world.runs ≡ lookup other w.runs
  made-others other apart = lookup-insert_other d.run_id other row0 w.runs apart

  pub made-at : lookup d.run_id made_world.runs ≡ some row0
  made-at = lookup-insert_self d.run_id row0 w.runs
