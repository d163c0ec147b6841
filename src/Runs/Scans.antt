-- ===== src/Runs/Scans.antt =====
-- What the scans return, and the uniqueness of idempotency keys.
use decisionproof.Base.{
  ℕ, zero, suc, ◌≤◌, ◌<◌, ◌≡◌, refl, inl, inr, Bool, true, ◌&&◌, Option, none, some, List, [], ◌∷◌,
  arith, eqb, eqb_iff, if◌then◌else◌, lookup, insert, nat_eq, Bool-cases, Distinct, length,
}
use decisionproof.Runs.Defs.{
  Status, is_status, Run, Runs, scan, list_expired_leases, before, get_by_idempotency_key,
  CreateError, created, rejected, create, same_key,
}

-- Each element of the list has the property.
abbrev pub All {ℓ} : {A : Type 0} → (A → Type ℓ) → List A → Type ℓ
All P [] = Unit
All P (x ∷ xs) = P x × All P xs

module _ (test : Run → Bool) where
  abbrev Found : Runs → ℕ × Run → Type 0
  Found runs (id, run) = (lookup id runs ≡ some run) × (test run ≡ true)

  All-weaken :
      (id : ℕ) (run : Run) (runs : Runs) (found : List (ℕ × Run))
      → lookup id runs ≡ none
      → All (Found runs) found
      → All (Found ((id, run) ∷ runs)) found
  All-weaken id run runs [] fresh h = tt
  All-weaken id run runs ((j, r) ∷ found) fresh h =
      (ground (arith, eqb_iff id j), All-weaken id run runs found fresh h.1)

  scan-All : (limit : ℕ) (runs : Runs) → Distinct runs → All (Found runs) (scan test limit runs)
  unfolding scan
  scan-All zero runs d = tt
  scan-All (suc limit) [] d = tt
  scan-All (suc limit) ((id, run) ∷ runs) d = elim (Bool-cases (test run)) [
    | inl hit ↦ rw hit (
      (ground (arith, eqb_iff id id), hit),
      All-weaken id run runs _ d.0 (scan-All limit runs d.1),
    )
    | inr miss ↦ rw miss (All-weaken id run runs _ d.0 (scan-All (suc limit) runs d.1))
  ]

  scan-length : (limit : ℕ) (runs : Runs) → length (scan test limit runs) ≤ limit
  unfolding scan
  scan-length zero runs = omega arith
  scan-length (suc limit) [] = omega arith
  scan-length (suc limit) ((id, run) ∷ runs) =
      ground (arith, scan-length limit runs, scan-length (suc limit) runs)

  lookup-scan-none :
      (limit id : ℕ) (runs : Runs) → lookup id runs ≡ none → lookup id (scan test limit runs) ≡ none
  unfolding scan
  lookup-scan-none zero id runs e = refl
  lookup-scan-none (suc limit) id [] e = refl
  lookup-scan-none (suc limit) id ((j, run) ∷ runs) e =
      ground
        (arith, eqb_iff j id, lookup-scan-none limit id runs, lookup-scan-none (suc limit) id runs)

  -- A scan that does not reach its limit has missed nothing.
  lookup-scan :
      (limit id : ℕ) (run : Run) (runs : Runs)
      → Distinct runs
      → lookup id runs ≡ some run
      → test run ≡ true
      → length (scan test limit runs) < limit
      → lookup id (scan test limit runs) ≡ some run
  unfolding scan
  lookup-scan zero id run runs d e hit short = absurd (omega arith)
  lookup-scan (suc limit) id run [] d e hit short = e
  lookup-scan (suc limit) id run ((j, r) ∷ runs) d e hit short = elim (Bool-cases (eqb j id)) [
    | inl here ↦ let same : r ≡ run = ground arith in rw (same, hit, here)
    | inr there ↦ elim (Bool-cases (test r)) [
      | inl taken ↦ ground (arith, lookup-scan limit id run runs d.1)
      | inr passed ↦ ground (arith, lookup-scan (suc limit) id run runs d.1)
    ]
  ]

-- What the reaper's scan promises of a row.
abbrev pub IsExpiredLease : ℕ → Run → Type 0
IsExpiredLease now run =
    (run.status ≡ Status.processing) × (t : ℕ) × (run.lease_expires_at ≡ some t) × (t < now)

expired_test :
    (now : ℕ) (run : Run)
    → is_status run.status Status.processing && before run.lease_expires_at now ≡ true
    → IsExpiredLease now run
expired_test now run h = expired_split run.status run.lease_expires_at h
  where
    expired_split :
        (s : Status) (lease : Option ℕ)
        → is_status s Status.processing && before lease now ≡ true
        → (s ≡ Status.processing) × (t : ℕ) × (lease ≡ some t) × (t < now)
    expired_split Status.processing (some t) h = (refl, t, refl, ground arith)
    expired_split _ _ h = ground arith

All-map :
    (now : ℕ) (runs : Runs) (found : List (ℕ × Run))
    → All
        (Found
          (λ run. is_status run.status Status.processing && before run.lease_expires_at now)
          runs)
        found
    → All (λ (x : ℕ × Run). (lookup x.0 runs ≡ some x.1) × IsExpiredLease now x.1) found
All-map now runs [] h = tt
All-map now runs ((id, run) ∷ found) h =
    ((h.0.0, expired_test now run h.0.1), All-map now runs found h.1)

-- In a table with distinct ids, the reaper's scan returns at most `limit` rows, each a row of the
-- table that is PROCESSING with a lease that ended before now; and if it returns fewer than
-- `limit`, it returns every such row.
pub list_expired_leases_lem :
    (limit now : ℕ) (runs : Runs)
    → Distinct runs
    → let found = list_expired_leases limit now runs in
      (length found ≤ limit)
      × All (λ (x : ℕ × Run). (lookup x.0 runs ≡ some x.1) × IsExpiredLease now x.1) found
      × ((id : ℕ) (run : Run)
          → lookup id runs ≡ some run
          → IsExpiredLease now run
          → length found < limit
          → lookup id found ≡ some run)
unfolding list_expired_leases
list_expired_leases_lem limit now runs d =
    let test : Run → Bool =
      λ run. is_status run.status Status.processing && before run.lease_expires_at now in
    (
      scan-length test limit runs,
      All-map now runs _ (scan-All test limit runs d),
      λ id run e (p, t, q, lt) short.
          lookup-scan test limit id run runs d e (rw (p, q) (ground arith)) short,
    )

pub get_by_idempotency_key-insert :
    (tenant key id : ℕ) (run : Run) (runs : Runs)
    → lookup id runs ≡ none
    → run.tenant_id ≡ tenant
    → run.idempotency_key ≡ some key
    → get_by_idempotency_key tenant key (insert id run runs) ≡ (
        if same_key tenant (some key) runs
        then get_by_idempotency_key tenant key runs
        else some (id, run))
unfolding get_by_idempotency_key
get_by_idempotency_key-insert tenant key id run [] fresh t k = ground arith
get_by_idempotency_key-insert tenant key id run ((j, r) ∷ runs) fresh t k =
    ground (arith, get_by_idempotency_key-insert tenant key id run runs)

-- A row that is written again keeps its key.
pub get_by_idempotency_key-again :
    (tenant key id : ℕ) (old run : Run) (runs : Runs)
    → get_by_idempotency_key tenant key runs ≡ some (id, old)
    → run.tenant_id ≡ tenant
    → run.idempotency_key ≡ some key
    → get_by_idempotency_key tenant key (insert id run runs) ≡ some (id, run)
unfolding get_by_idempotency_key
get_by_idempotency_key-again tenant key id old run [] e t k = absurd (none_some e)
  where
    none_some : {x : ℕ × Run} → ◌≡◌ {A = Option (ℕ × Run)} none (some x) → ⊥
    none_some p = cc
get_by_idempotency_key-again tenant key id old run ((j, r) ∷ runs) e t k =
    ground (arith, get_by_idempotency_key-again tenant key id old run runs)

-- An idempotency key is used once. After a row with a key has been created, the key finds exactly
-- that row for its tenant, and creating another row under a new id, with the same tenant and the
-- same key, is rejected by the constraint `uq_runs_tenant_idempotency`.
pub create_once :
    (id id' key : ℕ) (run run' : Run) (runs runs' : Runs)
    → create id run runs ≡ created runs'
    → run.idempotency_key ≡ some key
    → run'.tenant_id ≡ run.tenant_id
    → run'.idempotency_key ≡ some key
    → lookup id' runs' ≡ none
    → (get_by_idempotency_key run.tenant_id key runs' ≡ some (id, run))
      × (create id' run' runs' ≡ rejected CreateError.uq_runs_tenant_idempotency)
unfolding create
create_once id id' key run run' runs runs' made k t' k' fresh' =
    let found : get_by_idempotency_key run.tenant_id key runs' ≡ some (id, run) =
      ground (arith, get_by_idempotency_key-insert run.tenant_id key id run runs) in
    (found, rw (fresh', k', t') (rw found))
