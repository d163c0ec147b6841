-- ===== src/Runs/Locking.antt =====
-- Optimistic locking: who wins an update, and what the losers see.
use decisionproof.Base.{
  ℕ, ◌≡◌, refl, ◌⊎◌, inl, inr, ◌↔◌, true, false, Option, none, some, List, arith, lookup, insert,
  lookup-insert, lookup-insert_self, nat_eq, Bool-cases, Option-cases, ◌≢◌,
}
use decisionproof.Runs.Defs.{
  Run, Runs, Condition, all_hold, matches, bump, update_with_version_check, get_by_id,
}

-- The row that an update of `run_id` would change.
abbrev pub Matched : ℕ → ℕ → ℕ → List Condition → Runs → Run → Type 0
Matched run_id tenant expected conditions runs run =
    (lookup run_id runs ≡ some run)
    × (run.tenant_id ≡ tenant)
    × (run.version ≡ expected)
    × (all_hold conditions run ≡ true)

module _ (run_id tenant expected : ℕ) (updates : Run → Run) (conditions : List Condition) (now : ℕ)
    (runs : Runs) where
  pub update-Matched :
      (run : Run)
      → Matched run_id tenant expected conditions runs run
      → update_with_version_check run_id tenant expected updates conditions now runs
        ≡ (true, insert run_id (bump expected now updates run) runs)
  unfolding update_with_version_check
  update-Matched run m = rw (m.0, update_with_version_check) (ground arith)

  -- The result tells all: true means that a row matched, and is now the updated row with the next
  -- version; false means that nothing has changed.
  pub update-inv :
      ((run : Run) × Matched run_id tenant expected conditions runs run
        × (update_with_version_check run_id tenant expected updates conditions now runs
            ≡ (true, insert run_id (bump expected now updates run) runs)))
      ⊎ (update_with_version_check run_id tenant expected updates conditions now runs
          ≡ (false, runs))
  unfolding update_with_version_check
  update-inv = elim (Option-cases (lookup run_id runs)) [
    | inl e ↦ inr (rw (e, update_with_version_check))
    | inr (run, e) ↦ elim (Bool-cases (matches tenant expected conditions run)) [
      | inl hit ↦
          let m : Matched run_id tenant expected conditions runs run =
            (e, ground arith, ground arith, ground arith) in
          inl (run, m, update-Matched run m)
      | inr miss ↦ inr (rw (e, update_with_version_check) (rw miss))
    ]
  ]

-- An update reports success exactly when there is a row with its id, tenant and expected version
-- that meets its extra conditions; then that row has the caller's assignments and the next version.
-- It changes no other row, and on failure none.
pub update_with_version_check_lem :
    (run_id tenant expected : ℕ) (updates : Run → Run) (conditions : List Condition) (now : ℕ)
    (runs : Runs)
    → let (won, runs') =
        update_with_version_check run_id tenant expected updates conditions now runs in
      ((won ≡ true) ↔ ((run : Run) × Matched run_id tenant expected conditions runs run))
      × ((run : Run)
          → Matched run_id tenant expected conditions runs run
          → lookup run_id runs' ≡ some (bump expected now updates run))
      × ((other : ℕ) → other ≢ run_id → lookup other runs' ≡ lookup other runs)
      × (won ≡ false → runs' ≡ runs)
update_with_version_check_lem run_id tenant expected updates conditions now runs =
    elim (update-inv run_id tenant expected updates conditions now runs) [
      | inl (run, m, e) ↦ rw e (
        (λ _. (run, m), λ _. refl),
        λ run' m'.
            let same : run ≡ run' = ground (arith, m.0, m'.0) in
            rw (← same) (lookup-insert_self run_id _ runs),
        λ other apart.
            ground (arith, lookup-insert run_id other (bump expected now updates run) runs, apart),
        λ lost. cc,
      )
      | inr e ↦ rw e (
        (
          λ won. cc,
          λ (run, m).
              ground
                (arith, e, update-Matched run_id tenant expected updates conditions now runs run m),
        ),
        λ run m.
            ground
              (arith, e, update-Matched run_id tenant expected updates conditions now runs run m),
        λ other apart. refl,
        λ _. refl,
      )
    ]

-- One winner. Once an update with an expected version has succeeded, every other update of the same
-- run that expects the same version fails and changes nothing, whatever it assigns and whatever its
-- tenant and its conditions are.
pub one_winner :
    (run_id tenant tenant' expected : ℕ) (updates updates' : Run → Run)
    (conditions conditions' : List Condition) (now now' : ℕ) (runs runs' : Runs)
    → update_with_version_check run_id tenant expected updates conditions now runs ≡ (true, runs')
    → update_with_version_check run_id tenant' expected updates' conditions' now' runs'
      ≡ (false, runs')
one_winner run_id tenant tenant' expected updates updates' conditions conditions' now now' runs
      runs' e =
    elim (update-inv run_id tenant expected updates conditions now runs) [
      | inr lost ↦ cc
      | inl (run, m, won) ↦
          elim (update-inv run_id tenant' expected updates' conditions' now' runs') [
            | inr lost ↦ lost
            | inl (run', m', won') ↦ absurd (
                ground
                  (arith, m'.0, lookup-insert_self run_id (bump expected now updates run) runs))
          ]
    ]

pub get_by_id-inv :
    (run_id tenant : ℕ) (run : Run) (runs : Runs)
    → get_by_id run_id tenant runs ≡ some run
    → (lookup run_id runs ≡ some run) × (run.tenant_id ≡ tenant)
unfolding get_by_id
get_by_id-inv run_id tenant run runs e = elim (Option-cases (lookup run_id runs)) [
  | inl f ↦ absurd (none_some (rw (f, get_by_id) at e))
  | inr (row, f) ↦ ground (arith, f, e)
]
  where
    none_some : {x : Run} → ◌≡◌ {A = Option Run} none (some x) → ⊥
    none_some p = cc

pub get_by_id-found :
    (run_id tenant : ℕ) (run : Run) (runs : Runs)
    → lookup run_id runs ≡ some run
    → run.tenant_id ≡ tenant
    → get_by_id run_id tenant runs ≡ some run
unfolding get_by_id
get_by_id-found run_id tenant run runs e t = rw (e, get_by_id) (ground arith)
