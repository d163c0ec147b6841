-- ===== src/Runs/History.antt =====
-- Rows over time: every write of the protocol goes through `update_with_version_check`, so a
-- version stands for one content of a row.
use decisionproof.Base.{
  ℕ, ◌<◌, ◌≡◌, refl, ◌∙◌, ◌⊎◌, inl, inr, Bool, true, Option, some, List, [], ◌∷◌, arith, eqb,
  eqb_iff, lookup, lookup-insert, nat_eq, Bool-cases,
}
use decisionproof.Runs.Defs.{Run, Runs, Condition, bump, update_with_version_check}
use decisionproof.Runs.Locking.{update-inv}

-- The arguments of one call of `update_with_version_check`.
pub record Write : Type 0 where
  pub run_id : ℕ
  pub tenant : ℕ
  pub expected : ℕ
  pub updates : Run → Run
  pub conditions : List Condition
  pub now : ℕ

abbrev pub write : Write → Runs → Bool × Runs
write w = update_with_version_check w.run_id w.tenant w.expected w.updates w.conditions w.now

abbrev pub write_all : List Write → Runs → Runs
write_all [] runs = runs
write_all (w ∷ ws) runs = write_all ws (write w runs).1

-- The row is as it was, or has a later version.
abbrev Progress : Option Run → Run → Type 0
Progress row run = (run' : Run) × (row ≡ some run') × ((run' ≡ run) ⊎ (run.version < run'.version))

write-Progress :
    (w : Write) (id : ℕ) (run : Run) (runs : Runs)
    → lookup id runs ≡ some run
    → Progress (lookup id (write w runs).1) run
write-Progress w id run runs e =
    elim (update-inv w.run_id w.tenant w.expected w.updates w.conditions w.now runs) [
      | inr lost ↦ rw lost (run, e, inl refl)
      | inl (old, m, won) ↦ elim (Bool-cases (eqb w.run_id id)) [
        | inl here ↦
            let same : old ≡ run = ground (arith, m.0, e, (eqb_iff w.run_id id).0 here) in
            rw (won, lookup-insert, here)
              (bump w.expected w.now w.updates old, refl, inr (rw (← same) (omega (arith, m.2))))
        | inr there ↦ rw (won, lookup-insert, there) (run, e, inl refl)
      ]
    ]

-- Over any writes a row stays, and is as it was or has a later version.
pub write_all-Progress :
    (ws : List Write) (id : ℕ) (run : Run) (runs : Runs)
    → lookup id runs ≡ some run
    → (run' : Run) × (lookup id (write_all ws runs) ≡ some run')
      × ((run' ≡ run) ⊎ (run.version < run'.version))
write_all-Progress [] id run runs e = (run, e, inl refl)
write_all-Progress (w ∷ ws) id run runs e =
    let (run', e', p) = write-Progress w id run runs e in
    let (run'', e'', p') = write_all-Progress ws id run' (write w runs).1 e' in
    (run'', e'', later p p')
  where
    later :
        {a b c : Run}
        → (b ≡ a) ⊎ (a.version < b.version)
        → (c ≡ b) ⊎ (b.version < c.version)
        → (c ≡ a) ⊎ (a.version < c.version)
    later (inl p) (inl q) = inl (q ∙ p)
    later (inl p) (inr q) = inr (rw (← p) q)
    later (inr p) (inl q) = inr (rw q p)
    later (inr p) (inr q) = inr (omega arith)

-- No lost update. A caller reads a row; others write to the table, any number of times; the caller
-- then updates with the version that it read. If that succeeds, the row that it overwrote is the row
-- that it read, in every column.
pub no_lost_update :
    (ws : List Write) (w : Write) (run : Run) (runs : Runs)
    → lookup w.run_id runs ≡ some run
    → w.expected ≡ run.version
    → (write w (write_all ws runs)).0 ≡ true
    → lookup w.run_id (write_all ws runs) ≡ some run
no_lost_update ws w run runs read v won =
    let (run', e', p) = write_all-Progress ws w.run_id run runs read in
    elim (update-inv w.run_id w.tenant w.expected w.updates w.conditions w.now
      (write_all ws runs)) [
        | inr lost ↦ cc (lost, won)
        | inl (old, m, _) ↦
            let same : old ≡ run' = ground (arith, m.0, e') in e' ∙ fits p (rw same at m.2)
      ]
  where
    fits :
        {run' : Run}
        → (run' ≡ run) ⊎ (run.version < run'.version)
        → run'.version ≡ w.expected
        → some run' ≡ some run
    fits (inl p) q = cc
    fits (inr p) q = absurd (omega arith)
