-- ===== src/Runs/Keys.antt =====
-- The row of an idempotency key over time.
use decisionproof.Base.{
  ℕ, ◌≡◌, refl, sym, ◌∙◌, ap, inl, inr, true, ◌&&◌, none, some, Option, List, [], ◌∷◌, arith, eqb,
  eqb_iff, eqb_option, lookup, insert, nat_eq, Bool-cases, Option-cases, Bool, false,
}
use decisionproof.Runs.Defs.{
  Run, Runs, get_by_idempotency_key, same_key, Created, created, rejected, create, bump,
}
use decisionproof.Runs.Locking.{update-inv}
use decisionproof.Runs.History.{Write, write}

-- What the repository does to the table: an update, or a new row.
pub data RowChange : Type 0 where
  updated : Write → RowChange
  inserted : (id : ℕ) → Run → RowChange

abbrev pub after_create : Runs → Created → Runs
after_create runs (created runs') = runs'
after_create runs (rejected e) = runs

abbrev pub apply : RowChange → Runs → Runs
apply (updated w) runs = (write w runs).1
apply (inserted id run) runs = after_create runs (create id run runs)

abbrev pub apply_all : List RowChange → Runs → Runs
apply_all [] runs = runs
apply_all (c ∷ cs) runs = apply_all cs (apply c runs)

-- Two rows under one key.
pub record SameKey (a b : Run) : Type 0 where
  pub tenant : b.tenant_id ≡ a.tenant_id
  pub key : b.idempotency_key ≡ a.idempotency_key
  pub hash : b.payload_hash ≡ a.payload_hash

-- No update assigns the tenant, the key or the hash of the payload.
abbrev pub AllKeepKeys : List RowChange → Type 0
AllKeepKeys [] = Unit
AllKeepKeys (updated w ∷ cs) = ((r : Run) → SameKey r (w.updates r)) × AllKeepKeys cs
AllKeepKeys (inserted id run ∷ cs) = AllKeepKeys cs

-- The key finds the row of this id, with this hash.
pub record IsKeyed (tenant key id hash : ℕ) (runs : Runs) : Type 0 where
  pub row : Run
  pub found : get_by_idempotency_key tenant key runs ≡ some (id, row)
  pub same_hash : row.payload_hash ≡ hash

none-some {ℓ} : {A : Type ℓ} {x : A} → ◌≡◌ {A = Option A} none (some x) → ⊥
none-some p = cc

-- A new row stands behind the others.
get_by_idempotency_key-new :
    (tenant key id j : ℕ) (run row : Run) (runs : Runs)
    → lookup j runs ≡ none
    → get_by_idempotency_key tenant key runs ≡ some (id, row)
    → get_by_idempotency_key tenant key (insert j run runs) ≡ some (id, row)
unfolding get_by_idempotency_key
get_by_idempotency_key-new tenant key id j run row [] fresh e = absurd (none-some e)
get_by_idempotency_key-new tenant key id j run row ((i, r) ∷ runs) fresh e =
    ground (arith, fresh, e, get_by_idempotency_key-new tenant key id j run row runs)

abbrev has_key : ℕ → ℕ → Run → Bool
has_key tenant key run = eqb run.tenant_id tenant && eqb_option run.idempotency_key (some key)

has_key-same :
    (tenant key : ℕ) (old new r : Run)
    → SameKey old new
    → r ≡ old
    → has_key tenant key new ≡ has_key tenant key r
has_key-same tenant key old new r same e =
    ap (λ t. eqb t tenant && eqb_option new.idempotency_key (some key)) same.tenant
    ∙ ap (λ k. eqb old.tenant_id tenant && eqb_option k (some key)) same.key
    ∙ ap (has_key tenant key) (sym e)

same_row :
    (i id j : ℕ) (r row old new : Run)
    → ◌≡◌ {A = Option (ℕ × Run)} (some (i, r)) (some (id, row))
    → i ≡ j
    → r ≡ old
    → SameKey old new
    → (◌≡◌ {A = Option (ℕ × Run)} (some (j, new)) (some (id, new)))
      × (new.payload_hash ≡ row.payload_hash)
same_row i id j r row old new e here r_old same =
    let ids : i ≡ id = cc in
    let rows : r ≡ row = cc in
    (
      ap (λ n. some (n, new)) (sym here ∙ ids),
      same.hash ∙ ap (λ (x : Run). x.payload_hash) (sym r_old ∙ rows),
    )

-- A row that is written again under its key changes no other, and is found as before.
get_by_idempotency_key-kept :
    (tenant key id j : ℕ) (old new row : Run) (runs : Runs)
    → lookup j runs ≡ some old
    → SameKey old new
    → get_by_idempotency_key tenant key runs ≡ some (id, row)
    → (row' : Run) × (get_by_idempotency_key tenant key (insert j new runs) ≡ some (id, row'))
      × (row'.payload_hash ≡ row.payload_hash)
unfolding get_by_idempotency_key
get_by_idempotency_key-kept tenant key id j old new row [] at same e = absurd (none-some e)
get_by_idempotency_key-kept tenant key id j old new row ((i, r) ∷ runs) at same e =
    elim (Bool-cases (eqb i j)) [
      | inl here ↦
          let r_old : r ≡ old = ground (arith, at, here) in
          elim (Bool-cases (has_key tenant key r)) [
            | inl hit ↦
                let hit' : has_key tenant key new ≡ true =
                  has_key-same tenant key old new r same r_old ∙ hit in
                let p =
                  same_row i id j r row old new (rw hit at e) ((eqb_iff i j).0 here) r_old same in
                rw (here, hit') (new, p.0, p.1)
            | inr miss ↦
                let miss' : has_key tenant key new ≡ false =
                  has_key-same tenant key old new r same r_old ∙ miss in
                rw (here, miss') (row, rw miss at e, refl)
          ]
      | inr there ↦ rw there (elim (Bool-cases (has_key tenant key r)) [
        | inl hit ↦ rw hit (row, rw hit at e, refl)
        | inr miss ↦ rw miss (
            get_by_idempotency_key-kept tenant key id j old new row runs (rw there at at) same
              (rw miss at e))
      ])
    ]

module _ (tenant key id hash : ℕ) where
  written-IsKeyed :
      (w : Write) (runs : Runs)
      → ((r : Run) → SameKey r (w.updates r))
      → IsKeyed tenant key id hash runs
      → IsKeyed tenant key id hash (write w runs).1
  written-IsKeyed w runs keeps h =
      elim (update-inv w.run_id w.tenant w.expected w.updates w.conditions w.now runs) [
        | inr lost ↦ rw lost h
        | inl (old, m, won) ↦
            let k = keeps old in
            let (row, found, same) =
              get_by_idempotency_key-kept tenant key id w.run_id old
                (bump w.expected w.now w.updates old) h.row runs m.0
                (record { tenant = k.tenant; key = k.key; hash = k.hash }) h.found in
            rw won (record { row = row; found = found; same_hash = same ∙ h.same_hash })
      ]

  created-IsKeyed :
      (j : ℕ) (run : Run) (runs : Runs)
      → IsKeyed tenant key id hash runs
      → IsKeyed tenant key id hash (after_create runs (create j run runs))
  unfolding create
  created-IsKeyed j run runs h = elim (Option-cases (lookup j runs)) [
    | inr (r, taken) ↦ rw taken h
    | inl fresh ↦ rw fresh (elim (Bool-cases (same_key run.tenant_id run.idempotency_key runs)) [
      | inl used ↦ rw used h
      | inr free ↦ rw free (record {
        row = h.row;
        found = get_by_idempotency_key-new tenant key id j run h.row runs fresh h.found;
        same_hash = h.same_hash;
      })
    ])
  ]

  -- Over any updates and new rows, a key keeps its row, and the row the hash of its payload.
  pub apply_all-IsKeyed :
      (cs : List RowChange) (runs : Runs)
      → AllKeepKeys cs
      → IsKeyed tenant key id hash runs
      → IsKeyed tenant key id hash (apply_all cs runs)
  apply_all-IsKeyed [] runs keeps h = h
  apply_all-IsKeyed (updated w ∷ cs) runs keeps h =
      apply_all-IsKeyed cs (write w runs).1 keeps.1 (written-IsKeyed w runs keeps.0 h)
  apply_all-IsKeyed (inserted j run ∷ cs) runs keeps h =
      apply_all-IsKeyed cs _ keeps (created-IsKeyed j run runs h)
