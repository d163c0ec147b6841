-- ===== src/Base/Table.antt =====
-- A table of rows under keys that are only compared: a SQL table by its primary key, or one family
-- of Redis keys. The keys' equality is an instance.
use Prim.Native.Nat.{ℕ}
use mathlib.Core.Path.{◌≡◌, refl}
use mathlib.Core.Logic.{◌↔◌}
use mathlib.Core.Bool.{Bool, true, ◌&&◌}
use mathlib.Core.List.{List, [], ◌∷◌}
use mathlib.Core.Option.{Option, none, some}
use native.Mathlib.Omega.{arith}
use decisionproof.Base.Tests.{eqb, eqb_iff, if◌then◌else◌, is_some}

-- What a table needs of its keys.
pub record Key {ℓ} (K : Type ℓ) : Type ℓ where
  pub is_same : K → K → Bool
  pub is_same_iff : (j k : K) → (is_same j k ≡ true) ↔ (j ≡ k)

abbrev pub eqb_pair : ℕ × ℕ → ℕ × ℕ → Bool
eqb_pair (a, b) (c, d) = eqb a c && eqb b d

pub eqb_pair_iff : (a b : ℕ × ℕ) → (eqb_pair a b ≡ true) ↔ (a ≡ b)
eqb_pair_iff (a, b) (c, d) = ground arith

-- Identifiers, and pairs such as (tenant, run).
instance abbrev pub nat_eq : Key ℕ
nat_eq = record { is_same = eqb; is_same_iff = eqb_iff }

instance abbrev pub pair_eq : Key (ℕ × ℕ)
pair_eq = record { is_same = eqb_pair; is_same_iff = eqb_pair_iff }

abbrev pub Dict {ℓ κ} : Type ℓ → Type κ → Type (ℓ ⊔ κ)
Dict K V = List (K × V)

module _ {ℓ κ} {K : Type ℓ} {V : Type κ} ⦃e : Key K⦄ where
  abbrev pub lookup : K → Dict K V → Option V
  lookup k [] = none
  lookup k ((j, v) ∷ d) = if e.is_same j k then some v else lookup k d

  abbrev pub has : K → Dict K V → Bool
  has k d = is_some (lookup k d)

  abbrev pub insert : K → V → Dict K V → Dict K V
  insert k v [] = (k, v) ∷ []
  insert k v ((j, w) ∷ d) = if e.is_same j k then (k, v) ∷ d else (j, w) ∷ insert k v d

  abbrev pub erase : K → Dict K V → Dict K V
  erase k [] = []
  erase k ((j, w) ∷ d) = if e.is_same j k then d else (j, w) ∷ erase k d

  -- No key stands twice.
  abbrev pub Distinct : Dict K V → Type κ
  Distinct [] = Unit
  Distinct ((k, v) ∷ d) = (lookup k d ≡ none) × Distinct d

  pub lookup-insert :
      (k j : K) (v : V) (d : Dict K V)
      → lookup j (insert k v d) ≡ (if e.is_same k j then some v else lookup j d)
  lookup-insert k j v [] = refl
  lookup-insert k j v ((i, w) ∷ d) =
      ground (arith, e.is_same_iff k j, e.is_same_iff i k, e.is_same_iff i j, lookup-insert k j v d)

  pub lookup-insert_self : (k : K) (v : V) (d : Dict K V) → lookup k (insert k v d) ≡ some v
  lookup-insert_self k v d = rw (lookup-insert, (e.is_same_iff k k).1 refl)

  pub lookup-erase :
      (k j : K) (d : Dict K V)
      → Distinct d
      → lookup j (erase k d) ≡ (if e.is_same k j then none else lookup j d)
  lookup-erase k j [] h = ground arith
  lookup-erase k j ((i, w) ∷ d) h =
      ground (
        arith,
        e.is_same_iff k j,
        e.is_same_iff i k,
        e.is_same_iff i j,
        lookup-erase k j d h.1,
        h.0,
      )

  pub insert-Distinct : (k : K) (v : V) (d : Dict K V) → Distinct d → Distinct (insert k v d)
  insert-Distinct k v [] h = (refl, tt)
  insert-Distinct k v ((i, w) ∷ d) h = ground (
    arith,
    e.is_same_iff i k,
    e.is_same_iff k i,
    insert-Distinct k v d h.1,
    lookup-insert k i v d,
  )

  pub erase-Distinct : (k : K) (d : Dict K V) → Distinct d → Distinct (erase k d)
  erase-Distinct k [] h = tt
  erase-Distinct k ((i, w) ∷ d) h =
      ground (arith, e.is_same_iff k i, erase-Distinct k d h.1, lookup-erase k i d h.1)
