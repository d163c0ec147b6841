-- ===== src/Budget/Ledger.antt =====
-- The money of a tenant: what its balance holds and what its reservations hold back.
use decisionproof.Base.{
  ℕ, ℤ, pos, ◌+ℤ◌, ◌≤ℤ◌, int_laws, ◌≡◌, none, some, [], ◌∷◌, arith, eqb, if◌then◌else◌, Dict,
  lookup, insert, erase, Distinct, pair_eq, nat_eq, eqb_pair, eqb_pair_iff, Bool-cases, inl, inr,
  +ℤ_assoc,
}
use decisionproof.Budget.{Reservation, Redis, get_balance}

abbrev pub Reservations : Type 0
Reservations = Dict (ℕ × ℕ) Reservation

-- The amounts that the reservations of one tenant hold.
abbrev pub held_in : ℕ → Reservations → ℤ
held_in tenant [] = pos 0
held_in tenant ((k, v) ∷ d) =
    (if eqb k.0 tenant then v.reserved_usd_micros else pos 0) +ℤ held_in tenant d

-- A tenant's money that has been neither charged nor lost.
abbrev pub total : ℕ → Redis → ℤ
total tenant r = get_balance tenant r +ℤ held_in tenant r.reserves

-- What one key contributes to `held_in`.
abbrev pub share : ℕ → ℕ → ℤ → ℤ
share tenant owner amount = if eqb owner tenant then amount else pos 0

pub held_in-insert_new :
    (t : ℕ) (k : ℕ × ℕ) (v : Reservation) (d : Reservations)
    → lookup k d ≡ none
    → held_in t (insert k v d) ≡ held_in t d +ℤ share t k.0 v.reserved_usd_micros
held_in-insert_new t k v [] h = grind int_laws
held_in-insert_new t k v ((j, w) ∷ d) h = grind (int_laws, held_in-insert_new t k v d)

pub held_in-insert :
    (t : ℕ) (k : ℕ × ℕ) (v old : Reservation) (d : Reservations)
    → lookup k d ≡ some old
    → held_in t (insert k v d) +ℤ share t k.0 old.reserved_usd_micros
      ≡ held_in t d +ℤ share t k.0 v.reserved_usd_micros
held_in-insert t k v old [] h = ground arith
held_in-insert t k v old ((j, w) ∷ d) h = elim (Bool-cases (eqb_pair j k)) [
  | inl hit ↦
      let same : w ≡ old = ground arith in
      let owner = (eqb_pair_iff j k).0 hit in rw (hit, owner, same) (omega int_laws)
  | inr miss ↦ rw (miss, +ℤ_assoc, held_in-insert t k v old d (ground arith), ← +ℤ_assoc)
]

pub held_in-erase :
    (t : ℕ) (k : ℕ × ℕ) (old : Reservation) (d : Reservations)
    → lookup k d ≡ some old
    → held_in t (erase k d) +ℤ share t k.0 old.reserved_usd_micros ≡ held_in t d
held_in-erase t k old [] h = ground arith
held_in-erase t k old ((j, w) ∷ d) h = grind (int_laws, held_in-erase t k old d)

-- No reservation of a negative amount, and one for each key.
abbrev pub AreValid : Reservations → Type 0
AreValid [] = Unit
AreValid ((k, v) ∷ d) = (pos 0 ≤ℤ v.reserved_usd_micros) × (lookup k d ≡ none) × AreValid d

pub AreValid-Distinct : (d : Reservations) → AreValid d → Distinct d
AreValid-Distinct [] h = tt
AreValid-Distinct ((k, v) ∷ d) h = (h.1, AreValid-Distinct d h.2)
