-- ===== src/Budget/Settling.antt =====
-- The settlement and the full refund keep a store valid and lose no money.
use decisionproof.Base.{
  ℕ, ℤ, pos, ◌+ℤ◌, ◌-ℤ◌, ◌≤ℤ◌, int_laws, ◌≡◌, refl, inl, inr, some, arith, eqb, if◌then◌else◌,
  lookup, Option-cases, Bool-cases, eqb_iff, pos_part, neg_part, ap, pair_eq, nat_eq,
}
use decisionproof.Budget.{
  Reservation, Redis, get_balance, clamp_charge, credit, settle_reservation, settle, refund_full,
}
use decisionproof.Budget.Ledger.{held_in, total, share, held_in-erase}
use decisionproof.Budget.Scripts.{erase-AreValid, IsValid, lookup-AreValid, balance-insert, charged}

clamp_charge_bounds :
    (charge most : ℤ)
    → pos 0 ≤ℤ most
    → (pos 0 ≤ℤ clamp_charge charge most) × (clamp_charge charge most ≤ℤ most)
clamp_charge_bounds charge most p = ground arith

-- The zero floor of `credit` never acts on a valid store.
credit-eq-add :
    (bal refund : ℤ) → pos 0 ≤ℤ bal → pos 0 ≤ℤ refund → credit bal refund ≡ bal +ℤ refund
credit-eq-add bal refund p q = grind int_laws

-- Taking `amount` out of a tenant's reservations and all but `c` of it back to the balance.
split_total :
    (tenant t : ℕ) (c amount : ℤ) (bal : ℕ → ℤ) (h h' : ℤ)
    → h' +ℤ share t tenant amount ≡ h
    → (if eqb tenant t then bal tenant +ℤ (amount -ℤ c) else bal t) +ℤ h' +ℤ share t tenant c
      ≡ bal t +ℤ h
split_total tenant t c amount bal h h' e = elim (Bool-cases (eqb tenant t)) [
  | inl same ↦
      let owner = (eqb_iff tenant t).0 same in
      let e' : h' +ℤ amount ≡ h = rw same at e in
      rw (same, owner) (omega (int_laws, ap pos_part e', ap neg_part e'))
  | inr other ↦
      let e' : h' +ℤ pos 0 ≡ h = rw other at e in
      rw other (omega (int_laws, ap pos_part e', ap neg_part e'))
]

refund_total :
    (tenant t : ℕ) (amount : ℤ) (bal : ℕ → ℤ) (h h' : ℤ)
    → h' +ℤ share t tenant amount ≡ h
    → (if eqb tenant t then bal tenant +ℤ amount else bal t) +ℤ h' ≡ bal t +ℤ h
refund_total tenant t amount bal h h' e = elim (Bool-cases (eqb tenant t)) [
  | inl same ↦
      let owner = (eqb_iff tenant t).0 same in
      let e' : h' +ℤ amount ≡ h = rw same at e in
      rw (same, owner) (omega (int_laws, ap pos_part e', ap neg_part e'))
  | inr other ↦
      let e' : h' +ℤ pos 0 ≡ h = rw other at e in
      rw other (omega (int_laws, ap pos_part e', ap neg_part e'))
]

add_zero : (a : ℤ) → a +ℤ pos 0 ≡ a
add_zero a = omega int_laws

module _ (tenant run : ℕ) (charge : ℤ) (now : ℕ) (r : Redis) (valid : IsValid r) (v : Reservation)
    (found : lookup (tenant, run) r.reserves ≡ some v) where
  open valid use {funds, reservations}

  abbrev held_amount : ℤ
  held_amount = v.reserved_usd_micros

  amount_nonneg : pos 0 ≤ℤ v.reserved_usd_micros
  amount_nonneg = lookup-AreValid (tenant, run) v r.reserves reservations found

  settle_reservation-IsValid : IsValid (settle_reservation tenant run charge now v r).1
  unfolding settle_reservation
  settle_reservation-IsValid = record {
    funds = λ t. grind (int_laws, funds t, balance-insert);
    reservations = erase-AreValid (tenant, run) r.reserves reservations;
  }

  settle_reservation-total :
      (t : ℕ)
      → let (reply, r') = settle_reservation tenant run charge now v r in
        total t r' +ℤ share t tenant (charged reply) ≡ total t r
  unfolding settle_reservation
  settle_reservation-total t =
      let bounds = clamp_charge_bounds charge v.reserved_usd_micros amount_nonneg in
      rw
        (
          balance-insert,
          credit-eq-add (get_balance tenant r)
              (v.reserved_usd_micros -ℤ clamp_charge charge v.reserved_usd_micros) (funds tenant)
              (omega int_laws),
        )
        (split_total tenant t (clamp_charge charge v.reserved_usd_micros) v.reserved_usd_micros
          (λ x. get_balance x r) (held_in t r.reserves) _
          (held_in-erase t (tenant, run) v r.reserves found))

-- `settle` charges what it says and loses nothing else: a valid store stays valid, and what the
-- settlement charged is exactly what the balance and the reservations of the tenant have lost.
pub settle-keeps :
    (tenant run : ℕ) (charge : ℤ) (now : ℕ) (r : Redis)
    → IsValid r
    → let (reply, r') = settle tenant run charge now r in
      IsValid r' × ((t : ℕ) → total t r' +ℤ share t tenant (charged reply) ≡ total t r)
unfolding settle
settle-keeps tenant run charge now r valid = elim (Option-cases (lookup (tenant, run) r.reserves)) [
  | inl e ↦ rw (e, settle) (valid, λ t. ground (arith, add_zero (total t r)))
  | inr (v, e) ↦
      rw (e, settle)
        (
          settle_reservation-IsValid tenant run charge now r valid v e,
          settle_reservation-total tenant run charge now r valid v e,
        )
]

-- `refund_full` gives back the whole reservation, and keeps each tenant's total.
pub refund_full-keeps :
    (tenant run : ℕ) (r : Redis)
    → IsValid r
    → let r' = (refund_full tenant run r).1 in IsValid r' × ((t : ℕ) → total t r' ≡ total t r)
unfolding refund_full
refund_full-keeps tenant run r valid = elim (Option-cases (lookup (tenant, run) r.reserves)) [
  | inl e ↦ rw (e, refund_full) (valid, λ t. refl)
  | inr (v, e) ↦
      let p = lookup-AreValid (tenant, run) v r.reserves valid.reservations e in
      rw (e, refund_full)
        (
          record {
            funds = λ t. grind (int_laws, valid.funds t, valid.funds tenant, balance-insert);
            reservations = erase-AreValid (tenant, run) r.reserves valid.reservations;
          },
          λ t. rw balance-insert (
              refund_total tenant t v.reserved_usd_micros (λ x. get_balance x r)
                (held_in t r.reserves) _ (held_in-erase t (tenant, run) v r.reserves e)),
        )
]
