-- ===== src/Budget/Scripts.antt =====
-- What each script does to the money of each tenant.
use decisionproof.Base.{
  ℕ, ◌+◌, ◌*◌, ℤ, pos, ◌+ℤ◌, ◌≤ℤ◌, int_laws, ◌≡◌, refl, ◌∙◌, inl, inr, none, some, [], ◌∷◌, arith,
  eqb, if◌then◌else◌, Dict, lookup, insert, erase, lookup-insert, lookup-erase, Option-cases,
  +ℤ-cancel, ap, pair_eq, nat_eq, eqb_pair_iff, or_default,
}
use decisionproof.Budget.{
  Reservation, Redis, get_balance, ReserveReply, reserved, SettleReply, settled, no_reserve,
  reserve_lua, expire_reservation, finish_reserve, reservation_ttl_seconds, reserve,
}
use decisionproof.Budget.Ledger.{
  Reservations, total, AreValid, held_in-insert_new, held_in-insert, AreValid-Distinct,
}

-- Balances and reservations are never negative, and a run has at most one reservation.
pub record IsValid (r : Redis) : Type 0 where
  pub funds : (t : ℕ) → pos 0 ≤ℤ get_balance t r
  pub reservations : AreValid r.reserves

insert-AreValid :
    (k : ℕ × ℕ) (v : Reservation) (d : Reservations)
    → pos 0 ≤ℤ v.reserved_usd_micros
    → AreValid d
    → AreValid (insert k v d)
insert-AreValid k v [] p h = (p, refl, tt)
insert-AreValid k v ((j, w) ∷ d) p h =
    ground (
      arith,
      eqb_pair_iff j k,
      eqb_pair_iff k j,
      insert-AreValid k v d p h.2,
      lookup-insert k j v d,
    )

pub erase-AreValid : (k : ℕ × ℕ) (d : Reservations) → AreValid d → AreValid (erase k d)
erase-AreValid k [] h = tt
erase-AreValid k ((j, w) ∷ d) h =
    ground (
      arith,
      eqb_pair_iff k j,
      erase-AreValid k d h.2,
      lookup-erase k j d (AreValid-Distinct d h.2),
    )

pub lookup-AreValid :
    (k : ℕ × ℕ) (v : Reservation) (d : Reservations)
    → AreValid d
    → lookup k d ≡ some v
    → pos 0 ≤ℤ v.reserved_usd_micros
lookup-AreValid k v [] h e = ground arith
lookup-AreValid k v ((j, w) ∷ d) h e = ground (arith, lookup-AreValid k v d h.2)

pub balance-insert :
    (k t : ℕ) (v : ℤ) (d : Dict ℕ ℤ)
    → or_default (lookup t (insert k v d)) (pos 0)
      ≡ (if eqb k t then v else or_default (lookup t d) (pos 0))
balance-insert k t v d = ground (arith, lookup-insert k t v d)

module _ (tenant run : ℕ) (now : ℕ) (r : Redis) (valid : IsValid r) where
  open valid use {funds, reservations}

  expire_reservation-IsValid : (seconds : ℕ) → IsValid (expire_reservation tenant run seconds now r)
  unfolding expire_reservation
  expire_reservation-IsValid seconds = elim (Option-cases (lookup (tenant, run) r.reserves)) [
    | inl e ↦ rw (e, expire_reservation) valid
    | inr (v, e) ↦
        rw (e, expire_reservation)
          (record {
            funds = funds;
            reservations =
                insert-AreValid (tenant, run) _ r.reserves
                  (lookup-AreValid (tenant, run) v r.reserves reservations e) reservations;
          })
  ]

  expire_reservation-total :
      (t seconds : ℕ) → total t (expire_reservation tenant run seconds now r) ≡ total t r
  unfolding expire_reservation
  expire_reservation-total t seconds = elim (Option-cases (lookup (tenant, run) r.reserves)) [
    | inl e ↦ rw (e, expire_reservation)
    | inr (v, e) ↦
        rw (e, expire_reservation)
          (ap (λ (x : ℤ). get_balance t r +ℤ x)
            (+ℤ-cancel _ _ _ (
              held_in-insert t (tenant, run)
                (record v { expires_at_ms = some (now + seconds * 1000) }) v r.reserves e)))
  ]

module _ (tenant run : ℕ) (r : Redis) (valid : IsValid r) where
  open valid use {funds, reservations}

  reserve_lua-IsValid :
      (amount : ℤ) (ms : ℕ) → pos 0 ≤ℤ amount → IsValid (reserve_lua tenant run amount ms r).1
  unfolding reserve_lua
  reserve_lua-IsValid amount ms p = record {
    funds = λ t. grind (int_laws, funds t, balance-insert);
    reservations = ground (
      arith,
      insert-AreValid (tenant, run)
          (record {
            tenant_id = tenant;
            reserved_usd_micros = amount;
            created_at_ms = ms;
            expires_at_ms = none;
          })
          r.reserves p reservations,
    );
  }

  reserve_lua-total :
      (amount : ℤ) (ms t : ℕ) → total t (reserve_lua tenant run amount ms r).1 ≡ total t r
  unfolding reserve_lua
  reserve_lua-total amount ms t = elim (Option-cases (lookup (tenant, run) r.reserves)) [
    | inl e ↦ grind (
      int_laws,
      e,
      balance-insert,
      held_in-insert_new t (tenant, run)
          (record {
            tenant_id = tenant;
            reserved_usd_micros = amount;
            created_at_ms = ms;
            expires_at_ms = none;
          })
          r.reserves e,
    )
    | inr (v, e) ↦ ground (arith, e)
  ]

-- What a settlement charged: nothing if it found no reservation.
abbrev pub charged : SettleReply → ℤ
charged (settled c _ _) = c
charged no_reserve = pos 0

-- `reserve` moves money from the balance into the reservation and makes or loses none: a valid
-- store stays valid, and the balance and the reservations of each tenant add up to what they did,
-- whether the reservation is made or refused.
pub reserve-keeps :
    (tenant run : ℕ) (amount : ℤ) (now : ℕ) (r : Redis)
    → IsValid r
    → pos 0 ≤ℤ amount
    → IsValid (reserve tenant run amount now r).1
      × ((t : ℕ) → total t (reserve tenant run amount now r).1 ≡ total t r)
unfolding reserve
reserve-keeps tenant run amount now r valid p =
    cases (reserve_lua tenant run amount now r)
      (reserve_lua-IsValid tenant run r valid amount now p)
      (reserve_lua-total tenant run r valid amount now)
  where
    cases :
        (x : ReserveReply × Redis)
        → IsValid x.1
        → ((t : ℕ) → total t x.1 ≡ total t r)
        → let y : ReserveReply × Redis = finish_reserve tenant run now x in
          IsValid y.1 × ((t : ℕ) → total t y.1 ≡ total t r)
    cases (reserved b, r') v e = (
      expire_reservation-IsValid tenant run now r' v reservation_ttl_seconds,
      λ t. expire_reservation-total tenant run now r' v t reservation_ttl_seconds ∙ e t,
    )
    cases (ReserveReply.insufficient b, r') v e = (v, e)
    cases (ReserveReply.already_reserved, r') v e = (v, e)
