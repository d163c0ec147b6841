-- ===== src/Budget/Reserving.antt =====
-- When a reservation is made, what it leaves, and how it ends without a charge.
use decisionproof.Base.{
  ℕ, ◌+◌, ◌*◌, ℤ, pos, ◌+ℤ◌, ◌-ℤ◌, ◌≤ℤ◌, int_laws, ap, ltb_ℤ, ◌≡◌, ◌≢◌, refl, sym, ◌∙◌, inl, inr,
  Bool, true, false, none, some, arith, eqb, if◌then◌else◌, lookup, insert, eqb_iff,
  lookup-insert_self, lookup-erase, eqb_pair_iff, Option-cases, Bool-cases, pair_eq, nat_eq,
}
use decisionproof.Budget.{
  Reservation, Redis, get_balance, get_reservation, ReserveReply, reserved, already_reserved,
  insufficient, reserve_lua, expire_reservation, finish_reserve, reserve, reservation_ttl_seconds,
  RefundReply, refunded, refund_full,
}
use decisionproof.Budget.Ledger.{AreValid-Distinct}
use decisionproof.Budget.Scripts.{IsValid, balance-insert, reserve-keeps}

abbrev pub new_reservation : ℕ → ℤ → ℕ → Reservation
new_reservation tenant amount now = record {
  tenant_id = tenant;
  reserved_usd_micros = amount;
  created_at_ms = now;
  expires_at_ms = some (now + reservation_ttl_seconds * 1000);
}

abbrev store_with : ℕ → ℕ → ℤ → Reservation → Redis → Redis
store_with tenant run amount v r = record r {
  balances = insert tenant (get_balance tenant r -ℤ amount) r.balances;
  reserves = insert (tenant, run) v r.reserves;
}

reserve_lua_made :
    (tenant run : ℕ) (amount : ℤ) (now : ℕ) (r : Redis)
    → get_reservation tenant run r ≡ none
    → ltb_ℤ (get_balance tenant r) amount ≡ false
    → reserve_lua tenant run amount now r ≡ (
      reserved (get_balance tenant r -ℤ amount),
      store_with tenant run amount
          (record (new_reservation tenant amount now) { expires_at_ms = none })
          r,
    )
unfolding reserve_lua
reserve_lua_made tenant run amount now r free enough = rw (free, enough)

abbrev made_store : ℕ → ℕ → ℤ → ℕ → Redis → Redis
made_store tenant run amount now r = record r {
  balances = insert tenant (get_balance tenant r -ℤ amount) r.balances;
  reserves =
      insert (tenant, run) (new_reservation tenant amount now)
        (insert (tenant, run) (record (new_reservation tenant amount now) { expires_at_ms = none })
          r.reserves);
}

pub reserve_made :
    (tenant run : ℕ) (amount : ℤ) (now : ℕ) (r : Redis)
    → get_reservation tenant run r ≡ none
    → ltb_ℤ (get_balance tenant r) amount ≡ false
    → reserve tenant run amount now r
      ≡ (reserved (get_balance tenant r -ℤ amount), made_store tenant run amount now r)
unfolding reserve
reserve_made tenant run amount now r free enough =
    rw (reserve_lua_made tenant run amount now r free enough, finish_reserve)
      (rw (
        lookup-insert_self (tenant, run)
            (record (new_reservation tenant amount now) { expires_at_ms = none }) r.reserves,
        expire_reservation,
      ))

-- `reserve` in all its cases. A run that has a reservation is refused, whatever the balance; else a
-- balance below the amount is refused, with the balance in the reply; both leave the store as it
-- was. Else the reply is the balance less the amount, which is the new balance, and the reservation
-- holds the amount for the tenant until an hour from now.
pub reserve_cases :
    (tenant run : ℕ) (amount : ℤ) (now : ℕ) (r : Redis)
    → let (reply, r') = reserve tenant run amount now r in
      (get_reservation tenant run r ≢ none → (reply ≡ already_reserved) × (r' ≡ r))
      × (get_reservation tenant run r ≡ none
          → ltb_ℤ (get_balance tenant r) amount ≡ true
          → (reply ≡ insufficient (get_balance tenant r)) × (r' ≡ r))
      × (get_reservation tenant run r ≡ none
          → ltb_ℤ (get_balance tenant r) amount ≡ false
          → (reply ≡ reserved (get_balance tenant r -ℤ amount))
            × (get_balance tenant r' ≡ get_balance tenant r -ℤ amount)
            × (get_reservation tenant run r' ≡ some (new_reservation tenant amount now)))
unfolding reserve
reserve_cases tenant run amount now r = (
  λ taken. elim (Option-cases (lookup (tenant, run) r.reserves)) [
    | inl e ↦ absurd (taken e)
    | inr (v, e) ↦ ground (arith, e)
  ],
  λ free low. ground arith,
  λ free enough.
      rw (reserve_lua_made tenant run amount now r free enough, finish_reserve)
        (rw
          (
            lookup-insert_self (tenant, run)
                (record (new_reservation tenant amount now) { expires_at_ms = none }) r.reserves,
            expire_reservation,
          )
          (
            refl,
            rw (balance-insert, (eqb_iff tenant tenant).1 refl),
            lookup-insert_self {K = ℕ × ℕ} (tenant, run) (new_reservation tenant amount now) _,
          )),
)

-- A full refund of a run with a reservation puts the reserved amount back on its tenant's balance,
-- replies with both, and removes the reservation of a valid store; with no reservation it changes
-- nothing.
pub refund_full_cases :
    (tenant run : ℕ) (r : Redis)
    → IsValid r
    → let (reply, r') = refund_full tenant run r in
      (get_reservation tenant run r' ≡ none)
      × ((v : Reservation)
          → get_reservation tenant run r ≡ some v
          → (reply ≡ refunded v.reserved_usd_micros (get_balance tenant r'))
            × (get_balance tenant r' ≡ get_balance tenant r +ℤ v.reserved_usd_micros))
      × (get_reservation tenant run r ≡ none → (reply ≡ RefundReply.no_reserve) × (r' ≡ r))
unfolding refund_full
refund_full_cases tenant run r valid = elim (Option-cases (get_reservation tenant run r)) [
  | inl e ↦ rw (e, refund_full) (e, λ v f. ground arith, λ f. (refl, refl))
  | inr (v, e) ↦
      let back =
        balance-insert tenant tenant (get_balance tenant r +ℤ v.reserved_usd_micros) r.balances in
      rw (e, refund_full)
        (
          rw (
            lookup-erase (tenant, run) (tenant, run) r.reserves
                (AreValid-Distinct r.reserves valid.reservations),
            (eqb_pair_iff (tenant, run) (tenant, run)).1 refl,
          ),
          λ w f. ground (arith, back),
          λ f. ground arith,
        )
]

balance_refunded :
    (tenant run t : ℕ) (v : Reservation) (r : Redis)
    → get_reservation tenant run r ≡ some v
    → get_balance t (refund_full tenant run r).1
      ≡ (if eqb tenant t then get_balance tenant r +ℤ v.reserved_usd_micros else get_balance t r)
unfolding refund_full
balance_refunded tenant run t v r e =
    rw (e, refund_full)
      (balance-insert tenant t (get_balance tenant r +ℤ v.reserved_usd_micros) r.balances)

-- The reply tells which case it was.
pub reserve_reserved :
    (tenant run : ℕ) (amount bal : ℤ) (now : ℕ) (r : Redis)
    → (reserve tenant run amount now r).0 ≡ reserved bal
    → (get_balance tenant (reserve tenant run amount now r).1 ≡ get_balance tenant r -ℤ amount)
      × (get_reservation tenant run (reserve tenant run amount now r).1
          ≡ some (new_reservation tenant amount now))
reserve_reserved tenant run amount bal now r e =
    let (taken, low, free) = reserve_cases tenant run amount now r in
    elim (Option-cases (get_reservation tenant run r)) [
      | inr (v, there) ↦ absurd (clash (sym (taken (λ gone. cc (there, gone))).0 ∙ e))
      | inl gone ↦ elim (Bool-cases (ltb_ℤ (get_balance tenant r) amount)) [
        | inl short ↦ absurd (clash' (sym (low gone short).0 ∙ e))
        | inr enough ↦ let (_, bal', made) = free gone enough in (bal', made)
      ]
    ]
  where
    clash : ◌≡◌ {A = ReserveReply} already_reserved (reserved bal) → ⊥
    clash h = cc

    clash' : {b : ℤ} → insufficient b ≡ reserved bal → ⊥
    clash' h = cc

-- A reservation and its full refund leave every balance as it was, and the run without one; in a
-- valid store, for an amount that is not negative.
pub reserve-refund :
    (tenant run : ℕ) (amount bal : ℤ) (now : ℕ) (r : Redis)
    → IsValid r
    → pos 0 ≤ℤ amount
    → (reserve tenant run amount now r).0 ≡ reserved bal
    → let r' = (refund_full tenant run (reserve tenant run amount now r).1).1 in
      ((t : ℕ) → get_balance t r' ≡ get_balance t r) × (get_reservation tenant run r' ≡ none)
reserve-refund tenant run amount bal now r valid p e =
    let (taken, low, free) = reserve_cases tenant run amount now r in
    elim (Option-cases (get_reservation tenant run r)) [
      | inr (v, there) ↦ absurd (is_reserved (sym (taken (λ gone. cc (there, gone))).0 ∙ e))
      | inl gone ↦ elim (Bool-cases (ltb_ℤ (get_balance tenant r) amount)) [
        | inl short ↦ absurd (is_reserved' (sym (low gone short).0 ∙ e))
        | inr enough ↦
            let r1 = (reserve tenant run amount now r).1 in
            let (gone', back, _) =
              refund_full_cases tenant run r1 (reserve-keeps tenant run amount now r valid p).0 in
            (λ t. balances t gone enough, gone')
      ]
    ]
  where
    is_reserved : ◌≡◌ {A = ReserveReply} already_reserved (reserved bal) → ⊥
    is_reserved h = cc

    is_reserved' : {b : ℤ} → insufficient b ≡ reserved bal → ⊥
    is_reserved' h = cc

    by_owner :
        (t : ℕ) (b : Bool)
        → eqb tenant t ≡ b
        → (if b
            then get_balance tenant r -ℤ amount +ℤ amount
            else (if b then get_balance tenant r -ℤ amount else get_balance t r))
          ≡ get_balance t r
    by_owner t true same = rw (← (eqb_iff tenant t).0 same) (omega int_laws)
    by_owner t false other = refl

    balances :
        (t : ℕ)
        → get_reservation tenant run r ≡ none
        → ltb_ℤ (get_balance tenant r) amount ≡ false
        → get_balance t (refund_full tenant run (reserve tenant run amount now r).1).1
          ≡ get_balance t r
    balances t gone enough =
        ap (λ (x : ReserveReply × Redis). get_balance t (refund_full tenant run x.1).1)
          (reserve_made tenant run amount now r gone enough)
        ∙ balance_refunded tenant run t (new_reservation tenant amount now)
            (made_store tenant run amount now r)
            (lookup-insert_self {K = ℕ × ℕ} (tenant, run) (new_reservation tenant amount now) _)
        ∙ rw (balance-insert, balance-insert, (eqb_iff tenant tenant).1 refl)
            (by_owner t (eqb tenant t) refl)
