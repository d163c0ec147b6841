-- ===== src/Budget/Receipts.antt =====
-- A settlement and its receipt.
use decisionproof.Base.{
  ℕ, ◌+◌, ◌*◌, ◌/◌, ℤ, pos, ◌+ℤ◌, ◌-ℤ◌, ◌≤ℤ◌, int_laws, ◌≡◌, refl, ◌⊎◌, inl, inr, none, some, arith,
  lookup-insert, lookup-insert_self, lookup-erase, Option-cases, false, eqb_pair, eqb_pair_iff,
  pair_eq, nat_eq,
}
use decisionproof.Budget.{
  Reservation, Receipt, Redis, get_balance, get_reservation, get_settlement_receipt, SettleReply,
  settled, no_reserve, clamp_charge, credit, settle, receipt_ttl_seconds,
}
use decisionproof.Budget.Ledger.{AreValid-Distinct}
use decisionproof.Budget.Scripts.{IsValid, lookup-AreValid}

-- What a settlement of the reservation `v` shows, with `charge` requested.
pub record IsSettlement (tenant run : ℕ) (charge : ℤ) (v : Reservation)
    (result : SettleReply × Redis) : Type 0 where
  pub cost : ℤ
  pub refund : ℤ
  pub balance : ℤ
  pub receipt : Receipt
  pub replied : result.0 ≡ settled cost refund balance
  pub nonneg : pos 0 ≤ℤ cost
  pub within : cost ≤ℤ v.reserved_usd_micros
  pub as_requested : pos 0 ≤ℤ charge → charge ≤ℤ v.reserved_usd_micros → cost ≡ charge
  pub adds_up : cost +ℤ refund ≡ v.reserved_usd_micros
  pub released : get_reservation tenant run result.1 ≡ none
  pub proved : get_settlement_receipt tenant run result.1 ≡ some receipt
  pub receipt_tenant : receipt.tenant_id ≡ v.tenant_id
  pub receipt_cost : receipt.charged_usd_micros ≡ cost
  pub receipt_refund : receipt.refund_usd_micros ≡ refund
  pub receipt_reserved : receipt.reserved_usd_micros ≡ v.reserved_usd_micros

-- A settlement of a run with a reservation, in a valid store, succeeds. The charge lies between
-- zero and the reserved amount and is the requested charge wherever that lies in this range; charge
-- and refund make up the reservation; the reservation is gone; and there is a receipt with the
-- tenant that the reservation named, the charge, the refund and the reserved amount.
pub settle-IsSettlement :
    (tenant run : ℕ) (charge : ℤ) (now : ℕ) (r : Redis) (v : Reservation)
    → IsValid r
    → get_reservation tenant run r ≡ some v
    → IsSettlement tenant run charge v (settle tenant run charge now r)
unfolding settle
settle-IsSettlement tenant run charge now r v valid e =
    let key : ℕ × ℕ = (tenant, run) in
    let most = v.reserved_usd_micros in
    let p = lookup-AreValid key v r.reserves valid.reservations e in
    rw (e, settle)
      (record {
        cost = clamp_charge charge most;
        refund = most -ℤ clamp_charge charge most;
        balance = credit (get_balance tenant r) (most -ℤ clamp_charge charge most);
        receipt = record {
          tenant_id = v.tenant_id;
          charged_usd_micros = clamp_charge charge most;
          reserved_usd_micros = most;
          refund_usd_micros = most -ℤ clamp_charge charge most;
          settled_at = now / 1000;
          expires_at_ms = now + receipt_ttl_seconds * 1000;
        };
        replied = refl;
        nonneg = ground arith;
        within = ground arith;
        as_requested = λ low high. ground arith;
        adds_up = omega int_laws;
        released = rw (
          lookup-erase key key r.reserves (AreValid-Distinct r.reserves valid.reservations),
          (eqb_pair_iff key key).1 refl,
        );
        proved = lookup-insert_self key _ r.receipts;
        receipt_tenant = refl;
        receipt_cost = refl;
        receipt_refund = refl;
        receipt_reserved = refl;
      })

-- A run without a reservation is not settled: the reply says so and the store is as it was.
pub settle_missing :
    (tenant run : ℕ) (charge : ℤ) (now : ℕ) (r : Redis)
    → get_reservation tenant run r ≡ none
    → settle tenant run charge now r ≡ (no_reserve, r)
unfolding settle
settle_missing tenant run charge now r e = rw (e, settle)

-- At most one charge: in a valid store, a second settlement of the same run, whatever it asks for
-- and however the first ended, finds no reservation and changes nothing.
pub settle_twice :
    (tenant run : ℕ) (charge charge' : ℤ) (now now' : ℕ) (r : Redis)
    → IsValid r
    → let r' = (settle tenant run charge now r).1 in
      settle tenant run charge' now' r' ≡ (no_reserve, r')
settle_twice tenant run charge charge' now now' r valid =
    settle_missing tenant run charge' now' (settle tenant run charge now r).1 gone
  where
    gone : get_reservation tenant run (settle tenant run charge now r).1 ≡ none
    gone = elim (Option-cases (get_reservation tenant run r)) [
      | inl e ↦ rw (settle_missing tenant run charge now r e) e
      | inr (v, e) ↦ (settle-IsSettlement tenant run charge now r v valid e).released
    ]

-- A settlement of one run leaves the reservation and the receipt of every other key alone, in a
-- valid store.
pub settle_others :
    (tenant run tenant' run' : ℕ) (charge : ℤ) (now : ℕ) (r : Redis)
    → IsValid r
    → ¬ ((tenant ≡ tenant') × (run ≡ run'))
    → let r' = (settle tenant run charge now r).1 in
      (get_reservation tenant' run' r' ≡ get_reservation tenant' run' r)
      × (get_settlement_receipt tenant' run' r' ≡ get_settlement_receipt tenant' run' r)
unfolding settle
settle_others tenant run tenant' run' charge now r valid other =
    elim (Option-cases (get_reservation tenant run r)) [
      | inl e ↦ rw (e, settle) (refl, refl)
      | inr (v, e) ↦
          let apart : eqb_pair (tenant, run) (tenant', run') ≡ false = ground arith in
          rw (e, settle)
            (
              rw (
                lookup-erase (tenant, run) (tenant', run') r.reserves
                    (AreValid-Distinct r.reserves valid.reservations),
                apart,
              ),
              rw (lookup-insert, apart),
            )
    ]

-- What a settlement replies in any store.
pub settle-inv :
    (tenant run : ℕ) (charge : ℤ) (now : ℕ) (r : Redis)
    → ((v : Reservation) × (bal : ℤ) × (get_reservation tenant run r ≡ some v)
        × ((settle tenant run charge now r).0
            ≡ settled
                (clamp_charge charge v.reserved_usd_micros)
                (v.reserved_usd_micros -ℤ clamp_charge charge v.reserved_usd_micros)
                bal))
      ⊎ ((get_reservation tenant run r ≡ none) × (settle tenant run charge now r ≡ (no_reserve, r)))
unfolding settle
settle-inv tenant run charge now r = elim (Option-cases (get_reservation tenant run r)) [
  | inl e ↦ inr (e, settle_missing tenant run charge now r e)
  | inr (v, e) ↦
      let refund = v.reserved_usd_micros -ℤ clamp_charge charge v.reserved_usd_micros in
      inl (v, credit (get_balance tenant r) refund, e, rw (e, settle))
]
