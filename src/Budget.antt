-- ===== src/Budget.antt =====
-- The Redis budget store and its Lua scripts (dpp/apps/api/dpp_api/budget/redis_scripts.py).
-- A family of Redis keys is a table: `budget:{tenant}:balance_usd_micros` under the tenant, the
-- reservations and the settlement receipts under (tenant, run). Amounts are integers in USD micros:
-- Lua's numbers are exact far beyond the amounts that `validate_usd_micros` lets in. A key's time to
-- live is the instant, in milliseconds, at which it goes; that the server drops what has run out is not
-- modelled.
pub mod Ledger
pub mod Scripts
pub mod Settling
pub mod Trace
pub mod Receipts
pub mod Reserving
mod Tests
use decisionproof.Base.{
  ℕ, ◌+◌, ◌*◌, ◌/◌, ℤ, pos, ◌+ℤ◌, ◌-ℤ◌, ltb_ℤ, Bool, false, Option, none, some, [], ◌∷◌, leb,
  or_default, if◌then◌else◌, Dict, lookup, insert, erase, has, nat_eq, pair_eq,
}

-- constants.py
abbrev pub reservation_ttl_seconds : ℕ
reservation_ttl_seconds = 3600

-- The literal of `EXPIRE receipt_key` in Settle.lua.
abbrev pub receipt_ttl_seconds : ℕ
receipt_ttl_seconds = 2592000

pub record Reservation : Type 0 where
  pub tenant_id : ℕ
  pub reserved_usd_micros : ℤ
  pub created_at_ms : ℕ
  pub expires_at_ms : Option ℕ

pub record Receipt : Type 0 where
  pub tenant_id : ℕ
  pub charged_usd_micros : ℤ
  pub reserved_usd_micros : ℤ
  pub refund_usd_micros : ℤ
  pub settled_at : ℕ
  pub expires_at_ms : ℕ

pub record Redis : Type 0 where
  pub balances : Dict ℕ ℤ
  pub initial_balances : Dict ℕ ℤ
  pub reserves : Dict (ℕ × ℕ) Reservation
  pub receipts : Dict (ℕ × ℕ) Receipt

-- `tonumber(redis.call("GET", budget_key) or "0")`, and `get_balance`.
abbrev pub get_balance : ℕ → Redis → ℤ
get_balance tenant r = or_default (lookup tenant r.balances) (pos 0)

abbrev pub set_balance : ℕ → ℤ → Redis → Redis
set_balance tenant amount r = record r { balances = insert tenant amount r.balances }

abbrev pub set_initial_balance : ℕ → ℤ → Redis → Redis
set_initial_balance tenant amount r = record r {
  initial_balances = insert tenant amount r.initial_balances;
}

abbrev pub get_initial_balance : ℕ → Redis → ℤ
get_initial_balance tenant r = or_default (lookup tenant r.initial_balances) (pos 0)

abbrev pub get_reservation : ℕ → ℕ → Redis → Option Reservation
get_reservation tenant run r = lookup (tenant, run) r.reserves

abbrev pub get_settlement_receipt : ℕ → ℕ → Redis → Option Receipt
get_settlement_receipt tenant run r = lookup (tenant, run) r.receipts

pub data ReserveReply : Type 0 where
  reserved : (new_balance : ℤ) → ReserveReply
  already_reserved : ReserveReply
  insufficient : (balance : ℤ) → ReserveReply

-- RESERVE_LUA. The hash that it writes has no time to live yet.
unfoldable pub reserve_lua : ℕ → ℕ → ℤ → ℕ → Redis → ReserveReply × Redis
reserve_lua tenant run amount created_at_ms r =
    if has (tenant, run) r.reserves
    then (already_reserved, r)
    else if ltb_ℤ (get_balance tenant r) amount
    then (insufficient (get_balance tenant r), r)
    else (
      reserved (get_balance tenant r -ℤ amount),
      record r {
        balances = insert tenant (get_balance tenant r -ℤ amount) r.balances;
        reserves =
            insert (tenant, run)
              (record {
                tenant_id = tenant;
                reserved_usd_micros = amount;
                created_at_ms = created_at_ms;
                expires_at_ms = none;
              })
              r.reserves;
      },
    )

-- `redis.expire(reserve_key, seconds)`: nothing if there is no such key.
unfoldable pub expire_reservation : ℕ → ℕ → ℕ → ℕ → Redis → Redis
expire_reservation tenant run seconds now_ms r = elim (lookup (tenant, run) r.reserves) [
  | none ↦ r
  | some v ↦ record r {
    reserves =
        insert (tenant, run) (record v { expires_at_ms = some (now_ms + seconds * 1000) })
          r.reserves;
  }
]

-- What `BudgetScripts.reserve` does with the script's reply: the time to live, if it succeeded.
unfoldable pub finish_reserve : ℕ → ℕ → ℕ → ReserveReply × Redis → ReserveReply × Redis
unfolding expire_reservation
finish_reserve tenant run now_ms (reserved b, r) =
    (reserved b, expire_reservation tenant run reservation_ttl_seconds now_ms r)
finish_reserve tenant run now_ms (insufficient b, r) = (insufficient b, r)
finish_reserve tenant run now_ms (already_reserved, r) = (already_reserved, r)

-- `BudgetScripts.reserve`.
unfoldable pub reserve : ℕ → ℕ → ℤ → ℕ → Redis → ReserveReply × Redis
unfolding reserve_lua finish_reserve
reserve tenant run amount now_ms r =
    finish_reserve tenant run now_ms (reserve_lua tenant run amount now_ms r)

pub data SettleReply : Type 0 where
  settled : (charge refund new_balance : ℤ) → SettleReply
  no_reserve : SettleReply

-- `if charge < 0 then charge = 0`, then `if charge > reserved then charge = reserved`.
abbrev pub clamp_charge : ℤ → ℤ → ℤ
clamp_charge charge most =
    let c = if ltb_ℤ charge (pos 0) then pos 0 else charge in if ltb_ℤ most c then most else c

-- `bal = bal + refund`, then `if bal < 0 then bal = 0`.
abbrev pub credit : ℤ → ℤ → ℤ
credit bal refund = let b = bal +ℤ refund in if ltb_ℤ b (pos 0) then pos 0 else b

-- The part of SETTLE_LUA behind the test that the reservation exists.
unfoldable pub settle_reservation : ℕ → ℕ → ℤ → ℕ → Reservation → Redis → SettleReply × Redis
settle_reservation tenant run charge now_ms v r =
    let c = clamp_charge charge v.reserved_usd_micros in
    let refund = v.reserved_usd_micros -ℤ c in
    let bal = credit (get_balance tenant r) refund in
    (
      settled c refund bal,
      record r {
        balances = insert tenant bal r.balances;
        reserves = erase (tenant, run) r.reserves;
        receipts =
            insert (tenant, run)
              (record {
                tenant_id = v.tenant_id;
                charged_usd_micros = c;
                reserved_usd_micros = v.reserved_usd_micros;
                refund_usd_micros = refund;
                settled_at = now_ms / 1000;
                expires_at_ms = now_ms + receipt_ttl_seconds * 1000;
              })
              r.receipts;
      },
    )

-- SETTLE_LUA, and `BudgetScripts.settle` around it.
unfoldable pub settle : ℕ → ℕ → ℤ → ℕ → Redis → SettleReply × Redis
unfolding settle_reservation
settle tenant run charge now_ms r = elim (lookup (tenant, run) r.reserves) [
  | none ↦ (no_reserve, r)
  | some v ↦ settle_reservation tenant run charge now_ms v r
]

pub data RefundReply : Type 0 where
  refunded : (refund new_balance : ℤ) → RefundReply
  no_reserve : RefundReply

-- REFUND_FULL_LUA, and `BudgetScripts.refund_full` around it.
unfoldable pub refund_full : ℕ → ℕ → Redis → RefundReply × Redis
refund_full tenant run r = elim (lookup (tenant, run) r.reserves) [
  | none ↦ (RefundReply.no_reserve, r)
  | some v ↦
      let bal = get_balance tenant r +ℤ v.reserved_usd_micros in
      (
        refunded v.reserved_usd_micros bal,
        record r {
          balances = insert tenant bal r.balances;
          reserves = erase (tenant, run) r.reserves;
        },
      )
]
