-- ===== src/Budget/Trace.antt =====
-- Any sequence of script calls, by any number of callers: each script is atomic in Redis, so the
-- calls of concurrent processes are one sequence.
use decisionproof.Base.{ℕ, ℤ, pos, ◌+ℤ◌, ◌≤ℤ◌, int_laws, pos_part, neg_part, ap, ◌≡◌, List, [], ◌∷◌}
use decisionproof.Budget.{Redis, reserve, settle, refund_full}
use decisionproof.Budget.Ledger.{total, share}
use decisionproof.Budget.Scripts.{IsValid, charged, reserve-keeps}
use decisionproof.Budget.Settling.{settle-keeps, refund_full-keeps}

pub data Call : Type 0 where
  reserves : (tenant run : ℕ) (amount : ℤ) (now : ℕ) → Call
  settles : (tenant run : ℕ) (charge : ℤ) (now : ℕ) → Call
  refunds : (tenant run : ℕ) → Call

-- The store after a call, and what the call charged to tenant `t`.
unfoldable pub step : Call → Redis → Redis
step (reserves tenant run amount now) r = (reserve tenant run amount now r).1
step (settles tenant run charge now) r = (settle tenant run charge now r).1
step (refunds tenant run) r = (refund_full tenant run r).1

unfoldable pub charge_of : ℕ → Call → Redis → ℤ
charge_of t (settles tenant run charge now) r =
    share t tenant (charged (settle tenant run charge now r).0)
charge_of t _ r = pos 0

unfoldable pub run_calls : List Call → Redis → Redis
run_calls [] r = r
run_calls (c ∷ cs) r = run_calls cs (step c r)

unfoldable pub charges : ℕ → List Call → Redis → ℤ
charges t [] r = pos 0
charges t (c ∷ cs) r = charge_of t c r +ℤ charges t cs (step c r)

-- The callers validate amounts before they reserve (`validate_usd_micros`).
abbrev pub IsNonneg : Call → Type 0
IsNonneg (reserves _ _ amount _) = pos 0 ≤ℤ amount
IsNonneg _ = Unit

abbrev pub AreNonneg : List Call → Type 0
AreNonneg [] = Unit
AreNonneg (c ∷ cs) = IsNonneg c × AreNonneg cs

step-keeps :
    (c : Call) (r : Redis)
    → IsValid r
    → IsNonneg c
    → IsValid (step c r) × ((t : ℕ) → total t (step c r) +ℤ charge_of t c r ≡ total t r)
unfolding step charge_of
step-keeps (reserves tenant run amount now) r v n =
    let (v', e) = reserve-keeps tenant run amount now r v n in
    (v', λ t. omega (int_laws, ap pos_part (e t), ap neg_part (e t)))
step-keeps (settles tenant run charge now) r v n = settle-keeps tenant run charge now r v
step-keeps (refunds tenant run) r v n =
    let (v', e) = refund_full-keeps tenant run r v in
    (v', λ t. omega (int_laws, ap pos_part (e t), ap neg_part (e t)))

-- Money is conserved. From a valid store, after any calls of the scripts in any order, by any
-- callers, with any charges and with reservations of amounts that are not negative: the store is
-- valid, and for each tenant the balance, the reservations and all that the settlements charged add
-- up to the balance and the reservations at the start.
pub run_calls-conserves :
    (cs : List Call) (r : Redis)
    → IsValid r
    → AreNonneg cs
    → IsValid (run_calls cs r) × ((t : ℕ) → total t (run_calls cs r) +ℤ charges t cs r ≡ total t r)
unfolding run_calls charges
run_calls-conserves [] r v n = (v, λ t. omega int_laws)
run_calls-conserves (c ∷ cs) r v n =
    let (v', e) = step-keeps c r v n.0 in
    let (v'', e') = run_calls-conserves cs (step c r) v' n.1 in
    (
      v'',
      λ t.
          omega (
            int_laws,
            ap pos_part (e t),
            ap neg_part (e t),
            ap pos_part (e' t),
            ap neg_part (e' t),
          ),
    )
