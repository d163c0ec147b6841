-- ===== src/Plans/Tests.antt =====
-- The checks, with a plan of two requests a minute.
use decisionproof.Base.{pos, ◌≡◌, refl, none, some, [], ◌∷◌, nat_eq, arith}
use decisionproof.Examples.{basic, mapping}
use decisionproof.Plans.{get_active_plan, latest, check_rate_limit}
use decisionproof.Plans.Window.{check_all, rate_window}
use decisionproof.Plans.Guards.{IsAllowed}

let_through : IsAllowed 1 4 (pos 6000) 10 (mapping ∷ []) ((3, basic) ∷ []) none basic
unfolding get_active_plan latest check_rate_limit
let_through = record {
  active = refl;
  pack_allowed = refl;
  not_too_low = omega arith;
  not_too_high = refl;
  not_too_many = refl;
}

rate_window_example :
    check_all 2 (10 ∷ 20 ∷ 69 ∷ []) none ≡ (2, some (record { count = 2; expires_at = some 70 }))
rate_window_example = rate_window 2 10 (20 ∷ 69 ∷ []) (omega arith) (omega arith, (omega arith, tt))
