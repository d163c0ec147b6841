-- ===== src/Plans/Window.antt =====
-- The rate limit over a sequence of requests.
use decisionproof.Base.{
  ℕ, suc, ◌+◌, ◌-◌, ◌≤◌, ◌<◌, ◌≡◌, refl, ◌∙◌, ap, inl, inr, false, Option, none, some, List, [],
  ◌∷◌, length, arith, ltb, leb, if◌then◌else◌, Bool-cases,
}
use decisionproof.Plans.{Violation, Counter, count_request, check_rate_limit}

-- Requests one after the other, each at its instant: how many get through, and the key.
abbrev pub add_allowed : Option Violation → ℕ → ℕ
add_allowed none n = suc n
add_allowed (some _) n = n

unfoldable pub check_all : ℕ → List ℕ → Option Counter → ℕ × Option Counter
check_all limit [] key = (0, key)
check_all limit (now ∷ times) key =
    let (verdict, key1) = check_rate_limit (some limit) now key in
    let (allowed, key2) = check_all limit times key1 in (add_allowed verdict allowed, key2)

abbrev pub AllBefore : ℕ → List ℕ → Type 0
AllBefore t [] = Unit
AllBefore t (now ∷ times) = (now < t) × AllBefore t times

abbrev pub smaller : ℕ → ℕ → ℕ
smaller a b = if leb a b then a else b

abbrev window : ℕ → ℕ → Counter
window count t = record { count = count; expires_at = some t }

-- One request in a window that has seen one already.
in_window :
    (limit now t count : ℕ)
    → 1 ≤ count
    → now < t
    → check_rate_limit (some limit) now (some (window count t))
      ≡ count_request limit now (window (count + 1) t)
unfolding check_rate_limit
in_window limit now t count p q = ground arith

same_window :
    (t : ℕ) {m n i j : ℕ}
    → m ≡ n
    → i ≡ j
    → ◌≡◌ {A = ℕ × Option Counter} (m, some (window i t)) (n, some (window j t))
same_window t e f = rw (e, f) refl

check_all-window :
    (limit t : ℕ) (times : List ℕ) (count : ℕ)
    → 1 ≤ count
    → count ≤ limit
    → AllBefore t times
    → check_all limit times (some (window count t)) ≡ (
      smaller (length times) (limit - count),
      some (window (count + smaller (length times) (limit - count)) t),
    )
unfolding check_all
check_all-window limit t [] count p q r = same_window t (ground arith) (ground arith)
check_all-window limit t (now ∷ times) count p q (r, rs) =
    elim (Bool-cases (ltb limit (count + 1))) [
      | inl full ↦
          let back : count + 1 - 1 ≡ count = omega arith in
          rw (in_window limit now t count p r, full, back)
            (check_all-window limit t times count p q rs
              ∙ ap (λ n. (n, some (window (count + n) t))) (ground (arith, full)))
      | inr room ↦
          rw
            (
              in_window limit now t count p r,
              room,
              check_all-window limit t times (count + 1) (omega arith) (ground (arith, room)) rs,
            )
            (same_window t (ground (arith, room)) (ground (arith, room)))
    ]

-- A fixed window. Let the first request of a tenant find no counter, and let all later ones come within
-- the sixty seconds from it. With a limit of at least one, exactly as many requests get through as
-- there are, or as the limit says where there are more; and the counter that is left, until the end of
-- the minute, is the number of those that got through: a refused request is not counted.
pub rate_window :
    (limit t : ℕ) (times : List ℕ)
    → 1 ≤ limit
    → AllBefore (t + 60) times
    → let allowed = smaller (suc (length times)) limit in
      check_all limit (t ∷ times) none
      ≡ (allowed, some (record { count = allowed; expires_at = some (t + 60) }))
unfolding check_all check_rate_limit
rate_window limit t times p r =
    let room : ltb limit 1 ≡ false = ground (arith, p) in
    rw (room, check_all-window limit (t + 60) times 1 (omega arith) p r)
      (same_window (t + 60) (ground (arith, p)) (ground (arith, p)))
