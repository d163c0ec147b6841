-- ===== src/Metering/Tests.antt =====
-- Metering at concrete runs.
use decisionproof.Base.{pos, ◌+ℤ◌, ◌≡◌, [], ◌∷◌, lookup, pair_eq, true, false}
use decisionproof.Metering.{usage_date, record_run_completion}
use decisionproof.Metering.Totals.{
  record_dialects_agree, Column, column, reading, record_all, sum_over, record_all-sums,
}
use decisionproof.Examples.{running, waiting}

record_dialects_agree_example :
    record_run_completion true running 60 [] ≡ record_run_completion false running 60 []
record_dialects_agree_example = record_dialects_agree running 60 []

record_all-sums_example :
    reading
      (column Column.runs_count)
      (lookup (1, usage_date running) (record_all ((running, 60) ∷ (waiting, 61) ∷ []) []))
    ≡ pos 0
      +ℤ sum_over Column.runs_count (1, usage_date running) ((running, 60) ∷ (waiting, 61) ∷ [])
record_all-sums_example =
    record_all-sums Column.runs_count (1, usage_date running) ((running, 60) ∷ (waiting, 61) ∷ [])
      []
