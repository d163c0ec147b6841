-- ===== src/Metering/Totals.antt =====
-- The two dialects agree, and the sums count each recorded run once.
use decisionproof.Base.{
  ℕ, ℤ, pos, ◌+ℤ◌, int_laws, ◌≡◌, ◌∙◌, refl, true, false, Option, none, some, List, [], ◌∷◌, arith,
  if◌then◌else◌, lookup, lookup-insert, pair_eq, eqb_pair, eqb_pair_iff, inl, inr, Option-cases,
  Bool-cases,
}
use decisionproof.Runs.{Run}
use decisionproof.Metering.{
  UsageRow, Usage, usage_date, success_of, fail_of, cost_of, new_usage, add_usage,
  record_select_then_write, record_run_completion,
}

-- The branch for SQLite and the branch for PostgreSQL leave the same table.
pub record_dialects_agree :
    (run : Run) (now : ℕ) (usage : Usage)
    → record_run_completion true run now usage ≡ record_run_completion false run now usage
unfolding record_run_completion
record_dialects_agree run now [] = ground arith
record_dialects_agree run now ((k, row) ∷ usage) =
    ground
      (arith, eqb_pair_iff k (run.tenant_id, usage_date run), record_dialects_agree run now usage)

-- A reading of the row of one tenant and day; a missing row counts nothing.
abbrev pub reading : (UsageRow → ℤ) → Option UsageRow → ℤ
reading f none = pos 0
reading f (some row) = f row

-- A column of the table, with what one run adds to it.
pub data Column : Type 0 where
  runs_count success_count fail_count cost_sum reserved_sum : Column

abbrev pub column : Column → UsageRow → ℤ
column Column.runs_count row = pos row.runs_count
column Column.success_count row = pos row.success_count
column Column.fail_count row = pos row.fail_count
column Column.cost_sum row = row.cost_usd_micros_sum
column Column.reserved_sum row = row.reserved_usd_micros_sum

abbrev pub added : Column → Run → ℤ
added Column.runs_count run = pos 1
added Column.success_count run = pos (success_of run)
added Column.fail_count run = pos (fail_of run)
added Column.cost_sum run = cost_of run
added Column.reserved_sum run = run.reservation_max_cost_usd_micros

abbrev key_of : Run → ℕ × ℕ
key_of run = (run.tenant_id, usage_date run)

column-add :
    (c : Column) (run : Run) (now : ℕ) (row : UsageRow)
    → column c (add_usage run now row) ≡ column c row +ℤ added c run
column-add Column.runs_count run now row = omega int_laws
column-add Column.success_count run now row = omega int_laws
column-add Column.fail_count run now row = omega int_laws
column-add Column.cost_sum run now row = refl
column-add Column.reserved_sum run now row = refl

column-new :
    (c : Column) (run : Run) (now : ℕ) → column c (new_usage run now) ≡ pos 0 +ℤ added c run
column-new Column.runs_count run now = omega int_laws
column-new Column.success_count run now = omega int_laws
column-new Column.fail_count run now = omega int_laws
column-new Column.cost_sum run now = omega int_laws
column-new Column.reserved_sum run now = omega int_laws

record_one :
    (c : Column) (run : Run) (now : ℕ) (usage : Usage) (key : ℕ × ℕ)
    → reading (column c) (lookup key (record_run_completion true run now usage))
      ≡ reading (column c) (lookup key usage)
        +ℤ (if eqb_pair (key_of run) key then added c run else pos 0)
unfolding record_run_completion
record_one c run now usage key = elim (Bool-cases (eqb_pair (key_of run) key)) [
  | inl here ↦
      let same : key_of run ≡ key = (eqb_pair_iff (key_of run) key).0 here in
      elim (Option-cases (lookup (key_of run) usage)) [
        | inl e ↦
            rw (here, ← same, e, record_select_then_write)
              (rw (lookup-insert, (eqb_pair_iff (key_of run) (key_of run)).1 refl)
                (column-new c run now))
        | inr (row, e) ↦
            rw (here, ← same, e, record_select_then_write)
              (rw (lookup-insert, (eqb_pair_iff (key_of run) (key_of run)).1 refl)
                (column-add c run now row))
      ]
  | inr there ↦ elim (Option-cases (lookup (key_of run) usage)) [
    | inl e ↦ rw (there, e, record_select_then_write) (rw (lookup-insert, there) (omega int_laws))
    | inr (row, e) ↦
        rw (there, e, record_select_then_write) (rw (lookup-insert, there) (omega int_laws))
  ]
]

-- Recording runs one after the other, each at its own instant.
abbrev pub record_all : List (Run × ℕ) → Usage → Usage
record_all [] usage = usage
record_all ((run, now) ∷ runs) usage = record_all runs (record_run_completion true run now usage)

abbrev pub sum_over : Column → ℕ × ℕ → List (Run × ℕ) → ℤ
sum_over c key [] = pos 0
sum_over c key ((run, now) ∷ runs) =
    (if eqb_pair (key_of run) key then added c run else pos 0) +ℤ sum_over c key runs

-- After any runs have been recorded, each column of the row of a tenant and day is what it was plus
-- the sum over the runs of that tenant created on that day: their number, those COMPLETED, those
-- not, their costs (0 where NULL) and their reservations.
pub record_all-sums :
    (c : Column) (key : ℕ × ℕ) (runs : List (Run × ℕ)) (usage : Usage)
    → reading (column c) (lookup key (record_all runs usage))
      ≡ reading (column c) (lookup key usage) +ℤ sum_over c key runs
record_all-sums c key [] usage = omega int_laws
record_all-sums c key ((run, now) ∷ runs) usage =
    record_all-sums c key runs (record_run_completion true run now usage)
    ∙ rw (record_one c run now usage key) (omega int_laws)
