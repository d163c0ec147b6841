-- ===== src/World.antt =====
-- The state that the API, the workers, the reaper and the reconcile loop share: the tables `runs`
-- and `tenant_usage_daily` of the database, and the budget store in Redis. An action may raise; what
-- it wrote before that stays written, since each statement is committed and each script is atomic.
-- Instants are seconds; Redis counts in milliseconds.
use decisionproof.Base.{ℕ, ◌*◌, ℤ, Bool, true, false, Option, none, some, List}
use decisionproof.Runs.{Run, Runs, Condition, update_with_version_check, get_by_id}
use decisionproof.Budget.{Redis, SettleReply, settle}
use decisionproof.Metering.{Usage, record_run_completion}

pub record World : Type 0 where
  pub runs : Runs
  pub redis : Redis
  pub usage : Usage
  pub is_sqlite : Bool

pub data Result (E A : Type 0) : Type 0 where
  ok : A → Result E A
  err : E → Result E A

abbrev pub Action : Type 0 → Type 0 → Type 0
Action E A = World → Result E A × World

module _ {E A : Type 0} where
  abbrev pub pure : A → Action E A
  pure a w = (ok a, w)

  abbrev pub raise : E → Action E A
  raise e w = (err e, w)

  abbrev pub gets : (World → A) → Action E A
  gets f w = (ok (f w), w)

  abbrev pub or_raise : Option A → E → Action E A
  or_raise none e w = (err e, w)
  or_raise (some a) e w = (ok a, w)

abbrev pub continue : {E A B : Type 0} → (A → Action E B) → Result E A × World → Result E B × World
continue f (ok a, w) = f a w
continue f (err e, w) = (err e, w)

infixl 5 ◌>>=◌ ◌>>◌
abbrev pub ◌>>=◌ : {E A B : Type 0} → Action E A → (A → Action E B) → Action E B
◌>>=◌ m f w = continue f (m w)

abbrev pub ◌>>◌ : {E A B : Type 0} → Action E A → Action E B → Action E B
m >> k = m >>= λ _. k

abbrev pub raise_unless : {E : Type 0} → Bool → E → Action E Unit
raise_unless true e w = (ok tt, w)
raise_unless false e w = (err e, w)

-- `repo.get_by_id`
abbrev pub read_run : {E : Type 0} → ℕ → ℕ → Action E (Option Run)
read_run run_id tenant w = (ok (get_by_id run_id tenant w.runs), w)

-- `repo.update_with_version_check`
abbrev pub update_run : {E : Type 0} → ℕ → ℕ → ℕ → (Run → Run) → List Condition → ℕ → Action E Bool
update_run run_id tenant expected updates conditions now w =
    let (won, runs') =
      update_with_version_check run_id tenant expected updates conditions now w.runs in
    (ok won, record w { runs = runs' })

-- `budget_manager.scripts.settle`
abbrev pub settle_run : {E : Type 0} → ℕ → ℕ → ℤ → ℕ → Action E SettleReply
settle_run tenant run_id charge now w =
    let (reply, r') = settle tenant run_id charge (now * 1000) w.redis in
    (ok reply, record w { redis = r' })

-- `usage_tracker.record_run_completion(updated_run)`, after reading the run again. Every caller
-- catches and logs what it raises.
abbrev pub record_usage : Option Run → ℕ → World → World
record_usage none now w = w
record_usage (some run) now w = record w {
  usage = record_run_completion w.is_sqlite run now w.usage;
}

abbrev pub meter : {E : Type 0} → ℕ → ℕ → ℕ → Action E Unit
meter run_id tenant now w = (ok tt, record_usage (get_by_id run_id tenant w.runs) now w)
