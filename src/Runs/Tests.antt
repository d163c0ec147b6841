-- ===== src/Runs/Tests.antt =====
-- The repository on the example table.
use decisionproof.Base.{◌≡◌, refl, true, some, [], ◌∷◌, lookup, insert, nat_eq}
use decisionproof.Runs.Defs.{
  Run, Runs, Status, bump, get_by_idempotency_key, created, create, update_with_version_check,
}
use decisionproof.Runs.History.{Write, write, write_all, no_lost_update}
use decisionproof.Examples.{waiting, table}

abbrev cancel : Run → Run
cancel run = record run { status = Status.cancelled }

abbrev cancelled_table : Runs
cancelled_table = insert 9 (bump 0 44 cancel waiting) table

won : update_with_version_check 9 1 0 cancel [] 44 table ≡ (true, cancelled_table)
unfolding update_with_version_check
won = refl

abbrev cancel_write : Write
cancel_write = record {
  run_id = 9;
  tenant = 1;
  expected = 0;
  updates = cancel;
  conditions = [];
  now = 44;
}

-- A write to another run, between the read and the write.
abbrev other_write : Write
other_write = record {
  run_id = 8;
  tenant = 1;
  expected = 3;
  updates = cancel;
  conditions = [];
  now = 43;
}

still_wins : (write cancel_write (write_all (other_write ∷ []) table)).0 ≡ true
unfolding update_with_version_check
still_wins = refl

no_lost_update_example : lookup 9 (write_all (other_write ∷ []) table) ≡ some waiting
no_lost_update_example =
    no_lost_update (other_write ∷ []) cancel_write waiting table refl refl still_wins

abbrev first : Run
first = record waiting { idempotency_key = some 40 }

made : create 10 first table ≡ created (insert 10 first table)
unfolding create get_by_idempotency_key
made = refl
