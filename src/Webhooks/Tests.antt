-- ===== src/Webhooks/Tests.antt =====
-- One event, delivered twice.
use decisionproof.Base.{◌≡◌, refl, true, false, some, none, [], ◌∷◌, pair_eq}
use decisionproof.Webhooks.{EventStatus, Event, Events, try_acquire_dedup}
use decisionproof.Webhooks.Once.{acquires, finishes, act_all, acquire_once}

abbrev first : Event
first = record {
  status = EventStatus.processing;
  first_seen_at = 10;
  last_seen_at = none;
  request_hash = some 6;
}

abbrev acquired_table : Events
acquired_table = ((0, 5), first) ∷ []

got : try_acquire_dedup 0 5 10 (some 6) [] ≡ (true, acquired_table)
unfolding try_acquire_dedup
got = refl

acquire_once_example :
    try_acquire_dedup 0 5 90 none
      (act_all (finishes 0 5 11 ∷ acquires 0 7 12 none ∷ []) acquired_table)
    ≡ (false, act_all (finishes 0 5 11 ∷ acquires 0 7 12 none ∷ []) acquired_table)
acquire_once_example =
    acquire_once 0 5 10 90 (some 6) none [] acquired_table
      (finishes 0 5 11 ∷ acquires 0 7 12 none ∷ []) got (refl, (refl, tt))
