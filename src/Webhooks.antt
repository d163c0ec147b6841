-- ===== src/Webhooks.antt =====
-- Deduplication of payment webhooks (dpp/apps/api/dpp_api/billing/webhook_dedup.py): the table
-- `webhook_dedup_events`, unique by (provider, dedup_key). Each function commits once; it is one step.
pub mod Once
mod Tests
use decisionproof.Base.{
  ℕ, Bool, true, false, Option, none, some, Dict, lookup, insert, pair_eq, if◌then◌else◌,
}

-- The column is text; any other value is `unknown`.
pub data EventStatus : Type 0 where
  processing done failed unknown : EventStatus

pub record Event : Type 0 where
  pub status : EventStatus
  pub first_seen_at : ℕ
  pub last_seen_at : Option ℕ
  pub request_hash : Option ℕ

abbrev pub Events : Type 0
Events = Dict (ℕ × ℕ) Event

abbrev pub is_failed : EventStatus → Bool
is_failed EventStatus.failed = true
is_failed _ = false

abbrev pub set_status : EventStatus → ℕ → Event → Event
set_status status now event = record event { status = status; last_seen_at = some now }

-- The two statements of `try_acquire_dedup`: the insert, which a conflict stops, and the update of a
-- failed row.
abbrev pub reclaim : ℕ × ℕ → ℕ → Option ℕ → Option Event → Events → Bool × Events
reclaim key now hash none events = (
  true,
  insert key
      (record {
        status = EventStatus.processing;
        first_seen_at = now;
        last_seen_at = none;
        request_hash = hash;
      })
      events,
)
reclaim key now hash (some event) events =
    if is_failed event.status
    then (true, insert key (set_status EventStatus.processing now event) events)
    else (false, events)

unfoldable pub try_acquire_dedup : ℕ → ℕ → ℕ → Option ℕ → Events → Bool × Events
try_acquire_dedup provider dedup_key now hash events =
    reclaim (provider, dedup_key) now hash (lookup (provider, dedup_key) events) events

-- An UPDATE by the key: nothing if there is no row.
abbrev pub mark : ℕ × ℕ → EventStatus → ℕ → Option Event → Events → Events
mark key status now none events = events
mark key status now (some event) events = insert key (set_status status now event) events

unfoldable pub mark_dedup_done : ℕ → ℕ → ℕ → Events → Events
mark_dedup_done provider dedup_key now events =
    mark (provider, dedup_key) EventStatus.done now (lookup (provider, dedup_key) events) events

unfoldable pub mark_dedup_failed : ℕ → ℕ → ℕ → Events → Events
mark_dedup_failed provider dedup_key now events =
    mark (provider, dedup_key) EventStatus.failed now (lookup (provider, dedup_key) events) events
