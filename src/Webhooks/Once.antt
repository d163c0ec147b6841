-- ===== src/Webhooks/Once.antt =====
-- One handler for an event, over any sequence of steps.
use decisionproof.Base.{
  ℕ, ◌≡◌, refl, sym, ◌∙◌, ap, inl, inr, Bool, true, false, Option, none, some, List, [], ◌∷◌,
  lookup, insert, lookup-insert, lookup-insert_self, eqb_pair, pair_eq, Bool-cases, Option-cases,
}
use decisionproof.Webhooks.{
  EventStatus, Event, Events, is_failed, set_status, reclaim, try_acquire_dedup, mark,
  mark_dedup_done, mark_dedup_failed,
}

-- The steps of any handlers of any events, in the order in which they commit.
pub data Step : Type 0 where
  acquires : (provider dedup_key now : ℕ) → Option ℕ → Step
  finishes : (provider dedup_key now : ℕ) → Step
  fails : (provider dedup_key now : ℕ) → Step

abbrev pub act : Step → Events → Events
act (acquires provider dedup_key now hash) events =
    (try_acquire_dedup provider dedup_key now hash events).1
act (finishes provider dedup_key now) events = mark_dedup_done provider dedup_key now events
act (fails provider dedup_key now) events = mark_dedup_failed provider dedup_key now events

abbrev pub act_all : List Step → Events → Events
act_all [] events = events
act_all (s ∷ steps) events = act_all steps (act s events)

-- No step marks the event as failed.
abbrev pub is_failure_of : ℕ × ℕ → Step → Bool
is_failure_of key (acquires _ _ _ _) = false
is_failure_of key (finishes _ _ _) = false
is_failure_of key (fails provider dedup_key _) = eqb_pair (provider, dedup_key) key

abbrev pub NeverFails : ℕ × ℕ → List Step → Type 0
NeverFails key [] = Unit
NeverFails key (s ∷ steps) = (is_failure_of key s ≡ false) × NeverFails key steps

-- The event has a row that is not failed.
abbrev IsTaken : ℕ × ℕ → Events → Type 0
IsTaken key events = (e : Event) × (lookup key events ≡ some e) × (is_failed e.status ≡ false)

taken_after :
    (key other : ℕ × ℕ) (new : Event) (events : Events)
    → (eqb_pair other key ≡ true → is_failed new.status ≡ false)
    → IsTaken key events
    → IsTaken key (insert other new events)
taken_after key other new events ok (e, at, alive) = elim (Bool-cases (eqb_pair other key)) [
  | inl same ↦ (new, rw (lookup-insert, same), ok same)
  | inr apart ↦ (e, rw (lookup-insert, apart) at, alive)
]

reclaim-IsTaken :
    (key other : ℕ × ℕ) (now : ℕ) (hash : Option ℕ) (row : Option Event) (events : Events)
    → IsTaken key events
    → IsTaken key (reclaim other now hash row events).1
reclaim-IsTaken key other now hash none events t = taken_after key other _ events (λ same. refl) t
reclaim-IsTaken key other now hash (some old) events t = elim (Bool-cases (is_failed old.status)) [
  | inl failed ↦ rw failed (taken_after key other _ events (λ same. refl) t)
  | inr alive ↦ rw alive t
]

mark-IsTaken :
    (key other : ℕ × ℕ) (status : EventStatus) (now : ℕ) (row : Option Event) (events : Events)
    → (eqb_pair other key ≡ true → is_failed status ≡ false)
    → IsTaken key events
    → IsTaken key (mark other status now row events)
mark-IsTaken key other status now none events ok t = t
mark-IsTaken key other status now (some old) events ok t = taken_after key other _ events ok t

act-IsTaken :
    (key : ℕ × ℕ) (s : Step) (events : Events)
    → is_failure_of key s ≡ false
    → IsTaken key events
    → IsTaken key (act s events)
unfolding try_acquire_dedup mark_dedup_done mark_dedup_failed
act-IsTaken key (acquires p k now hash) events ok t =
    reclaim-IsTaken key (p, k) now hash (lookup (p, k) events) events t
act-IsTaken key (finishes p k now) events ok t =
    mark-IsTaken key (p, k) EventStatus.done now (lookup (p, k) events) events (λ same. refl) t
act-IsTaken key (fails p k now) events ok t =
    mark-IsTaken key (p, k) EventStatus.failed now (lookup (p, k) events) events
      (λ same. absurd (clash (sym same ∙ ok))) t
  where
    clash : true ≡ false → ⊥
    clash p = cc

act_all-IsTaken :
    (key : ℕ × ℕ) (steps : List Step) (events : Events)
    → NeverFails key steps
    → IsTaken key events
    → IsTaken key (act_all steps events)
act_all-IsTaken key [] events ok t = t
act_all-IsTaken key (s ∷ steps) events (ok, oks) t =
    act_all-IsTaken key steps (act s events) oks (act-IsTaken key s events ok t)

acquired :
    (p k now : ℕ) (hash : Option ℕ) (events events' : Events)
    → try_acquire_dedup p k now hash events ≡ (true, events')
    → IsTaken (p, k) events'
unfolding try_acquire_dedup
acquired p k now hash events events' h = elim (Option-cases (lookup (p, k) events)) [
  | inl e ↦
      rw (← ap (λ (x : Bool × Events). x.1) (rw e at h))
        (_, lookup-insert_self {K = ℕ × ℕ} (p, k) _ events, refl)
  | inr (old, e) ↦ elim (Bool-cases (is_failed old.status)) [
    | inl failed ↦
        rw (← ap (λ (x : Bool × Events). x.1) (rw (e, failed) at h))
          (_, lookup-insert_self {K = ℕ × ℕ} (p, k) _ events, refl)
    | inr alive ↦ absurd (clash (ap (λ (x : Bool × Events). x.0) (rw (e, alive) at h)))
  ]
]
  where
    clash : false ≡ true → ⊥
    clash q = cc

-- An event is handled once. When a handler has acquired an event, then whatever handlers of this and
-- other events do after that, as long as none of them marks the event as failed, every other attempt
-- to acquire it is refused and changes nothing.
pub acquire_once :
    (p k now now' : ℕ) (hash hash' : Option ℕ) (events events' : Events) (steps : List Step)
    → try_acquire_dedup p k now hash events ≡ (true, events')
    → NeverFails (p, k) steps
    → try_acquire_dedup p k now' hash' (act_all steps events') ≡ (false, act_all steps events')
unfolding try_acquire_dedup
acquire_once p k now now' hash hash' events events' steps h never =
    let (e, at, alive) =
      act_all-IsTaken (p, k) steps events' never (acquired p k now hash events events' h) in
    rw (at, alive)

-- A failed event can be handled again: after its handler has acquired it and marked it as failed, the
-- next attempt acquires it.
pub failed_again :
    (p k now now' now'' : ℕ) (hash hash' : Option ℕ) (events events' : Events)
    → try_acquire_dedup p k now hash events ≡ (true, events')
    → (try_acquire_dedup p k now'' hash' (mark_dedup_failed p k now' events')).0 ≡ true
unfolding try_acquire_dedup mark_dedup_failed
failed_again p k now now' now'' hash hash' events events' h =
    let (e, at, alive) = acquired p k now hash events events' h in
    rw at
      (rw (lookup-insert_self {K = ℕ × ℕ} (p, k) (set_status EventStatus.failed now' e) events'))
