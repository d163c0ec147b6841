-- ===== src/Pricing/Charging.antt =====
-- What a month's usage is, after any events.
use decisionproof.Base.{
  ℕ, ◌+◌, ◌*◌, ◌≤◌, ◌<◌, ℤ, pos, ◌+ℤ◌, int_laws, +ℤ_assoc, ◌≡◌, refl, ap, ◌∙◌, inl, inr, Bool, true,
  false, ◌||◌, Option, none, some, List, [], ◌∷◌, arith, if◌then◌else◌, lookup, lookup-insert,
  pair_eq, eqb_pair, eqb_pair_iff, Bool-cases,
}
use decisionproof.Pricing.{
  Ssot, is_billable, Amount, Keys, live_amount, current_usage, UsageEvent, is_live, charge,
  mark_seen, meter_event,
}

-- `record_usage` for one event after the other.
unfoldable pub meter_all : Ssot → List UsageEvent → Keys → Keys
meter_all ssot [] keys = keys
meter_all ssot (e ∷ es) keys = meter_all ssot es (meter_event ssot e keys)

abbrev pub no_keys : Keys
no_keys = record { seen = []; usage = [] }

-- The specification: who has been seen is a list of ids, and time plays no part.
abbrev pub has_id : ℕ × ℕ → List (ℕ × ℕ) → Bool
has_id k [] = false
has_id k (j ∷ ids) = eqb_pair j k || has_id k ids

abbrev pub amount_for : Ssot → ℕ × ℕ → UsageEvent → ℤ
amount_for ssot key e =
    if is_billable ssot e.http_status
    then (if eqb_pair (e.workspace_id, e.month) key then e.dc_amount else pos 0)
    else pos 0

abbrev pub first_amount : Ssot → List (ℕ × ℕ) → ℕ × ℕ → UsageEvent → ℤ
first_amount ssot ids key e =
    if has_id (e.workspace_id, e.run_id) ids then pos 0 else amount_for ssot key e

-- The amounts of the billable events, each of the first event of its run.
abbrev pub amount_due : Ssot → List (ℕ × ℕ) → ℕ × ℕ → List UsageEvent → ℤ
amount_due ssot ids key [] = pos 0
amount_due ssot ids key (e ∷ es) =
    first_amount ssot ids key e +ℤ amount_due ssot ((e.workspace_id, e.run_id) ∷ ids) key es

-- From `t` on, and before `t + length`.
abbrev pub AllWithin : ℕ → ℕ → List UsageEvent → Type 0
AllWithin t length [] = Unit
AllWithin t length (e ∷ es) = (t ≤ e.at) × (e.at < t + length) × AllWithin t length es

-- A key of `seen` stands for an id, and lives to `t` at least.
abbrev StandsFor : ℕ → Option ℕ → Bool → Type 0
StandsFor t none here = here ≡ false
StandsFor t (some expires) here = (here ≡ true) × (t ≤ expires)

abbrev LivesTo : ℕ → Option Amount → Type 0
LivesTo t none = Unit
LivesTo t (some a) = t ≤ a.expires_at

record Agrees (t : ℕ) (ids : List (ℕ × ℕ)) (keys : Keys) : Type 0 where
  stands : (k : ℕ × ℕ) → StandsFor t (lookup k keys.seen) (has_id k ids)
  lives : (k : ℕ × ℕ) → LivesTo t (lookup k keys.usage)

live-has :
    (t now : ℕ) (seen : Option ℕ) (here : Bool)
    → now < t
    → StandsFor t seen here
    → is_live now seen ≡ here
live-has t now none here lt h = ground (arith, h)
live-has t now (some expires) here lt h = ground (arith, h.0, h.1)

abbrev plain : Option Amount → ℤ
plain none = pos 0
plain (some a) = a.amount

plain-live : (t now : ℕ) (a : Option Amount) → now < t → LivesTo t a → live_amount now a ≡ plain a
plain-live t now none lt h = refl
plain-live t now (some a) lt h = ground (arith, h)

module _ (ssot : Ssot) (t : ℕ) (e : UsageEvent) (ids : List (ℕ × ℕ)) (keys : Keys)
    (p : Agrees t ids keys) (early : e.at < t)
    (long : t ≤ e.at + ssot.idempotency_retention_days * 86400) (year : t ≤ e.at + 90 * 86400) where
  abbrev id : ℕ × ℕ
  id = (e.workspace_id, e.run_id)

  abbrev cell : ℕ × ℕ
  cell = (e.workspace_id, e.month)

  mark_seen-Agrees : Agrees t (id ∷ ids) (mark_seen ssot e keys)
  mark_seen-Agrees = record {
    stands = λ k.
        rw (lookup-insert id k (e.at + ssot.idempotency_retention_days * 86400) keys.seen)
          (elim (Bool-cases (eqb_pair id k)) [
            | inl here ↦ rw here (refl, long)
            | inr there ↦ rw there (p.stands k)
          ]);
    lives = p.lives;
  }

  charge-Agrees : Agrees t (id ∷ ids) (charge e (mark_seen ssot e keys))
  charge-Agrees = record {
    stands = mark_seen-Agrees.stands;
    lives = λ k. rw (lookup-insert cell k _ keys.usage) (elim (Bool-cases (eqb_pair cell k)) [
      | inl here ↦ rw here year
      | inr there ↦ rw there (p.lives k)
    ]);
  }

  plain-charge :
      (key : ℕ × ℕ)
      → plain (lookup key (charge e (mark_seen ssot e keys)).usage)
        ≡ plain (lookup key keys.usage) +ℤ (if eqb_pair cell key then e.dc_amount else pos 0)
  plain-charge key =
      rw (lookup-insert cell key _ keys.usage) (elim (Bool-cases (eqb_pair cell key)) [
        | inl here ↦
            let same : cell ≡ key = (eqb_pair_iff cell key).0 here in
            rw here (
              rw (← same) (
                ap (λ (a : ℤ). a +ℤ e.dc_amount)
                  (plain-live t e.at (lookup cell keys.usage) early (p.lives cell))))
        | inr there ↦ rw there (omega int_laws)
      ])

  -- A repeated id says nothing new.
  repeated-Agrees : has_id id ids ≡ true → Agrees t (id ∷ ids) keys
  repeated-Agrees known = record {
    stands = λ k. elim (Bool-cases (eqb_pair id k)) [
      | inl here ↦
          let same : id ≡ k = (eqb_pair_iff id k).0 here in
          let stood : StandsFor t (lookup id keys.seen) true = rw known at (p.stands id) in
          rw here (rw (← same) stood)
      | inr there ↦ rw there (p.stands k)
    ];
    lives = p.lives;
  }

  meter_event-step :
      Agrees t (id ∷ ids) (meter_event ssot e keys)
      × ((key : ℕ × ℕ)
          → plain (lookup key (meter_event ssot e keys).usage)
            ≡ plain (lookup key keys.usage) +ℤ first_amount ssot ids key e)
  unfolding meter_event
  meter_event-step =
      let live = live-has t e.at (lookup id keys.seen) (has_id id ids) early (p.stands id) in
      elim (Bool-cases (has_id id ids)) [
        | inl known ↦ rw (live, known) (repeated-Agrees known, λ key. omega int_laws)
        | inr new ↦ elim (Bool-cases (is_billable ssot e.http_status)) [
          | inl billable ↦ rw (live, new, billable) (charge-Agrees, plain-charge)
          | inr free ↦ rw (live, new, free) (mark_seen-Agrees, λ key. omega int_laws)
        ]
      ]

module _ (ssot : Ssot) (start : ℕ) (short : ssot.idempotency_retention_days ≤ 90) where
  abbrev retention : ℕ
  retention = ssot.idempotency_retention_days * 86400

  meter_all-Agrees :
      (es : List UsageEvent) (ids : List (ℕ × ℕ)) (keys : Keys)
      → Agrees (start + retention) ids keys
      → AllWithin start retention es
      → ((k : ℕ × ℕ)
          → (plain (lookup k (meter_all ssot es keys).usage)
              ≡ plain (lookup k keys.usage) +ℤ amount_due ssot ids k es)
            × LivesTo (start + retention) (lookup k (meter_all ssot es keys).usage))
  unfolding meter_all
  meter_all-Agrees [] ids keys p w k = (omega int_laws, p.lives k)
  meter_all-Agrees (e ∷ es) ids keys p (from, early, w) k =
      let (p', step) =
        meter_event-step ssot (start + retention) e ids keys p early (omega arith) (omega arith) in
      let (sum, lives) =
        meter_all-Agrees es ((e.workspace_id, e.run_id) ∷ ids) (meter_event ssot e keys) p' w k in
      (
        sum
            ∙ ap (λ (a : ℤ). a +ℤ amount_due ssot ((e.workspace_id, e.run_id) ∷ ids) k es) (step k)
            ∙ +ℤ_assoc (plain (lookup k keys.usage)) (first_amount ssot ids k e)
                (amount_due ssot ((e.workspace_id, e.run_id) ∷ ids) k es),
        lives,
      )

-- Each run is charged once. Let events come in any order, within one retention period of at most 90
-- days. From empty keys, the usage of a workspace and month is then the sum of the amounts of the
-- billable events, each of the first event of its run; later events of a run, whatever their
-- status, add nothing.
pub meter_all-sums :
    (ssot : Ssot) (start : ℕ) (es : List UsageEvent) (workspace month now : ℕ)
    → ssot.idempotency_retention_days ≤ 90
    → AllWithin start (ssot.idempotency_retention_days * 86400) es
    → now < start + ssot.idempotency_retention_days * 86400
    → current_usage workspace month now (meter_all ssot es no_keys)
      ≡ amount_due ssot [] (workspace, month) es
unfolding current_usage
meter_all-sums ssot start es workspace month now short w early =
    let t = start + ssot.idempotency_retention_days * 86400 in
    let empty : Agrees t [] no_keys = record { stands = λ k. refl; lives = λ k. tt } in
    let (sum, lives) = meter_all-Agrees ssot start short es [] no_keys empty w (workspace, month) in
    plain-live t now (lookup (workspace, month) (meter_all ssot es no_keys).usage) early lives
    ∙ sum
    ∙ zero_plus (amount_due ssot [] (workspace, month) es)
  where
    zero_plus : (a : ℤ) → pos 0 +ℤ a ≡ a
    zero_plus a = omega int_laws
