-- ===== src/KillSwitch/Changes.antt =====
-- What a request for a change of the kill switch does.
use Prim.Native.String.{String}
use decisionproof.Base.{
  ℕ, ◌≡◌, refl, sym, ◌⊎◌, inl, inr, ℤ, pos, negsuc, Bool, true, false, ◌&&◌, Option, none, some,
  ◌∷◌, arith, ltb, is_some, Bool-cases,
}
use decisionproof.World.{Result, ok, err}
use decisionproof.KillSwitch.{Mode, is_mode, SwitchState, expiry, allowed_ttl, get_state, set_state}
use decisionproof.KillSwitch.Audit.{
  Env, Pepper, AuditError, AuditRecord, PutOutcome, stored, failed, stored_but_failed, SetRequest,
  Sink, SinkError, get_audit_sink, pepper_from, load_pepper, load_kid, with_kid, fingerprint_token,
  record_with, build_kill_switch_audit_record,
}
use decisionproof.KillSwitch.Admin.{
  Switch, Clock, Answer, changed, http_error, to_kst_display, verify_admin_token, set_kill_switch,
  is_allowed, is_timed, put_record, change_unless, by_record, by_sink, set_unless, change,
}

-- The state that a request for a change asks for.
abbrev pub requested : SetRequest → ℕ → ℕ → SwitchState
requested q n now = record {
  mode = q.mode;
  reason = q.reason;
  set_at = some now;
  set_by_ip = some q.actor_ip;
  ttl_minutes = n;
  expires_at = expiry n now;
}

-- An error, and at most a time to live that had passed is carried out.
pub record IsRefused (now : ℕ) (s : Switch) (result : Answer × Switch) : Type 0 where
  pub status : ℕ
  pub answer : result.0 ≡ http_error status
  pub state : (result.1.state ≡ s.state) ⊎ (result.1.state ≡ get_state now s.state)
  pub records :
      (result.1.records ≡ s.records)
      ⊎ ((x : Sink × AuditRecord) × (result.1.records ≡ x ∷ s.records))

-- The record of an authorized change to the state.
pub record IsRecordOf (state : SwitchState) (r : AuditRecord) : Type 0 where
  pub mode : r.mode_to ≡ state.mode
  pub reason : r.reason ≡ state.reason
  pub ttl : r.ttl_minutes ≡ state.ttl_minutes
  pub by : is_some r.token_fingerprint ≡ true

pub record IsChanged (env : Env) (q : SetRequest) (c : Clock) (s : Switch)
    (result : Answer × Switch) : Type 0 where
  pub minutes : ℕ
  pub ttl : q.ttl_minutes ≡ pos minutes
  pub untimed : q.mode ≡ Mode.hard_stop → minutes ≡ 0
  pub authorized : verify_admin_token env q.token ≡ none
  pub written : Bool
  pub answer : result.0 ≡ changed (to_kst_display (requested q minutes c.written_at)) written
  pub state : result.1.state ≡ requested q minutes c.written_at
  pub audited :
      env.audit_strict ≡ true
      → (sink : Sink) × (r : AuditRecord) × (result.1.records ≡ (sink, r) ∷ s.records)
        × IsRecordOf (requested q minutes c.written_at) r
        × (r.timestamp ≡ c.recorded_at)

abbrev pub Ends : Env → SetRequest → Clock → Switch → Answer × Switch → Type 0
Ends env q c s result = IsRefused c.read_at s result ⊎ IsChanged env q c s result

Result-cases : {E A : Type 0} (x : Result E A) → ((e : E) × (x ≡ err e)) ⊎ ((a : A) × (x ≡ ok a))
Result-cases (err e) = inl (e, refl)
Result-cases (ok a) = inr (a, refl)

clash : {b : Bool} → b ≡ false → b ≡ true → ⊥
clash p q = cc

is_allowed-pos : (q : SetRequest) (t : ℤ) → is_allowed q t ≡ true → (n : ℕ) × (t ≡ pos n)
is_allowed-pos q (negsuc n) e = absurd (clash refl e)
is_allowed-pos q (pos n) e = (n, refl)

allowed_ttl-untimed : (m : Mode) (n : ℕ) → (m ≡ Mode.hard_stop → n ≡ 0) → allowed_ttl m n ≡ n
allowed_ttl-untimed Mode.normal n u = refl
allowed_ttl-untimed Mode.safe_mode n u = refl
allowed_ttl-untimed Mode.hard_stop n u = sym (u refl)

is_mode-untimed :
    (m : Mode) (t : ℤ) (n : ℕ)
    → t ≡ pos n
    → is_mode m Mode.hard_stop && is_timed t ≡ false
    → m ≡ Mode.hard_stop
    → n ≡ 0
is_mode-untimed m t n e f h = untimed (rw (h, e) at f)
  where
    untimed : ltb 0 n ≡ false → n ≡ 0
    untimed f = ground arith

module _ (hmac : (key token : ℕ) → ℕ) (sha256 : String → ℕ) (env : Env) where
  pepper_from-strict :
      env.audit_strict ≡ true
      → (p : Pepper) (b : Option ℕ) → pepper_from env p ≡ ok b
      → is_some b ≡ true
  pepper_from-strict strict p b e = ground (arith, strict, e)

  with_kid-strict :
      env.audit_strict ≡ true
      → (token : ℕ) (k : Result AuditError ℕ) (f : Option (ℕ × ℕ))
      → with_kid hmac sha256 env token k ≡ ok f
      → is_some f ≡ true
  unfolding load_pepper
  with_kid-strict strict token k f e = ground (arith, e, pepper_from-strict strict env.pepper_b64)

  -- A strict process makes no record without a fingerprint.
  fingerprint_token-strict :
      env.audit_strict ≡ true
      → (token : Option ℕ) (f : Option (ℕ × ℕ)) → verify_admin_token env token ≡ none
      → fingerprint_token hmac sha256 env token ≡ ok f
      → is_some f ≡ true
  unfolding fingerprint_token verify_admin_token
  fingerprint_token-strict strict none f v e = ground (arith, v)
  fingerprint_token-strict strict (some t) f v e = with_kid-strict strict t (load_kid env) f e

  module _ (q : SetRequest) (n : ℕ) (c : Clock) (t : q.ttl_minutes ≡ pos n)
      (untimed : q.mode ≡ Mode.hard_stop → n ≡ 0) (v : verify_admin_token env q.token ≡ none) where
    changed_state :
        (old : SwitchState)
        → set_state q.mode q.reason q.actor_ip q.ttl_minutes c.written_at old
          ≡ some (requested q n c.written_at)
    unfolding set_state
    changed_state old = rw t (rw (allowed_ttl-untimed q.mode n untimed) refl)

    change-IsChanged :
        (written : Bool) (s base : Switch)
        → (env.audit_strict ≡ true
            → (sink : Sink) × (r : AuditRecord) × (s.records ≡ (sink, r) ∷ base.records)
              × IsRecordOf (requested q n c.written_at) r
              × (r.timestamp ≡ c.recorded_at))
        → IsChanged env q c base (change written q c.written_at s)
    change-IsChanged written s base a = rw (changed_state s.state) (record {
      minutes = n;
      ttl = t;
      untimed = untimed;
      authorized = v;
      written = written;
      answer = refl;
      state = refl;
      audited = a;
    })

    change_unless-Ends :
        (strict : Bool)
        → env.audit_strict ≡ strict
        → (s base : Switch) → s.state ≡ get_state c.read_at base.state
        → (s.records ≡ base.records) ⊎ ((x : Sink × AuditRecord) × (s.records ≡ x ∷ base.records))
        → Ends env q c base (change_unless strict q c.written_at s)
    change_unless-Ends true e s base same records =
        inl (record { status = 500; answer = refl; state = inr same; records = records })
    change_unless-Ends false e s base same records =
        inr (change-IsChanged false s base (λ strict. absurd (clash e strict)))

    module _ (s : Switch) (r : AuditRecord) (timed : r.timestamp ≡ c.recorded_at)
        (kept : env.audit_strict ≡ true → IsRecordOf (requested q n c.written_at) r) where
      put_record-Ends :
          (outcome : PutOutcome) (sink : Sink)
          → Ends env q c s (
              put_record env outcome sink r q c.written_at
                (record s { state = get_state c.read_at s.state; sink = some sink }))
      put_record-Ends stored sink =
          inr (change-IsChanged true _ s (λ e. (sink, r, refl, kept e, timed)))
      put_record-Ends failed sink = change_unless-Ends env.audit_strict refl _ s refl (inl refl)
      put_record-Ends stored_but_failed sink =
          change_unless-Ends env.audit_strict refl _ s refl (inr ((sink, r), refl))

      by_sink-Ends :
          (outcome : PutOutcome) (sink : Result SinkError Sink)
          → Ends env q c s (
              by_sink env outcome sink r q c.written_at
                (record s { state = get_state c.read_at s.state }))
      by_sink-Ends outcome (err e) =
          inl (record { status = 500; answer = refl; state = inr refl; records = inl refl })
      by_sink-Ends outcome (ok sink) = put_record-Ends outcome sink

    fingerprint-Ends :
        (outcome : PutOutcome) (s : Switch) (mode_from : Mode)
        → (f : Result AuditError (Option (ℕ × ℕ))) → fingerprint_token hmac sha256 env q.token ≡ f
        → Ends env q c s (
            by_record hmac sha256 env outcome
              (record_with hmac sha256 f q mode_from c.recorded_at)
              q
              c.written_at
              (record s { state = get_state c.read_at s.state }))
    fingerprint-Ends outcome s mode_from (err e) same =
        inl (record { status = 500; answer = refl; state = inr refl; records = inl refl })
    fingerprint-Ends outcome s mode_from (ok f) same =
        by_sink-Ends s _ refl
          (λ strict. record {
            mode = refl;
            reason = refl;
            ttl = rw t refl;
            by = fingerprint_token-strict strict q.token f v same;
          })
          outcome (get_audit_sink env s.sink)

  authorized-Ends :
      (outcome : PutOutcome) (q : SetRequest) (n : ℕ) (c : Clock) (s : Switch)
      → q.ttl_minutes ≡ pos n
      → (refusal : Option ℕ) → verify_admin_token env q.token ≡ refusal
      → Ends env q c s (set_unless hmac sha256 env outcome refusal q c s)
  unfolding build_kill_switch_audit_record
  authorized-Ends outcome q n c s t (some e) v =
      inl (record { status = e; answer = refl; state = inl refl; records = inl refl })
  authorized-Ends outcome q n c s t none v =
      elim (Bool-cases (is_mode q.mode Mode.hard_stop && is_timed q.ttl_minutes)) [
        | inl timed ↦
            rw timed
              (inl (record { status = 400; answer = refl; state = inl refl; records = inl refl }))
        | inr untimed ↦ rw untimed (
            fingerprint-Ends q n c t (is_mode-untimed q.mode q.ttl_minutes n t untimed) v outcome s
              _ (fingerprint_token hmac sha256 env q.token) refl)
      ]

  -- Every request for a change ends in one of two ways. Either it is answered by an error, and the state
  -- stays as it was, but that a time to live that has passed may be carried out; at most one record is
  -- added. Or the token was the one of the operators, the time to live is not negative and is 0 for
  -- HARD_STOP, the answer shows the state that was asked for, and that is the state; with strict
  -- auditing the sinks have got a record of this change, with a fingerprint of the token and the instant at which the record was made.
  pub set_kill_switch_lem :
      (outcome : PutOutcome) (q : SetRequest) (c : Clock) (s : Switch)
      → Ends env q c s (set_kill_switch hmac sha256 env outcome q c s)
  unfolding set_kill_switch
  set_kill_switch_lem outcome q c s = elim (Bool-cases (is_allowed q q.ttl_minutes)) [
    | inr bad ↦
        rw bad (inl (record { status = 422; answer = refl; state = inl refl; records = inl refl }))
    | inl fine ↦
        let (n, t) = is_allowed-pos q q.ttl_minutes fine in
        rw fine (authorized-Ends outcome q n c s t (verify_admin_token env q.token) refl)
  ]
