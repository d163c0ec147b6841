-- ===== src/KillSwitch/Holds.antt =====
-- What requests leave of a mode that operators have set, and of its audit records.
use Prim.Native.String.{String}
use decisionproof.Base.{
  ℕ, ◌+◌, ◌*◌, ◌≤◌, ◌≡◌, ◌≢◌, refl, sym, ap, ◌∙◌, ◌||◌, ◌⊎◌, inl, inr, Bool, true, false, Option,
  none, some, List, [], ◌∷◌, arith, leb, eqb, if◌then◌else◌,
}
use decisionproof.KillSwitch.{Mode, SwitchState, is_expired, get_state, restored}
use decisionproof.KillSwitch.Gate.{
  Segment, passes, dispatch, is_one_of, always_allowed, is_under, admin_path,
}
use decisionproof.KillSwitch.Audit.{Env, PutOutcome, SetRequest, AuditRecord, Sink, minutes}
use decisionproof.KillSwitch.Admin.{
  Switch, Clock, changed, http_error, verify_admin_token, show_unless, get_kill_switch,
  set_kill_switch,
}
use decisionproof.KillSwitch.Changes.{requested, IsRecordOf, set_kill_switch_lem}

-- What reaches a process: a request of an operator, or one that only meets the middleware.
pub data Call : Type 0 where
  read_call : (token : Option ℕ) → Call
  set_call : PutOutcome → SetRequest → (recorded_at written_at : ℕ) → Call
  other_call : (path : List Segment) (is_post : Bool) → Call

-- The mode that is due at `at`, if it was set at `now`.
abbrev pub due : Mode → (ttl now at : ℕ) → Mode
due mode ttl now at =
    if eqb ttl 0 then mode else if leb (now + ttl * 60) at then Mode.normal else mode

-- A record of the state is among the records.
abbrev pub IsOnRecord : SwitchState → List (Sink × AuditRecord) → Type 0
IsOnRecord state [] = ⊥
IsOnRecord state ((sink, r) ∷ rs) = IsRecordOf state r ⊎ IsOnRecord state rs

abbrev pub IsAudited : Switch → Type 0
IsAudited s = (s.state.mode ≡ Mode.normal) ⊎ IsOnRecord s.state s.records

get_state-again :
    (t at : ℕ) (st : SwitchState)
    → t ≤ at
    → (get_state at (get_state t st)).mode ≡ (get_state at st).mode
unfolding get_state is_expired
get_state-again t at st le = ground (arith, le)

get_state-IsAudited :
    (now : ℕ) (st : SwitchState) (rs : List (Sink × AuditRecord))
    → (st.mode ≡ Mode.normal) ⊎ IsOnRecord st rs
    → ((get_state now st).mode ≡ Mode.normal) ⊎ IsOnRecord (get_state now st) rs
unfolding get_state
get_state-IsAudited now st rs h = by_expiry (is_expired now st)
  where
    by_expiry :
        (b : Bool)
        → ((if b then restored now else st).mode ≡ Mode.normal)
          ⊎ IsOnRecord (if b then restored now else st) rs
    by_expiry true = inl refl
    by_expiry false = h

get_state-requested :
    (q : SetRequest) (n now at : ℕ) → (get_state at (requested q n now)).mode ≡ due q.mode n now at
unfolding get_state is_expired
get_state-requested q n now at = ground arith

same_mode :
    (now at : ℕ) (st st' : SwitchState)
    → now ≤ at
    → (st' ≡ st) ⊎ (st' ≡ get_state now st)
    → (get_state at st').mode ≡ (get_state at st).mode
same_mode now at st st' le (inl e) = rw e refl
same_mode now at st st' le (inr e) = rw e (get_state-again now at st le)

grow :
    (state : SwitchState) (rs rs' : List (Sink × AuditRecord))
    → (rs' ≡ rs) ⊎ ((x : Sink × AuditRecord) × (rs' ≡ x ∷ rs))
    → (state.mode ≡ Mode.normal) ⊎ IsOnRecord state rs
    → (state.mode ≡ Mode.normal) ⊎ IsOnRecord state rs'
grow state rs rs' more (inl e) = inl e
grow state rs rs' (inl same) (inr r) = inr (rw same r)
grow state rs rs' (inr (x, e)) (inr r) = inr (rw e (inr r))

step :
    (now : ℕ) (s s' : Switch)
    → (s'.state ≡ s.state) ⊎ (s'.state ≡ get_state now s.state)
    → (s'.records ≡ s.records) ⊎ ((x : Sink × AuditRecord) × (s'.records ≡ x ∷ s.records))
    → IsAudited s
    → IsAudited s'
step now s s' (inl e) more h = grow s'.state s.records s'.records more (rw e h)
step now s s' (inr e) more h =
    grow s'.state s.records s'.records more (rw e (get_state-IsAudited now s.state s.records h))

abbrev pub clock : (read_at recorded_at written_at : ℕ) → Clock
clock read_at recorded_at written_at = record {
  read_at = read_at;
  recorded_at = recorded_at;
  written_at = written_at;
}

module _ (hmac : (key token : ℕ) → ℕ) (sha256 : String → ℕ) (env : Env) where
  abbrev pub perform : ℕ → Call → Switch → Switch
  perform now (read_call token) s = (get_kill_switch env token now s).1
  perform now (set_call outcome q recorded_at written_at) s =
      (set_kill_switch hmac sha256 env outcome q (clock now recorded_at written_at) s).1
  perform now (other_call path is_post) s = record s {
    state = (dispatch now s.state path is_post).1;
  }

  abbrev pub perform_all : List (ℕ × Call) → Switch → Switch
  perform_all [] s = s
  perform_all ((now, c) ∷ cs) s = perform_all cs (perform now c s)

  -- Calls up to an instant, none of which is a change with the right token.
  abbrev pub IsIdle : ℕ → List (ℕ × Call) → Type 0
  IsIdle at [] = Unit
  IsIdle at ((now, read_call token) ∷ cs) = (now ≤ at) × IsIdle at cs
  IsIdle at ((now, set_call outcome q recorded_at written_at) ∷ cs) =
      (now ≤ at) × (verify_admin_token env q.token ≢ none) × IsIdle at cs
  IsIdle at ((now, other_call path is_post) ∷ cs) = (now ≤ at) × IsIdle at cs

  read-state :
      (token : Option ℕ) (now : ℕ) (s : Switch)
      → let s' = (get_kill_switch env token now s).1 in
        ((s'.state ≡ s.state) ⊎ (s'.state ≡ get_state now s.state)) × (s'.records ≡ s.records)
  unfolding get_kill_switch verify_admin_token
  read-state token now s = by_token (verify_admin_token env token)
    where
      by_token :
          (refusal : Option ℕ)
          → let s' = (show_unless refusal now s).1 in
            ((s'.state ≡ s.state) ⊎ (s'.state ≡ get_state now s.state)) × (s'.records ≡ s.records)
      by_token (some e) = (inl refl, refl)
      by_token none = (inr refl, refl)

  refused-mode :
      (outcome : PutOutcome) (q : SetRequest) (c : Clock) (at : ℕ) (s : Switch)
      → c.read_at ≤ at
      → verify_admin_token env q.token ≢ none
      → (get_state at (set_kill_switch hmac sha256 env outcome q c s).1.state).mode
        ≡ (get_state at s.state).mode
  refused-mode outcome q c at s le wrong =
      elim (set_kill_switch_lem hmac sha256 env outcome q c s) [
        | inl refused ↦ same_mode c.read_at at s.state _ le refused.state
        | inr accepted ↦ absurd (wrong accepted.authorized)
      ]

  idle-mode :
      (at : ℕ) (cs : List (ℕ × Call)) (s : Switch)
      → IsIdle at cs
      → (get_state at (perform_all cs s).state).mode ≡ (get_state at s.state).mode
  unfolding dispatch
  idle-mode at [] s h = refl
  idle-mode at ((now, read_call token) ∷ cs) s h =
      idle-mode at cs (perform now (read_call token) s) h.1
      ∙ same_mode now at s.state _ h.0 (read-state token now s).0
  idle-mode at ((now, set_call outcome q recorded_at written_at) ∷ cs) s h =
      idle-mode at cs (perform now (set_call outcome q recorded_at written_at) s) h.2
      ∙ refused-mode outcome q (clock now recorded_at written_at) at s h.0 h.1
  idle-mode at ((now, other_call path is_post) ∷ cs) s h =
      idle-mode at cs (perform now (other_call path is_post) s) h.1
      ∙ get_state-again now at s.state h.0

  -- A mode holds until it is due. After a change that was answered as made, and any requests up to an
  -- instant among which no other change has the right token, the middleware at that instant lets pass
  -- exactly what the requested mode lets pass if there was no time to live or it has not passed, and
  -- every request if it has. If the mode is HARD_STOP, these are only the health checks and what is
  -- under /admin/, at every instant.
  pub mode_holds :
      (outcome : PutOutcome) (q : SetRequest) (c : Clock) (at : ℕ) (s : Switch)
      (display : SwitchState) (written : Bool) (cs : List (ℕ × Call)) (path : List Segment)
      (is_post : Bool)
      → (set_kill_switch hmac sha256 env outcome q c s).0 ≡ changed display written
      → IsIdle at cs
      → let s' = (set_kill_switch hmac sha256 env outcome q c s).1 in
        let passed = (dispatch at (perform_all cs s').state path is_post).0 in
        (passed ≡ passes (due q.mode (minutes q.ttl_minutes) c.written_at at) path is_post)
        × (q.mode ≡ Mode.hard_stop
            → passed ≡ is_one_of always_allowed path || is_under admin_path path)
  unfolding dispatch passes
  mode_holds outcome q c at s display written cs path is_post done idle =
      elim (set_kill_switch_lem hmac sha256 env outcome q c s) [
        | inl refused ↦ absurd (error_changed (sym refused.answer ∙ done))
        | inr accepted ↦
            let s' = (set_kill_switch hmac sha256 env outcome q c s).1 in
            let mode : (get_state at (perform_all cs s').state).mode
                ≡ due q.mode accepted.minutes c.written_at at =
              idle-mode at cs s' idle
              ∙ ap (λ st. (get_state at st).mode) accepted.state
              ∙ get_state-requested q accepted.minutes c.written_at at in
            let ends : (get_state at (perform_all cs s').state).mode
                ≡ due q.mode (minutes q.ttl_minutes) c.written_at at =
              mode ∙ ap (λ t. due q.mode (minutes t) c.written_at at) (sym accepted.ttl) in
            (
              ap (λ m. passes m path is_post) ends,
              λ stop.
                  ap (λ m. passes m path is_post)
                    (mode ∙ hard_stop-due q.mode accepted.minutes stop (accepted.untimed stop)),
            )
      ]
    where
      error_changed : {e : ℕ} → http_error e ≡ changed display written → ⊥
      error_changed p = cc

      hard_stop-due :
          (m : Mode) (n : ℕ) → m ≡ Mode.hard_stop → n ≡ 0 → due m n c.written_at at ≡ Mode.hard_stop
      hard_stop-due m n stop none_left = rw (stop, none_left) refl

  -- With strict auditing no mode but NORMAL is ever in force without its record: if a process begins in
  -- NORMAL or with a record of its state, then after any requests, with right and wrong tokens, at any
  -- instants, and with any failures of the sinks, its mode is NORMAL or the sinks hold a record of its
  -- state: mode, reason, time to live, and a fingerprint of the token.
  pub changes_on_record :
      (cs : List (ℕ × Call)) (s : Switch)
      → env.audit_strict ≡ true
      → IsAudited s
      → IsAudited (perform_all cs s)
  unfolding dispatch
  changes_on_record [] s strict h = h
  changes_on_record ((now, read_call token) ∷ cs) s strict h =
      changes_on_record cs (perform now (read_call token) s) strict (
        let (state, records) = read-state token now s in
        step now s (perform now (read_call token) s) state (inl records) h)
  changes_on_record ((now, set_call outcome q recorded_at written_at) ∷ cs) s strict h =
      changes_on_record cs (perform now (set_call outcome q recorded_at written_at) s) strict
        (elim (set_kill_switch_lem hmac sha256 env outcome q (clock now recorded_at written_at) s) [
          | inl refused ↦
              step now s (perform now (set_call outcome q recorded_at written_at) s) refused.state
                refused.records h
          | inr accepted ↦
              let (sink, r, records, kept, _) = accepted.audited strict in
              rw (accepted.state, records) (inr (inl kept))
        ])
  changes_on_record ((now, other_call path is_post) ∷ cs) s strict h =
      changes_on_record cs (perform now (other_call path is_post) s) strict
        (get_state-IsAudited now s.state s.records h)
