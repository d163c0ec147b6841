-- ===== src/KillSwitch/Admin.antt =====
-- The requests of operators: `/admin/kill-switch` of dpp/apps/api/dpp_api/routers/admin.py.
use Prim.Native.String.{String, len}
use decisionproof.Base.{
  ℕ, ◌+◌, ◌*◌, ℤ, pos, negsuc, Bool, true, false, not, ◌&&◌, Option, none, some, List, ◌∷◌, ltb,
  eqb_option, if◌then◌else◌,
}
use decisionproof.World.{Result, ok, err}
use decisionproof.KillSwitch.{Mode, is_mode, SwitchState, get_state, set_state}
use decisionproof.KillSwitch.Audit.{
  AuditError, AuditRecord, Env, PutOutcome, SetRequest, Sink, SinkError,
  build_kill_switch_audit_record, get_audit_sink, stored, failed, stored_but_failed,
}

-- A process: its state, its sink, and what the sinks hold.
pub record Switch : Type 0 where
  pub state : SwitchState
  pub sink : Option Sink
  pub records : List (Sink × AuditRecord)

pub data Answer : Type 0 where
  shown : SwitchState → Answer
  changed : SwitchState → (audit_write_ok : Bool) → Answer
  http_error : ℕ → Answer

abbrev pub shift : Option ℕ → Option ℕ
shift none = none
shift (some t) = some (t + 9 * 3600)

unfoldable pub to_kst_display : SwitchState → SwitchState
to_kst_display s = record s { set_at = shift s.set_at; expires_at = shift s.expires_at }

abbrev pub token_error : Option ℕ → Option ℕ → Option ℕ
token_error none provided = some 500
token_error (some expected) provided =
    if eqb_option provided (some expected) then none else some 401

-- The status of the HTTPException, or none.
unfoldable pub verify_admin_token : Env → Option ℕ → Option ℕ
verify_admin_token env provided = token_error env.admin_token provided

abbrev pub show_unless : Option ℕ → ℕ → Switch → Answer × Switch
show_unless (some e) now s = (http_error e, s)
show_unless none now s =
    let state = get_state now s.state in (shown (to_kst_display state), record s { state = state })

unfoldable pub get_kill_switch : Env → Option ℕ → ℕ → Switch → Answer × Switch
get_kill_switch env token now s = show_unless (verify_admin_token env token) now s

-- Step 6 and the answer.
abbrev pub answer_change : Bool → Switch → Option SwitchState → Answer × Switch
answer_change audit_write_ok s none = (http_error 500, s)
answer_change audit_write_ok s (some state) =
    (changed (to_kst_display state) audit_write_ok, record s { state = state })

abbrev pub change : Bool → SetRequest → ℕ → Switch → Answer × Switch
change audit_write_ok q now s =
    answer_change audit_write_ok s (set_state q.mode q.reason q.actor_ip q.ttl_minutes now s.state)

-- A failed write: strict processes refuse the change, others warn.
abbrev pub change_unless : Bool → SetRequest → ℕ → Switch → Answer × Switch
change_unless true q now s = (http_error 500, s)
change_unless false q now s = change false q now s

abbrev pub store : Sink → AuditRecord → Switch → Switch
store sink r s = record s { records = (sink, r) ∷ s.records }

-- `sink.put_record`
abbrev pub put_record :
    Env → PutOutcome → Sink → AuditRecord → SetRequest → ℕ → Switch → Answer × Switch
put_record env stored sink r q now s = change true q now (store sink r s)
put_record env failed sink r q now s = change_unless env.audit_strict q now s
put_record env stored_but_failed sink r q now s =
    change_unless env.audit_strict q now (store sink r s)

abbrev pub by_sink :
    Env
    → PutOutcome
    → Result SinkError Sink
    → AuditRecord
    → SetRequest
    → ℕ
    → Switch
    → Answer × Switch
by_sink env outcome (err e) r q now s = (http_error 500, s)
by_sink env outcome (ok sink) r q now s =
    put_record env outcome sink r q now (record s { sink = some sink })

abbrev pub is_allowed : SetRequest → ℤ → Bool
is_allowed q (negsuc n) = false
is_allowed q (pos n) = ltb 0 (len q.reason) && not (ltb 200 (len q.reason))

abbrev pub is_timed : ℤ → Bool
is_timed (negsuc n) = false
is_timed (pos n) = ltb 0 n

-- The clock is read three times: for the present state, for the audit record, and, after the record has
-- been written, for the change.
pub record Clock : Type 0 where
  pub read_at : ℕ
  pub recorded_at : ℕ
  pub written_at : ℕ

module _ (hmac : (key token : ℕ) → ℕ) (sha256 : String → ℕ) where
  -- Every error of the record ends in 500: the RuntimeErrors here, the other in the general handler.
  abbrev pub by_record :
      Env → PutOutcome → Result AuditError AuditRecord → SetRequest → ℕ → Switch → Answer × Switch
  by_record env outcome (err e) q now s = (http_error 500, s)
  by_record env outcome (ok r) q now s = by_sink env outcome (get_audit_sink env s.sink) r q now s

  abbrev pub set_unless :
      Env → PutOutcome → Option ℕ → SetRequest → Clock → Switch → Answer × Switch
  set_unless env outcome (some e) q c s = (http_error e, s)
  set_unless env outcome none q c s =
      if is_mode q.mode Mode.hard_stop && is_timed q.ttl_minutes
      then (http_error 400, s)
      else let old = get_state c.read_at s.state in
        by_record env outcome
          (build_kill_switch_audit_record hmac sha256 env q old.mode c.recorded_at) q c.written_at
          (record s { state = old })

  -- A body that does not validate is answered before the handler.
  unfoldable pub set_kill_switch : Env → PutOutcome → SetRequest → Clock → Switch → Answer × Switch
  set_kill_switch env outcome q c s =
      if is_allowed q q.ttl_minutes
      then set_unless env outcome (verify_admin_token env q.token) q c s
      else (http_error 422, s)
