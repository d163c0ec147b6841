-- ===== src/KillSwitch/Tests.antt =====
-- A strict process with a bucket, put into SAFE_MODE for half an hour.
use Prim.Native.String.{String}
use decisionproof.Base.{
  ℕ, ◌+◌, ◌≡◌, ◌≢◌, refl, inl, ◌||◌, pos, true, false, none, some, List, [], ◌∷◌, arith,
}
use decisionproof.KillSwitch.{
  Mode, default_state, named, unreadable, load_initial_state, is_expired, get_state, set_state,
}
use decisionproof.KillSwitch.Gate.{
  Segment, passes, is_path, is_under, is_one_of, always_allowed, admin_path,
  is_blocked_in_safe_mode, dispatch, dispatch_maintenance,
}
use decisionproof.KillSwitch.Audit.{
  Env, WormMode, bytes, stored, failed, SetRequest, validate_audit_required_config,
  get_default_audit_sink, get_audit_sink, load_kid, load_pepper, fingerprint_token,
  build_kill_switch_audit_record,
}
use decisionproof.KillSwitch.Admin.{
  Switch, Clock, changed, http_error, to_kst_display, verify_admin_token, set_kill_switch,
}
use decisionproof.KillSwitch.Changes.{requested, Ends, set_kill_switch_lem}
use decisionproof.KillSwitch.Holds.{
  clock, read_call, set_call, other_call, Call, IsAudited, perform_all, IsIdle, mode_holds,
  changes_on_record,
}

abbrev hmac : ℕ → ℕ → ℕ
hmac key token = key + token

abbrev sha256 : String → ℕ
sha256 text = 4

abbrev env : Env
env = record {
  admin_token = some 77;
  audit_required = true;
  audit_strict = true;
  bucket = some 5;
  worm_mode = WormMode.governance;
  kid = 1;
  is_valid_kid = true;
  pepper_b64 = bytes 9;
  pepper = none;
}

abbrev request : SetRequest
request = record {
  token = some 77;
  mode = Mode.safe_mode;
  reason = "incident";
  ttl_minutes = pos 30;
  actor_ip = "10.0.0.1";
  request_id = none;
}

abbrev forged : SetRequest
forged = record request { token = some 78; mode = Mode.normal }

abbrev switch : Switch
switch = record { state = default_state; sink = none; records = [] }

abbrev taken : Clock
taken = clock 100 101 102

abbrev signup_path : List Segment
signup_path = Segment.v1 ∷ Segment.auth ∷ Segment.signup ∷ []

abbrev calls : List (ℕ × Call)
calls =
    (200, read_call (some 77))
    ∷ (300, set_call stored forged 300 301)
    ∷ (400, other_call signup_path true)
    ∷ []

answered :
    (set_kill_switch hmac sha256 env stored request taken switch).0
    ≡ changed (to_kst_display (requested request 30 102)) true
unfolding set_kill_switch verify_admin_token get_state is_expired set_state get_audit_sink
    get_default_audit_sink validate_audit_required_config build_kill_switch_audit_record
    fingerprint_token load_kid load_pepper
answered = refl

-- A store that fails stops the change.
failed_store : (set_kill_switch hmac sha256 env failed request taken switch).0 ≡ http_error 500
unfolding set_kill_switch verify_admin_token get_state is_expired set_state get_audit_sink
    get_default_audit_sink validate_audit_required_config build_kill_switch_audit_record
    fingerprint_token load_kid load_pepper
failed_store = refl

-- The keys of a tenant can be listed in SAFE_MODE, but one key, under the path, cannot be read.
key_read :
    (passes Mode.safe_mode (Segment.v1 ∷ Segment.keys ∷ []) false ≡ true)
    × (passes Mode.safe_mode (Segment.v1 ∷ Segment.keys ∷ Segment.other 8 ∷ []) false ≡ false)
unfolding passes is_path is_under is_blocked_in_safe_mode
key_read = (refl, refl)

maintenance :
    (dispatch_maintenance true [] signup_path ≡ false)
    × (dispatch_maintenance true (signup_path ∷ []) signup_path ≡ true)
unfolding dispatch_maintenance is_path
maintenance = (refl, refl)

loaded : (load_initial_state (named Mode.hard_stop) unreadable).mode ≡ Mode.hard_stop
unfolding load_initial_state
loaded = refl

forged-refused : verify_admin_token env forged.token ≢ none
unfolding verify_admin_token
forged-refused e = cc

idle : IsIdle hmac sha256 env 500 calls
idle = (omega arith, (omega arith, forged-refused, (omega arith, tt)))

set_kill_switch_lem_example :
    Ends env request taken switch (set_kill_switch hmac sha256 env stored request taken switch)
set_kill_switch_lem_example = set_kill_switch_lem hmac sha256 env stored request taken switch

mode_holds_example :
    let s' = (set_kill_switch hmac sha256 env stored request taken switch).1 in
    let passed = (dispatch 500 (perform_all hmac sha256 env calls s').state signup_path true).0 in
    (passed ≡ passes Mode.safe_mode signup_path true)
    × (Mode.safe_mode ≡ Mode.hard_stop
        → passed ≡ is_one_of always_allowed signup_path || is_under admin_path signup_path)
mode_holds_example =
    mode_holds hmac sha256 env stored request taken 500 switch
      (to_kst_display (requested request 30 102)) true calls signup_path true answered idle

changes_on_record_example :
    IsAudited (perform_all hmac sha256 env ((100, set_call stored request 101 102) ∷ calls) switch)
changes_on_record_example =
    changes_on_record hmac sha256 env ((100, set_call stored request 101 102) ∷ calls) switch refl
      (inl refl)
