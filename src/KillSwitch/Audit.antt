-- ===== src/KillSwitch/Audit.antt =====
-- The audit record of a change of the kill switch, dpp/apps/api/dpp_api/audit/kill_switch_audit.py, and
-- the sinks that keep it, audit/sinks.py. Tokens, keys and hashes are numbers; HMAC-SHA256 and
-- SHA-256, each cut to 12 digits, are parameters.
use Prim.Native.String.{String}
use decisionproof.Base.{ℕ, ℤ, pos, negsuc, Bool, ◌||◌, Option, none, some, if◌then◌else◌}
use decisionproof.World.{Result, ok, err}
use decisionproof.KillSwitch.{Mode}

-- KILL_SWITCH_AUDIT_WORM_MODE: unset, blank, one of the two modes, or anything else.
pub data WormMode : Type 0 where
  unset blank governance compliance invalid : WormMode

-- The pepper in base64, if the variable is not blank.
pub data Pepper : Type 0 where
  no_pepper malformed : Pepper
  bytes : ℕ → Pepper

-- The environment. An empty variable counts as none, for the peppers a blank one too.
pub record Env : Type 0 where
  pub admin_token : Option ℕ
  pub audit_required : Bool
  pub audit_strict : Bool
  pub bucket : Option ℕ
  pub worm_mode : WormMode
  pub kid : ℕ
  pub is_valid_kid : Bool
  pub pepper_b64 : Pepper
  pub pepper : Option ℕ

-- Two RuntimeErrors, and the ValueError of the base64 decoder.
pub data AuditError : Type 0 where
  invalid_fingerprint_kid fingerprint_pepper_not_set malformed_pepper : AuditError

unfoldable pub load_kid : Env → Result AuditError ℕ
load_kid env = if env.is_valid_kid then ok env.kid else err invalid_fingerprint_kid

abbrev pub plain_pepper : Env → Option ℕ → Result AuditError (Option ℕ)
plain_pepper env (some p) = ok (some p)
plain_pepper env none =
    if env.audit_required || env.audit_strict then err fingerprint_pepper_not_set else ok none

abbrev pub pepper_from : Env → Pepper → Result AuditError (Option ℕ)
pepper_from env no_pepper = plain_pepper env env.pepper
pepper_from env malformed = err malformed_pepper
pepper_from env (bytes p) = ok (some p)

unfoldable pub load_pepper : Env → Result AuditError (Option ℕ)
load_pepper env = pepper_from env env.pepper_b64

pub data SinkError : Type 0 where
  required_but_not_configured worm_mode_required invalid_worm_mode : SinkError

abbrev pub worm_mode_error : WormMode → Option SinkError
worm_mode_error WormMode.unset = some worm_mode_required
worm_mode_error WormMode.blank = some worm_mode_required
worm_mode_error WormMode.invalid = some invalid_worm_mode
worm_mode_error mode = none

abbrev pub bucket_error : Option ℕ → WormMode → Option SinkError
bucket_error none mode = some required_but_not_configured
bucket_error (some b) mode = worm_mode_error mode

unfoldable pub validate_audit_required_config : Env → Option SinkError
validate_audit_required_config env =
    if env.audit_required then bucket_error env.bucket env.worm_mode else none

pub data Sink : Type 0 where
  s3_worm : (bucket : ℕ) (mode : WormMode) → Sink
  file : Sink

abbrev pub or_governance : WormMode → WormMode
or_governance WormMode.unset = WormMode.governance
or_governance mode = mode

abbrev pub sink_at : Option ℕ → WormMode → Sink
sink_at (some b) mode = s3_worm b (or_governance mode)
sink_at none mode = file

abbrev pub unless_invalid : Option SinkError → Sink → Result SinkError Sink
unless_invalid (some e) sink = err e
unless_invalid none sink = ok sink

unfoldable pub get_default_audit_sink : Env → Result SinkError Sink
get_default_audit_sink env =
    unless_invalid (validate_audit_required_config env) (sink_at env.bucket env.worm_mode)

-- The module's sink, set up at the first request that gets so far.
unfoldable pub get_audit_sink : Env → Option Sink → Result SinkError Sink
get_audit_sink env (some sink) = ok sink
get_audit_sink env none = get_default_audit_sink env

pub record AuditRecord : Type 0 where
  pub timestamp : ℕ
  pub request_id : Option ℕ
  pub token_fingerprint : Option (ℕ × ℕ)
  pub ip_hash : ℕ
  pub mode_from : Mode
  pub mode_to : Mode
  pub reason : String
  pub ttl_minutes : ℕ

-- What becomes of a write: it is stored, or it raises, stored or not.
pub data PutOutcome : Type 0 where
  stored failed stored_but_failed : PutOutcome

pub record SetRequest : Type 0 where
  pub token : Option ℕ
  pub mode : Mode
  pub reason : String
  pub ttl_minutes : ℤ
  pub actor_ip : String
  pub request_id : Option ℕ

abbrev pub minutes : ℤ → ℕ
minutes (negsuc n) = 0
minutes (pos n) = n

module _ (hmac : (key token : ℕ) → ℕ) (sha256 : String → ℕ) where
  abbrev pub with_pepper : ℕ → ℕ → Result AuditError (Option ℕ) → Result AuditError (Option (ℕ × ℕ))
  with_pepper token kid (err e) = err e
  with_pepper token kid (ok none) = ok none
  with_pepper token kid (ok (some p)) = ok (some (kid, hmac p token))

  abbrev pub with_kid : Env → ℕ → Result AuditError ℕ → Result AuditError (Option (ℕ × ℕ))
  with_kid env token (err e) = err e
  with_kid env token (ok kid) = with_pepper token kid (load_pepper env)

  -- An empty token has no fingerprint.
  unfoldable pub fingerprint_token : Env → Option ℕ → Result AuditError (Option (ℕ × ℕ))
  fingerprint_token env none = ok none
  fingerprint_token env (some token) = with_kid env token (load_kid env)

  abbrev pub record_with :
      Result AuditError (Option (ℕ × ℕ)) → SetRequest → Mode → ℕ → Result AuditError AuditRecord
  record_with (err e) q mode_from now = err e
  record_with (ok fingerprint) q mode_from now = ok (record {
    timestamp = now;
    request_id = q.request_id;
    token_fingerprint = fingerprint;
    ip_hash = sha256 q.actor_ip;
    mode_from = mode_from;
    mode_to = q.mode;
    reason = q.reason;
    ttl_minutes = minutes q.ttl_minutes;
  })

  unfoldable pub build_kill_switch_audit_record :
      Env → SetRequest → Mode → ℕ → Result AuditError AuditRecord
  build_kill_switch_audit_record env q mode_from now =
      record_with (fingerprint_token env q.token) q mode_from now
