-- ===== src/KillSwitch.antt =====
-- The kill switch: dpp/apps/api/dpp_api/config/kill_switch.py. The state is kept by each process of the
-- API for itself. Instants are seconds.
pub mod Gate
pub mod Audit
pub mod Admin
pub mod Changes
pub mod Holds
mod Tests
use Prim.Native.String.{String}
use decisionproof.Base.{
  ℕ, ◌+◌, ◌*◌, ℤ, pos, negsuc, Bool, true, false, Option, none, some, List, [], ◌∷◌, leb, eqb,
  if◌then◌else◌,
}

pub data Mode : Type 0 where
  normal safe_mode hard_stop : Mode

abbrev pub is_mode : Mode → Mode → Bool
is_mode Mode.normal Mode.normal = true
is_mode Mode.safe_mode Mode.safe_mode = true
is_mode Mode.hard_stop Mode.hard_stop = true
is_mode _ _ = false

pub record SwitchState : Type 0 where
  pub mode : Mode
  pub reason : String
  pub set_at : Option ℕ
  pub set_by_ip : Option String
  pub ttl_minutes : ℕ
  pub expires_at : Option ℕ

abbrev pub has_passed : Option ℕ → ℕ → Bool
has_passed none now = false
has_passed (some t) now = leb t now

unfoldable pub is_expired : ℕ → SwitchState → Bool
is_expired now s = if eqb s.ttl_minutes 0 then false else has_passed s.expires_at now

-- A text that should name a mode, in upper case: unset or empty, a mode, or anything else.
pub data ModeText : Type 0 where
  absent : ModeText
  named : Mode → ModeText
  unknown : ModeText

-- config/kill_switch.yaml: not there, there but not readable as a mapping, or read.
pub data ConfigFile : Type 0 where
  missing : ConfigFile
  unreadable : ConfigFile
  content : (mode : ModeText) (reason : Option String) → ConfigFile

abbrev pub initial : Mode → String → SwitchState
initial mode reason = record {
  mode = mode;
  reason = reason;
  set_at = none;
  set_by_ip = none;
  ttl_minutes = 0;
  expires_at = none;
}

abbrev pub default_state : SwitchState
default_state = initial Mode.normal "Default configuration"

abbrev pub reason_or : Option String → String → String
reason_or none d = d
reason_or (some reason) d = reason

-- A name that is no mode is a ValueError, which is caught.
abbrev pub load_file : ConfigFile → SwitchState
load_file missing = default_state
load_file unreadable = default_state
load_file (content absent reason) = initial Mode.normal (reason_or reason "Loaded from config file")
load_file (content (named mode) reason) = initial mode (reason_or reason "Loaded from config file")
load_file (content unknown reason) = default_state

unfoldable pub load_initial_state : ModeText → ConfigFile → SwitchState
load_initial_state absent file = load_file file
load_initial_state (named mode) file =
    initial mode "Loaded from KILL_SWITCH_MODE environment variable"
load_initial_state unknown file = load_file file

abbrev pub restored : ℕ → SwitchState
restored now = record (initial Mode.normal "Auto-restored after TTL expiration") {
  set_at = some now;
}

-- The state that is returned is also the one that is kept.
unfoldable pub get_state : ℕ → SwitchState → SwitchState
get_state now s = if is_expired now s then restored now else s

abbrev pub allowed_ttl : Mode → ℕ → ℕ
allowed_ttl Mode.hard_stop ttl = 0
allowed_ttl mode ttl = ttl

abbrev pub expiry : ℕ → ℕ → Option ℕ
expiry ttl now = if eqb ttl 0 then none else some (now + ttl * 60)

-- `none` is the ValueError for a negative time to live.
unfoldable pub set_state : Mode → String → String → ℤ → ℕ → SwitchState → Option SwitchState
set_state mode reason actor_ip (negsuc n) now s = none
set_state mode reason actor_ip (pos n) now s = some (record {
  mode = mode;
  reason = reason;
  set_at = some now;
  set_by_ip = some actor_ip;
  ttl_minutes = allowed_ttl mode n;
  expires_at = expiry (allowed_ttl mode n) now;
})
