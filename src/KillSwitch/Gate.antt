-- ===== src/KillSwitch/Gate.antt =====
-- Which requests pass: dpp/apps/api/dpp_api/middleware/kill_switch.py, and maintenance.py beside it. A
-- path is the list of its segments, so that a path starts with a text and a slash if its list begins
-- with the segments of the text and goes on.
use decisionproof.Base.{
  ℕ, ◌+◌, ◌≡◌, Bool, true, false, ◌&&◌, ◌||◌, List, [], ◌∷◌, ◌++◌, arith, eqb, if◌then◌else◌,
}
use decisionproof.KillSwitch.{Mode, SwitchState, get_state}

-- The segments that the middleware names, and any other, numbered.
pub data Segment : Type 0 where
  health readyz status admin v1 auth signup keys plans upgrade export jobs batch internal smoke
        email :
      Segment
  other : ℕ → Segment

abbrev pub segment_id : Segment → ℕ
segment_id Segment.health = 0
segment_id Segment.readyz = 1
segment_id Segment.status = 2
segment_id Segment.admin = 3
segment_id Segment.v1 = 4
segment_id Segment.auth = 5
segment_id Segment.signup = 6
segment_id Segment.keys = 7
segment_id Segment.plans = 8
segment_id Segment.upgrade = 9
segment_id Segment.export = 10
segment_id Segment.jobs = 11
segment_id Segment.batch = 12
segment_id Segment.internal = 13
segment_id Segment.smoke = 14
segment_id Segment.email = 15
segment_id (other n) = 16 + n

unfoldable pub is_path : List Segment → List Segment → Bool
is_path [] [] = true
is_path (a ∷ path) (b ∷ other_path) =
    let rest = is_path path other_path in eqb (segment_id a) (segment_id b) && rest
is_path _ _ = false

-- `path.startswith(prefix + "/")`
unfoldable pub is_under : List Segment → List Segment → Bool
is_under [] [] = false
is_under [] (b ∷ path) = true
is_under (a ∷ path) [] = false
is_under (a ∷ path) (b ∷ other_path) =
    let rest = is_under path other_path in eqb (segment_id a) (segment_id b) && rest

-- `path in paths`
abbrev pub is_one_of : List (List Segment) → List Segment → Bool
is_one_of [] path = false
is_one_of (p ∷ ps) path = is_path p path || is_one_of ps path

abbrev pub is_under_one_of : List (List Segment) → List Segment → Bool
is_under_one_of [] path = false
is_under_one_of (p ∷ ps) path = is_under p path || is_under_one_of ps path

abbrev pub always_allowed : List (List Segment)
always_allowed = (Segment.health ∷ []) ∷ (Segment.readyz ∷ []) ∷ (Segment.status ∷ []) ∷ []

abbrev pub default_allowlist : List (List Segment)
default_allowlist =
    (Segment.health ∷ [])
    ∷ (Segment.readyz ∷ [])
    ∷ (Segment.internal ∷ Segment.smoke ∷ Segment.email ∷ [])
    ∷ []

abbrev pub issuing_path : List Segment
issuing_path = Segment.v1 ∷ Segment.keys ∷ []

abbrev pub safe_mode_blocked : List (List Segment)
safe_mode_blocked =
    (Segment.v1 ∷ Segment.auth ∷ Segment.signup ∷ [])
    ∷ issuing_path
    ∷ (Segment.v1 ∷ Segment.plans ∷ Segment.upgrade ∷ [])
    ∷ (Segment.v1 ∷ Segment.export ∷ [])
    ∷ (Segment.v1 ∷ Segment.jobs ∷ Segment.batch ∷ [])
    ∷ []

abbrev pub admin_path : List Segment
admin_path = Segment.admin ∷ []

unfoldable pub is_blocked_in_safe_mode : List Segment → (is_post : Bool) → Bool
is_blocked_in_safe_mode path is_post =
    if is_one_of safe_mode_blocked path
    then if is_path issuing_path path then is_post else true
    else is_under_one_of safe_mode_blocked path

-- Whether `dispatch` hands the request on; else it answers 503 itself.
unfoldable pub passes : Mode → List Segment → (is_post : Bool) → Bool
passes Mode.normal path is_post = true
passes Mode.safe_mode path is_post =
    if is_one_of always_allowed path
    then true
    else if is_under admin_path path
    then true
    else if is_blocked_in_safe_mode path is_post
    then false
    else true
passes Mode.hard_stop path is_post = is_one_of always_allowed path || is_under admin_path path

-- Whether a request is handed on, and the state that is kept.
unfoldable pub dispatch : ℕ → SwitchState → List Segment → (is_post : Bool) → Bool × SwitchState
dispatch now s path is_post = let state = get_state now s in (passes state.mode path is_post, state)

-- The maintenance mode, with the paths that the environment adds.
unfoldable pub dispatch_maintenance : Bool → List (List Segment) → List Segment → Bool
dispatch_maintenance is_enabled custom path =
    if is_enabled then is_one_of (default_allowlist ++ custom) path else true

hard_stop_within :
    (path : List Segment) (is_post : Bool)
    → passes Mode.hard_stop path is_post ≡ true
    → passes Mode.safe_mode path is_post ≡ true
unfolding passes
hard_stop_within path is_post e = ground (arith, e)
