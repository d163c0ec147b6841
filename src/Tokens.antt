-- ===== src/Tokens.antt =====
-- The life of an API token: create, revoke, rotate, revoke-all (dpp/apps/api/dpp_api/routers/tokens.py),
-- and the check of a Bearer token (auth/token_auth.py). Raw tokens and their HMACs are numbers;
-- `hash_token` is a parameter. The audit events are kept; the log of authentication requests, which
-- is written apart and whose errors are caught, is left out. Each handler is one transaction.
pub mod Counts
pub mod Keeps
pub mod Quota
pub mod Rotation
pub mod Revoking
mod Tests
use decisionproof.Base.{
  ℕ, suc, ◌+◌, ◌-◌, ◌*◌, Bool, true, false, not, ◌&&◌, ◌||◌, Option, none, some, List, [], ◌∷◌, ltb,
  leb, eqb, if◌then◌else◌, Dict, lookup, insert, nat_eq,
}
use decisionproof.Plans.{mem}

pub data TokenStatus : Type 0 where
  active rotating revoked expired : TokenStatus

pub record ApiToken : Type 0 where
  pub tenant_id : ℕ
  pub name : ℕ
  pub token_hash : ℕ
  pub prefix : ℕ
  pub scopes : List ℕ
  pub status : TokenStatus
  pub created_at : ℕ
  pub expires_at : Option ℕ
  pub revoked_at : Option ℕ
  pub last_used_at : Option ℕ

pub data TokenEventType : Type 0 where
  issued rotated revoked revoke_all : TokenEventType

pub record TokenEvent : Type 0 where
  pub tenant_id : ℕ
  pub token_id : Option ℕ
  pub event_type : TokenEventType

-- The tables `tenants`, `api_tokens` (by its primary key) and `token_events`.
pub record TokenStore : Type 0 where
  pub tenants : List ℕ
  pub tokens : Dict ℕ ApiToken
  pub events : List TokenEvent

-- `status IN ('active', 'rotating')`
abbrev pub is_usable : TokenStatus → Bool
is_usable TokenStatus.active = true
is_usable TokenStatus.rotating = true
is_usable TokenStatus.revoked = false
is_usable TokenStatus.expired = false

abbrev pub is_active : TokenStatus → Bool
is_active TokenStatus.active = true
is_active _ = false

-- A COUNT with a WHERE.
unfoldable pub count_tokens : (ApiToken → Bool) → Dict ℕ ApiToken → ℕ
count_tokens test [] = 0
count_tokens test ((id, t) ∷ tokens) =
    let rest = count_tokens test tokens in if test t then suc rest else rest

abbrev pub owned_usable : ℕ → ApiToken → Bool
owned_usable tenant t = eqb t.tenant_id tenant && is_usable t.status

unfoldable pub active_count : ℕ → Dict ℕ ApiToken → ℕ
unfolding count_tokens
active_count tenant = count_tokens (owned_usable tenant)

-- What a handler raises, by its status code, or its result.
pub data Answer (A : Type 0) : Type 0 where
  answered : A → Answer A
  refused : ℕ → Answer A

-- The columns of a request, and what it draws: the id and the raw token of a new row, the instant.
pub record NewToken : Type 0 where
  pub token_id : ℕ
  pub raw_token : ℕ
  pub name : ℕ
  pub scopes : List ℕ
  pub expires_in_days : Option ℕ

-- `if request.expires_in_days`: 0 is no expiry.
abbrev pub expiry_of : Option ℕ → ℕ → Option ℕ
expiry_of none now = none
expiry_of (some days) now = if eqb days 0 then none else some (now + days * 86400)

-- The prefix "dp_live".
abbrev pub live_prefix : ℕ
live_prefix = 0

abbrev pub add_event : ℕ → Option ℕ → TokenEventType → TokenStore → TokenStore
add_event tenant token_id type s = record s {
  events = record { tenant_id = tenant; token_id = token_id; event_type = type } ∷ s.events;
}

module _ (hash_token : ℕ → ℕ) (max_tokens_per_tenant : ℕ) (rotation_grace_minutes : ℕ) where
  abbrev pub new_token : ℕ → NewToken → ℕ → ApiToken
  new_token tenant q now = record {
    tenant_id = tenant;
    name = q.name;
    token_hash = hash_token q.raw_token;
    prefix = live_prefix;
    scopes = q.scopes;
    status = TokenStatus.active;
    created_at = now;
    expires_at = expiry_of q.expires_in_days now;
    revoked_at = none;
    last_used_at = none;
  }

  -- The result is the raw token, shown once.
  unfoldable pub create_token : ℕ → NewToken → ℕ → TokenStore → Answer ℕ × TokenStore
  create_token tenant q now s =
      if mem tenant s.tenants
      then if leb max_tokens_per_tenant (active_count tenant s.tokens) then (refused 403, s) else (
        answered q.raw_token,
        add_event tenant (some q.token_id) TokenEventType.issued
            (record s { tokens = insert q.token_id (new_token tenant q now) s.tokens }),
      )
      else (refused 404, s)

  -- The old token with a short life, and the new one that takes its place.
  abbrev pub rotated_token : ℕ → ApiToken → ApiToken
  rotated_token now old = record old {
    status = TokenStatus.rotating;
    expires_at = some (now + rotation_grace_minutes * 60);
  }

  abbrev pub next_token : ℕ → ℕ → ApiToken → ApiToken
  next_token raw_token now old = record old {
    token_hash = hash_token raw_token;
    status = TokenStatus.active;
    created_at = now;
    revoked_at = none;
    last_used_at = none;
  }

  abbrev pub rotate : ℕ → ℕ → NewToken → ℕ → ApiToken → TokenStore → Answer ℕ × TokenStore
  rotate tenant token_id q now old s = (
    answered q.raw_token,
    add_event tenant (some q.token_id) TokenEventType.rotated (record s {
      tokens =
          insert token_id (rotated_token now old)
            (insert q.token_id (next_token q.raw_token now old) s.tokens);
    }),
  )

  abbrev pub by_rotatable :
      ℕ → ℕ → NewToken → ℕ → ApiToken → TokenStatus → TokenStore → Answer ℕ × TokenStore
  by_rotatable tenant token_id q now old TokenStatus.revoked s = (refused 400, s)
  by_rotatable tenant token_id q now old TokenStatus.expired s = (refused 400, s)
  by_rotatable tenant token_id q now old TokenStatus.active s = rotate tenant token_id q now old s
  by_rotatable tenant token_id q now old TokenStatus.rotating s =
      if leb max_tokens_per_tenant (active_count tenant s.tokens)
      then (refused 403, s)
      else rotate tenant token_id q now old s

  -- `filter(APIToken.id == token_id, APIToken.tenant_id == tenant_id).first()`
  abbrev pub owned_token : ℕ → Option ApiToken → Option ApiToken
  owned_token tenant none = none
  owned_token tenant (some t) = if eqb t.tenant_id tenant then some t else none

  abbrev pub rotate_found :
      ℕ → ℕ → NewToken → ℕ → Option ApiToken → TokenStore → Answer ℕ × TokenStore
  rotate_found tenant token_id q now none s = (refused 404, s)
  rotate_found tenant token_id q now (some old) s =
      by_rotatable tenant token_id q now old old.status s

  unfoldable pub rotate_token : ℕ → ℕ → NewToken → ℕ → TokenStore → Answer ℕ × TokenStore
  rotate_token tenant token_id q now s =
      rotate_found tenant token_id q now (owned_token tenant (lookup token_id s.tokens)) s

abbrev pub revoke : ℕ → ApiToken → ApiToken
revoke now t = record t { status = TokenStatus.revoked; revoked_at = some now }

abbrev pub by_revocable :
    ℕ → ℕ → ℕ → ApiToken → TokenStatus → TokenStore → Answer (Option ℕ) × TokenStore
by_revocable tenant token_id now t TokenStatus.revoked s = (answered t.revoked_at, s)
by_revocable tenant token_id now t _ s = (
  answered (some now),
  add_event tenant (some token_id) TokenEventType.revoked
      (record s { tokens = insert token_id (revoke now t) s.tokens }),
)

abbrev pub revoke_found : ℕ → ℕ → ℕ → Option ApiToken → TokenStore → Answer (Option ℕ) × TokenStore
revoke_found tenant token_id now none s = (refused 404, s)
revoke_found tenant token_id now (some t) s =
    if eqb t.tenant_id tenant
    then by_revocable tenant token_id now t t.status s
    else (refused 404, s)

-- The result is the instant of the revocation.
unfoldable pub revoke_token : ℕ → ℕ → ℕ → TokenStore → Answer (Option ℕ) × TokenStore
revoke_token tenant token_id now s = revoke_found tenant token_id now (lookup token_id s.tokens) s

unfoldable pub revoke_usable : ℕ → ℕ → Dict ℕ ApiToken → Dict ℕ ApiToken
revoke_usable tenant now [] = []
revoke_usable tenant now ((id, t) ∷ tokens) =
    (id, if owned_usable tenant t then revoke now t else t) ∷ revoke_usable tenant now tokens

-- The result is the number of revoked tokens.
unfoldable pub revoke_all_tokens : ℕ → ℕ → TokenStore → ℕ × TokenStore
unfolding active_count revoke_usable
revoke_all_tokens tenant now s = (
  active_count tenant s.tokens,
  add_event tenant none TokenEventType.revoke_all
      (record s { tokens = revoke_usable tenant now s.tokens }),
)

-- `token_hash = ? AND status IN (…) AND revoked_at IS NULL`
abbrev pub is_unrevoked : Option ℕ → Bool
is_unrevoked none = true
is_unrevoked (some _) = false

unfoldable pub find_token : ℕ → Dict ℕ ApiToken → Option (ℕ × ApiToken)
find_token hash [] = none
find_token hash ((id, t) ∷ tokens) =
    let rest = find_token hash tokens in
    if eqb t.token_hash hash && (is_usable t.status && is_unrevoked t.revoked_at)
    then some (id, t)
    else rest

abbrev pub has_expired : ℕ → Option ℕ → Bool
has_expired now none = false
has_expired now (some t) = leb t now

-- `_update_last_used_if_needed`
abbrev pub touch : ℕ → Option ℕ → ApiToken → ApiToken
touch now none t = record t { last_used_at = some now }
touch now (some last) t = if leb 3600 (now - last) then record t { last_used_at = some now } else t

abbrev pub authenticate : ℕ → Option (ℕ × ApiToken) → TokenStore → Answer (ℕ × ℕ) × TokenStore
authenticate now none s = (refused 401, s)
authenticate now (some (id, t)) s =
    if has_expired now t.expires_at
    then (
      refused 401,
      record s { tokens = insert id (record t { status = TokenStatus.expired }) s.tokens },
    )
    else (
      answered (t.tenant_id, id),
      record s { tokens = insert id (touch now t.last_used_at t) s.tokens },
    )

-- The result is the tenant and the id of the token.
unfoldable pub get_token_auth_context :
    (ℕ → ℕ) → Option ℕ → ℕ → TokenStore → Answer (ℕ × ℕ) × TokenStore
get_token_auth_context hash_token none now s = (refused 401, s)
get_token_auth_context hash_token (some raw_token) now s =
    authenticate now (find_token (hash_token raw_token) s.tokens) s
