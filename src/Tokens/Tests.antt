-- ===== src/Tokens/Tests.antt =====
-- A tenant with one token, whose raw token is 41; the hash adds 1000.
use decisionproof.Base.{ℕ, ◌+◌, ◌≤◌, ◌≡◌, ◌≢◌, refl, none, some, List, [], ◌∷◌, arith, nat_eq}
use decisionproof.Tokens.{
  TokenStatus, ApiToken, TokenStore, NewToken, answered, refused, count_tokens, active_count,
  create_token, rotate_token, revoke_token, revoke_all_tokens, find_token, get_token_auth_context,
}
use decisionproof.Tokens.Counts.{owned_active}
use decisionproof.Tokens.Quota.{
  TokenRequest, create, authentication, serve, serve_all, no_tokens, tokens_within_quota,
}
use decisionproof.Tokens.Revoking.{revoked_is_out, revoke_all_locks_out}
use decisionproof.Tokens.Rotation.{IsRotatable, rotation_grace}

abbrev hash : ℕ → ℕ
hash raw = raw + 1000

abbrev asked : NewToken
asked = record { token_id = 6; raw_token = 42; name = 2; scopes = []; expires_in_days = none }

-- Past its expiry, but not marked.
abbrev token : ApiToken
token = record {
  tenant_id = 1;
  name = 2;
  token_hash = 1041;
  prefix = 0;
  scopes = [];
  status = TokenStatus.active;
  created_at = 5;
  expires_at = some 50;
  revoked_at = none;
  last_used_at = none;
}

-- A token of another tenant.
abbrev foreign : ApiToken
foreign = record token { tenant_id = 2; token_hash = 1077; expires_at = none }

abbrev token_store : TokenStore
token_store = record { tenants = 1 ∷ 2 ∷ []; tokens = (5, token) ∷ (7, foreign) ∷ []; events = [] }

abbrev requests : List (TokenRequest × ℕ)
requests =
    (create 1 asked, 10)
    ∷ (create 1 (record asked { token_id = 8 }), 11)
    ∷ (authentication 42, 12)
    ∷ []

tokens_within_quota_example :
    count_tokens (owned_active 1) (serve_all hash 2 10 requests (no_tokens (1 ∷ []))).tokens ≤ 2
unfolding create_token active_count count_tokens serve
tokens_within_quota_example =
    tokens_within_quota hash 2 10 requests (1 ∷ []) 1 (refl, (refl, (tt, tt)))

rotatable : IsRotatable hash 1 5 41 asked token token_store
unfolding find_token
rotatable = record {
  distinct = (refl, (refl, tt));
  found = refl;
  hashed = refl;
  own = refl;
  active = refl;
  unrevoked = refl;
  new_id = refl;
  new_hash = refl;
  differs = λ h. omega (arith, h);
}

-- At 100, after the token's expiry, the rotation has made it good until 700.
rotation_grace_example :
    let s' = (rotate_token hash 5 10 1 5 asked 100 token_store).1 in
    ((get_token_auth_context hash (some 41) 400 s').0 ≡ answered (1, 5))
    × ((get_token_auth_context hash (some 42) 400 s').0 ≡ refused 401)
rotation_grace_example = rotation_grace hash 5 10 1 5 41 asked 100 token token_store 400 rotatable

let_in :
    (get_token_auth_context hash (some 77) 30 (revoke_token 1 5 20 token_store).1).0
    ≡ answered (2, 7)
unfolding get_token_auth_context revoke_token find_token
let_in = refl

revoked_is_out_example : ◌≢◌ {A = ℕ} 7 5
revoked_is_out_example =
    revoked_is_out hash 1 5 20 token token_store 77 30 2 7 refl refl (refl, (refl, tt)) let_in

let_in_after_all :
    (get_token_auth_context hash (some 77) 30 (revoke_all_tokens 1 20 token_store).1).0
    ≡ answered (2, 7)
unfolding get_token_auth_context revoke_all_tokens find_token
let_in_after_all = refl

revoke_all_locks_out_example : ◌≢◌ {A = ℕ} 2 1
revoke_all_locks_out_example = revoke_all_locks_out hash 1 20 token_store 77 30 2 7 let_in_after_all
