-- ===== src/Tokens/Quota.antt =====
-- The quota on a tenant's tokens, over sequences of requests.
use decisionproof.Base.{ℕ, ◌≤◌, ◌≡◌, none, some, List, [], ◌∷◌, arith, lookup, nat_eq}
use decisionproof.Tokens.{
  TokenStore, count_tokens, NewToken, create_token, rotate_token, revoke_token, revoke_all_tokens,
  get_token_auth_context,
}
use decisionproof.Tokens.Counts.{owned_active}
use decisionproof.Tokens.Keeps.{
  IsWithin, create-IsWithin, rotate_token-IsWithin, auth-IsWithin, revoke_token-IsWithin,
  revoke_all-IsWithin,
}

-- A request of any tenant, with what it draws.
pub data TokenRequest : Type 0 where
  create : (tenant : ℕ) → NewToken → TokenRequest
  rotation : (tenant token_id : ℕ) → NewToken → TokenRequest
  revocation : (tenant token_id : ℕ) → TokenRequest
  revocation_of_all : (tenant : ℕ) → TokenRequest
  authentication : (raw_token : ℕ) → TokenRequest

module _ (hash_token : ℕ → ℕ) (max_tokens_per_tenant rotation_grace_minutes : ℕ) where
  unfoldable pub serve : TokenRequest → ℕ → TokenStore → TokenStore
  serve (create tenant q) now s =
      (create_token hash_token max_tokens_per_tenant rotation_grace_minutes tenant q now s).1
  serve (rotation tenant token_id q) now s =
      (rotate_token hash_token max_tokens_per_tenant rotation_grace_minutes tenant token_id q now
        s).1
  serve (revocation tenant token_id) now s = (revoke_token tenant token_id now s).1
  serve (revocation_of_all tenant) now s = (revoke_all_tokens tenant now s).1
  serve (authentication raw_token) now s =
      (get_token_auth_context hash_token (some raw_token) now s).1

  unfoldable pub serve_all : List (TokenRequest × ℕ) → TokenStore → TokenStore
  serve_all [] s = s
  serve_all ((r, now) ∷ rs) s = serve_all rs (serve r now s)

  -- A new row has a new id.
  abbrev pub IsNewId : TokenRequest → TokenStore → Type 0
  IsNewId (create tenant q) s = lookup q.token_id s.tokens ≡ none
  IsNewId (rotation tenant token_id q) s = lookup q.token_id s.tokens ≡ none
  IsNewId _ s = Unit

  abbrev pub AreNewIds : List (TokenRequest × ℕ) → TokenStore → Type 0
  AreNewIds [] s = Unit
  AreNewIds ((r, now) ∷ rs) s = IsNewId r s × AreNewIds rs (serve r now s)

module _ (hash_token : ℕ → ℕ) (most minutes : ℕ) where
  serve-IsWithin :
      (r : TokenRequest) (now : ℕ) (s : TokenStore)
      → IsNewId hash_token most minutes r s
      → IsWithin most s
      → IsWithin most (serve hash_token most minutes r now s)
  unfolding serve
  serve-IsWithin (create tenant q) now s fresh p =
      create-IsWithin most s p hash_token minutes tenant q now fresh
  serve-IsWithin (rotation tenant token_id q) now s fresh p =
      rotate_token-IsWithin most s p hash_token minutes tenant token_id q now fresh
  serve-IsWithin (revocation tenant token_id) now s fresh p =
      revoke_token-IsWithin most s p tenant token_id now
  serve-IsWithin (revocation_of_all tenant) now s fresh p = revoke_all-IsWithin most s p tenant now
  serve-IsWithin (authentication raw_token) now s fresh p =
      auth-IsWithin most s p hash_token minutes raw_token now

  serve_all-IsWithin :
      (rs : List (TokenRequest × ℕ)) (s : TokenStore)
      → AreNewIds hash_token most minutes rs s
      → IsWithin most s
      → IsWithin most (serve_all hash_token most minutes rs s)
  unfolding serve_all
  serve_all-IsWithin [] s fresh p = p
  serve_all-IsWithin ((r, now) ∷ rs) s (new, fresh) p =
      serve_all-IsWithin rs (serve hash_token most minutes r now s) fresh
        (serve-IsWithin r now s new p)

abbrev pub no_tokens : List ℕ → TokenStore
no_tokens tenants = record { tenants = tenants; tokens = []; events = [] }

-- The quota holds. From a store without tokens, after any requests of any tenants in any order,
-- creations, rotations, revocations and authentications, each with a new id for its new row, no
-- tenant has more active tokens than MAX_TOKENS_PER_TENANT.
pub tokens_within_quota :
    (hash_token : ℕ → ℕ) (most minutes : ℕ) (rs : List (TokenRequest × ℕ)) (tenants : List ℕ)
    (tenant : ℕ)
    → AreNewIds hash_token most minutes rs (no_tokens tenants)
    → count_tokens
        (owned_active tenant)
        (serve_all hash_token most minutes rs (no_tokens tenants)).tokens
      ≤ most
unfolding count_tokens
tokens_within_quota hash_token most minutes rs tenants tenant fresh =
    (serve_all-IsWithin hash_token most minutes rs (no_tokens tenants) fresh
        (record { distinct = tt; room = λ t. none_at_first t })).room
      tenant
  where
    none_at_first : (t : ℕ) → count_tokens (owned_active t) [] ≤ most
    none_at_first t = omega arith
