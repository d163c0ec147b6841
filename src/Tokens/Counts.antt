-- ===== src/Tokens/Counts.antt =====
-- How the number of a tenant's active tokens changes with the table.
use decisionproof.Base.{
  ℕ, ◌+◌, ◌≤◌, ◌≡◌, refl, Bool, true, false, ◌&&◌, none, some, [], ◌∷◌, arith, eqb, Dict, lookup,
  insert, Distinct, nat_eq,
}
use decisionproof.Tokens.{
  TokenStatus, ApiToken, TokenStore, is_usable, is_active, count_tokens, owned_usable, active_count,
  revoke_usable,
}

abbrev pub bit : Bool → ℕ
bit true = 1
bit false = 0

module _ (test : ApiToken → Bool) where
  pub count-insert_new :
      (id : ℕ) (t : ApiToken) (tokens : Dict ℕ ApiToken)
      → lookup id tokens ≡ none
      → count_tokens test (insert id t tokens) ≡ count_tokens test tokens + bit (test t)
  unfolding count_tokens
  count-insert_new id t [] fresh = ground arith
  count-insert_new id t ((j, u) ∷ tokens) fresh = ground (arith, count-insert_new id t tokens)

  pub count-insert_over :
      (id : ℕ) (old t : ApiToken) (tokens : Dict ℕ ApiToken)
      → lookup id tokens ≡ some old
      → count_tokens test (insert id t tokens) + bit (test old)
        ≡ count_tokens test tokens + bit (test t)
  unfolding count_tokens
  count-insert_over id old t [] found = ground arith
  count-insert_over id old t ((j, u) ∷ tokens) found =
      ground (arith, count-insert_over id old t tokens)

-- The tokens of the tenant that are active, and not in their grace period.
abbrev pub owned_active : ℕ → ApiToken → Bool
owned_active tenant t = eqb t.tenant_id tenant && is_active t.status

pub pointwise :
    (test test' : ApiToken → Bool)
    → ((t : ApiToken) → bit (test t) ≤ bit (test' t))
    → (tokens : Dict ℕ ApiToken) → count_tokens test tokens ≤ count_tokens test' tokens
unfolding count_tokens
pointwise test test' le [] = omega arith
pointwise test test' le ((id, t) ∷ tokens) = ground (arith, le t, pointwise test test' le tokens)

pub active-usable : (b : Bool) (s : TokenStatus) → bit (b && is_active s) ≤ bit (b && is_usable s)
active-usable b TokenStatus.active = omega arith
active-usable b TokenStatus.rotating = ground arith
active-usable b TokenStatus.revoked = ground arith
active-usable b TokenStatus.expired = ground arith

pub count-active :
    (tenant : ℕ) (tokens : Dict ℕ ApiToken)
    → count_tokens (owned_active tenant) tokens ≤ active_count tenant tokens
unfolding active_count
count-active tenant tokens =
    pointwise (owned_active tenant) (owned_usable tenant)
      (λ t. active-usable (eqb t.tenant_id tenant) t.status) tokens

pub inactive : (b : Bool) (n : ℕ) → bit (b && false) ≤ n
inactive b n = ground arith

pub revoke_usable-count :
    (tenant now other : ℕ) (tokens : Dict ℕ ApiToken)
    → count_tokens (owned_active other) (revoke_usable tenant now tokens)
      ≤ count_tokens (owned_active other) tokens
unfolding count_tokens revoke_usable
revoke_usable-count tenant now other [] = omega arith
revoke_usable-count tenant now other ((id, t) ∷ tokens) =
    ground (arith, revoke_usable-count tenant now other tokens)

revoke_usable-none :
    (tenant now id : ℕ) (tokens : Dict ℕ ApiToken)
    → lookup id tokens ≡ none
    → lookup id (revoke_usable tenant now tokens) ≡ none
unfolding revoke_usable
revoke_usable-none tenant now id [] h = refl
revoke_usable-none tenant now id ((j, t) ∷ tokens) h =
    ground (arith, revoke_usable-none tenant now id tokens)

pub revoke_usable-Distinct :
    (tenant now : ℕ) (tokens : Dict ℕ ApiToken)
    → Distinct tokens
    → Distinct (revoke_usable tenant now tokens)
unfolding revoke_usable
revoke_usable-Distinct tenant now [] d = tt
revoke_usable-Distinct tenant now ((j, t) ∷ tokens) d =
    (revoke_usable-none tenant now j tokens d.0, revoke_usable-Distinct tenant now tokens d.1)

abbrev pub HasRoom : ℕ → TokenStore → Type 0
HasRoom most s = (tenant : ℕ) → count_tokens (owned_active tenant) s.tokens ≤ most

-- A token that is not active counts nothing, a new one only for its tenant.
module _ (most : ℕ) (s : TokenStore) (room : HasRoom most s) where
  pub insert_inactive-HasRoom :
      (id : ℕ) (old t : ApiToken)
      → lookup id s.tokens ≡ some old
      → ((tenant : ℕ) → bit (owned_active tenant t) ≤ bit (owned_active tenant old))
      → HasRoom most (record s { tokens = insert id t s.tokens })
  insert_inactive-HasRoom id old t found less tenant = omega (
    arith,
    count-insert_over (owned_active tenant) id old t s.tokens found,
    less tenant,
    room tenant,
  )
