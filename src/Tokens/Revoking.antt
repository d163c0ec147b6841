-- ===== src/Tokens/Revoking.antt =====
-- A revoked token is out.
use decisionproof.Base.{
  ℕ, ◌≡◌, ◌≢◌, refl, sym, ap, ◌∙◌, inl, inr, true, false, Option, none, some, [], ◌∷◌, arith,
  eqb_iff, Dict, lookup, insert, lookup-insert_self, Distinct, insert-Distinct, nat_eq, Bool-cases,
}
use decisionproof.Tokens.{
  TokenStatus, ApiToken, TokenStore, is_usable, answered, refused, revoke, by_revocable,
  revoke_token, revoke_usable, revoke_all_tokens, find_token, has_expired, authenticate,
  get_token_auth_context,
}
use decisionproof.Tokens.Keeps.{find_token-lookup}

find_token-usable :
    (hash id : ℕ) (t : ApiToken) (tokens : Dict ℕ ApiToken)
    → find_token hash tokens ≡ some (id, t)
    → is_usable t.status ≡ true
unfolding find_token
find_token-usable hash id t [] e = absurd (none_some e)
  where
    none_some : {x : ℕ × ApiToken} → ◌≡◌ {A = Option (ℕ × ApiToken)} none (some x) → ⊥
    none_some p = cc
find_token-usable hash id t ((j, u) ∷ tokens) e = ground (arith, find_token-usable hash id t tokens)

-- Who is let in has a usable row.
auth-found :
    (hash_token : ℕ → ℕ) (raw_token now tenant id : ℕ) (s : TokenStore)
    → (get_token_auth_context hash_token (some raw_token) now s).0 ≡ answered (tenant, id)
    → (t : ApiToken) × (find_token (hash_token raw_token) s.tokens ≡ some (id, t))
      × (t.tenant_id ≡ tenant)
unfolding get_token_auth_context
auth-found hash_token raw_token now tenant id s e = by_row _ refl e
  where
    same : {a b : ℕ × ℕ} → answered a ≡ answered b → a ≡ b
    same p = cc

    clash : {a : ℕ × ℕ} → refused 401 ≡ answered a → ⊥
    clash p = cc

    by_row :
        (x : Option (ℕ × ApiToken))
        → find_token (hash_token raw_token) s.tokens ≡ x
        → (authenticate now x s).0 ≡ answered (tenant, id)
        → (t : ApiToken) × (find_token (hash_token raw_token) s.tokens ≡ some (id, t))
          × (t.tenant_id ≡ tenant)
    by_row none f h = absurd (clash h)
    by_row (some (j, t)) f h = elim (Bool-cases (has_expired now t.expires_at)) [
      | inl over ↦ absurd (clash (rw over at h))
      | inr valid ↦
          let both : (t.tenant_id, j) ≡ (tenant, id) = same (rw valid at h) in
          let at : j ≡ id = ap (λ (x : ℕ × ℕ). x.1) both in
          (t, rw (← at) f, ap (λ (x : ℕ × ℕ). x.0) both)
    ]

revoked_row :
    (tenant token_id now : ℕ) (t : ApiToken) (s : TokenStore)
    → lookup token_id s.tokens ≡ some t
    → t.tenant_id ≡ tenant
    → Distinct s.tokens
    → let s' = (revoke_token tenant token_id now s).1 in
      Distinct s'.tokens
      × (t' : ApiToken) × (lookup token_id s'.tokens ≡ some t')
      × (t'.status ≡ TokenStatus.revoked)
unfolding revoke_token
revoked_row tenant token_id now t s found own d =
    rw (found, (eqb_iff t.tenant_id tenant).1 own) (by_status t.status refl)
  where
    now_revoked :
        Distinct (insert token_id (revoke now t) s.tokens)
        × (t' : ApiToken) × (lookup token_id (insert token_id (revoke now t) s.tokens) ≡ some t')
        × (t'.status ≡ TokenStatus.revoked)
    now_revoked = (
      insert-Distinct token_id (revoke now t) s.tokens d,
      revoke now t,
      lookup-insert_self token_id (revoke now t) s.tokens,
      refl,
    )

    by_status :
        (status : TokenStatus)
        → t.status ≡ status
        → let s' = (by_revocable tenant token_id now t status s).1 in
          Distinct s'.tokens
          × (t' : ApiToken) × (lookup token_id s'.tokens ≡ some t')
          × (t'.status ≡ TokenStatus.revoked)
    by_status TokenStatus.revoked e = (d, t, found, e)
    by_status TokenStatus.active e = now_revoked
    by_status TokenStatus.rotating e = now_revoked
    by_status TokenStatus.expired e = now_revoked

-- After a tenant has revoked a token of its own, no raw token whatever is let in as that token, at any
-- later instant.
pub revoked_is_out :
    (hash_token : ℕ → ℕ) (tenant token_id now : ℕ) (t : ApiToken) (s : TokenStore)
    (raw_token later other id : ℕ)
    → lookup token_id s.tokens ≡ some t
    → t.tenant_id ≡ tenant
    → Distinct s.tokens
    → (get_token_auth_context hash_token
        (some raw_token)
        later
        (revoke_token tenant token_id now s).1).0
      ≡ answered (other, id)
    → id ≢ token_id
revoked_is_out hash_token tenant token_id now t s raw_token later other id found own d e same =
    let s' = (revoke_token tenant token_id now s).1 in
    let (d', t', at, out) = revoked_row tenant token_id now t s found own d in
    let (u, f, _) = auth-found hash_token raw_token later other id s' e in
    let row : u ≡ t' =
      ground (arith, find_token-lookup (hash_token raw_token) id u s'.tokens d' f, same, at) in
    let usable = find_token-usable (hash_token raw_token) id u s'.tokens f in
    clash (sym usable ∙ ap (λ (x : ApiToken). is_usable x.status) row ∙ ap is_usable out)
  where
    clash : true ≡ false → ⊥
    clash h = cc

find_token-revoke_usable :
    (tenant now hash id : ℕ) (t : ApiToken) (tokens : Dict ℕ ApiToken)
    → find_token hash (revoke_usable tenant now tokens) ≡ some (id, t)
    → t.tenant_id ≢ tenant
unfolding find_token revoke_usable
find_token-revoke_usable tenant now hash id t [] e same = absurd (none_some e)
  where
    none_some : {x : ℕ × ApiToken} → ◌≡◌ {A = Option (ℕ × ApiToken)} none (some x) → ⊥
    none_some p = cc
find_token-revoke_usable tenant now hash id t ((j, u) ∷ tokens) e same = ground (
  arith,
  find_token-revoke_usable tenant now hash id t tokens,
  eqb_iff u.tenant_id tenant,
  same,
  e,
)

-- The panic button. After revoke-all, no raw token is let in for the tenant.
pub revoke_all_locks_out :
    (hash_token : ℕ → ℕ) (tenant now : ℕ) (s : TokenStore) (raw_token later other id : ℕ)
    → (get_token_auth_context hash_token
        (some raw_token)
        later
        (revoke_all_tokens tenant now s).1).0
      ≡ answered (other, id)
    → other ≢ tenant
unfolding revoke_all_tokens
revoke_all_locks_out hash_token tenant now s raw_token later other id e same =
    let s' = (revoke_all_tokens tenant now s).1 in
    let (t, f, own) = auth-found hash_token raw_token later other id s' e in
    find_token-revoke_usable tenant now (hash_token raw_token) id t s.tokens f (own ∙ same)
