-- ===== src/Tokens/Rotation.antt =====
-- The two tokens after a rotation.
use decisionproof.Base.{
  ℕ, ◌+◌, ◌*◌, ◌≡◌, ◌≢◌, refl, sym, ap, ◌∙◌, inl, inr, true, ◌&&◌, Option, none, some, [], ◌∷◌,
  arith, leb, eqb_iff, if◌then◌else◌, Dict, lookup, insert, lookup-insert, Distinct,
  insert-Distinct, nat_eq, Bool-cases,
}
use decisionproof.Tokens.{
  TokenStatus, ApiToken, TokenStore, is_usable, is_unrevoked, answered, refused, NewToken,
  rotated_token, next_token, by_rotatable, rotate_token, find_token, has_expired,
  get_token_auth_context,
}
use decisionproof.Tokens.Keeps.{find_token-lookup}

find_token-insert_new :
    (hash id : ℕ) (t : ApiToken) (tokens : Dict ℕ ApiToken)
    → lookup id tokens ≡ none
    → t.token_hash ≢ hash
    → find_token hash (insert id t tokens) ≡ find_token hash tokens
unfolding find_token
find_token-insert_new hash id t [] fresh apart = ground (arith, eqb_iff t.token_hash hash)
find_token-insert_new hash id t ((j, u) ∷ tokens) fresh apart =
    ground (arith, find_token-insert_new hash id t tokens)

find_token-insert_found :
    (hash id : ℕ) (t : ApiToken) (tokens : Dict ℕ ApiToken)
    → lookup id tokens ≡ none
    → find_token hash tokens ≡ none
    → t.token_hash ≡ hash
    → is_usable t.status && is_unrevoked t.revoked_at ≡ true
    → find_token hash (insert id t tokens) ≡ some (id, t)
unfolding find_token
find_token-insert_found hash id t [] fresh unused same usable =
    ground (arith, eqb_iff t.token_hash hash, same, usable)
find_token-insert_found hash id t ((j, u) ∷ tokens) fresh unused same usable =
    ground (arith, find_token-insert_found hash id t tokens)

-- A row that keeps its hash and stays usable is still found.
find_token-again :
    (hash id : ℕ) (old t : ApiToken) (tokens : Dict ℕ ApiToken)
    → Distinct tokens
    → find_token hash tokens ≡ some (id, old)
    → t.token_hash ≡ hash
    → is_usable t.status && is_unrevoked t.revoked_at ≡ true
    → find_token hash (insert id t tokens) ≡ some (id, t)
unfolding find_token
find_token-again hash id old t [] d e same usable = absurd (none_some e)
  where
    none_some : {x : ℕ × ApiToken} → ◌≡◌ {A = Option (ℕ × ApiToken)} none (some x) → ⊥
    none_some p = cc
find_token-again hash id old t ((j, u) ∷ tokens) d e same usable =
    ground
      (arith, eqb_iff t.token_hash hash, eqb_iff j id, find_token-again hash id old t tokens d.1)

-- A row of another hash, before and after, does not matter.
find_token-insert_other :
    (hash id : ℕ) (old t : ApiToken) (tokens : Dict ℕ ApiToken)
    → lookup id tokens ≡ some old
    → old.token_hash ≢ hash
    → t.token_hash ≢ hash
    → find_token hash (insert id t tokens) ≡ find_token hash tokens
unfolding find_token
find_token-insert_other hash id old t [] found apart apart' = ground arith
find_token-insert_other hash id old t ((j, u) ∷ tokens) found apart apart' = ground (
  arith,
  eqb_iff t.token_hash hash,
  eqb_iff old.token_hash hash,
  find_token-insert_other hash id old t tokens,
)

-- What rotation is about: an active token of the tenant, and a new raw token.
pub record IsRotatable (hash_token : ℕ → ℕ) (tenant token_id raw_token : ℕ) (q : NewToken)
    (old : ApiToken) (s : TokenStore) : Type 0 where
  pub distinct : Distinct s.tokens
  pub found : find_token (hash_token raw_token) s.tokens ≡ some (token_id, old)
  pub hashed : old.token_hash ≡ hash_token raw_token
  pub own : old.tenant_id ≡ tenant
  pub active : old.status ≡ TokenStatus.active
  pub unrevoked : old.revoked_at ≡ none
  pub new_id : lookup q.token_id s.tokens ≡ none
  pub new_hash : find_token (hash_token q.raw_token) s.tokens ≡ none
  pub differs : hash_token q.raw_token ≢ hash_token raw_token

module _ (hash_token : ℕ → ℕ) (most minutes : ℕ) (tenant token_id raw_token : ℕ) (q : NewToken)
    (now : ℕ) (old : ApiToken) (s : TokenStore)
    (p : IsRotatable hash_token tenant token_id raw_token q old s) where
  abbrev next : ApiToken
  next = next_token hash_token most minutes q.raw_token now old

  abbrev kept : ApiToken
  kept = rotated_token hash_token most minutes now old

  abbrev tokens' : Dict ℕ ApiToken
  tokens' = insert token_id kept (insert q.token_id next s.tokens)

  rotated-tokens : (rotate_token hash_token most minutes tenant token_id q now s).1.tokens ≡ tokens'
  unfolding rotate_token
  rotated-tokens =
      let at = find_token-lookup (hash_token raw_token) token_id old s.tokens p.distinct p.found in
      rw (at, (eqb_iff old.tenant_id tenant).1 p.own)
        (ap
          (λ (x : TokenStatus).
            (by_rotatable hash_token most minutes tenant token_id q now old x s).1.tokens)
          p.active)

  still_at : lookup token_id (insert q.token_id next s.tokens) ≡ some old
  still_at =
      let at = find_token-lookup (hash_token raw_token) token_id old s.tokens p.distinct p.found in
      ground (
        arith,
        lookup-insert q.token_id token_id next s.tokens,
        eqb_iff q.token_id token_id,
        at,
        p.new_id,
      )

  old-found : find_token (hash_token raw_token) tokens' ≡ some (token_id, kept)
  old-found =
      find_token-again (hash_token raw_token) token_id old kept (insert q.token_id next s.tokens)
        (insert-Distinct q.token_id next s.tokens p.distinct)
        (find_token-insert_new (hash_token raw_token) q.token_id next s.tokens p.new_id p.differs
          ∙ p.found)
        p.hashed (rw p.unrevoked refl)

  new-found : find_token (hash_token q.raw_token) tokens' ≡ some (q.token_id, next)
  new-found =
      let other : old.token_hash ≢ hash_token q.raw_token = λ h. p.differs (sym h ∙ p.hashed) in
      find_token-insert_other (hash_token q.raw_token) token_id old kept
        (insert q.token_id next s.tokens) still_at other other
      ∙ find_token-insert_found (hash_token q.raw_token) q.token_id next s.tokens p.new_id
          p.new_hash refl refl

auth-answer :
    (hash_token : ℕ → ℕ) (raw_token later id : ℕ) (t : ApiToken) (s : TokenStore)
    → find_token (hash_token raw_token) s.tokens ≡ some (id, t)
    → (get_token_auth_context hash_token (some raw_token) later s).0
      ≡ (if has_expired later t.expires_at then refused 401 else answered (t.tenant_id, id))
unfolding get_token_auth_context
auth-answer hash_token raw_token later id t s e =
    rw e (elim (Bool-cases (has_expired later t.expires_at)) [
      | inl over ↦ rw over refl
      | inr valid ↦ rw valid refl
    ])

-- The grace period. After an active token has been rotated, its raw token is let in as the old token
-- until the grace ends, and not after; nothing else counts, not even that its own expiry may have
-- come before the rotation. The new raw token is let in as the new token, with the tenant of the old
-- one, until the expiry that the old token had.
pub rotation_grace :
    (hash_token : ℕ → ℕ) (most minutes tenant token_id raw_token : ℕ) (q : NewToken) (now : ℕ)
    (old : ApiToken) (s : TokenStore) (later : ℕ)
    → IsRotatable hash_token tenant token_id raw_token q old s
    → let s' = (rotate_token hash_token most minutes tenant token_id q now s).1 in
      ((get_token_auth_context hash_token (some raw_token) later s').0
        ≡ (if leb (now + minutes * 60) later then refused 401 else answered (tenant, token_id)))
      × ((get_token_auth_context hash_token (some q.raw_token) later s').0 ≡ (
          if has_expired later old.expires_at then refused 401 else answered (tenant, q.token_id)))
rotation_grace hash_token most minutes tenant token_id raw_token q now old s later p =
    let s' = (rotate_token hash_token most minutes tenant token_id q now s).1 in
    let is = rotated-tokens hash_token most minutes tenant token_id raw_token q now old s p in
    let old' = old-found hash_token most minutes tenant token_id raw_token q now old s p in
    let new' = new-found hash_token most minutes tenant token_id raw_token q now old s p in
    (
      auth-answer hash_token raw_token later token_id
            (rotated_token hash_token most minutes now old) s'
            (ap (find_token (hash_token raw_token)) is ∙ old')
          ∙ ap
              (λ (t : ℕ).
                if leb (now + minutes * 60) later then refused 401 else answered (t, token_id))
              p.own,
      auth-answer hash_token q.raw_token later q.token_id
            (next_token hash_token most minutes q.raw_token now old) s'
            (ap (find_token (hash_token q.raw_token)) is ∙ new')
          ∙ ap
              (λ (t : ℕ).
                if has_expired later old.expires_at then refused 401 else answered (t, q.token_id))
              p.own,
    )
