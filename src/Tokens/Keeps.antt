-- ===== src/Tokens/Keeps.antt =====
-- Each handler keeps the number of active tokens within the quota.
use decisionproof.Base.{
  ℕ, ◌+◌, ◌-◌, ◌≤◌, ◌≡◌, refl, inl, inr, Option, none, some, [], ◌∷◌, arith, leb, eqb, eqb_iff,
  Dict, lookup, insert, lookup-insert, Distinct, insert-Distinct, nat_eq, Bool-cases, Option-cases,
}
use decisionproof.Plans.{mem}
use decisionproof.Tokens.{
  TokenStatus, ApiToken, TokenStore, count_tokens, active_count, NewToken, has_expired, touch,
  new_token, create_token, rotated_token, next_token, rotate, by_rotatable, rotate_token, revoke,
  by_revocable, revoke_token, revoke_all_tokens, find_token, get_token_auth_context,
}
use decisionproof.Tokens.Counts.{
  bit, owned_active, HasRoom, count-insert_new, count-insert_over, count-active, inactive,
  revoke_usable-count, revoke_usable-Distinct, insert_inactive-HasRoom,
}

pub record IsWithin (most : ℕ) (s : TokenStore) : Type 0 where
  pub distinct : Distinct s.tokens
  pub room : HasRoom most s

pub find_token-lookup :
    (hash id : ℕ) (t : ApiToken) (tokens : Dict ℕ ApiToken)
    → Distinct tokens
    → find_token hash tokens ≡ some (id, t)
    → lookup id tokens ≡ some t
unfolding find_token
find_token-lookup hash id t [] d e = absurd (none_some e)
  where
    none_some : {x : ℕ × ApiToken} → ◌≡◌ {A = Option (ℕ × ApiToken)} none (some x) → ⊥
    none_some p = cc
find_token-lookup hash id t ((j, u) ∷ tokens) d e =
    ground (arith, eqb_iff j id, find_token-lookup hash id t tokens d.1, d.0)

module _ (most : ℕ) (s : TokenStore) (p : IsWithin most s) where
  -- A row that is written again without becoming active.
  again-IsWithin :
      (id : ℕ) (old t : ApiToken)
      → lookup id s.tokens ≡ some old
      → ((tenant : ℕ) → bit (owned_active tenant t) ≤ bit (owned_active tenant old))
      → IsWithin most (record s { tokens = insert id t s.tokens })
  again-IsWithin id old t found less = record {
    distinct = insert-Distinct id t s.tokens p.distinct;
    room = insert_inactive-HasRoom most s p.room id old t found less;
  }

  module _ (hash_token : ℕ → ℕ) (minutes : ℕ) where
    pub create-IsWithin :
        (tenant : ℕ) (q : NewToken) (now : ℕ)
        → lookup q.token_id s.tokens ≡ none
        → IsWithin most (create_token hash_token most minutes tenant q now s).1
    unfolding create_token
    create-IsWithin tenant q now fresh = elim (Bool-cases (mem tenant s.tenants)) [
      | inr unknown ↦ rw unknown p
      | inl known ↦ elim (Bool-cases (leb most (active_count tenant s.tokens))) [
        | inl full ↦ rw (known, full) p
        | inr free ↦
            rw (known, free)
              (record {
                distinct = insert-Distinct q.token_id _ s.tokens p.distinct;
                room = λ other.
                    let t = new_token hash_token most minutes tenant q now in
                    ground (
                      arith,
                      count-insert_new (owned_active other) q.token_id t s.tokens fresh,
                      p.room other,
                      count-active tenant s.tokens,
                      eqb_iff tenant other,
                      free,
                    );
              })
      ]
    ]

    rotate-IsWithin :
        (tenant token_id : ℕ) (q : NewToken) (now : ℕ) (old : ApiToken)
        → lookup q.token_id s.tokens ≡ none
        → lookup token_id s.tokens ≡ some old
        → ((other : ℕ)
            → count_tokens (owned_active other) s.tokens + bit (eqb old.tenant_id other)
              ≤ most + bit (owned_active other old))
        → IsWithin most (rotate hash_token most minutes tenant token_id q now old s).1
    rotate-IsWithin tenant token_id q now old fresh found free = record {
      distinct = insert-Distinct token_id _ _ (insert-Distinct q.token_id _ s.tokens p.distinct);
      room = λ other.
          let next = next_token hash_token most minutes q.raw_token now old in
          let kept = rotated_token hash_token most minutes now old in
          let still : lookup token_id (insert q.token_id next s.tokens) ≡ some old = ground (
            arith,
            lookup-insert q.token_id token_id next s.tokens,
            eqb_iff q.token_id token_id,
            fresh,
            found,
          ) in
          let first = count-insert_new (owned_active other) q.token_id next s.tokens fresh in
          let second =
            count-insert_over (owned_active other) token_id old kept
              (insert q.token_id next s.tokens) still in
          let none_active = inactive (eqb old.tenant_id other) 0 in
          let one_active : bit (owned_active other next) ≡ bit (eqb old.tenant_id other) =
            ground arith in
          omega (arith, first, second, none_active, one_active, free other);
    }

    -- By the status of the token.
    by_rotatable-IsWithin :
        (tenant token_id : ℕ) (q : NewToken) (now : ℕ) (old : ApiToken) (status : TokenStatus)
        → old.status ≡ status
        → old.tenant_id ≡ tenant
        → lookup q.token_id s.tokens ≡ none
        → lookup token_id s.tokens ≡ some old
        → IsWithin most (by_rotatable hash_token most minutes tenant token_id q now old status s).1
    by_rotatable-IsWithin tenant token_id q now old TokenStatus.revoked e t fresh found = p
    by_rotatable-IsWithin tenant token_id q now old TokenStatus.expired e t fresh found = p
    by_rotatable-IsWithin tenant token_id q now old TokenStatus.active e t fresh found =
        rotate-IsWithin tenant token_id q now old fresh found
          (λ other. rw e (ground (arith, p.room other)))
    by_rotatable-IsWithin tenant token_id q now old TokenStatus.rotating e t fresh found =
        elim (Bool-cases (leb most (active_count tenant s.tokens))) [
          | inl full ↦ rw full p
          | inr free ↦ rw free (
              rotate-IsWithin tenant token_id q now old fresh found (λ other.
                rw (e, t)
                  (ground (
                    arith,
                    p.room other,
                    count-active tenant s.tokens,
                    eqb_iff tenant other,
                    free,
                  ))))
        ]

    pub rotate_token-IsWithin :
        (tenant token_id : ℕ) (q : NewToken) (now : ℕ)
        → lookup q.token_id s.tokens ≡ none
        → IsWithin most (rotate_token hash_token most minutes tenant token_id q now s).1
    unfolding rotate_token
    rotate_token-IsWithin tenant token_id q now fresh =
        elim (Option-cases (lookup token_id s.tokens)) [
          | inl missing ↦ rw missing p
          | inr (old, found) ↦ elim (Bool-cases (eqb old.tenant_id tenant)) [
            | inr foreign ↦ rw (found, foreign) p
            | inl own ↦
                let t : old.tenant_id ≡ tenant = ground (arith, own) in
                rw (found, own)
                  (by_rotatable-IsWithin tenant token_id q now old old.status refl t fresh found)
          ]
        ]

    pub auth-IsWithin :
        (raw_token now : ℕ)
        → IsWithin most (get_token_auth_context hash_token (some raw_token) now s).1
    unfolding get_token_auth_context
    auth-IsWithin raw_token now = elim (Option-cases (find_token (hash_token raw_token) s.tokens)) [
      | inl missing ↦ rw missing p
      | inr ((id, t), e) ↦
          let found = find_token-lookup (hash_token raw_token) id t s.tokens p.distinct e in
          rw e (elim (Bool-cases (has_expired now t.expires_at)) [
            | inl over ↦
                rw over (again-IsWithin id t _ found (λ other. inactive (eqb t.tenant_id other) _))
            | inr valid ↦ rw valid (touched id t t.last_used_at found)
          ])
    ]
      where
        touched :
            (id : ℕ) (t : ApiToken) (last : Option ℕ)
            → lookup id s.tokens ≡ some t
            → IsWithin most (record s { tokens = insert id (touch now last t) s.tokens })
        touched id t none found = again-IsWithin id t _ found (λ other. omega arith)
        touched id t (some last) found = elim (Bool-cases (leb 3600 (now - last))) [
          | inl old ↦ rw old (again-IsWithin id t _ found (λ other. omega arith))
          | inr recent ↦ rw recent (again-IsWithin id t _ found (λ other. omega arith))
        ]

  revoke-IsWithin :
      (tenant token_id now : ℕ) (t : ApiToken)
      → lookup token_id s.tokens ≡ some t
      → IsWithin most (by_revocable tenant token_id now t TokenStatus.active s).1
  revoke-IsWithin tenant token_id now t found =
      let kept =
        again-IsWithin token_id t (revoke now t) found
          (λ other. inactive (eqb t.tenant_id other) _) in
      record { distinct = kept.distinct; room = kept.room }

  pub revoke_token-IsWithin :
      (tenant token_id now : ℕ) → IsWithin most (revoke_token tenant token_id now s).1
  unfolding revoke_token
  revoke_token-IsWithin tenant token_id now = elim (Option-cases (lookup token_id s.tokens)) [
    | inl missing ↦ rw missing p
    | inr (t, found) ↦ elim (Bool-cases (eqb t.tenant_id tenant)) [
      | inr foreign ↦ rw (found, foreign) p
      | inl own ↦ rw (found, own) (by_status t found t.status)
    ]
  ]
    where
      by_status :
          (t : ApiToken)
          → lookup token_id s.tokens ≡ some t
          → (status : TokenStatus) → IsWithin most (by_revocable tenant token_id now t status s).1
      by_status t found TokenStatus.revoked = p
      by_status t found TokenStatus.active = revoke-IsWithin tenant token_id now t found
      by_status t found TokenStatus.rotating = revoke-IsWithin tenant token_id now t found
      by_status t found TokenStatus.expired = revoke-IsWithin tenant token_id now t found

  pub revoke_all-IsWithin : (tenant now : ℕ) → IsWithin most (revoke_all_tokens tenant now s).1
  unfolding revoke_all_tokens
  revoke_all-IsWithin tenant now = record {
    distinct = revoke_usable-Distinct tenant now s.tokens p.distinct;
    room = λ other. omega (arith, revoke_usable-count tenant now other s.tokens, p.room other);
  }
