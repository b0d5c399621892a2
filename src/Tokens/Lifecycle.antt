-- ===== src/Tokens/Lifecycle.antt =====
-- The token table as a state machine: what the operations of features/tokens/service.ts can and
-- cannot do to the rows that are there.
use dep_customs.Prelude.{
  ℕ, String, ◌≡◌, ◌≢◌, refl, sym, ap, ◌∙◌, subst, true, List, [], ◌∷◌, ◌++◌, map, inl, inr, is_some,
  In, In-append, In-append_left, In-map, map-In, Bool-cases,
}
use dep_customs.Tokens.{
  TokenRow, NewToken, is_token, is_unrevoked_token, revoke_row, revoke_project_token, new_row,
  create_project_token, rotate_project_token,
}

-- No row has the hash, as the unique index on token_hash wants of an insert.
abbrev pub IsFresh : String → List TokenRow → Type 0
IsFresh hash tokens = (r : TokenRow) → In r tokens → r.token_hash ≢ hash

module _ (hash_project_token : String → String) where
  -- One operation on the table.
  pub data Step : List TokenRow → List TokenRow → Type 0 where
    create :
        (tokens : List TokenRow) (new : NewToken)
        → IsFresh (hash_project_token new.token) tokens
        → Step tokens (create_project_token hash_project_token new tokens).0
    revoke :
        (tokens : List TokenRow) (token_id project_id user_id : String) (now : ℕ)
        → Step tokens (revoke_project_token token_id project_id user_id now tokens).0
    rotate :
        (tokens : List TokenRow) (token_id : String) (new : NewToken) (existing : TokenRow)
        → IsFresh (hash_project_token new.token) tokens
        → Step tokens (rotate_project_token hash_project_token token_id new existing tokens).0

  -- Any number of operations.
  pub data Steps : List TokenRow → List TokenRow → Type 0 where
    done : (tokens : List TokenRow) → Steps tokens tokens
    more : (s t u : List TokenRow) → Step s t → Steps t u → Steps s u

-- A row of the hash is in the table, and every such row is revoked.
pub record IsDead (hash : String) (tokens : List TokenRow) : Type 0 where
  pub row : TokenRow
  pub stored : In row tokens
  pub hashed : row.token_hash ≡ hash
  pub revoked : (r : TokenRow) → In r tokens → r.token_hash ≡ hash → is_some r.revoked_at ≡ true

pub revoke_row-revoked :
    (token_id project_id user_id : String) (now : ℕ) (r : TokenRow)
    → is_some r.revoked_at ≡ true
    → revoke_row token_id project_id user_id now r ≡ r
unfolding revoke_row is_unrevoked_token
revoke_row-revoked token_id project_id user_id now r h =
    elim (Bool-cases (is_token token_id project_id r)) [
      | inl e ↦ rw (e, h) refl
      | inr e ↦ rw e refl
    ]

pub revoke_row-token_hash :
    (token_id project_id user_id : String) (now : ℕ) (r : TokenRow)
    → (revoke_row token_id project_id user_id now r).token_hash ≡ r.token_hash
unfolding revoke_row
revoke_row-token_hash token_id project_id user_id now r =
    elim (Bool-cases (is_unrevoked_token token_id project_id r)) [
      | inl e ↦ rw e refl
      | inr e ↦ rw e refl
    ]

module _ (token_id project_id user_id : String) (now : ℕ) where
  -- the update of one table
  abbrev revoke_all : List TokenRow → List TokenRow
  revoke_all = map (revoke_row token_id project_id user_id now)

  In-revoke_all :
      (r : TokenRow) (tokens : List TokenRow)
      → In r tokens
      → is_some r.revoked_at ≡ true
      → In r (revoke_all tokens)
  In-revoke_all r tokens i h =
      subst (λ x. In x (revoke_all tokens)) (revoke_row-revoked token_id project_id user_id now r h)
        (map-In (revoke_row token_id project_id user_id now) r tokens i)

  revoke_all-IsDead :
      (hash : String) (tokens : List TokenRow)
      → IsDead hash tokens
      → IsDead hash (revoke_all tokens)
  revoke_all-IsDead hash tokens d = record {
    row = d.row;
    stored = In-revoke_all d.row tokens d.stored (d.revoked d.row d.stored d.hashed);
    hashed = d.hashed;
    revoked = λ r i e.
        let (s, j, q) = In-map (revoke_row token_id project_id user_id now) r tokens i in
        let h = d.revoked s j (
          sym (revoke_row-token_hash token_id project_id user_id now s)
          ∙ ap (λ x. x.token_hash) (sym q)
          ∙ e) in
        rw (q, revoke_row-revoked token_id project_id user_id now s h) h;
  }

pub append-IsDead :
    (hash : String) (tokens : List TokenRow) (row : TokenRow)
    → IsFresh row.token_hash tokens
    → IsDead hash tokens
    → IsDead hash (tokens ++ row ∷ [])
append-IsDead hash tokens row fresh d = record {
  row = d.row;
  stored = In-append_left d.row tokens (row ∷ []) d.stored;
  hashed = d.hashed;
  revoked = λ r i e. elim (In-append r tokens (row ∷ []) i) [
    | inl j ↦ d.revoked r j e
    | inr (inl q) ↦ absurd (fresh d.row d.stored (d.hashed ∙ sym e ∙ ap (λ x. x.token_hash) q))
    | inr (inr j) ↦ absurd j
  ];
}

module _ (hash_project_token : String → String) where
  Step-In :
      (s t : List TokenRow) (r : TokenRow)
      → Step hash_project_token s t
      → In r s
      → is_some r.revoked_at ≡ true
      → In r t
  unfolding create_project_token revoke_project_token rotate_project_token
  Step-In _ _ r (create tokens new fresh) i h = In-append_left r tokens _ i
  Step-In _ _ r (revoke tokens token_id project_id user_id now) i h =
      In-revoke_all token_id project_id user_id now r tokens i h
  Step-In _ _ r (rotate tokens token_id new existing fresh) i h =
      In-revoke_all token_id new.project_id new.user_id new.now r _ (In-append_left r tokens _ i) h

  Step-IsDead :
      (s t : List TokenRow) (hash : String)
      → Step hash_project_token s t
      → IsDead hash s
      → IsDead hash t
  unfolding create_project_token revoke_project_token rotate_project_token new_row
  Step-IsDead _ _ hash (create tokens new fresh) d = append-IsDead hash tokens _ fresh d
  Step-IsDead _ _ hash (revoke tokens token_id project_id user_id now) d =
      revoke_all-IsDead token_id project_id user_id now hash tokens d
  Step-IsDead _ _ hash (rotate tokens token_id new existing fresh) d =
      revoke_all-IsDead token_id new.project_id new.user_id new.now hash _
        (append-IsDead hash tokens _ fresh d)

  -- A revoked row stays in the table as it is, the time and the user of its revocation included,
  -- whatever is created, revoked or rotated later.
  Steps-revoked :
      (s t : List TokenRow) (r : TokenRow)
      → Steps hash_project_token s t
      → In r s
      → is_some r.revoked_at ≡ true
      → In r t
  Steps-revoked _ _ r (done tokens) i h = i
  Steps-revoked _ _ r (more s t u step rest) i h =
      Steps-revoked t u r rest (Step-In s t r step i h) h

  pub Steps-IsDead :
      (s t : List TokenRow) (hash : String)
      → Steps hash_project_token s t
      → IsDead hash s
      → IsDead hash t
  Steps-IsDead _ _ hash (done tokens) d = d
  Steps-IsDead _ _ hash (more s t u step rest) d =
      Steps-IsDead t u hash rest (Step-IsDead s t hash step d)
