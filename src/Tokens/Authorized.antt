-- ===== src/Tokens/Authorized.antt =====
-- Which tokens the check service accepts, before and after the operations on them.
use mathlib.Core.List.{map-append}
use dep_customs.Prelude.{
  ℕ, String, ◌≡◌, ◌≢◌, refl, sym, ap, ◌∙◌, subst, true, false, ◌&&◌, List, [], ◌∷◌, ◌++◌, map, none,
  some, inl, inr, arith, str_eq, eq_iff, eq_refl, is_some, find, any, In, In-map, map-In, find-In,
  Bool-cases, Option-cases,
}
use dep_customs.Access.Projects.{ProjectRow}
use dep_customs.Tokens.{
  TokenRow, NewToken, is_token, is_unrevoked_token, revoke_row, revoke_project_token, new_row,
  create_project_token, rotate_project_token, VerifiedProxyContext, proxy_allows_tenant,
  is_unexpired, has_hash, accept, load_authorized_project_token,
}
use dep_customs.Tokens.Lifecycle.{
  IsFresh, Steps, IsDead, Steps-IsDead, append-IsDead, revoke_row-token_hash,
}

-- What the check service wants of a row, in a proxy's request at a time.
pub record IsUsable (projects : List ProjectRow) (proxy : VerifiedProxyContext) (now : ℕ)
    (r : TokenRow) : Type 0 where
  pub current : any (λ p. str_eq r.project_id p.id && p.is_current) projects ≡ true
  pub tenant : proxy_allows_tenant proxy r.tenant_id ≡ true
  pub unrevoked : is_some r.revoked_at ≡ false
  pub unexpired : is_unexpired now r.expires_at ≡ true

-- No two rows have the same hash, as the unique index on token_hash has it.
abbrev pub AreUnique : List TokenRow → Type 0
AreUnique tokens =
    (r s : TokenRow) → In r tokens → In s tokens → r.token_hash ≡ s.token_hash → r ≡ s

accept-IsUsable :
    (projects : List ProjectRow) (proxy : VerifiedProxyContext) (now : ℕ) (hash : String)
    (r s : TokenRow)
    → has_hash projects hash s ≡ true
    → accept proxy now (some s) ≡ some r
    → (s ≡ r) × (s.token_hash ≡ hash) × IsUsable projects proxy now s
unfolding has_hash
accept-IsUsable projects proxy now hash r s h k = (
  ground (arith, k),
  ground (arith, h, eq_iff s.token_hash hash),
  record {
    current = ground (arith, h);
    tenant = ground (arith, k);
    unrevoked = ground (arith, k);
    unexpired = ground (arith, k);
  },
)

has_hash-ne :
    (projects : List ProjectRow) (hash : String) (t : TokenRow)
    → t.token_hash ≢ hash
    → has_hash projects hash t ≡ false
unfolding has_hash
has_hash-ne projects hash t ne = ground (arith, ne, eq_iff t.token_hash hash)

has_hash-eq :
    (projects : List ProjectRow) (row : TokenRow) (proxy : VerifiedProxyContext) (now : ℕ)
    (hash : String)
    → row.token_hash ≡ hash
    → IsUsable projects proxy now row
    → has_hash projects hash row ≡ true
unfolding has_hash
has_hash-eq projects row proxy now hash e u = rw (e, eq_refl, u.current) refl

module _ (hash_project_token : String → String) (projects : List ProjectRow) where
  -- An accepted token is one of the table, under the hash of what was sent; its project is current,
  -- the proxy may speak for its tenant, and it is neither revoked nor expired.
  pub load_authorized_project_token_accepted :
      (tokens : List TokenRow) (proxy : VerifiedProxyContext) (token : String) (now : ℕ)
      (r : TokenRow)
      → load_authorized_project_token hash_project_token projects tokens proxy token now ≡ some r
      → In r tokens × (r.token_hash ≡ hash_project_token token) × IsUsable projects proxy now r
  unfolding load_authorized_project_token
  load_authorized_project_token_accepted tokens proxy token now r h =
      elim (Option-cases (find (has_hash projects (hash_project_token token)) tokens)) [
        | inl e ↦ let k = rw e at h in cc k
        | inr (s, e) ↦
            let (i, t) = find-In (has_hash projects (hash_project_token token)) s tokens e in
            let (same, hashed, usable) =
              accept-IsUsable projects proxy now (hash_project_token token) r s t (rw e at h) in
            rw (← same) (i, hashed, usable)
      ]

  dead-none :
      (tokens : List TokenRow) (proxy : VerifiedProxyContext) (token : String) (now : ℕ)
      → IsDead (hash_project_token token) tokens
      → load_authorized_project_token hash_project_token projects tokens proxy token now ≡ none
  dead-none tokens proxy token now d =
      elim (Option-cases
        (load_authorized_project_token hash_project_token projects tokens proxy token now)) [
          | inl e ↦ e
          | inr (r, e) ↦
              let (i, hashed, usable) =
                load_authorized_project_token_accepted tokens proxy token now r e in
              absurd (cc (d.revoked r i hashed, usable.unrevoked))
        ]

  find-fresh :
      (hash : String) (tokens : List TokenRow) (row : TokenRow)
      → IsFresh hash tokens
      → has_hash projects hash row ≡ true
      → find (has_hash projects hash) (tokens ++ row ∷ []) ≡ some row
  find-fresh hash [] row fresh h = rw h refl
  find-fresh hash (t ∷ tokens) row fresh h =
      rw (has_hash-ne projects hash t (fresh t (inl refl)))
        (find-fresh hash tokens row (λ r i. fresh r (inr i)) h)

  appended :
      (tokens : List TokenRow) (row : TokenRow) (proxy : VerifiedProxyContext) (token : String)
      (now : ℕ)
      → IsFresh (hash_project_token token) tokens
      → row.token_hash ≡ hash_project_token token
      → IsUsable projects proxy now row
      → load_authorized_project_token hash_project_token projects
          (tokens ++ row ∷ [])
          proxy
          token
          now
        ≡ some row
  unfolding load_authorized_project_token
  appended tokens row proxy token now fresh e u =
      rw
        (find-fresh (hash_project_token token) tokens row fresh
          (has_hash-eq projects row proxy now (hash_project_token token) e u))
        (rw (u.tenant, u.unrevoked, u.unexpired) refl)

  -- A token that is created is accepted at once, for the row that was stored, if its project is
  -- current, the proxy may speak for the tenant and the expiry, if any, is not reached.
  pub create_project_token-load :
      (tokens : List TokenRow) (new : NewToken) (proxy : VerifiedProxyContext) (now : ℕ)
      → IsFresh (hash_project_token new.token) tokens
      → IsUsable projects proxy now (new_row hash_project_token new new.user_id)
      → load_authorized_project_token hash_project_token projects
          (create_project_token hash_project_token new tokens).0
          proxy
          new.token
          now
        ≡ some (new_row hash_project_token new new.user_id)
  unfolding create_project_token new_row
  create_project_token-load tokens new proxy now fresh u =
      appended tokens _ proxy new.token now fresh refl u

revoke_row-dead :
    (token_id project_id user_id : String) (now : ℕ) (r : TokenRow)
    → is_token token_id project_id r ≡ true
    → is_some (revoke_row token_id project_id user_id now r).revoked_at ≡ true
unfolding revoke_row is_unrevoked_token
revoke_row-dead token_id project_id user_id now r h = elim (Bool-cases (is_some r.revoked_at)) [
  | inl e ↦ rw (h, e) e
  | inr e ↦ rw (h, e) refl
]

revoked-IsDead :
    (token_id project_id user_id : String) (now : ℕ) (row : TokenRow) (tokens : List TokenRow)
    → AreUnique tokens
    → In row tokens
    → is_token token_id project_id row ≡ true
    → IsDead row.token_hash (map (revoke_row token_id project_id user_id now) tokens)
revoked-IsDead token_id project_id user_id now row tokens unique i h =
    let f = revoke_row token_id project_id user_id now in
    record {
      row = f row;
      stored = map-In f row tokens i;
      hashed = revoke_row-token_hash token_id project_id user_id now row;
      revoked = λ r j e.
          let (s, k, q) = In-map f r tokens j in
          let same = unique s row k i (
            sym (revoke_row-token_hash token_id project_id user_id now s)
            ∙ ap (λ x. x.token_hash) (sym q)
            ∙ e) in
          rw (q, same) (revoke_row-dead token_id project_id user_id now row h);
    }

module _ (hash_project_token : String → String) (projects : List ProjectRow) where
  -- Once a token has been revoked it is never accepted again, from any proxy, at any time and after
  -- any further creations, revocations and rotations.
  pub revoke_project_token_final :
      (tokens later : List TokenRow) (row : TokenRow) (token_id project_id user_id : String)
      (at : ℕ) (proxy : VerifiedProxyContext) (token : String) (now : ℕ)
      → AreUnique tokens
      → In row tokens
      → is_token token_id project_id row ≡ true
      → row.token_hash ≡ hash_project_token token
      → Steps hash_project_token
          (revoke_project_token token_id project_id user_id at tokens).0
          later
      → load_authorized_project_token hash_project_token projects later proxy token now ≡ none
  unfolding revoke_project_token
  revoke_project_token_final tokens later row token_id project_id user_id at proxy token now unique
        i h e steps =
      dead-none hash_project_token projects later proxy token now (
        subst (λ x. IsDead x later) e
          (Steps-IsDead hash_project_token _ later row.token_hash steps
            (revoked-IsDead token_id project_id user_id at row tokens unique i h)))

-- the row of the next token
abbrev pub next_row : (String → String) → NewToken → TokenRow → TokenRow
next_row hash_project_token new existing =
    new_row hash_project_token
      (record new { name = existing.name; expires_at = existing.expires_at }) existing.owner_user_id

revoke_row-other :
    (token_id project_id user_id : String) (now : ℕ) (r : TokenRow)
    → r.id ≢ token_id
    → revoke_row token_id project_id user_id now r ≡ r
unfolding revoke_row is_unrevoked_token is_token
revoke_row-other token_id project_id user_id now r ne = ground (arith, ne, eq_iff r.id token_id)

map-IsFresh :
    (token_id project_id user_id : String) (now : ℕ) (hash : String) (tokens : List TokenRow)
    → IsFresh hash tokens
    → IsFresh hash (map (revoke_row token_id project_id user_id now) tokens)
map-IsFresh token_id project_id user_id now hash tokens fresh r i e =
    let (s, j, q) = In-map (revoke_row token_id project_id user_id now) r tokens i in
    fresh s j (
      sym (revoke_row-token_hash token_id project_id user_id now s)
      ∙ ap (λ x. x.token_hash) (sym q)
      ∙ e)

module _ (hash_project_token : String → String) (projects : List ProjectRow) where
  -- A rotation puts a token in the place of another: the new one is accepted at once, for a row of
  -- the same owner, name and expiry, and the old one is never accepted again, at any time and after
  -- any further operations. The ids and hashes are unique, as their indices have it.
  pub rotate_project_token_replaces :
      (tokens later : List TokenRow) (existing : TokenRow) (new : NewToken) (token : String)
      (proxy other : VerifiedProxyContext) (now at : ℕ)
      → AreUnique tokens
      → In existing tokens
      → existing.project_id ≡ new.project_id
      → existing.token_hash ≡ hash_project_token token
      → IsFresh (hash_project_token new.token) tokens
      → new.id ≢ existing.id
      → IsUsable projects proxy now (next_row hash_project_token new existing)
      → Steps hash_project_token
          (rotate_project_token hash_project_token existing.id new existing tokens).0
          later
      → (load_authorized_project_token hash_project_token projects
            (rotate_project_token hash_project_token existing.id new existing tokens).0
            proxy
            new.token
            now
          ≡ some (next_row hash_project_token new existing))
        × (load_authorized_project_token hash_project_token projects later other token at ≡ none)
  unfolding rotate_project_token is_token new_row
  rotate_project_token_replaces tokens later existing new token proxy other now at unique i p e
        fresh ne u steps =
      let next = next_row hash_project_token new existing in
      let f = revoke_row existing.id new.project_id new.user_id new.now in
      let table : map f (tokens ++ next ∷ []) ≡ map f tokens ++ next ∷ [] =
        map-append f tokens (next ∷ [])
        ∙ ap (λ x. map f tokens ++ x ∷ [])
            (revoke_row-other existing.id new.project_id new.user_id new.now next ne) in
      let own : is_token existing.id new.project_id existing ≡ true =
        rw (eq_refl, p, eq_refl) refl in
      (
        rw table (
            appended hash_project_token projects (map f tokens) next proxy new.token now
              (map-IsFresh existing.id new.project_id new.user_id new.now _ tokens fresh) refl u),
        dead-none hash_project_token projects later other token at (
            subst (λ x. IsDead x later) e
              (Steps-IsDead hash_project_token _ later existing.token_hash steps (
                subst (IsDead existing.token_hash) (sym table) (
                  append-IsDead existing.token_hash (map f tokens) next
                    (map-IsFresh existing.id new.project_id new.user_id new.now _ tokens fresh)
                    (revoked-IsDead existing.id new.project_id new.user_id new.now existing tokens
                      unique i own))))),
      )
