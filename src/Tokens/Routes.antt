-- ===== src/Tokens/Routes.antt =====
-- features/tokens/routes.ts: the handlers, which resolve the project, check the role and then apply
-- the operation. Their first two checks, on the project and on the access to it, are answered as
-- `resolveProjectWithAccess` answers them when denials are hidden.
use dep_customs.Prelude.{
  ℕ, String, ◌≡◌, ◌⊎◌, refl, Bool, true, false, ◌||◌, List, [], ◌∷◌, Option, none, some, inl, inr,
  arith, str_eq, if◌then◌else◌, is_some, find, In, find-In, Bool-cases, Option-cases,
}
use dep_customs.Access.Projects.{
  HttpResult-cases, ProjectMemberRow, ProjectRow, ErrorResponse, HttpResult, ok_result,
  error_result, resolve_project_with_access,
}
use dep_customs.Tokens.{
  TokenRow, TokenAction, revoke, rotate, NewToken, IssuedToken, can_create_project_token,
  can_read_project_tokens, can_manage_existing_token, create_project_token, list_project_tokens,
  is_token, load_existing_project_token, is_unrevoked_token, revoke_project_token,
  rotate_project_token,
}

-- the caller, and the tables that the handlers read
pub record AuthContext : Type 0 where
  pub tenant_id : String
  pub user_id : String
  pub role : String
  pub projects : List ProjectRow
  pub members : List ProjectMemberRow

abbrev pub visible_project : AuthContext → String → HttpResult ProjectRow
visible_project auth project_id =
    resolve_project_with_access auth.projects auth.members project_id auth.tenant_id auth.user_id
      auth.role true

abbrev forbidden : String → ErrorResponse
forbidden message = record { status = 403; code = "FORBIDDEN"; message = message; detail = none }

abbrev token_not_found : ErrorResponse
token_not_found = record {
  status = 404;
  code = "NOT_FOUND";
  message = "Token not found or already revoked";
  detail = none;
}

-- the token that a request may act on
abbrev manageable : AuthContext → TokenAction → Option TokenRow → HttpResult TokenRow
manageable auth action none = error_result token_not_found
manageable auth action (some row) =
    if is_some row.revoked_at
    then error_result token_not_found
    else if can_manage_existing_token auth.role action (str_eq row.owner_user_id auth.user_id)
    then ok_result row
    else error_result (forbidden "Access denied to this token")

unfoldable pub manageable_token :
    AuthContext → TokenAction → (project_id token_id : String) → List TokenRow → HttpResult TokenRow
manageable_token auth action project_id token_id tokens = elim (visible_project auth project_id) [
  | error_result e ↦ error_result e
  | ok_result _ ↦ manageable auth action (load_existing_project_token token_id project_id tokens)
]

-- the caller is the user of the operation, in the caller's tenant
abbrev pub by_caller : AuthContext → NewToken → NewToken
by_caller auth new = record new { tenant_id = auth.tenant_id; user_id = auth.user_id }

unfoldable pub create_route :
    (String → String)
    → AuthContext
    → NewToken
    → List TokenRow
    → List TokenRow × HttpResult IssuedToken
create_route hash_project_token auth new tokens = elim (visible_project auth new.project_id) [
  | error_result e ↦ (tokens, error_result e)
  | ok_result _ ↦
      let (next, issued) = create_project_token hash_project_token (by_caller auth new) tokens in
      if can_create_project_token auth.role
      then (next, ok_result issued)
      else (tokens, error_result (forbidden "Access denied to create project tokens"))
]

unfoldable pub list_route : AuthContext → String → List TokenRow → HttpResult (List TokenRow)
list_route auth project_id tokens = elim (visible_project auth project_id) [
  | error_result e ↦ error_result e
  | ok_result _ ↦
      let reads = can_read_project_tokens auth.role in
      if reads.can_read_all || reads.can_read_own
      then ok_result (list_project_tokens project_id auth.user_id reads.can_read_all tokens)
      else error_result (forbidden "Access denied to project tokens")
]

abbrev revoked_answer : Option String → HttpResult String
revoked_answer none = error_result token_not_found
revoked_answer (some id) = ok_result id

unfoldable pub revoke_route :
    AuthContext
    → (project_id token_id : String) → ℕ
    → List TokenRow
    → List TokenRow × HttpResult String
revoke_route auth project_id token_id now tokens =
    elim (manageable_token auth revoke project_id token_id tokens) [
      | error_result e ↦ (tokens, error_result e)
      | ok_result _ ↦
          let (next, id) = revoke_project_token token_id project_id auth.user_id now tokens in
          (next, revoked_answer id)
    ]

unfoldable pub rotate_route :
    (String → String)
    → AuthContext
    → (token_id : String) → NewToken
    → List TokenRow
    → List TokenRow × HttpResult IssuedToken
rotate_route hash_project_token auth token_id new tokens =
    elim (manageable_token auth rotate new.project_id token_id tokens) [
      | error_result e ↦ (tokens, error_result e)
      | ok_result existing ↦
          let (next, issued) =
            rotate_project_token hash_project_token token_id (by_caller auth new) existing tokens in
          (next, ok_result issued)
    ]

-- The caller sees the project, and may act on the token, which is there and not revoked.
pub record IsPermitted (auth : AuthContext) (action : TokenAction) (project_id token_id : String)
    (tokens : List TokenRow) (row : TokenRow) : Type 0 where
  pub project : ProjectRow
  pub visible : visible_project auth project_id ≡ ok_result project
  pub stored : In row tokens
  pub same : is_token token_id project_id row ≡ true
  pub unrevoked : is_some row.revoked_at ≡ false
  pub allowed :
      can_manage_existing_token auth.role action (str_eq row.owner_user_id auth.user_id) ≡ true

manageable_token-IsPermitted :
    (auth : AuthContext) (action : TokenAction) (project_id token_id : String)
    (tokens : List TokenRow) (row : TokenRow)
    → manageable_token auth action project_id token_id tokens ≡ ok_result row
    → IsPermitted auth action project_id token_id tokens row
unfolding manageable_token load_existing_project_token
manageable_token-IsPermitted auth action project_id token_id tokens row h =
    elim (HttpResult-cases (visible_project auth project_id)) [
      | inl (e, q) ↦ let k = rw (q, manageable_token) at h in cc k
      | inr (p, q) ↦ elim (Option-cases (find (is_token token_id project_id) tokens)) [
        | inl n ↦ let k = rw (q, manageable_token, n) at h in cc k
        | inr (r, s) ↦
            let k = rw (q, manageable_token, s) at h in
            let (i, t) = find-In (is_token token_id project_id) r tokens s in
            let same : r ≡ row = ground (arith, k) in
            rw (← same) (record {
              project = p;
              visible = q;
              stored = i;
              same = t;
              unrevoked = ground (arith, k);
              allowed = ground (arith, k);
            })
      ]
    ]

-- A rotation is answered by an error and changes nothing, or the caller sees the project and may
-- rotate the token, which is there and not revoked, and the table and the answer are those of the
-- rotation.
rotate_route-IsPermitted :
    (hash_project_token : String → String) (auth : AuthContext) (token_id : String) (new : NewToken)
    (tokens : List TokenRow)
    → ((e : ErrorResponse) × (rotate_route hash_project_token auth token_id new tokens
          ≡ (tokens, error_result e)))
      ⊎ ((row : TokenRow) × IsPermitted auth rotate new.project_id token_id tokens row
          × ((rotate_route hash_project_token auth token_id new tokens).0
              ≡ (rotate_project_token hash_project_token token_id
                  (by_caller auth new)
                  row
                  tokens).0)
          × ((rotate_route hash_project_token auth token_id new tokens).1
              ≡ ok_result
                  (rotate_project_token hash_project_token token_id
                    (by_caller auth new)
                    row
                    tokens).1))
unfolding rotate_route
rotate_route-IsPermitted hash_project_token auth token_id new tokens =
    elim (HttpResult-cases (manageable_token auth rotate new.project_id token_id tokens)) [
      | inl (e, q) ↦ inl (e, rw (q, rotate_route) refl)
      | inr (row, q) ↦ inr (
        row,
        manageable_token-IsPermitted auth rotate new.project_id token_id tokens row q,
        rw (q, rotate_route) refl,
        rw (q, rotate_route) refl,
      )
    ]

find-some :
    {A : Type 0} (p : A → Bool) (x : A) (xs : List A)
    → In x xs
    → p x ≡ true
    → (y : A) × (find p xs ≡ some y)
find-some p x [] i h = absurd i
find-some p x (y ∷ ys) i h = elim (Bool-cases (p y)) [
  | inl e ↦ (y, rw e refl)
  | inr e ↦ elim i [
    | inl q ↦ let k : p x ≡ false = rw q e in absurd (cc (h, k))
    | inr j ↦ let (z, f) = find-some p x ys j h in (z, rw e f)
  ]
]

revoke_project_token-some :
    (token_id project_id user_id : String) (now : ℕ) (row : TokenRow) (tokens : List TokenRow)
    → In row tokens
    → is_token token_id project_id row ≡ true
    → is_some row.revoked_at ≡ false
    → (id : String) × ((revoke_project_token token_id project_id user_id now tokens).1 ≡ some id)
unfolding revoke_project_token is_unrevoked_token
revoke_project_token-some token_id project_id user_id now row tokens i h k =
    let (r, e) = find-some (is_unrevoked_token token_id project_id) row tokens i (rw (h, k) refl) in
    (r.id, rw e refl)

-- A revocation is answered by an error and changes nothing, or the caller sees the project and may
-- revoke the token, which is there and not revoked, the table is that of the revocation and the
-- answer is an id.
pub revoke_route-IsPermitted :
    (auth : AuthContext) (project_id token_id : String) (now : ℕ) (tokens : List TokenRow)
    → ((e : ErrorResponse) × (revoke_route auth project_id token_id now tokens
          ≡ (tokens, error_result e)))
      ⊎ ((row : TokenRow) × IsPermitted auth revoke project_id token_id tokens row
          × ((revoke_route auth project_id token_id now tokens).0
              ≡ (revoke_project_token token_id project_id auth.user_id now tokens).0)
          × ((id : String) × ((revoke_route auth project_id token_id now tokens).1 ≡ ok_result id)))
unfolding revoke_route
revoke_route-IsPermitted auth project_id token_id now tokens =
    elim (HttpResult-cases (manageable_token auth revoke project_id token_id tokens)) [
      | inl (e, q) ↦ inl (e, rw (q, revoke_route) refl)
      | inr (row, q) ↦
          let permitted =
            manageable_token-IsPermitted auth revoke project_id token_id tokens row q in
          let (id, s) =
            revoke_project_token-some token_id project_id auth.user_id now row tokens
              permitted.stored permitted.same permitted.unrevoked in
          inr (row, permitted, rw (q, revoke_route) refl, (id, rw (q, revoke_route, s) refl))
    ]
