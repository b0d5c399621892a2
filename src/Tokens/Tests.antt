-- ===== src/Tokens/Tests.antt =====
-- One project with one token; in place of SHA-256 stands a concrete function.
use dep_customs.Prelude.{
  String, ◌≡◌, ◌⊎◌, ◌≢◌, refl, true, false, [], ◌∷◌, some, none, str_eq, In, inl, inr, arith,
  eq_iff,
}
use dep_customs.Access.Projects.{ProjectRow, ErrorResponse, ok_result, error_result}
use dep_customs.Tokens.{
  TokenRow, NewToken, TokenAction, revoke, rotate, can_manage_existing_token, create_project_token,
  revoke_project_token, rotate_project_token, new_row, VerifiedProxyContext,
  load_authorized_project_token,
}
use dep_customs.Tokens.Lifecycle.{IsFresh, done}
use dep_customs.Tokens.Authorized.{
  IsUsable, AreUnique, next_row, load_authorized_project_token_accepted, create_project_token-load,
  revoke_project_token_final, rotate_project_token_replaces,
}
use dep_customs.Tokens.Routes.{AuthContext, IsPermitted, revoke_route, revoke_route-IsPermitted}

abbrev hash : String → String
hash token = String.◌∷◌ "#" token

abbrev website : ProjectRow
website = record { id = "p1"; tenant_id = "t1"; name = "website"; is_current = true }

abbrev proxy : VerifiedProxyContext
proxy = record { proxy_id = "x1"; tenant_id = "t1"; tenant_scope = none }

abbrev first_token : NewToken
first_token = record {
  token = "abcdefgh";
  id = "k1";
  project_id = "p1";
  tenant_id = "t1";
  user_id = "u1";
  name = "ci";
  expires_at = some 100;
  now = 5;
}

abbrev second_token : NewToken
second_token = record first_token { token = "stuvwxyz"; id = "k2"; now = 7 }

abbrev stored : TokenRow
stored = new_row hash first_token "u1"

abbrev auth : AuthContext
auth = record {
  tenant_id = "t1";
  user_id = "u1";
  role = "admin";
  projects = website ∷ [];
  members = [];
}

abbrev revoked : TokenRow
revoked = record stored { expires_at = some 6; revoked_at = some 6; revoked_by_user_id = some "u1" }

usable : IsUsable (website ∷ []) proxy 8 stored
unfolding new_row dep_customs.Tokens.proxy_allows_tenant
usable = record { current = refl; tenant = refl; unrevoked = refl; unexpired = refl }

load_authorized_project_token_accepted_example :
    In stored (stored ∷ [])
    × (stored.token_hash ≡ "#abcdefgh")
    × IsUsable (website ∷ []) proxy 8 stored
unfolding load_authorized_project_token dep_customs.Tokens.has_hash new_row
    dep_customs.Tokens.proxy_allows_tenant
load_authorized_project_token_accepted_example =
    load_authorized_project_token_accepted hash (website ∷ []) (stored ∷ []) proxy "abcdefgh" 8
      stored refl

create_project_token-load_example :
    load_authorized_project_token hash
      (website ∷ [])
      (create_project_token hash first_token []).0
      proxy
      "abcdefgh"
      8
    ≡ some stored
create_project_token-load_example =
    create_project_token-load hash (website ∷ []) [] first_token proxy 8 (λ r i. absurd i) usable

unique : AreUnique (stored ∷ [])
unique r s (inl p) (inl q) e = cc (p, q)
unique r s (inl p) (inr j) e = absurd j
unique r s (inr i) j e = absurd i

revoke_project_token_final_example :
    load_authorized_project_token hash
      (website ∷ [])
      (revoke_project_token "k1" "p1" "u1" 6 (stored ∷ [])).0
      proxy
      "abcdefgh"
      8
    ≡ none
unfolding dep_customs.Tokens.is_token new_row
revoke_project_token_final_example =
    revoke_project_token_final hash (website ∷ []) (stored ∷ [])
      (revoke_project_token "k1" "p1" "u1" 6 (stored ∷ [])).0 stored "k1" "p1" "u1" 6 proxy
      "abcdefgh" 8 unique (inl refl) refl refl
      (done (revoke_project_token "k1" "p1" "u1" 6 (stored ∷ [])).0)

text_ne : (s t : String) → str_eq s t ≡ false → s ≢ t
text_ne s t h e = ground (arith, eq_iff s t, h, e)

fresh : IsFresh "#stuvwxyz" (stored ∷ [])
unfolding new_row
fresh r (inl q) e = text_ne "#abcdefgh" "#stuvwxyz" refl (cc (q, e))
fresh r (inr i) e = absurd i

rotate_project_token_replaces_example :
    (load_authorized_project_token hash
        (website ∷ [])
        (rotate_project_token hash "k1" second_token stored (stored ∷ [])).0
        proxy
        "stuvwxyz"
        8
      ≡ some (next_row hash second_token stored))
    × (load_authorized_project_token hash
          (website ∷ [])
          (rotate_project_token hash "k1" second_token stored (stored ∷ [])).0
          proxy
          "abcdefgh"
          8
        ≡ none)
unfolding new_row dep_customs.Tokens.proxy_allows_tenant
rotate_project_token_replaces_example =
    rotate_project_token_replaces hash (website ∷ []) (stored ∷ [])
      (rotate_project_token hash "k1" second_token stored (stored ∷ [])).0 stored second_token
      "abcdefgh" proxy proxy 8 8 unique (inl refl) refl refl fresh (text_ne "k2" "k1" refl)
      (record { current = refl; tenant = refl; unrevoked = refl; unexpired = refl })
      (done (rotate_project_token hash "k1" second_token stored (stored ∷ [])).0)

revoke_route-IsPermitted_example :
    ((e : ErrorResponse) × (revoke_route auth "p1" "k1" 6 (stored ∷ [])
        ≡ (stored ∷ [], error_result e)))
    ⊎ ((row : TokenRow) × IsPermitted auth revoke "p1" "k1" (stored ∷ []) row
        × ((revoke_route auth "p1" "k1" 6 (stored ∷ [])).0
            ≡ (revoke_project_token "k1" "p1" "u1" 6 (stored ∷ [])).0)
        × ((id : String) × ((revoke_route auth "p1" "k1" 6 (stored ∷ [])).1 ≡ ok_result id)))
revoke_route-IsPermitted_example = revoke_route-IsPermitted auth "p1" "k1" 6 (stored ∷ [])
