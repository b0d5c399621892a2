-- ===== src/Tenants/Users.antt =====
-- auth/admin-service.ts: users of the auth service, which is outside; its replies are arguments.
pub mod Pages
use dep_customs.Prelude.{
  ℕ, zero, suc, String, Bool, false, List, [], ◌∷◌, ◌++◌, Option, none, some, str_eq, trim, find,
  length, leb, ltb, ◌==◌, if◌then◌else◌,
}

pub record AuthAdminUser : Type 0 where
  pub id : String
  pub email : Option String
  pub email_confirmed_at : Option String
  pub provider : Option String

pub data AuthFailure : Type 0 where
  misconfigured other : AuthFailure
  upstream : (status : ℕ) → AuthFailure

-- what a call of the service returns, or how it fails
pub data Reply (A : Type 0) : Type 0 where
  replied : A → Reply A
  failed : AuthFailure → Reply A

pub record Page (A : Type 0) : Type 0 where
  pub items : List A
  pub total : Option ℕ

abbrev pub is_complete : Option ℕ → ℕ → Bool
is_complete none count = false
is_complete (some total) count = leb total count

-- The loop over the pages that `fetch` gives; none says that the rounds ran out.
unfoldable pub request_pages :
    {A : Type 0}
    → (fetch : ℕ → Reply (Page A)) → (page_size rounds page : ℕ) → List A
    → Option (Reply (List A))
request_pages fetch page_size zero page items = none
request_pages fetch page_size (suc rounds) page items = elim (fetch page) [
  | failed e ↦ some (failed e)
  | replied p ↦
      let all = items ++ p.items in
      let more = request_pages fetch page_size rounds (suc page) all in
      if is_complete p.total (length all)
      then some (replied all)
      else if ltb (length p.items) page_size
      then some (replied all)
      else more
]

unfoldable pub request_paginated :
    {A : Type 0} → (fetch : ℕ → Reply (Page A)) → (page_size rounds : ℕ) → Option (Reply (List A))
request_paginated fetch page_size rounds = request_pages fetch page_size rounds 1 []

abbrev pub has_email : (to_lower_case : String → String) → String → AuthAdminUser → Bool
has_email to_lower_case email user = elim user.email [
  | none ↦ false
  | some e ↦ str_eq (to_lower_case (trim e)) email
]

unfoldable pub find_user_by_email :
    (to_lower_case : String → String)
    → (email : String) → Reply (List AuthAdminUser)
    → Reply (Option AuthAdminUser)
find_user_by_email to_lower_case email users =
    let normalized = to_lower_case (trim email) in
    if str_eq normalized "" then replied none else elim users [
      | failed e ↦ failed e
      | replied us ↦ replied (find (has_email to_lower_case normalized) us)
    ]

-- `getUser`: a user who is not found is null, every other failure is one
unfoldable pub get_user : Reply AuthAdminUser → Reply (Option AuthAdminUser)
get_user (replied user) = replied (some user)
get_user (failed misconfigured) = failed misconfigured
get_user (failed other) = failed other
get_user (failed (upstream status)) =
    if status == 404 then replied none else failed (upstream status)
