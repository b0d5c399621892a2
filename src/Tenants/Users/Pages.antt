-- ===== src/Tenants/Users/Pages.antt =====
-- All the users of the auth service are read, page by page.
use dep_customs.Prelude.{
  ℕ, zero, suc, ◌+◌, ◌≤◌, ◌<◌, ◌≡◌, refl, sym, ap, ◌∙◌, true, false, List, [], ◌∷◌, ◌++◌, Option,
  none, some, inl, inr, ◌⊎◌, arith, length, length-append, leb, ltb, Bool-cases,
}
use dep_customs.Tenants.Users.{Reply, replied, Page, is_complete, request_pages, request_paginated}

module _ {A : Type 0} where
  abbrev pub take : ℕ → List A → List A
  take zero xs = []
  take (suc n) [] = []
  take (suc n) (x ∷ xs) = x ∷ take n xs

  abbrev pub drop : ℕ → List A → List A
  drop zero xs = xs
  drop (suc n) [] = []
  drop (suc n) (x ∷ xs) = drop n xs

  take-drop : (n : ℕ) (xs : List A) → take n xs ++ drop n xs ≡ xs
  take-drop zero xs = refl
  take-drop (suc n) [] = refl
  take-drop (suc n) (x ∷ xs) = ap (λ ys. x ∷ ys) (take-drop n xs)

  short-drop : (n : ℕ) (xs : List A) → ltb (length (take n xs)) n ≡ true → drop n xs ≡ []
  short-drop zero xs h = ground (arith, h)
  short-drop (suc n) [] h = refl
  short-drop (suc n) (x ∷ xs) h = short-drop n xs (ground (arith, h))

  full-drop :
      (n : ℕ) (xs : List A)
      → ltb (length (take n xs)) n ≡ false
      → length (drop n xs) + n ≡ length xs
  full-drop zero xs h = omega arith
  full-drop (suc n) [] h = ground (arith, h)
  full-drop (suc n) (x ∷ xs) h = omega (arith, full-drop n xs (ground (arith, h)))

  no_length : (xs : List A) → length xs ≡ 0 → xs ≡ []
  no_length [] h = refl
  no_length (x ∷ xs) h = ground arith

  append_nil : (xs : List A) → xs ++ [] ≡ xs
  append_nil [] = refl
  append_nil (x ∷ xs) = ap (λ ys. x ∷ ys) (append_nil xs)

  append_assoc : (xs ys zs : List A) → (xs ++ ys) ++ zs ≡ xs ++ (ys ++ zs)
  append_assoc [] ys zs = refl
  append_assoc (x ∷ xs) ys zs = ap (λ ts. x ∷ ts) (append_assoc xs ys zs)

  -- What the service leaves after a number of pages.
  abbrev pub left_after : (page_size : ℕ) → ℕ → List A → List A
  left_after page_size zero users = users
  left_after page_size (suc pages) users = drop page_size (left_after page_size pages users)

  -- The service cuts the list into pages, counted from 1, and may say how many there are.
  abbrev pub served : (total : Option ℕ) → (page_size : ℕ) → List A → ℕ → Reply (Page A)
  served total page_size users zero = replied (record { items = []; total = total })
  served total page_size users (suc pages) =
      replied (record { items = take page_size (left_after page_size pages users); total = total })

  module _ (total : Option ℕ) (page_size : ℕ) (users : List A)
      (honest : total ≡ none ⊎ (total ≡ some (length users))) where
    -- a total that is reached leaves nothing
    complete-nothing_left :
        (items rest : List A)
        → items ++ rest ≡ users
        → is_complete total (length items) ≡ true
        → rest ≡ []
    complete-nothing_left items rest e c = elim honest [
      | inl n ↦ let k : false ≡ true = rw n at c in cc k
      | inr n ↦
          let k : leb (length users) (length items) ≡ true = rw n at c in
          let m : length items + length rest ≡ length users =
            sym (length-append items rest) ∙ ap length e in
          no_length rest (ground (arith, k, m))
    ]

    all_read : (items rest : List A) → items ++ rest ≡ users → rest ≡ [] → items ≡ users
    all_read items rest e n = sym (append_nil items) ∙ ap (λ ys. items ++ ys) (sym n) ∙ e

    request_pages-all :
        (rounds pages : ℕ) (items : List A)
        → 1 ≤ page_size
        → items ++ left_after page_size pages users ≡ users
        → length (left_after page_size pages users) < rounds
        → request_pages (served total page_size users) page_size rounds (suc pages) items
          ≡ some (replied users)
    unfolding request_pages
    request_pages-all zero pages items h e lt = ground (arith, lt)
    request_pages-all (suc rounds) pages items h e lt =
        let rest = left_after page_size pages users in
        let all = items ++ take page_size rest in
        let split : all ++ drop page_size rest ≡ users =
          append_assoc items (take page_size rest) (drop page_size rest)
          ∙ ap (λ ys. items ++ ys) (take-drop page_size rest)
          ∙ e in
        elim (Bool-cases (is_complete total (length all))) [
          | inl c ↦ rw c (
              ap (λ us. some (replied us))
                (all_read all (drop page_size rest) split
                  (complete-nothing_left all (drop page_size rest) split c)))
          | inr c ↦ rw c (elim (Bool-cases (ltb (length (take page_size rest)) page_size)) [
            | inl s ↦ rw s (
                ap (λ us. some (replied us))
                  (all_read all (drop page_size rest) split (short-drop page_size rest s)))
            | inr s ↦ rw s (
                request_pages-all rounds (suc pages) all h split
                  (omega (arith, full-drop page_size rest s, h, lt)))
          ])
        ]

  -- When the auth service serves its users in pages of at least one user, and says nothing of their
  -- number or the truth, the loop over the pages ends and returns all the users in order, in at most
  -- one round more than there are users.
  pub request_paginated-all :
      (total : Option ℕ) (page_size rounds : ℕ) (users : List A)
      → (total ≡ none ⊎ (total ≡ some (length users)))
      → 1 ≤ page_size
      → length users < rounds
      → request_paginated (served total page_size users) page_size rounds ≡ some (replied users)
  unfolding request_paginated
  request_paginated-all total page_size rounds users honest h lt =
      request_pages-all total page_size users honest rounds 0 [] h refl lt
