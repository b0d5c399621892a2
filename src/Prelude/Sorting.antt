-- ===== src/Prelude/Sorting.antt =====
-- JavaScript's stable `sort` by a comparison of numeric keys, as an insertion sort: an element goes
-- in front of the first one that does not have to precede it.
use mathlib.Core.Bool.{Bool, true, false}
use mathlib.Core.Path.{◌≡◌}
use mathlib.Core.Logic.{◌⊎◌, ◌↔◌, inl, inr}
use mathlib.Core.List.{List, [], ◌∷◌, Perm}
use mathlib.Core.List.Perm
use dep_customs.Prelude.Tests.{if◌then◌else◌, Bool-cases}
use dep_customs.Prelude.Lists.{All, In}

-- `before y x`: the comparison is negative, so that `y` stands in front of `x`
module _ {ℓ} {A : Type ℓ} (before : A → A → Bool) where
  unfoldable pub insert_sorted : A → List A → List A
  insert_sorted x [] = x ∷ []
  insert_sorted x (y ∷ ys) =
      let rest = insert_sorted x ys in if before y x then y ∷ rest else x ∷ y ∷ ys

  unfoldable pub sort : List A → List A
  unfolding insert_sorted
  sort [] = []
  sort (x ∷ xs) = insert_sorted x (sort xs)

  -- No element has to stand in front of an earlier one.
  abbrev pub IsSorted : List A → Type 0
  IsSorted [] = Unit
  IsSorted (x ∷ xs) = All (λ y. before y x ≡ false) xs × IsSorted xs

module _ {ℓ} {A : Type ℓ} (before : A → A → Bool) where
  insert_sorted-perm : (x : A) (ys : List A) → Perm (insert_sorted before x ys) (x ∷ ys)
  unfolding insert_sorted
  insert_sorted-perm x [] = Perm.refl _
  insert_sorted-perm x (y ∷ ys) = elim (Bool-cases (before y x)) [
    | inl e ↦ rw e (Perm.trans (Perm.cons y (insert_sorted-perm x ys)) (Perm.swap x y ys))
    | inr e ↦ rw e (Perm.refl _)
  ]

  pub sort-perm : (xs : List A) → Perm (sort before xs) xs
  unfolding sort
  sort-perm [] = Perm.refl _
  sort-perm (x ∷ xs) =
      Perm.trans (insert_sorted-perm x (sort before xs)) (Perm.cons x (sort-perm xs))

  All-insert_sorted {κ} :
      (P : A → Type κ) (x : A) (ys : List A) → P x → All P ys → All P (insert_sorted before x ys)
  unfolding insert_sorted
  All-insert_sorted P x [] px _ = (px, tt)
  All-insert_sorted P x (y ∷ ys) px (py, pys) = elim (Bool-cases (before y x)) [
    | inl e ↦ rw (e, insert_sorted) (py, All-insert_sorted P x ys px pys)
    | inr e ↦ rw (e, insert_sorted) (px, (py, pys))
  ]

  pub All-sort {κ} : (P : A → Type κ) (xs : List A) → All P xs → All P (sort before xs)
  unfolding sort
  All-sort P [] _ = tt
  All-sort P (x ∷ xs) (px, pxs) = All-insert_sorted P x (sort before xs) px (All-sort P xs pxs)

  pub All-map {κ μ} :
      (P : A → Type κ) (Q : A → Type μ) (xs : List A) → ((x : A) → P x → Q x) → All P xs → All Q xs
  All-map P Q [] f _ = tt
  All-map P Q (x ∷ xs) f (p, h) = (f x p, All-map P Q xs f h)

  module _ (asym : (x y : A) → before x y ≡ true → before y x ≡ false)
      (trans : (x y z : A) → before y x ≡ false → before z y ≡ false → before z x ≡ false) where
    insert_sorted-IsSorted :
        (x : A) (ys : List A) → IsSorted before ys → IsSorted before (insert_sorted before x ys)
    unfolding insert_sorted
    insert_sorted-IsSorted x [] _ = (tt, tt)
    insert_sorted-IsSorted x (y ∷ ys) (h, s) = elim (Bool-cases (before y x)) [
      | inl e ↦
          rw (e, insert_sorted)
            (
              All-insert_sorted (λ z. before z y ≡ false) x ys (asym y x e) h,
              insert_sorted-IsSorted x ys s,
            )
      | inr e ↦ rw (e, insert_sorted) ((e, All-map _ _ ys (λ z zy. trans x y z e zy) h), (h, s))
    ]

    -- The sorted list is in order.
    pub sort-IsSorted : (xs : List A) → IsSorted before (sort before xs)
    unfolding sort
    sort-IsSorted [] = tt
    sort-IsSorted (x ∷ xs) = insert_sorted-IsSorted x (sort before xs) (sort-IsSorted xs)

module _ {A : Type 0} (before : A → A → Bool) where
  In-insert_sorted :
      (z x : A) (ys : List A) → In z (insert_sorted before x ys) ↔ ((z ≡ x) ⊎ In z ys)
  unfolding insert_sorted
  In-insert_sorted z x [] = ((λ h. h), (λ h. h))
  In-insert_sorted z x (y ∷ ys) = elim (Bool-cases (before y x)) [
    | inl e ↦
        rw (e, insert_sorted)
          (
            (λ h. elim h [
              | inl q ↦ inr (inl q)
              | inr k ↦ elim ((In-insert_sorted z x ys).0 k) [ inl q ↦ inl q | inr m ↦ inr (inr m) ]
            ]),
            (λ h. elim h [
              | inl q ↦ inr ((In-insert_sorted z x ys).1 (inl q))
              | inr k ↦ elim k [ inl q ↦ inl q | inr m ↦ inr ((In-insert_sorted z x ys).1 (inr m)) ]
            ]),
          )
    | inr e ↦ rw (e, insert_sorted) ((λ h. h), (λ h. h))
  ]

  -- Sorting keeps the members.
  pub In-sort : (z : A) (xs : List A) → In z (sort before xs) ↔ In z xs
  unfolding sort
  In-sort z [] = ((λ h. h), (λ h. h))
  In-sort z (x ∷ xs) = (
    (λ h. elim ((In-insert_sorted z x (sort before xs)).0 h) [
      | inl q ↦ inl q
      | inr k ↦ inr ((In-sort z xs).0 k)
    ]),
    (λ h.
        (In-insert_sorted z x (sort before xs)).1
          (elim h [ inl q ↦ inl q | inr k ↦ inr ((In-sort z xs).1 k) ])),
  )
