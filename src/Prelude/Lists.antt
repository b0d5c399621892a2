-- ===== src/Prelude/Lists.antt =====
-- Lists with Boolean tests: JavaScript's `filter`, `some`, `every`, `find` and `includes`, and the
-- membership predicate by recursion that the proofs use.
use Prim.Native.Nat.{ℕ, suc, ◌+◌}
use mathlib.Core.Path.{◌≡◌, refl, sym, ap, subst}
use mathlib.Core.Logic.{◌⊎◌, inl, inr}
use mathlib.Core.Bool.{Bool, true, false, ◌&&◌, ◌||◌}
use mathlib.Core.Option.{Option, none, some}
use mathlib.Core.List.{List, [], ◌∷◌, ◌++◌, map}
use native.Mathlib.Omega.{arith}
use dep_customs.Prelude.Tests.{if◌then◌else◌, Bool-cases}

module _ {ℓ} {A : Type ℓ} where
  abbrev pub length : List A → ℕ
  length [] = 0
  length (x ∷ xs) = suc (length xs)

  abbrev pub filter : (A → Bool) → List A → List A
  filter p [] = []
  filter p (x ∷ xs) = if p x then x ∷ filter p xs else filter p xs

  abbrev pub all : (A → Bool) → List A → Bool
  all p [] = true
  all p (x ∷ xs) = p x && all p xs

  abbrev pub any : (A → Bool) → List A → Bool
  any p [] = false
  any p (x ∷ xs) = p x || any p xs

  abbrev pub find : (A → Bool) → List A → Option A
  find p [] = none
  find p (x ∷ xs) = if p x then some x else find p xs

  abbrev pub All {κ} : (A → Type κ) → List A → Type κ
  All P [] = Unit
  All P (x ∷ xs) = P x × All P xs

  pub All-append {κ} : (P : A → Type κ) (xs ys : List A) → All P xs → All P ys → All P (xs ++ ys)
  All-append P [] ys _ k = k
  All-append P (x ∷ xs) ys (p, h) k = (p, All-append P xs ys h k)

module _ {ℓ} {A : Type ℓ} where
  -- the element, if the test passes
  abbrev pub keep : Bool → A → List A
  keep b x = if b then x ∷ [] else []

  pub filter-append :
      (p : A → Bool) (xs ys : List A) → filter p (xs ++ ys) ≡ filter p xs ++ filter p ys
  filter-append p [] ys = refl
  filter-append p (x ∷ xs) ys = ground (arith, filter-append p xs ys)

  pub any-append : (p : A → Bool) (xs ys : List A) → any p (xs ++ ys) ≡ (any p xs || any p ys)
  any-append p [] ys = refl
  any-append p (x ∷ xs) ys = ground (arith, any-append p xs ys)

  pub length-append : (xs ys : List A) → length (xs ++ ys) ≡ length xs + length ys
  length-append [] ys = omega arith
  length-append (x ∷ xs) ys = omega (arith, length-append xs ys)

  pub filter-keep : (p : A → Bool) (b : Bool) (x : A) → filter p (keep b x) ≡ keep (b && p x) x
  filter-keep p true x = refl
  filter-keep p false x = refl

-- Membership that keeps the position, so that cases can be made on it.
module _ {A : Type 0} where
  abbrev pub In : A → List A → Type 0
  In x [] = ⊥
  In x (y ∷ ys) = (x ≡ y) ⊎ In x ys

  pub no-In : (xs : List A) → ((x : A) → In x xs → ⊥) → xs ≡ []
  no-In [] h = refl
  no-In (x ∷ xs) h = absurd (h x (inl refl))

  pub In-append_left : (x : A) (xs ys : List A) → In x xs → In x (xs ++ ys)
  In-append_left x [] ys h = absurd h
  In-append_left x (y ∷ xs) ys (inl e) = inl e
  In-append_left x (y ∷ xs) ys (inr h) = inr (In-append_left x xs ys h)

  pub In-append_right : (x : A) (xs ys : List A) → In x ys → In x (xs ++ ys)
  In-append_right x [] ys h = h
  In-append_right x (y ∷ xs) ys h = inr (In-append_right x xs ys h)

  pub In-append : (x : A) (xs ys : List A) → In x (xs ++ ys) → In x xs ⊎ In x ys
  In-append x [] ys h = inr h
  In-append x (y ∷ xs) ys (inl e) = inl (inl e)
  In-append x (y ∷ xs) ys (inr h) = elim (In-append x xs ys h) [
    | inl k ↦ inl (inr k)
    | inr k ↦ inr k
  ]

  pub In-filter : (p : A → Bool) (x : A) (xs : List A) → In x (filter p xs) → In x xs × (p x ≡ true)
  In-filter p x [] h = absurd h
  In-filter p x (y ∷ xs) h = elim (Bool-cases (p y)) [
    | inl e ↦ elim (rw e at h) [
      | inl q ↦ (inl q, rw q e)
      | inr k ↦ let (a, b) = In-filter p x xs k in (inr a, b)
    ]
    | inr e ↦ let (a, b) = In-filter p x xs (rw e at h) in (inr a, b)
  ]

  pub filter-In : (p : A → Bool) (x : A) (xs : List A) → In x xs → p x ≡ true → In x (filter p xs)
  filter-In p x [] h e = absurd h
  filter-In p x (y ∷ xs) (inl q) e = rw (← q, e) (inl refl)
  filter-In p x (y ∷ xs) (inr h) e = elim (Bool-cases (p y)) [
    | inl t ↦ rw t (inr (filter-In p x xs h e))
    | inr t ↦ rw t (filter-In p x xs h e)
  ]

  pub find-In : (p : A → Bool) (x : A) (xs : List A) → find p xs ≡ some x → In x xs × (p x ≡ true)
  find-In p x [] h = cc
  find-In p x (y ∷ ys) h = elim (Bool-cases (p y)) [
    | inl e ↦
        let q : some y ≡ some x = rw e at h in
        let same : y ≡ x = cc q in (inl (sym same), subst (λ t. p t ≡ true) same e)
    | inr e ↦ let (i, t) = find-In p x ys (rw e at h) in (inr i, t)
  ]

  pub any-In : (p : A → Bool) (xs : List A) → any p xs ≡ true → (x : A) × In x xs × (p x ≡ true)
  any-In p [] h = cc
  any-In p (y ∷ ys) h = elim (Bool-cases (p y)) [
    | inl e ↦ (y, inl refl, e)
    | inr e ↦ let (x, i, t) = any-In p ys (rw e at h) in (x, inr i, t)
  ]

  pub all-In : (p : A → Bool) (x : A) (xs : List A) → all p xs ≡ true → In x xs → p x ≡ true
  all-In p x [] h i = absurd i
  all-In p x (y ∷ xs) h (inl q) = rw q (ground arith)
  all-In p x (y ∷ xs) h (inr i) = all-In p x xs (ground arith) i

  pub In-All {κ} : (P : A → Type κ) (x : A) (xs : List A) → All P xs → In x xs → P x
  In-All P x [] _ h = absurd h
  In-All P x (y ∷ xs) (p, h) (inl q) = rw q p
  In-All P x (y ∷ xs) (p, h) (inr k) = In-All P x xs h k

  pub All-In {κ} : (P : A → Type κ) (xs : List A) → ((x : A) → In x xs → P x) → All P xs
  All-In P [] f = tt
  All-In P (x ∷ xs) f = (f x (inl refl), All-In P xs (λ y h. f y (inr h)))

module _ {A B : Type 0} where
  abbrev pub flat_map : (A → List B) → List A → List B
  flat_map f [] = []
  flat_map f (x ∷ xs) = f x ++ flat_map f xs

  pub In-flat_map :
      (f : A → List B) (b : B) (xs : List A) → In b (flat_map f xs) → (a : A) × In a xs × In b (f a)
  In-flat_map f b [] h = absurd h
  In-flat_map f b (x ∷ xs) h = elim (In-append b (f x) (flat_map f xs) h) [
    | inl k ↦ (x, inl refl, k)
    | inr k ↦ let (a, i, j) = In-flat_map f b xs k in (a, inr i, j)
  ]

  pub flat_map-In :
      (f : A → List B) (a : A) (b : B) (xs : List A) → In a xs → In b (f a) → In b (flat_map f xs)
  flat_map-In f a b [] h k = absurd h
  flat_map-In f a b (x ∷ xs) (inl q) k =
      In-append_left b (f x) (flat_map f xs) (subst (λ t. In b (f t)) q k)
  flat_map-In f a b (x ∷ xs) (inr h) k =
      In-append_right b (f x) (flat_map f xs) (flat_map-In f a b xs h k)

  pub In-map : (f : A → B) (b : B) (xs : List A) → In b (map f xs) → (a : A) × In a xs × (b ≡ f a)
  In-map f b [] h = absurd h
  In-map f b (x ∷ xs) (inl q) = (x, inl refl, q)
  In-map f b (x ∷ xs) (inr h) = let (a, i, j) = In-map f b xs h in (a, inr i, j)

  pub map-In : (f : A → B) (a : A) (xs : List A) → In a xs → In (f a) (map f xs)
  map-In f a [] h = absurd h
  map-In f a (x ∷ xs) (inl q) = inl (ap f q)
  map-In f a (x ∷ xs) (inr h) = inr (map-In f a xs h)
