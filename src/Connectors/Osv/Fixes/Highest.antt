-- ===== src/Connectors/Osv/Fixes/Highest.antt =====
-- The highest of the fix versions.
use dep_customs.Prelude.{
  String, ◌≡◌, refl, sym, ap, subst, ◌∙◌, Bool, true, false, List, [], ◌∷◌, Option, some, inl, inr,
  if◌then◌else◌, Bool-cases, In, All, In-All,
}
use dep_customs.Connectors.Osv.Fixes.{cleaned, highest, pick_highest_version}

-- What the documentation of semver says of `gt`: it is the strict part of a total order.
pub record IsOrder {V : Type 0} (gt : V → V → Bool) : Type 0 where
  pub asymmetric : (a b : V) → gt a b ≡ true → gt b a ≡ false
  pub transitive : (a b c : V) → gt a b ≡ false → gt b c ≡ false → gt a c ≡ false

module _ {V : Type 0} (clean : String → Option V) where
  abbrev pub IsVersion : String → Type 0
  IsVersion v = (c : V) × (clean v ≡ some c)

  abbrev Cleans : String × V → Type 0
  Cleans p = clean p.0 ≡ some p.1

  cleaned-cons :
      (v : String) (c : V) (versions : List String) (ps : List (String × V))
      → clean v ≡ some c
      → cleaned clean versions ≡ some ps
      → cleaned clean (v ∷ versions) ≡ some ((v, c) ∷ ps)
  unfolding cleaned
  cleaned-cons v c versions ps e q = rw (e, cleaned, q) refl

  cleaned-All :
      (versions : List String)
      → All IsVersion versions
      → (ps : List (String × V)) × (cleaned clean versions ≡ some ps)
        × All Cleans ps
        × ((v : String) → In v versions → (c : V) × In (v, c) ps)
        × ((p : String × V) → In p ps → In p.0 versions)
  unfolding cleaned
  cleaned-All [] h = ([], refl, tt, (λ v i. absurd i), (λ p i. absurd i))
  cleaned-All (v ∷ versions) ((c, e), h) =
      let (ps, q, cs, to, from) = cleaned-All versions h in
      (
        (v, c) ∷ ps,
        cleaned-cons v c versions ps e q,
        (e, cs),
        (λ w i. elim i [
          | inl s ↦ (c, inl (rw s refl))
          | inr j ↦ let (d, k) = to w j in (d, inr k)
        ]),
        (λ p i. elim i [ inl s ↦ inl (ap (λ x. x.0) s) | inr j ↦ inr (from p j) ]),
      )

module _ {V : Type 0} (gt : V → V → Bool) (order : IsOrder gt) where
  gt_self : (a : V) → gt a a ≡ false
  gt_self a = elim (Bool-cases (gt a a)) [ inl e ↦ order.asymmetric a a e | inr e ↦ e ]

  abbrev IsHighest : String × V → List (String × V) → String × V → Type 0
  IsHighest best ps r =
      In r (best ∷ ps) × (gt best.1 r.1 ≡ false) × ((p : String × V) → In p ps → gt p.1 r.1 ≡ false)

  IsHighest-above :
      (best cur r : String × V) (ps : List (String × V))
      → gt cur.1 best.1 ≡ true
      → IsHighest cur ps r
      → IsHighest best (cur ∷ ps) r
  IsHighest-above best cur r ps e (i, above, all) = (
    inr i,
    order.transitive best.1 cur.1 r.1 (order.asymmetric cur.1 best.1 e) above,
    (λ p j. elim j [ inl s ↦ rw s above | inr k ↦ all p k ]),
  )

  IsHighest-below :
      (best cur r : String × V) (ps : List (String × V))
      → gt cur.1 best.1 ≡ false
      → IsHighest best ps r
      → IsHighest best (cur ∷ ps) r
  IsHighest-below best cur r ps e (i, above, all) = (
    elim i [ inl s ↦ inl s | inr k ↦ inr (inr k) ],
    above,
    (λ p j. elim j [ inl s ↦ rw s (order.transitive cur.1 best.1 r.1 e above) | inr k ↦ all p k ]),
  )

  highest-cons :
      (best cur : String × V) (ps : List (String × V))
      → highest gt best (cur ∷ ps) ≡ highest gt (if gt cur.1 best.1 then cur else best) ps
  unfolding highest
  highest-cons best cur ps = refl

  highest-IsHighest :
      (best : String × V) (ps : List (String × V)) → IsHighest best ps (highest gt best ps)
  unfolding highest
  highest-IsHighest best [] = (inl refl, gt_self best.1, (λ p i. absurd i))
  highest-IsHighest best (cur ∷ ps) = elim (Bool-cases (gt cur.1 best.1)) [
    | inl e ↦
        subst (IsHighest best (cur ∷ ps)) (sym (highest-cons best cur ps ∙ rw e refl))
          (IsHighest-above best cur (highest gt cur ps) ps e (highest-IsHighest cur ps))
    | inr e ↦
        subst (IsHighest best (cur ∷ ps)) (sym (highest-cons best cur ps ∙ rw e refl))
          (IsHighest-below best cur (highest gt best ps) ps e (highest-IsHighest best ps))
  ]

picked :
    {V : Type 0} (clean : String → Option V) (gt : V → V → Bool) (v w : String)
    (versions : List String) (best : String × V) (others : List (String × V))
    → cleaned clean (v ∷ w ∷ versions) ≡ some (best ∷ others)
    → pick_highest_version clean gt (v ∷ w ∷ versions) ≡ some (highest gt best others).0
unfolding pick_highest_version
picked clean gt v w versions best others q = rw (q, pick_highest_version) refl

-- Of versions that are all understood, and of which there is one, a highest is picked: one of them,
-- above which stands none.
pub pick_highest_version-highest :
    {V : Type 0} (clean : String → Option V) (gt : V → V → Bool) (v : String)
    (versions : List String)
    → IsOrder gt
    → All (IsVersion clean) (v ∷ versions)
    → (best : String) × (c : V) × (pick_highest_version clean gt (v ∷ versions) ≡ some best)
      × In best (v ∷ versions)
      × (clean best ≡ some c)
      × ((w : String) (d : V) → In w (v ∷ versions) → clean w ≡ some d → gt d c ≡ false)
unfolding pick_highest_version
pick_highest_version-highest clean gt v [] order ((c, e), h) = (
  v,
  c,
  refl,
  inl refl,
  e,
  (λ w d i f. elim i [
    | inl s ↦
        let same : some d ≡ some c = sym f ∙ ap clean s ∙ e in
        let same' : d ≡ c = cc same in rw same' (gt_self gt order c)
    | inr k ↦ absurd k
  ]),
)
pick_highest_version-highest {V} clean gt v (w ∷ versions) order ((c, e), h) =
    let (ps, q, cs, to, from) = cleaned-All clean (w ∷ versions) h in
    let (i, above, all) = highest-IsHighest gt order (v, c) ps in
    let r = highest gt (v, c) ps in
    let is_clean = In-All (Cleans clean) r ((v, c) ∷ ps) (e, cs) i in
    (
      r.0,
      r.1,
      picked clean gt v w versions (v, c) ps (cleaned-cons clean v c (w ∷ versions) ps e q),
      elim i [ inl s ↦ inl (ap (λ x. x.0) s) | inr k ↦ inr (from r k) ],
      is_clean,
      (λ u d j f. elim j [
        | inl s ↦ let same : d ≡ c = cc (f, ap clean s, e) in rw same above
        | inr k ↦
            let (c', m) = to u k in
            let known : clean u ≡ some c' = In-All (Cleans clean) (u, c') ps cs m in
            let same : d ≡ c' = cc (f, known) in rw same (all (u, c') m)
      ]),
    )
