-- ===== src/Connectors/Osv/Cvss/Impacts.antt =====
-- The weights that a CVSS vector gives its metrics, and what its impact is none for.
use dep_customs.Prelude.{
  lookup, ℕ, sym, ap, ◌∙◌, ◌+◌, ◌-◌, ◌*◌, String, ◌≡◌, ◌≢◌, ◌↔◌, refl, Bool, true, false, List, [],
  ◌∷◌, some, inl, inr, arith, Bool-cases, ◌==◌, str_eq, eq_iff, all, any, In, all-In, Option-cases,
  if◌then◌else◌,
}
use dep_customs.Connectors.Osv.Vectors.{prototype_members, entry_or_inherited, metric}
use dep_customs.Connectors.Osv.Cvss.{
  weight, is_inherited, weights_of, isc_base, has_nan_impact, has_nan_exploitability, cia_w,
}

abbrev pub impacts : List ℕ
impacts = 0 ∷ 22 ∷ 56 ∷ []

In-impacts : (v : String) → In (weight (entry_or_inherited v (lookup v cia_w))) impacts
In-impacts v = elim (Bool-cases (str_eq "N" v)) [
  | inl e ↦ rw e (inl refl)
  | inr n ↦ elim (Bool-cases (str_eq "L" v)) [
    | inl e ↦ rw (n, e) (inr (inl refl))
    | inr l ↦ elim (Bool-cases (str_eq "H" v)) [
      | inl e ↦ rw (n, l, e) (inr (inr (inl refl)))
      | inr h ↦ elim (Bool-cases (any (str_eq v) prototype_members)) [
        | inl i ↦ rw (n, l, h, i) (inl refl)
        | inr i ↦ rw (n, l, h, i) (inl refl)
      ]
    ]
  ]
]

pub metric-impacts :
    (key : String) (parts : List (String × String)) → In (weight (metric key cia_w parts)) impacts
unfolding metric
metric-impacts key parts = elim (Option-cases (lookup key parts)) [
  | inl e ↦ rw (e, metric) (inl refl)
  | inr (v, e) ↦ rw (e, metric) (In-impacts v)
]

-- No metric of the vector has the name of a member of Object.prototype for its value.
abbrev pub IsPlain : List (String × String) → Type 0
IsPlain parts =
    (key value : String)
    → lookup key parts ≡ some value
    → any (str_eq value) prototype_members ≡ false

-- The metric is neither low nor high.
abbrev pub IsUnaffected : (key : String) → List (String × String) → Type 0
IsUnaffected key parts = (lookup key parts ≢ some "L") × (lookup key parts ≢ some "H")

abbrev pub HasNoImpact : List (String × String) → Type 0
HasNoImpact parts = IsUnaffected "C" parts × IsUnaffected "I" parts × IsUnaffected "A" parts

metric_plain :
    (table : List (String × ℕ)) (key : String) (parts : List (String × String))
    → IsPlain parts
    → is_inherited (metric key table parts) ≡ false
unfolding metric
metric_plain table key parts plain = elim (Option-cases (lookup key parts)) [
  | inl e ↦ rw (e, metric) refl
  | inr (v, e) ↦ elim (Option-cases (lookup v table)) [
    | inl f ↦ rw (e, metric, f, plain key v e) refl
    | inr (n, f) ↦ rw (e, metric, f) refl
  ]
]

pub has_nan_plain :
    (parts : List (String × String))
    → IsPlain parts
    → (has_nan_impact parts ≡ false) × (has_nan_exploitability parts ≡ false)
unfolding has_nan_impact has_nan_exploitability
has_nan_plain parts plain = (
  rw
      (
        metric_plain _ "C" parts plain,
        metric_plain _ "I" parts plain,
        metric_plain _ "A" parts plain,
      )
      refl,
  rw
      (
        metric_plain _ "AV" parts plain,
        metric_plain _ "AC" parts plain,
        metric_plain _ "UI" parts plain,
        metric_plain _ "PR" parts plain,
      )
      refl,
)

-- the weight of a metric, if it is low or high, and if it is not
weight_affected :
    (key : String) (parts : List (String × String))
    → weight (metric key cia_w parts) ≡ 0
    → IsUnaffected key parts
unfolding metric
weight_affected key parts z = (
  (λ e. let k = rw (metric, e) at z in omega (arith, k)),
  (λ e. let k = rw (metric, e) at z in omega (arith, k)),
)

weight_unaffected :
    (key : String) (parts : List (String × String))
    → IsUnaffected key parts
    → weight (metric key cia_w parts) ≡ 0
unfolding metric
weight_unaffected key parts (low, high) = elim (Option-cases (lookup key parts)) [
  | inl e ↦ rw (e, metric) refl
  | inr (v, e) ↦
      rw (e, metric)
        (elim (Bool-cases (str_eq "N" v)) [
          | inl n ↦ rw n refl
          | inr n ↦ elim (Bool-cases (str_eq "L" v)) [
            | inl l ↦ absurd (low (e ∙ ap some (sym ((eq_iff "L" v).0 l))))
            | inr l ↦ elim (Bool-cases (str_eq "H" v)) [
              | inl h ↦ absurd (high (e ∙ ap some (sym ((eq_iff "H" v).0 h))))
              | inr h ↦ elim (Bool-cases (any (str_eq v) prototype_members)) [
                | inl i ↦ rw (n, l, h, i) refl
                | inr i ↦ rw (n, l, h, i) refl
              ]
            ]
          ]
        ])
]

-- no impact is no weight at all
abbrev is_weighed : (c i a : ℕ) → Bool
is_weighed c i a =
    if (1000000 - (100 - c) * (100 - i) * (100 - a)) == 0 then c + i + a == 0 else true

all_weighed : all (λ c. all (λ i. all (λ a. is_weighed c i a) impacts) impacts) impacts ≡ true
all_weighed = refl

weighed : (c i a : ℕ) → In c impacts → In i impacts → In a impacts → is_weighed c i a ≡ true
weighed c i a hc hi ha =
    all-In (λ a. is_weighed c i a) a impacts
      (all-In (λ i. all (λ a. is_weighed c i a) impacts) i impacts
        (all-In (λ c. all (λ i. all (λ a. is_weighed c i a) impacts) impacts) c impacts all_weighed
          hc)
        hi)
      ha

weighed_zero :
    (c i a : ℕ)
    → is_weighed c i a ≡ true
    → 1000000 - (100 - c) * (100 - i) * (100 - a) ≡ 0
    → (c ≡ 0) × (i ≡ 0) × (a ≡ 0)
weighed_zero c i a h z =
    let k : c + i + a == 0 ≡ true = rw z at h in
    let sum : c + i + a ≡ 0 = ground (arith, k) in
    (omega (arith, sum), omega (arith, sum), omega (arith, sum))

pub isc_base-HasNoImpact :
    (parts : List (String × String)) → (isc_base (weights_of parts) ≡ 0) ↔ HasNoImpact parts
unfolding isc_base weights_of
isc_base-HasNoImpact parts = (
  (λ z.
      let w = weights_of parts in
      let (c, i, a) =
        weighed_zero w.c w.i w.a
          (weighed w.c w.i w.a (metric-impacts "C" parts) (metric-impacts "I" parts)
            (metric-impacts "A" parts))
          z in
      (weight_affected "C" parts c, weight_affected "I" parts i, weight_affected "A" parts a)),
  (λ (c, i, a).
      rw
        (
          weight_unaffected "C" parts c,
          weight_unaffected "I" parts i,
          weight_unaffected "A" parts a,
        )
        refl),
)
