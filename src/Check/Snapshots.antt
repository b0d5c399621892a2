-- ===== src/Check/Snapshots.antt =====
-- The snapshots that the rules see.
use dep_customs.Prelude.{
  any-append, String, ◌≡◌, ◌⊎◌, refl, subst, true, List, [], ◌∷◌, ◌++◌, inl, inr, str_eq, eq_refl,
  if◌then◌else◌, In, In-append, Bool-cases,
}
use dep_customs.Policy.Value.{JsNumber}
use dep_customs.Policy.Resolver.{ConnectorSnapshot, unavailable_snapshot}
use dep_customs.Check.{has_snapshot, complete_snapshots}

module _ {N : Type 0} ⦃js : JsNumber N⦄ where
  -- one round of the completion
  abbrev with_key : String → List (ConnectorSnapshot N) → List (ConnectorSnapshot N)
  with_key key snapshots =
      if has_snapshot key snapshots then snapshots else snapshots ++ unavailable_snapshot key ∷ []

  has_snapshot-with_key :
      (key : String) (snapshots : List (ConnectorSnapshot N))
      → has_snapshot key (with_key key snapshots) ≡ true
  unfolding unavailable_snapshot
  has_snapshot-with_key key snapshots = elim (Bool-cases (has_snapshot key snapshots)) [
    | inl e ↦ rw e e
    | inr e ↦ rw e (
        rw
          (
            any-append (λ (s : ConnectorSnapshot N). str_eq s.connector_key key) snapshots
                (unavailable_snapshot key ∷ []),
            e,
            eq_refl,
          )
          refl)
  ]

  has_snapshot_kept :
      (key other : String) (snapshots : List (ConnectorSnapshot N))
      → has_snapshot key snapshots ≡ true
      → has_snapshot key (with_key other snapshots) ≡ true
  has_snapshot_kept key other snapshots h = elim (Bool-cases (has_snapshot other snapshots)) [
    | inl e ↦ rw e h
    | inr e ↦ rw e (
        rw
          (
            any-append (λ (s : ConnectorSnapshot N). str_eq s.connector_key key) snapshots
                (unavailable_snapshot other ∷ []),
            h,
          )
          refl)
  ]

  complete_snapshots_kept :
      (key : String) (keys : List String) (snapshots : List (ConnectorSnapshot N))
      → has_snapshot key snapshots ≡ true
      → has_snapshot key (complete_snapshots keys snapshots) ≡ true
  unfolding complete_snapshots
  complete_snapshots_kept key [] snapshots h = h
  complete_snapshots_kept key (k ∷ keys) snapshots h =
      complete_snapshots_kept key keys (with_key k snapshots) (has_snapshot_kept key k snapshots h)

  covered :
      (key : String) (keys : List String) (snapshots : List (ConnectorSnapshot N))
      → In key keys
      → has_snapshot key (complete_snapshots keys snapshots) ≡ true
  unfolding complete_snapshots
  covered key [] snapshots i = absurd i
  covered key (k ∷ keys) snapshots (inl e) =
      complete_snapshots_kept key keys (with_key k snapshots) (
        subst (λ x. has_snapshot key (with_key x snapshots) ≡ true) e
          (has_snapshot-with_key key snapshots))
  covered key (k ∷ keys) snapshots (inr i) = covered key keys (with_key k snapshots) i

  In-with_key :
      (key : String) (s : ConnectorSnapshot N) (snapshots : List (ConnectorSnapshot N))
      → In s (with_key key snapshots)
      → In s snapshots ⊎ (s ≡ unavailable_snapshot key)
  In-with_key key s snapshots i = elim (Bool-cases (has_snapshot key snapshots)) [
    | inl e ↦ inl (rw e at i)
    | inr e ↦ elim (In-append s snapshots (unavailable_snapshot key ∷ []) (rw e at i)) [
      | inl j ↦ inl j
      | inr (inl q) ↦ inr q
      | inr (inr j) ↦ absurd j
    ]
  ]

  origin :
      (s : ConnectorSnapshot N) (keys : List String) (snapshots : List (ConnectorSnapshot N))
      → In s (complete_snapshots keys snapshots)
      → In s snapshots ⊎ ((k : String) × In k keys × (s ≡ unavailable_snapshot k))
  unfolding complete_snapshots
  origin s [] snapshots i = inl i
  origin s (key ∷ keys) snapshots i = elim (origin s keys (with_key key snapshots) i) [
    | inl j ↦ elim (In-with_key key s snapshots j) [
      | inl k ↦ inl k
      | inr q ↦ inr (key, inl refl, q)
    ]
    | inr (k, j, q) ↦ inr (k, inr j, q)
  ]

  -- Every supported connector has a snapshot when the rules are evaluated, and every snapshot is a
  -- stored one or says of a supported connector that it is unavailable.
  complete_snapshots_covers :
      (key : String) (s : ConnectorSnapshot N) (keys : List String)
      (snapshots : List (ConnectorSnapshot N))
      → In key keys
      → In s (complete_snapshots keys snapshots)
      → (has_snapshot key (complete_snapshots keys snapshots) ≡ true)
        × (In s snapshots ⊎ ((k : String) × In k keys × (s ≡ unavailable_snapshot k)))
  complete_snapshots_covers key s keys snapshots i j =
      (covered key keys snapshots i, origin s keys snapshots j)
