-- ===== src/Policy/Versioning/Windows.antt =====
-- The windows of a policy's versions.
use dep_customs.Prelude.{
  ℕ, ◌≤◌, ◌<◌, String, ◌≡◌, ◌≢◌, ◌⊎◌, refl, sym, ap, subst, ◌∙◌, true, List, [], ◌∷◌, ◌++◌, map,
  inl, inr, arith, eq_iff, eq_refl, In, In-map, In-append, Bool-cases, leb, leb→le,
}
use dep_customs.Policy.Versioning.{
  PolicyVersionRow, PolicyPatch, PolicyRuleBindingClone, PolicyTables, is_version, close_version,
  next_version, create_next_policy_version,
}

-- The version is in force at a time.
abbrev pub IsCurrentAt : ℕ → PolicyVersionRow → Type 0
IsCurrentAt t row = (row.policy.effective_from ≤ t) × (t < row.policy.effective_to)

-- No two rows have the same id, and no policy has two versions in force at one time.
pub record AreVersions (rows : List PolicyVersionRow) : Type 0 where
  pub ids : (r s : PolicyVersionRow) → In r rows → In s rows → r.policy.id ≡ s.policy.id → r ≡ s
  pub windows :
      (t : ℕ) (r s : PolicyVersionRow)
      → In r rows
      → In s rows
      → r.policy.policy_key ≡ s.policy.policy_key
      → IsCurrentAt t r
      → IsCurrentAt t s
      → r ≡ s

is_version-id :
    (id tenant_id : String) (r : PolicyVersionRow)
    → is_version id tenant_id r ≡ true
    → r.policy.id ≡ id
unfolding is_version
is_version-id id tenant_id r e = ground (arith, e, eq_iff r.policy.id id)

module _ (infinity now : ℕ) (new_id tenant_id : String) (existing : PolicyVersionRow)
    (patch : PolicyPatch) (rows : List PolicyVersionRow) where
  abbrev close : PolicyVersionRow → PolicyVersionRow
  close = close_version existing.policy.id tenant_id now new_id

  abbrev next : PolicyVersionRow
  next = next_version infinity now new_id existing patch

  close-id : (r : PolicyVersionRow) → (close r).policy.id ≡ r.policy.id
  unfolding close_version
  close-id r = elim (Bool-cases (is_version existing.policy.id tenant_id r)) [
    | inl e ↦ rw e refl
    | inr e ↦ rw e refl
  ]

  close-key : (r : PolicyVersionRow) → (close r).policy.policy_key ≡ r.policy.policy_key
  unfolding close_version
  close-key r = elim (Bool-cases (is_version existing.policy.id tenant_id r)) [
    | inl e ↦ rw e refl
    | inr e ↦ rw e refl
  ]

  close-from : (r : PolicyVersionRow) → (close r).policy.effective_from ≡ r.policy.effective_from
  unfolding close_version
  close-from r = elim (Bool-cases (is_version existing.policy.id tenant_id r)) [
    | inl e ↦ rw e refl
    | inr e ↦ rw e refl
  ]

  next_key : (r : PolicyVersionRow) → r ≡ next → r.policy.policy_key ≡ existing.policy.policy_key
  unfolding next_version
  next_key r q = ap (λ x. x.policy.policy_key) q

  module _ (versions : AreVersions rows) (stored : In existing rows)
      (own : existing.policy.tenant_id ≡ tenant_id)
      (open_end : existing.policy.effective_to ≡ infinity)
      (started : existing.policy.effective_from ≤ now) (finite : now < infinity)
      (fresh : (r : PolicyVersionRow) → In r rows → r.policy.id ≢ new_id) where
    -- the existing version ends now
    closed : (close existing).policy.effective_to ≡ now
    unfolding close_version is_version
    closed = rw (eq_refl, own, eq_refl) refl

    -- a closed row was in force when it is, and is not the existing version from now on
    close-current :
        (t : ℕ) (r : PolicyVersionRow) → In r rows → IsCurrentAt t (close r) → IsCurrentAt t r
    unfolding close_version
    close-current t r i c = elim (Bool-cases (is_version existing.policy.id tenant_id r)) [
      | inl e ↦
          let same =
            versions.ids r existing i stored (is_version-id existing.policy.id tenant_id r e) in
          let k : (r.policy.effective_from ≤ t) × (t < now) = rw e at c in
          (k.0, rw same (omega (arith, k.1, open_end, finite)))
      | inr e ↦ rw e at c
    ]

    -- no closed row of the policy is in force when the next version is
    close-next :
        (t : ℕ) (r : PolicyVersionRow)
        → In r rows
        → r.policy.policy_key ≡ existing.policy.policy_key
        → IsCurrentAt t (close r)
        → IsCurrentAt t next
        → ⊥
    unfolding next_version
    close-next t r i key c n =
        let current : IsCurrentAt t existing =
          (omega (arith, n.0, started), omega (arith, n.1, open_end)) in
        let same = versions.windows t r existing i stored key (close-current t r i c) current in
        let ends : (close r).policy.effective_to ≡ now = rw same closed in
        omega (arith, ends, c.1, n.0)

    ids_kept :
        (r s : PolicyVersionRow)
        → In r (map close rows ++ next ∷ [])
        → In s (map close rows ++ next ∷ [])
        → r.policy.id ≡ s.policy.id
        → r ≡ s
    unfolding next_version
    ids_kept r s i j e = elim (In-append r (map close rows) (next ∷ []) i) [
      | inl k ↦
          let (r', k', q) = In-map close r rows k in
          elim (In-append s (map close rows) (next ∷ []) j) [
            | inl l ↦
                let (s', l', p) = In-map close s rows l in
                q
                ∙ ap close (
                    versions.ids r' s' k' l' (
                      sym (close-id r')
                      ∙ ap (λ x. x.policy.id) (sym q)
                      ∙ e
                      ∙ ap (λ x. x.policy.id) p
                      ∙ close-id s'))
                ∙ sym p
            | inr (inl p) ↦ absurd (
                fresh r' k'
                  (sym (close-id r') ∙ ap (λ x. x.policy.id) (sym q) ∙ e ∙ ap (λ x. x.policy.id) p))
            | inr (inr l) ↦ absurd l
          ]
      | inr (inl q) ↦ elim (In-append s (map close rows) (next ∷ []) j) [
        | inl l ↦
            let (s', l', p) = In-map close s rows l in
            absurd (
              fresh s' l' (
                sym (close-id s')
                ∙ ap (λ x. x.policy.id) (sym p)
                ∙ sym e
                ∙ ap (λ x. x.policy.id) q))
        | inr (inl p) ↦ q ∙ sym p
        | inr (inr l) ↦ absurd l
      ]
      | inr (inr k) ↦ absurd k
    ]

    windows_kept :
        (t : ℕ) (r s : PolicyVersionRow)
        → In r (map close rows ++ next ∷ [])
        → In s (map close rows ++ next ∷ [])
        → r.policy.policy_key ≡ s.policy.policy_key
        → IsCurrentAt t r
        → IsCurrentAt t s
        → r ≡ s
    windows_kept t r s i j key c d = elim (In-append r (map close rows) (next ∷ []) i) [
      | inl k ↦
          let (r', k', q) = In-map close r rows k in
          let c' : IsCurrentAt t (close r') = subst (IsCurrentAt t) q c in
          elim (In-append s (map close rows) (next ∷ []) j) [
            | inl l ↦
                let (s', l', p) = In-map close s rows l in
                let d' : IsCurrentAt t (close s') = subst (IsCurrentAt t) p d in
                q
                ∙ ap close (
                    versions.windows t r' s' k' l'
                      (sym (close-key r')
                        ∙ ap (λ x. x.policy.policy_key) (sym q)
                        ∙ key
                        ∙ ap (λ x. x.policy.policy_key) p
                        ∙ close-key s')
                      (close-current t r' k' c') (close-current t s' l' d'))
                ∙ sym p
            | inr (inl p) ↦ absurd (
                close-next t r' k'
                  (sym (close-key r') ∙ ap (λ x. x.policy.policy_key) (sym q) ∙ key ∙ next_key s p)
                  c' (subst (IsCurrentAt t) p d))
            | inr (inr l) ↦ absurd l
          ]
      | inr (inl q) ↦ elim (In-append s (map close rows) (next ∷ []) j) [
        | inl l ↦
            let (s', l', p) = In-map close s rows l in
            absurd (
              close-next t s' l'
                (sym (close-key s')
                  ∙ ap (λ x. x.policy.policy_key) (sym p)
                  ∙ sym key
                  ∙ next_key r q)
                (subst (IsCurrentAt t) p d) (subst (IsCurrentAt t) q c))
        | inr (inl p) ↦ q ∙ sym p
        | inr (inr l) ↦ absurd l
      ]
      | inr (inr k) ↦ absurd k
    ]

-- The next version of a policy keeps the tables in order: no two rows have one id, and at no time are
-- two versions of a policy in force. Nor is there a gap: while the old version would have been in
-- force, either it is still or the new one is. The old version is an open one of the tenant that has
-- started, and the new id is fresh.
pub create_next_policy_version-AreVersions :
    (infinity now : ℕ) (new_id tenant_id : String) (existing : PolicyVersionRow)
    (bindings : List PolicyRuleBindingClone) (patch : PolicyPatch) (tables : PolicyTables) (t : ℕ)
    → AreVersions tables.policies
    → In existing tables.policies
    → existing.policy.tenant_id ≡ tenant_id
    → existing.policy.effective_to ≡ infinity
    → existing.policy.effective_from ≤ now
    → now < infinity
    → ((r : PolicyVersionRow) → In r tables.policies → r.policy.id ≢ new_id)
    → IsCurrentAt t existing
    → AreVersions
        (create_next_policy_version infinity new_id existing tenant_id now bindings patch
          tables).0.policies
      × (IsCurrentAt t (close_version existing.policy.id tenant_id now new_id existing)
          ⊎ IsCurrentAt t
              (create_next_policy_version infinity new_id existing tenant_id now bindings patch
                tables).1)
unfolding create_next_policy_version next_version
create_next_policy_version-AreVersions infinity now new_id tenant_id existing bindings patch tables
      t versions stored own open_end started finite fresh current =
    (
      record {
        ids =
            ids_kept infinity now new_id tenant_id existing patch tables.policies versions stored
              own open_end started finite fresh;
        windows =
            windows_kept infinity now new_id tenant_id existing patch tables.policies versions
              stored own open_end started finite fresh;
      },
      elim (Bool-cases (leb now t)) [
        | inl e ↦ let later = leb→le now t e in inr (later, omega (arith, current.1, open_end))
        | inr e ↦
            let kept =
              close-from infinity now new_id tenant_id existing patch tables.policies existing in
            let ends =
              closed infinity now new_id tenant_id existing patch tables.policies versions stored
                own open_end started finite fresh in
            let early : t < now = ground (arith, e) in
            inl (omega (arith, kept, current.0), omega (arith, ends, early))
      ],
    )
