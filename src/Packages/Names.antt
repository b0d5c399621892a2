-- ===== src/Packages/Names.antt =====
-- The separators in a PyPI name.
use dep_customs.Prelude.{String, ◌≡◌, refl, ap, Bool, true, false, inl, inr, Bool-cases}
use dep_customs.Packages.{is_separator, join_separators}

joined_twice :
    (s : String)
    → ((b : Bool) → join_separators b (join_separators true s) ≡ join_separators true s)
      × (join_separators false (join_separators false s) ≡ join_separators false s)
unfolding join_separators
joined_twice String.[] = ((λ b. refl), refl)
joined_twice (String.◌∷◌ c s) =
    let (after_run, after_char) = joined_twice s in
    elim (Bool-cases (is_separator c)) [
      | inl e ↦ rw (e, join_separators) (after_run, ap (String.◌∷◌ "-") (after_run true))
      | inr e ↦
          rw (e, join_separators)
            (
              (λ b. rw (e, join_separators) (ap (String.◌∷◌ c) after_char)),
              rw (e, join_separators) (ap (String.◌∷◌ c) after_char),
            )
    ]

-- A name whose separators have been joined is left as it is.
pub join_separators_idempotent :
    (s : String) → join_separators false (join_separators false s) ≡ join_separators false s
join_separators_idempotent s = (joined_twice s).1
