-- ===== src/Connectors/Osv/Fixes/Own.antt =====
-- The fix of an advisory comes from the ranges of the package that was asked about, and no other.
use dep_customs.Prelude.{
  String, ◌≡◌, refl, sym, ap, subst, ◌∙◌, Bool, true, false, ◌||◌, List, [], ◌∷◌, ◌++◌, Option,
  none, some, inl, inr, or_else, filter, any, find, flat_map, str_eq, ◌&&◌, is_some, arith,
  if◌then◌else◌, Bool-cases,
}
use dep_customs.Connectors.Osv.Fixes.{
  OsvRangeEvent, OsvRange, OsvAffected, is_truthy, FixState, after_event, after_events,
  is_version_range, after_ranges, is_of_package, after_affected, extract_fix_info,
}

abbrev pub is_own : (pkg osv_ecosystem : String) → OsvAffected → Bool
is_own pkg osv_ecosystem a = str_eq a.ecosystem osv_ecosystem && str_eq a.name pkg

abbrev pub is_of_versions : OsvRange → Bool
is_of_versions range = str_eq range.type "SEMVER" || str_eq range.type "ECOSYSTEM"

-- the events of the version ranges of the package
abbrev pub events_of : (pkg osv_ecosystem : String) → List OsvAffected → List OsvRangeEvent
events_of pkg osv_ecosystem affected =
    flat_map (λ (range : OsvRange). range.events)
      (filter is_of_versions (
        flat_map (λ (a : OsvAffected). or_else a.ranges [])
          (filter (is_own pkg osv_ecosystem) affected)))

abbrev pub names_fix : OsvRangeEvent → Bool
names_fix event = is_truthy event.fixed

abbrev pub is_bounded : OsvRangeEvent → Bool
is_bounded event = is_truthy event.fixed || is_truthy event.last_affected

abbrev pub fixed_of : Option OsvRangeEvent → Option String
fixed_of none = none
fixed_of (some event) = event.fixed

after_events-append :
    (state : FixState) (xs ys : List OsvRangeEvent)
    → after_events state (xs ++ ys) ≡ after_events (after_events state xs) ys
unfolding after_events
after_events-append state [] ys = refl
after_events-append state (x ∷ xs) ys = after_events-append (after_event state x) xs ys

after_ranges-eq :
    (state : FixState) (ranges : List OsvRange)
    → after_ranges state ranges
      ≡ after_events state (flat_map (λ (r : OsvRange). r.events) (filter is_version_range ranges))
unfolding after_ranges after_events
after_ranges-eq state [] = refl
after_ranges-eq state (r ∷ ranges) = elim (Bool-cases (is_version_range r)) [
  | inl e ↦ rw e (
      after_ranges-eq (after_events state r.events) ranges
      ∙ sym (
          after_events-append state r.events
            (flat_map (λ (r : OsvRange). r.events) (filter is_version_range ranges))))
  | inr e ↦ rw e (after_ranges-eq state ranges)
]

after_ranges-append :
    (state : FixState) (xs ys : List OsvRange)
    → after_ranges state (xs ++ ys) ≡ after_ranges (after_ranges state xs) ys
unfolding after_ranges
after_ranges-append state [] ys = refl
after_ranges-append state (x ∷ xs) ys =
    after_ranges-append (if is_version_range x then after_events state x.events else state) xs ys

after_affected-eq :
    (pkg osv_ecosystem : String) (state : FixState) (affected : List OsvAffected)
    → after_affected pkg osv_ecosystem state affected
      ≡ after_ranges state (
          flat_map
            (λ (a : OsvAffected). or_else a.ranges [])
            (filter (is_of_package pkg osv_ecosystem) affected))
unfolding after_affected after_ranges
after_affected-eq pkg eco state [] = refl
after_affected-eq pkg eco state (a ∷ affected) = elim (Bool-cases (is_of_package pkg eco a)) [
  | inl e ↦ rw e (
      after_affected-eq pkg eco (after_ranges state (or_else a.ranges [])) affected
      ∙ sym (
          after_ranges-append state (or_else a.ranges []) (
            flat_map (λ (a : OsvAffected). or_else a.ranges [])
              (filter (is_of_package pkg eco) affected))))
  | inr e ↦ rw e (after_affected-eq pkg eco state affected)
]

or_assoc : (a b c : Bool) → ((a || b) || c) ≡ (a || (b || c))
or_assoc true b c = refl
or_assoc false b c = refl

after_event-some :
    (v : String) (last : Bool) (e : OsvRangeEvent)
    → is_truthy (some v) ≡ true
    → after_event (record { fix_version = some v; has_last_affected = last }) e
      ≡ record { fix_version = some v; has_last_affected = last || is_truthy e.last_affected }
unfolding after_event
after_event-some v last e t = ground arith

after_event-none :
    (v : String) (last : Bool) (e : OsvRangeEvent)
    → is_truthy (some v) ≡ true
    → e.fixed ≡ some v
    → after_event (record { fix_version = none; has_last_affected = last }) e
      ≡ record { fix_version = some v; has_last_affected = last || is_truthy e.last_affected }
unfolding after_event
after_event-none v last e t q = ground arith

after_event-unnamed :
    (last : Bool) (e : OsvRangeEvent)
    → is_truthy e.fixed ≡ false
    → after_event (record { fix_version = none; has_last_affected = last }) e
      ≡ record { fix_version = none; has_last_affected = last || is_truthy e.last_affected }
unfolding after_event
after_event-unnamed last e t = ground arith

-- what the events do to a state that has a fix version, or has none
after_events-some :
    (v : String) (last : Bool) (events : List OsvRangeEvent)
    → is_truthy (some v) ≡ true
    → after_events (record { fix_version = some v; has_last_affected = last }) events ≡ record {
      fix_version = some v;
      has_last_affected = last || any (λ (e : OsvRangeEvent). is_truthy e.last_affected) events;
    }
unfolding after_events
after_events-some v last [] t = ground arith
after_events-some v last (e ∷ events) t =
    ap (λ s. after_events s events) (after_event-some v last e t)
    ∙ after_events-some v (last || is_truthy e.last_affected) events t
    ∙ ap (λ (b : Bool). record { fix_version = some v; has_last_affected = b })
        (or_assoc last (is_truthy e.last_affected)
          (any (λ (e : OsvRangeEvent). is_truthy e.last_affected) events))

truthy_value : (o : Option String) → is_truthy o ≡ true → (v : String) × (o ≡ some v)
truthy_value none t = absurd (cc t)
truthy_value (some v) t = (v, refl)

after_events-none :
    (last : Bool) (events : List OsvRangeEvent)
    → after_events (record { fix_version = none; has_last_affected = last }) events ≡ record {
      fix_version = fixed_of (find names_fix events);
      has_last_affected = last || any (λ (e : OsvRangeEvent). is_truthy e.last_affected) events;
    }
unfolding after_events
after_events-none last [] = ground arith
after_events-none last (e ∷ events) = elim (Bool-cases (is_truthy e.fixed)) [
  | inl t ↦
      let (v, q) = truthy_value e.fixed t in
      let t' = subst (λ o. is_truthy o ≡ true) q t in
      let first : fixed_of (find names_fix (e ∷ events)) ≡ some v = rw t q in
      ap (λ s. after_events s events) (after_event-none v last e t' q)
      ∙ after_events-some v (last || is_truthy e.last_affected) events t'
      ∙ ap (λ (b : Bool). record { fix_version = some v; has_last_affected = b })
          (or_assoc last (is_truthy e.last_affected)
            (any (λ (e : OsvRangeEvent). is_truthy e.last_affected) events))
      ∙ ap
          (λ (o : Option String). record {
            fix_version = o;
            has_last_affected =
                last || any (λ (e : OsvRangeEvent). is_truthy e.last_affected) (e ∷ events);
          })
          (sym first)
  | inr t ↦
      let later : find names_fix (e ∷ events) ≡ find names_fix events = rw t refl in
      ap (λ s. after_events s events) (after_event-unnamed last e t)
      ∙ after_events-none (last || is_truthy e.last_affected) events
      ∙ ap
          (λ (b : Bool). record {
            fix_version = fixed_of (find names_fix events);
            has_last_affected = b;
          })
          (or_assoc last (is_truthy e.last_affected)
            (any (λ (e : OsvRangeEvent). is_truthy e.last_affected) events))
      ∙ ap
          (λ (o : Option OsvRangeEvent). record {
            fix_version = fixed_of o;
            has_last_affected =
                last || any (λ (e : OsvRangeEvent). is_truthy e.last_affected) (e ∷ events);
          })
          (sym later)
]

swap : (a b c : Bool) → (a || (b || c)) ≡ (b || (a || c))
swap true true c = refl
swap true false c = refl
swap false b c = refl

available-eq :
    (events : List OsvRangeEvent)
    → (is_some (fixed_of (find names_fix events))
        || any (λ (e : OsvRangeEvent). is_truthy e.last_affected) events)
      ≡ any is_bounded events
available-eq [] = refl
available-eq (e ∷ events) = elim (Bool-cases (is_truthy e.fixed)) [
  | inl t ↦ let (v, q) = truthy_value e.fixed t in rw (t, q) refl
  | inr t ↦ rw t (
      swap (is_some (fixed_of (find names_fix events))) (is_truthy e.last_affected)
        (any (λ (e : OsvRangeEvent). is_truthy e.last_affected) events)
      ∙ ap (λ b. is_truthy e.last_affected || b) (available-eq events))
]

events_of-eq :
    (pkg osv_ecosystem : String) (affected : List OsvAffected)
    → flat_map
        (λ (range : OsvRange). range.events)
        (filter is_version_range (
          flat_map
            (λ (a : OsvAffected). or_else a.ranges [])
            (filter (is_of_package pkg osv_ecosystem) affected)))
      ≡ events_of pkg osv_ecosystem affected
unfolding is_of_package is_version_range
events_of-eq pkg osv_ecosystem affected = refl

-- The fix version is the first that an event of the package's version ranges names, and a fix is
-- available just if such an event names a fix or a last affected version. Entries of other packages
-- or ecosystems and ranges of other kinds make no difference.
pub extract_fix_info-own :
    (affected : List OsvAffected) (pkg osv_ecosystem : String)
    → extract_fix_info (some affected) pkg osv_ecosystem ≡ record {
      fix_version = fixed_of (find names_fix (events_of pkg osv_ecosystem affected));
      fix_available = any is_bounded (events_of pkg osv_ecosystem affected);
    }
unfolding extract_fix_info
extract_fix_info-own affected pkg osv_ecosystem =
    rw
      (
        after_affected-eq pkg osv_ecosystem
            (record { fix_version = none; has_last_affected = false }) affected,
        after_ranges-eq,
        events_of-eq pkg osv_ecosystem affected,
        after_events-none,
        available-eq,
      )
      refl
