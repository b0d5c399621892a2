-- ===== src/Connectors/Osv/Fixes.antt =====
-- connectors/osv/parse.ts: the fix that an advisory names for a package, its references, and the
-- highest of the fix versions. Of the package semver, `clean` is `valid(coerce(version))` and `gt` its
-- `gt`.
pub mod Own
pub mod Highest
use mathlib.Core.Option
use dep_customs.Prelude.{
  String, Bool, true, false, not, ◌&&◌, ◌||◌, List, [], ◌∷◌, map, Option, none, some, or_else,
  str_eq, filter, is_some, if◌then◌else◌,
}

pub record OsvRangeEvent : Type 0 where
  pub introduced : Option String
  pub fixed : Option String
  pub last_affected : Option String

pub record OsvRange : Type 0 where
  pub type : String
  pub events : List OsvRangeEvent

pub record OsvAffected : Type 0 where
  pub ecosystem : String
  pub name : String
  pub ranges : Option (List OsvRange)

pub record OsvReference : Type 0 where
  pub type : String
  pub url : String

-- a text that is there and not empty
abbrev pub is_truthy : Option String → Bool
is_truthy none = false
is_truthy (some t) = not (str_eq t "")

-- the variables of the loop
pub record FixState : Type 0 where
  pub fix_version : Option String
  pub has_last_affected : Bool

unfoldable pub after_event : FixState → OsvRangeEvent → FixState
after_event state event = record {
  fix_version =
      if is_truthy event.fixed && not (is_truthy state.fix_version)
      then event.fixed
      else state.fix_version;
  has_last_affected = if is_truthy event.last_affected then true else state.has_last_affected;
}

unfoldable pub after_events : FixState → List OsvRangeEvent → FixState
after_events state [] = state
after_events state (event ∷ events) = after_events (after_event state event) events

unfoldable pub is_version_range : OsvRange → Bool
is_version_range range = str_eq range.type "SEMVER" || str_eq range.type "ECOSYSTEM"

unfoldable pub after_ranges : FixState → List OsvRange → FixState
after_ranges state [] = state
after_ranges state (range ∷ ranges) =
    after_ranges (if is_version_range range then after_events state range.events else state) ranges

unfoldable pub is_of_package : (pkg osv_ecosystem : String) → OsvAffected → Bool
is_of_package pkg osv_ecosystem a = str_eq a.ecosystem osv_ecosystem && str_eq a.name pkg

unfoldable pub after_affected :
    (pkg osv_ecosystem : String) → FixState → List OsvAffected → FixState
after_affected pkg osv_ecosystem state [] = state
after_affected pkg osv_ecosystem state (a ∷ affected) =
    after_affected pkg osv_ecosystem
      (if is_of_package pkg osv_ecosystem a
        then after_ranges state (or_else a.ranges [])
        else state)
      affected

pub record FixInfo : Type 0 where
  pub fix_version : Option String
  pub fix_available : Bool

unfoldable pub extract_fix_info : Option (List OsvAffected) → (pkg osv_ecosystem : String) → FixInfo
extract_fix_info none pkg osv_ecosystem = record { fix_version = none; fix_available = false }
extract_fix_info (some affected) pkg osv_ecosystem =
    let state =
      after_affected pkg osv_ecosystem (record { fix_version = none; has_last_affected = false })
        affected in
    record {
      fix_version = state.fix_version;
      fix_available = is_some state.fix_version || state.has_last_affected;
    }

unfoldable pub extract_reference_urls : Option (List OsvReference) → String → List String
extract_reference_urls references type =
    map (λ (r : OsvReference). r.url)
      (filter (λ (r : OsvReference). str_eq r.type type) (or_else references []))

-- each version with what `clean` makes of it, if it takes them all
unfoldable pub cleaned :
    {V : Type 0} → (String → Option V) → List String → Option (List (String × V))
cleaned clean [] = some []
cleaned clean (v ∷ versions) = elim (clean v) [
  | none ↦ none
  | some c ↦ Option.map (λ rest. (v, c) ∷ rest) (cleaned clean versions)
]

unfoldable pub highest : {V : Type 0} → (V → V → Bool) → String × V → List (String × V) → String × V
highest gt best [] = best
highest gt best (cur ∷ others) = highest gt (if gt cur.1 best.1 then cur else best) others

unfoldable pub last_of : String → List String → String
last_of v [] = v
last_of v (w ∷ versions) = last_of w versions

unfoldable pub pick_highest_version :
    {V : Type 0} → (clean : String → Option V) → (gt : V → V → Bool) → List String → Option String
pick_highest_version clean gt [] = none
pick_highest_version clean gt (v ∷ []) = some v
pick_highest_version clean gt (v ∷ w ∷ versions) = elim (cleaned clean (v ∷ w ∷ versions)) [
  | some (best ∷ others) ↦ some (highest gt best others).0
  | _ ↦ some (last_of v (w ∷ versions))
]
