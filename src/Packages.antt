-- ===== src/Packages.antt =====
-- features/packages/identity.ts and features/packages/artifact-identity.ts: the canonical spelling of
-- a package's ecosystem, name and version, and its references. JavaScript's `toLowerCase`, which
-- maps the whole of Unicode, is a parameter.
pub mod Names
pub mod Refs
pub mod Tests
use Prim.Native.Char.{Char, code}
use Prim.Native.String
use dep_customs.Prelude.{
  String, Bool, false, ◌||◌, [], ◌∷◌, Option, none, some, or_else, str_eq, trim, concat, ◌==◌,
  if◌then◌else◌,
}

pub record PackageIdentityInput : Type 0 where
  pub ecosystem : String
  pub pkg : String
  pub version : Option String

pub record CanonicalPackageIdentity : Type 0 where
  pub ecosystem : String
  pub pkg : String
  pub version : Option String

-- `[-_.]`
abbrev pub is_separator : Char → Bool
is_separator c = code c == b'-' || code c == b'_' || code c == b'.'

-- `replace(/[-_.]+/g, "-")`; the flag says that a run of separators has been replaced
unfoldable pub join_separators : Bool → String → String
join_separators in_run String.[] = ""
join_separators in_run (String.◌∷◌ c s) =
    let sep = is_separator c in
    let rest = join_separators sep s in
    if sep then (if in_run then rest else String.◌∷◌ "-" rest) else String.◌∷◌ c rest

unfoldable pub canonicalize_package_version : String → String
canonicalize_package_version version = trim version

abbrev text_or_none : String → Option String
text_or_none s = if str_eq s "" then none else some s

unfoldable pub canonicalize_optional_package_version : Option String → Option String
canonicalize_optional_package_version version =
    text_or_none (canonicalize_package_version (or_else version ""))

module _ (to_lower_case : String → String) where
  unfoldable pub canonicalize_ecosystem : String → String
  canonicalize_ecosystem ecosystem = to_lower_case (trim ecosystem)

  unfoldable pub canonicalize_package_name : (ecosystem package_name : String) → String
  canonicalize_package_name ecosystem package_name =
      let trimmed = to_lower_case (trim package_name) in
      if str_eq (canonicalize_ecosystem ecosystem) "pypi"
      then join_separators false trimmed
      else trimmed

  unfoldable pub canonicalize_package_identity : PackageIdentityInput → CanonicalPackageIdentity
  canonicalize_package_identity input =
      let ecosystem = canonicalize_ecosystem input.ecosystem in
      record {
        ecosystem = ecosystem;
        pkg = canonicalize_package_name ecosystem input.pkg;
        version = canonicalize_optional_package_version input.version;
      }

  unfoldable pub package_key : (ecosystem package_name : String) → String
  package_key ecosystem package_name = concat (
      canonicalize_ecosystem ecosystem
      ∷ "|"
      ∷ canonicalize_package_name ecosystem package_name
      ∷ [])

-- `buildArtifactCanonicalRef`
abbrev ref_with : String → Option String → String
ref_with base none = base
ref_with base (some version) =
    if str_eq version "" then base else String.◌++◌ base (String.◌∷◌ ":" version)

unfoldable pub build_artifact_canonical_ref : CanonicalPackageIdentity → String
build_artifact_canonical_ref identity =
    ref_with (String.◌++◌ identity.ecosystem (String.◌∷◌ ":" identity.pkg)) identity.version

-- `indexOf(":")`: the text in front of the first colon and the text behind it
unfoldable pub split_first : String → Option (String × String)
split_first String.[] = none
split_first (String.◌∷◌ c s) =
    let rest = split_first s in
    if code c == b':'
    then some ("", s)
    else elim rest [ none ↦ none | some (a, b) ↦ some (String.◌∷◌ c a, b) ]

-- `lastIndexOf(":")`: the text in front of the last colon and the text behind it
unfoldable pub split_last : String → Option (String × String)
split_last String.[] = none
split_last (String.◌∷◌ c s) = elim (split_last s) [
  | some (a, b) ↦ some (String.◌∷◌ c a, b)
  | none ↦ if code c == b':' then some ("", s) else none
]

unfoldable pub parse_package_ref : String → Option PackageIdentityInput
parse_package_ref package_ref = elim (split_first package_ref) [
  | none ↦ none
  | some (ecosystem, rest) ↦ elim (split_last rest) [
    | none ↦ some (record { ecosystem = ecosystem; pkg = rest; version = none })
    | some (name, version) ↦
        some (record { ecosystem = ecosystem; pkg = name; version = some version })
  ]
]
