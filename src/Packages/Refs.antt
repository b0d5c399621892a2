-- ===== src/Packages/Refs.antt =====
-- Round trip of package references.
use Prim.Native.Char.{code}
use Prim.Native.String
use text.Mathlib.TextLemmas.{nil-append, cons-append, append_assoc}
use dep_customs.Prelude.{
  String, ◌≡◌, ◌≢◌, refl, ap, ◌∙◌, false, Option, none, some, arith, str_eq, eq_iff,
}
use dep_customs.Packages.{
  CanonicalPackageIdentity, build_artifact_canonical_ref, split_first, split_last,
  parse_package_ref,
}

-- A text without a colon.
abbrev pub IsColonFree : String → Type 0
IsColonFree String.[] = Unit
IsColonFree (String.◌∷◌ c s) = (code c ≢ b':') × IsColonFree s

-- A version that a reference can carry: none, or a text that is not empty and has no colon. With no
-- version the name has no colon.
abbrev pub CanCarry : String → Option String → Type 0
CanCarry pkg none = IsColonFree pkg
CanCarry pkg (some version) = (version ≢ "") × IsColonFree version

split_first-append :
    (a b : String) → IsColonFree a → split_first (String.◌++◌ a (String.◌∷◌ ":" b)) ≡ some (a, b)
unfolding split_first
split_first-append String.[] b h = rw nil-append refl
split_first-append (String.◌∷◌ c a) b (h, k) =
    rw cons-append (ground (arith, split_first-append a b k))

split_last-none : (s : String) → IsColonFree s → split_last s ≡ none
unfolding split_last
split_last-none String.[] h = refl
split_last-none (String.◌∷◌ c s) (h, k) = ground (arith, split_last-none s k)

split_last-append :
    (a b : String) → IsColonFree b → split_last (String.◌++◌ a (String.◌∷◌ ":" b)) ≡ some (a, b)
unfolding split_last
split_last-append String.[] b h = rw (nil-append) (ground (arith, split_last-none b h))
split_last-append (String.◌∷◌ c a) b h = rw cons-append (ground (arith, split_last-append a b h))

not_empty : (s : String) → s ≢ "" → str_eq s "" ≡ false
not_empty s ne = ground (arith, ne, eq_iff s "")

with_version :
    (e p v : String)
    → v ≢ ""
    → build_artifact_canonical_ref (record { ecosystem = e; pkg = p; version = some v })
      ≡ String.◌++◌ e (String.◌∷◌ ":" (String.◌++◌ p (String.◌∷◌ ":" v)))
unfolding build_artifact_canonical_ref
with_version e p v ne = rw (not_empty v ne) (
    append_assoc e (String.◌∷◌ ":" p) (String.◌∷◌ ":" v)
    ∙ ap (String.◌++◌ e) (cons-append ":" p (String.◌∷◌ ":" v)))

parsed :
    (e p : String) (version : Option String)
    → IsColonFree e
    → CanCarry p version
    → parse_package_ref
        (build_artifact_canonical_ref (record { ecosystem = e; pkg = p; version = version }))
      ≡ some (record { ecosystem = e; pkg = p; version = version })
unfolding parse_package_ref build_artifact_canonical_ref
parsed e p none h k = rw (split_first-append e p h, parse_package_ref, split_last-none p k) refl
parsed e p (some v) h (ne, k) =
    ap parse_package_ref (with_version e p v ne)
    ∙ rw
        (
          split_first-append e (String.◌++◌ p (String.◌∷◌ ":" v)) h,
          parse_package_ref,
          split_last-append p v k,
        )
        refl

-- A canonical reference is parsed to the identity that it was made of, if the ecosystem has no colon
-- and the version is none or a text that is not empty and has no colon; without a version the name
-- has no colon either.
pub parse_package_ref-build :
    (identity : CanonicalPackageIdentity)
    → IsColonFree identity.ecosystem
    → CanCarry identity.pkg identity.version
    → parse_package_ref (build_artifact_canonical_ref identity)
      ≡ some (record {
        ecosystem = identity.ecosystem;
        pkg = identity.pkg;
        version = identity.version;
      })
parse_package_ref-build identity h k = parsed identity.ecosystem identity.pkg identity.version h k
