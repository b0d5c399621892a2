-- ===== src/Packages/Tests.antt =====
-- A package whose name has a colon.
use dep_customs.Prelude.{String, ◌≡◌, ◌≢◌, some, arith, eq_iff}
use dep_customs.Packages.{CanonicalPackageIdentity, build_artifact_canonical_ref, parse_package_ref}
use dep_customs.Packages.Refs.{parse_package_ref-build}

abbrev artifact : CanonicalPackageIdentity
artifact = record { ecosystem = "go"; pkg = "a:b"; version = some "3" }

version_ne : ◌≢◌ {A = String} "3" ""
version_ne e = ground (arith, eq_iff "3" "", e)

parse_package_ref-build_example :
    parse_package_ref (build_artifact_canonical_ref artifact)
    ≡ some (record { ecosystem = "go"; pkg = "a:b"; version = some "3" })
parse_package_ref-build_example =
    parse_package_ref-build artifact ((λ e. omega (arith, e)), ((λ e. omega (arith, e)), tt))
      (version_ne, ((λ e. omega (arith, e)), tt))
