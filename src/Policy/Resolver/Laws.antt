-- ===== src/Policy/Resolver/Laws.antt =====
-- What connectors can and cannot write into the field map of policy/resolver.ts.
use Prim.Native.String
use text.Mathlib.TextPositions.{starts_with-append}
use dep_customs.Prelude.{
  String, ◌≡◌, ◌≢◌, refl, ◌∙◌, true, false, List, [], ◌∷◌, subst, Option-cases, str_eq, eq_iff,
  starts_with, Bool-cases, inl, inr, All, All-In,
}
use dep_customs.Policy.Value.{Value, str}
use dep_customs.Policy.Expression.{Fields, get_field}
use dep_customs.Policy.Resolver.{
  SnapshotMeta, ConnectorSnapshot, AssetContext, text_or_null, num_or_null, write, meta_ref,
  field_ref, error_field, meta_fields, data_fields, snapshot_fields, resolve_fields,
}

-- A name that no connector writes: it does not begin with `source.`.
abbrev pub IsBuiltIn : String → Type 0
IsBuiltIn name = starts_with name "source." ≡ false

pub str_ne : (s t : String) → s ≢ t → str_eq s t ≡ false
str_ne s t h = elim (Bool-cases (str_eq s t)) [ inl e ↦ absurd (h ((eq_iff s t).0 e)) | inr e ↦ e ]

source-ne : (name rest : String) → IsBuiltIn name → str_eq (String.◌++◌ "source." rest) name ≡ false
source-ne name rest h = str_ne _ _ λ e.
    let p : starts_with name "source." ≡ true =
      subst (λ t. starts_with t "source." ≡ true) e (starts_with-append "source." rest) in
    cc (h, p)

-- No entry that the connector of a key writes has a given name.
pub record Untouched (name key : String) : Type 0 where
  pub meta : (n : String) → str_eq (meta_ref key n) name ≡ false
  pub field : (n : String) → str_eq (field_ref key n) name ≡ false

IsBuiltIn-Untouched : (name key : String) → IsBuiltIn name → Untouched name key
IsBuiltIn-Untouched name key h = record {
  meta = λ n. source-ne name _ h;
  field = λ n. source-ne name _ h;
}

module _ {N : Type 0} (name : String) where
  get_field-meta :
      (key : String) (meta : SnapshotMeta N) (fields : Fields N)
      → Untouched name key
      → get_field name (meta_fields key meta fields) ≡ get_field name fields
  unfolding get_field meta_fields
  get_field-meta key meta fields u = elim (Option-cases meta.error_code) [
    | inl e ↦ rw (e, error_field) (simp u.meta)
    | inr (c, e) ↦ rw (e, error_field) (simp u.meta)
  ]

  get_field-data :
      (key : String) (values : List (String × Value N)) (fields : Fields N)
      → Untouched name key
      → get_field name (data_fields key values fields) ≡ get_field name fields
  unfolding get_field data_fields
  get_field-data key [] fields u = refl
  get_field-data key ((n, v) ∷ more) fields u =
      get_field-data key more (write (field_ref key n) v fields) u ∙ rw (u.field n)

  pub get_field-snapshots :
      (snapshots : List (ConnectorSnapshot N)) (fields : Fields N)
      → All (λ s. Untouched name s.connector_key) snapshots
      → get_field name (snapshot_fields snapshots fields) ≡ get_field name fields
  unfolding snapshot_fields
  get_field-snapshots [] fields u = refl
  get_field-snapshots (s ∷ more) fields (u, us) =
      get_field-snapshots more _ us
      ∙ get_field-data s.connector_key s.fields _ u
      ∙ get_field-meta s.connector_key s.meta fields u

  get_field_built_in :
      (snapshots : List (ConnectorSnapshot N)) (fields : Fields N)
      → IsBuiltIn name
      → get_field name (snapshot_fields snapshots fields) ≡ get_field name fields
  get_field_built_in snapshots fields h =
      get_field-snapshots snapshots fields
        (All-In _ snapshots (λ s _. IsBuiltIn-Untouched name s.connector_key h))

-- The asset fields and the request's time are what the request says, whatever the connectors report.
resolve_fields_asset :
    {N : Type 0} (now : String) (snapshots : List (ConnectorSnapshot N)) (asset : AssetContext N)
    → (get_field "asset.ecosystem" (resolve_fields now snapshots asset) ≡ str asset.ecosystem)
      × (get_field "asset.package" (resolve_fields now snapshots asset) ≡ str asset.pkg)
      × (get_field "asset.version" (resolve_fields now snapshots asset) ≡ str asset.version)
      × (get_field "asset.version_published_at" (resolve_fields now snapshots asset)
          ≡ text_or_null asset.version_published_at)
      × (get_field "asset.version_age_days" (resolve_fields now snapshots asset)
          ≡ num_or_null asset.version_age_days)
      × (get_field "asset.latest_version_published_at" (resolve_fields now snapshots asset)
          ≡ text_or_null asset.latest_version_published_at)
      × (get_field "runtime.request_timestamp" (resolve_fields now snapshots asset) ≡ str now)
unfolding resolve_fields get_field
resolve_fields_asset now snapshots asset = (
  get_field_built_in "asset.ecosystem" snapshots _ refl,
  get_field_built_in "asset.package" snapshots _ refl,
  get_field_built_in "asset.version" snapshots _ refl,
  get_field_built_in "asset.version_published_at" snapshots _ refl,
  get_field_built_in "asset.version_age_days" snapshots _ refl,
  get_field_built_in "asset.latest_version_published_at" snapshots _ refl,
  get_field_built_in "runtime.request_timestamp" snapshots _ refl,
)
