-- ===== src/Policy/Resolver/Owned.antt =====
-- The entries of one connector in the field map of policy/resolver.ts: what another connector, whose
-- key is another dot-free text, writes does not touch them.
use Prim.Native.Char.{code}
use Prim.Native.String
use text.Mathlib.TextLemmas.{
  nil-append, cons-append, append_cancel_left, append_cancel_right, append_assoc,
  head-eq_of_cons-eq, tail-eq_of_cons-eq,
}
use mathlib.Core.Path.{ap₂}
use dep_customs.Prelude.{
  String, ◌≡◌, ◌≢◌, refl, sym, ap, ◌∙◌, false, List, [], ◌∷◌, ◌++◌, str_eq, eq_iff, eq_refl,
  Option-cases, inl, inr, All, All-In, In-All,
}
use dep_customs.Policy.Value.{Value, str}
use dep_customs.Policy.Expression.{Fields, get_field}
use dep_customs.Policy.Resolver.{
  SnapshotMeta, ConnectorSnapshot, AssetContext, write, meta_ref, field_ref, asset_fields,
  error_field, meta_fields, data_fields, snapshot_fields, resolve_fields,
}
use dep_customs.Policy.Resolver.Laws.{Untouched, str_ne, get_field-snapshots}

-- A text without a dot.
abbrev pub IsDotFree : String → Type 0
IsDotFree String.[] = Unit
IsDotFree (String.◌∷◌ c s) = (code c ≢ b'.') × IsDotFree s

dot_injective :
    (k l r s : String)
    → IsDotFree k
    → IsDotFree l
    → String.◌++◌ k (String.◌∷◌ "." r) ≡ String.◌++◌ l (String.◌∷◌ "." s)
    → k ≡ l
dot_injective String.[] String.[] r s hk hl e = refl
dot_injective String.[] (String.◌∷◌ d l) r s hk hl e =
    absurd (hl.0 (ap code (sym (head-eq_of_cons-eq (rw (nil-append, cons-append) at e)))))
dot_injective (String.◌∷◌ c k) String.[] r s hk hl e =
    absurd (hk.0 (ap code (head-eq_of_cons-eq (rw (nil-append, cons-append) at e))))
dot_injective (String.◌∷◌ c k) (String.◌∷◌ d l) r s hk hl e =
    let e' : String.◌∷◌ c (String.◌++◌ k (String.◌∷◌ "." r))
        ≡ String.◌∷◌ d (String.◌++◌ l (String.◌∷◌ "." s)) =
      rw (cons-append, cons-append) at e in
    ap₂ String.◌∷◌ (head-eq_of_cons-eq e') (dot_injective k l r s hk.1 hl.1 (tail-eq_of_cons-eq e'))

-- the references of a connector, `source.${key}.…`
abbrev dotted : String → String → String
dotted key r = String.◌++◌ "source." (String.◌++◌ key (String.◌∷◌ "." r))

meta_ref-dotted :
    (key name : String)
    → meta_ref key name ≡ dotted key (String.◌++◌ "_meta." (String.◌++◌ name ""))
meta_ref-dotted key name =
    ap (λ t. String.◌++◌ "source." (String.◌++◌ key t)) (cons-append "." "_meta." _)

field_ref-dotted : (key name : String) → field_ref key name ≡ dotted key (String.◌++◌ name "")
field_ref-dotted key name =
    ap (λ t. String.◌++◌ "source." (String.◌++◌ key t))
      (cons-append "." "" _ ∙ ap (String.◌∷◌ ".") (nil-append _))

dotted-ne :
    (key other r s : String)
    → IsDotFree key
    → IsDotFree other
    → other ≢ key
    → str_eq (dotted other s) (dotted key r) ≡ false
dotted-ne key other r s hk ho ne =
    str_ne _ _ λ e. ne (dot_injective other key s r ho hk (append_cancel_left "source." _ _ e))

-- Another connector's entries.
dotted-Untouched :
    (key other r : String)
    → IsDotFree key
    → IsDotFree other
    → other ≢ key
    → Untouched (dotted key r) other
dotted-Untouched key other r hk ho ne = record {
  meta = λ n. rw (meta_ref-dotted other n) (dotted-ne key other r _ hk ho ne);
  field = λ n. rw (field_ref-dotted other n) (dotted-ne key other r _ hk ho ne);
}

module _ {N : Type 0} where
  -- Every snapshot is of another dot-free key.
  abbrev pub AreOthers : String → List (ConnectorSnapshot N) → Type 0
  AreOthers key = All (λ s. IsDotFree s.connector_key × (s.connector_key ≢ key))

  get_field-others :
      (key r : String) (snapshots : List (ConnectorSnapshot N)) (fields : Fields N)
      → IsDotFree key
      → AreOthers key snapshots
      → get_field (dotted key r) (snapshot_fields snapshots fields)
        ≡ get_field (dotted key r) fields
  get_field-others key r snapshots fields hk others =
      get_field-snapshots (dotted key r) snapshots fields (
        All-In _ snapshots λ s i.
          let (free, ne) = In-All _ s snapshots others i in
          dotted-Untouched key s.connector_key r hk free ne)

  get_field-others_meta :
      (key m : String) (snapshots : List (ConnectorSnapshot N)) (fields : Fields N)
      → IsDotFree key
      → AreOthers key snapshots
      → get_field (meta_ref key m) (snapshot_fields snapshots fields)
        ≡ get_field (meta_ref key m) fields
  get_field-others_meta key m snapshots fields hk others =
      rw (meta_ref-dotted key m) (get_field-others key _ snapshots fields hk others)

  snapshot_fields-append :
      (pre post : List (ConnectorSnapshot N)) (fields : Fields N)
      → snapshot_fields (pre ++ post) fields ≡ snapshot_fields post (snapshot_fields pre fields)
  unfolding snapshot_fields
  snapshot_fields-append [] post fields = refl
  snapshot_fields-append (s ∷ pre) post fields = snapshot_fields-append pre post _

meta_ref-ne :
    (key n m : String) → str_eq n m ≡ false → str_eq (meta_ref key n) (meta_ref key m) ≡ false
meta_ref-ne key n m ne = str_ne _ _ λ e.
    let e' =
      append_cancel_left "._meta." _ _
        (append_cancel_left key _ _ (append_cancel_left "source." _ _ e)) in
    cc (ne, (eq_iff n m).1 (append_cancel_right n m "" e'))

-- A data field that is spelled like a metadata field would be written over it.
field_ref-ne :
    (key n m : String)
    → n ≢ String.◌++◌ "_meta." m
    → str_eq (field_ref key n) (meta_ref key m) ≡ false
field_ref-ne key n m ne = str_ne _ _ λ e.
    let e₁ = append_cancel_left key _ _ (append_cancel_left "source." _ _ e) in
    let e₂ = append_cancel_left "." _ _ (e₁ ∙ append_assoc "." "_meta." _) in
    ne (append_cancel_right n _ "" (e₂ ∙ sym (append_assoc "_meta." m "")))

module _ (key : String) where
  error_code-ne : str_eq (meta_ref key "error_code") (meta_ref key "status") ≡ false
  error_code-ne = meta_ref-ne key "error_code" "status" refl

  is_cache_hit-ne : str_eq (meta_ref key "is_cache_hit") (meta_ref key "status") ≡ false
  is_cache_hit-ne = meta_ref-ne key "is_cache_hit" "status" refl

  cache_age_hours-ne : str_eq (meta_ref key "cache_age_hours") (meta_ref key "status") ≡ false
  cache_age_hours-ne = meta_ref-ne key "cache_age_hours" "status" refl

  response_time_ms-ne : str_eq (meta_ref key "response_time_ms") (meta_ref key "status") ≡ false
  response_time_ms-ne = meta_ref-ne key "response_time_ms" "status" refl

  ruleset own_rules =
      (error_code-ne, is_cache_hit-ne, cache_age_hours-ne, response_time_ms-ne, eq_refl)

module _ {N : Type 0} (key : String) where
  -- The connector's own data fields leave a metadata entry alone.
  get_field-own_data :
      (m : String) (values : List (String × Value N)) (fields : Fields N)
      → All (λ v. v.0 ≢ String.◌++◌ "_meta." m) values
      → get_field (meta_ref key m) (data_fields key values fields)
        ≡ get_field (meta_ref key m) fields
  unfolding get_field data_fields
  get_field-own_data m [] fields h = refl
  get_field-own_data m ((n, v) ∷ more) fields (h, hs) =
      get_field-own_data m more (write (field_ref key n) v fields) hs ∙ rw (field_ref-ne key n m h)

  get_field-own_status :
      (meta : SnapshotMeta N) (fields : Fields N)
      → get_field (meta_ref key "status") (meta_fields key meta fields) ≡ str meta.status
  unfolding get_field meta_fields
  get_field-own_status meta fields = elim (Option-cases meta.error_code) [
    | inl e ↦ rw (e, error_field) (simp (own_rules))
    | inr (c, e) ↦ rw (e, error_field) (simp (own_rules))
  ]

module _ {N : Type 0} where
  -- `source.<key>._meta.status` is the status of the connector's snapshot, if the later snapshots
  -- have other keys, the keys have no dot, and no data field is spelled `_meta.status`.
  pub resolve_fields_status :
      (now : String) (pre : List (ConnectorSnapshot N)) (s : ConnectorSnapshot N)
      (post : List (ConnectorSnapshot N)) (asset : AssetContext N)
      → IsDotFree s.connector_key
      → AreOthers s.connector_key post
      → All (λ v. v.0 ≢ "_meta.status") s.fields
      → get_field (meta_ref s.connector_key "status") (resolve_fields now (pre ++ s ∷ post) asset)
        ≡ str s.meta.status
  unfolding resolve_fields
  resolve_fields_status now pre s post asset free others plain =
      let key = s.connector_key in
      let ref = meta_ref key "status" in
      let start = asset_fields asset [] in
      let before = snapshot_fields pre (write "runtime.request_timestamp" (str now) start) in
      let own = meta_fields key s.meta before in
      ap (get_field ref) (snapshot_fields-append pre (s ∷ post) _)
      ∙ get_field-others_meta key "status" post (data_fields key s.fields own) free others
      ∙ get_field-own_data key "status" s.fields own plain
      ∙ get_field-own_status key s.meta before
