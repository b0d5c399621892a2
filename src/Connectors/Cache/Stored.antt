-- ===== src/Connectors/Cache/Stored.antt =====
-- What is read from the cache after an upsert.
use dep_customs.Prelude.{
  ℕ, String, Bool, true, false, ◌||◌, List, [], ◌∷◌, map, Option, none, some, or_else, ltb, leb,
  if◌then◌else◌, find, ◌+◌, ◌*◌, ◌-◌, ◌≡◌, refl, eq_refl, Bool-cases, arith, inl, inr, eq_iff, ap,
  ◌∙◌,
}
use dep_customs.Connectors.Results.{ConnectorFinding, ConnectorResult, findings_summary_from_result}
use dep_customs.Connectors.Entries.{
  ConnectorArtifactEvent, package_metadata, artifact_request, Connector, CacheRow,
  find_fresh_cache_row, is_entry, fresh_row, is_keyed, has_id,
}
use dep_customs.Connectors.Cache.{
  read_finding, write_finding, upsert_cached_result, written_row, stored_summary,
  get_package_scoped_cached_result, interpret_cache_row, cache_data, get_cached_result,
  build_cached_snapshot, is_broken,
}

find-head :
    {A : Type 0} (p : A → Bool) (x : A) (xs : List A) → p x ≡ true → find p (x ∷ xs) ≡ some x
find-head p x xs e = rw e refl

module _ {N : Type 0} where
  read-write : (fs : List (ConnectorFinding N)) → map read_finding (map write_finding fs) ≡ fs
  unfolding read_finding write_finding
  read-write [] = refl
  read-write (f ∷ fs) = ap (λ x. f ∷ x) (read-write fs)

  -- findings are counted and none is listed
  abbrev pub counts_missing : ℕ → List (ConnectorFinding N) → Bool
  counts_missing count [] = ltb 0 count
  counts_missing count (f ∷ fs) = false

  broken-missing :
      (row : CacheRow N) (fs : List (ConnectorFinding N))
      → is_broken row (map write_finding fs) ≡ counts_missing row.finding_count fs
  unfolding is_broken
  broken-missing row [] = refl
  broken-missing row (f ∷ fs) = refl

  written-entry :
      (connector : Connector) (event : ConnectorArtifactEvent) (result : ConnectorResult N)
      (ttl : Option ℕ) (at : ℕ) (id : String)
      → is_entry connector event (written_row connector event result ttl at id) ≡ true
  unfolding is_entry written_row is_keyed has_id dep_customs.Connectors.Entries.event_package_id
      dep_customs.Connectors.Entries.event_package_version_id
  written-entry connector (package_metadata p) result ttl at id =
      ground (arith, eq_refl connector.id, eq_refl p)
  written-entry connector (artifact_request p v) result ttl at id =
      ground (arith, eq_refl connector.id, eq_refl v)

  module _ (connector : Connector) (event : ConnectorArtifactEvent) (result : ConnectorResult N)
      (ttl : Option ℕ) (at : ℕ) (new_id : String) where
    abbrev written : String → CacheRow N
    written id = written_row connector event result ttl at id

    found : (id : String) → is_entry connector event (written id) ≡ true
    found id = written-entry connector event result ttl at id

    entry-connector :
        (row : CacheRow N) → is_entry connector event row ≡ true → row.connector_id ≡ connector.id
    unfolding is_entry
    entry-connector row e = ground (arith, e, eq_iff row.connector_id connector.id)

    find-upsert :
        (rows : List (CacheRow N))
        → (id : String) × (find
              (is_entry connector event)
              (upsert_cached_result connector event result ttl at new_id rows)
            ≡ some (written id))
    unfolding upsert_cached_result written_row
    find-upsert [] =
        (new_id, find-head (is_entry connector event) (written new_id) [] (found new_id))
    find-upsert (row ∷ rows) = elim (Bool-cases (is_entry connector event row)) [
      | inl e ↦
          let q = ap (λ c. record (written row.id) { connector_id = c }) (entry-connector row e) in
          (
            row.id,
            rw e (
                ap (λ r. find (is_entry connector event) (r ∷ rows)) q
                ∙ find-head (is_entry connector event) (written row.id) rows (found row.id)),
          )
      | inr e ↦ let rest = find-upsert rows in (rest.0, rw (e, e) rest.1)
    ]

    -- the time to live of the entry
    abbrev pub lifetime : ℕ
    lifetime = or_else ttl (or_else result.ttl_seconds connector.cache_ttl_seconds) * 1000

    -- the result as the cache gives it, with the findings or without them
    abbrev pub cached : Bool → ConnectorResult N
    cached with_findings = record {
      findings = if with_findings then result.findings else [];
      summary = some (stored_summary result);
      ttl_seconds = none;
      legacy = none;
    }

    lifetime-written :
        (id : String)
        → or_else (written id).ttl_seconds connector.cache_ttl_seconds * 1000 ≡ lifetime
    unfolding written_row
    lifetime-written id =
        elim ttl
          as (λ t.
            or_else (elim t as (λ x. Option ℕ) [ none ↦ result.ttl_seconds | some t ↦ some t ])
                connector.cache_ttl_seconds
              * 1000
            ≡ or_else t (or_else result.ttl_seconds connector.cache_ttl_seconds) * 1000) [
              | some t ↦ refl
              | none ↦ refl
            ]

    fresh-written :
        (now : ℕ) (id : String)
        → fresh_row connector now (written id)
          ≡ (if leb (at + lifetime) now then none else some (written id))
    unfolding fresh_row written_row
    fresh-written now id = rw (lifetime-written id) refl

    interpreted :
        (with_findings : Bool) (id : String)
        → interpret_cache_row with_findings false (written id)
          ≡ some (cached with_findings, result.findings)
    unfolding interpret_cache_row written_row cache_data
    interpreted with_findings id = rw (read-write result.findings) refl

    abbrev pub is_lost : Bool
    is_lost = counts_missing (findings_summary_from_result result) result.findings

    interpreted_snapshot :
        (id : String)
        → interpret_cache_row true true (written id)
          ≡ (if is_lost then none else some (cached true, result.findings))
    unfolding interpret_cache_row written_row cache_data
    interpreted_snapshot id =
        rw (broken-missing (written id) result.findings, read-write result.findings) refl

    -- For a connector that reads snapshots: after an upsert, until its time to live is over, the cache
    -- answers with the findings and the summary that were written, or with the summary alone; from then
    -- on it is a miss. The time to live is the argument, else the one of the result, else the
    -- connector's. The snapshot is the one of what was written, unless the summary counts findings and
    -- none is listed: this is a miss at any time.
    pub upsert_cached_result-read :
        {S : Type 0} (normalize : ConnectorResult N → ℕ → S) (rows : List (CacheRow N)) (now : ℕ)
        → connector.read_snapshots ≡ true
        → (id : String) × (get_package_scoped_cached_result connector event now
              (upsert_cached_result connector event result ttl at new_id rows)
            ≡ (if leb (at + lifetime) now then none else some (cached true)))
          × (get_cached_result connector event now
                (upsert_cached_result connector event result ttl at new_id rows)
              ≡ (if leb (at + lifetime) now then none else some (cached false)))
          × (build_cached_snapshot normalize connector event now
                (upsert_cached_result connector event result ttl at new_id rows)
              ≡ (if leb (at + lifetime) now || is_lost
                  then none
                  else some (normalize (cached true) (now - at), id, result.findings)))
    unfolding get_package_scoped_cached_result get_cached_result find_fresh_cache_row
        build_cached_snapshot written_row
    upsert_cached_result-read normalize rows now reads =
        let (id, e) = find-upsert rows in
        elim (Bool-cases (leb (at + lifetime) now)) [
          | inl h ↦ (
            id,
            rw (e, fresh-written now id, h) refl,
            rw (e, fresh-written now id, h) refl,
            rw (e, fresh-written now id, h, reads) refl,
          )
          | inr h ↦ (
            id,
            rw (e, fresh-written now id, h, interpreted true id) refl,
            rw (e, fresh-written now id, h, interpreted false id) refl,
            elim (Bool-cases is_lost) [
              | inl l ↦ rw (e, fresh-written now id, h, interpreted_snapshot id, l, reads) refl
              | inr l ↦ rw (e, fresh-written now id, h, interpreted_snapshot id, l, reads) refl
            ],
          )
        ]
