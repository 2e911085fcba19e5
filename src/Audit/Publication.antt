-- ===== src/Audit/Publication.antt =====
-- The operations on manifests (crates/railgun-indexer-core/src/audit.rs). `now` is the time of the
-- transaction.
use railgun_indexer.Prelude.{
  ℕ, ◌+◌, max, ◌==◌, leb, ltb, not, ◌&&◌, ◌||◌, List, [], ◌∷◌, ◌++◌, length, Option, none, some,
  Bool, ok, err, ◌>>=◌, ◌>>◌, if◌then◌else◌, Text, text_eq, codes, is_empty,
}
use railgun_indexer.Codec.{Bytes}
use railgun_indexer.Audit.{
  ManifestRow, Manifests, IndexedArtifactRow, PoiArtifactRow, AuditDb, AuditError,
  unrecorded_manifest, superseded_manifest, unpinned_manifest, unresolved_pending_manifest,
  reconciliation_sequence_not_newer, missing_indexed_manifest_artifacts, Audited, u64_to_i64,
  is_null, is_set, exists_row, where_rows, update_rows,
}

-- Not published, superseded, unpinned or invalidated.
abbrev pub is_pending : ManifestRow → Bool
is_pending r =
    is_null r.ipns_published_at
    && (is_null r.superseded_at
        && (is_null r.unpinned_at && is_null r.reconciliation_invalidated_at))

abbrev pub has_identity : Text → ℕ → ManifestRow → Bool
has_identity cid sequence r = text_eq r.cid cid && (r.ipns_sequence == sequence)

abbrev pub chain_indexed_label : Text
chain_indexed_label = codes "chain-indexed"

abbrev pub v4_label : Text
v4_label = codes "v4"

-- The first row, if there is one.
abbrev pub first_row {ℓ} : {A : Type ℓ} → List A → Option A
first_row [] = none
first_row (a ∷ rest) = some a

unfoldable pub reject_unresolved_pending : Text → Manifests → Audited (Unit {0})
reject_unresolved_pending channel m = elim (first_row (where_rows is_pending m.rows)) [
  | none ↦ ok tt
  | some r ↦ err (unresolved_pending_manifest channel r.cid r.ipns_sequence)
]

-- `SELECT MAX(ipns_sequence)` of the invalidated rows that are not superseded.
unfoldable pub invalidated_sequence : List ManifestRow → Option ℕ
invalidated_sequence [] = none
invalidated_sequence (r ∷ rest) =
    let later = invalidated_sequence rest in
    if is_set r.reconciliation_invalidated_at && is_null r.superseded_at
    then some (elim later [ none ↦ r.ipns_sequence | some s ↦ max r.ipns_sequence s ])
    else later

unfoldable pub ensure_newer_than_invalidated_pending :
    Text → Manifests → Text → ℕ → Audited (Unit {0})
ensure_newer_than_invalidated_pending channel m cid sequence = elim (invalidated_sequence m.rows) [
  | none ↦ ok tt
  | some invalidated ↦
      if leb sequence invalidated
      then err (reconciliation_sequence_not_newer channel cid sequence invalidated)
      else ok tt
]

-- `INSERT … RETURNING id`, and the insertion of the references.
unfoldable pub insert_reference : ℕ → Text → List (ℕ × Text) → List (ℕ × Text)
insert_reference id cid references =
    if exists_row (λ e. (e.0 == id) && text_eq e.1 cid) references
    then references
    else references ++ (id, cid) ∷ []

unfoldable pub insert_references : ℕ → List Text → List (ℕ × Text) → List (ℕ × Text)
insert_references id [] references = references
insert_references id (cid ∷ rest) references =
    insert_references id rest (insert_reference id cid references)

unfoldable pub insert_manifest :
    Manifests → Text → ℕ → ℕ → Bytes → ℕ → Option Text → List Text → Manifests
insert_manifest m cid sequence byte_size content_hash format_version manifest_json artifact_cids =
    record {
      rows =
          m.rows
          ++ record {
            id = m.next_id;
            cid = cid;
            ipns_sequence = sequence;
            byte_size = byte_size;
            content_hash = content_hash;
            format_version = format_version;
            manifest_json = manifest_json;
            ipns_published_at = none;
            superseded_at = none;
            unpinned_at = none;
            reconciliation_invalidated_at = none;
          }
            ∷ [];
      references = insert_references m.next_id artifact_cids m.references;
      next_id = m.next_id + 1;
    }

-- The distinct texts of a list.
unfoldable pub distinct : List Text → List Text
distinct [] = []
distinct (t ∷ rest) =
    let later = distinct rest in if exists_row (text_eq t) rest then later else t ∷ later

-- `COUNT(DISTINCT cid)`: of the given CIDs, those that a live row has.
unfoldable pub live_count : (Text → Bool) → List Text → ℕ
live_count is_live cids = length (where_rows is_live (distinct cids))

abbrev pub live_indexed : List IndexedArtifactRow → Text → Bool
live_indexed rows cid = exists_row (λ r. text_eq r.cid cid && is_null r.unpinned_at) rows

abbrev pub live_poi : List PoiArtifactRow → Text → Bool
live_poi rows cid = exists_row (λ r. text_eq r.cid cid && is_null r.unpinned_at) rows

unfoldable pub record_indexed_manifest_pin :
    AuditDb → Text → List Text → ℕ → ℕ → Bytes → ℕ → Text → Audited AuditDb
record_indexed_manifest_pin db cid artifact_cids sequence byte_size content_hash format_version
      manifest_json =
    do
      sequence ← u64_to_i64 sequence (codes "sequence")
      byte_size ← u64_to_i64 byte_size (codes "byte_size")
      let actual = live_count (live_indexed db.indexed_artifacts) artifact_cids
      (if is_empty artifact_cids || (actual == length artifact_cids)
          then ok tt
          else err (missing_indexed_manifest_artifacts (length artifact_cids) actual))
      reject_unresolved_pending chain_indexed_label db.indexed_manifests
      ok (record db {
        indexed_manifests =
            insert_manifest db.indexed_manifests cid sequence byte_size content_hash format_version
              (some manifest_json) artifact_cids;
      })

-- The rows that a publication of the identity marks.
abbrev pub can_publish : Text → ℕ → ManifestRow → Bool
can_publish cid sequence r =
    has_identity cid sequence r
    && (is_null r.superseded_at
        && (is_null r.unpinned_at && is_null r.reconciliation_invalidated_at))

abbrev coalesce : Option ℕ → ℕ → Option ℕ
coalesce none now = some now
coalesce (some t) now = some t

abbrev pub mark_published : ℕ → ManifestRow → ManifestRow
mark_published now r = record r { ipns_published_at = coalesce r.ipns_published_at now }

abbrev pub mark_superseded : ℕ → ManifestRow → ManifestRow
mark_superseded now r = record r { superseded_at = some now }

-- An invalidated row with an older sequence.
abbrev pub was_invalidated : ℕ → ManifestRow → Bool
was_invalidated sequence r = is_set r.reconciliation_invalidated_at && ltb r.ipns_sequence sequence

abbrev pub indexed_superseded : Text → ℕ → ManifestRow → Bool
indexed_superseded cid sequence r =
    is_null r.superseded_at
    && ((is_set r.ipns_published_at && not (has_identity cid sequence r))
        || was_invalidated sequence r)

abbrev pub poi_superseded : Text → ℕ → ManifestRow → Bool
poi_superseded cid sequence r =
    is_null r.superseded_at
    && ((not (text_eq r.cid cid) && is_set r.ipns_published_at) || was_invalidated sequence r)

-- Why no row could be published.
unfoldable pub indexed_not_published : Text → ℕ → List ManifestRow → AuditError
indexed_not_published cid sequence rows =
    if exists_row (λ r. has_identity cid sequence r && is_set r.unpinned_at) rows
    then unpinned_manifest cid
    else if exists_row (λ r. has_identity cid sequence r && is_set r.superseded_at) rows
    then superseded_manifest cid
    else unrecorded_manifest cid

unfoldable pub record_indexed_manifest_ipns_publication : ℕ → AuditDb → Text → ℕ → Audited AuditDb
record_indexed_manifest_ipns_publication now db cid sequence = do
  sequence ← u64_to_i64 sequence (codes "sequence")
  ensure_newer_than_invalidated_pending chain_indexed_label db.indexed_manifests cid sequence
  let rows = db.indexed_manifests.rows
  (if exists_row (can_publish cid sequence) rows
      then ok tt
      else err (indexed_not_published cid sequence rows))
  ok (record db {
    indexed_manifests = record db.indexed_manifests {
      rows =
          update_rows (indexed_superseded cid sequence) (mark_superseded now)
            (update_rows (can_publish cid sequence) (mark_published now) rows);
    };
  })

unfoldable pub record_poi_artifact_manifest_ipns_publication :
    ℕ → AuditDb → Text → ℕ → Audited AuditDb
record_poi_artifact_manifest_ipns_publication now db cid sequence = do
  sequence ← u64_to_i64 sequence (codes "sequence")
  ensure_newer_than_invalidated_pending v4_label db.poi_manifests cid sequence
  let rows = db.poi_manifests.rows
  (if exists_row (can_publish cid sequence) rows then ok tt else err (unrecorded_manifest cid))
  ok (record db {
    poi_manifests = record db.poi_manifests {
      rows =
          update_rows (poi_superseded cid sequence) (mark_superseded now)
            (update_rows (can_publish cid sequence) (mark_published now) rows);
    };
  })
