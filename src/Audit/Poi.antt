-- ===== src/Audit/Poi.antt =====
-- The manifests of the POI channel (crates/railgun-indexer-core/src/audit.rs): recording, and the end
-- of a reconciliation.
use railgun_indexer.Prelude.{
  ℕ, max, ◌==◌, ◌&&◌, ◌||◌, List, [], ◌∷◌, ◌++◌, length, Option, none, some, Bool, ok, err, ◌>>=◌,
  ◌>>◌, map_err, if◌then◌else◌, Text, text_eq, codes,
}
use railgun_indexer.Codec.{Bytes}
use railgun_indexer.Audit.{
  AuditLib, ManifestRow, Manifests, PoiArtifactRow, AuditDb, AuditError,
  ambiguous_pending_manifests, pending_manifest_authorization_mismatch,
  pending_manifest_not_recoverable, missing_manifest_artifacts, json, poi_artifact_contract,
  Audited, u64_to_i64, is_null, is_set, exists_row, where_rows, update_rows,
}
use railgun_indexer.Audit.Publication.{
  is_pending, has_identity, v4_label, reject_unresolved_pending, insert_manifest, distinct,
  live_count, live_poi,
}

module _ (lib : AuditLib) where
  open lib use {ManifestEntry, validate, entry_chain_id, entry_json}

  -- The loop that inserts the entries of a manifest.
  unfoldable pub insert_entries :
      ℕ → List ManifestEntry → List (ℕ × Text) → Audited (List (ℕ × Text))
  insert_entries id [] rows = ok rows
  insert_entries id (entry ∷ rest) rows = do
    map_err poi_artifact_contract (validate entry)
    u64_to_i64 (entry_chain_id entry) (codes "chain_id")
    text ← map_err json (entry_json entry)
    insert_entries id rest (rows ++ (id, text) ∷ [])

  unfoldable pub record_poi_artifact_manifest_pin :
      AuditDb → Text → List ManifestEntry → List Text → ℕ → ℕ → Bytes → Audited AuditDb
  record_poi_artifact_manifest_pin db cid entries artifact_cids sequence byte_size content_hash = do
    sequence ← u64_to_i64 sequence (codes "sequence")
    byte_size ← u64_to_i64 byte_size (codes "byte_size")
    let expected = length (distinct artifact_cids)
    let actual = live_count (live_poi db.poi_artifacts) artifact_cids
    (if (expected == 0) || (actual == expected)
        then ok tt
        else err (missing_manifest_artifacts expected actual))
    reject_unresolved_pending v4_label db.poi_manifests
    poi_entries ← insert_entries db.poi_manifests.next_id entries db.poi_entries
    ok (record db {
      poi_manifests =
          insert_manifest db.poi_manifests cid sequence byte_size content_hash 4 none artifact_cids;
      poi_entries = poi_entries;
    })

abbrev pub mark_invalidated : ℕ → ManifestRow → ManifestRow
mark_invalidated now r = record r { reconciliation_invalidated_at = some now }

-- `GREATEST` with the row of indexer_state, if there is one.
abbrev pub greatest : Option ℕ → ℕ → Option ℕ
greatest none sequence = some sequence
greatest (some value) sequence = some (max value sequence)

abbrev recovery_state : ManifestRow → Text
recovery_state r =
    if is_set r.ipns_published_at
    then codes "active"
    else if is_set r.superseded_at
    then codes "superseded"
    else if is_set r.unpinned_at
    then codes "unpinned"
    else if is_set r.reconciliation_invalidated_at
    then codes "already invalidated"
    else codes "not pending"

-- No row is pending: the error that says what became of the manifest.
unfoldable pub not_recoverable : Text → ℕ → List ManifestRow → AuditError
not_recoverable cid sequence [] = pending_manifest_authorization_mismatch v4_label cid sequence
not_recoverable cid sequence (r ∷ []) =
    pending_manifest_not_recoverable v4_label cid sequence (recovery_state r)
not_recoverable cid sequence (r ∷ s ∷ rest) =
    ambiguous_pending_manifests v4_label (length (r ∷ s ∷ rest))

-- The pending rows have been read.
unfoldable pub invalidate_found : ℕ → AuditDb → Text → ℕ → List ManifestRow → Audited AuditDb
invalidate_found now db cid sequence [] =
    err
      (not_recoverable cid sequence (where_rows (has_identity cid sequence) db.poi_manifests.rows))
invalidate_found now db cid sequence (r ∷ []) =
    if has_identity cid sequence r
    then ok (record db {
      poi_manifests = record db.poi_manifests {
        rows =
            update_rows (λ q. (q.id == r.id) && is_pending q) (mark_invalidated now)
              db.poi_manifests.rows;
      };
      ipns_sequence = greatest db.ipns_sequence sequence;
    })
    else err (pending_manifest_authorization_mismatch v4_label cid sequence)
invalidate_found now db cid sequence (r ∷ s ∷ rest) =
    err (ambiguous_pending_manifests v4_label (length (r ∷ s ∷ rest)))

unfoldable pub invalidate_pending_poi_manifest_reconciliation :
    ℕ → AuditDb → Text → ℕ → Audited AuditDb
invalidate_pending_poi_manifest_reconciliation now db cid sequence = do
  sequence ← u64_to_i64 sequence (codes "sequence")
  invalidate_found now db cid sequence (where_rows is_pending db.poi_manifests.rows)

-- An artifact that the invalidated manifest refers to.
unfoldable pub invalidated_refers : Manifests → Text → ℕ → Text → Bool
invalidated_refers m cid sequence artifact_cid =
    exists_row
      (λ (e : ℕ × Text).
        text_eq e.1 artifact_cid
        && exists_row
            (λ (r : ManifestRow).
              (r.id == e.0)
              && (has_identity cid sequence r && is_set r.reconciliation_invalidated_at))
            m.rows)
      m.references

abbrev unpin_poi : ℕ → PoiArtifactRow → PoiArtifactRow
unpin_poi now r = record r { unpinned_at = some now }

unfoldable pub unpin_unavailable : ℕ → AuditDb → Text → ℕ → Option Text → AuditDb
unpin_unavailable now db cid sequence none = db
unpin_unavailable now db cid sequence (some unavailable) = record db {
  poi_artifacts =
      update_rows
        (λ r.
          text_eq r.cid unavailable
          && (is_null r.unpinned_at && invalidated_refers db.poi_manifests cid sequence r.cid))
        (unpin_poi now) db.poi_artifacts;
}

unfoldable pub abandon_pending_poi_v4_manifest_reconciliation :
    ℕ → AuditDb → Text → ℕ → Option Text → Audited AuditDb
abandon_pending_poi_v4_manifest_reconciliation now db cid sequence unavailable = do
  db ← invalidate_pending_poi_manifest_reconciliation now db cid sequence
  ok (unpin_unavailable now db cid sequence unavailable)
