-- ===== src/Audit/Ops/Parts.antt =====
-- What a successful transaction has checked and written
-- (crates/railgun-indexer-core/src/audit.rs).
use railgun_indexer.Prelude.{
  ℕ, ◌≡◌, refl, ◌&&◌, ◌||◌, ◌==◌, List, [], ◌∷◌, length, Option, none, some, true, arith,
  Result-cases, inl, inr, Text, ok, err, codes, is_empty,
}
use railgun_indexer.Codec.{Bytes}
use railgun_indexer.Audit.{
  AuditLib, ManifestRow, IndexedArtifactRow, PoiArtifactRow, AuditDb, Audited, update_rows,
  where_rows, u64_to_i64,
}
use railgun_indexer.Audit.Publication.{
  is_pending, has_identity, chain_indexed_label, v4_label, reject_unresolved_pending,
  insert_manifest, live_count, live_indexed, record_indexed_manifest_pin,
  record_indexed_manifest_ipns_publication, record_poi_artifact_manifest_ipns_publication,
  can_publish, mark_published, mark_superseded, indexed_superseded, poi_superseded,
}
use railgun_indexer.Artifact.{Range, DatasetKind}
use railgun_indexer.Audit.Artifacts.{
  IndexedArtifactPublicationKind, PoiArtifactPublicationKind, AuditScope, PoiScope,
  record_indexed_artifact_pin, record_poi_artifact_pin, upsert_indexed,
  indexed_artifact_publication_kind_str, indexed_dataset_kind_str, indexed_range_kind_str,
}
use railgun_indexer.Audit.Poi.{
  record_poi_artifact_manifest_pin, insert_entries, invalidate_pending_poi_manifest_reconciliation,
  invalidate_found, mark_invalidated, greatest, abandon_pending_poi_v4_manifest_reconciliation,
  unpin_unavailable,
}
use railgun_indexer.Audit.Ops.{settle}

pub record_indexed-parts :
    (db after : AuditDb) (cid : Text) (cids : List Text) (sequence size : ℕ) (hash : Bytes)
    (version : ℕ) (json : Text)
    → record_indexed_manifest_pin db cid cids sequence size hash version json ≡ ok after
    → (reject_unresolved_pending chain_indexed_label db.indexed_manifests ≡ ok tt)
      × ((is_empty cids || (live_count (live_indexed db.indexed_artifacts) cids == length cids))
          ≡ true)
      × (s b : ℕ) × (after ≡ record db {
        indexed_manifests =
            insert_manifest db.indexed_manifests cid s b hash version (some json) cids;
      })
unfolding record_indexed_manifest_pin
record_indexed-parts db after cid cids sequence size hash version json h =
    elim (Result-cases (u64_to_i64 sequence (codes "sequence"))) [
      | inr (_, bad) ↦ absurd (ground arith)
      | inl (s, e1) ↦ elim (Result-cases (u64_to_i64 size (codes "byte_size"))) [
        | inr (_, bad) ↦ absurd (ground arith)
        | inl (b, e2) ↦ (ground arith, ground arith, s, b, ground arith)
      ]
    ]

pub publish_indexed-parts :
    (now : ℕ) (db after : AuditDb) (cid : Text) (sequence : ℕ)
    → record_indexed_manifest_ipns_publication now db cid sequence ≡ ok after
    → (s : ℕ) × (after ≡ record db {
      indexed_manifests = record db.indexed_manifests {
        rows =
            update_rows
              (indexed_superseded cid s)
              (mark_superseded now)
              (update_rows (can_publish cid s) (mark_published now) db.indexed_manifests.rows);
      };
    })
unfolding record_indexed_manifest_ipns_publication
publish_indexed-parts now db after cid sequence h =
    elim (Result-cases (u64_to_i64 sequence (codes "sequence"))) [
      | inr (_, bad) ↦ absurd (ground arith)
      | inl (s, e1) ↦ (s, ground arith)
    ]

pub publish_poi-parts :
    (now : ℕ) (db after : AuditDb) (cid : Text) (sequence : ℕ)
    → record_poi_artifact_manifest_ipns_publication now db cid sequence ≡ ok after
    → (s : ℕ) × (after ≡ record db {
      poi_manifests = record db.poi_manifests {
        rows =
            update_rows
              (poi_superseded cid s)
              (mark_superseded now)
              (update_rows (can_publish cid s) (mark_published now) db.poi_manifests.rows);
      };
    })
unfolding record_poi_artifact_manifest_ipns_publication
publish_poi-parts now db after cid sequence h =
    elim (Result-cases (u64_to_i64 sequence (codes "sequence"))) [
      | inr (_, bad) ↦ absurd (ground arith)
      | inl (s, e1) ↦ (s, ground arith)
    ]

pub invalidate-parts :
    (now : ℕ) (db after : AuditDb) (cid : Text) (sequence : ℕ)
    → invalidate_pending_poi_manifest_reconciliation now db cid sequence ≡ ok after
    → (s : ℕ) × (r : ManifestRow) × (where_rows is_pending db.poi_manifests.rows ≡ r ∷ [])
      × (has_identity cid s r ≡ true)
      × (after ≡ record db {
        poi_manifests = record db.poi_manifests {
          rows =
              update_rows
                (λ q. (q.id == r.id) && is_pending q)
                (mark_invalidated now)
                db.poi_manifests.rows;
        };
        ipns_sequence = greatest db.ipns_sequence s;
      })
unfolding invalidate_pending_poi_manifest_reconciliation invalidate_found
invalidate-parts now db after cid sequence h =
    elim (Result-cases (u64_to_i64 sequence (codes "sequence"))) [
      | inr (_, bad) ↦ absurd (ground arith)
      | inl (s, e1) ↦ found s (where_rows is_pending db.poi_manifests.rows) refl (ground arith)
    ]
  where
    found :
        (s : ℕ) (rows : List ManifestRow)
        → where_rows is_pending db.poi_manifests.rows ≡ rows
        → invalidate_found now db cid s rows ≡ ok after
        → (s : ℕ) × (r : ManifestRow) × (where_rows is_pending db.poi_manifests.rows ≡ r ∷ [])
          × (has_identity cid s r ≡ true)
          × (after ≡ record db {
            poi_manifests = record db.poi_manifests {
              rows =
                  update_rows
                    (λ q. (q.id == r.id) && is_pending q)
                    (mark_invalidated now)
                    db.poi_manifests.rows;
            };
            ipns_sequence = greatest db.ipns_sequence s;
          })
    found s [] e f = absurd (ground arith)
    found s (r ∷ []) e f = (s, r, e, ground arith, ground arith)
    found s (r ∷ t ∷ rest) e f = absurd (ground arith)

module _ (lib : AuditLib) where
  pub record_poi-parts :
      (db after : AuditDb) (cid : Text) (entries : List lib.ManifestEntry) (cids : List Text)
      (sequence size : ℕ) (hash : Bytes)
      → record_poi_artifact_manifest_pin lib db cid entries cids sequence size hash ≡ ok after
      → (reject_unresolved_pending v4_label db.poi_manifests ≡ ok tt)
        × (s b : ℕ) × (rows : List (ℕ × Text)) × (after ≡ record db {
          poi_manifests = insert_manifest db.poi_manifests cid s b hash 4 none cids;
          poi_entries = rows;
        })
  unfolding record_poi_artifact_manifest_pin
  record_poi-parts db after cid entries cids sequence size hash h =
      elim (Result-cases (u64_to_i64 sequence (codes "sequence"))) [
        | inr (_, bad) ↦ absurd (ground arith)
        | inl (s, e1) ↦ elim (Result-cases (u64_to_i64 size (codes "byte_size"))) [
          | inr (_, bad) ↦ absurd (ground arith)
          | inl (b, e2) ↦
              elim (Result-cases
                (insert_entries lib db.poi_manifests.next_id entries db.poi_entries)) [
                  | inr (_, bad) ↦ absurd (ground arith)
                  | inl (rows, e3) ↦ (ground arith, s, b, rows, ground arith)
                ]
        ]
      ]

-- The recording of an artifact leaves the manifests alone.
pub pin_indexed-parts :
    (now : ℕ) (db after : AuditDb) (kind : IndexedArtifactPublicationKind) (dataset : DatasetKind)
    (scope : AuditScope) (range : Range) (cid : Text) (size : ℕ) (hash : Bytes) (version : ℕ)
    → record_indexed_artifact_pin now db kind dataset scope range cid size hash version ≡ ok after
    → (new : IndexedArtifactRow) × (new.unpinned_at ≡ none)
      × (after ≡ record db { indexed_artifacts = upsert_indexed new db.indexed_artifacts })
unfolding record_indexed_artifact_pin
pin_indexed-parts now db after kind dataset scope range cid size hash version h =
    elim (Result-cases (u64_to_i64 scope.chain_id (codes "chain_id"))) [
      | inr (_, bad) ↦ absurd (ground arith)
      | inl (a, e1) ↦ elim (Result-cases (u64_to_i64 range.start (codes "range_start"))) [
        | inr (_, bad) ↦ absurd (ground arith)
        | inl (b, e2) ↦ elim (Result-cases (u64_to_i64 range.end (codes "range_end"))) [
          | inr (_, bad) ↦ absurd (ground arith)
          | inl (c, e3) ↦ elim (Result-cases (u64_to_i64 size (codes "byte_size"))) [
            | inr (_, bad) ↦ absurd (ground arith)
            | inl (d, e4) ↦ (
              record {
                artifact_kind = indexed_artifact_publication_kind_str kind;
                dataset_kind = indexed_dataset_kind_str dataset;
                chain_type = 0;
                chain_id = a;
                railgun_contract = scope.railgun_contract;
                range_kind = indexed_range_kind_str range.kind;
                range_start = b;
                range_end = c;
                cid = cid;
                byte_size = d;
                content_hash = hash;
                format_version = version;
                last_referenced_at = now;
                unpinned_at = none;
              },
              refl,
              ground arith,
            )
          ]
        ]
      ]
    ]

pub pin_poi-parts :
    (now : ℕ) (db after : AuditDb) (kind : PoiArtifactPublicationKind) (scope : PoiScope)
    (range : Option (ℕ × ℕ)) (cid : Text) (size : ℕ) (hash : Bytes) (end_root : Option Bytes)
    (json : Text)
    → record_poi_artifact_pin now db kind scope range cid size hash end_root json ≡ ok after
    → (rows : List PoiArtifactRow) × (after ≡ record db { poi_artifacts = rows })
unfolding record_poi_artifact_pin
pin_poi-parts now db after kind scope range cid size hash end_root json h =
    (after.poi_artifacts, ground arith)

pub abandon-parts :
    (now : ℕ) (db after : AuditDb) (cid : Text) (sequence : ℕ) (unavailable : Option Text)
    → abandon_pending_poi_v4_manifest_reconciliation now db cid sequence unavailable ≡ ok after
    → (between : AuditDb) × (invalidate_pending_poi_manifest_reconciliation now db cid sequence
        ≡ ok between)
      × (after ≡ unpin_unavailable now between cid sequence unavailable)
unfolding abandon_pending_poi_v4_manifest_reconciliation
abandon-parts now db after cid sequence unavailable h =
    elim (Result-cases (invalidate_pending_poi_manifest_reconciliation now db cid sequence)) [
      | inr (_, bad) ↦ absurd (ground arith)
      | inl (between, e) ↦ (between, e, ground arith)
    ]

module _ (lib : AuditLib) (P : AuditDb → Type 0) where
  -- A rolled back transaction keeps what held.
  pub settle-Keeps :
      (db : AuditDb) (result : Audited AuditDb)
      → P db
      → ((after : AuditDb) → result ≡ ok after → P after)
      → P (settle lib db result)
  settle-Keeps db (ok after) v h = h after refl
  settle-Keeps db (err e) v h = v
