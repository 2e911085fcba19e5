-- ===== src/Audit/Ops.antt =====
-- A history of the tables (crates/railgun-indexer-core/src/audit.rs): each operation is a transaction
-- that is rolled back on an error.
pub mod Rows
pub mod Parts
pub mod Pending
pub mod Single
pub mod References
pub mod Backed
use railgun_indexer.Prelude.{ℕ, List, [], ◌∷◌, Option, Result, ok, err, Text}
use railgun_indexer.Codec.{Bytes}
use railgun_indexer.Artifact.{Range, DatasetKind}
use railgun_indexer.Audit.{AuditLib, AuditDb, Audited}
use railgun_indexer.Audit.Publication.{
  record_indexed_manifest_pin, record_indexed_manifest_ipns_publication,
  record_poi_artifact_manifest_ipns_publication,
}
use railgun_indexer.Audit.Poi.{
  record_poi_artifact_manifest_pin, invalidate_pending_poi_manifest_reconciliation,
  abandon_pending_poi_v4_manifest_reconciliation,
}
use railgun_indexer.Audit.Artifacts.{
  IndexedArtifactPublicationKind, PoiArtifactPublicationKind, AuditScope, PoiScope,
  record_indexed_artifact_pin, record_poi_artifact_pin,
}
use railgun_indexer.Audit.Retention.{
  UnpinService, Sweep, sweep_cid, record_pin_cleanup_debt, retry_pin_cleanup_debt,
}

module _ (lib : AuditLib) where
  pub data Op : Type 0 where
    pin_indexed :
        IndexedArtifactPublicationKind
        → DatasetKind
        → AuditScope
        → Range
        → Text
        → ℕ
        → Bytes
        → ℕ
        → Op
    pin_indexed_manifest : Text → List Text → ℕ → ℕ → Bytes → ℕ → Text → Op
    publish_indexed_manifest : Text → ℕ → Op
    pin_poi :
        PoiArtifactPublicationKind
        → PoiScope
        → Option (ℕ × ℕ)
        → Text
        → ℕ
        → Bytes
        → Option Bytes
        → Text
        → Op
    pin_poi_manifest : Text → List lib.ManifestEntry → List Text → ℕ → ℕ → Bytes → Op
    publish_poi_manifest : Text → ℕ → Op
    invalidate_poi : Text → ℕ → Op
    abandon_poi : Text → ℕ → Option Text → Op
    -- the transaction of a candidate, with a cutoff
    sweep_one : UnpinService → ℕ → Text → Op
    owe : Text → Text → Text → Op

  abbrev pub settle : AuditDb → Audited AuditDb → AuditDb
  settle db (ok after) = after
  settle db (err e) = db

  unfoldable pub apply : ℕ → Op → AuditDb → AuditDb
  apply now (pin_indexed kind dataset scope range cid size hash version) db =
      settle db (record_indexed_artifact_pin now db kind dataset scope range cid size hash version)
  apply now (pin_indexed_manifest cid cids sequence size hash version json) db =
      settle db (record_indexed_manifest_pin db cid cids sequence size hash version json)
  apply now (publish_indexed_manifest cid sequence) db =
      settle db (record_indexed_manifest_ipns_publication now db cid sequence)
  apply now (pin_poi kind scope range cid size hash end_root json) db =
      settle db (record_poi_artifact_pin now db kind scope range cid size hash end_root json)
  apply now (pin_poi_manifest cid entries cids sequence size hash) db =
      settle db (record_poi_artifact_manifest_pin lib db cid entries cids sequence size hash)
  apply now (publish_poi_manifest cid sequence) db =
      settle db (record_poi_artifact_manifest_ipns_publication now db cid sequence)
  apply now (invalidate_poi cid sequence) db =
      settle db (invalidate_pending_poi_manifest_reconciliation now db cid sequence)
  apply now (abandon_poi cid sequence unavailable) db =
      settle db (abandon_pending_poi_v4_manifest_reconciliation now db cid sequence unavailable)
  apply now (sweep_one unpin cutoff cid) db =
      (sweep_cid unpin now cutoff (record { db = db; unpinned_cids = []; failed_cids = [] }) cid).db
  apply now (owe cid provider error) db = record_pin_cleanup_debt now db cid provider error

  -- A history: the operations with their times.
  unfoldable pub history : AuditDb → List (ℕ × Op) → AuditDb
  history db [] = db
  history db ((now, op) ∷ rest) = history (apply now op db) rest
