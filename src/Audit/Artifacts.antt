-- ===== src/Audit/Artifacts.antt =====
-- The recording of pinned artifacts (crates/railgun-indexer-core/src/audit.rs).
use railgun_indexer.Prelude.{
  ℕ, ◌==◌, ◌&&◌, List, [], ◌∷◌, ◌++◌, Option, none, some, Bool, true, false, ok, err, ◌>>=◌,
  if◌then◌else◌, Text, text_eq, codes,
}
use railgun_indexer.Codec.{Bytes}
use railgun_indexer.Artifact.{
  Range, RangeKind, block, tree_position, txid_index, poi_event_index, DatasetKind, public_txid,
  wallet_scan, commitments, merkle_checkpoint,
}
use railgun_indexer.Audit.{
  IndexedArtifactRow, PoiArtifactRow, AuditDb, poi_artifact_conflict, Audited, u64_to_i64,
  exists_row, update_rows,
}

pub data IndexedArtifactPublicationKind : Type 0 where
  chunk catalog : IndexedArtifactPublicationKind

pub data PoiArtifactPublicationKind : Type 0 where
  checkpoint_chunk checkpoint_catalog current_tail bridge blocked_shields :
      PoiArtifactPublicationKind

abbrev pub indexed_artifact_publication_kind_str : IndexedArtifactPublicationKind → Text
indexed_artifact_publication_kind_str chunk = codes "chunk"
indexed_artifact_publication_kind_str catalog = codes "catalog"

abbrev pub poi_artifact_kind_str : PoiArtifactPublicationKind → Text
poi_artifact_kind_str checkpoint_chunk = codes "checkpoint_chunk"
poi_artifact_kind_str checkpoint_catalog = codes "checkpoint_catalog"
poi_artifact_kind_str current_tail = codes "current_tail"
poi_artifact_kind_str bridge = codes "bridge"
poi_artifact_kind_str blocked_shields = codes "blocked_shields"

abbrev pub indexed_dataset_kind_str : DatasetKind → Text
indexed_dataset_kind_str wallet_scan = codes "wallet_scan"
indexed_dataset_kind_str commitments = codes "commitments"
indexed_dataset_kind_str merkle_checkpoint = codes "merkle_checkpoint"
indexed_dataset_kind_str public_txid = codes "public_txid"

abbrev pub indexed_range_kind_str : RangeKind → Text
indexed_range_kind_str block = codes "block"
indexed_range_kind_str txid_index = codes "txid_index"
indexed_range_kind_str tree_position = codes "tree_position"
indexed_range_kind_str poi_event_index = codes "poi_event_index"

-- A chain scope, its contract already as hex text. The only chain type is 0.
pub record AuditScope : Type 0 where
  pub chain_id : ℕ
  pub railgun_contract : Text

-- The POI scope of the crate poi.
pub record PoiScope : Type 0 where
  pub list_key : Bytes
  pub chain_type : ℕ
  pub chain_id : ℕ
  pub txid_version : Text

-- Equality of the unique columns.
abbrev pub same_indexed : IndexedArtifactRow → IndexedArtifactRow → Bool
same_indexed a b =
    text_eq a.artifact_kind b.artifact_kind
    && (text_eq a.dataset_kind b.dataset_kind
        && ((a.chain_type == b.chain_type)
            && ((a.chain_id == b.chain_id)
                && (text_eq a.railgun_contract b.railgun_contract
                    && (text_eq a.range_kind b.range_kind
                        && ((a.range_start == b.range_start)
                            && ((a.range_end == b.range_end) && text_eq a.cid b.cid)))))))

-- `ON CONFLICT … DO UPDATE`
abbrev pub refresh_indexed : IndexedArtifactRow → IndexedArtifactRow → IndexedArtifactRow
refresh_indexed new old = record old {
  byte_size = new.byte_size;
  content_hash = new.content_hash;
  format_version = new.format_version;
  last_referenced_at = new.last_referenced_at;
  unpinned_at = none;
}

unfoldable pub upsert_indexed :
    IndexedArtifactRow → List IndexedArtifactRow → List IndexedArtifactRow
upsert_indexed new rows =
    if exists_row (same_indexed new) rows
    then update_rows (same_indexed new) (refresh_indexed new) rows
    else rows ++ new ∷ []

unfoldable pub record_indexed_artifact_pin :
    ℕ
    → AuditDb
    → IndexedArtifactPublicationKind
    → DatasetKind
    → AuditScope
    → Range
    → Text
    → ℕ
    → Bytes
    → ℕ
    → Audited AuditDb
record_indexed_artifact_pin now db artifact_kind dataset_kind scope range cid byte_size content_hash
      format_version =
    do
      chain_id ← u64_to_i64 scope.chain_id (codes "chain_id")
      range_start ← u64_to_i64 range.start (codes "range_start")
      range_end ← u64_to_i64 range.end (codes "range_end")
      byte_size ← u64_to_i64 byte_size (codes "byte_size")
      ok (record db {
        indexed_artifacts =
            upsert_indexed
              (record {
                artifact_kind = indexed_artifact_publication_kind_str artifact_kind;
                dataset_kind = indexed_dataset_kind_str dataset_kind;
                chain_type = 0;
                chain_id = chain_id;
                railgun_contract = scope.railgun_contract;
                range_kind = indexed_range_kind_str range.kind;
                range_start = range_start;
                range_end = range_end;
                cid = cid;
                byte_size = byte_size;
                content_hash = content_hash;
                format_version = format_version;
                last_referenced_at = now;
                unpinned_at = none;
              })
              db.indexed_artifacts;
      })

-- The columns for a range; none stands for (-1, -1).
unfoldable pub poi_artifact_range_columns : Option (ℕ × ℕ) → Audited (Option (ℕ × ℕ))
poi_artifact_range_columns none = ok none
poi_artifact_range_columns (some (start_index, end_index)) = do
  start ← u64_to_i64 start_index (codes "range_start")
  end ← u64_to_i64 end_index (codes "range_end")
  ok (some (start, end))

abbrev range_eq : Option (ℕ × ℕ) → Option (ℕ × ℕ) → Bool
range_eq none none = true
range_eq none (some b) = false
range_eq (some a) none = false
range_eq (some a) (some b) = (a.0 == b.0) && (a.1 == b.1)

-- `IS NOT DISTINCT FROM`
abbrev not_distinct : Option Bytes → Option Bytes → Bool
not_distinct none none = true
not_distinct none (some b) = false
not_distinct (some a) none = false
not_distinct (some a) (some b) = text_eq a b

abbrev pub same_poi : PoiArtifactRow → PoiArtifactRow → Bool
same_poi a b =
    text_eq a.artifact_kind b.artifact_kind
    && (text_eq a.list_key b.list_key
        && ((a.chain_type == b.chain_type)
            && ((a.chain_id == b.chain_id)
                && (text_eq a.txid_version b.txid_version
                    && (range_eq a.range b.range && text_eq a.cid b.cid)))))

-- The stored columns that must agree.
abbrev pub same_contents : PoiArtifactRow → PoiArtifactRow → Bool
same_contents a b =
    (a.byte_size == b.byte_size)
    && (text_eq a.content_hash b.content_hash
        && (not_distinct a.end_root b.end_root
            && (text_eq a.descriptor_json b.descriptor_json
                && (a.format_version == b.format_version))))

abbrev refresh_poi : PoiArtifactRow → PoiArtifactRow → PoiArtifactRow
refresh_poi new old = record old { last_referenced_at = new.last_referenced_at; unpinned_at = none }

-- No row is affected if one with the same unique columns has other contents.
unfoldable pub upsert_poi : PoiArtifactRow → List PoiArtifactRow → Option (List PoiArtifactRow)
upsert_poi new rows =
    if exists_row (same_poi new) rows
    then (if exists_row (λ r. same_poi new r && same_contents new r) rows
        then some (update_rows (λ r. same_poi new r && same_contents new r) (refresh_poi new) rows)
        else none)
    else some (rows ++ new ∷ [])

unfoldable pub record_poi_artifact_pin :
    ℕ
    → AuditDb
    → PoiArtifactPublicationKind
    → PoiScope
    → Option (ℕ × ℕ)
    → Text
    → ℕ
    → Bytes
    → Option Bytes
    → Text
    → Audited AuditDb
record_poi_artifact_pin now db artifact_kind scope range cid byte_size content_hash end_root
      descriptor_json =
    do
      chain_id ← u64_to_i64 scope.chain_id (codes "chain_id")
      byte_size_i64 ← u64_to_i64 byte_size (codes "byte_size")
      columns ← poi_artifact_range_columns range
      elim (upsert_poi
          (record {
            artifact_kind = poi_artifact_kind_str artifact_kind;
            list_key = scope.list_key;
            chain_type = scope.chain_type;
            chain_id = chain_id;
            txid_version = scope.txid_version;
            range = columns;
            cid = cid;
            byte_size = byte_size_i64;
            content_hash = content_hash;
            end_root = end_root;
            descriptor_json = descriptor_json;
            format_version = 4;
            last_referenced_at = now;
            unpinned_at = none;
          })
          db.poi_artifacts) [
            | some rows ↦ ok (record db { poi_artifacts = rows })
            | none ↦ err (poi_artifact_conflict cid byte_size)
          ]
