-- ===== src/PublicTxid/Chunk.antt =====
-- The chunk of a range of public TXIDs (crates/railgun-indexer-core/src/public_txid.rs).
pub mod Represents
use railgun_indexer.Prelude.{
  ℕ, ◌+◌, max, List, [], ◌∷◌, ◌++◌, length, Option, none, some, Result, ok, err, ◌>>=◌, ◌>>◌, ok_or,
  map_err, checked_add,
}
use railgun_indexer.Codec.{Bytes, ChunkError, payload_too_large, u64_len}
use railgun_indexer.Artifact.{
  Range, public_txid, ChunkEnvelope, ChunkSection, Published, ChunkPlanItem, default_metadata,
  ChunkFormat, checked_byte_size,
}
use railgun_indexer.PublicTxid.{
  Txid, StoredPublicTxidRow, Checked, empty_chunk, chunk, public_txid_range,
  validate_single_txid_tree, encode_public_txid_records, encode_public_txid_unshield_preimages,
}

-- `Iterator::max` over the block numbers.
unfoldable pub max_row_block : List StoredPublicTxidRow → Option ℕ
max_row_block [] = none
max_row_block (r ∷ rest) = elim (max_row_block rest) [
  | none ↦ some r.block_number
  | some b ↦ some (max r.block_number b)
]

-- `map_or(Ok(0), …)`
unfoldable pub optional_len : Option Bytes → Result ChunkError ℕ
optional_len none = ok 0
optional_len (some payload) = u64_len (length payload)

abbrev with_sidecar : Bytes → Option Bytes → Bytes
with_sidecar record_payload none = record_payload
with_sidecar record_payload (some unshield_payload) = record_payload ++ unshield_payload

abbrev sidecar_sections : ℕ → ℕ → Option Bytes → List ChunkSection
sidecar_sections record_len unshield_len none =
    record { section_id = 3; offset = 0; byte_length = record_len } ∷ []
sidecar_sections record_len unshield_len (some unshield_payload) =
    record { section_id = 3; offset = 0; byte_length = record_len }
    ∷ record { section_id = 2; offset = record_len; byte_length = unshield_len }
    ∷ []

module _ (t : Txid) (f : ChunkFormat) where
  open f use {ChainScope, Compression, encode_chunk_bytes, sha256_digest, chunk_format_version}

  unfoldable pub encode_public_txid_envelope :
      ChainScope → Range → ℕ → Bytes → Option Bytes → Compression → Result ChunkError Bytes
  encode_public_txid_envelope scope range row_count record_payload unshield_payload compression = do
    record_payload_len ← u64_len (length record_payload)
    unshield_payload_len ← optional_len unshield_payload
    payload_len ← ok_or (checked_add record_payload_len unshield_payload_len) payload_too_large
    encode_chunk_bytes
        (record {
          header = record {
            dataset_kind = public_txid;
            scope = scope;
            range = range;
            row_count = row_count;
            payload_len = payload_len;
            sections = sidecar_sections record_payload_len unshield_payload_len unshield_payload;
          };
          payload = with_sidecar record_payload unshield_payload;
        })
        compression

  unfoldable pub public_txid_chunk_plan_item :
      ChainScope → List StoredPublicTxidRow → Compression → Checked ChunkPlanItem
  public_txid_chunk_plan_item scope records compression = do
    range ← public_txid_range records
    validate_single_txid_tree t range
    record_payload ← map_err chunk (encode_public_txid_records records)
    unshield_payload ← encode_public_txid_unshield_preimages t records
    row_count ← map_err chunk (u64_len (length records))
    compressed_bytes ← map_err chunk (
        encode_public_txid_envelope scope range row_count record_payload unshield_payload
          compression)
    compressed_byte_size ← map_err chunk (u64_len (length compressed_bytes))
    ok (record {
      range = range;
      row_count = row_count;
      compressed_byte_size = compressed_byte_size;
    })

  unfoldable pub prepare_public_txid_chunk :
      ChainScope
      → List StoredPublicTxidRow
      → Bytes
      → Compression
      → Checked (Published ChainScope Compression)
  prepare_public_txid_chunk scope records checkpoint_root compression = do
    range ← public_txid_range records
    validate_single_txid_tree t range
    record_payload ← map_err chunk (encode_public_txid_records records)
    unshield_payload ← encode_public_txid_unshield_preimages t records
    row_count ← map_err chunk (u64_len (length records))
    max_block ← ok_or (max_row_block records) empty_chunk
    compressed_bytes ← map_err chunk (
        encode_public_txid_envelope scope range row_count record_payload unshield_payload
          compression)
    byte_size ← map_err chunk (checked_byte_size f compressed_bytes)
    ok (record {
      descriptor = record {
        dataset_kind = public_txid;
        scope = scope;
        range = range;
        row_count = row_count;
        cid = [];
        sha256 = sha256_digest compressed_bytes;
        byte_size = byte_size;
        encoding_version = chunk_format_version;
        compression = compression;
        metadata = record default_metadata {
          root = some checkpoint_root;
          checkpoint_block = some max_block;
          last_indexed_block = some max_block;
        };
      };
      compressed_bytes = compressed_bytes;
    })
