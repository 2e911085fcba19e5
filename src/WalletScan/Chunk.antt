-- ===== src/WalletScan/Chunk.antt =====
-- The chunk of a range of blocks (crates/railgun-indexer-core/src/wallet_scan.rs).
pub mod Represents
use railgun_indexer.Prelude.{
  ℕ, List, [], ◌∷◌, length, Bool, ◌||◌, ltb, if◌then◌else◌, some, Result, ok, err, ◌>>=◌, ◌>>◌,
  map_err,
}
use railgun_indexer.Codec.{Bytes, ChunkError, u64_len}
use railgun_indexer.Artifact.{
  Range, block, wallet_scan, ChunkEnvelope, ChunkSection, Published, ChunkPlanItem,
  default_metadata, ChunkFormat, checked_byte_size,
}
use railgun_indexer.WalletScan.{
  WalletSection, transact, shield, nullifier, legacy_encrypted, legacy_generated,
  StoredIndexedLogSourceRow, StoredTransactCommitmentRow, StoredShieldCommitmentRow,
  StoredNullifierRow, StoredLegacyEncryptedCommitmentRow, StoredLegacyGeneratedCommitmentRow,
  StoredWalletScanRows, WalletScanChunkError, invalid_block_range, record_out_of_range, chunk,
}
use railgun_indexer.WalletScan.Write.{Sectioned, encode_wallet_scan_records}

unfoldable pub validate_source_in_range :
    WalletSection → StoredIndexedLogSourceRow → ℕ → ℕ → Result WalletScanChunkError (Unit {0})
validate_source_in_range section source start_block end_block =
    if ltb source.block_number start_block || ltb end_block source.block_number
    then err (record_out_of_range section source.block_number start_block end_block)
    else ok tt

-- A `for` loop over the rows of a section.
unfoldable pub validate_each :
    {A : Type 0}
    → (A → StoredIndexedLogSourceRow)
    → WalletSection
    → ℕ
    → ℕ
    → List A
    → Result WalletScanChunkError (Unit {0})
validate_each source_of section start_block end_block [] = ok tt
validate_each source_of section start_block end_block (r ∷ rest) = do
  validate_source_in_range section (source_of r) start_block end_block
  validate_each source_of section start_block end_block rest

unfoldable pub validate_rows_in_range :
    StoredWalletScanRows → ℕ → ℕ → Result WalletScanChunkError (Unit {0})
validate_rows_in_range rows start end = do
  validate_each (λ (r : StoredTransactCommitmentRow). r.source) transact start end
      rows.transact_commitments
  validate_each (λ (r : StoredShieldCommitmentRow). r.source) shield start end
      rows.shield_commitments
  validate_each (λ (r : StoredNullifierRow). r.source) nullifier start end rows.nullifiers
  validate_each (λ (r : StoredLegacyEncryptedCommitmentRow). r.source) legacy_encrypted start end
      rows.legacy_encrypted_commitments
  validate_each (λ (r : StoredLegacyGeneratedCommitmentRow). r.source) legacy_generated start end
      rows.legacy_generated_commitments

module _ (f : ChunkFormat) where
  open f use {ChainScope, Compression, encode_chunk_bytes, sha256_digest, chunk_format_version}

  unfoldable pub encode_wallet_scan_envelope :
      ChainScope → Range → ℕ → ℕ → List ChunkSection → Bytes → Compression → Result ChunkError Bytes
  encode_wallet_scan_envelope scope range row_count payload_len sections payload compression =
      encode_chunk_bytes
        (record {
          header = record {
            dataset_kind = wallet_scan;
            scope = scope;
            range = range;
            row_count = row_count;
            payload_len = payload_len;
            sections = sections;
          };
          payload = payload;
        })
        compression

  unfoldable pub wallet_scan_chunk_plan_item :
      ChainScope
      → ℕ
      → ℕ
      → StoredWalletScanRows
      → Compression
      → Result WalletScanChunkError ChunkPlanItem
  wallet_scan_chunk_plan_item scope start_block end_block rows compression =
      if ltb end_block start_block then err (invalid_block_range start_block end_block) else do
        validate_rows_in_range rows start_block end_block
        (encoded, row_count) ← encode_wallet_scan_records rows
        payload_len ← map_err chunk (u64_len (length encoded.payload))
        let range : Range = record { kind = block; start = start_block; end = end_block }
        compressed_bytes ← map_err chunk (
            encode_wallet_scan_envelope scope range row_count payload_len encoded.sections
              encoded.payload compression)
        compressed_byte_size ← map_err chunk (u64_len (length compressed_bytes))
        ok (record {
          range = range;
          row_count = row_count;
          compressed_byte_size = compressed_byte_size;
        })

  unfoldable pub prepare_wallet_scan_chunk :
      ChainScope
      → ℕ
      → ℕ
      → StoredWalletScanRows
      → Compression
      → Result WalletScanChunkError (Published ChainScope Compression)
  prepare_wallet_scan_chunk scope start_block end_block rows compression =
      if ltb end_block start_block then err (invalid_block_range start_block end_block) else do
        validate_rows_in_range rows start_block end_block
        (encoded, row_count) ← encode_wallet_scan_records rows
        payload_len ← map_err chunk (u64_len (length encoded.payload))
        let range : Range = record { kind = block; start = start_block; end = end_block }
        let root = sha256_digest encoded.payload
        compressed_bytes ← map_err chunk (
            encode_wallet_scan_envelope scope range row_count payload_len encoded.sections
              encoded.payload compression)
        byte_size ← map_err chunk (checked_byte_size f compressed_bytes)
        ok (record {
          descriptor = record {
            dataset_kind = wallet_scan;
            scope = scope;
            range = range;
            row_count = row_count;
            cid = [];
            sha256 = sha256_digest compressed_bytes;
            byte_size = byte_size;
            encoding_version = chunk_format_version;
            compression = compression;
            metadata = record default_metadata {
              root = some root;
              checkpoint_block = some end_block;
              last_indexed_block = some end_block;
            };
          };
          compressed_bytes = compressed_bytes;
        })
