-- ===== src/Commitments.antt =====
-- Commitment chunks (crates/railgun-indexer-core/src/commitments.rs).
pub mod Rows
pub mod RoundTrip
use railgun_indexer.Prelude.{
  ℕ, List, [], ◌∷◌, ◌++◌, map, length, Option, none, some, leb, if◌then◌else◌, min, max, Result, ok,
  err, ◌>>=◌, ◌>>◌, ok_or, map_err,
}
use railgun_indexer.Codec.{Bytes, ChunkError, write_u32, write_u64, write_len, write_each, u64_len}
use railgun_indexer.Artifact.{
  Range, tree_position, commitments, ChunkEnvelope, Published, ChunkPlanItem, default_metadata,
  ChunkFormat, checked_byte_size,
}

pub data StoredCommitmentFamily : Type 0 where
  transact shield legacy_encrypted legacy_generated : StoredCommitmentFamily

pub record StoredCommitmentRow : Type 0 where
  pub global_position : ℕ
  pub block_number : ℕ
  pub family : StoredCommitmentFamily
  pub tree_number : ℕ
  pub tree_position : ℕ
  pub commitment_hash : Bytes

pub data CommitmentChunkError : Type 0 where
  empty_chunk : CommitmentChunkError
  non_increasing_global_position : ℕ → ℕ → CommitmentChunkError
  global_position_overflow : CommitmentChunkError
  chunk : ChunkError → CommitmentChunkError
  ipfs : ℕ → CommitmentChunkError

unfoldable pub commitment_family_id : StoredCommitmentFamily → ℕ
commitment_family_id transact = 0
commitment_family_id shield = 1
commitment_family_id legacy_encrypted = 2
commitment_family_id legacy_generated = 3

-- The loop over the records behind the first: the last position, or the first that does not grow.
unfoldable pub last_position : ℕ → List StoredCommitmentRow → Result CommitmentChunkError ℕ
last_position previous_position [] = ok previous_position
last_position previous_position (r ∷ rest) =
    if leb r.global_position previous_position
    then err (non_increasing_global_position previous_position r.global_position)
    else last_position r.global_position rest

unfoldable pub commitment_range : List StoredCommitmentRow → Result CommitmentChunkError Range
unfolding last_position
commitment_range [] = err empty_chunk
commitment_range (first ∷ rest) = do
  end ← last_position first.global_position rest
  ok (record { kind = tree_position; start = first.global_position; end = end })

unfoldable pub write_commitment_record : StoredCommitmentRow → Result ChunkError Bytes
write_commitment_record r = ok (
    write_u64 r.global_position
    ++ (write_u64 r.block_number
        ++ (commitment_family_id r.family ∷ []
            ++ (write_u32 r.tree_number ++ (write_u64 r.tree_position ++ r.commitment_hash)))))

unfoldable pub encode_commitment_records : List StoredCommitmentRow → Result ChunkError Bytes
unfolding write_commitment_record
encode_commitment_records records = do
  count ← write_len (length records)
  rows ← write_each write_commitment_record records
  let bytes = count ++ rows
  u64_len (length bytes)
  ok bytes

-- `Iterator::min` and `Iterator::max` over the block numbers.
unfoldable pub min_block : List StoredCommitmentRow → Option ℕ
min_block [] = none
min_block (r ∷ rest) = elim (min_block rest) [
  | none ↦ some r.block_number
  | some b ↦ some (min r.block_number b)
]

unfoldable pub max_block : List StoredCommitmentRow → Option ℕ
max_block [] = none
max_block (r ∷ rest) = elim (max_block rest) [
  | none ↦ some r.block_number
  | some b ↦ some (max r.block_number b)
]

module _ (f : ChunkFormat) where
  open f use {ChainScope, Compression, encode_chunk_bytes, sha256_digest, chunk_format_version}

  encode_commitment_envelope :
      ChainScope → Range → ℕ → ℕ → Bytes → Compression → Result ChunkError Bytes
  encode_commitment_envelope scope range row_count payload_len payload compression =
      encode_chunk_bytes
        (record {
          header = record {
            dataset_kind = commitments;
            scope = scope;
            range = range;
            row_count = row_count;
            payload_len = payload_len;
            sections = record { section_id = 1; offset = 0; byte_length = payload_len } ∷ [];
          };
          payload = payload;
        })
        compression

  unfoldable pub commitment_chunk_plan_item :
      ChainScope
      → List StoredCommitmentRow
      → Compression
      → Result CommitmentChunkError ChunkPlanItem
  unfolding encode_commitment_envelope
  commitment_chunk_plan_item scope records compression = do
    range ← commitment_range records
    payload ← map_err chunk (encode_commitment_records records)
    payload_len ← map_err chunk (u64_len (length payload))
    row_count ← map_err chunk (u64_len (length records))
    compressed_bytes ←
        map_err chunk
          (encode_commitment_envelope scope range row_count payload_len payload compression)
    compressed_byte_size ← map_err chunk (u64_len (length compressed_bytes))
    ok (record {
      range = range;
      row_count = row_count;
      compressed_byte_size = compressed_byte_size;
    })

  unfoldable pub prepare_commitment_chunk :
      ChainScope
      → List StoredCommitmentRow
      → Compression
      → Result CommitmentChunkError (Published ChainScope Compression)
  unfolding encode_commitment_envelope
  prepare_commitment_chunk scope records compression = do
    range ← commitment_range records
    payload ← map_err chunk (encode_commitment_records records)
    payload_len ← map_err chunk (u64_len (length payload))
    row_count ← map_err chunk (u64_len (length records))
    min_block ← ok_or (min_block records) empty_chunk
    max_block ← ok_or (max_block records) empty_chunk
    compressed_bytes ←
        map_err chunk
          (encode_commitment_envelope scope range row_count payload_len payload compression)
    byte_size ← map_err chunk (checked_byte_size f compressed_bytes)
    ok (record {
      descriptor = record {
        dataset_kind = commitments;
        scope = scope;
        range = range;
        row_count = row_count;
        cid = [];
        sha256 = sha256_digest compressed_bytes;
        byte_size = byte_size;
        encoding_version = chunk_format_version;
        compression = compression;
        metadata = record default_metadata {
          checkpoint_block = some max_block;
          start_block = some min_block;
          end_block = some max_block;
          last_indexed_block = some max_block;
        };
      };
      compressed_bytes = compressed_bytes;
    })
