-- ===== src/Artifact.antt =====
-- Indexed artifacts: the envelopes and descriptors that the dataset encoders fill in. The chunk
-- format itself (the crate railgun_indexed_artifacts) and SHA-256 are not of this repository: they
-- are the fields of `ChunkFormat`. Text, such as a CID, stands as its bytes.
use railgun_indexer.Prelude.{
  ℕ, ◌≡◌, ◌≤◌, List, [], Option, none, length, ltb, if◌then◌else◌, Result, ok, err, ◌>>=◌,
}
use railgun_indexer.Codec.{Bytes, ChunkError, chunk_too_large, u64_len}

pub data DatasetKind : Type 0 where
  public_txid wallet_scan commitments merkle_checkpoint : DatasetKind

pub data RangeKind : Type 0 where
  block tree_position txid_index poi_event_index : RangeKind

pub record Range : Type 0 where
  pub kind : RangeKind
  pub start : ℕ
  pub end : ℕ

pub record ChunkSection : Type 0 where
  pub section_id : ℕ
  pub offset : ℕ
  pub byte_length : ℕ

pub record ChunkEnvelopeHeader (S : Type 0) : Type 0 where
  pub dataset_kind : DatasetKind
  pub scope : S
  pub range : Range
  pub row_count : ℕ
  pub payload_len : ℕ
  pub sections : List ChunkSection

pub record ChunkEnvelope (S : Type 0) : Type 0 where
  pub header : ChunkEnvelopeHeader S
  pub payload : Bytes

pub record Metadata : Type 0 where
  pub root : Option Bytes
  pub checkpoint_block : Option ℕ
  pub tree_number : Option ℕ
  pub leaf_count : Option ℕ
  pub start_block : Option ℕ
  pub end_block : Option ℕ
  pub last_indexed_block : Option ℕ

-- `DatasetDescriptorMetadata::default()`, in the fields that the encoders set.
abbrev pub default_metadata : Metadata
default_metadata = record {
  root = none;
  checkpoint_block = none;
  tree_number = none;
  leaf_count = none;
  start_block = none;
  end_block = none;
  last_indexed_block = none;
}

pub record Descriptor (S C : Type 0) : Type 0 where
  pub dataset_kind : DatasetKind
  pub scope : S
  pub range : Range
  pub row_count : ℕ
  pub cid : Bytes
  pub sha256 : Bytes
  pub byte_size : ℕ
  pub encoding_version : ℕ
  pub compression : C
  pub metadata : Metadata

pub record Published (S C : Type 0) : Type 0 where
  pub descriptor : Descriptor S C
  pub compressed_bytes : Bytes

pub record ChunkPlanItem : Type 0 where
  pub range : Range
  pub row_count : ℕ
  pub compressed_byte_size : ℕ

pub record ChunkFormat : Type 1 where
  pub ChainScope : Type 0
  pub Compression : Type 0
  pub encode_chunk_bytes : ChunkEnvelope ChainScope → Compression → Result ChunkError Bytes
  pub sha256_digest : Bytes → Bytes
  pub max_compressed_chunk_bytes : ℕ
  pub chunk_format_version : ℕ

module _ (f : ChunkFormat) where
  open f use {
    ChainScope, Compression, encode_chunk_bytes, sha256_digest, max_compressed_chunk_bytes,
  }

  -- The size check at the end of each `prepare_…` function: the size of the bytes, if it is allowed.
  abbrev pub checked_byte_size : Bytes → Result ChunkError ℕ
  checked_byte_size compressed_bytes = do
    byte_size ← u64_len (length compressed_bytes)
    (if ltb max_compressed_chunk_bytes byte_size
        then err (chunk_too_large byte_size max_compressed_chunk_bytes)
        else ok byte_size)

  -- What a descriptor promises of the bytes that it goes with.
  pub record Describes (p : Published ChainScope Compression) : Type 0 where
    pub size : p.descriptor.byte_size ≡ length p.compressed_bytes
    pub allowed : p.descriptor.byte_size ≤ max_compressed_chunk_bytes
    pub digest : p.descriptor.sha256 ≡ sha256_digest p.compressed_bytes
    pub unpinned : p.descriptor.cid ≡ []
