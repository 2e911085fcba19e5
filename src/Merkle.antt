-- ===== src/Merkle.antt =====
-- Merkle checkpoints (crates/railgun-indexer-core/src/merkle_checkpoint.rs). Poseidon, the byte
-- conversions of U256 and the constants of the tree are of other crates: they are the fields of
-- `Tree`. A leaf is its 32 bytes, a u32 or u64 a number below 2^32 or 2^64.
pub mod Root
pub mod Artifact
pub mod Layout
use railgun_indexer.Prelude.{
  ℕ, zero, suc, ◌+◌, ◌-◌, ◌%◌, List, [], ◌∷◌, ◌++◌, map, length, ◌==◌, ltb, not, if◌then◌else◌,
  some, Result, ok, err, ◌>>=◌, ◌>>◌, ok_or, map_err, checked_add, checked_mul, try_narrow,
}
use railgun_indexer.Codec.{Bytes, ChunkError, write_u32, write_u64, u64_len, concat}
use railgun_indexer.Artifact.{
  Range, tree_position, merkle_checkpoint, ChunkSection, ChunkEnvelope, Descriptor, Published,
  default_metadata, ChunkFormat, checked_byte_size,
}

pub record Tree : Type 1 where
  pub Word : Type 0
  pub poseidon : Word → Word → Word
  pub from_be_bytes : Bytes → Word
  pub to_be_bytes : Word → Bytes
  pub merkle_zero_value : Word
  pub tree_depth : ℕ
  pub tree_leaf_count : ℕ

pub record MerkleCheckpointArtifact : Type 0 where
  pub tree_number : ℕ
  pub leaf_count : ℕ
  pub last_indexed_block : ℕ
  pub leaves : List Bytes

pub data MerkleCheckpointArtifactError : Type 0 where
  empty_checkpoint : MerkleCheckpointArtifactError
  leaf_count_too_large : ℕ → ℕ → MerkleCheckpointArtifactError
  leaf_count_mismatch : ℕ → ℕ → MerkleCheckpointArtifactError
  tree_number_out_of_range : ℕ → MerkleCheckpointArtifactError
  range_overflow : MerkleCheckpointArtifactError
  chunk : ChunkError → MerkleCheckpointArtifactError
  ipfs : ℕ → MerkleCheckpointArtifactError

abbrev Checked : Type 0 → Type 0
Checked = Result MerkleCheckpointArtifactError

module _ (t : Tree) where
  open t use {
    Word, poseidon, from_be_bytes, to_be_bytes, merkle_zero_value, tree_depth, tree_leaf_count,
  }

  -- One odd node at the end is paired with the root of an empty subtree of its height.
  pub pad : Word → List Word → List Word
  pad empty_subtree_root layer =
      if length layer % 2 == 0 then layer else layer ++ empty_subtree_root ∷ []

  -- `as_chunks::<2>().0`: the pairs; a last odd element is left out.
  pub pair_up : List Word → List Word
  pair_up [] = []
  pair_up (x ∷ []) = []
  pair_up (x ∷ y ∷ rest) = poseidon x y ∷ pair_up rest

  pub climb : ℕ → List Word → Word → List Word
  climb zero layer empty_subtree_root = layer
  climb (suc rounds) layer empty_subtree_root =
      climb rounds (pair_up (pad empty_subtree_root layer))
        (poseidon empty_subtree_root empty_subtree_root)

  first_or_zero : List Word → Word
  first_or_zero [] = merkle_zero_value
  first_or_zero (x ∷ rest) = x

  unfoldable pub checkpoint_root : List Bytes → Bytes
  unfolding first_or_zero climb pad pair_up
  checkpoint_root leaves =
      to_be_bytes (first_or_zero (climb tree_depth (map from_be_bytes leaves) merkle_zero_value))

  unfoldable pub validate_checkpoint : MerkleCheckpointArtifact → Checked (Unit {0})
  validate_checkpoint c =
      if c.leaf_count == 0
      then err empty_checkpoint
      else if ltb tree_leaf_count c.leaf_count
      then err (leaf_count_too_large c.leaf_count tree_leaf_count)
      else do
        leaf_len ← map_err chunk (u64_len (length c.leaves))
        (if leaf_len == c.leaf_count
            then ok tt
            else err (leaf_count_mismatch c.leaf_count leaf_len))

  unfoldable pub checkpoint_range : MerkleCheckpointArtifact → Checked Range
  checkpoint_range c = do
    start ← ok_or (checked_mul c.tree_number tree_leaf_count) range_overflow
    end ← ok_or (checked_add start (c.leaf_count - 1)) range_overflow
    ok (record { kind = tree_position; start = start; end = end })

unfoldable pub encode_merkle_checkpoint : MerkleCheckpointArtifact → Bytes → Result ChunkError Bytes
unfolding concat
encode_merkle_checkpoint c root = do
  let bytes =
      write_u32 c.tree_number
      ++ (write_u64 c.leaf_count ++ (root ++ (write_u64 c.last_indexed_block ++ concat c.leaves)))
  u64_len (length bytes)
  ok bytes

module _ (t : Tree) (f : ChunkFormat) where
  open t use {tree_leaf_count}
  open f use {ChainScope, Compression, encode_chunk_bytes, sha256_digest, chunk_format_version}

  abbrev checkpoint_envelope :
      ChainScope → MerkleCheckpointArtifact → Range → Bytes → ℕ → ChunkEnvelope ChainScope
  checkpoint_envelope scope c range payload payload_len = record {
    header = record {
      dataset_kind = merkle_checkpoint;
      scope = scope;
      range = range;
      row_count = c.leaf_count;
      payload_len = payload_len;
      sections = record { section_id = 1; offset = 0; byte_length = payload_len } ∷ [];
    };
    payload = payload;
  }

  unfoldable pub prepare_merkle_checkpoint_artifact :
      ChainScope
      → MerkleCheckpointArtifact
      → Compression
      → Checked (Published ChainScope Compression)
  unfolding validate_checkpoint checkpoint_range encode_merkle_checkpoint
  prepare_merkle_checkpoint_artifact scope c compression = do
    validate_checkpoint t c
    let root = checkpoint_root t c.leaves
    range ← checkpoint_range t c
    payload ← map_err chunk (encode_merkle_checkpoint c root)
    payload_len ← map_err chunk (u64_len (length payload))
    compressed_bytes ←
        map_err chunk
          (encode_chunk_bytes (checkpoint_envelope scope c range payload payload_len) compression)
    byte_size ← map_err chunk (checked_byte_size f compressed_bytes)
    tree_number ← ok_or (try_narrow 65536 c.tree_number) (tree_number_out_of_range c.tree_number)
    ok (record {
      descriptor = record {
        dataset_kind = merkle_checkpoint;
        scope = scope;
        range = range;
        row_count = c.leaf_count;
        cid = [];
        sha256 = sha256_digest compressed_bytes;
        byte_size = byte_size;
        encoding_version = chunk_format_version;
        compression = compression;
        metadata = record default_metadata {
          root = some root;
          checkpoint_block = some c.last_indexed_block;
          tree_number = some tree_number;
          leaf_count = some c.leaf_count;
          last_indexed_block = some c.last_indexed_block;
        };
      };
      compressed_bytes = compressed_bytes;
    })
