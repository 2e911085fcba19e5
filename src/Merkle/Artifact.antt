-- ===== src/Merkle/Artifact.antt =====
-- The descriptor of a merkle checkpoint (crates/railgun-indexer-core/src/merkle_checkpoint.rs).
use railgun_indexer.Prelude.{◌+◌, ◌*◌, ◌≤◌, ◌<◌, ◌≡◌, ◌↔◌, length, some, ok, map_ok, arith, u64_mod}
use railgun_indexer.Codec.{Bytes}
use railgun_indexer.Artifact.{Range, Published, ChunkFormat, Describes, tree_position}
use railgun_indexer.Merkle.{
  Tree, MerkleCheckpointArtifact, checkpoint_root, validate_checkpoint, checkpoint_range,
  encode_merkle_checkpoint, checkpoint_envelope, prepare_merkle_checkpoint_artifact,
}

-- A checkpoint has leaves, not more than a tree holds, and as many as it says.
pub record IsValid (t : Tree) (c : MerkleCheckpointArtifact) : Type 0 where
  pub positive : 1 ≤ c.leaf_count
  pub fits : c.leaf_count ≤ t.tree_leaf_count
  pub counted : length c.leaves ≡ c.leaf_count

-- A checkpoint whose number of leaves is a u64 is accepted exactly when it is valid.
pub validate_checkpoint_lem :
    (t : Tree) (c : MerkleCheckpointArtifact)
    → length c.leaves < u64_mod
    → (validate_checkpoint t c ≡ ok tt) ↔ IsValid t c
unfolding validate_checkpoint
validate_checkpoint_lem t c h = (λ accepted. ground arith, λ v. ground arith)

module _ (t : Tree) (f : ChunkFormat) where
  open f use {ChainScope, Compression}

  -- What a prepared artifact says of its checkpoint.
  pub record Represents (c : MerkleCheckpointArtifact) (p : Published ChainScope Compression)
      : Type 0 where
    pub valid : IsValid t c
    pub describes : Describes f p
    pub rows : p.descriptor.row_count ≡ length c.leaves
    pub kind : p.descriptor.range.kind ≡ tree_position
    pub start : p.descriptor.range.start ≡ c.tree_number * t.tree_leaf_count
    pub end : p.descriptor.range.end + 1 ≡ p.descriptor.range.start + length c.leaves
    pub within : p.descriptor.range.end < (c.tree_number + 1) * t.tree_leaf_count
    pub root : p.descriptor.metadata.root ≡ some (checkpoint_root t c.leaves)
    pub tree_number : p.descriptor.metadata.tree_number ≡ some c.tree_number
    pub narrow : c.tree_number < 65536

  -- A prepared checkpoint is valid, and its descriptor has the size and digest of its bytes, the
  -- number of its leaves, its root and its tree number; its range covers exactly its leaves and
  -- stays in its tree.
  pub prepare-Represents :
      (scope : ChainScope) (c : MerkleCheckpointArtifact) (compression : Compression)
      {p : Published ChainScope Compression}
      → prepare_merkle_checkpoint_artifact t f scope c compression ≡ ok p
      → Represents c p
  unfolding prepare_merkle_checkpoint_artifact
  prepare-Represents scope c compression h = ground arith

  -- A valid checkpoint is prepared, with the bytes that the chunk format makes of it, whenever its
  -- numbers fit their types and those bytes are not too many.
  pub prepare_complete :
      (scope : ChainScope) (c : MerkleCheckpointArtifact) (compression : Compression)
      (range : Range) (payload compressed_bytes : Bytes)
      → IsValid t c
      → c.tree_number < 65536
      → c.leaf_count < u64_mod
      → checkpoint_range t c ≡ ok range
      → encode_merkle_checkpoint c (checkpoint_root t c.leaves) ≡ ok payload
      → f.encode_chunk_bytes
          (checkpoint_envelope t f scope c range payload (length payload))
          compression
        ≡ ok compressed_bytes
      → length compressed_bytes < u64_mod
      → length compressed_bytes ≤ f.max_compressed_chunk_bytes
      → map_ok
          (λ p. p.compressed_bytes)
          (prepare_merkle_checkpoint_artifact t f scope c compression)
        ≡ ok compressed_bytes
  unfolding prepare_merkle_checkpoint_artifact
  prepare_complete scope c compression range payload compressed_bytes v n nl er ep ec hl hm =
      ground arith
