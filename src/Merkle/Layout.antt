-- ===== src/Merkle/Layout.antt =====
-- The payload of a merkle checkpoint (crates/railgun-indexer-core/src/merkle_checkpoint.rs).
use railgun_indexer.Prelude.{
  ℕ, ◌+◌, ◌*◌, ◌<◌, ◌≡◌, ◌∙◌, ap, ◌++◌, length, some, get_elem?, take, drop, ok, arith, All,
  u32_mod, u64_mod, length-append,
}
use railgun_indexer.Codec.{Bytes, concat, write_u32, write_u64, to_le_bytes, from_le_bytes}
use railgun_indexer.Codec.RoundTrip.{
  from_le_bytes-to_le_bytes, take-append, drop-append, drop-drop, length-concat, take-drop-concat,
}
use railgun_indexer.Merkle.{MerkleCheckpointArtifact, encode_merkle_checkpoint}

-- The widths of the fields in Rust: u32, u64, u64 and arrays of 32 bytes.
pub record InRange (c : MerkleCheckpointArtifact) : Type 0 where
  pub tree_number : c.tree_number < u32_mod
  pub leaf_count : c.leaf_count < u64_mod
  pub last_indexed_block : c.last_indexed_block < u64_mod
  pub leaves : All (λ (leaf : Bytes). length leaf ≡ 32) c.leaves

-- A payload read back at the offsets of its fields.
pub record Reads (c : MerkleCheckpointArtifact) (expected_root payload : Bytes) : Type 0 where
  pub tree_number : from_le_bytes (take 4 payload) ≡ c.tree_number
  pub leaf_count : from_le_bytes (take 8 (drop 4 payload)) ≡ c.leaf_count
  pub root : take 32 (drop 12 payload) ≡ expected_root
  pub last_indexed_block : from_le_bytes (take 8 (drop 44 payload)) ≡ c.last_indexed_block
  pub leaf :
      (i : ℕ) (leaf : Bytes)
      → get_elem? c.leaves i ≡ some leaf
      → take 32 (drop (52 + 32 * i) payload) ≡ leaf
  pub size : length payload ≡ 52 + 32 * length c.leaves

module _ (c : MerkleCheckpointArtifact) (root : Bytes) where
  abbrev tail : Bytes
  tail = write_u64 c.last_indexed_block ++ concat c.leaves

  abbrev layout : Bytes
  layout = write_u32 c.tree_number ++ (write_u64 c.leaf_count ++ (root ++ tail))

  encode_merkle_checkpoint-eq :
      {payload : Bytes} → encode_merkle_checkpoint c root ≡ ok payload → payload ≡ layout
  unfolding encode_merkle_checkpoint
  encode_merkle_checkpoint-eq h = ground arith

  drop-root : length root ≡ 32 → drop 44 layout ≡ tail
  unfolding to_le_bytes
  drop-root h = drop-append root tail 32 h

  drop-leaves : length root ≡ 32 → drop 52 layout ≡ concat c.leaves
  unfolding to_le_bytes
  drop-leaves h = drop-drop 32 8 (root ++ tail) ∙ ap (drop 8) (drop-append root tail 32 h)

-- Reading an encoded checkpoint gives back its numbers, its root and each of its leaves.
pub encode_merkle_checkpoint-Reads :
    (c : MerkleCheckpointArtifact) (root : Bytes) {payload : Bytes}
    → InRange c
    → length root ≡ 32
    → encode_merkle_checkpoint c root ≡ ok payload
    → Reads c root payload
encode_merkle_checkpoint-Reads c root {payload} r hr h =
    let e = encode_merkle_checkpoint-eq c root h in
    record {
      tree_number =
          rw e (unfold to_le_bytes in from_le_bytes-to_le_bytes 4 c.tree_number r.tree_number);
      leaf_count =
          rw e (unfold to_le_bytes in from_le_bytes-to_le_bytes 8 c.leaf_count r.leaf_count);
      root = rw e (unfold to_le_bytes in take-append root (tail c root) 32 hr);
      last_indexed_block =
          rw (e, drop-root c root hr)
            (unfold to_le_bytes in
              from_le_bytes-to_le_bytes 8 c.last_indexed_block r.last_indexed_block);
      leaf = λ i leaf at.
          rw (e, drop-drop 52 (32 * i) (layout c root), drop-leaves c root hr)
            (take-drop-concat 32 c.leaves i leaf r.leaves at);
      size = rw e (
          unfold to_le_bytes in
          omega (arith, length-append root (tail c root), hr, length-concat 32 c.leaves r.leaves));
    }
