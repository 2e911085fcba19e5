-- ===== src/Examples/Artifacts.antt =====
-- The artifacts at concrete inputs
-- (crates/railgun-indexer-core/src/{merkle_checkpoint,commitments}.rs).
use railgun_indexer.Prelude.{
  ℕ, ◌+◌, All, ◌≡◌, ◌<◌, refl, List, [], ◌∷◌, length, replicate, some, arith, ok, map, get_or,
}
use railgun_indexer.Codec.{Bytes, to_le_bytes, write_each, write_len}
use railgun_indexer.Artifact.{Published, Range, tree_position}
use railgun_indexer.Merkle.{
  MerkleCheckpointArtifact, checkpoint_root, checkpoint_range, encode_merkle_checkpoint,
  prepare_merkle_checkpoint_artifact,
}
use railgun_indexer.Merkle.Root.{node, checkpoint_root_lem}
use railgun_indexer.Merkle.Artifact.{IsValid, Represents, prepare-Represents}
use railgun_indexer.Merkle.Layout.{InRange, Reads, encode_merkle_checkpoint-Reads}
use railgun_indexer.Commitments
use railgun_indexer.Commitments.{
  StoredCommitmentRow, transact, shield, empty_chunk, commitment_range, encode_commitment_records,
  prepare_commitment_chunk, last_position, min_block, max_block, write_commitment_record,
  commitment_family_id,
}
use railgun_indexer.Commitments.RoundTrip
use railgun_indexer.Commitments.RoundTrip.{read_commitment_records, encode_commitment_records-read}
use railgun_indexer.Examples.Data.{tree, format}

abbrev leaf : Bytes
leaf = replicate 32 7

abbrev checkpoint : MerkleCheckpointArtifact
checkpoint = record {
  tree_number = 1;
  leaf_count = 3;
  last_indexed_block = 10;
  leaves = leaf ∷ leaf ∷ leaf ∷ [];
}

-- 7 + 7 + 7 + 3: the last leaf is the zero value.
checkpoint_root_test : checkpoint_root tree checkpoint.leaves ≡ 24 ∷ []
unfolding checkpoint_root
checkpoint_root_test = refl

checkpoint_root_lem_example :
    checkpoint_root tree checkpoint.leaves
    ≡ tree.to_be_bytes (node tree (λ i. get_or (map tree.from_be_bytes checkpoint.leaves) i 3) 2 0)
checkpoint_root_lem_example = checkpoint_root_lem tree checkpoint.leaves (λ e. cc)

checkpoint-IsValid : IsValid tree checkpoint
checkpoint-IsValid = record { positive = omega arith; fits = omega arith; counted = refl }

root : Bytes
root = checkpoint_root tree checkpoint.leaves

abbrev range : Range
range = record { kind = tree_position; start = 4; end = 6 }

range_lem : checkpoint_range tree checkpoint ≡ ok range
unfolding checkpoint_range
range_lem = refl

encoded :
    (payload : Bytes) × (encode_merkle_checkpoint checkpoint root ≡ ok payload)
    × (length payload < 200)
unfolding encode_merkle_checkpoint root checkpoint_root to_le_bytes
encoded = (_, refl, omega arith)

prepared :
    (p : Published (Unit {0}) (Unit {0})) × (prepare_merkle_checkpoint_artifact tree format tt
        checkpoint tt
      ≡ ok p)
unfolding prepare_merkle_checkpoint_artifact checkpoint_root to_le_bytes
prepared = (_, refl)

prepare-Represents_example : Represents tree format checkpoint prepared.0
prepare-Represents_example = prepare-Represents tree format tt checkpoint tt prepared.1

checkpoint-InRange : InRange checkpoint
checkpoint-InRange = record {
  tree_number = omega arith;
  leaf_count = omega arith;
  last_indexed_block = omega arith;
  leaves = (refl, (refl, (refl, tt)));
}

encoded_leaf : (payload : Bytes) × (encode_merkle_checkpoint checkpoint leaf ≡ ok payload)
unfolding encode_merkle_checkpoint to_le_bytes
encoded_leaf = (_, refl)

encode_merkle_checkpoint-Reads_example : Reads checkpoint leaf encoded_leaf.0
encode_merkle_checkpoint-Reads_example =
    encode_merkle_checkpoint-Reads checkpoint leaf checkpoint-InRange refl encoded_leaf.1

abbrev row : ℕ → StoredCommitmentRow
row position = record {
  global_position = position;
  block_number = position + 100;
  family = shield;
  tree_number = 0;
  tree_position = position;
  commitment_hash = leaf;
}

abbrev rows : List StoredCommitmentRow
rows = row 4 ∷ row 9 ∷ []

chunk : (p : Published (Unit {0}) (Unit {0})) × (prepare_commitment_chunk format tt rows tt ≡ ok p)
unfolding prepare_commitment_chunk commitment_range encode_commitment_records write_len write_each
    min_block max_block to_le_bytes
chunk = (_, refl)

rows-InRange : All Commitments.RoundTrip.InRange rows
rows-InRange = (in_range 4 (omega arith), (in_range 9 (omega arith), tt))
  where
    in_range : (n : ℕ) → n < 100 → Commitments.RoundTrip.InRange (row n)
    in_range n small = record {
      global_position = omega arith;
      block_number = omega arith;
      tree_number = omega arith;
      tree_position = omega arith;
      commitment_hash = refl;
    }

records_payload : (payload : Bytes) × (encode_commitment_records rows ≡ ok payload)
unfolding encode_commitment_records write_len write_each to_le_bytes
records_payload = (_, refl)

encode_commitment_records-read_example : read_commitment_records records_payload.0 ≡ some (rows, [])
encode_commitment_records-read_example =
    encode_commitment_records-read rows rows-InRange records_payload.1
