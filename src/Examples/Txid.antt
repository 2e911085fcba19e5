-- ===== src/Examples/Txid.antt =====
-- A chunk of two public TXIDs, one with an unshield (crates/railgun-indexer-core/src/public_txid.rs).
use railgun_indexer.Prelude.{
  ℕ, ◌+◌, ◌<◌, ◌≡◌, ◌≢◌, refl, List, [], ◌∷◌, map, length, replicate, get_or, Option, none, some,
  Bool, true, false, ok, err, arith, u64_mod, All,
}
use railgun_indexer.Codec.{
  Bytes, to_le_bytes, write_each, write_string, write_fixed_bytes_vec, concat,
}
use railgun_indexer.Codec.Read.{read_many}
use railgun_indexer.Artifact.{Range, Published}
use railgun_indexer.PoiStore.{bytes_eq}
use railgun_indexer.PublicTxid.{
  Txid, StoredPublicTxidRow, empty_chunk, check_indices, last_txid_index, public_txid_range,
  validate_single_txid_tree, write_public_txid_record, encode_public_txid_records, last_commitment,
  count_unshields, preimage_entry, preimage_entries, encode_public_txid_unshield_preimages,
  public_txid_leaf_hash, public_txid_checkpoint_root, non_contiguous_txid_index,
}
use railgun_indexer.PublicTxid.Indices.{Consecutive, public_txid_range-Consecutive}
use railgun_indexer.PublicTxid.Preimages.{
  IsBacked, HasPreimage, encode_public_txid_unshield_preimages-IsBacked,
}
use railgun_indexer.PublicTxid.RoundTrip.{
  InRange, read_public_txid_record, without_preimage, encode_public_txid_records-read,
}
use railgun_indexer.PublicTxid.Chunk.{
  max_row_block, optional_len, encode_public_txid_envelope, prepare_public_txid_chunk,
}
use railgun_indexer.PublicTxid.Chunk.Represents.{Represents, prepare_public_txid_chunk-Represents}
use railgun_indexer.Examples.Data.{format}

abbrev txid : Txid
txid = record {
  Word = ℕ;
  Preimage = Bytes;
  abi_decode = some;
  abi_encode = λ p. p;
  preimage_hash = λ p. p;
  from_be_bytes = λ b. get_or b 31 0;
  compute_railgun_txid_parts = λ nullifiers commitments bound. bound;
  railgun_txid_leaf_hash_with_output_start = λ railgun_txid tree start. railgun_txid + start;
  dense_root = λ leaves count. leaves;
  tree_leaf_count = 4;
}

abbrev hash : ℕ → Bytes
hash n = replicate 32 n

abbrev first_row : StoredPublicTxidRow
first_row = record {
  txid_index = 4;
  id = 1 ∷ 2 ∷ [];
  block_number = 20;
  block_timestamp = 1_000;
  block_hash = hash 9;
  transaction_hash = hash 8;
  first_log_index = 0;
  last_log_index = 3;
  nullifiers = hash 5 ∷ [];
  commitments = hash 6 ∷ hash 7 ∷ [];
  bound_params_hash = hash 2;
  has_unshield = true;
  unshield_preimage = some (hash 7);
  utxo_tree_in = 0;
  utxo_tree_out = 1;
  utxo_batch_start_position_out = 3;
}

abbrev second_row : StoredPublicTxidRow
second_row = record first_row { txid_index = 5; has_unshield = false; unshield_preimage = none }

abbrev rows : List StoredPublicTxidRow
rows = first_row ∷ second_row ∷ []

-- A gap in the indices is reported with the expected and the found index.
gap_test : public_txid_range (second_row ∷ first_row ∷ []) ≡ err (non_contiguous_txid_index 6 4)
unfolding public_txid_range check_indices
gap_test = refl

root_test : public_txid_checkpoint_root txid rows ≡ ok (9 ∷ 9 ∷ [])
unfolding public_txid_checkpoint_root public_txid_range check_indices last_txid_index
    validate_single_txid_tree public_txid_leaf_hash
root_test = refl

payload : (bytes : Bytes) × (encode_public_txid_records rows ≡ ok bytes)
unfolding encode_public_txid_records write_public_txid_record write_string write_fixed_bytes_vec
    write_each concat to_le_bytes
payload = (_, refl)

sidecar : (bytes : Option Bytes) × (encode_public_txid_unshield_preimages txid rows ≡ ok bytes)
unfolding encode_public_txid_unshield_preimages preimage_entries preimage_entry last_commitment
    count_unshields bytes_eq to_le_bytes
sidecar = (_, refl)

chunk :
    (p : Published (Unit {0}) (Unit {0})) × (prepare_public_txid_chunk txid format tt rows
        (hash 1)
        tt
      ≡ ok p)
unfolding prepare_public_txid_chunk encode_public_txid_envelope optional_len max_row_block
    validate_single_txid_tree public_txid_range check_indices last_txid_index
    encode_public_txid_records write_public_txid_record write_string write_fixed_bytes_vec
    write_each concat encode_public_txid_unshield_preimages preimage_entries preimage_entry
    last_commitment count_unshields bytes_eq to_le_bytes
chunk = (_, refl)

row-InRange :
    (n : ℕ) (has_unshield : Bool) (u : Option Bytes)
    → n < 10
    → InRange
        (record first_row { txid_index = n; has_unshield = has_unshield; unshield_preimage = u })
row-InRange n has_unshield u small = record {
  txid_index = omega arith;
  block_number = omega arith;
  block_timestamp = omega arith;
  block_hash = refl;
  transaction_hash = refl;
  first_log_index = omega arith;
  last_log_index = omega arith;
  nullifiers = (refl, tt);
  commitments = (refl, (refl, tt));
  bound_params_hash = refl;
  utxo_tree_in = omega arith;
  utxo_tree_out = omega arith;
  utxo_batch_start_position_out = omega arith;
}

public_txid_range-Consecutive_example :
    (public_txid_range [] ≡ err empty_chunk)
    × (Consecutive 4 rows × (4 + length rows < u64_mod)
        → (range : Range) × (public_txid_range rows ≡ ok range)
          × (range.start ≡ 4)
          × (range.end + 1 ≡ range.start + length rows))
    × ((range : Range) × (public_txid_range rows ≡ ok range)
        → Consecutive 4 rows × (4 + length rows < u64_mod))
public_txid_range-Consecutive_example = public_txid_range-Consecutive first_row (second_row ∷ [])

encode_public_txid_records-read_example :
    read_many read_public_txid_record 2 payload.0 ≡ some (map without_preimage rows, [])
encode_public_txid_records-read_example =
    encode_public_txid_records-read rows
      (
        row-InRange 4 true (some (hash 7)) (omega arith),
        (row-InRange 5 false none (omega arith), tt),
      )
      payload.1

encode_public_txid_unshield_preimages-IsBacked_example :
    All (IsBacked txid) rows × (sidecar.0 ≢ none → All (HasPreimage txid) rows)
encode_public_txid_unshield_preimages-IsBacked_example =
    encode_public_txid_unshield_preimages-IsBacked txid rows sidecar.0 sidecar.1

prepare_public_txid_chunk-Represents_example : Represents txid format rows (hash 1) chunk.0
prepare_public_txid_chunk-Represents_example =
    prepare_public_txid_chunk-Represents txid format tt rows (hash 1) tt chunk.1
