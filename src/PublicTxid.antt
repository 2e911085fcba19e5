-- ===== src/PublicTxid.antt =====
-- Public TXID chunks (crates/railgun-indexer-core/src/public_txid.rs). The ABI coding and the hash of
-- a preimage, the hashes of a transaction and the dense Merkle tree are of other crates: they are the
-- fields of `Txid`.
pub mod Chunk
pub mod Indices
pub mod RoundTrip
pub mod Preimages
use railgun_indexer.Prelude.{
  ℕ, ◌+◌, ◌-◌, ◌*◌, ◌/◌, ◌%◌, ◌^◌, min, List, [], ◌∷◌, ◌++◌, map, length, Option, none, some, Bool,
  true, false, not, ◌==◌, if◌then◌else◌, Result, ok, err, ◌>>=◌, ◌>>◌, ok_or, map_err, checked_add,
  try_narrow, u32_mod,
}
use railgun_indexer.Codec.{
  Bytes, ChunkError, payload_too_large, write_u16, write_u32, write_u64, write_string,
  write_fixed_bytes_vec, write_each, u64_len,
}
use railgun_indexer.Artifact.{Range, txid_index}
use railgun_indexer.PoiStore.{bytes_eq}

pub record Txid : Type 1 where
  pub Word : Type 0
  pub Preimage : Type 0
  pub abi_decode : Bytes → Option Preimage
  pub abi_encode : Preimage → Bytes
  pub preimage_hash : Preimage → Bytes
  pub from_be_bytes : Bytes → Word
  pub compute_railgun_txid_parts : List Word → List Word → Word → Word
  pub railgun_txid_leaf_hash_with_output_start : Word → ℕ → ℕ → Word
  pub dense_root : List Word → ℕ → Bytes
  pub tree_leaf_count : ℕ

pub record StoredPublicTxidRow : Type 0 where
  pub txid_index : ℕ
  pub id : Bytes
  pub block_number : ℕ
  pub block_timestamp : ℕ
  pub block_hash : Bytes
  pub transaction_hash : Bytes
  pub first_log_index : ℕ
  pub last_log_index : ℕ
  pub nullifiers : List Bytes
  pub commitments : List Bytes
  pub bound_params_hash : Bytes
  pub has_unshield : Bool
  pub unshield_preimage : Option Bytes
  pub utxo_tree_in : ℕ
  pub utxo_tree_out : ℕ
  pub utxo_batch_start_position_out : ℕ

pub data PublicTxidChunkError : Type 0 where
  empty_chunk : PublicTxidChunkError
  non_contiguous_txid_index : ℕ → ℕ → PublicTxidChunkError
  txid_index_overflow : PublicTxidChunkError
  crosses_txid_tree_boundary : ℕ → ℕ → PublicTxidChunkError
  checkpoint_does_not_start_at_tree_prefix : ℕ → PublicTxidChunkError
  unexpected_unshield_preimage : ℕ → PublicTxidChunkError
  invalid_unshield_preimage : ℕ → PublicTxidChunkError
  missing_unshield_commitment : ℕ → PublicTxidChunkError
  unshield_commitment_mismatch : ℕ → PublicTxidChunkError
  chunk : ChunkError → PublicTxidChunkError
  ipfs : ℕ → PublicTxidChunkError

abbrev pub Checked : Type 0 → Type 0
Checked = Result PublicTxidChunkError

-- The loop of `public_txid_range`.
unfoldable pub check_indices : ℕ → List StoredPublicTxidRow → Checked (Unit {0})
check_indices expected_index [] = ok tt
check_indices expected_index (r ∷ rest) = do
  (if r.txid_index == expected_index
      then ok tt
      else err (non_contiguous_txid_index expected_index r.txid_index))
  next ← ok_or (checked_add expected_index 1) txid_index_overflow
  check_indices next rest

-- `last().txid_index` of a row and those behind it.
unfoldable pub last_txid_index : StoredPublicTxidRow → List StoredPublicTxidRow → ℕ
last_txid_index first [] = first.txid_index
last_txid_index first (r ∷ rest) = last_txid_index r rest

unfoldable pub public_txid_range : List StoredPublicTxidRow → Checked Range
public_txid_range [] = err empty_chunk
public_txid_range (first ∷ rest) = do
  check_indices first.txid_index (first ∷ rest)
  ok (record { kind = txid_index; start = first.txid_index; end = last_txid_index first rest })

abbrev bool_byte : Bool → ℕ
bool_byte true = 1
bool_byte false = 0

-- The fields of a row in their order, three of them as they were written.
abbrev pub record_layout : StoredPublicTxidRow → Bytes → Bytes → Bytes → Bytes
record_layout r id nullifiers commitments =
    write_u64 r.txid_index
    ++ (id
        ++ (write_u64 r.block_number
            ++ (write_u64 r.block_timestamp
                ++ (r.block_hash
                    ++ (r.transaction_hash
                        ++ (write_u64 r.first_log_index
                            ++ (write_u64 r.last_log_index
                                ++ (nullifiers
                                    ++ (commitments
                                        ++ (r.bound_params_hash
                                            ++ (bool_byte r.has_unshield ∷ []
                                                ++ (write_u64 r.utxo_tree_in
                                                    ++ (write_u64 r.utxo_tree_out
                                                        ++ write_u64
                                                            r.utxo_batch_start_position_out)))))))))))))

unfoldable pub write_public_txid_record : StoredPublicTxidRow → Result ChunkError Bytes
write_public_txid_record r = do
  id ← write_string r.id
  nullifiers ← write_fixed_bytes_vec r.nullifiers
  commitments ← write_fixed_bytes_vec r.commitments
  ok (record_layout r id nullifiers commitments)

unfoldable pub encode_public_txid_records : List StoredPublicTxidRow → Result ChunkError Bytes
encode_public_txid_records records = do
  bytes ← write_each write_public_txid_record records
  u64_len (length bytes)
  ok bytes

unfoldable pub last_commitment : List Bytes → Option Bytes
last_commitment [] = none
last_commitment (c ∷ []) = some c
last_commitment (c ∷ d ∷ rest) = last_commitment (d ∷ rest)

-- `filter(has_unshield).count()`
unfoldable pub count_unshields : List StoredPublicTxidRow → ℕ
count_unshields [] = 0
count_unshields (r ∷ rest) =
    let others = count_unshields rest in if r.has_unshield then others + 1 else others

module _ (t : Txid) where
  open t use {
    Word, abi_decode, abi_encode, preimage_hash, from_be_bytes, compute_railgun_txid_parts,
    railgun_txid_leaf_hash_with_output_start, dense_root, tree_leaf_count,
  }

  unfoldable pub validate_single_txid_tree : Range → Checked (Unit {0})
  validate_single_txid_tree range =
      if range.start / tree_leaf_count == range.end / tree_leaf_count
      then ok tt
      else err (crosses_txid_tree_boundary range.start range.end)

  -- The entry of a row that has a preimage.
  unfoldable pub preimage_entry : StoredPublicTxidRow → Bytes → Checked Bytes
  preimage_entry r encoded = do
    (if r.has_unshield then ok tt else err (unexpected_unshield_preimage r.txid_index))
    preimage ← ok_or (abi_decode encoded) (invalid_unshield_preimage r.txid_index)
    expected_commitment ←
        ok_or (last_commitment r.commitments) (missing_unshield_commitment r.txid_index)
    (if bytes_eq (preimage_hash preimage) expected_commitment
        then ok tt
        else err (unshield_commitment_mismatch r.txid_index))
    size ← ok_or (try_narrow 65536 (length (abi_encode preimage))) (chunk payload_too_large)
    ok (write_u64 r.txid_index ++ (write_u16 size ++ abi_encode preimage))

  -- The loop over the rows: whether a preimage is missing, and the bytes.
  unfoldable pub preimage_entries : List StoredPublicTxidRow → Checked (Bool × Bytes)
  preimage_entries [] = ok (false, [])
  preimage_entries (r ∷ rest) = elim r.unshield_preimage [
    | none ↦ do
      (missing, bytes) ← preimage_entries rest
      ok (if r.has_unshield then true else missing, bytes)
    | some encoded ↦ do
      entry ← preimage_entry r encoded
      (missing, bytes) ← preimage_entries rest
      ok (missing, entry ++ bytes)
  ]

  unfoldable pub encode_public_txid_unshield_preimages :
      List StoredPublicTxidRow → Checked (Option Bytes)
  encode_public_txid_unshield_preimages records = do
    count ← ok_or (try_narrow u32_mod (count_unshields records)) (chunk payload_too_large)
    (missing, bytes) ← preimage_entries records
    ok (if missing then none else some (write_u32 count ++ bytes))

  -- u128 `saturating_mul` and `saturating_add`
  abbrev u128_max : ℕ
  u128_max = 2 ^ 128 - 1

  unfoldable pub public_txid_leaf_hash : StoredPublicTxidRow → Word
  public_txid_leaf_hash r =
      let railgun_txid =
        compute_railgun_txid_parts (map from_be_bytes r.nullifiers)
          (map from_be_bytes r.commitments) (from_be_bytes r.bound_params_hash) in
      let output_start =
        min (min (r.utxo_tree_out * tree_leaf_count) u128_max + r.utxo_batch_start_position_out)
          u128_max in
      railgun_txid_leaf_hash_with_output_start railgun_txid r.utxo_tree_in output_start

  unfoldable pub public_txid_checkpoint_root : List StoredPublicTxidRow → Checked Bytes
  public_txid_checkpoint_root records = do
    range ← public_txid_range records
    validate_single_txid_tree range
    (if range.start % tree_leaf_count == 0
        then ok tt
        else err (checkpoint_does_not_start_at_tree_prefix range.start))
    ok (dense_root (map public_txid_leaf_hash records) (length records))
