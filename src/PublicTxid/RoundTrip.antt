-- ===== src/PublicTxid/RoundTrip.antt =====
-- Reading the rows of a public TXID chunk (crates/railgun-indexer-core/src/public_txid.rs).
use mathlib.Core.List.{append_assoc, append-nil}
use railgun_indexer.Prelude.{
  ◌<◌, ◌≡◌, ◌==◌, refl, ◌∙◌, sym, ap, List, [], ◌∷◌, ◌++◌, length, map, none, some, Bool, true,
  false, ok, Result-cases, inl, inr, arith, All, All-map, u32_mod, u64_mod,
}
use railgun_indexer.Codec.{
  Bytes, concat, write_u32, write_u64, write_string, write_fixed_bytes_vec, to_le_bytes, write_each,
}
use railgun_indexer.Codec.Read.{
  Reader, ◌>>=◌, pure, read_uint, read_fixed, read_string, read_many, bind_some, read_uint_lem,
  read_fixed_lem, read_string_lem, Shows, read_many_view,
}
use railgun_indexer.PublicTxid.{
  StoredPublicTxidRow, bool_byte, record_layout, write_public_txid_record,
  encode_public_txid_records,
}

unfoldable read_fixed_bytes_vec : Reader (List Bytes)
read_fixed_bytes_vec = do n ← read_uint 4; read_many (read_fixed 32) n

-- A row as it is read: all but the preimage, which is in another section.
pub read_public_txid_record : Reader StoredPublicTxidRow
read_public_txid_record = do
  txid_index ← read_uint 8
  id ← read_string
  block_number ← read_uint 8
  block_timestamp ← read_uint 8
  block_hash ← read_fixed 32
  transaction_hash ← read_fixed 32
  first_log_index ← read_uint 8
  last_log_index ← read_uint 8
  nullifiers ← read_fixed_bytes_vec
  commitments ← read_fixed_bytes_vec
  bound_params_hash ← read_fixed 32
  unshield ← read_uint 1
  utxo_tree_in ← read_uint 8
  utxo_tree_out ← read_uint 8
  utxo_batch_start_position_out ← read_uint 8
  pure (record {
    txid_index = txid_index;
    id = id;
    block_number = block_number;
    block_timestamp = block_timestamp;
    block_hash = block_hash;
    transaction_hash = transaction_hash;
    first_log_index = first_log_index;
    last_log_index = last_log_index;
    nullifiers = nullifiers;
    commitments = commitments;
    bound_params_hash = bound_params_hash;
    has_unshield = unshield == 1;
    unshield_preimage = none;
    utxo_tree_in = utxo_tree_in;
    utxo_tree_out = utxo_tree_out;
    utxo_batch_start_position_out = utxo_batch_start_position_out;
  })

abbrev pub without_preimage : StoredPublicTxidRow → StoredPublicTxidRow
without_preimage r = record r { unshield_preimage = none }

-- The widths of the fields in Rust.
pub record InRange (r : StoredPublicTxidRow) : Type 0 where
  pub txid_index : r.txid_index < u64_mod
  pub block_number : r.block_number < u64_mod
  pub block_timestamp : r.block_timestamp < u64_mod
  pub block_hash : length r.block_hash ≡ 32
  pub transaction_hash : length r.transaction_hash ≡ 32
  pub first_log_index : r.first_log_index < u64_mod
  pub last_log_index : r.last_log_index < u64_mod
  pub nullifiers : All (λ (b : Bytes). length b ≡ 32) r.nullifiers
  pub commitments : All (λ (b : Bytes). length b ≡ 32) r.commitments
  pub bound_params_hash : length r.bound_params_hash ≡ 32
  pub utxo_tree_in : r.utxo_tree_in < u64_mod
  pub utxo_tree_out : r.utxo_tree_out < u64_mod
  pub utxo_batch_start_position_out : r.utxo_batch_start_position_out < u64_mod

read_many-concat :
    (values : List Bytes) (rest : Bytes)
    → All (λ (b : Bytes). length b ≡ 32) values
    → read_many (read_fixed 32) (length values) (concat values ++ rest) ≡ some (values, rest)
unfolding read_many concat
read_many-concat [] rest h = refl
read_many-concat (x ∷ values) rest h = rw append_assoc (
    ground
      (arith, read_fixed_lem 32 x (concat values ++ rest) h.0, read_many-concat values rest h.1))

fixed_bytes_vec_lem :
    (values : List Bytes) (bytes rest : Bytes)
    → All (λ (b : Bytes). length b ≡ 32) values
    → write_fixed_bytes_vec values ≡ ok bytes
    → read_fixed_bytes_vec (bytes ++ rest) ≡ some (values, rest)
unfolding read_fixed_bytes_vec write_fixed_bytes_vec
fixed_bytes_vec_lem values bytes rest h e =
    let small : length values < u32_mod = ground arith in
    let same : bytes ≡ write_u32 (length values) ++ concat values = ground arith in
    rw (same, append_assoc)
      (bind_some (read_uint 4) (read_many (read_fixed 32)) _
          (read_uint_lem 4 (length values) (concat values ++ rest) small)
        ∙ read_many-concat values rest h)

byte_lem : (b : Bool) → bool_byte b ∷ [] ≡ to_le_bytes 1 (bool_byte b)
unfolding to_le_bytes
byte_lem true = refl
byte_lem false = refl

bool_lem : (b : Bool) → (bool_byte b == 1) ≡ b
bool_lem true = refl
bool_lem false = refl

bool-lt : (b : Bool) → bool_byte b < 256
bool-lt true = omega arith
bool-lt false = omega arith

record_lem :
    (r : StoredPublicTxidRow)
    → InRange r
    → Shows read_public_txid_record write_public_txid_record without_preimage r
unfolding read_public_txid_record write_public_txid_record
record_lem r v bytes rest h = elim (Result-cases (write_string r.id)) [
  | inr (_, bad) ↦ absurd (ground arith)
  | inl (id, e1) ↦ elim (Result-cases (write_fixed_bytes_vec r.nullifiers)) [
    | inr (_, bad) ↦ absurd (ground arith)
    | inl (nullifiers, e2) ↦ elim (Result-cases (write_fixed_bytes_vec r.commitments)) [
      | inr (_, bad) ↦ absurd (ground arith)
      | inl (commitments, e3) ↦
          let d14 = write_u64 r.utxo_batch_start_position_out ++ rest in
          let d13 = write_u64 r.utxo_tree_out ++ d14 in
          let d12 = write_u64 r.utxo_tree_in ++ d13 in
          let d11 = to_le_bytes 1 (bool_byte r.has_unshield) ++ d12 in
          let d10 = r.bound_params_hash ++ d11 in
          let d9 = commitments ++ d10 in
          let d8 = nullifiers ++ d9 in
          let d7 = write_u64 r.last_log_index ++ d8 in
          let d6 = write_u64 r.first_log_index ++ d7 in
          let d5 = r.transaction_hash ++ d6 in
          let d4 = r.block_hash ++ d5 in
          let d3 = write_u64 r.block_timestamp ++ d4 in
          let d2 = write_u64 r.block_number ++ d3 in
          let d1 = id ++ d2 in
          let split : bytes ++ rest ≡ write_u64 r.txid_index ++ d1 =
            let same : bytes ≡ record_layout r id nullifiers commitments = ground arith in
            rw (same, ← byte_lem r.has_unshield) (simp append_assoc) in
          rw split (
            ground (
              arith,
              read_uint_lem 8 r.txid_index d1 v.txid_index,
              read_string_lem r.id id d2 e1,
              read_uint_lem 8 r.block_number d3 v.block_number,
              read_uint_lem 8 r.block_timestamp d4 v.block_timestamp,
              read_fixed_lem 32 r.block_hash d5 v.block_hash,
              read_fixed_lem 32 r.transaction_hash d6 v.transaction_hash,
              read_uint_lem 8 r.first_log_index d7 v.first_log_index,
              read_uint_lem 8 r.last_log_index d8 v.last_log_index,
              fixed_bytes_vec_lem r.nullifiers nullifiers d9 v.nullifiers e2,
              fixed_bytes_vec_lem r.commitments commitments d10 v.commitments e3,
              read_fixed_lem 32 r.bound_params_hash d11 v.bound_params_hash,
              read_uint_lem 1 (bool_byte r.has_unshield) d12 (bool-lt r.has_unshield),
              read_uint_lem 8 r.utxo_tree_in d13 v.utxo_tree_in,
              read_uint_lem 8 r.utxo_tree_out d14 v.utxo_tree_out,
              read_uint_lem 8 r.utxo_batch_start_position_out rest v.utxo_batch_start_position_out,
              bool_lem r.has_unshield,
            ))
    ]
  ]
]

-- Reading the encoded rows of public TXIDs whose fields are in the range of their types gives them back
-- without their preimages, and leaves nothing over.
pub encode_public_txid_records-read :
    (records : List StoredPublicTxidRow) {payload : Bytes}
    → All InRange records
    → encode_public_txid_records records ≡ ok payload
    → read_many read_public_txid_record (length records) payload
      ≡ some (map without_preimage records, [])
unfolding encode_public_txid_records
encode_public_txid_records-read records {payload} v h =
    elim (Result-cases (write_each write_public_txid_record records)) [
      | inr (_, bad) ↦ absurd (ground arith)
      | inl (rows, e) ↦
          let same : payload ≡ rows = ground arith in
          let whole = ap (read_many read_public_txid_record (length records)) (append-nil rows) in
          rw same (
            sym whole
            ∙ read_many_view read_public_txid_record write_public_txid_record without_preimage
                records rows [] (All-map record_lem records v) e)
    ]
