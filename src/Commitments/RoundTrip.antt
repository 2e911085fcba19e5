-- ===== src/Commitments/RoundTrip.antt =====
-- The payload of a commitment chunk (crates/railgun-indexer-core/src/commitments.rs).
use railgun_indexer.Prelude.{
  ℕ, zero, suc, ◌<◌, ◌%◌, ◌≡◌, refl, List, [], ◌∷◌, ◌++◌, none, some, length, ok, arith, All,
  All-map, u32_mod, u64_mod, ap, ◌∙◌, sym, Result-cases, inl, inr,
}
use mathlib.Core.List.{append_assoc, append-nil}
use railgun_indexer.Codec.{Bytes, write_u32, write_u64, write_each, write_len, to_le_bytes}
use railgun_indexer.Codec.Read.{
  Reader, ◌>>=◌, pure, read_uint, read_fixed, read_many, Undoes, bind_some, read_uint_lem,
  read_fixed_lem, read_many_lem,
}
use railgun_indexer.Commitments.{
  StoredCommitmentRow, StoredCommitmentFamily, transact, shield, legacy_encrypted, legacy_generated,
  commitment_family_id, write_commitment_record, encode_commitment_records,
}

family_of : ℕ → Reader StoredCommitmentFamily
family_of zero = pure transact
family_of (suc zero) = pure shield
family_of (suc (suc zero)) = pure legacy_encrypted
family_of (suc (suc (suc zero))) = pure legacy_generated
family_of _ = λ bytes. none

pub read_commitment_record : Reader StoredCommitmentRow
read_commitment_record = do
  global_position ← read_uint 8
  block_number ← read_uint 8
  id ← read_uint 1
  family ← family_of id
  tree_number ← read_uint 4
  tree_position ← read_uint 8
  commitment_hash ← read_fixed 32
  pure (record {
    global_position = global_position;
    block_number = block_number;
    family = family;
    tree_number = tree_number;
    tree_position = tree_position;
    commitment_hash = commitment_hash;
  })

pub read_commitment_records : Reader (List StoredCommitmentRow)
read_commitment_records = do count ← read_uint 8; read_many read_commitment_record count

-- The widths of the fields in Rust.
pub record InRange (r : StoredCommitmentRow) : Type 0 where
  pub global_position : r.global_position < u64_mod
  pub block_number : r.block_number < u64_mod
  pub tree_number : r.tree_number < u32_mod
  pub tree_position : r.tree_position < u64_mod
  pub commitment_hash : length r.commitment_hash ≡ 32

family_lem :
    (family : StoredCommitmentFamily) → family_of (commitment_family_id family) ≡ pure family
unfolding commitment_family_id family_of
family_lem transact = refl
family_lem _ = refl

id-lt : (family : StoredCommitmentFamily) → commitment_family_id family < 256
unfolding commitment_family_id
id-lt family = ground arith

-- One byte is a number of width one.
byte_lem : (n : ℕ) → n < 256 → n ∷ [] ≡ to_le_bytes 1 n
unfolding to_le_bytes
byte_lem n h = let same : n % 256 ≡ n = omega arith in rw same

record_lem :
    (r : StoredCommitmentRow) → InRange r → Undoes read_commitment_record write_commitment_record r
unfolding read_commitment_record write_commitment_record
record_lem r v bytes rest h =
    let hash = r.commitment_hash ++ rest in
    let position = write_u64 r.tree_position ++ hash in
    let tree = write_u32 r.tree_number ++ position in
    let family = to_le_bytes 1 (commitment_family_id r.family) ++ tree in
    let block = write_u64 r.block_number ++ family in
    let split : bytes ++ rest ≡ write_u64 r.global_position ++ block =
      let same : bytes
          ≡ write_u64 r.global_position
            ++ (write_u64 r.block_number
                ++ (commitment_family_id r.family ∷ []
                    ++ (write_u32 r.tree_number
                        ++ (write_u64 r.tree_position ++ r.commitment_hash)))) =
        ground arith in
      rw (same, ← byte_lem (commitment_family_id r.family) (id-lt r.family)) (simp append_assoc) in
    rw split (
      ground (
        arith,
        read_uint_lem 8 r.global_position block v.global_position,
        read_uint_lem 8 r.block_number family v.block_number,
        read_uint_lem 1 (commitment_family_id r.family) tree (id-lt r.family),
        family_lem r.family,
        read_uint_lem 4 r.tree_number position v.tree_number,
        read_uint_lem 8 r.tree_position hash v.tree_position,
        read_fixed_lem 32 r.commitment_hash rest v.commitment_hash,
      ))

-- Reading an encoded chunk gives back its rows, in their order, and leaves nothing over.
pub encode_commitment_records-read :
    (records : List StoredCommitmentRow) {payload : Bytes}
    → All InRange records
    → encode_commitment_records records ≡ ok payload
    → read_commitment_records payload ≡ some (records, [])
unfolding encode_commitment_records read_commitment_records write_len
encode_commitment_records-read records {payload} v h =
    elim (Result-cases (write_each write_commitment_record records)) [
      | inr (_, e) ↦ absurd (ground arith)
      | inl (rows, e) ↦
          let small : length records < u64_mod = ground arith in
          let joined : payload ≡ write_u64 (length records) ++ rows = ground arith in
          let all = All-map record_lem records v in
          let whole = ap (read_many read_commitment_record (length records)) (append-nil rows) in
          rw joined (
            bind_some (read_uint 8) (read_many read_commitment_record) _
              (read_uint_lem 8 (length records) rows small)
            ∙ sym whole
            ∙ read_many_lem read_commitment_record write_commitment_record records rows [] all e)
    ]
