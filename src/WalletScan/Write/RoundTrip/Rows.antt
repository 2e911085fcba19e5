-- ===== src/WalletScan/Write/RoundTrip/Rows.antt =====
-- The rows of a wallet scan payload are read back
-- (crates/railgun-indexer-core/src/wallet_scan.rs).
use mathlib.Core.List.{append_assoc, append-nil}
use railgun_indexer.Prelude.{
  ℕ, ◌<◌, ◌≡◌, refl, [], ◌++◌, length, some, Option-cases, ok, Result-cases, inl, inr, arith,
  u32_mod, u64_mod,
}
use railgun_indexer.Codec.{Bytes, write_u32, write_u64, write_bytes}
use railgun_indexer.Codec.Read.{
  Reader, read_fixed, read_bytes, Shows, read_uint_lem, read_fixed_lem, read_bytes_lem,
}
use railgun_indexer.WalletScan.{
  WalletSection, transact, shield, nullifier, legacy_encrypted, legacy_generated,
  StoredIndexedLogSourceRow, StoredTransactCommitmentRow, StoredShieldCommitmentRow,
  StoredNullifierRow, StoredLegacyEncryptedCommitmentRow, StoredLegacyGeneratedCommitmentRow,
}
use railgun_indexer.WalletScan.Write.{
  write_source, write_transact_record, write_shield_record, write_nullifier_record,
  write_legacy_encrypted_record, write_legacy_generated_record,
}
use railgun_indexer.WalletScan.Write.RoundTrip.{
  read_source, read_commitment, read_nullifier, source_view, transact_view, shield_view,
  nullifier_view, encrypted_view, generated_view,
}

-- The widths of a source's fields in Rust.
pub record SourceInRange (s : StoredIndexedLogSourceRow) : Type 0 where
  pub block_number : s.block_number < u64_mod
  pub block_timestamp : (t : ℕ) → s.block_timestamp ≡ some t → t < u64_mod
  pub transaction_hash : length s.transaction_hash ≡ 32

source_lem :
    (section : WalletSection) (s : StoredIndexedLogSourceRow)
    → SourceInRange s
    → Shows read_source (write_source section) source_view s
unfolding read_source write_source
source_lem section s v bytes rest h = elim (Option-cases s.block_timestamp) [
  | inl missing ↦ absurd (ground arith)
  | inr (t, there) ↦
      let hash = s.transaction_hash ++ rest in
      let time = write_u64 t ++ hash in
      let same : bytes ≡ write_u64 s.block_number ++ (write_u64 t ++ s.transaction_hash) =
        ground arith in
      let split : bytes ++ rest ≡ write_u64 s.block_number ++ time = rw same (simp append_assoc) in
      rw split (
        ground (
          arith,
          read_uint_lem 8 s.block_number time v.block_number,
          read_uint_lem 8 t hash (v.block_timestamp t there),
          read_fixed_lem 32 s.transaction_hash rest v.transaction_hash,
        ))
]

-- A row of one shape: a source, a place in the trees, a hash and two fields.
commitment_lem :
    (read_first read_second : Reader Bytes) (section : WalletSection)
    (s : StoredIndexedLogSourceRow) (tree_number tree_position : ℕ)
    (hash first second wrote_first wrote_second source rest : Bytes)
    → SourceInRange s
    → tree_number < u32_mod
    → tree_position < u64_mod
    → length hash ≡ 32
    → write_source section s ≡ ok source
    → ((after : Bytes) → read_first (wrote_first ++ after) ≡ some (first, after))
    → ((after : Bytes) → read_second (wrote_second ++ after) ≡ some (second, after))
    → read_commitment read_first read_second (
        (source
          ++ (write_u32 tree_number
              ++ (write_u64 tree_position ++ (hash ++ (wrote_first ++ wrote_second)))))
        ++ rest)
      ≡ some (
        record {
          source = source_view s;
          tree_number = tree_number;
          tree_position = tree_position;
          commitment_hash = hash;
          first = first;
          second = second;
        },
        rest,
      )
unfolding read_commitment
commitment_lem read_first read_second section s tn tp hash first second wf ws source rest v vn vp vh
      wrote rf rs =
    let d5 = ws ++ rest in
    let d4 = wf ++ d5 in
    let d3 = hash ++ d4 in
    let d2 = write_u64 tp ++ d3 in
    let d1 = write_u32 tn ++ d2 in
    let split : (source ++ (write_u32 tn ++ (write_u64 tp ++ (hash ++ (wf ++ ws))))) ++ rest
        ≡ source ++ d1 =
      simp append_assoc in
    rw split (
      ground (
        arith,
        source_lem section s v source d1 wrote,
        read_uint_lem 4 tn d2 vn,
        read_uint_lem 8 tp d3 vp,
        read_fixed_lem 32 hash d4 vh,
        rf d5,
        rs rest,
      ))

-- The widths of the fields of a commitment's row.
pub record RowInRange (s : StoredIndexedLogSourceRow) (tree_number tree_position : ℕ) (hash : Bytes)
    : Type 0 where
  pub source : SourceInRange s
  pub number : tree_number < u32_mod
  pub position : tree_position < u64_mod
  pub hash_length : length hash ≡ 32

no_field : (after : Bytes) → read_fixed 0 ([] ++ after) ≡ some ([], after)
no_field after = read_fixed_lem 0 [] after refl

pub transact_lem :
    (r : StoredTransactCommitmentRow)
    → RowInRange r.source r.tree_number r.tree_position r.commitment_hash
    → Shows (read_commitment read_bytes (read_fixed 0)) write_transact_record transact_view r
unfolding write_transact_record
transact_lem r v bytes rest h = elim (Result-cases (write_source transact r.source)) [
  | inr (_, bad) ↦ absurd (ground arith)
  | inl (source, e) ↦ elim (Result-cases (write_bytes r.ciphertext)) [
    | inr (_, bad) ↦ absurd (ground arith)
    | inl (text, e') ↦
        let same : bytes
            ≡ source
              ++ (write_u32 r.tree_number
                  ++ (write_u64 r.tree_position ++ (r.commitment_hash ++ (text ++ [])))) =
          ground (arith, append-nil text) in
        rw same (
          commitment_lem read_bytes (read_fixed 0) transact r.source r.tree_number r.tree_position
            r.commitment_hash r.ciphertext [] text [] source rest v.source v.number v.position
            v.hash_length e (λ after. read_bytes_lem r.ciphertext text after e') no_field)
  ]
]

pub encrypted_lem :
    (r : StoredLegacyEncryptedCommitmentRow)
    → RowInRange r.source r.tree_number r.tree_position r.commitment_hash
    → Shows
        (read_commitment read_bytes (read_fixed 0))
        write_legacy_encrypted_record
        encrypted_view
        r
unfolding write_legacy_encrypted_record
encrypted_lem r v bytes rest h = elim (Result-cases (write_source legacy_encrypted r.source)) [
  | inr (_, bad) ↦ absurd (ground arith)
  | inl (source, e) ↦ elim (Result-cases (write_bytes r.ciphertext)) [
    | inr (_, bad) ↦ absurd (ground arith)
    | inl (text, e') ↦
        let same : bytes
            ≡ source
              ++ (write_u32 r.tree_number
                  ++ (write_u64 r.tree_position ++ (r.commitment_hash ++ (text ++ [])))) =
          ground (arith, append-nil text) in
        rw same (
          commitment_lem read_bytes (read_fixed 0) legacy_encrypted r.source r.tree_number
            r.tree_position r.commitment_hash r.ciphertext [] text [] source rest v.source v.number
            v.position v.hash_length e (λ after. read_bytes_lem r.ciphertext text after e')
            no_field)
  ]
]

pub generated_lem :
    (r : StoredLegacyGeneratedCommitmentRow)
    → RowInRange r.source r.tree_number r.tree_position r.commitment_hash
    → length r.encrypted_random ≡ 64
    → Shows
        (read_commitment read_bytes (read_fixed 64))
        write_legacy_generated_record
        generated_view
        r
unfolding write_legacy_generated_record
generated_lem r v vr bytes rest h = elim (Result-cases (write_source legacy_generated r.source)) [
  | inr (_, bad) ↦ absurd (ground arith)
  | inl (source, e) ↦ elim (Result-cases (write_bytes r.preimage)) [
    | inr (_, bad) ↦ absurd (ground arith)
    | inl (image, e') ↦
        let same : bytes
            ≡ source
              ++ (write_u32 r.tree_number
                  ++ (write_u64 r.tree_position
                      ++ (r.commitment_hash ++ (image ++ r.encrypted_random)))) =
          ground arith in
        rw same (
          commitment_lem read_bytes (read_fixed 64) legacy_generated r.source r.tree_number
            r.tree_position r.commitment_hash r.preimage r.encrypted_random image r.encrypted_random
            source rest v.source v.number v.position v.hash_length e
            (λ after. read_bytes_lem r.preimage image after e')
            (λ after. read_fixed_lem 64 r.encrypted_random after vr))
  ]
]

pub shield_lem :
    (r : StoredShieldCommitmentRow)
    → RowInRange r.source r.tree_number r.tree_position r.commitment_hash
    → Shows (read_commitment read_bytes read_bytes) write_shield_record shield_view r
unfolding write_shield_record
shield_lem r v bytes rest h = elim (Result-cases (write_source shield r.source)) [
  | inr (_, bad) ↦ absurd (ground arith)
  | inl (source, e) ↦ elim (Result-cases (write_bytes r.preimage)) [
    | inr (_, bad) ↦ absurd (ground arith)
    | inl (image, e') ↦ elim (Result-cases (write_bytes r.shield_ciphertext)) [
      | inr (_, bad) ↦ absurd (ground arith)
      | inl (text, e'') ↦
          let same : bytes
              ≡ source
                ++ (write_u32 r.tree_number
                    ++ (write_u64 r.tree_position ++ (r.commitment_hash ++ (image ++ text)))) =
            ground arith in
          rw same (
            commitment_lem read_bytes read_bytes shield r.source r.tree_number r.tree_position
              r.commitment_hash r.preimage r.shield_ciphertext image text source rest v.source
              v.number v.position v.hash_length e
              (λ after. read_bytes_lem r.preimage image after e')
              (λ after. read_bytes_lem r.shield_ciphertext text after e''))
    ]
  ]
]

pub nullifier_lem :
    (r : StoredNullifierRow)
    → SourceInRange r.source
    → r.tree_number < u32_mod
    → length r.nullifier_hash ≡ 32
    → Shows read_nullifier write_nullifier_record nullifier_view r
unfolding write_nullifier_record read_nullifier
nullifier_lem r v vn vh bytes rest h = elim (Result-cases (write_source nullifier r.source)) [
  | inr (_, bad) ↦ absurd (ground arith)
  | inl (source, e) ↦
      let d2 = r.nullifier_hash ++ rest in
      let d1 = write_u32 r.tree_number ++ d2 in
      let same : bytes ≡ source ++ (write_u32 r.tree_number ++ r.nullifier_hash) = ground arith in
      let split : bytes ++ rest ≡ source ++ d1 = rw same (simp append_assoc) in
      rw split (
        ground (
          arith,
          source_lem nullifier r.source v source d1 e,
          read_uint_lem 4 r.tree_number d2 vn,
          read_fixed_lem 32 r.nullifier_hash rest vh,
        ))
]
