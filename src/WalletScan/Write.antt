-- ===== src/WalletScan/Write.antt =====
-- The writers of the sections of a wallet scan chunk
-- (crates/railgun-indexer-core/src/wallet_scan.rs).
pub mod Sections
pub mod RoundTrip
use railgun_indexer.Prelude.{
  ℕ, ◌+◌, List, [], ◌∷◌, ◌++◌, length, Result, ok, err, ◌>>=◌, ok_or, map_err, checked_add,
  checked_sub,
}
use railgun_indexer.Codec.{
  Bytes, ChunkError, payload_too_large, write_u32, write_u64, write_bytes, write_len, write_each,
  u64_len,
}
use railgun_indexer.Artifact.{ChunkSection}
use railgun_indexer.WalletScan.{
  WalletSection, transact, shield, nullifier, legacy_encrypted, legacy_generated,
  StoredIndexedLogSourceRow, StoredTransactCommitmentRow, StoredShieldCommitmentRow,
  StoredNullifierRow, StoredLegacyEncryptedCommitmentRow, StoredLegacyGeneratedCommitmentRow,
  StoredWalletScanRows, WalletScanChunkError, missing_block_timestamp, chunk,
}

abbrev pub Written : Type 0 → Type 0
Written = Result WalletScanChunkError

unfoldable pub write_source : WalletSection → StoredIndexedLogSourceRow → Written Bytes
write_source section source = do
  block_timestamp ←
      ok_or source.block_timestamp (missing_block_timestamp section source.block_number)
  ok (write_u64 source.block_number ++ (write_u64 block_timestamp ++ source.transaction_hash))

-- A count, and so many records.
unfoldable pub write_records : {A : Type 0} → (A → Written Bytes) → List A → Written Bytes
write_records write records = do
  count ← map_err chunk (write_len (length records))
  rows ← write_each write records
  ok (count ++ rows)

unfoldable pub write_transact_record : StoredTransactCommitmentRow → Written Bytes
write_transact_record r = do
  source ← write_source transact r.source
  ciphertext ← map_err chunk (write_bytes r.ciphertext)
  ok (
      source
      ++ (write_u32 r.tree_number
          ++ (write_u64 r.tree_position ++ (r.commitment_hash ++ ciphertext))))

unfoldable pub write_shield_record : StoredShieldCommitmentRow → Written Bytes
write_shield_record r = do
  source ← write_source shield r.source
  preimage ← map_err chunk (write_bytes r.preimage)
  shield_ciphertext ← map_err chunk (write_bytes r.shield_ciphertext)
  ok (
      source
      ++ (write_u32 r.tree_number
          ++ (write_u64 r.tree_position ++ (r.commitment_hash ++ (preimage ++ shield_ciphertext)))))

unfoldable pub write_nullifier_record : StoredNullifierRow → Written Bytes
write_nullifier_record r = do
  source ← write_source nullifier r.source
  ok (source ++ (write_u32 r.tree_number ++ r.nullifier_hash))

unfoldable pub write_legacy_encrypted_record : StoredLegacyEncryptedCommitmentRow → Written Bytes
write_legacy_encrypted_record r = do
  source ← write_source legacy_encrypted r.source
  ciphertext ← map_err chunk (write_bytes r.ciphertext)
  ok (
      source
      ++ (write_u32 r.tree_number
          ++ (write_u64 r.tree_position ++ (r.commitment_hash ++ ciphertext))))

unfoldable pub write_legacy_generated_record : StoredLegacyGeneratedCommitmentRow → Written Bytes
write_legacy_generated_record r = do
  source ← write_source legacy_generated r.source
  preimage ← map_err chunk (write_bytes r.preimage)
  ok (
      source
      ++ (write_u32 r.tree_number
          ++ (write_u64 r.tree_position
              ++ (r.commitment_hash ++ (preimage ++ r.encrypted_random)))))

abbrev pub write_transact_records : List StoredTransactCommitmentRow → Written Bytes
write_transact_records = write_records write_transact_record

abbrev pub write_shield_records : List StoredShieldCommitmentRow → Written Bytes
write_shield_records = write_records write_shield_record

abbrev pub write_nullifier_records : List StoredNullifierRow → Written Bytes
write_nullifier_records = write_records write_nullifier_record

abbrev pub write_legacy_encrypted_records : List StoredLegacyEncryptedCommitmentRow → Written Bytes
write_legacy_encrypted_records = write_records write_legacy_encrypted_record

abbrev pub write_legacy_generated_records : List StoredLegacyGeneratedCommitmentRow → Written Bytes
write_legacy_generated_records = write_records write_legacy_generated_record

-- The payload and the sections so far.
pub record Sectioned : Type 0 where
  pub payload : Bytes
  pub sections : List ChunkSection

unfoldable pub append_section : Sectioned → ℕ → Written Bytes → Written Sectioned
append_section s section_id write = do
  offset ← map_err chunk (u64_len (length s.payload))
  bytes ← write
  let payload = s.payload ++ bytes
  end ← map_err chunk (u64_len (length payload))
  byte_length ← ok_or (checked_sub end offset) (chunk payload_too_large)
  ok (record {
    payload = payload;
    sections =
        s.sections
        ++ record { section_id = section_id; offset = offset; byte_length = byte_length } ∷ [];
  })

-- `try_fold` over the lengths.
unfoldable pub total_count : ℕ → List ℕ → Written ℕ
total_count total [] = ok total
total_count total (n ∷ rest) = do
  count ← map_err chunk (u64_len n)
  next ← ok_or (checked_add total count) (chunk payload_too_large)
  total_count next rest

abbrev pub row_counts : StoredWalletScanRows → List ℕ
row_counts rows =
    length rows.transact_commitments
    ∷ length rows.shield_commitments
    ∷ length rows.nullifiers
    ∷ length rows.legacy_encrypted_commitments
    ∷ length rows.legacy_generated_commitments
    ∷ []

unfoldable pub encode_wallet_scan_records : StoredWalletScanRows → Written (Sectioned × ℕ)
encode_wallet_scan_records rows = do
  a ←
      append_section (record { payload = []; sections = [] }) 1
        (write_transact_records rows.transact_commitments)
  b ← append_section a 2 (write_shield_records rows.shield_commitments)
  c ← append_section b 3 (write_nullifier_records rows.nullifiers)
  d ← append_section c 4 (write_legacy_encrypted_records rows.legacy_encrypted_commitments)
  e ← append_section d 5 (write_legacy_generated_records rows.legacy_generated_commitments)
  row_count ← total_count 0 (row_counts rows)
  ok (e, row_count)
