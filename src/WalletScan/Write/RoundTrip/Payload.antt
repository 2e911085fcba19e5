-- ===== src/WalletScan/Write/RoundTrip/Payload.antt =====
-- A whole wallet scan payload is read back (crates/railgun-indexer-core/src/wallet_scan.rs).
use mathlib.Core.List.{append_assoc, append-nil}
use railgun_indexer.Prelude.{
  ℕ, ◌<◌, ◌≡◌, refl, ◌∙◌, List, [], ◌++◌, length, map, some, ok, Result-cases, inl, inr, arith, All,
  All-map, u32_mod, u64_mod,
}
use railgun_indexer.Codec.{Bytes, write_u64, write_len, write_each}
use railgun_indexer.Codec.Read.{
  Reader, read_uint, read_fixed, read_bytes, read_many, Shows, bind_some, read_uint_lem,
  read_many_view,
}
use railgun_indexer.WalletScan.{
  StoredTransactCommitmentRow, StoredShieldCommitmentRow, StoredNullifierRow,
  StoredLegacyEncryptedCommitmentRow, StoredLegacyGeneratedCommitmentRow, StoredWalletScanRows,
}
use railgun_indexer.WalletScan.Write.{
  Written, Sectioned, write_records, encode_wallet_scan_records, write_transact_record,
  write_shield_record, write_nullifier_record, write_legacy_encrypted_record,
  write_legacy_generated_record,
}
use railgun_indexer.WalletScan.Write.Sections.{encode_wallet_scan_records-Encodes}
use railgun_indexer.WalletScan.Write.RoundTrip.{
  read_records, read_wallet_scan, read_commitment, read_nullifier, scanned, transact_view,
  shield_view, nullifier_view, encrypted_view, generated_view,
}
use railgun_indexer.WalletScan.Write.RoundTrip.Rows.{
  SourceInRange, RowInRange, transact_lem, shield_lem, nullifier_lem, encrypted_lem, generated_lem,
}

records_lem :
    {A B : Type 0} (read : Reader B) (write : A → Written Bytes) (view : A → B) (records : List A)
    (bytes rest : Bytes)
    → All (Shows read write view) records
    → write_records write records ≡ ok bytes
    → read_records read (bytes ++ rest) ≡ some (map view records, rest)
unfolding write_records read_records write_len
records_lem read write view records bytes rest all h =
    elim (Result-cases (write_each write records)) [
      | inr (_, bad) ↦ absurd (ground arith)
      | inl (rows, e) ↦
          let small : length records < u64_mod = ground arith in
          let joined : bytes ≡ write_u64 (length records) ++ rows = ground arith in
          rw (joined, append_assoc)
            (bind_some (read_uint 8) (read_many read) _
                (read_uint_lem 8 (length records) (rows ++ rest) small)
              ∙ read_many_view read write view records rows rest all e)
    ]

-- The widths of the fields of all rows.
pub record InRange (rows : StoredWalletScanRows) : Type 0 where
  pub transacts :
      All
        (λ (r : StoredTransactCommitmentRow).
          RowInRange r.source r.tree_number r.tree_position r.commitment_hash)
        rows.transact_commitments
  pub shields :
      All
        (λ (r : StoredShieldCommitmentRow).
          RowInRange r.source r.tree_number r.tree_position r.commitment_hash)
        rows.shield_commitments
  pub nullifiers :
      All
        (λ (r : StoredNullifierRow).
          SourceInRange r.source × (r.tree_number < u32_mod) × (length r.nullifier_hash ≡ 32))
        rows.nullifiers
  pub encrypteds :
      All
        (λ (r : StoredLegacyEncryptedCommitmentRow).
          RowInRange r.source r.tree_number r.tree_position r.commitment_hash)
        rows.legacy_encrypted_commitments
  pub generateds :
      All
        (λ (r : StoredLegacyGeneratedCommitmentRow).
          RowInRange r.source r.tree_number r.tree_position r.commitment_hash
          × (length r.encrypted_random ≡ 64))
        rows.legacy_generated_commitments

-- Reading the payload of an encoded wallet scan, whose fields are in the range of their types, gives
-- back, of the rows of the five sections in their order, the fields that are encoded, which are all but
-- the block hash and the log index of each source, with nothing left over.
pub encode_wallet_scan_records-read :
    (rows : StoredWalletScanRows) (s : Sectioned) (row_count : ℕ)
    → InRange rows
    → encode_wallet_scan_records rows ≡ ok (s, row_count)
    → read_wallet_scan s.payload ≡ some (scanned rows, [])
unfolding read_wallet_scan
encode_wallet_scan_records-read rows s row_count v h =
    let e = encode_wallet_scan_records-Encodes rows s row_count h in
    let d4 = e.generateds ++ [] in
    let d3 = e.encrypteds ++ d4 in
    let d2 = e.nullifiers ++ d3 in
    let d1 = e.shields ++ d2 in
    let whole : s.payload ≡ e.transacts ++ d1 = rw (e.payload, append-nil e.generateds) refl in
    rw whole (
      ground (
        arith,
        records_lem (read_commitment read_bytes (read_fixed 0)) write_transact_record transact_view
            rows.transact_commitments e.transacts d1
            (All-map transact_lem rows.transact_commitments v.transacts) e.wrote_transacts,
        records_lem (read_commitment read_bytes read_bytes) write_shield_record shield_view
            rows.shield_commitments e.shields d2
            (All-map shield_lem rows.shield_commitments v.shields) e.wrote_shields,
        records_lem read_nullifier write_nullifier_record nullifier_view rows.nullifiers
            e.nullifiers d3
            (All-map (λ r i. nullifier_lem r i.0 i.1 i.2) rows.nullifiers v.nullifiers)
            e.wrote_nullifiers,
        records_lem (read_commitment read_bytes (read_fixed 0)) write_legacy_encrypted_record
            encrypted_view rows.legacy_encrypted_commitments e.encrypteds d4
            (All-map encrypted_lem rows.legacy_encrypted_commitments v.encrypteds)
            e.wrote_encrypteds,
        records_lem (read_commitment read_bytes (read_fixed 64)) write_legacy_generated_record
            generated_view rows.legacy_generated_commitments e.generateds []
            (All-map (λ r i. generated_lem r i.0 i.1) rows.legacy_generated_commitments
              v.generateds)
            e.wrote_generateds,
      ))
