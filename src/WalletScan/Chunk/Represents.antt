-- ===== src/WalletScan/Chunk/Represents.antt =====
-- What the descriptor of a wallet scan chunk says of its rows
-- (crates/railgun-indexer-core/src/wallet_scan.rs).
use railgun_indexer.Prelude.{
  ℕ, ◌≤◌, ◌≡◌, List, [], ◌∷◌, length, ltb, some, ok, Result-cases, Bool-cases, inl, inr, All, arith,
}
use railgun_indexer.Artifact.{Published, ChunkFormat, Describes, block}
use railgun_indexer.WalletScan.{
  WalletSection, transact, shield, nullifier, legacy_encrypted, legacy_generated,
  StoredIndexedLogSourceRow, StoredTransactCommitmentRow, StoredShieldCommitmentRow,
  StoredNullifierRow, StoredLegacyEncryptedCommitmentRow, StoredLegacyGeneratedCommitmentRow,
  StoredWalletScanRows,
}
use railgun_indexer.WalletScan.Write.{Sectioned, encode_wallet_scan_records}
use railgun_indexer.WalletScan.Write.Sections.{Encodes, encode_wallet_scan_records-Encodes}
use railgun_indexer.WalletScan.Chunk.{
  validate_source_in_range, validate_each, validate_rows_in_range, prepare_wallet_scan_chunk,
  encode_wallet_scan_envelope,
}

-- The source lies in a range of blocks.
abbrev pub Between : ℕ → ℕ → StoredIndexedLogSourceRow → Type 0
Between lo hi s = (lo ≤ s.block_number) × (s.block_number ≤ hi)

validate_each-Between :
    {A : Type 0} (source_of : A → StoredIndexedLogSourceRow) (section : WalletSection) (lo hi : ℕ)
    (rows : List A)
    → validate_each source_of section lo hi rows ≡ ok tt
    → All (λ r. Between lo hi (source_of r)) rows
unfolding validate_each validate_source_in_range
validate_each-Between source_of section lo hi [] h = tt
validate_each-Between source_of section lo hi (r ∷ rest) h = (
  (ground arith, ground arith),
  validate_each-Between source_of section lo hi rest (ground arith),
)

-- Every row of the five lists lies in the range of blocks.
pub record RowsBetween (lo hi : ℕ) (rows : StoredWalletScanRows) : Type 0 where
  pub transacts :
      All (λ (r : StoredTransactCommitmentRow). Between lo hi r.source) rows.transact_commitments
  pub shields :
      All (λ (r : StoredShieldCommitmentRow). Between lo hi r.source) rows.shield_commitments
  pub nullifiers : All (λ (r : StoredNullifierRow). Between lo hi r.source) rows.nullifiers
  pub encrypteds :
      All
        (λ (r : StoredLegacyEncryptedCommitmentRow). Between lo hi r.source)
        rows.legacy_encrypted_commitments
  pub generateds :
      All
        (λ (r : StoredLegacyGeneratedCommitmentRow). Between lo hi r.source)
        rows.legacy_generated_commitments

validate_rows_in_range-RowsBetween :
    (rows : StoredWalletScanRows) (lo hi : ℕ)
    → validate_rows_in_range rows lo hi ≡ ok tt
    → RowsBetween lo hi rows
unfolding validate_rows_in_range
validate_rows_in_range-RowsBetween rows lo hi h = record {
  transacts =
      validate_each-Between (λ (r : StoredTransactCommitmentRow). r.source) transact lo hi
        rows.transact_commitments (ground arith);
  shields =
      validate_each-Between (λ (r : StoredShieldCommitmentRow). r.source) shield lo hi
        rows.shield_commitments (ground arith);
  nullifiers =
      validate_each-Between (λ (r : StoredNullifierRow). r.source) nullifier lo hi rows.nullifiers
        (ground arith);
  encrypteds =
      validate_each-Between (λ (r : StoredLegacyEncryptedCommitmentRow). r.source) legacy_encrypted
        lo hi rows.legacy_encrypted_commitments (ground arith);
  generateds =
      validate_each-Between (λ (r : StoredLegacyGeneratedCommitmentRow). r.source) legacy_generated
        lo hi rows.legacy_generated_commitments (ground arith);
}

module _ (f : ChunkFormat) where
  open f use {ChainScope, Compression, sha256_digest}

  -- What a prepared chunk says of its rows.
  pub record Represents (start_block end_block : ℕ) (rows : StoredWalletScanRows)
      (p : Published ChainScope Compression) : Type 0 where
    pub ordered : start_block ≤ end_block
    pub describes : Describes f p
    pub kind : p.descriptor.range.kind ≡ block
    pub start : p.descriptor.range.start ≡ start_block
    pub end : p.descriptor.range.end ≡ end_block
    pub between : RowsBetween start_block end_block rows
    pub encoded : Sectioned
    pub encodes : Encodes rows encoded p.descriptor.row_count
    pub bytes :
        encode_wallet_scan_envelope f p.descriptor.scope p.descriptor.range p.descriptor.row_count
          (length encoded.payload)
          encoded.sections
          encoded.payload
          p.descriptor.compression
        ≡ ok p.compressed_bytes
    pub root : p.descriptor.metadata.root ≡ some (sha256_digest encoded.payload)

  -- A prepared chunk's descriptor has the range of blocks, the size and digest of its bytes, the number of
  -- all rows and the digest of the payload as its root; the payload is the encoding of the rows, and
  -- every row lies in the range.
  pub prepare_wallet_scan_chunk-Represents :
      (scope : ChainScope) (start_block end_block : ℕ) (rows : StoredWalletScanRows)
      (compression : Compression) {p : Published ChainScope Compression}
      → prepare_wallet_scan_chunk f scope start_block end_block rows compression ≡ ok p
      → Represents start_block end_block rows p
  unfolding prepare_wallet_scan_chunk
  prepare_wallet_scan_chunk-Represents scope lo hi rows compression {p} h =
      elim (Bool-cases (ltb hi lo)) [
        | inl bad ↦ absurd (ground arith)
        | inr order ↦ elim (Result-cases (validate_rows_in_range rows lo hi)) [
          | inr (_, bad) ↦ absurd (ground arith)
          | inl (_, valid) ↦ elim (Result-cases (encode_wallet_scan_records rows)) [
            | inr (_, bad) ↦ absurd (ground arith)
            | inl ((s, n), e) ↦
                let encodes = encode_wallet_scan_records-Encodes rows s n e in
                let counted : p.descriptor.row_count ≡ n = ground arith in
                record {
                  ordered = ground arith;
                  describes = ground arith;
                  kind = ground arith;
                  start = ground arith;
                  end = ground arith;
                  between = validate_rows_in_range-RowsBetween rows lo hi valid;
                  encoded = s;
                  encodes = rw counted encodes;
                  bytes = ground arith;
                  root = ground arith;
                }
          ]
        ]
      ]
