-- ===== src/WalletScan.antt =====
-- Wallet scan chunks (crates/railgun-indexer-core/src/wallet_scan.rs): the rows of a range of blocks
-- in five sections. The rows are those of the chain tables (crates/railgun-indexer-core/src/store.rs).
-- A writer returns the bytes that it appends; an optional column of a source is an `Option`.
pub mod Write
pub mod Chunk
use railgun_indexer.Prelude.{ℕ, List, Option}
use railgun_indexer.Codec.{Bytes, ChunkError}

pub data WalletSection : Type 0 where
  transact shield nullifier legacy_encrypted legacy_generated : WalletSection

pub record StoredIndexedLogSourceRow : Type 0 where
  pub block_number : ℕ
  pub block_timestamp : Option ℕ
  pub block_hash : Bytes
  pub transaction_hash : Bytes
  pub log_index : ℕ

pub record StoredTransactCommitmentRow : Type 0 where
  pub source : StoredIndexedLogSourceRow
  pub tree_number : ℕ
  pub tree_position : ℕ
  pub commitment_hash : Bytes
  pub ciphertext : Bytes

pub record StoredShieldCommitmentRow : Type 0 where
  pub source : StoredIndexedLogSourceRow
  pub tree_number : ℕ
  pub tree_position : ℕ
  pub commitment_hash : Bytes
  pub preimage : Bytes
  pub shield_ciphertext : Bytes

pub record StoredNullifierRow : Type 0 where
  pub source : StoredIndexedLogSourceRow
  pub tree_number : ℕ
  pub nullifier_hash : Bytes

pub record StoredLegacyEncryptedCommitmentRow : Type 0 where
  pub source : StoredIndexedLogSourceRow
  pub tree_number : ℕ
  pub tree_position : ℕ
  pub commitment_hash : Bytes
  pub ciphertext : Bytes

pub record StoredLegacyGeneratedCommitmentRow : Type 0 where
  pub source : StoredIndexedLogSourceRow
  pub tree_number : ℕ
  pub tree_position : ℕ
  pub commitment_hash : Bytes
  pub preimage : Bytes
  pub encrypted_random : Bytes

pub record StoredWalletScanRows : Type 0 where
  pub transact_commitments : List StoredTransactCommitmentRow
  pub shield_commitments : List StoredShieldCommitmentRow
  pub nullifiers : List StoredNullifierRow
  pub legacy_encrypted_commitments : List StoredLegacyEncryptedCommitmentRow
  pub legacy_generated_commitments : List StoredLegacyGeneratedCommitmentRow

pub data WalletScanChunkError : Type 0 where
  invalid_block_range : ℕ → ℕ → WalletScanChunkError
  record_out_of_range : WalletSection → ℕ → ℕ → ℕ → WalletScanChunkError
  missing_block_timestamp : WalletSection → ℕ → WalletScanChunkError
  chunk : ChunkError → WalletScanChunkError
  ipfs : ℕ → WalletScanChunkError
