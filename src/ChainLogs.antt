-- ===== src/ChainLogs.antt =====
-- The rows that are made of the chain's logs (crates/railgun-indexer-core/src/chain_logs.rs). Hashes, the
-- ABI coding and the size of a tree are of other crates: they are the fields of `ChainLib`. A hash of
-- 32 bytes is the list of its bytes, a U256 a number.
pub mod Positions
pub mod Actions
pub mod Outputs
use railgun_indexer.Prelude.{ℕ, Bool, List, Option, Result, Text}
use railgun_indexer.Codec.{Bytes}

pub record ChainLib : Type 1 where
  pub tree_leaf_count : ℕ
  pub Token : Type 0
  -- `CommitmentPreimage`: npk, token, value; its hash and its ABI form
  pub preimage_hash : Bytes → Token → ℕ → ℕ
  pub preimage_abi_encode : Bytes → Token → ℕ → Bytes
  -- `Address::into_word`
  pub into_word : Bytes → Bytes
  pub from_be_bytes : Bytes → ℕ
  pub to_be_bytes : ℕ → Bytes
  pub compute_railgun_txid_parts : List ℕ → List ℕ → ℕ → ℕ

pub record IndexedLogSource : Type 0 where
  pub block_number : ℕ
  pub block_timestamp : Option ℕ
  pub block_hash : Bytes
  pub transaction_hash : Bytes
  pub log_index : ℕ

pub data EmittedOutputFamily : Type 0 where
  transact_output legacy_encrypted legacy_generated : EmittedOutputFamily

pub record EmittedOutputCommitment : Type 0 where
  pub family : EmittedOutputFamily
  pub log_index : ℕ
  pub tree_number : ℕ
  pub tree_position : ℕ
  pub hash : Bytes

pub record NullifierGroup : Type 0 where
  pub source : IndexedLogSource
  pub nullifiers : List Bytes

pub record TransactOutputSummary : Type 0 where
  pub source : IndexedLogSource
  pub first_log_index : ℕ
  pub last_log_index : ℕ
  pub output_commitments : List EmittedOutputCommitment
  pub nullifier_groups : List NullifierGroup

pub data RailgunCallKind : Type 0 where
  transact relay execute legacy_relay legacy_transact action_logs : RailgunCallKind

pub record DecodedRailgunTransaction : Type 0 where
  pub call_kind : RailgunCallKind
  pub nullifiers : List Bytes
  pub commitments : List Bytes
  pub bound_params_hash : Bytes
  pub has_unshield : Bool
  pub unshield_preimage : Option Bytes
  pub utxo_tree_in : ℕ
  pub railgun_txid : ℕ

-- The hash and the block number that most errors have are those of a source.
pub data ChainLogIngestionError : Type 0 where
  provider : ℕ → ChainLogIngestionError
  decode : ℕ → ChainLogIngestionError
  transact_error : ℕ → ChainLogIngestionError
  missing_log_metadata : Text → ChainLogIngestionError
  missing_transaction : IndexedLogSource → ℕ → ℕ → ChainLogIngestionError
  missing_transaction_by_hash : Bytes → ChainLogIngestionError
  missing_railgun_calldata : IndexedLogSource → ℕ → ℕ → ChainLogIngestionError
  missing_railgun_calldata_by_hash : Bytes → ChainLogIngestionError
  unmatched_transaction_output_commitments : Bytes → ℕ → ℕ → ChainLogIngestionError
  missing_transaction_nullifier_group : Bytes → ℕ → ℕ → ChainLogIngestionError
  ambiguous_transaction_nullifier_group : Bytes → ℕ → ℕ → ℕ → ChainLogIngestionError
  unmatched_emitted_output_commitments : Bytes → ℕ → ℕ → ℕ → ChainLogIngestionError
  missing_block : ℕ → Bytes → ChainLogIngestionError
  mismatched_block : ℕ → Bytes → ℕ → Bytes → ChainLogIngestionError
  missing_full_block_transactions : ℕ → Bytes → ChainLogIngestionError
  invalid_block_field : ℕ → Bytes → Text → ChainLogIngestionError
  action_nullifier_count_mismatch : Bytes → ℕ → ℕ → ChainLogIngestionError
  action_commitment_count_mismatch : Bytes → ℕ → ℕ → ChainLogIngestionError
  missing_action_unshield : Bytes → ℕ → ℕ → ChainLogIngestionError
  unmatched_action_log : Bytes → ℕ → ℕ → ChainLogIngestionError
  ambiguous_unshield_calldata : Bytes → ℕ → ℕ → ChainLogIngestionError
  contradicting_unshield_calldata : Bytes → ℕ → Text → ChainLogIngestionError
  integer_overflow : Text → ChainLogIngestionError

abbrev pub Ingested : Type 0 → Type 0
Ingested = Result ChainLogIngestionError
