-- ===== src/ChainLogs/Outputs/Rows.antt =====
-- The loop over the transactions of a summary (crates/railgun-indexer-core/src/chain_logs.rs).
pub mod Faithful
pub mod Consumes
pub mod Sequential
use railgun_indexer.Prelude.{
  ℕ, ◌+◌, max, ◌==◌, leb, ltb, not, ◌&&◌, ◌||◌, List, [], ◌∷◌, ◌++◌, length, get_elem?, Option,
  none, some, Bool, true, false, Result, ok, err, ◌>>=◌, ◌>>◌, ok_or, checked_add, try_narrow,
  u64_mod, if◌then◌else◌, codes, is_empty,
}
use railgun_indexer.Codec.{Bytes}
use railgun_indexer.ChainLogs.{
  ChainLib, EmittedOutputCommitment, NullifierGroup, TransactOutputSummary,
  DecodedRailgunTransaction, unmatched_emitted_output_commitments, integer_overflow, Ingested,
}
use railgun_indexer.ChainLogs.Positions.{
  normalized_global_position, comparable_global_tree_position,
}
use railgun_indexer.ChainLogs.Outputs.{
  IndexedPublicTransaction, OutputMatch, modern_unshield_only_utxo, is_legacy_transact, is_relay,
  is_generated, is_encrypted, is_modern_unshield_only, relay_legacy_output_count,
  legacy_nullifier_group_index, legacy_output_candidates, group_log_index, or_zero,
  matched_output_start_global, matched_legacy_output_start_global,
  matched_relay_legacy_output_start_global,
}

abbrev pub any_legacy_output : List EmittedOutputCommitment → Bool
any_legacy_output [] = false
any_legacy_output (o ∷ rest) =
    (is_encrypted o.family || is_generated o.family) || any_legacy_output rest

abbrev pub any_legacy_transact : List DecodedRailgunTransaction → Bool
any_legacy_transact [] = false
any_legacy_transact (t ∷ rest) = is_legacy_transact t.call_kind || any_legacy_transact rest

-- The local variables of the loop.
pub record MatchState : Type 0 where
  pub emitted_index : ℕ
  pub used_nullifier_groups : List ℕ
  pub relay_legacy_commitment_offset : ℕ
  pub uses_non_sequential_output_mapping : Bool

abbrev pub no_matches : MatchState
no_matches = record {
  emitted_index = 0;
  used_nullifier_groups = [];
  relay_legacy_commitment_offset = 0;
  uses_non_sequential_output_mapping = false;
}

-- The match, the first and the last log index of the row, and the variables thereafter.
pub record RowMatch : Type 0 where
  pub output_match : OutputMatch
  pub first_log_index : ℕ
  pub last_log_index : ℕ
  pub after : MatchState

module _ (lib : ChainLib) where
  -- `sort_by_key`
  unfoldable pub insert_output :
      EmittedOutputCommitment → List EmittedOutputCommitment → List EmittedOutputCommitment
  insert_output o [] = o ∷ []
  insert_output o (p ∷ rest) =
      let later = insert_output o rest in
      if leb (comparable_global_tree_position lib o.tree_number o.tree_position)
        (comparable_global_tree_position lib p.tree_number p.tree_position)
      then o ∷ p ∷ rest
      else p ∷ later

  unfoldable pub sort_outputs : List EmittedOutputCommitment → List EmittedOutputCommitment
  sort_outputs [] = []
  sort_outputs (o ∷ rest) = insert_output o (sort_outputs rest)

  module _ (summary : TransactOutputSummary) (outputs : List EmittedOutputCommitment) where
    -- The next outputs in order.
    unfoldable pub match_sequential : MatchState → DecodedRailgunTransaction → ℕ → Ingested RowMatch
    match_sequential s t transaction_index = do
      found ← matched_output_start_global lib summary outputs s.emitted_index t transaction_index
      ok (record {
        output_match = found.0;
        first_log_index = summary.first_log_index;
        last_log_index = summary.last_log_index;
        after = record s { emitted_index = found.1 };
      })

    unfoldable pub match_legacy_group :
        MatchState → DecodedRailgunTransaction → ℕ → ℕ → Ingested RowMatch
    match_legacy_group s t transaction_index group_index = do
      found ←
          matched_legacy_output_start_global lib summary
            (legacy_output_candidates outputs summary group_index) t transaction_index
      let nullifier_log_index = or_zero (group_log_index summary.nullifier_groups group_index)
      ok (record {
        output_match = found;
        first_log_index = nullifier_log_index;
        last_log_index = max nullifier_log_index found.last_log_index;
        after = record s {
          used_nullifier_groups = group_index ∷ s.used_nullifier_groups;
          uses_non_sequential_output_mapping = true;
        };
      })

    unfoldable pub match_legacy : MatchState → DecodedRailgunTransaction → ℕ → Ingested RowMatch
    match_legacy s t transaction_index = do
      group ← legacy_nullifier_group_index summary t transaction_index s.used_nullifier_groups
      elim group [
        | some group_index ↦ match_legacy_group s t transaction_index group_index
        | none ↦ match_sequential s t transaction_index
      ]

    unfoldable pub match_relay : MatchState → DecodedRailgunTransaction → ℕ → Ingested RowMatch
    match_relay s t transaction_index = do
      found ←
          matched_relay_legacy_output_start_global lib summary outputs
            s.relay_legacy_commitment_offset transaction_index
      count ← relay_legacy_output_count t
      offset ←
          ok_or (checked_add s.relay_legacy_commitment_offset count)
            (integer_overflow (codes "relay_legacy_commitment_offset"))
      ok (record {
        output_match = found;
        first_log_index = summary.first_log_index;
        last_log_index = summary.last_log_index;
        after = record s {
          relay_legacy_commitment_offset = offset;
          uses_non_sequential_output_mapping = true;
        };
      })

    unfoldable pub match_transaction :
        MatchState → DecodedRailgunTransaction → ℕ → Ingested RowMatch
    match_transaction s t transaction_index =
        if is_legacy_transact t.call_kind
        then match_legacy s t transaction_index
        else if is_relay t.call_kind && any_legacy_output outputs
        then match_relay s t transaction_index
        else match_sequential s t transaction_index

    -- The tree and the position of the outputs.
    unfoldable pub output_position : DecodedRailgunTransaction → OutputMatch → Ingested (ℕ × ℕ)
    output_position t m =
        if is_empty outputs && is_modern_unshield_only t
        then ok (modern_unshield_only_utxo, modern_unshield_only_utxo)
        else normalized_global_position lib m.output_start

    abbrev pub row_of :
        ℕ → DecodedRailgunTransaction → ℕ → ℕ → RowMatch → ℕ × ℕ → IndexedPublicTransaction
    row_of block_timestamp t transaction_index index m position = record {
      source = summary.source;
      first_log_index = m.first_log_index;
      last_log_index = m.last_log_index;
      railgun_transaction_index = index;
      id = (summary.source.transaction_hash, transaction_index);
      block_timestamp = block_timestamp;
      nullifiers = t.nullifiers;
      commitments = t.commitments;
      bound_params_hash = t.bound_params_hash;
      has_unshield = t.has_unshield;
      unshield_preimage = t.unshield_preimage;
      utxo_tree_in = t.utxo_tree_in;
      utxo_tree_out = position.0;
      utxo_batch_start_position_out = position.1;
      railgun_txid = t.railgun_txid;
    }

    unfoldable pub transaction_row :
        ℕ
        → MatchState
        → DecodedRailgunTransaction
        → ℕ
        → Ingested (IndexedPublicTransaction × MatchState)
    transaction_row block_timestamp s t transaction_index = do
      m ← match_transaction s t transaction_index
      position ← output_position t m.output_match
      index ←
          ok_or (try_narrow u64_mod transaction_index)
            (integer_overflow (codes "railgun_transaction_index"))
      ok (row_of block_timestamp t transaction_index index m position, m.after)

    unfoldable pub transaction_rows :
        ℕ
        → MatchState
        → ℕ
        → List DecodedRailgunTransaction
        → Ingested (List IndexedPublicTransaction × MatchState)
    transaction_rows block_timestamp s transaction_index [] = ok ([], s)
    transaction_rows block_timestamp s transaction_index (t ∷ rest) = do
      row ← transaction_row block_timestamp s t transaction_index
      later ← transaction_rows block_timestamp row.1 (transaction_index + 1) rest
      ok (row.0 ∷ later.0, later.1)

  unfoldable pub public_transactions_from_decoded :
      TransactOutputSummary
      → ℕ
      → List DecodedRailgunTransaction
      → Ingested (List IndexedPublicTransaction)
  public_transactions_from_decoded summary block_timestamp transactions = do
    let outputs = sort_outputs summary.output_commitments
    rows ← transaction_rows summary outputs block_timestamp no_matches 0 transactions
    (if not (
            (any_legacy_transact transactions && not (is_empty summary.nullifier_groups))
            || rows.1.uses_non_sequential_output_mapping)
          && not (rows.1.emitted_index == length outputs)
        then err (
            unmatched_emitted_output_commitments summary.source.transaction_hash
              summary.source.block_number rows.1.emitted_index (length outputs))
        else ok rows.0)
