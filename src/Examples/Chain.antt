-- ===== src/Examples/Chain.antt =====
-- A Railgun call with another one inside it (crates/railgun-indexer-core/src/chain_logs.rs).
use railgun_indexer.Prelude.{
  ℕ, ◌+◌, ◌*◌, ◌<◌, ◌≡◌, refl, ◌⊎◌, List, [], ◌∷◌, ◌++◌, length, none, some, true, ok, err, All,
  arith, text_eq,
}
use railgun_indexer.Codec.{Bytes}
use railgun_indexer.ChainLogs.{
  ChainLib, IndexedLogSource, transact_output, EmittedOutputCommitment, TransactOutputSummary,
  action_logs, DecodedRailgunTransaction, unmatched_action_log,
}
use railgun_indexer.ChainLogs.Positions.{
  normalize_tree_position, normalized_event_position, normalized_global_position,
  global_tree_position, comparable_global_tree_position,
}
use railgun_indexer.ChainLogs.Positions.Global.{normalized_event_position_lem}
use railgun_indexer.ChainLogs.Actions.{
  TxConfig, Unshield, ActionFrame, counts_match, pending_unshields, railgun_txid_from_parts,
  unshield_commitment_from_event, take_unshield, config_transactions,
  transactions_from_action_frame, transact, handle_action, handle_unshield, handle_transact,
  complete_call, handle_log, handle_logs, all_complete, decoded_transactions_from_action_logs,
}
use railgun_indexer.ChainLogs.Actions.Frame.{IsSplit, transactions_from_action_frame-IsSplit}
use railgun_indexer.ChainLogs.Actions.Calls.{
  Call, call, shield_action, done, unshielded, nested, emit_call, emit_steps, emit_calls, IsCall,
  IsSteps, read_calls,
}
use railgun_indexer.ChainLogs.Actions.Calls.Refines.{decoded-Reads}
use railgun_indexer.ChainLogs.Actions.Unshields.{
  CalldataTransaction, Frames, replace_derived, check_commitments, resolve_with, resolve_row,
  resolve_rows, resolve_frames, resolve_unshield_commitments,
}
use railgun_indexer.ChainLogs.Actions.Unshields.Resolves.{
  FramesResolved, resolve_unshield_commitments-Resolves,
}
use railgun_indexer.ChainLogs.Outputs.{
  IndexedPublicTransaction, is_modern_unshield_only, match_commitments, matched_output_start_global,
}
use railgun_indexer.ChainLogs.Outputs.Rows.{
  insert_output, sort_outputs, match_sequential, match_transaction, output_position,
  transaction_row, transaction_rows, public_transactions_from_decoded,
}
use railgun_indexer.ChainLogs.Outputs.Rows.Faithful.{
  AreRows, public_transactions_from_decoded-AreRows,
}
use railgun_indexer.ChainLogs.Outputs.Rows.Sequential.{
  AreSequential, public_transactions_from_decoded-AreSequential,
}

-- Trees of four leaves; the hash of an unshield is its value.
abbrev lib : ChainLib
lib = record {
  tree_leaf_count = 4;
  Token = ℕ;
  preimage_hash = λ npk token value. value;
  preimage_abi_encode = λ npk token value. npk ++ token ∷ value ∷ [];
  into_word = λ address. address;
  from_be_bytes = λ bytes. length bytes;
  to_be_bytes = λ n. n ∷ [];
  compute_railgun_txid_parts =
      λ nullifiers commitments bound. length nullifiers + 10 * length commitments;
}

-- The sixth commitment of a log that starts at position 2 of tree 1 lies in tree 2.
position : normalized_event_position lib 1 2 5 ≡ ok (2, 3)
unfolding normalized_event_position normalize_tree_position
position = refl

normalized_event_position_lem_example :
    (comparable_global_tree_position lib 2 3 ≡ comparable_global_tree_position lib 1 2 + 5)
    × (3 < 4)
normalized_event_position_lem_example =
    normalized_event_position_lem lib 1 2 5 (2, 3) (omega arith) position

abbrev source : IndexedLogSource
source = record {
  block_number = 100;
  block_timestamp = none;
  block_hash = 1 ∷ [];
  transaction_hash = 2 ∷ [];
  log_index = 1;
}

-- The output of the outer call, at position 3 of tree 0.
abbrev output : EmittedOutputCommitment
output = record {
  family = transact_output;
  log_index = 7;
  tree_number = 0;
  tree_position = 3;
  hash = 9 ∷ [];
}

abbrev summary : TransactOutputSummary
summary = record {
  source = source;
  first_log_index = 1;
  last_log_index = 7;
  output_commitments = output ∷ [];
  nullifier_groups = [];
}

abbrev config : ℕ → TxConfig
config commitments_count = record {
  nullifiers_count = 1;
  commitments_count = commitments_count;
  has_unshield = true;
  bound_params_hash = [];
}

abbrev unshield_of : ℕ → Unshield lib
unshield_of amount = record { to = 5 ∷ []; token = 6; amount = amount; fee = 1 }

abbrev inner : Call lib
inner =
    call ((3, (0, (2 ∷ []) ∷ [])) ∷ []) 4 (config 0 ∷ []) (unshielded 5 (unshield_of 30) done) none

abbrev outer : Call lib
outer =
    call ((1, (0, (1 ∷ []) ∷ [])) ∷ []) 2 (config 1 ∷ [])
      (nested inner (unshielded 6 (unshield_of 40) done)) (some (7, (9 ∷ []) ∷ []))

abbrev calls : List (Call lib)
calls = shield_action 0 ∷ outer ∷ []

calls-IsCall : All (IsCall lib) calls
unfolding IsCall IsSteps counts_match
calls-IsCall =
    (tt, ((refl, (refl, (refl, (refl, ((refl, (refl, (refl, ((refl, refl), tt)))), tt))))), tt))

abbrev row : ℕ → List Bytes → ℕ → ℕ → DecodedRailgunTransaction
row nullifier commitments value txid = record {
  call_kind = action_logs;
  nullifiers = (nullifier ∷ []) ∷ [];
  commitments = commitments;
  bound_params_hash = [];
  has_unshield = true;
  unshield_preimage = some (5 ∷ 6 ∷ value ∷ []);
  utxo_tree_in = 0;
  railgun_txid = txid;
}

abbrev outer_row : DecodedRailgunTransaction
outer_row = row 1 ((9 ∷ []) ∷ (41 ∷ []) ∷ []) 41 21

-- The inner call is complete first, but it has the second number.
abbrev frames : Frames
frames = (none, (1, row 2 ((31 ∷ []) ∷ []) 31 11) ∷ []) ∷ (some 7, (0, outer_row) ∷ []) ∷ []

reads : decoded_transactions_from_action_logs lib summary (emit_calls lib calls) ≡ ok frames
unfolding decoded_transactions_from_action_logs handle_logs handle_log handle_action handle_unshield
    handle_transact complete_call all_complete counts_match pending_unshields
    transactions_from_action_frame config_transactions take_unshield unshield_commitment_from_event
    railgun_txid_from_parts emit_call emit_steps
reads = refl

-- A Transact without an open call.
stray :
    decoded_transactions_from_action_logs lib summary ((3, transact []) ∷ [])
    ≡ err (unmatched_action_log (2 ∷ []) 100 3)
unfolding decoded_transactions_from_action_logs handle_logs handle_log handle_transact
stray = refl

decoded-Reads_example :
    decoded_transactions_from_action_logs lib summary (emit_calls lib calls)
    ≡ read_calls lib summary calls 0 []
decoded-Reads_example = decoded-Reads lib summary calls calls-IsCall

abbrev frame : ActionFrame lib
frame = record {
  log_index = 2;
  record_base = 0;
  configs = config 1 ∷ [];
  nullified = (0, (1 ∷ []) ∷ []) ∷ [];
  unshields = unshield_of 40 ∷ [];
  expects_transact = true;
}

splits :
    transactions_from_action_frame lib summary frame ((9 ∷ []) ∷ []) 7 ≡ ok ((0, outer_row) ∷ [])
unfolding pending_unshields transactions_from_action_frame config_transactions take_unshield
    unshield_commitment_from_event railgun_txid_from_parts
splits = refl

transactions_from_action_frame-IsSplit_example :
    IsSplit lib summary frame ((9 ∷ []) ∷ []) ((0, outer_row) ∷ [])
transactions_from_action_frame-IsSplit_example =
    transactions_from_action_frame-IsSplit lib summary frame ((9 ∷ []) ∷ []) 7 ((0, outer_row) ∷ [])
      splits

-- The calldata has another last commitment for the outer call.
abbrev calldata : List CalldataTransaction
calldata =
    record {
      nullifiers = (1 ∷ []) ∷ [];
      commitments = (9 ∷ []) ∷ (42 ∷ []) ∷ [];
      unshield = 1;
      tree_number = 0;
      unshield_preimage = 5 ∷ 6 ∷ 42 ∷ [];
    }
    ∷ record {
      nullifiers = (2 ∷ []) ∷ [];
      commitments = (31 ∷ []) ∷ [];
      unshield = 1;
      tree_number = 0;
      unshield_preimage = 5 ∷ 6 ∷ 31 ∷ [];
    }
    ∷ []

abbrev resolved : Frames
resolved =
    (none, (1, row 2 ((31 ∷ []) ∷ []) 31 11) ∷ [])
    ∷ (some 7, (0, row 1 ((9 ∷ []) ∷ (42 ∷ []) ∷ []) 42 21) ∷ [])
    ∷ []

resolves : resolve_unshield_commitments lib summary calldata frames ≡ ok (resolved, (0, 1))
unfolding resolve_unshield_commitments resolve_frames resolve_rows resolve_row resolve_with
    check_commitments replace_derived railgun_txid_from_parts text_eq
resolves = refl

resolve_unshield_commitments-Resolves_example :
    ((calldata ≡ []) × (resolved ≡ frames)) ⊎ FramesResolved lib summary calldata frames resolved
resolve_unshield_commitments-Resolves_example =
    resolve_unshield_commitments-Resolves lib summary calldata frames (resolved, (0, 1)) resolves

abbrev public_row : IndexedPublicTransaction
public_row = record {
  source = source;
  first_log_index = 1;
  last_log_index = 7;
  railgun_transaction_index = 0;
  id = (2 ∷ [], 0);
  block_timestamp = 50;
  nullifiers = (1 ∷ []) ∷ [];
  commitments = (9 ∷ []) ∷ (41 ∷ []) ∷ [];
  bound_params_hash = [];
  has_unshield = true;
  unshield_preimage = some (5 ∷ 6 ∷ 41 ∷ []);
  utxo_tree_in = 0;
  utxo_tree_out = 0;
  utxo_batch_start_position_out = 3;
  railgun_txid = 21;
}

rows : public_transactions_from_decoded lib summary 50 (outer_row ∷ []) ≡ ok (public_row ∷ [])
unfolding public_transactions_from_decoded sort_outputs insert_output transaction_rows
    transaction_row match_transaction match_sequential matched_output_start_global match_commitments
    is_modern_unshield_only output_position global_tree_position normalized_global_position
    normalize_tree_position text_eq
rows = refl

public_transactions_from_decoded-AreRows_example :
    AreRows lib summary 50 0 (outer_row ∷ []) (public_row ∷ [])
public_transactions_from_decoded-AreRows_example =
    public_transactions_from_decoded-AreRows lib summary 50 (outer_row ∷ []) (public_row ∷ [])
      (omega arith) rows

public_transactions_from_decoded-AreSequential_example :
    AreSequential lib
      (sort_outputs lib (output ∷ []))
      0
      (outer_row ∷ [])
      (public_row ∷ [])
      (length (sort_outputs lib (output ∷ [])))
public_transactions_from_decoded-AreSequential_example =
    public_transactions_from_decoded-AreSequential lib summary 50 (outer_row ∷ []) (public_row ∷ [])
      (omega arith) refl refl rows
