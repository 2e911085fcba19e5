-- ===== src/ChainLogs/Actions.antt =====
-- The transactions behind the logs of the Railgun calls of an outer transaction
-- (crates/railgun-indexer-core/src/chain_logs.rs). A stack of open calls has the innermost one first.
pub mod Calls
pub mod Slices
pub mod Frame
pub mod Unshields
use railgun_indexer.Prelude.{
  ℕ, ◌+◌, ◌-◌, ◌^◌, ◌==◌, leb, ltb, not, ◌&&◌, ◌||◌, List, [], ◌∷◌, ◌++◌, map, length, take, drop,
  Option, none, some, Bool, true, false, Result, ok, err, ◌>>=◌, ◌>>◌, ok_or, checked_add,
  try_narrow, u64_mod, if◌then◌else◌, codes, is_empty, text_eq,
}
use railgun_indexer.Codec.{Bytes}
use railgun_indexer.ChainLogs.{
  ChainLib, TransactOutputSummary, DecodedRailgunTransaction, action_logs, ChainLogIngestionError,
  action_nullifier_count_mismatch, action_commitment_count_mismatch, missing_action_unshield,
  unmatched_action_log, integer_overflow, Ingested,
}

pub record TxConfig : Type 0 where
  pub nullifiers_count : ℕ
  pub commitments_count : ℕ
  pub has_unshield : Bool
  pub bound_params_hash : Bytes

abbrev pub count_unshields : List TxConfig → ℕ
count_unshields [] = 0
count_unshields (c ∷ rest) = (if c.has_unshield then 1 else 0) + count_unshields rest

abbrev pub all_counts : List (ℕ × (ℕ × List Bytes)) → List TxConfig → Bool
all_counts [] configs = true
all_counts (n ∷ ns) [] = true
all_counts (n ∷ ns) (c ∷ cs) = (c.nullifiers_count == length n.1.1) && all_counts ns cs

unfoldable pub counts_match : List (ℕ × (ℕ × List Bytes)) → List TxConfig → Bool
counts_match pending configs = (length pending == length configs) && all_counts pending configs

abbrev pub any_commitments : List TxConfig → Bool
any_commitments [] = false
any_commitments (c ∷ rest) = ltb 0 c.commitments_count || any_commitments rest

-- `hashes.get(start..end)`
abbrev pub slice : List Bytes → ℕ → ℕ → Option (List Bytes)
slice hashes start end =
    if leb start end && leb end (length hashes)
    then some (take (end - start) (drop start hashes))
    else none

-- Equality of lists of hashes.
abbrev pub list_eq : List Bytes → List Bytes → Bool
list_eq [] [] = true
list_eq [] (b ∷ ys) = false
list_eq (a ∷ xs) [] = false
list_eq (a ∷ xs) (b ∷ ys) = text_eq a b && list_eq xs ys

module _ (lib : ChainLib) where
  pub record Unshield : Type 0 where
    pub to : Bytes
    pub token : lib.Token
    pub amount : ℕ
    pub fee : ℕ

  pub data ActionLogEvent : Type 0 where
    nullified : ℕ → List Bytes → ActionLogEvent
    action : List TxConfig → ActionLogEvent
    unshield : Unshield → ActionLogEvent
    transact : List Bytes → ActionLogEvent

  pub record ActionFrame : Type 0 where
    pub log_index : ℕ
    pub record_base : ℕ
    pub configs : List TxConfig
    pub nullified : List (ℕ × List Bytes)
    pub unshields : List Unshield
    pub expects_transact : Bool

  unfoldable pub pending_unshields : ActionFrame → ℕ
  pending_unshields frame = count_unshields frame.configs - length frame.unshields

  unfoldable pub railgun_txid_from_parts : List Bytes → List Bytes → Bytes → ℕ
  railgun_txid_from_parts nullifiers commitments bound_params_hash =
      lib.compute_railgun_txid_parts (map lib.from_be_bytes nullifiers)
        (map lib.from_be_bytes commitments) (lib.from_be_bytes bound_params_hash)

  -- The commitment and the encoded preimage. A U256 sum that overflows, or is no u120, is an error.
  unfoldable pub unshield_commitment_from_event : Unshield → Ingested (Bytes × Bytes)
  unshield_commitment_from_event u = do
    sum ←
        ok_or (try_narrow (2 ^ 256) (u.amount + u.fee)) (integer_overflow (codes "unshield_value"))
    value ← ok_or (try_narrow (2 ^ 120) sum) (integer_overflow (codes "unshield_value"))
    let npk = lib.into_word u.to
    ok (
      lib.to_be_bytes (lib.preimage_hash npk u.token value),
      lib.preimage_abi_encode npk u.token value,
    )

  abbrev pub record_of :
      TxConfig → ℕ → List Bytes → List Bytes → Option Bytes → DecodedRailgunTransaction
  record_of config tree_number nullifiers commitments unshield_preimage = record {
    call_kind = action_logs;
    nullifiers = nullifiers;
    commitments = commitments;
    bound_params_hash = config.bound_params_hash;
    has_unshield = config.has_unshield;
    unshield_preimage = unshield_preimage;
    utxo_tree_in = tree_number;
    railgun_txid = railgun_txid_from_parts nullifiers commitments config.bound_params_hash;
  }

  module _ (summary : TransactOutputSummary) where
    abbrev transaction_hash : Bytes
    transaction_hash = summary.source.transaction_hash

    abbrev block_number : ℕ
    block_number = summary.source.block_number

    -- The commitments with that of the unshield, its preimage, and the unshields that are left.
    unfoldable pub take_unshield :
        ActionFrame
        → TxConfig
        → List Bytes
        → List Unshield
        → Ingested (List Bytes × (Option Bytes × List Unshield))
    take_unshield frame config commitments unshields =
        if config.has_unshield
        then elim unshields [
          | [] ↦ err (missing_action_unshield transaction_hash block_number frame.log_index)
          | u ∷ rest ↦ do
            derived ← unshield_commitment_from_event u
            ok (commitments ++ derived.0 ∷ [], (some derived.1, rest))
        ]
        else ok (commitments, (none, unshields))

    -- The loop over the configurations and their nullifiers, with the final offset.
    unfoldable pub config_transactions :
        ActionFrame
        → List Bytes
        → ℕ
        → ℕ
        → ℕ
        → List Unshield
        → List TxConfig
        → List (ℕ × List Bytes)
        → Ingested (List (ℕ × DecodedRailgunTransaction) × ℕ)
    config_transactions frame hashes log_index config_index offset unshields [] ns = ok ([], offset)
    config_transactions frame hashes log_index config_index offset unshields (config ∷ rest) [] =
        ok ([], offset)
    config_transactions frame hashes log_index config_index offset unshields (config ∷ rest)
          ((tree_number, nullifiers) ∷ ns) =
        do
          count ←
              ok_or (try_narrow u64_mod config.commitments_count)
                (integer_overflow (codes "action_commitment_offset"))
          end ←
              ok_or (checked_add offset count) (integer_overflow (codes "action_commitment_offset"))
          emitted ←
              ok_or (slice hashes offset end)
                (action_commitment_count_mismatch transaction_hash block_number log_index)
          taken ← take_unshield frame config emitted unshields
          later ←
              config_transactions frame hashes log_index (config_index + 1) end taken.1.1 rest ns
          ok (
            (
              frame.record_base + config_index,
              record_of config tree_number nullifiers taken.0 taken.1.0,
            )
                ∷ later.0,
            later.1,
          )

    unfoldable pub transactions_from_action_frame :
        ActionFrame → List Bytes → ℕ → Ingested (List (ℕ × DecodedRailgunTransaction))
    transactions_from_action_frame frame hashes log_index =
        if ltb 0 (pending_unshields frame)
        then err (missing_action_unshield transaction_hash block_number frame.log_index)
        else do
          made ←
              config_transactions frame hashes log_index 0 0 frame.unshields frame.configs
                frame.nullified
          (if made.1 == length hashes
              then ok made.0
              else err (action_commitment_count_mismatch transaction_hash block_number log_index))

    -- The local variables of the loop over the logs.
    pub record ActionState : Type 0 where
      pub pending_nullified : List (ℕ × (ℕ × List Bytes))
      pub frames : List ActionFrame
      pub next_record_index : ℕ
      pub decoded : List (Option ℕ × List (ℕ × DecodedRailgunTransaction))

    abbrev pub no_logs : ActionState
    no_logs = record { pending_nullified = []; frames = []; next_record_index = 0; decoded = [] }

    abbrev open_frame : ActionState → ℕ → List TxConfig → ActionFrame
    open_frame s log_index configs = record {
      log_index = log_index;
      record_base = s.next_record_index;
      configs = configs;
      nullified = map (λ (n : ℕ × (ℕ × List Bytes)). n.1) s.pending_nullified;
      unshields = [];
      expects_transact = any_commitments configs;
    }

    unfoldable pub handle_action : ActionState → ℕ → List TxConfig → Ingested ActionState
    handle_action s log_index configs =
        if not (counts_match s.pending_nullified configs)
        then err (action_nullifier_count_mismatch transaction_hash block_number log_index)
        else if is_empty configs
        then ok s
        else ok (record s {
          pending_nullified = [];
          frames = open_frame s log_index configs ∷ s.frames;
          next_record_index = s.next_record_index + length configs;
        })

    unfoldable pub handle_unshield : ActionState → ℕ → Unshield → Ingested ActionState
    handle_unshield s log_index u = elim s.frames [
      | [] ↦ err (unmatched_action_log transaction_hash block_number log_index)
      | frame ∷ rest ↦
          if ltb 0 (pending_unshields frame)
          then ok
              (record s { frames = record frame { unshields = frame.unshields ++ u ∷ [] } ∷ rest })
          else err (unmatched_action_log transaction_hash block_number log_index)
    ]

    unfoldable pub handle_transact : ActionState → ℕ → List Bytes → Ingested ActionState
    handle_transact s log_index hashes = elim s.frames [
      | [] ↦ err (unmatched_action_log transaction_hash block_number log_index)
      | frame ∷ rest ↦
          if not frame.expects_transact
          then err (unmatched_action_log transaction_hash block_number log_index)
          else do
            transactions ← transactions_from_action_frame frame hashes log_index
            ok (record s {
              frames = rest;
              decoded = s.decoded ++ (some log_index, transactions) ∷ [];
            })
    ]

    -- A call without commitments completes at its last unshield.
    unfoldable pub complete_call : ActionState → Ingested ActionState
    complete_call s = elim s.frames [
      | [] ↦ ok s
      | frame ∷ rest ↦
          if frame.expects_transact || ltb 0 (pending_unshields frame) then ok s else do
            transactions ← transactions_from_action_frame frame [] frame.log_index
            ok (record s { frames = rest; decoded = s.decoded ++ (none, transactions) ∷ [] })
    ]

    unfoldable pub handle_log : ActionState → ℕ → ActionLogEvent → Ingested ActionState
    handle_log s log_index (nullified tree_number nullifiers) = ok (record s {
      pending_nullified = s.pending_nullified ++ (log_index, (tree_number, nullifiers)) ∷ [];
    })
    handle_log s log_index (action configs) = handle_action s log_index configs
    handle_log s log_index (unshield u) = handle_unshield s log_index u
    handle_log s log_index (transact hashes) = handle_transact s log_index hashes

    unfoldable pub handle_logs : ActionState → List (ℕ × ActionLogEvent) → Ingested ActionState
    handle_logs s [] = ok s
    handle_logs s ((log_index, event) ∷ rest) = do
      handled ← handle_log s log_index event
      next ← complete_call handled
      handle_logs next rest

    -- The checks behind the loop.
    unfoldable pub all_complete :
        ActionState → Ingested (List (Option ℕ × List (ℕ × DecodedRailgunTransaction)))
    all_complete s = elim s.pending_nullified [
      | n ∷ _ ↦ err (action_nullifier_count_mismatch transaction_hash block_number n.0)
      | [] ↦ elim s.frames [
        | [] ↦ ok s.decoded
        | frame ∷ _ ↦ err (
            if ltb 0 (pending_unshields frame)
            then missing_action_unshield transaction_hash block_number frame.log_index
            else action_commitment_count_mismatch transaction_hash block_number frame.log_index)
      ]
    ]

    unfoldable pub decoded_transactions_from_action_logs :
        List (ℕ × ActionLogEvent)
        → Ingested (List (Option ℕ × List (ℕ × DecodedRailgunTransaction)))
    decoded_transactions_from_action_logs events = do s ← handle_logs no_logs events; all_complete s
