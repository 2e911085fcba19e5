-- ===== src/ChainLogs/Outputs.antt =====
-- The rows of public transactions, each with the position of its outputs
-- (crates/railgun-indexer-core/src/chain_logs.rs).
pub mod Rows
use railgun_indexer.Prelude.{
  ℕ, zero, suc, ◌+◌, ◌-◌, min, max, ◌==◌, leb, ltb, not, ◌&&◌, ◌||◌, List, [], ◌∷◌, ◌++◌, length,
  get_elem?, Option, none, some, Bool, true, false, Result, ok, err, ◌>>=◌, ◌>>◌, map_ok, ok_or,
  checked_add, checked_sub, try_narrow, u64_mod, u64_max, if◌then◌else◌, text_eq, codes, is_empty,
}
use railgun_indexer.Codec.{Bytes}
use railgun_indexer.ChainLogs.{
  ChainLib, IndexedLogSource, EmittedOutputFamily, transact_output, legacy_encrypted,
  legacy_generated, EmittedOutputCommitment, NullifierGroup, TransactOutputSummary, RailgunCallKind,
  transact, relay, execute, legacy_relay, legacy_transact, action_logs, DecodedRailgunTransaction,
  ChainLogIngestionError, unmatched_transaction_output_commitments,
  missing_transaction_nullifier_group, ambiguous_transaction_nullifier_group,
  unmatched_emitted_output_commitments, integer_overflow, Ingested,
}
use railgun_indexer.ChainLogs.Actions.{list_eq}
use railgun_indexer.ChainLogs.Positions.{
  normalized_global_position, global_tree_position, comparable_global_tree_position,
}

-- The text of `id` is the hash and the index.
pub record IndexedPublicTransaction : Type 0 where
  pub source : IndexedLogSource
  pub first_log_index : ℕ
  pub last_log_index : ℕ
  pub railgun_transaction_index : ℕ
  pub id : Bytes × ℕ
  pub block_timestamp : ℕ
  pub nullifiers : List Bytes
  pub commitments : List Bytes
  pub bound_params_hash : Bytes
  pub has_unshield : Bool
  pub unshield_preimage : Option Bytes
  pub utxo_tree_in : ℕ
  pub utxo_tree_out : ℕ
  pub utxo_batch_start_position_out : ℕ
  pub railgun_txid : ℕ

pub record OutputMatch : Type 0 where
  pub output_start : ℕ
  pub last_log_index : ℕ

abbrev pub modern_unshield_only_utxo : ℕ
modern_unshield_only_utxo = 99999

abbrev pub is_modern : RailgunCallKind → Bool
is_modern kind = elim kind [
  | transact ↦ true
  | relay ↦ true
  | execute ↦ true
  | legacy_relay ↦ false
  | legacy_transact ↦ false
  | action_logs ↦ true
]

abbrev pub is_legacy_transact : RailgunCallKind → Bool
is_legacy_transact kind = elim kind [ legacy_transact ↦ true | _ ↦ false ]

abbrev pub is_relay : RailgunCallKind → Bool
is_relay kind = elim kind [ relay ↦ true | legacy_relay ↦ true | _ ↦ false ]

abbrev pub is_generated : EmittedOutputFamily → Bool
is_generated family = elim family [ legacy_generated ↦ true | _ ↦ false ]

abbrev pub is_encrypted : EmittedOutputFamily → Bool
is_encrypted family = elim family [ legacy_encrypted ↦ true | _ ↦ false ]

unfoldable pub is_modern_unshield_only : DecodedRailgunTransaction → Bool
is_modern_unshield_only t = t.has_unshield && ((length t.commitments == 1) && is_modern t.call_kind)

unfoldable pub relay_legacy_output_count : DecodedRailgunTransaction → Ingested ℕ
relay_legacy_output_count t = do
  count ←
      ok_or (try_narrow u64_mod (length t.commitments))
        (integer_overflow (codes "commitment_count"))
  ok (if not t.has_unshield then count else count - 1)

abbrev pub unmatched : TransactOutputSummary → ℕ → ChainLogIngestionError
unmatched summary transaction_index =
    unmatched_transaction_output_commitments summary.source.transaction_hash
      summary.source.block_number transaction_index

abbrev pub is_none {ℓ} : {A : Type ℓ} → Option A → Bool
is_none none = true
is_none (some a) = false

abbrev pub next_index : ℕ → ℕ
next_index n = min (n + 1) u64_max

abbrev has_index : ℕ → List ℕ → Bool
has_index i [] = false
has_index i (j ∷ rest) = (i == j) || has_index i rest

-- The indices, from a first one on, of the unused groups with the nullifiers.
unfoldable pub matching_groups : List Bytes → List ℕ → ℕ → List NullifierGroup → List ℕ
matching_groups nullifiers used index [] = []
matching_groups nullifiers used index (g ∷ rest) =
    let later = matching_groups nullifiers used (index + 1) rest in
    if not (has_index index used) && list_eq g.nullifiers nullifiers then index ∷ later else later

unfoldable pub legacy_nullifier_group_index :
    TransactOutputSummary → DecodedRailgunTransaction → ℕ → List ℕ → Ingested (Option ℕ)
legacy_nullifier_group_index summary t transaction_index used =
    if is_empty summary.nullifier_groups
    then ok none
    else elim (matching_groups t.nullifiers used 0 summary.nullifier_groups) [
      | [] ↦ err (
          missing_transaction_nullifier_group summary.source.transaction_hash
            summary.source.block_number transaction_index)
      | index ∷ rest ↦ elim rest [
        | [] ↦ ok (some index)
        | _ ∷ more ↦ err (
            ambiguous_transaction_nullifier_group summary.source.transaction_hash
              summary.source.block_number transaction_index (2 + length more))
      ]
    ]

abbrev between : ℕ → Option ℕ → EmittedOutputCommitment → Bool
between after none output = ltb after output.log_index
between after (some next) output = ltb after output.log_index && ltb output.log_index next

unfoldable pub outputs_between :
    ℕ → Option ℕ → List EmittedOutputCommitment → List EmittedOutputCommitment
outputs_between after next [] = []
outputs_between after next (o ∷ rest) =
    let later = outputs_between after next rest in if between after next o then o ∷ later else later

-- The log index of a group, which is there.
abbrev group_log_index : List NullifierGroup → ℕ → Option ℕ
group_log_index groups index = elim (get_elem? groups index) [
  | none ↦ none
  | some g ↦ some g.source.log_index
]

abbrev or_zero : Option ℕ → ℕ
or_zero none = 0
or_zero (some n) = n

unfoldable pub legacy_output_candidates :
    List EmittedOutputCommitment → TransactOutputSummary → ℕ → List EmittedOutputCommitment
legacy_output_candidates outputs summary group_index =
    let candidates =
      outputs_between (or_zero (group_log_index summary.nullifier_groups group_index))
        (group_log_index summary.nullifier_groups (next_index group_index)) outputs in
    if is_empty candidates then outputs else candidates

module _ (lib : ChainLib) where
  abbrev pub global_of : EmittedOutputCommitment → Ingested ℕ
  global_of output = global_tree_position lib output.tree_number output.tree_position

  -- The first match is kept.
  abbrev pub start_of : Option ℕ → EmittedOutputCommitment → Ingested ℕ
  start_of none output = global_of output
  start_of (some start) output = ok start

  -- The loop over the commitments: the index of the next output, the start, the last log index.
  unfoldable pub match_commitments :
      List EmittedOutputCommitment
      → List Bytes
      → ℕ
      → Option ℕ
      → Option ℕ
      → Ingested (ℕ × (Option ℕ × Option ℕ))
  match_commitments outputs [] index start last = ok (index, (start, last))
  match_commitments outputs (c ∷ rest) index start last = elim (get_elem? outputs index) [
    | none ↦ ok (index, (start, last))
    | some output ↦ elim (text_eq output.hash c) [
      | false ↦ match_commitments outputs rest index start last
      | true ↦ do
        first ← start_of start output
        match_commitments outputs rest (next_index index) (some first) (some output.log_index)
    ]
  ]

  unfoldable pub matched_modern_unshield_only_output_start_global :
      TransactOutputSummary → List EmittedOutputCommitment → ℕ → ℕ → Ingested OutputMatch
  matched_modern_unshield_only_output_start_global summary outputs index transaction_index =
      elim (get_elem? outputs index) [
        | some output ↦ do
          start ← global_of output
          ok (record { output_start = start; last_log_index = output.log_index })
        | none ↦
            if is_empty outputs
            then ok (record { output_start = 0; last_log_index = summary.first_log_index })
            else elim (checked_sub index 1) [
              | none ↦ err (unmatched summary transaction_index)
              | some before ↦ elim (get_elem? outputs before) [
                | none ↦ err (unmatched summary transaction_index)
                | some previous ↦ do
                  last ← global_of previous
                  start ←
                      ok_or (checked_add last 1)
                        (integer_overflow (codes "modern_unshield_only_output_start"))
                  ok (record { output_start = start; last_log_index = previous.log_index })
              ]
            ]
      ]

  -- The generated output of an unshield, if it is the next one.
  abbrev pub unshield_output :
      Bool → Option EmittedOutputCommitment → Option EmittedOutputCommitment
  unshield_output has_unshield none = none
  unshield_output has_unshield (some output) =
      if has_unshield && is_generated output.family then some output else none

  abbrev pub matched_start : TransactOutputSummary → ℕ → Option ℕ → Option ℕ → Ingested OutputMatch
  matched_start summary transaction_index none last = err (unmatched summary transaction_index)
  matched_start summary transaction_index (some start) last = ok (record {
    output_start = start;
    last_log_index = elim last [ none ↦ summary.first_log_index | some l ↦ l ];
  })

  -- The match, and the index of the next output.
  unfoldable pub matched_output_start_global :
      TransactOutputSummary
      → List EmittedOutputCommitment
      → ℕ
      → DecodedRailgunTransaction
      → ℕ
      → Ingested (OutputMatch × ℕ)
  matched_output_start_global summary outputs index t transaction_index = do
    found ← match_commitments outputs t.commitments index none none
    elim (unshield_output t.has_unshield (get_elem? outputs found.0)) [
      | some output ↦ do
        start ← global_of output
        ok (record { output_start = start; last_log_index = output.log_index }, next_index found.0)
      | none ↦ do
        m ←
            if is_none found.1.0 && is_modern_unshield_only t
            then matched_modern_unshield_only_output_start_global summary outputs found.0
                transaction_index
            else matched_start summary transaction_index found.1.0 found.1.1
        ok (m, found.0)
    ]

  abbrev is_unmatched : ChainLogIngestionError → Bool
  is_unmatched e = elim e [ unmatched_transaction_output_commitments a b c ↦ true | _ ↦ false ]

  -- The loop from a start on, for so many starts.
  unfoldable pub legacy_from :
      TransactOutputSummary
      → List EmittedOutputCommitment
      → DecodedRailgunTransaction
      → ℕ
      → ℕ
      → ℕ
      → Ingested OutputMatch
  legacy_from summary outputs t transaction_index start zero =
      err (unmatched summary transaction_index)
  legacy_from summary outputs t transaction_index start (suc n) =
      elim (matched_output_start_global summary outputs start t transaction_index) [
        | ok m ↦ ok m.0
        | err e ↦
            let rest = legacy_from summary outputs t transaction_index (start + 1) n in
            if is_unmatched e then rest else err e
      ]

  unfoldable pub matched_legacy_output_start_global :
      TransactOutputSummary
      → List EmittedOutputCommitment
      → DecodedRailgunTransaction
      → ℕ
      → Ingested OutputMatch
  matched_legacy_output_start_global summary outputs t transaction_index =
      legacy_from summary outputs t transaction_index 0 (length outputs)

  abbrev or_first : Option ℕ → ℕ → Option ℕ
  or_first none n = some n
  or_first (some m) n = some m

  -- The loop over the legacy outputs: the first generated, the first encrypted, the last log index.
  unfoldable pub relay_anchors :
      List EmittedOutputCommitment → Option ℕ → Option ℕ → ℕ → Ingested (Option ℕ × (Option ℕ × ℕ))
  relay_anchors [] generated encrypted last = ok (generated, (encrypted, last))
  relay_anchors (o ∷ rest) generated encrypted last = elim o.family [
    | transact_output ↦ relay_anchors rest generated encrypted last
    | legacy_encrypted ↦ do
      position ← global_of o
      relay_anchors rest generated (or_first encrypted position) (max last o.log_index)
    | legacy_generated ↦ do
      position ← global_of o
      relay_anchors rest (or_first generated position) encrypted (max last o.log_index)
  ]

  unfoldable pub matched_relay_legacy_output_start_global :
      TransactOutputSummary → List EmittedOutputCommitment → ℕ → ℕ → Ingested OutputMatch
  matched_relay_legacy_output_start_global summary outputs prior_commitment_count
        transaction_index =
      do
        anchors ← relay_anchors outputs none none summary.last_log_index
        anchor ←
            ok_or (elim anchors.0 [ some g ↦ some g | none ↦ anchors.1.0 ])
              (unmatched summary transaction_index)
        start ←
            ok_or (checked_add anchor prior_commitment_count)
              (integer_overflow (codes "relay_legacy_output_start"))
        ok (record { output_start = start; last_log_index = anchors.1.1 })
