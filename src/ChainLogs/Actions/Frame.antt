-- ===== src/ChainLogs/Actions/Frame.antt =====
-- The transactions of one Railgun call (crates/railgun-indexer-core/src/chain_logs.rs).
use mathlib.Core.List.{append_assoc, append-nil}
use railgun_indexer.Prelude.{
  ℕ, ◌+◌, ltb, ◌≡◌, ◌⊎◌, refl, sym, ap, ◌∙◌, List, [], ◌∷◌, ◌++◌, length, drop, Option, none, some,
  true, false, ok, if◌then◌else◌, arith, All, Bool-cases, Result-cases, bind-parts, ok_or-parts,
  inl, inr, ok_or, try_narrow, checked_add, u64_mod, codes,
}
use railgun_indexer.Codec.{Bytes}
use railgun_indexer.ChainLogs.{
  ChainLib, TransactOutputSummary, DecodedRailgunTransaction, integer_overflow,
}
use railgun_indexer.ChainLogs.Actions.{
  TxConfig, Unshield, ActionFrame, pending_unshields, railgun_txid_from_parts,
  unshield_commitment_from_event, slice, take_unshield, record_of, config_transactions,
  transactions_from_action_frame,
}
use railgun_indexer.ChainLogs.Actions.Slices.{
  init, init-snoc, take-drop, drop_add, length-drop, length-take, slice-parts, drop_all,
}

-- The commitments that the Transact log has: all but that of an unshield, the last one.
abbrev pub emitted_commitments : DecodedRailgunTransaction → List Bytes
emitted_commitments t = if t.has_unshield then init t.commitments else t.commitments

abbrev pub all_emitted : List (ℕ × DecodedRailgunTransaction) → List Bytes
all_emitted [] = []
all_emitted (t ∷ rest) = emitted_commitments t.1 ++ all_emitted rest

-- Each transaction has its number, and the nullifiers and the data of its configuration.
abbrev pub Follows :
    ℕ → List TxConfig → List (ℕ × List Bytes) → List (ℕ × DecodedRailgunTransaction) → Type 0
Follows n [] ns txs = txs ≡ []
Follows n (c ∷ cs) [] txs = txs ≡ []
Follows n (c ∷ cs) (tree ∷ ns) [] = false ≡ true
Follows n (c ∷ cs) (tree ∷ ns) (t ∷ txs) =
    (t.0 ≡ n)
    × ((t.1.utxo_tree_in ≡ tree.0)
        × ((t.1.nullifiers ≡ tree.1)
            × ((t.1.has_unshield ≡ c.has_unshield)
                × ((t.1.bound_params_hash ≡ c.bound_params_hash)
                    × ((length (emitted_commitments t.1) ≡ c.commitments_count)
                        × Follows (n + 1) cs ns txs)))))

module _ (lib : ChainLib) (summary : TransactOutputSummary) where
  -- The TXID is that of the transaction's parts.
  abbrev pub HasTxid : ℕ × DecodedRailgunTransaction → Type 0
  HasTxid t =
      t.1.railgun_txid
      ≡ railgun_txid_from_parts lib t.1.nullifiers t.1.commitments t.1.bound_params_hash

  -- A transaction without an unshield takes none. One with an unshield takes the next: its last commitment
  -- and its preimage are those derived from it.
  abbrev pub TakesOne :
      DecodedRailgunTransaction → List (Unshield lib) → List (Unshield lib) → Type 0
  TakesOne t unshields left =
      ((t.has_unshield ≡ false) × (t.unshield_preimage ≡ none) × (unshields ≡ left))
      ⊎ ((u : Unshield lib) × (derived : Bytes × Bytes) × (t.has_unshield ≡ true)
          × (unshields ≡ u ∷ left)
          × (unshield_commitment_from_event lib u ≡ ok derived)
          × (t.commitments ≡ emitted_commitments t ++ derived.0 ∷ [])
          × (t.unshield_preimage ≡ some derived.1))

  -- The transactions take the unshields one after the other.
  abbrev pub Takes : List (Unshield lib) → List (ℕ × DecodedRailgunTransaction) → Type 0
  Takes unshields [] = Unit {0}
  Takes unshields (t ∷ txs) =
      (left : List (Unshield lib)) × TakesOne t.1 unshields left × Takes left txs

  pub record IsSplit (frame : ActionFrame lib) (hashes : List Bytes)
      (txs : List (ℕ × DecodedRailgunTransaction)) : Type 0 where
    pub follows : Follows frame.record_base frame.configs frame.nullified txs
    pub whole : all_emitted txs ≡ hashes
    pub txids : All HasTxid txs
    pub unshields : Takes frame.unshields txs

  -- The commitments are those emitted, with one more if there is an unshield.
  take_unshield-parts :
      (frame : ActionFrame lib) (config : TxConfig) (emitted commitments : List Bytes)
      (unshields left : List (Unshield lib)) (preimage : Option Bytes)
      → take_unshield lib summary frame config emitted unshields
        ≡ ok (commitments, (preimage, left))
      → (if config.has_unshield then init commitments else commitments) ≡ emitted
  unfolding take_unshield
  take_unshield-parts frame config emitted commitments [] left preimage h =
      elim (Bool-cases config.has_unshield) [
        | inr e ↦ rw e (ground arith)
        | inl e ↦ absurd (ground arith)
      ]
  take_unshield-parts frame config emitted commitments (u ∷ us) left preimage h =
      elim (Bool-cases config.has_unshield) [
        | inr e ↦ rw e (ground arith)
        | inl e ↦ elim (Result-cases (unshield_commitment_from_event lib u)) [
          | inr (_, bad) ↦ absurd (ground arith)
          | inl (d, good) ↦
              let same : commitments ≡ emitted ++ d.0 ∷ [] = ground arith in
              rw (e, same) (init-snoc emitted d.0)
        ]
      ]

  take_unshield-TakesOne :
      (frame : ActionFrame lib) (c : TxConfig) (tree : ℕ) (nulls emitted commitments : List Bytes)
      (unshields left : List (Unshield lib)) (preimage : Option Bytes)
      → take_unshield lib summary frame c emitted unshields ≡ ok (commitments, (preimage, left))
      → TakesOne (record_of lib c tree nulls commitments preimage) unshields left
  unfolding take_unshield
  take_unshield-TakesOne frame c tree nulls emitted commitments [] left preimage h =
      elim (Bool-cases c.has_unshield) [
        | inr e ↦ inl (e, ground arith, ground arith)
        | inl e ↦ absurd (ground arith)
      ]
  take_unshield-TakesOne frame c tree nulls emitted commitments (u ∷ us) left preimage h =
      elim (Bool-cases c.has_unshield) [
        | inr e ↦ inl (e, ground arith, ground arith)
        | inl e ↦ elim (Result-cases (unshield_commitment_from_event lib u)) [
          | inr (_, bad) ↦ absurd (ground arith)
          | inl (d, good) ↦
              let same : commitments ≡ emitted ++ d.0 ∷ [] = ground arith in
              let rest : us ≡ left = ground arith in
              let front : (if c.has_unshield then init commitments else commitments) ≡ emitted =
                rw (e, same) (init-snoc emitted d.0) in
              inr (u, d, e, ap (λ t. u ∷ t) rest, good, rw front same, ground arith)
        ]
      ]

  -- What holds of the loop's result, from an offset on.
  record Splits (n : ℕ) (unshields : List (Unshield lib)) (configs : List TxConfig)
      (ns : List (ℕ × List Bytes)) (hashes : List Bytes) (offset : ℕ)
      (made : List (ℕ × DecodedRailgunTransaction) × ℕ) : Type 0 where
    follows : Follows n configs ns made.0
    parts : all_emitted made.0 ++ drop made.1 hashes ≡ drop offset hashes
    txids : All HasTxid made.0
    takes : Takes unshields made.0

  config_transactions-Splits :
      (frame : ActionFrame lib) (hashes : List Bytes) (log_index i offset : ℕ)
      (unshields : List (Unshield lib)) (configs : List TxConfig) (ns : List (ℕ × List Bytes))
      (made : List (ℕ × DecodedRailgunTransaction) × ℕ)
      → config_transactions lib summary frame hashes log_index i offset unshields configs ns
        ≡ ok made
      → Splits (frame.record_base + i) unshields configs ns hashes offset made
  unfolding config_transactions
  config_transactions-Splits frame hashes log_index i offset unshields [] ns made h =
      let same : ([], offset) ≡ made = ground arith in
      rw (sym same) (record { follows = refl; parts = refl; txids = tt; takes = tt })
  config_transactions-Splits frame hashes log_index i offset unshields (c ∷ cs) [] made h =
      let same : ([], offset) ≡ made = ground arith in
      rw (sym same) (record { follows = refl; parts = refl; txids = tt; takes = tt })
  config_transactions-Splits frame hashes log_index i offset unshields (c ∷ cs) ((tree, nulls) ∷ ns)
        made h =
      let overflow = integer_overflow (codes "action_commitment_offset") in
      let (count, e1, h1) =
        bind-parts (ok_or (try_narrow u64_mod c.commitments_count) overflow) _ made h in
      let (end, e2, h2) = bind-parts (ok_or (checked_add offset count) overflow) _ made h1 in
      let (emitted, e3, h3) = bind-parts (ok_or (slice hashes offset end) _) _ made h2 in
      let (taken, e4, h4) =
        bind-parts (take_unshield lib summary frame c emitted unshields) _ made h3 in
      let (later, e5, h5) =
        bind-parts
          (config_transactions lib summary frame hashes log_index (i + 1) end taken.1.1 cs ns) _
          made h4 in
      let counted : count ≡ c.commitments_count = ground arith in
      let ends : end ≡ offset + count = ground arith in
      let found : slice hashes offset end ≡ some emitted =
        ok_or-parts (slice hashes offset end) _ emitted e3 in
      let (emitted_is, fits) = slice-parts hashes offset count emitted (rw ends at found) in
      let whole : (if c.has_unshield then init taken.0 else taken.0) ≡ emitted =
        take_unshield-parts frame c emitted taken.0 unshields taken.1.1 taken.1.0 e4 in
      let one =
        take_unshield-TakesOne frame c tree nulls emitted taken.0 unshields taken.1.1 taken.1.0
          e4 in
      let rest =
        config_transactions-Splits frame hashes log_index (i + 1) end taken.1.1 cs ns later e5 in
      let same : (
        (frame.record_base + i, record_of lib c tree nulls taken.0 taken.1.0) ∷ later.0,
        later.1,
      )
          ≡ made =
        ground arith in
      let size : length (if c.has_unshield then init taken.0 else taken.0) ≡ c.commitments_count =
        rw (whole, emitted_is)
          (length-take count (drop offset hashes) (omega (arith, fits, length-drop offset hashes))
            ∙ counted) in
      let from_end : drop end hashes ≡ drop count (drop offset hashes) =
        rw ends (drop_add offset count hashes) in
      let parts : ((if c.has_unshield then init taken.0 else taken.0) ++ all_emitted later.0)
            ++ drop later.1 hashes
          ≡ drop offset hashes =
        append_assoc _ (all_emitted later.0) (drop later.1 hashes)
        ∙ rw (whole, rest.parts, from_end, emitted_is) (take-drop count (drop offset hashes)) in
      let next : frame.record_base + i + 1 ≡ frame.record_base + (i + 1) = omega arith in
      rw (sym same) (record {
        follows = (refl, (refl, (refl, (refl, (refl, (size, rw next rest.follows))))));
        parts = parts;
        txids = (refl, rest.txids);
        takes = (taken.1.1, one, rest.takes);
      })

  -- If the transactions of a Railgun call are made, they are numbered from the call's first number on;
  -- each has the tree, the nullifiers and the data of its configuration and as many commitments of the
  -- Transact log as that says; together they have exactly the commitments of the Transact log, in order;
  -- each with an unshield takes the call's next one, and has after these the commitment derived from it,
  -- and its preimage; one without has no preimage; and the TXID of each is that of its parts.
  pub transactions_from_action_frame-IsSplit :
      (frame : ActionFrame lib) (hashes : List Bytes) (log_index : ℕ)
      (txs : List (ℕ × DecodedRailgunTransaction))
      → transactions_from_action_frame lib summary frame hashes log_index ≡ ok txs
      → IsSplit frame hashes txs
  unfolding transactions_from_action_frame
  transactions_from_action_frame-IsSplit frame hashes log_index txs h =
      elim (Bool-cases (ltb 0 (pending_unshields lib frame))) [
        | inl waits ↦ absurd (ground arith)
        | inr complete ↦
            let (made, e, k) =
              bind-parts
                (config_transactions lib summary frame hashes log_index 0 0 frame.unshields
                  frame.configs frame.nullified)
                _ txs (rw complete at h) in
            let splits =
              config_transactions-Splits frame hashes log_index 0 0 frame.unshields frame.configs
                frame.nullified made e in
            let consumed : made.1 ≡ length hashes = ground arith in
            let same : made.0 ≡ txs = ground arith in
            let ending : all_emitted made.0 ++ drop made.1 hashes ≡ hashes = splits.parts in
            let gone : drop made.1 hashes ≡ [] = rw consumed (drop_all hashes) in
            let base : frame.record_base + 0 ≡ frame.record_base = omega arith in
            rw (sym same) (record {
              follows = rw base at splits.follows;
              whole = sym (append-nil (all_emitted made.0)) ∙ (rw gone at ending);
              txids = splits.txids;
              unshields = splits.takes;
            })
      ]
