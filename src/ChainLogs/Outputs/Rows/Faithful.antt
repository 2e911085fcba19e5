-- ===== src/ChainLogs/Outputs/Rows/Faithful.antt =====
-- The rows of the transactions of a summary (crates/railgun-indexer-core/src/chain_logs.rs).
use railgun_indexer.Prelude.{
  ℕ, ◌+◌, ◌/◌, ◌%◌, ◌<◌, ◌&&◌, ◌≡◌, refl, sym, ◌⊎◌, inl, inr, List, [], ◌∷◌, true, false, ok, arith,
  Bool-cases, bind-parts, ok_or, try_narrow, u32_mod, u64_mod, codes, is_empty,
}
use native.Mathlib.Nat.{mod-lt}
use railgun_indexer.ChainLogs.{
  ChainLib, EmittedOutputCommitment, TransactOutputSummary, DecodedRailgunTransaction,
  integer_overflow,
}
use railgun_indexer.ChainLogs.Positions.{normalize_tree_position, normalized_global_position}
use railgun_indexer.ChainLogs.Outputs.{
  IndexedPublicTransaction, OutputMatch, modern_unshield_only_utxo, is_modern_unshield_only,
}
use railgun_indexer.ChainLogs.Outputs.Rows.{
  MatchState, no_matches, row_of, match_transaction, output_position, transaction_row,
  transaction_rows, sort_outputs, public_transactions_from_decoded,
}

module _ (lib : ChainLib) (summary : TransactOutputSummary) (block_timestamp : ℕ) where
  -- A position in a tree, or the marker of an unshield without any output.
  abbrev pub IsPlaced : DecodedRailgunTransaction → IndexedPublicTransaction → Type 0
  IsPlaced t r =
      ((r.utxo_tree_out < u32_mod) × (r.utxo_batch_start_position_out < lib.tree_leaf_count))
      ⊎ ((is_modern_unshield_only t ≡ true)
          × ((r.utxo_tree_out ≡ modern_unshield_only_utxo)
              × (r.utxo_batch_start_position_out ≡ modern_unshield_only_utxo)))

  -- The row with a number tells of a transaction.
  pub record IsRow (n : ℕ) (t : DecodedRailgunTransaction) (r : IndexedPublicTransaction)
      : Type 0 where
    pub source : r.source ≡ summary.source
    pub index : r.railgun_transaction_index ≡ n
    pub id : r.id ≡ (summary.source.transaction_hash, n)
    pub time : r.block_timestamp ≡ block_timestamp
    pub nullifiers : r.nullifiers ≡ t.nullifiers
    pub commitments : r.commitments ≡ t.commitments
    pub bound_params_hash : r.bound_params_hash ≡ t.bound_params_hash
    pub unshield : (r.has_unshield ≡ t.has_unshield) × (r.unshield_preimage ≡ t.unshield_preimage)
    pub tree_in : r.utxo_tree_in ≡ t.utxo_tree_in
    pub txid : r.railgun_txid ≡ t.railgun_txid
    pub placed : IsPlaced t r

  abbrev pub AreRows : ℕ → List DecodedRailgunTransaction → List IndexedPublicTransaction → Type 0
  AreRows n [] rows = rows ≡ []
  AreRows n (t ∷ ts) [] = false ≡ true
  AreRows n (t ∷ ts) (r ∷ rows) = IsRow n t r × AreRows (n + 1) ts rows

  normalized-bounds :
      (g : ℕ) (position : ℕ × ℕ)
      → 0 < lib.tree_leaf_count
      → normalized_global_position lib g ≡ ok position
      → (position.0 < u32_mod) × (position.1 < lib.tree_leaf_count)
  unfolding normalized_global_position normalize_tree_position
  normalized-bounds g position some_leaves h =
      let e = integer_overflow (codes "tree_number") in
      let (a, e1, h1) =
        bind-parts (ok_or (try_narrow u32_mod (g / lib.tree_leaf_count)) e) _ position h in
      let (b, e2, h2) = bind-parts (ok_or (try_narrow u32_mod (0 + a)) e) _ position h1 in
      let same : (b, g % lib.tree_leaf_count) ≡ position = ground arith in
      rw (sym same) (ground arith, mod-lt g some_leaves)

  output_position-IsPlaced :
      (outputs : List EmittedOutputCommitment) (t : DecodedRailgunTransaction) (m : OutputMatch)
      (position : ℕ × ℕ)
      → 0 < lib.tree_leaf_count
      → output_position lib summary outputs t m ≡ ok position
      → ((position.0 < u32_mod) × (position.1 < lib.tree_leaf_count))
        ⊎ ((is_modern_unshield_only t ≡ true)
            × ((position.0 ≡ modern_unshield_only_utxo) × (position.1 ≡ modern_unshield_only_utxo)))
  unfolding output_position
  output_position-IsPlaced outputs t m position some_leaves h =
      elim (Bool-cases (is_empty outputs && is_modern_unshield_only t)) [
        | inl marked ↦
            let same : (modern_unshield_only_utxo, modern_unshield_only_utxo) ≡ position =
              ground arith in
            inr (ground arith, rw (sym same) (refl, refl))
        | inr placed ↦ inl (normalized-bounds m.output_start position some_leaves (rw placed at h))
      ]

  transaction_row-IsRow :
      (outputs : List EmittedOutputCommitment) (s : MatchState) (t : DecodedRailgunTransaction)
      (n : ℕ) (made : IndexedPublicTransaction × MatchState)
      → 0 < lib.tree_leaf_count
      → transaction_row lib summary outputs block_timestamp s t n ≡ ok made
      → IsRow n t made.0
  unfolding transaction_row output_position
  transaction_row-IsRow outputs s t n made some_leaves h =
      let (m, e1, h1) = bind-parts (match_transaction lib summary outputs s t n) _ made h in
      let (position, e2, h2) =
        bind-parts (output_position lib summary outputs t m.output_match) _ made h1 in
      let (index, e3, h3) =
        bind-parts
          (ok_or (try_narrow u64_mod n) (integer_overflow (codes "railgun_transaction_index"))) _
          made h2 in
      let same : (row_of lib summary outputs block_timestamp t n index m position, m.after) ≡ made =
        ground arith in
      let numbered : index ≡ n = ground arith in
      rw (sym same) (record {
        source = refl;
        index = numbered;
        id = refl;
        time = refl;
        nullifiers = refl;
        commitments = refl;
        bound_params_hash = refl;
        unshield = (refl, refl);
        tree_in = refl;
        txid = refl;
        placed = output_position-IsPlaced outputs t m.output_match position some_leaves e2;
      })

  transaction_rows-AreRows :
      (outputs : List EmittedOutputCommitment) (s : MatchState) (n : ℕ)
      (ts : List DecodedRailgunTransaction) (made : List IndexedPublicTransaction × MatchState)
      → 0 < lib.tree_leaf_count
      → transaction_rows lib summary outputs block_timestamp s n ts ≡ ok made
      → AreRows n ts made.0
  unfolding transaction_rows
  transaction_rows-AreRows outputs s n [] made some_leaves h = ground arith
  transaction_rows-AreRows outputs s n (t ∷ ts) made some_leaves h =
      let (row, e1, h1) =
        bind-parts (transaction_row lib summary outputs block_timestamp s t n) _ made h in
      let (later, e2, h2) =
        bind-parts (transaction_rows lib summary outputs block_timestamp row.1 (n + 1) ts) _ made
          h1 in
      let same : (row.0 ∷ later.0, later.1) ≡ made = ground arith in
      rw (sym same) (
        transaction_row-IsRow outputs s t n row some_leaves e1,
        transaction_rows-AreRows outputs row.1 (n + 1) ts later some_leaves e2,
      )

  -- If the rows of a summary are made, they are those of the transactions, in order: each has the
  -- summary's source and time, its number, and the data of its transaction; and its outputs lie at a
  -- position of a tree, or, if the transaction is a single unshield, at the marker for no output.
  pub public_transactions_from_decoded-AreRows :
      (ts : List DecodedRailgunTransaction) (rows : List IndexedPublicTransaction)
      → 0 < lib.tree_leaf_count
      → public_transactions_from_decoded lib summary block_timestamp ts ≡ ok rows
      → AreRows 0 ts rows
  unfolding public_transactions_from_decoded
  public_transactions_from_decoded-AreRows ts rows some_leaves h =
      let outputs = sort_outputs lib summary.output_commitments in
      let (made, e, k) =
        bind-parts (transaction_rows lib summary outputs block_timestamp no_matches 0 ts) _ rows
          h in
      let same : made.0 ≡ rows = ground arith in
      rw (sym same) (transaction_rows-AreRows outputs no_matches 0 ts made some_leaves e)
