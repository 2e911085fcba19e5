-- ===== src/ChainLogs/Outputs/Rows/Sequential.antt =====
-- Summaries without legacy logs and calls (crates/railgun-indexer-core/src/chain_logs.rs).
use railgun_indexer.Prelude.{
  ℕ, ◌+◌, ◌≤◌, ◌&&◌, ◌≡◌, refl, sym, ◌∙◌, List, [], ◌∷◌, length, get_elem?, some, true, false, ok,
  arith, bind-parts, ok_or, try_narrow, u64_mod, u64_max, codes, is_empty,
}
use railgun_indexer.ChainLogs.{
  ChainLib, EmittedOutputCommitment, TransactOutputSummary, DecodedRailgunTransaction,
  integer_overflow,
}
use railgun_indexer.ChainLogs.Positions.{normalized_global_position}
use railgun_indexer.ChainLogs.Outputs.{
  IndexedPublicTransaction, is_legacy_transact, is_relay, global_of, matched_output_start_global,
}
use railgun_indexer.ChainLogs.Outputs.Rows.{
  any_legacy_output, any_legacy_transact, MatchState, no_matches, RowMatch, row_of,
  match_sequential, match_transaction, output_position, transaction_row, transaction_rows,
  insert_output, sort_outputs, public_transactions_from_decoded,
}
use railgun_indexer.ChainLogs.Outputs.Rows.Consumes.{
  Consumes, hashes_from, StartsAt, matched-Sequential,
}

module _ (lib : ChainLib) where
  -- The row's position is that of the next output, if there is one.
  abbrev pub PlacedAt : List EmittedOutputCommitment → ℕ → IndexedPublicTransaction → Type 0
  PlacedAt outputs index r =
      (o : EmittedOutputCommitment)
      → get_elem? outputs index ≡ some o
      → (g : ℕ) × (global_of lib o ≡ ok g)
        × (normalized_global_position lib g ≡ ok (r.utxo_tree_out, r.utxo_batch_start_position_out))

  -- From the output with an index to another, each transaction finds the next outputs among its
  -- commitments.
  abbrev pub AreSequential :
      List EmittedOutputCommitment
      → ℕ
      → List DecodedRailgunTransaction
      → List IndexedPublicTransaction
      → ℕ
      → Type 0
  AreSequential outputs i [] rows j = (rows ≡ []) × (i ≡ j)
  AreSequential outputs i (t ∷ ts) [] j = false ≡ true
  AreSequential outputs i (t ∷ ts) (r ∷ rows) j =
      (k : ℕ) × (Consumes (hashes_from outputs i) t.commitments (hashes_from outputs k)
        × (PlacedAt outputs i r × AreSequential outputs k ts rows j))

  insert-legacy :
      (o : EmittedOutputCommitment) (outputs : List EmittedOutputCommitment)
      → any_legacy_output (insert_output lib o outputs) ≡ any_legacy_output (o ∷ outputs)
  unfolding insert_output
  insert-legacy o [] = refl
  insert-legacy o (p ∷ rest) = let later = insert-legacy o rest in ground arith

  sort-legacy :
      (outputs : List EmittedOutputCommitment)
      → any_legacy_output (sort_outputs lib outputs) ≡ any_legacy_output outputs
  unfolding sort_outputs
  sort-legacy [] = refl
  sort-legacy (o ∷ rest) =
      let later = sort-legacy rest in ground (arith, insert-legacy o (sort_outputs lib rest))

  insert-length :
      (o : EmittedOutputCommitment) (outputs : List EmittedOutputCommitment)
      → length (insert_output lib o outputs) ≡ length outputs + 1
  unfolding insert_output
  insert-length o [] = omega arith
  insert-length o (p ∷ rest) = let later = insert-length o rest in ground arith

  sort-length :
      (outputs : List EmittedOutputCommitment) → length (sort_outputs lib outputs) ≡ length outputs
  unfolding sort_outputs
  sort-length [] = refl
  sort-length (o ∷ rest) = omega (arith, insert-length o (sort_outputs lib rest), sort-length rest)

  module _ (summary : TransactOutputSummary) (outputs : List EmittedOutputCommitment) where
    match_transaction-sequential :
        (s : MatchState) (t : DecodedRailgunTransaction) (n : ℕ) (m : RowMatch)
        → any_legacy_output outputs ≡ false
        → is_legacy_transact t.call_kind ≡ false
        → match_transaction lib summary outputs s t n ≡ ok m
        → (matched_output_start_global lib summary outputs s.emitted_index t n
            ≡ ok (m.output_match, m.after.emitted_index))
          × (m.after.uses_non_sequential_output_mapping ≡ s.uses_non_sequential_output_mapping)
    unfolding match_transaction match_sequential
    match_transaction-sequential s t n m modern kind h =
        let no_relay : (is_relay t.call_kind && any_legacy_output outputs) ≡ false = ground arith in
        let plain : match_sequential lib summary outputs s t n ≡ ok m = rw (kind, no_relay) at h in
        let (found, e, k) =
          bind-parts (matched_output_start_global lib summary outputs s.emitted_index t n) _ m
            plain in
        let start : found.0 ≡ m.output_match = ground arith in
        let next : found.1 ≡ m.after.emitted_index = ground arith in
        (rw (sym start, sym next) e, ground arith)

    not_empty :
        (i : ℕ) (o : EmittedOutputCommitment)
        → get_elem? outputs i ≡ some o
        → is_empty outputs ≡ false
    not_empty i o e =
        elim outputs as (λ l. get_elem? l i ≡ some o → is_empty l ≡ false) [
          | [] ↦ λ bad. absurd (ground arith)
          | p ∷ rest ↦ λ good. refl
        ]
          e

    position-PlacedAt :
        (block_timestamp index n i : ℕ) (t : DecodedRailgunTransaction) (m : RowMatch)
        (position : ℕ × ℕ)
        → StartsAt lib outputs i m.output_match.output_start
        → output_position lib summary outputs t m.output_match ≡ ok position
        → PlacedAt outputs i (row_of lib summary outputs block_timestamp t n index m position)
    unfolding output_position
    position-PlacedAt block_timestamp index n i t m position starts h o e =
        (m.output_match.output_start, starts o e, rw (not_empty i o e) at h)

    rows-AreSequential :
        (block_timestamp : ℕ) (s : MatchState) (n : ℕ) (ts : List DecodedRailgunTransaction)
        (made : List IndexedPublicTransaction × MatchState)
        → length outputs ≤ u64_max
        → any_legacy_output outputs ≡ false
        → any_legacy_transact ts ≡ false
        → transaction_rows lib summary outputs block_timestamp s n ts ≡ ok made
        → AreSequential outputs s.emitted_index ts made.0 made.1.emitted_index
          × (made.1.uses_non_sequential_output_mapping ≡ s.uses_non_sequential_output_mapping)
    unfolding transaction_rows transaction_row
    rows-AreSequential block_timestamp s n [] made few modern kinds h =
        let same : ([], s) ≡ made = ground arith in rw (sym same) ((refl, refl), refl)
    rows-AreSequential block_timestamp s n (t ∷ ts) made few modern kinds h =
        let (row, e1, h1) =
          bind-parts (transaction_row lib summary outputs block_timestamp s t n) _ made h in
        let (later, e2, h2) =
          bind-parts (transaction_rows lib summary outputs block_timestamp row.1 (n + 1) ts) _ made
            h1 in
        let (m, f1, k1) = bind-parts (match_transaction lib summary outputs s t n) _ row e1 in
        let (position, f2, k2) =
          bind-parts (output_position lib summary outputs t m.output_match) _ row k1 in
        let (index, f3, k3) =
          bind-parts
            (ok_or (try_narrow u64_mod n) (integer_overflow (codes "railgun_transaction_index"))) _
            row k2 in
        let (found, flag) = match_transaction-sequential s t n m modern (ground arith) f1 in
        let (consumes, starts) =
          matched-Sequential lib outputs summary s.emitted_index t n
            (m.output_match, m.after.emitted_index) few modern found in
        let (rest, later_flag) =
          rows-AreSequential block_timestamp row.1 (n + 1) ts later few modern (ground arith) e2 in
        let made_is : (row.0 ∷ later.0, later.1) ≡ made = ground arith in
        let row_is : row_of lib summary outputs block_timestamp t n index m position ≡ row.0 =
          ground arith in
        let after_is : m.after ≡ row.1 = ground arith in
        rw (sym made_is) (
          (
            row.1.emitted_index,
            (
              rw after_is at consumes,
              (
                rw (sym row_is) (
                    position-PlacedAt block_timestamp index n s.emitted_index t m position starts
                      f2),
                rest,
              ),
            ),
          ),
          ground arith,
        )

  -- If the rows of a summary are made whose logs and calls are not legacy ones, then its outputs, sorted
  -- by position, are all found in order among the commitments of the transactions, and each row has the
  -- position of the next output that is not found yet, if there is one.
  pub public_transactions_from_decoded-AreSequential :
      (summary : TransactOutputSummary) (block_timestamp : ℕ) (ts : List DecodedRailgunTransaction)
      (rows : List IndexedPublicTransaction)
      → length summary.output_commitments ≤ u64_max
      → any_legacy_output summary.output_commitments ≡ false
      → any_legacy_transact ts ≡ false
      → public_transactions_from_decoded lib summary block_timestamp ts ≡ ok rows
      → AreSequential
          (sort_outputs lib summary.output_commitments)
          0
          ts
          rows
          (length (sort_outputs lib summary.output_commitments))
  unfolding public_transactions_from_decoded
  public_transactions_from_decoded-AreSequential summary block_timestamp ts rows few modern kinds
        h =
      let outputs = sort_outputs lib summary.output_commitments in
      let (made, e, k) =
        bind-parts (transaction_rows lib summary outputs block_timestamp no_matches 0 ts) _ rows
          h in
      let small : length outputs ≤ u64_max =
        omega (arith, few, sort-length summary.output_commitments) in
      let plain : any_legacy_output outputs ≡ false =
        sort-legacy summary.output_commitments ∙ modern in
      let (all, flag) =
        rows-AreSequential summary outputs block_timestamp no_matches 0 ts made small plain kinds
          e in
      let same : made.0 ≡ rows = ground arith in
      let over : made.1.emitted_index ≡ length outputs = ground arith in rw (sym same, sym over) all
