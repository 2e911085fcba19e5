-- ===== src/ChainLogs/Actions/Unshields.antt =====
-- The commitments of unshields, taken from calldata (crates/railgun-indexer-core/src/chain_logs.rs). The
-- transactions that the calldata decodes to are an argument.
pub mod Resolves
use railgun_indexer.Prelude.{
  ℕ, ◌+◌, ◌==◌, not, ◌&&◌, ◌||◌, ◌≡◌, refl, sym, List, [], ◌∷◌, ◌++◌, length, Option, none, some,
  Bool, true, false, Result, ok, err, ◌>>=◌, ◌>>◌, if◌then◌else◌, text_eq, text_eq→eq, Text, codes,
  is_empty, arith, Bool-cases, Option-cases, Result-cases, bind-parts, inl, inr,
}
use railgun_indexer.Codec.{Bytes}
use railgun_indexer.ChainLogs.{
  ChainLib, TransactOutputSummary, DecodedRailgunTransaction, ChainLogIngestionError,
  ambiguous_unshield_calldata, contradicting_unshield_calldata, Ingested,
}
use railgun_indexer.ChainLogs.Actions.{railgun_txid_from_parts, list_eq}

-- A transaction of the calldata: what is read of it.
pub record CalldataTransaction : Type 0 where
  pub nullifiers : List Bytes
  pub commitments : List Bytes
  pub unshield : ℕ
  pub tree_number : ℕ
  pub unshield_preimage : Bytes

-- The last element, and those before.
abbrev pub split_last : List Bytes → Option (Bytes × List Bytes)
split_last [] = none
split_last (x ∷ rest) = elim (split_last rest) [
  | none ↦ some (x, [])
  | some split ↦ some (split.0, x ∷ split.1)
]

abbrev pub with_nullifiers : List Bytes → List CalldataTransaction → List CalldataTransaction
with_nullifiers nullifiers [] = []
with_nullifiers nullifiers (t ∷ rest) =
    let later = with_nullifiers nullifiers rest in
    if list_eq t.nullifiers nullifiers then t ∷ later else later

abbrev pub any_without_nullifiers : List CalldataTransaction → Bool
any_without_nullifiers [] = false
any_without_nullifiers (t ∷ rest) = is_empty t.nullifiers || any_without_nullifiers rest

abbrev pub Frames : Type 0
Frames = List (Option ℕ × List (ℕ × DecodedRailgunTransaction))

abbrev count_rows : List (ℕ × DecodedRailgunTransaction) → ℕ
count_rows [] = 0
count_rows (t ∷ rest) = (if t.1.has_unshield then 1 else 0) + count_rows rest

abbrev pub count_unshield_rows : Frames → ℕ
count_unshield_rows [] = 0
count_unshield_rows (f ∷ rest) = count_rows f.1 + count_unshield_rows rest

module _ (lib : ChainLib) (summary : TransactOutputSummary) where
  abbrev contradiction : Text → ChainLogIngestionError
  contradiction field =
      contradicting_unshield_calldata summary.source.transaction_hash summary.source.block_number
        field

  -- The row with the calldata's last commitment, and whether it differs.
  unfoldable pub replace_derived :
      DecodedRailgunTransaction
      → CalldataTransaction
      → List Bytes
      → Bytes
      → Bytes
      → DecodedRailgunTransaction × ℕ
  replace_derived row matched logged derived committed =
      if text_eq derived committed
      then (record row { unshield_preimage = some matched.unshield_preimage }, 0)
      else (
        record row {
          commitments = logged ++ committed ∷ [];
          unshield_preimage = some matched.unshield_preimage;
          railgun_txid =
              railgun_txid_from_parts lib row.nullifiers (logged ++ committed ∷ [])
                row.bound_params_hash;
        },
        1,
      )

  unfoldable pub check_commitments :
      DecodedRailgunTransaction
      → CalldataTransaction
      → Option (Bytes × List Bytes)
      → Option (Bytes × List Bytes)
      → Ingested (DecodedRailgunTransaction × ℕ)
  check_commitments row matched none own = err (contradiction (codes "commitments"))
  check_commitments row matched (some calldata) none = err (contradiction (codes "commitments"))
  check_commitments row matched (some (committed, accumulated)) (some (derived, logged)) =
      if list_eq logged accumulated
      then ok (replace_derived row matched logged derived committed)
      else err (contradiction (codes "commitments"))

  unfoldable pub resolve_with :
      DecodedRailgunTransaction
      → List CalldataTransaction
      → Ingested (DecodedRailgunTransaction × ℕ)
  resolve_with row [] =
      err
        (ambiguous_unshield_calldata summary.source.transaction_hash summary.source.block_number 0)
  resolve_with row (matched ∷ []) =
      if matched.unshield == 0
      then err (contradiction (codes "unshield type"))
      else if not (matched.tree_number == row.utxo_tree_in)
      then err (contradiction (codes "tree number"))
      else check_commitments row matched (split_last matched.commitments)
          (split_last row.commitments)
  resolve_with row (t ∷ u ∷ rest) = err (
      ambiguous_unshield_calldata summary.source.transaction_hash summary.source.block_number
        (2 + length rest))

  -- The body of the loop, for a row with an unshield.
  unfoldable pub resolve_row :
      List CalldataTransaction
      → DecodedRailgunTransaction
      → Ingested (DecodedRailgunTransaction × ℕ)
  resolve_row calldata row =
      if not row.has_unshield
      then ok (row, 0)
      else if is_empty row.nullifiers
      then err (contradiction (codes "nullifiers"))
      else resolve_with row (with_nullifiers row.nullifiers calldata)

  unfoldable pub resolve_rows :
      List CalldataTransaction
      → List (ℕ × DecodedRailgunTransaction)
      → Ingested (List (ℕ × DecodedRailgunTransaction) × ℕ)
  resolve_rows calldata [] = ok ([], 0)
  resolve_rows calldata ((n, row) ∷ rest) = do
    resolved ← resolve_row calldata row
    later ← resolve_rows calldata rest
    ok ((n, resolved.0) ∷ later.0, resolved.1 + later.1)

  unfoldable pub resolve_frames : List CalldataTransaction → Frames → Ingested (Frames × ℕ)
  resolve_frames calldata [] = ok ([], 0)
  resolve_frames calldata ((i, rows) ∷ rest) = do
    resolved ← resolve_rows calldata rows
    later ← resolve_frames calldata rest
    ok ((i, resolved.0) ∷ later.0, resolved.1 + later.1)

  -- The frames, the log derivations that are kept, and those that differ.
  unfoldable pub resolve_unshield_commitments :
      List CalldataTransaction → Frames → Ingested (Frames × (ℕ × ℕ))
  resolve_unshield_commitments calldata frames =
      if is_empty calldata
      then ok (frames, (count_unshield_rows frames, 0))
      else if any_without_nullifiers calldata
      then err (contradiction (codes "nullifiers"))
      else do resolved ← resolve_frames calldata frames; ok (resolved.0, (0, resolved.1))
