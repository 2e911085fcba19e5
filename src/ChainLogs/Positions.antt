-- ===== src/ChainLogs/Positions.antt =====
-- Positions in the trees of commitments (crates/railgun-indexer-core/src/chain_logs.rs). A global position
-- counts the leaves of all trees.
pub mod Global
use railgun_indexer.Prelude.{
  ℕ, ◌+◌, ◌*◌, ◌/◌, ◌%◌, ◌≤◌, ◌<◌, ◌≡◌, refl, Option, none, some, Result, ok, err, ◌>>=◌, ok_or,
  checked_add, checked_mul, try_narrow, u32_mod, u64_mod, codes, Result-cases, inl, inr, arith, ltb,
  if◌then◌else◌, true, false,
}
use railgun_indexer.ChainLogs.{ChainLib, ChainLogIngestionError, integer_overflow, Ingested}

module _ (lib : ChainLib) where
  open lib use {tree_leaf_count}

  -- A tree number is a u32.
  unfoldable pub normalize_tree_position : ℕ → ℕ → Ingested (ℕ × ℕ)
  normalize_tree_position tree_number tree_position = do
    increment ←
        ok_or (try_narrow u32_mod (tree_position / tree_leaf_count))
          (integer_overflow (codes "tree_number"))
    number ←
        ok_or (try_narrow u32_mod (tree_number + increment))
          (integer_overflow (codes "tree_number"))
    ok (number, tree_position % tree_leaf_count)

  unfoldable pub normalized_event_position : ℕ → ℕ → ℕ → Ingested (ℕ × ℕ)
  normalized_event_position tree_number start_position index = do
    index ← ok_or (try_narrow u64_mod index) (integer_overflow (codes "event_index"))
    position ← ok_or (checked_add start_position index) (integer_overflow (codes "tree_position"))
    normalize_tree_position tree_number position

  unfoldable pub normalized_global_position : ℕ → Ingested (ℕ × ℕ)
  normalized_global_position global_position = normalize_tree_position 0 global_position

  unfoldable pub global_tree_position : ℕ → ℕ → Ingested ℕ
  global_tree_position tree_number tree_position = do
    tree_start ←
        ok_or (checked_mul tree_number tree_leaf_count)
          (integer_overflow (codes "global_tree_position"))
    ok_or (checked_add tree_start tree_position) (integer_overflow (codes "global_tree_position"))

  unfoldable pub comparable_global_tree_position : ℕ → ℕ → ℕ
  comparable_global_tree_position tree_number tree_position =
      tree_number * tree_leaf_count + tree_position
