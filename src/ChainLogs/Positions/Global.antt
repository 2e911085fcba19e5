-- ===== src/ChainLogs/Positions/Global.antt =====
-- The global position of a leaf (crates/railgun-indexer-core/src/chain_logs.rs).
use native.Mathlib.Nat.{mod-lt, div-add-mod', add-mul}
use railgun_indexer.Prelude.{
  ℕ, ◌+◌, ◌/◌, ◌%◌, ◌<◌, ◌≡◌, sym, ok, ok_or, checked_add, try_narrow, u32_mod, u64_mod, codes,
  bind-parts, arith,
}
use railgun_indexer.ChainLogs.{ChainLib, integer_overflow}
use railgun_indexer.ChainLogs.Positions.{
  normalize_tree_position, normalized_event_position, comparable_global_tree_position,
}

module _ (lib : ChainLib) where
  normalize_lem :
      (tree_number position : ℕ) (place : ℕ × ℕ)
      → 0 < lib.tree_leaf_count
      → normalize_tree_position lib tree_number position ≡ ok place
      → (comparable_global_tree_position lib place.0 place.1
          ≡ comparable_global_tree_position lib tree_number position)
        × (place.1 < lib.tree_leaf_count)
  unfolding normalize_tree_position comparable_global_tree_position
  normalize_lem tree_number position place some_leaves h =
      let e = integer_overflow (codes "tree_number") in
      let q = position / lib.tree_leaf_count in
      let (a, e1, h1) = bind-parts (ok_or (try_narrow u32_mod q) e) _ place h in
      let (b, e2, h2) = bind-parts (ok_or (try_narrow u32_mod (tree_number + a)) e) _ place h1 in
      let same : (b, position % lib.tree_leaf_count) ≡ place = ground arith in
      let increment : q ≡ a = ground arith in
      let number : tree_number + a ≡ b = ground arith in
      rw (sym same, sym number, sym increment)
        (
          omega (
            arith,
            add-mul tree_number q lib.tree_leaf_count,
            div-add-mod' position lib.tree_leaf_count,
          ),
          mod-lt position some_leaves,
        )

  -- The commitment with an index in a log lies as many leaves behind the log's start, in whatever tree,
  -- and its position is one of a tree.
  pub normalized_event_position_lem :
      (tree_number start_position index : ℕ) (place : ℕ × ℕ)
      → 0 < lib.tree_leaf_count
      → normalized_event_position lib tree_number start_position index ≡ ok place
      → (comparable_global_tree_position lib place.0 place.1
          ≡ comparable_global_tree_position lib tree_number start_position + index)
        × (place.1 < lib.tree_leaf_count)
  unfolding normalized_event_position comparable_global_tree_position
  normalized_event_position_lem tree_number start_position index place some_leaves h =
      let (i, e1, h1) =
        bind-parts (ok_or (try_narrow u64_mod index) (integer_overflow (codes "event_index"))) _
          place h in
      let (position, e2, h2) =
        bind-parts (ok_or (checked_add start_position i) (integer_overflow (codes "tree_position")))
          _ place h1 in
      let same : i ≡ index = ground arith in
      let sum : position ≡ start_position + i = ground arith in
      let (whole, small) = normalize_lem tree_number position place some_leaves h2 in
      (omega (arith, whole, same, sum), small)
