-- ===== src/Scrape/PageSize.antt =====
-- The adaptive page size (crates/railgun-indexer-core/src/scrape/page_size.rs). A method that takes
-- `&mut self` returns the new adapter; counters are `usize` and wrap.
pub mod Bounds
pub mod Progress
use railgun_indexer.Prelude.{
  ℕ, ◌+◌, ◌/◌, ◌%◌, min, max, List, [], ◌∷◌, Bool, true, false, ◌||◌, ltb, ◌==◌, if◌then◌else◌,
  u64_mod, saturating_mul,
}

abbrev pub upstream_max_page_size : ℕ
upstream_max_page_size = 100

abbrev pub grow_after_successes : ℕ
grow_after_successes = 2

-- `usize::clamp`
abbrev clamp : ℕ → ℕ → ℕ → ℕ
clamp x lo hi = if ltb x lo then lo else if ltb hi x then hi else x

pub record PageSizeAdapter : Type 0 where
  pub current_size : ℕ
  pub max_size : ℕ
  pub min_size : ℕ
  pub consecutive_successes : ℕ
  pub consecutive_failures : ℕ

unfoldable pub new : ℕ → ℕ → ℕ → PageSizeAdapter
new current_size max_size min_size =
    let max_size' = clamp max_size 1 upstream_max_page_size in
    let min_size' = clamp min_size 1 max_size' in
    let current_size' = clamp current_size min_size' max_size' in
    record {
      current_size = current_size';
      max_size = max_size';
      min_size = min_size';
      consecutive_successes = 0;
      consecutive_failures = 0;
    }

unfoldable pub on_success : PageSizeAdapter → PageSizeAdapter
on_success a =
    let successes = (a.consecutive_successes + 1) % u64_mod in
    if ltb successes grow_after_successes || (a.current_size == a.max_size)
    then record a { consecutive_successes = successes; consecutive_failures = 0 }
    else record a {
      current_size = min (saturating_mul a.current_size 2) a.max_size;
      consecutive_successes = 0;
      consecutive_failures = 0;
    }

unfoldable pub on_failure : PageSizeAdapter → PageSizeAdapter
on_failure a = record a {
  current_size = max (a.current_size / 2) a.min_size;
  consecutive_successes = 0;
  consecutive_failures = (a.consecutive_failures + 1) % u64_mod;
}

-- The adapter after a sequence of page outcomes: `true` for a success.
unfoldable pub run : PageSizeAdapter → List Bool → PageSizeAdapter
run a [] = a
run a (true ∷ rest) = run (on_success a) rest
run a (false ∷ rest) = run (on_failure a) rest
