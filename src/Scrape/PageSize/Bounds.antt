-- ===== src/Scrape/PageSize/Bounds.antt =====
-- The range of the page size (crates/railgun-indexer-core/src/scrape/page_size.rs).
use railgun_indexer.Prelude.{ℕ, ◌≤◌, ◌<◌, ◌≡◌, ◌⊎◌, List, [], ◌∷◌, Bool, true, false, arith}
use railgun_indexer.Scrape.PageSize.{PageSizeAdapter, new, on_success, on_failure, run}

pub record IsValid (a : PageSizeAdapter) : Type 0 where
  pub positive : 1 ≤ a.min_size
  pub above : a.min_size ≤ a.current_size
  pub below : a.current_size ≤ a.max_size
  pub capped : a.max_size ≤ 100
  pub counting : (a.consecutive_successes < 2) ⊎ (a.current_size ≡ a.max_size)

pub new-IsValid : (current max_size min_size : ℕ) → IsValid (new current max_size min_size)
unfolding new
new-IsValid c m n = ground arith

pub on_success-IsValid : (a : PageSizeAdapter) → IsValid a → IsValid (on_success a)
unfolding on_success
on_success-IsValid a v = ground arith

pub on_failure-IsValid : (a : PageSizeAdapter) → IsValid a → IsValid (on_failure a)
unfolding on_failure
on_failure-IsValid a v = ground arith

-- From a valid adapter, whatever pages succeed and fail, the adapter stays valid: the page size is
-- at least 1, between the configured minimum and maximum, and never above 100.
pub run-IsValid :
    (a : PageSizeAdapter) (outcomes : List Bool) → IsValid a → IsValid (run a outcomes)
unfolding run
run-IsValid a [] v = v
run-IsValid a (true ∷ rest) v = run-IsValid (on_success a) rest (on_success-IsValid a v)
run-IsValid a (false ∷ rest) v = run-IsValid (on_failure a) rest (on_failure-IsValid a v)
