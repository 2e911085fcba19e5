-- ===== src/Scrape/PageSize/Progress.antt =====
-- How fast the page size adapts (crates/railgun-indexer-core/src/scrape/page_size.rs).
use native.Mathlib.Nat.{pow-suc, one-le-pow}
use native.Mathlib.Decide.{dec_le}
use railgun_indexer.Prelude.{
  ℕ, zero, suc, ◌+◌, ◌*◌, ◌^◌, ◌≤◌, ◌<◌, ◌≡◌, true, false, min, max, ◌/◌, arith, replicate, ◌≢◌,
  ◌∙◌,
}
use railgun_indexer.Scrape.PageSize.{PageSizeAdapter, on_success, on_failure, run}
use railgun_indexer.Scrape.PageSize.Bounds.{IsValid, on_success-IsValid, on_failure-IsValid}

-- A failure that leaves the size alone happens only at the minimum; any other shrinks it.
pub on_failure_shrinks :
    (a : PageSizeAdapter)
    → IsValid a
    → (a.current_size ≢ (on_failure a).current_size → (on_failure a).current_size < a.current_size)
      × (a.current_size ≡ (on_failure a).current_size → a.current_size ≡ a.min_size)
unfolding on_failure
on_failure_shrinks a v = (λ h. ground arith, λ h. ground arith)

on_success_twice :
    (a : PageSizeAdapter)
    → IsValid a
    → (min (2 * a.current_size) a.max_size ≤ (on_success (on_success a)).current_size)
      × ((on_success (on_success a)).max_size ≡ a.max_size)
unfolding on_success
on_success_twice a v = ground arith

halved : (c m p : ℕ) → 1 ≤ m → c ≤ m * (p * 2) → 1 ≤ p → max (c / 2) m ≤ m * p
halved c m p h k u = grind arith

grown : (m x s p : ℕ) → m ≤ x * p → x ≤ s → m ≤ s * p
grown m x s p h k = grind arith

swapped : (m p : ℕ) → 1 ≤ p → m ≤ m * p
swapped m p u = grind arith

doubled : (c m s p : ℕ) → m ≤ c * (p * 2) → min (2 * c) m ≤ s → 1 ≤ p → m ≤ s * p
doubled c m s p h k u = elim (dec_le (2 * c) m) [
  | yes small ↦ grown m (2 * c) s p (omega arith) (omega arith)
  | no large ↦ grown m m s p (swapped m p u) (omega arith)
]

failures_floor :
    (n : ℕ) (a : PageSizeAdapter)
    → IsValid a
    → a.current_size ≤ a.min_size * 2 ^ n
    → (run a (replicate n false)).current_size ≡ a.min_size
unfolding run on_failure
failures_floor zero a v h = omega arith
failures_floor (suc n) a v h =
    failures_floor n (on_failure a) (on_failure-IsValid a v)
      (halved a.current_size a.min_size (2 ^ n) v.positive bound (one-le-pow n 2 (omega arith)))
  where
    bound : a.current_size ≤ a.min_size * (2 ^ n * 2)
    bound = rw pow-suc at h

successes_ceiling :
    (n : ℕ) (a : PageSizeAdapter)
    → IsValid a
    → a.max_size ≤ a.current_size * 2 ^ n
    → (run a (replicate (n + n) true)).current_size ≡ a.max_size
unfolding run
successes_ceiling zero a v h = omega arith
successes_ceiling (suc n) a v h =
    let two : suc n + suc n ≡ suc (suc (n + n)) = omega arith in
    let keep = on_success_twice a v in
    rw two (
      successes_ceiling n (on_success (on_success a))
        (on_success-IsValid (on_success a) (on_success-IsValid a v)) bound
      ∙ keep.1)
  where
    enough : a.max_size ≤ a.current_size * (2 ^ n * 2)
    enough = rw pow-suc at h

    bound : (on_success (on_success a)).max_size ≤ (on_success (on_success a)).current_size * 2 ^ n
    bound =
        let keep = on_success_twice a v in
        rw keep.1 (
          doubled a.current_size a.max_size (on_success (on_success a)).current_size (2 ^ n) enough
            keep.0 (one-le-pow n 2 (omega arith)))

-- From a valid adapter seven failures in a row bring the page size to the minimum.
pub failures_reach_min :
    (a : PageSizeAdapter) → IsValid a → (run a (replicate 7 false)).current_size ≡ a.min_size
failures_reach_min a v = failures_floor 7 a v (omega arith)

-- From a valid adapter fourteen successes in a row bring the page size to the maximum.
pub successes_reach_max :
    (a : PageSizeAdapter) → IsValid a → (run a (replicate 14 true)).current_size ≡ a.max_size
successes_reach_max a v = successes_ceiling 7 a v (omega arith)
