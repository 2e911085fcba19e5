-- ===== src/Examples/Scrape.antt =====
-- The scraper at concrete inputs (crates/railgun-indexer-core/src/scrape).
use railgun_indexer.Prelude.{
  ℕ, ◌≡◌, ◌≢◌, ◌<◌, refl, [], ◌∷◌, some, true, false, arith, Result, ok, err, dec_lt,
}
use railgun_indexer.Scrape.PageSize.{PageSizeAdapter, new, on_success, on_failure, run}
use railgun_indexer.Scrape.PageSize.Bounds.{IsValid, new-IsValid, run-IsValid}
use railgun_indexer.Scrape.PageSize.Progress.{on_failure_shrinks}
use railgun_indexer.Scrape.Retry.{RetryPolicy, retry_with_backoff, budget_exhausted}
use railgun_indexer.Scrape.Retry.Budget.{backoffs, FailsBelow, retry_first_success, retry_exhausted}

-- The adapter of the default configuration: a size of 100, never below 25.
abbrev adapter : PageSizeAdapter
adapter = new 100 100 25

run_test : (run adapter (false ∷ true ∷ true ∷ false ∷ false ∷ [])).current_size ≡ 25
unfolding new run on_success on_failure
run_test = refl

run-IsValid_example : IsValid (run adapter (false ∷ true ∷ []))
run-IsValid_example = run-IsValid adapter (false ∷ true ∷ []) (new-IsValid 100 100 25)

on_failure_shrinks_example :
    (adapter.current_size ≢ (on_failure adapter).current_size
      → (on_failure adapter).current_size < adapter.current_size)
    × (adapter.current_size ≡ (on_failure adapter).current_size
        → adapter.current_size ≡ adapter.min_size)
on_failure_shrinks_example = on_failure_shrinks adapter (new-IsValid 100 100 25)

abbrev small : PageSizeAdapter
small = new 1 100 1

-- Three attempts, 2 s after the first failure, never more than 3 s.
abbrev policy : RetryPolicy
policy = record { budget = 3; base_delay = 2_000_000_000; max_delay = 3_000_000_000 }

-- An operation that fails once and then succeeds.
op : ℕ → Result ℕ ℕ
op n = elim (dec_lt n 2) [ yes _ ↦ err n | no _ ↦ ok n ]

fails : ℕ → Result ℕ ℕ
fails n = err n

op-FailsBelow : FailsBelow policy op 2
unfolding op dec_lt
op-FailsBelow j lo hi = let one : j ≡ 1 = omega arith in (1, rw one refl)

op-two : op 2 ≡ ok 2
unfolding op dec_lt
op-two = refl

retry_first_success_example :
    retry_with_backoff policy op
    ≡ some (record { result = ok 2; calls = 2; delays = backoffs policy 1 })
retry_first_success_example =
    retry_first_success policy op 2 2 (omega arith) (omega arith) op-FailsBelow op-two

fails-FailsBelow : FailsBelow policy fails 3
unfolding fails
fails-FailsBelow j lo hi = (j, refl)

fails-three : fails 3 ≡ err 3
unfolding fails
fails-three = refl

retry_exhausted_example :
    retry_with_backoff policy fails
    ≡ some (record { result = err (budget_exhausted 3 3); calls = 3; delays = backoffs policy 2 })
retry_exhausted_example = retry_exhausted policy fails 3 (omega arith) fails-FailsBelow fails-three
