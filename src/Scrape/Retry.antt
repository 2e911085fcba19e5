-- ===== src/Scrape/Retry.antt =====
-- Bounded retries with exponential backoff (crates/railgun-indexer-core/src/scrape/retry.rs).
-- A `Duration` is its number of nanoseconds.
pub mod Backoff
pub mod Budget
use railgun_indexer.Prelude.{
  ℕ, zero, suc, ◌+◌, ◌-◌, ◌*◌, min, List, [], ◌∷◌, ◌++◌, Option, none, some, leb, ◌==◌,
  if◌then◌else◌, u64_mod, Result, ok, err,
}

-- `Duration::MAX` is u64::MAX seconds and 999,999,999 nanoseconds.
abbrev pub duration_max : ℕ
duration_max = u64_mod * 1_000_000_000 - 1

pub record RetryPolicy : Type 0 where
  pub budget : ℕ
  pub base_delay : ℕ
  pub max_delay : ℕ

-- The rounds of the `for` loop: it returns early once the delay has reached the maximum.
double_delay : ℕ → ℕ → ℕ → ℕ
double_delay max_delay zero delay = min delay max_delay
double_delay max_delay (suc rounds) delay =
    let delay' = min (delay * 2) duration_max in
    let rest = double_delay max_delay rounds delay' in
    if leb max_delay delay' then max_delay else rest

unfoldable pub backoff_delay : RetryPolicy → ℕ → ℕ
unfolding double_delay
backoff_delay policy attempt = double_delay policy.max_delay attempt policy.base_delay

pub data RetryError (E : Type 0) : Type 0 where
  no_attempts_configured : RetryError E
  budget_exhausted : ℕ → E → RetryError E

-- What a call of `retry_with_backoff` did: its result, how often it called `op`, and the delays
-- that it slept between the calls, in order.
pub record Retried (E T : Type 0) : Type 0 where
  pub result : Result (RetryError E) T
  pub calls : ℕ
  pub delays : List ℕ

module _ {E T : Type 0} (policy : RetryPolicy) (op : ℕ → Result E T) where
  -- The `loop`; `op n` is the outcome of the n-th call, and `none` means that the fuel ran out.
  retry_loop : ℕ → ℕ → List ℕ → Option (Retried E T)
  retry_loop zero attempts delays = none
  retry_loop (suc fuel) attempts delays =
      let attempts' = attempts + 1 in
      elim (op attempts') [
        | ok value ↦ some (record { result = ok value; calls = attempts'; delays = delays })
        | err source ↦
            let again =
              retry_loop fuel attempts' (delays ++ backoff_delay policy (attempts' - 1) ∷ []) in
            if leb policy.budget attempts'
            then some (record {
              result = err (budget_exhausted attempts' source);
              calls = attempts';
              delays = delays;
            })
            else again
      ]

  pub retry_with_backoff : Option (Retried E T)
  unfolding retry_loop
  retry_with_backoff =
      if policy.budget == 0
      then some (record { result = err no_attempts_configured; calls = 0; delays = [] })
      else retry_loop policy.budget 0 []
