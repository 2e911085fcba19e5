-- ===== src/Scrape/Retry/Budget.antt =====
-- How often an operation is tried (crates/railgun-indexer-core/src/scrape/retry.rs).
use railgun_indexer.Prelude.{
  ℕ, zero, suc, ◌+◌, ◌-◌, ◌≤◌, ◌<◌, ◌≡◌, ◌≢◌, List, [], ◌∷◌, ◌++◌, Option, none, some, arith, leb,
  true, false, lt→not-leb, le→leb, dec_lt, Result, ok, err, ap, ◌∙◌, ◌==◌, Bool-cases, inl, inr,
}
use railgun_indexer.Scrape.Retry.{
  RetryPolicy, Retried, budget_exhausted, backoff_delay, retry_loop, retry_with_backoff,
}

-- The delays after the first n failures.
pub backoffs : RetryPolicy → ℕ → List ℕ
backoffs policy zero = []
backoffs policy (suc n) = backoffs policy n ++ backoff_delay policy n ∷ []

backoffs-add_one :
    (policy : RetryPolicy) (a : ℕ)
    → backoffs policy a ++ backoff_delay policy (a + 1 - 1) ∷ [] ≡ backoffs policy (a + 1)
unfolding backoffs
backoffs-add_one policy a =
    let back : a + 1 - 1 ≡ a = omega arith in let up : a + 1 ≡ suc a = omega arith in rw (back, up)

module _ {E T : Type 0} (policy : RetryPolicy) (op : ℕ → Result E T) where
  -- The calls below the k-th failed.
  abbrev pub FailsBelow : ℕ → Type 0
  FailsBelow k = (j : ℕ) → 1 ≤ j → j < k → (e : E) × (op j ≡ err e)

  -- A failure within the budget goes on with the next attempt.
  loop_next :
      (f a : ℕ) (e : E) (r : Option (Retried E T))
      → a + 1 < policy.budget
      → op (a + 1) ≡ err e
      → retry_loop policy op f (a + 1) (backoffs policy (a + 1)) ≡ r
      → retry_loop policy op (suc f) a (backoffs policy a) ≡ r
  unfolding retry_loop
  loop_next f a e r below bad rest =
      let more : leb policy.budget (a + 1) ≡ false = lt→not-leb _ _ below in
      rw (retry_loop, bad, more, backoffs-add_one) rest

  loop_first_success :
      (fuel a k : ℕ) (v : T)
      → a < k
      → k ≤ policy.budget
      → k ≤ a + fuel
      → FailsBelow k
      → op k ≡ ok v
      → retry_loop policy op fuel a (backoffs policy a)
        ≡ some (record { result = ok v; calls = k; delays = backoffs policy (k - 1) })
  unfolding retry_loop
  loop_first_success zero a k v lo hi enough fails good = absurd (omega arith)
  loop_first_success (suc f) a k v lo hi enough fails good = elim (dec_lt (a + 1) k) [
    | yes later ↦
        let failed = fails (a + 1) (omega arith) later in
        loop_next f a failed.0 _ (omega arith) failed.1
          (loop_first_success f (a + 1) k v later hi (omega arith) fails good)
    | no last ↦
        let here : k ≡ a + 1 = omega arith in
        let back : a + 1 - 1 ≡ a = omega arith in
        let found : op (a + 1) ≡ ok v = rw here at good in rw (retry_loop, found, here, back)
  ]

  loop_exhausted :
      (fuel a : ℕ) (e : E)
      → a < policy.budget
      → policy.budget ≤ a + fuel
      → FailsBelow policy.budget
      → op policy.budget ≡ err e
      → retry_loop policy op fuel a (backoffs policy a)
        ≡ some (record {
          result = err (budget_exhausted policy.budget e);
          calls = policy.budget;
          delays = backoffs policy (policy.budget - 1);
        })
  unfolding retry_loop
  loop_exhausted zero a e lo enough fails bad = absurd (omega arith)
  loop_exhausted (suc f) a e lo enough fails bad = elim (dec_lt (a + 1) policy.budget) [
    | yes later ↦
        let failed = fails (a + 1) (omega arith) later in
        loop_next f a failed.0 _ later failed.1
          (loop_exhausted f (a + 1) e later (omega arith) fails bad)
    | no last ↦
        let here : a + 1 ≡ policy.budget = omega arith in
        let back : policy.budget - 1 ≡ a = omega arith in
        let failed : op (a + 1) ≡ err e = ap op here ∙ bad in
        let spent : leb policy.budget (a + 1) ≡ true = le→leb _ _ (omega arith) in
        rw (retry_loop, failed, spent) (cc (here, back))
  ]

  loop_total :
      (fuel a : ℕ) (delays : List ℕ)
      → a < policy.budget
      → policy.budget ≤ a + fuel
      → retry_loop policy op fuel a delays ≢ none
  unfolding retry_loop
  loop_total zero a delays lo enough = absurd (omega arith)
  loop_total (suc f) a delays lo enough =
      ground (arith, loop_total f (a + 1) (delays ++ backoff_delay policy (a + 1 - 1) ∷ []))

-- With the budget as fuel the loop always returns a result.
pub retry_with_backoff-ne-none :
    {E T : Type 0} (policy : RetryPolicy) (op : ℕ → Result E T)
    → retry_with_backoff policy op ≢ none
unfolding retry_with_backoff
retry_with_backoff-ne-none policy op = elim (Bool-cases (policy.budget == 0)) [
  | inl zero_budget ↦ rw zero_budget (λ e. cc)
  | inr positive ↦
      rw positive (loop_total policy op policy.budget 0 [] (ground arith) (omega arith))
]

-- If the k-th call is the first that succeeds and the budget allows k calls, the result is its
-- value, the operation was called k times, and the delays were the first k - 1 backoffs.
pub retry_first_success :
    {E T : Type 0} (policy : RetryPolicy) (op : ℕ → Result E T) (k : ℕ) (v : T)
    → 1 ≤ k
    → k ≤ policy.budget
    → FailsBelow policy op k
    → op k ≡ ok v
    → retry_with_backoff policy op
      ≡ some (record { result = ok v; calls = k; delays = backoffs policy (k - 1) })
unfolding retry_with_backoff
retry_first_success policy op k v low high fails good =
    let positive : (policy.budget == 0) ≡ false = ground arith in
    rw positive (
      unfold backoffs in
      loop_first_success policy op policy.budget 0 k v low high (omega arith) fails good)

-- If as many calls as the budget allows fail, the result is the last call's error, with the budget
-- as the number of attempts, and no delay follows the last attempt.
pub retry_exhausted :
    {E T : Type 0} (policy : RetryPolicy) (op : ℕ → Result E T) (e : E)
    → 1 ≤ policy.budget
    → FailsBelow policy op policy.budget
    → op policy.budget ≡ err e
    → retry_with_backoff policy op
      ≡ some (record {
        result = err (budget_exhausted policy.budget e);
        calls = policy.budget;
        delays = backoffs policy (policy.budget - 1);
      })
unfolding retry_with_backoff
retry_exhausted policy op e low fails bad =
    let positive : (policy.budget == 0) ≡ false = ground arith in
    rw positive
      (unfold backoffs in loop_exhausted policy op policy.budget 0 e low (omega arith) fails bad)
