-- ===== src/Scrape/Retry/Backoff.antt =====
-- The delays between attempts (crates/railgun-indexer-core/src/scrape/retry.rs).
use native.Mathlib.Nat.{pow-suc, one-le-pow}
use railgun_indexer.Prelude.{
  ℕ, zero, suc, ◌*◌, ◌^◌, ◌≤◌, ◌≡◌, min, arith, leb, leb→le, not-leb→lt, Bool-cases, inl, inr, ◌∙◌,
  sym,
}
use railgun_indexer.Scrape.Retry.{RetryPolicy, duration_max, double_delay, backoff_delay}

product_above : (x m p : ℕ) → m ≤ x → 1 ≤ p → m ≤ x * p
product_above x m p h k = grind arith

capped : (d m p : ℕ) → m ≤ d * 2 → 1 ≤ p → min (d * (p * 2)) m ≡ m
capped d m p h k = omega (arith, product_above (d * 2) m p h k)

double_delay_closed :
    (m : ℕ) (n delay : ℕ) → m ≤ duration_max → double_delay m n delay ≡ min (delay * 2 ^ n) m
unfolding double_delay
double_delay_closed m zero delay h = omega arith
double_delay_closed m (suc n) delay h = elim (Bool-cases (leb m (min (delay * 2) duration_max))) [
  | inl full ↦
      rw (full, pow-suc)
        (sym
          (capped delay m (2 ^ n) (omega (arith, leb→le _ _ full)) (one-le-pow n 2 (omega arith))))
  | inr low ↦
      let exact : min (delay * 2) duration_max ≡ delay * 2 = omega (arith, not-leb→lt _ _ low) in
      rw (low, pow-suc, exact) (double_delay_closed m n (delay * 2) h ∙ omega arith)
]

-- The n-th delay is the base delay doubled n times, cut off at the maximum.
pub backoff_delay_closed :
    (policy : RetryPolicy) (n : ℕ)
    → policy.max_delay ≤ duration_max
    → backoff_delay policy n ≡ min (policy.base_delay * 2 ^ n) policy.max_delay
unfolding backoff_delay
backoff_delay_closed policy n h = double_delay_closed policy.max_delay n policy.base_delay h
