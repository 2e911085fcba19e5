-- ===== src/Ipns/Retry.antt =====
-- When a failed publish is tried again (crates/railgun-indexer-core/src/publish/ipns.rs).
use railgun_indexer.Prelude.{
  ℕ, ◌+◌, ◌-◌, ◌*◌, ◌≤◌, ◌<◌, ◌≡◌, min, zero, suc, some, arith, ◌⊎◌, false, Bool,
}
use railgun_indexer.Ipns.{PublishRequest}
use railgun_indexer.Ipns.Queue.{is_expired, retry_delay, next_retry_at, second}

-- The delays grow with the attempts and lie between two and ten seconds.
retry_delay_bounds : (n : ℕ) → (2 * second ≤ retry_delay n) × (retry_delay n ≤ 10 * second)
unfolding retry_delay
retry_delay_bounds zero = (omega arith, omega arith)
retry_delay_bounds (suc zero) = (omega arith, omega arith)
retry_delay_bounds (suc (suc zero)) = (omega arith, omega arith)
retry_delay_bounds (suc (suc (suc n))) =
    let last : min (suc (suc (suc n)) - 1) 2 ≡ 2 = omega arith in
    rw (last, retry_delay) (omega arith, omega arith)

-- A retry is planned exactly if the caller waits and more than a second is left before the deadline. It
-- lies in the future, at most ten seconds away, and at least a second before the deadline; and it is at
-- least two seconds away, or just a second before the deadline.
pub next_retry_at_bounds :
    (closed : ℕ → Bool) (r : PublishRequest) (now : ℕ)
    → ((closed r.response ≡ false) × (now + second < r.deadline)
        → (t : ℕ) × (next_retry_at closed r now ≡ some t)
          × (now < t)
          × (t ≤ now + 10 * second)
          × (t + second ≤ r.deadline)
          × ((now + 2 * second ≤ t) ⊎ (t + second ≡ r.deadline)))
      × ((t : ℕ) × (next_retry_at closed r now ≡ some t)
          → (closed r.response ≡ false) × (now + second < r.deadline))
unfolding next_retry_at is_expired
next_retry_at_bounds closed r now = (
  λ (waits, early).
      let t = now + min (retry_delay r.attempts_started) (r.deadline - now - second) in
      let delay = retry_delay_bounds r.attempts_started in
      (t, ground arith, omega arith, omega arith, omega arith, ground arith),
  λ (t, h). (ground arith, ground arith),
)
