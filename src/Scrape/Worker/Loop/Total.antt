-- ===== src/Scrape/Worker/Loop/Total.antt =====
-- The retries end (crates/railgun-indexer-core/src/scrape/worker.rs).
use railgun_indexer.Prelude.{
  ℕ, zero, suc, ◌+◌, ◌*◌, ◌≤◌, ◌<◌, ◌≡◌, ◌≢◌, none, Result-cases, Option-cases, Bool-cases, inl,
  inr, false, ltb, ◌==◌, arith, ltb→lt,
}
use railgun_indexer.Scrape.PageSize.{on_failure}
use railgun_indexer.Scrape.PageSize.Bounds.{IsValid, on_failure-IsValid}
use railgun_indexer.Scrape.PageSize.Progress.{on_failure_shrinks}
use railgun_indexer.Scrape.Worker.{
  Poi, ScrapeWorker, Answers, Scraped, fetch_page, cached_poi_cache, apply_page, sync_next_page,
}
use railgun_indexer.Scrape.Worker.Errors.{is_retryable}
use railgun_indexer.Scrape.Worker.Loop.{
  Shutdown, shrink, retry_attempts, with_retry, retry_fuel, attempt_page, sync_next_page_with_retry,
}

-- An attempt does not touch the page size and the policy.
pub record IsSteady {C : Type 0} (w w' : ScrapeWorker C) : Type 0 where
  pub page_size : w'.page_size ≡ w.page_size
  pub retry_policy : w'.retry_policy ≡ w.retry_policy

pub sync_next_page-IsSteady :
    (p : Poi) (w : ScrapeWorker p.Cache) (a : Answers p.Cache) → IsSteady w (sync_next_page p w a).1
unfolding sync_next_page
sync_next_page-IsSteady p w a = elim (Result-cases (fetch_page p w a)) [
  | inr (_, bad) ↦ ground arith
  | inl (fetched, got) ↦ elim (Option-cases fetched) [
    | inl nothing ↦ ground arith
    | inr (page, some_page) ↦ elim (Result-cases (cached_poi_cache p w)) [
      | inr (_, bad) ↦ ground arith
      | inl (cache, e) ↦ elim (Result-cases (apply_page p w a cache page)) [
        | inr (_, bad) ↦ ground arith
        | inl (_, applied) ↦ ground arith
      ]
    ]
  ]
]

fewer : (s s' b : ℕ) → s' < s → s' * (b + 1) + (b + 1) ≤ s * (b + 1)
fewer s s' b h = grind arith

positive_product : (s b : ℕ) → 1 ≤ s → b + 1 ≤ s * (b + 1)
positive_product s b h = grind arith

shrunk_fuel :
    {C : Type 0} (w w' : ScrapeWorker C)
    → IsSteady w w'
    → IsValid w.page_size
    → ((shrink w').page_size.current_size == w'.page_size.current_size) ≡ false
    → (fuel attempts : ℕ) → attempts ≤ w.retry_policy.budget
    → retry_fuel w ≤ suc fuel + attempts
    → retry_fuel (shrink w') ≤ fuel + 0
unfolding shrink
shrunk_fuel w w' kept v smaller fuel attempts few enough =
    let differs : ((on_failure w.page_size).current_size == w.page_size.current_size) ≡ false =
      rw kept.page_size at smaller in
    let less = (on_failure_shrinks w.page_size v).0 (λ same. ground arith) in
    rw (kept.page_size, kept.retry_policy)
      (omega (
        arith,
        fewer w.page_size.current_size (on_failure w.page_size).current_size w.retry_policy.budget
            less,
      ))

module _ {C T : Type 0} (down : Shutdown)
    (attempt : ℕ → ScrapeWorker C → Scraped T × ScrapeWorker C)
    (steady : (n : ℕ) (w : ScrapeWorker C) → IsSteady w (attempt n w).1) where
  -- With enough fuel for the sizes that are left, the loops return.
  pub retry_attempts-ne-none :
      (fuel n attempts : ℕ) (w : ScrapeWorker C)
      → IsValid w.page_size
      → attempts ≤ w.retry_policy.budget
      → retry_fuel w ≤ fuel + attempts
      → retry_attempts down attempt fuel n attempts w ≢ none
  unfolding retry_attempts
  retry_attempts-ne-none zero n attempts w v few enough = absurd (
      omega (
        arith,
        positive_product w.page_size.current_size w.retry_policy.budget
            (omega (arith, v.positive, v.above)),
      ))
  retry_attempts-ne-none (suc fuel) n attempts w v few enough =
      let w' = (attempt (n + 1) w).1 in
      let kept = steady (n + 1) w in
      elim (Result-cases (attempt (n + 1) w).0) [
        | inl (outcome, e) ↦ ground arith
        | inr (error, e) ↦ elim (Bool-cases (is_retryable error)) [
          | inr final ↦ ground arith
          | inl retryable ↦ elim (Bool-cases (ltb (attempts + 1) w'.retry_policy.budget)) [
            | inl more ↦ elim (Bool-cases (down.interrupts (n + 1))) [
              | inl stop ↦ ground arith
              | inr on ↦ ground (
                arith,
                retry_attempts-ne-none fuel (n + 1) (attempts + 1) w' (rw kept.page_size v)
                    (omega (arith, ltb→lt _ _ more))
                    (rw (kept.page_size, kept.retry_policy) (omega arith)),
              )
            ]
            | inr spent ↦
                elim (Bool-cases
                  ((shrink w').page_size.current_size == w'.page_size.current_size)) [
                    | inl same ↦ ground arith
                    | inr smaller ↦ elim (Bool-cases (down.requested (n + 1))) [
                      | inl stop ↦ ground arith
                      | inr on ↦ ground (
                        arith,
                        retry_attempts-ne-none fuel (n + 1) 0 (shrink w')
                            (unfold shrink in rw kept.page_size (on_failure-IsValid w.page_size v))
                            (omega arith)
                            (shrunk_fuel w w' kept v smaller fuel attempts few enough),
                      )
                    ]
                  ]
          ]
        ]
      ]

-- With a valid page size, an attempt at a page with retries returns: as much fuel as the page size
-- times one more than the budget is enough.
pub sync_next_page_with_retry-ne-none :
    (p : Poi) (down : Shutdown) (answers : ℕ → Answers p.Cache) (n : ℕ) (w : ScrapeWorker p.Cache)
    → IsValid w.page_size
    → sync_next_page_with_retry p down answers n w ≢ none
unfolding sync_next_page_with_retry with_retry
sync_next_page_with_retry-ne-none p down answers n w v = ground (
  arith,
  retry_attempts-ne-none down (attempt_page p down answers)
      (λ n w. sync_next_page-IsSteady p w (answers n)) (retry_fuel w) n 0 w v (omega arith)
      (omega arith),
)
