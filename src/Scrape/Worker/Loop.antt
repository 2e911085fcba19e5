-- ===== src/Scrape/Worker/Loop.antt =====
-- The loops of the worker around its attempts: the retries with a shrinking page size, and the run
-- until it is caught up (crates/railgun-indexer-core/src/scrape/worker.rs). Attempts are counted
-- over the whole run. The status and the log, which nothing here reads, are left out.
pub mod Total
pub mod Keeps
pub mod Run
pub mod Ends
use railgun_indexer.Prelude.{
  ℕ, zero, suc, ◌+◌, ◌*◌, Option, none, some, Bool, true, false, ltb, ◌==◌, if◌then◌else◌, Result,
  ok, err,
}
use railgun_indexer.Scrape.PageSize.{on_success, on_failure}
use railgun_indexer.Scrape.Worker.{
  Poi, ScrapeWorker, Answers, Scraped, SyncPageOutcome, caught_up, ingested, sync_next_page,
}
use railgun_indexer.Scrape.Worker.Errors.{
  ScrapeError, is_retryable, no_retry_attempts_configured, retry_budget_exhausted,
}

-- When a shutdown shows: `requested n`, at a look after n attempts; `interrupts n`, in the sleep
-- behind the n-th attempt.
pub record Shutdown : Type 0 where
  pub requested : ℕ → Bool
  pub interrupts : ℕ → Bool

-- How a loop ended, with the worker and the number of attempts by then.
pub record Ended (C T : Type 0) : Type 0 where
  pub result : Scraped T
  pub worker : ScrapeWorker C
  pub attempted : ℕ

unfoldable pub shrink : {C : Type 0} → ScrapeWorker C → ScrapeWorker C
shrink w = record w { page_size = on_failure w.page_size }

unfoldable pub grow : {C : Type 0} → ScrapeWorker C → ScrapeWorker C
grow w = record w { page_size = on_success w.page_size }

module _ {C T : Type 0} (down : Shutdown)
    (attempt : ℕ → ScrapeWorker C → Scraped T × ScrapeWorker C) where
  open down use {requested, interrupts}

  -- Both loops of a `…_with_retry` function, from the inner one: `attempts` of the current page size
  -- and `n` in all were made before. `none` means that the fuel ran out.
  unfoldable pub retry_attempts : ℕ → ℕ → ℕ → ScrapeWorker C → Option (Ended C (Option T))
  retry_attempts zero n attempts w = none
  retry_attempts (suc fuel) n attempts w =
      let w' = (attempt (n + 1) w).1 in
      elim (attempt (n + 1) w).0 [
        | ok outcome ↦ some (record { result = ok (some outcome); worker = w'; attempted = n + 1 })
        | err error ↦ elim (is_retryable error) [
          | false ↦ some (record { result = err error; worker = w'; attempted = n + 1 })
          | true ↦ elim (ltb (attempts + 1) w'.retry_policy.budget) [
            | true ↦ elim (interrupts (n + 1)) [
              | true ↦ some (record { result = ok none; worker = w'; attempted = n + 1 })
              | false ↦ retry_attempts fuel (n + 1) (attempts + 1) w'
            ]
            | false ↦ elim ((shrink w').page_size.current_size == w'.page_size.current_size) [
              | true ↦ some (record {
                result =
                    err (retry_budget_exhausted (attempts + 1) w'.page_size.current_size error);
                worker = shrink w';
                attempted = n + 1;
              })
              | false ↦ elim (requested (n + 1)) [
                | true ↦ some (record { result = ok none; worker = shrink w'; attempted = n + 1 })
                | false ↦ retry_attempts fuel (n + 1) 0 (shrink w')
              ]
            ]
          ]
        ]
      ]

  unfoldable pub with_retry : ℕ → ℕ → ScrapeWorker C → Option (Ended C (Option T))
  with_retry fuel n w = elim (requested n) [
    | true ↦ some (record { result = ok none; worker = w; attempted = n })
    | false ↦ retry_attempts fuel n 0 w
  ]

-- Enough for `retry_attempts`: as many attempts as the budget, for each page size down to 1.
abbrev pub retry_fuel : {C : Type 0} → ScrapeWorker C → ℕ
retry_fuel w = w.page_size.current_size * (w.retry_policy.budget + 1)

pub data RunUntilOutcome : Type 0 where
  run_caught_up : RunUntilOutcome
  run_shutdown : RunUntilOutcome

module _ (p : Poi) (down : Shutdown) (answers : ℕ → Answers p.Cache) where
  open p use {Cache}
  open down use {requested, interrupts}

  abbrev pub attempt_page : ℕ → ScrapeWorker Cache → Scraped SyncPageOutcome × ScrapeWorker Cache
  attempt_page n w = sync_next_page p w (answers n)

  unfoldable pub sync_next_page_with_retry :
      ℕ → ScrapeWorker Cache → Option (Ended Cache (Option SyncPageOutcome))
  sync_next_page_with_retry n w = with_retry down attempt_page (retry_fuel w) n w

  -- The `loop`, on one unit of fuel per page.
  unfoldable pub run_pages : ℕ → ℕ → ScrapeWorker Cache → Option (Ended Cache RunUntilOutcome)
  run_pages zero n w = none
  run_pages (suc fuel) n w = elim (requested n) [
    | true ↦ some (record { result = ok run_shutdown; worker = w; attempted = n })
    | false ↦ elim (sync_next_page_with_retry n w) [
      | none ↦ none
      | some page ↦ elim page.result [
        | err error ↦
            some (record { result = err error; worker = page.worker; attempted = page.attempted })
        | ok none ↦
            some (record {
              result = ok run_shutdown;
              worker = page.worker;
              attempted = page.attempted;
            })
        | ok (some caught_up) ↦
            some (record {
              result = ok run_caught_up;
              worker = page.worker;
              attempted = page.attempted;
            })
        | ok (some (ingested count last)) ↦ elim (interrupts page.attempted) [
          | true ↦ some (record {
            result = ok run_shutdown;
            worker = grow page.worker;
            attempted = page.attempted;
          })
          | false ↦ run_pages fuel page.attempted (grow page.worker)
        ]
      ]
    ]
  ]

  unfoldable pub run_until_caught_up_or_shutdown :
      ℕ → ScrapeWorker Cache → Option (Ended Cache RunUntilOutcome)
  run_until_caught_up_or_shutdown fuel w =
      if w.retry_policy.budget == 0
      then some (record { result = err no_retry_attempts_configured; worker = w; attempted = 0 })
      else run_pages fuel 0 w
