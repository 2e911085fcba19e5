-- ===== src/Scrape/Worker/Loop/Run.antt =====
-- A run of the worker until it is caught up
-- (crates/railgun-indexer-core/src/scrape/worker.rs).
use railgun_indexer.Prelude.{
  ℕ, zero, suc, ◌+◌, ◌-◌, ◌≡◌, refl, none, some, Option, ok, List, [], ◌∷◌, Result-cases,
  Option-cases, Bool-cases, inl, inr, true, ◌==◌, ◌∙◌, ap, arith,
}
use railgun_indexer.Codec.{Bytes}
use railgun_indexer.PoiStore.{SignedPoiEvent, EventRow, find}
use railgun_indexer.Scrape.PageSize.Bounds.{IsValid, on_success-IsValid, on_failure-IsValid}
use railgun_indexer.Scrape.Worker.{
  Poi, ScrapeWorker, Answers, SyncPageOutcome, caught_up, ingested, sync_next_page, fetch_page,
  page_of, next_start_index, exclusive_end_index, cached_poi_cache, apply_page,
}
use railgun_indexer.Scrape.Worker.Gapless.{IsGapless, sync_next_page-IsGapless}
use railgun_indexer.Scrape.Worker.Ingest.{sync_next_page-kept}
use railgun_indexer.Scrape.Worker.Loop.{
  Shutdown, Ended, shrink, grow, retry_fuel, attempt_page, sync_next_page_with_retry, run_pages,
  run_caught_up, RunUntilOutcome, run_until_caught_up_or_shutdown,
}
use railgun_indexer.Scrape.Worker.Loop.Keeps.{Returns, with_retry-Returns}
use railgun_indexer.Scrape.Worker.Loop.Total.{sync_next_page-IsSteady}

module _ (p : Poi) (down : Shutdown) (answers : ℕ → Answers p.Cache)
    (P : ScrapeWorker p.Cache → Type 0)
    (step : (n : ℕ) (w : ScrapeWorker p.Cache) → P w → P (attempt_page p down answers n w).1)
    (shrinks : (w : ScrapeWorker p.Cache) → P w → P (shrink w))
    (grows : (w : ScrapeWorker p.Cache) → P w → P (grow w)) where
  -- The worker at the end of a run has what every attempt and every change of the page size keeps;
  -- and if the run caught up, so did its last attempt.
  record RunEnds (r : Ended p.Cache RunUntilOutcome) : Type 0 where
    pub keeps : P r.worker
    pub caught :
        r.result ≡ ok run_caught_up
        → (k : ℕ) × (w : ScrapeWorker p.Cache) × P w
          × ((attempt_page p down answers k w).0 ≡ ok caught_up)
          × (r.worker ≡ (attempt_page p down answers k w).1)

  pub with_retry-keeps :
      (n : ℕ) (w : ScrapeWorker p.Cache) (r : Ended p.Cache (Option SyncPageOutcome))
      → P w
      → sync_next_page_with_retry p down answers n w ≡ some r
      → Returns down (attempt_page p down answers) P step shrinks n r
  unfolding sync_next_page_with_retry
  with_retry-keeps n w r q h =
      with_retry-Returns down (attempt_page p down answers) P step shrinks (retry_fuel w) n w r q h

  run_pages-RunEnds :
      (fuel n : ℕ) (w : ScrapeWorker p.Cache) (r : Ended p.Cache RunUntilOutcome)
      → P w
      → run_pages p down answers fuel n w ≡ some r
      → RunEnds r
  unfolding run_pages
  run_pages-RunEnds zero n w r q h = absurd (ground arith)
  run_pages-RunEnds (suc fuel) n w r q h = elim (Bool-cases (down.requested n)) [
    | inl stop ↦
        let end : r.worker ≡ w = ground arith in
        record { keeps = rw end q; caught = λ c. absurd (ground arith) }
    | inr on ↦ elim (Option-cases (sync_next_page_with_retry p down answers n w)) [
      | inl spent ↦ absurd (ground arith)
      | inr (page, e) ↦
          let kept = with_retry-keeps n w page q e in
          elim (Result-cases page.result) [
            | inr (error, bad) ↦
                let end : r.worker ≡ page.worker = ground arith in
                record { keeps = rw end kept.keeps; caught = λ c. absurd (ground arith) }
            | inl (none, stopped) ↦
                let end : r.worker ≡ page.worker = ground arith in
                record { keeps = rw end kept.keeps; caught = λ c. absurd (ground arith) }
            | inl (some caught_up, good) ↦
                let end : r.worker ≡ page.worker = ground arith in
                let (k, w0, q0, o, same, _, _) = kept.outcome caught_up good in
                record { keeps = rw end kept.keeps; caught = λ c. (k, w0, q0, o, end ∙ same) }
            | inl (some (ingested count last), good) ↦
                elim (Bool-cases (down.interrupts page.attempted)) [
                  | inl stop ↦
                      let end : r.worker ≡ grow page.worker = ground arith in
                      record {
                        keeps = rw end (grows page.worker kept.keeps);
                        caught = λ c. absurd (ground arith);
                      }
                  | inr slept ↦
                      run_pages-RunEnds fuel page.attempted (grow page.worker) r
                        (grows page.worker kept.keeps) (ground arith)
                ]
          ]
    ]
  ]

  run-RunEnds :
      (fuel : ℕ) (w : ScrapeWorker p.Cache) (r : Ended p.Cache RunUntilOutcome)
      → P w
      → run_until_caught_up_or_shutdown p down answers fuel w ≡ some r
      → RunEnds r
  unfolding run_until_caught_up_or_shutdown
  run-RunEnds fuel w r q h = elim (Bool-cases (w.retry_policy.budget == 0)) [
    | inl none_left ↦
        let end : r.worker ≡ w = ground arith in
        record { keeps = rw end q; caught = λ c. absurd (ground arith) }
    | inr positive ↦ run_pages-RunEnds fuel 0 w r q (ground arith)
  ]

-- What the invariants of a run need: a store without gaps and a valid page size.
pub record IsSound {C : Type 0} (w : ScrapeWorker C) : Type 0 where
  pub gapless : IsGapless w.store
  pub sized : IsValid w.page_size

module _ (p : Poi) (down : Shutdown) (answers : ℕ → Answers p.Cache) where
  pub attempt-IsSound :
      (n : ℕ) (w : ScrapeWorker p.Cache) → IsSound w → IsSound (attempt_page p down answers n w).1
  attempt-IsSound n w q = record {
    gapless = sync_next_page-IsGapless p w (answers n) q.gapless;
    sized = rw (sync_next_page-IsSteady p w (answers n)).page_size q.sized;
  }

  pub shrink-IsSound : (w : ScrapeWorker p.Cache) → IsSound w → IsSound (shrink w)
  unfolding shrink
  shrink-IsSound w q = record {
    gapless = q.gapless;
    sized = on_failure-IsValid w.page_size q.sized;
  }

  pub grow-IsSound : (w : ScrapeWorker p.Cache) → IsSound w → IsSound (grow w)
  unfolding grow
  grow-IsSound w q = record { gapless = q.gapless; sized = on_success-IsValid w.page_size q.sized }

  -- Through a whole run, whatever the upstream answers, the store keeps a row for exactly the indices
  -- up to its tip, and the page size stays valid.
  pub run-IsSound :
      (fuel : ℕ) (w : ScrapeWorker p.Cache) (r : Ended p.Cache RunUntilOutcome)
      → IsSound w
      → run_until_caught_up_or_shutdown p down answers fuel w ≡ some r
      → IsSound r.worker
  run-IsSound fuel w r q h =
      (run-RunEnds p down answers IsSound attempt-IsSound shrink-IsSound grow-IsSound fuel w r q
        h).keeps

  -- Through a whole run a complete row stays in the store unchanged.
  pub run-kept :
      (fuel : ℕ) (w : ScrapeWorker p.Cache) (r : Ended p.Cache RunUntilOutcome) (i : ℕ)
      (row : EventRow)
      → find i w.store.events ≡ some row
      → row.event_data_complete ≡ true
      → run_until_caught_up_or_shutdown p down answers fuel w ≡ some r
      → find i r.worker.store.events ≡ some row
  run-kept fuel w r i row present complete h =
      (run-RunEnds p down answers (λ w. find i w.store.events ≡ some row)
        (λ n w q. sync_next_page-kept p w (answers n) i row q complete) (λ w q. unfold shrink in q)
        (λ w q. unfold grow in q) fuel w r present h).keeps

  -- Where the k-th attempt finds nothing: the upstream has no events from the next start index to the
  -- end of a page.
  abbrev pub NothingNew : ScrapeWorker p.Cache → ℕ → Type 0
  NothingNew w k =
      (start : ℕ) × (end : ℕ) × (next_start_index w.store ≡ ok start)
      × (end + 1 ≡ start + w.page_size.current_size)
      × ((answers k).poi_events start end ≡ ok [])

  page_of-none :
      (key : Bytes) (start : ℕ) (events : List SignedPoiEvent)
      → page_of p key start events ≡ ok none
      → events ≡ []
  unfolding page_of
  page_of-none key start [] h = refl
  page_of-none key start (e ∷ rest) h = absurd (ground arith)

  fetch_page-none :
      (k : ℕ) (w : ScrapeWorker p.Cache) → fetch_page p w (answers k) ≡ ok none → NothingNew w k
  unfolding fetch_page exclusive_end_index
  fetch_page-none k w h = elim (Result-cases (next_start_index w.store)) [
    | inr (_, bad) ↦ absurd (ground arith)
    | inl (start, at) ↦
        let end = start + w.page_size.current_size - 1 in
        elim (Result-cases ((answers k).poi_events start end)) [
          | inr (_, bad) ↦ absurd (ground arith)
          | inl (events, came) ↦
              let none_came = page_of-none w.list_key start events (ground arith) in
              (start, end, at, ground arith, came ∙ ap ok none_came)
        ]
  ]

  caught_up-fetch :
      (k : ℕ) (w : ScrapeWorker p.Cache)
      → (attempt_page p down answers k w).0 ≡ ok caught_up
      → (fetch_page p w (answers k) ≡ ok none) × ((attempt_page p down answers k w).1 ≡ w)
  unfolding sync_next_page
  caught_up-fetch k w h = elim (Result-cases (fetch_page p w (answers k))) [
    | inr (_, bad) ↦ absurd (ground arith)
    | inl (none, got) ↦ (got, ground arith)
    | inl (some page, got) ↦ elim (Result-cases (cached_poi_cache p w)) [
      | inr (_, bad) ↦ absurd (ground arith)
      | inl (cache, e) ↦ elim (Result-cases (apply_page p w (answers k) cache page)) [
        | inr (_, bad) ↦ absurd (ground arith)
        | inl (_, applied) ↦ absurd (ground arith)
      ]
    ]
  ]

  -- A run that ends as caught up has asked the upstream, in an attempt on the store as it then is, for
  -- the events from the next start index on, and there were none.
  pub run-NothingNew :
      (fuel : ℕ) (w : ScrapeWorker p.Cache) (r : Ended p.Cache RunUntilOutcome)
      → run_until_caught_up_or_shutdown p down answers fuel w ≡ some r
      → r.result ≡ ok run_caught_up
      → (k : ℕ) × NothingNew r.worker k
  run-NothingNew fuel w r h c =
      let ends =
        run-RunEnds p down answers (λ w. Unit {0}) (λ n w q. tt) (λ w q. tt) (λ w q. tt) fuel w r tt
          h in
      let (k, w0, _, o, same) = ends.caught c in
      let (empty, kept) = caught_up-fetch k w0 o in
      (k, rw (same, kept) (fetch_page-none k w0 empty))
