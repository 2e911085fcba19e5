-- ===== src/Scrape/Worker/Loop/Ends.antt =====
-- A run against an upstream with finitely many events ends
-- (crates/railgun-indexer-core/src/scrape/worker.rs).
use railgun_indexer.Prelude.{
  ℕ, zero, suc, ◌+◌, ◌-◌, ◌≤◌, ◌<◌, ◌≡◌, ◌≢◌, refl, none, some, Option, ok, List, [], ◌∷◌, length,
  Result-cases, Option-cases, Bool-cases, inl, inr, arith, dec_le,
}
use railgun_indexer.Codec.{Bytes}
use railgun_indexer.PoiStore.{
  PoiStore, SignedPoiEvent, first_incomplete_event_index, last_event_index,
}
use railgun_indexer.PoiStore.Complete.{insert_events_complete}
use railgun_indexer.Scrape.Worker.{
  Poi, Page, ScrapeWorker, Answers, SyncPageOutcome, caught_up, ingested, sync_next_page,
  fetch_page, page_of, next_start_index, exclusive_end_index,
}
use railgun_indexer.Scrape.Worker.Attempt.{sync_next_page-store, store_page-parts}
use railgun_indexer.Scrape.Worker.Gapless.{advance_if_newer-tip}
use railgun_indexer.Scrape.Worker.Contiguous.{fetch_page-parts}
use railgun_indexer.Scrape.Worker.Loop.{
  Shutdown, Ended, shrink, grow, attempt_page, sync_next_page_with_retry, run_pages,
  run_until_caught_up_or_shutdown,
}
use railgun_indexer.Scrape.Worker.Loop.Total.{sync_next_page_with_retry-ne-none}
use railgun_indexer.Scrape.Worker.Loop.Run.{
  IsSound, attempt-IsSound, shrink-IsSound, grow-IsSound, with_retry-keeps,
}

-- The index behind the tip.
abbrev reach : PoiStore → ℕ
reach s = elim (last_event_index s) [ none ↦ 0 | some t ↦ t + 1 ]

reach-some : (s : PoiStore) (t : ℕ) → last_event_index s ≡ some t → reach s ≡ t + 1
reach-some s t h = rw (reach, h)

-- No row misses its data.
abbrev pub IsComplete : PoiStore → Type 0
IsComplete s = first_incomplete_event_index s.events ≡ none

module _ (p : Poi) where
  page_of-some :
      (key : Bytes) (start : ℕ) (events : List SignedPoiEvent) (page : Page)
      → page_of p key start events ≡ ok (some page)
      → (page.events ≡ events) × (events ≢ [])
  unfolding page_of
  page_of-some key start [] page h = absurd (ground arith)
  page_of-some key start (e ∷ rest) page h = (ground arith, λ gone. cc)

  fetch_page-some :
      (w : ScrapeWorker p.Cache) (a : Answers p.Cache) (page : Page)
      → fetch_page p w a ≡ ok (some page)
      → (start : ℕ) × (end : ℕ) × (next_start_index w.store ≡ ok start)
        × (a.poi_events start end ≡ ok page.events)
        × (page.events ≢ [])
  unfolding fetch_page exclusive_end_index
  fetch_page-some w a page h = elim (Result-cases (next_start_index w.store)) [
    | inr (_, bad) ↦ absurd (ground arith)
    | inl (start, at) ↦
        let end = start + w.page_size.current_size - 1 in
        elim (Result-cases (a.poi_events start end)) [
          | inr (_, bad) ↦ absurd (ground arith)
          | inl (events, came) ↦
              let (same, some_came) = page_of-some w.list_key start events page (ground arith) in
              (start, end, at, rw same came, rw same some_came)
        ]
  ]

  next_start_index-reach :
      (s : PoiStore) (start : ℕ) → IsComplete s → next_start_index s ≡ ok start → start ≡ reach s
  unfolding next_start_index
  next_start_index-reach s start complete h = ground arith

  length-positive : (events : List SignedPoiEvent) → events ≢ [] → 1 ≤ length events
  length-positive [] h = absurd (h refl)
  length-positive (e ∷ rest) h = omega arith

  -- An attempt keeps the rows complete, and moves the tip forward if it stores events; those events
  -- begin at the index behind the old tip.
  attempt_lem :
      (w : ScrapeWorker p.Cache) (a : Answers p.Cache)
      → IsComplete w.store
      → IsComplete (sync_next_page p w a).1.store
        × (reach w.store ≤ reach (sync_next_page p w a).1.store)
        × ((count last : ℕ)
            → (sync_next_page p w a).0 ≡ ok (ingested count last)
            → (reach w.store < reach (sync_next_page p w a).1.store)
              × (end : ℕ) × (events : List SignedPoiEvent) × (a.poi_events (reach w.store) end
                  ≡ ok events)
              × (events ≢ []))
  attempt_lem w a complete = elim (sync_next_page-store p w a) [
    | inl (same, nothing) ↦
        (rw same complete, rw same (omega arith), λ count last h. absurd (nothing count last h))
    | inr (page, root, fetched, stored, _) ↦
        let parts = store_page-parts p w.store _ page root a.commits stored in
        let (start, end, at, came, some_came) = fetch_page-some w a page fetched in
        let (start', at', _, _, ends) = fetch_page-parts p w a page fetched in
        let (t, tip_is, grown) =
          advance_if_newer-tip p w.store page.last_event_index root _ parts.2 in
        let agree : start ≡ start' = cc (at, at') in
        let behind = next_start_index-reach w.store start complete at in
        let one = length-positive page.events some_came in
        let grows : page.last_event_index ≤ t = elim grown [
          | inl (_, e) ↦ omega arith
          | inr (_, _, e) ↦ omega arith
        ] in
        let now : reach (sync_next_page p w a).1.store ≡ t + 1 =
          reach-some (sync_next_page p w a).1.store t tip_is in
        let further : reach w.store < reach (sync_next_page p w a).1.store = omega arith in
        (
          insert_events_complete p.hex page.events w.store.events _ parts.1 complete,
          omega arith,
          λ count last h. (further, end, page.events, rw behind at came, some_came),
        )
  ]

-- The upstream has no events from the given index on.
abbrev pub EndsBefore : (p : Poi) → ℕ → (ℕ → Answers p.Cache) → Type 0
EndsBefore p total answers =
    (k start end : ℕ) (events : List SignedPoiEvent)
    → total ≤ start
    → (answers k).poi_events start end ≡ ok events
    → events ≡ []

-- A worker whose store has complete rows only, from some index on.
record Reaches {C : Type 0} (m : ℕ) (w : ScrapeWorker C) : Type 0 where
  pub sound : IsSound w
  pub complete : IsComplete w.store
  pub reached : m ≤ reach w.store

module _ (p : Poi) (down : Shutdown) (answers : ℕ → Answers p.Cache) (total : ℕ)
    (bounded : EndsBefore p total answers) where
  attempt-Reaches :
      (m n : ℕ) (w : ScrapeWorker p.Cache)
      → Reaches m w
      → Reaches m (attempt_page p down answers n w).1
  attempt-Reaches m n w q =
      let lem = attempt_lem p w (answers n) q.complete in
      record {
        sound = attempt-IsSound p down answers n w q.sound;
        complete = lem.0;
        reached = omega (arith, q.reached, lem.1);
      }

  shrink-Reaches : (m : ℕ) (w : ScrapeWorker p.Cache) → Reaches m w → Reaches m (shrink w)
  shrink-Reaches m w q = record {
    sound = shrink-IsSound p down answers w q.sound;
    complete = unfold shrink in q.complete;
    reached = unfold shrink in q.reached;
  }

  grow-Reaches : (m : ℕ) (w : ScrapeWorker p.Cache) → Reaches m w → Reaches m (grow w)
  grow-Reaches m w q = record {
    sound = grow-IsSound p down answers w q.sound;
    complete = unfold grow in q.complete;
    reached = unfold grow in q.reached;
  }

  -- Behind a page that was stored, the worker has come further, and it was not at the end before.
  page-Reaches :
      (n m : ℕ) (w : ScrapeWorker p.Cache) (page : Ended p.Cache (Option SyncPageOutcome))
      (count last : ℕ)
      → Reaches m w
      → sync_next_page_with_retry p down answers n w ≡ some page
      → page.result ≡ ok (some (ingested count last))
      → Reaches (m + 1) page.worker × (m < total)
  page-Reaches n m w page count last q e good =
      let kept =
        with_retry-keeps p down answers (Reaches m) (attempt-Reaches m) (shrink-Reaches m)
          (grow-Reaches m) n w page q e in
      let (k, w0, q0, o, same, _, _) = kept.outcome (ingested count last) good in
      let lem = attempt_lem p w0 (answers k) q0.complete in
      let (further, end, events, came, some_came) = lem.2 count last o in
      (
        record {
          sound = kept.keeps.sound;
          complete = kept.keeps.complete;
          reached = rw same (omega (arith, q0.reached));
        },
        elim (dec_le total (reach w0.store)) [
          | yes over ↦ absurd (some_came (bounded k (reach w0.store) end events over came))
          | no under ↦ omega (arith, q0.reached)
        ],
      )

  run_pages-ne-none :
      (fuel n m : ℕ) (w : ScrapeWorker p.Cache)
      → Reaches m w
      → 1 ≤ fuel
      → total < fuel + m
      → run_pages p down answers fuel n w ≢ none
  unfolding run_pages
  run_pages-ne-none zero n m w q one enough = absurd (omega arith)
  run_pages-ne-none (suc fuel) n m w q one enough = elim (Bool-cases (down.requested n)) [
    | inl stop ↦ ground arith
    | inr on ↦ elim (Option-cases (sync_next_page_with_retry p down answers n w)) [
      | inl spent ↦
          absurd (sync_next_page_with_retry-ne-none p down answers n w q.sound.sized spent)
      | inr (page, e) ↦ elim (Result-cases page.result) [
        | inr (error, bad) ↦ ground arith
        | inl (none, stopped) ↦ ground arith
        | inl (some caught_up, good) ↦ ground arith
        | inl (some (ingested count last), good) ↦
            elim (Bool-cases (down.interrupts page.attempted)) [
              | inl stop ↦ ground arith
              | inr slept ↦
                  let next = page-Reaches n m w page count last q e good in
                  ground (
                    arith,
                    run_pages-ne-none fuel page.attempted (m + 1) (grow page.worker)
                        (grow-Reaches (m + 1) page.worker next.0) (omega arith) (omega arith),
                  )
            ]
      ]
    ]
  ]

-- If the upstream has no events from the index `total` on, the store is sound and all its rows are
-- complete, then a run ends: one more than `total` pages are enough.
pub run-ne-none :
    (p : Poi) (down : Shutdown) (answers : ℕ → Answers p.Cache) (total : ℕ)
    (w : ScrapeWorker p.Cache)
    → EndsBefore p total answers
    → IsSound w
    → IsComplete w.store
    → run_until_caught_up_or_shutdown p down answers (total + 1) w ≢ none
unfolding run_until_caught_up_or_shutdown
run-ne-none p down answers total w bounded sound complete = ground (
  arith,
  run_pages-ne-none p down answers total bounded (total + 1) 0 0 w
      (record { sound = sound; complete = complete; reached = omega arith }) (omega arith)
      (omega arith),
)
