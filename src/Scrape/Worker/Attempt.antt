-- ===== src/Scrape/Worker/Attempt.antt =====
-- What an attempt at a page comes to (crates/railgun-indexer-core/src/scrape/worker.rs).
use railgun_indexer.Prelude.{
  true, ℕ, ◌≡◌, ◌≢◌, ◌⊎◌, inl, inr, ◌∙◌, ap, length, some, ok, Bool, Result-cases, Option-cases,
  arith,
}
use railgun_indexer.Codec.{Bytes}
use railgun_indexer.PoiStore.{PoiStore, insert_events}
use railgun_indexer.Scrape.Worker.{
  Poi, Page, ScrapeWorker, Answers, fetch_page, store_page, advance_if_newer, apply_page,
  sync_next_page, cached_poi_cache, ingested,
}
use railgun_indexer.PoiStore.{insert_events}

module _ (p : Poi) where
  apply_page-parts :
      (w : ScrapeWorker p.Cache) (a : Answers p.Cache) (cache cache' : p.Cache) (page : Page)
      (store : PoiStore)
      → apply_page p w a cache page ≡ ok (cache', store)
      → (root : Bytes) × (store_page p w.store page root a.commits ≡ ok store)
  unfolding apply_page
  apply_page-parts w a cache cache' page store h =
      elim (Result-cases (p.apply_verified_artifact_events cache page.snapshot_events)) [
        | inr (_, bad) ↦ absurd (ground arith)
        | inl (applied, e) ↦
            elim (Option-cases
              (p.current_roots applied (p.normalize_tree_position 0 page.last_event_index).0)) [
                | inl missing ↦ absurd (ground arith)
                | inr (root, found) ↦
                    elim (Result-cases
                      (store_page p w.store page (p.hex.encode_prefixed root) a.commits)) [
                        | inr (_, bad) ↦ absurd (ground arith)
                        | inl (stored, good) ↦
                            let same : stored ≡ store = ground arith in
                            (p.hex.encode_prefixed root, good ∙ ap ok same)
                      ]
              ]
      ]

  -- What an attempt does to the store: nothing, or it stores the page that it fetched.
  pub sync_next_page-store :
      (w : ScrapeWorker p.Cache) (a : Answers p.Cache)
      → (((sync_next_page p w a).1.store ≡ w.store)
          × ((count last : ℕ) → (sync_next_page p w a).0 ≢ ok (ingested count last)))
        ⊎ ((page : Page) × (root : Bytes) × (fetch_page p w a ≡ ok (some page))
            × (store_page p w.store page root a.commits ≡ ok (sync_next_page p w a).1.store)
            × ((sync_next_page p w a).0 ≡ ok (ingested (length page.events) page.last_event_index)))
  unfolding sync_next_page
  sync_next_page-store w a = elim (Result-cases (fetch_page p w a)) [
    | inr (_, bad) ↦ inl (ground arith, λ count last h. ground arith)
    | inl (fetched, got) ↦ elim (Option-cases fetched) [
      | inl nothing ↦ inl (ground arith, λ count last h. ground arith)
      | inr (page, some_page) ↦ elim (Result-cases (cached_poi_cache p w)) [
        | inr (_, bad) ↦ inl (ground arith, λ count last h. ground arith)
        | inl (cache, e) ↦ elim (Result-cases (apply_page p w a cache page)) [
          | inr (_, bad) ↦ inl (ground arith, λ count last h. ground arith)
          | inl ((cache', store), applied) ↦
              let (root, stored) = apply_page-parts w a cache cache' page store applied in
              let kept : (sync_next_page p w a).1.store ≡ store = ground arith in
              inr (page, root, got ∙ ap ok some_page, rw kept stored, ground arith)
        ]
      ]
    ]
  ]

  pub store_page-parts :
      (s s' : PoiStore) (page : Page) (root : Bytes) (commits : Bool)
      → store_page p s page root commits ≡ ok s'
      → (commits ≡ true)
        × (insert_events p.hex s.events page.events ≡ ok s'.events)
        × (advance_if_newer p s page.last_event_index root ≡ ok s'.tip)
  unfolding store_page
  store_page-parts s s' page root commits h =
      elim (Result-cases (insert_events p.hex s.events page.events)) [
        | inr (_, bad) ↦ absurd (ground arith)
        | inl (events, inserted) ↦
            elim (Result-cases (advance_if_newer p s page.last_event_index root)) [
              | inr (_, bad) ↦ absurd (ground arith)
              | inl (tip, advanced) ↦
                  let committed : commits ≡ true = ground arith in
                  let events_are : events ≡ s'.events = ground arith in
                  let tip_is : tip ≡ s'.tip = ground arith in
                  (committed, inserted ∙ ap ok events_are, advanced ∙ ap ok tip_is)
            ]
      ]
