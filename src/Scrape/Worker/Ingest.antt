-- ===== src/Scrape/Worker/Ingest.antt =====
-- What an attempt stores and what it leaves alone
-- (crates/railgun-indexer-core/src/scrape/worker.rs).
use railgun_indexer.Prelude.{ℕ, ◌+◌, ◌≤◌, ◌≡◌, inl, inr, List, length, some, true, ok, All, arith}
use railgun_indexer.PoiStore.{SignedPoiEvent, EventRow, find, last_event_index}
use railgun_indexer.PoiStore.Keeps.{IsStored, insert_events-IsStored, insert_events-kept}
use railgun_indexer.Scrape.Worker.{
  Poi, ScrapeWorker, Answers, next_start_index, sync_next_page, ingested,
}
use railgun_indexer.Scrape.Worker.Attempt.{sync_next_page-store, store_page-parts}
use railgun_indexer.Scrape.Worker.Gapless.{advance_if_newer-tip}
use railgun_indexer.Scrape.Worker.Contiguous.{Numbered, fetch_page-parts}

-- The events that an attempt brought in: numbered from the start index, each with a signature that
-- the list key verifies, and each in the store as a complete row.
pub record Ingests (p : Poi) (w w' : ScrapeWorker p.Cache) (count last : ℕ) : Type 0 where
  pub start : ℕ
  pub events : List SignedPoiEvent
  pub from : next_start_index w.store ≡ ok start
  pub numbered : Numbered start events
  pub verified : All (λ e. p.verify_poi_event e w.list_key ≡ ok tt) events
  pub stored : All (IsStored p.hex w'.store.events) events
  pub counted : count ≡ length events
  pub ends : last + 1 ≡ start + length events

module _ (p : Poi) (w : ScrapeWorker p.Cache) (a : Answers p.Cache) where
  -- If an attempt reports a number of events and a last index, these events are numbered from the
  -- next start index to that last index, their signatures are verified, and they are in the store.
  pub sync_next_page-Ingests :
      (count last : ℕ)
      → (sync_next_page p w a).0 ≡ ok (ingested count last)
      → Ingests p w (sync_next_page p w a).1 count last
  sync_next_page-Ingests count last h = elim (sync_next_page-store p w a) [
    | inl (_, nothing) ↦ absurd (nothing count last h)
    | inr (page, root, fetched, stored, result) ↦
        let (start, at, num, verified, end) = fetch_page-parts p w a page fetched in
        let parts = store_page-parts p w.store _ page root a.commits stored in
        let same_count : count ≡ length page.events = cc (h, result) in
        let same_last : last ≡ page.last_event_index = cc (h, result) in
        record {
          start = start;
          events = page.events;
          from = at;
          numbered = num;
          verified = verified;
          stored = insert_events-IsStored p.hex page.events w.store.events _ parts.1;
          counted = same_count;
          ends = omega arith;
        }
  ]

  -- Whatever happens in an attempt, a complete row stays in the store unchanged.
  pub sync_next_page-kept :
      (i : ℕ) (r : EventRow)
      → find i w.store.events ≡ some r
      → r.event_data_complete ≡ true
      → find i (sync_next_page p w a).1.store.events ≡ some r
  sync_next_page-kept i r present complete = elim (sync_next_page-store p w a) [
    | inl (same, _) ↦ rw same present
    | inr (page, root, _, stored, _) ↦
        insert_events-kept p.hex page.events w.store.events _ i r
          (store_page-parts p w.store _ page root a.commits stored).1 present complete
  ]

  -- Whatever happens in an attempt, the tip of the store does not go back.
  pub sync_next_page-tip :
      (old : ℕ)
      → last_event_index w.store ≡ some old
      → (t : ℕ) × (last_event_index (sync_next_page p w a).1.store ≡ some t) × (old ≤ t)
  sync_next_page-tip old h = elim (sync_next_page-store p w a) [
    | inl (same, _) ↦ (old, rw same h, omega arith)
    | inr (page, root, _, stored, _) ↦
        let parts = store_page-parts p w.store _ page root a.commits stored in
        let (t, tip_is, grown) =
          advance_if_newer-tip p w.store page.last_event_index root _ parts.2 in
        (
          t,
          tip_is,
          elim grown [
            | inl (empty, _) ↦ absurd (cc (empty, h))
            | inr (old', e, same) ↦ let agree : old ≡ old' = cc (e, h) in omega arith
          ],
        )
  ]
