-- ===== src/Examples/Store.antt =====
-- The event store and the worker at concrete inputs
-- (crates/railgun-indexer-core/src/{store,scrape/worker}.rs).
use railgun_indexer.Prelude.{
  ℕ, ◌+◌, ◌≡◌, refl, List, [], ◌∷◌, replicate, none, some, true, arith, ok,
}
use railgun_indexer.PoiStore.{
  PoiStore, SignedPoiEvent, EventRow, transact, find, insert_events, insert_event, complete_row,
  decode_fixed_hex, event_type_discriminant, first_incomplete_event_index, bytes_eq,
  advance_chain_tip,
}
use railgun_indexer.Scrape.PageSize.{new}
use railgun_indexer.Scrape.Worker.{
  ScrapeWorker, Answers, ingested, sync_next_page, fetch_page, next_start_index,
  exclusive_end_index, page_of, check_events, decode_event_signature, cached_poi_cache, apply_page,
  store_page, advance_if_newer,
}
use railgun_indexer.Scrape.Worker.Gapless.{IsGapless, sync_next_page-IsGapless}
use railgun_indexer.Scrape.Worker.Ingest.{Ingests, sync_next_page-Ingests, sync_next_page-kept}
use railgun_indexer.Examples.Data.{hex, poi}

abbrev pub event : ℕ → SignedPoiEvent
event index = record {
  index = index;
  blinded_commitment = replicate 32 5;
  signature = replicate 64 7;
  event_type = transact;
}

abbrev events : List SignedPoiEvent
events = event 1 ∷ event 2 ∷ []

abbrev pub first_row : EventRow
first_row = record {
  event_index = 0;
  blinded_commitment = replicate 32 5;
  signature = replicate 64 7;
  event_type = 1;
  event_data_complete = true;
}

abbrev pub store : PoiStore
store = record {
  events = first_row ∷ [];
  tip = some (record { last_event_index = 0; last_tip_merkleroot = none });
}

inserted : (rows : List EventRow) × (insert_events hex store.events events ≡ ok rows)
unfolding insert_events insert_event decode_fixed_hex find complete_row event_type_discriminant
inserted = (_, refl)

pub first-found : find 0 store.events ≡ some first_row
unfolding find
first-found = refl

abbrev pub worker : ScrapeWorker ℕ
worker = record {
  list_key = replicate 32 9;
  page_size = new 100 100 25;
  retry_policy = record { budget = 3; base_delay = 1; max_delay = 10 };
  store = store;
  blocked_shields = [];
  cache = some 0;
}

abbrev pub answers : Answers ℕ
answers = record {
  poi_events = λ start end. ok (event start ∷ event (start + 1) ∷ []);
  validate_roots = λ cache. ok true;
  commits = true;
}

pub store-IsGapless : IsGapless store
unfolding find
store-IsGapless = record {
  covered = λ i t e le. ground arith;
  bounded = λ i present. (0, refl, ground arith);
}

sync_next_page-IsGapless_example : IsGapless (sync_next_page poi worker answers).1.store
sync_next_page-IsGapless_example = sync_next_page-IsGapless poi worker answers store-IsGapless

ingests : (sync_next_page poi worker answers).0 ≡ ok (ingested 2 2)
unfolding sync_next_page fetch_page next_start_index first_incomplete_event_index
    exclusive_end_index new page_of check_events decode_event_signature cached_poi_cache apply_page
    store_page insert_events insert_event decode_fixed_hex find complete_row advance_if_newer
    advance_chain_tip bytes_eq event_type_discriminant
ingests = refl

sync_next_page-Ingests_example : Ingests poi worker (sync_next_page poi worker answers).1 2 2
sync_next_page-Ingests_example = sync_next_page-Ingests poi worker answers 2 2 ingests

sync_next_page-kept_example :
    find 0 (sync_next_page poi worker answers).1.store.events ≡ some first_row
sync_next_page-kept_example = sync_next_page-kept poi worker answers 0 first_row first-found refl
