-- ===== src/Scrape/Worker.antt =====
-- The POI event worker of one list key and chain
-- (crates/railgun-indexer-core/src/scrape/worker.rs). What the worker calls of the crates `poi`,
-- `broadcaster_core` and `hex` is a field of `Poi`; what the upstream node and the database answer
-- during one attempt is a field of `Answers`. A transaction is all or nothing: its writes are kept
-- if its commit succeeds.
pub mod Errors
pub mod Attempt
pub mod Contiguous
pub mod Gapless
pub mod Ingest
pub mod Loop
pub mod Blocked
use railgun_indexer.Prelude.{
  ℕ, suc, ◌+◌, ◌-◌, List, [], ◌∷◌, ◌++◌, length, Option, none, some, Bool, true, false, leb, ◌==◌,
  if◌then◌else◌, Result, ok, err, ◌>>=◌, ◌>>◌, ok_or, map_err, checked_add, checked_sub,
}
use railgun_indexer.Codec.{Bytes}
use railgun_indexer.PoiStore
use railgun_indexer.PoiStore.{
  PoiStore, SignedPoiEvent, StoredEvent, PoiEventType, ChainTip, EventRow, Hex, StoreError, sqlx,
  strip_0x, insert_events, advance_chain_tip, first_incomplete_event_index, last_event_index,
  page_event_range_for_hydration,
}
use railgun_indexer.PoiStore.Blocked.{SignedBlockedShield, StoredBlockedShield}
use railgun_indexer.Scrape.PageSize.{PageSizeAdapter}
use railgun_indexer.Scrape.Retry.{RetryPolicy}
use Errors.{
  RpcError, ScrapeError, poi_rpc, invalid_event_signature, cache_error, store_error,
  cache_unavailable, root_rejected, non_contiguous_event, event_signature, missing_root,
  index_overflow,
}

pub record SnapshotEvent : Type 0 where
  pub event_index : ℕ
  pub blinded_commitment : Bytes
  pub signature : Bytes
  pub event_type : PoiEventType

pub record Poi : Type 1 where
  pub Cache : Type 0
  pub hex : Hex
  pub verify_poi_event : SignedPoiEvent → Bytes → Result ℕ (Unit {0})
  pub verify_blocked_shield : SignedBlockedShield → Bytes → Result ℕ (Unit {0})
  pub new_cache : Cache
  pub apply_verified_artifact_events : Cache → List SnapshotEvent → Result ℕ Cache
  pub current_roots : Cache → ℕ → Option Bytes
  pub normalize_tree_position : ℕ → ℕ → ℕ × ℕ

pub record Answers (C : Type 0) : Type 0 where
  pub poi_events : ℕ → ℕ → Result RpcError (List SignedPoiEvent)
  pub validate_roots : C → Result ℕ Bool
  pub commits : Bool

-- The two tables of the database that the worker uses stand beside its own state.
pub record ScrapeWorker (C : Type 0) : Type 0 where
  pub list_key : Bytes
  pub page_size : PageSizeAdapter
  pub retry_policy : RetryPolicy
  pub store : PoiStore
  pub blocked_shields : List StoredBlockedShield
  pub cache : Option C

pub data SyncPageOutcome : Type 0 where
  caught_up : SyncPageOutcome
  ingested : ℕ → ℕ → SyncPageOutcome

abbrev pub Scraped : Type 0 → Type 0
Scraped = Result ScrapeError

unfoldable pub exclusive_end_index : ℕ → ℕ → Scraped ℕ
exclusive_end_index start_index page_size =
    ok_or (checked_add start_index page_size) (index_overflow start_index)

unfoldable pub next_start_index : PoiStore → Scraped ℕ
next_start_index s = elim (first_incomplete_event_index s.events) [
  | some index ↦ ok index
  | none ↦ elim (last_event_index s) [
    | none ↦ ok 0
    | some last ↦ ok_or (checked_add last 1) (index_overflow last)
  ]
]

snapshot_of : StoredEvent → SnapshotEvent
snapshot_of e = record {
  event_index = e.event_index;
  blinded_commitment = e.blinded_commitment;
  signature = e.signature;
  event_type = e.event_type;
}

-- What a page brings: its events, their snapshots and the index of the last one.
pub record Page : Type 0 where
  pub events : List SignedPoiEvent
  pub snapshot_events : List SnapshotEvent
  pub last_event_index : ℕ

last_index : List SnapshotEvent → Option ℕ
last_index [] = none
last_index (e ∷ []) = some e.event_index
last_index (e ∷ f ∷ rest) = last_index (f ∷ rest)

snapshot_events_of : List StoredEvent → List SnapshotEvent
snapshot_events_of [] = []
snapshot_events_of (e ∷ rest) = snapshot_of e ∷ snapshot_events_of rest

module _ (p : Poi) where
  open p use {
    Cache, hex, verify_poi_event, new_cache, apply_verified_artifact_events, current_roots,
    normalize_tree_position,
  }

  unfoldable pub decode_event_signature : Bytes → Scraped Bytes
  decode_event_signature signature = do
    bytes ← ok_or (hex.decode (strip_0x signature)) event_signature
    (if length bytes == 64 then ok bytes else err event_signature)

  -- The loop over the events of a page, from the given offset.
  unfoldable pub check_events : Bytes → ℕ → ℕ → List SignedPoiEvent → Scraped (List SnapshotEvent)
  check_events list_key start_index offset [] = ok []
  check_events list_key start_index offset (e ∷ rest) = do
    expected ← ok_or (checked_add start_index offset) (index_overflow start_index)
    (if e.index == expected then ok tt else err (non_contiguous_event expected e.index))
    map_err (invalid_event_signature e.index) (verify_poi_event e list_key)
    signature ← decode_event_signature e.signature
    others ← check_events list_key start_index (offset + 1) rest
    ok (
        record {
          event_index = e.index;
          blinded_commitment = e.blinded_commitment;
          signature = signature;
          event_type = e.event_type;
        }
        ∷ others)

  -- The checks on what a request brings; `none` if it brings nothing.
  unfoldable pub page_of : Bytes → ℕ → List SignedPoiEvent → Scraped (Option Page)
  unfolding last_index
  page_of list_key start_index [] = ok none
  page_of list_key start_index (e ∷ rest) = do
    snapshot_events ← check_events list_key start_index 0 (e ∷ rest)
    last ← ok_or (last_index snapshot_events) cache_unavailable
    ok (
        some (record {
          events = e ∷ rest;
          snapshot_events = snapshot_events;
          last_event_index = last;
        }))

  unfoldable pub fetch_page : ScrapeWorker Cache → Answers Cache → Scraped (Option Page)
  fetch_page w a = do
    start_index ← next_start_index w.store
    end_exclusive ← exclusive_end_index start_index w.page_size.current_size
    end_index ← ok_or (checked_sub end_exclusive 1) (index_overflow start_index)
    events ← map_err poi_rpc (a.poi_events start_index end_index)
    page_of w.list_key start_index events

  unfoldable pub load_poi_cache : PoiStore → Scraped Cache
  unfolding snapshot_events_of snapshot_of
  load_poi_cache s = elim (last_event_index s) [
    | none ↦ ok new_cache
    | some last ↦ do
      events ← map_err store_error (page_event_range_for_hydration s.events 0 last)
      map_err cache_error (apply_verified_artifact_events new_cache (snapshot_events_of events))
  ]

  unfoldable pub cached_poi_cache : ScrapeWorker Cache → Scraped Cache
  cached_poi_cache w = elim w.cache [ some cache ↦ ok cache | none ↦ load_poi_cache w.store ]

  -- `if durable_tip.is_none_or(|tip| last_event_index >= tip)`
  unfoldable pub advance_if_newer : PoiStore → ℕ → Bytes → Result StoreError (Option ChainTip)
  advance_if_newer s last root =
      if (elim (last_event_index s) [ none ↦ true | some tip ↦ leb tip last ])
      then advance_chain_tip hex s.tip last (some root)
      else ok s.tip

  -- The transaction that stores a page.
  unfoldable pub store_page : PoiStore → Page → Bytes → Bool → Result StoreError PoiStore
  store_page s page root commits = do
    events ← insert_events hex s.events page.events
    tip ← advance_if_newer s page.last_event_index root
    (if commits then ok (record { events = events; tip = tip }) else err sqlx)

  -- From the applied cache to the stored page: the new cache and the new store.
  unfoldable pub apply_page :
      ScrapeWorker Cache → Answers Cache → Cache → Page → Scraped (Cache × PoiStore)
  apply_page w a cache page = do
    cache' ← map_err cache_error (apply_verified_artifact_events cache page.snapshot_events)
    valid ← map_err cache_error (a.validate_roots cache')
    (if valid then ok tt else err root_rejected)
    let tree_number = (normalize_tree_position 0 page.last_event_index).0
    root ← ok_or (current_roots cache' tree_number) (missing_root tree_number)
    store ← map_err store_error (store_page w.store page (hex.encode_prefixed root) a.commits)
    ok (cache', store)

  unfoldable pub sync_next_page :
      ScrapeWorker Cache → Answers Cache → Scraped SyncPageOutcome × ScrapeWorker Cache
  sync_next_page w a = elim (fetch_page w a) [
    | err e ↦ (err e, w)
    | ok none ↦ (ok caught_up, w)
    | ok (some page) ↦ elim (cached_poi_cache w) [
      | err e ↦ (err e, w)
      | ok cache ↦ elim (apply_page w a cache page) [
        | err e ↦ (err e, record w { cache = some cache })
        | ok (cache', store) ↦ (
          ok (ingested (length page.events) page.last_event_index),
          record w { store = store; cache = some cache' },
        )
      ]
    ]
  ]
