-- ===== src/Examples/Loop.antt =====
-- The loops of the worker at concrete inputs
-- (crates/railgun-indexer-core/src/scrape/worker.rs).
use mathlib.Core.List.{Perm}
use railgun_indexer.Prelude.{
  ℕ, ◌+◌, ◌≡◌, ◌≢◌, ◌↔◌, refl, List, [], ◌∷◌, replicate, none, some, Bool, true, false, ltb,
  if◌then◌else◌, arith, ok, Option-cases, inl, inr,
}
use railgun_indexer.PoiStore.{
  SignedPoiEvent, first_incomplete_event_index, bytes_eq, decode_fixed_hex,
}
use railgun_indexer.PoiStore.Blocked.{
  SignedBlockedShield, StoredBlockedShield, upsert_row, bytes_lt, all_blocked_shields,
  decode_blocked_shield, upsert_blocked_shields, replace_blocked_shields,
}
use railgun_indexer.PoiStore.Blocked.Lookup.{lookup, last_record, replace_blocked_shields-lookup}
use railgun_indexer.Scrape.PageSize.{new, on_success}
use railgun_indexer.Scrape.PageSize.Bounds.{new-IsValid}
use railgun_indexer.Scrape.Worker.{
  Answers, sync_next_page, fetch_page, next_start_index, exclusive_end_index, page_of,
}
use railgun_indexer.Scrape.Worker.Loop.{
  Shutdown, Ended, RunUntilOutcome, run_caught_up, run_until_caught_up_or_shutdown, run_pages,
  sync_next_page_with_retry, with_retry, retry_attempts, grow,
}
use railgun_indexer.Scrape.Worker.Loop.Total.{sync_next_page_with_retry-ne-none}
use railgun_indexer.Scrape.Worker.Loop.Run.{IsSound, NothingNew, run-IsSound, run-NothingNew}
use railgun_indexer.Scrape.Worker.Loop.Ends.{EndsBefore, IsComplete, run-ne-none}
use railgun_indexer.Scrape.Worker.Blocked.{
  BlockedAnswers, blocked_shield_sets_match, stored_blocked_shields,
  sync_blocked_shields_until_caught_up_or_shutdown, collect_blocked_shields_or_shutdown,
  sync_blocked_shields_page_with_retry, sync_blocked_shields_page, page_outcome,
  verify_blocked_shields, replace_if_unchanged, sort_blocked_shields, insert_shield, shields_eq,
  shield_eq, shield_lt,
}
use railgun_indexer.Scrape.Worker.Blocked.Match.{blocked_shield_sets_match_iff}
use railgun_indexer.Scrape.Worker.Blocked.Sync.{Syncs, sync_blocked_shields-Syncs}
use railgun_indexer.Examples.Data.{hex, poi}
use railgun_indexer.Examples.Store.{event, worker, store-IsGapless}

abbrev down : Shutdown
down = record { requested = λ n. false; interrupts = λ n. false }

-- An upstream with five events.
events_at : ℕ → Bool → List SignedPoiEvent
events_at start more = if more then event start ∷ [] else []

abbrev five : ℕ → Answers ℕ
five n = record {
  poi_events = λ start end. ok (events_at start (ltb start 5));
  validate_roots = λ cache. ok true;
  commits = true;
}

five-EndsBefore : EndsBefore poi 5 five
unfolding events_at
five-EndsBefore k start end events over came = ground arith

worker-IsSound : IsSound worker
worker-IsSound = record { gapless = store-IsGapless; sized = new-IsValid 100 100 25 }

worker-IsComplete : IsComplete worker.store
unfolding first_incomplete_event_index
worker-IsComplete = refl

sync_next_page_with_retry-ne-none_example : sync_next_page_with_retry poi down five 0 worker ≢ none
sync_next_page_with_retry-ne-none_example =
    sync_next_page_with_retry-ne-none poi down five 0 worker (new-IsValid 100 100 25)

run-ne-none_example : run_until_caught_up_or_shutdown poi down five 6 worker ≢ none
run-ne-none_example =
    run-ne-none poi down five 5 worker five-EndsBefore worker-IsSound worker-IsComplete

ran :
    (r : Ended ℕ RunUntilOutcome) × (run_until_caught_up_or_shutdown poi down five 6 worker
      ≡ some r)
ran = elim (Option-cases (run_until_caught_up_or_shutdown poi down five 6 worker)) [
  | inl stuck ↦
      absurd
        (run-ne-none poi down five 5 worker five-EndsBefore worker-IsSound worker-IsComplete stuck)
  | inr (r, e) ↦ (r, e)
]

run-IsSound_example : IsSound ran.0.worker
run-IsSound_example = run-IsSound poi down five 6 worker ran.0 worker-IsSound ran.1

-- An upstream that has nothing new.
abbrev silent : ℕ → Answers ℕ
silent n = record {
  poi_events = λ start end. ok [];
  validate_roots = λ cache. ok true;
  commits = true;
}

idle :
    (r : Ended ℕ RunUntilOutcome) × (run_until_caught_up_or_shutdown poi down silent 1 worker
      ≡ some r)
    × (r.result ≡ ok run_caught_up)
unfolding run_until_caught_up_or_shutdown run_pages sync_next_page_with_retry with_retry
    retry_attempts sync_next_page fetch_page next_start_index first_incomplete_event_index
    exclusive_end_index new page_of
idle = (_, refl, refl)

run-NothingNew_example : (k : ℕ) × NothingNew poi down silent idle.0.worker k
run-NothingNew_example = run-NothingNew poi down silent 1 worker idle.0 idle.1 idle.2

abbrev shield : ℕ → SignedBlockedShield
shield n = record {
  commitment_hash = replicate 32 n;
  blinded_commitment = replicate 32 (n + 1);
  block_reason = none;
  signature = replicate 64 9;
}

replaced :
    (rows : List StoredBlockedShield) × (replace_blocked_shields hex [] (shield 1 ∷ shield 2 ∷ [])
      ≡ ok rows)
unfolding replace_blocked_shields upsert_blocked_shields decode_blocked_shield decode_fixed_hex
    upsert_row bytes_eq
replaced = (_, refl)

replace_blocked_shields-lookup_example :
    lookup (replicate 32 2) replaced.0
    ≡ last_record hex (replicate 32 2) (shield 1 ∷ shield 2 ∷ []) none
replace_blocked_shields-lookup_example =
    replace_blocked_shields-lookup hex [] replaced.0 (shield 1 ∷ shield 2 ∷ []) (replicate 32 2)
      replaced.1

blocked_shield_sets_match_iff_example :
    (blocked_shield_sets_match (shield 1 ∷ shield 2 ∷ []) (shield 2 ∷ shield 1 ∷ []) ≡ true)
    ↔ Perm (shield 1 ∷ shield 2 ∷ []) (shield 2 ∷ shield 1 ∷ [])
blocked_shield_sets_match_iff_example =
    blocked_shield_sets_match_iff (shield 1 ∷ shield 2 ∷ []) (shield 2 ∷ shield 1 ∷ [])

match_test : blocked_shield_sets_match (shield 1 ∷ shield 2 ∷ []) (shield 2 ∷ shield 1 ∷ []) ≡ true
unfolding blocked_shield_sets_match sort_blocked_shields insert_shield shield_lt bytes_lt shields_eq
    shield_eq bytes_eq
match_test = refl

-- An upstream that serves one record.
blocked_at : Bool → List SignedBlockedShield
blocked_at first = if first then shield 1 ∷ [] else []

abbrev blocked : BlockedAnswers
blocked = record { blocked_shields = λ n start end. ok (blocked_at (ltb start 1)); commits = true }

synced :
    (r : Ended ℕ RunUntilOutcome) × (sync_blocked_shields_until_caught_up_or_shutdown poi down
        blocked 2 worker
      ≡ some r)
unfolding sync_blocked_shields_until_caught_up_or_shutdown collect_blocked_shields_or_shutdown
    sync_blocked_shields_page_with_retry with_retry retry_attempts sync_blocked_shields_page
    exclusive_end_index new page_outcome verify_blocked_shields blocked_at grow
    blocked_shield_sets_match sort_blocked_shields insert_shield shield_lt bytes_lt shields_eq
    shield_eq bytes_eq stored_blocked_shields all_blocked_shields replace_if_unchanged
    replace_blocked_shields upsert_blocked_shields decode_blocked_shield decode_fixed_hex upsert_row
    on_success
synced = (_, refl)

sync_blocked_shields-Syncs_example : Syncs poi down blocked worker synced.0
sync_blocked_shields-Syncs_example =
    sync_blocked_shields-Syncs poi down blocked 2 worker synced.0 synced.1
