-- ===== src/Scrape/Worker/Blocked.antt =====
-- The blocked shields of the worker: the pages, their collection and the synchronisation of the
-- table (crates/railgun-indexer-core/src/scrape/worker.rs).
pub mod Order
pub mod Match
pub mod Collect
pub mod Sync
use railgun_indexer.Prelude.{
  ℕ, zero, suc, ◌+◌, List, [], ◌∷◌, ◌++◌, map, length, Option, none, some, Bool, true, false, ◌&&◌,
  ◌==◌, if◌then◌else◌, Result, ok, err, ◌>>=◌, ◌>>◌, ok_or, map_err, checked_add,
}
use railgun_indexer.Codec.{Bytes}
use railgun_indexer.PoiStore.{bytes_eq, Hex, sqlx}
use railgun_indexer.PoiStore.Blocked.{
  SignedBlockedShield, StoredBlockedShield, bytes_lt, all_blocked_shields, replace_blocked_shields,
}
use railgun_indexer.Scrape.Worker.{Poi, ScrapeWorker, Scraped, exclusive_end_index}
use railgun_indexer.Scrape.Worker.Errors.{
  RpcError, ScrapeError, poi_rpc, verify, store_error, blocked_shield_index_overflow,
  blocked_shield_set_changed, no_retry_attempts_configured,
}
use railgun_indexer.Scrape.Worker.Loop.{
  Shutdown, Ended, RunUntilOutcome, run_caught_up, run_shutdown, grow, with_retry, retry_fuel,
}

pub data BlockedShieldPageOutcome : Type 0 where
  page_caught_up : BlockedShieldPageOutcome
  page_ingested : List SignedBlockedShield → BlockedShieldPageOutcome

-- What the upstream answers in the n-th attempt, and whether the transaction commits.
pub record BlockedAnswers : Type 0 where
  pub blocked_shields : ℕ → ℕ → ℕ → Result RpcError (List SignedBlockedShield)
  pub commits : Bool

option_lt : Option Bytes → Option Bytes → Bool
option_lt none none = false
option_lt none (some b) = true
option_lt (some a) none = false
option_lt (some a) (some b) = bytes_lt a b

-- `Less` by `cmp`, chained with `then_with`.
unfoldable pub shield_lt : SignedBlockedShield → SignedBlockedShield → Bool
unfolding option_lt
shield_lt a b =
    if bytes_lt a.blinded_commitment b.blinded_commitment
    then true
    else if bytes_lt b.blinded_commitment a.blinded_commitment
    then false
    else if bytes_lt a.commitment_hash b.commitment_hash
    then true
    else if bytes_lt b.commitment_hash a.commitment_hash
    then false
    else if bytes_lt a.signature b.signature
    then true
    else if bytes_lt b.signature a.signature
    then false
    else option_lt a.block_reason b.block_reason

unfoldable pub insert_shield :
    SignedBlockedShield → List SignedBlockedShield → List SignedBlockedShield
insert_shield r [] = r ∷ []
insert_shield r (s ∷ rest) = if shield_lt s r then s ∷ insert_shield r rest else r ∷ s ∷ rest

-- `sort_by` is stable, and so is this insertion sort.
unfoldable pub sort_blocked_shields : List SignedBlockedShield → List SignedBlockedShield
sort_blocked_shields [] = []
sort_blocked_shields (r ∷ rest) = insert_shield r (sort_blocked_shields rest)

option_eq : Option Bytes → Option Bytes → Bool
option_eq none none = true
option_eq none (some b) = false
option_eq (some a) none = false
option_eq (some a) (some b) = bytes_eq a b

unfoldable pub shield_eq : SignedBlockedShield → SignedBlockedShield → Bool
unfolding option_eq
shield_eq a b =
    bytes_eq a.commitment_hash b.commitment_hash
    && (bytes_eq a.blinded_commitment b.blinded_commitment
        && (option_eq a.block_reason b.block_reason && bytes_eq a.signature b.signature))

unfoldable pub shields_eq : List SignedBlockedShield → List SignedBlockedShield → Bool
shields_eq [] [] = true
shields_eq [] (b ∷ bs) = false
shields_eq (a ∷ as_) [] = false
shields_eq (a ∷ as_) (b ∷ bs) = shield_eq a b && shields_eq as_ bs

unfoldable pub blocked_shield_sets_match :
    List SignedBlockedShield → List SignedBlockedShield → Bool
blocked_shield_sets_match left right =
    shields_eq (sort_blocked_shields left) (sort_blocked_shields right)

stored_blocked_shield : Hex → StoredBlockedShield → SignedBlockedShield
stored_blocked_shield h r = record {
  commitment_hash = h.encode_prefixed r.commitment_hash;
  blinded_commitment = h.encode_prefixed r.blinded_commitment;
  block_reason = r.block_reason;
  signature = h.encode r.signature;
}

unfoldable pub stored_blocked_shields : Hex → List StoredBlockedShield → List SignedBlockedShield
unfolding stored_blocked_shield
stored_blocked_shields h records = map (stored_blocked_shield h) records

module _ (p : Poi) where
  open p use {Cache, hex, verify_blocked_shield}

  unfoldable pub verify_blocked_shields : Bytes → List SignedBlockedShield → Scraped (Unit {0})
  verify_blocked_shields list_key [] = ok tt
  verify_blocked_shields list_key (r ∷ rest) = do
    map_err verify (verify_blocked_shield r list_key)
    verify_blocked_shields list_key rest

  unfoldable pub page_outcome : Bytes → List SignedBlockedShield → Scraped BlockedShieldPageOutcome
  page_outcome list_key [] = ok page_caught_up
  page_outcome list_key (r ∷ rest) = do
    verify_blocked_shields list_key (r ∷ rest)
    ok (page_ingested (r ∷ rest))

  module _ (down : Shutdown) (a : BlockedAnswers) where
    open down use {requested, interrupts}

    unfoldable pub sync_blocked_shields_page :
        ℕ → ℕ → ScrapeWorker Cache → Scraped BlockedShieldPageOutcome × ScrapeWorker Cache
    sync_blocked_shields_page start_index n w = (
      do
        end_index ← exclusive_end_index start_index w.page_size.current_size
        records ← map_err poi_rpc (a.blocked_shields n start_index end_index)
        page_outcome w.list_key records,
      w,
    )

    unfoldable pub sync_blocked_shields_page_with_retry :
        ℕ → ℕ → ScrapeWorker Cache → Option (Ended Cache (Option BlockedShieldPageOutcome))
    sync_blocked_shields_page_with_retry start_index n w =
        with_retry down (sync_blocked_shields_page start_index) (retry_fuel w) n w

    -- The `loop`, on one unit of fuel per page.
    unfoldable pub collect_blocked_shields_or_shutdown :
        ℕ
        → ℕ
        → List SignedBlockedShield
        → ℕ
        → ScrapeWorker Cache
        → Option (Ended Cache (Option (List SignedBlockedShield)))
    collect_blocked_shields_or_shutdown zero start_index all_records n w = none
    collect_blocked_shields_or_shutdown (suc fuel) start_index all_records n w =
        elim (requested n) [
          | true ↦ some (record { result = ok none; worker = w; attempted = n })
          | false ↦ elim (sync_blocked_shields_page_with_retry start_index n w) [
            | none ↦ none
            | some page ↦ elim page.result [
              | err error ↦
                  some (record {
                    result = err error;
                    worker = page.worker;
                    attempted = page.attempted;
                  })
              | ok none ↦
                  some
                    (record { result = ok none; worker = page.worker; attempted = page.attempted })
              | ok (some page_caught_up) ↦ some (record {
                result = ok (some all_records);
                worker = page.worker;
                attempted = page.attempted;
              })
              | ok (some (page_ingested records)) ↦
                  elim (checked_add start_index (length records)) [
                    | none ↦ some (record {
                      result = err (blocked_shield_index_overflow start_index);
                      worker = page.worker;
                      attempted = page.attempted;
                    })
                    | some next ↦ elim (interrupts page.attempted) [
                      | true ↦ some (record {
                        result = ok none;
                        worker = grow page.worker;
                        attempted = page.attempted;
                      })
                      | false ↦
                          collect_blocked_shields_or_shutdown fuel next (all_records ++ records)
                            page.attempted (grow page.worker)
                    ]
                  ]
            ]
          ]
        ]

    -- From the two collections on: the check that they agree, and the transaction.
    unfoldable pub replace_if_unchanged :
        ScrapeWorker Cache
        → List SignedBlockedShield
        → List SignedBlockedShield
        → Scraped RunUntilOutcome × ScrapeWorker Cache
    replace_if_unchanged w first_records second_records =
        if blocked_shield_sets_match first_records second_records
        then elim (replace_blocked_shields hex w.blocked_shields second_records) [
          | err e ↦ (err (store_error e), w)
          | ok rows ↦
              if a.commits
              then (ok run_caught_up, record w { blocked_shields = rows })
              else (err (store_error sqlx), w)
        ]
        else (err (blocked_shield_set_changed (length first_records) (length second_records)), w)

    abbrev ended :
        Scraped RunUntilOutcome → ScrapeWorker Cache → ℕ → Option (Ended Cache RunUntilOutcome)
    ended result w n = some (record { result = result; worker = w; attempted = n })

    unfoldable pub sync_blocked_shields_until_caught_up_or_shutdown :
        ℕ → ScrapeWorker Cache → Option (Ended Cache RunUntilOutcome)
    sync_blocked_shields_until_caught_up_or_shutdown fuel w =
        if w.retry_policy.budget == 0
        then ended (err no_retry_attempts_configured) w 0
        else elim (collect_blocked_shields_or_shutdown fuel 0 [] 0 w) [
          | none ↦ none
          | some first ↦ elim first.result [
            | err e ↦ ended (err e) first.worker first.attempted
            | ok none ↦ ended (ok run_shutdown) first.worker first.attempted
            | ok (some first_records) ↦
                if blocked_shield_sets_match first_records
                  (stored_blocked_shields hex (all_blocked_shields first.worker.blocked_shields))
                then ended (ok run_caught_up) first.worker first.attempted
                else elim (collect_blocked_shields_or_shutdown fuel 0 [] first.attempted
                    first.worker) [
                      | none ↦ none
                      | some second ↦ elim second.result [
                        | err e ↦ ended (err e) second.worker second.attempted
                        | ok none ↦ ended (ok run_shutdown) second.worker second.attempted
                        | ok (some second_records) ↦
                            let end =
                              replace_if_unchanged second.worker first_records second_records in
                            ended end.0 end.1 second.attempted
                      ]
                    ]
          ]
        ]
