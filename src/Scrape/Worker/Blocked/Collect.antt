-- ===== src/Scrape/Worker/Blocked/Collect.antt =====
-- What a collection of the blocked shields brings
-- (crates/railgun-indexer-core/src/scrape/worker.rs).
use mathlib.Core.List.{append_assoc, append-nil}
use railgun_indexer.Prelude.{
  ℕ, zero, suc, ◌+◌, ◌<◌, ◌≡◌, ◌⊎◌, refl, ◌∙◌, ap, subst, List, [], ◌∷◌, ◌++◌, length, All,
  All-append, Option, none, some, ok, Bool-cases, Result-cases, Option-cases, inl, inr, arith,
  checked_add,
}
use railgun_indexer.Codec.{Bytes}
use railgun_indexer.PoiStore.Blocked.{SignedBlockedShield, StoredBlockedShield}
use railgun_indexer.Scrape.Worker.{Poi, ScrapeWorker, exclusive_end_index}
use railgun_indexer.Scrape.Worker.Loop.{Shutdown, Ended, shrink, grow, retry_fuel}
use railgun_indexer.Scrape.Worker.Loop.Keeps.{with_retry-Returns}
use railgun_indexer.Scrape.Worker.Blocked.{
  BlockedShieldPageOutcome, page_caught_up, page_ingested, BlockedAnswers, verify_blocked_shields,
  page_outcome, sync_blocked_shields_page, sync_blocked_shields_page_with_retry,
  collect_blocked_shields_or_shutdown,
}

-- The upstream served the records, page by page from the given index on, up to an empty page. Each page
-- was the answer of an attempt of its own: the first of one after the attempt `n`, every other of one
-- after that of the page before, and the empty one that of the attempt `m`.
pub data Served (a : BlockedAnswers) : ℕ → ℕ → ℕ → List SignedBlockedShield → Type 0 where
  done : (n m start end : ℕ) → n < m → a.blocked_shields m start end ≡ ok [] → Served a n m start []
  more :
      (n k m start end : ℕ) (page rest : List SignedBlockedShield)
      → n < k
      → a.blocked_shields k start end ≡ ok page
      → Served a k m (start + length page) rest
      → Served a n m start (page ++ rest)

module _ (p : Poi) (down : Shutdown) (a : BlockedAnswers) where
  -- The signature of every record is valid for the list key.
  abbrev pub AllVerified : Bytes → List SignedBlockedShield → Type 0
  AllVerified key records = All (λ r. p.verify_blocked_shield r key ≡ ok tt) records

  verify_blocked_shields-AllVerified :
      (key : Bytes) (records : List SignedBlockedShield)
      → verify_blocked_shields p key records ≡ ok tt
      → AllVerified key records
  unfolding verify_blocked_shields
  verify_blocked_shields-AllVerified key [] h = tt
  verify_blocked_shields-AllVerified key (r ∷ rest) h =
      (ground arith, verify_blocked_shields-AllVerified key rest (ground arith))

  page_outcome_lem :
      (key : Bytes) (records : List SignedBlockedShield) (o : BlockedShieldPageOutcome)
      → page_outcome p key records ≡ ok o
      → ((o ≡ page_caught_up) × (records ≡ []))
        ⊎ ((o ≡ page_ingested records) × AllVerified key records)
  unfolding page_outcome
  page_outcome_lem key [] o h = inl (ground arith, refl)
  page_outcome_lem key (r ∷ rest) o h =
      elim (Result-cases (verify_blocked_shields p key (r ∷ rest))) [
        | inr (_, bad) ↦ absurd (ground arith)
        | inl (_, good) ↦ inr (ground arith, verify_blocked_shields-AllVerified key (r ∷ rest) good)
      ]

  -- The list key and the table of a worker.
  abbrev Holds : Bytes → List StoredBlockedShield → ScrapeWorker p.Cache → Type 0
  Holds key table w = (w.list_key ≡ key) × (w.blocked_shields ≡ table)

  -- The records of a page that came back, as the upstream served them.
  served_lem :
      (start k : ℕ) (w : ScrapeWorker p.Cache) (o : BlockedShieldPageOutcome)
      → (sync_blocked_shields_page p down a start k w).0 ≡ ok o
      → (end : ℕ) × (records : List SignedBlockedShield) × (a.blocked_shields k start end
          ≡ ok records)
        × (page_outcome p w.list_key records ≡ ok o)
  unfolding sync_blocked_shields_page
  served_lem start k w o h =
      elim (Result-cases (exclusive_end_index start w.page_size.current_size)) [
        | inr (_, bad) ↦ absurd (ground arith)
        | inl (end, e) ↦ elim (Result-cases (a.blocked_shields k start end)) [
          | inr (_, bad) ↦ absurd (ground arith)
          | inl (records, came) ↦ (end, records, came, ground arith)
        ]
      ]

  Holds-step :
      (key : Bytes) (table : List StoredBlockedShield) (start n : ℕ) (w : ScrapeWorker p.Cache)
      → Holds key table w
      → Holds key table (sync_blocked_shields_page p down a start n w).1
  unfolding sync_blocked_shields_page
  Holds-step key table start n w q = q

  Holds-shrink :
      (key : Bytes) (table : List StoredBlockedShield) (w : ScrapeWorker p.Cache)
      → Holds key table w
      → Holds key table (shrink w)
  unfolding shrink
  Holds-shrink key table w q = q

  Holds-grow :
      (key : Bytes) (table : List StoredBlockedShield) (w : ScrapeWorker p.Cache)
      → Holds key table w
      → Holds key table (grow w)
  unfolding grow
  Holds-grow key table w q = q

  -- How a page with retries ends: the table stays, and an outcome is that of records served.
  page_lem :
      (start n : ℕ) (w : ScrapeWorker p.Cache) (key : Bytes) (table : List StoredBlockedShield)
      (r : Ended p.Cache (Option BlockedShieldPageOutcome))
      → Holds key table w
      → sync_blocked_shields_page_with_retry p down a start n w ≡ some r
      → Holds key table r.worker
        × ((o : BlockedShieldPageOutcome)
            → r.result ≡ ok (some o)
            → (k : ℕ) × (end : ℕ) × (records : List SignedBlockedShield) × (a.blocked_shields k
                  start end
                ≡ ok records)
              × (page_outcome p key records ≡ ok o)
              × (n < k)
              × (r.attempted ≡ k))
  unfolding sync_blocked_shields_page_with_retry
  page_lem start n w key table r q h =
      let returns =
        with_retry-Returns down (sync_blocked_shields_page p down a start) (Holds key table)
          (Holds-step key table start) (Holds-shrink key table) (retry_fuel w) n w r q h in
      (
        returns.keeps,
        λ o good.
            let (k, w0, held, outcome, _, after, last) = returns.outcome o good in
            let (end, records, came, judged) = served_lem start k w0 o outcome in
            (k, end, records, came, rw held.0 at judged, after, last),
      )

  -- How a collection ends: with the same table, and if with records, then with those that the upstream
  -- served, each of them verified.
  pub record Collects (w : ScrapeWorker p.Cache) (n start : ℕ) (before : List SignedBlockedShield)
      (r : Ended p.Cache (Option (List SignedBlockedShield))) : Type 0 where
    pub holds : Holds w.list_key w.blocked_shields r.worker
    pub collected :
        (records : List SignedBlockedShield)
        → r.result ≡ ok (some records)
        → (rest : List SignedBlockedShield) × (records ≡ before ++ rest)
          × Served a n r.attempted start rest
          × AllVerified w.list_key rest

  ingested_lem :
      (key : Bytes) (came records : List SignedBlockedShield)
      → page_outcome p key came ≡ ok (page_ingested records)
      → (came ≡ records) × AllVerified key records
  ingested_lem key came records h = elim (page_outcome_lem key came (page_ingested records) h) [
    | inl (other, _) ↦ absurd cc
    | inr (same, verified) ↦
        let agree : came ≡ records = cc same in (agree, subst (AllVerified key) agree verified)
  ]

  -- One more page in front of a collection.
  more_lem :
      (w w' : ScrapeWorker p.Cache) (n start k end : ℕ) (before records : List SignedBlockedShield)
      (r : Ended p.Cache (Option (List SignedBlockedShield)))
      → Holds w.list_key w.blocked_shields w'
      → a.blocked_shields k start end ≡ ok records
      → AllVerified w.list_key records
      → n < k
      → Collects w' k (start + length records) (before ++ records) r
      → Collects w n start before r
  more_lem w w' n start k end before records r held came verified after later = record {
    holds = (later.holds.0 ∙ held.0, later.holds.1 ∙ held.1);
    collected = λ all c.
        let (rest, joined, served, rest_verified) = later.collected all c in
        (
          records ++ rest,
          joined ∙ append_assoc before records rest,
          Served.more n k r.attempted start end records rest after came served,
          All-append (λ r. p.verify_blocked_shield r w.list_key ≡ ok tt) records rest verified
              (rw held.0 at rest_verified),
        );
  }

  pub collect-Collects :
      (fuel start n : ℕ) (before : List SignedBlockedShield) (w : ScrapeWorker p.Cache)
      (r : Ended p.Cache (Option (List SignedBlockedShield)))
      → collect_blocked_shields_or_shutdown p down a fuel start before n w ≡ some r
      → Collects w n start before r
  unfolding collect_blocked_shields_or_shutdown
  collect-Collects zero start n before w r h = absurd (ground arith)
  collect-Collects (suc fuel) start n before w r h = elim (Bool-cases (down.requested n)) [
    | inl stop ↦
        let end : r.worker ≡ w = ground arith in
        record { holds = rw end (refl, refl); collected = λ records c. absurd (ground arith) }
    | inr on ↦ elim (Option-cases (sync_blocked_shields_page_with_retry p down a start n w)) [
      | inl spent ↦ absurd (ground arith)
      | inr (page, e) ↦
          let (held, outcome) =
            page_lem start n w w.list_key w.blocked_shields page (refl, refl) e in
          elim (Result-cases page.result) [
            | inr (error, bad) ↦
                let end : r.worker ≡ page.worker = ground arith in
                record { holds = rw end held; collected = λ records c. absurd (ground arith) }
            | inl (none, stopped) ↦
                let end : r.worker ≡ page.worker = ground arith in
                record { holds = rw end held; collected = λ records c. absurd (ground arith) }
            | inl (some page_caught_up, good) ↦
                let end : r.worker ≡ page.worker = ground arith in
                let (k, at, records, came, judged, after, last) = outcome page_caught_up good in
                record {
                  holds = rw end held;
                  collected = λ all c.
                      let same : all ≡ before = ground arith in
                      let same_n : r.attempted ≡ k = ground arith in
                      let empty : records ≡ [] =
                        elim (page_outcome_lem w.list_key records page_caught_up judged) [
                          | inl (_, none_came) ↦ none_came
                          | inr (other, _) ↦ absurd cc
                        ] in
                      (
                        [],
                        rw append-nil same,
                        Served.done n r.attempted start at (rw same_n after)
                            (rw same_n (came ∙ ap ok empty)),
                        tt,
                      );
                }
            | inl (some (page_ingested records), good) ↦
                let (k, at, came, served, judged, after, last) =
                  outcome (page_ingested records) good in
                let (agree, verified) = ingested_lem w.list_key came records judged in
                elim (Option-cases (checked_add start (length records))) [
                  | inl over ↦
                      let end : r.worker ≡ page.worker = ground arith in
                      record { holds = rw end held; collected = λ all c. absurd (ground arith) }
                  | inr (next, added) ↦ elim (Bool-cases (down.interrupts page.attempted)) [
                    | inl slept ↦
                        let end : r.worker ≡ grow page.worker = ground arith in
                        record {
                          holds = rw end (Holds-grow w.list_key w.blocked_shields page.worker held);
                          collected = λ all c. absurd (ground arith);
                        }
                    | inr going ↦
                        let sum : next ≡ start + length records = ground arith in
                        let later =
                          collect-Collects fuel next page.attempted (before ++ records)
                            (grow page.worker) r (ground arith) in
                        more_lem w (grow page.worker) n start k at before records r
                          (Holds-grow w.list_key w.blocked_shields page.worker held)
                          (served ∙ ap ok agree) verified after (rw (sum, last) at later)
                  ]
                ]
          ]
    ]
  ]
