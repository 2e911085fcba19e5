-- ===== src/Scrape/Worker/Blocked/Sync.antt =====
-- What a synchronisation of the blocked shields does
-- (crates/railgun-indexer-core/src/scrape/worker.rs).
use mathlib.Core.List.{Perm}
use railgun_indexer.Prelude.{
  ℕ, ◌≡◌, ◌≢◌, ◌⊎◌, refl, ◌∙◌, sym, ap, List, [], Option, none, some, true, false, ok, Bool-cases,
  Result-cases, Option-cases, inl, inr, arith, ◌==◌,
}
use railgun_indexer.Codec.{Bytes}
use railgun_indexer.PoiStore.Blocked.{
  SignedBlockedShield, StoredBlockedShield, all_blocked_shields, replace_blocked_shields,
}
use railgun_indexer.Scrape.Worker.{Poi, ScrapeWorker}
use railgun_indexer.Scrape.Worker.Loop.{Shutdown, Ended, RunUntilOutcome, run_caught_up}
use railgun_indexer.Scrape.Worker.Blocked.{
  BlockedAnswers, blocked_shield_sets_match, stored_blocked_shields,
  collect_blocked_shields_or_shutdown, replace_if_unchanged,
  sync_blocked_shields_until_caught_up_or_shutdown,
}
use railgun_indexer.Scrape.Worker.Blocked.Collect.{Served, AllVerified, Collects, collect-Collects}
use railgun_indexer.Scrape.Worker.Blocked.Match.{blocked_shield_sets_match_iff}

module _ (p : Poi) (down : Shutdown) (a : BlockedAnswers) where
  -- The upstream served a whole set in attempts after `n`, the last one `m`; its records are verified.
  abbrev pub Offers : Bytes → ℕ → ℕ → List SignedBlockedShield → Type 0
  Offers key n m records = Served a n m 0 records × AllVerified p down a key records

  -- The table agrees with what was served up to the attempt `m`: it had the same records already, or it
  -- was replaced by the same set, that was served again in later attempts.
  abbrev pub Agrees :
      Bytes
      → List StoredBlockedShield
      → List StoredBlockedShield
      → List SignedBlockedShield
      → ℕ
      → ℕ
      → Type 0
  Agrees key before after served m last =
      ((after ≡ before) × Perm served (stored_blocked_shields p.hex (all_blocked_shields before)))
      ⊎ ((again : List SignedBlockedShield) × Offers key m last again
          × Perm served again
          × (replace_blocked_shields p.hex before again ≡ ok after))

  -- How a synchronisation ends.
  pub record Syncs (w : ScrapeWorker p.Cache) (r : Ended p.Cache RunUntilOutcome) : Type 0 where
    pub caught_up :
        r.result ≡ ok run_caught_up
        → (served : List SignedBlockedShield) × (m : ℕ) × Offers w.list_key 0 m served
          × Agrees w.list_key w.blocked_shields r.worker.blocked_shields served m r.attempted
    pub otherwise : r.result ≢ ok run_caught_up → r.worker.blocked_shields ≡ w.blocked_shields

  replace_lem :
      (w : ScrapeWorker p.Cache) (first second : List SignedBlockedShield)
      → (((replace_if_unchanged p down a w first second).0 ≢ ok run_caught_up)
          × ((replace_if_unchanged p down a w first second).1 ≡ w))
        ⊎ ((blocked_shield_sets_match first second ≡ true)
            × ((replace_if_unchanged p down a w first second).0 ≡ ok run_caught_up)
            × (replace_blocked_shields p.hex w.blocked_shields second
                ≡ ok (replace_if_unchanged p down a w first second).1.blocked_shields))
  unfolding replace_if_unchanged
  replace_lem w first second = elim (Bool-cases (blocked_shield_sets_match first second)) [
    | inr differ ↦ inl (λ c. ground arith, ground arith)
    | inl match ↦ elim (Result-cases (replace_blocked_shields p.hex w.blocked_shields second)) [
      | inr (_, bad) ↦ inl (λ c. ground arith, ground arith)
      | inl (rows, good) ↦ elim (Bool-cases a.commits) [
        | inr lost ↦ inl (λ c. ground arith, ground arith)
        | inl kept ↦
            let after : (replace_if_unchanged p down a w first second).1.blocked_shields ≡ rows =
              ground arith in
            inr (match, ground arith, good ∙ ap ok (sym after))
      ]
    ]
  ]

  unchanged :
      (w w' : ScrapeWorker p.Cache) (r : Ended p.Cache RunUntilOutcome)
      → w'.blocked_shields ≡ w.blocked_shields
      → r.worker ≡ w'
      → r.result ≢ ok run_caught_up
      → Syncs w r
  unchanged w w' r same end other = record {
    caught_up = λ c. absurd (other c);
    otherwise = λ _. ap (λ (v : ScrapeWorker p.Cache). v.blocked_shields) end ∙ same;
  }

  -- From the first collection on.
  after_first :
      (fuel : ℕ) (w : ScrapeWorker p.Cache)
      (first : Ended p.Cache (Option (List SignedBlockedShield)))
      (records : List SignedBlockedShield) (r : Ended p.Cache RunUntilOutcome)
      → Collects p down a w 0 0 [] first
      → first.result ≡ ok (some records)
      → (w.retry_policy.budget == 0) ≡ false
      → collect_blocked_shields_or_shutdown p down a fuel 0 [] 0 w ≡ some first
      → sync_blocked_shields_until_caught_up_or_shutdown p down a fuel w ≡ some r
      → Syncs w r
  unfolding sync_blocked_shields_until_caught_up_or_shutdown
  after_first fuel w first records r one good budget e h =
      let (served, joined, offered, verified) = one.collected records good in
      let local = stored_blocked_shields p.hex (all_blocked_shields first.worker.blocked_shields) in
      elim (Bool-cases (blocked_shield_sets_match records local)) [
        | inl match ↦
            let end : r.worker ≡ first.worker = ground arith in
            let perm = (blocked_shield_sets_match_iff records local).0 match in
            record {
              caught_up = λ _. (
                served,
                first.attempted,
                (offered, verified),
                inl (
                  ap (λ (v : ScrapeWorker p.Cache). v.blocked_shields) end ∙ one.holds.1,
                  rw (← joined, ← one.holds.1) perm,
                ),
              );
              otherwise = λ o. absurd (o (ground arith));
            }
        | inr differ ↦
            elim (Option-cases (
              collect_blocked_shields_or_shutdown p down a fuel 0 [] first.attempted
                first.worker)) [
                  | inl spent ↦ absurd (ground arith)
                  | inr (second, e2) ↦
                      let two =
                        collect-Collects p down a fuel 0 first.attempted [] first.worker second
                          e2 in
                      let same = two.holds.1 ∙ one.holds.1 in
                      elim (Result-cases second.result) [
                        | inr (_, bad) ↦
                            unchanged w second.worker r same (ground arith) (λ c. ground arith)
                        | inl (none, stopped) ↦
                            unchanged w second.worker r same (ground arith) (λ c. ground arith)
                        | inl (some again, good2) ↦
                            let end : r.worker
                                ≡ (replace_if_unchanged p down a second.worker records again).1 =
                              ground arith in
                            let result : r.result
                                ≡ (replace_if_unchanged p down a second.worker records again).0 =
                              ground arith in
                            let attempts : r.attempted ≡ second.attempted = ground arith in
                            let (served2, joined2, offered2, verified2) =
                              two.collected again good2 in
                            elim (replace_lem second.worker records again) [
                              | inl (other, kept) ↦
                                  unchanged w second.worker r same (end ∙ kept)
                                    (λ c. other (sym result ∙ c))
                              | inr (match, finished, replaced) ↦
                                  let perm =
                                    (blocked_shield_sets_match_iff records again).0 match in
                                  record {
                                    caught_up = λ _. (
                                      served,
                                      first.attempted,
                                      (offered, verified),
                                      inr (
                                        again,
                                        (
                                          rw (attempts, joined2) offered2,
                                          rw (joined2, ← one.holds.0) verified2,
                                        ),
                                        rw (← joined) perm,
                                        rw (end, ← same) replaced,
                                      ),
                                    );
                                    otherwise = λ o. absurd (o (result ∙ finished));
                                  }
                            ]
                      ]
                ]
      ]

  -- A synchronisation of the blocked shields that ends as caught up has verified every record that the
  -- upstream served, and the table had the same records already, or it was replaced by the same set, which
  -- the upstream served once more in attempts after those that served it first. If it ends otherwise, the table is as before.
  pub sync_blocked_shields-Syncs :
      (fuel : ℕ) (w : ScrapeWorker p.Cache) (r : Ended p.Cache RunUntilOutcome)
      → sync_blocked_shields_until_caught_up_or_shutdown p down a fuel w ≡ some r
      → Syncs w r
  unfolding sync_blocked_shields_until_caught_up_or_shutdown
  sync_blocked_shields-Syncs fuel w r h = elim (Bool-cases (w.retry_policy.budget == 0)) [
    | inl nothing ↦ unchanged w w r refl (ground arith) (λ c. ground arith)
    | inr some_budget ↦
        elim (Option-cases (collect_blocked_shields_or_shutdown p down a fuel 0 [] 0 w)) [
          | inl spent ↦ absurd (ground arith)
          | inr (first, e) ↦
              let one = collect-Collects p down a fuel 0 0 [] w first e in
              elim (Result-cases first.result) [
                | inr (_, bad) ↦
                    unchanged w first.worker r one.holds.1 (ground arith) (λ c. ground arith)
                | inl (none, stopped) ↦
                    unchanged w first.worker r one.holds.1 (ground arith) (λ c. ground arith)
                | inl (some records, good) ↦
                    after_first fuel w first records r one good some_budget e h
              ]
        ]
  ]
