-- ===== src/Scrape/Worker/Loop/Keeps.antt =====
-- What the loops of the worker keep, and what their ends mean
-- (crates/railgun-indexer-core/src/scrape/worker.rs).
use railgun_indexer.Prelude.{
  ℕ, zero, suc, ◌+◌, ◌<◌, ◌≡◌, some, Option, ok, Result-cases, Bool-cases, inl, inr, ltb, ◌==◌,
  arith,
}
use railgun_indexer.Scrape.Worker.{ScrapeWorker, Scraped}
use railgun_indexer.Scrape.Worker.Errors.{is_retryable}
use railgun_indexer.Scrape.Worker.Loop.{Shutdown, Ended, shrink, retry_attempts, with_retry}

module _ {C T : Type 0} (down : Shutdown)
    (attempt : ℕ → ScrapeWorker C → Scraped T × ScrapeWorker C) (P : ScrapeWorker C → Type 0)
    (step : (n : ℕ) (w : ScrapeWorker C) → P w → P (attempt n w).1)
    (shrinks : (w : ScrapeWorker C) → P w → P (shrink w)) where
  -- The worker at the end has what every attempt and every shrinking keeps; and an outcome is that of
  -- the last attempt, by a worker that had it too.
  pub record Returns (n : ℕ) (r : Ended C (Option T)) : Type 0 where
    pub keeps : P r.worker
    pub outcome :
        (o : T)
        → r.result ≡ ok (some o)
        → (k : ℕ) × (w : ScrapeWorker C) × P w
          × ((attempt k w).0 ≡ ok o)
          × (r.worker ≡ (attempt k w).1)
          × (n < k)
          × (r.attempted ≡ k)

  later_attempt : (n : ℕ) (r : Ended C (Option T)) → Returns (n + 1) r → Returns n r
  later_attempt n r q = record {
    keeps = q.keeps;
    outcome = λ o h.
        let (k, w, p, came, end, after, last) = q.outcome o h in
        (k, w, p, came, end, omega (arith, after), last);
  }

  retry_attempts-Returns :
      (fuel n attempts : ℕ) (w : ScrapeWorker C) (r : Ended C (Option T))
      → P w
      → retry_attempts down attempt fuel n attempts w ≡ some r
      → Returns n r
  unfolding retry_attempts
  retry_attempts-Returns zero n attempts w r p h = absurd (ground arith)
  retry_attempts-Returns (suc fuel) n attempts w r p h =
      let w' = (attempt (n + 1) w).1 in
      let p' = step (n + 1) w p in
      elim (Result-cases (attempt (n + 1) w).0) [
        | inl (o, e) ↦
            let end : r.worker ≡ w' = ground arith in
            record {
              keeps = rw end p';
              outcome = λ o' h'. (n + 1, w, p, ground arith, end, omega arith, ground arith);
            }
        | inr (error, e) ↦ elim (Bool-cases (is_retryable error)) [
          | inr final ↦
              let end : r.worker ≡ w' = ground arith in
              record { keeps = rw end p'; outcome = λ o' h'. absurd (ground arith) }
          | inl retryable ↦ elim (Bool-cases (ltb (attempts + 1) w'.retry_policy.budget)) [
            | inl more ↦ elim (Bool-cases (down.interrupts (n + 1))) [
              | inl stop ↦
                  let end : r.worker ≡ w' = ground arith in
                  record { keeps = rw end p'; outcome = λ o' h'. absurd (ground arith) }
              | inr on ↦
                  later_attempt n r
                    (retry_attempts-Returns fuel (n + 1) (attempts + 1) w' r p' (ground arith))
            ]
            | inr spent ↦
                elim (Bool-cases
                  ((shrink w').page_size.current_size == w'.page_size.current_size)) [
                    | inl same ↦
                        let end : r.worker ≡ shrink w' = ground arith in
                        record {
                          keeps = rw end (shrinks w' p');
                          outcome = λ o' h'. absurd (ground arith);
                        }
                    | inr smaller ↦ elim (Bool-cases (down.requested (n + 1))) [
                      | inl stop ↦
                          let end : r.worker ≡ shrink w' = ground arith in
                          record {
                            keeps = rw end (shrinks w' p');
                            outcome = λ o' h'. absurd (ground arith);
                          }
                      | inr on ↦ later_attempt n r (
                          retry_attempts-Returns fuel (n + 1) 0 (shrink w') r (shrinks w' p')
                            (ground arith))
                    ]
                  ]
          ]
        ]
      ]

  pub with_retry-Returns :
      (fuel n : ℕ) (w : ScrapeWorker C) (r : Ended C (Option T))
      → P w
      → with_retry down attempt fuel n w ≡ some r
      → Returns n r
  unfolding with_retry
  with_retry-Returns fuel n w r p h = elim (Bool-cases (down.requested n)) [
    | inl stop ↦
        let end : r.worker ≡ w = ground arith in
        record { keeps = rw end p; outcome = λ o' h'. absurd (ground arith) }
    | inr on ↦ retry_attempts-Returns fuel n 0 w r p (ground arith)
  ]
