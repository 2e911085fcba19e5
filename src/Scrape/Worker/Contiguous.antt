-- ===== src/Scrape/Worker/Contiguous.antt =====
-- The events of a page are numbered without gaps, and so is what the store holds
-- (crates/railgun-indexer-core/src/scrape/worker.rs).
use railgun_indexer.Prelude.{
  ℕ, suc, ◌+◌, ◌-◌, ◌≤◌, ◌<◌, ◌≡◌, ◌≢◌, ◌⊎◌, inl, inr, refl, ap, List, [], ◌∷◌, length, none, some,
  ok, Result-cases, Option-cases, arith, All, ℕ_discrete,
}
use railgun_indexer.Codec.{Bytes}
use railgun_indexer.PoiStore.{SignedPoiEvent, EventRow, Hex, find}
use railgun_indexer.PoiStore.Keeps.{IsStored}
use railgun_indexer.Scrape.Worker.{
  Poi, Page, SnapshotEvent, ScrapeWorker, Answers, check_events, decode_event_signature, page_of,
  last_index, next_start_index, fetch_page, exclusive_end_index,
}

-- The indices of the events are n, n + 1, ….
abbrev pub Numbered : ℕ → List SignedPoiEvent → Type 0
Numbered n [] = Unit {0}
Numbered n (e ∷ rest) = (e.index ≡ n) × Numbered (n + 1) rest

pub Numbered-others :
    (events : List SignedPoiEvent) (n i : ℕ)
    → Numbered n events
    → (i < n) ⊎ (n + length events ≤ i)
    → All (λ e. e.index ≢ i) events
Numbered-others [] n i h out = tt
Numbered-others (e ∷ rest) n i h out =
    (omega arith, Numbered-others rest (n + 1) i h.1 (omega arith))

pub Numbered-covers :
    (h : Hex) (rows : List EventRow) (events : List SignedPoiEvent) (n i : ℕ)
    → Numbered n events
    → All (IsStored h rows) events
    → n ≤ i
    → i < n + length events
    → find i rows ≢ none
Numbered-covers h rows [] n i num stored lo hi = absurd (omega arith)
Numbered-covers h rows (e ∷ rest) n i num stored lo hi = elim (ℕ_discrete i n) [
  | yes here ↦ let same : e.index ≡ i = omega arith in λ gone. cc (stored.0.2, rw (← same) at gone)
  | no later ↦ Numbered-covers h rows rest (n + 1) i num.1 stored.1 (omega arith) (omega arith)
]

abbrev SnapNumbered : ℕ → List SnapshotEvent → Type 0
SnapNumbered n [] = Unit {0}
SnapNumbered n (e ∷ rest) = (e.event_index ≡ n) × SnapNumbered (n + 1) rest

last_index-SnapNumbered :
    (snaps : List SnapshotEvent) (n l : ℕ)
    → SnapNumbered n snaps
    → last_index snaps ≡ some l
    → l + 1 ≡ n + length snaps
unfolding last_index
last_index-SnapNumbered [] n l h e = cc
last_index-SnapNumbered (s ∷ []) n l h e = ground arith
last_index-SnapNumbered (s ∷ t ∷ rest) n l h e =
    omega (arith, last_index-SnapNumbered (t ∷ rest) (n + 1) l h.1 e)

module _ (p : Poi) where
  check_events-Numbered :
      (key : Bytes) (start off n : ℕ) (events : List SignedPoiEvent) (snaps : List SnapshotEvent)
      → start + off ≡ n
      → check_events p key start off events ≡ ok snaps
      → Numbered n events
        × All (λ e. p.verify_poi_event e key ≡ ok tt) events
        × SnapNumbered n snaps
        × (length snaps ≡ length events)
  unfolding check_events
  check_events-Numbered key start off n [] snaps at h =
      let empty : snaps ≡ [] = ground arith in rw empty (tt, tt, tt, refl)
  check_events-Numbered key start off n (e ∷ rest) snaps at h =
      elim (Result-cases (check_events p key start (off + 1) rest)) [
        | inr (_, bad) ↦ absurd (ground arith)
        | inl (others, good) ↦ elim (Result-cases (decode_event_signature p e.signature)) [
          | inr (_, bad) ↦ absurd (ground arith)
          | inl (signature, decoded) ↦
              let ih =
                check_events-Numbered key start (off + 1) (n + 1) rest others (omega arith) good in
              let here : e.index ≡ n = ground arith in
              let verified : p.verify_poi_event e key ≡ ok tt = ground arith in
              let first : SnapshotEvent = record {
                event_index = e.index;
                blinded_commitment = e.blinded_commitment;
                signature = signature;
                event_type = e.event_type;
              } in
              let made : snaps ≡ first ∷ others = ground arith in
              rw made ((here, ih.0), (verified, ih.1), (here, ih.2), ap suc ih.3)
        ]
      ]

module _ (p : Poi) where
  page_of-parts :
      (key : Bytes) (start : ℕ) (events : List SignedPoiEvent) (page : Page)
      → page_of p key start events ≡ ok (some page)
      → (check_events p key start 0 page.events ≡ ok page.snapshot_events)
        × (last_index page.snapshot_events ≡ some page.last_event_index)
  unfolding page_of
  page_of-parts key start [] page h = absurd (ground arith)
  page_of-parts key start (e ∷ rest) page h =
      elim (Result-cases (check_events p key start 0 (e ∷ rest))) [
        | inr (_, bad) ↦ absurd (ground arith)
        | inl (snaps, good) ↦ elim (Option-cases (last_index snaps)) [
          | inl none_last ↦ absurd (ground arith)
          | inr (last, found) ↦
              let same_events : page.events ≡ e ∷ rest = ground arith in
              let same_snaps : page.snapshot_events ≡ snaps = ground arith in
              let same_last : page.last_event_index ≡ last = ground arith in
              (rw (same_events, same_snaps) good, rw (same_snaps, same_last) found)
        ]
      ]

  -- The parts of a page that came back.
  pub fetch_page-parts :
      (w : ScrapeWorker p.Cache) (a : Answers p.Cache) (page : Page)
      → fetch_page p w a ≡ ok (some page)
      → (start : ℕ) × (next_start_index w.store ≡ ok start)
        × Numbered start page.events
        × All (λ e. p.verify_poi_event e w.list_key ≡ ok tt) page.events
        × (page.last_event_index + 1 ≡ start + length page.events)
  unfolding fetch_page
  fetch_page-parts w a page h = elim (Result-cases (next_start_index w.store)) [
    | inr (_, bad) ↦ absurd (ground arith)
    | inl (start, at) ↦ elim (Result-cases (exclusive_end_index start w.page_size.current_size)) [
      | inr (_, bad) ↦ absurd (ground arith)
      | inl (end, e) ↦ elim (Result-cases (a.poi_events start (end - 1))) [
        | inr (_, bad) ↦ absurd (ground arith)
        | inl (events, came) ↦
            let (checked, found) = page_of-parts w.list_key start events page (ground arith) in
            let facts =
              check_events-Numbered p w.list_key start 0 start page.events page.snapshot_events
                (omega arith) checked in
            let last =
              last_index-SnapNumbered page.snapshot_events start page.last_event_index facts.2
                found in
            (start, at, facts.0, facts.1, omega (arith, facts.3, last))
      ]
    ]
  ]
