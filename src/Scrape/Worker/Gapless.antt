-- ===== src/Scrape/Worker/Gapless.antt =====
-- The store holds a row for exactly the indices up to its tip, through every attempt
-- (crates/railgun-indexer-core/src/scrape/worker.rs).
use railgun_indexer.Prelude.{
  ℕ, ◌+◌, ◌≤◌, ◌<◌, ◌≡◌, ◌≢◌, ◌⊎◌, inl, inr, refl, List, [], ◌∷◌, length, Option, none, some, ok,
  Bool, Result-cases, Option-cases, arith, max, dec_lt, dec_le,
}
use railgun_indexer.Codec.{Bytes}
use railgun_indexer.PoiStore.{
  PoiStore, SignedPoiEvent, EventRow, Hex, find, first_incomplete_event_index, last_event_index,
  insert_events, advance_chain_tip, ChainTip,
}
use railgun_indexer.PoiStore.Keeps.{
  insert_events-IsStored, insert_events-present, insert_events-others,
}
use railgun_indexer.Scrape.Worker.{
  Poi, Page, ScrapeWorker, Answers, next_start_index, store_page, advance_if_newer, sync_next_page,
}
use railgun_indexer.Scrape.Worker.Contiguous.{
  Numbered, Numbered-others, Numbered-covers, fetch_page-parts,
}
use railgun_indexer.Scrape.Worker.Attempt.{sync_next_page-store}

first_incomplete-present :
    (rows : List EventRow) (i : ℕ) → first_incomplete_event_index rows ≡ some i → find i rows ≢ none
unfolding first_incomplete_event_index find
first_incomplete-present [] i h = cc
first_incomplete-present (r ∷ rest) i h = elim (Option-cases (first_incomplete_event_index rest)) [
  | inl e ↦ ground arith
  | inr (j, e) ↦ ground (arith, first_incomplete-present rest j e)
]

-- The store holds a row for every index up to its tip, and for none beyond.
pub record IsGapless (s : PoiStore) : Type 0 where
  pub covered : (i t : ℕ) → last_event_index s ≡ some t → i ≤ t → find i s.events ≢ none
  pub bounded : (i : ℕ) → find i s.events ≢ none → (t : ℕ) × (last_event_index s ≡ some t) × (i ≤ t)

-- The next page starts at or before the index behind the tip.
next_start_index-le :
    (s : PoiStore) (start : ℕ)
    → IsGapless s
    → next_start_index s ≡ ok start
    → ((last_event_index s ≡ none) × (start ≡ 0))
      ⊎ ((t : ℕ) × (last_event_index s ≡ some t) × (start ≤ t + 1))
unfolding next_start_index
next_start_index-le s start g h = elim (Option-cases (first_incomplete_event_index s.events)) [
  | inr (i, e) ↦
      let (t, tip, le) = g.bounded i (first_incomplete-present s.events i e) in
      inr (t, tip, ground arith)
  | inl e ↦ elim (Option-cases (last_event_index s)) [
    | inl e' ↦ inl (e', ground arith)
    | inr (t, e') ↦ inr (t, e', ground arith)
  ]
]

module _ (p : Poi) where
  -- What the tip is after a page.
  pub advance_if_newer-tip :
      (s : PoiStore) (last : ℕ) (root : Bytes) (tip : Option ChainTip)
      → advance_if_newer p s last root ≡ ok tip
      → (t : ℕ) × (last_event_index (record s { tip = tip }) ≡ some t)
        × (((last_event_index s ≡ none) × (t ≡ last))
            ⊎ ((old : ℕ) × (last_event_index s ≡ some old) × (t ≡ max old last)))
  unfolding advance_if_newer advance_chain_tip
  advance_if_newer-tip s last root tip h = elim (Option-cases s.tip) [
    | inl e ↦ (last, ground arith, inl (ground arith, refl))
    | inr (old, e) ↦ (
      max old.last_event_index last,
      ground arith,
      inr (old.last_event_index, ground arith, refl),
    )
  ]

-- Where the tip is after a page whose last index is given.
abbrev Grown : PoiStore → ℕ → ℕ → Type 0
Grown s last t =
    ((last_event_index s ≡ none) × (t ≡ last))
    ⊎ ((old : ℕ) × (last_event_index s ≡ some old) × (t ≡ max old last))

-- Where a page may start.
abbrev Starts : PoiStore → ℕ → Type 0
Starts s start =
    ((last_event_index s ≡ none) × (start ≡ 0))
    ⊎ ((t : ℕ) × (last_event_index s ≡ some t) × (start ≤ t + 1))

module _ (h : Hex) (s : PoiStore) (page : List SignedPoiEvent) (rows : List EventRow)
    (start last t : ℕ) (g : IsGapless s) (from : Starts s start) (num : Numbered start page)
    (end : last + 1 ≡ start + length page) (inserted : insert_events h s.events page ≡ ok rows)
    (grown : Grown s last t) where
  kept : (i : ℕ) → (old : ℕ) → last_event_index s ≡ some old → i ≤ old → find i rows ≢ none
  kept i old e le = insert_events-present h page s.events rows i inserted (g.covered i old e le)

  covered_after : (i : ℕ) → i ≤ t → find i rows ≢ none
  covered_after i le = elim (dec_lt i start) [
    | yes before ↦ elim from [
      | inl (_, zero_start) ↦ absurd (omega arith)
      | inr (old, e, near) ↦ kept i old e (omega arith)
    ]
    | no behind ↦ elim (dec_le i last) [
      | yes inside ↦
          Numbered-covers h rows page start i num
            (insert_events-IsStored h page s.events rows inserted) (omega arith) (omega arith)
      | no beyond ↦ elim grown [
        | inl (_, same) ↦ absurd (omega arith)
        | inr (old, e, same) ↦ kept i old e (omega arith)
      ]
    ]
  ]

  old_row : (i : ℕ) → find i s.events ≢ none → i ≤ t
  old_row i present =
      let (old, e, le) = g.bounded i present in
      elim grown [
        | inl (empty, _) ↦ absurd (cc (empty, e))
        | inr (old', e', same) ↦ let agree : old ≡ old' = cc (e, e') in omega arith
      ]

  bounded_after : (i : ℕ) → find i rows ≢ none → i ≤ t
  bounded_after i present = elim (dec_lt i start) [
    | yes before ↦ old_row i (outside (inl before))
    | no behind ↦ elim (dec_le i last) [
      | yes inside ↦ elim grown [ inl (_, same) ↦ omega arith | inr (old, e, same) ↦ omega arith ]
      | no beyond ↦ old_row i (outside (inr (omega arith)))
    ]
  ]
    where
      outside : (i < start) ⊎ (start + length page ≤ i) → find i s.events ≢ none
      outside out =
          rw
            (← insert_events-others h page s.events rows i inserted
              (Numbered-others page start i num out))
            present

module _ (p : Poi) where
  -- A page that starts at or before the index behind the tip leaves no gap.
  store_page-IsGapless :
      (s s' : PoiStore) (page : Page) (root : Bytes) (commits : Bool) (start : ℕ)
      → IsGapless s
      → ((last_event_index s ≡ none) × (start ≡ 0))
        ⊎ ((t : ℕ) × (last_event_index s ≡ some t) × (start ≤ t + 1))
      → Numbered start page.events
      → page.last_event_index + 1 ≡ start + length page.events
      → store_page p s page root commits ≡ ok s'
      → IsGapless s'
  unfolding store_page
  store_page-IsGapless s s' page root commits start g from num last h =
      elim (Result-cases (insert_events p.hex s.events page.events)) [
        | inr (_, bad) ↦ absurd (ground arith)
        | inl (events, inserted) ↦
            elim (Result-cases (advance_if_newer p s page.last_event_index root)) [
              | inr (_, bad) ↦ absurd (ground arith)
              | inl (tip, advanced) ↦
                  let same : s' ≡ record { events = events; tip = tip } = ground arith in
                  let (t, is_tip, grown) =
                    advance_if_newer-tip p s page.last_event_index root tip advanced in
                  rw same (record {
                    covered = λ i u e le.
                        covered_after p.hex s page.events events start page.last_event_index t g
                          from num last inserted grown i (ground arith);
                    bounded = λ i present. (
                      t,
                      is_tip,
                      bounded_after p.hex s page.events events start page.last_event_index t g from
                          num last inserted grown i present,
                    );
                  })
            ]
      ]

-- Whatever the upstream answers and whether or not the transaction commits, a store that has a row
-- for exactly the indices up to its tip still has so after a page.
pub sync_next_page-IsGapless :
    (p : Poi) (w : ScrapeWorker p.Cache) (a : Answers p.Cache)
    → IsGapless w.store
    → IsGapless (sync_next_page p w a).1.store
sync_next_page-IsGapless p w a g = elim (sync_next_page-store p w a) [
  | inl (same, _) ↦ rw same g
  | inr (page, root, fetched, stored, _) ↦
      let (start, at, num, verified, last) = fetch_page-parts p w a page fetched in
      store_page-IsGapless p w.store _ page root a.commits start g
        (next_start_index-le w.store start g at) num last stored
]
