-- ===== src/PoiStore/Keeps.antt =====
-- What an insertion of events keeps and adds (crates/railgun-indexer-core/src/store.rs).
use railgun_indexer.Prelude.{
  ℕ, List, [], ◌∷◌, ◌≡◌, ◌≢◌, inl, inr, refl, ◌∙◌, subst, none, some, true, Option-cases,
  Result-cases, ok, arith, All, ℕ_discrete,
}
use railgun_indexer.Codec.{Bytes}
use railgun_indexer.PoiStore.{
  SignedPoiEvent, EventRow, Hex, find, insert_at, complete_row, insert_event, insert_events,
  decode_fixed_hex,
}
use railgun_indexer.PoiStore.Rows.{bytes_eq→eq, find-append, find-update_row, find-key}

-- The row of a verified event: all of its data, and the mark that they are complete.
abbrev pub IsStored : Hex → List EventRow → SignedPoiEvent → Type 0
IsStored h rows e =
    (signature : Bytes) × (decode_fixed_hex h 64 e.signature ≡ ok signature)
    × (find e.index rows ≡ some (complete_row e signature))

insert_at-none :
    (new : EventRow) (rows rows' : List EventRow)
    → find new.event_index rows ≡ none
    → insert_at none new rows ≡ ok rows'
    → (find new.event_index rows' ≡ some new)
      × ((i : ℕ) → new.event_index ≢ i → find i rows' ≡ find i rows)
unfolding insert_at
insert_at-none new rows rows' absent h = (
  ground (arith, find-append new.event_index rows new),
  λ i other. ground (arith, find-append i rows new, Option-cases (find i rows)),
)

insert_at-some :
    (stored new : EventRow) (rows rows' : List EventRow)
    → find new.event_index rows ≡ some stored
    → new.event_data_complete ≡ true
    → insert_at (some stored) new rows ≡ ok rows'
    → (find new.event_index rows' ≡ some new)
      × ((i : ℕ) → new.event_index ≢ i → find i rows' ≡ find i rows)
      × (stored.event_data_complete ≡ true → rows' ≡ rows)
unfolding insert_at
insert_at-some stored new rows rows' present full h = (
  ground (
    arith,
    find-update_row new.event_index new rows,
    find-key new.event_index rows stored,
    bytes_eq→eq stored.blinded_commitment new.blinded_commitment,
    bytes_eq→eq stored.signature new.signature,
  ),
  λ i other. ground (arith, find-update_row i new rows),
  λ complete. ground arith,
)

-- What one insertion does to the table.
pub record Inserts (h : Hex) (e : SignedPoiEvent) (rows rows' : List EventRow) : Type 0 where
  pub stored : IsStored h rows' e
  pub others : (i : ℕ) → e.index ≢ i → find i rows' ≡ find i rows
  pub kept :
      (r : EventRow) → find e.index rows ≡ some r → r.event_data_complete ≡ true → rows' ≡ rows

insert_event-Inserts :
    (h : Hex) (rows rows' : List EventRow) (e : SignedPoiEvent)
    → insert_event h rows e ≡ ok rows'
    → Inserts h e rows rows'
unfolding insert_event complete_row
insert_event-Inserts h rows rows' e inserted =
    elim (Result-cases (decode_fixed_hex h 64 e.signature)) [
      | inr (_, bad) ↦ absurd (ground arith)
      | inl (signature, decoded) ↦ elim (Option-cases (find e.index rows)) [
        | inl absent ↦
            let facts =
              insert_at-none (complete_row e signature) rows rows' absent (ground arith) in
            record {
              stored = (signature, decoded, facts.0);
              others = facts.1;
              kept = λ r present complete. absurd (cc (absent, present));
            }
        | inr (old, present) ↦
            let facts =
              insert_at-some old (complete_row e signature) rows rows' present refl
                (ground arith) in
            record {
              stored = (signature, decoded, facts.0);
              others = facts.1;
              kept = λ r found complete. facts.2 (ground arith);
            }
      ]
    ]

-- A complete row is never changed by an insertion.
pub insert_event-kept :
    (h : Hex) (rows rows' : List EventRow) (e : SignedPoiEvent) (i : ℕ) (r : EventRow)
    → insert_event h rows e ≡ ok rows'
    → find i rows ≡ some r
    → r.event_data_complete ≡ true
    → find i rows' ≡ some r
insert_event-kept h rows rows' e i r inserted present complete =
    let step = insert_event-Inserts h rows rows' e inserted in
    elim (ℕ_discrete e.index i) [
      | yes same ↦ rw (step.kept r (rw same present) complete) present
      | no other ↦ step.others i other ∙ present
    ]

-- A row that is there stays there.
insert_event-present :
    (h : Hex) (rows rows' : List EventRow) (e : SignedPoiEvent) (i : ℕ)
    → insert_event h rows e ≡ ok rows'
    → find i rows ≢ none
    → find i rows' ≢ none
insert_event-present h rows rows' e i inserted present =
    let step = insert_event-Inserts h rows rows' e inserted in
    elim (ℕ_discrete e.index i) [
      | yes same ↦ λ gone. cc (step.stored.2, rw (← same) at gone)
      | no other ↦ rw (step.others i other) present
    ]

module _ (h : Hex) where
  -- An induction over the events that are inserted, for a property of one index.
  pub insert_events-induct :
      (P : List EventRow → Type 0)
      → ((rows rows' : List EventRow) (e : SignedPoiEvent)
          → insert_event h rows e ≡ ok rows'
          → P rows
          → P rows')
      → (events : List SignedPoiEvent) (rows rows' : List EventRow)
      → insert_events h rows events ≡ ok rows'
      → P rows
      → P rows'
  unfolding insert_events
  insert_events-induct P step [] rows rows' inserted p =
      let same : rows ≡ rows' = ground arith in subst P same p
  insert_events-induct P step (e ∷ rest) rows rows' inserted p =
      elim (Result-cases (insert_event h rows e)) [
        | inr (_, bad) ↦ absurd (ground arith)
        | inl (next, first) ↦
            insert_events-induct P step rest next rows' (ground arith) (step rows next e first p)
      ]

-- Whatever events are inserted, a complete row stays as it is.
pub insert_events-kept :
    (h : Hex) (events : List SignedPoiEvent) (rows rows' : List EventRow) (i : ℕ) (r : EventRow)
    → insert_events h rows events ≡ ok rows'
    → find i rows ≡ some r
    → r.event_data_complete ≡ true
    → find i rows' ≡ some r
insert_events-kept h events rows rows' i r inserted present complete =
    insert_events-induct h (λ t. find i t ≡ some r)
      (λ t t' e step p. insert_event-kept h t t' e i r step p complete) events rows rows' inserted
      present

pub insert_events-present :
    (h : Hex) (events : List SignedPoiEvent) (rows rows' : List EventRow) (i : ℕ)
    → insert_events h rows events ≡ ok rows'
    → find i rows ≢ none
    → find i rows' ≢ none
insert_events-present h events rows rows' i inserted present =
    insert_events-induct h (λ t. find i t ≢ none)
      (λ t t' e step p. insert_event-present h t t' e i step p) events rows rows' inserted present

-- After a successful insertion of events, every one of them is stored as a complete row.
pub insert_events-IsStored :
    (h : Hex) (events : List SignedPoiEvent) (rows rows' : List EventRow)
    → insert_events h rows events ≡ ok rows'
    → All (IsStored h rows') events
unfolding insert_events
insert_events-IsStored h [] rows rows' inserted = tt
insert_events-IsStored h (e ∷ rest) rows rows' inserted =
    elim (Result-cases (insert_event h rows e)) [
      | inr (_, bad) ↦ absurd (ground arith)
      | inl (next, first) ↦
          let later : insert_events h next rest ≡ ok rows' = ground arith in
          let (signature, decoded, found) = (insert_event-Inserts h rows next e first).stored in
          (
            (
              signature,
              decoded,
              insert_events-kept h rest next rows' e.index (complete_row e signature) later found
                  (unfold complete_row in refl),
            ),
            insert_events-IsStored h rest next rows' later,
          )
    ]

-- An index that no event has is looked up as before.
pub insert_events-others :
    (h : Hex) (events : List SignedPoiEvent) (rows rows' : List EventRow) (i : ℕ)
    → insert_events h rows events ≡ ok rows'
    → All (λ e. e.index ≢ i) events
    → find i rows' ≡ find i rows
unfolding insert_events
insert_events-others h [] rows rows' i inserted other =
    let same : rows' ≡ rows = ground arith in rw same
insert_events-others h (e ∷ rest) rows rows' i inserted other =
    elim (Result-cases (insert_event h rows e)) [
      | inr (_, bad) ↦ absurd (ground arith)
      | inl (next, first) ↦
          insert_events-others h rest next rows' i (ground arith) other.1
          ∙ (insert_event-Inserts h rows next e first).others i other.0
    ]
