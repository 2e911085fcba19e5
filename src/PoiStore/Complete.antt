-- ===== src/PoiStore/Complete.antt =====
-- Insertions add complete rows only (crates/railgun-indexer-core/src/store.rs).
use railgun_indexer.Prelude.{
  ◌≡◌, List, [], ◌∷◌, ◌++◌, none, true, ok, arith, Option-cases, Result-cases, inl, inr,
}
use railgun_indexer.PoiStore.{
  SignedPoiEvent, EventRow, Hex, first_incomplete_event_index, find, update_row, insert_at,
  complete_row, insert_event, insert_events, decode_fixed_hex,
}
use railgun_indexer.PoiStore.Keeps.{insert_events-induct}

append_complete :
    (rows : List EventRow) (new : EventRow)
    → new.event_data_complete ≡ true
    → first_incomplete_event_index rows ≡ none
    → first_incomplete_event_index (rows ++ new ∷ []) ≡ none
unfolding first_incomplete_event_index
append_complete [] new full h = ground arith
append_complete (r ∷ rest) new full h =
    ground (arith, append_complete rest new full, Option-cases (first_incomplete_event_index rest))

update_row_complete :
    (rows : List EventRow) (new : EventRow)
    → new.event_data_complete ≡ true
    → first_incomplete_event_index rows ≡ none
    → first_incomplete_event_index (update_row new rows) ≡ none
unfolding first_incomplete_event_index update_row
update_row_complete [] new full h = ground arith
update_row_complete (r ∷ rest) new full h =
    ground
      (arith, update_row_complete rest new full, Option-cases (first_incomplete_event_index rest))

insert_event_complete :
    (h : Hex) (rows rows' : List EventRow) (e : SignedPoiEvent)
    → insert_event h rows e ≡ ok rows'
    → first_incomplete_event_index rows ≡ none
    → first_incomplete_event_index rows' ≡ none
unfolding insert_event insert_at complete_row
insert_event_complete h rows rows' e inserted complete =
    elim (Result-cases (decode_fixed_hex h 64 e.signature)) [
      | inr (_, bad) ↦ absurd (ground arith)
      | inl (signature, decoded) ↦
          let new = complete_row e signature in
          elim (Option-cases (find e.index rows)) [
            | inl absent ↦ ground (arith, append_complete rows new (ground arith) complete)
            | inr (old, present) ↦
                ground (arith, update_row_complete rows new (ground arith) complete)
          ]
    ]

-- A table whose rows are all complete has only complete rows after an insertion.
pub insert_events_complete :
    (h : Hex) (events : List SignedPoiEvent) (rows rows' : List EventRow)
    → insert_events h rows events ≡ ok rows'
    → first_incomplete_event_index rows ≡ none
    → first_incomplete_event_index rows' ≡ none
insert_events_complete h events rows rows' inserted complete =
    insert_events-induct h (λ t. first_incomplete_event_index t ≡ none)
      (λ t t' e step c. insert_event_complete h t t' e step c) events rows rows' inserted complete
