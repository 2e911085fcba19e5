-- ===== src/PoiStore/Rows.antt =====
-- Single rows of the event table (crates/railgun-indexer-core/src/store.rs).
use railgun_indexer.Prelude.{
  ℕ, List, [], ◌∷◌, ◌++◌, ◌≡◌, refl, none, some, true, ◌==◌, if◌then◌else◌, arith,
}
use railgun_indexer.Codec.{Bytes}
use railgun_indexer.PoiStore.{EventRow, bytes_eq, find, update_row}

pub bytes_eq→eq : (a b : Bytes) → bytes_eq a b ≡ true → a ≡ b
unfolding bytes_eq
bytes_eq→eq [] [] h = refl
bytes_eq→eq [] (b ∷ bs) h = cc
bytes_eq→eq (a ∷ as_) [] h = cc
bytes_eq→eq (a ∷ as_) (b ∷ bs) h = ground (arith, bytes_eq→eq as_ bs)

pub bytes_eq_refl : (a : Bytes) → bytes_eq a a ≡ true
unfolding bytes_eq
bytes_eq_refl [] = refl
bytes_eq_refl (a ∷ as_) = ground (arith, bytes_eq_refl as_)

-- A new key is found after an insertion at the end, and the other keys as before.
pub find-append :
    (i : ℕ) (rows : List EventRow) (new : EventRow)
    → find i (rows ++ new ∷ []) ≡ elim (find i rows) [
      | some r ↦ some r
      | none ↦ if new.event_index == i then some new else none
    ]
unfolding find
find-append i [] new = refl
find-append i (r ∷ rest) new = ground (arith, find-append i rest new)

-- An update is found at its key if there was a row, and changes no other key.
pub find-update_row :
    (i : ℕ) (new : EventRow) (rows : List EventRow)
    → find i (update_row new rows) ≡ (
        if new.event_index == i
        then elim (find i rows) [ some r ↦ some new | none ↦ none ]
        else find i rows)
unfolding find update_row
find-update_row i new [] = ground arith
find-update_row i new (r ∷ rest) = ground (arith, find-update_row i new rest)

pub find-key :
    (i : ℕ) (rows : List EventRow) (r : EventRow) → find i rows ≡ some r → r.event_index ≡ i
unfolding find
find-key i [] r h = cc
find-key i (x ∷ rest) r h = ground (arith, find-key i rest r)
