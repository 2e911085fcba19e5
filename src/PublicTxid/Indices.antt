-- ===== src/PublicTxid/Indices.antt =====
-- The indices of a public TXID chunk (crates/railgun-indexer-core/src/public_txid.rs).
use railgun_indexer.Prelude.{
  ℕ, ◌+◌, ◌≤◌, ◌<◌, ◌≡◌, ◌⊎◌, refl, List, [], ◌∷◌, length, ok, err, Result-cases, inl, inr, arith,
  u64_mod,
}
use railgun_indexer.Artifact.{Range, txid_index}
use railgun_indexer.PublicTxid.{
  StoredPublicTxidRow, check_indices, last_txid_index, public_txid_range, empty_chunk,
}

-- The indices of the rows are n, n + 1, ….
abbrev pub Consecutive : ℕ → List StoredPublicTxidRow → Type 0
Consecutive n [] = Unit {0}
Consecutive n (r ∷ rest) = (r.txid_index ≡ n) × Consecutive (n + 1) rest

pub check_indices-Consecutive :
    (n : ℕ) (rows : List StoredPublicTxidRow)
    → check_indices n rows ≡ ok tt
    → Consecutive n rows × (n + length rows ≤ n ⊎ n + length rows < u64_mod)
unfolding check_indices
check_indices-Consecutive n [] h = (tt, inl (omega arith))
check_indices-Consecutive n (r ∷ rest) h =
    let later = check_indices-Consecutive (n + 1) rest (ground arith) in
    ((ground arith, later.0), ground (arith, later.1))

check_indices_complete :
    (n : ℕ) (rows : List StoredPublicTxidRow)
    → Consecutive n rows
    → n + length rows < u64_mod
    → check_indices n rows ≡ ok tt
unfolding check_indices
check_indices_complete n [] h small = refl
check_indices_complete n (r ∷ rest) h small =
    let later = check_indices_complete (n + 1) rest h.1 (omega arith) in ground (arith, later)

pub last_txid_index_lem :
    (n : ℕ) (first : StoredPublicTxidRow) (rest : List StoredPublicTxidRow)
    → Consecutive n (first ∷ rest)
    → last_txid_index first rest ≡ n + length rest
unfolding last_txid_index
last_txid_index_lem n first [] h = omega arith
last_txid_index_lem n first (r ∷ rest) h = omega (arith, last_txid_index_lem (n + 1) r rest h.1)

-- No rows make no range. Other rows make one exactly when their indices are consecutive and the index
-- behind the last is a u64, and then it covers exactly the rows.
pub public_txid_range-Consecutive :
    (first : StoredPublicTxidRow) (rest : List StoredPublicTxidRow)
    → (public_txid_range [] ≡ err empty_chunk)
      × ((Consecutive first.txid_index (first ∷ rest)
            × (first.txid_index + length (first ∷ rest) < u64_mod))
          → ((range : Range) × (public_txid_range (first ∷ rest) ≡ ok range)
              × (range.start ≡ first.txid_index)
              × (range.end + 1 ≡ range.start + length (first ∷ rest))))
      × (((range : Range) × (public_txid_range (first ∷ rest) ≡ ok range))
          → Consecutive first.txid_index (first ∷ rest)
            × (first.txid_index + length (first ∷ rest) < u64_mod))
unfolding public_txid_range
public_txid_range-Consecutive first rest = (refl, made, accepted)
  where
    made :
        (Consecutive first.txid_index (first ∷ rest)
          × (first.txid_index + length (first ∷ rest) < u64_mod))
        → (range : Range) × (public_txid_range (first ∷ rest) ≡ ok range)
          × (range.start ≡ first.txid_index)
          × (range.end + 1 ≡ range.start + length (first ∷ rest))
    made (consecutive, small) =
        let good = check_indices_complete first.txid_index (first ∷ rest) consecutive small in
        (
          record { kind = txid_index; start = first.txid_index; end = last_txid_index first rest },
          ground (arith, good),
          refl,
          omega (arith, last_txid_index_lem first.txid_index first rest consecutive),
        )

    accepted :
        ((range : Range) × (public_txid_range (first ∷ rest) ≡ ok range))
        → Consecutive first.txid_index (first ∷ rest)
          × (first.txid_index + length (first ∷ rest) < u64_mod)
    accepted (range, h) = elim (Result-cases (check_indices first.txid_index (first ∷ rest))) [
      | inr (_, bad) ↦ absurd (ground arith)
      | inl (_, good) ↦
          let facts = check_indices-Consecutive first.txid_index (first ∷ rest) good in
          (facts.0, ground (arith, facts.1))
    ]
