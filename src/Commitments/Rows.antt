-- ===== src/Commitments/Rows.antt =====
-- What the descriptor of a commitment chunk says of its rows
-- (crates/railgun-indexer-core/src/commitments.rs).
use railgun_indexer.Prelude.{
  ℕ, ◌≤◌, ◌<◌, ◌≡◌, List, [], ◌∷◌, length, none, some, ok, arith, All, All-map, All-zip,
  Result-cases, Option-cases, inl, inr, err, ◌↔◌, refl, leb, lt→not-leb, false, min, max,
}
use railgun_indexer.Artifact.{tree_position, Range, Published, ChunkFormat, Describes}
use railgun_indexer.Commitments.{
  empty_chunk, StoredCommitmentRow, last_position, commitment_range, min_block, max_block,
  prepare_commitment_chunk,
}

-- The positions grow strictly along the rows.
abbrev pub Increasing : List StoredCommitmentRow → Type 0
Increasing [] = Unit {0}
Increasing (r ∷ []) = Unit {0}
Increasing (r ∷ s ∷ rest) = (r.global_position < s.global_position) × Increasing (s ∷ rest)

abbrev pub Within : ℕ → ℕ → StoredCommitmentRow → Type 0
Within lo hi r = (lo ≤ r.global_position) × (r.global_position ≤ hi)

last_position-Increasing :
    (r : StoredCommitmentRow) (rest : List StoredCommitmentRow) (end : ℕ)
    → last_position r.global_position rest ≡ ok end
    → Increasing (r ∷ rest) × All (Within r.global_position end) (r ∷ rest)
unfolding last_position
last_position-Increasing r [] end h = ground arith
last_position-Increasing r (s ∷ rest) end h =
    let grows : r.global_position < s.global_position = ground arith in
    let later = last_position-Increasing s rest end (ground arith) in
    (
      (grows, later.0),
      (
        (omega arith, omega arith),
        ((omega arith, omega arith), All-map (λ a w. (omega arith, w.1)) rest later.1.1),
      ),
    )

last_position_complete :
    (r : StoredCommitmentRow) (rest : List StoredCommitmentRow)
    → Increasing (r ∷ rest)
    → (end : ℕ) × (last_position r.global_position rest ≡ ok end)
unfolding last_position
last_position_complete r [] h = (r.global_position, refl)
last_position_complete r (s ∷ rest) h =
    let (end, e) = last_position_complete s rest h.1 in
    let grows : leb s.global_position r.global_position ≡ false = lt→not-leb _ _ h.0 in
    (end, rw (last_position, grows) e)

-- A range is made of rows, at least one, exactly when their positions grow strictly; it starts at
-- the first row's position, and every row lies in it.
pub commitment_range-Increasing :
    (first : StoredCommitmentRow) (rest : List StoredCommitmentRow)
    → (commitment_range [] ≡ err empty_chunk)
      × (Increasing (first ∷ rest) ↔ (
          (range : Range) × (commitment_range (first ∷ rest) ≡ ok range)
          × (range.start ≡ first.global_position)
          × All (Within range.start range.end) (first ∷ rest)))
unfolding commitment_range
commitment_range-Increasing first rest = (refl, (made, accepted))
  where
    made :
        Increasing (first ∷ rest)
        → (range : Range) × (commitment_range (first ∷ rest) ≡ ok range)
          × (range.start ≡ first.global_position)
          × All (Within range.start range.end) (first ∷ rest)
    made h =
        let (end, e) = last_position_complete first rest h in
        (
          record { kind = tree_position; start = first.global_position; end = end },
          rw (e, commitment_range),
          refl,
          (last_position-Increasing first rest end e).1,
        )

    accepted :
        ((range : Range) × (commitment_range (first ∷ rest) ≡ ok range)
          × (range.start ≡ first.global_position)
          × All (Within range.start range.end) (first ∷ rest))
        → Increasing (first ∷ rest)
    accepted (range, h, _, _) = elim (Result-cases (last_position first.global_position rest)) [
      | inl (end, e) ↦ (last_position-Increasing first rest end e).0
      | inr (_, e) ↦ absurd (ground arith)
    ]

min_block-none : (records : List StoredCommitmentRow) → min_block records ≡ none → records ≡ []
unfolding min_block
min_block-none [] h = refl
min_block-none (r ∷ rest) h = absurd (ground arith)

max_block-none : (records : List StoredCommitmentRow) → max_block records ≡ none → records ≡ []
unfolding max_block
max_block-none [] h = refl
max_block-none (r ∷ rest) h = absurd (ground arith)

min_block-le :
    (records : List StoredCommitmentRow) (b : ℕ)
    → min_block records ≡ some b
    → All (λ r. b ≤ r.block_number) records
unfolding min_block
min_block-le [] b h = tt
min_block-le (r ∷ rest) b h = elim (Option-cases (min_block rest)) [
  | inl e ↦ (ground arith, rw (min_block-none rest e) tt)
  | inr (c, e) ↦
      let lower : b ≡ min r.block_number c = ground arith in
      (omega arith, All-map (λ a below. omega arith) rest (min_block-le rest c e))
]

le-max_block :
    (records : List StoredCommitmentRow) (b : ℕ)
    → max_block records ≡ some b
    → All (λ r. r.block_number ≤ b) records
unfolding max_block
le-max_block [] b h = tt
le-max_block (r ∷ rest) b h = elim (Option-cases (max_block rest)) [
  | inl e ↦ (ground arith, rw (max_block-none rest e) tt)
  | inr (c, e) ↦
      let upper : b ≡ max r.block_number c = ground arith in
      (omega arith, All-map (λ a below. omega arith) rest (le-max_block rest c e))
]

module _ (f : ChunkFormat) where
  open f use {ChainScope, Compression}

  -- What a prepared chunk says of its rows.
  pub record Represents (records : List StoredCommitmentRow) (p : Published ChainScope Compression)
      : Type 0 where
    pub describes : Describes f p
    pub rows : p.descriptor.row_count ≡ length records
    pub increasing : Increasing records
    pub positions : All (Within p.descriptor.range.start p.descriptor.range.end) records
    pub lo : ℕ
    pub hi : ℕ
    pub start_block : p.descriptor.metadata.start_block ≡ some lo
    pub end_block : p.descriptor.metadata.end_block ≡ some hi
    pub blocks : All (λ r. (lo ≤ r.block_number) × (r.block_number ≤ hi)) records

  -- The parts of a successful preparation.
  prepare_parts :
      (scope : ChainScope) (first : StoredCommitmentRow) (rest : List StoredCommitmentRow)
      (compression : Compression) {p : Published ChainScope Compression}
      → prepare_commitment_chunk f scope (first ∷ rest) compression ≡ ok p
      → (end lo hi : ℕ) × (last_position first.global_position rest ≡ ok end)
        × (min_block (first ∷ rest) ≡ some lo)
        × (max_block (first ∷ rest) ≡ some hi)
        × (p.descriptor.range.start ≡ first.global_position)
        × (p.descriptor.range.end ≡ end)
        × (p.descriptor.metadata.start_block ≡ some lo)
        × (p.descriptor.metadata.end_block ≡ some hi)
  unfolding prepare_commitment_chunk commitment_range
  prepare_parts scope first rest compression h =
      elim (Result-cases (last_position first.global_position rest)) [
        | inr (_, e) ↦ absurd (ground arith)
        | inl (end, e) ↦ elim (Option-cases (min_block (first ∷ rest))) [
          | inl e' ↦ absurd (ground arith)
          | inr (lo, e') ↦ elim (Option-cases (max_block (first ∷ rest))) [
            | inl e'' ↦ absurd (ground arith)
            | inr (hi, e'') ↦
                (end, lo, hi, e, e', e'', ground arith, ground arith, ground arith, ground arith)
          ]
        ]
      ]

  prepare-Describes :
      (scope : ChainScope) (records : List StoredCommitmentRow) (compression : Compression)
      {p : Published ChainScope Compression}
      → prepare_commitment_chunk f scope records compression ≡ ok p
      → Describes f p × (p.descriptor.row_count ≡ length records)
  unfolding prepare_commitment_chunk
  prepare-Describes scope records compression h = ground arith

  -- A prepared chunk's descriptor has the size, the digest and the number of its rows; the rows'
  -- positions grow strictly and lie in its range, and their blocks lie between its first and last
  -- block.
  pub prepare_commitment_chunk-Represents :
      (scope : ChainScope) (records : List StoredCommitmentRow) (compression : Compression)
      {p : Published ChainScope Compression}
      → prepare_commitment_chunk f scope records compression ≡ ok p
      → Represents records p
  unfolding prepare_commitment_chunk commitment_range
  prepare_commitment_chunk-Represents scope [] compression h = absurd (ground arith)
  prepare_commitment_chunk-Represents scope (first ∷ rest) compression {p} h =
      let (end, lo, hi, e, e', e'', start_is, end_is, first_is, last_is) =
        prepare_parts scope first rest compression h in
      let ordered = last_position-Increasing first rest end e in
      let described = prepare-Describes scope (first ∷ rest) compression h in
      record {
        describes = described.0;
        rows = described.1;
        increasing = ordered.0;
        positions = All-map (λ a w. (omega arith, omega arith)) (first ∷ rest) ordered.1;
        lo = lo;
        hi = hi;
        start_block = first_is;
        end_block = last_is;
        blocks =
            All-zip _ _ (first ∷ rest) (min_block-le (first ∷ rest) lo e')
              (le-max_block (first ∷ rest) hi e'');
      }
