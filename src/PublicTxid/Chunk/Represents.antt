-- ===== src/PublicTxid/Chunk/Represents.antt =====
-- What the descriptor of a public TXID chunk says of its rows
-- (crates/railgun-indexer-core/src/public_txid.rs).
use railgun_indexer.Prelude.{
  ℕ, ◌+◌, ◌/◌, ◌≤◌, ◌≡◌, ◌⊎◌, refl, true, false, max, List, [], ◌∷◌, length, Option, none, some, ok,
  Result-cases, Option-cases, inl, inr, arith, All, All-map,
}
use railgun_indexer.Codec.{Bytes}
use railgun_indexer.Artifact.{Range, txid_index, Published, ChunkFormat, Describes}
use railgun_indexer.PublicTxid.{
  Txid, StoredPublicTxidRow, check_indices, last_txid_index, public_txid_range,
  validate_single_txid_tree, encode_public_txid_records, encode_public_txid_unshield_preimages,
}
use railgun_indexer.PublicTxid.Indices.{Consecutive, check_indices-Consecutive, last_txid_index_lem}
use railgun_indexer.PublicTxid.Chunk.{
  max_row_block, encode_public_txid_envelope, prepare_public_txid_chunk,
}

public_txid_range-parts :
    (records : List StoredPublicTxidRow) (range : Range)
    → public_txid_range records ≡ ok range
    → Consecutive range.start records
      × (range.end + 1 ≡ range.start + length records)
      × (range.kind ≡ txid_index)
unfolding public_txid_range
public_txid_range-parts [] range h = absurd (ground arith)
public_txid_range-parts (first ∷ rest) range h =
    elim (Result-cases (check_indices first.txid_index (first ∷ rest))) [
      | inr (_, bad) ↦ absurd (ground arith)
      | inl (_, good) ↦
          let facts = (check_indices-Consecutive first.txid_index (first ∷ rest) good).0 in
          let start : range.start ≡ first.txid_index = ground arith in
          let end : range.end ≡ last_txid_index first rest = ground arith in
          (
            rw start facts,
            omega (arith, last_txid_index_lem first.txid_index first rest facts),
            ground arith,
          )
    ]

max_row_block-none :
    (records : List StoredPublicTxidRow) → max_row_block records ≡ none → records ≡ []
unfolding max_row_block
max_row_block-none [] h = refl
max_row_block-none (r ∷ rest) h = absurd (ground arith)

le-max_row_block :
    (records : List StoredPublicTxidRow) (b : ℕ)
    → max_row_block records ≡ some b
    → All (λ r. r.block_number ≤ b) records
unfolding max_row_block
le-max_row_block [] b h = tt
le-max_row_block (r ∷ rest) b h = elim (Option-cases (max_row_block rest)) [
  | inl e ↦ (ground arith, rw (max_row_block-none rest e) tt)
  | inr (c, e) ↦
      let upper : b ≡ max r.block_number c = ground arith in
      (omega arith, All-map (λ a below. omega arith) rest (le-max_row_block rest c e))
]

-- The block is that of a row.
abbrev pub Reaches : ℕ → List StoredPublicTxidRow → Type 0
Reaches b [] = false ≡ true
Reaches b (r ∷ rest) = (r.block_number ≡ b) ⊎ Reaches b rest

max_row_block-Reaches :
    (records : List StoredPublicTxidRow) (b : ℕ)
    → max_row_block records ≡ some b
    → Reaches b records
unfolding max_row_block
max_row_block-Reaches [] b h = absurd (ground arith)
max_row_block-Reaches (r ∷ rest) b h = elim (Option-cases (max_row_block rest)) [
  | inl e ↦ inl (ground arith)
  | inr (c, e) ↦
      let upper : b ≡ max r.block_number c = ground arith in
      let either : (r.block_number ≡ b) ⊎ (c ≡ b) = omega arith in
      elim either [
        | inl here ↦ inl here
        | inr there ↦ inr (max_row_block-Reaches rest b (rw there at e))
      ]
]

module _ (t : Txid) (f : ChunkFormat) where
  open f use {ChainScope, Compression}

  -- What a prepared chunk says of its rows.
  pub record Represents (records : List StoredPublicTxidRow) (checkpoint_root : Bytes)
      (p : Published ChainScope Compression) : Type 0 where
    pub describes : Describes f p
    pub rows : p.descriptor.row_count ≡ length records
    pub kind : p.descriptor.range.kind ≡ txid_index
    pub consecutive : Consecutive p.descriptor.range.start records
    pub end : p.descriptor.range.end + 1 ≡ p.descriptor.range.start + length records
    pub one_tree :
        p.descriptor.range.start / t.tree_leaf_count ≡ p.descriptor.range.end / t.tree_leaf_count
    pub root : p.descriptor.metadata.root ≡ some checkpoint_root
    pub last_block : ℕ
    pub checkpoint : p.descriptor.metadata.checkpoint_block ≡ some last_block
    pub blocks : All (λ r. r.block_number ≤ last_block) records
    pub reached : Reaches last_block records
    pub payload : Bytes
    pub sidecar : Option Bytes
    pub encoded : encode_public_txid_records records ≡ ok payload
    pub preimages : encode_public_txid_unshield_preimages t records ≡ ok sidecar
    pub bytes :
        encode_public_txid_envelope t f p.descriptor.scope p.descriptor.range p.descriptor.row_count
          payload sidecar p.descriptor.compression
        ≡ ok p.compressed_bytes

  -- A prepared chunk's descriptor has the size and digest of its bytes, the number of its rows, the given
  -- root and the last block of a row; the rows' indices are consecutive, fill its range and stay in one tree;
  -- its bytes are those of the encoded rows and the encoded preimages.
  pub prepare_public_txid_chunk-Represents :
      (scope : ChainScope) (records : List StoredPublicTxidRow) (checkpoint_root : Bytes)
      (compression : Compression) {p : Published ChainScope Compression}
      → prepare_public_txid_chunk t f scope records checkpoint_root compression ≡ ok p
      → Represents records checkpoint_root p
  unfolding prepare_public_txid_chunk validate_single_txid_tree
  prepare_public_txid_chunk-Represents scope records checkpoint_root compression {p} h =
      elim (Result-cases (public_txid_range records)) [
        | inr (_, bad) ↦ absurd (ground arith)
        | inl (range, r) ↦ elim (Option-cases (max_row_block records)) [
          | inl bad ↦ absurd (ground arith)
          | inr (last_block, m) ↦ elim (Result-cases (encode_public_txid_records records)) [
            | inr (_, bad) ↦ absurd (ground arith)
            | inl (payload, e) ↦
                elim (Result-cases (encode_public_txid_unshield_preimages t records)) [
                  | inr (_, bad) ↦ absurd (ground arith)
                  | inl (sidecar, s) ↦
                      let facts = public_txid_range-parts records range r in
                      let same : p.descriptor.range ≡ range = ground arith in
                      record {
                        describes = ground arith;
                        rows = ground arith;
                        kind = rw same facts.2;
                        consecutive = rw same facts.0;
                        end = rw same facts.1;
                        one_tree = ground arith;
                        root = ground arith;
                        last_block = last_block;
                        checkpoint = ground arith;
                        blocks = le-max_row_block records last_block m;
                        reached = max_row_block-Reaches records last_block m;
                        payload = payload;
                        sidecar = sidecar;
                        encoded = e;
                        preimages = s;
                        bytes = ground arith;
                      }
                ]
          ]
        ]
      ]
