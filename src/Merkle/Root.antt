-- ===== src/Merkle/Root.antt =====
-- The layered computation of the root agrees with the complete binary tree
-- (`checkpoint_root` of crates/railgun-indexer-core/src/merkle_checkpoint.rs).
use mathlib.Core.Path.{fun_ext}
use railgun_indexer.Prelude.{
  ℕ, zero, suc, ◌+◌, ◌*◌, ◌%◌, ◌≡◌, ◌≢◌, refl, ◌∙◌, ap, List, [], ◌∷◌, map, length, get_or, arith,
  ◌==◌, Bool-cases, inl, inr,
}
use railgun_indexer.Codec.{Bytes}
use railgun_indexer.Merkle.{Tree, pad, pair_up, climb, first_or_zero, checkpoint_root}

double : (i : ℕ) → 2 * suc i ≡ suc (suc (2 * i))
double i = omega arith

double_add_one : (i : ℕ) → suc (suc (2 * i)) + 1 ≡ suc (suc (2 * i + 1))
double_add_one i = omega arith

module _ (t : Tree) where
  open t use {Word, poseidon, from_be_bytes, to_be_bytes, merkle_zero_value, tree_depth}

  -- The node at a height and an index of the complete tree over the leaves `f 0`, `f 1`, ….
  pub node : (ℕ → Word) → ℕ → ℕ → Word
  node f zero i = f i
  node f (suc h) i = poseidon (node f h (2 * i)) (node f h (2 * i + 1))

  abbrev parents : (ℕ → Word) → ℕ → Word
  parents f i = poseidon (f (2 * i)) (f (2 * i + 1))

  node-parents : (f : ℕ → Word) (h i : ℕ) → node (parents f) h i ≡ node f (suc h) i
  unfolding node
  node-parents f zero i = refl
  node-parents f (suc h) i = cc (node-parents f h (2 * i), node-parents f h (2 * i + 1))

  pair_up-pad :
      (e x y : Word) (rest : List Word)
      → pair_up t (pad t e (x ∷ y ∷ rest)) ≡ poseidon x y ∷ pair_up t (pad t e rest)
  unfolding pad pair_up
  pair_up-pad e x y rest =
      let parity : suc (suc (length rest)) % 2 ≡ length rest % 2 = omega arith in
      rw parity (elim (Bool-cases (length rest % 2 == 0)) [ inl even ↦ rw even | inr odd ↦ rw odd ])

  -- One level of the layered computation, padded with `e`, is the level of parents.
  get_or-pair_up :
      (e : Word) (layer : List Word) (i : ℕ)
      → get_or (pair_up t (pad t e layer)) i (poseidon e e) ≡ parents (λ j. get_or layer j e) i
  unfolding pad pair_up
  get_or-pair_up e [] i = refl
  get_or-pair_up e (x ∷ []) zero = refl
  get_or-pair_up e (x ∷ []) (suc i) = rw (parents, double i, double_add_one i)
  get_or-pair_up e (x ∷ y ∷ rest) zero = rw (pair_up-pad e x y rest)
  get_or-pair_up e (x ∷ y ∷ rest) (suc i) =
      rw (pair_up-pad e x y rest, parents, double i, double_add_one i) (get_or-pair_up e rest i)

  -- The pairs of a layer that is not empty are not empty.
  pair_up-ne-nil : (e : Word) (layer : List Word) → layer ≢ [] → pair_up t (pad t e layer) ≢ []
  unfolding pad pair_up
  pair_up-ne-nil e [] h = absurd (h refl)
  pair_up-ne-nil e (x ∷ []) h = λ p. cc
  pair_up-ne-nil e (x ∷ y ∷ rest) h = rw (pair_up-pad e x y rest) (λ p. cc)

  first-get_or :
      (layer : List Word) (e : Word) → layer ≢ [] → first_or_zero t layer ≡ get_or layer 0 e
  unfolding first_or_zero
  first-get_or [] e h = absurd (h refl)
  first-get_or (x ∷ rest) e h = refl

  climb-node :
      (rounds : ℕ) (layer : List Word) (e : Word)
      → layer ≢ []
      → first_or_zero t (climb t rounds layer e) ≡ node (λ j. get_or layer j e) rounds 0
  unfolding climb node
  climb-node zero layer e h = first-get_or layer e h
  climb-node (suc rounds) layer e h =
      climb-node rounds (pair_up t (pad t e layer)) (poseidon e e) (pair_up-ne-nil e layer h)
      ∙ ap (λ (f : ℕ → Word). node f rounds 0) (fun_ext (get_or-pair_up e layer))
      ∙ node-parents (λ j. get_or layer j e) rounds 0

-- For leaves that are not empty, the computed root is the root of the complete binary tree of the
-- tree's depth, whose leaves are the given ones in order and the zero value after them.
pub checkpoint_root_lem :
    (t : Tree) (leaves : List Bytes)
    → leaves ≢ []
    → checkpoint_root t leaves
      ≡ t.to_be_bytes
          (node t (λ i. get_or (map t.from_be_bytes leaves) i t.merkle_zero_value) t.tree_depth 0)
unfolding checkpoint_root
checkpoint_root_lem t [] h = absurd (h refl)
checkpoint_root_lem t (x ∷ rest) h =
    ap t.to_be_bytes (climb-node t t.tree_depth _ t.merkle_zero_value (λ p. cc))
