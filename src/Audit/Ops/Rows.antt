-- ===== src/Audit/Ops/Rows.antt =====
-- Lemmas on the rows of the tables (crates/railgun-indexer-core/src/audit.rs).
use railgun_indexer.Prelude.{
  ℕ, ◌+◌, ◌≤◌, ◌≡◌, refl, List, [], ◌∷◌, ◌++◌, length, Bool, true, false, arith, All, Bool-cases,
  inl, inr, Text, text_eq, text_eq→eq,
}
use railgun_indexer.Audit.{exists_row, where_rows, update_rows}
use railgun_indexer.Audit.Publication.{distinct}

module _ {ℓ} {A : Type ℓ} where
  -- How many rows pass a test.
  abbrev pub count_rows : (A → Bool) → List A → ℕ
  count_rows test rows = length (where_rows test rows)

  pub count-update :
      (test changed : A → Bool) (set : A → A) (rows : List A)
      → ((a : A) → test (set a) ≡ true → test a ≡ true)
      → count_rows test (update_rows changed set rows) ≤ count_rows test rows
  unfolding where_rows update_rows
  count-update test changed set [] h = omega arith
  count-update test changed set (a ∷ rest) h =
      let later = count-update test changed set rest h in
      elim (Bool-cases (changed a)) [
        | inr stays ↦ rw stays (ground arith)
        | inl goes ↦ elim (Bool-cases (test (set a))) [
          | inl after ↦ rw (goes, after, h a after) (omega arith)
          | inr after ↦ rw (goes, after) (ground arith)
        ]
      ]

  pub count-append :
      (test : A → Bool) (rows : List A) (a : A)
      → count_rows test (rows ++ a ∷ []) ≤ count_rows test rows + 1
  unfolding where_rows
  count-append test [] a = ground arith
  count-append test (b ∷ rest) a = let later = count-append test rest a in ground arith

  -- A row that still passes after the update passed before.
  pub exists-update_before :
      (test changed : A → Bool) (set : A → A) (rows : List A)
      → ((a : A) → test (set a) ≡ true → test a ≡ true)
      → exists_row test (update_rows changed set rows) ≡ true
      → exists_row test rows ≡ true
  unfolding exists_row update_rows
  exists-update_before test changed set [] h e = e
  exists-update_before test changed set (a ∷ rest) h e = elim (Bool-cases (test a)) [
    | inl here ↦ rw here refl
    | inr not_here ↦ elim (Bool-cases (changed a)) [
      | inr stays ↦ ground (arith, exists-update_before test changed set rest h)
      | inl goes ↦ elim (Bool-cases (test (set a))) [
        | inl after ↦ absurd (cc (h a after, not_here))
        | inr after ↦ ground (arith, exists-update_before test changed set rest h)
      ]
    ]
  ]

  -- An update that keeps passing rows passing keeps one.
  pub exists-update_after :
      (test changed : A → Bool) (set : A → A) (rows : List A)
      → ((a : A) → changed a ≡ true → test a ≡ true → test (set a) ≡ true)
      → exists_row test rows ≡ true
      → exists_row test (update_rows changed set rows) ≡ true
  unfolding exists_row update_rows
  exists-update_after test changed set [] h e = e
  exists-update_after test changed set (a ∷ rest) h e = elim (Bool-cases (changed a)) [
    | inr stays ↦ ground (arith, exists-update_after test changed set rest h)
    | inl goes ↦ elim (Bool-cases (test a)) [
      | inl here ↦ rw goes (ground (arith, h a goes here))
      | inr not_here ↦ ground (arith, exists-update_after test changed set rest h)
    ]
  ]

  pub exists-append_left :
      (test : A → Bool) (rows more : List A)
      → exists_row test rows ≡ true
      → exists_row test (rows ++ more) ≡ true
  unfolding exists_row
  exists-append_left test [] more e = cc
  exists-append_left test (a ∷ rest) more e = ground (arith, exists-append_left test rest more)

  -- A row behind the last passes only by itself.
  pub exists-snoc_before :
      (test : A → Bool) (rows : List A) (a : A)
      → test a ≡ false
      → exists_row test (rows ++ a ∷ []) ≡ true
      → exists_row test rows ≡ true
  unfolding exists_row
  exists-snoc_before test [] a h e = ground arith
  exists-snoc_before test (b ∷ rest) a h e = ground (arith, exists-snoc_before test rest a h)

  pub All-update {κ} :
      (P : A → Type κ) (changed : A → Bool) (set : A → A) (rows : List A)
      → ((a : A) → P a → changed a ≡ true → P (set a))
      → All P rows
      → All P (update_rows changed set rows)
  unfolding update_rows
  All-update P changed set [] h v = tt
  All-update P changed set (a ∷ rest) h v =
      let later = All-update P changed set rest h v.1 in
      elim (Bool-cases (changed a)) [
        | inl goes ↦ rw goes (h a v.0 goes, later)
        | inr stays ↦ rw stays (v.0, later)
      ]

  pub where-le : (test : A → Bool) (rows : List A) → count_rows test rows ≤ length rows
  unfolding where_rows
  where-le test [] = omega arith
  where-le test (a ∷ rest) = let later = where-le test rest in ground arith

  -- If as many pass as there are, all pass.
  pub where_all :
      (test : A → Bool) (rows : List A)
      → count_rows test rows ≡ length rows
      → All (λ a. test a ≡ true) rows
  unfolding where_rows
  where_all test [] h = tt
  where_all test (a ∷ rest) h =
      let small = where-le test rest in
      elim (Bool-cases (test a)) [
        | inl here ↦ (here, where_all test rest (ground arith))
        | inr not_here ↦ absurd (ground arith)
      ]

pub length-distinct-le : (cids : List Text) → length (distinct cids) ≤ length cids
unfolding distinct
length-distinct-le [] = omega arith
length-distinct-le (t ∷ rest) = let later = length-distinct-le rest in ground arith

all_of_exists :
    (test : Text → Bool) (t : Text) (cids : List Text)
    → exists_row (text_eq t) cids ≡ true
    → All (λ u. test u ≡ true) cids
    → test t ≡ true
unfolding exists_row
all_of_exists test t [] e h = absurd (cc e)
all_of_exists test t (u ∷ rest) e h = elim (Bool-cases (text_eq t u)) [
  | inl same ↦ rw (text_eq→eq t u same) h.0
  | inr differ ↦ all_of_exists test t rest (ground arith) h.1
]

-- What holds of the distinct texts holds of all.
pub All-distinct :
    (test : Text → Bool) (cids : List Text)
    → All (λ t. test t ≡ true) (distinct cids)
    → All (λ t. test t ≡ true) cids
unfolding distinct
All-distinct test [] h = tt
All-distinct test (t ∷ rest) h = elim (Bool-cases (exists_row (text_eq t) rest)) [
  | inl again ↦
      let later = All-distinct test rest (rw again at h) in
      (all_of_exists test t rest again later, later)
  | inr first ↦ let both = rw first at h in (both.0, All-distinct test rest both.1)
]

module _ {ℓ κ} {A : Type ℓ} (P : A → Type κ) where
  -- What holds of each row, changed or not.
  pub All-update_all :
      (changed : A → Bool) (set : A → A) (rows : List A)
      → ((a : A) → changed a ≡ true → P (set a))
      → ((a : A) → changed a ≡ false → P a)
      → All P (update_rows changed set rows)
  unfolding update_rows
  All-update_all changed set [] h k = tt
  All-update_all changed set (a ∷ rest) h k =
      let later = All-update_all changed set rest h k in
      elim (Bool-cases (changed a)) [
        | inl goes ↦ rw goes (h a goes, later)
        | inr stays ↦ rw stays (k a stays, later)
      ]
