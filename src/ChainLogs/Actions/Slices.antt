-- ===== src/ChainLogs/Actions/Slices.antt =====
-- Prefixes and suffixes of lists of commitments, for the slices that the calls take of a Transact log
-- (crates/railgun-indexer-core/src/chain_logs.rs).
use railgun_indexer.Prelude.{
  ℕ, zero, suc, ◌+◌, ◌-◌, ◌≤◌, leb, ◌&&◌, ◌≡◌, refl, ap, List, [], ◌∷◌, ◌++◌, length, take, drop,
  some, arith, Bool-cases, inl, inr,
}
use railgun_indexer.Codec.{Bytes}
use railgun_indexer.ChainLogs.Actions.{slice}

-- All but the last.
abbrev pub init : List Bytes → List Bytes
init [] = []
init (x ∷ []) = []
init (x ∷ y ∷ rest) = x ∷ init (y ∷ rest)

pub init-snoc : (xs : List Bytes) (x : Bytes) → init (xs ++ x ∷ []) ≡ xs
init-snoc [] x = refl
init-snoc (y ∷ []) x = refl
init-snoc (y ∷ z ∷ xs) x = ap (λ t. y ∷ t) (init-snoc (z ∷ xs) x)

pub take-drop : (n : ℕ) (xs : List Bytes) → take n xs ++ drop n xs ≡ xs
take-drop zero xs = refl
take-drop (suc n) [] = refl
take-drop (suc n) (x ∷ xs) = ap (λ t. x ∷ t) (take-drop n xs)

pub drop_add : (a n : ℕ) (xs : List Bytes) → drop (a + n) xs ≡ drop n (drop a xs)
drop_add zero n xs = let e : 0 + n ≡ n = omega arith in rw e refl
drop_add (suc a) zero [] = let e : suc a + 0 ≡ suc a = omega arith in rw e refl
drop_add (suc a) (suc n) [] = let e : suc a + suc n ≡ suc (a + suc n) = omega arith in rw e refl
drop_add (suc a) n (x ∷ xs) =
    let e : suc a + n ≡ suc (a + n) = omega arith in rw e (drop_add a n xs)

pub length-drop : (a : ℕ) (xs : List Bytes) → length (drop a xs) ≡ length xs - a
length-drop zero xs = omega arith
length-drop (suc a) [] = omega arith
length-drop (suc a) (x ∷ xs) = omega (arith, length-drop a xs)

pub length-take : (n : ℕ) (xs : List Bytes) → n ≤ length xs → length (take n xs) ≡ n
length-take zero xs h = refl
length-take (suc n) [] h = absurd (omega (arith, h))
length-take (suc n) (x ∷ xs) h = omega (arith, length-take n xs (omega (arith, h)))

pub slice-parts :
    (hashes : List Bytes) (offset count : ℕ) (emitted : List Bytes)
    → slice hashes offset (offset + count) ≡ some emitted
    → (emitted ≡ take count (drop offset hashes)) × (offset + count ≤ length hashes)
slice-parts hashes offset count emitted h =
    let e : offset + count - offset ≡ count = omega arith in
    elim (Bool-cases (leb offset (offset + count) && leb (offset + count) (length hashes))) [
      | inl yes_in ↦ let s = rw (yes_in, e) at h in (ground arith, ground arith)
      | inr no_in ↦ absurd (ground arith)
    ]

pub drop_all : (xs : List Bytes) → drop (length xs) xs ≡ []
drop_all [] = refl
drop_all (x ∷ xs) = drop_all xs
