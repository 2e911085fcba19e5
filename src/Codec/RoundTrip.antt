-- ===== src/Codec/RoundTrip.antt =====
-- What the little-endian writers write can be read back.
use railgun_indexer.Prelude.{
  ℕ, zero, suc, ◌+◌, ◌*◌, ◌/◌, ◌^◌, ◌<◌, ◌≡◌, refl, ap, List, [], ◌∷◌, ◌++◌, length, length-append,
  take, drop, get_elem?, some, All, arith,
}
use native.Mathlib.Nat.{pow-suc}
use railgun_indexer.Codec.{Bytes, concat, to_le_bytes, from_le_bytes}

pub length-to_le_bytes : (width value : ℕ) → length (to_le_bytes width value) ≡ width
unfolding to_le_bytes
length-to_le_bytes zero value = refl
length-to_le_bytes (suc width) value = ap suc (length-to_le_bytes width (value / 256))

smaller : (v p : ℕ) → v < p * 256 → v / 256 < p
smaller v p h = omega arith

pub from_le_bytes-to_le_bytes :
    (width value : ℕ) → value < 256 ^ width → from_le_bytes (to_le_bytes width value) ≡ value
unfolding to_le_bytes from_le_bytes
from_le_bytes-to_le_bytes zero value h = omega arith
from_le_bytes-to_le_bytes (suc width) value h =
    omega (arith, from_le_bytes-to_le_bytes width (value / 256) (smaller value (256 ^ width) bound))
  where
    bound : value < 256 ^ width * 256
    bound = rw pow-suc at h

-- A field of known length at the front can be cut off.
pub take-append {ℓ} : {A : Type ℓ} (xs ys : List A) (n : ℕ) → length xs ≡ n → take n (xs ++ ys) ≡ xs
take-append [] ys zero h = refl
take-append [] ys (suc n) h = absurd (omega arith)
take-append (x ∷ xs) ys zero h = absurd (omega arith)
take-append (x ∷ xs) ys (suc n) h = ap (◌∷◌ x) (take-append xs ys n (omega arith))

pub drop-append {ℓ} : {A : Type ℓ} (xs ys : List A) (n : ℕ) → length xs ≡ n → drop n (xs ++ ys) ≡ ys
drop-append [] ys zero h = refl
drop-append [] ys (suc n) h = absurd (omega arith)
drop-append (x ∷ xs) ys zero h = absurd (omega arith)
drop-append (x ∷ xs) ys (suc n) h = drop-append xs ys n (omega arith)

pub drop-drop {ℓ} : {A : Type ℓ} (m n : ℕ) (xs : List A) → drop (m + n) xs ≡ drop n (drop m xs)
drop-drop zero n xs = let e : 0 + n ≡ n = omega arith in rw e
drop-drop (suc m) zero [] = let e : suc m + 0 ≡ suc m = omega arith in rw e
drop-drop (suc m) (suc n) [] = let e : suc m + suc n ≡ suc (m + suc n) = omega arith in rw e
drop-drop (suc m) n (x ∷ xs) =
    let e : suc m + n ≡ suc (m + n) = omega arith in rw e (drop-drop m n xs)

-- Items of one width, one after the other.
pub length-concat :
    (w : ℕ) (values : List Bytes)
    → All (λ (value : Bytes). length value ≡ w) values
    → length (concat values) ≡ w * length values
unfolding concat
length-concat w [] h = omega arith
length-concat w (x ∷ rest) h =
    omega (arith, length-append x (concat rest), length-concat w rest h.1, h.0)

pub take-drop-concat :
    (w : ℕ) (values : List Bytes) (i : ℕ) (value : Bytes)
    → All (λ (value : Bytes). length value ≡ w) values
    → get_elem? values i ≡ some value
    → take w (drop (w * i) (concat values)) ≡ value
unfolding concat
take-drop-concat w [] i value h e = cc
take-drop-concat w (x ∷ rest) zero value h e =
    let first : w * 0 ≡ 0 = omega arith in rw first (cc (take-append x (concat rest) w h.0))
take-drop-concat w (x ∷ rest) (suc i) value h e =
    let next : w * suc i ≡ w + w * i = omega arith in
    rw (next, drop-drop, drop-append x (concat rest) w h.0) (take-drop-concat w rest i value h.1 e)
