-- ===== src/Prelude/Strings.antt =====
-- Strings as lists of code points, with the operations of Rust's `str` that the program calls.
use Prim.Native.Nat.{ℕ}
use Prim.Native.Char.{code}
use Prim.Native.String.{String}
use mathlib.Core.Bool.{Bool, true, false, ◌&&◌, ◌||◌}
use mathlib.Core.Path.{◌≡◌, refl}
use mathlib.Core.Logic.{inl, inr}
use mathlib.Core.Option.{Option, none, some}
use mathlib.Core.List.{List, [], ◌∷◌, ◌++◌}
use native.Mathlib.Omega.{arith}
use railgun_indexer.Prelude.Tests.{◌==◌, leb, if◌then◌else◌, Bool-cases}

abbrev pub Text : Type 0
Text = List ℕ

-- The code points of a literal.
abbrev pub codes : String → Text
codes String.[] = []
codes (String.◌∷◌ c s) = code c ∷ codes s

-- `char::is_whitespace`, the property White_Space of Unicode.
unfoldable pub is_whitespace : ℕ → Bool
is_whitespace c =
    (leb 9 c && leb c 13)
    || (c == 32)
    || (c == 0x85)
    || (c == 0xa0)
    || (c == 0x1680)
    || (leb 0x2000 c && leb c 0x200a)
    || (c == 0x2028)
    || (c == 0x2029)
    || (c == 0x202f)
    || (c == 0x205f)
    || (c == 0x3000)

abbrev pub is_empty {ℓ} : {A : Type ℓ} → List A → Bool
is_empty [] = true
is_empty (x ∷ xs) = false

unfoldable pub trim_start : Text → Text
trim_start [] = []
trim_start (c ∷ rest) = let later = trim_start rest in if is_whitespace c then later else c ∷ rest

unfoldable pub trim_end : Text → Text
trim_end [] = []
trim_end (c ∷ rest) =
    let later = trim_end rest in if is_empty later && is_whitespace c then [] else c ∷ later

-- `str::trim`
unfoldable pub trim : Text → Text
trim text = trim_end (trim_start text)

unfoldable pub strip_prefix : Text → Text → Option Text
strip_prefix [] text = some text
strip_prefix (p ∷ prefix) [] = none
strip_prefix (p ∷ prefix) (c ∷ text) =
    let later = strip_prefix prefix text in if p == c then later else none

unfoldable pub text_eq : Text → Text → Bool
text_eq [] [] = true
text_eq [] (b ∷ bs) = false
text_eq (a ∷ as_) [] = false
text_eq (a ∷ as_) (b ∷ bs) = (a == b) && text_eq as_ bs

pub text_eq→eq : (a b : Text) → text_eq a b ≡ true → a ≡ b
unfolding text_eq
text_eq→eq [] [] h = refl
text_eq→eq [] (b ∷ bs) h = cc
text_eq→eq (a ∷ as_) [] h = cc
text_eq→eq (a ∷ as_) (b ∷ bs) h = ground (arith, text_eq→eq as_ bs)

pub text_eq_refl : (a : Text) → text_eq a a ≡ true
unfolding text_eq
text_eq_refl [] = refl
text_eq_refl (a ∷ as_) = ground (arith, text_eq_refl as_)

pub trim_end_twice : (text : Text) → trim_end (trim_end text) ≡ trim_end text
unfolding trim_end
trim_end_twice [] = refl
trim_end_twice (c ∷ rest) = elim (Bool-cases (is_empty (trim_end rest) && is_whitespace c)) [
  | inl e ↦ ground (arith, trim_end_twice rest)
  | inr e ↦ ground (arith, trim_end_twice rest)
]

pub trim_end-strip :
    (prefix text rest : Text)
    → strip_prefix prefix text ≡ some rest
    → trim_end text ≡ text
    → trim_end rest ≡ rest
unfolding strip_prefix trim_end
trim_end-strip [] text rest h e = ground arith
trim_end-strip (p ∷ prefix) [] rest h e = cc
trim_end-strip (p ∷ prefix) (c ∷ text) rest h e =
    let later = trim_end-strip prefix text rest in ground (arith, later)

pub strip-append : (prefix text : Text) → strip_prefix prefix (prefix ++ text) ≡ some text
unfolding strip_prefix
strip-append [] text = refl
strip-append (p ∷ prefix) text = ground (arith, strip-append prefix text)

-- No character of a text is whitespace.
abbrev pub NoSpace : Text → Type 0
NoSpace [] = Unit {0}
NoSpace (c ∷ rest) = (is_whitespace c ≡ false) × NoSpace rest

pub trim_end-append :
    (prefix text : Text) → NoSpace prefix → trim_end (prefix ++ text) ≡ prefix ++ trim_end text
unfolding trim_end
trim_end-append [] text h = refl
trim_end-append (c ∷ prefix) text h = ground (arith, trim_end-append prefix text h.1)
