-- ===== src/Codec/Read.antt =====
-- A reader of the chunk payloads, as a wallet needs one: the description against which the writers
-- of crates/railgun-indexer-core/src/{public_txid,wallet_scan,commitments}.rs are proved. It reads
-- from the front and returns what is left.
use railgun_indexer.Prelude.{
  ℕ, zero, suc, ◌^◌, ◌<◌, ◌≡◌, refl, ap, ◌∙◌, List, [], ◌∷◌, ◌++◌, Option, none, some, length, map,
  length-append, true, take, drop, leb, le→leb, if◌then◌else◌, arith, All, Result, ok, Result-cases,
  inl, inr,
}
use railgun_indexer.Codec.{Bytes, to_le_bytes, from_le_bytes, write_bytes, write_string, write_each}
use railgun_indexer.Codec.RoundTrip.{
  length-to_le_bytes, from_le_bytes-to_le_bytes, take-append, drop-append,
}
use mathlib.Core.List.{append_assoc}

abbrev pub Reader : Type 0 → Type 0
Reader A = Bytes → Option (A × Bytes)

infixl 5 ◌>>=◌
abbrev pub ◌>>=◌ : {A B : Type 0} → Reader A → (A → Reader B) → Reader B
◌>>=◌ m f bytes = elim (m bytes) [ none ↦ none | some (a, rest) ↦ f a rest ]

abbrev pub pure : {A : Type 0} → A → Reader A
pure a bytes = some (a, bytes)

unfoldable pub read_fixed : ℕ → Reader Bytes
read_fixed n bytes = if leb n (length bytes) then some (take n bytes, drop n bytes) else none

unfoldable pub read_uint : ℕ → Reader ℕ
read_uint width = do field ← read_fixed width; pure (from_le_bytes field)

unfoldable pub read_bytes : Reader Bytes
read_bytes = do n ← read_uint 4; read_fixed n

unfoldable pub read_string : Reader Bytes
read_string = do n ← read_uint 2; read_fixed n

unfoldable pub read_many : {A : Type 0} → Reader A → ℕ → Reader (List A)
read_many read zero bytes = some ([], bytes)
read_many read (suc n) bytes = elim (read bytes) [
  | none ↦ none
  | some (a, rest) ↦ elim (read_many read n rest) [
    | none ↦ none
    | some (as_, rest') ↦ some (a ∷ as_, rest')
  ]
]

pub read_fixed_lem :
    (n : ℕ) (field rest : Bytes)
    → length field ≡ n
    → read_fixed n (field ++ rest) ≡ some (field, rest)
unfolding read_fixed
read_fixed_lem n field rest h =
    let fits : leb n (length (field ++ rest)) ≡ true =
      le→leb _ _ (omega (arith, length-append field rest)) in
    rw (fits, take-append field rest n h, drop-append field rest n h)

-- A reader that succeeds hands its result and the rest to the next one.
pub bind_some :
    {A B : Type 0} (m : Reader A) (f : A → Reader B) (bytes : Bytes) {a : A} {rest : Bytes}
    → m bytes ≡ some (a, rest)
    → (m >>= f) bytes ≡ f a rest
bind_some m f bytes h = rw (h, ◌>>=◌)

pub read_uint_lem :
    (width value : ℕ) (rest : Bytes)
    → value < 256 ^ width
    → read_uint width (to_le_bytes width value ++ rest) ≡ some (value, rest)
unfolding read_uint
read_uint_lem width value rest h =
    bind_some (read_fixed width) (λ field. pure (from_le_bytes field)) _
      (read_fixed_lem width (to_le_bytes width value) rest (length-to_le_bytes width value))
    ∙ ap (λ (v : ℕ). some (v, rest)) (from_le_bytes-to_le_bytes width value h)

-- A length of the given width, and so many bytes.
prefixed_lem :
    (width : ℕ) (value rest : Bytes)
    → length value < 256 ^ width
    → (read_uint width >>= read_fixed) ((to_le_bytes width (length value) ++ value) ++ rest)
      ≡ some (value, rest)
prefixed_lem width value rest h = rw append_assoc (
    bind_some (read_uint width) read_fixed _ (read_uint_lem width (length value) (value ++ rest) h)
    ∙ read_fixed_lem (length value) value rest refl)

pub read_bytes_lem :
    (value bytes rest : Bytes)
    → write_bytes value ≡ ok bytes
    → read_bytes (bytes ++ rest) ≡ some (value, rest)
unfolding read_bytes write_bytes
read_bytes_lem value bytes rest h =
    let same : bytes ≡ to_le_bytes 4 (length value) ++ value = ground arith in
    rw same (prefixed_lem 4 value rest (ground arith))

pub read_string_lem :
    (value bytes rest : Bytes)
    → write_string value ≡ ok bytes
    → read_string (bytes ++ rest) ≡ some (value, rest)
unfolding read_string write_string
read_string_lem value bytes rest h =
    let same : bytes ≡ to_le_bytes 2 (length value) ++ value = ground arith in
    rw same (prefixed_lem 2 value rest (ground arith))

-- `read` undoes `write` on the item, whatever follows.
abbrev pub Undoes : {E A : Type 0} → Reader A → (A → Result E Bytes) → A → Type 0
Undoes {E} read write a =
    (bytes rest : Bytes) → write a ≡ ok bytes → read (bytes ++ rest) ≡ some (a, rest)

pub read_many_lem :
    {E A : Type 0} (read : Reader A) (write : A → Result E Bytes) (values : List A)
    (bytes rest : Bytes)
    → All (Undoes read write) values
    → write_each write values ≡ ok bytes
    → read_many read (length values) (bytes ++ rest) ≡ some (values, rest)
unfolding read_many write_each
read_many_lem read write [] bytes rest h e =
    let none_left : bytes ≡ [] = ground arith in rw none_left
read_many_lem read write (x ∷ values) bytes rest h e = elim (Result-cases (write x)) [
  | inr (_, failed) ↦ absurd (ground arith)
  | inl (first, wrote) ↦ elim (Result-cases (write_each write values)) [
    | inr (_, failed) ↦ absurd (ground arith)
    | inl (others, wrote_rest) ↦
        let joined : bytes ≡ first ++ others = ground arith in
        let head = h.0 first (others ++ rest) wrote in
        rw (joined, append_assoc, head, read_many_lem read write values others rest h.1 wrote_rest)
  ]
]

-- `read` gives back what `view` keeps of the item that `write` wrote, whatever follows.
abbrev pub Shows : {E A B : Type 0} → Reader B → (A → Result E Bytes) → (A → B) → A → Type 0
Shows read write view a =
    (bytes rest : Bytes) → write a ≡ ok bytes → read (bytes ++ rest) ≡ some (view a, rest)

pub read_many_view :
    {E A B : Type 0} (read : Reader B) (write : A → Result E Bytes) (view : A → B) (values : List A)
    (bytes rest : Bytes)
    → All (Shows read write view) values
    → write_each write values ≡ ok bytes
    → read_many read (length values) (bytes ++ rest) ≡ some (map view values, rest)
unfolding read_many write_each
read_many_view read write view [] bytes rest h e =
    let none_left : bytes ≡ [] = ground arith in rw none_left
read_many_view read write view (x ∷ values) bytes rest h e = elim (Result-cases (write x)) [
  | inr (_, failed) ↦ absurd (ground arith)
  | inl (first, wrote) ↦ elim (Result-cases (write_each write values)) [
    | inr (_, failed) ↦ absurd (ground arith)
    | inl (others, wrote_rest) ↦
        let joined : bytes ≡ first ++ others = ground arith in
        let head = h.0 first (others ++ rest) wrote in
        rw (
          joined,
          append_assoc,
          head,
          read_many_view read write view values others rest h.1 wrote_rest,
        )
  ]
]
