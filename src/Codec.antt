-- ===== src/Codec.antt =====
-- The little-endian writers that the chunk encoders share: `write_u16`, `write_u32`, `write_u64`,
-- `write_len`, `write_bytes`, `write_string` and `write_fixed_bytes_vec` of public_txid.rs,
-- wallet_scan.rs, commitments.rs and merkle_checkpoint.rs in crates/railgun-indexer-core/src. A
-- writer returns the bytes that it appends. Text stands as its UTF-8 bytes.
pub mod RoundTrip
pub mod Read
use railgun_indexer.Prelude.{
  ℕ, zero, suc, ◌+◌, ◌*◌, ◌/◌, ◌%◌, List, [], ◌∷◌, ◌++◌, length, u32_mod, u64_mod, try_narrow,
  Result, ok, err, ◌>>=◌, ok_or,
}

abbrev pub Bytes : Type 0
Bytes = List ℕ

-- The errors of the chunk format: those that the source names, and any other of the format's own.
pub data ChunkError : Type 0 where
  payload_too_large : ChunkError
  chunk_too_large : ℕ → ℕ → ChunkError
  string_too_long : ℕ → ChunkError
  format_error : ℕ → ChunkError

-- `to_le_bytes` of an integer of the given width in bytes.
unfoldable pub to_le_bytes : ℕ → ℕ → Bytes
to_le_bytes zero value = []
to_le_bytes (suc width) value = value % 256 ∷ to_le_bytes width (value / 256)

-- `from_le_bytes`
unfoldable pub from_le_bytes : Bytes → ℕ
from_le_bytes [] = 0
from_le_bytes (b ∷ rest) = b + 256 * from_le_bytes rest

-- A `for` loop that appends what `write` makes of each item, and stops at its first error.
unfoldable pub write_each : {E A : Type 0} → (A → Result E Bytes) → List A → Result E Bytes
write_each write [] = ok []
write_each write (value ∷ rest) = do
  first ← write value
  others ← write_each write rest
  ok (first ++ others)

abbrev pub write_u16 : ℕ → Bytes
write_u16 value = to_le_bytes 2 value

abbrev pub write_u32 : ℕ → Bytes
write_u32 value = to_le_bytes 4 value

abbrev pub write_u64 : ℕ → Bytes
write_u64 value = to_le_bytes 8 value

-- `u64::try_from` of a length
abbrev pub u64_len : ℕ → Result ChunkError ℕ
u64_len n = ok_or (try_narrow u64_mod n) payload_too_large

unfoldable pub write_len : ℕ → Result ChunkError Bytes
write_len count = do n ← u64_len count; ok (write_u64 n)

unfoldable pub write_bytes : Bytes → Result ChunkError Bytes
write_bytes value = do
  n ← ok_or (try_narrow u32_mod (length value)) payload_too_large
  ok (write_u32 n ++ value)

unfoldable pub write_string : Bytes → Result ChunkError Bytes
write_string value = do
  n ← ok_or (try_narrow 65536 (length value)) (string_too_long (length value))
  ok (write_u16 n ++ value)

unfoldable pub concat : List Bytes → Bytes
concat [] = []
concat (value ∷ rest) = value ++ concat rest

unfoldable pub write_fixed_bytes_vec : List Bytes → Result ChunkError Bytes
unfolding concat
write_fixed_bytes_vec values = do
  n ← ok_or (try_narrow u32_mod (length values)) payload_too_large
  ok (write_u32 n ++ concat values)
