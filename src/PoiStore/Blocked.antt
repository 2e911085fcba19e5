-- ===== src/PoiStore/Blocked.antt =====
-- The table of blocked shields of one list key and chain (crates/railgun-indexer-core/src/store.rs).
-- Its primary key is the blinded commitment. Text, hex text too, is its bytes.
pub mod Lookup
use railgun_indexer.Prelude.{
  ℕ, List, [], ◌∷◌, ◌++◌, Option, none, some, Bool, true, false, if◌then◌else◌, Result, ok, err,
  ◌>>=◌, ltb,
}
use railgun_indexer.Codec.{Bytes}
use railgun_indexer.PoiStore.{Hex, StoreError, bytes_eq, decode_fixed_hex}

pub record SignedBlockedShield : Type 0 where
  pub commitment_hash : Bytes
  pub blinded_commitment : Bytes
  pub block_reason : Option Bytes
  pub signature : Bytes

pub record StoredBlockedShield : Type 0 where
  pub commitment_hash : Bytes
  pub blinded_commitment : Bytes
  pub block_reason : Option Bytes
  pub signature : Bytes

-- `INSERT … ON CONFLICT … DO UPDATE`
unfoldable pub upsert_row :
    StoredBlockedShield → List StoredBlockedShield → List StoredBlockedShield
upsert_row new [] = new ∷ []
upsert_row new (r ∷ rest) =
    if bytes_eq r.blinded_commitment new.blinded_commitment
    then new ∷ rest
    else r ∷ upsert_row new rest

-- `bytea` is ordered byte by byte.
unfoldable pub bytes_lt : Bytes → Bytes → Bool
bytes_lt [] [] = false
bytes_lt [] (b ∷ bs) = true
bytes_lt (a ∷ as_) [] = false
bytes_lt (a ∷ as_) (b ∷ bs) = if ltb a b then true else if ltb b a then false else bytes_lt as_ bs

insert_ordered : StoredBlockedShield → List StoredBlockedShield → List StoredBlockedShield
insert_ordered r [] = r ∷ []
insert_ordered r (s ∷ rest) =
    if bytes_lt s.blinded_commitment r.blinded_commitment
    then s ∷ insert_ordered r rest
    else r ∷ s ∷ rest

-- `ORDER BY blinded_commitment ASC`
unfoldable pub all_blocked_shields : List StoredBlockedShield → List StoredBlockedShield
unfolding insert_ordered
all_blocked_shields [] = []
all_blocked_shields (r ∷ rest) = insert_ordered r (all_blocked_shields rest)

module _ (h : Hex) where
  unfoldable pub decode_blocked_shield : SignedBlockedShield → Result StoreError StoredBlockedShield
  decode_blocked_shield r = do
    commitment_hash ← decode_fixed_hex h 32 r.commitment_hash
    blinded_commitment ← decode_fixed_hex h 32 r.blinded_commitment
    signature ← decode_fixed_hex h 64 r.signature
    ok (record {
      commitment_hash = commitment_hash;
      blinded_commitment = blinded_commitment;
      block_reason = r.block_reason;
      signature = signature;
    })

  unfoldable pub upsert_blocked_shields :
      List StoredBlockedShield
      → List SignedBlockedShield
      → Result StoreError (List StoredBlockedShield)
  upsert_blocked_shields rows [] = ok rows
  upsert_blocked_shields rows (r ∷ rest) = do
    new ← decode_blocked_shield r
    upsert_blocked_shields (upsert_row new rows) rest

  -- `DELETE`, and then the insertions.
  unfoldable pub replace_blocked_shields :
      List StoredBlockedShield
      → List SignedBlockedShield
      → Result StoreError (List StoredBlockedShield)
  replace_blocked_shields rows records = upsert_blocked_shields [] records
