-- ===== src/PoiStore/Blocked/Lookup.antt =====
-- What the table of blocked shields holds after a replacement
-- (crates/railgun-indexer-core/src/store.rs).
use railgun_indexer.Prelude.{
  ◌≡◌, refl, List, [], ◌∷◌, Option, none, some, ok, err, Result-cases, inl, inr, if◌then◌else◌,
  arith,
}
use railgun_indexer.Codec.{Bytes}
use railgun_indexer.PoiStore.{Hex, bytes_eq}
use railgun_indexer.PoiStore.Rows.{bytes_eq→eq, bytes_eq_refl}
use railgun_indexer.PoiStore.Blocked.{
  SignedBlockedShield, StoredBlockedShield, upsert_row, decode_blocked_shield,
  upsert_blocked_shields, replace_blocked_shields,
}

-- The row of a blinded commitment.
pub lookup : Bytes → List StoredBlockedShield → Option StoredBlockedShield
lookup key [] = none
lookup key (r ∷ rest) = if bytes_eq r.blinded_commitment key then some r else lookup key rest

-- The last of the records with a blinded commitment, as it is decoded, or what was there before.
pub last_record :
    Hex → Bytes → List SignedBlockedShield → Option StoredBlockedShield → Option StoredBlockedShield
last_record h key [] before = before
last_record h key (r ∷ rest) before = elim (decode_blocked_shield h r) [
  | err e ↦ last_record h key rest before
  | ok new ↦
      if bytes_eq new.blinded_commitment key
      then last_record h key rest (some new)
      else last_record h key rest before
]

lookup-upsert_row :
    (key : Bytes) (new : StoredBlockedShield) (rows : List StoredBlockedShield)
    → lookup key (upsert_row new rows)
      ≡ (if bytes_eq new.blinded_commitment key then some new else lookup key rows)
unfolding lookup upsert_row
lookup-upsert_row key new [] = refl
lookup-upsert_row key new (r ∷ rest) = ground (
  arith,
  lookup-upsert_row key new rest,
  bytes_eq→eq r.blinded_commitment new.blinded_commitment,
  bytes_eq→eq r.blinded_commitment key,
  bytes_eq→eq new.blinded_commitment key,
  bytes_eq_refl key,
)

lookup-upsert_blocked_shields :
    (h : Hex) (key : Bytes) (records : List SignedBlockedShield)
    (rows rows' : List StoredBlockedShield)
    → upsert_blocked_shields h rows records ≡ ok rows'
    → lookup key rows' ≡ last_record h key records (lookup key rows)
unfolding upsert_blocked_shields last_record
lookup-upsert_blocked_shields h key [] rows rows' e =
    let same : rows' ≡ rows = ground arith in rw same
lookup-upsert_blocked_shields h key (r ∷ rest) rows rows' e =
    elim (Result-cases (decode_blocked_shield h r)) [
      | inr (_, bad) ↦ absurd (ground arith)
      | inl (new, good) ↦
          let ih =
            lookup-upsert_blocked_shields h key rest (upsert_row new rows) rows' (ground arith) in
          ground (arith, ih, lookup-upsert_row key new rows)
    ]

-- After a replacement the row of any blinded commitment is the last record with it, as it is decoded,
-- and there is none without a record.
pub replace_blocked_shields-lookup :
    (h : Hex) (rows rows' : List StoredBlockedShield) (records : List SignedBlockedShield)
    (key : Bytes)
    → replace_blocked_shields h rows records ≡ ok rows'
    → lookup key rows' ≡ last_record h key records none
unfolding replace_blocked_shields lookup
replace_blocked_shields-lookup h rows rows' records key e =
    lookup-upsert_blocked_shields h key records [] rows' e
