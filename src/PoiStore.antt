-- ===== src/PoiStore.antt =====
-- The POI tables of the store, for one list key, chain and upstream
-- (crates/railgun-indexer-core/src/store.rs). A table is the list of its rows; its primary key is
-- the event index. The SQL statements are written out as functions on the rows. A column of a fixed
-- width, which the schema checks, is its bytes; hex decoding is of another crate and is a field of
-- `Hex`. A statement that the database itself refuses is not modelled here, but at the commit.
pub mod Rows
pub mod Keeps
pub mod Blocked
pub mod Complete
use railgun_indexer.Prelude.{
  ℕ, zero, suc, ◌+◌, ◌^◌, min, List, [], ◌∷◌, ◌++◌, length, Option, none, some, Bool, true, false,
  not, ◌&&◌, ◌==◌, leb, ltb, if◌then◌else◌, Result, ok, err, ◌>>=◌, ◌>>◌, ok_or, checked_add,
}
use railgun_indexer.Codec.{Bytes}

-- Equality of byte strings.
unfoldable pub bytes_eq : Bytes → Bytes → Bool
bytes_eq [] [] = true
bytes_eq [] (b ∷ bs) = false
bytes_eq (a ∷ as_) [] = false
bytes_eq (a ∷ as_) (b ∷ bs) = (a == b) && bytes_eq as_ bs

pub data PoiEventType : Type 0 where
  shield transact unshield legacy_transact : PoiEventType

unfoldable pub event_type_discriminant : PoiEventType → ℕ
event_type_discriminant shield = 0
event_type_discriminant transact = 1
event_type_discriminant unshield = 2
event_type_discriminant legacy_transact = 3

unfoldable pub event_type_from_discriminant : ℕ → Option PoiEventType
event_type_from_discriminant zero = some shield
event_type_from_discriminant (suc zero) = some transact
event_type_from_discriminant (suc (suc zero)) = some unshield
event_type_from_discriminant (suc (suc (suc zero))) = some legacy_transact
event_type_from_discriminant _ = none

pub record SignedPoiEvent : Type 0 where
  pub index : ℕ
  pub blinded_commitment : Bytes
  pub signature : Bytes
  pub event_type : PoiEventType

pub record EventRow : Type 0 where
  pub event_index : ℕ
  pub blinded_commitment : Bytes
  pub signature : Bytes
  pub event_type : ℕ
  pub event_data_complete : Bool

pub record ChainTip : Type 0 where
  pub last_event_index : ℕ
  pub last_tip_merkleroot : Option Bytes

pub record PoiStore : Type 0 where
  pub events : List EventRow
  pub tip : Option ChainTip

pub data StoreError : Type 0 where
  sqlx : StoreError
  hex : StoreError
  hex_length : ℕ → ℕ → StoreError
  integer_out_of_range : ℕ → StoreError
  chain_tip_regression : ℕ → StoreError
  poi_event_conflict : ℕ → StoreError
  incomplete_poi_event : ℕ → StoreError
  invalid_event_type : ℕ → StoreError

pub record Hex : Type 0 where
  pub decode : Bytes → Option Bytes
  pub encode : Bytes → Bytes
  pub encode_prefixed : Bytes → Bytes

abbrev i64_mod : ℕ
i64_mod = 2 ^ 63

abbrev pub u64_to_i64 : ℕ → Result StoreError ℕ
u64_to_i64 value = if ltb value i64_mod then ok value else err (integer_out_of_range value)

-- `strip_prefix("0x").unwrap_or(value)`
abbrev pub strip_0x : Bytes → Bytes
strip_0x [] = []
strip_0x (a ∷ []) = a ∷ []
strip_0x (a ∷ b ∷ rest) = if (a == 48) && (b == 120) then rest else a ∷ b ∷ rest

unfoldable pub decode_fixed_hex : Hex → ℕ → Bytes → Result StoreError Bytes
decode_fixed_hex h n value = do
  bytes ← ok_or (h.decode (strip_0x value)) hex
  (if length bytes == n then ok bytes else err (hex_length n (length bytes)))

-- The row with a primary key.
unfoldable pub find : ℕ → List EventRow → Option EventRow
find i [] = none
find i (r ∷ rest) = if r.event_index == i then some r else find i rest

-- `DO UPDATE` of the row with the new row's key.
unfoldable pub update_row : EventRow → List EventRow → List EventRow
update_row new [] = []
update_row new (r ∷ rest) =
    if r.event_index == new.event_index then new ∷ rest else r ∷ update_row new rest

-- One round of the loop of `insert_events` on the row that is stored at the event's index.
insert_at : Option EventRow → EventRow → List EventRow → Result StoreError (List EventRow)
insert_at none new rows = ok (rows ++ new ∷ [])
insert_at (some stored) new rows =
    if not stored.event_data_complete && bytes_eq stored.blinded_commitment new.blinded_commitment
    then ok (update_row new rows)
    else if stored.event_data_complete
        && (bytes_eq stored.blinded_commitment new.blinded_commitment
            && (bytes_eq stored.signature new.signature && (stored.event_type == new.event_type)))
    then ok rows
    else err (poi_event_conflict new.event_index)

unfoldable pub complete_row : SignedPoiEvent → Bytes → EventRow
complete_row e signature = record {
  event_index = e.index;
  blinded_commitment = e.blinded_commitment;
  signature = signature;
  event_type = event_type_discriminant e.event_type;
  event_data_complete = true;
}

module _ (h : Hex) where
  unfoldable pub insert_event : List EventRow → SignedPoiEvent → Result StoreError (List EventRow)
  unfolding insert_at
  insert_event rows e = do
    event_index ← u64_to_i64 e.index
    signature ← decode_fixed_hex h 64 e.signature
    insert_at (find event_index rows) (complete_row e signature) rows

  unfoldable pub insert_events :
      List EventRow → List SignedPoiEvent → Result StoreError (List EventRow)
  insert_events rows [] = ok rows
  insert_events rows (e ∷ rest) = do rows' ← insert_event rows e; insert_events rows' rest

  -- `ON CONFLICT … WHERE EXCLUDED.last_event_index >= chain_tips.last_event_index`
  unfoldable pub advance_chain_tip :
      Option ChainTip → ℕ → Option Bytes → Result StoreError (Option ChainTip)
  advance_chain_tip tip proposed merkleroot = do
    last_event_index ← u64_to_i64 proposed
    root ← elim merkleroot [
      | none ↦ ok none
      | some text ↦ do bytes ← decode_fixed_hex h 32 text; ok (some bytes)
    ]
    elim tip [
      | none ↦ ok (some (record { last_event_index = proposed; last_tip_merkleroot = root }))
      | some old ↦
          if leb old.last_event_index proposed
          then ok (some (record { last_event_index = proposed; last_tip_merkleroot = root }))
          else err (chain_tip_regression proposed)
    ]

-- `ORDER BY event_index ASC LIMIT 1` over the incomplete rows.
unfoldable pub first_incomplete_event_index : List EventRow → Option ℕ
first_incomplete_event_index [] = none
first_incomplete_event_index (r ∷ rest) =
    let later = first_incomplete_event_index rest in
    if r.event_data_complete
    then later
    else elim later [ none ↦ some r.event_index | some i ↦ some (min r.event_index i) ]

pub record StoredEvent : Type 0 where
  pub event_index : ℕ
  pub blinded_commitment : Bytes
  pub signature : Bytes
  pub event_type : PoiEventType

-- `ORDER BY event_index ASC`
insert_ordered : EventRow → List EventRow → List EventRow
insert_ordered r [] = r ∷ []
insert_ordered r (s ∷ rest) =
    if leb r.event_index s.event_index then r ∷ s ∷ rest else s ∷ insert_ordered r rest

-- `WHERE event_index BETWEEN start AND end ORDER BY event_index ASC`
select_range : ℕ → ℕ → List EventRow → List EventRow
unfolding insert_ordered
select_range start end [] = []
select_range start end (r ∷ rest) =
    let others = select_range start end rest in
    if leb start r.event_index && leb r.event_index end then insert_ordered r others else others

first_incomplete : List EventRow → Option EventRow
first_incomplete [] = none
first_incomplete (r ∷ rest) = if r.event_data_complete then first_incomplete rest else some r

stored_events : List EventRow → Result StoreError (List StoredEvent)
stored_events [] = ok []
stored_events (r ∷ rest) = do
  event_type ← ok_or (event_type_from_discriminant r.event_type) (invalid_event_type r.event_type)
  others ← stored_events rest
  ok (
      record {
        event_index = r.event_index;
        blinded_commitment = r.blinded_commitment;
        signature = r.signature;
        event_type = event_type;
      }
      ∷ others)

unfoldable pub page_event_range_with_completeness :
    List EventRow → ℕ → ℕ → Bool → Result StoreError (List StoredEvent)
unfolding select_range first_incomplete stored_events event_type_from_discriminant
page_event_range_with_completeness rows start_index end_index require_complete = do
  start ← u64_to_i64 start_index
  end ← u64_to_i64 end_index
  let selected = select_range start end rows
  elim (if require_complete then first_incomplete selected else none) [
    | some r ↦ err (incomplete_poi_event r.event_index)
    | none ↦ stored_events selected
  ]

abbrev pub page_event_range : List EventRow → ℕ → ℕ → Result StoreError (List StoredEvent)
page_event_range rows start end = page_event_range_with_completeness rows start end true

abbrev pub page_event_range_for_hydration :
    List EventRow → ℕ → ℕ → Result StoreError (List StoredEvent)
page_event_range_for_hydration rows start end =
    page_event_range_with_completeness rows start end false

abbrev pub last_event_index : PoiStore → Option ℕ
last_event_index s = elim s.tip [ none ↦ none | some t ↦ some t.last_event_index ]
