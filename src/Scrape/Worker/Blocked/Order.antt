-- ===== src/Scrape/Worker/Blocked/Order.antt =====
-- The order by which blocked shields are sorted is a strict total order
-- (crates/railgun-indexer-core/src/scrape/worker.rs).
use railgun_indexer.Prelude.{◌≡◌, refl, List, [], ◌∷◌, true, false, arith, Option, none, some, ap}
use railgun_indexer.Codec.{Bytes}
use railgun_indexer.PoiStore.Blocked.{SignedBlockedShield, bytes_lt}
use railgun_indexer.Scrape.Worker.Blocked.{option_lt, shield_lt, insert_shield}

bytes_lt-asymm : (a b : Bytes) → bytes_lt a b ≡ true → bytes_lt b a ≡ false
unfolding bytes_lt
bytes_lt-asymm [] [] h = refl
bytes_lt-asymm [] (b ∷ bs) h = refl
bytes_lt-asymm (a ∷ as_) [] h = cc
bytes_lt-asymm (a ∷ as_) (b ∷ bs) h = ground (arith, bytes_lt-asymm as_ bs)

bytes_lt-total : (a b : Bytes) → bytes_lt a b ≡ false → bytes_lt b a ≡ false → a ≡ b
unfolding bytes_lt
bytes_lt-total [] [] h k = refl
bytes_lt-total [] (b ∷ bs) h k = cc
bytes_lt-total (a ∷ as_) [] h k = cc
bytes_lt-total (a ∷ as_) (b ∷ bs) h k = ground (arith, bytes_lt-total as_ bs)

bytes_lt_trans : (a b c : Bytes) → bytes_lt a b ≡ true → bytes_lt b c ≡ true → bytes_lt a c ≡ true
unfolding bytes_lt
bytes_lt_trans [] [] c h k = cc
bytes_lt_trans [] (b ∷ bs) [] h k = cc
bytes_lt_trans [] (b ∷ bs) (c ∷ cs) h k = refl
bytes_lt_trans (a ∷ as_) [] c h k = cc
bytes_lt_trans (a ∷ as_) (b ∷ bs) [] h k = cc
bytes_lt_trans (a ∷ as_) (b ∷ bs) (c ∷ cs) h k = ground (arith, bytes_lt_trans as_ bs cs)

option_lt-asymm : (a b : Option Bytes) → option_lt a b ≡ true → option_lt b a ≡ false
unfolding option_lt
option_lt-asymm none none h = refl
option_lt-asymm none (some b) h = refl
option_lt-asymm (some a) none h = cc
option_lt-asymm (some a) (some b) h = bytes_lt-asymm a b h

option_lt-total : (a b : Option Bytes) → option_lt a b ≡ false → option_lt b a ≡ false → a ≡ b
unfolding option_lt
option_lt-total none none h k = refl
option_lt-total none (some b) h k = cc
option_lt-total (some a) none h k = cc
option_lt-total (some a) (some b) h k = ap some (bytes_lt-total a b h k)

option_lt_trans :
    (a b c : Option Bytes) → option_lt a b ≡ true → option_lt b c ≡ true → option_lt a c ≡ true
unfolding option_lt
option_lt_trans none none c h k = cc
option_lt_trans none (some b) none h k = cc
option_lt_trans none (some b) (some c) h k = refl
option_lt_trans (some a) none c h k = cc
option_lt_trans (some a) (some b) none h k = cc
option_lt_trans (some a) (some b) (some c) h k = bytes_lt_trans a b c h k

pub shield_lt-asymm : (a b : SignedBlockedShield) → shield_lt a b ≡ true → shield_lt b a ≡ false
unfolding shield_lt
shield_lt-asymm a b h = ground (
  arith,
  bytes_lt-asymm a.blinded_commitment b.blinded_commitment,
  bytes_lt-asymm a.commitment_hash b.commitment_hash,
  bytes_lt-asymm a.signature b.signature,
  option_lt-asymm a.block_reason b.block_reason,
)

pub shield_lt-total :
    (a b : SignedBlockedShield) → shield_lt a b ≡ false → shield_lt b a ≡ false → a ≡ b
unfolding shield_lt
shield_lt-total a b h k = ground (
  arith,
  bytes_lt-total a.blinded_commitment b.blinded_commitment,
  bytes_lt-total a.commitment_hash b.commitment_hash,
  bytes_lt-total a.signature b.signature,
  option_lt-total a.block_reason b.block_reason,
)

pub shield_lt_trans :
    (a b c : SignedBlockedShield)
    → shield_lt a b ≡ true
    → shield_lt b c ≡ true
    → shield_lt a c ≡ true
unfolding shield_lt
shield_lt_trans a b c h k = ground (
  arith,
  bytes_lt_trans a.blinded_commitment b.blinded_commitment c.blinded_commitment,
  bytes_lt_trans a.commitment_hash b.commitment_hash c.commitment_hash,
  bytes_lt_trans a.signature b.signature c.signature,
  option_lt_trans a.block_reason b.block_reason c.block_reason,
  bytes_lt-total a.blinded_commitment b.blinded_commitment,
  bytes_lt-total b.blinded_commitment c.blinded_commitment,
  bytes_lt-total a.commitment_hash b.commitment_hash,
  bytes_lt-total b.commitment_hash c.commitment_hash,
  bytes_lt-total a.signature b.signature,
  bytes_lt-total b.signature c.signature,
)

-- The order of two insertions does not matter.
pub insert_shield_comm :
    (a b : SignedBlockedShield) (l : List SignedBlockedShield)
    → insert_shield a (insert_shield b l) ≡ insert_shield b (insert_shield a l)
unfolding insert_shield
insert_shield_comm a b [] =
    ground (arith, shield_lt-asymm a b, shield_lt-total a b, shield_lt-asymm b a)
insert_shield_comm a b (x ∷ rest) = ground (
  arith,
  insert_shield_comm a b rest,
  shield_lt-asymm a b,
  shield_lt-asymm b a,
  shield_lt-total a b,
  shield_lt-asymm x a,
  shield_lt-asymm x b,
  shield_lt_trans x a b,
  shield_lt_trans x b a,
  shield_lt_trans a x b,
  shield_lt_trans b x a,
  shield_lt-total x a,
  shield_lt-total x b,
)
