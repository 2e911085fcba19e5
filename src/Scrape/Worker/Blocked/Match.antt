-- ===== src/Scrape/Worker/Blocked/Match.antt =====
-- What it means that two sets of blocked shields match
-- (crates/railgun-indexer-core/src/scrape/worker.rs).
use mathlib.Core.List.{Perm, foldr}
use mathlib.Core.List.Perm
use railgun_indexer.Prelude.{
  ◌≡◌, refl, List, [], ◌∷◌, true, Bool-cases, inl, inr, arith, Option, none, some, ◌↔◌, ℕ_discrete,
  ap,
}
use railgun_indexer.Codec.{Bytes}
use railgun_indexer.PoiStore.Rows.{bytes_eq→eq, bytes_eq_refl}
use railgun_indexer.PoiStore.Blocked.{SignedBlockedShield}
use railgun_indexer.Scrape.Worker.Blocked.Order.{insert_shield_comm}
use railgun_indexer.Scrape.Worker.Blocked.{
  shield_lt, insert_shield, sort_blocked_shields, shield_eq, option_eq, shields_eq,
  blocked_shield_sets_match,
}

insert_shield-perm :
    (r : SignedBlockedShield) (l : List SignedBlockedShield) → Perm (insert_shield r l) (r ∷ l)
unfolding insert_shield
insert_shield-perm r [] = Perm.rfl
insert_shield-perm r (s ∷ rest) = elim (Bool-cases (shield_lt s r)) [
  | inl less ↦
      rw (less, insert_shield)
        (Perm.trans (Perm.cons s (insert_shield-perm r rest)) (Perm.swap r s rest))
  | inr not_less ↦ rw (not_less, insert_shield) Perm.rfl
]

sort_blocked_shields-perm : (l : List SignedBlockedShield) → Perm (sort_blocked_shields l) l
unfolding sort_blocked_shields
sort_blocked_shields-perm [] = Perm.rfl
sort_blocked_shields-perm (r ∷ rest) =
    Perm.trans (insert_shield-perm r (sort_blocked_shields rest))
      (Perm.cons r (sort_blocked_shields-perm rest))

option_eq→eq : (a b : Option Bytes) → option_eq a b ≡ true → a ≡ b
unfolding option_eq
option_eq→eq none none h = refl
option_eq→eq none (some b) h = cc
option_eq→eq (some a) none h = cc
option_eq→eq (some a) (some b) h = ap some (bytes_eq→eq a b h)

shield_eq→eq : (a b : SignedBlockedShield) → shield_eq a b ≡ true → a ≡ b
unfolding shield_eq
shield_eq→eq a b h = ground (
  arith,
  bytes_eq→eq a.commitment_hash b.commitment_hash,
  bytes_eq→eq a.blinded_commitment b.blinded_commitment,
  option_eq→eq a.block_reason b.block_reason,
  bytes_eq→eq a.signature b.signature,
)

shields_eq→eq : (a b : List SignedBlockedShield) → shields_eq a b ≡ true → a ≡ b
unfolding shields_eq
shields_eq→eq [] [] h = refl
shields_eq→eq [] (b ∷ bs) h = cc
shields_eq→eq (a ∷ as_) [] h = cc
shields_eq→eq (a ∷ as_) (b ∷ bs) h = ground (arith, shield_eq→eq a b, shields_eq→eq as_ bs)

match-perm :
    (left right : List SignedBlockedShield)
    → blocked_shield_sets_match left right ≡ true
    → Perm left right
unfolding blocked_shield_sets_match
match-perm left right h =
    let same = shields_eq→eq (sort_blocked_shields left) (sort_blocked_shields right) h in
    Perm.trans (Perm.symm (sort_blocked_shields-perm left))
      (rw same (sort_blocked_shields-perm right))

shields_eq_refl : (a : List SignedBlockedShield) → shields_eq a a ≡ true
unfolding shields_eq shield_eq option_eq
shields_eq_refl [] = refl
shields_eq_refl (a ∷ as_) = ground (
  arith,
  shields_eq_refl as_,
  bytes_eq_refl a.commitment_hash,
  bytes_eq_refl a.blinded_commitment,
  bytes_eq_refl a.signature,
  option_eq_refl a.block_reason,
)
  where
    option_eq_refl : (o : Option Bytes) → option_eq o o ≡ true
    option_eq_refl none = refl
    option_eq_refl (some b) = bytes_eq_refl b

sort-foldr : (l : List SignedBlockedShield) → sort_blocked_shields l ≡ foldr insert_shield [] l
unfolding sort_blocked_shields
sort-foldr [] = refl
sort-foldr (r ∷ rest) = ap (insert_shield r) (sort-foldr rest)

SignedBlockedShield-discrete : Discrete SignedBlockedShield
SignedBlockedShield-discrete = hlevel ℕ_discrete

shields-set : IsSet (List SignedBlockedShield)
shields-set = hlevel SignedBlockedShield-discrete

sort-perm :
    (left right : List SignedBlockedShield)
    → Perm left right
    → sort_blocked_shields left ≡ sort_blocked_shields right
sort-perm left right perm =
    rw (sort-foldr left, sort-foldr right)
      (Perm.foldr-eq shields-set insert_shield insert_shield_comm perm [])

-- Two sets of blocked shields match exactly if they have the same records, each as often, in whatever
-- order.
pub blocked_shield_sets_match_iff :
    (left right : List SignedBlockedShield)
    → (blocked_shield_sets_match left right ≡ true) ↔ Perm left right
unfolding blocked_shield_sets_match
blocked_shield_sets_match_iff left right = (match-perm left right, λ perm. made perm)
  where
    made : Perm left right → blocked_shield_sets_match left right ≡ true
    made perm = rw (sort-perm left right perm) (shields_eq_refl (sort_blocked_shields right))
