-- ===== src/Examples/Pinning.antt =====
-- Four services and a quorum of two (crates/railgun-indexer-core/src/publish/ipfs.rs).
use railgun_indexer.Prelude.{
  ℕ, ◌≤◌, ◌≡◌, refl, ◌==◌, List, [], ◌∷◌, length, Bool, true, false, Result, ok, err, arith,
}
use railgun_indexer.Codec.{Bytes}
use railgun_indexer.MultiPinner.{
  Cids, Answer, MultiPinner, new_multi_pinner, add_cid_success, group_answers, insert_group,
  sort_groups, decide_groups, pin_bytes, tally_unpins, unpin, unpinning_quorum_not_met,
  tally_presence, contains,
}
use railgun_indexer.MultiPinner.Groups.{IsLawful, votes}
use railgun_indexer.MultiPinner.Quorum.{pin_bytes-Votes, pin_bytes_complete}
use railgun_indexer.MultiPinner.Contains.{contains-Resolves}

-- A CID is a number, and that of a block is its length.
abbrev cids : Cids
cids = record {
  Cid = ℕ;
  cid_eq = λ a b. a == b;
  sha256_digest = λ bytes. bytes;
  multihash_wrap = ok;
  new_v1_raw = λ bytes. length bytes;
}

cids-IsLawful : IsLawful cids
cids-IsLawful = record { sound = λ a b h. ground arith; reflexive = λ a. ground arith }

abbrev pinner : MultiPinner cids
pinner = record { client_count = 4; quorum = 2 }

abbrev answer : {A : Type 0} → ℕ → Result Bytes A → Answer A
answer n result = record { service = n ∷ []; result = result }

-- The second service fails and the first returns another CID.
abbrev answers : List (Answer ℕ)
answers = answer 1 (ok 9) ∷ answer 2 (err []) ∷ answer 3 (ok 5) ∷ answer 4 (ok 5) ∷ []

pinned : pin_bytes cids pinner (0 ∷ []) answers ≡ ok 5
unfolding pin_bytes decide_groups sort_groups insert_group group_answers add_cid_success
pinned = refl

made : new_multi_pinner cids 4 2 ≡ ok pinner
unfolding new_multi_pinner
made = refl

-- Only one service has removed the CID.
unpin_test :
    unpin cids pinner 5 (answer 1 (ok tt) ∷ [])
    ≡ err (unpinning_quorum_not_met 5 2 ((1 ∷ []) ∷ []) [])
unfolding unpin tally_unpins
unpin_test = refl

abbrev presence : Result Bytes Bool → List (Answer Bool)
presence second = answer 1 (ok true) ∷ answer 2 second ∷ answer 3 (ok true) ∷ []

found : contains cids pinner 5 (presence (err [])) ≡ ok true
unfolding contains tally_presence
found = refl

pin_bytes-Votes_example :
    (2 ≤ votes cids 5 answers) × ((x : ℕ) → votes cids x answers ≤ votes cids 5 answers)
pin_bytes-Votes_example = pin_bytes-Votes cids pinner (0 ∷ []) answers 5 cids-IsLawful pinned

pin_bytes_complete_example : (cid : ℕ) × (pin_bytes cids pinner (0 ∷ []) answers ≡ ok cid)
pin_bytes_complete_example =
    pin_bytes_complete cids 4 2 pinner (0 ∷ []) answers 5 cids-IsLawful made (omega arith)

contains-Resolves_example : contains cids pinner 5 (presence (ok false)) ≡ ok true
contains-Resolves_example =
    contains-Resolves cids pinner 5 (presence (err [])) (presence (ok false)) true
      (refl, λ a h. h, (refl, λ a h. absurd (ground arith), (refl, λ a h. h, tt))) found
