-- ===== src/MultiPinner/Quorum.antt =====
-- When the quorum of the services decides (crates/railgun-indexer-core/src/publish/ipfs.rs).
use railgun_indexer.Prelude.{
  ℕ, ◌≤◌, ◌≡◌, leb, List, [], ◌∷◌, length, ok, Result-cases, Bool-cases, inl, inr, arith, All,
  All-map,
}
use railgun_indexer.Codec.{Bytes}
use railgun_indexer.MultiPinner.{
  Cids, Answer, PinningServiceFailure, CidGroup, group_answers, sort_groups, decide_groups,
  MultiPinner, pin_bytes, raw_block_cid, new_multi_pinner,
}
use railgun_indexer.MultiPinner.Groups.{
  IsLawful, votes, IsFirst, group_answers-sizes, size-le-total, first_size-le, sort_groups-IsFirst,
}

module _ (c : Cids) where
  open c use {Cid}

  module _ (lawful : IsLawful c) (answers : List (Answer Cid)) where
    abbrev groups : List (CidGroup c)
    groups = (group_answers c [] [] answers).0

    groups-All : All (λ (g : CidGroup c). length g.services ≤ votes c g.cid answers) groups
    groups-All =
        All-map (λ g small. omega (arith, (group_answers-sizes c lawful g.cid answers [] []).1))
          groups (size-le-total c lawful groups)

    sorted-IsFirst :
        IsFirst c
          (λ (g : CidGroup c). length g.services ≤ votes c g.cid answers)
          groups
          (sort_groups c groups)
    sorted-IsFirst = sort_groups-IsFirst c _ groups groups-All

    votes-le :
        (x : Cid) (n : ℕ)
        → All (λ (g : CidGroup c). length g.services ≤ n) groups
        → votes c x answers ≤ n
    votes-le x n h =
        omega
          (arith, first_size-le c x n groups h, (group_answers-sizes c lawful x answers [] []).0)

    decide_groups-Votes :
        (quorum : ℕ) (bytes : Bytes) (failures : List PinningServiceFailure)
        (sorted : List (CidGroup c)) (cid : Cid)
        → IsFirst c (λ (g : CidGroup c). length g.services ≤ votes c g.cid answers) groups sorted
        → decide_groups c quorum bytes sorted failures ≡ ok cid
        → (quorum ≤ votes c cid answers) × ((x : Cid) → votes c x answers ≤ votes c cid answers)
    unfolding decide_groups
    decide_groups-Votes quorum bytes failures [] cid first h =
        elim (Result-cases (raw_block_cid c bytes)) [
          | inl (_, e) ↦ absurd (ground arith)
          | inr (_, e) ↦ absurd (ground arith)
        ]
    decide_groups-Votes quorum bytes failures (g ∷ rest) cid first h =
        elim (Bool-cases (leb quorum (length g.services))) [
          | inl enough ↦
              let chosen : g.cid ≡ cid = ground arith in
              (
                rw (← chosen) (ground (arith, first.0)),
                λ x. rw (← chosen) (omega (arith, votes-le x (length g.services) first.1, first.0)),
              )
          | inr short ↦ elim (Result-cases (raw_block_cid c bytes)) [
            | inl (_, e) ↦ absurd (ground arith)
            | inr (_, e) ↦ absurd (ground arith)
          ]
        ]

    decide_groups_complete :
        (quorum : ℕ) (bytes : Bytes) (failures : List PinningServiceFailure)
        (sorted : List (CidGroup c)) (x : Cid)
        → IsFirst c (λ (g : CidGroup c). length g.services ≤ votes c g.cid answers) groups sorted
        → 1 ≤ quorum
        → quorum ≤ votes c x answers
        → (cid : Cid) × (decide_groups c quorum bytes sorted failures ≡ ok cid)
    unfolding decide_groups
    decide_groups_complete quorum bytes failures [] x first positive enough =
        absurd (omega (arith, votes-le x 0 (rw first tt)))
    decide_groups_complete quorum bytes failures (g ∷ rest) x first positive enough =
        let most = votes-le x (length g.services) first.1 in (g.cid, ground arith)

  -- If the CIDs' equality decides whether they are equal, then a CID that is the result of pinning was
  -- returned by at least as many services as the quorum, and no CID was returned by more.
  pub pin_bytes-Votes :
      (p : MultiPinner c) (bytes : Bytes) (answers : List (Answer Cid)) (cid : Cid)
      → IsLawful c
      → pin_bytes c p bytes answers ≡ ok cid
      → (p.quorum ≤ votes c cid answers) × ((x : Cid) → votes c x answers ≤ votes c cid answers)
  unfolding pin_bytes
  pin_bytes-Votes p bytes answers cid lawful h =
      decide_groups-Votes lawful answers p.quorum bytes (group_answers c [] [] answers).1 _ cid
        (sorted-IsFirst lawful answers) h

  -- If the CIDs' equality decides whether they are equal, and as many services as the quorum of a pinner
  -- that was made returned the same CID, then pinning gives a CID.
  pub pin_bytes_complete :
      (client_count quorum : ℕ) (p : MultiPinner c) (bytes : Bytes) (answers : List (Answer Cid))
      (x : Cid)
      → IsLawful c
      → new_multi_pinner c client_count quorum ≡ ok p
      → p.quorum ≤ votes c x answers
      → (cid : Cid) × (pin_bytes c p bytes answers ≡ ok cid)
  unfolding pin_bytes new_multi_pinner
  pin_bytes_complete client_count quorum p bytes answers x lawful made enough =
      decide_groups_complete lawful answers p.quorum bytes (group_answers c [] [] answers).1 _ x
        (sorted-IsFirst lawful answers) (ground arith) enough
