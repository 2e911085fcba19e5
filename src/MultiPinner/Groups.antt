-- ===== src/MultiPinner/Groups.antt =====
-- The sizes of the groups of equal answers, and the group that sorting puts first (crates/railgun-indexer-core/src/publish/ipfs.rs).
use railgun_indexer.Prelude.{
  ℕ, ◌+◌, ◌≤◌, ◌≡◌, refl, sym, ap, ◌∙◌, leb, List, [], ◌∷◌, ◌++◌, length, true, false, ok, err,
  Result-cases, Bool-cases, inl, inr, arith, All, All-map, length-append, if◌then◌else◌,
}
use railgun_indexer.Codec.{Bytes}
use railgun_indexer.MultiPinner.{
  Cids, Answer, PinningServiceFailure, CidGroup, add_cid_success, group_answers, insert_group,
  sort_groups,
}

module _ (c : Cids) where
  open c use {Cid, cid_eq}

  -- The equality of CIDs decides whether they are equal.
  pub record IsLawful : Type 0 where
    pub sound : (a b : Cid) → cid_eq a b ≡ true → a ≡ b
    pub reflexive : (a : Cid) → cid_eq a a ≡ true

  -- The number of the services that returned a CID.
  abbrev pub votes : Cid → List (Answer Cid) → ℕ
  votes x [] = 0
  votes x (a ∷ rest) = elim a.result [
    | ok returned ↦ (if cid_eq returned x then 1 else 0) + votes x rest
    | err error ↦ votes x rest
  ]

  -- The services in the first group of a CID, and in all of them.
  abbrev pub first_size : Cid → List (CidGroup c) → ℕ
  first_size x [] = 0
  first_size x (g ∷ rest) = if cid_eq g.cid x then length g.services else first_size x rest

  abbrev pub total_size : Cid → List (CidGroup c) → ℕ
  total_size x [] = 0
  total_size x (g ∷ rest) = (if cid_eq g.cid x then length g.services else 0) + total_size x rest

  module _ (lawful : IsLawful) where
    apart : (a d x : Cid) → cid_eq a d ≡ false → cid_eq a x ≡ true → cid_eq d x ≡ false
    apart a d x differ found = elim (Bool-cases (cid_eq d x)) [
      | inl same ↦
          let d_is : d ≡ a = lawful.sound d x same ∙ sym (lawful.sound a x found) in
          absurd (cc (differ, ap (cid_eq a) d_is, lawful.reflexive a))
      | inr e ↦ e
    ]

    add-first_size :
        (x : Cid) (groups : List (CidGroup c)) (d : Cid) (service : Bytes)
        → first_size x (add_cid_success c groups d service)
          ≡ (if cid_eq d x then 1 else 0) + first_size x groups
    unfolding add_cid_success
    add-first_size x [] d service = ground arith
    add-first_size x (g ∷ rest) d service = elim (Bool-cases (cid_eq g.cid d)) [
      | inl e ↦
          let same = lawful.sound g.cid d e in
          ground (arith, ap (λ y. cid_eq y x) same, length-append g.services (service ∷ []))
      | inr e ↦
          let rest_lem = add-first_size x rest d service in
          elim (Bool-cases (cid_eq g.cid x)) [
            | inl found ↦ ground (arith, apart g.cid d x e found)
            | inr other ↦ ground (arith, rest_lem)
          ]
    ]

    add-total_size :
        (x : Cid) (groups : List (CidGroup c)) (d : Cid) (service : Bytes)
        → total_size x (add_cid_success c groups d service)
          ≡ (if cid_eq d x then 1 else 0) + total_size x groups
    unfolding add_cid_success
    add-total_size x [] d service = ground arith
    add-total_size x (g ∷ rest) d service = elim (Bool-cases (cid_eq g.cid d)) [
      | inl e ↦
          let same = lawful.sound g.cid d e in
          ground (arith, ap (λ y. cid_eq y x) same, length-append g.services (service ∷ []))
      | inr e ↦ ground (arith, add-total_size x rest d service)
    ]

    pub group_answers-sizes :
        (x : Cid) (answers : List (Answer Cid)) (groups : List (CidGroup c))
        (failures : List PinningServiceFailure)
        → (first_size x (group_answers c groups failures answers).0
            ≡ votes x answers + first_size x groups)
          × (total_size x (group_answers c groups failures answers).0
              ≡ votes x answers + total_size x groups)
    unfolding group_answers
    group_answers-sizes x [] groups failures = (omega arith, omega arith)
    group_answers-sizes x (a ∷ rest) groups failures = elim (Result-cases a.result) [
      | inl (d, e) ↦
          let next = add_cid_success c groups d a.service in
          let later = group_answers-sizes x rest next failures in
          (
            ground (arith, later.0, add-first_size x groups d a.service),
            ground (arith, later.1, add-total_size x groups d a.service),
          )
      | inr (error, e) ↦
          let later =
            group_answers-sizes x rest groups
              (failures ++ record { service = a.service; error = error } ∷ []) in
          (ground (arith, later.0), ground (arith, later.1))
    ]

    pub size-le-total :
        (groups : List (CidGroup c))
        → All (λ (g : CidGroup c). length g.services ≤ total_size g.cid groups) groups
    size-le-total [] = tt
    size-le-total (g ∷ rest) = (
      ground (arith, lawful.reflexive g.cid),
      All-map (λ h small. omega arith) rest (size-le-total rest),
    )

  pub first_size-le :
      (x : Cid) (n : ℕ) (groups : List (CidGroup c))
      → All (λ (g : CidGroup c). length g.services ≤ n) groups
      → first_size x groups ≤ n
  first_size-le x n [] h = omega arith
  first_size-le x n (g ∷ rest) h = let later = first_size-le x n rest h.1 in ground arith

  -- The first group has the property of every group, and the most services.
  abbrev pub IsFirst : (CidGroup c → Type 0) → List (CidGroup c) → List (CidGroup c) → Type 0
  IsFirst P groups [] = groups ≡ []
  IsFirst P groups (g ∷ rest) =
      P g × All (λ (h : CidGroup c). length h.services ≤ length g.services) groups

  insert_group-IsFirst :
      (P : CidGroup c → Type 0) (g : CidGroup c) (groups sorted : List (CidGroup c))
      → P g
      → IsFirst P groups sorted
      → IsFirst P (g ∷ groups) (insert_group c g sorted)
  unfolding insert_group
  insert_group-IsFirst P g groups [] here first = (here, (omega arith, rw first tt))
  insert_group-IsFirst P g groups (h ∷ rest) here first =
      elim (Bool-cases (leb (length h.services) (length g.services))) [
        | inl e ↦ rw e (here, (omega arith, All-map (λ k small. ground arith) groups first.1))
        | inr e ↦ rw e (first.0, (ground arith, first.1))
      ]

  pub sort_groups-IsFirst :
      (P : CidGroup c → Type 0) (groups : List (CidGroup c))
      → All P groups
      → IsFirst P groups (sort_groups c groups)
  unfolding sort_groups
  sort_groups-IsFirst P [] h = refl
  sort_groups-IsFirst P (g ∷ rest) h =
      insert_group-IsFirst P g rest (sort_groups c rest) h.0 (sort_groups-IsFirst P rest h.1)
