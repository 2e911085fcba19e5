-- ===== src/MultiPinner.antt =====
-- Pinning with a quorum of services (crates/railgun-indexer-core/src/publish/ipfs.rs). What each service
-- answers is an argument, in the order of the services; a CID and its coding are of other crates.
pub mod Groups
pub mod Quorum
pub mod Contains
use railgun_indexer.Prelude.{
  ℕ, ◌==◌, ◌||◌, ltb, leb, List, [], ◌∷◌, ◌++◌, length, Bool, true, false, Result, ok, err, ◌>>=◌,
  ◌>>◌, map_err, if◌then◌else◌, map,
}
use railgun_indexer.Codec.{Bytes}

pub record Cids : Type 1 where
  pub Cid : Type 0
  pub cid_eq : Cid → Cid → Bool
  pub sha256_digest : Bytes → Bytes
  pub multihash_wrap : Bytes → Result Bytes Bytes
  pub new_v1_raw : Bytes → Cid

pub record PinningServiceFailure : Type 0 where
  pub service : Bytes
  pub error : Bytes

-- What a service answered: its name, and the value or the text of its error.
pub record Answer (A : Type 0) : Type 0 where
  pub service : Bytes
  pub result : Result Bytes A

module _ (c : Cids) where
  open c use {Cid, cid_eq, sha256_digest, multihash_wrap, new_v1_raw}

  pub record PinningCidMismatch : Type 0 where
    pub service : Bytes
    pub returned : Cid

  pub data IpfsError : Type 0 where
    no_pinning_services : IpfsError
    invalid_quorum : ℕ → ℕ → IpfsError
    multihash : Bytes → IpfsError
    pinning_quorum_not_met :
        Cid → ℕ → List Bytes → List PinningCidMismatch → List PinningServiceFailure → IpfsError
    unpinning_quorum_not_met : Cid → ℕ → List Bytes → List PinningServiceFailure → IpfsError
    contains_quorum_undecidable :
        Cid → ℕ → List Bytes → List Bytes → List PinningServiceFailure → IpfsError

  abbrev Ipfs : Type 0 → Type 0
  Ipfs = Result IpfsError

  unfoldable pub raw_block_cid : Bytes → Ipfs Cid
  raw_block_cid bytes = do
    digest ← map_err multihash (multihash_wrap (sha256_digest bytes))
    ok (new_v1_raw digest)

  -- The number of the clients and the quorum.
  pub record MultiPinner : Type 0 where
    pub client_count : ℕ
    pub quorum : ℕ

  unfoldable pub new_multi_pinner : ℕ → ℕ → Ipfs MultiPinner
  new_multi_pinner client_count quorum =
      if client_count == 0
      then err no_pinning_services
      else if (quorum == 0) || ltb client_count quorum
      then err (invalid_quorum quorum client_count)
      else ok (record { client_count = client_count; quorum = quorum })

  -- A CID with the services that returned it.
  pub record CidGroup : Type 0 where
    pub cid : Cid
    pub services : List Bytes

  unfoldable pub add_cid_success : List CidGroup → Cid → Bytes → List CidGroup
  add_cid_success [] returned service = record { cid = returned; services = service ∷ [] } ∷ []
  add_cid_success (g ∷ rest) returned service =
      let others = add_cid_success rest returned service in
      if cid_eq g.cid returned
      then record g { services = g.services ++ service ∷ [] } ∷ rest
      else g ∷ others

  -- The loop over the answers, from the groups and failures so far.
  unfoldable pub group_answers :
      List CidGroup
      → List PinningServiceFailure
      → List (Answer Cid)
      → List CidGroup × List PinningServiceFailure
  group_answers groups failures [] = (groups, failures)
  group_answers groups failures (a ∷ rest) = elim a.result [
    | ok returned ↦ group_answers (add_cid_success groups returned a.service) failures rest
    | err error ↦
        group_answers groups (failures ++ record { service = a.service; error = error } ∷ []) rest
  ]

  -- The stable `sort_by_key` on `Reverse(len)`.
  unfoldable pub insert_group : CidGroup → List CidGroup → List CidGroup
  insert_group g [] = g ∷ []
  insert_group g (h ∷ rest) =
      let later = insert_group g rest in
      if leb (length h.services) (length g.services) then g ∷ h ∷ rest else h ∷ later

  unfoldable pub sort_groups : List CidGroup → List CidGroup
  sort_groups [] = []
  sort_groups (g ∷ rest) = insert_group g (sort_groups rest)

  unfoldable pub mismatches_of : List CidGroup → List PinningCidMismatch
  mismatches_of [] = []
  mismatches_of (g ∷ rest) =
      map (λ service. record { service = service; returned = g.cid }) g.services
      ++ mismatches_of rest

  -- From the sorted groups on.
  unfoldable pub decide_groups : ℕ → Bytes → List CidGroup → List PinningServiceFailure → Ipfs Cid
  decide_groups quorum bytes [] failures = do
    candidate ← raw_block_cid bytes
    err (pinning_quorum_not_met candidate quorum [] [] failures)
  decide_groups quorum bytes (g ∷ rest) failures =
      if leb quorum (length g.services) then ok g.cid else do
        raw_block_cid bytes
        err (pinning_quorum_not_met g.cid quorum g.services (mismatches_of rest) failures)

  unfoldable pub pin_bytes : MultiPinner → Bytes → List (Answer Cid) → Ipfs Cid
  pin_bytes p bytes answers =
      let grouped = group_answers [] [] answers in
      decide_groups p.quorum bytes (sort_groups grouped.0) grouped.1

  -- `Ok(())` by service, and the failures.
  unfoldable pub tally_unpins : List (Answer (Unit {0})) → List Bytes × List PinningServiceFailure
  tally_unpins [] = ([], [])
  tally_unpins (a ∷ rest) =
      let later = tally_unpins rest in
      elim a.result [
        | ok _ ↦ (a.service ∷ later.0, later.1)
        | err error ↦ (later.0, record { service = a.service; error = error } ∷ later.1)
      ]

  unfoldable pub unpin : MultiPinner → Cid → List (Answer (Unit {0})) → Ipfs (Unit {0})
  unpin p cid answers =
      let tally = tally_unpins answers in
      if leb p.quorum (length tally.0)
      then ok tt
      else err (unpinning_quorum_not_met cid p.quorum tally.0 tally.1)

  -- The services that have the CID, those that miss it, and the failures.
  pub record Presence : Type 0 where
    pub present : List Bytes
    pub missing : List Bytes
    pub failures : List PinningServiceFailure

  unfoldable pub tally_presence : List (Answer Bool) → Presence
  tally_presence [] = record { present = []; missing = []; failures = [] }
  tally_presence (a ∷ rest) =
      let later = tally_presence rest in
      elim a.result [
        | ok true ↦ record later { present = a.service ∷ later.present }
        | ok false ↦ record later { missing = a.service ∷ later.missing }
        | err error ↦ record later {
          failures = record { service = a.service; error = error } ∷ later.failures;
        }
      ]

  abbrev no_failures : List PinningServiceFailure → Bool
  no_failures [] = true
  no_failures (f ∷ rest) = false

  unfoldable pub contains : MultiPinner → Cid → List (Answer Bool) → Ipfs Bool
  contains p cid answers =
      let tally = tally_presence answers in
      if leb p.quorum (length tally.present)
      then ok true
      else if no_failures tally.failures
      then ok false
      else err (contains_quorum_undecidable cid p.quorum tally.present tally.missing tally.failures)
