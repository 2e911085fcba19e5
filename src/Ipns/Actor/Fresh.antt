-- ===== src/Ipns/Actor/Fresh.antt =====
-- What is left to do after the start of a turn (crates/railgun-indexer-core/src/publish/ipns.rs).
use railgun_indexer.Prelude.{
  ℕ, ◌<◌, ◌≡◌, refl, leb, ltb, not, ◌||◌, List, [], ◌∷◌, Option, none, some, true, false,
  if◌then◌else◌, arith, Bool-cases, Result-cases, inl, inr, All,
}
use railgun_indexer.Codec.{Bytes}
use railgun_indexer.Ipns.{IpnsLib, IpnsPublisherConfig, PublishRequest, ActivePublish}
use railgun_indexer.Ipns.Record.{build_signed_record}
use railgun_indexer.Ipns.Queue.{
  is_none, is_expired, may_expire_while_active, expire_active_publish,
  discard_unpublishable_pending,
}
use railgun_indexer.Ipns.Actor.{
  Swarm, Publisher, start_request, start_front, maybe_start_publish, begin_turn,
  has_enough_connected_peers_for_publish,
}

-- The caller waits, and the deadline is ahead.
abbrev pub IsLive : Swarm → PublishRequest → Type 0
IsLive s r = (s.closed r.response ≡ false) × (s.now < r.deadline)

pub record IsFresh (s : Swarm) (p : Publisher) : Type 0 where
  pub pending : All (IsLive s) p.pending
  pub active :
      (a : ActivePublish)
      → p.active ≡ some a
      → a.request.canonicality_lease ≡ none
      → s.now < a.request.deadline

discard-IsLive :
    (s : Swarm) (pending : List PublishRequest)
    → All (IsLive s) (discard_unpublishable_pending s.closed pending s.now).0
unfolding discard_unpublishable_pending is_expired
discard-IsLive s [] = tt
discard-IsLive s (r ∷ rest) =
    let later = discard-IsLive s rest in
    elim (Bool-cases (s.closed r.response)) [
      | inl gone ↦ simp gone later
      | inr waits ↦ elim (Bool-cases (leb r.deadline s.now)) [
        | inl late ↦ simp (waits, late) later
        | inr early ↦ simp (waits, early) ((refl, ground arith), later)
      ]
    ]

expire_active-IsFresh :
    (active : Option ActivePublish) (now : ℕ) (a : ActivePublish)
    → (expire_active_publish active now).0 ≡ some a
    → a.request.canonicality_lease ≡ none
    → now < a.request.deadline
unfolding expire_active_publish may_expire_while_active is_expired
expire_active-IsFresh none now a h lease = absurd (ground arith)
expire_active-IsFresh (some publish) now a h lease = ground arith

module _ (lib : IpnsLib) (peer_id : Bytes) (config : IpnsPublisherConfig) where
  start_request-IsFresh :
      (s : Swarm) (p : Publisher) (front : PublishRequest) (rest : List PublishRequest)
      → IsFresh s p
      → IsLive s front
      → All (IsLive s) rest
      → IsFresh s (start_request lib peer_id config s p front rest)
  unfolding start_request
  start_request-IsFresh s p front rest v here later =
      elim (Result-cases (
        build_signed_record lib peer_id front.manifest_cid config.record_lifetime config.record_ttl
          front.sequence)) [
            | inr (e, failed) ↦
                rw (failed, start_request) (record { pending = later; active = v.active })
            | inl (signed, built) ↦ elim (Result-cases (s.put_record signed)) [
              | inr (e, failed) ↦
                  rw (built, failed, start_request) (record { pending = later; active = v.active })
              | inl (id, put) ↦
                  rw (built, put, start_request)
                    (record { pending = later; active = λ a e lease. ground (arith, here.1) })
            ]
          ]

  start_front-IsFresh :
      (s : Swarm) (p : Publisher) (pending : List PublishRequest)
      → p.pending ≡ pending
      → IsFresh s p
      → IsFresh s (start_front lib peer_id config s p pending)
  unfolding start_front
  start_front-IsFresh s p [] h v = v
  start_front-IsFresh s p (front ∷ rest) h v =
      let live : All (IsLive s) (front ∷ rest) = rw h at v.pending in
      let stay =
        not (is_none p.active)
        || not (has_enough_connected_peers_for_publish s p.bootstrap_completed)
        || ltb s.now front.not_before in
      elim stay
        as (λ b. IsFresh s (if b then p else start_request lib peer_id config s p front rest)) [
          | true ↦ v
          | false ↦ start_request-IsFresh s p front rest v live.0 live.1
        ]

  -- At the start of a turn, whatever is in the queue, it is left with requests whose callers wait and
  -- whose deadlines are ahead, and the publish in progress has a lease or its deadline is ahead.
  pub begin_turn-IsFresh :
      (s : Swarm) (p : Publisher) → IsFresh s (begin_turn lib peer_id config s p)
  unfolding begin_turn maybe_start_publish
  begin_turn-IsFresh s p =
      start_front-IsFresh s _ (discard_unpublishable_pending s.closed p.pending s.now).0 refl
        (record {
          pending = discard-IsLive s p.pending;
          active = λ a e lease. expire_active-IsFresh p.active s.now a e lease;
        })
