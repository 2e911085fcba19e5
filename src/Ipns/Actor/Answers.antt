-- ===== src/Ipns/Actor/Answers.antt =====
-- What the callers are told (crates/railgun-indexer-core/src/publish/ipns.rs).
use railgun_indexer.Prelude.{
  ℕ, ◌≤◌, ◌≡◌, ◌≢◌, refl, ◌==◌, ltb, not, ◌||◌, List, [], ◌∷◌, ◌++◌, Option, none, some, Bool, true,
  false, Result, ok, err, if◌then◌else◌, arith, Bool-cases, Option-cases, Result-cases, inl, inr,
  All, All-append,
}
use railgun_indexer.Codec.{Bytes}
use railgun_indexer.Ipns.{
  IpnsLib, IpnsPublisherConfig, PublishRequest, IpnsPublication, SignedIpnsRecord, ActivePublish,
  timeout, store, put_record_error, IpnsError,
}
use railgun_indexer.Ipns.Record.{build_signed_record, manifest_ipfs_path, duration_nanos, ipns_name}
use railgun_indexer.Ipns.Queue.{
  Finished, answered, canceled, respond, is_none, is_expired, may_expire_while_active,
  expire_active_publish, next_retry_at, discard_unpublishable_pending,
}
use railgun_indexer.Ipns.Actor.{
  Swarm, SwarmEvent, put_record_progressed, bootstrap_progressed, connection_established,
  connection_closed, outgoing_connection_error, other, RunEvent, shutdown_changed, woke,
  bootstrap_tick, received, swarm_event, Turn, Publisher, next_attempt, publication_of,
  start_request, start_front, maybe_start_publish, put_record_failed, put_record_done,
  handle_put_record, handle_swarm_event, handle_event, begin_turn, turn, run, new_publisher,
  has_enough_connected_peers_for_publish,
}

module _ (lib : IpnsLib) (peer_id : Bytes) (config : IpnsPublisherConfig) where
  -- A publication of this publisher that has the sequence and the path of the request's manifest.
  abbrev pub IsOf : PublishRequest → IpnsPublication → Type 0
  IsOf r p =
      (p.peer_id ≡ peer_id)
      × (p.sequence ≡ r.sequence)
      × (manifest_ipfs_path lib r.manifest_cid ≡ ok p.value)

  -- A success is that of the request, and a timeout is told at the request's deadline or later.
  pub record IsFair (f : Finished) : Type 0 where
    pub success : (p : IpnsPublication) → f.outcome ≡ answered (ok p) → IsOf f.request p
    pub late : (d : ℕ) → f.outcome ≡ answered (err (timeout d)) → f.request.deadline ≤ f.at

  pub record AllFair (p : Publisher) : Type 0 where
    pub told : All IsFair p.finished
    pub doing : (a : ActivePublish) → p.active ≡ some a → IsOf a.request a.publication

  timeout-IsFair :
      (r : PublishRequest) (now d : ℕ)
      → is_expired r now ≡ true
      → IsFair (respond r now (err (timeout d)))
  unfolding is_expired
  timeout-IsFair r now d h = record {
    success = λ p e. absurd (ground arith);
    late = λ d e. ground arith;
  }

  canceled-IsFair :
      (r : PublishRequest) (now : ℕ) → IsFair (record { request = r; at = now; outcome = canceled })
  canceled-IsFair r now = record {
    success = λ p e. absurd (ground arith);
    late = λ d e. absurd (ground arith);
  }

  error-IsFair :
      (r : PublishRequest) (now : ℕ) (e : IpnsError)
      → ((d : ℕ) → e ≢ timeout d)
      → IsFair (respond r now (err e))
  error-IsFair r now e h = record {
    success = λ p same. absurd (ground arith);
    late = λ d same. absurd (h d (ground arith));
  }

  success-IsFair :
      (r : PublishRequest) (now : ℕ) (p : IpnsPublication)
      → IsOf r p
      → IsFair (respond r now (ok p))
  success-IsFair r now p h = record {
    success = λ q e. ground arith;
    late = λ d e. absurd (ground arith);
  }

  build_signed_record-IsOf :
      (r : PublishRequest) (signed : SignedIpnsRecord)
      → build_signed_record lib peer_id r.manifest_cid config.record_lifetime config.record_ttl
          r.sequence
        ≡ ok signed
      → IsOf r (publication_of signed)
  unfolding build_signed_record
  build_signed_record-IsOf r signed h = (ground arith, ground arith, ground arith)

  build_signed_record-ne-timeout :
      (r : PublishRequest) (e : IpnsError) (d : ℕ)
      → build_signed_record lib peer_id r.manifest_cid config.record_lifetime config.record_ttl
          r.sequence
        ≡ err e
      → e ≢ timeout d
  unfolding build_signed_record manifest_ipfs_path duration_nanos ipns_name
  build_signed_record-ne-timeout r e d h same = ground arith

  expire_active-AllFair :
      (active : Option ActivePublish) (now : ℕ)
      → All IsFair (expire_active_publish active now).1
        × ((a : ActivePublish) → (expire_active_publish active now).0 ≡ some a → active ≡ some a)
  unfolding expire_active_publish may_expire_while_active
  expire_active-AllFair none now = (tt, λ a h. h)
  expire_active-AllFair (some publish) now =
      elim (Bool-cases (may_expire_while_active publish.request now)) [
        | inl e ↦ rw e (
          (timeout-IsFair publish.request now publish.request.timeout (ground arith), tt),
          λ a h. absurd (ground arith),
        )
        | inr e ↦ rw e (tt, λ a h. h)
      ]

  discard-AllFair :
      (closed : ℕ → Bool) (pending : List PublishRequest) (now : ℕ)
      → All IsFair (discard_unpublishable_pending closed pending now).1
  unfolding discard_unpublishable_pending
  discard-AllFair closed [] now = tt
  discard-AllFair closed (r ∷ rest) now =
      let later = discard-AllFair closed rest now in
      elim (Bool-cases (closed r.response)) [
        | inl gone ↦ rw gone (canceled-IsFair r now, later)
        | inr waits ↦ elim (Bool-cases (is_expired r now)) [
          | inl late ↦ rw (waits, late) (timeout-IsFair r now r.timeout late, later)
          | inr early ↦ rw (waits, early) later
        ]
      ]

  told_more :
      (p q : Publisher) (more : List Finished)
      → q.finished ≡ p.finished ++ more
      → ((a : ActivePublish) → q.active ≡ some a → p.active ≡ some a)
      → AllFair p
      → All IsFair more
      → AllFair q
  told_more p q more grown kept v h = record {
    told = rw grown (All-append IsFair p.finished more v.told h);
    doing = λ a e. v.doing a (kept a e);
  }

  start_request-AllFair :
      (s : Swarm) (p : Publisher) (front : PublishRequest) (rest : List PublishRequest)
      → AllFair p
      → AllFair (start_request lib peer_id config s p front rest)
  unfolding start_request
  start_request-AllFair s p front rest v =
      let request = record front { attempts_started = next_attempt front.attempts_started } in
      elim (Result-cases (
        build_signed_record lib peer_id front.manifest_cid config.record_lifetime config.record_ttl
          front.sequence)) [
            | inr (e, failed) ↦
                let fair =
                  error-IsFair request s.now e
                    (λ d. build_signed_record-ne-timeout request e d failed) in
                rw (failed, start_request)
                  (told_more p _ (respond request s.now (err e) ∷ []) refl (λ a h. h) v (fair, tt))
            | inl (signed, built) ↦ elim (Result-cases (s.put_record signed)) [
              | inr (e, failed) ↦
                  let fair = error-IsFair request s.now (store e) (λ d. cc) in
                  rw (built, failed, start_request)
                    (told_more p _ (respond request s.now (err (store e)) ∷ []) refl (λ a h. h) v
                      (fair, tt))
              | inl (id, put) ↦
                  let same = build_signed_record-IsOf request signed built in
                  rw (built, put, start_request)
                    (record { told = v.told; doing = λ a h. ground (arith, same) })
            ]
          ]

  start_front-AllFair :
      (s : Swarm) (p : Publisher) (pending : List PublishRequest)
      → AllFair p
      → AllFair (start_front lib peer_id config s p pending)
  unfolding start_front
  start_front-AllFair s p [] v = v
  start_front-AllFair s p (front ∷ rest) v =
      let stay =
        not (is_none p.active)
        || not (has_enough_connected_peers_for_publish s p.bootstrap_completed)
        || ltb s.now front.not_before in
      elim stay
        as (λ b. AllFair (if b then p else start_request lib peer_id config s p front rest)) [
          | true ↦ v
          | false ↦ start_request-AllFair s p front rest v
        ]

  maybe_start-AllFair :
      (s : Swarm) (p : Publisher) → AllFair p → AllFair (maybe_start_publish lib peer_id config s p)
  unfolding maybe_start_publish
  maybe_start-AllFair s p v =
      let kept = discard_unpublishable_pending s.closed p.pending s.now in
      start_front-AllFair s _ kept.0
        (told_more p _ kept.1 refl (λ a h. h) v (discard-AllFair s.closed p.pending s.now))

  put_record_failed-AllFair :
      (s : Swarm) (p : Publisher) (request : PublishRequest) (e : ℕ)
      → AllFair p
      → AllFair (put_record_failed lib peer_id config s p request e)
  unfolding put_record_failed
  put_record_failed-AllFair s p request e v = elim (Bool-cases (is_expired request s.now)) [
    | inl late ↦
        let fair = timeout-IsFair request s.now request.timeout late in
        rw late (
          told_more p _ (respond request s.now (err (timeout request.timeout)) ∷ []) refl (λ a h. h)
            v (fair, tt))
    | inr early ↦ elim (Option-cases (next_retry_at s.closed request s.now)) [
      | inr (retry_at, again) ↦
          rw (early, again, put_record_failed) (record { told = v.told; doing = v.doing })
      | inl over ↦
          let fair = error-IsFair request s.now (put_record_error e) (λ d. cc) in
          rw (early, over, put_record_failed)
            (told_more p _ (respond request s.now (err (put_record_error e)) ∷ []) refl (λ a h. h) v
              (fair, tt))
    ]
  ]

  put_record_done-AllFair :
      (s : Swarm) (p : Publisher) (publish : ActivePublish) (result : Result ℕ (Unit {0}))
      → p.active ≡ some publish
      → AllFair p
      → AllFair (put_record_done lib peer_id config s p publish result)
  unfolding put_record_done
  put_record_done-AllFair s p publish (ok _) h v =
      let fair = success-IsFair publish.request s.now publish.publication (v.doing publish h) in
      told_more p _ (respond publish.request s.now (ok publish.publication) ∷ []) refl
        (λ a e. absurd (ground arith)) v (fair, tt)
  put_record_done-AllFair s p publish (err e) h v =
      put_record_failed-AllFair s (record p { active = none }) publish.request e
        (record { told = v.told; doing = λ a e. absurd (ground arith) })

  handle_put_record-AllFair :
      (s restart : Swarm) (p : Publisher) (active : Option ActivePublish) (id : ℕ)
      (result : Result ℕ (Unit {0}))
      → p.active ≡ active
      → AllFair p
      → AllFair (handle_put_record lib peer_id config s restart p active id result)
  unfolding handle_put_record
  handle_put_record-AllFair s restart p none id result h v = v
  handle_put_record-AllFair s restart p (some publish) id result h v =
      elim (publish.query_id == id)
        as (λ b. AllFair (
          if b
          then maybe_start_publish lib peer_id config restart
              (put_record_done lib peer_id config s p publish result)
          else p)) [
            | true ↦ maybe_start-AllFair restart _ (put_record_done-AllFair s p publish result h v)
            | false ↦ v
          ]

  handle_swarm_event-AllFair :
      (s restart : Swarm) (p : Publisher) (e : SwarmEvent)
      → AllFair p
      → AllFair (handle_swarm_event lib peer_id config s restart p e)
  unfolding handle_swarm_event
  handle_swarm_event-AllFair s restart p (put_record_progressed id result) v =
      handle_put_record-AllFair s restart p p.active id result refl v
  handle_swarm_event-AllFair s restart p (bootstrap_progressed (ok true)) v =
      maybe_start-AllFair restart _ (record { told = v.told; doing = v.doing })
  handle_swarm_event-AllFair s restart p (bootstrap_progressed (ok false)) v = v
  handle_swarm_event-AllFair s restart p (bootstrap_progressed (err e)) v = v
  handle_swarm_event-AllFair s restart p connection_established v = maybe_start-AllFair restart p v
  handle_swarm_event-AllFair s restart p connection_closed v = v
  handle_swarm_event-AllFair s restart p outgoing_connection_error v = v
  handle_swarm_event-AllFair s restart p other v = v

  handle_event-AllFair :
      (t : Turn) (p : Publisher) (e : RunEvent)
      → AllFair p
      → AllFair (handle_event lib peer_id config t p e).0
  unfolding handle_event
  handle_event-AllFair t p (shutdown_changed stop) v = v
  handle_event-AllFair t p woke v = v
  handle_event-AllFair t p (bootstrap_tick dialed) v = v
  handle_event-AllFair t p (received none dialed) v = v
  handle_event-AllFair t p (received (some request) dialed) v = record {
    told = v.told;
    doing = v.doing;
  }
  handle_event-AllFair t p (swarm_event e) v = handle_swarm_event-AllFair t.handled t.restart p e v

  begin_turn-AllFair :
      (s : Swarm) (p : Publisher) → AllFair p → AllFair (begin_turn lib peer_id config s p)
  unfolding begin_turn
  begin_turn-AllFair s p v =
      let kept = expire_active-AllFair p.active s.now in
      maybe_start-AllFair s _
        (told_more p _ (expire_active_publish p.active s.now).1 refl kept.1 v kept.0)

  turn-AllFair : (p : Publisher) (t : Turn) → AllFair p → AllFair (turn lib peer_id config p t).0
  unfolding turn handle_event
  turn-AllFair p t v = elim (Bool-cases t.shutdown) [
    | inl stop ↦ rw stop v
    | inr go ↦ rw go (handle_event-AllFair t _ t.event (begin_turn-AllFair t.start p v))
  ]

  run-AllFair :
      (p : Publisher) (turns : List Turn) → AllFair p → AllFair (run lib peer_id config p turns).0
  unfolding run
  run-AllFair p [] v = v
  run-AllFair p (t ∷ rest) v =
      let after = turn lib peer_id config p t in
      elim (Option-cases after.1) [
        | inr (end, e) ↦ rw (e, run) (turn-AllFair p t v)
        | inl e ↦ rw (e, run) (run-AllFair after.0 rest (turn-AllFair p t v))
      ]

  -- Whatever happens in a run of a new publisher, a caller is told of a success only with the publisher's
  -- own publication of the path of the caller's manifest at the caller's sequence, and of a timeout only
  -- at the deadline or later.
  pub run-IsFair :
      (turns : List Turn) → All IsFair (run lib peer_id config new_publisher turns).0.finished
  run-IsFair turns =
      (run-AllFair new_publisher turns
        (record { told = tt; doing = λ a e. absurd (ground arith) })).told
