-- ===== src/Ipns/Actor/Cancels.antt =====
-- Why requests are dropped (crates/railgun-indexer-core/src/publish/ipns.rs).
use railgun_indexer.Prelude.{
  ℕ, ◌≡◌, ◌⊎◌, refl, ◌==◌, ltb, not, ◌||◌, List, [], ◌∷◌, ◌++◌, Option, none, some, true, false,
  Result, ok, err, if◌then◌else◌, Bool-cases, Option-cases, Result-cases, inl, inr, All, All-append,
  All-map,
}
use railgun_indexer.Codec.{Bytes}
use railgun_indexer.Ipns.{
  IpnsLib, IpnsPublisherConfig, PublishRequest, IpnsPublication, ActivePublish, timeout, store,
  put_record_error, IpnsError,
}
use railgun_indexer.Ipns.Record.{build_signed_record}
use railgun_indexer.Ipns.Queue.{
  Finished, answered, canceled, respond, is_none, is_expired, may_expire_while_active,
  expire_active_publish, next_retry_at, discard_unpublishable_pending,
}
use railgun_indexer.Ipns.Actor.{
  Swarm, SwarmEvent, put_record_progressed, bootstrap_progressed, connection_established,
  connection_closed, outgoing_connection_error, other, RunEvent, shutdown_changed, woke,
  bootstrap_tick, received, swarm_event, Turn, Publisher, next_attempt, start_request, start_front,
  maybe_start_publish, put_record_failed, put_record_done, handle_put_record, handle_swarm_event,
  handle_event, begin_turn, turn, run, has_enough_connected_peers_for_publish,
}

-- The caller of the request was gone when it ended.
abbrev IsGone : Finished → Swarm → Type 0
IsGone f s = (s.now ≡ f.at) × (s.closed f.request.response ≡ true)

-- It was so at the start of a turn, or after its event was handled.
abbrev pub IsGoneIn : Finished → List Turn → Type 0
IsGoneIn f [] = false ≡ true
IsGoneIn f (t ∷ rest) = (IsGone f t.start ⊎ IsGone f t.restart) ⊎ IsGoneIn f rest

abbrev Among : Finished → List Finished → Type 0
Among f [] = false ≡ true
Among f (g ∷ rest) = (g ≡ f) ⊎ Among f rest

-- The request ended before, it was answered, or it was dropped in one of the turns when its caller was
-- gone.
abbrev pub IsAccounted : List Finished → List Turn → Finished → Type 0
IsAccounted before turns f =
    Among f before
    ⊎ (((result : Result IpnsError IpnsPublication) × (f.outcome ≡ answered result))
        ⊎ ((f.outcome ≡ canceled) × IsGoneIn f turns))

-- A property of what becomes of requests that every answer has.
module _ (lib : IpnsLib) (peer_id : Bytes) (config : IpnsPublisherConfig) (G : Finished → Type 0)
    (told : (r : PublishRequest) (now : ℕ) (result : Result IpnsError IpnsPublication)
      → G (respond r now result)) where
  -- What is dropped at the swarm has it too, if the caller is gone.
  abbrev Drops : Swarm → Type 0
  Drops s =
      (r : PublishRequest)
      → s.closed r.response ≡ true
      → G (record { request = r; at = s.now; outcome = canceled })

  discard-All :
      (s : Swarm) (pending : List PublishRequest)
      → Drops s
      → All G (discard_unpublishable_pending s.closed pending s.now).1
  unfolding discard_unpublishable_pending
  discard-All s [] d = tt
  discard-All s (r ∷ rest) d =
      let later = discard-All s rest d in
      elim (Bool-cases (s.closed r.response)) [
        | inl gone ↦ rw gone (d r gone, later)
        | inr waits ↦ elim (Bool-cases (is_expired r s.now)) [
          | inl late ↦ rw (waits, late) (told r s.now (err (timeout r.timeout)), later)
          | inr early ↦ rw (waits, early) later
        ]
      ]

  record Told (p : Publisher) : Type 0 where
    all : All G p.finished

  respond-Told :
      (p : Publisher) (r : PublishRequest) (now : ℕ) (result : Result IpnsError IpnsPublication)
      → Told p
      → (q : Publisher) → q.finished ≡ p.finished ++ respond r now result ∷ []
      → Told q
  respond-Told p r now result v q e = record {
    all = rw e (All-append G p.finished (respond r now result ∷ []) v.all (told r now result, tt));
  }

  start_request-All :
      (s : Swarm) (p : Publisher) (front : PublishRequest) (rest : List PublishRequest)
      → Told p
      → Told (start_request lib peer_id config s p front rest)
  unfolding start_request
  start_request-All s p front rest v =
      let request = record front { attempts_started = next_attempt front.attempts_started } in
      elim (Result-cases (
        build_signed_record lib peer_id front.manifest_cid config.record_lifetime config.record_ttl
          front.sequence)) [
            | inr (e, failed) ↦
                rw (failed, start_request) (respond-Told p request s.now (err e) v _ refl)
            | inl (signed, built) ↦ elim (Result-cases (s.put_record signed)) [
              | inr (e, failed) ↦
                  rw (built, failed, start_request)
                    (respond-Told p request s.now (err (store e)) v _ refl)
              | inl (id, put) ↦ rw (built, put, start_request) (record { all = v.all })
            ]
          ]

  start_front-All :
      (s : Swarm) (p : Publisher) (pending : List PublishRequest)
      → Told p
      → Told (start_front lib peer_id config s p pending)
  unfolding start_front
  start_front-All s p [] v = v
  start_front-All s p (front ∷ rest) v =
      let stay =
        not (is_none p.active)
        || not (has_enough_connected_peers_for_publish s p.bootstrap_completed)
        || ltb s.now front.not_before in
      elim stay as (λ b. Told (if b then p else start_request lib peer_id config s p front rest)) [
        | true ↦ v
        | false ↦ start_request-All s p front rest v
      ]

  maybe_start-All :
      (s : Swarm) (p : Publisher)
      → Drops s
      → Told p
      → Told (maybe_start_publish lib peer_id config s p)
  unfolding maybe_start_publish
  maybe_start-All s p d v =
      let kept = discard_unpublishable_pending s.closed p.pending s.now in
      start_front-All s (record p { pending = kept.0; finished = p.finished ++ kept.1 }) kept.0
        (record { all = All-append G p.finished kept.1 v.all (discard-All s p.pending d) })

  put_record_done-All :
      (s : Swarm) (p : Publisher) (publish : ActivePublish) (result : Result ℕ (Unit {0}))
      → Told p
      → Told (put_record_done lib peer_id config s p publish result)
  unfolding put_record_done put_record_failed
  put_record_done-All s p publish (ok _) v =
      respond-Told p publish.request s.now (ok publish.publication) v _ refl
  put_record_done-All s p publish (err e) v =
      let request = publish.request in
      elim (Bool-cases (is_expired request s.now)) [
        | inl late ↦ rw late (respond-Told p request s.now (err (timeout request.timeout)) v _ refl)
        | inr early ↦ elim (Option-cases (next_retry_at s.closed request s.now)) [
          | inr (retry_at, again) ↦ rw (early, again, put_record_failed) (record { all = v.all })
          | inl over ↦
              rw (early, over, put_record_failed)
                (respond-Told p request s.now (err (put_record_error e)) v _ refl)
        ]
      ]

  handle_put_record-All :
      (s restart : Swarm) (p : Publisher) (active : Option ActivePublish) (id : ℕ)
      (result : Result ℕ (Unit {0}))
      → Drops restart
      → Told p
      → Told (handle_put_record lib peer_id config s restart p active id result)
  unfolding handle_put_record
  handle_put_record-All s restart p none id result d v = v
  handle_put_record-All s restart p (some publish) id result d v =
      elim (publish.query_id == id)
        as (λ b. Told (
          if b
          then maybe_start_publish lib peer_id config restart
              (put_record_done lib peer_id config s p publish result)
          else p)) [
            | true ↦ maybe_start-All restart _ d (put_record_done-All s p publish result v)
            | false ↦ v
          ]

  handle_swarm_event-All :
      (s restart : Swarm) (p : Publisher) (e : SwarmEvent)
      → Drops restart
      → Told p
      → Told (handle_swarm_event lib peer_id config s restart p e)
  unfolding handle_swarm_event
  handle_swarm_event-All s restart p (put_record_progressed id result) d v =
      handle_put_record-All s restart p p.active id result d v
  handle_swarm_event-All s restart p (bootstrap_progressed (ok true)) d v =
      maybe_start-All restart _ d (record { all = v.all })
  handle_swarm_event-All s restart p (bootstrap_progressed (ok false)) d v = v
  handle_swarm_event-All s restart p (bootstrap_progressed (err e)) d v = v
  handle_swarm_event-All s restart p connection_established d v = maybe_start-All restart p d v
  handle_swarm_event-All s restart p connection_closed d v = v
  handle_swarm_event-All s restart p outgoing_connection_error d v = v
  handle_swarm_event-All s restart p other d v = v

  handle_event-All :
      (t : Turn) (p : Publisher) (e : RunEvent)
      → Drops t.restart
      → Told p
      → Told (handle_event lib peer_id config t p e).0
  unfolding handle_event
  handle_event-All t p (shutdown_changed stop) d v = v
  handle_event-All t p woke d v = v
  handle_event-All t p (bootstrap_tick dialed) d v = v
  handle_event-All t p (received none dialed) d v = v
  handle_event-All t p (received (some request) dialed) d v = record { all = v.all }
  handle_event-All t p (swarm_event e) d v = handle_swarm_event-All t.handled t.restart p e d v

  expire_active-All :
      (active : Option ActivePublish) (now : ℕ) → All G (expire_active_publish active now).1
  unfolding expire_active_publish
  expire_active-All none now = tt
  expire_active-All (some publish) now =
      elim (Bool-cases (may_expire_while_active publish.request now)) [
        | inl late ↦ rw late (told publish.request now (err (timeout publish.request.timeout)), tt)
        | inr early ↦ rw early tt
      ]

  begin_turn-All :
      (s : Swarm) (p : Publisher) → Drops s → Told p → Told (begin_turn lib peer_id config s p)
  unfolding begin_turn
  begin_turn-All s p d v = maybe_start-All s _ d (record {
    all =
        All-append G p.finished (expire_active_publish p.active s.now).1 v.all
          (expire_active-All p.active s.now);
  })

  turn-All :
      (p : Publisher) (t : Turn)
      → Drops t.start
      → Drops t.restart
      → Told p
      → Told (turn lib peer_id config p t).0
  unfolding turn handle_event
  turn-All p t d later v = elim (Bool-cases t.shutdown) [
    | inl stop ↦ rw stop v
    | inr go ↦ rw go (handle_event-All t _ t.event later (begin_turn-All t.start p d v))
  ]

  run-All :
      (p : Publisher) (turns : List Turn)
      → ((f : Finished) → f.outcome ≡ canceled → IsGoneIn f turns → G f)
      → Told p
      → Told (run lib peer_id config p turns).0
  unfolding run
  run-All p [] gone v = v
  run-All p (t ∷ rest) gone v =
      let after = turn lib peer_id config p t in
      let here =
        turn-All p t (λ r c. gone _ refl (inl (inl (refl, c))))
          (λ r c. gone _ refl (inl (inr (refl, c)))) v in
      elim (Option-cases after.1) [
        | inr (end, e) ↦ rw (e, run) here
        | inl e ↦ rw (e, run) (run-All after.0 rest (λ f c seen. gone f c (inr seen)) here)
      ]

All-Among : (fs : List Finished) → All (λ f. Among f fs) fs
All-Among [] = tt
All-Among (f ∷ rest) = (inl refl, All-map (λ g there. inr there) rest (All-Among rest))

pub run-IsAccounted :
    (lib : IpnsLib) (peer_id : Bytes) (config : IpnsPublisherConfig) (p : Publisher)
    (turns : List Turn)
    → All (IsAccounted p.finished turns) (run lib peer_id config p turns).0.finished
run-IsAccounted lib peer_id config p turns =
    (run-All lib peer_id config (IsAccounted p.finished turns)
      (λ r now result. inr (inl (result, refl))) p turns (λ f c seen. inr (inr (c, seen)))
      (record { all = All-map (λ f there. inl there) p.finished (All-Among p.finished) })).all
