-- ===== src/Ipns/Actor/Conserves.antt =====
-- Where the requests are (crates/railgun-indexer-core/src/publish/ipns.rs).
use railgun_indexer.Prelude.{
  ℕ, ◌+◌, ◌≡◌, refl, ◌==◌, List, [], ◌∷◌, ◌++◌, Option, none, some, Bool, true, false, Result, ok,
  err, if◌then◌else◌, All, arith, Option-cases, Result-cases, inl, inr,
}
use railgun_indexer.Codec.{Bytes}
use railgun_indexer.Ipns.{
  IpnsLib, IpnsPublisherConfig, PublishRequest, ActivePublish, timeout, store, put_record_error,
}
use railgun_indexer.Ipns.Record.{build_signed_record}
use railgun_indexer.Ipns.Queue.{
  Finished, respond, expire_active_publish, discard_unpublishable_pending,
}
use railgun_indexer.Ipns.Actor.{
  Swarm, SwarmEvent, put_record_progressed, bootstrap_progressed, connection_established,
  connection_closed, outgoing_connection_error, other, RunEvent, shutdown_changed, woke,
  bootstrap_tick, received, swarm_event, Turn, Publisher, next_attempt, start_request, start_front,
  maybe_start_publish, put_record_failed, put_record_done, handle_put_record, handle_swarm_event,
  handle_event, begin_turn, turn, run,
}
use railgun_indexer.Ipns.Actor.Cancels.{IsAccounted, run-IsAccounted}

-- The number of the requests of a caller: waiting, active, finished.
abbrev pub asks : ℕ → PublishRequest → ℕ
asks x r = if r.response == x then 1 else 0

abbrev pub waiting : ℕ → List PublishRequest → ℕ
waiting x [] = 0
waiting x (r ∷ rest) = asks x r + waiting x rest

abbrev pub ended : ℕ → List Finished → ℕ
ended x [] = 0
ended x (f ∷ rest) = asks x f.request + ended x rest

abbrev pub active_asks : ℕ → Option ActivePublish → ℕ
active_asks x none = 0
active_asks x (some publish) = asks x publish.request

abbrev pub holds : ℕ → Publisher → ℕ
holds x p = waiting x p.pending + active_asks x p.active + ended x p.finished

waiting-append :
    (x : ℕ) (a b : List PublishRequest) → waiting x (a ++ b) ≡ waiting x a + waiting x b
waiting-append x [] b = omega arith
waiting-append x (r ∷ a) b = omega (arith, waiting-append x a b)

ended-append : (x : ℕ) (a b : List Finished) → ended x (a ++ b) ≡ ended x a + ended x b
ended-append x [] b = omega arith
ended-append x (f ∷ a) b = omega (arith, ended-append x a b)

expire_active-Conserves :
    (x : ℕ) (active : Option ActivePublish) (now : ℕ)
    → active_asks x (expire_active_publish active now).0
        + ended x (expire_active_publish active now).1
      ≡ active_asks x active
unfolding expire_active_publish
expire_active-Conserves x none now = omega arith
expire_active-Conserves x (some publish) now = ground arith

discard-Conserves :
    (x : ℕ) (closed : ℕ → Bool) (pending : List PublishRequest) (now : ℕ)
    → waiting x (discard_unpublishable_pending closed pending now).0
        + ended x (discard_unpublishable_pending closed pending now).1
      ≡ waiting x pending
unfolding discard_unpublishable_pending
discard-Conserves x closed [] now = omega arith
discard-Conserves x closed (r ∷ rest) now =
    let later = discard-Conserves x closed rest now in ground arith

module _ (lib : IpnsLib) (peer_id : Bytes) (config : IpnsPublisherConfig) (x : ℕ) where
  start_request-Conserves :
      (s : Swarm) (p : Publisher) (front : PublishRequest) (rest : List PublishRequest)
      → p.active ≡ none
      → holds x (start_request lib peer_id config s p front rest)
        ≡ asks x front + waiting x rest + ended x p.finished
  unfolding start_request
  start_request-Conserves s p front rest h =
      let request = record front { attempts_started = next_attempt front.attempts_started } in
      elim (Result-cases (
        build_signed_record lib peer_id front.manifest_cid config.record_lifetime config.record_ttl
          front.sequence)) [
            | inr (e, failed) ↦
                ground (arith, ended-append x p.finished (respond request s.now (err e) ∷ []))
            | inl (signed, built) ↦ elim (Result-cases (s.put_record signed)) [
              | inr (e, failed) ↦
                  ground
                    (arith, ended-append x p.finished (respond request s.now (err (store e)) ∷ []))
              | inl (id, put) ↦ ground arith
            ]
          ]

  start_front-Conserves :
      (s : Swarm) (p : Publisher) (pending : List PublishRequest)
      → p.pending ≡ pending
      → holds x (start_front lib peer_id config s p pending) ≡ holds x p
  unfolding start_front
  start_front-Conserves s p [] h = refl
  start_front-Conserves s p (front ∷ rest) h = elim (Option-cases p.active) [
    | inr (publish, busy) ↦ ground arith
    | inl idle ↦ ground (arith, start_request-Conserves s p front rest idle)
  ]

  maybe_start-Conserves :
      (s : Swarm) (p : Publisher) → holds x (maybe_start_publish lib peer_id config s p) ≡ holds x p
  unfolding maybe_start_publish
  maybe_start-Conserves s p =
      let kept = discard_unpublishable_pending s.closed p.pending s.now in
      omega (
        arith,
        start_front-Conserves s (record p { pending = kept.0; finished = p.finished ++ kept.1 })
            kept.0 refl,
        discard-Conserves x s.closed p.pending s.now,
        ended-append x p.finished kept.1,
      )

  put_record_failed-Conserves :
      (s : Swarm) (p : Publisher) (request : PublishRequest) (e : ℕ)
      → holds x (put_record_failed lib peer_id config s p request e) ≡ holds x p + asks x request
  unfolding put_record_failed
  put_record_failed-Conserves s p request e = ground (
    arith,
    ended-append x p.finished (respond request s.now (err (timeout request.timeout)) ∷ []),
    ended-append x p.finished (respond request s.now (err (put_record_error e)) ∷ []),
  )

  put_record_done-Conserves :
      (s : Swarm) (p : Publisher) (publish : ActivePublish) (result : Result ℕ (Unit {0}))
      → p.active ≡ some publish
      → holds x (put_record_done lib peer_id config s p publish result) ≡ holds x p
  unfolding put_record_done
  put_record_done-Conserves s p publish (ok _) h = ground (
    arith,
    ended-append x p.finished (respond publish.request s.now (ok publish.publication) ∷ []),
  )
  put_record_done-Conserves s p publish (err e) h =
      ground (arith, put_record_failed-Conserves s (record p { active = none }) publish.request e)

  handle_put_record-Conserves :
      (s restart : Swarm) (p : Publisher) (active : Option ActivePublish) (id : ℕ)
      (result : Result ℕ (Unit {0}))
      → p.active ≡ active
      → holds x (handle_put_record lib peer_id config s restart p active id result) ≡ holds x p
  unfolding handle_put_record
  handle_put_record-Conserves s restart p none id result h = refl
  handle_put_record-Conserves s restart p (some publish) id result h =
      let done = put_record_done lib peer_id config s p publish result in
      ground
        (arith, maybe_start-Conserves restart done, put_record_done-Conserves s p publish result h)

  handle_swarm_event-Conserves :
      (s restart : Swarm) (p : Publisher) (e : SwarmEvent)
      → holds x (handle_swarm_event lib peer_id config s restart p e) ≡ holds x p
  unfolding handle_swarm_event
  handle_swarm_event-Conserves s restart p (put_record_progressed id result) =
      handle_put_record-Conserves s restart p p.active id result refl
  handle_swarm_event-Conserves s restart p (bootstrap_progressed (ok true)) =
      maybe_start-Conserves restart (record p { bootstrap_completed = true })
  handle_swarm_event-Conserves s restart p (bootstrap_progressed (ok false)) = refl
  handle_swarm_event-Conserves s restart p (bootstrap_progressed (err e)) = refl
  handle_swarm_event-Conserves s restart p connection_established = maybe_start-Conserves restart p
  handle_swarm_event-Conserves s restart p connection_closed = refl
  handle_swarm_event-Conserves s restart p outgoing_connection_error = refl
  handle_swarm_event-Conserves s restart p other = refl

  -- The number of the caller's requests that an event brings in.
  abbrev brought : RunEvent → ℕ
  brought (received (some request) dialed) = asks x request
  brought (received none dialed) = 0
  brought (shutdown_changed stop) = 0
  brought woke = 0
  brought (bootstrap_tick dialed) = 0
  brought (swarm_event e) = 0

  handle_event-Conserves :
      (t : Turn) (p : Publisher) (e : RunEvent)
      → holds x (handle_event lib peer_id config t p e).0 ≡ holds x p + brought e
  unfolding handle_event
  handle_event-Conserves t p (shutdown_changed stop) = omega arith
  handle_event-Conserves t p woke = omega arith
  handle_event-Conserves t p (bootstrap_tick dialed) = omega arith
  handle_event-Conserves t p (received none dialed) = omega arith
  handle_event-Conserves t p (received (some request) dialed) =
      omega (arith, waiting-append x p.pending (request ∷ []))
  handle_event-Conserves t p (swarm_event e) =
      omega (arith, handle_swarm_event-Conserves t.handled t.restart p e)

  begin_turn-Conserves :
      (s : Swarm) (p : Publisher) → holds x (begin_turn lib peer_id config s p) ≡ holds x p
  unfolding begin_turn
  begin_turn-Conserves s p =
      let kept = expire_active_publish p.active s.now in
      omega (
        arith,
        maybe_start-Conserves s (record p { active = kept.0; finished = p.finished ++ kept.1 }),
        expire_active-Conserves x p.active s.now,
        ended-append x p.finished kept.1,
      )

  abbrev turn_brought : Turn → ℕ
  turn_brought t = if t.shutdown then 0 else brought t.event

  turn-Conserves :
      (p : Publisher) (t : Turn)
      → holds x (turn lib peer_id config p t).0 ≡ holds x p + turn_brought t
  unfolding turn
  turn-Conserves p t = ground (
    arith,
    handle_event-Conserves t (begin_turn lib peer_id config t.start p) t.event,
    begin_turn-Conserves t.start p,
  )

  -- The number of the caller's requests that a run brings in, until it ends.
  abbrev pub run_brought : Publisher → List Turn → ℕ
  run_brought p [] = 0
  run_brought p (t ∷ rest) =
      let after = turn lib peer_id config p t in
      turn_brought t + elim after.1 [ some end ↦ 0 | none ↦ run_brought after.0 rest ]

  holds-run :
      (p : Publisher) (turns : List Turn)
      → holds x (run lib peer_id config p turns).0 ≡ holds x p + run_brought p turns
  unfolding run
  holds-run p [] = omega arith
  holds-run p (t ∷ rest) =
      let after = turn lib peer_id config p t in
      elim (Option-cases after.1) [
        | inr (end, e) ↦ ground (arith, turn-Conserves p t)
        | inl e ↦ ground (arith, turn-Conserves p t, holds-run after.0 rest)
      ]

  -- Through any run of the publisher, every request that came in is, as often as it came in, waiting in
  -- the queue, being published, or ended; and whatever ended in the run was answered, or it was dropped
  -- at a time of the run at which its caller was gone.
  pub run-Conserves :
      (p : Publisher) (turns : List Turn)
      → (holds x (run lib peer_id config p turns).0 ≡ holds x p + run_brought p turns)
        × All (IsAccounted p.finished turns) (run lib peer_id config p turns).0.finished
  run-Conserves p turns = (holds-run p turns, run-IsAccounted lib peer_id config p turns)
