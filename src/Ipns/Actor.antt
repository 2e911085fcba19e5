-- ===== src/Ipns/Actor.antt =====
-- The publisher's task (crates/railgun-indexer-core/src/publish/ipns.rs): a turn of its loop, with what
-- the swarm, the callers and the clock do in it as an argument.
pub mod Conserves
pub mod Answers
pub mod Cancels
pub mod Fresh
use railgun_indexer.Prelude.{
  ℕ, ◌+◌, ◌-◌, ◌^◌, min, ◌==◌, leb, ltb, not, ◌&&◌, ◌||◌, List, [], ◌∷◌, ◌++◌, Option, none, some,
  Bool, true, false, Result, ok, err, ◌>>=◌, map_err, if◌then◌else◌, is_empty, u32_mod,
}
use railgun_indexer.Codec.{Bytes}
use railgun_indexer.Ipns.{
  IpnsLib, IpnsError, timeout, store, put_record_error, IpnsPublisherConfig, PublishRequest,
  IpnsPublication, SignedIpnsRecord, ActivePublish,
}
use railgun_indexer.Ipns.Record.{Ipns, build_signed_record}
use railgun_indexer.Ipns.Queue.{
  Finished, respond, is_none, is_expired, expire_active_publish, next_retry_at,
  discard_unpublishable_pending,
}

-- The swarm and the callers' channels at a moment.
pub record Swarm : Type 0 where
  pub now : ℕ
  pub num_peers : ℕ
  pub put_record : SignedIpnsRecord → Result ℕ ℕ
  pub closed : ℕ → Bool

pub data SwarmEvent : Type 0 where
  -- the result of a query, which has an id
  put_record_progressed : ℕ → Result ℕ (Unit {0}) → SwarmEvent
  -- whether this step of the bootstrap was the last
  bootstrap_progressed : Result ℕ Bool → SwarmEvent
  connection_established : SwarmEvent
  connection_closed : SwarmEvent
  outgoing_connection_error : SwarmEvent
  other : SwarmEvent

-- The branches of `select!`, with the result of `dial_bootstrap_peers` where it is called.
pub data RunEvent : Type 0 where
  shutdown_changed : Bool → RunEvent
  woke : RunEvent
  bootstrap_tick : Ipns (Unit {0}) → RunEvent
  received : Option PublishRequest → Ipns (Unit {0}) → RunEvent
  swarm_event : SwarmEvent → RunEvent

-- A turn of the loop: at its start, when the event is handled, and when a publish is started thereafter.
pub record Turn : Type 0 where
  pub shutdown : Bool
  pub start : Swarm
  pub event : RunEvent
  pub handled : Swarm
  pub restart : Swarm

pub record Publisher : Type 0 where
  pub pending : List PublishRequest
  pub active : Option ActivePublish
  pub bootstrap_completed : Bool
  pub finished : List Finished

abbrev pub new_publisher : Publisher
new_publisher = record { pending = []; active = none; bootstrap_completed = false; finished = [] }

abbrev ipns_min_connected_peers_for_publish : ℕ
ipns_min_connected_peers_for_publish = 8

unfoldable pub has_enough_connected_peers_for_publish : Swarm → Bool → Bool
has_enough_connected_peers_for_publish s bootstrap_completed =
    if bootstrap_completed
    then ltb 0 s.num_peers
    else leb ipns_min_connected_peers_for_publish s.num_peers

-- `saturating_add(1)` of a u32
abbrev pub next_attempt : ℕ → ℕ
next_attempt n = min (n + 1) (u32_mod - 1)

abbrev pub publication_of : SignedIpnsRecord → IpnsPublication
publication_of r = record {
  peer_id = r.peer_id;
  ipns_name = r.ipns_name;
  value = r.value;
  sequence = r.sequence;
}

module _ (lib : IpnsLib) (peer_id : Bytes) (config : IpnsPublisherConfig) where
  -- The front request is taken from the queue; `pending` is the rest.
  unfoldable pub start_request :
      Swarm → Publisher → PublishRequest → List PublishRequest → Publisher
  start_request s p front pending =
      let request = record front { attempts_started = next_attempt front.attempts_started } in
      elim (build_signed_record lib peer_id request.manifest_cid config.record_lifetime
        config.record_ttl request.sequence) [
          | err e ↦ record p {
            pending = pending;
            finished = p.finished ++ respond request s.now (err e) ∷ [];
          }
          | ok signed ↦ elim (s.put_record signed) [
            | err e ↦ record p {
              pending = pending;
              finished = p.finished ++ respond request s.now (err (store e)) ∷ [];
            }
            | ok query_id ↦ record p {
              pending = pending;
              active = some (record {
                query_id = query_id;
                request = request;
                publication = publication_of signed;
                started_at = s.now;
              });
            }
          ]
        ]

  -- From the check of `active` on.
  unfoldable pub start_front : Swarm → Publisher → List PublishRequest → Publisher
  start_front s p [] = p
  start_front s p (front ∷ rest) =
      if not (is_none p.active)
        || not (has_enough_connected_peers_for_publish s p.bootstrap_completed)
        || ltb s.now front.not_before
      then p
      else start_request s p front rest

  unfoldable pub maybe_start_publish : Swarm → Publisher → Publisher
  maybe_start_publish s p =
      let kept = discard_unpublishable_pending s.closed p.pending s.now in
      start_front s (record p { pending = kept.0; finished = p.finished ++ kept.1 }) kept.0

  -- The failure of the active publish, which is no longer active.
  unfoldable pub put_record_failed : Swarm → Publisher → PublishRequest → ℕ → Publisher
  put_record_failed s p request e =
      if is_expired request s.now
      then record p {
        finished = p.finished ++ respond request s.now (err (timeout request.timeout)) ∷ [];
      }
      else elim (next_retry_at s.closed request s.now) [
        | some retry_at ↦ record p {
          pending = record request { not_before = retry_at } ∷ p.pending;
        }
        | none ↦ record p {
          finished = p.finished ++ respond request s.now (err (put_record_error e)) ∷ [];
        }
      ]

  unfoldable pub put_record_done :
      Swarm → Publisher → ActivePublish → Result ℕ (Unit {0}) → Publisher
  put_record_done s p publish (ok _) = record p {
    active = none;
    finished = p.finished ++ respond publish.request s.now (ok publish.publication) ∷ [];
  }
  put_record_done s p publish (err e) =
      put_record_failed s (record p { active = none }) publish.request e

  unfoldable pub handle_put_record :
      Swarm → Swarm → Publisher → Option ActivePublish → ℕ → Result ℕ (Unit {0}) → Publisher
  handle_put_record s restart p none id result = p
  handle_put_record s restart p (some publish) id result =
      if publish.query_id == id
      then maybe_start_publish restart (put_record_done s p publish result)
      else p

  unfoldable pub handle_swarm_event : Swarm → Swarm → Publisher → SwarmEvent → Publisher
  handle_swarm_event s restart p (put_record_progressed id result) =
      handle_put_record s restart p p.active id result
  handle_swarm_event s restart p (bootstrap_progressed (ok true)) =
      maybe_start_publish restart (record p { bootstrap_completed = true })
  handle_swarm_event s restart p (bootstrap_progressed (ok false)) = p
  handle_swarm_event s restart p (bootstrap_progressed (err e)) = p
  handle_swarm_event s restart p connection_established = maybe_start_publish restart p
  handle_swarm_event s restart p connection_closed = p
  handle_swarm_event s restart p outgoing_connection_error = p
  handle_swarm_event s restart p other = p

  abbrev pub Ended : Type 0
  Ended = Option (Ipns (Unit {0}))

  -- `?` after `dial_bootstrap_peers`
  abbrev pub unless_failed : Ipns (Unit {0}) → Ended
  unless_failed (ok _) = none
  unless_failed (err e) = some (err e)

  unfoldable pub handle_event : Turn → Publisher → RunEvent → Publisher × Ended
  handle_event t p (shutdown_changed stop) = (p, if stop then some (ok tt) else none)
  handle_event t p woke = (p, none)
  handle_event t p (bootstrap_tick dialed) = (p, unless_failed dialed)
  handle_event t p (received none dialed) = (p, some (ok tt))
  handle_event t p (received (some request) dialed) = (
    record p { pending = p.pending ++ request ∷ [] },
    if has_enough_connected_peers_for_publish t.handled p.bootstrap_completed
        then none
        else unless_failed dialed,
  )
  handle_event t p (swarm_event e) = (handle_swarm_event t.handled t.restart p e, none)

  -- From `expire_active_publish` to `maybe_start_publish`.
  unfoldable pub begin_turn : Swarm → Publisher → Publisher
  begin_turn s p =
      let kept = expire_active_publish p.active s.now in
      maybe_start_publish s (record p { active = kept.0; finished = p.finished ++ kept.1 })

  unfoldable pub turn : Publisher → Turn → Publisher × Ended
  turn p t = if t.shutdown then (p, some (ok tt)) else handle_event t (begin_turn t.start p) t.event

  unfoldable pub run : Publisher → List Turn → Publisher × Ended
  run p [] = (p, none)
  run p (t ∷ rest) =
      let after = turn p t in elim after.1 [ some end ↦ after | none ↦ run after.0 rest ]
