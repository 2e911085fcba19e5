-- ===== src/Examples/Ipns.antt =====
-- A publisher whose records are their values (crates/railgun-indexer-core/src/publish/ipns.rs).
use railgun_indexer.Prelude.{
  ℕ, ◌+◌, ◌*◌, ◌≤◌, ◌<◌, ◌≡◌, refl, ◌==◌, List, [], ◌∷◌, ◌++◌, none, some, Bool, false,
  if◌then◌else◌, ok, err, arith, Text, codes, is_empty, trim, trim_start, trim_end, strip_prefix,
  is_whitespace, All, ◌⊎◌,
}
use railgun_indexer.Codec.{Bytes}
use railgun_indexer.Ipns.{IpnsLib, IpnsPublisherConfig, PublishRequest, SignedIpnsRecord}
use railgun_indexer.Ipns.Record.{
  build_signed_record, manifest_ipfs_path, decode_manifest_cid, duration_nanos, ipns_name,
  ipns_record_key_bytes,
}
use railgun_indexer.Ipns.Record.Paths.{IsLawful, build_signed_record-decode}
use railgun_indexer.Ipns.Queue.{
  second, next_retry_at, retry_delay, is_expired, next_publish_wake, wake_of_pending,
  earliest_instant,
}
use railgun_indexer.Ipns.Queue.Wake.{WakesInTime, next_publish_wake-WakesInTime}
use railgun_indexer.Ipns.Retry.{next_retry_at_bounds}
use railgun_indexer.Ipns.Actor.{
  Swarm, put_record_progressed, RunEvent, woke, received, swarm_event, Turn, Publisher,
  new_publisher, begin_turn, run,
}
use railgun_indexer.Ipns.Actor.Conserves.{holds, run_brought, run-Conserves}
use railgun_indexer.Ipns.Actor.Cancels.{IsAccounted}
use railgun_indexer.Ipns.Actor.Answers.{IsFair, run-IsFair}
use railgun_indexer.Ipns.Actor.Fresh.{IsFresh, begin_turn-IsFresh}

abbrev lib : IpnsLib
lib = record {
  Cid = Text;
  Record = Text;
  cid_try_from = λ t. if is_empty t then err 0 else ok t;
  libp2p_key_string = ok;
  from_std = ok;
  new_record = λ peer_id value lifetime sequence ttl. ok value;
  verify = λ r peer_id. ok tt;
  encode = ok;
  decode = ok;
  value_of = ok;
  from_utf8 = ok;
}

lib-IsLawful : IsLawful lib
lib-IsLawful = record {
  decoded = λ r bytes h. ground arith;
  valued = λ peer_id value lifetime sequence ttl r h. (r, refl, ground arith);
}

abbrev config : IpnsPublisherConfig
config = record {
  record_lifetime = 100 * second;
  record_ttl = second;
  publish_timeout = 60 * second;
}

abbrev peer : Bytes
peer = 7 ∷ []

-- The CID 88 between spaces, behind the prefix.
abbrev manifest : Text
manifest = 32 ∷ codes "/ipfs/X "

abbrev signed : SignedIpnsRecord
signed = record {
  peer_id = peer;
  ipns_name = peer;
  record_key = codes "/ipns/" ++ peer;
  value = codes "/ipfs/X";
  sequence = 5;
  bytes = codes "/ipfs/X";
}

path : manifest_ipfs_path lib manifest ≡ ok (codes "/ipfs/X")
unfolding manifest_ipfs_path trim trim_start trim_end strip_prefix is_whitespace
path = refl

signs : build_signed_record lib peer manifest (100 * second) second 5 ≡ ok signed
unfolding build_signed_record manifest_ipfs_path duration_nanos ipns_name ipns_record_key_bytes
    strip_prefix trim trim_end trim_start is_whitespace
signs = refl

build_signed_record-decode_example :
    (decode_manifest_cid lib (codes "/ipfs/X") peer ≡ ok (codes "X"))
    × (codes "/ipfs/X" ≡ codes "/ipfs/" ++ codes "X")
unfolding strip_prefix trim trim_end trim_start is_whitespace
build_signed_record-decode_example =
    build_signed_record-decode lib peer manifest (100 * second) second 5 signed lib-IsLawful signs

-- A request with a deadline of so many seconds.
abbrev request : ℕ → ℕ → PublishRequest
request response deadline = record {
  manifest_cid = manifest;
  sequence = 5;
  timeout = 60 * second;
  deadline = deadline * second;
  not_before = 0;
  attempts_started = 0;
  response = response;
  canonicality_lease = none;
}

-- The caller 3 goes away.
abbrev closed : ℕ → Bool
closed response = response == 3

-- A second before its deadline, and not later, a request is tried again.
retries :
    (next_retry_at closed (request 1 60) (10 * second) ≡ some (12 * second))
    × ((next_retry_at closed (request 1 60) (58 * second) ≡ some (59 * second))
        × (next_retry_at closed (request 1 60) (59 * second) ≡ none))
unfolding next_retry_at is_expired retry_delay
retries = (refl, (refl, refl))

next_retry_at_bounds_example :
    ((closed 1 ≡ false) × (10 * second + second < 60 * second)
      → (t : ℕ) × (next_retry_at closed (request 1 60) (10 * second) ≡ some t)
        × (10 * second < t)
        × (t ≤ 10 * second + 10 * second)
        × (t + second ≤ 60 * second)
        × ((10 * second + 2 * second ≤ t) ⊎ (t + second ≡ 60 * second)))
    × ((t : ℕ) × (next_retry_at closed (request 1 60) (10 * second) ≡ some t)
        → (closed 1 ≡ false) × (10 * second + second < 60 * second))
next_retry_at_bounds_example = next_retry_at_bounds closed (request 1 60) (10 * second)

wakes :
    next_publish_wake closed (request 1 60 ∷ request 2 40 ∷ request 3 20 ∷ []) none 0
    ≡ some (40 * second)
unfolding next_publish_wake wake_of_pending earliest_instant
wakes = refl

next_publish_wake-WakesInTime_example :
    WakesInTime closed
      (request 1 60 ∷ request 2 40 ∷ request 3 20 ∷ [])
      none
      0
      (next_publish_wake closed (request 1 60 ∷ request 2 40 ∷ request 3 20 ∷ []) none 0)
next_publish_wake-WakesInTime_example =
    next_publish_wake-WakesInTime closed (request 1 60 ∷ request 2 40 ∷ request 3 20 ∷ []) none 0

abbrev swarm : ℕ → Swarm
swarm now = record { now = now * second; num_peers = 9; put_record = λ r. ok now; closed = closed }

abbrev turn_at : ℕ → RunEvent → Turn
turn_at now event = record {
  shutdown = false;
  start = swarm now;
  event = event;
  handled = swarm now;
  restart = swarm now;
}

-- Three requests come in; the first attempt fails, the second one succeeds, and then the second request
-- is under way. The third caller is gone.
abbrev turns : List Turn
turns =
    turn_at 0 (received (some (request 1 60)) (ok tt))
    ∷ turn_at 1 (received (some (request 2 60)) (ok tt))
    ∷ turn_at 2 (received (some (request 3 60)) (ok tt))
    ∷ turn_at 3 (swarm_event (put_record_progressed 1 (err 4)))
    ∷ turn_at 6 woke
    ∷ turn_at 7 (swarm_event (put_record_progressed 6 (ok tt)))
    ∷ []

abbrev end : Publisher
end = (run lib peer config new_publisher turns).0

run-Conserves_example :
    (holds 1 end ≡ holds 1 new_publisher + run_brought lib peer config 1 new_publisher turns)
    × All (IsAccounted [] turns) end.finished
run-Conserves_example = run-Conserves lib peer config 1 new_publisher turns

run-IsFair_example : All (IsFair lib peer config) end.finished
run-IsFair_example = run-IsFair lib peer config turns

begin_turn-IsFresh_example : IsFresh (swarm 60) (
    begin_turn lib peer config
      (swarm 60)
      (record new_publisher { pending = request 1 70 ∷ request 2 60 ∷ request 3 70 ∷ [] }))
begin_turn-IsFresh_example =
    begin_turn-IsFresh lib peer config (swarm 60)
      (record new_publisher { pending = request 1 70 ∷ request 2 60 ∷ request 3 70 ∷ [] })
