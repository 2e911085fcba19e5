-- ===== src/Ipns/Queue.antt =====
-- The queue of publish requests (crates/railgun-indexer-core/src/publish/ipns.rs). `closed` says which
-- callers have dropped their channel. What becomes of a request is a `Finished`.
pub mod Wake
use railgun_indexer.Prelude.{
  ℕ, ◌+◌, ◌-◌, ◌*◌, ◌^◌, min, ◌==◌, leb, ltb, not, ◌&&◌, ◌||◌, List, [], ◌∷◌, ◌++◌, get_or, Option,
  none, some, Bool, true, false, Result, ok, err, if◌then◌else◌,
}
use railgun_indexer.Ipns.{IpnsError, timeout, PublishRequest, IpnsPublication, ActivePublish}

-- A request is answered, or it is dropped since its caller is gone.
pub data Outcome : Type 0 where
  answered : Result IpnsError IpnsPublication → Outcome
  canceled : Outcome

pub record Finished : Type 0 where
  pub request : PublishRequest
  pub at : ℕ
  pub outcome : Outcome

abbrev pub second : ℕ
second = 10 ^ 9

abbrev pub ipns_publish_retry_delays : List ℕ
ipns_publish_retry_delays = 2 * second ∷ 5 * second ∷ 10 * second ∷ []

abbrev pub ipns_min_retry_remaining : ℕ
ipns_min_retry_remaining = second

unfoldable pub is_expired : PublishRequest → ℕ → Bool
is_expired r now = leb r.deadline now

abbrev pub is_none {ℓ} : {A : Type ℓ} → Option A → Bool
is_none none = true
is_none (some a) = false

unfoldable pub may_expire_while_active : PublishRequest → ℕ → Bool
unfolding is_expired
may_expire_while_active r now = is_none r.canonicality_lease && is_expired r now

-- `respond`, at a time
abbrev pub respond : PublishRequest → ℕ → Result IpnsError IpnsPublication → Finished
respond r now result = record { request = r; at = now; outcome = answered result }

unfoldable pub retry_delay : ℕ → ℕ
retry_delay attempts_started =
    get_or ipns_publish_retry_delays (min (attempts_started - 1) 2) (10 * second)

unfoldable pub earliest_instant : Option ℕ → ℕ → ℕ
earliest_instant none candidate = candidate
earliest_instant (some current) candidate = min current candidate

-- The active publish that stays, and what became of one that expired.
unfoldable pub expire_active_publish :
    Option ActivePublish → ℕ → Option ActivePublish × List Finished
unfolding may_expire_while_active
expire_active_publish none now = (none, [])
expire_active_publish (some publish) now =
    if may_expire_while_active publish.request now
    then (none, respond publish.request now (err (timeout publish.request.timeout)) ∷ [])
    else (some publish, [])

abbrev pub active_wake : Option ActivePublish → Option ℕ
active_wake none = none
active_wake (some publish) =
    if is_none publish.request.canonicality_lease then some publish.request.deadline else none

module _ (closed : ℕ → Bool) where
  unfoldable pub next_retry_at : PublishRequest → ℕ → Option ℕ
  unfolding is_expired
  next_retry_at r now =
      if closed r.response || is_expired r now
      then none
      else let remaining = r.deadline - now in
        if leb remaining ipns_min_retry_remaining
        then none
        else some
            (now + min (retry_delay r.attempts_started) (remaining - ipns_min_retry_remaining))

  -- The requests that are retained, and what became of the others.
  unfoldable pub discard_unpublishable_pending :
      List PublishRequest → ℕ → List PublishRequest × List Finished
  unfolding is_expired
  discard_unpublishable_pending [] now = ([], [])
  discard_unpublishable_pending (r ∷ rest) now =
      let later = discard_unpublishable_pending rest now in
      if closed r.response
      then (later.0, record { request = r; at = now; outcome = canceled } ∷ later.1)
      else if is_expired r now
      then (later.0, respond r now (err (timeout r.timeout)) ∷ later.1)
      else (r ∷ later.0, later.1)

  -- The deadlines of the pending requests whose callers wait.
  unfoldable pub wake_of_pending : Option ℕ → List PublishRequest → Option ℕ
  wake_of_pending wake [] = wake
  wake_of_pending wake (r ∷ rest) =
      wake_of_pending (if closed r.response then wake else some (earliest_instant wake r.deadline))
        rest

  abbrev pub front_wake : Option ℕ → List PublishRequest → ℕ → Option ℕ
  front_wake wake [] now = wake
  front_wake wake (r ∷ rest) now =
      if not (closed r.response) && ltb now r.not_before
      then some (earliest_instant wake r.not_before)
      else wake

  unfoldable pub next_publish_wake : List PublishRequest → Option ActivePublish → ℕ → Option ℕ
  next_publish_wake pending active now =
      front_wake (wake_of_pending (active_wake active) pending) pending now
