-- ===== src/Ipns/Queue/Wake.antt =====
-- When the publisher's task wakes (crates/railgun-indexer-core/src/publish/ipns.rs).
use railgun_indexer.Prelude.{
  ℕ, ◌≤◌, ◌<◌, ◌≡◌, refl, min, Option, some, none, arith, true, false, Bool, not, ◌&&◌, Bool-cases,
  inl, inr, ltb, List, [], ◌∷◌, if◌then◌else◌, All, All-map,
}
use railgun_indexer.Ipns.{PublishRequest, ActivePublish}
use railgun_indexer.Ipns.Queue.{
  earliest_instant, wake_of_pending, next_publish_wake, front_wake, active_wake,
}

earliest-le : (wake : Option ℕ) (t : ℕ) → earliest_instant wake t ≤ t
unfolding earliest_instant
earliest-le none t = omega arith
earliest-le (some w) t = omega arith

earliest-le_of_some :
    (wake : Option ℕ) (t w n : ℕ) → wake ≡ some w → w ≤ n → earliest_instant wake t ≤ n
unfolding earliest_instant
earliest-le_of_some none t w n e h = absurd (ground arith)
earliest-le_of_some (some v) t w n e h = ground arith

module _ (closed : ℕ → Bool) where
  -- The wake-up time is there, and not later than a time.
  abbrev pub Before : Option ℕ → ℕ → Type 0
  Before wake t = (w : ℕ) × (wake ≡ some w) × (w ≤ t)

  -- It does not come after the deadline of a waiting request.
  abbrev pub InTime : Option ℕ → PublishRequest → Type 0
  InTime wake r = closed r.response ≡ false → Before wake r.deadline

  wake_of_pending-Before :
      (pending : List PublishRequest) (wake : Option ℕ) (t : ℕ)
      → Before wake t
      → Before (wake_of_pending closed wake pending) t
  unfolding wake_of_pending earliest_instant
  wake_of_pending-Before [] wake t h = h
  wake_of_pending-Before (r ∷ rest) wake t (w, e, small) = elim (Bool-cases (closed r.response)) [
    | inl gone ↦ rw gone (wake_of_pending-Before rest wake t (w, e, small))
    | inr waits ↦
        rw (waits, e) (wake_of_pending-Before rest _ t (min w r.deadline, refl, omega arith))
  ]

  wake_of_pending-InTime :
      (pending : List PublishRequest) (wake : Option ℕ)
      → All (InTime (wake_of_pending closed wake pending)) pending
  unfolding wake_of_pending
  wake_of_pending-InTime [] wake = tt
  wake_of_pending-InTime (r ∷ rest) wake =
      let wake' : Option ℕ =
        (if closed r.response then wake else some (earliest_instant wake r.deadline)) in
      (
        λ waits.
            wake_of_pending-Before rest wake' r.deadline
              (earliest_instant wake r.deadline, rw waits refl, earliest-le wake r.deadline),
        wake_of_pending-InTime rest wake',
      )

  front_wake-Before :
      (wake : Option ℕ) (pending : List PublishRequest) (now t : ℕ)
      → Before wake t
      → Before (front_wake closed wake pending now) t
  front_wake-Before wake [] now t h = h
  front_wake-Before wake (r ∷ rest) now t (w, e, small) =
      elim (Bool-cases (not (closed r.response) && ltb now r.not_before)) [
        | inl ahead ↦ rw ahead (
          earliest_instant wake r.not_before,
          refl,
          earliest-le_of_some wake r.not_before w t e small,
        )
        | inr no_front ↦ rw no_front (w, e, small)
      ]

  -- The publisher wakes by the time at which something is to be done.
  pub record WakesInTime (pending : List PublishRequest) (active : Option ActivePublish) (now : ℕ)
      (wake : Option ℕ) : Type 0 where
    pub queue : All (InTime wake) pending
    pub publish :
        (a : ActivePublish)
        → active ≡ some a
        → a.request.canonicality_lease ≡ none
        → Before wake a.request.deadline
    pub front :
        (r : PublishRequest) (rest : List PublishRequest)
        → pending ≡ r ∷ rest
        → closed r.response ≡ false
        → now < r.not_before
        → Before wake r.not_before

  front_of :
      (wake : Option ℕ) (r : PublishRequest) (rest : List PublishRequest) (now : ℕ)
      → closed r.response ≡ false
      → now < r.not_before
      → Before (front_wake closed wake (r ∷ rest) now) r.not_before
  front_of wake r rest now waits ahead =
      let test : (not (closed r.response) && ltb now r.not_before) ≡ true = ground arith in
      rw test (earliest_instant wake r.not_before, refl, earliest-le wake r.not_before)

  active_wake-Before :
      (active : Option ActivePublish) (a : ActivePublish)
      → active ≡ some a
      → a.request.canonicality_lease ≡ none
      → Before (active_wake active) a.request.deadline
  active_wake-Before none a e h = absurd (ground arith)
  active_wake-Before (some b) a e h = (a.request.deadline, ground arith, omega arith)

  -- The wake-up time is there and in time: not after the deadline of any pending request whose caller
  -- waits, nor after that of the active one if it has no lease, nor after the time from which the front
  -- request may be started.
  pub next_publish_wake-WakesInTime :
      (pending : List PublishRequest) (active : Option ActivePublish) (now : ℕ)
      → WakesInTime pending active now (next_publish_wake closed pending active now)
  unfolding next_publish_wake
  next_publish_wake-WakesInTime pending active now =
      let wake = wake_of_pending closed (active_wake active) pending in
      record {
        queue =
            All-map (λ r h waits. front_wake-Before wake pending now r.deadline (h waits)) pending
              (wake_of_pending-InTime pending (active_wake active));
        publish = λ a e h. front_wake-Before wake pending now a.request.deadline (
            wake_of_pending-Before pending (active_wake active) a.request.deadline
              (active_wake-Before active a e h));
        front = λ r rest e waits ahead. rw e (front_of _ r rest now waits ahead);
      }
