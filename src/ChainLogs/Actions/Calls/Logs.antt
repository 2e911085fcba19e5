-- ===== src/ChainLogs/Actions/Calls/Logs.antt =====
-- The logs of a Railgun call, one at a time
-- (crates/railgun-indexer-core/src/chain_logs.rs).
use mathlib.Core.List.{append_assoc, append-nil}
use railgun_indexer.Prelude.{
  ℕ, ◌+◌, ◌-◌, ◌<◌, ltb, ◌||◌, ◌≡◌, refl, ◌∙◌, List, [], ◌∷◌, ◌++◌, length, Option, none, some,
  true, false, ok, err, ◌>>=◌, is_empty, arith, Result-cases, inl, inr, ◌⊎◌,
}
use railgun_indexer.Codec.{Bytes}
use railgun_indexer.ChainLogs.{ChainLib, TransactOutputSummary, DecodedRailgunTransaction, Ingested}
use railgun_indexer.ChainLogs.Actions.{
  TxConfig, Unshield, ActionLogEvent, nullified, action, unshield, transact, ActionFrame,
  count_unshields, any_commitments, counts_match, pending_unshields, transactions_from_action_frame,
  ActionState, handle_action, handle_unshield, handle_transact, complete_call, handle_log,
  handle_logs,
}
use railgun_indexer.ChainLogs.Actions.Calls.{
  Steps, done, unshielded, nested, unshields_of, closes_after, emit_nullified, Transactions,
  frame_of, completed_call,
}

module _ (lib : ChainLib) (summary : TransactOutputSummary) where
  abbrev pub state :
      List (ℕ × (ℕ × List Bytes))
      → List (ActionFrame lib)
      → ℕ
      → Transactions lib
      → ActionState lib summary
  state pending frames next known = record {
    pending_nullified = pending;
    frames = frames;
    next_record_index = next;
    decoded = known;
  }

  -- The innermost call is not complete without a further log.
  abbrev pub Waits : List (ActionFrame lib) → Type 0
  Waits [] = Unit {0}
  Waits (f ∷ fs) = (f.expects_transact || ltb 0 (pending_unshields lib f)) ≡ true

  pub waits_lem :
      (pending : List (ℕ × (ℕ × List Bytes))) (frames : List (ActionFrame lib)) (next : ℕ)
      (known : Transactions lib)
      → Waits frames
      → complete_call lib summary (state pending frames next known)
        ≡ ok (state pending frames next known)
  unfolding complete_call
  waits_lem pending [] next known h = refl
  waits_lem pending (f ∷ fs) next known h = rw h refl

  -- A log that completes a call, or opens none.
  pub log_complete :
      {A : Type 0} (m : Ingested A) (u : A → ActionState lib summary)
      (s t : ActionState lib summary) (i : ℕ) (e : ActionLogEvent lib)
      (after : List (ℕ × ActionLogEvent lib))
      → handle_log lib summary s i e ≡ ok t
      → complete_call lib summary t ≡ (m >>= λ a. ok (u a))
      → handle_logs lib summary s ((i, e) ∷ after)
        ≡ (m >>= λ a. handle_logs lib summary (u a) after)
  unfolding handle_logs
  log_complete (ok a) u s t i e after h k = rw (h, k) refl
  log_complete (err error) u s t i e after h k = rw (h, k) refl

  -- A log behind which no call completes by itself.
  pub log_keep :
      {A : Type 0} (m : Ingested A) (u : A → ActionState lib summary) (s : ActionState lib summary)
      (i : ℕ) (e : ActionLogEvent lib) (after : List (ℕ × ActionLogEvent lib))
      → handle_log lib summary s i e ≡ (m >>= λ a. ok (u a))
      → ((a : A) → complete_call lib summary (u a) ≡ ok (u a))
      → handle_logs lib summary s ((i, e) ∷ after)
        ≡ (m >>= λ a. handle_logs lib summary (u a) after)
  unfolding handle_logs
  log_keep (ok a) u s i e after h k = rw (h, k a) refl
  log_keep (err error) u s i e after h k = rw h refl

  pub nullified_lem :
      (pending ns : List (ℕ × (ℕ × List Bytes))) (frames : List (ActionFrame lib)) (next : ℕ)
      (known : Transactions lib) (after : List (ℕ × ActionLogEvent lib))
      → Waits frames
      → handle_logs lib summary (state pending frames next known) (emit_nullified lib ns after)
        ≡ handle_logs lib summary (state (pending ++ ns) frames next known) after
  unfolding handle_log
  nullified_lem pending [] frames next known after h = rw append-nil refl
  nullified_lem pending (n ∷ ns) frames next known after h =
      log_keep (ok tt) (λ _. state (pending ++ n ∷ []) frames next known) _ n.0
        (nullified n.1.0 n.1.1) _ refl (λ _. waits_lem (pending ++ n ∷ []) frames next known h)
      ∙ nullified_lem (pending ++ n ∷ []) ns frames next known after h
      ∙ rw append_assoc refl

  abbrev pub with_unshields : ActionFrame lib → List (Unshield lib) → ActionFrame lib
  with_unshields f us = record f { unshields = us }

  -- So many unshields are still to come.
  abbrev pub Awaits : ActionFrame lib → List (Unshield lib) → Steps lib → Type 0
  Awaits f us steps = count_unshields f.configs ≡ length us + length (unshields_of lib steps)

  pub length-snoc :
      (us : List (Unshield lib)) (u : Unshield lib) → length (us ++ u ∷ []) ≡ length us + 1
  length-snoc [] u = omega arith
  length-snoc (v ∷ us) u = omega (arith, length-snoc us u)

  pub awaits-positive :
      (f : ActionFrame lib) (us : List (Unshield lib)) (n : ℕ)
      → count_unshields f.configs ≡ length us + n
      → 0 < n
      → ltb 0 (pending_unshields lib (with_unshields f us)) ≡ true
  unfolding pending_unshields
  awaits-positive f us n h positive = ground arith

  pub unshield_lem :
      (f : ActionFrame lib) (fs : List (ActionFrame lib)) (us : List (Unshield lib)) (next : ℕ)
      (known : Transactions lib) (i : ℕ) (u : Unshield lib)
      → ltb 0 (pending_unshields lib (with_unshields f us)) ≡ true
      → handle_log lib summary (state [] (with_unshields f us ∷ fs) next known) i (unshield u)
        ≡ ok (state [] (with_unshields f (us ++ u ∷ []) ∷ fs) next known)
  unfolding handle_log handle_unshield
  unshield_lem f fs us next known i u h = rw h refl

  pub last_lem :
      (f : ActionFrame lib) (fs : List (ActionFrame lib)) (us : List (Unshield lib)) (next : ℕ)
      (known : Transactions lib)
      → f.expects_transact ≡ false
      → count_unshields f.configs ≡ length us
      → complete_call lib summary (state [] (with_unshields f us ∷ fs) next known) ≡ (
          completed_call lib summary (with_unshields f us) none >>= λ own.
          ok (state [] fs next (known ++ own ∷ [])))
  unfolding complete_call pending_unshields
  last_lem f fs us next known closing h =
      let no_more : ltb 0 (count_unshields f.configs - length us) ≡ false = ground arith in
      elim (Result-cases
        (transactions_from_action_frame lib summary (with_unshields f us) [] f.log_index)) [
          | inl (_, e) ↦ rw (e, closing, no_more) refl
          | inr (_, e) ↦ rw (e, closing, no_more) refl
        ]

  pub closes-positive :
      (steps : Steps lib)
      → closes_after lib false steps ≡ true
      → 0 < length (unshields_of lib steps)
  closes-positive done h = absurd (ground arith)
  closes-positive (unshielded i u rest) h = omega arith
  closes-positive (nested c rest) h = closes-positive rest h

  -- Steps that end with an unshield are over, or go on to one.
  pub closes-cases :
      (steps : Steps lib)
      → closes_after lib true steps ≡ true
      → (steps ≡ done) ⊎ (closes_after lib false steps ≡ true)
  closes-cases done h = inl refl
  closes-cases (unshielded i u rest) h = inr h
  closes-cases (nested c rest) h = inr h

  pub handle_action_lem :
      (ns : List (ℕ × (ℕ × List Bytes))) (fs : List (ActionFrame lib)) (next : ℕ)
      (known : Transactions lib) (i : ℕ) (configs : List TxConfig)
      → counts_match ns configs ≡ true
      → is_empty configs ≡ false
      → handle_log lib summary (state ns fs next known) i (action configs)
        ≡ ok (state [] (frame_of lib next i configs ns [] ∷ fs) (next + length configs) known)
  unfolding handle_log handle_action
  handle_action_lem ns fs next known i configs h k = rw (h, k) refl

  pub transact_lem :
      (f : ActionFrame lib) (fs : List (ActionFrame lib)) (next : ℕ) (known : Transactions lib)
      (i : ℕ) (hashes : List Bytes)
      → f.expects_transact ≡ true
      → handle_log lib summary (state [] (f ∷ fs) next known) i (transact hashes) ≡ (
          completed_call lib summary f (some (i, hashes)) >>= λ own.
          ok (state [] fs next (known ++ own ∷ [])))
  unfolding handle_log handle_transact
  transact_lem f fs next known i hashes h =
      elim (Result-cases (transactions_from_action_frame lib summary f hashes i)) [
        | inl (_, e) ↦ rw (e, h) refl
        | inr (_, e) ↦ rw (e, h) refl
      ]

  pub join_lem :
      {X : Type 0} (m : Ingested (ℕ × Transactions lib))
      (c : Ingested (Option ℕ × List (ℕ × DecodedRailgunTransaction)))
      (k : ℕ × Transactions lib → Ingested X)
      → (m >>= λ r. c >>= λ own. k (r.0, r.1 ++ own ∷ []))
        ≡ ((m >>= λ r. c >>= λ own. ok (r.0, r.1 ++ own ∷ [])) >>= k)
  join_lem (ok r) (ok own) k = refl
  join_lem (ok r) (err e) k = refl
  join_lem (err e) c k = refl

  pub shield_lem :
      (fs : List (ActionFrame lib)) (next : ℕ) (known : Transactions lib) (i : ℕ)
      → handle_log lib summary (state [] fs next known) i (action []) ≡ ok (state [] fs next known)
  unfolding handle_log handle_action counts_match
  shield_lem fs next known i = refl

  -- A call with neither commitments nor unshields is complete with its Action.
  pub call_done :
      (ns : List (ℕ × (ℕ × List Bytes))) (i : ℕ) (configs : List TxConfig)
      (fs : List (ActionFrame lib)) (next : ℕ) (known : Transactions lib)
      (after : List (ℕ × ActionLogEvent lib))
      → counts_match ns configs ≡ true
      → is_empty configs ≡ false
      → any_commitments configs ≡ false
      → count_unshields configs ≡ 0
      → handle_logs lib summary (state ns fs next known) ((i, action configs) ∷ after) ≡ (
          completed_call lib summary (frame_of lib next i configs ns []) none >>= λ own.
          handle_logs lib summary (state [] fs (next + length configs) (known ++ own ∷ [])) after)
  call_done ns i configs fs next known after counts some_configs ends unshields =
      let f = frame_of lib next i configs ns [] in
      log_complete (completed_call lib summary f none)
        (λ own. state [] fs (next + length configs) (known ++ own ∷ [])) _ _ i (action configs)
        after (handle_action_lem ns fs next known i configs counts some_configs)
        (last_lem f fs [] (next + length configs) known ends unshields)
