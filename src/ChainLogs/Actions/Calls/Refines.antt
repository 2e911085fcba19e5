-- ===== src/ChainLogs/Actions/Calls/Refines.antt =====
-- The stack of open calls and the recursion over calls
-- (crates/railgun-indexer-core/src/chain_logs.rs).
use mathlib.Core.List.{append_assoc, append-nil}
use railgun_indexer.Prelude.{
  ℕ, ◌+◌, ◌≡◌, refl, sym, ap, ◌∙◌, List, [], ◌∷◌, ◌++◌, length, none, some, true, false, ok, ◌>>=◌,
  arith, All, bind_assoc, bind-ext, inl, inr,
}
use railgun_indexer.ChainLogs.{ChainLib, TransactOutputSummary}
use railgun_indexer.ChainLogs.Actions.{
  Unshield, ActionLogEvent, action, unshield, transact, ActionFrame, count_unshields, handle_logs,
  all_complete, decoded_transactions_from_action_logs,
}
use railgun_indexer.ChainLogs.Actions.Calls.{
  Call, call, shield_action, Steps, done, unshielded, nested, unshields_of, closes_after, emit_call,
  emit_steps, emit_calls, IsCall, IsSteps, Transactions, frame_of, completed_call, read_call,
  read_steps, read_calls,
}
use railgun_indexer.ChainLogs.Actions.Calls.Logs.{
  state, Waits, waits_lem, log_complete, log_keep, nullified_lem, with_unshields, Awaits,
  length-snoc, awaits-positive, unshield_lem, last_lem, closes-positive, closes-cases,
  handle_action_lem, transact_lem, join_lem, shield_lem, call_done,
}

module _ (lib : ChainLib) (summary : TransactOutputSummary) where
  mutual
    unfolding emit_call emit_steps read_call read_steps IsCall IsSteps

    call_lem :
        (c : Call lib) (fs : List (ActionFrame lib)) (next : ℕ) (known : Transactions lib)
        (after : List (ℕ × ActionLogEvent lib))
        → IsCall lib c
        → Waits lib summary fs
        → handle_logs lib summary (state lib summary [] fs next known) (emit_call lib c after) ≡ (
            read_call lib summary c next known >>= λ r.
            handle_logs lib summary (state lib summary [] fs r.0 r.1) after)
    call_lem (call ns i configs steps (some (j, hashes))) fs next known after
          (counts, (some_configs, (unshields, (ends, inner)))) waits =
        let f = frame_of lib next i configs ns [] in
        nullified_lem lib summary [] ns fs next known _ waits
        ∙ log_keep lib summary (ok tt)
            (λ _. state lib summary [] (f ∷ fs) (next + length configs) known) _ i (action configs)
            _ (handle_action_lem lib summary ns fs next known i configs counts some_configs)
            (λ _.
              waits_lem lib summary [] (f ∷ fs) (next + length configs) known
                (ground (arith, ends)))
        ∙ steps_open f fs [] (next + length configs) known steps _ ends (omega (arith, unshields))
            inner
        ∙ bind-ext (read_steps lib summary steps (next + length configs) known) _ _ (λ r.
          log_keep lib summary
            (completed_call lib summary (frame_of lib next i configs ns (unshields_of lib steps))
              (some (j, hashes)))
            (λ own. state lib summary [] fs r.0 (r.1 ++ own ∷ [])) _ j (transact hashes) after
            (transact_lem lib summary (frame_of lib next i configs ns (unshields_of lib steps)) fs
              r.0 r.1 j hashes ends)
            (λ own. waits_lem lib summary [] fs r.0 (r.1 ++ own ∷ []) waits))
        ∙ join_lem lib summary (read_steps lib summary steps (next + length configs) known) _ _
    call_lem (call ns i configs steps none) fs next known after
          (counts, (some_configs, (unshields, ((ends, closes), inner)))) waits =
        let f = frame_of lib next i configs ns [] in
        nullified_lem lib summary [] ns fs next known _ waits
        ∙ elim (closes-cases lib summary steps closes) [
          | inl e ↦
              let start : ℕ × Transactions lib = (next + length configs, known) in
              rw e (
                call_done lib summary ns i configs fs next known after counts some_configs ends
                  (rw e at unshields)
                ∙ join_lem lib summary (ok start) (completed_call lib summary f none) _)
          | inr goes ↦
              log_keep lib summary (ok tt)
                (λ _. state lib summary [] (f ∷ fs) (next + length configs) known) _ i
                (action configs) _
                (handle_action_lem lib summary ns fs next known i configs counts some_configs)
                (λ _. waits_lem lib summary [] (f ∷ fs) (next + length configs) known (
                  ground (
                    arith,
                    awaits-positive lib summary f [] (length (unshields_of lib steps))
                        (omega (arith, unshields)) (closes-positive lib summary steps goes),
                  )))
              ∙ steps_closing f fs [] (next + length configs) known steps after ends
                  (omega (arith, unshields)) goes inner
              ∙ join_lem lib summary (read_steps lib summary steps (next + length configs) known) _
                  _
        ]
    call_lem (shield_action i) fs next known after h waits =
        log_keep lib summary (ok tt) (λ _. state lib summary [] fs next known) _ i (action []) after
          (shield_lem lib summary fs next known i)
          (λ _. waits_lem lib summary [] fs next known waits)

    steps_open :
        (f : ActionFrame lib) (fs : List (ActionFrame lib)) (us : List (Unshield lib)) (next : ℕ)
        (known : Transactions lib) (steps : Steps lib) (after : List (ℕ × ActionLogEvent lib))
        → f.expects_transact ≡ true
        → Awaits lib summary f us steps
        → IsSteps lib steps
        → handle_logs lib summary
            (state lib summary [] (with_unshields lib summary f us ∷ fs) next known)
            (emit_steps lib steps after)
          ≡ (read_steps lib summary steps next known >>= λ r.
              handle_logs lib summary
                (state lib summary []
                  (with_unshields lib summary f (us ++ unshields_of lib steps) ∷ fs)
                  r.0
                  r.1)
                after)
    steps_open f fs us next known done after expects awaits inner = rw append-nil refl
    steps_open f fs us next known (unshielded i u rest) after expects awaits inner =
        log_keep lib summary (ok tt)
          (λ _. state lib summary [] (with_unshields lib summary f (us ++ u ∷ []) ∷ fs) next known)
          _ i (unshield u) _
          (unshield_lem lib summary f fs us next known i u (
            awaits-positive lib summary f us (length (unshields_of lib (unshielded i u rest)))
              awaits (omega arith)))
          (λ _.
            waits_lem lib summary [] (with_unshields lib summary f (us ++ u ∷ []) ∷ fs) next known
              (ground arith))
        ∙ steps_open f fs (us ++ u ∷ []) next known rest after expects
            (omega (arith, awaits, length-snoc lib summary us u)) inner
        ∙ rw append_assoc refl
    steps_open f fs us next known (nested c rest) after expects awaits inner =
        call_lem c (with_unshields lib summary f us ∷ fs) next known (emit_steps lib rest after)
          inner.0 (ground arith)
        ∙ bind-ext (read_call lib summary c next known) _ _
            (λ r. steps_open f fs us r.0 r.1 rest after expects awaits inner.1)
        ∙ sym (
            bind_assoc (read_call lib summary c next known)
              (λ r. read_steps lib summary rest r.0 r.1) _)

    steps_closing :
        (f : ActionFrame lib) (fs : List (ActionFrame lib)) (us : List (Unshield lib)) (next : ℕ)
        (known : Transactions lib) (steps : Steps lib) (after : List (ℕ × ActionLogEvent lib))
        → f.expects_transact ≡ false
        → Awaits lib summary f us steps
        → closes_after lib false steps ≡ true
        → IsSteps lib steps
        → handle_logs lib summary
            (state lib summary [] (with_unshields lib summary f us ∷ fs) next known)
            (emit_steps lib steps after)
          ≡ (read_steps lib summary steps next known >>= λ r.
              completed_call lib summary
                (with_unshields lib summary f (us ++ unshields_of lib steps))
                none
              >>= λ own.
                  handle_logs lib summary (state lib summary [] fs r.0 (r.1 ++ own ∷ [])) after)
    steps_closing f fs us next known done after closing awaits closes inner = absurd (ground arith)
    steps_closing f fs us next known (unshielded i u rest) after closing awaits closes inner =
        let more =
          awaits-positive lib summary f us (length (unshields_of lib (unshielded i u rest))) awaits
            (omega arith) in
        let awaits_rest : Awaits lib summary f (us ++ u ∷ []) rest =
          omega (arith, awaits, length-snoc lib summary us u) in
        elim (closes-cases lib summary rest closes) [
          | inl e ↦
              let all : count_unshields f.configs ≡ length (us ++ u ∷ []) =
                ground (arith, awaits_rest, e) in
              rw e (
                log_complete lib summary
                  (completed_call lib summary (with_unshields lib summary f (us ++ u ∷ [])) none)
                  (λ own. state lib summary [] fs next (known ++ own ∷ [])) _ _ i (unshield u) after
                  (unshield_lem lib summary f fs us next known i u more)
                  (last_lem lib summary f fs (us ++ u ∷ []) next known closing all))
          | inr goes ↦
              log_keep lib summary (ok tt)
                (λ _.
                  state lib summary [] (with_unshields lib summary f (us ++ u ∷ []) ∷ fs) next
                    known)
                _ i (unshield u) _ (unshield_lem lib summary f fs us next known i u more)
                (λ _.
                  waits_lem lib summary [] (with_unshields lib summary f (us ++ u ∷ []) ∷ fs) next
                    known
                    (ground (
                      arith,
                      awaits-positive lib summary f (us ++ u ∷ []) (length (unshields_of lib rest))
                          awaits_rest (closes-positive lib summary rest goes),
                    )))
              ∙ steps_closing f fs (us ++ u ∷ []) next known rest after closing awaits_rest goes
                  inner
              ∙ rw append_assoc refl
        ]
    steps_closing f fs us next known (nested c rest) after closing awaits closes inner =
        call_lem c (with_unshields lib summary f us ∷ fs) next known (emit_steps lib rest after)
          inner.0
          (ground (
            arith,
            awaits-positive lib summary f us (length (unshields_of lib rest)) awaits
                (closes-positive lib summary rest closes),
          ))
        ∙ bind-ext (read_call lib summary c next known) _ _
            (λ r. steps_closing f fs us r.0 r.1 rest after closing awaits closes inner.1)
        ∙ sym (
            bind_assoc (read_call lib summary c next known)
              (λ r. read_steps lib summary rest r.0 r.1) _)

  calls_lem :
      (cs : List (Call lib)) (next : ℕ) (known : Transactions lib)
      → All (IsCall lib) cs
      → (handle_logs lib summary (state lib summary [] [] next known) (emit_calls lib cs)
          >>= all_complete lib summary)
        ≡ read_calls lib summary cs next known
  unfolding handle_logs all_complete
  calls_lem [] next known h = refl
  calls_lem (c ∷ rest) next known h =
      ap (λ m. m >>= all_complete lib summary)
        (call_lem c [] next known (emit_calls lib rest) h.0 tt)
      ∙ bind_assoc (read_call lib summary c next known) _ _
      ∙ bind-ext (read_call lib summary c next known) _ _ (λ r. calls_lem rest r.0 r.1 h.1)

  -- The logs of any sequence of calls, nested in whatever way, are read as the recursion over the calls
  -- reads them: the transactions of each call are those of its configurations, its own unshields and its
  -- own Transact, behind those of the calls nested in it and numbered in the order of the Action logs;
  -- if those of a call cannot be made, the error is the same. The calls must have as many Nullified logs
  -- and unshields as their Action says, and one without commitments must end with its last unshield.
  pub decoded-Reads :
      (cs : List (Call lib))
      → All (IsCall lib) cs
      → decoded_transactions_from_action_logs lib summary (emit_calls lib cs)
        ≡ read_calls lib summary cs 0 []
  unfolding decoded_transactions_from_action_logs
  decoded-Reads cs h = calls_lem cs 0 [] h
