-- ===== src/ChainLogs/Actions/Calls.antt =====
-- What a tree of Railgun calls logs, and what is to be read from it
-- (crates/railgun-indexer-core/src/chain_logs.rs).
pub mod Logs
pub mod Refines
use railgun_indexer.Prelude.{
  ℕ, ◌+◌, ◌≡◌, List, [], ◌∷◌, ◌++◌, map, length, Option, none, some, Bool, true, false, Result, ok,
  err, ◌>>=◌, is_empty,
}
use railgun_indexer.Codec.{Bytes}
use railgun_indexer.ChainLogs.{ChainLib, TransactOutputSummary, DecodedRailgunTransaction, Ingested}
use railgun_indexer.ChainLogs.Actions.{
  TxConfig, Unshield, ActionLogEvent, nullified, action, unshield, transact, ActionFrame,
  count_unshields, any_commitments, counts_match, transactions_from_action_frame,
}

module _ (lib : ChainLib) where
  mutual
    -- `Nullified…, Action, (Unshield | nested call)*, Transact?`, each log with its index; or the action
    -- of a shield.
    pub data Call : Type 0 where
      call :
          List (ℕ × (ℕ × List Bytes)) → ℕ → List TxConfig → Steps → Option (ℕ × List Bytes) → Call
      shield_action : ℕ → Call

    pub data Steps : Type 0 where
      done : Steps
      unshielded : ℕ → Unshield lib → Steps → Steps
      nested : Call → Steps → Steps

  abbrev pub unshields_of : Steps → List (Unshield lib)
  unshields_of done = []
  unshields_of (unshielded i u rest) = u ∷ unshields_of rest
  unshields_of (nested c rest) = unshields_of rest

  -- Whether the last step is an unshield; the flag is the answer for no steps.
  abbrev pub closes_after : Bool → Steps → Bool
  closes_after b done = b
  closes_after b (unshielded i u rest) = closes_after true rest
  closes_after b (nested c rest) = closes_after false rest

  -- The logs, in front of others.
  abbrev pub emit_nullified :
      List (ℕ × (ℕ × List Bytes)) → List (ℕ × ActionLogEvent lib) → List (ℕ × ActionLogEvent lib)
  emit_nullified [] after = after
  emit_nullified ((i, (tree, nullifiers)) ∷ ns) after =
      (i, nullified tree nullifiers) ∷ emit_nullified ns after

  abbrev pub emit_transact :
      Option (ℕ × List Bytes) → List (ℕ × ActionLogEvent lib) → List (ℕ × ActionLogEvent lib)
  emit_transact none after = after
  emit_transact (some (i, hashes)) after = (i, transact hashes) ∷ after

  unfoldable mutual
    pub emit_call : Call → List (ℕ × ActionLogEvent lib) → List (ℕ × ActionLogEvent lib)
    emit_call (call ns i configs steps t) after =
        emit_nullified ns ((i, action configs) ∷ emit_steps steps (emit_transact t after))
    emit_call (shield_action i) after = (i, action []) ∷ after

    pub emit_steps : Steps → List (ℕ × ActionLogEvent lib) → List (ℕ × ActionLogEvent lib)
    emit_steps done after = after
    emit_steps (unshielded i u rest) after = (i, unshield u) ∷ emit_steps rest after
    emit_steps (nested c rest) after = emit_call c (emit_steps rest after)

  abbrev pub emit_calls : List Call → List (ℕ × ActionLogEvent lib)
  emit_calls [] = []
  emit_calls (c ∷ rest) = emit_call c (emit_calls rest)

  -- A call with commitments ends with a Transact; one without ends with its last unshield.
  abbrev pub Ends : List TxConfig → Steps → Option (ℕ × List Bytes) → Type 0
  Ends configs steps (some t) = any_commitments configs ≡ true
  Ends configs steps none = (any_commitments configs ≡ false) × (closes_after true steps ≡ true)

  unfoldable mutual
    pub IsCall : Call → Type 0
    IsCall (call ns i configs steps t) =
        (counts_match ns configs ≡ true)
        × ((is_empty configs ≡ false)
            × ((count_unshields configs ≡ length (unshields_of steps))
                × (Ends configs steps t × IsSteps steps)))
    IsCall (shield_action i) = Unit {0}

    pub IsSteps : Steps → Type 0
    IsSteps done = Unit {0}
    IsSteps (unshielded i u rest) = IsSteps rest
    IsSteps (nested c rest) = IsCall c × IsSteps rest

  abbrev pub Transactions : Type 0
  Transactions = List (Option ℕ × List (ℕ × DecodedRailgunTransaction))

  abbrev pub frame_of :
      ℕ → ℕ → List TxConfig → List (ℕ × (ℕ × List Bytes)) → List (Unshield lib) → ActionFrame lib
  frame_of next i configs ns unshields = record {
    log_index = i;
    record_base = next;
    configs = configs;
    nullified = map (λ (n : ℕ × (ℕ × List Bytes)). n.1) ns;
    unshields = unshields;
    expects_transact = any_commitments configs;
  }

  -- The transactions of a completed call, with the index of its Transact.
  abbrev pub completed_call :
      TransactOutputSummary
      → ActionFrame lib
      → Option (ℕ × List Bytes)
      → Ingested (Option ℕ × List (ℕ × DecodedRailgunTransaction))
  completed_call summary frame none = do
    transactions ← transactions_from_action_frame lib summary frame [] frame.log_index
    ok (none, transactions)
  completed_call summary frame (some (i, hashes)) = do
    transactions ← transactions_from_action_frame lib summary frame hashes i
    ok (some i, transactions)

  -- The calls by recursion: the transactions of a call come behind those of its nested calls, and are
  -- numbered before them.
  unfoldable mutual
    pub read_call : TransactOutputSummary → Call → ℕ → Transactions → Ingested (ℕ × Transactions)
    read_call summary (call ns i configs steps t) next known = do
      inner ← read_steps summary steps (next + length configs) known
      own ← completed_call summary (frame_of next i configs ns (unshields_of steps)) t
      ok (inner.0, inner.1 ++ own ∷ [])
    read_call summary (shield_action i) next known = ok (next, known)

    pub read_steps : TransactOutputSummary → Steps → ℕ → Transactions → Ingested (ℕ × Transactions)
    read_steps summary done next known = ok (next, known)
    read_steps summary (unshielded i u rest) next known = read_steps summary rest next known
    read_steps summary (nested c rest) next known = do
      inner ← read_call summary c next known
      read_steps summary rest inner.0 inner.1

  abbrev pub read_calls :
      TransactOutputSummary → List Call → ℕ → Transactions → Ingested Transactions
  read_calls summary [] next known = ok known
  read_calls summary (c ∷ rest) next known = do
    inner ← read_call summary c next known
    read_calls summary rest inner.0 inner.1
