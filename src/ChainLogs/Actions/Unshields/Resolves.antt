-- ===== src/ChainLogs/Actions/Unshields/Resolves.antt =====
-- What the calldata changes in the rows (crates/railgun-indexer-core/src/chain_logs.rs).
use railgun_indexer.Prelude.{
  ℕ, ◌+◌, ◌==◌, not, ◌≡◌, refl, sym, ap, ◌⊎◌, inl, inr, List, [], ◌∷◌, ◌++◌, Option, none, some,
  true, false, ok, text_eq, text_eq→eq, is_empty, arith, Bool-cases, Option-cases, bind-parts,
}
use railgun_indexer.Codec.{Bytes}
use railgun_indexer.ChainLogs.{ChainLib, TransactOutputSummary, DecodedRailgunTransaction}
use railgun_indexer.ChainLogs.Actions.{railgun_txid_from_parts, list_eq}
use railgun_indexer.ChainLogs.Actions.Unshields.{
  CalldataTransaction, split_last, with_nullifiers, any_without_nullifiers, Frames, replace_derived,
  check_commitments, resolve_with, resolve_row, resolve_rows, resolve_frames,
  resolve_unshield_commitments,
}

list_eq→eq : (xs ys : List Bytes) → list_eq xs ys ≡ true → xs ≡ ys
list_eq→eq [] [] h = refl
list_eq→eq [] (b ∷ ys) h = absurd (ground arith)
list_eq→eq (a ∷ xs) [] h = absurd (ground arith)
list_eq→eq (a ∷ xs) (b ∷ ys) h =
    let one = text_eq→eq a b (ground arith) in
    let more = list_eq→eq xs ys (ground arith) in cc (one, more)

split_last-parts :
    (xs : List Bytes) (last : Bytes) (before : List Bytes)
    → split_last xs ≡ some (last, before)
    → xs ≡ before ++ last ∷ []
split_last-parts [] last before h = absurd (ground arith)
split_last-parts (x ∷ rest) last before h = elim (Option-cases (split_last rest)) [
  | inl e ↦ let k = rw e at h in let nothing = no_split rest e in ground (arith, nothing)
  | inr (split, e) ↦
      let k = rw e at h in
      let tail = split_last-parts rest split.0 split.1 e in
      let end : split.0 ≡ last = ground arith in
      let start : x ∷ split.1 ≡ before = ground arith in
      rw (sym end, sym start) (ap (λ r. x ∷ r) tail)
]
  where
    no_split : (rest : List Bytes) → split_last rest ≡ none → rest ≡ []
    no_split [] e = refl
    no_split (y ∷ more) e = elim (Option-cases (split_last more)) [
      | inl f ↦ let k = rw f at e in absurd (ground arith)
      | inr (split, f) ↦ let k = rw f at e in absurd (ground arith)
    ]

empty_nil : (calldata : List CalldataTransaction) → is_empty calldata ≡ true → calldata ≡ []
empty_nil [] h = refl
empty_nil (t ∷ rest) h = absurd (ground arith)

module _ (lib : ChainLib) (summary : TransactOutputSummary)
    (calldata : List CalldataTransaction) where
  abbrev pub HasTxid : DecodedRailgunTransaction → Type 0
  HasTxid t =
      t.railgun_txid ≡ railgun_txid_from_parts lib t.nullifiers t.commitments t.bound_params_hash

  -- The row has the commitments and the preimage of the one transaction of the calldata with its
  -- nullifiers, which has the commitments of the logs before its last one.
  abbrev pub IsCommitted : DecodedRailgunTransaction → DecodedRailgunTransaction → Type 0
  IsCommitted before after =
      (t : CalldataTransaction) × (logged : List Bytes) × (derived committed : Bytes)
      × (with_nullifiers before.nullifiers calldata ≡ t ∷ [])
      × (before.commitments ≡ logged ++ derived ∷ [])
      × (t.commitments ≡ logged ++ committed ∷ [])
      × (after.commitments ≡ t.commitments)
      × (after.unshield_preimage ≡ some t.unshield_preimage)

  pub record IsResolved (before after : DecodedRailgunTransaction) : Type 0 where
    pub nullifiers : after.nullifiers ≡ before.nullifiers
    pub bound_params_hash : after.bound_params_hash ≡ before.bound_params_hash
    pub tree_in : after.utxo_tree_in ≡ before.utxo_tree_in
    pub flag : after.has_unshield ≡ before.has_unshield
    pub other : before.has_unshield ≡ false → after ≡ before
    pub unshield : before.has_unshield ≡ true → IsCommitted before after
    pub txid : HasTxid before → HasTxid after

  abbrev pub RowsResolved :
      List (ℕ × DecodedRailgunTransaction) → List (ℕ × DecodedRailgunTransaction) → Type 0
  RowsResolved [] after = after ≡ []
  RowsResolved (t ∷ rest) [] = false ≡ true
  RowsResolved (t ∷ rest) (u ∷ after) = (u.0 ≡ t.0) × (IsResolved t.1 u.1 × RowsResolved rest after)

  abbrev pub FramesResolved : Frames → Frames → Type 0
  FramesResolved [] after = after ≡ []
  FramesResolved (f ∷ rest) [] = false ≡ true
  FramesResolved (f ∷ rest) (g ∷ after) =
      (g.0 ≡ f.0) × (RowsResolved f.1 g.1 × FramesResolved rest after)

  replace_derived-IsResolved :
      (row : DecodedRailgunTransaction) (t : CalldataTransaction) (logged : List Bytes)
      (derived committed : Bytes)
      → row.has_unshield ≡ true
      → with_nullifiers row.nullifiers calldata ≡ t ∷ []
      → row.commitments ≡ logged ++ derived ∷ []
      → t.commitments ≡ logged ++ committed ∷ []
      → IsResolved row (replace_derived lib summary row t logged derived committed).0
  unfolding replace_derived
  replace_derived-IsResolved row t logged derived committed flag found own theirs =
      elim (Bool-cases (text_eq derived committed)) [
        | inl same ↦
            let one : derived ≡ committed = text_eq→eq derived committed same in
            let equal : row.commitments ≡ t.commitments = rw (own, theirs, one) refl in
            rw same (record {
              nullifiers = refl;
              bound_params_hash = refl;
              tree_in = refl;
              flag = refl;
              other = λ no_unshield. absurd (cc (flag, no_unshield));
              unshield = λ _. (t, logged, derived, committed, found, own, theirs, equal, refl);
              txid = λ had. had;
            })
        | inr differ ↦ rw differ (record {
          nullifiers = refl;
          bound_params_hash = refl;
          tree_in = refl;
          flag = refl;
          other = λ no_unshield. absurd (cc (flag, no_unshield));
          unshield = λ _. (t, logged, derived, committed, found, own, theirs, sym theirs, refl);
          txid = λ _. refl;
        })
      ]

  check_commitments-IsResolved :
      (row : DecodedRailgunTransaction) (t : CalldataTransaction)
      (made : DecodedRailgunTransaction × ℕ)
      → row.has_unshield ≡ true
      → with_nullifiers row.nullifiers calldata ≡ t ∷ []
      → (theirs own : Option (Bytes × List Bytes)) → split_last t.commitments ≡ theirs
      → split_last row.commitments ≡ own
      → check_commitments lib summary row t theirs own ≡ ok made
      → IsResolved row made.0
  unfolding check_commitments
  check_commitments-IsResolved row t made flag found none own e f h = absurd (ground arith)
  check_commitments-IsResolved row t made flag found (some c) none e f h = absurd (ground arith)
  check_commitments-IsResolved row t made flag found (some (committed, accumulated))
        (some (derived, logged)) e f h =
      elim (Bool-cases (list_eq logged accumulated)) [
        | inr differ ↦ absurd (ground arith)
        | inl agree ↦
            let same : replace_derived lib summary row t logged derived committed ≡ made =
              ground arith in
            let one : logged ≡ accumulated = list_eq→eq logged accumulated agree in
            rw (sym same) (
              replace_derived-IsResolved row t logged derived committed flag found
                (split_last-parts row.commitments derived logged f)
                (rw one (split_last-parts t.commitments committed accumulated e)))
      ]

  resolve_with-IsResolved :
      (row : DecodedRailgunTransaction) (matches : List CalldataTransaction)
      (made : DecodedRailgunTransaction × ℕ)
      → row.has_unshield ≡ true
      → with_nullifiers row.nullifiers calldata ≡ matches
      → resolve_with lib summary row matches ≡ ok made
      → IsResolved row made.0
  unfolding resolve_with check_commitments replace_derived
  resolve_with-IsResolved row [] made flag found h = absurd (ground arith)
  resolve_with-IsResolved row (t ∷ u ∷ rest) made flag found h = absurd (ground arith)
  resolve_with-IsResolved row (t ∷ []) made flag found h = elim (Bool-cases (t.unshield == 0)) [
    | inl plain ↦ absurd (ground arith)
    | inr unshields ↦ elim (Bool-cases (not (t.tree_number == row.utxo_tree_in))) [
      | inl differ ↦ absurd (ground arith)
      | inr tree ↦
          check_commitments-IsResolved row t made flag found (split_last t.commitments)
            (split_last row.commitments) refl refl (rw (unshields, tree) at h)
    ]
  ]

  resolve_row-IsResolved :
      (row : DecodedRailgunTransaction) (made : DecodedRailgunTransaction × ℕ)
      → resolve_row lib summary calldata row ≡ ok made
      → IsResolved row made.0
  unfolding resolve_row
  resolve_row-IsResolved row made h = elim (Bool-cases row.has_unshield) [
    | inr plain ↦
        let same : row ≡ made.0 = ground arith in
        rw (sym same) (record {
          nullifiers = refl;
          bound_params_hash = refl;
          tree_in = refl;
          flag = refl;
          other = λ _. refl;
          unshield = λ unshields. absurd (cc (unshields, plain));
          txid = λ had. had;
        })
    | inl flag ↦ elim (Bool-cases (is_empty row.nullifiers)) [
      | inl nothing ↦ absurd (ground arith)
      | inr keyed ↦
          resolve_with-IsResolved row (with_nullifiers row.nullifiers calldata) made flag refl
            (ground arith)
    ]
  ]

  resolve_rows-RowsResolved :
      (rows : List (ℕ × DecodedRailgunTransaction))
      (made : List (ℕ × DecodedRailgunTransaction) × ℕ)
      → resolve_rows lib summary calldata rows ≡ ok made
      → RowsResolved rows made.0
  unfolding resolve_rows
  resolve_rows-RowsResolved [] made h = ground arith
  resolve_rows-RowsResolved ((n, row) ∷ rest) made h =
      let (one, e1, h1) = bind-parts (resolve_row lib summary calldata row) _ made h in
      let (later, e2, h2) = bind-parts (resolve_rows lib summary calldata rest) _ made h1 in
      let same : ((n, one.0) ∷ later.0, one.1 + later.1) ≡ made = ground arith in
      rw (sym same)
        (refl, (resolve_row-IsResolved row one e1, resolve_rows-RowsResolved rest later e2))

  resolve_frames-FramesResolved :
      (frames : Frames) (made : Frames × ℕ)
      → resolve_frames lib summary calldata frames ≡ ok made
      → FramesResolved frames made.0
  unfolding resolve_frames
  resolve_frames-FramesResolved [] made h = ground arith
  resolve_frames-FramesResolved ((i, rows) ∷ rest) made h =
      let (one, e1, h1) = bind-parts (resolve_rows lib summary calldata rows) _ made h in
      let (later, e2, h2) = bind-parts (resolve_frames lib summary calldata rest) _ made h1 in
      let same : ((i, one.0) ∷ later.0, one.1 + later.1) ≡ made = ground arith in
      rw (sym same)
        (refl, (resolve_rows-RowsResolved rows one e1, resolve_frames-FramesResolved rest later e2))

  -- If the unshields are resolved, then either the calldata decodes to nothing and the transactions are
  -- as the logs say, or each transaction is: without an unshield it is as before; with one it has the
  -- commitments and the preimage of the one calldata transaction with its nullifiers, whose other
  -- commitments are those of the logs; and a TXID that was that of the parts still is.
  pub resolve_unshield_commitments-Resolves :
      (frames : Frames) (made : Frames × (ℕ × ℕ))
      → resolve_unshield_commitments lib summary calldata frames ≡ ok made
      → ((calldata ≡ []) × (made.0 ≡ frames)) ⊎ FramesResolved frames made.0
  unfolding resolve_unshield_commitments
  resolve_unshield_commitments-Resolves frames made h = elim (Bool-cases (is_empty calldata)) [
    | inl nothing ↦ inl (empty_nil calldata nothing, ground arith)
    | inr some_calldata ↦ elim (Bool-cases (any_without_nullifiers calldata)) [
      | inl unkeyed ↦ absurd (ground arith)
      | inr keyed ↦
          let (all, e, k) =
            bind-parts (resolve_frames lib summary calldata frames) _ made
              (rw (some_calldata, keyed) at h) in
          let same : all.0 ≡ made.0 = ground arith in
          inr (rw (sym same) (resolve_frames-FramesResolved frames all e))
    ]
  ]
