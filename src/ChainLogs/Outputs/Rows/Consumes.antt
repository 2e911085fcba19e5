-- ===== src/ChainLogs/Outputs/Rows/Consumes.antt =====
-- Outputs that are matched in order (crates/railgun-indexer-core/src/chain_logs.rs).
use railgun_indexer.Prelude.{
  ℕ, zero, suc, ◌+◌, ◌≤◌, ◌<◌, ◌&&◌, ◌≡◌, refl, sym, ◌⊎◌, inl, inr, List, [], ◌∷◌, map, length,
  drop, get_elem?, Option, none, some, Bool, false, ok, if◌then◌else◌, arith, Bool-cases,
  Option-cases, bind-parts, u64_max, text_eq, text_eq→eq,
}
use railgun_indexer.Codec.{Bytes}
use railgun_indexer.ChainLogs.{
  ChainLib, EmittedOutputCommitment, TransactOutputSummary, DecodedRailgunTransaction, Ingested,
}
use railgun_indexer.ChainLogs.Outputs.{
  OutputMatch, next_index, is_none, is_generated, is_modern_unshield_only, global_of, start_of,
  match_commitments, unshield_output, matched_start,
  matched_modern_unshield_only_output_start_global, matched_output_start_global,
}
use railgun_indexer.ChainLogs.Outputs.Rows.{any_legacy_output}

-- The first hashes are found in order among the commitments, and these are left.
pub data Consumes : List Bytes → List Bytes → List Bytes → Type 0 where
  stop : (hashes commitments : List Bytes) → Consumes hashes commitments hashes
  skip :
      (c : Bytes) (hashes commitments left : List Bytes)
      → Consumes hashes commitments left
      → Consumes hashes (c ∷ commitments) left
  keep :
      (c : Bytes) (hashes commitments left : List Bytes)
      → Consumes hashes commitments left
      → Consumes (c ∷ hashes) (c ∷ commitments) left

abbrev pub hashes_from : List EmittedOutputCommitment → ℕ → List Bytes
hashes_from outputs index = map (λ (o : EmittedOutputCommitment). o.hash) (drop index outputs)

drop_of_some :
    (outputs : List EmittedOutputCommitment) (index : ℕ) (o : EmittedOutputCommitment)
    → get_elem? outputs index ≡ some o
    → (drop index outputs ≡ o ∷ drop (index + 1) outputs) × (index < length outputs)
drop_of_some [] index o h = absurd (ground arith)
drop_of_some (p ∷ rest) zero o h =
    let e : 0 + 1 ≡ suc zero = omega arith in
    let same : p ≡ o = ground arith in rw (e, same) (refl, omega arith)
drop_of_some (p ∷ rest) (suc index) o h =
    let e : suc index + 1 ≡ suc (index + 1) = omega arith in
    let (tail, small) = drop_of_some rest index o h in rw e (tail, omega (arith, small))

not_generated :
    (outputs : List EmittedOutputCommitment) (index : ℕ) (o : EmittedOutputCommitment)
    → any_legacy_output outputs ≡ false
    → get_elem? outputs index ≡ some o
    → is_generated o.family ≡ false
not_generated [] index o h e = absurd (ground arith)
not_generated (p ∷ rest) zero o h e =
    let same : p ≡ o = ground arith in rw (sym same) (ground arith)
not_generated (p ∷ rest) (suc index) o h e = not_generated rest index o (ground arith) e

module _ (lib : ChainLib) (outputs : List EmittedOutputCommitment) where
  match_commitments-Consumes :
      (cs : List Bytes) (index : ℕ) (start last : Option ℕ) (found : ℕ × (Option ℕ × Option ℕ))
      → length outputs ≤ u64_max
      → match_commitments lib outputs cs index start last ≡ ok found
      → Consumes (hashes_from outputs index) cs (hashes_from outputs found.0)
  unfolding match_commitments
  match_commitments-Consumes [] index start last found few h =
      let same : index ≡ found.0 = ground arith in rw same (stop _ [])
  match_commitments-Consumes (c ∷ cs) index start last found few h =
      elim (Option-cases (get_elem? outputs index)) [
        | inl over ↦
            let k = rw (over, match_commitments) at h in
            let same : index ≡ found.0 = ground arith in rw same (stop _ (c ∷ cs))
        | inr (o, e) ↦
            let (tail, small) = drop_of_some outputs index o e in
            elim (Bool-cases (text_eq o.hash c)) [
              | inr differ ↦ skip c _ cs _ (
                  match_commitments-Consumes cs index start last found few
                    (rw (e, differ, match_commitments) at h))
              | inl hit ↦
                  let (first, e1, k) =
                    bind-parts (start_of lib start o)
                      (λ first.
                        match_commitments lib outputs cs (next_index index) (some first)
                          (some o.log_index))
                      found (rw (e, hit, match_commitments) at h) in
                  let next : next_index index ≡ index + 1 = omega (arith, few, small) in
                  let same : o.hash ≡ c = text_eq→eq o.hash c hit in
                  rw (tail, same)
                    (keep c _ cs _ (
                      match_commitments-Consumes cs (index + 1) (some first) (some o.log_index)
                        found few (rw next at k)))
            ]
      ]

  -- A start that is known stays.
  match_commitments-start :
      (cs : List Bytes) (index start : ℕ) (last : Option ℕ) (found : ℕ × (Option ℕ × Option ℕ))
      → match_commitments lib outputs cs index (some start) last ≡ ok found
      → found.1.0 ≡ some start
  unfolding match_commitments
  match_commitments-start [] index start last found h = ground arith
  match_commitments-start (c ∷ cs) index start last found h =
      elim (Option-cases (get_elem? outputs index)) [
        | inl over ↦ let k = rw (over, match_commitments) at h in ground arith
        | inr (o, e) ↦ elim (Bool-cases (text_eq o.hash c)) [
          | inr differ ↦
              match_commitments-start cs index start last found
                (rw (e, differ, match_commitments) at h)
          | inl hit ↦
              match_commitments-start cs (next_index index) start (some o.log_index) found
                (rw (e, hit, match_commitments) at h)
        ]
      ]

  -- The start is that of the next output, or nothing is found.
  abbrev FirstOf : ℕ → ℕ × (Option ℕ × Option ℕ) → Type 0
  FirstOf index found =
      ((found.1.0 ≡ none) × (found.0 ≡ index))
      ⊎ ((o : EmittedOutputCommitment) × (g : ℕ) × (get_elem? outputs index ≡ some o)
          × (global_of lib o ≡ ok g)
          × (found.1.0 ≡ some g))

  match_commitments-FirstOf :
      (cs : List Bytes) (index : ℕ) (last : Option ℕ) (found : ℕ × (Option ℕ × Option ℕ))
      → match_commitments lib outputs cs index none last ≡ ok found
      → FirstOf index found
  unfolding match_commitments
  match_commitments-FirstOf [] index last found h = inl (ground arith, ground arith)
  match_commitments-FirstOf (c ∷ cs) index last found h =
      elim (Option-cases (get_elem? outputs index)) [
        | inl over ↦ let k = rw (over, match_commitments) at h in inl (ground arith, ground arith)
        | inr (o, e) ↦ elim (Bool-cases (text_eq o.hash c)) [
          | inr differ ↦
              match_commitments-FirstOf cs index last found (rw (e, differ, match_commitments) at h)
          | inl hit ↦
              let (first, e1, k) =
                bind-parts (global_of lib o)
                  (λ first.
                    match_commitments lib outputs cs (next_index index) (some first)
                      (some o.log_index))
                  found (rw (e, hit, match_commitments) at h) in
              inr (
                o,
                first,
                e,
                e1,
                match_commitments-start cs (next_index index) first (some o.log_index) found k,
              )
        ]
      ]

  no_generated :
      (has_unshield : Bool) (index : ℕ)
      → any_legacy_output outputs ≡ false
      → unshield_output lib has_unshield (get_elem? outputs index) ≡ none
  no_generated has_unshield index modern = elim (Option-cases (get_elem? outputs index)) [
    | inl over ↦ rw over refl
    | inr (o, e) ↦ let plain = not_generated outputs index o modern e in rw e (ground arith)
  ]

  -- The outputs of a row begin with the next output, if there is one.
  abbrev pub StartsAt : ℕ → ℕ → Type 0
  StartsAt index start =
      (o : EmittedOutputCommitment) → get_elem? outputs index ≡ some o → global_of lib o ≡ ok start

  module _ (summary : TransactOutputSummary) where
    modern-StartsAt :
        (index transaction_index : ℕ) (m : OutputMatch)
        → matched_modern_unshield_only_output_start_global lib summary outputs index
            transaction_index
          ≡ ok m
        → StartsAt index m.output_start
    unfolding matched_modern_unshield_only_output_start_global
    modern-StartsAt index transaction_index m h o e =
        let (start, e1, k) =
          bind-parts (global_of lib o) _ m
            (rw (e, matched_modern_unshield_only_output_start_global) at h) in
        let same : start ≡ m.output_start = ground arith in rw same at e1

    -- The match that is no unshield's generated output.
    sequential_match :
        ℕ → DecodedRailgunTransaction → ℕ × (Option ℕ × Option ℕ) → Ingested OutputMatch
    sequential_match transaction_index t found =
        if is_none found.1.0 && is_modern_unshield_only t
        then matched_modern_unshield_only_output_start_global lib summary outputs found.0
            transaction_index
        else matched_start lib summary transaction_index found.1.0 found.1.1

    sequential_match-StartsAt :
        (index transaction_index : ℕ) (t : DecodedRailgunTransaction)
        (found : ℕ × (Option ℕ × Option ℕ)) (m : OutputMatch)
        → FirstOf index found
        → sequential_match transaction_index t found ≡ ok m
        → StartsAt index m.output_start
    unfolding sequential_match
    sequential_match-StartsAt index transaction_index t found m (inl (nothing, stays)) h =
        elim (Bool-cases (is_modern_unshield_only t)) [
          | inl modern ↦
              modern-StartsAt index transaction_index m (rw (nothing, modern, stays) at h)
          | inr other ↦ absurd (ground arith)
        ]
    sequential_match-StartsAt index transaction_index t found m (inr (p, g, e, first, start)) h =
        let k = rw start at h in
        let same : g ≡ m.output_start = ground arith in
        λ o e2. let one : p ≡ o = ground arith in rw (sym one, sym same) first

    pub matched-Sequential :
        (index : ℕ) (t : DecodedRailgunTransaction) (transaction_index : ℕ) (made : OutputMatch × ℕ)
        → length outputs ≤ u64_max
        → any_legacy_output outputs ≡ false
        → matched_output_start_global lib summary outputs index t transaction_index ≡ ok made
        → Consumes (hashes_from outputs index) t.commitments (hashes_from outputs made.1)
          × StartsAt index made.0.output_start
    unfolding matched_output_start_global sequential_match
    matched-Sequential index t transaction_index made few modern h =
        let (found, e1, h1) =
          bind-parts (match_commitments lib outputs t.commitments index none none) _ made h in
        let no_unshield : unshield_output lib t.has_unshield (get_elem? outputs found.0) ≡ none =
          no_generated t.has_unshield found.0 modern in
        let (m, e2, h2) =
          bind-parts (sequential_match transaction_index t found) (λ m. ok (m, found.0)) made
            (rw no_unshield at h1) in
        let same : (m, found.0) ≡ made = ground arith in
        rw (sym same) (
          match_commitments-Consumes t.commitments index none none found few e1,
          sequential_match-StartsAt index transaction_index t found m
              (match_commitments-FirstOf t.commitments index none found e1) e2,
        )
