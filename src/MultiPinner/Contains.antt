-- ===== src/MultiPinner/Contains.antt =====
-- The answers of services that fail do not matter to a decision
-- (crates/railgun-indexer-core/src/publish/ipfs.rs).
use railgun_indexer.Prelude.{
  ◌≤◌, ◌≡◌, refl, leb, List, [], ◌∷◌, length, Bool, ok, Result-cases, Bool-cases, inl, inr, arith,
}
use railgun_indexer.MultiPinner.{Cids, Answer, MultiPinner, tally_presence, contains}

-- The same services answer, and those that did not fail answer the same.
abbrev pub Resolves : List (Answer Bool) → List (Answer Bool) → Type 0
Resolves [] [] = Unit {0}
Resolves [] (b ∷ bs) = ⊥
Resolves (a ∷ as_) [] = ⊥
Resolves (a ∷ as_) (b ∷ bs) =
    (a.service ≡ b.service)
    × ((answer : Bool) → a.result ≡ ok answer → b.result ≡ ok answer)
    × Resolves as_ bs

tallies :
    (c : Cids) (answers resolved : List (Answer Bool))
    → Resolves answers resolved
    → (length (tally_presence c answers).present ≤ length (tally_presence c resolved).present)
      × ((tally_presence c answers).failures ≡ []
          → (length (tally_presence c resolved).present ≡ length (tally_presence c answers).present)
            × ((tally_presence c resolved).failures ≡ []))
unfolding tally_presence
tallies c [] [] r = (omega arith, λ none. (refl, refl))
tallies c [] (b ∷ bs) r = absurd r
tallies c (a ∷ as_) [] r = absurd r
tallies c (a ∷ as_) (b ∷ bs) r = elim (Result-cases a.result) [
  | inr (error, e) ↦ elim (Result-cases b.result) [
    | inr (error', e') ↦
        let later = tallies c as_ bs r.2 in (ground (arith, later.0), λ none. absurd (ground arith))
    | inl (answer', e') ↦ elim (Bool-cases answer') [
      | inl there ↦
          let later = tallies c as_ bs r.2 in
          (ground (arith, later.0), λ none. absurd (ground arith))
      | inr missing ↦
          let later = tallies c as_ bs r.2 in
          (ground (arith, later.0), λ none. absurd (ground arith))
    ]
  ]
  | inl (answer, e) ↦
      let later = tallies c as_ bs r.2 in
      let same = r.1 answer e in
      elim (Bool-cases answer) [
        | inl there ↦ (
          ground (arith, later.0),
          λ none.
              let rest = later.1 (ground arith) in (ground (arith, rest.0), ground (arith, rest.1)),
        )
        | inr missing ↦ (
          ground (arith, later.0),
          λ none.
              let rest = later.1 (ground arith) in (ground (arith, rest.0), ground (arith, rest.1)),
        )
      ]
]

-- A decision on the presence of a CID does not depend on the services that failed: it is the same if some
-- or all of them answer.
pub contains-Resolves :
    (c : Cids) (p : MultiPinner c) (cid : c.Cid) (answers resolved : List (Answer Bool))
    (present : Bool)
    → Resolves answers resolved
    → contains c p cid answers ≡ ok present
    → contains c p cid resolved ≡ ok present
unfolding contains
contains-Resolves c p cid answers resolved present r h =
    let lem = tallies c answers resolved r in
    elim (Bool-cases (leb p.quorum (length (tally_presence c answers).present))) [
      | inl enough ↦ ground (arith, lem.0)
      | inr few ↦
          let none_failed : (tally_presence c answers).failures ≡ [] = ground arith in
          let rest = lem.1 none_failed in ground (arith, rest.0, rest.1)
    ]
