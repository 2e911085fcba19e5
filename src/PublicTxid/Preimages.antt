-- ===== src/PublicTxid/Preimages.antt =====
-- The unshield preimages of a public TXID chunk (crates/railgun-indexer-core/src/public_txid.rs).
use railgun_indexer.Prelude.{
  ◌≡◌, ◌≢◌, List, [], ◌∷◌, Option, none, some, Bool, true, false, ok, Result-cases, Option-cases,
  inl, inr, arith, All,
}
use railgun_indexer.Codec.{Bytes}
use railgun_indexer.PoiStore.Rows.{bytes_eq→eq}
use railgun_indexer.PublicTxid.{
  Txid, StoredPublicTxidRow, last_commitment, preimage_entry, preimage_entries,
  encode_public_txid_unshield_preimages,
}

module _ (t : Txid) where
  open t use {Preimage, abi_decode, preimage_hash}

  -- A preimage stands only in a row with an unshield, and its hash is the row's last commitment.
  abbrev pub IsBacked : StoredPublicTxidRow → Type 0
  IsBacked r =
      (encoded : Bytes)
      → r.unshield_preimage ≡ some encoded
      → (r.has_unshield ≡ true)
        × ((preimage : t.Preimage) × (t.abi_decode encoded ≡ some preimage)
            × (last_commitment r.commitments ≡ some (t.preimage_hash preimage)))

  abbrev pub HasPreimage : StoredPublicTxidRow → Type 0
  HasPreimage r = r.has_unshield ≡ true → r.unshield_preimage ≢ none

  preimage_entry-IsBacked :
      (r : StoredPublicTxidRow) (encoded bytes : Bytes)
      → preimage_entry t r encoded ≡ ok bytes
      → (r.has_unshield ≡ true)
        × ((preimage : t.Preimage) × (t.abi_decode encoded ≡ some preimage)
            × (last_commitment r.commitments ≡ some (t.preimage_hash preimage)))
  unfolding preimage_entry
  preimage_entry-IsBacked r encoded bytes h = elim (Option-cases (t.abi_decode encoded)) [
    | inl bad ↦ absurd (ground arith)
    | inr (preimage, decoded) ↦ elim (Option-cases (last_commitment r.commitments)) [
      | inl bad ↦ absurd (ground arith)
      | inr (expected, found) ↦ (
        ground arith,
        (preimage, decoded, ground (arith, bytes_eq→eq (t.preimage_hash preimage) expected)),
      )
    ]
  ]

  preimage_entries_lem :
      (records : List StoredPublicTxidRow) (missing : Bool) (bytes : Bytes)
      → preimage_entries t records ≡ ok (missing, bytes)
      → All IsBacked records × (missing ≡ false → All HasPreimage records)
  unfolding preimage_entries
  preimage_entries_lem [] missing bytes h = (tt, λ _. tt)
  preimage_entries_lem (r ∷ rest) missing bytes h = elim (Result-cases (preimage_entries t rest)) [
    | inr (_, bad) ↦ elim (Option-cases r.unshield_preimage) [
      | inl absent ↦ absurd (ground arith)
      | inr (encoded, there) ↦ elim (Result-cases (preimage_entry t r encoded)) [
        | inr (_, bad') ↦ absurd (ground arith)
        | inl (entry, wrote) ↦ absurd (ground arith)
      ]
    ]
    | inl ((later_missing, later_bytes), e) ↦
        let later = preimage_entries_lem rest later_missing later_bytes e in
        elim (Option-cases r.unshield_preimage) [
          | inl absent ↦ (
            (λ encoded there. absurd (cc (absent, there)), later.0),
            λ complete. (λ has. absurd (ground arith), later.1 (ground arith)),
          )
          | inr (encoded, there) ↦ elim (Result-cases (preimage_entry t r encoded)) [
            | inr (_, bad) ↦ absurd (ground arith)
            | inl (entry, wrote) ↦
                let backed = preimage_entry-IsBacked r encoded entry wrote in
                (
                  (
                    λ encoded' there'.
                        let same : encoded ≡ encoded' = cc (there, there') in
                        (backed.0, (backed.1.0, rw same at backed.1.1, backed.1.2)),
                    later.0,
                  ),
                  λ complete. (λ has absent. cc (there, absent), later.1 (ground arith)),
                )
          ]
        ]
  ]

  -- If the preimages of a chunk are encoded, each stands in a row with an unshield and hashes to the row's
  -- last commitment; and if a sidecar is made, every row with an unshield has its preimage.
  pub encode_public_txid_unshield_preimages-IsBacked :
      (records : List StoredPublicTxidRow) (sidecar : Option Bytes)
      → encode_public_txid_unshield_preimages t records ≡ ok sidecar
      → All IsBacked records × (sidecar ≢ none → All HasPreimage records)
  unfolding encode_public_txid_unshield_preimages
  encode_public_txid_unshield_preimages-IsBacked records sidecar h =
      elim (Result-cases (preimage_entries t records)) [
        | inr (_, bad) ↦ absurd (ground arith)
        | inl ((missing, bytes), e) ↦
            let lem = preimage_entries_lem records missing bytes e in
            (lem.0, λ made. lem.1 (ground arith))
      ]
