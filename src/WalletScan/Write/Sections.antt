-- ===== src/WalletScan/Write/Sections.antt =====
-- The sections of a wallet scan payload (crates/railgun-indexer-core/src/wallet_scan.rs).
use mathlib.Core.List.{append_assoc}
use railgun_indexer.Prelude.{
  ℕ, ◌+◌, ◌≡◌, refl, List, [], map, ◌∷◌, ◌++◌, length, length-append, ok, Result-cases, inl, inr,
  arith,
}
use railgun_indexer.Codec.{Bytes}
use railgun_indexer.Artifact.{ChunkSection}
use railgun_indexer.WalletScan.{StoredWalletScanRows}
use railgun_indexer.WalletScan.Write.{
  Written, Sectioned, append_section, total_count, encode_wallet_scan_records,
  write_transact_records, write_shield_records, write_nullifier_records,
  write_legacy_encrypted_records, write_legacy_generated_records,
}

-- The sections lie one behind the other, from the first offset to the second.
abbrev pub Tiles : ℕ → List ChunkSection → ℕ → Type 0
Tiles from [] end = from ≡ end
Tiles from (s ∷ rest) end = (s.offset ≡ from) × Tiles (from + s.byte_length) rest end

Tiles-append :
    (from mid : ℕ) (sections : List ChunkSection) (s : ChunkSection)
    → Tiles from sections mid
    → s.offset ≡ mid
    → Tiles from (sections ++ s ∷ []) (mid + s.byte_length)
Tiles-append from mid [] s h e = (omega arith, omega arith)
Tiles-append from mid (t ∷ rest) s h e = (h.0, Tiles-append (from + t.byte_length) mid rest s h.1 e)

-- What a section adds.
pub record Appends (s s' : Sectioned) (section_id : ℕ) (bytes : Bytes) : Type 0 where
  pub payload : s'.payload ≡ s.payload ++ bytes
  pub sections :
      s'.sections
      ≡ s.sections
        ++ record { section_id = section_id; offset = length s.payload; byte_length = length bytes }
          ∷ []

append_section-Appends :
    (s s' : Sectioned) (section_id : ℕ) (write : Written Bytes)
    → append_section s section_id write ≡ ok s'
    → (bytes : Bytes) × (write ≡ ok bytes) × Appends s s' section_id bytes
unfolding append_section
append_section-Appends s s' section_id write h = elim (Result-cases write) [
  | inr (_, bad) ↦ absurd (ground arith)
  | inl (bytes, wrote) ↦
      let added = length-append s.payload bytes in
      (bytes, wrote, record { payload = ground arith; sections = ground arith })
]

append_section-Tiles :
    (s s' : Sectioned) (section_id : ℕ) (bytes : Bytes)
    → Appends s s' section_id bytes
    → Tiles 0 s.sections (length s.payload)
    → Tiles 0 s'.sections (length s'.payload)
append_section-Tiles s s' section_id bytes a tiled =
    rw (a.sections, a.payload, length-append s.payload bytes)
      (Tiles-append 0 (length s.payload) s.sections _ tiled refl)

-- What an encoding is made of: what the five writers wrote, in their order, in sections that lie one
-- behind the other, and the number of all rows.
pub record Encodes (rows : StoredWalletScanRows) (s : Sectioned) (row_count : ℕ) : Type 0 where
  pub transacts : Bytes
  pub shields : Bytes
  pub nullifiers : Bytes
  pub encrypteds : Bytes
  pub generateds : Bytes
  pub wrote_transacts : write_transact_records rows.transact_commitments ≡ ok transacts
  pub wrote_shields : write_shield_records rows.shield_commitments ≡ ok shields
  pub wrote_nullifiers : write_nullifier_records rows.nullifiers ≡ ok nullifiers
  pub wrote_encrypteds :
      write_legacy_encrypted_records rows.legacy_encrypted_commitments ≡ ok encrypteds
  pub wrote_generateds :
      write_legacy_generated_records rows.legacy_generated_commitments ≡ ok generateds
  pub payload : s.payload ≡ transacts ++ (shields ++ (nullifiers ++ (encrypteds ++ generateds)))
  pub tiled : Tiles 0 s.sections (length s.payload)
  pub ids : map (λ (t : ChunkSection). t.section_id) s.sections ≡ 1 ∷ 2 ∷ 3 ∷ 4 ∷ 5 ∷ []
  pub counted :
      row_count
      ≡ length rows.transact_commitments
        + (length rows.shield_commitments
            + (length rows.nullifiers
                + (length rows.legacy_encrypted_commitments
                    + length rows.legacy_generated_commitments)))

total_count_lem :
    (a b c d e n : ℕ) → total_count 0 (a ∷ b ∷ c ∷ d ∷ e ∷ []) ≡ ok n → n ≡ a + (b + (c + (d + e)))
unfolding total_count
total_count_lem a b c d e n h = ground arith

abbrev empty : Sectioned
empty = record { payload = []; sections = [] }

-- A wallet scan is encoded as its five lists of rows, in their order, in sections that tile the payload,
-- and its row count is the number of all rows.
pub encode_wallet_scan_records-Encodes :
    (rows : StoredWalletScanRows) (s : Sectioned) (row_count : ℕ)
    → encode_wallet_scan_records rows ≡ ok (s, row_count)
    → Encodes rows s row_count
unfolding encode_wallet_scan_records
encode_wallet_scan_records-Encodes rows s row_count h =
    let step1 = append_section empty 1 (write_transact_records rows.transact_commitments) in
    elim (Result-cases step1) [
      | inr (_, bad) ↦ absurd (ground arith)
      | inl (s1, e1) ↦
          elim (Result-cases (append_section s1 2 (write_shield_records rows.shield_commitments))) [
            | inr (_, bad) ↦ absurd (ground arith)
            | inl (s2, e2) ↦
                elim (Result-cases
                  (append_section s2 3 (write_nullifier_records rows.nullifiers))) [
                    | inr (_, bad) ↦ absurd (ground arith)
                    | inl (s3, e3) ↦
                        elim (Result-cases (
                          append_section s3 4
                            (write_legacy_encrypted_records rows.legacy_encrypted_commitments))) [
                              | inr (_, bad) ↦ absurd (ground arith)
                              | inl (s4, e4) ↦
                                  elim (Result-cases (
                                    append_section s4 5 (
                                      write_legacy_generated_records
                                        rows.legacy_generated_commitments))) [
                                          | inr (_, bad) ↦ absurd (ground arith)
                                          | inl (s5, e5) ↦
                                              let same : s5 ≡ s = ground arith in
                                              let (a, wa, ta) =
                                                append_section-Appends empty s1 1
                                                  (write_transact_records rows.transact_commitments)
                                                  e1 in
                                              let (b, wb, tb) =
                                                append_section-Appends s1 s2 2
                                                  (write_shield_records rows.shield_commitments)
                                                  e2 in
                                              let (c, wc, tc) =
                                                append_section-Appends s2 s3 3
                                                  (write_nullifier_records rows.nullifiers) e3 in
                                              let (d, wd, td) =
                                                append_section-Appends s3 s4 4
                                                  (write_legacy_encrypted_records
                                                    rows.legacy_encrypted_commitments)
                                                  e4 in
                                              let (e, we, te) =
                                                append_section-Appends s4 s5 5
                                                  (write_legacy_generated_records
                                                    rows.legacy_generated_commitments)
                                                  e5 in
                                              let tiled = append_section-Tiles s4 s5 5 e te (
                                                append_section-Tiles s3 s4 4 d td (
                                                  append_section-Tiles s2 s3 3 c tc (
                                                    append_section-Tiles s1 s2 2 b tb (
                                                      append_section-Tiles empty s1 1 a ta
                                                        refl)))) in
                                              record {
                                                transacts = a;
                                                shields = b;
                                                nullifiers = c;
                                                encrypteds = d;
                                                generateds = e;
                                                wrote_transacts = wa;
                                                wrote_shields = wb;
                                                wrote_nullifiers = wc;
                                                wrote_encrypteds = wd;
                                                wrote_generateds = we;
                                                payload =
                                                    rw
                                                      (
                                                        ← same,
                                                        te.payload,
                                                        td.payload,
                                                        tc.payload,
                                                        tb.payload,
                                                        ta.payload,
                                                      )
                                                      (simp append_assoc);
                                                tiled = rw (← same) tiled;
                                                ids =
                                                    rw
                                                      (
                                                        ← same,
                                                        te.sections,
                                                        td.sections,
                                                        tc.sections,
                                                        tb.sections,
                                                        ta.sections,
                                                      )
                                                      refl;
                                                counted =
                                                    total_count_lem _ _ _ _ _ row_count
                                                      (ground arith);
                                              }
                                        ]
                            ]
                  ]
          ]
    ]
