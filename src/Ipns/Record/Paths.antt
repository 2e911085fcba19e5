-- ===== src/Ipns/Record/Paths.antt =====
-- The path that stands in the record of a manifest (crates/railgun-indexer-core/src/publish/ipns.rs).
use railgun_indexer.Prelude.{
  ℕ, ◌≡◌, refl, ◌∙◌, sym, ap, ◌++◌, some, ok, Result-cases, Option-cases, inl, inr, arith, Text,
  trim, trim_start, trim_end, strip_prefix, is_whitespace, trim_end_twice, trim_end-strip,
  strip-append, NoSpace, trim_end-append,
}
use railgun_indexer.Codec.{Bytes}
use railgun_indexer.Ipns.{IpnsLib, SignedIpnsRecord}
use railgun_indexer.Ipns.Record.{
  ipfs_path_prefix, unwrap_or, manifest_ipfs_path, duration_nanos, build_signed_record,
  decode_manifest_cid,
}

no_space : NoSpace ipfs_path_prefix
unfolding is_whitespace
no_space = (refl, (refl, (refl, (refl, (refl, (refl, tt))))))

-- A text that ends in no whitespace, behind the prefix, is not trimmed.
trim_path :
    (cid : Text) → trim_end cid ≡ cid → trim (ipfs_path_prefix ++ cid) ≡ ipfs_path_prefix ++ cid
unfolding trim trim_start is_whitespace
trim_path cid h = trim_end-append ipfs_path_prefix cid no_space ∙ ap (λ t. ipfs_path_prefix ++ t) h

-- The CID of a manifest, with or without the prefix.
abbrev cid_of : Text → Text
cid_of m = unwrap_or (strip_prefix ipfs_path_prefix (trim m)) (trim m)

cid_of_trimmed : (m : Text) → trim_end (cid_of m) ≡ cid_of m
unfolding trim
cid_of_trimmed m =
    let trimmed = trim_end_twice (trim_start m) in
    elim (Option-cases (strip_prefix ipfs_path_prefix (trim_end (trim_start m)))) [
      | inl e ↦ rw e trimmed
      | inr (cid, e) ↦
          rw e (trim_end-strip ipfs_path_prefix (trim_end (trim_start m)) cid e trimmed)
    ]

cid_of_path : (cid : Text) → trim_end cid ≡ cid → cid_of (ipfs_path_prefix ++ cid) ≡ cid
cid_of_path cid h = rw (trim_path cid h, strip-append ipfs_path_prefix cid) refl

module _ (lib : IpnsLib) where
  open lib use {cid_try_from, new_record, verify, encode, decode, value_of, from_utf8}

  path_of :
      (m value : Text)
      → manifest_ipfs_path lib m ≡ ok value
      → (value ≡ ipfs_path_prefix ++ cid_of m) × ((c : lib.Cid) × (cid_try_from (cid_of m) ≡ ok c))
  unfolding manifest_ipfs_path
  path_of m value h = elim (Result-cases (cid_try_from (cid_of m))) [
    | inr (_, bad) ↦ absurd (ground arith)
    | inl (c, good) ↦ (ground arith, (c, good))
  ]

  -- The path of a manifest is the path of itself: a prefix is never doubled.
  pub manifest_ipfs_path_twice :
      (m value : Text)
      → manifest_ipfs_path lib m ≡ ok value
      → manifest_ipfs_path lib value ≡ ok value
  unfolding manifest_ipfs_path
  manifest_ipfs_path_twice m value h =
      let (same, (c, good)) = path_of m value h in
      let again : cid_of value ≡ cid_of m =
        ap cid_of same ∙ cid_of_path (cid_of m) (cid_of_trimmed m) in
      rw (again, good) (ap ok (sym same))

  -- What the IPNS library documents: a record is decoded from its encoding, and its data has the value
  -- with which it was made, as UTF-8.
  pub record IsLawful : Type 0 where
    pub decoded : (r : lib.Record) (bytes : Bytes) → encode r ≡ ok bytes → decode bytes ≡ ok r
    pub valued :
        (peer_id : Bytes) (value : Text) (lifetime sequence ttl : ℕ) (r : lib.Record)
        → new_record peer_id value lifetime sequence ttl ≡ ok r
        → (bytes : Bytes) × (value_of r ≡ ok bytes) × (from_utf8 bytes ≡ ok value)

  -- The record behind the bytes of a signed record.
  build_signed_record-parts :
      (peer_id : Bytes) (m : Text) (lifetime ttl sequence : ℕ) (signed : SignedIpnsRecord)
      → build_signed_record lib peer_id m lifetime ttl sequence ≡ ok signed
      → (life nanos : ℕ) × (r : lib.Record) × (new_record peer_id signed.value life sequence nanos
          ≡ ok r)
        × (verify r peer_id ≡ ok tt)
        × (encode r ≡ ok signed.bytes)
        × (manifest_ipfs_path lib m ≡ ok signed.value)
  unfolding build_signed_record
  build_signed_record-parts peer_id m lifetime ttl sequence signed h =
      let path : manifest_ipfs_path lib m ≡ ok signed.value = ground arith in
      elim (Result-cases (lib.from_std lifetime)) [
        | inr (_, bad) ↦ absurd (ground arith)
        | inl (life, e1) ↦ elim (Result-cases (duration_nanos ttl)) [
          | inr (_, bad) ↦ absurd (ground arith)
          | inl (nanos, e2) ↦
              elim (Result-cases (new_record peer_id signed.value life sequence nanos)) [
                | inr (_, bad) ↦ absurd (ground arith)
                | inl (r, e3) ↦ (life, nanos, r, e3, ground arith, ground arith, path)
              ]
        ]
      ]

  -- If the IPNS library does what it documents, resolving the bytes of a signed record for its publisher
  -- gives the CID whose path the record has, and that is the CID of the manifest, trimmed and without
  -- the prefix.
  pub build_signed_record-decode :
      (peer_id : Bytes) (m : Text) (lifetime ttl sequence : ℕ) (signed : SignedIpnsRecord)
      → IsLawful
      → build_signed_record lib peer_id m lifetime ttl sequence ≡ ok signed
      → (decode_manifest_cid lib signed.bytes peer_id ≡ ok (cid_of m))
        × (signed.value ≡ ipfs_path_prefix ++ cid_of m)
  unfolding decode_manifest_cid
  build_signed_record-decode peer_id m lifetime ttl sequence signed laws h =
      let (life, nanos, r, made, verified, encoded, path) =
        build_signed_record-parts peer_id m lifetime ttl sequence signed h in
      let (same, _) = path_of m signed.value path in
      let (bytes, read, text) = laws.valued peer_id signed.value life sequence nanos r made in
      let plain : strip_prefix ipfs_path_prefix signed.value ≡ some (cid_of m) =
        rw same (strip-append ipfs_path_prefix (cid_of m)) in
      (rw (laws.decoded r signed.bytes encoded, verified, read, text) (rw plain refl), same)
