-- ===== src/Ipns/Record.antt =====
-- The signed record of a manifest (crates/railgun-indexer-core/src/publish/ipns.rs).
pub mod Paths
use railgun_indexer.Prelude.{
  ℕ, ◌^◌, List, [], ◌∷◌, ◌++◌, Option, none, some, Result, ok, err, ◌>>=◌, ◌>>◌, map_err, ok_or,
  try_narrow, u64_mod, Text, trim, strip_prefix, trim_start, trim_end, is_whitespace,
}
use railgun_indexer.Codec.{Bytes}
use railgun_indexer.Ipns.{
  IpnsLib, IpnsError, SignedIpnsRecord, invalid_manifest_cid, ipns_name_error,
  record_lifetime_out_of_range, record_ttl_too_large, create_record, verify_record, encode_record,
  decode_record, read_record_data, record_value_utf8,
}

abbrev pub Ipns : Type 0 → Type 0
Ipns = Result IpnsError

-- "/ipfs/"
abbrev pub ipfs_path_prefix : Text
ipfs_path_prefix = b'/' ∷ b'i' ∷ b'p' ∷ b'f' ∷ b's' ∷ b'/' ∷ []

-- "/ipns/"
abbrev pub ipns_record_key_prefix : Bytes
ipns_record_key_prefix = b'/' ∷ b'i' ∷ b'p' ∷ b'n' ∷ b's' ∷ b'/' ∷ []

abbrev pub unwrap_or {ℓ} : {A : Type ℓ} → Option A → A → A
unwrap_or none d = d
unwrap_or (some a) d = a

unfoldable pub ipns_record_key_bytes : Bytes → Bytes
ipns_record_key_bytes peer_id = ipns_record_key_prefix ++ peer_id

unfoldable pub duration_nanos : ℕ → Ipns ℕ
duration_nanos duration = ok_or (try_narrow u64_mod duration) (record_ttl_too_large duration)

module _ (lib : IpnsLib) where
  open lib use {
    cid_try_from, libp2p_key_string, from_std, new_record, verify, encode, decode, value_of,
    from_utf8,
  }

  unfoldable pub ipns_name : Bytes → Ipns Text
  ipns_name peer_id = map_err ipns_name_error (libp2p_key_string peer_id)

  unfoldable pub manifest_ipfs_path : Text → Ipns Text
  manifest_ipfs_path manifest_cid = do
    let trimmed = trim manifest_cid
    let cid = unwrap_or (strip_prefix ipfs_path_prefix trimmed) trimmed
    map_err (invalid_manifest_cid cid) (cid_try_from cid)
    ok (ipfs_path_prefix ++ cid)

  -- `peer_id` is that of the keypair.
  unfoldable pub build_signed_record : Bytes → Text → ℕ → ℕ → ℕ → Ipns SignedIpnsRecord
  build_signed_record peer_id manifest_cid record_lifetime record_ttl sequence = do
    value ← manifest_ipfs_path manifest_cid
    lifetime ← map_err record_lifetime_out_of_range (from_std record_lifetime)
    ttl ← duration_nanos record_ttl
    ipns_record ← map_err create_record (new_record peer_id value lifetime sequence ttl)
    map_err verify_record (verify ipns_record peer_id)
    bytes ← map_err encode_record (encode ipns_record)
    name ← ipns_name peer_id
    ok (record {
      peer_id = peer_id;
      ipns_name = name;
      record_key = ipns_record_key_bytes peer_id;
      value = value;
      sequence = sequence;
      bytes = bytes;
    })

  unfoldable pub decode_manifest_cid : Bytes → Bytes → Ipns Text
  decode_manifest_cid record_bytes peer_id = do
    ipns_record ← map_err decode_record (decode record_bytes)
    map_err verify_record (verify ipns_record peer_id)
    bytes ← map_err read_record_data (value_of ipns_record)
    value ← map_err record_value_utf8 (from_utf8 bytes)
    ok (unwrap_or (strip_prefix ipfs_path_prefix value) value)
