-- ===== src/Ipns.antt =====
-- The data of the IPNS publisher (crates/railgun-indexer-core/src/publish/ipns.rs). Keys, the signed
-- record and CIDs are of other crates: their functions are the fields of `IpnsLib`, and their errors
-- are numbers. Times are nanoseconds.
pub mod Record
pub mod Queue
pub mod Actor
pub mod Retry
use railgun_indexer.Prelude.{ℕ, ◌*◌, ◌^◌, Option, Bool, Result, Text}
use railgun_indexer.Codec.{Bytes}

pub record IpnsLib : Type 1 where
  pub Cid : Type 0
  pub Record : Type 0
  pub cid_try_from : Text → Result ℕ Cid
  -- `Cid::new_v1(LIBP2P_KEY_CODEC, …).to_string_of_base(Base36Lower)` of a peer id
  pub libp2p_key_string : Bytes → Result ℕ Text
  -- `chrono::Duration::from_std`
  pub from_std : ℕ → Result ℕ ℕ
  -- `IpnsRecord::new` for a keypair, here its peer id: value, lifetime, sequence, TTL
  pub new_record : Bytes → Text → ℕ → ℕ → ℕ → Result ℕ Record
  pub verify : Record → Bytes → Result ℕ (Unit {0})
  pub encode : Record → Result ℕ Bytes
  pub decode : Bytes → Result ℕ Record
  -- the value of `IpnsRecord::data`, which may be unreadable
  pub value_of : Record → Result ℕ Bytes
  pub from_utf8 : Bytes → Result ℕ Text

pub data IpnsError : Type 0 where
  invalid_bootstrap_address : Text → ℕ → IpnsError
  missing_peer_id : Text → IpnsError
  identity : ℕ → IpnsError
  unexpected_identity_type : IpnsError
  kdf_output_length : IpnsError
  publisher_identity_collision : Text → Text → Bytes → IpnsError
  invalid_manifest_cid : Text → ℕ → IpnsError
  ipns_name_error : ℕ → IpnsError
  record_lifetime_out_of_range : ℕ → IpnsError
  record_ttl_too_large : ℕ → IpnsError
  create_record : ℕ → IpnsError
  verify_record : ℕ → IpnsError
  encode_record : ℕ → IpnsError
  decode_record : ℕ → IpnsError
  read_record_data : ℕ → IpnsError
  dns : ℕ → IpnsError
  noise : ℕ → IpnsError
  store : ℕ → IpnsError
  dial_bootstrap : Bytes → Text → ℕ → IpnsError
  timeout : ℕ → IpnsError
  publisher_unavailable : IpnsError
  publisher_response_dropped : IpnsError
  put_record_error : ℕ → IpnsError
  get_record_error : ℕ → IpnsError
  resolve_no_record : IpnsError
  record_value_utf8 : ℕ → IpnsError

pub record IpnsPublisherConfig : Type 0 where
  pub record_lifetime : ℕ
  pub record_ttl : ℕ
  pub publish_timeout : ℕ

-- `response` names the caller's channel.
pub record PublishRequest : Type 0 where
  pub manifest_cid : Text
  pub sequence : ℕ
  pub timeout : ℕ
  pub deadline : ℕ
  pub not_before : ℕ
  pub attempts_started : ℕ
  pub response : ℕ
  pub canonicality_lease : Option (Unit {0})

pub record IpnsPublication : Type 0 where
  pub peer_id : Bytes
  pub ipns_name : Text
  pub value : Text
  pub sequence : ℕ

pub record SignedIpnsRecord : Type 0 where
  pub peer_id : Bytes
  pub ipns_name : Text
  pub record_key : Bytes
  pub value : Text
  pub sequence : ℕ
  pub bytes : Bytes

pub record ActivePublish : Type 0 where
  pub query_id : ℕ
  pub request : PublishRequest
  pub publication : IpnsPublication
  pub started_at : ℕ
