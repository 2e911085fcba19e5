-- ===== src/Audit.antt =====
-- The tables of what was published (crates/railgun-indexer-core/src/audit.rs), each a list of its rows
-- in the order of insertion. Times are seconds. The text form of a CID, and the entries of a POI
-- manifest, are of other crates: their functions are the fields of `AuditLib`.
pub mod Publication
pub mod Poi
pub mod Artifacts
pub mod Retention
pub mod Ops
use railgun_indexer.Prelude.{
  ℕ, ◌^◌, List, [], ◌∷◌, Option, none, some, Bool, true, false, ◌||◌, if◌then◌else◌, Result, ok,
  err, ok_or, try_narrow, Text,
}
use railgun_indexer.Codec.{Bytes}

pub record AuditLib : Type 1 where
  pub Cid : Type 0
  pub to_string : Cid → Text
  pub try_from : Text → Result ℕ Cid
  pub ManifestEntry : Type 0
  pub validate : ManifestEntry → Result ℕ (Unit {0})
  pub entry_chain_id : ManifestEntry → ℕ
  -- `serde_json::to_string`
  pub entry_json : ManifestEntry → Result ℕ Text

-- A row of published_indexed_manifests or published_poi_v4_manifests; only the former has a body.
pub record ManifestRow : Type 0 where
  pub id : ℕ
  pub cid : Text
  pub ipns_sequence : ℕ
  pub byte_size : ℕ
  pub content_hash : Bytes
  pub format_version : ℕ
  pub manifest_json : Option Text
  pub ipns_published_at : Option ℕ
  pub superseded_at : Option ℕ
  pub unpinned_at : Option ℕ
  pub reconciliation_invalidated_at : Option ℕ

-- The manifests of a channel with their references to artifacts, (manifest_id, artifact_cid).
pub record Manifests : Type 0 where
  pub rows : List ManifestRow
  pub references : List (ℕ × Text)
  pub next_id : ℕ

-- A row of published_indexed_artifacts: its unique columns are the first nine.
pub record IndexedArtifactRow : Type 0 where
  pub artifact_kind : Text
  pub dataset_kind : Text
  pub chain_type : ℕ
  pub chain_id : ℕ
  pub railgun_contract : Text
  pub range_kind : Text
  pub range_start : ℕ
  pub range_end : ℕ
  pub cid : Text
  pub byte_size : ℕ
  pub content_hash : Bytes
  pub format_version : ℕ
  pub last_referenced_at : ℕ
  pub unpinned_at : Option ℕ

-- A row of published_poi_v4_artifacts: its unique columns are the first eight. The range is none for -1.
pub record PoiArtifactRow : Type 0 where
  pub artifact_kind : Text
  pub list_key : Bytes
  pub chain_type : ℕ
  pub chain_id : ℕ
  pub txid_version : Text
  pub range : Option (ℕ × ℕ)
  pub cid : Text
  pub byte_size : ℕ
  pub content_hash : Bytes
  pub end_root : Option Bytes
  pub descriptor_json : Text
  pub format_version : ℕ
  pub last_referenced_at : ℕ
  pub unpinned_at : Option ℕ

-- A row of pin_cleanup_debt.
pub record DebtRow : Type 0 where
  pub cid : Text
  pub provider : Text
  pub attempts : ℕ
  pub last_error : Text
  pub created_at : ℕ

pub record AuditDb : Type 0 where
  pub indexed_manifests : Manifests
  pub indexed_artifacts : List IndexedArtifactRow
  pub poi_manifests : Manifests
  pub poi_artifacts : List PoiArtifactRow
  -- published_poi_v4_manifest_entries: manifest_id, entry_json
  pub poi_entries : List (ℕ × Text)
  pub debts : List DebtRow
  -- the row of indexer_state with the key IPNS_SEQUENCE_STATE_KEY
  pub ipns_sequence : Option ℕ

abbrev pub no_manifests : Manifests
no_manifests = record { rows = []; references = []; next_id = 1 }

abbrev pub empty_db : AuditDb
empty_db = record {
  indexed_manifests = no_manifests;
  indexed_artifacts = [];
  poi_manifests = no_manifests;
  poi_artifacts = [];
  poi_entries = [];
  debts = [];
  ipns_sequence = none;
}

pub data AuditError : Type 0 where
  sqlx : AuditError
  invalid_cid : Text → ℕ → AuditError
  integer_out_of_range : Text → ℕ → AuditError
  time_before_unix_epoch : AuditError
  unrecorded_manifest : Text → AuditError
  superseded_manifest : Text → AuditError
  unpinned_manifest : Text → AuditError
  unresolved_pending_manifest : Text → Text → ℕ → AuditError
  ambiguous_pending_manifests : Text → ℕ → AuditError
  pending_manifest_authorization_mismatch : Text → Text → ℕ → AuditError
  pending_manifest_not_recoverable : Text → Text → ℕ → Text → AuditError
  reconciliation_sequence_not_newer : Text → Text → ℕ → ℕ → AuditError
  missing_indexed_manifest_artifacts : ℕ → ℕ → AuditError
  missing_indexed_manifest_body : Text → AuditError
  indexed_manifest_body_mismatch : Text → AuditError
  indexed_manifest : ℕ → AuditError
  indexed_manifest_sequence_mismatch : Text → ℕ → ℕ → AuditError
  json : ℕ → AuditError
  poi_artifact_contract : ℕ → AuditError
  poi_artifact_conflict : Text → ℕ → AuditError
  missing_manifest_artifacts : ℕ → ℕ → AuditError

abbrev pub Audited : Type 0 → Type 0
Audited = Result AuditError

abbrev pub i64_mod : ℕ
i64_mod = 2 ^ 63

unfoldable pub u64_to_i64 : ℕ → Text → Audited ℕ
u64_to_i64 value field = ok_or (try_narrow i64_mod value) (integer_out_of_range field value)

abbrev pub is_null {ℓ} : {A : Type ℓ} → Option A → Bool
is_null none = true
is_null (some a) = false

abbrev pub is_set {ℓ} : {A : Type ℓ} → Option A → Bool
is_set none = false
is_set (some a) = true

-- `EXISTS`
unfoldable pub exists_row {ℓ} : {A : Type ℓ} → (A → Bool) → List A → Bool
exists_row test [] = false
exists_row test (a ∷ rest) = test a || exists_row test rest

-- `WHERE`
unfoldable pub where_rows {ℓ} : {A : Type ℓ} → (A → Bool) → List A → List A
where_rows test [] = []
where_rows test (a ∷ rest) = let later = where_rows test rest in if test a then a ∷ later else later

-- `UPDATE … SET … WHERE`
unfoldable pub update_rows {ℓ} : {A : Type ℓ} → (A → Bool) → (A → A) → List A → List A
update_rows test set [] = []
update_rows test set (a ∷ rest) = (if test a then set a else a) ∷ update_rows test set rest
