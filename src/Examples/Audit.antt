-- ===== src/Examples/Audit.antt =====
-- Two manifests of the chain-indexed channel and one of the POI channel
-- (crates/railgun-indexer-core/src/audit.rs).
use railgun_indexer.Prelude.{
  ℕ, ◌≡◌, refl, List, [], ◌∷◌, none, some, ok, err, Text, codes, take, text_eq,
}
use railgun_indexer.Artifact.{Range, block, wallet_scan}
use railgun_indexer.Audit.{
  AuditLib, empty_db, exists_row, where_rows, update_rows, u64_to_i64, unresolved_pending_manifest,
}
use railgun_indexer.Audit.Publication.{
  record_indexed_manifest_pin, reject_unresolved_pending, ensure_newer_than_invalidated_pending,
  invalidated_sequence, insert_manifest, insert_references, insert_reference, live_count, distinct,
  record_indexed_manifest_ipns_publication,
}
use railgun_indexer.Audit.Artifacts.{
  AuditScope, PoiScope, chunk, bridge, record_indexed_artifact_pin, upsert_indexed,
}
use railgun_indexer.Audit.Ops.{
  Op, pin_indexed, pin_indexed_manifest, publish_indexed_manifest, pin_poi, pin_poi_manifest,
  abandon_poi, sweep_one, apply, history,
}
use railgun_indexer.Audit.Ops.Pending.{IsSingleDb}
use railgun_indexer.Audit.Ops.Single.{history-IsSingleDb}
use railgun_indexer.Audit.Ops.References.{IsBacked}
use railgun_indexer.Audit.Ops.Backed.{history-IsBacked}

-- A manifest entry is its chain.
abbrev lib : AuditLib
lib = record {
  Cid = Text;
  to_string = λ c. c;
  try_from = ok;
  ManifestEntry = ℕ;
  validate = λ e. ok tt;
  entry_chain_id = λ e. e;
  entry_json = λ e. ok (e ∷ []);
}

abbrev scope : AuditScope
scope = record { chain_id = 1; railgun_contract = codes "fa" }

abbrev poi_scope : PoiScope
poi_scope = record { list_key = 9 ∷ []; chain_type = 0; chain_id = 1; txid_version = codes "V2" }

abbrev blocks : Range
blocks = record { kind = block; start = 0; end = 9 }

abbrev pin : Text → Op lib
pin cid = pin_indexed chunk wallet_scan scope blocks cid 10 [] 1

abbrev manifest : Text → List Text → ℕ → Op lib
manifest cid cids sequence = pin_indexed_manifest cid cids sequence 20 [] 1 (codes "{}")

-- The second manifest follows the first one, which with its artifact is swept thereafter.
abbrev ops : List (ℕ × Op lib)
ops =
    (1, pin (codes "A"))
    ∷ (2, manifest (codes "M") (codes "A" ∷ []) 1)
    ∷ (3, publish_indexed_manifest (codes "M") 1)
    ∷ (4, pin (codes "B"))
    ∷ (5, manifest (codes "N") (codes "B" ∷ []) 2)
    ∷ (6, manifest (codes "O") (codes "B" ∷ []) 3)
    ∷ (7, publish_indexed_manifest (codes "N") 2)
    ∷ (8, pin_poi bridge poi_scope none (codes "P") 10 [] none (codes "{}"))
    ∷ (9, pin_poi_manifest (codes "Q") (1 ∷ []) (codes "P" ∷ []) 1 20 [])
    ∷ (10, abandon_poi (codes "Q") 1 (some (codes "P")))
    ∷ (20, sweep_one (λ cid. ok tt) 15 (codes "A"))
    ∷ (20, sweep_one (λ cid. ok tt) 15 (codes "M"))
    ∷ (20, sweep_one (λ cid. ok tt) 15 (codes "B"))
    ∷ []

-- While a manifest waits for its publication, another one is not recorded.
waits :
    record_indexed_manifest_pin
      (history lib empty_db (take 5 ops))
      (codes "O")
      (codes "B" ∷ [])
      3
      20
      []
      1
      (codes "{}")
    ≡ err (unresolved_pending_manifest (codes "chain-indexed") (codes "N") 2)
unfolding history apply record_indexed_manifest_pin record_indexed_artifact_pin upsert_indexed
    reject_unresolved_pending insert_manifest insert_references insert_reference live_count distinct
    exists_row where_rows update_rows u64_to_i64 record_indexed_manifest_ipns_publication
    ensure_newer_than_invalidated_pending invalidated_sequence text_eq
waits = refl

history-IsSingleDb_example : IsSingleDb (history lib empty_db ops)
history-IsSingleDb_example = history-IsSingleDb lib ops

history-IsBacked_example : IsBacked (history lib empty_db ops)
history-IsBacked_example = history-IsBacked lib ops
