-- ===== src/Audit/Ops/Single.antt =====
-- Histories of the manifests of the two channels
-- (crates/railgun-indexer-core/src/audit.rs).
use railgun_indexer.Prelude.{ℕ, ◌≡◌, List, [], ◌∷◌, Option, none, some, arith, Text, ok}
use railgun_indexer.Audit.{AuditLib, AuditDb, empty_db, where_rows}
use railgun_indexer.Audit.Publication.{chain_indexed_label, v4_label}
use railgun_indexer.Audit.Poi.{
  invalidate_pending_poi_manifest_reconciliation, abandon_pending_poi_v4_manifest_reconciliation,
  unpin_unavailable,
}
use railgun_indexer.Audit.Ops.Parts.{
  settle-Keeps, abandon-parts, pin_indexed-parts, record_indexed-parts, publish_indexed-parts,
  pin_poi-parts, record_poi-parts, publish_poi-parts, invalidate-parts,
}
use railgun_indexer.Audit.Ops.{
  Op, pin_indexed, pin_indexed_manifest, publish_indexed_manifest, pin_poi, pin_poi_manifest,
  publish_poi_manifest, invalidate_poi, abandon_poi, sweep_one, owe, apply, history,
}
use railgun_indexer.Audit.Retention.{record_pin_cleanup_debt}
use railgun_indexer.Audit.Ops.Pending.{
  reject-count, insert_manifest-IsSingle, insert_manifest-IsSinglePoi, publish-IsSingle,
  publish-IsSinglePoi, invalidate-IsSinglePoi, IsSingleDb, sweep_cid-IsSingle,
}

module _ (lib : AuditLib) where
  invalidate-IsSingle :
      (now : ℕ) (db after : AuditDb) (cid : Text) (sequence : ℕ)
      → IsSingleDb db
      → invalidate_pending_poi_manifest_reconciliation now db cid sequence ≡ ok after
      → IsSingleDb after
  invalidate-IsSingle now db after cid sequence v h =
      let (s, r, _, _, same) = invalidate-parts now db after cid sequence h in
      rw same
        (record { indexed = v.indexed; poi = invalidate-IsSinglePoi now db.poi_manifests _ v.poi })

  unpin_unavailable-IsSingle :
      (now : ℕ) (db : AuditDb) (cid : Text) (sequence : ℕ) (unavailable : Option Text)
      → IsSingleDb db
      → IsSingleDb (unpin_unavailable now db cid sequence unavailable)
  unfolding unpin_unavailable
  unpin_unavailable-IsSingle now db cid sequence none v = v
  unpin_unavailable-IsSingle now db cid sequence (some artifact) v = record {
    indexed = v.indexed;
    poi = v.poi;
  }

  apply-IsSingle :
      (now : ℕ) (op : Op lib) (db : AuditDb) → IsSingleDb db → IsSingleDb (apply lib now op db)
  unfolding apply record_pin_cleanup_debt
  apply-IsSingle now (pin_indexed kind dataset scope range cid size hash version) db v =
      settle-Keeps lib IsSingleDb db _ v λ after h.
        let (new, _, same) =
          pin_indexed-parts now db after kind dataset scope range cid size hash version h in
        rw same (record { indexed = v.indexed; poi = v.poi })
  apply-IsSingle now (pin_indexed_manifest cid cids sequence size hash version json) db v =
      settle-Keeps lib IsSingleDb db _ v λ after h.
        let (clear, _, s, b, same) =
          record_indexed-parts db after cid cids sequence size hash version json h in
        rw same (record {
          indexed =
              insert_manifest-IsSingle db.indexed_manifests cid s b hash version (some json) cids
                (reject-count chain_indexed_label db.indexed_manifests clear) v.indexed;
          poi = v.poi;
        })
  apply-IsSingle now (publish_indexed_manifest cid sequence) db v =
      settle-Keeps lib IsSingleDb db _ v λ after h.
        let (s, same) = publish_indexed-parts now db after cid sequence h in
        rw same (record {
          indexed = publish-IsSingle now db.indexed_manifests cid s v.indexed;
          poi = v.poi;
        })
  apply-IsSingle now (pin_poi kind scope range cid size hash end_root json) db v =
      settle-Keeps lib IsSingleDb db _ v λ after h.
        let (rows, same) =
          pin_poi-parts now db after kind scope range cid size hash end_root json h in
        rw same (record { indexed = v.indexed; poi = v.poi })
  apply-IsSingle now (pin_poi_manifest cid entries cids sequence size hash) db v =
      settle-Keeps lib IsSingleDb db _ v λ after h.
        let (clear, s, b, rows, same) =
          record_poi-parts lib db after cid entries cids sequence size hash h in
        rw same (record {
          indexed = v.indexed;
          poi =
              insert_manifest-IsSinglePoi db.poi_manifests cid s b hash 4 none cids
                (reject-count v4_label db.poi_manifests clear) v.poi;
        })
  apply-IsSingle now (publish_poi_manifest cid sequence) db v =
      settle-Keeps lib IsSingleDb db _ v λ after h.
        let (s, same) = publish_poi-parts now db after cid sequence h in
        rw same (record {
          indexed = v.indexed;
          poi = publish-IsSinglePoi now db.poi_manifests cid s v.poi;
        })
  apply-IsSingle now (invalidate_poi cid sequence) db v =
      settle-Keeps lib IsSingleDb db _ v
        (λ after h. invalidate-IsSingle now db after cid sequence v h)
  apply-IsSingle now (abandon_poi cid sequence unavailable) db v =
      settle-Keeps lib IsSingleDb db
        (abandon_pending_poi_v4_manifest_reconciliation now db cid sequence unavailable) v
        λ after h.
          let (between, e, same) = abandon-parts now db after cid sequence unavailable h in
          rw same (
            unpin_unavailable-IsSingle now between cid sequence unavailable
              (invalidate-IsSingle now db between cid sequence v e))
  apply-IsSingle now (sweep_one unpin cutoff cid) db v = sweep_cid-IsSingle unpin now cutoff _ cid v
  apply-IsSingle now (owe cid provider error) db v = record { indexed = v.indexed; poi = v.poi }

  history-IsSingle :
      (db : AuditDb) (ops : List (ℕ × Op lib)) → IsSingleDb db → IsSingleDb (history lib db ops)
  unfolding history
  history-IsSingle db [] v = v
  history-IsSingle db ((now, op) ∷ rest) v =
      history-IsSingle (apply lib now op db) rest (apply-IsSingle now op db v)

  -- After any history of the tables, each channel has at most one pending manifest; the chain-indexed
  -- manifests that are published and not superseded have one CID and sequence, and those of the POI
  -- channel have one CID.
  pub history-IsSingleDb : (ops : List (ℕ × Op lib)) → IsSingleDb (history lib empty_db ops)
  unfolding where_rows
  history-IsSingleDb ops = history-IsSingle empty_db ops (record {
    indexed = record { few = omega arith; cid = []; sequence = 0; agree = tt };
    poi = record { few = omega arith; cid = []; agree = tt };
  })
