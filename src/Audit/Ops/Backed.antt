-- ===== src/Audit/Ops/Backed.antt =====
-- Histories of the references of the chain-indexed manifests
-- (crates/railgun-indexer-core/src/audit.rs).
use railgun_indexer.Prelude.{ℕ, ◌≡◌, List, [], ◌∷◌, Option, none, some, Text, ok}
use railgun_indexer.Audit.{AuditLib, AuditDb, empty_db}
use railgun_indexer.Audit.Poi.{
  abandon_pending_poi_v4_manifest_reconciliation, invalidate_pending_poi_manifest_reconciliation,
  unpin_unavailable,
}
use railgun_indexer.Audit.Retention.{record_pin_cleanup_debt}
use railgun_indexer.Audit.Ops.Parts.{
  settle-Keeps, abandon-parts, pin_indexed-parts, record_indexed-parts, publish_indexed-parts,
  pin_poi-parts, record_poi-parts, publish_poi-parts, invalidate-parts,
}
use railgun_indexer.Audit.Ops.{
  Op, pin_indexed, pin_indexed_manifest, publish_indexed_manifest, pin_poi, pin_poi_manifest,
  publish_poi_manifest, invalidate_poi, abandon_poi, sweep_one, owe, apply, history,
}
use railgun_indexer.Audit.Ops.References.{
  IsBacked, live-upsert, Backs-artifacts, insert_manifest-IsBacked, publish-IsBacked,
  sweep_cid-IsBacked,
}

module _ (lib : AuditLib) where
  invalidate-IsBacked :
      (now : ℕ) (db after : AuditDb) (cid : Text) (sequence : ℕ)
      → IsBacked db
      → invalidate_pending_poi_manifest_reconciliation now db cid sequence ≡ ok after
      → IsBacked after
  invalidate-IsBacked now db after cid sequence v h =
      let (s, r, _, _, same) = invalidate-parts now db after cid sequence h in
      rw same (record { backed = v.backed; fresh = v.fresh })

  unpin_unavailable-IsBacked :
      (now : ℕ) (db : AuditDb) (cid : Text) (sequence : ℕ) (unavailable : Option Text)
      → IsBacked db
      → IsBacked (unpin_unavailable now db cid sequence unavailable)
  unfolding unpin_unavailable
  unpin_unavailable-IsBacked now db cid sequence none v = v
  unpin_unavailable-IsBacked now db cid sequence (some artifact) v = record {
    backed = v.backed;
    fresh = v.fresh;
  }

  apply-IsBacked :
      (now : ℕ) (op : Op lib) (db : AuditDb) → IsBacked db → IsBacked (apply lib now op db)
  unfolding apply record_pin_cleanup_debt
  apply-IsBacked now (pin_indexed kind dataset scope range cid size hash version) db v =
      settle-Keeps lib IsBacked db _ v λ after h.
        let (new, pinned, same) =
          pin_indexed-parts now db after kind dataset scope range cid size hash version h in
        rw same (record {
          backed =
              Backs-artifacts db.indexed_manifests.rows db.indexed_artifacts _ _
                (λ c live. live-upsert new db.indexed_artifacts c pinned live) v.backed;
          fresh = v.fresh;
        })
  apply-IsBacked now (pin_indexed_manifest cid cids sequence size hash version json) db v =
      settle-Keeps lib IsBacked db _ v λ after h.
        let (_, all, s, b, same) =
          record_indexed-parts db after cid cids sequence size hash version json h in
        rw same (insert_manifest-IsBacked db cid s b hash version (some json) cids all v)
  apply-IsBacked now (publish_indexed_manifest cid sequence) db v =
      settle-Keeps lib IsBacked db _ v λ after h.
        let (s, same) = publish_indexed-parts now db after cid sequence h in
        rw same (publish-IsBacked now db cid s v)
  apply-IsBacked now (pin_poi kind scope range cid size hash end_root json) db v =
      settle-Keeps lib IsBacked db _ v λ after h.
        let (rows, same) =
          pin_poi-parts now db after kind scope range cid size hash end_root json h in
        rw same (record { backed = v.backed; fresh = v.fresh })
  apply-IsBacked now (pin_poi_manifest cid entries cids sequence size hash) db v =
      settle-Keeps lib IsBacked db _ v λ after h.
        let (_, s, b, rows, same) =
          record_poi-parts lib db after cid entries cids sequence size hash h in
        rw same (record { backed = v.backed; fresh = v.fresh })
  apply-IsBacked now (publish_poi_manifest cid sequence) db v =
      settle-Keeps lib IsBacked db _ v λ after h.
        let (s, same) = publish_poi-parts now db after cid sequence h in
        rw same (record { backed = v.backed; fresh = v.fresh })
  apply-IsBacked now (invalidate_poi cid sequence) db v =
      settle-Keeps lib IsBacked db _ v
        (λ after h. invalidate-IsBacked now db after cid sequence v h)
  apply-IsBacked now (abandon_poi cid sequence unavailable) db v =
      settle-Keeps lib IsBacked db
        (abandon_pending_poi_v4_manifest_reconciliation now db cid sequence unavailable) v
        λ after h.
          let (between, e, same) = abandon-parts now db after cid sequence unavailable h in
          rw same (
            unpin_unavailable-IsBacked now between cid sequence unavailable
              (invalidate-IsBacked now db between cid sequence v e))
  apply-IsBacked now (sweep_one unpin cutoff cid) db v = sweep_cid-IsBacked unpin now cutoff _ cid v
  apply-IsBacked now (owe cid provider error) db v = record { backed = v.backed; fresh = v.fresh }

  history-Keeps :
      (db : AuditDb) (ops : List (ℕ × Op lib)) → IsBacked db → IsBacked (history lib db ops)
  unfolding history
  history-Keeps db [] v = v
  history-Keeps db ((now, op) ∷ rest) v =
      history-Keeps (apply lib now op db) rest (apply-IsBacked now op db v)

  -- After any history of the tables, every artifact that a live chain-indexed manifest (one that is
  -- neither superseded nor unpinned) refers to is pinned.
  pub history-IsBacked : (ops : List (ℕ × Op lib)) → IsBacked (history lib empty_db ops)
  history-IsBacked ops = history-Keeps empty_db ops (record { backed = tt; fresh = tt })
