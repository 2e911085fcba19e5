-- ===== src/Audit/Ops/Pending.antt =====
-- What each transaction does to the pending and the current manifests
-- (crates/railgun-indexer-core/src/audit.rs).
use railgun_indexer.Prelude.{
  ℕ, ◌≤◌, ◌≡◌, ◌&&◌, List, Option, Bool, true, arith, All, All-append, Bool-cases, Result-cases,
  inl, inr, Text, text_eq, ok,
}
use railgun_indexer.Codec.{Bytes}
use railgun_indexer.Audit.{ManifestRow, Manifests, AuditDb, is_null, is_set, update_rows}
use railgun_indexer.Audit.Publication.{
  is_pending, has_identity, reject_unresolved_pending, insert_manifest, can_publish, mark_published,
  mark_superseded, indexed_superseded, poi_superseded,
}
use railgun_indexer.Audit.Poi.{mark_invalidated}
use railgun_indexer.Audit.Retention.{
  UnpinService, Sweep, sweep_cid, still_eligible, mark_unpinned, unpin_manifest,
  unpin_indexed_manifests, unpin_indexed_artifacts, unpin_poi_manifests, unpin_poi_artifacts,
}
use railgun_indexer.Audit.Ops.Rows.{
  count_rows, count-update, count-append, All-update, All-update_all,
}

abbrev pub is_active : ManifestRow → Bool
is_active r = is_set r.ipns_published_at && is_null r.superseded_at

-- At most one manifest is pending, and those that are current have one CID and sequence.
pub record IsSingle (m : Manifests) : Type 0 where
  pub few : count_rows is_pending m.rows ≤ 1
  pub cid : Text
  pub sequence : ℕ
  pub agree : All (λ r. is_active r ≡ true → has_identity cid sequence r ≡ true) m.rows

-- The same, but those that are current have one CID.
pub record IsSinglePoi (m : Manifests) : Type 0 where
  pub few : count_rows is_pending m.rows ≤ 1
  pub cid : Text
  pub agree : All (λ (r : ManifestRow). is_active r ≡ true → text_eq r.cid cid ≡ true) m.rows

pub reject-count :
    (channel : Text) (m : Manifests)
    → reject_unresolved_pending channel m ≡ ok tt
    → count_rows is_pending m.rows ≡ 0
unfolding reject_unresolved_pending
reject-count channel m h = ground arith

insert_manifest-few :
    (m : Manifests) (cid : Text) (sequence byte_size : ℕ) (hash : Bytes) (version : ℕ)
    (json : Option Text) (cids : List Text)
    → count_rows is_pending m.rows ≡ 0
    → count_rows is_pending (insert_manifest m cid sequence byte_size hash version json cids).rows
      ≤ 1
unfolding insert_manifest
insert_manifest-few m cid sequence byte_size hash version json cids h =
    omega (arith, count-append is_pending m.rows _)

pending-of_published :
    (now : ℕ) (r : ManifestRow) → is_pending (mark_published now r) ≡ true → is_pending r ≡ true
pending-of_published now r h = ground arith

pending-of_superseded :
    (now : ℕ) (r : ManifestRow) → is_pending (mark_superseded now r) ≡ true → is_pending r ≡ true
pending-of_superseded now r h = ground arith

publish-few :
    (now : ℕ) (published superseded : ManifestRow → Bool) (rows : List ManifestRow)
    → count_rows is_pending rows ≤ 1
    → count_rows is_pending (
        update_rows superseded
          (mark_superseded now)
          (update_rows published (mark_published now) rows))
      ≤ 1
publish-few now published superseded rows h = omega (
  arith,
  count-update is_pending published (mark_published now) rows (pending-of_published now),
  count-update is_pending superseded (mark_superseded now)
      (update_rows published (mark_published now) rows) (pending-of_superseded now),
)

pub insert_manifest-IsSingle :
    (m : Manifests) (cid : Text) (sequence size : ℕ) (hash : Bytes) (version : ℕ)
    (json : Option Text) (cids : List Text)
    → count_rows is_pending m.rows ≡ 0
    → IsSingle m
    → IsSingle (insert_manifest m cid sequence size hash version json cids)
unfolding insert_manifest
insert_manifest-IsSingle m cid sequence size hash version json cids none_pending v = record {
  few = insert_manifest-few m cid sequence size hash version json cids none_pending;
  cid = v.cid;
  sequence = v.sequence;
  agree = All-append _ m.rows _ v.agree (λ active. absurd (cc active), tt);
}

pub insert_manifest-IsSinglePoi :
    (m : Manifests) (cid : Text) (sequence size : ℕ) (hash : Bytes) (version : ℕ)
    (json : Option Text) (cids : List Text)
    → count_rows is_pending m.rows ≡ 0
    → IsSinglePoi m
    → IsSinglePoi (insert_manifest m cid sequence size hash version json cids)
unfolding insert_manifest
insert_manifest-IsSinglePoi m cid sequence size hash version json cids none_pending v = record {
  few = insert_manifest-few m cid sequence size hash version json cids none_pending;
  cid = v.cid;
  agree = All-append _ m.rows _ v.agree (λ active. absurd (cc active), tt);
}

pub publish-IsSingle :
    (now : ℕ) (m : Manifests) (cid : Text) (sequence : ℕ)
    → IsSingle m
    → IsSingle (record m {
      rows =
          update_rows
            (indexed_superseded cid sequence)
            (mark_superseded now)
            (update_rows (can_publish cid sequence) (mark_published now) m.rows);
    })
publish-IsSingle now m cid sequence v = record {
  few = publish-few now (can_publish cid sequence) (indexed_superseded cid sequence) m.rows v.few;
  cid = cid;
  sequence = sequence;
  agree =
      All-update_all (λ (r : ManifestRow). is_active r ≡ true → has_identity cid sequence r ≡ true)
        (indexed_superseded cid sequence) (mark_superseded now) _
        (λ r changed active. absurd (ground arith)) (λ r kept active. ground arith);
}

pub publish-IsSinglePoi :
    (now : ℕ) (m : Manifests) (cid : Text) (sequence : ℕ)
    → IsSinglePoi m
    → IsSinglePoi (record m {
      rows =
          update_rows
            (poi_superseded cid sequence)
            (mark_superseded now)
            (update_rows (can_publish cid sequence) (mark_published now) m.rows);
    })
publish-IsSinglePoi now m cid sequence v = record {
  few = publish-few now (can_publish cid sequence) (poi_superseded cid sequence) m.rows v.few;
  cid = cid;
  agree =
      All-update_all (λ (r : ManifestRow). is_active r ≡ true → text_eq r.cid cid ≡ true)
        (poi_superseded cid sequence) (mark_superseded now) _
        (λ r changed active. absurd (ground arith)) (λ r kept active. ground arith);
}

pub invalidate-IsSinglePoi :
    (now : ℕ) (m : Manifests) (test : ManifestRow → Bool)
    → IsSinglePoi m
    → IsSinglePoi (record m { rows = update_rows test (mark_invalidated now) m.rows })
invalidate-IsSinglePoi now m test v = record {
  few = omega (
    arith,
    count-update is_pending test (mark_invalidated now) m.rows (λ r h. ground arith),
    v.few,
  );
  cid = v.cid;
  agree = All-update _ test (mark_invalidated now) m.rows (λ r h changed. h) v.agree;
}

unpin-few :
    (at : ℕ) (test : ManifestRow → Bool) (rows : List ManifestRow)
    → count_rows is_pending rows ≤ 1
    → count_rows is_pending (update_rows test (unpin_manifest at) rows) ≤ 1
unpin-few at test rows h =
    omega (arith, count-update is_pending test (unpin_manifest at) rows (λ r e. ground arith))

pub record IsSingleDb (db : AuditDb) : Type 0 where
  pub indexed : IsSingle db.indexed_manifests
  pub poi : IsSinglePoi db.poi_manifests

pub sweep_cid-IsSingle :
    (unpin : UnpinService) (at cutoff : ℕ) (s : Sweep) (cid : Text)
    → IsSingleDb s.db
    → IsSingleDb (sweep_cid unpin at cutoff s cid).db
unfolding sweep_cid mark_unpinned unpin_indexed_manifests unpin_indexed_artifacts
    unpin_poi_manifests unpin_poi_artifacts
sweep_cid-IsSingle unpin at cutoff s cid v = elim (Bool-cases (still_eligible s.db cutoff cid)) [
  | inr kept ↦ rw kept v
  | inl gone ↦ elim (Result-cases (unpin cid)) [
    | inr (e, failed) ↦ rw (gone, failed) v
    | inl (_, done) ↦
        rw (gone, done)
          (record {
            indexed = record {
              few = unpin-few at _ s.db.indexed_manifests.rows v.indexed.few;
              cid = v.indexed.cid;
              sequence = v.indexed.sequence;
              agree =
                  All-update _ _ (unpin_manifest at) s.db.indexed_manifests.rows (λ r h changed. h)
                    v.indexed.agree;
            };
            poi = record {
              few = unpin-few at _ s.db.poi_manifests.rows v.poi.few;
              cid = v.poi.cid;
              agree =
                  All-update _ _ (unpin_manifest at) s.db.poi_manifests.rows (λ r h changed. h)
                    v.poi.agree;
            };
          })
  ]
]
