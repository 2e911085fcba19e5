-- ===== src/Audit/Ops/References.antt =====
-- What each transaction does to the references of live manifests
-- (crates/railgun-indexer-core/src/audit.rs).
use railgun_indexer.Prelude.{
  ℕ, ◌+◌, ◌<◌, ◌≡◌, ◌&&◌, ◌||◌, ◌==◌, List, [], ◌∷◌, ◌++◌, length, Option, none, Bool, true, false,
  arith, All, All-append, All-map, All-all, Bool-cases, Result-cases, inl, inr, Text, text_eq,
  text_eq→eq, text_eq_refl, is_empty,
}
use railgun_indexer.Codec.{Bytes}
use railgun_indexer.Audit.{
  ManifestRow, IndexedArtifactRow, AuditDb, is_null, exists_row, update_rows,
}
use railgun_indexer.Audit.Publication.{
  insert_manifest, insert_reference, insert_references, live_indexed, live_count, distinct,
  mark_published, mark_superseded, can_publish, indexed_superseded,
}
use railgun_indexer.Audit.Artifacts.{upsert_indexed, same_indexed, refresh_indexed}
use railgun_indexer.Audit.Retention.{
  UnpinService, Sweep, sweep_cid, still_eligible, is_live, refers, mark_unpinned, unpin_manifest,
  unpin_indexed, unpin_indexed_manifests, unpin_indexed_artifacts, unpin_poi_manifests,
  unpin_poi_artifacts,
}
use railgun_indexer.Audit.Ops.Rows.{
  exists-update_before, exists-update_after, exists-append_left, exists-snoc_before, where_all,
  where-le, length-distinct-le, All-distinct,
}

-- A live row of a manifest.
abbrev pub live_row : ℕ → ManifestRow → Bool
live_row id r = (r.id == id) && is_live r

-- If the manifest of a reference is live, an artifact with its CID is pinned.
abbrev pub Backs : List ManifestRow → List IndexedArtifactRow → ℕ × Text → Type 0
Backs rows artifacts e = exists_row (live_row e.0) rows ≡ true → live_indexed artifacts e.1 ≡ true

-- Every artifact of a live chain-indexed manifest is pinned; the numbers of the manifests are below the
-- next one.
pub record IsBacked (db : AuditDb) : Type 0 where
  pub backed :
      All (Backs db.indexed_manifests.rows db.indexed_artifacts) db.indexed_manifests.references
  pub fresh :
      All (λ (e : ℕ × Text). e.0 < db.indexed_manifests.next_id) db.indexed_manifests.references

pub live-upsert :
    (new : IndexedArtifactRow) (rows : List IndexedArtifactRow) (cid : Text)
    → new.unpinned_at ≡ none
    → live_indexed rows cid ≡ true
    → live_indexed (upsert_indexed new rows) cid ≡ true
unfolding upsert_indexed
live-upsert new rows cid pinned h = elim (Bool-cases (exists_row (same_indexed new) rows)) [
  | inl there ↦ rw there (
      exists-update_after (λ r. text_eq r.cid cid && is_null r.unpinned_at) (same_indexed new)
        (refresh_indexed new) rows (λ r same live. ground arith) h)
  | inr absent ↦ rw absent (exists-append_left _ rows (new ∷ []) h)
]

-- Manifests that do not come to life need no more.
Backs-manifests :
    (before after : List ManifestRow) (artifacts : List IndexedArtifactRow)
    (references : List (ℕ × Text))
    → ((id : ℕ) → exists_row (live_row id) after ≡ true → exists_row (live_row id) before ≡ true)
    → All (Backs before artifacts) references
    → All (Backs after artifacts) references
Backs-manifests before after artifacts references h =
    All-map (λ e backs live. backs (h e.0 live)) references

pub Backs-artifacts :
    (rows : List ManifestRow) (before after : List IndexedArtifactRow)
    (references : List (ℕ × Text))
    → ((cid : Text) → live_indexed before cid ≡ true → live_indexed after cid ≡ true)
    → All (Backs rows before) references
    → All (Backs rows after) references
Backs-artifacts rows before after references h =
    All-map (λ e backs live. h e.1 (backs live)) references

insert_references-All :
    (P : ℕ × Text → Type 0) (id : ℕ) (cids : List Text) (references : List (ℕ × Text))
    → All (λ cid. P (id, cid)) cids
    → All P references
    → All P (insert_references id cids references)
unfolding insert_references insert_reference
insert_references-All P id [] references h v = v
insert_references-All P id (cid ∷ rest) references h v =
    elim (Bool-cases (exists_row (λ (e : ℕ × Text). (e.0 == id) && text_eq e.1 cid) references)) [
      | inl there ↦ rw there (insert_references-All P id rest references h.1 v)
      | inr absent ↦ rw absent (
          insert_references-All P id rest (references ++ (id, cid) ∷ []) h.1
            (All-append P references ((id, cid) ∷ []) v (h.0, tt)))
    ]

-- The check of the count: every artifact is pinned.
all_live :
    (rows : List IndexedArtifactRow) (cids : List Text)
    → (is_empty cids || (live_count (live_indexed rows) cids == length cids)) ≡ true
    → All (λ cid. live_indexed rows cid ≡ true) cids
unfolding live_count
all_live rows [] h = tt
all_live rows (cid ∷ rest) h = All-distinct (live_indexed rows) (cid ∷ rest) (
    where_all (live_indexed rows) (distinct (cid ∷ rest)) (
      ground (
        arith,
        where-le (live_indexed rows) (distinct (cid ∷ rest)),
        length-distinct-le (cid ∷ rest),
      )))

-- A new manifest is behind the manifests of all references.
Backs-snoc :
    (rows : List ManifestRow) (artifacts : List IndexedArtifactRow) (new : ManifestRow)
    (references : List (ℕ × Text))
    → All (λ (e : ℕ × Text). e.0 < new.id) references
    → All (Backs rows artifacts) references
    → All (Backs (rows ++ new ∷ []) artifacts) references
Backs-snoc rows artifacts new [] f v = tt
Backs-snoc rows artifacts new (e ∷ rest) f v = (
  λ live. v.0 (exists-snoc_before (live_row e.0) rows new (ground (arith, f.0)) live),
  Backs-snoc rows artifacts new rest f.1 v.1,
)

pub insert_manifest-IsBacked :
    (db : AuditDb) (cid : Text) (sequence size : ℕ) (hash : Bytes) (version : ℕ)
    (json : Option Text) (cids : List Text)
    → (is_empty cids || (live_count (live_indexed db.indexed_artifacts) cids == length cids)) ≡ true
    → IsBacked db
    → IsBacked (record db {
      indexed_manifests =
          insert_manifest db.indexed_manifests cid sequence size hash version json cids;
    })
unfolding insert_manifest
insert_manifest-IsBacked db cid sequence size hash version json cids all v =
    let m = db.indexed_manifests in
    record {
      backed =
          insert_references-All _ m.next_id cids m.references
            (All-map (λ c live _. live) cids (all_live db.indexed_artifacts cids all))
            (Backs-snoc m.rows db.indexed_artifacts _ m.references v.fresh v.backed);
      fresh =
          insert_references-All (λ (e : ℕ × Text). e.0 < m.next_id + 1) m.next_id cids m.references
            (All-all _ (λ c. omega arith) cids)
            (All-map (λ (e : ℕ × Text) small. omega (arith, small)) m.references v.fresh);
    }

pub publish-IsBacked :
    (now : ℕ) (db : AuditDb) (cid : Text) (sequence : ℕ)
    → IsBacked db
    → IsBacked (record db {
      indexed_manifests = record db.indexed_manifests {
        rows =
            update_rows (indexed_superseded cid sequence) (mark_superseded now) (
              update_rows
                (can_publish cid sequence)
                (mark_published now)
                db.indexed_manifests.rows);
      };
    })
publish-IsBacked now db cid sequence v = record {
  backed =
      Backs-manifests db.indexed_manifests.rows _ db.indexed_artifacts _
        (λ id live.
          exists-update_before (live_row id) (can_publish cid sequence) (mark_published now) _
            (λ r after. after)
            (exists-update_before (live_row id) (indexed_superseded cid sequence)
              (mark_superseded now) _ (λ r after. ground arith) live))
        v.backed;
  fresh = v.fresh;
}

-- What no live manifest refers to may go.
Backs-unreferenced :
    (cid : Text) (before after : List ManifestRow) (old new : List IndexedArtifactRow)
    (references : List (ℕ × Text))
    → ((id : ℕ) → exists_row (live_row id) after ≡ true → exists_row (live_row id) before ≡ true)
    → ((c : Text) → text_eq c cid ≡ false → live_indexed old c ≡ true → live_indexed new c ≡ true)
    → exists_row (λ (e : ℕ × Text). text_eq e.1 cid && exists_row (live_row e.0) before) references
      ≡ false
    → All (Backs before old) references
    → All (Backs after new) references
unfolding exists_row
Backs-unreferenced cid before after old new [] m a h v = tt
Backs-unreferenced cid before after old new (e ∷ rest) m a h v = (
  λ live. a e.1 (ground (arith, m e.0 live)) (v.0 (m e.0 live)),
  Backs-unreferenced cid before after old new rest m a (ground arith) v.1,
)

others_stay :
    (at : ℕ) (cid c : Text) (more : IndexedArtifactRow → Bool) (rows : List IndexedArtifactRow)
    → text_eq c cid ≡ false
    → live_indexed rows c ≡ true
    → live_indexed (update_rows (λ r. text_eq r.cid cid && more r) (unpin_indexed at) rows) c ≡ true
others_stay at cid c more rows other live =
    exists-update_after (λ r. text_eq r.cid c && is_null r.unpinned_at) _ (unpin_indexed at) rows
      (λ r changed here.
        let same = text_eq→eq r.cid cid (ground arith) in
        let found = text_eq→eq r.cid c (ground arith) in
        absurd (cc (text_eq_refl cid, same, found, other)))
      live

eligible-unreferenced :
    (db : AuditDb) (cutoff : ℕ) (cid : Text)
    → still_eligible db cutoff cid ≡ true
    → refers db.indexed_manifests cid ≡ false
unfolding still_eligible
eligible-unreferenced db cutoff cid h = ground arith

pub sweep_cid-IsBacked :
    (unpin : UnpinService) (at cutoff : ℕ) (s : Sweep) (cid : Text)
    → IsBacked s.db
    → IsBacked (sweep_cid unpin at cutoff s cid).db
unfolding sweep_cid mark_unpinned unpin_indexed_manifests unpin_indexed_artifacts
    unpin_poi_manifests unpin_poi_artifacts
sweep_cid-IsBacked unpin at cutoff s cid v = elim (Bool-cases (still_eligible s.db cutoff cid)) [
  | inr kept ↦ rw kept v
  | inl gone ↦ elim (Result-cases (unpin cid)) [
    | inr (e, failed) ↦ rw (gone, failed) v
    | inl (_, done) ↦
        rw (gone, done)
          (record {
            backed =
                Backs-unreferenced cid s.db.indexed_manifests.rows _ s.db.indexed_artifacts _ _
                  (λ id live.
                    exists-update_before (live_row id) _ (unpin_manifest at)
                      s.db.indexed_manifests.rows (λ r after. ground arith) live)
                  (λ c other live. others_stay at cid c _ s.db.indexed_artifacts other live)
                  (eligible-unreferenced s.db cutoff cid gone) v.backed;
            fresh = v.fresh;
          })
  ]
]
