-- ===== src/Audit/Retention.antt =====
-- The retention sweep (crates/railgun-indexer-core/src/audit.rs). What the pinning service answers to
-- `unpin` is an argument.
use railgun_indexer.Prelude.{
  ℕ, ◌+◌, ◌==◌, leb, ltb, not, ◌&&◌, ◌||◌, List, [], ◌∷◌, ◌++◌, Option, none, some, Bool, false,
  Result, ok, err, ◌>>=◌, ◌>>◌, map_err, if◌then◌else◌, Text, text_eq, codes, ok_or, checked_sub,
  try_narrow, map,
}
use railgun_indexer.PoiStore.Blocked.{bytes_lt}
use railgun_indexer.Audit.{
  AuditLib, ManifestRow, Manifests, IndexedArtifactRow, PoiArtifactRow, DebtRow, AuditDb,
  invalid_cid, integer_out_of_range, time_before_unix_epoch, Audited, i64_mod, u64_to_i64, is_null,
  is_set, exists_row, where_rows, update_rows,
}
use railgun_indexer.Audit.Publication.{distinct, live_indexed, live_poi}

-- Superseded by the cutoff and still pinned.
abbrev pub stale_manifest : ℕ → Text → ManifestRow → Bool
stale_manifest cutoff cid r =
    text_eq r.cid cid
    && (is_null r.unpinned_at && elim r.superseded_at [ none ↦ false | some t ↦ leb t cutoff ])

-- Published and not superseded.
abbrev pub active_manifest : Text → ManifestRow → Bool
active_manifest cid r = text_eq r.cid cid && (is_set r.ipns_published_at && is_null r.superseded_at)

-- Neither superseded nor unpinned.
abbrev pub is_live : ManifestRow → Bool
is_live r = is_null r.superseded_at && is_null r.unpinned_at

-- A live manifest refers to the CID.
abbrev pub refers : Manifests → Text → Bool
refers m cid =
    exists_row
      (λ (e : ℕ × Text).
        text_eq e.1 cid && exists_row (λ (r : ManifestRow). (r.id == e.0) && is_live r) m.rows)
      m.references

abbrev pub recent_indexed : ℕ → Text → IndexedArtifactRow → Bool
recent_indexed cutoff cid r =
    text_eq r.cid cid && (is_null r.unpinned_at && ltb cutoff r.last_referenced_at)

abbrev pub recent_poi : ℕ → Text → PoiArtifactRow → Bool
recent_poi cutoff cid r =
    text_eq r.cid cid && (is_null r.unpinned_at && ltb cutoff r.last_referenced_at)

-- `HAVING MAX(last_referenced_at) <= cutoff` of the pinned rows of the CID: there is one, and none is newer.
abbrev stale_indexed : ℕ → Text → List IndexedArtifactRow → Bool
stale_indexed cutoff cid rows =
    live_indexed rows cid && not (exists_row (recent_indexed cutoff cid) rows)

abbrev stale_poi : ℕ → Text → List PoiArtifactRow → Bool
stale_poi cutoff cid rows = live_poi rows cid && not (exists_row (recent_poi cutoff cid) rows)

-- Nothing holds the CID.
abbrev pub unheld : AuditDb → ℕ → Text → Bool
unheld db cutoff cid =
    not (exists_row (active_manifest cid) db.indexed_manifests.rows)
    && (not (exists_row (recent_indexed cutoff cid) db.indexed_artifacts)
        && (not (refers db.indexed_manifests cid)
            && (not (exists_row (λ r. text_eq r.cid cid && is_live r) db.poi_manifests.rows)
                && (not (exists_row (recent_poi cutoff cid) db.poi_artifacts)
                    && not (refers db.poi_manifests cid)))))

unfoldable pub still_eligible : AuditDb → ℕ → Text → Bool
still_eligible db cutoff cid =
    (exists_row (stale_manifest cutoff cid) db.indexed_manifests.rows
      || (stale_indexed cutoff cid db.indexed_artifacts
          || (exists_row (stale_manifest cutoff cid) db.poi_manifests.rows
              || stale_poi cutoff cid db.poi_artifacts)))
    && unheld db cutoff cid

abbrev pub unpin_manifest : ℕ → ManifestRow → ManifestRow
unpin_manifest at r = record r { unpinned_at = some at }

abbrev pub unpin_indexed : ℕ → IndexedArtifactRow → IndexedArtifactRow
unpin_indexed at r = record r { unpinned_at = some at }

abbrev unpin_poi : ℕ → PoiArtifactRow → PoiArtifactRow
unpin_poi at r = record r { unpinned_at = some at }

-- The guard of the first two updates.
abbrev pub indexed_unheld : AuditDb → ℕ → Text → Bool
indexed_unheld db cutoff cid =
    not (exists_row (active_manifest cid) db.indexed_manifests.rows)
    && not (exists_row (recent_indexed cutoff cid) db.indexed_artifacts)

unfoldable pub unpin_indexed_manifests : ℕ → ℕ → Text → AuditDb → AuditDb
unpin_indexed_manifests swept_at cutoff cid db = record db {
  indexed_manifests = record db.indexed_manifests {
    rows =
        update_rows (λ r. stale_manifest cutoff cid r && indexed_unheld db cutoff cid)
          (unpin_manifest swept_at) db.indexed_manifests.rows;
  };
}

unfoldable pub unpin_indexed_artifacts : ℕ → ℕ → Text → AuditDb → AuditDb
unpin_indexed_artifacts swept_at cutoff cid db = record db {
  indexed_artifacts =
      update_rows
        (λ r.
          text_eq r.cid cid
          && (is_null r.unpinned_at
              && (leb r.last_referenced_at cutoff && indexed_unheld db cutoff cid)))
        (unpin_indexed swept_at) db.indexed_artifacts;
}

unfoldable pub unpin_poi_manifests : ℕ → ℕ → Text → AuditDb → AuditDb
unpin_poi_manifests swept_at cutoff cid db = record db {
  poi_manifests = record db.poi_manifests {
    rows = update_rows (stale_manifest cutoff cid) (unpin_manifest swept_at) db.poi_manifests.rows;
  };
}

unfoldable pub unpin_poi_artifacts : ℕ → ℕ → Text → AuditDb → AuditDb
unpin_poi_artifacts swept_at cutoff cid db = record db {
  poi_artifacts =
      update_rows
        (λ r. text_eq r.cid cid && (is_null r.unpinned_at && leb r.last_referenced_at cutoff))
        (unpin_poi swept_at) db.poi_artifacts;
}

unfoldable pub mark_unpinned : ℕ → ℕ → Text → AuditDb → AuditDb
mark_unpinned swept_at cutoff cid db = unpin_poi_artifacts swept_at cutoff cid (
    unpin_poi_manifests swept_at cutoff cid (
      unpin_indexed_artifacts swept_at cutoff cid (unpin_indexed_manifests swept_at cutoff cid db)))

-- A manifest that is still pinned refers to the CID.
abbrev edge_of_pinned : Text → Manifests → Bool
edge_of_pinned cid m =
    exists_row
      (λ (e : ℕ × Text).
        text_eq e.1 cid
        && exists_row (λ (r : ManifestRow). (r.id == e.0) && is_null r.unpinned_at) m.rows)
      m.references

unfoldable pub publication_cid_is_referenced : AuditDb → Text → Bool
publication_cid_is_referenced db cid =
    live_indexed db.indexed_artifacts cid
    || (exists_row (λ r. text_eq r.cid cid && is_null r.unpinned_at) db.indexed_manifests.rows
        || (live_poi db.poi_artifacts cid
            || (exists_row (λ r. text_eq r.cid cid && is_null r.unpinned_at) db.poi_manifests.rows
                || (edge_of_pinned cid db.indexed_manifests
                    || edge_of_pinned cid db.poi_manifests))))

-- A row of pin_cleanup_debt is written; one with the CID keeps its attempts and its creation.
unfoldable pub record_pin_cleanup_debt : ℕ → AuditDb → Text → Text → Text → AuditDb
record_pin_cleanup_debt now db cid provider error = record db {
  debts =
      if exists_row (λ d. text_eq d.cid cid) db.debts
      then update_rows (λ d. text_eq d.cid cid)
          (λ d. record d { provider = provider; last_error = error }) db.debts
      else db.debts
        ++ record {
          cid = cid;
          provider = provider;
          attempts = 0;
          last_error = error;
          created_at = now;
        }
          ∷ [];
}

-- `unpin` of a service: done, or the text of its error. A log of the calls is kept.
pub record Sweep : Type 0 where
  pub db : AuditDb
  pub unpinned_cids : List Text
  pub failed_cids : List (Text × Text)

abbrev pub UnpinService : Type 0
UnpinService = Text → Result Text (Unit {0})

-- `DELETE FROM pin_cleanup_debt`
abbrev settle_debt : Text → AuditDb → AuditDb
settle_debt cid db = record db { debts = where_rows (λ d. not (text_eq d.cid cid)) db.debts }

-- `checked_add` of an i64
abbrev next_attempts : ℕ → Option ℕ
next_attempts n = try_narrow i64_mod (n + 1)

unfoldable pub retry_debt : UnpinService → Sweep → DebtRow → Audited Sweep
retry_debt unpin s debt =
    if publication_cid_is_referenced s.db debt.cid
    then ok (record s { db = settle_debt debt.cid s.db })
    else elim (unpin debt.cid) [
      | ok _ ↦ ok (record s {
        db = settle_debt debt.cid s.db;
        unpinned_cids = s.unpinned_cids ++ debt.cid ∷ [];
      })
      | err error ↦ do
        attempts ←
            ok_or (next_attempts debt.attempts)
              (integer_out_of_range (codes "pin_cleanup_debt attempts") debt.attempts)
        ok (record s {
          db = record s.db {
            debts =
                update_rows (λ d. text_eq d.cid debt.cid)
                  (λ d. record d { attempts = attempts; last_error = error }) s.db.debts;
          };
          failed_cids = s.failed_cids ++ (debt.cid, error) ∷ [];
        })
    ]

-- The transaction of a candidate.
unfoldable pub sweep_cid : UnpinService → ℕ → ℕ → Sweep → Text → Sweep
sweep_cid unpin swept_at cutoff s cid =
    if still_eligible s.db cutoff cid
    then elim (unpin cid) [
      | err error ↦ record s { failed_cids = s.failed_cids ++ (cid, error) ∷ [] }
      | ok _ ↦ record s {
        db = mark_unpinned swept_at cutoff cid s.db;
        unpinned_cids = s.unpinned_cids ++ cid ∷ [];
      }
    ]
    else s

module _ (lib : AuditLib) where
  open lib use {try_from}

  abbrev parse_cid : Text → Audited lib.Cid
  parse_cid cid = map_err (invalid_cid cid) (try_from cid)

  unfoldable pub retry_debts : UnpinService → Sweep → List DebtRow → Audited Sweep
  retry_debts unpin s [] = ok s
  retry_debts unpin s (debt ∷ rest) = do
    parse_cid debt.cid
    next ← retry_debt unpin s debt
    retry_debts unpin next rest

  -- `ORDER BY created_at, cid`
  unfoldable pub insert_debt : DebtRow → List DebtRow → List DebtRow
  insert_debt d [] = d ∷ []
  insert_debt d (e ∷ rest) =
      let later = insert_debt d rest in
      if ltb e.created_at d.created_at || ((e.created_at == d.created_at) && bytes_lt e.cid d.cid)
      then e ∷ later
      else d ∷ e ∷ rest

  unfoldable pub ordered_debts : List DebtRow → List DebtRow
  ordered_debts [] = []
  ordered_debts (d ∷ rest) = insert_debt d (ordered_debts rest)

  unfoldable pub retry_pin_cleanup_debt : UnpinService → AuditDb → Audited Sweep
  retry_pin_cleanup_debt unpin db =
      retry_debts unpin (record { db = db; unpinned_cids = []; failed_cids = [] })
        (ordered_debts db.debts)

  -- `ORDER BY cid ASC`
  unfoldable pub insert_cid : Text → List Text → List Text
  insert_cid t [] = t ∷ []
  insert_cid t (u ∷ rest) =
      let later = insert_cid t rest in if bytes_lt u t then u ∷ later else t ∷ u ∷ rest

  unfoldable pub sort_cids : List Text → List Text
  sort_cids [] = []
  sort_cids (t ∷ rest) = insert_cid t (sort_cids rest)

  -- Every CID of the four tables.
  unfoldable pub all_cids : AuditDb → List Text
  all_cids db =
      map (λ (r : ManifestRow). r.cid) db.indexed_manifests.rows
      ++ (map (λ (r : IndexedArtifactRow). r.cid) db.indexed_artifacts
          ++ (map (λ (r : ManifestRow). r.cid) db.poi_manifests.rows
              ++ map (λ (r : PoiArtifactRow). r.cid) db.poi_artifacts))

  -- The first query: of all CIDs those that are eligible, each once, in order.
  unfoldable pub candidates : AuditDb → ℕ → List Text
  candidates db cutoff = sort_cids (distinct (where_rows (still_eligible db cutoff) (all_cids db)))

  unfoldable pub sweep_cids : UnpinService → ℕ → ℕ → Sweep → List Text → Audited Sweep
  sweep_cids unpin swept_at cutoff s [] = ok s
  sweep_cids unpin swept_at cutoff s (cid ∷ rest) = do
    parse_cid cid
    sweep_cids unpin swept_at cutoff (sweep_cid unpin swept_at cutoff s cid) rest

  -- `now` is in seconds since the epoch; the time before it is an error.
  unfoldable pub sweep_with_coordinator : UnpinService → ℕ → ℕ → AuditDb → Audited Sweep
  sweep_with_coordinator unpin now retention_interval db = do
    before ← ok_or (checked_sub now retention_interval) time_before_unix_epoch
    cutoff ← u64_to_i64 before (codes "retention cutoff")
    swept_at ← u64_to_i64 now (codes "retention cutoff")
    paid ← retry_pin_cleanup_debt unpin db
    sweep_cids unpin swept_at cutoff paid (candidates paid.db cutoff)
