-- ===== src/Check.antt =====
-- internal/repository/check.go: the consistency scan.
pub mod Sound
use vestige.Prelude.{
  ℕ, ◌+◌, Bool, Bytes, Option, none, some, List, [], ◌∷◌, ◌++◌, if◌then◌else◌, str, ◌==◌, contains,
  length, sort, lt_bytes, lookup, put, is_empty,
}
use vestige.Errors.{Error, Result, ok, err}
use vestige.Actions.{Action, ◌>>=◌, pure, wrapped, attempt}
use vestige.Model.{Manifest}
use vestige.Paths.{chunk_path, key_base}
use vestige.Host.{Host}
use vestige.Store.{ObjectStore, StoredObject}
use vestige.Repository.{Repository, World, store_list}
use vestige.Snapshots.{read_manifest, snapshot_of_key}
use vestige.Chunks.{verify_chunk}
use vestige.Gc.{mark_entries}

-- The kinds of issue with what they name; `detail` texts are the errors.
pub data IssueKind : Type 0 where
  invalid_manifest invalid_chunk_key missing_chunk corrupt_chunk orphan_chunk : IssueKind

pub record CheckIssue : Type 0 where
  pub kind : IssueKind
  pub object : Bytes
  pub snapshot : Bytes
  pub detail : Option Error

pub record CheckReport : Type 0 where
  pub format_version : ℕ
  pub snapshots : ℕ
  pub referenced_chunks : ℕ
  pub stored_chunks : ℕ
  pub orphan_chunks : ℕ
  pub issues : List CheckIssue

unfoldable pub healthy : CheckReport → Bool
healthy report = is_empty report.issues

kind_text : IssueKind → Bytes
unfolding str
kind_text invalid_manifest = str "invalid_manifest"
kind_text invalid_chunk_key = str "invalid_chunk_key"
kind_text missing_chunk = str "missing_chunk"
kind_text corrupt_chunk = str "corrupt_chunk"
kind_text orphan_chunk = str "orphan_chunk"

issue_before : CheckIssue → CheckIssue → Bool
unfolding kind_text
issue_before a b =
    if a.object == b.object
    then lt_bytes (kind_text a.kind) (kind_text b.kind)
    else lt_bytes a.object b.object

-- What the scan of the manifests has found: the snapshots read, the live chunks and the issues.
pub record Scan : Type 0 where
  pub snapshots : ℕ
  pub live : List Bytes
  pub issues : List CheckIssue

scan_result : StoredObject → Bytes → Result Manifest → Scan → Scan
scan_result o id (ok m) sc = record sc {
  snapshots = sc.snapshots + 1;
  live = mark_entries sc.live m.files;
}
scan_result o id (err e) sc = record sc {
  issues =
      sc.issues
      ++ record { kind = invalid_manifest; object = o.key; snapshot = id; detail = some e } ∷ [];
}

-- The stored chunks by identifier, and the keys that name no chunk.
unfoldable pub index_chunks :
    List StoredObject
    → List (Bytes × StoredObject)
    → List CheckIssue
    → ℕ
    → List (Bytes × StoredObject) × List CheckIssue × ℕ
index_chunks [] stored issues n = (stored, issues, n)
index_chunks (o ∷ os) stored issues n = elim (chunk_path (key_base o.key)) [
  | err e ↦
      index_chunks os stored
        (issues
          ++ record { kind = invalid_chunk_key; object = o.key; snapshot = []; detail = some e }
            ∷ [])
        n
  | ok _ ↦ index_chunks os (put (key_base o.key) o stored) issues (n + 1)
]

-- The stored chunks that are not live.
unfoldable pub orphans : List Bytes → List (Bytes × StoredObject) → List CheckIssue
orphans live [] = []
orphans live ((id, o) ∷ stored) =
    let rest = orphans live stored in
    if contains live id
    then rest
    else record { kind = orphan_chunk; object = o.key; snapshot = []; detail = none } ∷ rest

module _ (S : ObjectStore) (h : Host) where
  unfoldable pub scan_manifests : Repository → List StoredObject → Scan → Action (World S) Scan
  unfolding scan_result
  scan_manifests r [] sc = pure sc
  scan_manifests r (o ∷ os) sc = elim (snapshot_of_key r o.key) [
    | none ↦ scan_manifests r os sc
    | some id ↦ do m ← attempt (read_manifest S h r id); scan_manifests r os (scan_result o id m sc)
  ]

  -- One live chunk: missing, corrupt or good.
  corrupt_issue : StoredObject → Result (Unit {0}) → List CheckIssue
  corrupt_issue o (ok _) = []
  corrupt_issue o (err e) =
      record { kind = corrupt_chunk; object = o.key; snapshot = []; detail = some e } ∷ []

  check_live_chunk : Repository → Bytes → Option StoredObject → Action (World S) (List CheckIssue)
  unfolding corrupt_issue
  check_live_chunk r id none = pure (
      record { kind = missing_chunk; object = str "chunks/" ++ id; snapshot = []; detail = none }
      ∷ [])
  check_live_chunk r id (some o) = do
    verified ← attempt (verify_chunk S h r id)
    pure (corrupt_issue o verified)

  unfoldable pub check_live :
      Repository → List (Bytes × StoredObject) → List Bytes → Action (World S) (List CheckIssue)
  unfolding check_live_chunk
  check_live r stored [] = pure []
  check_live r stored (id ∷ ids) = do
    found ← check_live_chunk r id (lookup id stored)
    rest ← check_live r stored ids
    pure (found ++ rest)

  unfoldable pub check : Repository → Action (World S) CheckReport
  unfolding scan_manifests check_live issue_before
  check r = do
    entries ← wrapped "list snapshots" (store_list S (str "snapshots/"))
    sc ← scan_manifests r entries (record { snapshots = 0; live = []; issues = [] })
    objects ← wrapped "list chunks" (store_list S (str "chunks/"))
    let indexed = index_chunks objects [] [] 0
    faults ← check_live r indexed.0 sc.live
    let unused = orphans sc.live indexed.0
    pure (record {
      format_version = r.config.format_version;
      snapshots = sc.snapshots;
      referenced_chunks = length sc.live;
      stored_chunks = indexed.2;
      orphan_chunks = length unused;
      issues = sort issue_before (sc.issues ++ indexed.1 ++ faults ++ unused);
    })
