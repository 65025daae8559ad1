-- ===== src/Snapshots.antt =====
-- internal/repository/repository.go: publishing, reading and listing snapshots, and Stats.
pub mod Fuel
pub mod Laws
pub mod Reads
use vestige.Prelude.{
  ℕ, zero, suc, ◌+◌, Bool, true, false, not, ◌&&◌, ◌||◌, Bytes, Option, none, some, List, [], ◌∷◌,
  ◌++◌, if◌then◌else◌, str, ◌==◌, split_on, contains_any, lt_bytes, sort, select, any, is_some,
  length,
}
use vestige.Errors.{Error, Result, ok, err, message, wrap, wrapping, is_exists}
use vestige.Actions.{Action, ◌>>=◌, ◌>>◌, pure, raise, lift, wrapped, attempt, raise_if}
use vestige.Model.{Manifest, FileEntry, ChunkRef, Int64, add_int64, is_file}
use vestige.Paths.{chunk_path}
use vestige.Manifest.{validate_manifest}
use vestige.Host.{Host}
use vestige.Store.{ObjectStore, StoredObject}
use vestige.Repository.{Repository, World, store_get, store_put_if_absent, store_list}
use vestige.Codec.{decrypt, encrypt}

-- manifestName
unfoldable pub manifest_name : Repository → Bytes
unfolding str
manifest_name r = if is_some r.key then str "manifest.enc" else str "manifest.json"

unfoldable pub manifest_key : Repository → Bytes → Bytes
unfolding manifest_name
manifest_key r id = str "snapshots/" ++ id ++ str "/" ++ manifest_name r

abbrev pub manifest_aad : Bytes → Bytes
manifest_aad id = str "vestige/manifest/" ++ id

-- The snapshot that an object key names, if it is the key of a manifest.
unfoldable pub snapshot_of_parts : Repository → List Bytes → Option Bytes
unfolding manifest_name
snapshot_of_parts r (dir ∷ id ∷ name ∷ []) =
    if dir == str "snapshots" && name == manifest_name r then some id else none
snapshot_of_parts r _ = none

unfoldable pub snapshot_of_key : Repository → Bytes → Option Bytes
unfolding snapshot_of_parts
snapshot_of_key r key = snapshot_of_parts r (split_on b'/' key)

module _ (S : ObjectStore) (h : Host) (r : Repository) where
  -- manifestBytes
  unfoldable pub manifest_bytes : Manifest → Action (World S) Bytes
  manifest_bytes m = do
    contents ← lift (h.marshal_manifest m)
    encrypt S h r contents (manifest_aad m.snapshot_id)

  publish_result : Result Bytes → Action (World S) (Unit {0})
  publish_result (ok _) = pure tt
  publish_result (err e) =
      if is_exists e
      then raise (message "publish snapshot: snapshot already exists")
      else raise (wrap "publish snapshot" e)

  unfoldable pub publish_manifest : Manifest → Action (World S) (Unit {0})
  unfolding manifest_bytes publish_result
  publish_manifest m = do
    lift (validate_manifest m)
    contents ← manifest_bytes m
    published ← attempt (store_put_if_absent S (manifest_key r m.snapshot_id) contents)
    publish_result published

  -- What is stored for a snapshot, opened, decoded, validated and compared with its identifier.
  unfoldable pub open_manifest : Bytes → Bytes → Result Manifest
  open_manifest id stored =
      elim (wrapping "decrypt snapshot" (decrypt h r stored (manifest_aad id))) [
        | err e ↦ err e
        | ok opened ↦ elim (wrapping "invalid manifest" (h.unmarshal_manifest opened)) [
          | err e ↦ err e
          | ok m ↦ elim (wrapping "invalid manifest" (validate_manifest m)) [
            | err e ↦ err e
            | ok _ ↦
                if m.snapshot_id == id
                then ok m
                else err (message "manifest snapshot ID does not match its path")
          ]
        ]
      ]

  -- ReadManifest of an identifier other than "latest".
  unfoldable pub read_stored : Bytes → Action (World S) Manifest
  unfolding open_manifest str
  read_stored id = do
    raise_if (contains_any id (str "\\/") || id == []) "invalid snapshot ID"
    (stored, _) ← wrapped "read snapshot" (store_get S (manifest_key r id))
    lift (open_manifest id stored)

  -- The loop of Snapshots over the listed objects, reading each manifest by `read`.
  unfoldable pub read_each :
      (Bytes → Action (World S) Manifest) → List StoredObject → Action (World S) (List Manifest)
  read_each read [] = pure []
  read_each read (o ∷ objects) = elim (snapshot_of_key r o.key) [
    | none ↦ read_each read objects
    | some id ↦ do m ← read id; ms ← read_each read objects; pure (m ∷ ms)
  ]

  unfoldable pub snapshots_by :
      (Bytes → Action (World S) Manifest) → Action (World S) (List Manifest)
  unfolding read_each
  snapshots_by read = do
    objects ← store_list S (str "snapshots/")
    ms ← read_each read objects
    pure (sort (λ (a b : Manifest). lt_bytes a.snapshot_id b.snapshot_id) ms)

  last_of : List Manifest → Result Manifest
  last_of [] = err (message "repository contains no snapshots")
  last_of (m ∷ []) = ok m
  last_of (m ∷ n ∷ ms) = last_of (n ∷ ms)

  -- ReadManifest calls LatestSnapshot, which calls Snapshots, which calls ReadManifest: the fuel
  -- counts the calls that are nested, and the error without fuel stands for the exhausted stack.
  unfoldable pub read_manifest_within : ℕ → Bytes → Action (World S) Manifest
  unfolding read_stored snapshots_by last_of
  read_manifest_within zero id = raise (message "stack overflow")
  read_manifest_within (suc fuel) id =
      let latest = (do ms ← snapshots_by (read_manifest_within fuel); lift (last_of ms)) in
      if id == str "latest" then latest else read_stored id

  abbrev pub read_manifest : Bytes → Action (World S) Manifest
  read_manifest = read_manifest_within 2

  abbrev pub snapshots : Action (World S) (List Manifest)
  snapshots = snapshots_by read_manifest

  unfoldable pub latest_snapshot : Action (World S) Manifest
  unfolding last_of
  latest_snapshot = do ms ← snapshots; lift (last_of ms)

  -- FilesReferencingChunk
  unfoldable pub refers_to : Bytes → FileEntry → Bool
  refers_to id entry = is_file entry.type && any (λ (ref : ChunkRef). ref.id == id) entry.chunks

  unfoldable pub files_referencing_chunk : Bytes → Bytes → Action (World S) (List FileEntry)
  unfolding refers_to
  files_referencing_chunk snapshot_id id = do
    lift (chunk_path id)
    m ← read_manifest snapshot_id
    pure (select (refers_to id) m.files)

-- The bytes of the regular files, and of the objects, added up as int64.
unfoldable pub add_file_sizes : Int64 → List FileEntry → Int64
add_file_sizes total [] = total
add_file_sizes total (e ∷ es) =
    add_file_sizes (if is_file e.type then add_int64 total e.size else total) es

unfoldable pub add_manifest_sizes : Int64 → List Manifest → Int64
unfolding add_file_sizes
add_manifest_sizes total [] = total
add_manifest_sizes total (m ∷ ms) = add_manifest_sizes (add_file_sizes total m.files) ms

unfoldable pub add_object_sizes : Int64 → List StoredObject → Int64
add_object_sizes total [] = total
add_object_sizes total (o ∷ os) = add_object_sizes (add_int64 total o.size) os

pub record RepositoryStats : Type 0 where
  pub chunks : ℕ
  pub physical_bytes : Int64
  pub snapshots : ℕ
  pub logical_bytes : Int64

unfoldable pub stats : (S : ObjectStore) (h : Host) → Repository → Action (World S) RepositoryStats
unfolding add_manifest_sizes add_object_sizes
stats S h r = do
  ms ← snapshots S h r
  objects ← store_list S (str "chunks/")
  pure (record {
    chunks = length objects;
    physical_bytes = add_object_sizes 0 objects;
    snapshots = length ms;
    logical_bytes = add_manifest_sizes 0 ms;
  })
