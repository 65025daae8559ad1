-- ===== src/Replicate.antt =====
-- internal/repository/replicate.go: copying every snapshot to a second encrypted repository.
pub mod Effects
use vestige.Prelude.{
  ℕ, ◌+◌, Bool, true, false, not, ◌||◌, Bytes, List, [], ◌∷◌, if◌then◌else◌, ◌==◌, contains, insert,
  ℤ,
}
use vestige.Errors.{Result, ok, err, is_not_found}
use vestige.Actions.{Action, ◌>>=◌, ◌>>◌, pure, raise, wrapped, attempt, raise_if}
use vestige.Model.{Manifest, FileEntry, ChunkRef}
use vestige.Host.{Host}
use vestige.Store.{ObjectStore}
use vestige.Repository.{Repository, World, encrypted, compression}
use vestige.Encryption.{same_compression}
use vestige.Snapshots.{read_manifest, snapshots, publish_manifest}
use vestige.Chunks.{Stored, read_chunk, put_chunk}
use vestige.Lock.{acquire_write_lock, release, recover_staging}

pub record ReplicationStats : Type 0 where
  pub snapshots_copied : ℕ
  pub snapshots_skipped : ℕ
  pub chunks_copied : ℕ
  pub chunks_reused : ℕ

abbrev count_chunk : Bool → ReplicationStats → ReplicationStats
count_chunk true st = record st { chunks_copied = st.chunks_copied + 1 }
count_chunk false st = record st { chunks_reused = st.chunks_reused + 1 }

-- The source and the target are worlds of their own. `same` is reflect.DeepEqual on manifests.
module _ (S T : ObjectStore) (h : Host) (same : Manifest → Manifest → Bool) where
  abbrev pub Worlds : Type 0
  Worlds = World S × World T

  abbrev pub on_source : {A : Type 0} → Action (World S) A → Action Worlds A
  on_source m (w, v) = let (r, w') = m w in (r, (w', v))

  abbrev pub on_target : {A : Type 0} → Action (World T) A → Action Worlds A
  on_target m (w, v) = let (r, v') = m v in (r, (w, v'))

  -- One chunk of the source, stored in the target.
  unfoldable pub copy_chunk : Repository → Repository → Bytes → Action Worlds Stored
  copy_chunk r target id = do
    contents ← on_source (wrapped "read source chunk" (read_chunk S h r id))
    stored ← on_target (wrapped "write target chunk" (put_chunk T h target contents))
    raise_if (not (stored.id == id)) "target chunk ID changed"
    pure stored

  unfoldable pub copy_refs :
      Repository
      → Repository
      → List ChunkRef
      → List Bytes
      → ReplicationStats
      → Action Worlds (List Bytes × ReplicationStats)
  unfolding copy_chunk
  copy_refs r target [] seen st = pure (seen, st)
  copy_refs r target (ref ∷ refs) seen st = elim (contains seen ref.id) [
    | true ↦ copy_refs r target refs seen st
    | false ↦ do
      stored ← copy_chunk r target ref.id
      copy_refs r target refs (insert ref.id seen) (count_chunk stored.created st)
  ]

  unfoldable pub copy_entries :
      Repository
      → Repository
      → List FileEntry
      → List Bytes
      → ReplicationStats
      → Action Worlds ReplicationStats
  unfolding copy_refs
  copy_entries r target [] seen st = pure st
  copy_entries r target (e ∷ es) seen st = do
    (seen', st') ← copy_refs r target e.chunks seen st
    copy_entries r target es seen' st'

  -- What the target has under the snapshot's identifier.
  unfoldable pub copy_manifest :
      Repository
      → Repository
      → Manifest
      → ReplicationStats
      → Result Manifest
      → Action Worlds ReplicationStats
  unfolding copy_entries
  copy_manifest r target m st (ok existing) = do
    raise_if (not (same existing m)) "target snapshot differs from source"
    pure (record st { snapshots_skipped = st.snapshots_skipped + 1 })
  copy_manifest r target m st (err e) =
      if is_not_found e
      then (do
        st' ← copy_entries r target m.files [] st
        on_target (publish_manifest T h target m)
        pure (record st' { snapshots_copied = st'.snapshots_copied + 1 }))
      else raise e

  unfoldable pub copy_manifests :
      Repository → Repository → List Manifest → ReplicationStats → Action Worlds ReplicationStats
  unfolding copy_manifest
  copy_manifests r target [] st = pure st
  copy_manifests r target (m ∷ ms) st = do
    existing ← attempt (on_target (read_manifest T h target m.snapshot_id))
    st' ← copy_manifest r target m st existing
    copy_manifests r target ms st'

  unfoldable pub copy_all : Repository → Repository → Action Worlds ReplicationStats
  unfolding copy_manifests
  copy_all r target = do
    on_target (recover_staging T target)
    ms ← on_source (snapshots S h r)
    copy_manifests r target ms (record {
      snapshots_copied = 0;
      snapshots_skipped = 0;
      chunks_copied = 0;
      chunks_reused = 0;
    })

  unfoldable pub replicate_to : Repository → Repository → ℤ → Action Worlds ReplicationStats
  unfolding copy_all
  replicate_to r target stale_after = do
    raise_if (target.root == r.root) "source and target repositories must differ"
    raise_if (not (encrypted r) || not (encrypted target))
        "replication requires encrypted source and target repositories"
    raise_if (not (same_compression (compression r) (compression target)))
        "repository compression differs"
    lock ← on_target (acquire_write_lock T h stale_after)
    λ ws. let (result, (w, v)) = copy_all r target ws in (result, (w, (release T h lock v).1))
