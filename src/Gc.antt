-- ===== src/Gc.antt =====
-- internal/repository/gc.go: mark and sweep over the chunks.
pub mod Safety
pub mod Runs
use vestige.Prelude.{
  true, false, ℕ, ◌+◌, Bool, Bytes, List, [], ◌∷◌, if◌then◌else◌, str, contains, insert, length, ℤ,
}
use vestige.Actions.{Action, ◌>>=◌, ◌>>◌, pure, wrapped}
use vestige.Model.{Manifest, FileEntry, ChunkRef, Int64, add_int64}
use vestige.Paths.{key_base}
use vestige.Host.{Host}
use vestige.Store.{ObjectStore, StoredObject}
use vestige.Repository.{Repository, World, store_list, store_delete}
use vestige.Snapshots.{snapshots}
use vestige.Lock.{with_lock, recover_staging}

pub record GcStats : Type 0 where
  pub reachable_chunks : ℕ
  pub orphan_chunks : ℕ
  pub reclaimed_bytes : Int64
  pub dry_run : Bool

-- The identifiers that the chunk references of entries, and of manifests, add to a set.
unfoldable pub mark_refs : List Bytes → List ChunkRef → List Bytes
mark_refs live [] = live
mark_refs live (ref ∷ refs) = mark_refs (insert ref.id live) refs

unfoldable pub mark_entries : List Bytes → List FileEntry → List Bytes
unfolding mark_refs
mark_entries live [] = live
mark_entries live (e ∷ es) = mark_entries (mark_refs live e.chunks) es

unfoldable pub mark : List Bytes → List Manifest → List Bytes
unfolding mark_entries
mark live [] = live
mark live (m ∷ ms) = mark (mark_entries live m.files) ms

-- One more orphan.
abbrev pub count_orphan : StoredObject → GcStats → GcStats
count_orphan o st = record st {
  orphan_chunks = st.orphan_chunks + 1;
  reclaimed_bytes = add_int64 st.reclaimed_bytes o.size;
}

module _ (S : ObjectStore) (h : Host) where
  -- `if !dryRun { store.Delete }`
  unfoldable pub remove_unless : Bool → Bytes → Action (World S) (Unit {0})
  remove_unless dry_run key =
      if dry_run then pure tt else wrapped "remove orphan chunk" (store_delete S key)

  unfoldable pub sweep : Bool → List Bytes → List StoredObject → GcStats → Action (World S) GcStats
  unfolding remove_unless
  sweep dry_run live [] st = pure st
  sweep dry_run live (o ∷ objects) st = elim (contains live (key_base o.key)) [
    | true ↦ sweep dry_run live objects st
    | false ↦ do remove_unless dry_run o.key; sweep dry_run live objects (count_orphan o st)
  ]

  unfoldable pub collect_garbage : Repository → Bool → Action (World S) GcStats
  unfolding sweep
  collect_garbage r dry_run = do
    recover_staging S r
    manifests ← snapshots S h r
    let live = mark [] manifests
    objects ← store_list S (str "chunks/")
    sweep dry_run live objects (record {
      reachable_chunks = length live;
      orphan_chunks = 0;
      reclaimed_bytes = 0;
      dry_run = dry_run;
    })

  unfoldable pub garbage_collect : Repository → Bool → ℤ → Action (World S) GcStats
  unfolding collect_garbage
  garbage_collect r dry_run stale_after = with_lock S h stale_after (collect_garbage r dry_run)
