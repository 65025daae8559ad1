-- ===== src/Lifecycle.antt =====
-- internal/repository/lifecycle.go: deleting a snapshot.
pub mod Effects
use vestige.Prelude.{ℕ, ◌+◌, Bool, Bytes, List, [], ◌∷◌, if◌then◌else◌, length, ℤ}
use vestige.Actions.{Action, ◌>>=◌, ◌>>◌, pure, wrapped}
use vestige.Model.{Manifest, FileEntry, Int64, add_int64, is_file}
use vestige.Host.{Host}
use vestige.Store.{ObjectStore}
use vestige.Repository.{Repository, World, store_delete}
use vestige.Snapshots.{read_manifest, manifest_key}
use vestige.Lock.{with_lock, recover_staging}
use vestige.Gc.{mark_refs}

pub record DeleteStats : Type 0 where
  pub snapshot_id : Bytes
  pub files : ℕ
  pub logical_bytes : Int64
  pub referenced_chunks : ℕ
  pub dry_run : Bool

-- The loop over the entries, with the set of chunks seen.
unfoldable pub count_entries : List FileEntry → DeleteStats → List Bytes → DeleteStats × List Bytes
count_entries [] st seen = (st, seen)
count_entries (e ∷ es) st seen =
    if is_file e.type
    then count_entries es
        (record st { files = st.files + 1; logical_bytes = add_int64 st.logical_bytes e.size })
        (mark_refs seen e.chunks)
    else count_entries es st seen

unfoldable pub delete_stats : Manifest → Bool → DeleteStats
unfolding count_entries
delete_stats m dry_run =
    let (st, seen) =
      count_entries m.files
        (record {
          snapshot_id = m.snapshot_id;
          files = 0;
          logical_bytes = 0;
          referenced_chunks = 0;
          dry_run = dry_run;
        })
        [] in
    record st { referenced_chunks = length seen }

module _ (S : ObjectStore) (h : Host) where
  unpublish : Repository → Bytes → Bool → Action (World S) DeleteStats
  unpublish r id dry_run = do
    recover_staging S r
    m ← read_manifest S h r id
    if dry_run
        then pure tt
        else wrapped "unpublish snapshot" (store_delete S (manifest_key r m.snapshot_id))
    pure (delete_stats m dry_run)

  unfoldable pub delete_snapshot : Repository → Bytes → Bool → ℤ → Action (World S) DeleteStats
  unfolding unpublish
  delete_snapshot r id dry_run stale_after = with_lock S h stale_after (unpublish r id dry_run)
