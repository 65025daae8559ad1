-- ===== src/Drill.antt =====
-- internal/repository/drill.go: a rehearsal of a full restore. The time stands still during it, so that the
-- duration of the restore is 0; durations are in nanoseconds.
use vestige.Prelude.{false, ℕ, suc, ◌-◌, Bytes, List, [], ◌∷◌, if◌then◌else◌}
use vestige.Errors.{Result, ok, wrapping}
use vestige.Actions.{Action, ◌>>=◌, ◌>>◌, pure, lift}
use vestige.Model.{FileEntry, is_file}
use vestige.Paths.{FilePath}
use vestige.Host.{Host}
use vestige.Store.{ObjectStore}
use vestige.Repository.{Repository}
use vestige.Snapshots.{read_manifest}
use vestige.FileSystem.{FileSystem}
use vestige.RestoreTree.{Restoring, on_repository, restore_with_options}

pub record DrillReport : Type 0 where
  pub snapshot_id : Bytes
  pub files : ℕ
  pub rpo : ℕ
  pub rto : ℕ

count_files : List FileEntry → ℕ
count_files [] = 0
count_files (e ∷ es) = let n = count_files es in if is_file e.type then suc n else n

module _ (S : ObjectStore) (h : Host) (F : FileSystem) where
  -- Restore: no option is set.
  unfoldable pub restore :
      Repository → Bytes → Result FilePath → Action (Restoring S h F) (Unit {0})
  restore r id destination =
      restore_with_options S h F r id destination
        (record { includes = []; overwrite = false; clean_destination = false })

  -- A snapshot from the future has an RPO of 0.
  unfoldable pub disaster_recovery_drill :
      Repository → Bytes → Result FilePath → Action (Restoring S h F) DrillReport
  unfolding count_files restore
  disaster_recovery_drill r id destination = do
    m ← on_repository S h F (read_manifest S h r id)
    created ← lift (wrapping "invalid snapshot creation time" (h.parse_time m.created_at))
    restore r m.snapshot_id destination
    now ← (λ x. (ok x.0.now, x))
    pure (record {
      snapshot_id = m.snapshot_id;
      files = count_files m.files;
      rpo = now - created;
      rto = 0;
    })
