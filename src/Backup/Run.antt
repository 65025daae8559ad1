-- ===== src/Backup/Run.antt =====
-- internal/repository/repository.go: BackupWithOptions, with one file worker.
use vestige.Prelude.{
  none, ◌+◌, Bool, not, ◌&&◌, ◌||◌, Bytes, List, [], ◌∷◌, ◌++◌, if◌then◌else◌, nat_eq, sort,
  lt_bytes, ℤ, pos, ltb_ℤ,
}
use vestige.Errors.{Result, ok, err, message}
use vestige.Actions.{Action, ◌>>=◌, ◌>>◌, pure, lift, wrapped, raise_if}
use vestige.Model.{Manifest, FileEntry, BackupStats, file, Int64, add_int64, format_version}
use vestige.Filter.{new_matcher}
use vestige.Chunker.{Config, validate}
use vestige.Paths.{FilePath, is_within}
use vestige.Host.{Host}
use vestige.Store.{ObjectStore}
use vestige.Repository.{Repository, World}
use vestige.Snapshots.{publish_manifest}
use vestige.Lock.{with_lock, recover_staging}
use vestige.Backup.{FileInfo, FileJob, Visit, walk, store_file_chunks}

pub record BackupOptions : Type 0 where
  pub workers : ℤ
  pub description : Bytes
  pub tags : List Bytes
  pub labels : List (Bytes × Bytes)
  pub includes : List Bytes
  pub excludes : List Bytes
  pub stale_lock_after : ℤ

-- The source: its cleaned path, what os.Stat says of it (whether it is a directory), and the walk.
pub record Source : Type 0 where
  pub text : Bytes
  pub path : FilePath
  pub is_dir : Result Bool
  pub visits : List Visit

-- After reading: the file must have its size and time of the walk.
changed : FileInfo → FileInfo → Bool
changed before after =
    not (nat_eq after.size before.size) || not (nat_eq after.modified_ns before.modified_ns)

check_unchanged : FileInfo → Result FileInfo → Result (Unit {0})
unfolding changed
check_unchanged info (err e) = err e
check_unchanged info (ok after) =
    if changed info after then err (message "source file changed during backup") else ok tt

-- The chunking algorithm and identifier of this run, and the repository's path.
pub record Run : Type 0 where
  pub repository_path : FilePath
  pub snapshot_id : Bytes
  pub algorithm : Bytes

abbrev add_stats : Int64 → BackupStats → BackupStats → BackupStats
add_stats size file_stats st = record {
  files = st.files + 1;
  logical_bytes = add_int64 st.logical_bytes size;
  chunks_created = st.chunks_created + file_stats.chunks_created;
  chunks_reused = st.chunks_reused + file_stats.chunks_reused;
  bytes_written = add_int64 st.bytes_written file_stats.bytes_written;
}

module _ (S : ObjectStore) (h : Host) where
  -- One file: its chunks are stored, and it must not have changed meanwhile.
  unfoldable pub store_file :
      Repository → Config → FileJob → Action (World S) (FileEntry × BackupStats)
  unfolding check_unchanged
  store_file r cfg job = do
    input ← wrapped "open" (lift job.opened)
    (chunks, st) ← store_file_chunks S h r input cfg
    lift job.closed
    lift (check_unchanged job.info job.after)
    pure (
      record {
        path = job.path;
        type = file;
        size = job.info.size;
        mode = job.info.mode;
        modified_ns = job.info.modified_ns;
        chunks = chunks;
        link_target = [];
      },
      st,
    )

  unfoldable pub store_files :
      Repository
      → Config
      → List FileJob
      → BackupStats
      → Action (World S) (List FileEntry × BackupStats)
  unfolding store_file
  store_files r cfg [] st = pure ([], st)
  store_files r cfg (job ∷ jobs) st = do
    (entry, file_stats) ← wrapped "backup" (store_file r cfg job)
    (entries, st') ← store_files r cfg jobs (add_stats entry.size file_stats st)
    pure (entry ∷ entries, st')

  -- The manifest of the entries, ordered by path.
  unfoldable pub new_manifest :
      Run → Config → BackupOptions → Bytes → Bytes → List FileEntry → Manifest
  new_manifest run cfg options created source entries = record {
    format_version = format_version;
    snapshot_id = run.snapshot_id;
    created_at = created;
    source = source;
    description = options.description;
    tags = options.tags;
    labels = options.labels;
    includes = options.includes;
    excludes = options.excludes;
    chunking = record {
      algorithm = run.algorithm;
      window = cfg.window;
      min_size = cfg.min_size;
      target_size = cfg.target_size;
      max_size = cfg.max_size;
    };
    files = sort (λ (a b : FileEntry). lt_bytes a.path b.path) entries;
  }

  -- The body of BackupWithOptions under the lock.
  unfoldable pub backup_locked :
      Run → Repository → Source → Config → BackupOptions → Action (World S) (Manifest × BackupStats)
  unfolding store_files new_manifest
  backup_locked run r source cfg options = do
    recover_staging S r
    lift (validate cfg)
    path_filter ← lift (new_matcher h.glob options.includes options.excludes)
    is_dir ← wrapped "source" (lift source.is_dir)
    raise_if (not is_dir) "source must be a directory"
    raise_if (not r.remote && is_within run.repository_path source.path)
        "repository must not be inside the source directory"
    walked ← lift (
        walk h.glob path_filter source.visits none
          (record { fixed = []; jobs = []; hardlinks = [] }))
    (entries, st) ← store_files r cfg walked.jobs (record {
      files = 0;
      logical_bytes = 0;
      chunks_created = 0;
      chunks_reused = 0;
      bytes_written = 0;
    })
    created ← (λ w. (ok (h.format_time w.now), w))
    let manifest = new_manifest run cfg options created source.text (walked.fixed ++ entries)
    publish_manifest S h r manifest
    pure (manifest, st)

  unfoldable pub backup_with_options :
      Run → Repository → Source → Config → BackupOptions → Action (World S) (Manifest × BackupStats)
  unfolding backup_locked
  backup_with_options run r source cfg options = do
    raise_if (ltb_ℤ options.workers (pos 1)) "workers must be at least 1"
    with_lock S h options.stale_lock_after (backup_locked run r source cfg options)
