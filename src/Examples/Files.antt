-- ===== src/Examples/Files.antt =====
-- The theorems on whole files and snapshots at concrete inputs.
use vestige.Prelude.{
  ◌≡◌, ◌≢◌, ◌==◌, refl, ℕ, Bytes, Option, none, some, str, true, false, Bool, List, [], ◌∷◌, ◌++◌,
  pos, pos_part, inl, inr, arith, has_prefix, get_elem?, take, All, replicate,
}
use vestige.Errors.{Result, ok, err}
use vestige.Model.{Manifest, FileEntry, ChunkRef, RepositoryConfig, zstd, plain, file}
use vestige.Paths.{chunk_key}
use vestige.Host.{Host}
use vestige.Store.{StoredObject}
use vestige.Check.{CheckReport, check, healthy}
use vestige.Check.Sound.{IsSound, check-IsSound}
use vestige.Store.Local.{local_store, local_version}
use vestige.Store.Local.Laws.{file_at, local_store-IsLawful}
use vestige.Repository.{Repository, World}
use vestige.Chunks.{Stored, chunk_id, read_chunk}
use vestige.Snapshots.{snapshots, read_manifest, manifest_key}
use vestige.Lock.{WriteLock, lock_key, acquire_write_lock, recover_staging}
use vestige.Gc.Safety.{is_referenced}
use vestige.Lifecycle.{DeleteStats, delete_snapshot}
use vestige.Lifecycle.Effects.{delete_snapshot_spares, delete_snapshot_removes}
use vestige.Verify.{VerifyReport, verify_manifests, verify_with_options}
use vestige.Verify.Coverage.{verify_with_options_all}
use vestige.Retention.{RetentionPolicy}
use vestige.Backup.{ChunkResult, nothing_collected, receive, in_order}
use vestige.Backup.Collect.{IsNumbered, in_order-receive}
use vestige.Restore.{restore_file}
use vestige.Restore.Contents.{keep, IsContents, IsFirst, restore_file-IsContents}
use vestige.Examples.{pad, toy_host, world}

abbrev ref_of : ℕ → ChunkRef
ref_of n = record { id = n ∷ []; size = n }

abbrev stored_as : Stored
stored_as = record { id = []; created = true; stored_bytes = 1 }

abbrev result_of : ℕ → ChunkResult
result_of n = record { sequence = n; ref = ref_of n; outcome = ok stored_as }

-- The results of three chunks, out of order.
abbrev late_results : List ChunkResult
late_results = result_of 1 ∷ result_of 2 ∷ result_of 0 ∷ []

late_results-IsNumbered : IsNumbered late_results
late_results-IsNumbered =
    ((λ e. omega arith, (λ e. omega arith, tt)), ((λ e. omega arith, tt), (tt, tt)))

in_order-receive_example :
    get_elem? (in_order 3 (receive nothing_collected late_results).refs) 2 ≡ some (ref_of 2)
in_order-receive_example =
    in_order-receive 3 late_results (result_of 2) stored_as late_results-IsNumbered (inr (inl refl))
      refl (omega arith)

-- A repository without compression and encryption, with one snapshot of one file.
abbrev pub hello : Bytes
hello = str "hello"

abbrev pub hello_id : Bytes
hello_id = str "68656c6c6f000000000000000000000000000000000000000000000000000000"

abbrev pub plain_repository : Repository
plain_repository = record {
  root = str "/repo";
  remote = false;
  config = record { format_version = 1; compression = plain; encryption = none };
  key = none;
}

abbrev pub hello_snapshot : Manifest
hello_snapshot = record {
  format_version = 1;
  snapshot_id = str "s1";
  created_at = [];
  source = [];
  description = [];
  tags = [];
  labels = [];
  includes = [];
  excludes = [];
  chunking = record {
    algorithm = [];
    window = pos 1;
    min_size = pos 1;
    target_size = pos 1;
    max_size = pos 1;
  };
  files =
      record {
        path = str "a";
        type = file;
        size = 5;
        mode = 420;
        modified_ns = 0;
        chunks = record { id = hello_id; size = 5 } ∷ [];
        link_target = [];
      }
      ∷ [];
}

abbrev pub hello_host : Host
hello_host = record toy_host { unmarshal_manifest = λ d. ok hello_snapshot }

abbrev pub hello_chunk : Bytes
hello_chunk = str "chunks/68/65/68656c6c6f000000000000000000000000000000000000000000000000000000"

abbrev hello_manifest : Bytes
hello_manifest = str "snapshots/s1/manifest.json"

abbrev pub hello_files : List (Bytes × Bytes)
hello_files = (hello_chunk, hello) ∷ (hello_manifest, 1 ∷ []) ∷ []

abbrev pub hello_world : World (local_store pad)
hello_world = record world { store = record { files = hello_files; fails = λ c key. none } }

abbrev hello_report : VerifyReport
hello_report = record { snapshots = 1; chunks = 1; verified_chunks = 1; resumed_chunks = 0 }

abbrev pub keep_one : RetentionPolicy
keep_one = record { keep_last = pos 1; keep_daily = pos 0; keep_weekly = pos 0 }

abbrev store_lock : WriteLock
store_lock = record { version = local_version pad (2 ∷ b'\n' ∷ []) }

abbrev locked_hello : World (local_store pad)
locked_hello = record world {
  store = record { files = hello_files ++ (lock_key, 2 ∷ b'\n' ∷ []) ∷ []; fails = λ c key. none };
}

abbrev hello_deleted : DeleteStats
hello_deleted = record {
  snapshot_id = str "s1";
  files = 1;
  logical_bytes = 5;
  referenced_chunks = 1;
  dry_run = false;
}

hello_listed :
    (snapshots (local_store pad) hello_host plain_repository hello_world).0
    ≡ ok (hello_snapshot ∷ [])
unfolding vestige.Snapshots.snapshots_by vestige.Store.Local.list has_prefix str
    vestige.Snapshots.snapshot_of_key vestige.Prelude.split_on vestige.Prelude.Bytes-discrete
    vestige.Snapshots.read_manifest_within vestige.Prelude.contains_any vestige.Store.Local.get
    manifest_key vestige.Prelude.lookup vestige.Codec.decrypt vestige.Manifest.validate_manifest
    vestige.Manifest.check_entry vestige.Paths.validate_path vestige.Manifest.sum_chunks
    vestige.Codec.open_sealed vestige.Manifest.check_entries vestige.Manifest.check_labels
    vestige.Model.add_int64 vestige.Model.is_negative vestige.Paths.chunk_path
    vestige.Paths.hex_encode vestige.Paths.is_bad_part vestige.Paths.is_chunk_id
    vestige.Prelude.sort vestige.Prelude.has_byte vestige.Prelude.lt_bytes
    vestige.Prelude.trim_space vestige.Snapshots.manifest_name vestige.Snapshots.open_manifest
    vestige.Snapshots.read_each vestige.Snapshots.read_stored vestige.Snapshots.snapshot_of_parts
    vestige.Store.Local.accepts local_version vestige.Store.Local.matching
    vestige.Store.Local.store_path vestige.Store.Local.system
hello_listed = refl

pub hello_read :
    (read_manifest (local_store pad) hello_host plain_repository (str "s1") hello_world).0
    ≡ ok hello_snapshot
unfolding vestige.Snapshots.read_manifest_within vestige.Prelude.Bytes-discrete
    vestige.Prelude.contains_any vestige.Store.Local.get manifest_key has_prefix
    vestige.Prelude.split_on vestige.Prelude.lookup vestige.Codec.decrypt
    vestige.Manifest.validate_manifest vestige.Manifest.check_entry vestige.Paths.validate_path
    vestige.Manifest.sum_chunks vestige.Paths.chunk_path vestige.Model.is_negative
    vestige.Model.add_int64
hello_read = refl

hello_restored :
    (restore_file
      (local_store pad)
      hello_host
      keep
      plain_repository
      (str "s1")
      (str "a")
      (hello_world, [])).0
    ≡ ok tt
unfolding restore_file vestige.Paths.validate_path vestige.Prelude.Bytes-discrete has_prefix
    vestige.Prelude.has_byte vestige.Prelude.split_on vestige.Snapshots.read_manifest_within
    vestige.Prelude.contains_any vestige.Store.Local.get manifest_key vestige.Prelude.lookup
    vestige.Codec.decrypt vestige.Manifest.validate_manifest vestige.Manifest.check_entry
    vestige.Manifest.sum_chunks vestige.Paths.chunk_path vestige.Model.is_negative chunk_id
    vestige.Chunks.open_chunk read_chunk vestige.Codec.decode_chunk vestige.Codec.open_sealed
    vestige.Manifest.check_entries vestige.Manifest.check_labels vestige.Model.add_int64 chunk_key
    vestige.Paths.hex_encode vestige.Paths.is_bad_part vestige.Paths.is_chunk_id
    vestige.Prelude.sort vestige.Prelude.lt_bytes str vestige.Prelude.trim_space
    vestige.Restore.write_chunk vestige.Restore.write_chunks vestige.Restore.write_path
    vestige.Snapshots.manifest_name vestige.Snapshots.open_manifest vestige.Snapshots.read_each
    vestige.Snapshots.read_stored vestige.Snapshots.snapshot_of_key
    vestige.Snapshots.snapshot_of_parts vestige.Snapshots.snapshots_by vestige.Store.Local.accepts
    local_version vestige.Store.Local.store_path vestige.Store.Local.system
hello_restored = refl

hello_verified :
    (verify_with_options
      (local_store pad)
      hello_host
      plain_repository
      (str "s1")
      false
      hello_world).0
    ≡ ok hello_report
unfolding verify_with_options vestige.Prelude.Bytes-discrete str
    vestige.Snapshots.read_manifest_within vestige.Prelude.contains_any vestige.Store.Local.get
    manifest_key has_prefix vestige.Prelude.split_on vestige.Prelude.lookup vestige.Codec.decrypt
    vestige.Manifest.validate_manifest vestige.Manifest.check_entry vestige.Paths.validate_path
    vestige.Manifest.sum_chunks vestige.Paths.chunk_path vestige.Model.is_negative chunk_id
    vestige.Chunks.open_chunk vestige.Chunks.verify_chunk vestige.Codec.decode_chunk
    vestige.Codec.open_sealed vestige.Gc.mark vestige.Gc.mark_entries vestige.Gc.mark_refs
    vestige.Manifest.check_entries vestige.Manifest.check_labels vestige.Model.add_int64 chunk_key
    vestige.Paths.hex_encode vestige.Paths.is_bad_part vestige.Paths.is_chunk_id
    vestige.Prelude.sort vestige.Prelude.has_byte vestige.Prelude.lt_bytes
    vestige.Prelude.trim_space vestige.Snapshots.manifest_name vestige.Snapshots.open_manifest
    vestige.Snapshots.read_each vestige.Snapshots.read_stored vestige.Snapshots.snapshot_of_key
    vestige.Snapshots.snapshot_of_parts vestige.Snapshots.snapshots_by vestige.Store.Local.accepts
    local_version vestige.Store.Local.store_path vestige.Store.Local.system
    vestige.Verify.load_verify_state vestige.Verify.verify_loop verify_manifests
hello_verified = refl

hello_referenced : is_referenced hello_id (hello_snapshot ∷ []) ≡ true
unfolding vestige.Prelude.Bytes-discrete str
hello_referenced = refl

hello_locked :
    acquire_write_lock (local_store pad) hello_host (pos 0) hello_world
    ≡ (ok store_lock, locked_hello)
unfolding acquire_write_lock vestige.Lock.acquire_loop vestige.Store.Local.put_if_absent
    vestige.Prelude.Bytes-discrete has_prefix vestige.Prelude.has_byte vestige.Prelude.split_on
    vestige.Prelude.lookup vestige.Prelude.put
hello_locked = refl

hello_read_locked :
    (read_manifest
      (local_store pad)
      hello_host
      plain_repository
      (str "s1")
      (recover_staging (local_store pad) plain_repository locked_hello).1).0
    ≡ ok hello_snapshot
unfolding vestige.Snapshots.read_manifest_within vestige.Prelude.Bytes-discrete
    vestige.Prelude.contains_any vestige.Store.Local.get manifest_key has_prefix
    vestige.Prelude.split_on recover_staging vestige.Prelude.lookup vestige.Codec.decrypt
    vestige.Manifest.validate_manifest vestige.Manifest.check_entry vestige.Paths.validate_path
    vestige.Manifest.sum_chunks vestige.Paths.chunk_path vestige.Model.is_negative
    vestige.Model.add_int64 vestige.Codec.open_sealed vestige.Lock.sweep_staging
    vestige.Manifest.check_entries vestige.Manifest.check_labels vestige.Paths.hex_encode
    vestige.Paths.is_bad_part vestige.Paths.is_chunk_id vestige.Prelude.sort
    vestige.Prelude.has_byte vestige.Prelude.lt_bytes str vestige.Prelude.trim_space
    vestige.Snapshots.manifest_name vestige.Snapshots.open_manifest vestige.Snapshots.read_each
    vestige.Snapshots.read_stored vestige.Snapshots.snapshot_of_key
    vestige.Snapshots.snapshot_of_parts vestige.Snapshots.snapshots_by vestige.Store.Local.accepts
    local_version vestige.Store.Local.store_path vestige.Store.Local.system
hello_read_locked = refl

hello_deletion :
    (delete_snapshot
      (local_store pad)
      hello_host
      plain_repository
      (str "s1")
      false
      (pos 0)
      hello_world).0
    ≡ ok hello_deleted
unfolding delete_snapshot vestige.Lock.with_lock acquire_write_lock vestige.Lock.acquire_loop
    vestige.Store.Local.put_if_absent vestige.Prelude.Bytes-discrete has_prefix
    vestige.Prelude.has_byte vestige.Prelude.split_on vestige.Prelude.lookup recover_staging
    vestige.Lock.sweep_staging vestige.Snapshots.read_manifest_within vestige.Prelude.contains_any
    vestige.Store.Local.get manifest_key vestige.Prelude.put vestige.Codec.decrypt
    vestige.Codec.open_sealed vestige.Errors.is_changed vestige.Errors.is_exists
    vestige.Errors.is_not_found vestige.Gc.mark_refs vestige.Lifecycle.count_entries
    vestige.Lifecycle.delete_stats vestige.Lock.lock_data_is_stale vestige.Lock.release
    vestige.Manifest.check_entries vestige.Manifest.check_entry vestige.Manifest.check_labels
    vestige.Manifest.sum_chunks vestige.Manifest.validate_manifest vestige.Model.add_int64
    vestige.Model.is_negative vestige.Paths.chunk_path vestige.Snapshots.read_each
    vestige.Snapshots.read_stored vestige.Snapshots.snapshot_of_key
    vestige.Snapshots.snapshot_of_parts vestige.Snapshots.snapshots_by vestige.Store.Local.accepts
    local_version vestige.Store.Local.store_path vestige.Store.Local.system
    vestige.Store.Local.delete vestige.Store.Local.delete_if_version vestige.Prelude.erase str
    vestige.Paths.validate_path
hello_deletion = refl

restore_file-IsContents_example :
    (m : Manifest) × (e : FileEntry) × (d : Bytes) × ((read_manifest
        (local_store pad)
        hello_host
        plain_repository
        (str "s1")
        hello_world).0
      ≡ ok m)
    × IsFirst (local_store pad) hello_host plain_repository (str "a") e m.files
    × (e.type ≡ file)
    × IsContents (local_store pad) hello_host plain_repository e.chunks d
    × ((restore_file
          (local_store pad)
          hello_host
          keep
          plain_repository
          (str "s1")
          (str "a")
          (hello_world, [])).1
        ≡ (hello_world, [] ++ d))
restore_file-IsContents_example =
    restore_file-IsContents (local_store pad) hello_host plain_repository (str "s1") (str "a")
      hello_world [] hello_restored

hello_manifests :
    (verify_manifests (local_store pad) hello_host plain_repository (str "s1") hello_world).0
    ≡ ok (hello_snapshot ∷ [])
unfolding verify_manifests vestige.Prelude.Bytes-discrete str
hello_manifests = rw hello_read refl

verify_with_options_all_example :
    (d : Bytes) × ((read_chunk (local_store pad) hello_host plain_repository hello_id hello_world).0
      ≡ ok d)
    × (chunk_id hello_host d ≡ hello_id)
verify_with_options_all_example =
    verify_with_options_all (local_store pad) hello_host plain_repository (str "s1") hello_report
      (hello_snapshot ∷ []) hello_world hello_id hello_manifests hello_verified hello_referenced

not_the_manifest : lock_key ≢ hello_manifest
unfolding str
not_the_manifest p = absurd (ground arith)

not_manifest : lock_key ≢ manifest_key plain_repository (str "s1")
unfolding manifest_key str vestige.Snapshots.manifest_name
not_manifest p = absurd (ground arith)

delete_snapshot_spares_example :
    file_at
      (delete_snapshot
        (local_store pad)
        hello_host
        plain_repository
        (str "s1")
        true
        (pos 0)
        hello_world).1.store
      hello_manifest
    ≡ file_at hello_world.store hello_manifest
delete_snapshot_spares_example =
    delete_snapshot_spares (local_store pad) hello_host file_at (local_store-IsLawful pad)
      plain_repository (str "s1") true (pos 0) hello_manifest hello_world locked_hello store_lock
      not_the_manifest hello_locked (inl refl)

delete_snapshot_removes_example :
    file_at
      (delete_snapshot
        (local_store pad)
        hello_host
        plain_repository
        (str "s1")
        false
        (pos 0)
        hello_world).1.store
      (manifest_key plain_repository (str "s1"))
    ≡ none
delete_snapshot_removes_example =
    delete_snapshot_removes (local_store pad) hello_host file_at (local_store-IsLawful pad)
      plain_repository (str "s1") (pos 0) hello_world locked_hello store_lock hello_deleted
      hello_snapshot not_manifest hello_locked hello_read_locked hello_deletion

abbrev pub hello_entries : List StoredObject
hello_entries = record { key = hello_manifest; size = 1; version = [] } ∷ []

abbrev clean_report : CheckReport
clean_report = record {
  format_version = 1;
  snapshots = 1;
  referenced_chunks = 1;
  stored_chunks = 1;
  orphan_chunks = 0;
  issues = [];
}

pub manifests_listed :
    (local_store pad).list (str "snapshots/") hello_world.store ≡ ok hello_entries
unfolding vestige.Store.Local.list has_prefix str
manifests_listed = refl

hello_checked :
    (check (local_store pad) hello_host plain_repository hello_world).0 ≡ ok clean_report
unfolding check vestige.Store.Local.list has_prefix vestige.Snapshots.snapshot_of_key
    vestige.Prelude.split_on vestige.Prelude.Bytes-discrete vestige.Snapshots.read_manifest_within
    vestige.Prelude.contains_any vestige.Store.Local.get manifest_key vestige.Prelude.lookup
    vestige.Codec.decrypt vestige.Manifest.validate_manifest vestige.Manifest.check_entry
    vestige.Paths.validate_path vestige.Manifest.sum_chunks vestige.Paths.chunk_path
    vestige.Model.is_negative vestige.Check.check_live vestige.Check.index_chunks
    vestige.Check.orphans vestige.Check.scan_manifests chunk_id vestige.Chunks.open_chunk
    vestige.Chunks.verify_chunk vestige.Codec.decode_chunk vestige.Codec.open_sealed
    vestige.Gc.mark_entries vestige.Gc.mark_refs vestige.Manifest.check_entries
    vestige.Manifest.check_labels vestige.Model.add_int64 chunk_key vestige.Paths.hex_encode
    vestige.Paths.is_bad_part vestige.Paths.is_chunk_id vestige.Paths.key_base
    vestige.Paths.last_part vestige.Prelude.put vestige.Prelude.sort vestige.Prelude.has_byte
    vestige.Prelude.lt_bytes str vestige.Prelude.trim_space vestige.Snapshots.manifest_name
    vestige.Snapshots.open_manifest vestige.Snapshots.read_each vestige.Snapshots.read_stored
    vestige.Snapshots.snapshot_of_parts vestige.Snapshots.snapshots_by vestige.Store.Local.accepts
    local_version vestige.Store.Local.matching vestige.Store.Local.store_path
    vestige.Store.Local.system
hello_checked = refl

clean_report-healthy : healthy clean_report ≡ true
unfolding healthy
clean_report-healthy = refl

check-IsSound_example :
    All (IsSound (local_store pad) hello_host plain_repository hello_world) hello_entries
check-IsSound_example =
    check-IsSound (local_store pad) hello_host plain_repository clean_report hello_entries
      hello_world manifests_listed hello_checked clean_report-healthy
