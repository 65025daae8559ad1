-- ===== src/Examples/Backups.antt =====
-- A file that is backed up, and restored from a snapshot with its entry.
use vestige.Prelude.{
  sym, ◌≡◌, refl, arith, ℕ, Bool, true, false, none, some, Bytes, Option, List, [], ◌∷◌, ◌++◌, ◌⊎◌,
  inl, inr, All, map, concat, pos, str, lookup,
}
use vestige.Errors.{ok}
use vestige.Model.{BackupStats, FileEntry, ChunkRef, file}
use vestige.Manifest.{validate_manifest}
use vestige.Manifest.Valid.{IsValid, validate_manifest_lem}
use vestige.Chunker.{Config, Reader, eof, split}
use vestige.Chunker.Chunks.{collect}
use vestige.Chunker.Contents.{contents, ending}
use vestige.Store.Local.{local_store, accepts}
use vestige.Store.Local.Laws.{file_at, IsHealthy, local_store-IsLawful, local_store-IsReliable}
use vestige.Chunks.Laws.{Keeps}
use vestige.Backup.{FileJob, FileInfo, store_file_chunks}
use vestige.Backup.Run.{store_file}
use vestige.Backup.Pieces.{IsStorable, IsReadable, ref_of, store_file_chunks_lem}
use vestige.Restore.{restore_file}
use vestige.Restore.Contents.{keep}
use vestige.Restore.Returned.{IsCollision, restore_file-store_file}
use vestige.Codec.RoundTrip.{IsFaithful}
use vestige.Examples.{pad, toy_host-IsFaithful, world}
use vestige.Examples.Files.{
  hello, hello_id, hello_chunk, hello_host, hello_snapshot, hello_world, hello_files, hello_read,
  plain_repository,
}

abbrev small : Config
small = record { window = pos 2; min_size = pos 8; target_size = pos 8; max_size = pos 16 }

abbrev input : Reader
input = eof hello

one_chunk : (split collect small input []).1 ≡ hello ∷ []
unfolding split vestige.Chunker.validate vestige.Chunker.process str vestige.Chunker.process_byte
    vestige.Chunker.at_boundary vestige.Chunker.absorb vestige.Chunker.start collect
one_chunk = refl

disk-IsHealthy :
    (files : List (Bytes × Bytes)) → IsHealthy (record { files = files; fails = λ c key. none })
disk-IsHealthy files c key = refl

hello_host-IsFaithful : IsFaithful hello_host
hello_host-IsFaithful = record {
  zstd_round = toy_host-IsFaithful.zstd_round;
  gzip_round = toy_host-IsFaithful.gzip_round;
  gcm_round = toy_host-IsFaithful.gcm_round;
  gcm_length = toy_host-IsFaithful.gcm_length;
  entropy_length = toy_host-IsFaithful.entropy_length;
}

hello-IsStorable :
    All
      (IsStorable
        (local_store pad)
        file_at
        accepts
        IsHealthy
        (local_store-IsLawful pad)
        (local_store-IsReliable pad)
        hello_host
        hello_host-IsFaithful
        plain_repository)
      (hello ∷ [])
unfolding accepts vestige.Paths.chunk_key vestige.Paths.chunk_path vestige.Chunks.chunk_id
    vestige.Paths.hex_encode vestige.Prelude.Bytes-discrete vestige.Prelude.has_prefix
    vestige.Prelude.has_byte vestige.Prelude.split_on
hello-IsStorable = ((hello_chunk, refl, refl), tt)

-- The disk without objects, and after the chunk was stored.
abbrev stored_refs : List ChunkRef
stored_refs = record { id = hello_id; size = 5 } ∷ []

abbrev stored_stats : BackupStats
stored_stats = record {
  files = 0;
  logical_bytes = 0;
  chunks_created = 1;
  chunks_reused = 0;
  bytes_written = 5;
}

hello_stored :
    (store_file_chunks (local_store pad) hello_host plain_repository input small world).0
    ≡ ok (stored_refs, stored_stats)
unfolding store_file_chunks split vestige.Chunker.validate vestige.Chunker.process str
    vestige.Chunker.process_byte vestige.Chunker.at_boundary vestige.Chunker.absorb
    vestige.Chunker.start vestige.Chunks.put_chunk vestige.Paths.chunk_key vestige.Paths.chunk_path
    vestige.Paths.hex_encode vestige.Store.Local.get vestige.Prelude.Bytes-discrete
    vestige.Prelude.has_prefix vestige.Prelude.has_byte vestige.Prelude.split_on
    vestige.Backup.in_order vestige.Backup.place vestige.Backup.receive vestige.Backup.store_job
    vestige.Chunker.rotate_left64 vestige.Chunker.table_at vestige.Chunks.chunk_id
    vestige.Codec.encode_chunk vestige.Codec.encrypt vestige.Errors.is_exists
    vestige.Errors.is_not_found vestige.Model.add_int64 lookup accepts
    vestige.Store.Local.local_version vestige.Store.Local.put_if_absent
hello_stored = refl

chunks-IsStorable :
    All
      (IsStorable
        (local_store pad)
        file_at
        accepts
        IsHealthy
        (local_store-IsLawful pad)
        (local_store-IsReliable pad)
        hello_host
        hello_host-IsFaithful
        plain_repository)
      (split collect small input []).1
chunks-IsStorable = rw one_chunk hello-IsStorable

store_file_chunks_example :
    (stored_refs
      ≡ map
          (ref_of
            (local_store pad)
            file_at
            accepts
            IsHealthy
            (local_store-IsLawful pad)
            (local_store-IsReliable pad)
            hello_host
            hello_host-IsFaithful
            plain_repository)
          (split collect small input []).1)
    × (concat (split collect small input []).1 ≡ contents input)
    × (ending input ≡ ok tt)
    × All
        (IsReadable
          (local_store pad)
          file_at
          accepts
          IsHealthy
          (local_store-IsLawful pad)
          (local_store-IsReliable pad)
          hello_host
          hello_host-IsFaithful
          plain_repository
          (store_file_chunks (local_store pad) hello_host plain_repository input small world).1)
        (split collect small input []).1
store_file_chunks_example =
    store_file_chunks_lem (local_store pad) file_at accepts IsHealthy (local_store-IsLawful pad)
      (local_store-IsReliable pad) hello_host hello_host-IsFaithful plain_repository input small
      stored_refs stored_stats world (disk-IsHealthy []) chunks-IsStorable hello_stored

abbrev hello_info : FileInfo
hello_info = record { size = 5; mode = 420; modified_ns = 0 }

abbrev hello_job : FileJob
hello_job = record {
  path = str "a";
  info = hello_info;
  opened = ok input;
  closed = ok tt;
  after = ok hello_info;
}

abbrev hello_entry : FileEntry
hello_entry = record {
  path = str "a";
  type = file;
  size = 5;
  mode = 420;
  modified_ns = 0;
  chunks = stored_refs;
  link_target = [];
}

hello_filed :
    (store_file (local_store pad) hello_host plain_repository small hello_job world).0
    ≡ ok (hello_entry, stored_stats)
unfolding store_file store_file_chunks split vestige.Chunker.validate vestige.Chunker.process str
    vestige.Chunker.process_byte vestige.Chunker.at_boundary vestige.Chunker.absorb
    vestige.Chunker.start vestige.Chunks.put_chunk vestige.Paths.chunk_key vestige.Paths.chunk_path
    vestige.Paths.hex_encode vestige.Store.Local.get vestige.Prelude.Bytes-discrete
    vestige.Prelude.has_prefix vestige.Prelude.has_byte vestige.Prelude.split_on
    vestige.Backup.in_order vestige.Backup.place vestige.Backup.receive vestige.Backup.store_job
    vestige.Chunker.rotate_left64 vestige.Chunker.table_at vestige.Chunks.chunk_id
    vestige.Codec.encode_chunk vestige.Codec.encrypt vestige.Errors.is_exists
    vestige.Errors.is_not_found vestige.Model.add_int64 lookup accepts
    vestige.Store.Local.local_version vestige.Store.Local.put_if_absent
hello_filed = refl

files_then :
    (store_file (local_store pad) hello_host plain_repository small hello_job world).1.store.files
    ≡ (hello_chunk, hello) ∷ []
unfolding store_file vestige.Prelude.put store_file_chunks split vestige.Chunker.validate
    vestige.Chunker.process str vestige.Chunker.process_byte vestige.Chunker.at_boundary
    vestige.Chunker.absorb vestige.Chunker.start vestige.Chunks.put_chunk vestige.Paths.chunk_key
    vestige.Paths.chunk_path vestige.Paths.hex_encode vestige.Store.Local.get
    vestige.Prelude.Bytes-discrete vestige.Prelude.has_prefix vestige.Prelude.has_byte
    vestige.Prelude.split_on vestige.Backup.in_order vestige.Backup.place vestige.Backup.receive
    vestige.Backup.store_job vestige.Chunker.rotate_left64 vestige.Chunker.table_at
    vestige.Chunks.chunk_id vestige.Codec.encode_chunk vestige.Codec.encrypt
    vestige.Errors.is_exists vestige.Errors.is_not_found vestige.Model.add_int64 lookup accepts
    vestige.Store.Local.local_version vestige.Store.Local.put_if_absent
files_then = refl

kept_files :
    (j x : Bytes) → lookup j ((hello_chunk, hello) ∷ []) ≡ some x → lookup j hello_files ≡ some x
unfolding lookup
kept_files j x q = ground (arith, q)

hello_kept :
    Keeps
      (local_store pad)
      file_at
      (store_file (local_store pad) hello_host plain_repository small hello_job world).1
      hello_world
hello_kept j x q = kept_files j x (rw (sym files_then) q)

hello_validated : validate_manifest hello_snapshot ≡ ok tt
unfolding validate_manifest vestige.Manifest.check_entry vestige.Paths.validate_path
    vestige.Manifest.sum_chunks vestige.Paths.chunk_path vestige.Model.add_int64
    vestige.Model.is_negative vestige.Prelude.Bytes-discrete vestige.Prelude.has_prefix
    vestige.Prelude.has_byte vestige.Prelude.split_on vestige.Paths.is_chunk_id
    vestige.Paths.is_bad_part str
hello_validated = refl

hello_snapshot-IsValid : IsValid hello_snapshot
hello_snapshot-IsValid = (validate_manifest_lem hello_snapshot).0 hello_validated

restore_file-store_file_example :
    IsCollision hello_host
    ⊎ (restore_file
          (local_store pad)
          hello_host
          keep
          plain_repository
          (str "s1")
          (str "a")
          (hello_world, [])
        ≡ (ok tt, (hello_world, [] ++ contents input)))
restore_file-store_file_example =
    restore_file-store_file (local_store pad) file_at accepts IsHealthy (local_store-IsLawful pad)
      (local_store-IsReliable pad) hello_host hello_host-IsFaithful plain_repository small hello_job
      input hello_entry stored_stats (str "s1") hello_snapshot world hello_world []
      (disk-IsHealthy []) (disk-IsHealthy hello_files) chunks-IsStorable refl hello_filed hello_kept
      hello_read hello_snapshot-IsValid (inl (refl, refl))
