-- ===== src/Examples/Copies.antt =====
-- Two encrypted repositories: a snapshot of the first that the second has not yet.
use vestige.Prelude.{
  ◌≡◌, ◌≢◌, refl, arith, ℕ, Bool, true, Bytes, some, none, List, [], ◌∷◌, str, pos,
}
use vestige.Errors.{ok}
use vestige.Model.{Manifest, EncryptionConfig, zstd}
use vestige.Repository.{Repository, World}
use vestige.Store.Local.{local_store}
use vestige.Store.Local.Laws.{file_at, local_store-IsLawful}
use vestige.Snapshots.{publish_manifest}
use vestige.Lock.{lock_key}
use vestige.Replicate.{ReplicationStats, replicate_to}
use vestige.Replicate.Effects.{replicate_to_keeps}
use vestige.Examples.{pad, sample, toy_host, world, repository}

abbrev sealed : EncryptionConfig
sealed = record {
  algorithm = str "AES-256-GCM";
  kdf = str "PBKDF2-SHA256";
  iterations = 1;
  salt = [];
  wrapped_key = [];
  key_check = [];
}

abbrev first : Repository
first = record repository {
  config = record { format_version = 1; compression = zstd; encryption = some sealed };
}

abbrev second : Repository
second = record first { root = str "/copy" }

abbrev same : Manifest → Manifest → Bool
same m n = true

abbrev source : World (local_store pad)
source = (publish_manifest (local_store pad) toy_host first sample world).1

abbrev earlier : Bytes
earlier = str "chunks/x"

-- The second repository has an object of its own.
abbrev copies : World (local_store pad)
copies = record world { store = record { files = (earlier, 1 ∷ []) ∷ []; fails = λ c key. none } }

abbrev one_copied : ReplicationStats
one_copied = record {
  snapshots_copied = 1;
  snapshots_skipped = 0;
  chunks_copied = 0;
  chunks_reused = 0;
}

replication_run :
    (replicate_to
      (local_store pad)
      (local_store pad)
      toy_host
      same
      first
      second
      (pos 0)
      (source, copies)).0
    ≡ ok one_copied
unfolding replicate_to publish_manifest vestige.Prelude.Bytes-discrete str
    vestige.Repository.encrypted vestige.Encryption.same_compression vestige.Repository.compression
    vestige.Lock.acquire_write_lock vestige.Lock.acquire_loop vestige.Store.Local.put_if_absent
    vestige.Prelude.has_prefix vestige.Prelude.has_byte vestige.Prelude.split_on
    vestige.Prelude.lookup vestige.Lock.recover_staging vestige.Lock.sweep_staging
    vestige.Snapshots.snapshots_by vestige.Store.Local.list vestige.Codec.decrypt
    vestige.Codec.encrypt vestige.Codec.open_sealed vestige.Codec.seal vestige.Errors.is_not_found
    vestige.Lock.release vestige.Manifest.check_entries vestige.Manifest.check_entry
    vestige.Manifest.check_labels vestige.Manifest.sum_chunks vestige.Manifest.validate_manifest
    vestige.Paths.is_bad_part vestige.Paths.validate_path vestige.Prelude.put vestige.Prelude.sort
    vestige.Prelude.contains_any vestige.Replicate.copy_all vestige.Replicate.copy_entries
    vestige.Replicate.copy_manifest vestige.Replicate.copy_manifests vestige.Replicate.copy_refs
    vestige.Snapshots.manifest_bytes vestige.Snapshots.manifest_key vestige.Snapshots.manifest_name
    vestige.Snapshots.open_manifest vestige.Snapshots.read_each
    vestige.Snapshots.read_manifest_within vestige.Snapshots.read_stored
    vestige.Snapshots.snapshot_of_key vestige.Snapshots.snapshot_of_parts
    vestige.Store.Local.accepts vestige.Store.Local.matching vestige.Store.Local.store_path
    vestige.Store.Local.system vestige.Store.Local.get
replication_run = refl

not_the_lock : lock_key ≢ earlier
unfolding str
not_the_lock p = absurd (ground arith)

earlier_there : file_at copies.store earlier ≡ some (1 ∷ [])
unfolding vestige.Prelude.lookup vestige.Prelude.Bytes-discrete str
earlier_there = refl

replicate_to_keeps_example :
    ((replicate_to
        (local_store pad)
        (local_store pad)
        toy_host
        same
        first
        second
        (pos 0)
        (source, copies)).1.0
      ≡ source)
    × (file_at
          (replicate_to
            (local_store pad)
            (local_store pad)
            toy_host
            same
            first
            second
            (pos 0)
            (source, copies)).1.1.store
          earlier
        ≡ some (1 ∷ []))
replicate_to_keeps_example =
    replicate_to_keeps (local_store pad) (local_store pad) file_at (local_store-IsLawful pad)
      toy_host same first second (pos 0) earlier (1 ∷ []) source copies not_the_lock earlier_there
