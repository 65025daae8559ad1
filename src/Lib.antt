-- ===== src/Lib.antt =====
-- Vestige, a deduplicating backup engine: files are split into content-defined chunks, each chunk is
-- stored once under its hash, and a snapshot is a manifest of files and their chunks.
--
-- The parts, their files here, and the code:
--
-- - Filter: internal/filter/filter.go, the include and exclude patterns.
-- - Chunker (Sizes, Table): internal/chunker/chunker.go; `split` is Split, `absorb` and `at_boundary`
--   are the body of its inner loop, and `Reader` is the sequence of the results of Read.
-- - Model: internal/model/model.go. Manifest: validateManifest. Paths: validatePath, safeJoin, isWithin,
--   chunk keys (internal/repository/repository.go).
-- - Store: the interface objectStore of internal/repository/store.go as a record of operations over a
--   state. `IsLawful` says what every store does, over a view of the object under each key: a call
--   that fails may have done its work, as one to S3 that is not answered in time. `IsReliable` is what a
--   store without faults does besides. Store.Contract has what a store promises of versions, of its
--   failures and of its answers, and Store.Failures what follows for a call that fails. Store.Local is
--   localStore, with Store.Local.Laws, Versions and Answers; Store.S3 is s3Store over the calls of the
--   AWS client, and `IsLawfulClient` in Store.S3.Laws is what is relied on of that client.
-- - Host: the functions that the code calls and that are not part of it: the hash, PBKDF2, AES-GCM,
--   the compressors, base64, JSON, time, glob patterns, randomness. `IsFaithful` in Codec.RoundTrip says
--   what is relied on of them.
-- - Repository: the record Repository and the world that its operations change: the store, the number
--   of reads of the random source, the clock, the staging directory and the checkpoint of a
--   verification.
-- - Codec, Chunks, Encryption, Snapshots, Backup (Backup.Run), Restore: internal/repository/repository.go,
--   in this order: encryption and compression of a chunk; PutChunk, verifyChunk and readChunk; the
--   configuration, openEncryption and RotatePassphrase; publishManifest, ReadManifest, Snapshots and
--   Stats; storeFileChunks and BackupWithOptions; RestoreFile.
-- - Lock, Gc, Lifecycle, Retention, Verify, Check, Replicate: lock.go, gc.go, lifecycle.go, retention.go,
--   verify.go, check.go and replicate.go of internal/repository.
-- - FileSystem is the record of the calls of package os that a restore makes, over a state, which also
--   those that only read may change, so that a state can record them; RestoreTree is
--   RestoreWithOptions of internal/repository/repository.go over it, and Drill is
--   internal/repository/drill.go.
-- - RecoveryKit and RecoveryKit.Validate: internal/repository/recoverykit.go, over the calls on the ZIP file
--   that is written, and over the entries of the one that is read.
-- - Command (Diff, Find, Prune, Labels): what cmd/vestige/diff.go, find.go, prune.go and backup.go compute
--   and print on an opened repository.
-- - Prelude, Errors and Actions carry what all share: lists, byte strings, results with the errors that
--   the code tells apart, and actions, which take a state and give a result and the next state.
--   Actions.Maintains has the predicates that an action maintains. Examples has concrete inputs.
--
-- The operations call each other as in the code: a backup, a collection, a deletion and a recovery run
-- under `with_lock`, which acquires the writer lock, runs the body and releases the lock whatever the
-- body returns. Lock.Exclusion has several writers that take turns. All of them reach the objects
-- through the store only.
--
-- Strings are lists of bytes. An int64 is kept as its bit pattern below 2^64 and added with its
-- wrap-around; an int that may be negative is an integer. An error keeps its fixed text and what
-- errors.Is sees; the names put into the text are left out, and the statistics that are returned beside
-- an error are dropped. Time stands still within one operation. Paths are those of a Unix system.
--
-- Bounds: acquiring the lock makes two attempts, as the code does. `read_manifest_within` takes fuel for
-- the calls that ReadManifest, LatestSnapshot and Snapshots make of each other; `read_manifest` gives it
-- two, which is enough unless a snapshot in the store is named "latest" (Snapshots.Fuel), where the code
-- does not return.
-- All other loops run over a list.
--
-- Not modelled: the AWS client with newS3Store, which configures it; flags, usage and the texts that the
-- commands of cmd/vestige print; benchmarks, progress reports and durations. A backup is modelled with one
-- file worker and one chunk worker; the results of the chunk workers are collected by their sequence
-- numbers in the order they come. Temporary files are gone when a call of the store returns.
pub mod Prelude
pub mod Errors
pub mod Actions
pub mod Model
pub mod Filter
pub mod Paths
pub mod Manifest
pub mod Chunker
pub mod Store
pub mod Host
pub mod Repository
pub mod Codec
pub mod Chunks
pub mod Encryption
pub mod Snapshots
pub mod Lock
pub mod Gc
pub mod Lifecycle
pub mod Retention
pub mod Verify
pub mod Check
pub mod Replicate
pub mod Backup
pub mod Restore
pub mod FileSystem
pub mod RestoreTree
pub mod RecoveryKit
pub mod Drill
pub mod Command
pub mod Examples
