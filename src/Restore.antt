-- ===== src/Restore.antt =====
-- internal/repository/repository.go: RestoreFile, which writes one file of a snapshot to a writer.
pub mod Contents
pub mod Returned
use vestige.Prelude.{ℕ, not, Bytes, List, [], ◌∷◌, if◌then◌else◌, ◌==◌, nat_eq, length}
use vestige.Errors.{message}
use vestige.Actions.{Action, ◌>>=◌, ◌>>◌, pure, raise, lift, wrapped, raise_if}
use vestige.Model.{FileEntry, ChunkRef, Int64, add_int64, len64, is_file}
use vestige.Paths.{validate_path}
use vestige.Host.{Host}
use vestige.Store.{ObjectStore}
use vestige.Repository.{Repository, World}
use vestige.Chunks.{read_chunk}
use vestige.Snapshots.{read_manifest}

-- The writer acts on a state of its own, and answers how many bytes it took.
module _ (S : ObjectStore) (h : Host) {O : Type 0} (write : Bytes → Action O ℕ) where
  abbrev on_store : {A : Type 0} → Action (World S) A → Action (World S × O) A
  on_store m (w, o) = let (r, w') = m w in (r, (w', o))

  abbrev on_output : {A : Type 0} → Action O A → Action (World S × O) A
  on_output m (w, o) = let (r, o') = m o in (r, (w, o'))

  -- One chunk: it is read, checked for its size, and written whole.
  unfoldable pub write_chunk : Repository → ChunkRef → Action (World S × O) ℕ
  write_chunk r ref = do
    contents ← on_store (wrapped "restore" (read_chunk S h r ref.id))
    raise_if (not (nat_eq (len64 contents) ref.size)) "chunk has unexpected size"
    n ← on_output (wrapped "write" (write contents))
    raise_if (not (nat_eq n (length contents))) "short write"
    pure n

  unfoldable pub write_chunks : Repository → List ChunkRef → Int64 → Action (World S × O) Int64
  unfolding write_chunk
  write_chunks r [] written = pure written
  write_chunks r (ref ∷ refs) written = do
    n ← write_chunk r ref
    write_chunks r refs (add_int64 written n)

  write_entry : Repository → FileEntry → Action (World S × O) (Unit {0})
  unfolding write_chunks
  write_entry r entry = do
    raise_if (not (is_file entry.type)) "snapshot path is not a regular file"
    written ← write_chunks r entry.chunks 0
    raise_if (not (nat_eq written entry.size)) "wrote an unexpected number of bytes"

  -- The loop over the entries: the first with the path.
  unfoldable pub write_path : Repository → Bytes → List FileEntry → Action (World S × O) (Unit {0})
  unfolding write_entry
  write_path r path [] = raise (message "snapshot path not found")
  write_path r path (e ∷ es) = if e.path == path then write_entry r e else write_path r path es

  unfoldable pub restore_file : Repository → Bytes → Bytes → Action (World S × O) (Unit {0})
  unfolding write_path
  restore_file r id path = do
    lift (validate_path path)
    m ← on_store (read_manifest S h r id)
    write_path r path m.files
