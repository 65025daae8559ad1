-- ===== src/Restore/Contents.antt =====
-- What a restored file contains.
use vestige.Prelude.{
  ◌≡◌, ◌≢◌, ◌⊎◌, Bytes-discrete, refl, ℕ, Bytes, List, [], ◌∷◌, ◌++◌, append-nil, append_assoc,
  length, inl, inr, arith, true,
}
use vestige.Errors.{ok, Result-cases}
use vestige.Actions.{Action}
use vestige.Model.{EntryType, is_file, file, ChunkRef, FileEntry, Manifest, add_int64, len64}
use vestige.Host.{Host}
use vestige.Store.{ObjectStore}
use vestige.Repository.{Repository, World}
use vestige.Chunks.{chunk_id, read_chunk}
use vestige.Chunks.Laws.{chunk_id-read_chunk, read_chunk_keeps}
use vestige.Snapshots.{read_manifest}
use vestige.Snapshots.Reads.{read_manifest_keeps}
use vestige.Restore.{write_chunk, write_chunks, write_entry, write_path, restore_file}

-- A writer that takes everything.
abbrev pub keep : Bytes → Action Bytes ℕ
keep chunk o = (ok (length chunk), o ++ chunk)

is_file_eq : (t : EntryType) → is_file t ≡ true → t ≡ file
is_file_eq file h = refl
is_file_eq _ h = absurd (ground arith)

module _ (S : ObjectStore) (h : Host) (r : Repository) where
  -- The bytes are, one after another, contents with the hashes and the sizes of the references.
  abbrev pub IsContents : List ChunkRef → Bytes → Type 0
  IsContents [] d = d ≡ []
  IsContents (ref ∷ refs) d =
      (c : Bytes) × (rest : Bytes) × (d ≡ c ++ rest)
      × (chunk_id h c ≡ ref.id)
      × (len64 c ≡ ref.size)
      × IsContents refs rest

  -- The first entry with the path.
  abbrev pub IsFirst : Bytes → FileEntry → List FileEntry → Type 0
  IsFirst path e [] = ⊥
  IsFirst path e (x ∷ xs) = ((x.path ≡ path) × (x ≡ e)) ⊎ ((x.path ≢ path) × IsFirst path e xs)

  write_chunk_read :
      (ref : ChunkRef) (n : ℕ) (w : World S) (o : Bytes)
      → (write_chunk S h keep r ref (w, o)).0 ≡ ok n
      → (c : Bytes) × (chunk_id h c ≡ ref.id)
        × (len64 c ≡ ref.size)
        × (n ≡ length c)
        × (write_chunk S h keep r ref (w, o) ≡ (ok n, (w, o ++ c)))
  unfolding write_chunk
  write_chunk_read ref n w o q = elim (Result-cases (read_chunk S h r ref.id w).0) [
    | inl (c, e) ↦
        let k = read_chunk_keeps S h r ref.id w in
        (
          c,
          chunk_id-read_chunk S h r ref.id c w e,
          ground (arith, k),
          ground (arith, k),
          ground (arith, k),
        )
    | inr (x, e) ↦ absurd (ground arith)
  ]

  write_chunks-IsContents :
      (refs : List ChunkRef) (written n : ℕ) (w : World S) (o : Bytes)
      → (write_chunks S h keep r refs written (w, o)).0 ≡ ok n
      → (d : Bytes) × IsContents refs d
        × ((write_chunks S h keep r refs written (w, o)).1 ≡ (w, o ++ d))
  unfolding write_chunks
  write_chunks-IsContents [] written n w o q = ([], refl, rw append-nil refl)
  write_chunks-IsContents (ref ∷ refs) written n w o q =
      elim (Result-cases (write_chunk S h keep r ref (w, o)).0) [
        | inr (x, e) ↦ absurd (ground arith)
        | inl (k, e) ↦
            let (c, i, s, l, run) = write_chunk_read ref k w o e in
            let (d, t, more) =
              write_chunks-IsContents refs (add_int64 written k) n w (o ++ c)
                (rw (run, write_chunks) at q) in
            (c ++ d, (c, d, refl, i, s, t), rw (run, write_chunks) (rw append_assoc at more))
      ]

  write_entry-IsContents :
      (e : FileEntry) (w : World S) (o : Bytes)
      → (write_entry S h keep r e (w, o)).0 ≡ ok tt
      → (d : Bytes) × (e.type ≡ file)
        × IsContents e.chunks d
        × ((write_entry S h keep r e (w, o)).1 ≡ (w, o ++ d))
  unfolding write_entry
  write_entry-IsContents e w o q =
      elim (Result-cases (write_chunks S h keep r e.chunks 0 (w, o)).0) [
        | inr (x, g) ↦ absurd (ground arith)
        | inl (n, g) ↦
            let (d, k, run) = write_chunks-IsContents e.chunks 0 n w o g in
            (d, is_file_eq e.type (ground arith), k, ground arith)
      ]

  write_path-IsContents :
      (path : Bytes) (es : List FileEntry) (w : World S) (o : Bytes)
      → (write_path S h keep r path es (w, o)).0 ≡ ok tt
      → (e : FileEntry) × (d : Bytes) × IsFirst path e es
        × (e.type ≡ file)
        × IsContents e.chunks d
        × ((write_path S h keep r path es (w, o)).1 ≡ (w, o ++ d))
  unfolding write_path
  write_path-IsContents path [] w o q = absurd (ground arith)
  write_path-IsContents path (e ∷ es) w o q = elim (Bytes-discrete e.path path) [
    | yes p ↦
        let (d, t, k, run) = write_entry-IsContents e w o (ground arith) in
        (e, d, inl (p, refl), t, k, ground arith)
    | no n ↦
        let (x, d, f, t, k, run) = write_path-IsContents path es w o (ground arith) in
        (x, d, inr (n, f), t, k, ground arith)
  ]

  -- RestoreFile to a writer that takes everything succeeds only if the first entry of the snapshot with
  -- this path is a file, and then it has written its contents: bytes with the hashes and the sizes of the
  -- entry's chunks, in their order. The repository is as before.
  pub restore_file-IsContents :
      (id path : Bytes) (w : World S) (o : Bytes)
      → (restore_file S h keep r id path (w, o)).0 ≡ ok tt
      → (m : Manifest) × (e : FileEntry) × (d : Bytes) × ((read_manifest S h r id w).0 ≡ ok m)
        × IsFirst path e m.files
        × (e.type ≡ file)
        × IsContents e.chunks d
        × ((restore_file S h keep r id path (w, o)).1 ≡ (w, o ++ d))
  unfolding restore_file
  restore_file-IsContents id path w o q = elim (Result-cases (read_manifest S h r id w).0) [
    | inr (x, g) ↦ absurd (ground arith)
    | inl (m, g) ↦
        let same = read_manifest_keeps S h r id w in
        let (e, d, f, t, k, run) = write_path-IsContents path m.files w o (ground (arith, same)) in
        (m, e, d, g, f, t, k, ground (arith, same))
  ]
