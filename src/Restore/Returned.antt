-- ===== src/Restore/Returned.antt =====
-- A file that was backed up is restored: storeFileChunks, then RestoreFile.
use mathlib.Core.Path.{subst}
use vestige.Manifest.Valid.{IsGoodContent, total_size, IsValid, IsGoodEntry}
use vestige.Backup.{store_file_chunks, FileJob}
use vestige.Prelude.{
  ◌≡◌, ◌≢◌, ◌⊎◌, ap, ◌∙◌, ℕ, ◌+◌, ◌%◌, ◌^◌, ◌<◌, Bool, Bytes, Bytes-discrete, Option, List, [], ◌∷◌,
  ◌++◌, append-nil, append_assoc, All, map, concat, length, inl, inr, arith,
}
use vestige.Errors.{Result-cases, ok}
use vestige.Host.{Host}
use vestige.Model.{ChunkRef, FileEntry, Manifest, BackupStats, file, add_int64}
use vestige.Store.{ObjectStore, IsLawful, IsReliable}
use vestige.Repository.{Repository, World}
use vestige.Codec.RoundTrip.{IsFaithful}
use vestige.Chunker.{Config, Reader, split}
use vestige.Chunker.Contents.{contents}
use vestige.Chunker.Chunks.{collect}
use vestige.Chunks.{chunk_id}
use vestige.Chunks.Laws.{Keeps, read_chunk_keeps, chunk_id-read_chunk}
use vestige.Snapshots.{read_manifest}
use vestige.Snapshots.Reads.{read_manifest_keeps}
use vestige.Backup.Run.{store_file}
use vestige.Backup.Pieces.{IsStorable, IsReadable, ref_of, store_file_chunks_lem, read_chunk-Keeps}
use vestige.Restore.{write_chunk, write_chunks, write_entry, write_path, restore_file}
use vestige.Restore.Contents.{keep, IsFirst}

-- Two different byte strings with one hash.
abbrev pub IsCollision : Host → Type 0
IsCollision h = (a : Bytes) × (b : Bytes) × (a ≢ b) × (chunk_id h a ≡ chunk_id h b)

module _ (S : ObjectStore) (object : S.State → Bytes → Option Bytes) (accepts : Bytes → Bool)
    (healthy : S.State → Type 0) (L : IsLawful S object) (R : IsReliable S object accepts healthy)
    (h : Host) (F : IsFaithful h) (r : Repository) where
  abbrev refs_of : List Bytes → List ChunkRef
  refs_of = map (ref_of S object accepts healthy L R h F r)

  abbrev AreReadable : World S → List Bytes → Type 0
  AreReadable w = All (IsReadable S object accepts healthy L R h F r w)

  write_one :
      (c : Bytes) (w : World S) (o : Bytes)
      → IsReadable S object accepts healthy L R h F r w c
      → IsCollision h
        ⊎ (write_chunk S h keep r (ref_of S object accepts healthy L R h F r c) (w, o)
            ≡ (ok (length c), (w, o ++ c)))
  unfolding write_chunk
  write_one c w o (d, e) = elim (Bytes-discrete d c) [
    | yes p ↦ inr (ground (arith, read_chunk_keeps S h r (chunk_id h c) w))
    | no n ↦ inl (d, c, n, chunk_id-read_chunk S h r (chunk_id h c) d w e)
  ]

  mod_small : (n : ℕ) → n % 2 ^ 64 < 2 ^ 64
  mod_small n = omega arith

  sum_mod : (a n t : ℕ) → (add_int64 a n + t) % 2 ^ 64 ≡ (a + (n % 2 ^ 64 + t)) % 2 ^ 64
  unfolding add_int64
  sum_mod a n t = omega arith

  write_all :
      (cs : List Bytes) (written : ℕ) (w : World S) (o : Bytes)
      → written < 2 ^ 64
      → AreReadable w cs
      → IsCollision h
        ⊎ (write_chunks S h keep r (refs_of cs) written (w, o)
            ≡ (ok ((written + total_size (refs_of cs)) % 2 ^ 64), (w, o ++ concat cs)))
  unfolding write_chunks
  write_all [] written w o b k = inr (rw append-nil (ground arith))
  write_all (c ∷ cs) written w o b (k, ks) = elim (write_one c w o k) [
    | inl x ↦ inl x
    | inr run ↦
        elim (write_all cs (add_int64 written (length c)) w (o ++ c)
          (unfold add_int64 in mod_small (written + length c)) ks) [
            | inl x ↦ inl x
            | inr rest ↦ inr (
                rw (run, write_chunks)
                  (rest ∙ λ i. (
                    ok (sum_mod written (length c) (total_size (refs_of cs)) i),
                    (w, append_assoc o c (concat cs) i),
                  )))
          ]
  ]

  -- What storing a file has left for its entry.
  record Leaves (job : FileJob) (cfg : Config) (input : Reader) (entry : FileEntry) (w : World S)
      : Type 0 where
    path : entry.path ≡ job.path
    type : entry.type ≡ file
    refs : entry.chunks ≡ refs_of (split collect cfg input []).1
    joined : concat (split collect cfg input []).1 ≡ contents input
    chunks : AreReadable w (split collect cfg input []).1

  world-store_file :
      (cfg : Config) (job : FileJob) (input : Reader) (w : World S)
      → job.opened ≡ ok input
      → (store_file S h r cfg job w).1 ≡ (store_file_chunks S h r input cfg w).1
  unfolding store_file
  world-store_file cfg job input w o = ground arith

  store_file-Leaves :
      (cfg : Config) (job : FileJob) (input : Reader) (entry : FileEntry) (st : BackupStats)
      (w : World S)
      → healthy w.store
      → All (IsStorable S object accepts healthy L R h F r) (split collect cfg input []).1
      → job.opened ≡ ok input
      → (store_file S h r cfg job w).0 ≡ ok (entry, st)
      → Leaves job cfg input entry (store_file S h r cfg job w).1
  unfolding store_file
  store_file-Leaves cfg job input entry st w g ks o q =
      elim (Result-cases (store_file_chunks S h r input cfg w).0) [
        | inr (x, e) ↦ absurd (ground arith)
        | inl ((refs, st'), e) ↦
            let (a, b, c, d) =
              store_file_chunks_lem S object accepts healthy L R h F r input cfg refs st' w g ks
                e in
            record {
              path = ground arith;
              type = ground arith;
              refs = ground (arith, a);
              joined = b;
              chunks = rw (world-store_file cfg job input w o) d;
            }
      ]

  AreReadable-Keeps :
      (cs : List Bytes) (w w' : World S)
      → All (IsStorable S object accepts healthy L R h F r) cs
      → healthy w'.store
      → Keeps S object w w'
      → AreReadable w cs
      → AreReadable w' cs
  AreReadable-Keeps [] w w' ks g p q = tt
  AreReadable-Keeps (c ∷ cs) w w' ((key, k, a), ks) g p ((d, e), q) = (
    (d, read_chunk-Keeps S object accepts healthy L R h F r (chunk_id h c) key d w w' k a g p e),
    AreReadable-Keeps cs w w' ks g p q,
  )

  write_first :
      (path : Bytes) (e : FileEntry) (es : List FileEntry) (w : World S) (o : Bytes)
      → IsFirst S h r path e es
      → write_path S h keep r path es (w, o) ≡ write_entry S h keep r e (w, o)
  unfolding write_path
  write_first path e [] w o f = absurd f
  write_first path e (x ∷ xs) w o (inl (p, q)) =
      rw q (ground (arith, ap (λ (y : FileEntry). y.path) q))
  write_first path e (x ∷ xs) w o (inr (n, f)) = ground (arith, write_first path e xs w o f)

  good_first :
      (path : Bytes) (e : FileEntry) (es : List FileEntry)
      → IsFirst S h r path e es
      → All IsGoodEntry es
      → IsGoodEntry e × (e.path ≡ path)
  good_first path e [] f g = absurd f
  good_first path e (x ∷ xs) (inl (p, q)) (g, gs) =
      subst (λ (y : FileEntry). IsGoodEntry y × (y.path ≡ path)) q (g, p)
  good_first path e (x ∷ xs) (inr (n, f)) (g, gs) = good_first path e xs f gs

  written_back :
      (job : FileJob) (cfg : Config) (input : Reader) (entry : FileEntry) (w : World S) (o : Bytes)
      → Leaves job cfg input entry w
      → IsGoodEntry entry
      → IsCollision h ⊎ (write_entry S h keep r entry (w, o) ≡ (ok tt, (w, o ++ contents input)))
  unfolding write_entry
  written_back job cfg input entry w o l good =
      let cs = (split collect cfg input []).1 in
      elim (write_all cs 0 w o (omega arith) l.chunks) [
        | inl x ↦ inl x
        | inr run ↦
            let size = (subst (λ t. IsGoodContent t entry) l.type good.1).1 in
            inr (ground (arith, l.type, l.refs, l.joined, size, run))
      ]

  -- In a healthy store that accepts the keys of the chunks: when a file was stored, the objects were
  -- kept since, and a valid manifest that is read now has its entry as the first with its path, then
  -- RestoreFile to a writer that takes everything succeeds and writes exactly the bytes that were read
  -- from the file, or there are two different byte strings with one SHA-256 hash. The host is faithful.
  pub restore_file-store_file :
      (cfg : Config) (job : FileJob) (input : Reader) (entry : FileEntry) (st : BackupStats)
      (id : Bytes) (m : Manifest) (w w' : World S) (o : Bytes)
      → healthy w.store
      → healthy w'.store
      → All (IsStorable S object accepts healthy L R h F r) (split collect cfg input []).1
      → job.opened ≡ ok input
      → (store_file S h r cfg job w).0 ≡ ok (entry, st)
      → Keeps S object (store_file S h r cfg job w).1 w'
      → (read_manifest S h r id w').0 ≡ ok m
      → IsValid m
      → IsFirst S h r job.path entry m.files
      → IsCollision h
        ⊎ (restore_file S h keep r id job.path (w', o) ≡ (ok tt, (w', o ++ contents input)))
  unfolding restore_file
  restore_file-store_file cfg job input entry st id m w w' o g g' ks opened q kept read v first =
      let cs = (split collect cfg input []).1 in
      let left = store_file-Leaves cfg job input entry st w g ks opened q in
      let there = AreReadable-Keeps cs (store_file S h r cfg job w).1 w' ks g' kept left.chunks in
      let later : Leaves job cfg input entry w' = record {
        path = left.path;
        type = left.type;
        refs = left.refs;
        joined = left.joined;
        chunks = there;
      } in
      let (good, p) = good_first job.path entry m.files first v.entries in
      elim (written_back job cfg input entry w' o later good) [
        | inl x ↦ inl x
        | inr run ↦ inr (
            ground (
              arith,
              read_manifest_keeps S h r id w',
              good.0,
              p,
              write_first job.path entry m.files w' o first,
              run,
            ))
      ]
