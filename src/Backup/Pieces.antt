-- ===== src/Backup/Pieces.antt =====
-- A file whose chunks were stored: the references describe its contents, and each chunk can be read.
use vestige.Chunker.Emit.{split_ended, run, split-run}
use vestige.Backup.{
  finish_chunks, in_order, nothing_collected, place, empty_ref, Collected, receive, receive_outcome,
  first_error, ChunkResult, store_job, store_file_chunks, result_of,
}
use vestige.Chunker.Contents.{contents, ending}
use vestige.Prelude.{
  map, append-nil, append_assoc, length-append, ◌≡◌, refl, sym, ap, ◌∙◌, ℕ, ◌+◌, Bool, Bytes,
  Option, Option-cases, none, List, [], ◌∷◌, ◌++◌, All, length, set, replicate, concat, inl, inr,
  arith, true,
}
use vestige.Chunker.{Config, Reader, split}
use vestige.Chunker.Chunks.{collect}
use vestige.Chunks.Laws.{put_chunk-Maintains, Keeps, put_chunk-Keeps}
use vestige.Errors.{Result, Result-cases, ok, err}
use vestige.Host.{Host}
use vestige.Model.{ChunkRef, BackupStats, len64}
use vestige.Store.{ObjectStore, IsLawful, IsReliable}
use vestige.Repository.{Repository, World}
use vestige.Codec.RoundTrip.{IsFaithful}
use vestige.Paths.{chunk_key}
use vestige.Chunks.{Stored, chunk_id, put_chunk, read_chunk}
use vestige.Chunks.RoundTrip.{read_chunk-put_chunk}

-- A write just behind a list.
set-append :
    {A : Type 0} (done rest : List A) (x y : A)
    → set (done ++ x ∷ rest) (length done) y ≡ done ++ y ∷ rest
set-append [] rest x y = refl
set-append (d ∷ done) rest x y = ap (λ z. d ∷ z) (set-append done rest x y)

module _ (S : ObjectStore) (object : S.State → Bytes → Option Bytes) (accepts : Bytes → Bool)
    (healthy : S.State → Type 0) (L : IsLawful S object) (R : IsReliable S object accepts healthy)
    (h : Host) (F : IsFaithful h) (r : Repository) where
  -- The key of the chunk can be formed and is accepted by the store.
  abbrev pub IsStorable : Bytes → Type 0
  IsStorable d = (key : Bytes) × (chunk_key (chunk_id h d) ≡ ok key) × (accepts key ≡ true)

  -- What is readable stays readable while the objects are kept.
  pub read_chunk-Keeps :
      (id key d : Bytes) (w w' : World S)
      → chunk_key id ≡ ok key
      → accepts key ≡ true
      → healthy w'.store
      → Keeps S object w w'
      → (read_chunk S h r id w).0 ≡ ok d
      → (read_chunk S h r id w').0 ≡ ok d
  unfolding read_chunk
  read_chunk-Keeps id key d w w' k a g p q = elim (Result-cases (S.get key w.store)) [
    | inr (x, e) ↦ absurd (ground arith)
    | inl ((x, v), e) ↦
        let (v', there) = R.get_present key w'.store x g a (p key x (L.get_ok key w.store x v e)) in
        ground arith
  ]

  -- The world after the chunks were stored one after another, and the results, numbered from n.
  abbrev world_after : World S → List Bytes → World S
  world_after w [] = w
  world_after w (c ∷ cs) = world_after (put_chunk S h r c w).1 cs

  abbrev results_from : World S → ℕ → List Bytes → List ChunkResult
  results_from w n [] = []
  results_from w n (c ∷ cs) =
      result_of S h n c (put_chunk S h r c w).0 ∷ results_from (put_chunk S h r c w).1 (n + 1) cs

  abbrev next : Bytes → World S × List ChunkResult → World S × List ChunkResult
  next c (w, rs) =
      ((put_chunk S h r c w).1, rs ++ result_of S h (length rs) c (put_chunk S h r c w).0 ∷ [])

  run-next :
      (w : World S) (rs : List ChunkResult) (cs : List Bytes)
      → run next (w, rs) cs ≡ (world_after w cs, rs ++ results_from w (length rs) cs)
  unfolding run
  run-next w rs [] = rw append-nil refl
  run-next w rs (c ∷ cs) =
      let x = result_of S h (length rs) c (put_chunk S h r c w).0 in
      run-next (put_chunk S h r c w).1 (rs ++ x ∷ []) cs
      ∙ rw (length-append rs (x ∷ []), append_assoc) refl

  split_job :
      (cfg : Config) (input : Reader) (w : World S)
      → split (store_job S h r) cfg input (w, []) ≡ (
        (split collect cfg input []).0,
        (
          world_after w (split collect cfg input []).1,
          results_from w 0 (split collect cfg input []).1,
        ),
      )
  unfolding store_job
  split_job cfg input w =
      split-run next (w, []) cfg input ∙ rw (run-next w [] (split collect cfg input []).1) refl

  abbrev IsStored : ChunkResult → Type 0
  IsStored x = (s : Stored) × (x.outcome ≡ ok s)

  receive_errors :
      (c : Collected) (rs : List ChunkResult)
      → (receive c rs).error ≡ none
      → (c.error ≡ none) × All IsStored rs
  unfolding receive receive_outcome first_error
  receive_errors c [] q = (q, tt)
  receive_errors c (x ∷ rs) q = elim (Result-cases x.outcome) [
    | inl (s, e) ↦
        let k = receive_errors (receive_outcome c x.sequence x.ref x.outcome) rs q in
        (ground (arith, k.0), ((s, e), k.1))
    | inr (y, e) ↦
        let k = receive_errors (receive_outcome c x.sequence x.ref x.outcome) rs q in
        absurd (ground (arith, k.0))
  ]

  healthy_after :
      (d : Bytes) (w : World S) → healthy w.store → healthy (put_chunk S h r d w).1.store
  healthy_after d w g =
      (put_chunk-Maintains S h r (λ v. healthy v.store)
          (λ key x. record { at = λ v p. R.put_healthy key x v.store p })
          (λ n. record { at = λ v p. p }) d).at
        w g

  -- A chunk of the file is under its identifier, and can be read.
  abbrev pub IsReadable : World S → Bytes → Type 0
  IsReadable w c = (d : Bytes) × ((read_chunk S h r (chunk_id h c) w).0 ≡ ok d)

  outcome-result_of :
      (n : ℕ) (c : Bytes) (res : Result Stored) → (result_of S h n c res).outcome ≡ res
  unfolding result_of
  outcome-result_of n c (ok s) = refl
  outcome-result_of n c (err e) = refl

  All-IsReadable :
      (w : World S) (n : ℕ) (cs : List Bytes)
      → healthy w.store
      → All IsStorable cs
      → All IsStored (results_from w n cs)
      → Keeps S object w (world_after w cs)
        × All (IsReadable (world_after w cs)) cs
        × healthy (world_after w cs).store
  All-IsReadable w n [] g k q = (λ j x e. e, tt, g)
  All-IsReadable w n (c ∷ cs) g ((key, k, a), ks) ((s, e), q) =
      let w₁ = (put_chunk S h r c w).1 in
      let (keeps, rest, g') = All-IsReadable w₁ (n + 1) cs (healthy_after c w g) ks q in
      let (same, (d, p, _)) =
        read_chunk-put_chunk S object accepts healthy L R h F r c key s w k a g
          (sym (outcome-result_of n c _) ∙ e) in
      let there =
        read_chunk-Keeps (chunk_id h c) key d w₁ (world_after w₁ cs) k a g' keeps (rw same at p) in
      (λ j x f. keeps j x (put_chunk-Keeps S object L h r c w j x f), ((d, there), rest), g')

  -- The reference to a chunk.
  abbrev pub ref_of : Bytes → ChunkRef
  ref_of c = record { id = chunk_id h c; size = len64 c }

  ref-result_of :
      (n : ℕ) (c : Bytes) (s : Stored)
      → s.id ≡ chunk_id h c
      → (result_of S h n c (ok s)).ref ≡ ref_of c
  unfolding result_of
  ref-result_of n c s e = rw e refl

  sequence-result_of :
      (n : ℕ) (c : Bytes) (res : Result Stored) → (result_of S h n c res).sequence ≡ n
  unfolding result_of
  sequence-result_of n c (ok s) = refl
  sequence-result_of n c (err e) = refl

  receive_one :
      (k : Collected) (n : ℕ) (c : Bytes) (s : Stored) (base : List ChunkRef)
      → s.id ≡ chunk_id h c
      → (let x = result_of S h n c (ok s) in
          place (receive_outcome k x.sequence x.ref x.outcome).refs base
          ≡ set (place k.refs base) n (ref_of c))
  unfolding result_of receive_outcome place
  receive_one k n c s base e = rw e refl

  -- Results in order fill the list of references from the left.
  place-All :
      (k : Collected) (w : World S) (n : ℕ) (done : List ChunkRef) (cs : List Bytes)
      (base : List ChunkRef)
      → n ≡ length done
      → healthy w.store
      → All IsStorable cs
      → All IsStored (results_from w n cs)
      → place k.refs base ≡ done ++ replicate (length cs) empty_ref
      → place (receive k (results_from w n cs)).refs base ≡ done ++ map ref_of cs
  unfolding receive
  place-All k w n done [] base l g ks q p = p
  place-All k w n done (c ∷ cs) base l g ((key, e, a), ks) ((s, o), q) p =
      let w₁ = (put_chunk S h r c w).1 in
      let x = result_of S h n c (put_chunk S h r c w).0 in
      let k₁ = receive_outcome k x.sequence x.ref x.outcome in
      let stored = sym (outcome-result_of n c _) ∙ o in
      let same =
        (read_chunk-put_chunk S object accepts healthy L R h F r c key s w e a g stored).0 in
      let others = replicate (length cs) empty_ref in
      let behind : place k₁.refs base ≡ (done ++ ref_of c ∷ []) ++ others =
        rw (stored, receive_one k n c s base same, p, l)
          (set-append done others empty_ref (ref_of c)
            ∙ sym (append_assoc done (ref_of c ∷ []) others)) in
      place-All k₁ w₁ (n + 1) (done ++ ref_of c ∷ []) cs base
        (omega (arith, l, length-append done (ref_of c ∷ []))) (healthy_after c w g) ks q behind
      ∙ append_assoc done (ref_of c ∷ []) (map ref_of cs)

  length-results_from :
      (w : World S) (n : ℕ) (cs : List Bytes) → length (results_from w n cs) ≡ length cs
  length-results_from w n [] = refl
  length-results_from w n (c ∷ cs) =
      ground (arith, length-results_from (put_chunk S h r c w).1 (n + 1) cs)

  store_run :
      (input : Reader) (cfg : Config) (w : World S)
      → store_file_chunks S h r input cfg w ≡ (
        finish_chunks S h
            (split collect cfg input []).0
            (results_from w 0 (split collect cfg input []).1),
        world_after w (split collect cfg input []).1,
      )
  unfolding store_file_chunks
  store_run input cfg w = rw (split_job cfg input w) refl

  -- In a healthy store that accepts the keys of the chunks, when storing the chunks of a file has
  -- succeeded, the references are those of its chunks in their order, joined the chunks are the bytes
  -- that were read, the reading ended well, and every chunk can be read. The host is faithful.
  pub store_file_chunks_lem :
      (input : Reader) (cfg : Config) (refs : List ChunkRef) (st : BackupStats) (w : World S)
      → healthy w.store
      → All IsStorable (split collect cfg input []).1
      → (store_file_chunks S h r input cfg w).0 ≡ ok (refs, st)
      → (refs ≡ map ref_of (split collect cfg input []).1)
        × (concat (split collect cfg input []).1 ≡ contents input)
        × (ending input ≡ ok tt)
        × All (IsReadable (store_file_chunks S h r input cfg w).1) (split collect cfg input []).1
  unfolding finish_chunks in_order
  store_file_chunks_lem input cfg refs st w g ks q =
      elim (Result-cases (split collect cfg input []).0) [
        | inr (x, e) ↦ absurd (ground (arith, store_run input cfg w))
        | inl (s, e) ↦
            let cs = (split collect cfg input []).1 in
            let results = results_from w 0 cs in
            elim (Option-cases (receive nothing_collected results).error) [
              | inr (x, f) ↦ absurd (ground (arith, store_run input cfg w))
              | inl f ↦
                  let stored = (receive_errors nothing_collected results f).1 in
                  let (keeps, readable, _) = All-IsReadable w 0 cs g ks stored in
                  let placed =
                    place-All nothing_collected w 0 [] cs (replicate (length results) empty_ref)
                      refl g ks stored
                      (ap (λ m. replicate m empty_ref) (length-results_from w 0 cs)) in
                  let (ended, joined) = split_ended cfg input s e in
                  let run = store_run input cfg w in
                  (ground (arith, run, placed), joined, ended, rw run readable)
            ]
      ]
