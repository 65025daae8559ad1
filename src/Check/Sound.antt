-- ===== src/Check/Sound.antt =====
-- What a healthy report says of the repository.
use vestige.Prelude.{
  Bool, ◌==◌, any, is_empty, sym, ap, sort, ◌≡◌, refl, ◌∙◌, Bytes, Option, Option-cases, none, some,
  true, List, [], ◌∷◌, ◌++◌, All, inl, inr, arith, contains, sort_nil, str, lookup,
}
use mathlib.Core.Path.{subst}
use vestige.Errors.{Result-cases, ok, err}
use vestige.Host.{Host}
use vestige.Model.{FileEntry, ChunkRef, Manifest}
use vestige.Store.{ObjectStore, StoredObject}
use vestige.Repository.{Repository, World}
use vestige.Snapshots.{read_manifest, snapshot_of_key}
use vestige.Snapshots.Reads.{read_manifest_keeps}
use vestige.Chunks.{verify_chunk, read_chunk, chunk_id}
use vestige.Chunks.Laws.{verify_chunk_keeps, read_chunk-verify_chunk, chunk_id-read_chunk}
use vestige.Gc.Safety.{is_referenced, contains-mark_entries}
use vestige.Check.{
  Scan, CheckIssue, CheckReport, scan_manifests, scan_result, check_live, check_live_chunk,
  corrupt_issue, check, index_chunks, orphans, issue_before, healthy,
}

append_nil_both : {A : Type 0} (xs ys : List A) → xs ++ ys ≡ [] → (xs ≡ []) × (ys ≡ [])
append_nil_both [] ys h = (refl, h)
append_nil_both (x ∷ xs) ys h = absurd (ground arith)

is_empty_nil : {A : Type 0} (xs : List A) → is_empty xs ≡ true → xs ≡ []
is_empty_nil [] h = refl
is_empty_nil (x ∷ xs) h = absurd (ground arith)

snoc_nonempty : {A : Type 0} (xs : List A) (x : A) → xs ++ x ∷ [] ≡ [] → ⊥
snoc_nonempty [] x h = ground arith
snoc_nonempty (y ∷ xs) x h = ground arith

abbrev is_referenced_by : Bytes → List FileEntry → Bool
is_referenced_by c es = any (λ (e : FileEntry). any (λ (ref : ChunkRef). c == ref.id) e.chunks) es

module _ (S : ObjectStore) (h : Host) (r : Repository) where
  live_chunk :
      (id : Bytes) (o : Option StoredObject) (w : World S)
      → (check_live_chunk S h r id o w).0 ≡ ok []
      → ((verify_chunk S h r id w).0 ≡ ok tt)
  unfolding check_live_chunk
  live_chunk id none w q = absurd (ground arith)
  live_chunk id (some o) w q = elim (Result-cases (verify_chunk S h r id w).0) [
    | inl (_, e) ↦ e
    | inr (x, e) ↦ absurd (ground arith)
  ]

  live_chunk_runs :
      (id : Bytes) (o : Option StoredObject) (w : World S)
      → (fs : List CheckIssue) × (check_live_chunk S h r id o w ≡ (ok fs, w))
  unfolding check_live_chunk
  live_chunk_runs id none w = (_, refl)
  live_chunk_runs id (some o) w = (
    corrupt_issue S h o (verify_chunk S h r id w).0,
    ground (arith, verify_chunk_keeps S h r id w),
  )

  check_live_runs :
      (stored : List (Bytes × StoredObject)) (ids : List Bytes) (w : World S)
      → (fs : List CheckIssue) × (check_live S h r stored ids w ≡ (ok fs, w))
  unfolding check_live
  check_live_runs stored [] w = ([], refl)
  check_live_runs stored (id ∷ ids) w =
      let (fs, p) = live_chunk_runs id (lookup id stored) w in
      let (gs, q) = check_live_runs stored ids w in (fs ++ gs, rw p (rw q refl))

  check_live_all :
      (stored : List (Bytes × StoredObject)) (ids : List Bytes) (w : World S) (id : Bytes)
      → (check_live S h r stored ids w).0 ≡ ok []
      → contains ids id ≡ true
      → (verify_chunk S h r id w).0 ≡ ok tt
  unfolding check_live
  check_live_all stored [] w id q c = absurd (ground arith)
  check_live_all stored (i ∷ ids) w id q c =
      let (fs, p) = live_chunk_runs i (lookup i stored) w in
      let (gs, g) = check_live_runs stored ids w in
      let (f0, g0) = append_nil_both fs gs (ground arith) in
      ground (arith, live_chunk i (lookup i stored) w, check_live_all stored ids w id)

  -- What a scan that ends in `sc` without an issue has read: a manifest for each key of one, whose chunks
  -- are live.
  abbrev pub IsRead : World S → List Bytes → StoredObject → Type 0
  IsRead w live o =
      (id : Bytes)
      → snapshot_of_key r o.key ≡ some id
      → (m : Manifest) × ((read_manifest S h r id w).0 ≡ ok m)
        × ((c : Bytes) → is_referenced c (m ∷ []) ≡ true → contains live c ≡ true)

  -- The live chunks and the issues of a scan are among those of a later one.
  abbrev IsLater : Scan → Scan → Type 0
  IsLater sc sc' =
      (sc'.issues ≡ [] → sc.issues ≡ [])
      × ((c : Bytes) → contains sc.live c ≡ true → contains sc'.live c ≡ true)

  scan-IsLater :
      (os : List StoredObject) (sc sc' : Scan) (w : World S)
      → (scan_manifests S h r os sc w).0 ≡ ok sc'
      → IsLater sc sc'
  unfolding scan_manifests scan_result
  scan-IsLater [] sc sc' w q = ground arith
  scan-IsLater (o ∷ os) sc sc' w q = elim (Option-cases (snapshot_of_key r o.key)) [
    | inl e ↦ scan-IsLater os sc sc' w (rw (e, scan_manifests) at q)
    | inr (id, e) ↦ elim (Result-cases (read_manifest S h r id w).0) [
      | inl (m, g) ↦
          let next = scan_result o id (ok m) sc in
          let later = scan-IsLater os next sc' w (ground (arith, read_manifest_keeps S h r id w)) in
          (
            λ z. ground (arith, later.0 z),
            λ c k. later.1 c (ground (arith, contains-mark_entries sc.live m.files c)),
          )
      | inr (x, g) ↦
          let next = scan_result o id (err x) sc in
          let later = scan-IsLater os next sc' w (ground (arith, read_manifest_keeps S h r id w)) in
          (λ z. absurd (snoc_nonempty sc.issues _ (later.0 z)), λ c k. later.1 c (ground arith))
    ]
  ]

  scan_reads :
      (os : List StoredObject) (sc sc' : Scan) (w : World S)
      → (scan_manifests S h r os sc w).0 ≡ ok sc'
      → sc'.issues ≡ []
      → All (IsRead w sc'.live) os
  unfolding scan_manifests scan_result
  scan_reads [] sc sc' w q z = tt
  scan_reads (o ∷ os) sc sc' w q z = elim (Option-cases (snapshot_of_key r o.key)) [
    | inl e ↦
        (λ id p. absurd (ground arith), scan_reads os sc sc' w (rw (e, scan_manifests) at q) z)
    | inr (id, e) ↦ elim (Result-cases (read_manifest S h r id w).0) [
      | inl (m, g) ↦
          let next = scan_result o id (ok m) sc in
          let rest : (scan_manifests S h r os next w).0 ≡ ok sc' =
            ground (arith, read_manifest_keeps S h r id w) in
          let later = scan-IsLater os next sc' w rest in
          (
            λ i p. (
              m,
              ground arith,
              λ c k. later.1 c (ground (arith, contains-mark_entries sc.live m.files c)),
            ),
            scan_reads os next sc' w rest z,
          )
      | inr (x, g) ↦
          let next = scan_result o id (err x) sc in
          let rest : (scan_manifests S h r os next w).0 ≡ ok sc' =
            ground (arith, read_manifest_keeps S h r id w) in
          let later = scan-IsLater os next sc' w rest in
          absurd (snoc_nonempty sc.issues _ (later.0 z))
    ]
  ]

  scan_keeps :
      (os : List StoredObject) (sc : Scan) (w : World S) → (scan_manifests S h r os sc w).1 ≡ w
  unfolding scan_manifests
  scan_keeps [] sc w = refl
  scan_keeps (o ∷ os) sc w = elim (Option-cases (snapshot_of_key r o.key)) [
    | inl e ↦ rw (e, scan_manifests) (scan_keeps os sc w)
    | inr (id, e) ↦ ground (
      arith,
      read_manifest_keeps S h r id w,
      scan_keeps os (scan_result o id (read_manifest S h r id w).0 sc) w,
    )
  ]

  -- The chunk can be read and has the hash that its identifier says.
  abbrev pub IsIntact : World S → Bytes → Type 0
  IsIntact w c = (d : Bytes) × ((read_chunk S h r c w).0 ≡ ok d) × (chunk_id h d ≡ c)

  -- If the key names a snapshot, its manifest can be read, and so can each chunk that it refers to.
  abbrev pub IsSoundSnapshot : World S → Option Bytes → Type 0
  IsSoundSnapshot w none = Unit
  IsSoundSnapshot w (some id) =
      (m : Manifest) × ((read_manifest S h r id w).0 ≡ ok m)
      × All (λ (e : FileEntry). All (λ (ref : ChunkRef). IsIntact w ref.id) e.chunks) m.files

  abbrev pub IsSound : World S → StoredObject → Type 0
  IsSound w o = IsSoundSnapshot w (snapshot_of_key r o.key)

  refs-IsIntact :
      (w : World S) (refs : List ChunkRef)
      → ((c : Bytes) → any (λ (ref : ChunkRef). c == ref.id) refs ≡ true → IsIntact w c)
      → All (λ (ref : ChunkRef). IsIntact w ref.id) refs
  refs-IsIntact w [] f = tt
  refs-IsIntact w (ref ∷ refs) f =
      (f ref.id (ground arith), refs-IsIntact w refs (λ c k. f c (ground arith)))

  entries-IsIntact :
      (w : World S) (es : List FileEntry)
      → ((c : Bytes) → is_referenced_by c es ≡ true → IsIntact w c)
      → All (λ (e : FileEntry). All (λ (ref : ChunkRef). IsIntact w ref.id) e.chunks) es
  entries-IsIntact w [] f = tt
  entries-IsIntact w (e ∷ es) f = (
    refs-IsIntact w e.chunks (λ c k. f c (ground arith)),
    entries-IsIntact w es (λ c k. f c (ground arith)),
  )

  read-IsIntact :
      (w : World S) (stored : List (Bytes × StoredObject)) (live : List Bytes) (c : Bytes)
      → (check_live S h r stored live w).0 ≡ ok []
      → contains live c ≡ true
      → IsIntact w c
  read-IsIntact w stored live c q k =
      let (d, e) = read_chunk-verify_chunk S h r c w (check_live_all stored live w c q k) in
      (d, e, chunk_id-read_chunk S h r c d w e)

  IsRead-IsSound :
      (w : World S) (stored : List (Bytes × StoredObject)) (live : List Bytes) (o : StoredObject)
      → (check_live S h r stored live w).0 ≡ ok []
      → IsRead w live o
      → IsSound w o
  IsRead-IsSound w stored live o q k = elim (Option-cases (snapshot_of_key r o.key)) [
    | inl e ↦ subst (IsSoundSnapshot w) (sym e) tt
    | inr (id, e) ↦
        let (m, g, f) = k id e in
        let intact =
          entries-IsIntact w m.files
            (λ c u. read-IsIntact w stored live c q (f c (ground arith))) in
        subst (IsSoundSnapshot w) (sym e) (m, g, intact)
  ]

  All-IsSound :
      (w : World S) (stored : List (Bytes × StoredObject)) (live : List Bytes)
      (os : List StoredObject)
      → (check_live S h r stored live w).0 ≡ ok []
      → All (IsRead w live) os
      → All (IsSound w) os
  All-IsSound w stored live [] q k = tt
  All-IsSound w stored live (o ∷ os) q k =
      (IsRead-IsSound w stored live o q k.0, All-IsSound w stored live os q k.1)

  -- When Check returns a healthy report, every manifest that was listed can be read, and every chunk that
  -- it refers to can be read and has the hash that its identifier says.
  pub check-IsSound :
      (report : CheckReport) (entries : List StoredObject) (w : World S)
      → S.list (str "snapshots/") w.store ≡ ok entries
      → (check S h r w).0 ≡ ok report
      → healthy report ≡ true
      → All (IsSound w) entries
  unfolding check healthy
  check-IsSound report entries w l q g =
      let sc₀ : Scan = record { snapshots = 0; live = []; issues = [] } in
      let kept = scan_keeps entries sc₀ w in
      elim (Result-cases (scan_manifests S h r entries sc₀ w).0) [
        | inr (x, e) ↦ absurd (ground arith)
        | inl (sc, e) ↦ elim (Result-cases (S.list (str "chunks/") w.store)) [
          | inr (x, o) ↦ absurd (ground (arith, kept))
          | inl (objects, o) ↦
              let indexed = index_chunks objects [] [] 0 in
              let (faults, f) = check_live_runs indexed.0 sc.live w in
              let unused = orphans sc.live indexed.0 in
              let same : report.issues
                  ≡ sort issue_before (sc.issues ++ indexed.1 ++ faults ++ unused) =
                ground (arith, kept) in
              let empty = sort_nil issue_before _ (sym same ∙ is_empty_nil report.issues g) in
              let (listed, _) = append_nil_both (sc.issues ++ indexed.1 ++ faults) unused empty in
              let (read, no_faults) = append_nil_both (sc.issues ++ indexed.1) faults listed in
              let no_issues = (append_nil_both sc.issues indexed.1 read).0 in
              All-IsSound w indexed.0 sc.live entries (ap (λ x. x.0) f ∙ ap ok no_faults)
                (scan_reads entries sc₀ sc w e no_issues)
        ]
      ]
