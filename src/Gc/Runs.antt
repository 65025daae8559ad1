-- ===== src/Gc/Runs.antt =====
-- A whole run of the collector: what it spares, and what it leaves.
use vestige.Gc.Safety.{
  absent_stays, sweep_spares, sweep_removes, sweep_dry, is_referenced, contains-mark,
}
use vestige.Lock.Effects.{with_lock_run, with_lock_other, store-recover_staging}
use vestige.Prelude.{
  Option-cases, ap, length, ◌∙◌, ◌≡◌, refl, ◌≢◌, ◌⊎◌, ℕ, Bytes, Option, none, Bool, true, false,
  inl, inr, ℤ, arith, List, [], str, has_prefix, contains,
}
use vestige.Errors.{Error, ok, err, Result-cases}
use vestige.Host.{Host}
use vestige.Model.{Manifest}
use vestige.Store.{ObjectStore, IsLawful, StoredObject}
use vestige.Paths.{key_base}
use vestige.Repository.{Repository, World}
use vestige.Snapshots.{snapshots}
use vestige.Snapshots.Reads.{snapshots_keep}
use vestige.Lock.{WriteLock, lock_key, acquire_write_lock, recover_staging}
use vestige.Gc.{GcStats, sweep, collect_garbage, garbage_collect, mark}

module _ (S : ObjectStore) (h : Host) (object : S.State → Bytes → Option Bytes)
    (L : IsLawful S object) (r : Repository) where
  -- Why an object is spared: the run is a preview, some manifest cannot be read, or a snapshot
  -- refers to it. The manifests are those that are read at `w`.
  abbrev pub IsSpared : Bool → Bytes → World S → Type 0
  IsSpared dry_run j w =
      (dry_run ≡ true)
      ⊎ ((e : Error) × ((snapshots S h r w).0 ≡ err e))
      ⊎ ((ms : List Manifest) × ((snapshots S h r w).0 ≡ ok ms)
          × (is_referenced (key_base j) ms ≡ true))

  spared_sweep :
      (dry_run : Bool) (j : Bytes) (w : World S) (ms : List Manifest)
      → IsSpared dry_run j w
      → (snapshots S h r w).0 ≡ ok ms
      → (dry_run ≡ true) ⊎ (contains (mark [] ms) (key_base j) ≡ true)
  spared_sweep dry_run j w ms (inl d) q = inl d
  spared_sweep dry_run j w ms (inr (inl (e, x))) q = absurd (ground arith)
  spared_sweep dry_run j w ms (inr (inr (ms', x, t))) q =
      inr (ground (arith, contains-mark ms' (key_base j)))

  -- The statistics before the sweep.
  abbrev before : Bool → List Manifest → GcStats
  before dry_run ms = record {
    reachable_chunks = length (mark [] ms);
    orphan_chunks = 0;
    reclaimed_bytes = 0;
    dry_run = dry_run;
  }

  collect_sweep :
      (dry_run : Bool) (w : World S) (n : ℕ) (ms : List Manifest) (objects : List StoredObject)
      → (recover_staging S r w).0 ≡ ok n
      → (snapshots S h r (recover_staging S r w).1).0 ≡ ok ms
      → S.list (str "chunks/") (recover_staging S r w).1.store ≡ ok objects
      → collect_garbage S h r dry_run w
        ≡ sweep S h dry_run (mark [] ms) objects (before dry_run ms) (recover_staging S r w).1
  unfolding collect_garbage
  collect_sweep dry_run w n ms objects p q z =
      ground (arith, snapshots_keep S h r (recover_staging S r w).1)

  spared_at :
      (dry_run : Bool) (live : List Bytes) (objects : List StoredObject) (st : GcStats) (j : Bytes)
      (w : World S)
      → (dry_run ≡ true) ⊎ (contains live (key_base j) ≡ true)
      → object (sweep S h dry_run live objects st w).1.store j ≡ object w.store j
  spared_at dry_run live objects st j w (inl d) =
      rw d ((sweep_dry S h object L live objects st j (object w.store j)).at w refl)
  spared_at dry_run live objects st j w (inr c) =
      (sweep_spares S h object L dry_run live objects st j (object w.store j) c).at w refl

  collect_spares :
      (dry_run : Bool) (j : Bytes) (w : World S)
      → IsSpared dry_run j (recover_staging S r w).1
      → object (collect_garbage S h r dry_run w).1.store j ≡ object w.store j
  unfolding collect_garbage
  collect_spares dry_run j w c = elim (Result-cases (recover_staging S r w).0) [
    | inr (e, p) ↦ ground (arith, store-recover_staging S r w)
    | inl (n, p) ↦ elim (Result-cases (snapshots S h r (recover_staging S r w).1).0) [
      | inr (e, q) ↦
          ground
            (arith, store-recover_staging S r w, snapshots_keep S h r (recover_staging S r w).1)
      | inl (ms, q) ↦ elim (Result-cases (S.list (str "chunks/") (recover_staging S r w).1.store)) [
        | inr (e, z) ↦
            ground
              (arith, store-recover_staging S r w, snapshots_keep S h r (recover_staging S r w).1)
        | inl (objects, z) ↦ rw (collect_sweep dry_run w n ms objects p q z) (
            spared_at dry_run (mark [] ms) objects (before dry_run ms) j _
              (spared_sweep dry_run j _ ms c q)
            ∙ ap (λ s. object s j) (store-recover_staging S r w))
      ]
    ]
  ]

  collect_removes :
      (j : Bytes) (w : World S) (st : GcStats) (ms : List Manifest)
      → (snapshots S h r (recover_staging S r w).1).0 ≡ ok ms
      → (collect_garbage S h r false w).0 ≡ ok st
      → has_prefix j (str "chunks/") ≡ true
      → is_referenced (key_base j) ms ≡ false
      → object (collect_garbage S h r false w).1.store j ≡ none
  unfolding collect_garbage
  collect_removes j w st ms q g p u = elim (Result-cases (recover_staging S r w).0) [
    | inr (e, a) ↦ absurd (ground arith)
    | inl (n, a) ↦ elim (Result-cases (S.list (str "chunks/") (recover_staging S r w).1.store)) [
      | inr (e, z) ↦ absurd (ground (arith, snapshots_keep S h r (recover_staging S r w).1))
      | inl (objects, z) ↦
          let w' = (recover_staging S r w).1 in
          let run = collect_sweep false w n ms objects a q z in
          let gone : contains (mark [] ms) (key_base j) ≡ false =
            contains-mark ms (key_base j) ∙ u in
          rw run (elim (Option-cases (object w'.store j)) [
            | inl o ↦
                (absent_stays S h object L false (mark [] ms) objects (before false ms) j).at w' o
            | inr (d, o) ↦
                let listed = (L.list_ok (str "chunks/") w'.store objects z j).1 (p, rw o tt) in
                sweep_removes S h object L (mark [] ms) objects (before false ms) st w' j
                  (rw run at g) listed gone
          ])
    ]
  ]

  -- A run of the collector that got the lock leaves every object but the lock as it was, if the run
  -- is a preview, or some manifest cannot be read, or a published snapshot refers to the chunk that
  -- the object's key names. So does a run that fails later.
  pub garbage_collect_spares :
      (dry_run : Bool) (stale_after : ℤ) (j : Bytes) (w w₁ : World S) (lock : WriteLock)
      → lock_key ≢ j
      → acquire_write_lock S h stale_after w ≡ (ok lock, w₁)
      → IsSpared dry_run j (recover_staging S r w₁).1
      → object (garbage_collect S h r dry_run stale_after w).1.store j ≡ object w.store j
  unfolding garbage_collect
  garbage_collect_spares dry_run stale_after j w w₁ lock n q c =
      let (got, freed) =
        with_lock_other S object L h stale_after (collect_garbage S h r dry_run) j w w₁ lock n q in
      freed ∙ collect_spares dry_run j w₁ c ∙ got

  -- A run that succeeds, and is no preview, leaves under "chunks/" only objects whose keys name a
  -- chunk that a published snapshot refers to. The manifests are those read under the lock.
  pub garbage_collect_removes :
      (stale_after : ℤ) (j : Bytes) (w w₁ : World S) (lock : WriteLock) (st : GcStats)
      (ms : List Manifest)
      → lock_key ≢ j
      → acquire_write_lock S h stale_after w ≡ (ok lock, w₁)
      → (snapshots S h r (recover_staging S r w₁).1).0 ≡ ok ms
      → (garbage_collect S h r false stale_after w).0 ≡ ok st
      → has_prefix j (str "chunks/") ≡ true
      → is_referenced (key_base j) ms ≡ false
      → object (garbage_collect S h r false stale_after w).1.store j ≡ none
  unfolding garbage_collect
  garbage_collect_removes stale_after j w w₁ lock st ms n q s g p u =
      let (got, freed) =
        with_lock_other S object L h stale_after (collect_garbage S h r false) j w w₁ lock n q in
      freed
      ∙ collect_removes j w₁ st ms s
          (rw (with_lock_run S h stale_after (collect_garbage S h r false) w w₁ lock q) at g) p u
