-- ===== src/Lifecycle/Effects.antt =====
-- What a deletion leaves and what it removes.
use vestige.Store.Failures.{delete_failed_other}
use vestige.Prelude.{◌≡◌, ◌≢◌, ◌⊎◌, ◌∙◌, ℤ, Bytes, Option, none, Bool, true, false, inl, inr, arith}
use vestige.Errors.{ok, Result-cases}
use vestige.Host.{Host}
use vestige.Model.{Manifest}
use vestige.Store.{ObjectStore, IsLawful}
use vestige.Repository.{Repository, World}
use vestige.Snapshots.{read_manifest, manifest_key}
use vestige.Snapshots.Reads.{read_manifest_keeps}
use vestige.Lock.{WriteLock, lock_key, acquire_write_lock, recover_staging}
use vestige.Actions.Maintains.{Maintains}
use vestige.Lock.Effects.{
  with_lock-Maintains, lock_put_other, lock_remove_other, with_lock_run, with_lock_other,
  store-recover_staging,
}
use vestige.Lifecycle.{DeleteStats, unpublish, delete_snapshot}

module _ (S : ObjectStore) (h : Host) (object : S.State → Bytes → Option Bytes)
    (L : IsLawful S object) (r : Repository) where
  -- An object that the deletion of a snapshot does not concern: the run is a preview, or the object is
  -- not the manifest that is read at `w` for the identifier.
  abbrev pub IsUnconcerned : Bytes → Bool → Bytes → World S → Type 0
  IsUnconcerned id dry_run j w =
      (dry_run ≡ true)
      ⊎ ((m : Manifest) → (read_manifest S h r id w).0 ≡ ok m → manifest_key r m.snapshot_id ≢ j)

  unpublish_spares :
      (id : Bytes) (dry_run : Bool) (j : Bytes) (w : World S)
      → IsUnconcerned id dry_run j (recover_staging S r w).1
      → object (unpublish S h r id dry_run w).1.store j ≡ object w.store j
  unfolding unpublish
  unpublish_spares id true j w c =
      ground
        (arith, store-recover_staging S r w, read_manifest_keeps S h r id (recover_staging S r w).1)
  unpublish_spares id false j w (inl c) = absurd (ground arith)
  unpublish_spares id false j w (inr c) = elim (Result-cases (recover_staging S r w).0) [
    | inr (e, p) ↦ ground (arith, store-recover_staging S r w)
    | inl (n, p) ↦ elim (Result-cases (read_manifest S h r id (recover_staging S r w).1).0) [
      | inr (e, q) ↦ ground (
        arith,
        store-recover_staging S r w,
        read_manifest_keeps S h r id (recover_staging S r w).1,
      )
      | inl (m, q) ↦
          elim (Result-cases
            (S.delete (manifest_key r m.snapshot_id) (recover_staging S r w).1.store).0) [
              | inl (_, d) ↦ ground (
                arith,
                store-recover_staging S r w,
                read_manifest_keeps S h r id (recover_staging S r w).1,
                L.delete_ok _ _ d j,
                c m q,
              )
              | inr (e, d) ↦ ground (
                arith,
                store-recover_staging S r w,
                read_manifest_keeps S h r id (recover_staging S r w).1,
                delete_failed_other S object L (manifest_key r m.snapshot_id) j
                    (recover_staging S r w).1.store e (c m q) d,
              )
            ]
    ]
  ]

  unpublish_removes :
      (id : Bytes) (w : World S) (st : DeleteStats) (m : Manifest)
      → (read_manifest S h r id (recover_staging S r w).1).0 ≡ ok m
      → (unpublish S h r id false w).0 ≡ ok st
      → object (unpublish S h r id false w).1.store (manifest_key r m.snapshot_id) ≡ none
  unfolding unpublish
  unpublish_removes id w st m q g = elim (Result-cases (recover_staging S r w).0) [
    | inr (e, p) ↦ absurd (ground arith)
    | inl (n, p) ↦
        elim (Result-cases
          (S.delete (manifest_key r m.snapshot_id) (recover_staging S r w).1.store).0) [
            | inl (_, d) ↦ ground (
              arith,
              read_manifest_keeps S h r id (recover_staging S r w).1,
              L.delete_ok _ _ d (manifest_key r m.snapshot_id),
            )
            | inr (e, d) ↦
                absurd (ground (arith, read_manifest_keeps S h r id (recover_staging S r w).1))
          ]
  ]

  -- A deletion that got the lock leaves every object as it was but the lock and, unless it is a
  -- preview, the manifest of the snapshot that it reads under the lock. So does one that fails later.
  pub delete_snapshot_spares :
      (id : Bytes) (dry_run : Bool) (stale_after : ℤ) (j : Bytes) (w w₁ : World S)
      (lock : WriteLock)
      → lock_key ≢ j
      → acquire_write_lock S h stale_after w ≡ (ok lock, w₁)
      → IsUnconcerned id dry_run j (recover_staging S r w₁).1
      → object (delete_snapshot S h r id dry_run stale_after w).1.store j ≡ object w.store j
  unfolding delete_snapshot
  delete_snapshot_spares id dry_run stale_after j w w₁ lock n q c =
      let (got, freed) =
        with_lock_other S object L h stale_after (unpublish S h r id dry_run) j w w₁ lock n q in
      freed ∙ unpublish_spares id dry_run j w₁ c ∙ got

  -- Whether it gets the lock or not.
  pub delete_snapshot-Maintains :
      (id : Bytes) (dry_run : Bool) (stale_after : ℤ) (j : Bytes) (x : Option Bytes)
      → lock_key ≢ j
      → ((w : World S) → IsUnconcerned id dry_run j w)
      → Maintains
          (λ (w : World S). object w.store j ≡ x)
          (delete_snapshot S h r id dry_run stale_after)
  unfolding delete_snapshot
  delete_snapshot-Maintains id dry_run stale_after j x n c =
      with_lock-Maintains S h (λ w. object w.store j ≡ x) (lock_put_other S object L j x n)
        (lock_remove_other S object L j x n) stale_after (unpublish S h r id dry_run)
        (record { at = λ w p. unpublish_spares id dry_run j w (c (recover_staging S r w).1) ∙ p })

  -- A deletion that succeeds, and is no preview, has removed the manifest of the snapshot that it read
  -- under the lock.
  pub delete_snapshot_removes :
      (id : Bytes) (stale_after : ℤ) (w w₁ : World S) (lock : WriteLock) (st : DeleteStats)
      (m : Manifest)
      → lock_key ≢ manifest_key r m.snapshot_id
      → acquire_write_lock S h stale_after w ≡ (ok lock, w₁)
      → (read_manifest S h r id (recover_staging S r w₁).1).0 ≡ ok m
      → (delete_snapshot S h r id false stale_after w).0 ≡ ok st
      → object (delete_snapshot S h r id false stale_after w).1.store (manifest_key r m.snapshot_id)
        ≡ none
  unfolding delete_snapshot
  delete_snapshot_removes id stale_after w w₁ lock st m n q s g =
      let (got, freed) =
        with_lock_other S object L h stale_after (unpublish S h r id false)
          (manifest_key r m.snapshot_id) w w₁ lock n q in
      freed
      ∙ unpublish_removes id w₁ st m s
          (rw (with_lock_run S h stale_after (unpublish S h r id false) w w₁ lock q) at g)
