-- ===== src/Lock/Effects.antt =====
-- Taking and releasing the lock touches no object but the lock.
use vestige.Store.Failures.{delete_if_failed_other, put_failed_other}
use vestige.Prelude.{refl, ◌≡◌, ◌≢◌, ℕ, zero, suc, Bytes, Option, inl, inr, ℤ, arith}
use vestige.Actions.Maintains.{Maintains-bind, Maintains, maintains_rules}
use vestige.Errors.{Error, Result, ok, err, Result-cases}
use vestige.Actions.{Action}
use vestige.Host.{Host}
use vestige.Store.{ObjectStore, IsLawful}
use vestige.Repository.{Repository, World, store_get, store_put_if_absent, store_delete_if_version}
use vestige.Lock.{
  WriteLock, lock_key, retry_after, remove_stale, recover_lock, taken, acquire_result, acquire_loop,
  acquire_write_lock, release_result, release, with_lock, recover_staging,
}

module _ (S : ObjectStore) (h : Host) (P : World S → Type 0)
    (put : (x : Bytes) → Maintains P (store_put_if_absent S lock_key x))
    (remove : (v : Bytes) → Maintains P (store_delete_if_version S lock_key v)) where
  get-Maintains : Maintains P (store_get S lock_key)
  get-Maintains = record { at = λ w p. p }

  asked : {A : Type 0} (f : World S → Result A) → Maintains P (λ w. (f w, w))
  asked f = record { at = λ w p. p }

  retry_after-Maintains : (res : Result (Unit {0})) → Maintains P (retry_after S h res)
  unfolding retry_after
  retry_after-Maintains (ok v) = search maintains_rules
  retry_after-Maintains (err e) = search maintains_rules

  remove_stale-Maintains :
      (stale : ℤ) (found : Bytes × Bytes) → Maintains P (remove_stale S h stale found)
  unfolding remove_stale
  remove_stale-Maintains stale (contents, version) =
      search (maintains_rules, asked, remove, retry_after-Maintains) depth 9

  recover_lock-Maintains :
      (stale : ℤ) (found : Result (Bytes × Bytes)) → Maintains P (recover_lock S h stale found)
  unfolding recover_lock
  recover_lock-Maintains stale (ok found) = remove_stale-Maintains stale found
  recover_lock-Maintains stale (err e) = search maintains_rules

  taken-Maintains : (stale : ℤ) (e : Error) → Maintains P (taken S h stale e)
  unfolding taken
  taken-Maintains stale e = search (maintains_rules, get-Maintains, recover_lock-Maintains) depth 9

  acquire_result-Maintains :
      (again : ℤ → Action (World S) WriteLock)
      → ((stale : ℤ) → Maintains P (again stale))
      → (stale : ℤ) (res : Result Bytes) → Maintains P (acquire_result S h again stale res)
  unfolding acquire_result
  acquire_result-Maintains again k stale (ok v) = search maintains_rules
  acquire_result-Maintains again k stale (err e) = search (maintains_rules, taken-Maintains, k)

  acquire_loop-Maintains :
      (n : ℕ) (contents : Bytes) (stale : ℤ) → Maintains P (acquire_loop S h n contents stale)
  unfolding acquire_loop
  acquire_loop-Maintains zero contents stale = search maintains_rules
  acquire_loop-Maintains (suc n) contents stale =
      let k = acquire_loop-Maintains n contents in
      search (maintains_rules, put, acquire_result-Maintains (acquire_loop S h n contents) k)

  pub acquire-Maintains : (stale : ℤ) → Maintains P (acquire_write_lock S h stale)
  unfolding acquire_write_lock
  acquire-Maintains stale = search (maintains_rules, asked, acquire_loop-Maintains)

  release_result-Maintains : (res : Result (Unit {0})) → Maintains P (release_result S h res)
  unfolding release_result
  release_result-Maintains (ok v) = search maintains_rules
  release_result-Maintains (err e) = search maintains_rules

  pub release-Maintains : (lock : WriteLock) → Maintains P (release S h lock)
  unfolding release
  release-Maintains lock = search (maintains_rules, remove, release_result-Maintains)

  pub with_lock-Maintains :
      {A : Type 0} (stale : ℤ) (body : Action (World S) A)
      → Maintains P body
      → Maintains P (with_lock S h stale body)
  unfolding with_lock
  with_lock-Maintains stale body k =
      Maintains-bind _ _ (acquire-Maintains stale)
        λ lock. record { at = λ w p. (release-Maintains lock).at (body w).1 (k.at w p) }

-- Every object but the lock keeps what it holds.
module _ (S : ObjectStore) (object : S.State → Bytes → Option Bytes) (L : IsLawful S object)
    (j : Bytes) (x : Option Bytes) (n : lock_key ≢ j) where
  pub lock_put_other :
      (d : Bytes)
      → Maintains (λ (w : World S). object w.store j ≡ x) (store_put_if_absent S lock_key d)
  lock_put_other d = record {
    at = λ w k. elim (Result-cases (S.put_if_absent lock_key d w.store).0) [
      | inl (v, q) ↦ ground (arith, (L.put_ok lock_key d w.store v q).1 j)
      | inr (e, q) ↦ ground (arith, put_failed_other S object L lock_key d j w.store e n q)
    ];
  }

  pub lock_remove_other :
      (v : Bytes)
      → Maintains (λ (w : World S). object w.store j ≡ x) (store_delete_if_version S lock_key v)
  lock_remove_other v = record {
    at = λ w k. elim (Result-cases (S.delete_if_version lock_key v w.store).0) [
      | inl (_, q) ↦ ground (arith, L.delete_if_ok lock_key v w.store q j)
      | inr (e, q) ↦ ground (arith, delete_if_failed_other S object L lock_key v j w.store e n q)
    ];
  }

pub store-recover_staging :
    (S : ObjectStore) (r : Repository) (w : World S) → (recover_staging S r w).1.store ≡ w.store
unfolding recover_staging
store-recover_staging S r w = ground arith

pub with_lock_run :
    (S : ObjectStore) (h : Host) {A : Type 0} (stale : ℤ) (body : Action (World S) A)
    (w w₁ : World S) (lock : WriteLock)
    → acquire_write_lock S h stale w ≡ (ok lock, w₁)
    → with_lock S h stale body w ≡ ((body w₁).0, (release S h lock (body w₁).1).1)
unfolding with_lock
with_lock_run S h stale body w w₁ lock q = rw q refl

-- What a body that got the lock leaves under another key than the lock's, the run leaves too.
pub with_lock_other :
    (S : ObjectStore) (object : S.State → Bytes → Option Bytes) (L : IsLawful S object) (h : Host)
    {A : Type 0} (stale : ℤ) (body : Action (World S) A) (j : Bytes) (w w₁ : World S)
    (lock : WriteLock)
    → lock_key ≢ j
    → acquire_write_lock S h stale w ≡ (ok lock, w₁)
    → (object w₁.store j ≡ object w.store j)
      × (object (with_lock S h stale body w).1.store j ≡ object (body w₁).1.store j)
with_lock_other S object L h stale body j w w₁ lock n q =
    let x = object w.store j in
    let got =
      (acquire-Maintains S h (λ v. object v.store j ≡ x) (lock_put_other S object L j x n)
          (lock_remove_other S object L j x n) stale).at
        w refl in
    let y = object (body w₁).1.store j in
    let freed =
      (release-Maintains S h (λ v. object v.store j ≡ y) (lock_put_other S object L j y n)
          (lock_remove_other S object L j y n) lock).at
        (body w₁).1 refl in
    (rw q at got, rw (with_lock_run S h stale body w w₁ lock q) freed)
