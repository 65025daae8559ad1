-- ===== src/Lock/Progress.antt =====
-- A free lock can be taken.
use vestige.Prelude.{◌≡◌, refl, arith, Bool, true, Bytes, Option, none, some, ◌∷◌, [], ◌++◌, ℤ}
use vestige.Errors.{ok}
use vestige.Host.{Host}
use vestige.Store.{ObjectStore, IsLawful, IsReliable}
use vestige.Repository.{World}
use vestige.Lock.{WriteLock, lock_key, acquire_result, acquire_loop, acquire_write_lock}

-- In a healthy store that accepts its key, a writer that asks for the lock while its object is not there gets
-- it, with or without recovery of stale locks, and then the object holds the process and the time. The
-- encoding of these succeeds.
pub acquire_write_lock_lem :
    (S : ObjectStore) (object : S.State → Bytes → Option Bytes) (accepts : Bytes → Bool)
    (healthy : S.State → Type 0)
    → IsLawful S object
    → IsReliable S object accepts healthy
    → (h : Host) (stale : ℤ) (contents : Bytes) (w : World S) → healthy w.store
    → accepts lock_key ≡ true
    → h.marshal_lock (record { pid = h.process_id; created_at = h.format_time w.now }) ≡ ok contents
    → object w.store lock_key ≡ none
    → (lock : WriteLock) × ((acquire_write_lock S h stale w).0 ≡ ok lock)
      × (object (acquire_write_lock S h stale w).1.store lock_key ≡ some (contents ++ b'\n' ∷ []))
unfolding acquire_write_lock acquire_loop acquire_result
acquire_write_lock_lem S object accepts healthy L R h stale contents w g a m free =
    let text = contents ++ b'\n' ∷ [] in
    let (v, p) = R.put_absent lock_key text w.store g a free in
    let there : object (S.put_if_absent lock_key text w.store).1 lock_key ≡ some text =
      ground (arith, (L.put_ok lock_key text w.store v p).1 lock_key) in
    (record { version = v }, rw (m, p) refl, rw (m, p) there)
