-- ===== src/Lock.antt =====
-- internal/repository/lock.go: the writer lock, and the removal of abandoned staging directories.
pub mod Effects
pub mod Exclusion
pub mod Progress
use vestige.Prelude.{
  ℕ, zero, suc, ◌+◌, Bool, true, false, not, ◌&&◌, ◌||◌, Bytes, Option, none, some, List, [], ◌∷◌,
  ◌++◌, if◌then◌else◌, str, has_prefix, ltb, ℤ, pos, negsuc, ◌-◌, ltb_ℤ,
}
use vestige.Errors.{
  Error, Result, ok, err, message, wrap, wrapping, external, is_not_found, is_exists, is_changed,
}
use vestige.Actions.{Action, ◌>>=◌, ◌>>◌, pure, raise, lift, attempt}
use vestige.Host.{Host, LockInfo}
use vestige.Store.{ObjectStore}
use vestige.Repository.{
  Repository, World, StagingEntry, store_get, store_put_if_absent, store_delete_if_version,
}

abbrev pub lock_key : Bytes
lock_key = str "write.lock"

-- A held lock, by the version of its object.
pub record WriteLock : Type 0 where
  pub version : Bytes

-- now - created
abbrev elapsed : ℕ → ℕ → ℤ
elapsed created now = if ltb now created then negsuc (created - now - 1) else pos (now - created)

module _ (h : Host) where
  -- lockDataIsStale, at an instant
  unfoldable pub lock_data_is_stale : ℕ → Bytes → ℤ → Result Bool
  lock_data_is_stale now contents max_age =
      elim (wrapping "invalid repository lock" (h.unmarshal_lock contents)) [
        | err e ↦ err e
        | ok info ↦
            elim (wrapping "invalid repository lock timestamp" (h.parse_time info.created_at)) [
              | err e ↦ err e
              | ok created ↦ ok (ltb_ℤ max_age (elapsed created now))
            ]
      ]

module _ (S : ObjectStore) (h : Host) where
  -- After a conditional removal of a stale lock: whether to try again.
  retry_after : Result (Unit {0}) → Action (World S) (Unit {0})
  retry_after (ok _) = pure tt
  retry_after (err e) =
      if is_changed e || is_not_found e
      then pure tt
      else raise (wrap "remove stale repository lock" e)

  -- A lock that was read: it goes if it is stale.
  remove_stale : ℤ → Bytes × Bytes → Action (World S) (Unit {0})
  unfolding retry_after
  remove_stale stale_after (contents, version) = do
    stale ← (λ w. (lock_data_is_stale h w.now contents stale_after, w))
    if stale then pure tt else raise (message "repository lock is newer than --stale-lock-after")
    removed ← attempt (store_delete_if_version S lock_key version)
    retry_after removed

  -- The lock is taken: recover it if that is wanted and it is stale.
  recover_lock : ℤ → Result (Bytes × Bytes) → Action (World S) (Unit {0})
  unfolding remove_stale
  recover_lock stale_after (ok found) = remove_stale stale_after found
  recover_lock stale_after (err e) = if is_not_found e then pure tt else raise e

  taken : ℤ → Error → Action (World S) (Unit {0})
  unfolding recover_lock
  taken stale_after e =
      if not (is_exists e)
      then raise e
      else if not (ltb_ℤ (pos 0) stale_after)
      then raise (message "repository is locked by another writer")
      else (do existing ← attempt (store_get S lock_key); recover_lock stale_after existing)

  -- The loop over `attempt`, by the attempts left.
  acquire_result : (ℤ → Action (World S) WriteLock) → ℤ → Result Bytes → Action (World S) WriteLock
  acquire_result again stale_after (ok version) = pure (record { version = version })
  acquire_result again stale_after (err e) = do taken stale_after e; again stale_after

  unfoldable pub acquire_loop : ℕ → Bytes → ℤ → Action (World S) WriteLock
  unfolding acquire_result taken
  acquire_loop zero contents stale_after =
      raise (message "repository lock changed while attempting recovery; retry")
  acquire_loop (suc n) contents stale_after = do
    created ← attempt (store_put_if_absent S lock_key contents)
    acquire_result (acquire_loop n contents) stale_after created

  unfoldable pub acquire_write_lock : ℤ → Action (World S) WriteLock
  acquire_write_lock stale_after = do
    contents ←
        (λ w. (h.marshal_lock (record { pid = h.process_id; created_at = h.format_time w.now }), w))
    acquire_loop 2 (contents ++ b'\n' ∷ []) stale_after

  release_result : Result (Unit {0}) → Action (World S) (Unit {0})
  release_result (ok _) = pure tt
  release_result (err e) = if is_not_found e || is_changed e then pure tt else raise e

  unfoldable pub release : WriteLock → Action (World S) (Unit {0})
  unfolding release_result
  release lock = do
    removed ← attempt (store_delete_if_version S lock_key lock.version)
    release_result removed

  -- `defer lock.release()`, whose error is dropped.
  unfoldable pub with_lock : {A : Type 0} → ℤ → Action (World S) A → Action (World S) A
  with_lock stale_after body = do
    lock ← acquire_write_lock stale_after
    λ w. let (result, w') = body w in (result, (release lock w').1)

-- A directory that an interrupted backup or deletion has left.
is_abandoned : StagingEntry → Bool
is_abandoned e =
    e.is_dir && (has_prefix e.name (str "snapshot-") || has_prefix e.name (str "deleted-snapshot-"))

-- The loop over the entries of the tmp directory: the count, and the entries that stay.
unfoldable pub sweep_staging : ℕ → List StagingEntry → Result ℕ × List StagingEntry
unfolding is_abandoned
sweep_staging removed [] = (ok removed, [])
sweep_staging removed (e ∷ es) =
    if is_abandoned e
    then elim e.fault [
      | none ↦ sweep_staging (removed + 1) es
      | some n ↦ (err (external n), e ∷ es)
    ]
    else (let (r, rest) = sweep_staging removed es in (r, e ∷ rest))

module _ (S : ObjectStore) where
  sweep_into : Result (List StagingEntry) → Action (World S) ℕ
  sweep_into (err e) w = (err e, w)
  sweep_into (ok entries) w =
      let (r, rest) = sweep_staging 0 entries in (r, record w { staging = ok rest })

  unfoldable pub recover_staging : Repository → Action (World S) ℕ
  unfolding sweep_into
  recover_staging r w = if r.remote then (ok 0, w) else sweep_into w.staging w

module _ (S : ObjectStore) (h : Host) where
  unfoldable pub recover : Repository → ℤ → Action (World S) ℕ
  recover r stale_after = with_lock S h stale_after (recover_staging S r)
