-- ===== src/Store/Local/Versions.antt =====
-- The versions of the local store, and its failures.
use vestige.Prelude.{◌==◌, false, ◌≡◌, arith, true, Bytes, lookup-put}
use vestige.Errors.{Error, ok, err, is_exists, is_changed}
use vestige.Store.{IsPresent}
use vestige.Store.Contract.{HasVersion, IsVersioned, IsAtomic}
use vestige.Store.Local.{
  local_store, Disk, get, put_if_absent, replace_if_version, delete_if_version,
}
use vestige.Store.Local.Laws.{
  file_at, local_store-IsLawful, put_failed, not_replaced, kept_version, kept,
}

module _ (sha256 : Bytes → Bytes) where
  put_version :
      (k d v : Bytes) (s : Disk)
      → (put_if_absent sha256 k d s).0 ≡ ok v
      → HasVersion (local_store sha256) k v (put_if_absent sha256 k d s).1
  unfolding put_if_absent get
  put_version k d v s q x w g = ground (arith, lookup-put k k d s.files)

  replace_present :
      (k d v v' : Bytes) (s : Disk)
      → (replace_if_version sha256 k d v s).0 ≡ ok v'
      → IsPresent (file_at s k)
  unfolding replace_if_version get
  replace_present k d v v' s q = ground arith

  replace_found :
      (k d v v' : Bytes) (s : Disk)
      → (replace_if_version sha256 k d v s).0 ≡ ok v'
      → HasVersion (local_store sha256) k v s
  unfolding replace_if_version get
  replace_found k d v v' s q x w g = ground arith

  replace_version :
      (k d v v' : Bytes) (s : Disk)
      → (replace_if_version sha256 k d v s).0 ≡ ok v'
      → HasVersion (local_store sha256) k v' (replace_if_version sha256 k d v s).1
  unfolding replace_if_version get
  replace_version k d v v' s q x w g = ground (arith, lookup-put k k d s.files)

  delete_if_found :
      (k v : Bytes) (s : Disk)
      → (delete_if_version sha256 k v s).0 ≡ ok tt
      → HasVersion (local_store sha256) k v s
  unfolding delete_if_version get
  delete_if_found k v s q x w g = ground arith

  put_exists :
      (k d : Bytes) (s : Disk) (e : Error)
      → (put_if_absent sha256 k d s).0 ≡ err e
      → is_exists e ≡ true
      → IsPresent (file_at s k)
  unfolding put_if_absent is_exists
  put_exists k d s e q x = ground arith

  replace_changed :
      (k d v : Bytes) (s : Disk) (e : Error)
      → (replace_if_version sha256 k d v s).0 ≡ err e
      → is_changed e ≡ true
      → (x w : Bytes) → (get sha256 k s).0 ≡ ok (x, w)
      → (w == v) ≡ false
  unfolding replace_if_version get is_changed
  replace_changed k d v s e q c x w g = ground arith

  delete_if_changed :
      (k v : Bytes) (s : Disk) (e : Error)
      → (delete_if_version sha256 k v s).0 ≡ err e
      → is_changed e ≡ true
      → (x w : Bytes) → (get sha256 k s).0 ≡ ok (x, w)
      → (w == v) ≡ false
  unfolding delete_if_version get is_changed
  delete_if_changed k v s e q c x w g = ground arith

  -- The local store satisfies the laws of an object store with versions, whatever calls of the operating
  -- system fail, and a call of it that fails has changed no file. In particular PutIfAbsent never
  -- replaces a file, and DeleteIfVersion and ReplaceIfVersion change only a file whose version is the
  -- one that was given.
  pub local_store-IsVersioned :
      IsVersioned (local_store sha256) file_at × IsAtomic (local_store sha256) file_at
  local_store-IsVersioned = (
    record {
      lawful = local_store-IsLawful sha256;
      put_version = put_version;
      replace_found = λ k d v v' s q. (replace_present k d v v' s q, replace_found k d v v' s q);
      replace_version = replace_version;
      delete_if_found = delete_if_found;
    },
    record {
      put_kept = put_failed sha256;
      put_exists = put_exists;
      replace_kept = not_replaced sha256;
      replace_changed = replace_changed;
      delete_if_kept = kept_version sha256;
      delete_if_changed = delete_if_changed;
      delete_kept = kept sha256;
    },
  )
