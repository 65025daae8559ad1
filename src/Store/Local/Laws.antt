-- ===== src/Store/Local/Laws.antt =====
-- The local store is lawful, and reliable while no call of the operating system fails.
use vestige.Prelude.{
  inl, [], ◌∷◌, has_prefix, map, contains, List, lookup-erase, ◌↔◌, ◌≡◌, true, Bytes, Option, none,
  some, ◌==◌, if◌then◌else◌, arith, lookup, lookup-put,
}
use vestige.Store.Local.{
  link, write_temp, create_temp, mkdir_all, read_file, local_version, remove, Call, accepts, walk,
  local_store, matching, delete, delete_if_version, list, Disk, get, put_if_absent,
  replace_if_version,
}
use vestige.Errors.{object_not_found, Error, ok, err, is_not_found}
use vestige.Store.{IsReliable, IsPresent, StoredObject, IsLawful}

abbrev pub file_at : Disk → Bytes → Option Bytes
file_at d key = lookup key d.files

module _ (sha256 : Bytes → Bytes) where
  get_found :
      (k : Bytes) (s : Disk) (d v : Bytes) → (get sha256 k s).0 ≡ ok (d, v) → file_at s k ≡ some d
  unfolding get
  get_found k s d v h = ground arith

  get_missing :
      (k : Bytes) (s : Disk) (e : Error)
      → (get sha256 k s).0 ≡ err e
      → is_not_found e ≡ true
      → file_at s k ≡ none
  unfolding get is_not_found
  get_missing k s e h q = ground arith

  put_absent :
      (k d : Bytes) (s : Disk) (v : Bytes)
      → (put_if_absent sha256 k d s).0 ≡ ok v
      → (file_at s k ≡ none)
        × ((j : Bytes)
            → file_at (put_if_absent sha256 k d s).1 j ≡ (if k == j then some d else file_at s j))
  unfolding put_if_absent
  put_absent k d s v h = (ground arith, λ j. ground (arith, lookup-put k j d s.files))

  pub put_failed :
      (k d : Bytes) (s : Disk) (e : Error)
      → (put_if_absent sha256 k d s).0 ≡ err e
      → (j : Bytes) → file_at (put_if_absent sha256 k d s).1 j ≡ file_at s j
  unfolding put_if_absent
  put_failed k d s e h j = ground (arith, lookup-put k j d s.files)

  replaced :
      (k d v : Bytes) (s : Disk) (v' : Bytes)
      → (replace_if_version sha256 k d v s).0 ≡ ok v'
      → (j : Bytes)
      → file_at (replace_if_version sha256 k d v s).1 j ≡ (if k == j then some d else file_at s j)
  unfolding replace_if_version
  replaced k d v s v' h j = ground (arith, lookup-put k j d s.files)

  pub not_replaced :
      (k d v : Bytes) (s : Disk) (e : Error)
      → (replace_if_version sha256 k d v s).0 ≡ err e
      → (j : Bytes) → file_at (replace_if_version sha256 k d v s).1 j ≡ file_at s j
  unfolding replace_if_version
  not_replaced k d v s e h j = ground (arith, lookup-put k j d s.files)

  removed_version :
      (k v : Bytes) (s : Disk)
      → (delete_if_version sha256 k v s).0 ≡ ok tt
      → (j : Bytes)
      → file_at (delete_if_version sha256 k v s).1 j ≡ (if k == j then none else file_at s j)
  unfolding delete_if_version
  removed_version k v s h j = ground (arith, lookup-erase k j s.files)

  pub kept_version :
      (k v : Bytes) (s : Disk) (e : Error)
      → (delete_if_version sha256 k v s).0 ≡ err e
      → (j : Bytes) → file_at (delete_if_version sha256 k v s).1 j ≡ file_at s j
  unfolding delete_if_version
  kept_version k v s e h j = ground (arith, lookup-erase k j s.files)

  removed :
      (k : Bytes) (s : Disk)
      → (delete sha256 k s).0 ≡ ok tt
      → (j : Bytes) → file_at (delete sha256 k s).1 j ≡ (if k == j then none else file_at s j)
  unfolding delete
  removed k s h j = ground (arith, lookup-erase k j s.files)

  pub kept :
      (k : Bytes) (s : Disk) (e : Error)
      → (delete sha256 k s).0 ≡ err e
      → (j : Bytes) → file_at (delete sha256 k s).1 j ≡ file_at s j
  unfolding delete
  kept k s e h j = ground (arith, lookup-erase k j s.files)

  contains-matching :
      (p k : Bytes) (files : List (Bytes × Bytes))
      → (contains (map (λ (o : StoredObject). o.key) (matching sha256 p files)) k ≡ true)
        ↔ ((has_prefix k p ≡ true) × IsPresent (lookup k files))
  unfolding matching lookup
  contains-matching p k [] = ground arith
  contains-matching p k ((i, c) ∷ files) = ground (arith, contains-matching p k files)

  listed :
      (p : Bytes) (s : Disk) (os : List StoredObject)
      → (list sha256 p s).0 ≡ ok os
      → (k : Bytes)
      → (contains (map (λ (o : StoredObject). o.key) os) k ≡ true)
        ↔ ((has_prefix k p ≡ true) × IsPresent (file_at s k))
  unfolding list
  listed p s os h k = ground (arith, contains-matching p k s.files)

  -- The local store is lawful, whatever calls of the operating system fail.
  pub local_store-IsLawful : IsLawful (local_store sha256) file_at
  local_store-IsLawful = record {
    get_ok = get_found;
    get_missing = get_missing;
    put_ok = put_absent;
    put_failed = λ k d s e q. inl (put_failed k d s e q);
    replace_ok = replaced;
    replace_failed = λ k d v s e q. inl (not_replaced k d v s e q);
    delete_if_ok = removed_version;
    delete_if_failed = λ k v s e q. inl (kept_version k v s e q);
    delete_ok = removed;
    delete_failed = λ k s e q. inl (kept k s e q);
    list_ok = listed;
  }

-- No call fails.
abbrev pub IsHealthy : Disk → Type 0
IsHealthy d = (c : Call) (key : Bytes) → d.fails c key ≡ none

module _ (sha256 : Bytes → Bytes) where
  get_there :
      (k : Bytes) (s : Disk) (d : Bytes)
      → IsHealthy s
      → accepts k ≡ true
      → file_at s k ≡ some d
      → (v : Bytes) × ((get sha256 k s).0 ≡ ok (d, v))
  unfolding get
  get_there k s d f a h = (local_version sha256 d, ground (arith, f read_file k))

  get_nothing :
      (k : Bytes) (s : Disk)
      → IsHealthy s
      → accepts k ≡ true
      → file_at s k ≡ none
      → (get sha256 k s).0 ≡ err object_not_found
  unfolding get
  get_nothing k s f a h = ground (arith, f read_file k)

  put_new :
      (k d : Bytes) (s : Disk)
      → IsHealthy s
      → accepts k ≡ true
      → file_at s k ≡ none
      → (v : Bytes) × ((put_if_absent sha256 k d s).0 ≡ ok v)
  unfolding put_if_absent
  put_new k d s f a h = (
    local_version sha256 d,
    ground (arith, f mkdir_all k, f create_temp k, f write_temp k, f link k),
  )

  put-IsHealthy : (k d : Bytes) (s : Disk) → IsHealthy s → IsHealthy (put_if_absent sha256 k d s).1
  unfolding put_if_absent
  put-IsHealthy k d s f c key = ground (arith, f c key)

  delete_there :
      (k d : Bytes) (s : Disk)
      → IsHealthy s
      → accepts k ≡ true
      → file_at s k ≡ some d
      → (delete sha256 k s).0 ≡ ok tt
  unfolding delete
  delete_there k d s f a h = ground (arith, f remove k)

  delete-IsHealthy : (k : Bytes) (s : Disk) → IsHealthy s → IsHealthy (delete sha256 k s).1
  unfolding delete
  delete-IsHealthy k s f c key = ground (arith, f c key)

  list_healthy :
      (p : Bytes) (s : Disk)
      → IsHealthy s
      → (os : List StoredObject) × ((list sha256 p s).0 ≡ ok os)
  unfolding list
  list_healthy p s f = (matching sha256 p s.files, ground (arith, f walk []))

  -- While no call of the operating system fails, the local store reads and deletes what is there, and
  -- stores what is not, under a key that it accepts.
  pub local_store-IsReliable : IsReliable (local_store sha256) file_at accepts IsHealthy
  local_store-IsReliable = record {
    get_present = get_there;
    get_absent = get_nothing;
    put_absent = put_new;
    put_healthy = put-IsHealthy;
    delete_present = delete_there;
    delete_healthy = delete-IsHealthy;
    list_all = list_healthy;
  }
