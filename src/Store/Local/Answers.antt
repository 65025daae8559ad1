-- ===== src/Store/Local/Answers.antt =====
-- What the local store answers while no call of the operating system fails.
use vestige.Prelude.{◌≡◌, arith, true, false, Bytes, none, some, ◌==◌}
use vestige.Errors.{ok, err, object_not_found, object_exists, object_changed}
use vestige.Store.Contract.{IsResponsive}
use vestige.Store.Local.{
  local_store, Disk, get, put_if_absent, replace_if_version, delete_if_version, delete, accepts,
  local_version, read_file, mkdir_all, create_temp, write_temp, link, remove, rename,
}
use vestige.Store.Local.Laws.{file_at, IsHealthy, local_store-IsReliable}

module _ (sha256 : Bytes → Bytes) where
  put_present :
      (k d x : Bytes) (s : Disk)
      → IsHealthy s
      → accepts k ≡ true
      → file_at s k ≡ some x
      → (put_if_absent sha256 k d s).0 ≡ err object_exists
  unfolding put_if_absent
  put_present k d x s f a h =
      ground (arith, f mkdir_all k, f create_temp k, f write_temp k, f link k)

  replace_current :
      (k d x v : Bytes) (s : Disk)
      → IsHealthy s
      → accepts k ≡ true
      → (get sha256 k s).0 ≡ ok (x, v)
      → (v' : Bytes) × ((replace_if_version sha256 k d v s).0 ≡ ok v')
  unfolding replace_if_version get
  replace_current k d x v s f a g = (
    local_version sha256 d,
    ground (arith, f read_file k, f create_temp k, f write_temp k, f rename k),
  )

  replace_other :
      (k d x v w : Bytes) (s : Disk)
      → IsHealthy s
      → accepts k ≡ true
      → (get sha256 k s).0 ≡ ok (x, w)
      → (w == v) ≡ false
      → (replace_if_version sha256 k d v s).0 ≡ err object_changed
  unfolding replace_if_version get
  replace_other k d x v w s f a g n = ground (arith, f read_file k)

  replace_absent :
      (k d v : Bytes) (s : Disk)
      → IsHealthy s
      → accepts k ≡ true
      → file_at s k ≡ none
      → (replace_if_version sha256 k d v s).0 ≡ err object_not_found
  unfolding replace_if_version get
  replace_absent k d v s f a h = ground (arith, f read_file k)

  replace-IsHealthy :
      (k d v : Bytes) (s : Disk) → IsHealthy s → IsHealthy (replace_if_version sha256 k d v s).1
  unfolding replace_if_version get
  replace-IsHealthy k d v s f c key = ground (arith, f c key)

  delete_if_current :
      (k x v : Bytes) (s : Disk)
      → IsHealthy s
      → accepts k ≡ true
      → (get sha256 k s).0 ≡ ok (x, v)
      → (delete_if_version sha256 k v s).0 ≡ ok tt
  unfolding delete_if_version get
  delete_if_current k x v s f a g = ground (arith, f read_file k, f remove k)

  delete_if_other :
      (k x v w : Bytes) (s : Disk)
      → IsHealthy s
      → accepts k ≡ true
      → (get sha256 k s).0 ≡ ok (x, w)
      → (w == v) ≡ false
      → (delete_if_version sha256 k v s).0 ≡ err object_changed
  unfolding delete_if_version get
  delete_if_other k x v w s f a g n = ground (arith, f read_file k)

  delete_if_absent :
      (k v : Bytes) (s : Disk)
      → IsHealthy s
      → accepts k ≡ true
      → file_at s k ≡ none
      → (delete_if_version sha256 k v s).0 ≡ err object_not_found
  unfolding delete_if_version get
  delete_if_absent k v s f a h = ground (arith, f read_file k)

  delete_if-IsHealthy :
      (k v : Bytes) (s : Disk) → IsHealthy s → IsHealthy (delete_if_version sha256 k v s).1
  unfolding delete_if_version get
  delete_if-IsHealthy k v s f c key = ground (arith, f c key)

  delete_absent :
      (k : Bytes) (s : Disk)
      → IsHealthy s
      → accepts k ≡ true
      → file_at s k ≡ none
      → (delete sha256 k s).0 ≡ err object_not_found
  unfolding delete
  delete_absent k s f a h = ground (arith, f remove k)

  -- While no call of the operating system fails, the local store answers each operation on a key that it
  -- accepts by what is there: reading, deleting, replacing and deleting by the version that is read
  -- succeed on what is there and give "not found" on what is not, another version gives "changed", storing
  -- succeeds on what is not there and gives "exists" on what is, and a listing succeeds.
  pub local_store-IsResponsive : IsResponsive (local_store sha256) file_at accepts IsHealthy
  local_store-IsResponsive = record {
    reliable = local_store-IsReliable sha256;
    put_present = put_present;
    replace_current = replace_current;
    replace_other = replace_other;
    replace_absent = replace_absent;
    replace_healthy = replace-IsHealthy;
    delete_if_current = delete_if_current;
    delete_if_other = delete_if_other;
    delete_if_absent = delete_if_absent;
    delete_if_healthy = delete_if-IsHealthy;
    delete_absent = delete_absent;
  }
