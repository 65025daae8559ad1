-- ===== src/Store/Local.antt =====
-- internal/repository/store.go: localStore, over the files below its root. A file is known by its
-- slash-separated path from there. `fails` says which calls of the operating system fail on which
-- path; a temporary file that PutIfAbsent or writeAtomic makes is gone when they return.
pub mod Answers
pub mod Laws
pub mod Versions
use vestige.Prelude.{
  ℕ, Bool, not, ◌&&◌, ◌||◌, Bytes, Option, none, some, List, [], ◌∷◌, if◌then◌else◌, any, str, ◌==◌,
  has_prefix, has_byte, split_on, lookup, put, erase, is_some,
}
use vestige.Errors.{
  Result, ok, err, message, fail_if, external, object_not_found, object_exists, object_changed,
}
use vestige.Actions.{Action, ◌>>=◌, ◌>>◌, pure, raise, lift}
use vestige.Model.{len64}
use vestige.Paths.{is_bad_part, hex_encode}
use vestige.Store.{StoredObject, ObjectStore}

pub data Call : Type 0 where
  read_file mkdir_all create_temp write_temp link remove rename walk : Call

pub record Disk : Type 0 where
  pub files : List (Bytes × Bytes)
  pub fails : Call → Bytes → Option ℕ

-- The tests of localStore.path.
unfoldable pub accepts : Bytes → Bool
unfolding is_bad_part
accepts key =
    not (key == [] || has_prefix key (str "/") || has_byte b'\\' key)
    && not (any is_bad_part (split_on b'/' key))

unfoldable pub store_path : Bytes → Action Disk (Unit {0})
unfolding accepts
store_path key = if accepts key then pure tt else raise (message "invalid repository object key")

-- One call of the operating system, which may fail.
unfoldable pub system : Call → Bytes → Action Disk (Unit {0})
system c key d = elim (d.fails c key) [ none ↦ (ok tt, d) | some n ↦ (err (external n), d) ]

module _ (sha256 : Bytes → Bytes) where
  unfoldable pub local_version : Bytes → Bytes
  local_version contents = hex_encode (sha256 contents)

  found : Option Bytes → Action Disk (Bytes × Bytes)
  unfolding local_version
  found none = raise object_not_found
  found (some contents) = pure (contents, local_version contents)

  unfoldable pub get : Bytes → Action Disk (Bytes × Bytes)
  unfolding store_path system found
  get key = do store_path key; system read_file key; λ d. found (lookup key d.files) d

  write : Bytes → Bytes → Action Disk Bytes
  write key contents d =
      (ok (local_version contents), record d { files = put key contents d.files })

  unfoldable pub put_if_absent : Bytes → Bytes → Action Disk Bytes
  unfolding store_path system write local_version
  put_if_absent key contents = do
    store_path key
    system mkdir_all key
    system create_temp key
    system write_temp key
    system link key
    λ d. if is_some (lookup key d.files) then (err object_exists, d) else write key contents d

  -- os.Remove, where a missing file is the error given
  remove_file : Bytes → Action Disk (Unit {0}) → Action Disk (Unit {0})
  remove_file key missing d =
      if is_some (lookup key d.files)
      then (ok tt, record d { files = erase key d.files })
      else missing d

  unfoldable pub delete_if_version : Bytes → Bytes → Action Disk (Unit {0})
  unfolding get store_path system remove_file
  delete_if_version key version = do
    (_, actual) ← get key
    if actual == version then pure tt else raise object_changed
    store_path key
    system remove key
    remove_file key (raise object_changed)

  unfoldable pub replace_if_version : Bytes → Bytes → Bytes → Action Disk Bytes
  unfolding get store_path system write local_version
  replace_if_version key contents version = do
    (_, actual) ← get key
    if actual == version then pure tt else raise object_changed
    store_path key
    system create_temp key
    system write_temp key
    system rename key
    write key contents

  unfoldable pub delete : Bytes → Action Disk (Unit {0})
  unfolding store_path system remove_file
  delete key = do store_path key; system remove key; remove_file key (raise object_not_found)

  -- The files whose key has the prefix, in the order of the walk.
  unfoldable pub matching : Bytes → List (Bytes × Bytes) → List StoredObject
  matching p [] = []
  matching p ((key, contents) ∷ files) =
      let rest = matching p files in
      if has_prefix key p
      then record { key = key; size = len64 contents; version = [] } ∷ rest
      else rest

  unfoldable pub list : Bytes → Action Disk (List StoredObject)
  unfolding system matching
  list p = do system walk []; λ d. (ok (matching p d.files), d)

  abbrev pub local_store : ObjectStore
  local_store = record {
    State = Disk;
    get = λ key d. (get key d).0;
    put_if_absent = put_if_absent;
    replace_if_version = replace_if_version;
    delete_if_version = delete_if_version;
    delete = delete;
    list = λ p d. (list p d).0;
  }
