-- ===== src/Store/Contract.antt =====
-- internal/repository/store.go: what a store promises beyond the laws: versions, exact failures, and
-- answers.
use vestige.Prelude.{◌≡◌, Bool, true, false, Bytes, Option, none, some, ◌==◌}
use vestige.Errors.{
  Error, ok, err, is_exists, is_changed, object_not_found, object_exists, object_changed,
}
use vestige.Store.{ObjectStore, IsLawful, IsPresent, IsReliable}

-- Whatever an object is read with has this version.
abbrev pub HasVersion : (S : ObjectStore) → Bytes → Bytes → S.State → Type 0
HasVersion S k v s = (d w : Bytes) → S.get k s ≡ ok (d, w) → w ≡ v

-- The laws, and those of versions: a conditional call that succeeds has found the version that it was
-- given, and a call that stores returns the version that is read from then on. An object that is
-- replaced was there.
pub record IsVersioned (S : ObjectStore) (object : S.State → Bytes → Option Bytes) : Type 0 where
  pub lawful : IsLawful S object
  pub put_version :
      (k d v : Bytes) (s : S.State)
      → (S.put_if_absent k d s).0 ≡ ok v
      → HasVersion S k v (S.put_if_absent k d s).1
  pub replace_found :
      (k d v v' : Bytes) (s : S.State)
      → (S.replace_if_version k d v s).0 ≡ ok v'
      → IsPresent (object s k) × HasVersion S k v s
  pub replace_version :
      (k d v v' : Bytes) (s : S.State)
      → (S.replace_if_version k d v s).0 ≡ ok v'
      → HasVersion S k v' (S.replace_if_version k d v s).1
  pub delete_if_found :
      (k v : Bytes) (s : S.State) → (S.delete_if_version k v s).0 ≡ ok tt → HasVersion S k v s

-- A call that fails has changed no object, and "exists" and "changed" are told truly.
pub record IsAtomic (S : ObjectStore) (object : S.State → Bytes → Option Bytes) : Type 0 where
  pub put_kept :
      (k d : Bytes) (s : S.State) (e : Error)
      → (S.put_if_absent k d s).0 ≡ err e
      → (j : Bytes) → object (S.put_if_absent k d s).1 j ≡ object s j
  pub put_exists :
      (k d : Bytes) (s : S.State) (e : Error)
      → (S.put_if_absent k d s).0 ≡ err e
      → is_exists e ≡ true
      → IsPresent (object s k)
  pub replace_kept :
      (k d v : Bytes) (s : S.State) (e : Error)
      → (S.replace_if_version k d v s).0 ≡ err e
      → (j : Bytes) → object (S.replace_if_version k d v s).1 j ≡ object s j
  pub replace_changed :
      (k x v : Bytes) (s : S.State) (e : Error)
      → (S.replace_if_version k x v s).0 ≡ err e
      → is_changed e ≡ true
      → (d w : Bytes) → S.get k s ≡ ok (d, w)
      → (w == v) ≡ false
  pub delete_if_kept :
      (k v : Bytes) (s : S.State) (e : Error)
      → (S.delete_if_version k v s).0 ≡ err e
      → (j : Bytes) → object (S.delete_if_version k v s).1 j ≡ object s j
  pub delete_if_changed :
      (k v : Bytes) (s : S.State) (e : Error)
      → (S.delete_if_version k v s).0 ≡ err e
      → is_changed e ≡ true
      → (d w : Bytes) → S.get k s ≡ ok (d, w)
      → (w == v) ≡ false
  pub delete_kept :
      (k : Bytes) (s : S.State) (e : Error)
      → (S.delete k s).0 ≡ err e
      → (j : Bytes) → object (S.delete k s).1 j ≡ object s j

-- A reliable store whose other calls, in its healthy states and on the keys that it accepts, are answered
-- by what is there.
pub record IsResponsive (S : ObjectStore) (object : S.State → Bytes → Option Bytes)
    (accepts : Bytes → Bool) (healthy : S.State → Type 0) : Type 0 where
  pub reliable : IsReliable S object accepts healthy
  pub put_present :
      (k d x : Bytes) (s : S.State)
      → healthy s
      → accepts k ≡ true
      → object s k ≡ some x
      → (S.put_if_absent k d s).0 ≡ err object_exists
  pub replace_current :
      (k d x v : Bytes) (s : S.State)
      → healthy s
      → accepts k ≡ true
      → S.get k s ≡ ok (x, v)
      → (v' : Bytes) × ((S.replace_if_version k d v s).0 ≡ ok v')
  pub replace_other :
      (k d x v w : Bytes) (s : S.State)
      → healthy s
      → accepts k ≡ true
      → S.get k s ≡ ok (x, w)
      → (w == v) ≡ false
      → (S.replace_if_version k d v s).0 ≡ err object_changed
  pub replace_absent :
      (k d v : Bytes) (s : S.State)
      → healthy s
      → accepts k ≡ true
      → object s k ≡ none
      → (S.replace_if_version k d v s).0 ≡ err object_not_found
  pub replace_healthy :
      (k d v : Bytes) (s : S.State) → healthy s → healthy (S.replace_if_version k d v s).1
  pub delete_if_current :
      (k x v : Bytes) (s : S.State)
      → healthy s
      → accepts k ≡ true
      → S.get k s ≡ ok (x, v)
      → (S.delete_if_version k v s).0 ≡ ok tt
  pub delete_if_other :
      (k x v w : Bytes) (s : S.State)
      → healthy s
      → accepts k ≡ true
      → S.get k s ≡ ok (x, w)
      → (w == v) ≡ false
      → (S.delete_if_version k v s).0 ≡ err object_changed
  pub delete_if_absent :
      (k v : Bytes) (s : S.State)
      → healthy s
      → accepts k ≡ true
      → object s k ≡ none
      → (S.delete_if_version k v s).0 ≡ err object_not_found
  pub delete_if_healthy :
      (k v : Bytes) (s : S.State) → healthy s → healthy (S.delete_if_version k v s).1
  pub delete_absent :
      (k : Bytes) (s : S.State)
      → healthy s
      → accepts k ≡ true
      → object s k ≡ none
      → (S.delete k s).0 ≡ err object_not_found
