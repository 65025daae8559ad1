-- ===== src/Store.antt =====
-- internal/repository/store.go: the object store that a repository uses, and what is assumed of one.
-- Keys and versions are strings. Reading changes nothing; each other operation gives a new state.
pub mod Contract
pub mod Failures
pub mod Local
pub mod S3
use vestige.Prelude.{
  ◌≡◌, ◌↔◌, ◌⊎◌, Bool, true, Bytes, Option, none, some, List, map, contains, has_prefix, ◌==◌,
  if◌then◌else◌,
}
use vestige.Errors.{
  Error, Result, ok, err, object_not_found, object_exists, is_not_found, is_exists,
}
use vestige.Actions.{Action}
use vestige.Model.{Int64}

pub record StoredObject : Type 0 where
  pub key : Bytes
  pub size : Int64
  pub version : Bytes

pub record ObjectStore : Type 1 where
  pub State : Type 0
  pub get : Bytes → State → Result (Bytes × Bytes)
  pub put_if_absent : Bytes → Bytes → Action State Bytes
  pub replace_if_version : Bytes → Bytes → Bytes → Action State Bytes
  pub delete_if_version : Bytes → Bytes → Action State (Unit {0})
  pub delete : Bytes → Action State (Unit {0})
  pub list : Bytes → State → Result (List StoredObject)

abbrev pub IsPresent : Option Bytes → Type 0
IsPresent none = ⊥
IsPresent (some d) = Unit

-- What is assumed of every store, over a view of the object under each key: a call that succeeds has
-- done its work and nothing else, a call that fails has changed no object or has done its work, as one
-- that is not answered in time may have, and "not found" is told truly. Any call may fail.
pub record IsLawful (S : ObjectStore) (object : S.State → Bytes → Option Bytes) : Type 0 where
  pub get_ok : (k : Bytes) (s : S.State) (d v : Bytes) → S.get k s ≡ ok (d, v) → object s k ≡ some d
  pub get_missing :
      (k : Bytes) (s : S.State) (e : Error)
      → S.get k s ≡ err e
      → is_not_found e ≡ true
      → object s k ≡ none
  pub put_ok :
      (k d : Bytes) (s : S.State) (v : Bytes)
      → (S.put_if_absent k d s).0 ≡ ok v
      → (object s k ≡ none)
        × ((j : Bytes)
            → object (S.put_if_absent k d s).1 j ≡ (if k == j then some d else object s j))
  pub put_failed :
      (k d : Bytes) (s : S.State) (e : Error)
      → (S.put_if_absent k d s).0 ≡ err e
      → ((j : Bytes) → object (S.put_if_absent k d s).1 j ≡ object s j)
        ⊎ ((object s k ≡ none)
            × ((j : Bytes)
                → object (S.put_if_absent k d s).1 j ≡ (if k == j then some d else object s j)))
  pub replace_ok :
      (k d v : Bytes) (s : S.State) (v' : Bytes)
      → (S.replace_if_version k d v s).0 ≡ ok v'
      → (j : Bytes)
      → object (S.replace_if_version k d v s).1 j ≡ (if k == j then some d else object s j)
  pub replace_failed :
      (k d v : Bytes) (s : S.State) (e : Error)
      → (S.replace_if_version k d v s).0 ≡ err e
      → ((j : Bytes) → object (S.replace_if_version k d v s).1 j ≡ object s j)
        ⊎ ((j : Bytes)
            → object (S.replace_if_version k d v s).1 j ≡ (if k == j then some d else object s j))
  pub delete_if_ok :
      (k v : Bytes) (s : S.State)
      → (S.delete_if_version k v s).0 ≡ ok tt
      → (j : Bytes) → object (S.delete_if_version k v s).1 j ≡ (if k == j then none else object s j)
  pub delete_if_failed :
      (k v : Bytes) (s : S.State) (e : Error)
      → (S.delete_if_version k v s).0 ≡ err e
      → ((j : Bytes) → object (S.delete_if_version k v s).1 j ≡ object s j)
        ⊎ ((j : Bytes)
            → object (S.delete_if_version k v s).1 j ≡ (if k == j then none else object s j))
  pub delete_ok :
      (k : Bytes) (s : S.State)
      → (S.delete k s).0 ≡ ok tt
      → (j : Bytes) → object (S.delete k s).1 j ≡ (if k == j then none else object s j)
  pub delete_failed :
      (k : Bytes) (s : S.State) (e : Error)
      → (S.delete k s).0 ≡ err e
      → ((j : Bytes) → object (S.delete k s).1 j ≡ object s j)
        ⊎ ((j : Bytes) → object (S.delete k s).1 j ≡ (if k == j then none else object s j))
  pub list_ok :
      (p : Bytes) (s : S.State) (objects : List StoredObject)
      → S.list p s ≡ ok objects
      → (k : Bytes)
      → (contains (map (λ (o : StoredObject). o.key) objects) k ≡ true)
        ↔ ((has_prefix k p ≡ true) × IsPresent (object s k))

-- What a store does besides in its healthy states, on the keys that it accepts.
pub record IsReliable (S : ObjectStore) (object : S.State → Bytes → Option Bytes)
    (accepts : Bytes → Bool) (healthy : S.State → Type 0) : Type 0 where
  pub get_present :
      (k : Bytes) (s : S.State) (d : Bytes)
      → healthy s
      → accepts k ≡ true
      → object s k ≡ some d
      → (v : Bytes) × (S.get k s ≡ ok (d, v))
  pub get_absent :
      (k : Bytes) (s : S.State)
      → healthy s
      → accepts k ≡ true
      → object s k ≡ none
      → S.get k s ≡ err object_not_found
  pub put_absent :
      (k d : Bytes) (s : S.State)
      → healthy s
      → accepts k ≡ true
      → object s k ≡ none
      → (v : Bytes) × ((S.put_if_absent k d s).0 ≡ ok v)
  pub put_healthy : (k d : Bytes) (s : S.State) → healthy s → healthy (S.put_if_absent k d s).1
  pub delete_present :
      (k d : Bytes) (s : S.State)
      → healthy s
      → accepts k ≡ true
      → object s k ≡ some d
      → (S.delete k s).0 ≡ ok tt
  pub delete_healthy : (k : Bytes) (s : S.State) → healthy s → healthy (S.delete k s).1
  pub list_all :
      (p : Bytes) (s : S.State)
      → healthy s
      → (objects : List StoredObject) × (S.list p s ≡ ok objects)
