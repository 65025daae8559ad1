-- ===== src/Repository.antt =====
-- internal/repository/repository.go: the opened repository, and the world that its methods act on.
use vestige.Prelude.{ℕ, ◌+◌, Bool, true, false, Bytes, Option, none, some, List}
use vestige.Errors.{Result}
use vestige.Actions.{Action}
use vestige.Model.{RepositoryConfig, Compression}
use vestige.Host.{Host}
use vestige.Store.{ObjectStore, StoredObject}

-- The fields of `Repository` but the store, which is a parameter, and the zstd codecs. `key` is nil
-- for a repository without encryption. The two hooks for tests are not modelled.
pub record Repository : Type 0 where
  pub root : Bytes
  pub remote : Bool
  pub config : RepositoryConfig
  pub key : Option Bytes

-- An entry of the tmp directory; `fault` is the error of removing it, if it cannot be.
pub record StagingEntry : Type 0 where
  pub name : Bytes
  pub is_dir : Bool
  pub fault : Option ℕ

-- The checkpoint of a verification (verifyState of internal/repository/verify.go): the repository and
-- selector that it belongs to, and the chunks that are marked true.
pub record VerifyState : Type 0 where
  pub repository : Bytes
  pub selector : Bytes
  pub verified : List Bytes

-- The checkpoint file: not there, not readable or malformed, or its contents; and the errors of
-- writing and of removing it, if these fail.
pub record CheckpointFile : Type 0 where
  pub contents : Option (Result VerifyState)
  pub write_fault : Option ℕ
  pub remove_fault : Option ℕ

-- The store, the number of reads of the random source so far, the time, which stands still during
-- one operation, the tmp directory of a local repository, if it can be read, and the checkpoint file.
pub record World (S : ObjectStore) : Type 0 where
  pub store : S.State
  pub draws : ℕ
  pub now : ℕ
  pub staging : Result (List StagingEntry)
  pub checkpoint : CheckpointFile

-- Whether chunks and manifests are encrypted at rest.
unfoldable pub encrypted : Repository → Bool
encrypted r = elim r.config.encryption [ none ↦ false | some e ↦ true ]

unfoldable pub compression : Repository → Compression
compression r = r.config.compression

module _ (S : ObjectStore) where
  abbrev pub store_get : Bytes → Action (World S) (Bytes × Bytes)
  store_get key w = (S.get key w.store, w)

  abbrev pub store_put_if_absent : Bytes → Bytes → Action (World S) Bytes
  store_put_if_absent key contents w =
      let (r, s) = S.put_if_absent key contents w.store in (r, record w { store = s })

  abbrev pub store_replace_if_version : Bytes → Bytes → Bytes → Action (World S) Bytes
  store_replace_if_version key contents version w =
      let (r, s) = S.replace_if_version key contents version w.store in (r, record w { store = s })

  abbrev pub store_delete_if_version : Bytes → Bytes → Action (World S) (Unit {0})
  store_delete_if_version key version w =
      let (r, s) = S.delete_if_version key version w.store in (r, record w { store = s })

  abbrev pub store_delete : Bytes → Action (World S) (Unit {0})
  store_delete key w = let (r, s) = S.delete key w.store in (r, record w { store = s })

  abbrev pub store_list : Bytes → Action (World S) (List StoredObject)
  store_list p w = (S.list p w.store, w)

  -- rand.Read of n bytes
  abbrev pub rand_read : Host → ℕ → Action (World S) Bytes
  rand_read h n w = (h.entropy w.draws n, record w { draws = w.draws + 1 })
