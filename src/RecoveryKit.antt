-- ===== src/RecoveryKit.antt =====
-- internal/repository/recoverykit.go. The ZIP file that is written is a
-- parameter: its calls act on a state of their own. A kit that is read is the list of its entries, and
-- the loop over them, whose order Go does not fix, goes in the order of the list.
pub mod Validate
use vestige.Prelude.{
  ℕ, zero, suc, ◌+◌, ◌-◌, Bool, true, false, not, ◌&&◌, ◌||◌, Bytes, Option, none, some, List, [],
  ◌∷◌, ◌++◌, if◌then◌else◌, nat_eq, leb, length, drop, str, ◌==◌, has_prefix, split_on, get_or,
  lookup, is_some, keys, ltb,
}
use vestige.Errors.{Error, Result, ok, err}
use vestige.Actions.{Action, ◌>>=◌, ◌>>◌, pure, raise, lift, wrapped, attempt, raise_if}
use vestige.Model.{Manifest, FileEntry, RepositoryConfig, Compression, format_version, is_file}
use vestige.Host.{Host}
use vestige.Store.{ObjectStore}
use vestige.Repository.{Repository, World, encrypted, store_get}
use vestige.Snapshots.{manifest_key, manifest_aad, snapshots, read_manifest}

abbrev pub recovery_kit_version : Bytes
recovery_kit_version = str "vestige-recovery-kit/v1"

pub record RecoveryKitInfo : Type 0 where
  pub version : Bytes
  pub repository_format : ℕ

pub record RecoveryKitReport : Type 0 where
  pub repository_format : ℕ
  pub snapshots : ℕ

-- os.OpenFile with O_EXCL, an entry of the ZIP file, the end of the ZIP file, and Close and Remove.
pub record Archive : Type 1 where
  pub State : Type 0
  pub create : Action State (Unit {0})
  pub write : Bytes → Bytes → Action State (Unit {0})
  pub finish : Action State (Unit {0})
  pub close : Action State (Unit {0})
  pub remove : Action State (Unit {0})

-- encoding/json on a RecoveryKitInfo
pub record InfoCodec : Type 0 where
  pub marshal : RecoveryKitInfo → Result Bytes
  pub unmarshal : Bytes → Result RecoveryKitInfo

module _ (S : ObjectStore) (h : Host) (codec : InfoCodec) (A : Archive) where
  abbrev pub Exporting : Type 0
  Exporting = World S × A.State

  abbrev from_store : {B : Type 0} → Action (World S) B → Action Exporting B
  from_store m (w, a) = let (r, w') = m w in (r, (w', a))

  abbrev into_kit : {B : Type 0} → Action A.State B → Action Exporting B
  into_kit m (w, a) = let (r, a') = m a in (r, (w, a'))

  -- The loop over the manifests.
  unfoldable pub export_manifests : Repository → List Manifest → ℕ → Action Exporting ℕ
  export_manifests r [] count = pure count
  export_manifests r (m ∷ ms) count = do
    (contents, _) ← from_store (wrapped "read" (store_get S (manifest_key r m.snapshot_id)))
    into_kit (A.write (manifest_key r m.snapshot_id) contents)
    export_manifests r ms (count + 1)

  -- What is written to the file once it is open.
  unfoldable pub export_entries : Repository → Action Exporting ℕ
  unfolding export_manifests
  export_entries r = do
    info ← lift (
        codec.marshal
          (record { version = recovery_kit_version; repository_format = r.config.format_version }))
    into_kit (A.write (str "recovery-kit.json") info)
    (config, _) ← from_store (wrapped "read repository config" (store_get S (str "config.json")))
    into_kit (A.write (str "config.json") config)
    ms ← from_store (snapshots S h r)
    count ← export_manifests r ms 0
    into_kit A.finish
    into_kit A.close
    pure count

  -- The deferred function: the file is closed, and removed unless all went well.
  close_export : Repository → Result ℕ → Action Exporting RecoveryKitReport
  close_export r (ok count) = do
    into_kit (attempt A.close)
    pure (record { repository_format = r.config.format_version; snapshots = count })
  close_export r (err e) = do into_kit (attempt A.close); into_kit (attempt A.remove); raise e

  unfoldable pub export_recovery_kit : Repository → Action Exporting RecoveryKitReport
  unfolding export_entries close_export
  export_recovery_kit r = do
    raise_if (not (encrypted r)) "recovery kits require an encrypted repository"
    into_kit (wrapped "create recovery kit" A.create)
    written ← attempt (export_entries r)
    close_export r written
