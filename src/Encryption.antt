-- ===== src/Encryption.antt =====
-- internal/repository/repository.go: opening a repository's configuration, its encryption, and the
-- change of the passphrase.
mod Keys
pub mod Reopening
unfoldable pub use Keys.*
use vestige.Prelude.{
  [], ℕ, Bool, true, false, not, ◌&&◌, ◌||◌, Bytes, Option, none, some, if◌then◌else◌, str, ◌==◌,
  ltb, nat_eq, length, ℤ,
}
use vestige.Errors.{
  Error, Result, ok, err, message, wrap, wrapping, is_not_found, is_exists, fail_if, is_ok,
}
use vestige.Actions.{Action, ◌>>=◌, ◌>>◌, pure, raise, lift, wrapped, attempt, raise_if}
use vestige.Model.{
  Compression, RepositoryConfig, EncryptionConfig, unset, plain, gzip, zstd, other, format_version,
}
use vestige.Host.{Host}
use vestige.Store.{ObjectStore}
use vestige.Repository.{
  Repository, World, store_get, store_put_if_absent, store_replace_if_version, rand_read,
}
use vestige.Codec.{seal, open_sealed}
use vestige.Lock.{with_lock}
use mathlib.Core.Option

module _ (S : ObjectStore) (h : Host) where
  -- configureEncryption: the new configuration and the data key.
  unfoldable pub configure_encryption : Bytes → Action (World S) (EncryptionConfig × Bytes)
  configure_encryption passphrase = do
    salt ← wrapped "generate encryption salt" (rand_read S h 32)
    wrapping_key ←
        lift (wrapping "derive repository key" (h.pbkdf2 passphrase salt passphrase_iterations))
    data_key ← wrapped "generate repository data key" (rand_read S h 32)
    wrapped_key ← seal S h wrapping_key data_key wrapped_key_aad
    check ← seal S h data_key key_check_plaintext key_check_aad
    pure (
      record {
        algorithm = encryption_algorithm;
        kdf = passphrase_kdf;
        iterations = passphrase_iterations;
        salt = h.base64_encode salt;
        wrapped_key = h.base64_encode wrapped_key;
        key_check = h.base64_encode check;
      },
      data_key,
    )

  -- The encryption of a new repository.
  new_encryption : RepositoryOptions → Action (World S) (Option (EncryptionConfig × Bytes))
  unfolding configure_encryption
  new_encryption options =
      if options.encrypt
      then (do
        raise_if (options.passphrase == []) "encrypted repository requires VESTIGE_PASSPHRASE"
        configured ← configure_encryption options.passphrase
        pure (some configured))
      else pure none

  -- PutIfAbsent of the new configuration: another writer may have initialised the repository first.
  created_config :
      Bool
      → Bytes
      → RepositoryOptions
      → RepositoryConfig
      → Option Bytes
      → Result Bytes
      → Action (World S) Repository
  unfolding read_config
  created_config remote root options config key (ok _) =
      pure (record { root = root; remote = remote; config = config; key = key })
  created_config remote root options config key (err e) =
      if is_exists e
      then (do
        existing ← attempt (store_get S (str "config.json"))
        lift (read_config h remote root options existing))
      else raise (wrap "create repository config" e)

  create_config :
      Bool
      → Bytes
      → RepositoryOptions
      → Option (EncryptionConfig × Bytes)
      → Action (World S) Repository
  unfolding created_config
  create_config remote root options configured = do
    let config : RepositoryConfig = record {
      format_version = format_version;
      compression = options.compression;
      encryption = Option.map (λ c. c.0) configured;
    }
    contents ← lift (h.marshal_config config)
    created ← attempt (store_put_if_absent S (str "config.json") contents)
    created_config remote root options config (Option.map (λ c. c.1) configured) created

  -- What was found under config.json. An empty compression is "none" for a new repository.
  config_found :
      Bool → Bytes → RepositoryOptions → Result (Bytes × Bytes) → Action (World S) Repository
  unfolding new_encryption create_config read_config normalise
  config_found remote root options (ok found) = lift (read_config h remote root options (ok found))
  config_found remote root options (err e) =
      if is_not_found e
      then (do
        configured ← new_encryption options
        create_config remote root (record options { compression = normalise options.compression })
            configured)
      else raise (wrap "read repository config" e)

  unfoldable pub ensure_config : Bool → Bytes → RepositoryOptions → Action (World S) Repository
  unfolding config_found
  ensure_config remote root options = do
    existing ← attempt (store_get S (str "config.json"))
    config_found remote root options existing

  -- OpenWithOptions, from where the root is known: the test of the options, and the configuration.
  unfoldable pub open_with_options : Bool → Bytes → RepositoryOptions → Action (World S) Repository
  unfolding ensure_config
  open_with_options remote root options = do
    raise_if (not (is_unset options.compression) && not (is_supported options.compression))
        "unsupported compression"
    ensure_config remote root options

  -- RotatePassphrase under the lock: the repository with its new configuration.
  rewrap : Repository → EncryptionConfig → Bytes → Bytes → Action (World S) Repository
  rewrap r config data_key passphrase = do
    salt ← wrapped "generate encryption salt" (rand_read S h 32)
    wrapping_key ←
        lift (wrapping "derive repository key" (h.pbkdf2 passphrase salt passphrase_iterations))
    wrapped_key ← seal S h wrapping_key data_key wrapped_key_aad
    let updated : RepositoryConfig = record (r.config) {
      encryption = some (record {
        algorithm = encryption_algorithm;
        kdf = passphrase_kdf;
        iterations = passphrase_iterations;
        salt = h.base64_encode salt;
        wrapped_key = h.base64_encode wrapped_key;
        key_check = config.key_check;
      });
    }
    contents ← lift (h.marshal_config updated)
    (_, version) ← wrapped "read repository config" (store_get S (str "config.json"))
    wrapped "update repository key wrapper"
        (store_replace_if_version S (str "config.json") contents version)
    pure (record r { config = updated })

  rotate_with : Repository → Option EncryptionConfig → Bytes → ℤ → Action (World S) Repository
  unfolding rewrap
  rotate_with r none passphrase stale_after = raise (message "repository is not encrypted")
  rotate_with r (some config) passphrase stale_after =
      if passphrase == []
      then raise (message "new passphrase is required")
      else with_lock S h stale_after (rewrap r config (Option.get_or r.key []) passphrase)

  unfoldable pub rotate_passphrase : Repository → Bytes → ℤ → Action (World S) Repository
  unfolding rotate_with
  rotate_passphrase r passphrase stale_after =
      rotate_with r r.config.encryption passphrase stale_after
