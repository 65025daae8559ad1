-- ===== src/Encryption/Keys.antt =====
-- internal/repository/repository.go: openEncryption, and the validation of a configuration.
use vestige.Prelude.{
  [], ℕ, Bool, true, false, not, ◌&&◌, ◌||◌, Bytes, Option, none, some, if◌then◌else◌, str, ◌==◌,
  ltb, nat_eq, length,
}
use vestige.Errors.{◌>>=◌, ◌>>◌, Result, ok, err, message, wrap, wrapping, fail_if}
use vestige.Model.{
  Compression, RepositoryConfig, EncryptionConfig, unset, plain, gzip, zstd, other, format_version,
}
use vestige.Host.{Host}
use vestige.Repository.{Repository}
use vestige.Codec.{open_sealed}

pub record RepositoryOptions : Type 0 where
  pub compression : Compression
  pub encrypt : Bool
  pub passphrase : Bytes

abbrev pub encryption_algorithm : Bytes
encryption_algorithm = str "aes-256-gcm"

abbrev pub passphrase_kdf : Bytes
passphrase_kdf = str "pbkdf2-hmac-sha256"

abbrev pub passphrase_iterations : ℕ
passphrase_iterations = 600000

abbrev pub key_check_plaintext : Bytes
key_check_plaintext = str "vestige repository key check v1"

abbrev pub key_check_aad : Bytes
key_check_aad = str "vestige/config-key-check/v1"

abbrev pub wrapped_key_aad : Bytes
wrapped_key_aad = str "vestige/config-wrapped-key/v1"

abbrev pub is_none {ℓ} : {A : Type ℓ} → Option A → Bool
is_none none = true
is_none (some a) = false

-- The policies that a repository may have, and the default of an empty one.
abbrev pub is_supported : Compression → Bool
is_supported plain = true
is_supported gzip = true
is_supported zstd = true
is_supported _ = false

abbrev pub is_unset : Compression → Bool
is_unset unset = true
is_unset _ = false

unfoldable pub normalise : Compression → Compression
normalise unset = plain
normalise plain = plain
normalise gzip = gzip
normalise zstd = zstd
normalise (other t) = other t

-- Equality of the texts.
unfoldable pub same_compression : Compression → Compression → Bool
same_compression unset unset = true
same_compression plain plain = true
same_compression gzip gzip = true
same_compression zstd zstd = true
same_compression (other s) (other t) = s == t
same_compression _ _ = false

module _ (h : Host) where
  -- The data key: unwrapped, or in old repositories the key derived from the passphrase.
  unwrap_key : EncryptionConfig → Bytes → Result Bytes
  unwrap_key config wrapping_key =
      if config.wrapped_key == []
      then ok wrapping_key
      else elim (h.base64_decode config.wrapped_key) [
        | err _ ↦ err (message "invalid wrapped repository key")
        | ok wrapped_key ↦ elim (open_sealed h wrapping_key wrapped_key wrapped_key_aad) [
          | err _ ↦ err (message "incorrect passphrase or corrupt wrapped repository key")
          | ok key ↦
              if nat_eq (length key) 32
              then ok key
              else err (message "incorrect passphrase or corrupt wrapped repository key")
        ]
      ]

  check_key : Bytes → Bytes → Result Bytes
  check_key key check = elim (open_sealed h key check key_check_aad) [
    | err _ ↦ err (message "incorrect passphrase or corrupt repository encryption key check")
    | ok opened ↦
        if opened == key_check_plaintext
        then ok key
        else err (message "incorrect passphrase or corrupt repository encryption key check")
  ]

  derive_key : EncryptionConfig → Bytes → Bytes → Bytes → Result Bytes
  unfolding unwrap_key check_key
  derive_key config passphrase salt check =
      elim (wrapping "derive repository key" (h.pbkdf2 passphrase salt config.iterations)) [
        | err e ↦ err e
        | ok wrapping_key ↦ elim (unwrap_key config wrapping_key) [
          | err e ↦ err e
          | ok key ↦ check_key key check
        ]
      ]

  -- The salt and the key check, decoded.
  decode_parameters : EncryptionConfig → Bytes → Result Bytes
  unfolding derive_key
  decode_parameters config passphrase = elim (h.base64_decode config.salt) [
    | err _ ↦ err (message "invalid repository encryption salt")
    | ok salt ↦
        if ltb (length salt) 16
        then err (message "invalid repository encryption salt")
        else elim (h.base64_decode config.key_check) [
          | err _ ↦ err (message "invalid repository encryption key check")
          | ok check ↦ derive_key config passphrase salt check
        ]
  ]

  open_configured : EncryptionConfig → Bytes → Result Bytes
  unfolding decode_parameters
  open_configured config passphrase =
      if not (config.algorithm == encryption_algorithm)
        || not (config.kdf == passphrase_kdf)
        || ltb config.iterations 100000
      then err (message "unsupported repository encryption configuration")
      else if passphrase == []
      then err (message "repository is encrypted; set VESTIGE_PASSPHRASE before running Vestige")
      else decode_parameters config passphrase

  -- openEncryption: the key of an encrypted repository, nil for another.
  unfoldable pub open_encryption : Option EncryptionConfig → Bytes → Result (Option Bytes)
  unfolding open_configured
  open_encryption none passphrase = ok none
  open_encryption (some config) passphrase = elim (open_configured config passphrase) [
    | ok key ↦ ok (some key)
    | err e ↦ err e
  ]

  -- Validation of the configuration that is there, once it is decoded and its empty compression
  -- is read as "none".
  unfoldable pub accept_config :
      Bool → Bytes → RepositoryOptions → RepositoryConfig → Result Repository
  unfolding open_encryption normalise same_compression
  accept_config remote root options config = do
    fail_if (not (nat_eq config.format_version format_version))
        "unsupported repository format version"
    let chosen = normalise config.compression
    fail_if (not (is_supported chosen)) "unsupported repository compression"
    fail_if
        (not (is_unset options.compression) && not (same_compression options.compression chosen))
        "repository uses another compression"
    fail_if (options.encrypt && is_none config.encryption)
        "cannot enable encryption on an existing unencrypted repository"
    key ← open_encryption config.encryption options.passphrase
    ok (record {
      root = root;
      remote = remote;
      config = record config { compression = chosen };
      key = key;
    })

  -- The configuration that was read, or the error of reading it.
  unfoldable pub read_config :
      Bool → Bytes → RepositoryOptions → Result (Bytes × Bytes) → Result Repository
  unfolding accept_config
  read_config remote root options (err e) = err (wrap "read repository config" e)
  read_config remote root options (ok (contents, _)) = do
    config ← wrapping "invalid repository config" (h.unmarshal_config contents)
    accept_config remote root options config
