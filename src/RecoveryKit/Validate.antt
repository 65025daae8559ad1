-- ===== src/RecoveryKit/Validate.antt =====
-- internal/repository/recoverykit.go: ValidateRecoveryKit.
pub mod Sound
use vestige.Prelude.{
  ℕ, suc, ◌+◌, ◌-◌, Bool, true, false, not, ◌&&◌, ◌||◌, Bytes, Option, none, some, List, [], ◌∷◌,
  ◌++◌, if◌then◌else◌, nat_eq, leb, length, drop, str, ◌==◌, has_prefix, split_on, get_or, lookup,
  is_some, keys, contains,
}
use vestige.Errors.{Error, Result, ok, err, message, wrapping, fail_if, is_ok, ◌>>=◌, ◌>>◌}
use vestige.Model.{Manifest, RepositoryConfig, EncryptionConfig, Compression, format_version}
use vestige.Manifest.{validate_manifest}
use vestige.Host.{Host}
use vestige.Repository.{Repository}
use vestige.Codec.{decrypt}
use vestige.Encryption.{open_encryption}
use vestige.Snapshots.{manifest_aad}
use vestige.RecoveryKit.{RecoveryKitInfo, RecoveryKitReport, InfoCodec, recovery_kit_version}

-- strings.HasSuffix and strings.Count of a byte
has_suffix : Bytes → Bytes → Bool
has_suffix s t = leb (length t) (length s) && drop (length s - length t) s == t

count_byte : ℕ → Bytes → ℕ
count_byte b [] = 0
count_byte b (c ∷ s) = let n = count_byte b s in if nat_eq b c then suc n else n

-- The snapshot of an entry that is a manifest.
unfoldable pub snapshot_entry : Bytes → Option Bytes
unfolding has_suffix count_byte str
snapshot_entry name =
    if not (has_prefix name (str "snapshots/"))
      || not (has_suffix name (str "/manifest.enc"))
      || not (nat_eq (count_byte b'/' name) 2)
    then none
    else some (get_or [] (split_on b'/' name) 1)

-- The loop over the entries of the file.
unfoldable pub check_duplicates : List Bytes → List (Bytes × Result Bytes) → Result (Unit {0})
check_duplicates seen [] = ok tt
check_duplicates seen ((name, contents) ∷ kit) = do
  fail_if (contains seen name) "duplicate recovery-kit entry"
  check_duplicates (seen ++ name ∷ []) kit

-- What opening and reading an entry gives, or closing it, where the code looks at that.
read_entry : List (Bytes × Result Bytes) → Bytes → Result Bytes
read_entry kit name = elim (lookup name kit) [
  | none ↦ err (message "recovery kit is missing an entry")
  | some contents ↦ contents
]

module _ (h : Host) (codec : InfoCodec) where
  read_info : Bytes → Result RecoveryKitInfo
  read_info contents = elim (codec.unmarshal contents) [
    | err _ ↦ err (message "invalid recovery kit metadata")
    | ok info ↦
        if info.version == recovery_kit_version
        then ok info
        else err (message "invalid recovery kit metadata")
  ]

  -- A manifest of the kit: it opens, is valid, and has the identifier of its entry.
  unfoldable pub check_manifest : Repository → Bytes → Result Bytes → Result (Unit {0})
  check_manifest probe id read = do
    contents ← read
    opened ← wrapping "decrypt snapshot" (decrypt h probe contents (manifest_aad id))
    m ← wrapping "invalid snapshot" (h.unmarshal_manifest opened)
    fail_if (not (is_ok (validate_manifest m)) || not (m.snapshot_id == id)) "invalid snapshot"

  -- The loop over the entries, with the count of the report.
  unfoldable pub check_manifests : Repository → List (Bytes × Result Bytes) → ℕ → Result ℕ
  unfolding check_manifest
  check_manifests probe [] count = ok count
  check_manifests probe ((name, contents) ∷ kit) count = elim (snapshot_entry name) [
    | none ↦ check_manifests probe kit count
    | some id ↦ do check_manifest probe id contents; check_manifests probe kit (count + 1)
  ]

  -- The repository that the manifests are opened with.
  unfoldable pub probe_of : RepositoryConfig → Bytes → Result Repository
  probe_of config passphrase = do
    key ← open_encryption h config.encryption passphrase
    ok (record { root = []; remote = false; config = config; key = key })

  check_kit : List (Bytes × Result Bytes) → Bytes → Result RecoveryKitReport
  unfolding read_entry read_info check_manifests probe_of str
  check_kit kit passphrase = do
    info_data ← read_entry kit (str "recovery-kit.json")
    info ← read_info info_data
    config_data ← read_entry kit (str "config.json")
    config ← wrapping "invalid recovery-kit config" (h.unmarshal_config config_data)
    fail_if
        (not (nat_eq config.format_version format_version)
          || not (nat_eq info.repository_format config.format_version)
          || not (is_some config.encryption))
        "unsupported recovery-kit repository format"
    probe ← probe_of config passphrase
    count ← check_manifests probe kit 0
    ok (record { repository_format = config.format_version; snapshots = count })

  -- Of an opened ZIP file, or the error of opening it.
  unfoldable pub validate_recovery_kit :
      Result (List (Bytes × Result Bytes)) → Bytes → Result RecoveryKitReport
  unfolding check_duplicates check_kit
  validate_recovery_kit source passphrase = do
    kit ← wrapping "open recovery kit" source
    check_duplicates [] kit
    check_kit kit passphrase
