-- ===== src/Examples/Kits.antt =====
-- A recovery kit with one snapshot.
use vestige.Errors.{message, err, Result, ok}
use vestige.Prelude.{
  ◌==◌, if◌then◌else◌, ◌≡◌, refl, ℕ, none, some, Bytes, List, [], ◌∷◌, ◌++◌, replicate, str,
}
use vestige.Model.{EncryptionConfig, plain}
use vestige.Host.{Host}
use vestige.Store.Local.{local_store}
use vestige.Encryption.{encryption_algorithm, passphrase_kdf, key_check_plaintext}
use vestige.RecoveryKit.{RecoveryKitInfo, RecoveryKitReport, InfoCodec, recovery_kit_version}
use vestige.RecoveryKit.Validate.{validate_recovery_kit}
use vestige.RecoveryKit.Validate.Sound.{IsRestorable, validate_recovery_kit-IsRestorable}
use vestige.Examples.{pad}
use vestige.Examples.Files.{hello_host}

abbrev info_codec : InfoCodec
info_codec = record {
  marshal = λ i. ok [];
  unmarshal = λ d. ok (record { version = recovery_kit_version; repository_format = 1 });
}

-- An old repository, whose data key is the one derived from the passphrase.
abbrev kit_encryption : EncryptionConfig
kit_encryption = record {
  algorithm = encryption_algorithm;
  kdf = passphrase_kdf;
  iterations = 600000;
  salt = replicate 32 0;
  wrapped_key = [];
  key_check = replicate 28 0 ++ key_check_plaintext;
}

abbrev kit_host : Host
kit_host = record hello_host {
  unmarshal_config = λ d.
      if d == 3 ∷ []
      then ok (record { format_version = 1; compression = plain; encryption = some kit_encryption })
      else err (message "not a configuration");
}

abbrev kit : List (Bytes × Result Bytes)
kit =
    (str "recovery-kit.json", ok [])
    ∷ (str "config.json", ok (3 ∷ []))
    ∷ (str "snapshots/s1/manifest.enc", ok (replicate 28 0 ++ 1 ∷ []))
    ∷ []

abbrev kit_report : RecoveryKitReport
kit_report = record { repository_format = 1; snapshots = 1 }

kit_validated : validate_recovery_kit kit_host info_codec (ok kit) (str "secret") ≡ ok kit_report
unfolding validate_recovery_kit vestige.Prelude.Bytes-discrete vestige.Prelude.lookup
    vestige.Encryption.open_encryption vestige.Codec.open_sealed
    vestige.RecoveryKit.Validate.snapshot_entry vestige.Prelude.has_prefix vestige.Codec.decrypt
    vestige.Manifest.validate_manifest vestige.Manifest.check_entry vestige.Paths.validate_path
    vestige.Prelude.has_byte vestige.Prelude.split_on vestige.Manifest.sum_chunks
    vestige.Paths.chunk_path vestige.Model.is_negative vestige.Model.add_int64
kit_validated = refl

validate_recovery_kit-IsRestorable_example :
    IsRestorable (local_store pad) kit_host info_codec kit (str "secret") kit_report
validate_recovery_kit-IsRestorable_example =
    validate_recovery_kit-IsRestorable (local_store pad) kit_host info_codec kit (str "secret")
      kit_report kit_validated
