-- ===== src/RecoveryKit/Validate/Sound.antt =====
-- What a recovery kit that validates holds.
use vestige.Prelude.{
  refl, lookup, ◌≡◌, arith, ℕ, ◌+◌, true, false, Bytes, Option, some, List, [], ◌∷◌, ◌++◌, length,
  str, is_some, keys, contains, contains-append, select, All, Distinct, Option-cases, inl, inr,
}
use vestige.Errors.{err, Result, Result-cases, ok}
use vestige.Model.{EncryptionConfig, Manifest, RepositoryConfig}
use vestige.RecoveryKit.{recovery_kit_version, RecoveryKitInfo, RecoveryKitReport, InfoCodec}
use vestige.Manifest.{validate_manifest}
use vestige.Host.{Host}
use vestige.Store.{ObjectStore}
use vestige.Repository.{Repository}
use vestige.Codec.{decrypt}
use vestige.Encryption.{open_encryption}
use vestige.Snapshots.{manifest_aad, open_manifest}
use vestige.RecoveryKit.Validate.{
  snapshot_entry, check_duplicates, read_entry, read_info, check_manifest, check_manifests,
  probe_of, check_kit, validate_recovery_kit,
}

-- The names that are left are not among those that were seen.
check_duplicates_fresh :
    (seen : List Bytes) (kit : List (Bytes × Result Bytes)) (p : Bytes)
    → check_duplicates seen kit ≡ ok tt
    → contains (keys kit) p ≡ true
    → contains seen p ≡ false
unfolding check_duplicates keys
check_duplicates_fresh seen [] p q c = absurd (ground (arith, c))
check_duplicates_fresh seen ((name, contents) ∷ kit) p q c = ground (
  arith,
  q,
  c,
  check_duplicates_fresh (seen ++ name ∷ []) kit p,
  contains-append seen (name ∷ []) p,
)

check_duplicates-Distinct :
    (seen : List Bytes) (kit : List (Bytes × Result Bytes))
    → check_duplicates seen kit ≡ ok tt
    → Distinct (keys kit)
unfolding check_duplicates keys
check_duplicates-Distinct seen [] q = tt
check_duplicates-Distinct seen ((name, contents) ∷ kit) q =
    let rest : check_duplicates (seen ++ name ∷ []) kit ≡ ok tt = ground (arith, q) in
    (
      ground (
        arith,
        check_duplicates_fresh (seen ++ name ∷ []) kit name rest,
        contains-append seen (name ∷ []) name,
      ),
      check_duplicates-Distinct (seen ++ name ∷ []) kit rest,
    )

module _ (S : ObjectStore) (h : Host) (codec : InfoCodec) where
  -- The test of a kit's manifest is that of ReadManifest.
  check_manifest_lem :
      (probe : Repository) (id : Bytes) (read : Result Bytes)
      → check_manifest h codec probe id read ≡ ok tt
      → (contents : Bytes) × (m : Manifest) × (read ≡ ok contents)
        × (open_manifest S h probe id contents ≡ ok m)
  unfolding check_manifest open_manifest
  check_manifest_lem probe id (err e) q = absurd (ground arith)
  check_manifest_lem probe id (ok contents) q =
      elim (Result-cases (decrypt h probe contents (manifest_aad id))) [
        | inr (e, x) ↦ absurd (ground (arith, x))
        | inl (opened, x) ↦ elim (Result-cases (h.unmarshal_manifest opened)) [
          | inr (e, y) ↦ absurd (ground (arith, x, y))
          | inl (m, y) ↦ elim (Result-cases (validate_manifest m)) [
            | inr (e, z) ↦ absurd (ground (arith, x, y, z))
            | inl (_, z) ↦ (contents, m, refl, ground (arith, x, y, z))
          ]
        ]
      ]

  -- An entry that is no manifest, or one that ReadManifest accepts.
  abbrev pub IsReadableEntry : Repository → Bytes × Result Bytes → Type 0
  IsReadableEntry probe entry =
      (id : Bytes)
      → snapshot_entry entry.0 ≡ some id
      → (contents : Bytes) × (m : Manifest) × (entry.1 ≡ ok contents)
        × (open_manifest S h probe id contents ≡ ok m)

  abbrev pub manifest_entries : List (Bytes × Result Bytes) → List (Bytes × Result Bytes)
  manifest_entries kit =
      select (λ (entry : Bytes × Result Bytes). is_some (snapshot_entry entry.0)) kit

  check_manifests_lem :
      (probe : Repository) (kit : List (Bytes × Result Bytes)) (n count : ℕ)
      → check_manifests h codec probe kit n ≡ ok count
      → All (IsReadableEntry probe) kit × (count ≡ n + length (manifest_entries kit))
  unfolding check_manifests
  check_manifests_lem probe [] n count q = (tt, ground arith)
  check_manifests_lem probe ((name, contents) ∷ kit) n count q =
      elim (Option-cases (snapshot_entry name)) [
        | inl e ↦
            let (rest, c) = check_manifests_lem probe kit n count (ground (arith, e)) in
            ((λ id x. absurd (ground (arith, e, x)), rest), rw e c)
        | inr (id, e) ↦ elim (Result-cases (check_manifest h codec probe id contents)) [
          | inr (x, y) ↦ absurd (ground (arith, e, y))
          | inl (_, y) ↦
              let (rest, c) = check_manifests_lem probe kit (n + 1) count (ground (arith, e, y)) in
              (
                (λ id' x. check_manifest_lem probe id' contents (ground (arith, y, e, x)), rest),
                rw e (omega (arith, c)),
              )
        ]
      ]

  -- The kit's metadata and its configuration, as its entries are decoded, of the format of this version
  -- and encrypted, the key that the passphrase opens it to, no name twice, every manifest readable with
  -- the key, and the report.
  pub record IsRestorable (kit : List (Bytes × Result Bytes)) (passphrase : Bytes)
      (report : RecoveryKitReport) : Type 0 where
    pub info_data : Bytes
    pub info : RecoveryKitInfo
    pub config_data : Bytes
    pub config : RepositoryConfig
    pub encryption : EncryptionConfig
    pub key : Option Bytes
    pub info_there : lookup (str "recovery-kit.json") kit ≡ some (ok info_data)
    pub info_decoded : codec.unmarshal info_data ≡ ok info
    pub info_version : info.version ≡ recovery_kit_version
    pub config_there : lookup (str "config.json") kit ≡ some (ok config_data)
    pub config_decoded : h.unmarshal_config config_data ≡ ok config
    pub version : config.format_version ≡ 1
    pub same_format : info.repository_format ≡ config.format_version
    pub encrypted : config.encryption ≡ some encryption
    pub opened : open_encryption h config.encryption passphrase ≡ ok key
    pub distinct : Distinct (keys kit)
    pub readable :
        All (IsReadableEntry (record { root = []; remote = false; config = config; key = key })) kit
    pub counted : report.snapshots ≡ length (manifest_entries kit)
    pub reported : report.repository_format ≡ config.format_version

  read_entry_lem :
      (kit : List (Bytes × Result Bytes)) (name contents : Bytes)
      → read_entry kit name ≡ ok contents
      → lookup name kit ≡ some (ok contents)
  unfolding read_entry
  read_entry_lem kit name contents q = ground arith

  read_info_lem :
      (contents : Bytes) (info : RecoveryKitInfo)
      → read_info h codec contents ≡ ok info
      → (codec.unmarshal contents ≡ ok info) × (info.version ≡ recovery_kit_version)
  unfolding read_info
  read_info_lem contents info q = elim (Result-cases (codec.unmarshal contents)) [
    | inr (e, x) ↦ absurd (ground (arith, x))
    | inl (found, x) ↦ (ground (arith, x), ground (arith, x))
  ]

  check_kit-IsRestorable :
      (kit : List (Bytes × Result Bytes)) (passphrase : Bytes) (report : RecoveryKitReport)
      → Distinct (keys kit)
      → check_kit h codec kit passphrase ≡ ok report
      → IsRestorable kit passphrase report
  unfolding check_kit probe_of
  check_kit-IsRestorable kit passphrase report d q =
      elim (Result-cases (read_entry kit (str "recovery-kit.json"))) [
        | inr (e, x) ↦ absurd (ground (arith, x))
        | inl (info_data, x) ↦ elim (Result-cases (read_info h codec info_data)) [
          | inr (e, y) ↦ absurd (ground (arith, x, y))
          | inl (info, y) ↦ elim (Result-cases (read_entry kit (str "config.json"))) [
            | inr (e, z) ↦ absurd (ground (arith, x, y, z))
            | inl (config_data, z) ↦ elim (Result-cases (h.unmarshal_config config_data)) [
              | inr (e, u) ↦ absurd (ground (arith, x, y, z, u))
              | inl (config, u) ↦ elim (Option-cases config.encryption) [
                | inl n ↦ absurd (ground (arith, x, y, z, u, n))
                | inr (encryption, n) ↦
                    elim (Result-cases (open_encryption h config.encryption passphrase)) [
                      | inr (e, v) ↦ absurd (ground (arith, x, y, z, u, v))
                      | inl (key, v) ↦
                          elim (Result-cases (
                            check_manifests h codec
                              (record { root = []; remote = false; config = config; key = key }) kit
                              0)) [
                                | inr (e, c) ↦ absurd (ground (arith, x, y, z, u, v, c))
                                | inl (count, c) ↦
                                    let (readable, counted) =
                                      check_manifests_lem
                                        (record {
                                          root = [];
                                          remote = false;
                                          config = config;
                                          key = key;
                                        })
                                        kit 0 count c in
                                    record {
                                      info_data = info_data;
                                      info = info;
                                      config_data = config_data;
                                      config = config;
                                      encryption = encryption;
                                      key = key;
                                      info_there =
                                          read_entry_lem kit (str "recovery-kit.json") info_data x;
                                      info_decoded = (read_info_lem info_data info y).0;
                                      info_version = (read_info_lem info_data info y).1;
                                      config_there =
                                          read_entry_lem kit (str "config.json") config_data z;
                                      config_decoded = u;
                                      encrypted = n;
                                      same_format = ground (arith, x, y, z, u);
                                      reported = ground (arith, x, y, z, u, v, c);
                                      version = ground (arith, x, y, z, u);
                                      opened = v;
                                      distinct = d;
                                      readable = readable;
                                      counted = ground (arith, x, y, z, u, v, c, counted);
                                    }
                              ]
                    ]
              ]
            ]
          ]
        ]
      ]

-- When ValidateRecoveryKit succeeds, the configuration in the kit's config.json is encrypted and of
-- version 1, as the kit's metadata says, the passphrase opens it, no name stands in the kit twice,
-- ReadManifest with that key would accept every manifest in it, and the report counts them.
pub validate_recovery_kit-IsRestorable :
    (S : ObjectStore) (h : Host) (codec : InfoCodec) (kit : List (Bytes × Result Bytes))
    (passphrase : Bytes) (report : RecoveryKitReport)
    → validate_recovery_kit h codec (ok kit) passphrase ≡ ok report
    → IsRestorable S h codec kit passphrase report
unfolding validate_recovery_kit
validate_recovery_kit-IsRestorable S h codec kit passphrase report q =
    elim (Result-cases (check_duplicates [] kit)) [
      | inr (e, x) ↦ absurd (ground (arith, x))
      | inl (_, x) ↦
          check_kit-IsRestorable S h codec kit passphrase report
            (check_duplicates-Distinct [] kit x) (ground (arith, x))
    ]
