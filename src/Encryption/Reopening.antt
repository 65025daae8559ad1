-- ===== src/Encryption/Reopening.antt =====
-- An encrypted repository opens with the passphrase that its configuration was made for.
use vestige.Prelude.{
  refl, ◌∙◌, sym, ap, ◌≢◌, Option, str, ◌≡◌, arith, ℕ, ◌+◌, false, Bytes, some, [], ◌==◌, length, ℤ,
  Bool-cases, inl, inr,
}
use vestige.Lock.Effects.{with_lock_other, with_lock_run}
use vestige.Model.{RepositoryConfig, EncryptionConfig}
use vestige.Errors.{err, Error, Result-cases, ok}
use vestige.Store.{IsLawful, ObjectStore}
use vestige.Lock.{lock_key, with_lock, acquire_write_lock}
use vestige.Host.{Host}
use vestige.Repository.{Repository, World}
use vestige.Actions.{Action}
use vestige.Codec.{seal, open_sealed}
use vestige.Codec.RoundTrip.{IsFaithful, open_sealed-seal}
use vestige.Encryption.{
  open_encryption, configure_encryption, rotate_passphrase, rewrap, encryption_algorithm,
  passphrase_kdf, passphrase_iterations, key_check_plaintext, key_check_aad, wrapped_key_aad,
}

-- What is relied on of base64 and of PBKDF2 with keys of 32 bytes.
pub record IsCoding (h : Host) : Type 0 where
  pub base64_round : (d : Bytes) → h.base64_decode (h.base64_encode d) ≡ ok d
  pub base64_empty : (d : Bytes) → h.base64_encode d ≡ [] → d ≡ []
  pub pbkdf2_length :
      (passphrase salt key : Bytes) (n : ℕ) → h.pbkdf2 passphrase salt n ≡ ok key → length key ≡ 32

lock_is_other : lock_key ≢ str "config.json"
unfolding str
lock_is_other p = absurd (ground arith)

module _ (h : Host) (B : IsCoding h) where
  -- A wrapped key that opens is not empty, nor is its text.
  wrapped_text :
      (key wrapped aad d : Bytes)
      → open_sealed h key wrapped aad ≡ ok d
      → (h.base64_encode wrapped == []) ≡ false
  unfolding open_sealed
  wrapped_text key wrapped aad d q = elim (Bool-cases (h.base64_encode wrapped == [])) [
    | inr f ↦ f
    | inl t ↦
        let e : wrapped ≡ [] = B.base64_empty wrapped (ground (arith, t)) in
        absurd (ground (arith, e, q))
  ]

  abbrev made_config : Bytes → Bytes → Bytes → EncryptionConfig
  made_config salt wrapped key_check = record {
    algorithm = encryption_algorithm;
    kdf = passphrase_kdf;
    iterations = passphrase_iterations;
    salt = h.base64_encode salt;
    wrapped_key = h.base64_encode wrapped;
    key_check = key_check;
  }

  -- The parts of a configuration that opens.
  made_opens :
      (passphrase salt wrapping_key wrapped key text check : Bytes)
      → (passphrase == []) ≡ false
      → length salt ≡ 32
      → h.pbkdf2 passphrase salt passphrase_iterations ≡ ok wrapping_key
      → open_sealed h wrapping_key wrapped wrapped_key_aad ≡ ok key
      → length key ≡ 32
      → h.base64_decode text ≡ ok check
      → open_sealed h key check key_check_aad ≡ ok key_check_plaintext
      → open_encryption h (some (made_config salt wrapped text)) passphrase ≡ ok (some key)
  unfolding open_encryption
  made_opens passphrase salt wrapping_key wrapped key text check p l k u n t c = ground (
    arith,
    wrapped_text wrapping_key wrapped wrapped_key_aad key u,
    B.base64_round salt,
    B.base64_round wrapped,
  )

  -- What is known of the key check of a configuration that has opened.
  opened_check :
      (config : EncryptionConfig) (passphrase key : Bytes)
      → open_encryption h (some config) passphrase ≡ ok (some key)
      → (length key ≡ 32)
        × ((check : Bytes) × (h.base64_decode config.key_check ≡ ok check)
            × (open_sealed h key check key_check_aad ≡ ok key_check_plaintext))
  unfolding open_encryption
  opened_check config passphrase key q = elim (Result-cases (h.base64_decode config.key_check)) [
    | inr (e, x) ↦ absurd (ground (arith, x))
    | inl (check, x) ↦ elim (Result-cases (h.base64_decode config.salt)) [
      | inr (e, y) ↦ absurd (ground (arith, x, y))
      | inl (salt, y) ↦ elim (Result-cases (h.pbkdf2 passphrase salt config.iterations)) [
        | inr (e, z) ↦ absurd (ground (arith, x, y, z))
        | inl (wrapping_key, z) ↦
            let n = B.pbkdf2_length passphrase salt wrapping_key config.iterations z in
            (ground (arith, x, y, z, n), (check, x, ground (arith, x, y, z, n)))
      ]
    ]
  ]

module _ (S : ObjectStore) (h : Host) (F : IsFaithful h) (B : IsCoding h) where
  -- What the body of a run under the lock returned.
  not_locked :
      {A : Type 0} (stale : ℤ) (body : Action (World S) A) (w : World S) (a : A) (e : Error)
      → (acquire_write_lock S h stale w).0 ≡ err e
      → (with_lock S h stale body w).0 ≡ ok a
      → ⊥
  unfolding with_lock
  not_locked stale body w a e x q = ground (arith, x)

  with_lock_ok :
      {A : Type 0} (stale : ℤ) (body : Action (World S) A) (w : World S) (a : A)
      → (with_lock S h stale body w).0 ≡ ok a
      → (w₁ : World S) × ((body w₁).0 ≡ ok a)
  unfolding with_lock
  with_lock_ok stale body w a q = elim (Result-cases (acquire_write_lock S h stale w).0) [
    | inr (e, x) ↦ absurd (ground (arith, x))
    | inl (lock, x) ↦ ((acquire_write_lock S h stale w).1, ground (arith, x))
  ]

  -- The configuration of a new encrypted repository opens with its passphrase, to its data key.
  pub open_encryption-configure_encryption :
      (passphrase key : Bytes) (config : EncryptionConfig) (w : World S)
      → (passphrase == []) ≡ false
      → (configure_encryption S h passphrase w).0 ≡ ok (config, key)
      → open_encryption h (some config) passphrase ≡ ok (some key)
  unfolding configure_encryption
  open_encryption-configure_encryption passphrase key config w p q =
      elim (Result-cases (h.entropy w.draws 32)) [
        | inr (e, x) ↦ absurd (ground (arith, x))
        | inl (salt, x) ↦ elim (Result-cases (h.pbkdf2 passphrase salt passphrase_iterations)) [
          | inr (e, k) ↦ absurd (ground (arith, x, k))
          | inl (wrapping_key, k) ↦ elim (Result-cases (h.entropy (w.draws + 1) 32)) [
            | inr (e, y) ↦ absurd (ground (arith, x, k, y))
            | inl (data_key, y) ↦
                let w₂ : World S = record w { draws = w.draws + 1 + 1 } in
                elim (Result-cases (seal S h wrapping_key data_key wrapped_key_aad w₂).0) [
                  | inr (e, u) ↦ absurd (ground (arith, x, k, y, u))
                  | inl (wrapped, u) ↦
                      let w₃ = (seal S h wrapping_key data_key wrapped_key_aad w₂).1 in
                      elim (Result-cases
                        (seal S h data_key key_check_plaintext key_check_aad w₃).0) [
                          | inr (e, v) ↦ absurd (ground (arith, x, k, y, u, v))
                          | inl (check, v) ↦
                              let e : config
                                  ≡ made_config h B salt wrapped (h.base64_encode check) =
                                ground (arith, q, x, k, y, u, v) in
                              let f : key ≡ data_key = ground (arith, q, x, k, y, u, v) in
                              rw (e, f)
                                (made_opens h B passphrase salt wrapping_key wrapped data_key
                                  (h.base64_encode check) check p
                                  (F.entropy_length w.draws 32 salt x) k
                                  (open_sealed-seal S h F wrapping_key data_key wrapped_key_aad
                                    wrapped w₂ u)
                                  (F.entropy_length (w.draws + 1) 32 data_key y)
                                  (B.base64_round check)
                                  (open_sealed-seal S h F data_key key_check_plaintext key_check_aad
                                    check w₃ v))
                        ]
                ]
          ]
        ]
      ]

  -- The body of a rotation.
  rewrap_opens :
      (r r' : Repository) (config : EncryptionConfig) (key passphrase check : Bytes) (w : World S)
      → (passphrase == []) ≡ false
      → length key ≡ 32
      → h.base64_decode config.key_check ≡ ok check
      → open_sealed h key check key_check_aad ≡ ok key_check_plaintext
      → (rewrap S h r config key passphrase w).0 ≡ ok r'
      → (r'.key ≡ r.key) × (open_encryption h r'.config.encryption passphrase ≡ ok (some key))
  unfolding rewrap
  rewrap_opens r r' config key passphrase check w p n t c q =
      elim (Result-cases (h.entropy w.draws 32)) [
        | inr (e, x) ↦ absurd (ground (arith, x))
        | inl (salt, x) ↦ elim (Result-cases (h.pbkdf2 passphrase salt passphrase_iterations)) [
          | inr (e, k) ↦ absurd (ground (arith, x, k))
          | inl (wrapping_key, k) ↦
              let w₁ : World S = record w { draws = w.draws + 1 } in
              elim (Result-cases (seal S h wrapping_key key wrapped_key_aad w₁).0) [
                | inr (e, u) ↦ absurd (ground (arith, x, k, u))
                | inl (wrapped, u) ↦
                    let e : r'.config.encryption
                        ≡ some (made_config h B salt wrapped config.key_check) =
                      ground (arith, q, x, k, u) in
                    let f : r'.key ≡ r.key = ground (arith, q, x, k, u) in
                    (
                      f,
                      rw e (
                          made_opens h B passphrase salt wrapping_key wrapped key config.key_check
                            check p (F.entropy_length w.draws 32 salt x) k
                            (open_sealed-seal S h F wrapping_key key wrapped_key_aad wrapped w₁ u) n
                            t c),
                    )
              ]
        ]
      ]

  -- What a store has under config.json is the text of the configuration.
  abbrev IsStoredAt : (S.State → Bytes → Option Bytes) → Repository → S.State → Type 0
  IsStoredAt object r s =
      (contents : Bytes) × (h.marshal_config r.config ≡ ok contents)
      × (object s (str "config.json") ≡ some contents)

  module _ (object : S.State → Bytes → Option Bytes) (L : IsLawful S object) where
    replace_stores :
        (contents version new : Bytes) (s : S.State)
        → (S.replace_if_version (str "config.json") contents version s).0 ≡ ok new
        → object (S.replace_if_version (str "config.json") contents version s).1 (str "config.json")
          ≡ some contents
    replace_stores contents version new s q =
        ground
          (arith, L.replace_ok (str "config.json") contents version s new q (str "config.json"))

    -- The body of a rotation stores the configuration that it returns.
    rewrap_stores :
        (r r' : Repository) (config : EncryptionConfig) (key passphrase : Bytes) (w : World S)
        → (rewrap S h r config key passphrase w).0 ≡ ok r'
        → IsStoredAt object r' (rewrap S h r config key passphrase w).1.store
    unfolding rewrap
    rewrap_stores r r' config key passphrase w q = elim (Result-cases (h.entropy w.draws 32)) [
      | inr (e, x) ↦ absurd (ground (arith, x))
      | inl (salt, x) ↦ elim (Result-cases (h.pbkdf2 passphrase salt passphrase_iterations)) [
        | inr (e, k) ↦ absurd (ground (arith, x, k))
        | inl (wrapping_key, k) ↦
            let w₁ : World S = record w { draws = w.draws + 1 } in
            elim (Result-cases (seal S h wrapping_key key wrapped_key_aad w₁).0) [
              | inr (e, u) ↦ absurd (ground (arith, x, k, u))
              | inl (wrapped, u) ↦
                  let w₂ = (seal S h wrapping_key key wrapped_key_aad w₁).1 in
                  let updated : RepositoryConfig = record (r.config) {
                    encryption = some (made_config h B salt wrapped config.key_check);
                  } in
                  elim (Result-cases (h.marshal_config updated)) [
                    | inr (e, m) ↦ absurd (ground (arith, x, k, u, m))
                    | inl (contents, m) ↦ elim (Result-cases (S.get (str "config.json") w₂.store)) [
                      | inr (e, g) ↦ absurd (ground (arith, x, k, u, m, g))
                      | inl ((found, version), g) ↦
                          elim (Result-cases
                            (S.replace_if_version (str "config.json") contents version
                              w₂.store).0) [
                                | inr (e, p) ↦ absurd (ground (arith, x, k, u, m, g, p))
                                | inl (new, p) ↦ (
                                  contents,
                                  ground (arith, q, x, k, u, m, g, p),
                                  ground (
                                    arith,
                                    q,
                                    x,
                                    k,
                                    u,
                                    m,
                                    g,
                                    p,
                                    replace_stores contents version new w₂.store p,
                                  ),
                                )
                              ]
                    ]
                  ]
            ]
      ]
    ]

    -- The release of the lock leaves what a body has stored under another key.
    with_lock_stores :
        (stale : ℤ) (body : Action (World S) Repository) (w : World S) (r' : Repository)
        → ((w₁ : World S) → (body w₁).0 ≡ ok r' → IsStoredAt object r' (body w₁).1.store)
        → (with_lock S h stale body w).0 ≡ ok r'
        → IsStoredAt object r' (with_lock S h stale body w).1.store
    with_lock_stores stale body w r' k q = elim (Result-cases (acquire_write_lock S h stale w).0) [
      | inr (e, x) ↦ absurd (not_locked stale body w r' e x q)
      | inl (lock, x) ↦
          let w₁ = (acquire_write_lock S h stale w).1 in
          let a : acquire_write_lock S h stale w ≡ (ok lock, w₁) = ap (λ y. (y, w₁)) x in
          let run = with_lock_run S h stale body w w₁ lock a in
          let (contents, m, there) = k w₁ (rw run at q) in
          let (_, freed) =
            with_lock_other S object L h stale body (str "config.json") w w₁ lock lock_is_other a in
          (contents, m, freed ∙ there)
    ]

  -- When a repository that was opened changes its passphrase, its data key stays, its new configuration
  -- opens with the new passphrase to that key, and the store has the text of that configuration under
  -- config.json. The store is lawful, the host is faithful, base64 decoding undoes encoding, and derived
  -- keys have 32 bytes.
  pub open_encryption-rotate_passphrase :
      (object : S.State → Bytes → Option Bytes) (L : IsLawful S object) (r r' : Repository)
      (config : EncryptionConfig) (key old new : Bytes) (stale : ℤ) (w : World S)
      → r.config.encryption ≡ some config
      → r.key ≡ some key
      → open_encryption h (some config) old ≡ ok (some key)
      → (rotate_passphrase S h r new stale w).0 ≡ ok r'
      → (r'.key ≡ r.key)
        × (open_encryption h r'.config.encryption new ≡ ok (some key))
        × ((contents : Bytes) × (h.marshal_config r'.config ≡ ok contents)
            × (object (rotate_passphrase S h r new stale w).1.store (str "config.json")
                ≡ some contents))
  unfolding rotate_passphrase
  open_encryption-rotate_passphrase object L r r' config key old new stale w e k o q =
      let (n, found) = opened_check h B config old key o in
      let (check, t, c) = found in
      elim (Bool-cases (new == [])) [
        | inl x ↦ absurd (ground (arith, e, x))
        | inr x ↦
            let run : rotate_passphrase S h r new stale w
                ≡ with_lock S h stale (rewrap S h r config key new) w =
              rw (e, x, k) refl in
            let done : (with_lock S h stale (rewrap S h r config key new) w).0 ≡ ok r' =
              ap (λ y. y.0) (sym run) ∙ q in
            let (w₁, b) = with_lock_ok stale (rewrap S h r config key new) w r' done in
            let (same, opens) = rewrap_opens r r' config key new check w₁ x n t c b in
            let stored =
              with_lock_stores object L stale (rewrap S h r config key new) w r'
                (λ w₂. rewrap_stores object L r r' config key new w₂) done in
            (same, opens, rw run stored)
      ]
