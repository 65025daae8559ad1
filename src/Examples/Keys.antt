-- ===== src/Examples/Keys.antt =====
-- A configuration that is made, and one whose passphrase changes.
use vestige.Prelude.{
  ◌≡◌, refl, arith, ℕ, zero, suc, ◌≤◌, ◌+◌, false, none, some, Option, Bytes, List, [], ◌∷◌, ◌++◌,
  length, length-append, take, replicate, str, pos, ◌==◌, All,
}
use vestige.Errors.{ok}
use vestige.Model.{EncryptionConfig, plain}
use vestige.Store.{StoredObject}
use vestige.Store.Local.{local_store}
use vestige.Store.Local.Laws.{file_at, local_store-IsLawful}
use vestige.Host.{Host}
use vestige.Codec.RoundTrip.{IsFaithful}
use vestige.Repository.{Repository, World}
use vestige.Encryption.{
  encryption_algorithm, passphrase_kdf, key_check_plaintext, open_encryption, configure_encryption,
  rotate_passphrase,
}
use vestige.Encryption.Reopening.{
  IsCoding, open_encryption-configure_encryption, open_encryption-rotate_passphrase,
}
use vestige.Snapshots.{read_manifest, read_manifest_within, snapshot_of_key}
use vestige.Snapshots.Fuel.{IsNotLatest, read_manifest_within-read_manifest}
use vestige.Examples.{pad, toy_host, toy_host-IsFaithful, world, length-replicate}
use vestige.Examples.Files.{
  hello_host, hello_world, hello_entries, manifests_listed, plain_repository,
}

length-take : (n : ℕ) (xs : Bytes) → n ≤ length xs → length (take n xs) ≡ n
length-take zero xs h = refl
length-take (suc n) [] h = absurd (omega (arith, h))
length-take (suc n) (x ∷ xs) h = omega (arith, length-take n xs (omega (arith, h)))

length-pad : (d : Bytes) → length (pad d) ≡ 32
length-pad d =
    length-take 32 (d ++ replicate 32 0)
      (omega (arith, length-append d (replicate 32 0), length-replicate 32))

ok_padded : {a b : Bytes} → ok a ≡ ok b → a ≡ b
ok_padded p = cc

toy_host-IsCoding : IsCoding toy_host
toy_host-IsCoding = record {
  base64_round = λ d. refl;
  base64_empty = λ d e. e;
  pbkdf2_length = λ passphrase salt key n e. rw (← ok_padded e) (length-pad passphrase);
}

abbrev data_key : Bytes
data_key = replicate 32 0

abbrev made : EncryptionConfig
made = record {
  algorithm = encryption_algorithm;
  kdf = passphrase_kdf;
  iterations = 600000;
  salt = replicate 32 0;
  wrapped_key = replicate 28 0 ++ data_key;
  key_check = replicate 28 0 ++ key_check_plaintext;
}

configured :
    (configure_encryption (local_store pad) toy_host (str "old") world).0 ≡ ok (made, data_key)
unfolding configure_encryption vestige.Codec.seal
configured = refl

old_given : (str "old" == []) ≡ false
unfolding str vestige.Prelude.Bytes-discrete
old_given = refl

open_encryption-configure_encryption_example :
    open_encryption toy_host (some made) (str "old") ≡ ok (some data_key)
open_encryption-configure_encryption_example =
    open_encryption-configure_encryption (local_store pad) toy_host toy_host-IsFaithful
      toy_host-IsCoding (str "old") data_key made world old_given configured

abbrev encrypted_repository : Repository
encrypted_repository = record {
  root = str "/repo";
  remote = false;
  config = record { format_version = 1; compression = plain; encryption = some made };
  key = some data_key;
}

-- A host whose random bytes differ from read to read, and whose text of a configuration is its salt.
abbrev drawing_host : Host
drawing_host = record toy_host {
  entropy = λ n size. ok (replicate size n);
  marshal_config = λ c. ok (elim c.encryption [ none ↦ [] | some e ↦ e.salt ]);
}

length-replicate_of : (x n : ℕ) → length (replicate {A = ℕ} n x) ≡ n
length-replicate_of x zero = refl
length-replicate_of x (suc n) = omega (arith, length-replicate_of x n)

drawing_host-IsFaithful : IsFaithful drawing_host
drawing_host-IsFaithful = record {
  zstd_round = toy_host-IsFaithful.zstd_round;
  gzip_round = toy_host-IsFaithful.gzip_round;
  gcm_round = toy_host-IsFaithful.gcm_round;
  gcm_length = toy_host-IsFaithful.gcm_length;
  entropy_length = λ n size b p. rw (← ok_padded p) (length-replicate_of n size);
}

drawing_host-IsCoding : IsCoding drawing_host
drawing_host-IsCoding = record {
  base64_round = toy_host-IsCoding.base64_round;
  base64_empty = toy_host-IsCoding.base64_empty;
  pbkdf2_length = toy_host-IsCoding.pbkdf2_length;
}

abbrev configured_world : World (local_store pad)
configured_world = record world {
  store = record { files = (str "config.json", []) ∷ []; fails = λ c key. none };
  draws = 5;
}

abbrev rewrapped : EncryptionConfig
rewrapped = record made {
  salt = replicate 32 5;
  wrapped_key = replicate 12 6 ++ replicate 16 0 ++ data_key;
}

abbrev rotated_repository : Repository
rotated_repository = record encrypted_repository {
  config = record { format_version = 1; compression = plain; encryption = some rewrapped };
}

old_opens_drawn : open_encryption drawing_host (some made) (str "old") ≡ ok (some data_key)
unfolding open_encryption vestige.Prelude.Bytes-discrete str vestige.Codec.open_sealed
old_opens_drawn = refl

rotated :
    (rotate_passphrase
      (local_store pad)
      drawing_host
      encrypted_repository
      (str "new")
      (pos 0)
      configured_world).0
    ≡ ok rotated_repository
unfolding rotate_passphrase vestige.Prelude.Bytes-discrete str vestige.Lock.with_lock
    vestige.Lock.acquire_write_lock vestige.Lock.acquire_loop vestige.Store.Local.put_if_absent
    vestige.Prelude.has_prefix vestige.Prelude.has_byte vestige.Prelude.split_on
    vestige.Prelude.lookup vestige.Codec.seal vestige.Store.Local.get vestige.Prelude.put
    vestige.Store.Local.replace_if_version vestige.Paths.hex_encode
rotated = refl

open_encryption-rotate_passphrase_example :
    (rotated_repository.key ≡ encrypted_repository.key)
    × (open_encryption drawing_host rotated_repository.config.encryption (str "new")
        ≡ ok (some data_key))
    × ((contents : Bytes) × (drawing_host.marshal_config rotated_repository.config ≡ ok contents)
        × (file_at
              (rotate_passphrase
                (local_store pad)
                drawing_host
                encrypted_repository
                (str "new")
                (pos 0)
                configured_world).1.store
              (str "config.json")
            ≡ some contents))
open_encryption-rotate_passphrase_example =
    open_encryption-rotate_passphrase (local_store pad) drawing_host drawing_host-IsFaithful
      drawing_host-IsCoding file_at (local_store-IsLawful pad) encrypted_repository
      rotated_repository made data_key (str "old") (str "new") (pos 0) configured_world refl refl
      old_opens_drawn rotated

-- The snapshots of the disk with one are not called "latest".
ok_objects : {a b : List StoredObject} → ok a ≡ ok b → a ≡ b
ok_objects p = cc

some_injective : {a b : Bytes} → some a ≡ some b → a ≡ b
some_injective p = cc

hello_named : snapshot_of_key plain_repository (str "snapshots/s1/manifest.json") ≡ some (str "s1")
unfolding snapshot_of_key vestige.Prelude.split_on vestige.Prelude.Bytes-discrete
hello_named = refl

s1_not_latest : (str "s1" == str "latest") ≡ false
unfolding str vestige.Prelude.Bytes-discrete
s1_not_latest = refl

entries-IsNotLatest : All (IsNotLatest plain_repository) hello_entries
entries-IsNotLatest = ((λ id q. rw (← some_injective (rw hello_named at q)) s1_not_latest), tt)

read_manifest_within-read_manifest_example :
    read_manifest_within (local_store pad) hello_host plain_repository 9 (str "latest") hello_world
    ≡ read_manifest (local_store pad) hello_host plain_repository (str "latest") hello_world
read_manifest_within-read_manifest_example =
    read_manifest_within-read_manifest (local_store pad) hello_host plain_repository 7
      (str "latest") hello_world
      (λ objects q. rw (← ok_objects (rw manifests_listed at q)) entries-IsNotLatest)
