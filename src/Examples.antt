-- ===== src/Examples.antt =====
-- Concrete inputs at which the theorems apply: a local disk without faults, and a host whose
-- functions are simple ones with the properties that are relied on.
mod Backups
mod Buckets
mod Commands
mod Copies
mod Trees
mod Files
mod Keys
mod Kits
mod Locks
mod Prunes
mod Runs
mod Streams
use vestige.Prelude.{
  ◌≡◌, refl, ℕ, zero, suc, ◌+◌, Bytes, Option, none, some, Bool, true, false, List, [], ◌∷◌, ◌++◌,
  length, take, drop, replicate, str, arith, pos, ◌==◌,
}
use vestige.Errors.{Result, ok, err}
use vestige.Model.{Manifest, FileEntry, ChunkRef, RepositoryConfig, plain, zstd, file}
use vestige.Host.{Host}
use vestige.Store.Local.{Disk, local_store}
use vestige.Repository.{Repository, World}
use vestige.Codec.RoundTrip.{IsFaithful}

-- Not a hash, but 32 bytes.
abbrev pub pad : Bytes → Bytes
pad d = take 32 (d ++ replicate 32 0)

abbrev pub sample : Manifest
sample = record {
  format_version = 1;
  snapshot_id = str "s1";
  created_at = [];
  source = [];
  description = [];
  tags = [];
  labels = [];
  includes = [];
  excludes = [];
  chunking = record {
    algorithm = [];
    window = pos 1;
    min_size = pos 1;
    target_size = pos 1;
    max_size = pos 1;
  };
  files =
      record {
        path = str "a/b";
        type = file;
        size = 0;
        mode = 420;
        modified_ns = 0;
        chunks = [];
        link_target = [];
      }
      ∷ [];
}

abbrev pub toy_host : Host
toy_host = record {
  sha256 = pad;
  pbkdf2 = λ passphrase salt n. ok (pad passphrase);
  new_cipher = λ key. ok tt;
  gcm_seal = λ key nonce d aad. replicate 16 0 ++ d;
  gcm_open = λ key nonce d aad. ok (drop 16 d);
  zstd_encode = λ d. d;
  zstd_decode = λ d. ok d;
  gzip_encode = λ d. ok d;
  gzip_decode = λ d. ok d;
  base64_encode = λ d. d;
  base64_decode = λ d. ok d;
  marshal_config = λ c. ok [];
  unmarshal_config = λ d. ok (record { format_version = 1; compression = zstd; encryption = none });
  marshal_manifest = λ m. ok (1 ∷ []);
  unmarshal_manifest = λ d. ok sample;
  marshal_lock = λ l. ok (2 ∷ []);
  unmarshal_lock = λ d. ok (record { pid = 1; created_at = [] });
  format_time = λ t. [];
  parse_time = λ d. ok 0;
  utc_day = λ t. [];
  iso_week = λ t. [];
  glob = λ pattern name. ok (pattern == name);
  entropy = λ n size. ok (replicate size 0);
  process_id = 1;
}

pub length-replicate : (n : ℕ) → length (replicate {A = ℕ} n 0) ≡ n
length-replicate zero = refl
length-replicate (suc n) = omega (arith, length-replicate n)

ok_injective : {a b : Bytes} → ok a ≡ ok b → a ≡ b
ok_injective p = cc

pub toy_host-IsFaithful : IsFaithful toy_host
toy_host-IsFaithful = record {
  zstd_round = λ d. refl;
  gzip_round = λ d e p. cc;
  gcm_round = λ key nonce d aad. refl;
  gcm_length = λ key nonce d aad. omega arith;
  entropy_length = λ n size b p. rw (← ok_injective p) (length-replicate size);
}

abbrev pub disk : Disk
disk = record { files = []; fails = λ c key. none }

abbrev pub world : World (local_store pad)
world = record {
  store = disk;
  draws = 0;
  now = 0;
  staging = ok [];
  checkpoint = record { contents = none; write_fault = none; remove_fault = none };
}

-- An encrypted repository with compression.
abbrev pub repository : Repository
repository = record {
  root = str "/repo";
  remote = false;
  config = record { format_version = 1; compression = zstd; encryption = none };
  key = some (replicate 32 7);
}
