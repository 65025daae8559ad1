-- ===== src/Host.antt =====
-- Code outside the repository that it calls, as one record of functions: crypto, compression, JSON,
-- time, path.Match, the random source and the process identifier. Nothing is assumed of them here.
use vestige.Prelude.{ℕ, Bool, Bytes}
use vestige.Errors.{Result}
use vestige.Model.{RepositoryConfig, Manifest}

-- The JSON object of a lock file (writeLockInfo of internal/repository/lock.go).
pub record LockInfo : Type 0 where
  pub pid : ℕ
  pub created_at : Bytes

pub record Host : Type 0 where
  pub sha256 : Bytes → Bytes
  -- passphrase, salt, iterations
  pub pbkdf2 : Bytes → Bytes → ℕ → Result Bytes
  -- aes.NewCipher and cipher.NewGCM on a key; Seal and Open by key, nonce, data and additional data
  pub new_cipher : Bytes → Result (Unit {0})
  pub gcm_seal : Bytes → Bytes → Bytes → Bytes → Bytes
  pub gcm_open : Bytes → Bytes → Bytes → Bytes → Result Bytes
  pub zstd_encode : Bytes → Bytes
  pub zstd_decode : Bytes → Result Bytes
  pub gzip_encode : Bytes → Result Bytes
  pub gzip_decode : Bytes → Result Bytes
  pub base64_encode : Bytes → Bytes
  pub base64_decode : Bytes → Result Bytes
  pub marshal_config : RepositoryConfig → Result Bytes
  pub unmarshal_config : Bytes → Result RepositoryConfig
  pub marshal_manifest : Manifest → Result Bytes
  pub unmarshal_manifest : Bytes → Result Manifest
  pub marshal_lock : LockInfo → Result Bytes
  pub unmarshal_lock : Bytes → Result LockInfo
  -- instants are nanoseconds
  pub format_time : ℕ → Bytes
  pub parse_time : Bytes → Result ℕ
  pub utc_day : ℕ → Bytes
  pub iso_week : ℕ → Bytes
  pub glob : Bytes → Bytes → Result Bool
  -- the n-th read of the random source, of a number of bytes
  pub entropy : ℕ → ℕ → Result Bytes
  pub process_id : ℕ
