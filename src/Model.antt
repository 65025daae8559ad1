-- ===== src/Model.antt =====
-- internal/model/model.go: the records of the on-disk format. Strings and byte slices are lists of
-- bytes; an `int64` is its bit pattern, a number below 2 ^ 64; maps are association lists.
use vestige.Prelude.{ℕ, ◌+◌, ◌%◌, ◌^◌, Bool, true, false, leb, Bytes, List, Option, length}
use vestige.Prelude.{ℤ}

abbrev pub format_version : ℕ
format_version = 1

abbrev pub Int64 : Type 0
Int64 = ℕ

-- `a + b` and `a < 0` on int64.
unfoldable pub add_int64 : Int64 → Int64 → Int64
add_int64 a b = (a + b) % 2 ^ 64

unfoldable pub is_negative : Int64 → Bool
is_negative a = leb (2 ^ 63) a

-- int64(len(b))
abbrev pub len64 : Bytes → Int64
len64 b = length b % 2 ^ 64

-- The compression policies that the code names, the empty string (`unset`), and any other text.
pub data Compression : Type 0 where
  unset plain gzip zstd : Compression
  other : Bytes → Compression

pub record EncryptionConfig : Type 0 where
  pub algorithm : Bytes
  pub kdf : Bytes
  pub iterations : ℕ
  pub salt : Bytes
  pub wrapped_key : Bytes
  pub key_check : Bytes

pub record RepositoryConfig : Type 0 where
  pub format_version : ℕ
  pub compression : Compression
  pub encryption : Option EncryptionConfig

pub record ChunkingConfig : Type 0 where
  pub algorithm : Bytes
  pub window : ℤ
  pub min_size : ℤ
  pub target_size : ℤ
  pub max_size : ℤ

pub record ChunkRef : Type 0 where
  pub id : Bytes
  pub size : Int64

-- The entry types that the code names, and any other text.
pub data EntryType : Type 0 where
  file directory symlink hardlink : EntryType
  unknown : Bytes → EntryType

pub record FileEntry : Type 0 where
  pub path : Bytes
  pub type : EntryType
  pub size : Int64
  pub mode : ℕ
  pub modified_ns : Int64
  pub chunks : List ChunkRef
  pub link_target : Bytes

abbrev pub is_file : EntryType → Bool
is_file file = true
is_file _ = false

pub record Manifest : Type 0 where
  pub format_version : ℕ
  pub snapshot_id : Bytes
  pub created_at : Bytes
  pub source : Bytes
  pub description : Bytes
  pub tags : List Bytes
  pub labels : List (Bytes × Bytes)
  pub includes : List Bytes
  pub excludes : List Bytes
  pub chunking : ChunkingConfig
  pub files : List FileEntry

pub record BackupStats : Type 0 where
  pub files : ℕ
  pub logical_bytes : Int64
  pub chunks_created : ℕ
  pub chunks_reused : ℕ
  pub bytes_written : Int64
