-- ===== src/FileSystem.antt =====
-- The calls of the package os that RestoreWithOptions makes (internal/repository/repository.go), as one
-- record of operations over a state, which also those that only read may change: a state may record
-- the calls. An open file is known by its path. Nothing is assumed here.
use vestige.Prelude.{◌≡◌, ℕ, Bool, Bytes, List, ◌++◌, [], ◌∷◌}
use vestige.Actions.{Action}
use vestige.Actions.Maintains.{Maintains}
use vestige.Model.{Int64}
use vestige.Paths.{FilePath}

pub record FileSystem : Type 1 where
  pub State : Type 0
  -- os.Stat: whether the path is a directory
  pub stat : FilePath → Action State Bool
  pub mkdir_all : FilePath → ℕ → Action State (Unit {0})
  -- os.CreateTemp in a directory: the name of the new file
  pub create_temp : FilePath → Action State Bytes
  -- os.OpenFile with O_WRONLY, O_CREATE and O_EXCL
  pub open_new : FilePath → ℕ → Action State (Unit {0})
  -- Chmod, Write and Close of an open file
  pub chmod_open : FilePath → ℕ → Action State (Unit {0})
  pub write : FilePath → Bytes → Action State ℕ
  pub close : FilePath → Action State (Unit {0})
  pub remove : FilePath → Action State (Unit {0})
  pub remove_all : FilePath → Action State (Unit {0})
  -- os.ReadDir: the names in a directory
  pub read_dir : FilePath → Action State (List Bytes)
  -- os.Symlink and os.Link of a target at a path, os.Rename from a path to another
  pub symlink : Bytes → FilePath → Action State (Unit {0})
  pub link : FilePath → FilePath → Action State (Unit {0})
  pub rename : FilePath → FilePath → Action State (Unit {0})
  pub chmod : FilePath → ℕ → Action State (Unit {0})
  pub chtimes : FilePath → Int64 → Action State (Unit {0})

-- A name in a directory.
abbrev pub child : FilePath → Bytes → FilePath
child dir name = record { parts = dir.parts ++ name ∷ [] }

-- The first path is the second or below it, by components.
abbrev pub IsBelow : FilePath → FilePath → Type 0
IsBelow p base = (rest : List Bytes) × (p.parts ≡ base.parts ++ rest)

-- Every call on paths at or below a base maintains the predicate. The target of a symbolic link may be
-- any text.
pub record StaysBelow (F : FileSystem) (base : FilePath) (P : F.State → Type 0) : Type 0 where
  pub stat : (p : FilePath) → IsBelow p base → Maintains P (F.stat p)
  pub mkdir_all : (p : FilePath) (mode : ℕ) → IsBelow p base → Maintains P (F.mkdir_all p mode)
  pub create_temp : (p : FilePath) → IsBelow p base → Maintains P (F.create_temp p)
  pub open_new : (p : FilePath) (mode : ℕ) → IsBelow p base → Maintains P (F.open_new p mode)
  pub chmod_open : (p : FilePath) (mode : ℕ) → IsBelow p base → Maintains P (F.chmod_open p mode)
  pub write : (p : FilePath) (d : Bytes) → IsBelow p base → Maintains P (F.write p d)
  pub close : (p : FilePath) → IsBelow p base → Maintains P (F.close p)
  pub remove : (p : FilePath) → IsBelow p base → Maintains P (F.remove p)
  pub remove_all : (p : FilePath) → IsBelow p base → Maintains P (F.remove_all p)
  pub read_dir : (p : FilePath) → IsBelow p base → Maintains P (F.read_dir p)
  pub symlink : (target : Bytes) (p : FilePath) → IsBelow p base → Maintains P (F.symlink target p)
  pub link : (q p : FilePath) → IsBelow q base → IsBelow p base → Maintains P (F.link q p)
  pub rename : (q p : FilePath) → IsBelow q base → IsBelow p base → Maintains P (F.rename q p)
  pub chmod : (p : FilePath) (mode : ℕ) → IsBelow p base → Maintains P (F.chmod p mode)
  pub chtimes : (p : FilePath) (t : Int64) → IsBelow p base → Maintains P (F.chtimes p t)
