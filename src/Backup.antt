-- ===== src/Backup.antt =====
-- internal/repository/repository.go: storeFileChunks and BackupWithOptions. One worker stores the
-- chunks of a file; the collection of its results is by sequence number, in whatever order they come.
pub mod Collect
pub mod Pieces
pub mod Run
use vestige.Prelude.{
  ℕ, zero, suc, ◌+◌, Bool, true, false, not, ◌&&◌, ◌||◌, Bytes, Option, none, some, List, [], ◌∷◌,
  ◌++◌, if◌then◌else◌, str, ◌==◌, nat_eq, length, lookup, put, has_prefix, sort, lt_bytes, is_empty,
  ℤ, pos, ltb_ℤ, map, set, replicate,
}
use vestige.Errors.{Error, Result, ok, err, message, wrap}
use vestige.Actions.{Action, ◌>>=◌, ◌>>◌, pure, raise, lift, wrapped, attempt, raise_if}
use vestige.Model.{
  Manifest, FileEntry, ChunkRef, ChunkingConfig, BackupStats, EntryType, file, directory, symlink,
  hardlink, Int64, add_int64, len64, format_version,
}
use vestige.Filter.{Matcher, new_matcher, include, excluded}
use vestige.Chunker.{Config, validate, Reader, State, split}
use vestige.Paths.{validate_path}
use vestige.Host.{Host}
use vestige.Store.{ObjectStore}
use vestige.Repository.{Repository, World}
use vestige.Chunks.{Stored, put_chunk}
use vestige.Snapshots.{publish_manifest}
use vestige.Lock.{with_lock, recover_staging}

pub record ChunkResult : Type 0 where
  pub sequence : ℕ
  pub ref : ChunkRef
  pub outcome : Result Stored

abbrev no_stats : BackupStats
no_stats = record {
  files = 0;
  logical_bytes = 0;
  chunks_created = 0;
  chunks_reused = 0;
  bytes_written = 0;
}

abbrev empty_ref : ChunkRef
empty_ref = record { id = []; size = 0 }

-- The goroutine that receives the results: the references by sequence number, the counts and the
-- first error.
pub record Collected : Type 0 where
  pub refs : List (ℕ × ChunkRef)
  pub stats : BackupStats
  pub error : Option Error

abbrev pub nothing_collected : Collected
nothing_collected = record { refs = []; stats = no_stats; error = none }

first_error : Option Error → Error → Option Error
first_error none e = some e
first_error (some x) e = some x

abbrev count_stored : Stored → BackupStats → BackupStats
count_stored s st =
    if s.created
    then record st {
      chunks_created = st.chunks_created + 1;
      bytes_written = add_int64 st.bytes_written s.stored_bytes;
    }
    else record st { chunks_reused = st.chunks_reused + 1 }

receive_outcome : Collected → ℕ → ChunkRef → Result Stored → Collected
unfolding first_error
receive_outcome c n ref (err e) = record c { error = first_error c.error e }
receive_outcome c n ref (ok s) = record c {
  refs = (n, ref) ∷ c.refs;
  stats = count_stored s c.stats;
}

unfoldable pub receive : Collected → List ChunkResult → Collected
unfolding receive_outcome
receive c [] = c
receive c (r ∷ rs) = receive (receive_outcome c r.sequence r.ref r.outcome) rs

-- `refs := make([]model.ChunkRef, next)` filled from the map.
unfoldable pub place : List (ℕ × ChunkRef) → List ChunkRef → List ChunkRef
place [] refs = refs
place ((n, ref) ∷ found) refs = set (place found refs) n ref

unfoldable pub in_order : ℕ → List (ℕ × ChunkRef) → List ChunkRef
unfolding place
in_order next found = place found (replicate next empty_ref)

module _ (S : ObjectStore) (h : Host) where
  -- A chunk is sent to the worker, which stores it and sends a result. The next sequence number is
  -- the number of results.
  result_of : ℕ → Bytes → Result Stored → ChunkResult
  result_of n contents (ok s) = record {
    sequence = n;
    ref = record { id = s.id; size = len64 contents };
    outcome = ok s;
  }
  result_of n contents (err e) = record {
    sequence = n;
    ref = record { id = []; size = len64 contents };
    outcome = err e;
  }

  unfoldable pub store_job : Repository → Bytes → Action (World S × List ChunkResult) (Unit {0})
  unfolding result_of
  store_job r contents (w, results) =
      let (stored, w') = put_chunk S h r contents w in
      (ok tt, (w', results ++ result_of (length results) contents stored ∷ []))

  finish_chunks : Result State → List ChunkResult → Result (List ChunkRef × BackupStats)
  unfolding receive in_order
  finish_chunks split_result results =
      let c = receive nothing_collected results in
      elim split_result [
        | err e ↦ err e
        | ok _ ↦ elim c.error [
          | some e ↦ err e
          | none ↦ ok (in_order (length results) c.refs, c.stats)
        ]
      ]

  unfoldable pub store_file_chunks :
      Repository → Reader → Config → Action (World S) (List ChunkRef × BackupStats)
  unfolding store_job finish_chunks
  store_file_chunks r input cfg w =
      let (split_result, (w', results)) = split (store_job r) cfg input (w, []) in
      (finish_chunks split_result results, w')

-- What the walk of the source finds, parents before their children: a path, or the error of
-- visiting it. A file has its size, permissions, time and hard link key at the walk, what reading it
-- gives or the error of opening it, what closing it gives, and the size and time after reading, or the
-- error of asking.
pub record FileInfo : Type 0 where
  pub size : Int64
  pub mode : ℕ
  pub modified_ns : Int64

pub data SourceEntry : Type 0 where
  link : Result Bytes → SourceEntry
  folder : FileInfo → SourceEntry
  regular : FileInfo → Bytes → Result Reader → Result (Unit {0}) → Result FileInfo → SourceEntry
  special : SourceEntry

pub record Visit : Type 0 where
  pub path : Bytes
  pub entry : Result SourceEntry

pub record FileJob : Type 0 where
  pub path : Bytes
  pub info : FileInfo
  pub opened : Result Reader
  pub closed : Result (Unit {0})
  pub after : Result FileInfo

-- The variables that the callback of the walk changes.
pub record Walk : Type 0 where
  pub fixed : List FileEntry
  pub jobs : List FileJob
  pub hardlinks : List (Bytes × Bytes)

abbrev fixed_entry : Bytes → EntryType → FileInfo → Bytes → FileEntry
fixed_entry path type info target = record {
  path = path;
  type = type;
  size = 0;
  mode = info.mode;
  modified_ns = info.modified_ns;
  chunks = [];
  link_target = target;
}

abbrev no_info : FileInfo
no_info = record { size = 0; mode = 0; modified_ns = 0 }

-- A regular file: a further name of a file that was seen is a hard link to its first name. An empty
-- key means that the system gives none.
add_regular :
    Bytes
    → FileInfo
    → Bytes
    → Result Reader
    → Result (Unit {0})
    → Result FileInfo
    → Option Bytes
    → Walk
    → Walk
add_regular path info key opened closed after (some first) wk = record wk {
  fixed = wk.fixed ++ fixed_entry path hardlink info first ∷ [];
}
add_regular path info key opened closed after none wk = record wk {
  jobs =
      wk.jobs
      ++ record { path = path; info = info; opened = opened; closed = closed; after = after } ∷ [];
  hardlinks = if key == [] then wk.hardlinks else put key path wk.hardlinks;
}

known_link : Bytes → List (Bytes × Bytes) → Option Bytes
known_link key links = if key == [] then none else lookup key links

module _ (glob : Bytes → Bytes → Result Bool) where
  -- The callback of the walk. The flag is fs.SkipDir.
  visit_entry : Matcher → Bytes → SourceEntry → Walk → Result (Walk × Bool)
  unfolding add_regular known_link
  visit_entry m path (link target) wk =
      if not (include glob m path) then ok (wk, false) else elim target [
        | err e ↦ err (wrap "read symlink" e)
        | ok text ↦
            ok (record wk { fixed = wk.fixed ++ fixed_entry path symlink no_info text ∷ [] }, false)
      ]
  visit_entry m path (folder info) wk =
      if excluded glob m path
      then ok (wk, true)
      else ok (record wk { fixed = wk.fixed ++ fixed_entry path directory info [] ∷ [] }, false)
  visit_entry m path (regular info key opened closed after) wk =
      if not (include glob m path)
      then ok (wk, false)
      else ok
          (add_regular path info key opened closed after (known_link key wk.hardlinks) wk, false)
  visit_entry m path special wk =
      if not (include glob m path) then ok (wk, false) else err (message "unsupported file type")

  visit : Matcher → Visit → Walk → Result (Walk × Bool)
  unfolding visit_entry
  visit m v wk = elim v.entry [
    | err e ↦ err e
    | ok entry ↦ elim (validate_path v.path) [
      | err e ↦ err e
      | ok _ ↦ visit_entry m v.path entry wk
    ]
  ]

  -- The walk; `skip` is the directory whose contents are passed over, if there is one.
  is_skipped : Option Bytes → Bytes → Bool
  unfolding str
  is_skipped none path = false
  is_skipped (some dir) path = has_prefix path (dir ++ str "/")

  unfoldable pub walk : Matcher → List Visit → Option Bytes → Walk → Result Walk
  unfolding visit is_skipped
  walk m [] skip wk = ok wk
  walk m (v ∷ vs) skip wk =
      if is_skipped skip v.path then walk m vs skip wk else elim (visit m v wk) [
        | err e ↦ err e
        | ok (wk', skip_dir) ↦ walk m vs (if skip_dir then some v.path else none) wk'
      ]
