-- ===== src/RestoreTree.antt =====
-- internal/repository/repository.go: RestoreWithOptions, on a repository and a file system. The
-- destination is what filepath.Abs and Clean give, or their error.
pub mod Below
pub mod Calls
pub mod Confined
pub mod Refusals
use vestige.Prelude.{
  ℕ, Bool, true, false, not, ◌&&◌, ◌||◌, Bytes, String, List, [], ◌∷◌, ◌++◌, if◌then◌else◌, str,
  ◌==◌, nat_eq, is_empty, has_prefix, split_on,
}
use vestige.Errors.{Error, Result, ok, err, message, wrap, is_not_exist}
use vestige.Actions.{Action, ◌>>=◌, ◌>>◌, pure, raise, lift, wrapped, attempt, raise_if}
use vestige.Model.{
  Manifest, FileEntry, ChunkRef, EntryType, file, directory, symlink, hardlink, unknown, Int64,
  add_int64, len64,
}
use vestige.Filter.{Matcher, new_matcher, include}
use vestige.Paths.{FilePath, clean_parts, pop_part, is_within, paths_overlap, safe_join}
use vestige.Host.{Host}
use vestige.Store.{ObjectStore}
use vestige.Repository.{Repository, World}
use vestige.Chunks.{read_chunk}
use vestige.Snapshots.{read_manifest}
use vestige.FileSystem.{FileSystem, child}

pub record RestoreOptions : Type 0 where
  pub includes : List Bytes
  pub overwrite : Bool
  pub clean_destination : Bool

-- filepath.Dir of a cleaned absolute path
abbrev pub dir : FilePath → FilePath
dir p = record { parts = pop_part p.parts }

-- `pathsOverlap(destination, text)`: between the absolute destination and a relative path filepath.Rel
-- fails, and neither is within the other.
unfoldable pub overlaps_text : FilePath → Bytes → Bool
unfolding paths_overlap clean_parts
overlaps_text p text =
    has_prefix text (str "/")
    && paths_overlap p (record { parts = clean_parts [] (split_on b'/' text) })

-- validateCleanDestination on a Unix system
unfoldable pub validate_clean_destination : Repository → FilePath → Bytes → Result (Unit {0})
unfolding overlaps_text
validate_clean_destination r destination source =
    if is_empty destination.parts
    then err (message "refusing to clean filesystem root")
    else if not r.remote && overlaps_text destination r.root
    then err (message "refusing to clean destination overlapping repository")
    else if not (source == []) && overlaps_text destination source
    then err (message "refusing to clean destination overlapping snapshot source")
    else ok tt

-- The entries that the include patterns select from, and the directories, which are left out when there
-- are patterns.
is_selectable : EntryType → Bool
is_selectable file = true
is_selectable symlink = true
is_selectable hardlink = true
is_selectable _ = false

is_directory : EntryType → Bool
is_directory directory = true
is_directory _ = false

module _ (glob : Bytes → Bytes → Result Bool) where
  unfoldable pub is_passed_over : RestoreOptions → Matcher → FileEntry → Bool
  unfolding is_selectable is_directory
  is_passed_over options m e =
      (is_selectable e.type && not (include glob m e.path))
      || (is_directory e.type && not (is_empty options.includes))

module _ (F : FileSystem) where
  unfoldable pub apply_metadata : FilePath → FileEntry → Action F.State (Unit {0})
  apply_metadata p e = do F.chmod p e.mode; F.chtimes p e.modified_ns

  -- os.Rename, and again after os.Remove if it fails
  pub replace_after : FilePath → FilePath → Result (Unit {0}) → Action F.State (Unit {0})
  replace_after source destination (ok _) = pure tt
  replace_after source destination (err _) = do F.remove destination; F.rename source destination

  unfoldable pub replace_file : FilePath → FilePath → Action F.State (Unit {0})
  unfolding replace_after
  replace_file source destination = do
    renamed ← attempt (F.rename source destination)
    replace_after source destination renamed

  pub remove_names : FilePath → List Bytes → Action F.State (Unit {0})
  remove_names p [] = pure tt
  remove_names p (name ∷ names) = do F.remove_all (child p name); remove_names p names

  unfoldable pub clean_directory : FilePath → Action F.State (Unit {0})
  unfolding remove_names
  clean_directory p = do names ← F.read_dir p; remove_names p names

  -- `_ = os.Remove(path)`, or a removal on an error path: the error is dropped.
  abbrev drop_error : {A : Type 0} → Action F.State A → Action F.State (Unit {0})
  drop_error m = do attempt m; pure tt

  pub remove_when : Bool → FilePath → Action F.State (Unit {0})
  remove_when b p = if b then drop_error (F.remove p) else pure tt

  -- A staged file goes, and the error is returned.
  pub give_up : {A : Type 0} → Bool → FilePath → Error → Action F.State A
  unfolding remove_when
  give_up temporary p e = do remove_when temporary p; raise e

  -- A step after which a staged file is removed if it fails.
  pub or_give_up : {A : Type 0} → Bool → FilePath → Result A → Action F.State A
  unfolding give_up
  or_give_up temporary p (ok a) = pure a
  or_give_up temporary p (err e) = give_up temporary p e

  -- The mode of a staged file; it is closed and removed if that fails.
  pub with_mode : FilePath → Result (Unit {0}) → Action F.State (Unit {0})
  unfolding give_up
  with_mode p (ok _) = pure tt
  with_mode p (err e) = do drop_error (F.close p); give_up true p e

  -- The file that is written: a staged one beside the path, or a new one at the path.
  unfoldable pub open_target : Bool → FilePath → ℕ → Action F.State FilePath
  unfolding with_mode
  open_target overwrite path mode =
      if overwrite
      then (do
        name ← F.create_temp (dir path)
        let staged = child (dir path) name
        moded ← attempt (F.chmod_open staged mode)
        with_mode staged moded
        pure staged)
      else (do F.open_new path mode; pure path)

  -- A staged file takes its place.
  pub put_in_place : Bool → FilePath → FilePath → Action F.State (Unit {0})
  unfolding replace_file or_give_up
  put_in_place temporary staged path =
      if temporary
      then (do
        replaced ← attempt (wrapped "replace restored file" (replace_file staged path))
        or_give_up true staged replaced)
      else pure tt

  unfoldable pub restore_symlink : Bool → FilePath → FileEntry → Action F.State (Unit {0})
  unfolding remove_when
  restore_symlink overwrite path e = do
    F.mkdir_all (dir path) 493
    remove_when overwrite path
    wrapped "restore symlink" (F.symlink e.link_target path)

  unfoldable pub restore_hardlink :
      Bool → FilePath → FilePath → FileEntry → Action F.State (Unit {0})
  unfolding remove_when
  restore_hardlink overwrite dest path e = do
    target ← wrapped "restore hard link" (lift (safe_join dest e.link_target))
    F.mkdir_all (dir path) 493
    remove_when overwrite path
    wrapped "restore hard link" (F.link target path)

  -- Every directory that was made gets its metadata, the last one first. The list is reversed.
  unfoldable pub finish_directories : List (FilePath × FileEntry) → Action F.State (Unit {0})
  unfolding apply_metadata
  finish_directories [] = pure tt
  finish_directories ((p, e) ∷ made) = do
    wrapped "restore metadata" (apply_metadata p e)
    finish_directories made

  clean_when : Repository → Bool → FilePath → Bytes → Action F.State (Unit {0})
  unfolding validate_clean_destination clean_directory
  clean_when r wanted dest source =
      if wanted
      then (do
        lift (validate_clean_destination r dest source)
        wrapped "clean restore destination" (clean_directory dest))
      else pure tt

  -- What os.Stat says of the destination.
  prepare_found : Repository → RestoreOptions → FilePath → Bytes → Bool → Action F.State (Unit {0})
  unfolding clean_when
  prepare_found r options dest source is_dir = do
    raise_if (not options.overwrite) "restore destination already exists"
    raise_if (not is_dir) "restore destination is not a directory"
    clean_when r options.clean_destination dest source

  prepare : Repository → RestoreOptions → FilePath → Bytes → Result Bool → Action F.State (Unit {0})
  unfolding prepare_found
  prepare r options dest source (ok is_dir) = prepare_found r options dest source is_dir
  prepare r options dest source (err e) =
      if not (is_not_exist e)
      then raise e
      else if options.clean_destination
      then raise (message "clean restore destination must already exist")
      else pure tt

module _ (S : ObjectStore) (h : Host) (F : FileSystem) where
  abbrev pub Restoring : Type 0
  Restoring = World S × F.State

  abbrev pub on_repository : {A : Type 0} → Action (World S) A → Action Restoring A
  on_repository m (w, s) = let (r, w') = m w in (r, (w', s))

  abbrev pub on_files : {A : Type 0} → Action F.State A → Action Restoring A
  on_files m (w, s) = let (r, s') = m s in (r, (w, s'))

  -- The loop over the chunks of a file.
  unfoldable pub write_refs : Repository → FilePath → List ChunkRef → Int64 → Action Restoring Int64
  write_refs r p [] written = pure written
  write_refs r p (ref ∷ refs) written = do
    contents ← on_repository (wrapped "restore" (read_chunk S h r ref.id))
    raise_if (not (nat_eq (len64 contents) ref.size)) "chunk has unexpected size"
    n ← on_files (F.write p contents)
    write_refs r p refs (add_int64 written n)

  -- After the loop: the file is closed, and a staged one is removed, if it has failed.
  after_writing : Bool → FilePath → Result Int64 → Action Restoring Int64
  after_writing temporary p (ok written) = do
    closed ← on_files (attempt (F.close p))
    on_files (or_give_up F temporary p closed)
    pure written
  after_writing temporary p (err e) = do
    on_files (drop_error F (F.close p))
    on_files (give_up F temporary p e)

  check_written : Bool → FilePath → FileEntry → Int64 → Action Restoring (Unit {0})
  check_written temporary p e written =
      if nat_eq written e.size
      then pure tt
      else on_files (give_up F temporary p (message "wrote an unexpected number of bytes"))

  -- The contents and the metadata of the opened file, which then takes its place.
  write_target : Repository → Bool → FilePath → FilePath → FileEntry → Action Restoring (Unit {0})
  unfolding write_refs after_writing check_written apply_metadata or_give_up put_in_place
  write_target r overwrite target path e = do
    looped ← attempt (write_refs r target e.chunks 0)
    written ← after_writing overwrite target looped
    check_written overwrite target e written
    marked ← on_files (attempt (wrapped "restore metadata" (apply_metadata F target e)))
    on_files (or_give_up F overwrite target marked)
    on_files (put_in_place F overwrite target path)

  -- A regular file, and what has another type than the code names.
  unfoldable pub restore_regular :
      Repository → Bool → FilePath → FileEntry → Action Restoring (Unit {0})
  unfolding open_target write_target
  restore_regular r overwrite path e = do
    on_files (F.mkdir_all (dir path) 493)
    target ← on_files (open_target F overwrite path e.mode)
    write_target r overwrite target path e

  restore_typed :
      Repository
      → RestoreOptions
      → FilePath
      → FilePath
      → FileEntry
      → EntryType
      → List (FilePath × FileEntry)
      → Action Restoring (List (FilePath × FileEntry))
  unfolding restore_symlink restore_hardlink restore_regular
  restore_typed r options dest path e directory made = do
    on_files (F.mkdir_all path e.mode)
    pure ((path, e) ∷ made)
  restore_typed r options dest path e symlink made = do
    on_files (restore_symlink F options.overwrite path e)
    pure made
  restore_typed r options dest path e hardlink made = do
    on_files (restore_hardlink F options.overwrite dest path e)
    pure made
  restore_typed r options dest path e file made = do
    restore_regular r options.overwrite path e
    pure made
  restore_typed r options dest path e (unknown t) made = do
    restore_regular r options.overwrite path e
    pure made

  -- The loop over the entries, with the directories made so far, the last one first.
  unfoldable pub restore_entries :
      Repository
      → RestoreOptions
      → Matcher
      → FilePath
      → List FileEntry
      → List (FilePath × FileEntry)
      → Action Restoring (List (FilePath × FileEntry))
  unfolding restore_typed is_passed_over
  restore_entries r options m dest [] made = pure made
  restore_entries r options m dest (e ∷ es) made = elim (is_passed_over h.glob options m e) [
    | true ↦ restore_entries r options m dest es made
    | false ↦ do
      path ← lift (safe_join dest e.path)
      made' ← restore_typed r options dest path e e.type made
      restore_entries r options m dest es made'
  ]

  -- From the question whether the destination is there.
  restore_at :
      Repository
      → RestoreOptions
      → Matcher
      → FilePath
      → Bytes
      → List FileEntry
      → Action Restoring (Unit {0})
  unfolding prepare restore_entries finish_directories
  restore_at r options path_filter dest source entries = do
    on_files (do
      found ← attempt (F.stat dest)
      prepare F r options dest source found
      F.mkdir_all dest 493)
    made ← restore_entries r options path_filter dest entries []
    on_files (finish_directories F made)

  unfoldable pub restore_with_options :
      Repository → Bytes → Result FilePath → RestoreOptions → Action Restoring (Unit {0})
  unfolding restore_at
  restore_with_options r id destination options = do
    path_filter ← lift (new_matcher h.glob options.includes [])
    m ← on_repository (read_manifest S h r id)
    dest ← lift destination
    raise_if (options.clean_destination && not options.overwrite)
        "clean destination requires overwrite"
    restore_at r options path_filter dest m.source m.files
