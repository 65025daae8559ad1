-- ===== src/Command/Find.antt =====
-- cmd/vestige/find.go: the entries of a snapshot whose path matches a pattern, and the files that refer
-- to a chunk. What is printed is the state.
pub mod Matches
use vestige.Prelude.{
  ℕ, ◌+◌, Bool, true, false, Bytes, List, [], ◌∷◌, ◌++◌, if◌then◌else◌, nat_eq, is_empty, map,
}
use vestige.Errors.{Result, ok, err, message, wrapping}
use vestige.Actions.{Action, ◌>>=◌, ◌>>◌, pure, raise, lift, raise_if}
use vestige.Model.{FileEntry, Int64, is_file}
use vestige.Host.{Host}
use vestige.Store.{ObjectStore}
use vestige.Repository.{Repository, World}
use vestige.Snapshots.{read_manifest, files_referencing_chunk}

pub data Line : Type 0 where
  file_line : Int64 → Bytes → Line
  directory_line : Bytes → Line

-- Every entry that is no regular file is printed as a directory.
unfoldable pub line_of : FileEntry → Line
line_of e = if is_file e.type then file_line e.size e.path else directory_line e.path

abbrev pub print : Line → Action (List Line) (Unit {0})
print l out = (ok tt, out ++ l ∷ [])

module _ (glob : Bytes → Bytes → Result Bool) where
  print_when : Bool → FileEntry → Action (List Line) ℕ
  unfolding line_of
  print_when b e = if b then (do print (line_of e); pure 1) else pure 0

  -- The loop over the entries, with the number of matches.
  unfoldable pub print_matches : Bytes → List FileEntry → ℕ → Action (List Line) ℕ
  unfolding print_when
  print_matches pattern [] matched = pure matched
  print_matches pattern (e ∷ es) matched = do
    b ← lift (wrapping "invalid glob" (glob pattern e.path))
    n ← print_when b e
    print_matches pattern es (matched + n)

  unfoldable pub find_paths : Bytes → List FileEntry → Action (List Line) (Unit {0})
  unfolding print_matches
  find_paths pattern es = do
    matched ← print_matches pattern es 0
    raise_if (nat_eq matched 0) "no paths matched"

module _ (S : ObjectStore) (h : Host) where
  abbrev on_world : {A : Type 0} → Action (World S) A → Action (World S × List Line) A
  on_world m (w, out) = let (r, w') = m w in (r, (w', out))

  abbrev on_printed : {A : Type 0} → Action (List Line) A → Action (World S × List Line) A
  on_printed m (w, out) = let (r, out') = m out in (r, (w, out'))

  print_files : List FileEntry → Action (List Line) (Unit {0})
  print_files [] = pure tt
  print_files (e ∷ es) = do print (file_line e.size e.path); print_files es

  -- With a chunk identifier, and without one.
  unfoldable pub find_chunk : Repository → Bytes → Bytes → Action (World S × List Line) (Unit {0})
  unfolding print_files
  find_chunk r id chunk = do
    files ← on_world (files_referencing_chunk S h r id chunk)
    raise_if (is_empty files) "no files reference chunk"
    on_printed (print_files files)

  unfoldable pub find : Repository → Bytes → Bytes → Action (World S × List Line) (Unit {0})
  unfolding find_paths
  find r id pattern = do
    m ← on_world (read_manifest S h r id)
    on_printed (find_paths h.glob pattern m.files)
