-- ===== src/Command/Diff.antt =====
-- cmd/vestige/diff.go: the entries that differ between two snapshots. The order in which Go walks over
-- a map is not fixed; the paths are different and are sorted, so it does not matter.
pub mod Changes
use vestige.Prelude.{
  Bool, true, false, not, ◌&&◌, Bytes, Option, none, some, List, [], ◌∷◌, ◌++◌, if◌then◌else◌, ◌==◌,
  nat_eq, contains, select, lookup, put, keys, sort, lt_bytes,
}
use vestige.Errors.{Result}
use vestige.Actions.{Action, ◌>>=◌, pure}
use vestige.Model.{FileEntry, ChunkRef, EntryType, file, directory, symlink, hardlink, unknown}
use vestige.Host.{Host}
use vestige.Store.{ObjectStore}
use vestige.Repository.{Repository, World}
use vestige.Snapshots.{read_manifest}

pub data Change : Type 0 where
  added deleted modified : Change

-- The last entry with a path stays.
put_entries : List FileEntry → List (Bytes × FileEntry) → List (Bytes × FileEntry)
put_entries [] out = out
put_entries (e ∷ es) out = put_entries es (put e.path e out)

unfoldable pub entry_map : List FileEntry → List (Bytes × FileEntry)
unfolding put_entries
entry_map es = put_entries es []

same_type : EntryType → EntryType → Bool
same_type file file = true
same_type directory directory = true
same_type symlink symlink = true
same_type hardlink hardlink = true
same_type (unknown a) (unknown b) = a == b
same_type _ _ = false

-- The lengths and the references.
same_chunks : List ChunkRef → List ChunkRef → Bool
same_chunks [] [] = true
same_chunks (a ∷ xs) (b ∷ ys) = a.id == b.id && nat_eq a.size b.size && same_chunks xs ys
same_chunks _ _ = false

unfoldable pub same_entry : FileEntry → FileEntry → Bool
unfolding same_type same_chunks
same_entry a b =
    same_type a.type b.type
    && nat_eq a.size b.size
    && nat_eq a.mode b.mode
    && same_chunks a.chunks b.chunks

-- The case for one path.
unfoldable pub change_of : Option FileEntry → Option FileEntry → Option Change
unfolding same_entry
change_of none (some new) = some added
change_of none none = some added
change_of (some old) none = some deleted
change_of (some old) (some new) = if same_entry old new then none else some modified

-- The keys of the older map, and those of the newer map that are not there.
unfoldable pub all_paths : List (Bytes × FileEntry) → List (Bytes × FileEntry) → List Bytes
all_paths old new = sort lt_bytes (keys old ++ select (λ p. not (contains (keys old) p)) (keys new))

print_change : Bytes → Option Change → List (Bytes × Change) → List (Bytes × Change)
print_change p none rest = rest
print_change p (some c) rest = (p, c) ∷ rest

-- The loop over the paths, with what is printed.
unfoldable pub report :
    List (Bytes × FileEntry) → List (Bytes × FileEntry) → List Bytes → List (Bytes × Change)
unfolding change_of print_change
report old new [] = []
report old new (p ∷ ps) =
    print_change p (change_of (lookup p old) (lookup p new)) (report old new ps)

unfoldable pub diff : List FileEntry → List FileEntry → List (Bytes × Change)
unfolding entry_map all_paths report
diff old new = report (entry_map old) (entry_map new) (all_paths (entry_map old) (entry_map new))

module _ (S : ObjectStore) (h : Host) where
  -- The changes that are printed; "no changes" if there is none.
  unfoldable pub run_diff : Repository → Bytes → Bytes → Action (World S) (List (Bytes × Change))
  unfolding diff
  run_diff r older newer = do
    a ← read_manifest S h r older
    b ← read_manifest S h r newer
    pure (diff a.files b.files)
