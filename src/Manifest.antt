-- ===== src/Manifest.antt =====
-- internal/repository/repository.go: validateManifest, and the names of manifests.
pub mod Valid
use vestige.Prelude.{
  Bool, true, false, not, ◌&&◌, ◌||◌, Bytes, List, [], ◌∷◌, ◌++◌, nat_eq, if◌then◌else◌, str, ◌==◌,
  contains, contains_any, trim_space,
}
use vestige.Errors.{Result, ok, err, message, fail_if, ◌>>=◌, ◌>>◌, is_ok}
use vestige.Model.{
  Manifest, FileEntry, ChunkRef, EntryType, file, directory, symlink, hardlink, unknown, Int64,
  add_int64, is_negative, format_version,
}
use vestige.Paths.{validate_path, is_chunk_id, chunk_path}

unfoldable pub is_bad_label : Bytes → Bytes → Bool
unfolding str
is_bad_label key value =
    trim_space key == []
    || trim_space value == []
    || contains_any key (str "=\r\n")
    || contains_any value (str "\r\n")

unfoldable pub check_labels : List (Bytes × Bytes) → Result (Unit {0})
unfolding is_bad_label
check_labels [] = ok tt
check_labels ((key, value) ∷ rest) = do
  fail_if (is_bad_label key value) "invalid snapshot label"
  check_labels rest

-- The loop over `e.Chunks`, with `total`.
unfoldable pub sum_chunks : Int64 → List ChunkRef → Result Int64
sum_chunks total [] = ok total
sum_chunks total (ref ∷ refs) = do
  fail_if (not (is_ok (chunk_path ref.id)) || is_negative ref.size) "invalid chunk"
  sum_chunks (add_int64 total ref.size) refs

check_type : EntryType → Result (Unit {0})
check_type (unknown t) = err (message "invalid entry type")
check_type _ = ok tt

-- The tests that depend on the entry's type.
check_content : EntryType → FileEntry → Result (Unit {0})
check_content file e = do
  total ← sum_chunks 0 e.chunks
  fail_if (not (nat_eq total e.size)) "incorrect size"
check_content hardlink e = elim (validate_path e.link_target) [
  | ok _ ↦ ok tt
  | err _ ↦ err (message "invalid hard link target")
]
check_content symlink e = fail_if (e.link_target == []) "empty symlink target"
check_content _ e = ok tt

unfoldable pub check_entry : List Bytes → FileEntry → Result (Unit {0})
unfolding check_type check_content
check_entry seen e = do
  validate_path e.path
  fail_if (contains seen e.path) "duplicate manifest path"
  check_type e.type
  check_content e.type e

unfoldable pub check_entries : List Bytes → List FileEntry → Result (Unit {0})
check_entries seen [] = ok tt
check_entries seen (e ∷ es) = do check_entry seen e; check_entries (seen ++ e.path ∷ []) es

unfoldable pub validate_manifest : Manifest → Result (Unit {0})
unfolding check_labels check_entries
validate_manifest m = do
  fail_if (not (nat_eq m.format_version format_version) || m.snapshot_id == [])
      "unsupported or incomplete manifest"
  check_labels m.labels
  check_entries [] m.files
