-- ===== src/Command/Labels.antt =====
-- cmd/vestige/backup.go: the labels, tags and patterns of the command line, and the test that the
-- repository is not in the source directory.
use vestige.Prelude.{
  ℕ, Bool, true, false, not, ◌||◌, Bytes, List, [], ◌∷◌, if◌then◌else◌, nat_eq, str, ◌==◌, split_on,
  trim_space, contains_any, lookup, put, is_some, select, map,
}
use vestige.Errors.{Result, ok, fail_if, ◌>>=◌, ◌>>◌}
use vestige.Paths.{FilePath, is_within}

-- strings.Cut by a byte
unfoldable pub cut : ℕ → Bytes → Bytes × Bytes × Bool
cut sep [] = ([], [], false)
cut sep (c ∷ s) =
    let (before, after, found) = cut sep s in
    if nat_eq c sep then ([], s, true) else (c ∷ before, after, found)

-- One part, with the labels so far.
unfoldable pub parse_label : Bytes → List (Bytes × Bytes) → Result (List (Bytes × Bytes))
unfolding cut str
parse_label part labels =
    let (before, after, found) = cut b'=' part in
    let key = trim_space before in
    let value = trim_space after in
    do
      fail_if
          (not found
            || key == []
            || value == []
            || contains_any key (str "\r\n")
            || contains_any value (str "\r\n"))
          "invalid label"
      fail_if (is_some (lookup key labels)) "duplicate label key"
      ok (put key value labels)

unfoldable pub parse_parts : List Bytes → List (Bytes × Bytes) → Result (List (Bytes × Bytes))
unfolding parse_label
parse_parts [] labels = ok labels
parse_parts (part ∷ parts) labels = do labels' ← parse_label part labels; parse_parts parts labels'

unfoldable pub parse_labels : Bytes → Result (List (Bytes × Bytes))
unfolding parse_parts
parse_labels value = if trim_space value == [] then ok [] else parse_parts (split_on b',' value) []

-- The parts that are not empty when trimmed.
unfoldable pub split_tags : Bytes → List Bytes
split_tags value =
    if value == []
    then []
    else select (λ tag. not (tag == [])) (map trim_space (split_on b',' value))

-- Whether the absolute path of the repository is within that of the source, where both are known.
unfoldable pub repo_inside_source : Result FilePath → Result FilePath → Bool
repo_inside_source (ok repo) (ok source) = is_within repo source
repo_inside_source _ _ = false
