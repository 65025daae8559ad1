-- ===== src/Examples/Commands.antt =====
-- The commands at concrete inputs.
use vestige.Prelude.{
  ◌≡◌, refl, Bool, true, false, Option, none, some, Bytes, List, [], ◌∷◌, map, select, is_empty,
  if◌then◌else◌, str, lookup, keys, Distinct, ◌==◌, All,
}
use vestige.Errors.{ok}
use vestige.Model.{FileEntry, file, symlink}
use vestige.Command.Diff.{added, deleted, modified, diff}
use vestige.Command.Diff.Changes.{IsChange, last_entry, diff_lem}
use vestige.Command.Labels.{parse_labels, split_tags}

abbrev entry : Bytes → Bytes → FileEntry
entry path id = record {
  path = path;
  type = file;
  size = 1;
  mode = 420;
  modified_ns = 0;
  chunks = record { id = id; size = 1 } ∷ [];
  link_target = [];
}

abbrev older : List FileEntry
older = entry (str "b") (str "1") ∷ entry (str "a") (str "1") ∷ []

abbrev newer : List FileEntry
newer = entry (str "b") (str "2") ∷ entry (str "c") (str "1") ∷ []

-- The changes stand in the order of the paths.
diff_run : diff older newer ≡ (str "a", deleted) ∷ (str "b", modified) ∷ (str "c", added) ∷ []
unfolding diff vestige.Prelude.sort keys vestige.Prelude.put vestige.Prelude.Bytes-discrete str
    vestige.Prelude.lt_bytes lookup
diff_run = refl

diff_example :
    ((p : Bytes) → IsChange (last_entry p older) (last_entry p newer) (lookup p (diff older newer)))
    × Distinct (keys (diff older newer))
diff_example = diff_lem older newer

-- A link whose target has changed is not reported.
abbrev link_to : Bytes → FileEntry
link_to target = record {
  path = str "l";
  type = symlink;
  size = 0;
  mode = 511;
  modified_ns = 0;
  chunks = [];
  link_target = target;
}

links_run : diff (link_to (str "x") ∷ []) (link_to (str "y") ∷ []) ≡ []
unfolding diff vestige.Prelude.sort keys vestige.Prelude.put vestige.Prelude.Bytes-discrete str
    lookup
links_run = refl

abbrev two_labels : List (Bytes × Bytes)
two_labels = (str "env", str "prod") ∷ (str "host", str "a=b") ∷ []

labels_run : parse_labels (str "env=prod, host = a=b ") ≡ ok two_labels
unfolding parse_labels vestige.Prelude.Bytes-discrete vestige.Prelude.trim_space
    vestige.Prelude.split_on vestige.Prelude.contains_any lookup vestige.Prelude.put
labels_run = refl

tags_run : split_tags (str "a, ,b") ≡ str "a" ∷ str "b" ∷ []
unfolding split_tags vestige.Prelude.Bytes-discrete str vestige.Prelude.split_on
    vestige.Prelude.trim_space
tags_run = refl
