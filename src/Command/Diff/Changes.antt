-- ===== src/Command/Diff/Changes.antt =====
-- What `vestige diff` reports of a path, by the entries of the two snapshots.
use vestige.Prelude.{
  ◌≡◌, refl, arith, Bool, true, false, not, ◌&&◌, ◌||◌, Bytes, Option, none, some, List, [], ◌∷◌,
  ◌++◌, if◌then◌else◌, ◌==◌, contains, contains-append, contains-sort, select, lookup, put,
  lookup-put, keys, contains-keys, is_some, sort-Distinct, lt_bytes, Distinct, ◌⊎◌, inl, inr, ◌∙◌,
  Bool-cases, ap,
}
use vestige.Model.{EntryType, file, directory, symlink, hardlink, unknown, FileEntry, ChunkRef}
use vestige.Command.Diff.{
  Change, added, deleted, modified, put_entries, entry_map, same_type, same_chunks, same_entry,
  change_of, all_paths, report, print_change, diff,
}

-- The last entry with a path.
pub last_entry : Bytes → List FileEntry → Option FileEntry
last_entry p [] = none
last_entry p (e ∷ es) =
    let rest = last_entry p es in
    if is_some rest then rest else if e.path == p then some e else none

or_else : Option FileEntry → Option FileEntry → Option FileEntry
or_else none b = b
or_else (some a) b = some a

or_else-none : (a : Option FileEntry) → or_else a none ≡ a
unfolding or_else
or_else-none none = refl
or_else-none (some a) = refl

lookup-put_entries :
    (p : Bytes) (es : List FileEntry) (d : List (Bytes × FileEntry))
    → lookup p (put_entries es d) ≡ or_else (last_entry p es) (lookup p d)
unfolding put_entries last_entry or_else
lookup-put_entries p [] d = refl
lookup-put_entries p (e ∷ es) d =
    ground (arith, lookup-put_entries p es (put e.path e d), lookup-put e.path p e d)

lookup-report :
    (old new : List (Bytes × FileEntry)) (p : Bytes) (ps : List Bytes)
    → lookup p (report old new ps)
      ≡ (if contains ps p then change_of (lookup p old) (lookup p new) else none)
unfolding report print_change lookup
lookup-report old new p [] = refl
lookup-report old new p (q ∷ ps) = ground (arith, lookup-report old new p ps)

contains-select :
    (f : Bytes → Bool) (xs : List Bytes) (p : Bytes)
    → contains (select f xs) p ≡ (f p && contains xs p)
contains-select f [] p = ground arith
contains-select f (x ∷ xs) p = ground (arith, contains-select f xs p)

contains-all_paths :
    (old new : List (Bytes × FileEntry)) (p : Bytes)
    → contains (all_paths old new) p ≡ (is_some (lookup p old) || is_some (lookup p new))
unfolding all_paths
contains-all_paths old new p = ground (
  arith,
  contains-sort lt_bytes (keys old ++ select (λ p. not (contains (keys old) p)) (keys new)) p,
  contains-append (keys old) (select (λ p. not (contains (keys old) p)) (keys new)) p,
  contains-select (λ p. not (contains (keys old) p)) (keys new) p,
  contains-keys p old,
  contains-keys p new,
)

-- The same in what the command compares: the contents, not the time and not the target of a link.
pub record IsSame (a b : FileEntry) : Type 0 where
  pub type : a.type ≡ b.type
  pub size : a.size ≡ b.size
  pub mode : a.mode ≡ b.mode
  pub chunks : a.chunks ≡ b.chunks

same_type_sound : (a b : EntryType) → same_type a b ≡ true → a ≡ b
unfolding same_type
same_type_sound file file h = refl
same_type_sound file directory h = absurd (ground arith)
same_type_sound file symlink h = absurd (ground arith)
same_type_sound file hardlink h = absurd (ground arith)
same_type_sound file (unknown v) h = absurd (ground arith)
same_type_sound directory file h = absurd (ground arith)
same_type_sound directory directory h = refl
same_type_sound directory symlink h = absurd (ground arith)
same_type_sound directory hardlink h = absurd (ground arith)
same_type_sound directory (unknown v) h = absurd (ground arith)
same_type_sound symlink file h = absurd (ground arith)
same_type_sound symlink directory h = absurd (ground arith)
same_type_sound symlink symlink h = refl
same_type_sound symlink hardlink h = absurd (ground arith)
same_type_sound symlink (unknown v) h = absurd (ground arith)
same_type_sound hardlink file h = absurd (ground arith)
same_type_sound hardlink directory h = absurd (ground arith)
same_type_sound hardlink symlink h = absurd (ground arith)
same_type_sound hardlink hardlink h = refl
same_type_sound hardlink (unknown v) h = absurd (ground arith)
same_type_sound (unknown u) file h = absurd (ground arith)
same_type_sound (unknown u) directory h = absurd (ground arith)
same_type_sound (unknown u) symlink h = absurd (ground arith)
same_type_sound (unknown u) hardlink h = absurd (ground arith)
same_type_sound (unknown u) (unknown v) h = ap unknown (ground arith)

same_type_refl : (a : EntryType) → same_type a a ≡ true
unfolding same_type
same_type_refl file = refl
same_type_refl directory = refl
same_type_refl symlink = refl
same_type_refl hardlink = refl
same_type_refl (unknown t) = ground arith

same_chunks_sound : (xs ys : List ChunkRef) → same_chunks xs ys ≡ true → xs ≡ ys
unfolding same_chunks
same_chunks_sound [] [] h = refl
same_chunks_sound [] (y ∷ ys) h = absurd (ground arith)
same_chunks_sound (x ∷ xs) [] h = absurd (ground arith)
same_chunks_sound (x ∷ xs) (y ∷ ys) h =
    let ids : x.id ≡ y.id = ground arith in
    let sizes : x.size ≡ y.size = ground arith in
    let rest : xs ≡ ys = same_chunks_sound xs ys (ground arith) in cc

same_chunks_refl : (xs : List ChunkRef) → same_chunks xs xs ≡ true
unfolding same_chunks
same_chunks_refl [] = refl
same_chunks_refl (x ∷ xs) = ground (arith, same_chunks_refl xs)

-- What is right to report of a path, by its last entries.
abbrev pub IsChange : Option FileEntry → Option FileEntry → Option Change → Type 0
IsChange none none c = c ≡ none
IsChange none (some b) c = c ≡ some added
IsChange (some a) none c = c ≡ some deleted
IsChange (some a) (some b) c = (IsSame a b × (c ≡ none)) ⊎ ((IsSame a b → ⊥) × (c ≡ some modified))

same_entry-IsSame : (a b : FileEntry) → same_entry a b ≡ true → IsSame a b
unfolding same_entry
same_entry-IsSame a b h = record {
  type = same_type_sound a.type b.type (ground arith);
  size = ground arith;
  mode = ground arith;
  chunks = same_chunks_sound a.chunks b.chunks (ground arith);
}

IsSame-same_entry : (a b : FileEntry) → IsSame a b → same_entry a b ≡ true
unfolding same_entry
IsSame-same_entry a b s =
    rw (s.type, s.size, s.mode, s.chunks)
      (ground (arith, same_type_refl b.type, same_chunks_refl b.chunks))

change_of_right :
    (a b : Option FileEntry) → (is_some a || is_some b) ≡ true → IsChange a b (change_of a b)
unfolding change_of
change_of_right none none h = absurd (ground arith)
change_of_right none (some b) h = refl
change_of_right (some a) none h = refl
change_of_right (some a) (some b) h = elim (Bool-cases (same_entry a b)) [
  | inl t ↦ inl (same_entry-IsSame a b t, rw t refl)
  | inr f ↦ inr (λ s. absurd (ground (arith, IsSame-same_entry a b s)), rw f refl)
]

lookup-entry_map : (p : Bytes) (es : List FileEntry) → lookup p (entry_map es) ≡ last_entry p es
unfolding entry_map lookup
lookup-entry_map p es = ground (arith, lookup-put_entries p es [], or_else-none (last_entry p es))

reported :
    (a b : Option FileEntry) (c : Option Change)
    → c ≡ (if is_some a || is_some b then change_of a b else none)
    → IsChange a b c
reported none none c e = e
reported none (some b) c e = e ∙ change_of_right none (some b) refl
reported (some a) none c e = e ∙ change_of_right (some a) none refl
reported (some a) (some b) c e = rw e (change_of_right (some a) (some b) refl)

diff_right :
    (old new : List FileEntry) (p : Bytes)
    → IsChange (last_entry p old) (last_entry p new) (lookup p (diff old new))
unfolding diff
diff_right old new p = reported _ _ _ (
    rw
      (
        lookup-report (entry_map old) (entry_map new) p (all_paths (entry_map old) (entry_map new)),
        contains-all_paths (entry_map old) (entry_map new) p,
        lookup-entry_map p old,
        lookup-entry_map p new,
      )
      refl)

-- No path twice.
contains-put :
    (q p : Bytes) (e : FileEntry) (d : List (Bytes × FileEntry))
    → contains (keys (put p e d)) q ≡ (q == p || contains (keys d) q)
contains-put q p e d =
    ground (arith, contains-keys q (put p e d), contains-keys q d, lookup-put p q e d)

put-Distinct :
    (p : Bytes) (e : FileEntry) (d : List (Bytes × FileEntry))
    → Distinct (keys d)
    → Distinct (keys (put p e d))
unfolding put keys
put-Distinct p e [] h = (refl, tt)
put-Distinct p e ((q, x) ∷ d) (n, h) = elim (Bool-cases (q == p)) [
  | inl t ↦ rw t (ground (arith, n), h)
  | inr f ↦ rw f (ground (arith, contains-put q p e d, n), put-Distinct p e d h)
]

put_entries-Distinct :
    (es : List FileEntry) (d : List (Bytes × FileEntry))
    → Distinct (keys d)
    → Distinct (keys (put_entries es d))
unfolding put_entries
put_entries-Distinct [] d h = h
put_entries-Distinct (e ∷ es) d h =
    put_entries-Distinct es (put e.path e d) (put-Distinct e.path e d h)

entry_map-Distinct : (es : List FileEntry) → Distinct (keys (entry_map es))
unfolding entry_map keys
entry_map-Distinct es = put_entries-Distinct es [] tt

select-Distinct : (f : Bytes → Bool) (xs : List Bytes) → Distinct xs → Distinct (select f xs)
select-Distinct f [] h = tt
select-Distinct f (x ∷ xs) (n, h) = elim (Bool-cases (f x)) [
  | inl t ↦ rw t (ground (arith, contains-select f xs x, n), select-Distinct f xs h)
  | inr e ↦ rw e (select-Distinct f xs h)
]

append-Distinct :
    (xs ys : List Bytes)
    → Distinct xs
    → Distinct ys
    → ((p : Bytes) → contains xs p ≡ true → contains ys p ≡ false)
    → Distinct (xs ++ ys)
append-Distinct [] ys h k f = k
append-Distinct (x ∷ xs) ys (n, h) k f = (
  ground (arith, contains-append xs ys x, n, f x),
  append-Distinct xs ys h k (λ p q. f p (ground (arith, q))),
)

printed-Distinct :
    (p : Bytes) (c : Option Change) (rest : List (Bytes × Change))
    → contains (keys rest) p ≡ false
    → Distinct (keys rest)
    → Distinct (keys (print_change p c rest))
unfolding print_change keys
printed-Distinct p none rest n h = h
printed-Distinct p (some c) rest n h = (n, h)

report-Distinct :
    (old new : List (Bytes × FileEntry)) (ps : List Bytes)
    → Distinct ps
    → Distinct (keys (report old new ps))
unfolding report keys
report-Distinct old new [] h = tt
report-Distinct old new (p ∷ ps) (n, h) =
    printed-Distinct p (change_of (lookup p old) (lookup p new)) (report old new ps)
      (ground (arith, contains-keys p (report old new ps), lookup-report old new p ps, n))
      (report-Distinct old new ps h)

-- For each path, `vestige diff` reports what its last entries in the two snapshots say: added, deleted,
-- modified in type, size, mode or chunks, or nothing; and it reports no path twice.
pub diff_lem :
    (old new : List FileEntry)
    → ((p : Bytes) → IsChange (last_entry p old) (last_entry p new) (lookup p (diff old new)))
      × Distinct (keys (diff old new))
unfolding diff all_paths
diff_lem old new = (
  diff_right old new,
  report-Distinct (entry_map old) (entry_map new) _ (
      sort-Distinct lt_bytes _ (
        append-Distinct (keys (entry_map old)) _ (entry_map-Distinct old)
          (select-Distinct _ _ (entry_map-Distinct new))
          (λ p t. ground (
            arith,
            contains-select (λ q. not (contains (keys (entry_map old)) q)) (keys (entry_map new)) p,
          )))),
)
