-- ===== src/Manifest/Valid.antt =====
-- What a manifest that passes validation satisfies.
use vestige.Prelude.{
  Distinct, contains-append, inl, inr, str, trim_space, contains_any, ℕ, ◌+◌, ◌%◌, ◌^◌, ◌<◌, ◌≡◌,
  refl, ◌↔◌, ◌⊎◌, true, false, Bytes, List, [], ◌∷◌, ◌++◌, map, arith, contains, All,
}
use vestige.Errors.{Error, Result-cases, ok, err}
use vestige.Model.{
  Manifest, FileEntry, ChunkRef, EntryType, file, directory, symlink, hardlink, unknown, add_int64,
  is_negative,
}
use vestige.Paths.{validate_path, is_chunk_id, chunk_path}
use vestige.Manifest.{
  check_labels, sum_chunks, check_type, check_content, check_entry, check_entries,
  validate_manifest,
}

-- The sum of the sizes as whole numbers.
abbrev pub total_size : List ChunkRef → ℕ
total_size [] = 0
total_size (ref ∷ refs) = ref.size + total_size refs

abbrev pub IsGoodRef : ChunkRef → Type 0
IsGoodRef ref = (is_chunk_id ref.id ≡ true) × (ref.size < 2 ^ 63)

abbrev pub IsGoodContent : EntryType → FileEntry → Type 0
IsGoodContent file e = All IsGoodRef e.chunks × (total_size e.chunks % 2 ^ 64 ≡ e.size)
IsGoodContent directory e = Unit
IsGoodContent symlink e = e.link_target ≡ [] → ⊥
IsGoodContent hardlink e = validate_path e.link_target ≡ ok tt
IsGoodContent (unknown t) e = ⊥

abbrev pub IsGoodEntry : FileEntry → Type 0
IsGoodEntry e = (validate_path e.path ≡ ok tt) × IsGoodContent e.type e

abbrev pub IsGoodLabel : Bytes × Bytes → Type 0
IsGoodLabel (key, value) =
    (trim_space key ≡ [] → ⊥)
    × (trim_space value ≡ [] → ⊥)
    × (contains_any key (str "=\r\n") ≡ false)
    × (contains_any value (str "\r\n") ≡ false)

-- Version 1 with an identifier, good labels, good entries, and no path twice.
pub record IsValid (m : Manifest) : Type 0 where
  pub version : m.format_version ≡ 1
  pub named : m.snapshot_id ≡ [] → ⊥
  pub labels : All IsGoodLabel m.labels
  pub entries : All IsGoodEntry m.files
  pub distinct : Distinct (map (λ (e : FileEntry). e.path) m.files)

sum_chunks_sound :
    (total t : ℕ) (refs : List ChunkRef)
    → total < 2 ^ 64
    → sum_chunks total refs ≡ ok t
    → All IsGoodRef refs × ((total + total_size refs) % 2 ^ 64 ≡ t)
unfolding sum_chunks chunk_path add_int64 is_negative
sum_chunks_sound total t [] b h = ground arith
sum_chunks_sound total t (ref ∷ refs) b h =
    ground (arith, sum_chunks_sound (add_int64 total ref.size) t refs)

sum_chunks_complete :
    (total : ℕ) (refs : List ChunkRef)
    → total < 2 ^ 64
    → All IsGoodRef refs
    → sum_chunks total refs ≡ ok ((total + total_size refs) % 2 ^ 64)
unfolding sum_chunks chunk_path add_int64 is_negative
sum_chunks_complete total [] b h = ground arith
sum_chunks_complete total (ref ∷ refs) b h =
    ground (arith, sum_chunks_complete (add_int64 total ref.size) refs)

check_content_sound :
    (t : EntryType) (e : FileEntry)
    → check_type t ≡ ok tt
    → check_content t e ≡ ok tt
    → IsGoodContent t e
unfolding check_content check_type
check_content_sound file e a h = elim (Result-cases (sum_chunks 0 e.chunks)) [
  | inl (t, q) ↦ ground (arith, sum_chunks_sound 0 t e.chunks (omega arith) q)
  | inr (x, q) ↦ ground arith
]
check_content_sound _ e a h = ground arith

check_content_complete :
    (t : EntryType) (e : FileEntry)
    → IsGoodContent t e
    → (check_type t ≡ ok tt) × (check_content t e ≡ ok tt)
unfolding check_content check_type
check_content_complete file e h = ground (arith, sum_chunks_complete 0 e.chunks (omega arith) h.0)
check_content_complete _ e h = ground arith

check_entry_sound :
    (seen : List Bytes) (e : FileEntry)
    → check_entry seen e ≡ ok tt
    → IsGoodEntry e × (contains seen e.path ≡ false)
unfolding check_entry
check_entry_sound seen e h = ground (arith, check_content_sound e.type e)

check_entry_complete :
    (seen : List Bytes) (e : FileEntry)
    → IsGoodEntry e
    → contains seen e.path ≡ false
    → check_entry seen e ≡ ok tt
unfolding check_entry
check_entry_complete seen e h k = ground (arith, check_content_complete e.type e h.1)

abbrev paths : List FileEntry → List Bytes
paths = map (λ (e : FileEntry). e.path)

-- None of the entries has a path among those.
abbrev IsFresh : List Bytes → List FileEntry → Type 0
IsFresh seen es = All (λ (e : FileEntry). contains seen e.path ≡ false) es

IsFresh-before :
    (seen : List Bytes) (p : Bytes) (es : List FileEntry)
    → IsFresh (seen ++ p ∷ []) es
    → IsFresh seen es × (contains (paths es) p ≡ false)
IsFresh-before seen p [] h = (tt, refl)
IsFresh-before seen p (e ∷ es) h =
    ground (arith, contains-append seen (p ∷ []) e.path, IsFresh-before seen p es h.1)

IsFresh-after :
    (seen : List Bytes) (p : Bytes) (es : List FileEntry)
    → IsFresh seen es
    → contains (paths es) p ≡ false
    → IsFresh (seen ++ p ∷ []) es
IsFresh-after seen p [] h k = tt
IsFresh-after seen p (e ∷ es) h k =
    ground (arith, contains-append seen (p ∷ []) e.path, IsFresh-after seen p es h.1)

check_entries_sound :
    (seen : List Bytes) (es : List FileEntry)
    → check_entries seen es ≡ ok tt
    → All IsGoodEntry es × Distinct (paths es) × IsFresh seen es
unfolding check_entries
check_entries_sound seen [] h = (tt, tt, tt)
check_entries_sound seen (e ∷ es) h =
    sound (Result-cases (check_entry seen e)) (check_entries_sound (seen ++ e.path ∷ []) es)
  where
    sound :
        ((a : Unit {0}) × (check_entry seen e ≡ ok a))
          ⊎ ((x : Error) × (check_entry seen e ≡ err x))
        → (check_entries (seen ++ e.path ∷ []) es ≡ ok tt
            → All IsGoodEntry es × Distinct (paths es) × IsFresh (seen ++ e.path ∷ []) es)
        → All IsGoodEntry (e ∷ es) × Distinct (paths (e ∷ es)) × IsFresh seen (e ∷ es)
    sound (inl (_, q)) ih =
        let r = ih (ground arith) in
        let f = IsFresh-before seen e.path es r.2 in ground (arith, check_entry_sound seen e q)
    sound (inr (x, q)) ih = absurd (ground arith)

check_entries_complete :
    (seen : List Bytes) (es : List FileEntry)
    → All IsGoodEntry es
    → Distinct (paths es)
    → IsFresh seen es
    → check_entries seen es ≡ ok tt
unfolding check_entries
check_entries_complete seen [] h d f = refl
check_entries_complete seen (e ∷ es) h d f =
    rw (check_entry_complete seen e h.0 f.0) (
      check_entries_complete (seen ++ e.path ∷ []) es h.1 d.1
        (IsFresh-after seen e.path es f.1 d.0))

check_labels_sound : (ls : List (Bytes × Bytes)) → check_labels ls ≡ ok tt → All IsGoodLabel ls
unfolding check_labels
check_labels_sound [] h = tt
check_labels_sound ((k, v) ∷ ls) h = ground (arith, check_labels_sound ls)

check_labels_complete : (ls : List (Bytes × Bytes)) → All IsGoodLabel ls → check_labels ls ≡ ok tt
unfolding check_labels
check_labels_complete [] h = refl
check_labels_complete ((k, v) ∷ ls) h = ground (arith, check_labels_complete ls h.1)

IsFresh-nil : (es : List FileEntry) → IsFresh [] es
IsFresh-nil [] = tt
IsFresh-nil (e ∷ es) = (refl, IsFresh-nil es)

-- Validation accepts a manifest exactly when it is valid. The size of a file is compared with the
-- sum of its chunks' sizes as 64-bit integers.
pub validate_manifest_lem : (m : Manifest) → (validate_manifest m ≡ ok tt) ↔ IsValid m
unfolding validate_manifest
validate_manifest_lem m = (
  λ h.
      let e = check_entries_sound [] m.files (ground arith) in
      record {
        version = ground arith;
        named = ground arith;
        labels = check_labels_sound m.labels (ground arith);
        entries = e.0;
        distinct = e.1;
      },
  λ v. ground (
    arith,
    check_labels_complete m.labels v.labels,
    check_entries_complete [] m.files v.entries v.distinct (IsFresh-nil m.files),
  ),
)
