-- ===== src/RestoreTree/Refusals.antt =====
-- What RestoreWithOptions refuses before it changes a file.
use vestige.Prelude.{
  Bool-cases, inl, inr, ◌&&◌, ◌≡◌, refl, arith, Bool, true, false, not, Bytes, [], ◌==◌, is_empty,
}
use vestige.Errors.{Error, Result, ok, err, message, Result-cases, is_not_exist}
use vestige.Filter.{new_matcher}
use vestige.Model.{Manifest}
use vestige.Paths.{FilePath}
use vestige.Host.{Host}
use vestige.Store.{ObjectStore}
use vestige.Repository.{Repository, World}
use vestige.Snapshots.{read_manifest}
use vestige.FileSystem.{FileSystem}
use vestige.RestoreTree.{
  RestoreOptions, overlaps_text, validate_clean_destination, clean_when, prepare_found, prepare,
  restore_at, restore_with_options,
}

-- The reasons to refuse a destination, by the options and by what os.Stat says of it.
pub data IsRefused (F : FileSystem) (r : Repository) (options : RestoreOptions) (dest : FilePath)
    (source : Bytes) (s : F.State) : Type 0 where
  is_present :
      (d : Bool)
      → (F.stat dest s).0 ≡ ok d
      → options.overwrite ≡ false
      → IsRefused F r options dest source s
  is_no_directory : (F.stat dest s).0 ≡ ok false → IsRefused F r options dest source s
  is_unreadable :
      (e : Error)
      → (F.stat dest s).0 ≡ err e
      → is_not_exist e ≡ false
      → IsRefused F r options dest source s
  is_clean_alone :
      options.clean_destination ≡ true
      → options.overwrite ≡ false
      → IsRefused F r options dest source s
  is_clean_missing :
      (e : Error)
      → options.clean_destination ≡ true
      → (F.stat dest s).0 ≡ err e
      → IsRefused F r options dest source s
  is_clean_root :
      options.clean_destination ≡ true
      → is_empty dest.parts ≡ true
      → IsRefused F r options dest source s
  is_clean_repository :
      options.clean_destination ≡ true
      → r.remote ≡ false
      → overlaps_text dest r.root ≡ true
      → IsRefused F r options dest source s
  is_clean_source :
      options.clean_destination ≡ true
      → (source == []) ≡ false
      → overlaps_text dest source ≡ true
      → IsRefused F r options dest source s

-- The action fails and the file system stays as it is.
abbrev FailsAt : {S A : Type 0} → (S → Result A × S) → S → Type 0
FailsAt m s = (e : Error) × (m s ≡ (err e, s))

module _ (F : FileSystem) (r : Repository) (options : RestoreOptions) (dest : FilePath)
    (source : Bytes) (s : F.State) where
  root_fails : is_empty dest.parts ≡ true → FailsAt (clean_when F r true dest source) s
  unfolding clean_when validate_clean_destination
  root_fails e = (message "refusing to clean filesystem root", rw e refl)

  repository_fails :
      r.remote ≡ false
      → overlaps_text dest r.root ≡ true
      → FailsAt (clean_when F r true dest source) s
  unfolding clean_when validate_clean_destination
  repository_fails e o = elim (Bool-cases (is_empty dest.parts)) [
    | inl t ↦ root_fails t
    | inr f ↦ (message "refusing to clean destination overlapping repository", rw (f, e, o) refl)
  ]

  source_fails :
      (source == []) ≡ false
      → overlaps_text dest source ≡ true
      → FailsAt (clean_when F r true dest source) s
  unfolding clean_when validate_clean_destination
  source_fails n o = elim (Bool-cases (is_empty dest.parts)) [
    | inl t ↦ root_fails t
    | inr f ↦ elim (Bool-cases (not r.remote && overlaps_text dest r.root)) [
      | inl t ↦ (message "refusing to clean destination overlapping repository", rw (f, t) refl)
      | inr g ↦ (
        message "refusing to clean destination overlapping snapshot source",
        rw (f, g, n, o) refl,
      )
    ]
  ]

  -- What is left to refuse of a directory that may be overwritten.
  abbrev IsCleanRefused : Bool → Type 0
  IsCleanRefused b =
      options.overwrite ≡ true
      → b ≡ true
      → (options.clean_destination ≡ true) × FailsAt (clean_when F r true dest source) s

  found_fails : (b : Bool) → IsCleanRefused b → FailsAt (prepare_found F r options dest source b) s
  unfolding prepare_found
  found_fails b k = elim (Bool-cases options.overwrite) [
    | inr f ↦ (message "restore destination already exists", rw f refl)
    | inl t ↦ elim (Bool-cases b) [
      | inr f ↦ (message "restore destination is not a directory", rw (t, f) refl)
      | inl u ↦ let (c, q) = k t u in (q.0, rw (t, u, c) q.1)
    ]
  ]

  cleaning_fails :
      (found : Result Bool)
      → options.clean_destination ≡ true
      → FailsAt (clean_when F r true dest source) s
      → FailsAt (prepare F r options dest source found) s
  unfolding prepare
  cleaning_fails (ok b) c k = found_fails b (λ _ _. (c, k))
  cleaning_fails (err e) c k = elim (Bool-cases (is_not_exist e)) [
    | inl t ↦ (message "clean restore destination must already exist", rw (t, c) refl)
    | inr f ↦ (e, rw f refl)
  ]

  prepare_fails :
      (options.clean_destination && not options.overwrite) ≡ false
      → IsRefused F r options dest source s
      → FailsAt (prepare F r options dest source (F.stat dest s).0) s
  unfolding prepare
  prepare_fails a (is_present d q f) = rw q (found_fails d (λ t _. absurd (ground (arith))))
  prepare_fails a (is_no_directory q) = rw q (found_fails false (λ _ t. absurd (ground (arith))))
  prepare_fails a (is_unreadable e q f) = rw q (e, rw f refl)
  prepare_fails a (is_clean_alone c f) = absurd (ground (arith))
  prepare_fails a (is_clean_missing e c q) = rw q (elim (Bool-cases (is_not_exist e)) [
    | inl t ↦ (message "clean restore destination must already exist", rw (t, c) refl)
    | inr f ↦ (e, rw f refl)
  ])
  prepare_fails a (is_clean_root c x) = cleaning_fails (F.stat dest s).0 c (root_fails x)
  prepare_fails a (is_clean_repository c x y) =
      cleaning_fails (F.stat dest s).0 c (repository_fails x y)
  prepare_fails a (is_clean_source c x y) = cleaning_fails (F.stat dest s).0 c (source_fails x y)

-- A destination that is refused: RestoreWithOptions fails and the file system stays as it is, where
-- os.Stat changes nothing.
pub restore_with_options-IsRefused :
    (S : ObjectStore) (h : Host) (F : FileSystem) (r : Repository) (id : Bytes)
    (options : RestoreOptions) (dest : FilePath) (m : Manifest) (w w' : World S) (s : F.State)
    → (F.stat dest s).1 ≡ s
    → read_manifest S h r id w ≡ (ok m, w')
    → IsRefused F r options dest m.source s
    → (e : Error) × (w'' : World S) × (restore_with_options S h F r id (ok dest) options (w, s)
        ≡ (err e, (w'', s)))
unfolding restore_with_options restore_at
restore_with_options-IsRefused S h F r id options dest m w w' s u q k =
    elim (Result-cases (new_matcher h.glob options.includes [])) [
      | inr (e, x) ↦ (e, w, rw x refl)
      | inl (path_filter, x) ↦
          elim (Bool-cases (options.clean_destination && not options.overwrite)) [
            | inl t ↦ (message "clean destination requires overwrite", w', rw (x, q, t) refl)
            | inr f ↦
                let (e, y) = prepare_fails F r options dest m.source s f k in
                (e, w', rw (x, q, f, u, y) refl)
          ]
    ]
