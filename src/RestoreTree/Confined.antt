-- ===== src/RestoreTree/Confined.antt =====
-- A restore calls the file system on paths at or below its destination only.
use vestige.Actions.Maintains.{
  Maintains-attempt, Maintains-raise_if, Gives, Gives-bind, Gives-any, Gives-pure, Gives-lift,
  Gives-wrapped, Maintains-bind_given, Maintains-if, Maintains-wrapped, Maintains, Maintains-bind,
  Maintains-then, Maintains-pure, Maintains-lift, maintains_rules,
}
use vestige.RestoreTree.Calls.{
  open_target-Gives, remove_when-Maintains, restore_symlink-Maintains, finish_directories-Maintains,
  put_in_place-Maintains, AreBelow, apply_metadata-Maintains, clean_directory-Maintains,
  give_up-Maintains, or_give_up-Maintains,
}
use vestige.RestoreTree.Below.{dir-IsBelow, inside-IsBelow, joined-IsInside, IsInside}
use vestige.Prelude.{not, ◌&&◌, append-nil, Bool-cases, sym, Bool, Bytes, List, [], ◌∷◌, inl, inr}
use vestige.Errors.{Result, ok, err}
use vestige.Actions.{Action, lift, raise_if}
use vestige.Model.{
  Manifest, FileEntry, ChunkRef, EntryType, file, directory, symlink, hardlink, unknown, Int64,
}
use vestige.Paths.{FilePath}
use vestige.Paths.Safety.{IsClean}
use vestige.Filter.{Matcher, new_matcher}
use vestige.Snapshots.{read_manifest}
use vestige.Host.{Host}
use vestige.Store.{ObjectStore}
use vestige.Repository.{Repository, World}
use vestige.FileSystem.{FileSystem, IsBelow, StaysBelow}
use vestige.RestoreTree.{
  validate_clean_destination, restore_at, is_passed_over, RestoreOptions, dir, clean_directory,
  restore_hardlink, Restoring, on_repository, on_files, write_refs, after_writing, check_written,
  write_target, restore_regular, restore_typed, restore_entries, clean_when, prepare_found, prepare,
  restore_with_options,
}

module _ (S : ObjectStore) (h : Host) (F : FileSystem) (base : FilePath) (P : F.State → Type 0)
    (B : StaysBelow F base P) (clean : IsClean base.parts) where
  -- The predicate on the file system, beside the repository.
  abbrev Here : Restoring S h F → Type 0
  Here x = P x.1

  on_repository-Maintains :
      {A : Type 0} (m : Action (World S) A) → Maintains Here (on_repository S h F m)
  on_repository-Maintains m = record { at = λ s p. p }

  on_files-Maintains :
      {A : Type 0} (m : Action F.State A) → Maintains P m → Maintains Here (on_files S h F m)
  on_files-Maintains m k = record { at = λ s p. k.at s.1 p }

  on_files-Gives :
      {A : Type 0} (Q : A → Type 0) (m : Action F.State A)
      → Gives P Q m
      → Gives Here Q (on_files S h F m)
  on_files-Gives Q m k = record { at = λ s p. k.at s.1 p; gives = λ s a p e. k.gives s.1 a p e }

  write_refs-Maintains :
      (r : Repository) (p : FilePath) (refs : List ChunkRef) (n : Int64)
      → IsBelow p base
      → Maintains Here (write_refs S h F r p refs n)
  unfolding write_refs
  write_refs-Maintains r p [] n k = search maintains_rules
  write_refs-Maintains r p (ref ∷ refs) n k =
      let rest = λ (m : Int64). write_refs-Maintains r p refs m k in
      search (maintains_rules, on_repository-Maintains, on_files-Maintains, B.write, rest) depth 9

  after_writing-Maintains :
      (b : Bool) (p : FilePath) (res : Result Int64)
      → IsBelow p base
      → Maintains Here (after_writing S h F b p res)
  unfolding after_writing
  after_writing-Maintains b p (ok n) k =
      search (maintains_rules, on_files-Maintains, B.close, or_give_up-Maintains F base P B) depth 9
  after_writing-Maintains b p (err e) k =
      search (maintains_rules, on_files-Maintains, B.close, give_up-Maintains F base P B) depth 9

  check_written-Maintains :
      (b : Bool) (p : FilePath) (e : FileEntry) (n : Int64)
      → IsBelow p base
      → Maintains Here (check_written S h F b p e n)
  unfolding check_written
  check_written-Maintains b p e n k =
      search (maintains_rules, on_files-Maintains, give_up-Maintains F base P B)

  written-Maintains :
      (r : Repository) (b : Bool) (target p : FilePath) (e : FileEntry)
      → IsBelow target base
      → IsBelow p base
      → Maintains Here (write_target S h F r b target p e)
  unfolding write_target
  written-Maintains r b target p e k i =
      search
        (
          maintains_rules,
          on_files-Maintains,
          write_refs-Maintains,
          after_writing-Maintains,
          check_written-Maintains,
          apply_metadata-Maintains F base P B,
          or_give_up-Maintains F base P B,
          put_in_place-Maintains F base P B,
        )
        depth 12

  restore_regular-Maintains :
      (r : Repository) (b : Bool) (p : FilePath) (e : FileEntry)
      → IsInside p base
      → Maintains Here (restore_regular S h F r b p e)
  unfolding restore_regular
  restore_regular-Maintains r b p e i =
      Maintains-then _ _ (on_files-Maintains _ (B.mkdir_all (dir p) 493 (dir-IsBelow p base i))) (
        Maintains-bind_given (λ q. IsBelow q base) _ _
          (on_files-Gives _ _ (open_target-Gives F base P B b p e.mode i))
          (λ q k. written-Maintains r b q p e k (inside-IsBelow p base i)))

  restore_hardlink-Maintains :
      (b : Bool) (p : FilePath) (e : FileEntry)
      → IsInside p base
      → Maintains P (restore_hardlink F b base p e)
  unfolding restore_hardlink
  restore_hardlink-Maintains b p e i =
      let k = inside-IsBelow p base i in
      let d = dir-IsBelow p base i in
      Maintains-bind_given (λ q. IsBelow q base) _ _
        (Gives-wrapped _ _ _ (
          Gives-lift _ _
            (λ q x. inside-IsBelow q base (joined-IsInside base q e.link_target clean x))))
        (λ q below.
          search (maintains_rules, B.mkdir_all, B.link, remove_when-Maintains F base P B) depth 9)

  base-IsBelow : IsBelow base base
  base-IsBelow = ([], sym (append-nil base.parts))

  -- The directories made so far are below the base.
  abbrev Made : List (FilePath × FileEntry) → Type 0
  Made = AreBelow F base P B

  typed-Gives :
      (r : Repository) (options : RestoreOptions) (p : FilePath) (e : FileEntry) (t : EntryType)
      (made : List (FilePath × FileEntry))
      → IsInside p base
      → Made made
      → Gives Here Made (restore_typed S h F r options base p e t made)
  unfolding restore_typed
  typed-Gives r options p e directory made i k =
      let d = inside-IsBelow p base i in
      Gives-bind (λ _. Unit {0}) _ _ _ (Gives-any _ (on_files-Maintains _ (B.mkdir_all p e.mode d)))
        (λ _ _. Gives-pure _ _ (d, k))
  typed-Gives r options p e symlink made i k =
      Gives-bind (λ _. Unit {0}) _ _ _
        (Gives-any _
          (on_files-Maintains _ (restore_symlink-Maintains F base P B options.overwrite p e i)))
        (λ _ _. Gives-pure _ _ k)
  typed-Gives r options p e hardlink made i k =
      Gives-bind (λ _. Unit {0}) _ _ _
        (Gives-any _ (on_files-Maintains _ (restore_hardlink-Maintains options.overwrite p e i)))
        (λ _ _. Gives-pure _ _ k)
  typed-Gives r options p e file made i k =
      Gives-bind (λ _. Unit {0}) _ _ _
        (Gives-any _ (restore_regular-Maintains r options.overwrite p e i))
        (λ _ _. Gives-pure _ _ k)
  typed-Gives r options p e (unknown t) made i k =
      Gives-bind (λ _. Unit {0}) _ _ _
        (Gives-any _ (restore_regular-Maintains r options.overwrite p e i))
        (λ _ _. Gives-pure _ _ k)

  entries-Gives :
      (r : Repository) (options : RestoreOptions) (m : Matcher) (es : List FileEntry)
      (made : List (FilePath × FileEntry))
      → Made made
      → Gives Here Made (restore_entries S h F r options m base es made)
  unfolding restore_entries
  entries-Gives r options m [] made k = Gives-pure _ _ k
  entries-Gives r options m (e ∷ es) made k =
      elim (Bool-cases (is_passed_over h.glob options m e)) [
        | inl t ↦ rw (t, restore_entries) (entries-Gives r options m es made k)
        | inr f ↦
            rw (f, restore_entries)
              (Gives-bind (λ p. IsInside p base) _ _ _
                (Gives-lift _ _ (λ p x. joined-IsInside base p e.path clean x))
                (λ p i.
                  Gives-bind Made _ _ _ (typed-Gives r options p e e.type made i k)
                    (λ made' k'. entries-Gives r options m es made' k')))
      ]

  clean_when-Maintains :
      (r : Repository) (b : Bool) (source : Bytes) → Maintains P (clean_when F r b base source)
  unfolding clean_when
  clean_when-Maintains r b source =
      Maintains-if b _ _
        (Maintains-then _ _ (Maintains-lift (validate_clean_destination r base source)) (
          Maintains-wrapped "clean restore destination" (clean_directory F base)
            (clean_directory-Maintains F base P B)))
        (Maintains-pure tt)

  prepare_found-Maintains :
      (r : Repository) (options : RestoreOptions) (source : Bytes) (b : Bool)
      → Maintains P (prepare_found F r options base source b)
  unfolding prepare_found
  prepare_found-Maintains r options source b = search (maintains_rules, clean_when-Maintains)

  prepare-Maintains :
      (r : Repository) (options : RestoreOptions) (source : Bytes) (found : Result Bool)
      → Maintains P (prepare F r options base source found)
  unfolding prepare
  prepare-Maintains r options source (ok b) = prepare_found-Maintains r options source b
  prepare-Maintains r options source (err e) = search maintains_rules

  -- From here on the destination is the base.
  restore_at-Maintains :
      (r : Repository) (options : RestoreOptions) (m : Matcher) (source : Bytes)
      (es : List FileEntry)
      → Maintains Here (restore_at S h F r options m base source es)
  unfolding restore_at
  restore_at-Maintains r options m source es =
      Maintains-then _ _
        (on_files-Maintains _ (
          Maintains-bind _ _ (Maintains-attempt _ (B.stat base base-IsBelow)) (λ found.
            Maintains-then _ _ (prepare-Maintains r options source found)
              (B.mkdir_all base 493 base-IsBelow))))
        (Maintains-bind_given Made _ _ (entries-Gives r options m es [] tt)
          (λ made k. on_files-Maintains _ (finish_directories-Maintains F base P B made k)))

  whole-Maintains :
      (r : Repository) (id : Bytes) (options : RestoreOptions)
      → Maintains Here (restore_with_options S h F r id (ok base) options)
  unfolding restore_with_options
  whole-Maintains r id options =
      Maintains-bind (lift (new_matcher h.glob options.includes [])) _ (Maintains-lift _) (λ m.
        Maintains-bind {A = Manifest} (on_repository S h F (read_manifest S h r id)) _
          (on_repository-Maintains (read_manifest S h r id))
          (λ found. record {
            at = λ s p.
                (Maintains-then
                    (raise_if (options.clean_destination && not options.overwrite)
                      "clean destination requires overwrite")
                    _ (Maintains-raise_if _ _)
                    (restore_at-Maintains r options m found.source found.files)).at
                  s p;
          }))

-- RestoreWithOptions calls the file system, also where it only reads, on the destination and on paths
-- below it only, by the names of the paths: what all these calls maintain, the whole restore maintains, whether it succeeds or fails. The
-- destination is a cleaned path. The target of a symbolic link may be any text.
pub restore_with_options-Maintains :
    (S : ObjectStore) (h : Host) (F : FileSystem) (dest : FilePath) (P : F.State → Type 0)
    → StaysBelow F dest P
    → IsClean dest.parts
    → (r : Repository) (id : Bytes) (options : RestoreOptions) (w : World S) (s : F.State) → P s
    → P (restore_with_options S h F r id (ok dest) options (w, s)).1.1
restore_with_options-Maintains S h F dest P B clean r id options w s p =
    (whole-Maintains S h F dest P B clean r id options).at (w, s) p
