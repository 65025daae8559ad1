-- ===== src/RestoreTree/Calls.antt =====
-- The steps of a restore on one file system keep what its calls below a base keep.
use vestige.Prelude.{append-nil, sym, refl, ℕ, Bool, Bytes, List, [], ◌∷◌, All}
use vestige.Actions.Maintains.{
  Maintains-bind, Gives, Gives-if, Gives-bind, Gives-any, Gives-pure, Maintains-attempt, Maintains,
  Maintains-then, maintains_rules,
}
use vestige.RestoreTree.Below.{child-IsBelow, dir-IsBelow, inside-IsBelow, IsInside}
use vestige.Errors.{Error, Result, ok, err}
use vestige.Model.{FileEntry}
use vestige.Paths.{FilePath}
use vestige.FileSystem.{FileSystem, child, IsBelow, StaysBelow}
use vestige.RestoreTree.{
  dir, apply_metadata, replace_after, replace_file, remove_names, clean_directory, remove_when,
  give_up, or_give_up, with_mode, open_target, restore_symlink, finish_directories, put_in_place,
}

module _ (F : FileSystem) (base : FilePath) (P : F.State → Type 0) (B : StaysBelow F base P) where
  pub apply_metadata-Maintains :
      (p : FilePath) (e : FileEntry) → IsBelow p base → Maintains P (apply_metadata F p e)
  unfolding apply_metadata
  apply_metadata-Maintains p e b = search (maintains_rules, B.chmod, B.chtimes)

  pub replace_after-Maintains :
      (q p : FilePath) (res : Result (Unit {0}))
      → IsBelow q base
      → IsBelow p base
      → Maintains P (replace_after F q p res)
  unfolding replace_after
  replace_after-Maintains q p (ok v) a b = search maintains_rules
  replace_after-Maintains q p (err e) a b = search (maintains_rules, B.remove, B.rename)

  pub replace_file-Maintains :
      (q p : FilePath) → IsBelow q base → IsBelow p base → Maintains P (replace_file F q p)
  unfolding replace_file
  replace_file-Maintains q p a b = search (maintains_rules, B.rename, replace_after-Maintains)

  pub remove_names-Maintains : (names : List Bytes) → Maintains P (remove_names F base names)
  unfolding remove_names
  remove_names-Maintains [] = search maintains_rules
  remove_names-Maintains (name ∷ names) =
      Maintains-then _ _ (B.remove_all (child base name) (name ∷ [], refl))
        (remove_names-Maintains names)

  pub clean_directory-Maintains : Maintains P (clean_directory F base)
  unfolding clean_directory
  clean_directory-Maintains =
      Maintains-bind _ _ (B.read_dir base ([], sym (append-nil base.parts))) remove_names-Maintains

  pub remove_when-Maintains :
      (b : Bool) (p : FilePath) → IsBelow p base → Maintains P (remove_when F b p)
  unfolding remove_when
  remove_when-Maintains b p k = search (maintains_rules, B.remove)

  pub give_up-Maintains :
      {A : Type 0} (b : Bool) (p : FilePath) (e : Error)
      → IsBelow p base
      → Maintains P (give_up F {A = A} b p e)
  unfolding give_up
  give_up-Maintains b p e k = search (maintains_rules, remove_when-Maintains)

  pub or_give_up-Maintains :
      {A : Type 0} (b : Bool) (p : FilePath) (res : Result A)
      → IsBelow p base
      → Maintains P (or_give_up F b p res)
  unfolding or_give_up
  or_give_up-Maintains b p (ok a) k = search maintains_rules
  or_give_up-Maintains b p (err e) k = give_up-Maintains b p e k

  pub with_mode-Maintains :
      (p : FilePath) (res : Result (Unit {0})) → IsBelow p base → Maintains P (with_mode F p res)
  unfolding with_mode
  with_mode-Maintains p (ok v) k = search maintains_rules
  with_mode-Maintains p (err e) k = search (maintains_rules, B.close, give_up-Maintains)

  pub put_in_place-Maintains :
      (b : Bool) (q p : FilePath)
      → IsBelow q base
      → IsBelow p base
      → Maintains P (put_in_place F b q p)
  unfolding put_in_place
  put_in_place-Maintains b q p a k =
      search (maintains_rules, replace_file-Maintains, or_give_up-Maintains)

  pub restore_symlink-Maintains :
      (b : Bool) (p : FilePath) (e : FileEntry)
      → IsInside p base
      → Maintains P (restore_symlink F b p e)
  unfolding restore_symlink
  restore_symlink-Maintains b p e i =
      let k = inside-IsBelow p base i in
      let d = dir-IsBelow p base i in
      search (maintains_rules, B.mkdir_all, B.symlink, remove_when-Maintains) depth 9

  -- What was made is below the base.
  abbrev pub AreBelow : List (FilePath × FileEntry) → Type 0
  AreBelow = All (λ (x : FilePath × FileEntry). IsBelow x.0 base)

  pub finish_directories-Maintains :
      (made : List (FilePath × FileEntry)) → AreBelow made → Maintains P (finish_directories F made)
  unfolding finish_directories
  finish_directories-Maintains [] k = search maintains_rules
  finish_directories-Maintains ((p, e) ∷ made) (k, ks) =
      let rest = finish_directories-Maintains made ks in
      search (maintains_rules, apply_metadata-Maintains)

  -- The path of the file that is written is below the base.
  pub open_target-Gives :
      (b : Bool) (p : FilePath) (mode : ℕ)
      → IsInside p base
      → Gives P (λ q. IsBelow q base) (open_target F b p mode)
  unfolding open_target
  open_target-Gives b p mode i =
      let here = inside-IsBelow p base i in
      let d = dir-IsBelow p base i in
      Gives-if _ b _ _
        (Gives-bind (λ _. Unit {0}) _ _ _ (Gives-any _ (B.create_temp (dir p) d))
          (λ name _.
            let staged = child-IsBelow base (dir p) name d in
            Gives-bind (λ _. Unit {0}) _ _ _
              (Gives-any _ (Maintains-attempt _ (B.chmod_open (child (dir p) name) mode staged)))
              (λ res _.
                Gives-bind (λ _. Unit {0}) _ _ _
                  (Gives-any _ (with_mode-Maintains (child (dir p) name) res staged))
                  (λ _ _. Gives-pure _ _ staged))))
        (Gives-bind (λ _. Unit {0}) _ _ _ (Gives-any _ (B.open_new p mode here))
          (λ _ _. Gives-pure _ _ here))
