-- ===== src/Examples/Trees.antt =====
-- A restore on a file system that records the paths it is called with.
use vestige.Prelude.{
  ◌≡◌, refl, arith, ℕ, Bool, true, false, none, Bytes, List, [], ◌∷◌, ◌++◌, All, length, str,
}
use vestige.Errors.{Error, ok, err, not_exist}
use vestige.Actions.{Action}
use vestige.Actions.Maintains.{Maintains}
use vestige.Paths.{FilePath, is_bad_part}
use vestige.Paths.Safety.{IsClean}
use vestige.Store.Local.{local_store}
use vestige.Repository.{World}
use vestige.FileSystem.{FileSystem, IsBelow, StaysBelow}
use vestige.Snapshots.{read_manifest}
use vestige.RestoreTree.{RestoreOptions, restore_with_options}
use vestige.RestoreTree.Confined.{restore_with_options-Maintains}
use vestige.RestoreTree.Refusals.{is_present, restore_with_options-IsRefused}
use vestige.Examples.{pad}
use vestige.Examples.Files.{hello_host, hello_snapshot, hello_world, plain_repository}

abbrev record_call : {A : Type 0} → A → FilePath → Action (List FilePath) A
record_call a p calls = (ok a, p ∷ calls)

abbrev record_both : FilePath → FilePath → Action (List FilePath) (Unit {0})
record_both q p calls = (ok tt, q ∷ p ∷ calls)

-- Nothing is there at first, and every call succeeds.
abbrev recorder : FileSystem
recorder = record {
  State = List FilePath;
  stat = λ p calls. (err not_exist, p ∷ calls);
  mkdir_all = λ p mode. record_call tt p;
  create_temp = λ p. record_call (str ".vestige-restore-1") p;
  open_new = λ p mode. record_call tt p;
  chmod_open = λ p mode. record_call tt p;
  write = λ p d. record_call (length d) p;
  close = λ p. record_call tt p;
  remove = λ p. record_call tt p;
  remove_all = λ p. record_call tt p;
  read_dir = λ p. record_call [] p;
  symlink = λ target p. record_call tt p;
  link = record_both;
  rename = record_both;
  chmod = λ p mode. record_call tt p;
  chtimes = λ p t. record_call tt p;
}

abbrev target : FilePath
target = record { parts = str "out" ∷ [] }

abbrev AreBelow : List FilePath → Type 0
AreBelow = All (λ (p : FilePath). IsBelow p target)

below_once :
    {A : Type 0} (a : A) (p : FilePath) → IsBelow p target → Maintains AreBelow (record_call a p)
below_once a p b = record { at = λ calls k. (b, k) }

below_both :
    (q p : FilePath) → IsBelow q target → IsBelow p target → Maintains AreBelow (record_both q p)
below_both q p a b = record { at = λ calls k. (a, (b, k)) }

recorder_below : StaysBelow recorder target AreBelow
recorder_below = record {
  stat = λ p b. record { at = λ calls k. (b, k) };
  mkdir_all = λ p mode. below_once tt p;
  create_temp = λ p. below_once (str ".vestige-restore-1") p;
  open_new = λ p mode. below_once tt p;
  chmod_open = λ p mode. below_once tt p;
  write = λ p d. below_once (length d) p;
  close = λ p. below_once tt p;
  remove = λ p. below_once tt p;
  remove_all = λ p. below_once tt p;
  read_dir = λ p. below_once [] p;
  symlink = λ t p. below_once tt p;
  link = below_both;
  rename = below_both;
  chmod = λ p mode. below_once tt p;
  chtimes = λ p t. below_once tt p;
}

abbrev no_options : RestoreOptions
no_options = record { includes = []; overwrite = false; clean_destination = false }

target-IsClean : IsClean target.parts
unfolding is_bad_part str vestige.Prelude.Bytes-discrete
target-IsClean = refl

restore_with_options-Maintains_example :
    AreBelow
      (restore_with_options
        (local_store pad)
        hello_host
        recorder
        plain_repository
        (str "s1")
        (ok target)
        no_options
        (hello_world, [])).1.1
restore_with_options-Maintains_example =
    restore_with_options-Maintains (local_store pad) hello_host recorder target AreBelow
      recorder_below target-IsClean plain_repository (str "s1") no_options hello_world [] tt

-- The same where the destination is a directory that is there.
abbrev occupied : FileSystem
occupied = record recorder { stat = λ p calls. (ok true, calls) }

hello_found :
    read_manifest (local_store pad) hello_host plain_repository (str "s1") hello_world
    ≡ (ok hello_snapshot, hello_world)
unfolding str vestige.Snapshots.read_manifest_within vestige.Prelude.Bytes-discrete
    vestige.Prelude.contains_any vestige.Store.Local.get vestige.Snapshots.manifest_key
    vestige.Prelude.has_prefix vestige.Prelude.split_on vestige.Prelude.lookup vestige.Codec.decrypt
    vestige.Manifest.validate_manifest vestige.Manifest.check_entry vestige.Paths.validate_path
    vestige.Manifest.sum_chunks vestige.Paths.chunk_path vestige.Model.is_negative
    vestige.Model.add_int64
hello_found = refl

restore_with_options-IsRefused_example :
    (e : Error) × (w : World (local_store pad)) × (restore_with_options
        (local_store pad)
        hello_host
        occupied
        plain_repository
        (str "s1")
        (ok target)
        no_options
        (hello_world, [])
      ≡ (err e, (w, [])))
restore_with_options-IsRefused_example =
    restore_with_options-IsRefused (local_store pad) hello_host occupied plain_repository (str "s1")
      no_options target hello_snapshot hello_world hello_world [] refl hello_found
      (is_present true refl refl)
