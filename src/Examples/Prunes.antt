-- ===== src/Examples/Prunes.antt =====
-- Two snapshots, of which the older one is pruned.
use vestige.Prelude.{
  length, ◌≤◌, ◌≡◌, refl, Bool, true, false, Bytes, List, [], ◌∷◌, if◌then◌else◌, ◌==◌, str, All,
  take, pos_part, none,
}
use vestige.Errors.{ok}
use vestige.Model.{Manifest}
use vestige.Host.{Host}
use vestige.Store.Local.{local_store}
use vestige.Store.Local.Laws.{file_at, local_store-IsLawful}
use vestige.Repository.{World}
use vestige.Snapshots.{snapshots, manifest_key}
use vestige.Retention.{newest_first}
use vestige.Retention.Order.{newer_than, retention_candidates_older}
use vestige.Retention.Preview.{retention_candidates}
use vestige.Command.Prune.{prune}
use vestige.Command.Prune.Spares.{prune_spares_newest}
use vestige.Examples.{pad, toy_host, world}
use vestige.Examples.Files.{hello_snapshot, plain_repository, keep_one}

abbrev second_snapshot : Manifest
second_snapshot = record hello_snapshot { snapshot_id = str "s2" }

-- The second snapshot is the one whose text is not that of the first.
abbrev two_host : Host
two_host = record toy_host {
  unmarshal_manifest = λ d. ok (if d == 1 ∷ [] then hello_snapshot else second_snapshot);
}

abbrev two_world : World (local_store pad)
two_world = record world {
  store = record {
    files =
        (str "snapshots/s1/manifest.json", 1 ∷ [])
        ∷ (str "snapshots/s2/manifest.json", 2 ∷ [])
        ∷ [];
    fails = λ c key. none;
  };
}

two_listed :
    (snapshots (local_store pad) two_host plain_repository two_world).0
    ≡ ok (hello_snapshot ∷ second_snapshot ∷ [])
unfolding vestige.Snapshots.snapshots_by vestige.Store.Local.list vestige.Prelude.has_prefix str
    vestige.Snapshots.snapshot_of_key vestige.Prelude.split_on vestige.Prelude.Bytes-discrete
    vestige.Snapshots.read_manifest_within vestige.Prelude.contains_any vestige.Store.Local.get
    manifest_key vestige.Prelude.lookup vestige.Codec.decrypt vestige.Manifest.validate_manifest
    vestige.Manifest.check_entry vestige.Paths.validate_path vestige.Manifest.sum_chunks
    vestige.Codec.open_sealed vestige.Manifest.check_entries vestige.Manifest.check_labels
    vestige.Model.add_int64 vestige.Model.is_negative vestige.Paths.chunk_path
    vestige.Paths.hex_encode vestige.Paths.is_bad_part vestige.Paths.is_chunk_id
    vestige.Prelude.sort vestige.Prelude.has_byte vestige.Prelude.lt_bytes
    vestige.Prelude.trim_space vestige.Snapshots.manifest_name vestige.Snapshots.open_manifest
    vestige.Snapshots.read_each vestige.Snapshots.read_stored vestige.Snapshots.snapshot_of_parts
    vestige.Store.Local.accepts vestige.Store.Local.local_version vestige.Store.Local.matching
    vestige.Store.Local.store_path vestige.Store.Local.system
two_listed = refl

first_selected :
    (retention_candidates (local_store pad) two_host plain_repository keep_one two_world).0
    ≡ ok (hello_snapshot ∷ [])
unfolding retention_candidates vestige.Snapshots.snapshots_by vestige.Store.Local.list
    vestige.Prelude.has_prefix str vestige.Snapshots.snapshot_of_key vestige.Prelude.split_on
    vestige.Prelude.Bytes-discrete vestige.Snapshots.read_manifest_within
    vestige.Prelude.contains_any vestige.Store.Local.get manifest_key vestige.Prelude.lookup
    vestige.Codec.decrypt vestige.Manifest.validate_manifest vestige.Manifest.check_entry
    vestige.Paths.validate_path vestige.Codec.open_sealed vestige.Manifest.check_entries
    vestige.Manifest.check_labels vestige.Manifest.sum_chunks vestige.Model.add_int64
    vestige.Model.is_negative vestige.Paths.chunk_path vestige.Paths.hex_encode
    vestige.Paths.is_bad_part vestige.Paths.is_chunk_id vestige.Prelude.sort
    vestige.Prelude.has_byte vestige.Prelude.lt_bytes vestige.Prelude.trim_space
    vestige.Retention.candidates vestige.Retention.is_negative_policy vestige.Retention.keep_loop
    newest_first vestige.Retention.take_bucket vestige.Snapshots.manifest_name
    vestige.Snapshots.open_manifest vestige.Snapshots.read_each vestige.Snapshots.read_stored
    vestige.Snapshots.snapshot_of_parts vestige.Store.Local.accepts
    vestige.Store.Local.local_version vestige.Store.Local.matching vestige.Store.Local.store_path
    vestige.Store.Local.system
first_selected = refl

first_not_latest : (hello_snapshot.snapshot_id == str "latest") ≡ false
unfolding str vestige.Prelude.Bytes-discrete
first_not_latest = refl

-- The candidate has one newer snapshot, as many as are kept.
retention_candidates_older_example :
    All
      (λ (c : Manifest).
        pos_part keep_one.keep_last ≤ length (newer_than c (hello_snapshot ∷ second_snapshot ∷ [])))
      (hello_snapshot ∷ [])
retention_candidates_older_example =
    retention_candidates_older (local_store pad) two_host plain_repository keep_one
      (hello_snapshot ∷ second_snapshot ∷ []) (hello_snapshot ∷ []) two_world two_listed
      first_selected

prune_spares_newest_example :
    All
      (λ (m : Manifest).
        file_at
          (prune
            (local_store pad)
            two_host
            plain_repository
            keep_one
            true
            (two_world, [])).1.0.store
          (manifest_key plain_repository m.snapshot_id)
        ≡ file_at two_world.store (manifest_key plain_repository m.snapshot_id))
      (take
        (pos_part keep_one.keep_last)
        (newest_first two_host (hello_snapshot ∷ second_snapshot ∷ [])))
prune_spares_newest_example =
    prune_spares_newest (local_store pad) two_host file_at (local_store-IsLawful pad)
      plain_repository keep_one true (hello_snapshot ∷ []) (hello_snapshot ∷ second_snapshot ∷ [])
      two_world [] two_listed first_selected (first_not_latest, tt)
