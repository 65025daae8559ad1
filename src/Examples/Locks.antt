-- ===== src/Examples/Locks.antt =====
-- Two writers that ask for the lock, one after the other.
use vestige.Prelude.{some, ◌≡◌, true, lookup, [], ◌∷◌, ◌++◌, refl, none, pos}
use vestige.Errors.{ok}
use vestige.Store.Local.{local_store, accepts}
use vestige.Store.Local.Laws.{file_at, IsHealthy, local_store-IsLawful, local_store-IsReliable}
use vestige.Lock.{WriteLock, lock_key, acquire_write_lock}
use vestige.Lock.Progress.{acquire_write_lock_lem}
use vestige.Lock.Exclusion.{
  System, Reach, IsExclusive, acquires, start, later, update, got, Reach-IsExclusive,
}
use vestige.Examples.{pad, toy_host, disk, world}

abbrev once : System (local_store pad) toy_host file_at
once = record {
  world = (acquire_write_lock (local_store pad) toy_host (pos 0) world).1;
  held =
      update (local_store pad) toy_host file_at (λ _. none) 0
        (got (local_store pad) toy_host file_at
          (acquire_write_lock (local_store pad) toy_host (pos 0) world).0);
}

abbrev twice : System (local_store pad) toy_host file_at
twice = record {
  world = (acquire_write_lock (local_store pad) toy_host (pos 0) once.world).1;
  held = update (local_store pad) toy_host file_at once.held 1 (
      got (local_store pad) toy_host file_at
        (acquire_write_lock (local_store pad) toy_host (pos 0) once.world).0);
}

twice_reached : Reach (local_store pad) toy_host file_at twice
twice_reached = later (later (start world) (acquires 0 refl)) (acquires 1 refl)

Reach-IsExclusive_example : IsExclusive (local_store pad) toy_host file_at twice
Reach-IsExclusive_example =
    Reach-IsExclusive (local_store pad) toy_host file_at (local_store-IsLawful pad) twice
      twice_reached

nothing_fails : IsHealthy disk
nothing_fails c key = refl

lock_accepted : accepts lock_key ≡ true
unfolding accepts vestige.Prelude.Bytes-discrete vestige.Prelude.has_prefix vestige.Prelude.has_byte
    vestige.Prelude.split_on
lock_accepted = refl

nothing_there : file_at disk lock_key ≡ none
unfolding lookup
nothing_there = refl

acquire_write_lock_example :
    (lock : WriteLock) × ((acquire_write_lock (local_store pad) toy_host (pos 0) world).0 ≡ ok lock)
    × (file_at (acquire_write_lock (local_store pad) toy_host (pos 0) world).1.store lock_key
        ≡ some ((2 ∷ []) ++ b'\n' ∷ []))
acquire_write_lock_example =
    acquire_write_lock_lem (local_store pad) file_at accepts IsHealthy (local_store-IsLawful pad)
      (local_store-IsReliable pad) toy_host (pos 0) (2 ∷ []) world nothing_fails lock_accepted refl
      nothing_there
