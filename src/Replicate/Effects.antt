-- ===== src/Replicate/Effects.antt =====
-- internal/repository/replicate.go: what a replication leaves as it was.
use vestige.Lock.{release, acquire_write_lock, lock_key, WriteLock, recover_staging}
use vestige.Prelude.{
  ◌∙◌, ℕ, ◌≡◌, ◌≢◌, refl, ℤ, arith, Bool-cases, inl, inr, Bool, Bytes, Option, some, List, [], ◌∷◌,
  contains,
}
use vestige.Errors.{Result, ok, err}
use vestige.Actions.{Action}
use vestige.Actions.Maintains.{Maintains-then, Maintains-bind, Maintains, maintains_rules}
use vestige.Model.{Manifest, FileEntry, ChunkRef}
use vestige.Host.{Host}
use vestige.Store.{ObjectStore, IsLawful}
use vestige.Repository.{Repository, World, store_put_if_absent, rand_read}
use vestige.Snapshots.Reads.{read_manifest-Maintains, snapshots-Maintains}
use vestige.Snapshots.Laws.{publish_manifest-Maintains}
use vestige.Chunks.Laws.{read_chunk_keeps, put_chunk-Maintains, put_Keeps}
use vestige.Chunks.{read_chunk}
use vestige.Lock.Effects.{
  acquire-Maintains, release-Maintains, lock_put_other, lock_remove_other, store-recover_staging,
}
use vestige.Replicate.{
  Worlds, on_source, on_target, copy_chunk, copy_refs, copy_entries, copy_manifest, copy_manifests,
  copy_all, replicate_to, ReplicationStats,
}

module _ (S T : ObjectStore) (h : Host) (same : Manifest → Manifest → Bool) (r target : Repository)
    (w₀ : World S) (P : World T → Type 0)
    (put : (key x : Bytes) → Maintains P (store_put_if_absent T key x))
    (draw : (n : ℕ) → Maintains P (rand_read T h n))
    (recover : Maintains P (recover_staging T target)) where
  -- The source is as it was, and the target satisfies P.
  abbrev Kept : Worlds S T h same → Type 0
  Kept ws = (ws.0 ≡ w₀) × P ws.1

  on_source-Maintains :
      {A : Type 0} (m : Action (World S) A)
      → Maintains (λ w. w ≡ w₀) m
      → Maintains Kept (on_source S T h same m)
  on_source-Maintains m k = record { at = λ ws p. (k.at ws.0 p.0, p.1) }

  on_target-Maintains :
      {A : Type 0} (m : Action (World T) A)
      → Maintains P m
      → Maintains Kept (on_target S T h same m)
  on_target-Maintains m k = record { at = λ ws p. (p.0, k.at ws.1 p.1) }

  read_chunk-Maintains : (id : Bytes) → Maintains (λ w. w ≡ w₀) (read_chunk S h r id)
  read_chunk-Maintains id = record { at = λ w p. read_chunk_keeps S h r id w ∙ p }

  copy_chunk-Maintains : (id : Bytes) → Maintains Kept (copy_chunk S T h same r target id)
  unfolding copy_chunk
  copy_chunk-Maintains id =
      search
        (
          maintains_rules,
          on_source-Maintains,
          on_target-Maintains,
          read_chunk-Maintains,
          put_chunk-Maintains T h target P put draw,
        )
        depth 9

  copy_refs-Maintains :
      (refs : List ChunkRef) (seen : List Bytes) (st : ReplicationStats)
      → Maintains Kept (copy_refs S T h same r target refs seen st)
  unfolding copy_refs
  copy_refs-Maintains [] seen st = search maintains_rules
  copy_refs-Maintains (ref ∷ refs) seen st = elim (Bool-cases (contains seen ref.id)) [
    | inl e ↦ rw (e, copy_refs) (copy_refs-Maintains refs seen st)
    | inr e ↦
        rw (e, copy_refs) search (maintains_rules, copy_chunk-Maintains, copy_refs-Maintains refs)
  ]

  copy_entries-Maintains :
      (es : List FileEntry) (seen : List Bytes) (st : ReplicationStats)
      → Maintains Kept (copy_entries S T h same r target es seen st)
  unfolding copy_entries
  copy_entries-Maintains [] seen st = search maintains_rules
  copy_entries-Maintains (e ∷ es) seen st =
      search (maintains_rules, copy_refs-Maintains, copy_entries-Maintains es)

  copy_manifest-Maintains :
      (m : Manifest) (st : ReplicationStats) (res : Result Manifest)
      → Maintains Kept (copy_manifest S T h same r target m st res)
  unfolding copy_manifest
  copy_manifest-Maintains m st (ok existing) = search maintains_rules
  copy_manifest-Maintains m st (err e) =
      search
        (
          maintains_rules,
          copy_entries-Maintains,
          on_target-Maintains,
          publish_manifest-Maintains T h target P put draw,
        )
        depth 9

  copy_manifests-Maintains :
      (ms : List Manifest) (st : ReplicationStats)
      → Maintains Kept (copy_manifests S T h same r target ms st)
  unfolding copy_manifests
  copy_manifests-Maintains [] st = search maintains_rules
  copy_manifests-Maintains (m ∷ ms) st =
      search
        (
          maintains_rules,
          on_target-Maintains,
          read_manifest-Maintains T h target P,
          copy_manifest-Maintains,
          copy_manifests-Maintains ms,
        )
        depth 9

  copy_all-Maintains : Maintains Kept (copy_all S T h same r target)
  unfolding copy_all
  copy_all-Maintains = Maintains-then _ _ (on_target-Maintains _ recover) (
      Maintains-bind _ _ (on_source-Maintains _ (snapshots-Maintains S h r (λ w. w ≡ w₀)))
        (λ ms. copy_manifests-Maintains ms _))

  module _ (acquire : (stale : ℤ) → Maintains P (acquire_write_lock T h stale))
      (free : (lock : WriteLock) → Maintains P (release T h lock)) where
    replicate_to-Maintains :
        (stale_after : ℤ) → Maintains Kept (replicate_to S T h same r target stale_after)
    unfolding replicate_to
    replicate_to-Maintains stale_after =
        let copied : (lock : WriteLock)
            → Maintains Kept (λ ws. (
              (copy_all S T h same r target ws).0,
              (
                (copy_all S T h same r target ws).1.0,
                (release T h lock (copy_all S T h same r target ws).1.1).1,
              ),
            )) =
          λ lock. record {
            at = λ ws p.
                let (a, b) = copy_all-Maintains.at ws p in
                (a, (free lock).at (copy_all S T h same r target ws).1.1 b);
          } in
        search (maintains_rules, on_target-Maintains, acquire, copied) depth 9

-- Over a lawful store of the target, a replication, whether it succeeds or fails, leaves the source as it was, and leaves every object
-- of the target but the lock as it was: it replaces and removes nothing there.
pub replicate_to_keeps :
    (S T : ObjectStore) (object : T.State → Bytes → Option Bytes) (L : IsLawful T object) (h : Host)
    (same : Manifest → Manifest → Bool) (r target : Repository) (stale_after : ℤ) (j x : Bytes)
    (w : World S) (v : World T)
    → lock_key ≢ j
    → object v.store j ≡ some x
    → ((replicate_to S T h same r target stale_after (w, v)).1.0 ≡ w)
      × (object (replicate_to S T h same r target stale_after (w, v)).1.1.store j ≡ some x)
replicate_to_keeps S T object L h same r target stale_after j x w v n p =
    let P : World T → Type 0 = λ v'. object v'.store j ≡ some x in
    let put : (key d : Bytes) → Maintains P (store_put_if_absent T key d) =
      λ key d. record { at = λ v' q. (put_Keeps T object L v' key d).at v' (λ i y e. e) j x q } in
    let draw : (k : ℕ) → Maintains P (rand_read T h k) = λ k. record { at = λ v' q. q } in
    let recover : Maintains P (recover_staging T target) = record {
      at = λ v' q. ground (arith, store-recover_staging T target v');
    } in
    let other = lock_put_other T object L j (some x) n in
    let removed = lock_remove_other T object L j (some x) n in
    (replicate_to-Maintains S T h same r target w P put draw recover
        (acquire-Maintains T h P other removed) (release-Maintains T h P other removed)
        stale_after).at
      (w, v) (refl, p)
