-- ===== src/Command/Prune/Spares.antt =====
-- What a prune leaves.
use vestige.Prelude.{
  ap, ◌++◌, length-append, get_or, drop, take, pos_part, is_empty, length, if◌then◌else◌, not, ◌≡◌,
  ◌≢◌, refl, arith, Bool, true, false, Bytes, Option, List, [], ◌∷◌, All, str, ◌==◌, pos, inr,
}
use vestige.Errors.{ok}
use vestige.Actions.{Action, ◌>>◌}
use vestige.Actions.Maintains.{Maintains, maintains_rules, Maintains-then, Maintains-if}
use vestige.Model.{Manifest}
use vestige.Host.{Host}
use vestige.Store.{ObjectStore, IsLawful}
use vestige.Repository.{Repository, World}
use vestige.Snapshots.{
  read_manifest, read_manifest_within, open_manifest, manifest_key, manifest_name, snapshots,
}
use vestige.Lock.{lock_key}
use vestige.Snapshots.Reads.{snapshots_keep}
use vestige.Lifecycle.Effects.{IsUnconcerned, delete_snapshot-Maintains}
use vestige.Retention.{RetentionPolicy, newest_first}
use vestige.Retention.Newest.{IsProtected, retention_candidates-IsProtected}
use vestige.Retention.Preview.{retention_candidates}
use vestige.Command.Prune.{
  Pruning, PruneLine, rerun, deleted, on_world, print, print_candidates, delete_candidates,
  prune_selected, prune,
}

module _ (S : ObjectStore) (h : Host) (object : S.State → Bytes → Option Bytes)
    (L : IsLawful S object) (r : Repository) where
  -- A snapshot under its own identifier, whose manifest is another object.
  abbrev pub IsElsewhere : Bytes → Manifest → Type 0
  IsElsewhere j m = ((m.snapshot_id == str "latest") ≡ false) × (manifest_key r m.snapshot_id ≢ j)

  read_named :
      (id : Bytes) (m : Manifest) (w : World S)
      → (id == str "latest") ≡ false
      → (read_manifest S h r id w).0 ≡ ok m
      → m.snapshot_id ≡ id
  unfolding read_manifest_within open_manifest
  read_named id m w n q = ground (arith, n)

  unconcerned :
      (j : Bytes) (m : Manifest) (w : World S)
      → IsElsewhere j m
      → IsUnconcerned S h object L r m.snapshot_id false j w
  unconcerned j m w (n, k) = inr (λ m' q. rw (read_named m.snapshot_id m' w n q) k)

  module _ (j : Bytes) (x : Option Bytes) (free : lock_key ≢ j) where
    -- The object under the key.
    abbrev Kept : Pruning S h → Type 0
    Kept p = object p.0.store j ≡ x

    world-Maintains :
        {A : Type 0} (m : Action (World S) A)
        → Maintains (λ (w : World S). object w.store j ≡ x) m
        → Maintains Kept (on_world S h m)
    world-Maintains m k = record { at = λ s p. k.at s.0 p }

    print-Maintains : (l : PruneLine) → Maintains Kept (print S h l)
    print-Maintains l = record { at = λ s p. p }

    print_candidates-Maintains : (ms : List Manifest) → Maintains Kept (print_candidates S h ms)
    unfolding print_candidates
    print_candidates-Maintains [] = search maintains_rules
    print_candidates-Maintains (m ∷ ms) =
        Maintains-then _ _ (print-Maintains _) (print_candidates-Maintains ms)

    delete_candidates-Maintains :
        (ms : List Manifest) → All (IsElsewhere j) ms → Maintains Kept (delete_candidates S h r ms)
    unfolding delete_candidates
    delete_candidates-Maintains [] k = search maintains_rules
    delete_candidates-Maintains (m ∷ ms) (k, ks) =
        Maintains-then _ _
          (world-Maintains _ (
            delete_snapshot-Maintains S h object L r m.snapshot_id false (pos 0) j x free
              (λ w. unconcerned j m w k)))
          (delete_candidates-Maintains ms ks)

    decided :
        (wanted : Bool) (ms : List Manifest)
        → (wanted ≡ true → All (IsElsewhere j) ms)
        → Maintains Kept (
            if not wanted
            then print S h (rerun (length ms))
            else (delete_candidates S h r ms >> print S h (deleted (length ms))))
    decided true ms k =
        Maintains-then _ _ (delete_candidates-Maintains ms (k refl)) (print-Maintains _)
    decided false ms k = print-Maintains _

    selected-Maintains :
        (wanted : Bool) (ms : List Manifest)
        → (wanted ≡ true → All (IsElsewhere j) ms)
        → Maintains Kept (prune_selected S h r wanted ms)
    unfolding prune_selected
    selected-Maintains wanted ms k =
        Maintains-if (is_empty ms) _ _ (print-Maintains _)
          (Maintains-then _ _ (print_candidates-Maintains ms) (decided wanted ms k))

  candidates_keep :
      (policy : RetentionPolicy) (w : World S) → (retention_candidates S h r policy w).1 ≡ w
  unfolding retention_candidates
  candidates_keep policy w = ground (arith, snapshots_keep S h r w)

  -- A prune, whether it succeeds or fails, leaves every object that is not the lock and, where the
  -- candidates are deleted, not the manifest of one of them, which is not called "latest".
  pub prune_spares :
      (policy : RetentionPolicy) (wanted : Bool) (cs : List Manifest) (j : Bytes) (w : World S)
      (out : List PruneLine)
      → lock_key ≢ j
      → (retention_candidates S h r policy w).0 ≡ ok cs
      → (wanted ≡ true → All (IsElsewhere j) cs)
      → object (prune S h r policy wanted (w, out)).1.0.store j ≡ object w.store j
  unfolding prune
  prune_spares policy wanted cs j w out n q k =
      let kept = (selected-Maintains j (object w.store j) n wanted cs k).at (w, out) refl in
      rw (q, candidates_keep policy w) kept

append_cancel : (a b c : Bytes) → a ++ c ≡ b ++ c → a ≡ b
append_cancel [] [] c q = refl
append_cancel [] (y ∷ b) c q = absurd (omega (arith, ap length q, length-append (y ∷ b) c))
append_cancel (x ∷ a) [] c q = absurd (omega (arith, ap length q, length-append (x ∷ a) c))
append_cancel (x ∷ a) (y ∷ b) c q =
    let heads : x ≡ y = ap (λ t. get_or 0 t 0) q in
    let rest : a ≡ b = append_cancel a b c (ap (λ t. drop 1 t) q) in cc

manifest_key_injective :
    (r : Repository) (a b : Bytes) → manifest_key r a ≡ manifest_key r b → a ≡ b
unfolding manifest_key str
manifest_key_injective r a b q =
    append_cancel a b (b'/' ∷ [])
      (append_cancel (a ++ b'/' ∷ []) (b ++ b'/' ∷ []) (manifest_name r) (ap (λ t. drop 10 t) q))

lock_not_manifest : (r : Repository) (id : Bytes) → lock_key ≢ manifest_key r id
unfolding manifest_key str
lock_not_manifest r id q = absurd (omega (arith, ap (λ t. get_or 0 t 0) q))

module _ (S : ObjectStore) (h : Host) (object : S.State → Bytes → Option Bytes)
    (L : IsLawful S object) (r : Repository) where
  elsewhere :
      (policy : RetentionPolicy) (m : Manifest) (cs : List Manifest)
      → IsProtected h policy cs m
      → All (λ (c : Manifest). (c.snapshot_id == str "latest") ≡ false) cs
      → All (IsElsewhere S h object L r (manifest_key r m.snapshot_id)) cs
  elsewhere policy m [] p k = tt
  elsewhere policy m (c ∷ cs) p (k, ks) =
      let differs : c.snapshot_id ≢ m.snapshot_id = λ q. absurd (ground (arith, p, q)) in
      (
        (k, λ q. differs (manifest_key_injective r c.snapshot_id m.snapshot_id q)),
        elsewhere policy m cs (ground (arith, p)) ks,
      )

  newest_spared :
      (policy : RetentionPolicy) (wanted : Bool) (cs ms : List Manifest) (w : World S)
      (out : List PruneLine)
      → (retention_candidates S h r policy w).0 ≡ ok cs
      → All (λ (c : Manifest). (c.snapshot_id == str "latest") ≡ false) cs
      → All (IsProtected h policy cs) ms
      → All
          (λ (m : Manifest).
            object (prune S h r policy wanted (w, out)).1.0.store (manifest_key r m.snapshot_id)
            ≡ object w.store (manifest_key r m.snapshot_id))
          ms
  newest_spared policy wanted cs [] w out q k p = tt
  newest_spared policy wanted cs (m ∷ ms) w out q k (p, ps) = (
    prune_spares S h object L r policy wanted cs (manifest_key r m.snapshot_id) w out
        (lock_not_manifest r m.snapshot_id) q (λ _. elsewhere policy m cs p k),
    newest_spared policy wanted cs ms w out q k ps,
  )

  -- A prune over a lawful store, whether it succeeds or fails, leaves the manifests of the `KeepLast` newest
  -- snapshots as they were, when no candidate is called "latest".
  pub prune_spares_newest :
      (policy : RetentionPolicy) (wanted : Bool) (cs ms : List Manifest) (w : World S)
      (out : List PruneLine)
      → (snapshots S h r w).0 ≡ ok ms
      → (retention_candidates S h r policy w).0 ≡ ok cs
      → All (λ (c : Manifest). (c.snapshot_id == str "latest") ≡ false) cs
      → All
          (λ (m : Manifest).
            object (prune S h r policy wanted (w, out)).1.0.store (manifest_key r m.snapshot_id)
            ≡ object w.store (manifest_key r m.snapshot_id))
          (take (pos_part policy.keep_last) (newest_first h ms))
  prune_spares_newest policy wanted cs ms w out s q k =
      newest_spared policy wanted cs _ w out q k
        (retention_candidates-IsProtected h policy S r ms cs w s q)
