-- ===== src/Snapshots/Fuel.antt =====
-- ReadManifest, LatestSnapshot and Snapshots call each other: how deep.
use vestige.Prelude.{
  ◌≡◌, refl, ℕ, zero, suc, false, Bytes, some, List, [], ◌∷◌, All, str, ◌==◌, Option-cases,
  Bool-cases, inl, inr,
}
use vestige.Errors.{Result-cases, ok}
use vestige.Actions.{continue_ext}
use vestige.Host.{Host}
use vestige.Store.{ObjectStore, StoredObject}
use vestige.Repository.{Repository, World}
use vestige.Snapshots.{
  snapshot_of_key, read_stored, read_each, snapshots_by, read_manifest_within, read_manifest,
}

-- A key that names no snapshot called "latest".
abbrev pub IsNotLatest : Repository → StoredObject → Type 0
IsNotLatest r o = (id : Bytes) → snapshot_of_key r o.key ≡ some id → (id == str "latest") ≡ false

module _ (S : ObjectStore) (h : Host) (r : Repository) where
  -- Another identifier is read by one call.
  read_within-read_stored :
      (n : ℕ) (id : Bytes) (w : World S)
      → (id == str "latest") ≡ false
      → read_manifest_within S h r (suc n) id w ≡ read_stored S h r id w
  unfolding read_manifest_within
  read_within-read_stored n id w e = rw e refl

  read_each-read_stored :
      (n : ℕ) (objects : List StoredObject) (w : World S)
      → All (IsNotLatest r) objects
      → read_each S h r (read_manifest_within S h r (suc n)) objects w
        ≡ read_each S h r (read_stored S h r) objects w
  unfolding read_each
  read_each-read_stored n [] w k = refl
  read_each-read_stored n (o ∷ objects) w (k, ks) = elim (Option-cases (snapshot_of_key r o.key)) [
    | inl e ↦ rw (e, read_each) (read_each-read_stored n objects w ks)
    | inr (id, e) ↦
        rw (e, read_each)
          (rw (read_within-read_stored n id w (k id e)) (
            continue_ext _ _ (read_stored S h r id w)
              (λ m w'. rw (read_each-read_stored n objects w' ks) refl)))
  ]

  snapshots_by-read_stored :
      (n : ℕ) (w : World S)
      → ((objects : List StoredObject)
          → S.list (str "snapshots/") w.store ≡ ok objects
          → All (IsNotLatest r) objects)
      → snapshots_by S h r (read_manifest_within S h r (suc n)) w
        ≡ snapshots_by S h r (read_stored S h r) w
  unfolding snapshots_by
  snapshots_by-read_stored n w k = elim (Result-cases (S.list (str "snapshots/") w.store)) [
    | inl (objects, e) ↦ rw e (rw (read_each-read_stored n objects w (k objects e)) refl)
    | inr (x, e) ↦ rw e refl
  ]

-- Two calls are enough: with any more fuel ReadManifest does the same, when no key in the store names a
-- snapshot called "latest".
pub read_manifest_within-read_manifest :
    (S : ObjectStore) (h : Host) (r : Repository) (n : ℕ) (id : Bytes) (w : World S)
    → ((objects : List StoredObject)
        → S.list (str "snapshots/") w.store ≡ ok objects
        → All (IsNotLatest r) objects)
    → read_manifest_within S h r (suc (suc n)) id w ≡ read_manifest S h r id w
unfolding read_manifest_within
read_manifest_within-read_manifest S h r n id w k = elim (Bool-cases (id == str "latest")) [
  | inl t ↦
      rw t (rw (snapshots_by-read_stored S h r n w k, snapshots_by-read_stored S h r zero w k) refl)
  | inr f ↦ rw f refl
]
