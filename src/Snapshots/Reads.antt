-- ===== src/Snapshots/Reads.antt =====
-- Reading snapshots changes nothing.
use vestige.Prelude.{
  ◌≡◌, refl, ℕ, zero, suc, Bytes, List, [], ◌∷◌, inl, inr, Option-cases, str, ◌==◌,
}
use vestige.Actions.{Action}
use vestige.Actions.Maintains.{
  Maintains, maintains_rules, Maintains-pure, Maintains-bind, Maintains-lift, Maintains-if,
}
use vestige.Host.{Host}
use vestige.Model.{Manifest}
use vestige.Store.{ObjectStore, StoredObject}
use vestige.Repository.{Repository, World, store_get, store_list}
use vestige.Snapshots.{
  read_stored, read_each, snapshots_by, snapshot_of_key, read_manifest_within, read_manifest,
  snapshots,
}

module _ (S : ObjectStore) (h : Host) (r : Repository) (P : World S → Type 0) where
  get-Maintains : (key : Bytes) → Maintains P (store_get S key)
  get-Maintains key = record { at = λ w p. p }

  list-Maintains : (prefix : Bytes) → Maintains P (store_list S prefix)
  list-Maintains prefix = record { at = λ w p. p }

  read_stored-Maintains : (id : Bytes) → Maintains P (read_stored S h r id)
  unfolding read_stored
  read_stored-Maintains id = search (maintains_rules, get-Maintains) depth 9

  read_each-Maintains :
      (read : Bytes → Action (World S) Manifest)
      → ((id : Bytes) → Maintains P (read id))
      → (objects : List StoredObject) → Maintains P (read_each S h r read objects)
  unfolding read_each
  read_each-Maintains read k [] = search maintains_rules
  read_each-Maintains read k (o ∷ objects) = elim (Option-cases (snapshot_of_key r o.key)) [
    | inl e ↦ rw (e, read_each) (read_each-Maintains read k objects)
    | inr (id, e) ↦
        let rest = read_each-Maintains read k objects in
        rw (e, read_each)
          (Maintains-bind _ _ (k id) (λ m. Maintains-bind _ _ rest (λ ms. Maintains-pure _)))
  ]

  snapshots_by-Maintains :
      (read : Bytes → Action (World S) Manifest)
      → ((id : Bytes) → Maintains P (read id))
      → Maintains P (snapshots_by S h r read)
  unfolding snapshots_by
  snapshots_by-Maintains read k =
      search (maintains_rules, list-Maintains, read_each-Maintains read k)

  read_within-Maintains : (fuel : ℕ) (id : Bytes) → Maintains P (read_manifest_within S h r fuel id)
  unfolding read_manifest_within
  read_within-Maintains zero id = search maintains_rules
  read_within-Maintains (suc fuel) id =
      let all =
        snapshots_by-Maintains (read_manifest_within S h r fuel) (read_within-Maintains fuel) in
      Maintains-if (id == str "latest") _ _ (Maintains-bind _ _ all (λ ms. Maintains-lift _))
        (read_stored-Maintains id)

  pub read_manifest-Maintains : (id : Bytes) → Maintains P (read_manifest S h r id)
  read_manifest-Maintains = read_within-Maintains 2

  pub snapshots-Maintains : Maintains P (snapshots S h r)
  snapshots-Maintains = snapshots_by-Maintains (read_manifest S h r) read_manifest-Maintains

pub snapshots_keep :
    (S : ObjectStore) (h : Host) (r : Repository) (w : World S) → (snapshots S h r w).1 ≡ w
snapshots_keep S h r w = (snapshots-Maintains S h r (λ w'. w' ≡ w)).at w refl

pub read_manifest_keeps :
    (S : ObjectStore) (h : Host) (r : Repository) (id : Bytes) (w : World S)
    → (read_manifest S h r id w).1 ≡ w
read_manifest_keeps S h r id w = (read_manifest-Maintains S h r (λ w'. w' ≡ w) id).at w refl
