-- ===== src/Snapshots/Laws.antt =====
-- What is published is read back, once, and never replaced.
use vestige.Prelude.{
  ℕ, ◌≡◌, Bytes, Option, some, Bool, true, false, arith, inl, inr, str, ◌==◌, contains_any, ◌||◌,
  [],
}
use vestige.Errors.{ok, err, Result-cases, Result}
use vestige.Actions.Maintains.{Maintains, maintains_rules}
use vestige.Host.{Host}
use vestige.Model.{Manifest}
use vestige.Manifest.{validate_manifest}
use vestige.Store.{ObjectStore, IsLawful, IsReliable}
use vestige.Repository.{Repository, World, store_put_if_absent, rand_read}
use vestige.Codec.{encrypt}
use vestige.Codec.RoundTrip.{IsFaithful, decrypt-encrypt}
use vestige.Chunks.Laws.{Keeps, put_Keeps, draw_Keeps, store-encrypt, encrypt-Maintains}
use vestige.Snapshots.{
  manifest_key, manifest_aad, manifest_bytes, publish_result, publish_manifest, open_manifest,
  read_manifest, read_manifest_within,
}

module _ (S : ObjectStore) (h : Host) (r : Repository) (P : World S → Type 0)
    (put : (key x : Bytes) → Maintains P (store_put_if_absent S key x))
    (draw : (n : ℕ) → Maintains P (rand_read S h n)) where
  publish_result-Maintains : (res : Result Bytes) → Maintains P (publish_result S h r res)
  unfolding publish_result
  publish_result-Maintains (ok v) = search maintains_rules
  publish_result-Maintains (err e) = search maintains_rules

  manifest_bytes-Maintains : (m : Manifest) → Maintains P (manifest_bytes S h r m)
  unfolding manifest_bytes
  manifest_bytes-Maintains m = search (maintains_rules, encrypt-Maintains S h r P put draw)

  pub publish_manifest-Maintains : (m : Manifest) → Maintains P (publish_manifest S h r m)
  unfolding publish_manifest
  publish_manifest-Maintains m =
      search (maintains_rules, manifest_bytes-Maintains, put, publish_result-Maintains) depth 9

-- Publishing a manifest, whether it succeeds or fails, leaves every object that was there as it was:
-- no snapshot is replaced.
pub publish_manifest-Keeps :
    (S : ObjectStore) (object : S.State → Bytes → Option Bytes) (L : IsLawful S object) (h : Host)
    (r : Repository) (m : Manifest) (w : World S)
    → Keeps S object w (publish_manifest S h r m w).1
publish_manifest-Keeps S object L h r m w =
    (publish_manifest-Maintains S h r (Keeps S object w) (put_Keeps S object L w)
        (draw_Keeps S object L w h) m).at
      w (λ j x e. e)

module _ (S : ObjectStore) (object : S.State → Bytes → Option Bytes) (accepts : Bytes → Bool)
    (healthy : S.State → Type 0) (L : IsLawful S object) (R : IsReliable S object accepts healthy)
    (h : Host) (F : IsFaithful h) (r : Repository) where
  -- An identifier of a single snapshot, not the selector, which names no directory.
  abbrev pub IsPlainId : Bytes → Type 0
  IsPlainId id =
      ((id == str "latest") ≡ false) × ((contains_any id (str "\\/") || id == []) ≡ false)

  read_published :
      (m : Manifest) (c x : Bytes) (w w' : World S)
      → IsPlainId m.snapshot_id
      → h.unmarshal_manifest c ≡ ok m
      → validate_manifest m ≡ ok tt
      → (encrypt S h r c (manifest_aad m.snapshot_id) w).0 ≡ ok x
      → accepts (manifest_key r m.snapshot_id) ≡ true
      → healthy w'.store
      → object w'.store (manifest_key r m.snapshot_id) ≡ some x
      → (read_manifest S h r m.snapshot_id w').0 ≡ ok m
  unfolding read_manifest_within open_manifest
  read_published m c x w w' i u v z a g o =
      let (n, got) = R.get_present (manifest_key r m.snapshot_id) w'.store x g a o in
      ground (arith, decrypt-encrypt S h F r c (manifest_aad m.snapshot_id) x w z)

  -- In a healthy store that accepts the key of the manifest, a snapshot that was published under a
  -- plain identifier is read back as the same manifest, when JSON decoding undoes the encoding of
  -- this manifest. The host is faithful.
  pub read_manifest-publish_manifest :
      (m : Manifest) (w : World S)
      → IsPlainId m.snapshot_id
      → ((c : Bytes) → h.marshal_manifest m ≡ ok c → h.unmarshal_manifest c ≡ ok m)
      → accepts (manifest_key r m.snapshot_id) ≡ true
      → healthy w.store
      → (publish_manifest S h r m w).0 ≡ ok tt
      → (read_manifest S h r m.snapshot_id (publish_manifest S h r m w).1).0 ≡ ok m
  unfolding publish_manifest manifest_bytes publish_result
  read_manifest-publish_manifest m w i u a g q = elim (Result-cases (validate_manifest m)) [
    | inr (y, v) ↦ absurd (ground arith)
    | inl (_, v) ↦ elim (Result-cases (h.marshal_manifest m)) [
      | inr (y, e) ↦ absurd (ground arith)
      | inl (c, e) ↦ elim (Result-cases (encrypt S h r c (manifest_aad m.snapshot_id) w).0) [
        | inr (y, z) ↦ absurd (ground arith)
        | inl (x, z) ↦
            let w₁ = (encrypt S h r c (manifest_aad m.snapshot_id) w).1 in
            let key = manifest_key r m.snapshot_id in
            let g₁ : healthy w₁.store =
              rw (store-encrypt S h r c (manifest_aad m.snapshot_id) w) g in
            elim (Result-cases (S.put_if_absent key x w₁.store).0) [
              | inr (y, p) ↦ absurd (ground arith)
              | inl (n, p) ↦
                  let there : object (S.put_if_absent key x w₁.store).1 key ≡ some x =
                    ground (arith, (L.put_ok key x w₁.store n p).1 key) in
                  rw (v, publish_manifest)
                    (rw (e, publish_manifest)
                      (rw (z, publish_manifest)
                        (rw (p, publish_manifest)
                          (read_published m c x w _ i (u c e) v z a
                            (R.put_healthy key x w₁.store g₁) there))))
            ]
      ]
    ]
  ]
