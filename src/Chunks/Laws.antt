-- ===== src/Chunks/Laws.antt =====
-- Chunks are stored once, and what is read back has the hash that its identifier says.
use vestige.Store.Failures.{put_failed_keeps}
use vestige.Actions.Maintains.{Maintains-pure, maintains_rules, Maintains}
use vestige.Prelude.{Option-cases, ℕ, ◌≡◌, Bytes, Option, some, arith, inl, inr}
use vestige.Codec.{seal, encrypt}
use vestige.Repository.{store_get, rand_read, store_put_if_absent, Repository, World}
use vestige.Chunks.{
  chunk_id, open_chunk, verify_chunk, read_chunk, reuse, after_put, store_new, put_if_missing,
  put_chunk,
}
use vestige.Errors.{ok, err, Result-cases, Result}
use vestige.Host.{Host}
use vestige.Store.{ObjectStore, IsLawful}

open_chunk-id :
    (h : Host) (r : Repository) (id stored d : Bytes)
    → open_chunk h r id stored ≡ ok d
    → chunk_id h d ≡ id
unfolding open_chunk
open_chunk-id h r id stored d q = ground arith

module _ (S : ObjectStore) (h : Host) (r : Repository) where
  -- Whatever the store returns, a chunk that is read has the hash that was asked for.
  pub chunk_id-read_chunk :
      (id d : Bytes) (w : World S) → (read_chunk S h r id w).0 ≡ ok d → chunk_id h d ≡ id
  unfolding read_chunk
  chunk_id-read_chunk id d w q = ground arith

  pub read_chunk_keeps : (id : Bytes) (w : World S) → (read_chunk S h r id w).1 ≡ w
  unfolding read_chunk
  read_chunk_keeps id w = ground arith

  pub verify_chunk_keeps : (id : Bytes) (w : World S) → (verify_chunk S h r id w).1 ≡ w
  unfolding verify_chunk
  verify_chunk_keeps id w = ground arith

  pub read_chunk-verify_chunk :
      (id : Bytes) (w : World S)
      → (verify_chunk S h r id w).0 ≡ ok tt
      → (d : Bytes) × ((read_chunk S h r id w).0 ≡ ok d)
  unfolding verify_chunk read_chunk
  read_chunk-verify_chunk id w q = elim (Result-cases (read_chunk S h r id w).0) [
    | inl (d, e) ↦ (d, e)
    | inr (x, e) ↦ absurd (ground arith)
  ]

  pub store-encrypt : (d aad : Bytes) (w : World S) → (encrypt S h r d aad w).1.store ≡ w.store
  unfolding encrypt
  store-encrypt d aad w = ground arith

  module _ (P : World S → Type 0)
      (put : (key x : Bytes) → Maintains P (store_put_if_absent S key x))
      (draw : (n : ℕ) → Maintains P (rand_read S h n)) where
    pub get-Maintains : (key : Bytes) → Maintains P (store_get S key)
    get-Maintains key = record { at = λ w p. p }

    seal-Maintains : (key d aad : Bytes) → Maintains P (seal S h key d aad)
    unfolding seal
    seal-Maintains key d aad = search (maintains_rules, draw)

    pub encrypt-Maintains : (d aad : Bytes) → Maintains P (encrypt S h r d aad)
    unfolding encrypt
    encrypt-Maintains d aad = elim (Option-cases r.key) [
      | inl e ↦ rw (e, encrypt) (Maintains-pure d)
      | inr (key, e) ↦ rw (e, encrypt) (seal-Maintains key d aad)
    ]

    pub verify_chunk-Maintains : (id : Bytes) → Maintains P (verify_chunk S h r id)
    unfolding verify_chunk
    verify_chunk-Maintains id = search (maintains_rules, get-Maintains)

    reuse-Maintains : (id : Bytes) → Maintains P (reuse S h r id)
    unfolding reuse
    reuse-Maintains id = search (maintains_rules, verify_chunk-Maintains)

    after_put-Maintains :
        (id stored : Bytes) (res : Result Bytes) → Maintains P (after_put S h r id stored res)
    unfolding after_put
    after_put-Maintains id stored (ok v) = search maintains_rules
    after_put-Maintains id stored (err e) = search (maintains_rules, reuse-Maintains)

    store_new-Maintains : (id key d : Bytes) → Maintains P (store_new S h r id key d)
    unfolding store_new
    store_new-Maintains id key d =
        search (maintains_rules, put, encrypt-Maintains, after_put-Maintains) depth 9

    put_if_missing-Maintains :
        (id key d : Bytes) (res : Result (Bytes × Bytes))
        → Maintains P (put_if_missing S h r id key d res)
    unfolding put_if_missing
    put_if_missing-Maintains id key d (ok v) = search (maintains_rules, reuse-Maintains)
    put_if_missing-Maintains id key d (err e) = search (maintains_rules, store_new-Maintains)

    pub put_chunk-Maintains : (d : Bytes) → Maintains P (put_chunk S h r d)
    unfolding put_chunk
    put_chunk-Maintains d =
        search (maintains_rules, get-Maintains, put_if_missing-Maintains) depth 9

-- The store has all objects of an earlier state unchanged.
abbrev pub Keeps : (S : ObjectStore) → (S.State → Bytes → Option Bytes) → World S → World S → Type 0
Keeps S object w w' = (j x : Bytes) → object w.store j ≡ some x → object w'.store j ≡ some x

module _ (S : ObjectStore) (object : S.State → Bytes → Option Bytes) (L : IsLawful S object)
    (w₀ : World S) where
  pub put_Keeps : (key x : Bytes) → Maintains (Keeps S object w₀) (store_put_if_absent S key x)
  put_Keeps key x = record {
    at = λ w k j y e. elim (Result-cases (S.put_if_absent key x w.store).0) [
      | inl (v, q) ↦
          ground (arith, L.put_ok key x w.store v q, (L.put_ok key x w.store v q).1 j, k j y e)
      | inr (a, q) ↦ put_failed_keeps S object L key x j y w.store a q (k j y e)
    ];
  }

  pub draw_Keeps : (h : Host) (n : ℕ) → Maintains (Keeps S object w₀) (rand_read S h n)
  draw_Keeps h n = record { at = λ w k. k }

-- Storing a chunk, whether it succeeds or fails, leaves every object that was there as it was.
pub put_chunk-Keeps :
    (S : ObjectStore) (object : S.State → Bytes → Option Bytes) (L : IsLawful S object) (h : Host)
    (r : Repository) (d : Bytes) (w : World S)
    → Keeps S object w (put_chunk S h r d w).1
put_chunk-Keeps S object L h r d w =
    (put_chunk-Maintains S h r (Keeps S object w) (put_Keeps S object L w)
        (draw_Keeps S object L w h) d).at
      w (λ j x e. e)
