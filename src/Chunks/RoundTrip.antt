-- ===== src/Chunks/RoundTrip.antt =====
-- A chunk that was stored is read back.
use vestige.Prelude.{
  ◌∙◌, false, Bool-cases, ◌≡◌, Bytes, Option, some, Bool, true, arith, inl, inr, refl,
}
use vestige.Errors.{is_not_found, ok, Result-cases, is_exists}
use vestige.Chunks.Laws.{
  verify_chunk_keeps, read_chunk-verify_chunk, store-encrypt, chunk_id-read_chunk,
}
use vestige.Host.{Host}
use vestige.Store.{ObjectStore, IsLawful, IsReliable}
use vestige.Repository.{Repository, World, store_put_if_absent}
use vestige.Codec.{encrypt, encode_chunk}
use vestige.Codec.RoundTrip.{IsFaithful, decrypt-encrypt, decode_chunk-encode_chunk}
use vestige.Paths.{chunk_key}
use vestige.Chunks.{
  Stored, chunk_id, chunk_aad, open_chunk, verify_chunk, read_chunk, reuse, after_put, store_new,
  put_if_missing, put_chunk,
}

module _ (S : ObjectStore) (object : S.State → Bytes → Option Bytes) (accepts : Bytes → Bool)
    (healthy : S.State → Type 0) (L : IsLawful S object) (R : IsReliable S object accepts healthy)
    (h : Host) (F : IsFaithful h) (r : Repository) where
  -- A chunk with the hash that the identifier says can be read.
  abbrev pub IsReadable : Bytes → World S → Type 0
  IsReadable id w = (d : Bytes) × ((read_chunk S h r id w).0 ≡ ok d)

  reuse-IsReadable :
      (id : Bytes) (st : Stored) (w : World S)
      → (reuse S h r id w).0 ≡ ok st
      → (st.id ≡ id) × IsReadable id (reuse S h r id w).1
  unfolding reuse
  reuse-IsReadable id st w q = elim (Result-cases (verify_chunk S h r id w).0) [
    | inl (_, v) ↦
        let (d, e) = read_chunk-verify_chunk S h r id w v in
        (ground arith, (d, ground (arith, verify_chunk_keeps S h r id w)))
    | inr (e, v) ↦ absurd (ground arith)
  ]

  read_stored :
      (id key d c x : Bytes) (w w' : World S)
      → chunk_key id ≡ ok key
      → chunk_id h d ≡ id
      → encode_chunk h r.config.compression d ≡ ok c
      → (encrypt S h r c (chunk_aad id) w).0 ≡ ok x
      → accepts key ≡ true
      → healthy w'.store
      → object w'.store key ≡ some x
      → (read_chunk S h r id w').0 ≡ ok d
  unfolding read_chunk open_chunk
  read_stored id key d c x w w' k i e z a g o =
      let (v, got) = R.get_present key w'.store x g a o in
      ground (
        arith,
        decrypt-encrypt S h F r c (chunk_aad id) x w z,
        decode_chunk-encode_chunk S h F r.config.compression d c e,
      )

  after_put-IsReadable :
      (id key d c x : Bytes) (st : Stored) (w : World S)
      → chunk_key id ≡ ok key
      → chunk_id h d ≡ id
      → encode_chunk h r.config.compression d ≡ ok c
      → (encrypt S h r c (chunk_aad id) w).0 ≡ ok x
      → accepts key ≡ true
      → healthy w.store
      → let w₁ = (encrypt S h r c (chunk_aad id) w).1 in
        let published = store_put_if_absent S key x w₁ in
        (after_put S h r id x published.0 published.1).0 ≡ ok st
        → (st.id ≡ id) × IsReadable id (after_put S h r id x published.0 published.1).1
  unfolding after_put
  after_put-IsReadable id key d c x st w k i e z a g q =
      let w₁ = (encrypt S h r c (chunk_aad id) w).1 in
      let g₁ : healthy w₁.store = rw (store-encrypt S h r c (chunk_aad id) w) g in
      elim (Result-cases (S.put_if_absent key x w₁.store).0) [
        | inl (v, p) ↦
            let there : object (S.put_if_absent key x w₁.store).1 key ≡ some x =
              ground (arith, (L.put_ok key x w₁.store v p).1 key) in
            rw (p, after_put)
              (
                ground arith,
                (d, read_stored id key d c x w _ k i e z a (R.put_healthy key x w₁.store g₁) there),
              )
        | inr (y, p) ↦ elim (Bool-cases (is_exists y)) [
          | inl t ↦
              let w₂ : World S = record w₁ { store = (S.put_if_absent key x w₁.store).1 } in
              let m = reuse-IsReadable id st w₂ (ground arith) in
              rw (p, after_put) (rw (t, after_put) m)
          | inr f ↦ absurd (ground arith)
        ]
      ]

  store_new-IsReadable :
      (id key d : Bytes) (st : Stored) (w : World S)
      → chunk_key id ≡ ok key
      → chunk_id h d ≡ id
      → accepts key ≡ true
      → healthy w.store
      → (store_new S h r id key d w).0 ≡ ok st
      → (st.id ≡ id) × IsReadable id (store_new S h r id key d w).1
  unfolding store_new
  store_new-IsReadable id key d st w k i a g q =
      elim (Result-cases (encode_chunk h r.config.compression d)) [
        | inr (y, e) ↦ absurd (ground arith)
        | inl (c, e) ↦ elim (Result-cases (encrypt S h r c (chunk_aad id) w).0) [
          | inr (y, z) ↦ absurd (ground arith)
          | inl (x, z) ↦
              rw (e, store_new)
                (rw (z, store_new)
                  (after_put-IsReadable id key d c x st w k i e z a g (ground arith)))
        ]
      ]

  put_if_missing-IsReadable :
      (id key d : Bytes) (st : Stored) (w : World S)
      → chunk_key id ≡ ok key
      → chunk_id h d ≡ id
      → accepts key ≡ true
      → healthy w.store
      → (put_if_missing S h r id key d (S.get key w.store) w).0 ≡ ok st
      → (st.id ≡ id) × IsReadable id (put_if_missing S h r id key d (S.get key w.store) w).1
  unfolding put_if_missing
  put_if_missing-IsReadable id key d st w k i a g q = elim (Result-cases (S.get key w.store)) [
    | inl (found, e) ↦ let m = reuse-IsReadable id st w (ground arith) in rw (e, put_if_missing) m
    | inr (y, e) ↦ elim (Bool-cases (is_not_found y)) [
      | inl t ↦
          let m = store_new-IsReadable id key d st w k i a g (ground arith) in
          rw (e, put_if_missing) (rw (t, put_if_missing) m)
      | inr f ↦ absurd (ground arith)
    ]
  ]

  -- In a healthy store that accepts the key of the chunk, a chunk that PutChunk has accepted,
  -- newly stored or reused, is under the identifier of its contents, and reading it afterwards
  -- gives contents with the same hash. The host is faithful.
  pub read_chunk-put_chunk :
      (d key : Bytes) (st : Stored) (w : World S)
      → chunk_key (chunk_id h d) ≡ ok key
      → accepts key ≡ true
      → healthy w.store
      → (put_chunk S h r d w).0 ≡ ok st
      → (st.id ≡ chunk_id h d)
        × ((d' : Bytes) × ((read_chunk S h r st.id (put_chunk S h r d w).1).0 ≡ ok d')
            × (chunk_id h d' ≡ chunk_id h d))
  unfolding put_chunk
  read_chunk-put_chunk d key st w k a g q =
      let id = chunk_id h d in
      let (same, (d', e)) = put_if_missing-IsReadable id key d st w k refl a g (ground arith) in
      rw (same, k, put_chunk) (refl, (d', e, chunk_id-read_chunk S h r id d' _ e))

  put_readable :
      (d d' key : Bytes) (w : World S)
      → chunk_key (chunk_id h d) ≡ ok key
      → (read_chunk S h r (chunk_id h d) w).0 ≡ ok d'
      → put_chunk S h r d w
        ≡ (ok (record { id = chunk_id h d; created = false; stored_bytes = 0 }), w)
  unfolding put_chunk put_if_missing reuse verify_chunk read_chunk
  put_readable d d' key w k e = ground arith

  -- Deduplication: in a healthy store that accepts the key of the chunk, when storing some
  -- contents has succeeded, storing them again creates nothing, writes no byte, changes nothing,
  -- and returns the same identifier. The host is faithful.
  pub put_chunk-put_chunk :
      (d key : Bytes) (st : Stored) (w : World S)
      → chunk_key (chunk_id h d) ≡ ok key
      → accepts key ≡ true
      → healthy w.store
      → (put_chunk S h r d w).0 ≡ ok st
      → put_chunk S h r d (put_chunk S h r d w).1
        ≡ (ok (record { id = st.id; created = false; stored_bytes = 0 }), (put_chunk S h r d w).1)
  put_chunk-put_chunk d key st w k a g q =
      let (same, (d', e, _)) = read_chunk-put_chunk d key st w k a g q in
      put_readable d d' key _ k (rw (← same) e) ∙ rw same refl
