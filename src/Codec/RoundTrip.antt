-- ===== src/Codec/RoundTrip.antt =====
-- Decoding undoes encoding.
use vestige.Prelude.{
  inr, inl, Option-cases, ◌≡◌, ℕ, ◌+◌, Bytes, arith, length, take, drop, zero, suc, ◌++◌,
  length-append, refl, ◌∷◌, [],
}
use vestige.Errors.{Result-cases, ok}
use vestige.Model.{Compression, plain, zstd}
use vestige.Codec.{
  overhead, nonce_size, encode_chunk, decode_chunk, encrypt, decrypt, seal, open_sealed,
}
use vestige.Host.{Host}
use vestige.Store.{ObjectStore}
use vestige.Repository.{Repository, World}

-- What is relied on of the compressors, of AES-GCM and of the random source: decompressing undoes
-- compressing, opening undoes sealing under the same key, nonce and additional data, a sealed text
-- is longer by the overhead, and a read of the random source gives as many bytes as were asked for.
pub record IsFaithful (h : Host) : Type 0 where
  pub zstd_round : (d : Bytes) → h.zstd_decode (h.zstd_encode d) ≡ ok d
  pub gzip_round : (d e : Bytes) → h.gzip_encode d ≡ ok e → h.gzip_decode e ≡ ok d
  pub gcm_round :
      (key nonce d aad : Bytes) → h.gcm_open key nonce (h.gcm_seal key nonce d aad) aad ≡ ok d
  pub gcm_length :
      (key nonce d aad : Bytes) → length (h.gcm_seal key nonce d aad) ≡ length d + overhead
  pub entropy_length : (n size : ℕ) (b : Bytes) → h.entropy n size ≡ ok b → length b ≡ size

take-append : (n : ℕ) (xs ys : Bytes) → length xs ≡ n → take n (xs ++ ys) ≡ xs
take-append zero [] ys h = refl
take-append zero (x ∷ xs) ys h = absurd (omega arith)
take-append (suc n) [] ys h = absurd (omega arith)
take-append (suc n) (x ∷ xs) ys h = ground (arith, take-append n xs ys (omega arith))

drop-append : (n : ℕ) (xs ys : Bytes) → length xs ≡ n → drop n (xs ++ ys) ≡ ys
drop-append zero [] ys h = refl
drop-append zero (x ∷ xs) ys h = absurd (omega arith)
drop-append (suc n) [] ys h = absurd (omega arith)
drop-append (suc n) (x ∷ xs) ys h = drop-append n xs ys (omega arith)

module _ (S : ObjectStore) (h : Host) (F : IsFaithful h) where
  -- A chunk that was encoded under a compression policy is decoded to the same bytes under it.
  pub decode_chunk-encode_chunk :
      (c : Compression) (d e : Bytes) → encode_chunk h c d ≡ ok e → decode_chunk h c e ≡ ok d
  unfolding encode_chunk decode_chunk
  decode_chunk-encode_chunk plain d e q = ground arith
  decode_chunk-encode_chunk zstd d e q = ground (arith, F.zstd_round d)
  decode_chunk-encode_chunk _ d e q = ground (arith, F.gzip_round d e)

  open_after :
      (key nonce d aad : Bytes)
      → h.new_cipher key ≡ ok tt
      → length nonce ≡ nonce_size
      → open_sealed h key (nonce ++ h.gcm_seal key nonce d aad) aad ≡ ok d
  unfolding open_sealed
  open_after key nonce d aad c n =
      rw
        (
          c,
          take-append nonce_size nonce (h.gcm_seal key nonce d aad) n,
          drop-append nonce_size nonce (h.gcm_seal key nonce d aad) n,
          open_sealed,
        )
        (ground (
          arith,
          F.gcm_round key nonce d aad,
          F.gcm_length key nonce d aad,
          length-append nonce (h.gcm_seal key nonce d aad),
        ))

  pub open_sealed-seal :
      (key d aad e : Bytes) (w : World S)
      → (seal S h key d aad w).0 ≡ ok e
      → open_sealed h key e aad ≡ ok d
  unfolding seal
  open_sealed-seal key d aad e w q = elim (Result-cases (h.new_cipher key)) [
    | inl (_, c) ↦ elim (Result-cases (h.entropy w.draws nonce_size)) [
      | inl (nonce, z) ↦
          ground (arith, open_after key nonce d aad c (F.entropy_length w.draws nonce_size nonce z))
      | inr (x, z) ↦ absurd (ground arith)
    ]
    | inr (x, c) ↦ absurd (ground arith)
  ]

  -- What was encrypted is decrypted to the same bytes by a repository with the same key, under the
  -- same additional data.
  pub decrypt-encrypt :
      (r : Repository) (d aad e : Bytes) (w : World S)
      → (encrypt S h r d aad w).0 ≡ ok e
      → decrypt h r e aad ≡ ok d
  unfolding encrypt decrypt
  decrypt-encrypt r d aad e w q = elim (Option-cases r.key) [
    | inl n ↦ ground arith
    | inr (key, k) ↦ rw (k, decrypt) (open_sealed-seal key d aad e w (rw (k, encrypt) at q))
  ]
