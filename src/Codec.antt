-- ===== src/Codec.antt =====
-- internal/repository/repository.go: seal, openSealed, encrypt, decrypt, encodeChunk, decodeChunk.
pub mod RoundTrip
use vestige.Prelude.{suc}
use vestige.Prelude.{zero}
use vestige.Prelude.{
  ℕ, ◌+◌, ◌||◌, not, Bytes, Option, none, some, List, [], ◌∷◌, ◌++◌, ltb, leb, if◌then◌else◌,
  length, take, drop, get_or, str, ◌==◌,
}
use vestige.Errors.{Result, ok, err, message, wrapping}
use vestige.Actions.{Action, ◌>>=◌, ◌>>◌, pure, raise, lift}
use vestige.Model.{Compression, unset, plain, gzip, zstd, other}
use vestige.Host.{Host}
use vestige.Store.{ObjectStore}
use vestige.Repository.{Repository, World, rand_read}

-- gcm.NonceSize() and gcm.Overhead()
abbrev pub nonce_size : ℕ
nonce_size = 12

abbrev pub overhead : ℕ
overhead = 16

module _ (h : Host) where
  unfoldable pub open_sealed : Bytes → Bytes → Bytes → Result Bytes
  open_sealed key sealed aad = elim (h.new_cipher key) [
    | err e ↦ err e
    | ok _ ↦
        if ltb (length sealed) (nonce_size + overhead)
        then err (message "encrypted data is truncated")
        else h.gcm_open key (take nonce_size sealed) (drop nonce_size sealed) aad
  ]

  unfoldable pub decrypt : Repository → Bytes → Bytes → Result Bytes
  unfolding open_sealed
  decrypt r contents aad = elim r.key [
    | none ↦ ok contents
    | some key ↦ open_sealed key contents aad
  ]

  -- 'V', 'Z', '0', 1, and the representation
  unfoldable pub envelope : ℕ → Bytes → Bytes
  envelope n contents = 86 ∷ 90 ∷ 48 ∷ 1 ∷ n ∷ contents

  -- Every policy but "none" and "zstd" is gzip.
  unfoldable pub encode_chunk : Compression → Bytes → Result Bytes
  unfolding envelope
  encode_chunk plain contents = ok contents
  encode_chunk zstd contents =
      let compressed = h.zstd_encode contents in
      if leb (length contents) (length compressed)
      then ok (envelope 0 contents)
      else ok (envelope 1 compressed)
  encode_chunk _ contents = h.gzip_encode contents

  open_envelope : Bytes → Result Bytes
  open_envelope stored = elim (get_or 0 stored 4) [
    | zero ↦ ok (drop 5 stored)
    | suc n ↦
        if leb 1 n
        then err (message "unknown zstd chunk representation")
        else h.zstd_decode (drop 5 stored)
  ]

  unfoldable pub decode_chunk : Compression → Bytes → Result Bytes
  unfolding open_envelope
  decode_chunk plain stored = ok stored
  decode_chunk zstd stored =
      if ltb (length stored) 5 || not (take 4 stored == 86 ∷ 90 ∷ 48 ∷ 1 ∷ [])
      then err (message "invalid zstd chunk envelope")
      else open_envelope stored
  decode_chunk _ stored = h.gzip_decode stored

module _ (S : ObjectStore) (h : Host) where
  unfoldable pub seal : Bytes → Bytes → Bytes → Action (World S) Bytes
  seal key contents aad = do
    lift (h.new_cipher key)
    nonce ← rand_read S h nonce_size
    pure (nonce ++ h.gcm_seal key nonce contents aad)

  unfoldable pub encrypt : Repository → Bytes → Bytes → Action (World S) Bytes
  unfolding seal
  encrypt r contents aad = elim r.key [ none ↦ pure contents | some key ↦ seal key contents aad ]
