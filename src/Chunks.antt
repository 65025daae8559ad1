-- ===== src/Chunks.antt =====
-- internal/repository/repository.go: PutChunk, verifyChunk, readChunk.
pub mod Laws
pub mod RoundTrip
use vestige.Prelude.{Bool, true, false, not, Bytes, ◌++◌, if◌then◌else◌, length, str, ◌==◌}
use vestige.Errors.{Error, Result, ok, err, message, wrap, wrapping, is_not_found, is_exists}
use vestige.Actions.{Action, ◌>>=◌, ◌>>◌, pure, raise, lift, wrapped, attempt}
use vestige.Model.{Int64, len64}
use vestige.Paths.{chunk_key, hex_encode}
use vestige.Host.{Host}
use vestige.Store.{ObjectStore}
use vestige.Repository.{Repository, World, store_get, store_put_if_absent}
use vestige.Codec.{decrypt, encrypt, encode_chunk, decode_chunk}

-- What PutChunk returns.
pub record Stored : Type 0 where
  pub id : Bytes
  pub created : Bool
  pub stored_bytes : Int64

abbrev pub chunk_aad : Bytes → Bytes
chunk_aad id = str "vestige/chunk/" ++ id

module _ (h : Host) where
  -- The identifier of a chunk: the hexadecimal hash of its plain bytes.
  unfoldable pub chunk_id : Bytes → Bytes
  chunk_id contents = hex_encode (h.sha256 contents)

  -- The stored bytes of a chunk, opened, decoded and compared with the identifier.
  unfoldable pub open_chunk : Repository → Bytes → Bytes → Result Bytes
  unfolding chunk_id
  open_chunk r id stored = elim (wrapping "decrypt chunk" (decrypt h r stored (chunk_aad id))) [
    | err e ↦ err e
    | ok opened ↦ elim (wrapping "read chunk" (decode_chunk h r.config.compression opened)) [
      | err e ↦ err e
      | ok contents ↦ if chunk_id contents == id then ok contents else err (message "corrupt chunk")
    ]
  ]

module _ (S : ObjectStore) (h : Host) where
  unfoldable pub verify_chunk : Repository → Bytes → Action (World S) (Unit {0})
  unfolding open_chunk
  verify_chunk r id = do
    key ← lift (chunk_key id)
    (stored, _) ← wrapped "open chunk" (store_get S key)
    lift (open_chunk h r id stored)
    pure tt

  unfoldable pub read_chunk : Repository → Bytes → Action (World S) Bytes
  unfolding open_chunk
  read_chunk r id = do
    key ← lift (chunk_key id)
    (stored, _) ← store_get S key
    lift (open_chunk h r id stored)

  -- A chunk that is there already is verified and reused.
  reuse : Repository → Bytes → Action (World S) Stored
  unfolding verify_chunk
  reuse r id = do verify_chunk r id; pure (record { id = id; created = false; stored_bytes = 0 })

  -- After PutIfAbsent: another writer may have stored the chunk meanwhile.
  after_put : Repository → Bytes → Bytes → Result Bytes → Action (World S) Stored
  unfolding reuse
  after_put r id stored (ok _) =
      pure (record { id = id; created = true; stored_bytes = len64 stored })
  after_put r id stored (err e) = if is_exists e then reuse r id else raise (wrap "store chunk" e)

  store_new : Repository → Bytes → Bytes → Bytes → Action (World S) Stored
  unfolding after_put
  store_new r id key contents = do
    encoded ← lift (encode_chunk h r.config.compression contents)
    stored ← encrypt S h r encoded (chunk_aad id)
    published ← attempt (store_put_if_absent S key stored)
    after_put r id stored published

  put_if_missing :
      Repository → Bytes → Bytes → Bytes → Result (Bytes × Bytes) → Action (World S) Stored
  unfolding reuse store_new
  put_if_missing r id key contents (ok _) = reuse r id
  put_if_missing r id key contents (err e) =
      if is_not_found e then store_new r id key contents else raise e

  unfoldable pub put_chunk : Repository → Bytes → Action (World S) Stored
  unfolding put_if_missing chunk_id
  put_chunk r contents = do
    let id = chunk_id h contents
    key ← lift (chunk_key id)
    existing ← attempt (store_get S key)
    put_if_missing r id key contents existing
