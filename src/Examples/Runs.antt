-- ===== src/Examples/Runs.antt =====
-- The theorems at concrete inputs.
use vestige.Gc.Runs.{garbage_collect_removes, garbage_collect_spares}
use vestige.Prelude.{
  ◌==◌, contains_any, ◌||◌, inl, arith, none, pos, ◌++◌, ◌≢◌, false, has_prefix, replicate, ◌≡◌,
  refl, Bytes, str, true, List, [], ◌∷◌,
}
use vestige.Codec.RoundTrip.{decode_chunk-encode_chunk, decrypt-encrypt}
use vestige.Paths.{key_base, chunk_key, is_chunk_id}
use vestige.Chunks.RoundTrip.{put_chunk-put_chunk, read_chunk-put_chunk}
use vestige.Model.{zstd}
use vestige.Snapshots.Laws.{publish_manifest-Keeps, read_manifest-publish_manifest}
use vestige.Chunks.Laws.{put_chunk-Keeps, Keeps, chunk_id-read_chunk}
use vestige.Lock.{recover_staging, WriteLock, acquire_write_lock, lock_key}
use vestige.Store.Local.{local_version, accepts, local_store}
use vestige.Codec.{decode_chunk, decrypt, encode_chunk, encrypt}
use vestige.Store.Contract.{IsVersioned, IsAtomic, IsResponsive}
use vestige.Store.Local.Versions.{local_store-IsVersioned}
use vestige.Store.Local.Answers.{local_store-IsResponsive}
use vestige.Gc.{GcStats, garbage_collect}
use vestige.Examples.{sample, pad, toy_host, toy_host-IsFaithful, disk, world, repository}
use vestige.Repository.{World}
use vestige.Snapshots.{manifest_key, publish_manifest, read_manifest, snapshots}
use vestige.Gc.Safety.{is_referenced}
use vestige.Errors.{ok}
use vestige.Store.Local.Laws.{file_at, IsHealthy, local_store-IsLawful, local_store-IsReliable}
use vestige.Chunks.{Stored, chunk_id, put_chunk, read_chunk}

abbrev contents : Bytes
contents = str "hello"

abbrev hello_id : Bytes
hello_id = str "68656c6c6f000000000000000000000000000000000000000000000000000000"

hello_key :
    chunk_key (chunk_id toy_host contents)
    ≡ ok (str "chunks/68/65/68656c6c6f000000000000000000000000000000000000000000000000000000")
unfolding chunk_key chunk_id vestige.Paths.chunk_path vestige.Paths.hex_encode
hello_key = refl

key_accepted :
    accepts (str "chunks/68/65/68656c6c6f000000000000000000000000000000000000000000000000000000")
    ≡ true
unfolding accepts vestige.Prelude.Bytes-discrete vestige.Prelude.has_prefix vestige.Prelude.has_byte
    vestige.Prelude.split_on
key_accepted = refl

hello_stored :
    (put_chunk (local_store pad) toy_host repository contents world).0
    ≡ ok (record { id = hello_id; created = true; stored_bytes = 38 })
unfolding put_chunk chunk_key vestige.Paths.chunk_path vestige.Paths.hex_encode
    vestige.Store.Local.get vestige.Prelude.Bytes-discrete vestige.Prelude.has_prefix
    vestige.Prelude.has_byte vestige.Prelude.split_on vestige.Prelude.lookup
    vestige.Errors.is_not_found vestige.Codec.encode_chunk vestige.Codec.encrypt
    vestige.Store.Local.put_if_absent
hello_stored = refl

abbrev hello_stored_as : Stored
hello_stored_as = record { id = hello_id; created = true; stored_bytes = 38 }

abbrev hello_at : Bytes
hello_at = str "chunks/68/65/68656c6c6f000000000000000000000000000000000000000000000000000000"

disk-IsHealthy : IsHealthy disk
disk-IsHealthy c key = refl

abbrev after_hello : World (local_store pad)
after_hello = (put_chunk (local_store pad) toy_host repository contents world).1

-- A disk with that chunk, compressed and encrypted.
abbrev hello_on_disk : World (local_store pad)
hello_on_disk = record world {
  store = record {
    files = (hello_at, replicate 28 0 ++ (86 ∷ 90 ∷ 48 ∷ 1 ∷ 0 ∷ contents)) ∷ [];
    fails = λ c key. none;
  };
}

hello_read :
    (read_chunk (local_store pad) toy_host repository hello_id hello_on_disk).0 ≡ ok contents
unfolding read_chunk chunk_key vestige.Paths.chunk_path vestige.Store.Local.get
    vestige.Prelude.Bytes-discrete has_prefix vestige.Prelude.has_byte vestige.Prelude.split_on
    vestige.Prelude.lookup decrypt decode_chunk vestige.Paths.hex_encode
hello_read = refl

chunk_id-read_chunk_example : chunk_id toy_host contents ≡ hello_id
chunk_id-read_chunk_example =
    chunk_id-read_chunk (local_store pad) toy_host repository hello_id contents hello_on_disk
      hello_read

put_chunk-Keeps_example :
    Keeps
      (local_store pad)
      file_at
      after_hello
      (put_chunk (local_store pad) toy_host repository (str "more") after_hello).1
put_chunk-Keeps_example =
    put_chunk-Keeps (local_store pad) file_at (local_store-IsLawful pad) toy_host repository
      (str "more") after_hello

read_chunk-put_chunk_example :
    (hello_id ≡ chunk_id toy_host contents)
    × ((d : Bytes) × ((read_chunk (local_store pad) toy_host repository hello_id after_hello).0
          ≡ ok d)
        × (chunk_id toy_host d ≡ chunk_id toy_host contents))
read_chunk-put_chunk_example =
    read_chunk-put_chunk (local_store pad) file_at accepts IsHealthy (local_store-IsLawful pad)
      (local_store-IsReliable pad) toy_host toy_host-IsFaithful repository contents hello_at
      hello_stored_as world hello_key key_accepted disk-IsHealthy hello_stored

put_chunk-put_chunk_example :
    put_chunk (local_store pad) toy_host repository contents after_hello
    ≡ (ok (record { id = hello_id; created = false; stored_bytes = 0 }), after_hello)
put_chunk-put_chunk_example =
    put_chunk-put_chunk (local_store pad) file_at accepts IsHealthy (local_store-IsLawful pad)
      (local_store-IsReliable pad) toy_host toy_host-IsFaithful repository contents hello_at
      hello_stored_as world hello_key key_accepted disk-IsHealthy hello_stored

abbrev nothing_more : Bytes
nothing_more = []

hello_encoded : encode_chunk toy_host zstd contents ≡ ok (86 ∷ 90 ∷ 48 ∷ 1 ∷ 0 ∷ contents)
unfolding encode_chunk str
hello_encoded = refl

decode_chunk-encode_chunk_example :
    decode_chunk toy_host zstd (86 ∷ 90 ∷ 48 ∷ 1 ∷ 0 ∷ contents) ≡ ok contents
decode_chunk-encode_chunk_example =
    decode_chunk-encode_chunk (local_store pad) toy_host toy_host-IsFaithful zstd contents
      (86 ∷ 90 ∷ 48 ∷ 1 ∷ 0 ∷ contents) hello_encoded

abbrev sealed_hello : Bytes
sealed_hello = replicate 28 0 ++ contents

hello_encrypted :
    (encrypt (local_store pad) toy_host repository contents (str "aad") world).0 ≡ ok sealed_hello
unfolding encrypt
hello_encrypted = refl

decrypt-encrypt_example : decrypt toy_host repository sealed_hello (str "aad") ≡ ok contents
decrypt-encrypt_example =
    decrypt-encrypt (local_store pad) toy_host toy_host-IsFaithful repository contents (str "aad")
      sealed_hello world hello_encrypted

local_store-IsVersioned_example :
    IsVersioned (local_store pad) file_at × IsAtomic (local_store pad) file_at
local_store-IsVersioned_example = local_store-IsVersioned pad

local_store-IsResponsive_example : IsResponsive (local_store pad) file_at accepts IsHealthy
local_store-IsResponsive_example = local_store-IsResponsive pad

abbrev after_publish : World (local_store pad)
after_publish = (publish_manifest (local_store pad) toy_host repository sample world).1

publish_manifest-Keeps_example :
    Keeps
      (local_store pad)
      file_at
      after_hello
      (publish_manifest (local_store pad) toy_host repository sample after_hello).1
publish_manifest-Keeps_example =
    publish_manifest-Keeps (local_store pad) file_at (local_store-IsLawful pad) toy_host repository
      sample after_hello

sample_plain :
    (str "s1" == str "latest" ≡ false)
    × ((contains_any (str "s1") (str "\\/") || str "s1" == []) ≡ false)
unfolding str vestige.Prelude.Bytes-discrete contains_any
sample_plain = (refl, refl)

sample_decoded :
    (c : Bytes)
    → toy_host.marshal_manifest sample ≡ ok c
    → toy_host.unmarshal_manifest c ≡ ok sample
sample_decoded c q = refl

sample_key_accepted : accepts (manifest_key repository (str "s1")) ≡ true
unfolding accepts vestige.Prelude.Bytes-discrete manifest_key has_prefix vestige.Prelude.has_byte
    vestige.Prelude.split_on
sample_key_accepted = refl

sample_published : (publish_manifest (local_store pad) toy_host repository sample world).0 ≡ ok tt
unfolding publish_manifest vestige.Manifest.validate_manifest vestige.Prelude.Bytes-discrete
    vestige.Manifest.check_entry vestige.Paths.validate_path has_prefix vestige.Prelude.has_byte
    vestige.Prelude.split_on vestige.Manifest.sum_chunks encrypt vestige.Store.Local.put_if_absent
    manifest_key vestige.Prelude.lookup
sample_published = refl

read_manifest-publish_manifest_example :
    (read_manifest (local_store pad) toy_host repository (str "s1") after_publish).0 ≡ ok sample
read_manifest-publish_manifest_example =
    read_manifest-publish_manifest (local_store pad) file_at accepts IsHealthy
      (local_store-IsLawful pad) (local_store-IsReliable pad) toy_host toy_host-IsFaithful
      repository sample world sample_plain sample_decoded sample_key_accepted disk-IsHealthy
      sample_published

-- A disk with a chunk that no snapshot refers to.
abbrev litter : Bytes
litter = str "chunks/x"

abbrev littered : World (local_store pad)
littered = record world { store = record { files = (litter, 1 ∷ []) ∷ []; fails = λ c key. none } }

abbrev store_lock : WriteLock
store_lock = record { version = local_version pad (2 ∷ b'\n' ∷ []) }

abbrev locked_litter : World (local_store pad)
locked_litter = record world {
  store = record {
    files = (litter, 1 ∷ []) ∷ (lock_key, 2 ∷ b'\n' ∷ []) ∷ [];
    fails = λ c key. none;
  };
}

lock_acquired :
    acquire_write_lock (local_store pad) toy_host (pos 0) littered ≡ (ok store_lock, locked_litter)
unfolding acquire_write_lock vestige.Lock.acquire_loop vestige.Store.Local.put_if_absent
    vestige.Prelude.Bytes-discrete has_prefix vestige.Prelude.has_byte vestige.Prelude.split_on
    put_chunk chunk_key vestige.Paths.chunk_path vestige.Paths.hex_encode vestige.Store.Local.get
    vestige.Prelude.lookup vestige.Errors.is_not_found encode_chunk encrypt vestige.Prelude.put
lock_acquired = refl

not_the_lock : lock_key ≢ litter
unfolding str
not_the_lock p = absurd (ground arith)

no_snapshots :
    (snapshots
      (local_store pad)
      toy_host
      repository
      (recover_staging (local_store pad) repository locked_litter).1).0
    ≡ ok []
unfolding vestige.Snapshots.snapshots_by vestige.Store.Local.list recover_staging has_prefix str
    vestige.Prelude.sort
no_snapshots = refl

garbage_collect_spares_example :
    file_at
      (garbage_collect (local_store pad) toy_host repository true (pos 0) littered).1.store
      litter
    ≡ file_at littered.store litter
garbage_collect_spares_example =
    garbage_collect_spares (local_store pad) toy_host file_at (local_store-IsLawful pad) repository
      true (pos 0) litter littered locked_litter store_lock not_the_lock lock_acquired (inl refl)

abbrev collected : GcStats
collected = record { reachable_chunks = 0; orphan_chunks = 1; reclaimed_bytes = 1; dry_run = false }

litter_collected :
    (garbage_collect (local_store pad) toy_host repository false (pos 0) littered).0 ≡ ok collected
unfolding garbage_collect vestige.Lock.with_lock acquire_write_lock vestige.Lock.acquire_loop
    vestige.Store.Local.put_if_absent vestige.Prelude.Bytes-discrete has_prefix
    vestige.Prelude.has_byte vestige.Prelude.split_on vestige.Prelude.lookup recover_staging
    vestige.Lock.sweep_staging vestige.Snapshots.snapshots_by vestige.Store.Local.list
    vestige.Prelude.put vestige.Gc.mark vestige.Prelude.sort vestige.Store.Local.delete
    vestige.Gc.collect_garbage vestige.Gc.remove_unless vestige.Gc.sweep str
    vestige.Store.Local.matching vestige.Store.Local.store_path vestige.Store.Local.system accepts
    vestige.Paths.is_bad_part key_base vestige.Paths.last_part vestige.Prelude.erase
    vestige.Snapshots.read_each vestige.Model.add_int64 vestige.Lock.release
litter_collected = refl

litter_is_chunk : has_prefix litter (str "chunks/") ≡ true
unfolding has_prefix str
litter_is_chunk = refl

litter_unreferenced : is_referenced (key_base litter) [] ≡ false
litter_unreferenced = refl

garbage_collect_removes_example :
    file_at
      (garbage_collect (local_store pad) toy_host repository false (pos 0) littered).1.store
      litter
    ≡ none
garbage_collect_removes_example =
    garbage_collect_removes (local_store pad) toy_host file_at (local_store-IsLawful pad) repository
      (pos 0) litter littered locked_litter store_lock collected [] not_the_lock lock_acquired
      no_snapshots litter_collected litter_is_chunk litter_unreferenced
