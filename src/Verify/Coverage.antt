-- ===== src/Verify/Coverage.antt =====
-- What a successful verification has verified.
use vestige.Prelude.{
  ◌≡◌, refl, ◌+◌, ◌∙◌, length, Bytes, true, false, List, [], ◌∷◌, inl, inr, arith, contains, sort,
  lt_bytes, contains-sort,
}
use vestige.Errors.{ok, Result-cases}
use vestige.Host.{Host}
use vestige.Model.{Manifest}
use vestige.Store.{ObjectStore}
use vestige.Repository.{Repository, World, VerifyState}
use vestige.Chunks.{chunk_id, read_chunk, verify_chunk}
use vestige.Chunks.Laws.{verify_chunk_keeps, read_chunk-verify_chunk, chunk_id-read_chunk}
use vestige.Snapshots.Reads.{snapshots_keep, read_manifest_keeps}
use vestige.Gc.{mark}
use vestige.Gc.Safety.{is_referenced, contains-mark}
use vestige.Verify.{
  VerifyReport, verify_loop, verify_manifests, load_verify_state, verify_with_options,
}

module _ (S : ObjectStore) (h : Host) (r : Repository) where
  verify_loop_all :
      (ids : List Bytes) (st : VerifyState) (report out : VerifyReport) (w : World S) (id : Bytes)
      → st.verified ≡ []
      → (verify_loop S h r false ids st report w).0 ≡ ok out
      → contains ids id ≡ true
      → (verify_chunk S h r id w).0 ≡ ok tt
  unfolding verify_loop
  verify_loop_all [] st report out w id e q c = absurd (ground arith)
  verify_loop_all (i ∷ ids) st report out w id e q c =
      elim (Result-cases (verify_chunk S h r i w).0) [
        | inr (x, v) ↦ absurd (ground arith)
        | inl (_, v) ↦ ground (
          arith,
          verify_chunk_keeps S h r i w,
          verify_loop_all ids st (record report { verified_chunks = report.verified_chunks + 1 })
              out w id e,
        )
      ]

  verify_manifests_keeps :
      (selector : Bytes) (w : World S) → (verify_manifests S h r selector w).1 ≡ w
  unfolding verify_manifests
  verify_manifests_keeps selector w =
      ground (arith, snapshots_keep S h r w, read_manifest_keeps S h r selector w)

  -- After a verification without a checkpoint that succeeded, every chunk that a manifest it read refers
  -- to can be read, and has the hash that its identifier says.
  pub verify_with_options_all :
      (selector : Bytes) (out : VerifyReport) (ms : List Manifest) (w : World S) (id : Bytes)
      → (verify_manifests S h r selector w).0 ≡ ok ms
      → (verify_with_options S h r selector false w).0 ≡ ok out
      → is_referenced id ms ≡ true
      → (d : Bytes) × ((read_chunk S h r id w).0 ≡ ok d) × (chunk_id h d ≡ id)
  unfolding verify_with_options load_verify_state
  verify_with_options_all selector out ms w id q g c =
      let ordered = sort lt_bytes (mark [] ms) in
      let st : VerifyState = record { repository = r.root; selector = selector; verified = [] } in
      let report : VerifyReport = record {
        snapshots = length ms;
        chunks = length ordered;
        verified_chunks = 0;
        resumed_chunks = 0;
      } in
      elim (Result-cases (verify_loop S h r false ordered st report w).0) [
        | inr (x, e) ↦ absurd (ground (arith, verify_manifests_keeps selector w))
        | inl (res, e) ↦
            let listed = contains-sort lt_bytes (mark [] ms) id ∙ contains-mark ms id ∙ c in
            let verified = verify_loop_all ordered st report res w id refl e listed in
            let (d, p) = read_chunk-verify_chunk S h r id w verified in
            (d, p, chunk_id-read_chunk S h r id d w p)
      ]
