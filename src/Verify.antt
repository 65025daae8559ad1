-- ===== src/Verify.antt =====
-- internal/repository/verify.go: verifying the chunks of one or all snapshots, with a checkpoint.
pub mod Coverage
use vestige.Prelude.{
  ℕ, ◌+◌, Bool, true, false, not, ◌||◌, Bytes, Option, none, some, List, [], ◌∷◌, if◌then◌else◌,
  ◌==◌, contains, insert, length, sort, lt_bytes,
}
use vestige.Errors.{Result, ok, err, message, wrap, external}
use vestige.Actions.{Action, ◌>>=◌, ◌>>◌, pure, wrapped}
use vestige.Model.{Manifest}
use vestige.Host.{Host}
use vestige.Store.{ObjectStore}
use vestige.Repository.{Repository, World, VerifyState}
use vestige.Snapshots.{read_manifest, snapshots}
use vestige.Chunks.{verify_chunk}
use vestige.Gc.{mark}

pub record VerifyReport : Type 0 where
  pub snapshots : ℕ
  pub chunks : ℕ
  pub verified_chunks : ℕ
  pub resumed_chunks : ℕ

module _ (S : ObjectStore) (h : Host) where
  unfoldable pub verify_manifests : Repository → Bytes → Action (World S) (List Manifest)
  verify_manifests r id =
      if id == [] then snapshots S h r else (do m ← read_manifest S h r id; pure (m ∷ []))

  -- What the checkpoint file says: nothing, an error, or a state that must be of this run.
  accept_state : Repository → Bytes → Option (Result VerifyState) → Result VerifyState
  accept_state r selector none =
      ok (record { repository = r.root; selector = selector; verified = [] })
  accept_state r selector (some (err e)) = err (wrap "read verification checkpoint" e)
  accept_state r selector (some (ok st)) =
      if not (st.repository == r.root) || not (st.selector == selector)
      then err
          (message "verification checkpoint belongs to a different repository or snapshot selector")
      else ok st

  unfoldable pub load_verify_state : Repository → Bytes → Bool → Action (World S) VerifyState
  unfolding accept_state
  load_verify_state r selector with_state w =
      if with_state
      then (accept_state r selector w.checkpoint.contents, w)
      else (ok (record { repository = r.root; selector = selector; verified = [] }), w)

  -- writeJSONAtomic of the checkpoint
  write_state : VerifyState → Action (World S) (Unit {0})
  write_state st w = elim w.checkpoint.write_fault [
    | some n ↦ (err (wrap "write verification checkpoint" (external n)), w)
    | none ↦ (ok tt, record w { checkpoint = record (w.checkpoint) { contents = some (ok st) } })
  ]

  -- os.Remove of the checkpoint, which may be missing
  remove_state : Action (World S) (Unit {0})
  remove_state w = elim w.checkpoint.remove_fault [
    | some n ↦ (err (wrap "remove verification checkpoint" (external n)), w)
    | none ↦ (ok tt, record w { checkpoint = record (w.checkpoint) { contents = none } })
  ]

  save_if : Bool → VerifyState → Action (World S) (Unit {0})
  unfolding write_state
  save_if with_state st = if with_state then write_state st else pure tt

  abbrev mark_verified : Bytes → VerifyState → VerifyState
  mark_verified id st = record st { verified = insert id st.verified }

  -- The loop over the ordered identifiers. Without a state file nothing is marked.
  unfoldable pub verify_loop :
      Repository → Bool → List Bytes → VerifyState → VerifyReport → Action (World S) VerifyReport
  unfolding save_if
  verify_loop r with_state [] st report = pure report
  verify_loop r with_state (id ∷ ids) st report = elim (contains st.verified id) [
    | true ↦
        verify_loop r with_state ids st
          (record report { resumed_chunks = report.resumed_chunks + 1 })
    | false ↦ do
      wrapped "verify chunk" (verify_chunk S h r id)
      let st' = if with_state then mark_verified id st else st
      save_if with_state st'
      verify_loop r with_state ids st'
          (record report { verified_chunks = report.verified_chunks + 1 })
  ]

  -- VerifyWithOptions; `with_state` is `options.StatePath != ""`.
  unfoldable pub verify_with_options : Repository → Bytes → Bool → Action (World S) VerifyReport
  unfolding verify_manifests load_verify_state verify_loop remove_state
  verify_with_options r id with_state = do
    manifests ← verify_manifests r id
    let ordered = sort lt_bytes (mark [] manifests)
    st ← load_verify_state r id with_state
    report ← verify_loop r with_state ordered st (record {
      snapshots = length manifests;
      chunks = length ordered;
      verified_chunks = 0;
      resumed_chunks = 0;
    })
    if with_state then remove_state else pure tt
    pure report
