-- ===== src/Command/Prune.antt =====
-- cmd/vestige/prune.go: the snapshots that a retention policy selects are printed, and deleted if that is
-- wanted. What is printed is a state of its own.
pub mod Spares
use vestige.Prelude.{
  ℕ, Bool, true, false, not, Bytes, List, [], ◌∷◌, ◌++◌, if◌then◌else◌, is_empty, length, pos,
}
use vestige.Errors.{Result, ok}
use vestige.Actions.{Action, ◌>>=◌, ◌>>◌, pure}
use vestige.Model.{Manifest}
use vestige.Host.{Host}
use vestige.Store.{ObjectStore}
use vestige.Repository.{Repository, World}
use vestige.Lifecycle.{delete_snapshot}
use vestige.Retention.{RetentionPolicy}
use vestige.Retention.Preview.{retention_candidates}

pub data PruneLine : Type 0 where
  none_selected : PruneLine
  candidate : Bytes → PruneLine
  rerun deleted : ℕ → PruneLine

module _ (S : ObjectStore) (h : Host) where
  abbrev pub Pruning : Type 0
  Pruning = World S × List PruneLine

  abbrev pub on_world : {A : Type 0} → Action (World S) A → Action Pruning A
  on_world m (w, out) = let (r, w') = m w in (r, (w', out))

  abbrev pub print : PruneLine → Action Pruning (Unit {0})
  print l (w, out) = (ok tt, (w, out ++ l ∷ []))

  print_candidates : List Manifest → Action Pruning (Unit {0})
  print_candidates [] = pure tt
  print_candidates (m ∷ ms) = do print (candidate m.snapshot_id); print_candidates ms

  unfoldable pub delete_candidates : Repository → List Manifest → Action Pruning (Unit {0})
  delete_candidates r [] = pure tt
  delete_candidates r (m ∷ ms) = do
    on_world (delete_snapshot S h r m.snapshot_id false (pos 0))
    delete_candidates r ms

  prune_selected : Repository → Bool → List Manifest → Action Pruning (Unit {0})
  unfolding print_candidates delete_candidates
  prune_selected r wanted ms = if is_empty ms then print none_selected else (do
    print_candidates ms
    if not wanted
        then print (rerun (length ms))
        else (do delete_candidates r ms; print (deleted (length ms))))

  unfoldable pub prune : Repository → RetentionPolicy → Bool → Action Pruning (Unit {0})
  unfolding prune_selected
  prune r policy wanted = do
    ms ← on_world (retention_candidates S h r policy)
    prune_selected r wanted ms
