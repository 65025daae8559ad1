-- ===== src/Retention/Preview.antt =====
-- internal/repository/retention.go: RetentionCandidates.
use vestige.Prelude.{List}
use vestige.Actions.{Action, ◌>>=◌, ◌>>◌, lift, raise_if}
use vestige.Model.{Manifest}
use vestige.Host.{Host}
use vestige.Store.{ObjectStore}
use vestige.Repository.{Repository, World}
use vestige.Snapshots.{snapshots}
use vestige.Retention.{RetentionPolicy, candidates, newest_first, is_negative_policy}

unfoldable pub retention_candidates :
    (S : ObjectStore) (h : Host) → Repository → RetentionPolicy → Action (World S) (List Manifest)
unfolding candidates newest_first is_negative_policy
retention_candidates S h r policy = do
  raise_if (is_negative_policy policy) "retention counts must not be negative"
  ms ← snapshots S h r
  lift (candidates h policy (newest_first h ms))
