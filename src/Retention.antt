-- ===== src/Retention.antt =====
-- internal/repository/retention.go: the snapshots that a retention policy does not protect.
pub mod Newest
pub mod Order
pub mod Preview
use vestige.Prelude.{
  ℕ, ◌+◌, Bool, true, false, not, ◌&&◌, ◌||◌, Bytes, List, [], ◌∷◌, if◌then◌else◌, ltb, contains,
  insert, select, sort, lt_bytes, ℤ, pos, pos_part, ltb_ℤ,
}
use vestige.Errors.{Result, ok, err, wrapping, ◌>>=◌, ◌>>◌}
use vestige.Actions.{Action}
use vestige.Model.{Manifest}
use vestige.Host.{Host}
use vestige.Store.{ObjectStore}
use vestige.Repository.{Repository, World}
use vestige.Snapshots.{snapshots}

pub record RetentionPolicy : Type 0 where
  pub keep_last : ℤ
  pub keep_daily : ℤ
  pub keep_weekly : ℤ

-- One kind of time bucket: the keys taken so far and their number.
pub record Buckets : Type 0 where
  pub taken : List Bytes
  pub count : ℕ

-- A snapshot takes the bucket of its key if no newer one did and the limit is not reached. A limit
-- of 0 takes none.
unfoldable pub take_bucket : ℕ → Bytes → Buckets → Bool × Buckets
take_bucket limit key b =
    if ltb 0 limit && (not (contains b.taken key) && ltb b.count limit)
    then (true, record { taken = insert key b.taken; count = b.count + 1 })
    else (false, b)

module _ (h : Host) where
  -- The loop over the snapshots, newest first: the identifiers to keep.
  unfoldable pub keep_loop :
      RetentionPolicy → ℕ → List Manifest → List Bytes → Buckets → Buckets → Result (List Bytes)
  unfolding take_bucket
  keep_loop policy index [] keep days weeks = ok keep
  keep_loop policy index (m ∷ ms) keep days weeks = do
    created ← wrapping "snapshot has invalid creation time" (h.parse_time m.created_at)
    let day = take_bucket (pos_part policy.keep_daily) (h.utc_day created) days
    let week = take_bucket (pos_part policy.keep_weekly) (h.iso_week created) weeks
    let kept = ltb index (pos_part policy.keep_last) || day.0 || week.0
    keep_loop policy (index + 1) ms (if kept then insert m.snapshot_id keep else keep) day.1 week.1

  -- From the published snapshots, newest first, those that are not kept.
  unfoldable pub candidates : RetentionPolicy → List Manifest → Result (List Manifest)
  unfolding keep_loop
  candidates policy ms = do
    keep ←
        keep_loop policy 0 ms [] (record { taken = []; count = 0 })
          (record { taken = []; count = 0 })
    ok (select (λ (m : Manifest). not (contains keep m.snapshot_id)) ms)

  unfoldable pub newest_first : List Manifest → List Manifest
  newest_first ms = sort (λ (a b : Manifest). lt_bytes b.snapshot_id a.snapshot_id) ms

unfoldable pub is_negative_policy : RetentionPolicy → Bool
is_negative_policy p =
    ltb_ℤ p.keep_last (pos 0) || ltb_ℤ p.keep_daily (pos 0) || ltb_ℤ p.keep_weekly (pos 0)
