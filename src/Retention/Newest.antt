-- ===== src/Retention/Newest.antt =====
-- The newest snapshots are never candidates for removal.
use vestige.Prelude.{
  ◌≡◌, refl, ℕ, ◌+◌, zero, suc, Bytes, true, false, not, List, [], ◌∷◌, All, any, take, select, inl,
  inr, arith, contains, contains-insert, pos_part, ◌==◌,
}
use vestige.Errors.{ok, Result-cases}
use vestige.Host.{Host}
use vestige.Model.{Manifest}
use vestige.Store.{ObjectStore}
use vestige.Repository.{Repository, World}
use vestige.Snapshots.{snapshots}
use vestige.Retention.{RetentionPolicy, Buckets, keep_loop, candidates, newest_first}
use vestige.Retention.Preview.{retention_candidates}

pub ok_injective : {a b : List Manifest} → ok a ≡ ok b → a ≡ b
ok_injective p = cc

module _ (h : Host) (policy : RetentionPolicy) where
  keep_loop_grows :
      (i : ℕ) (ms : List Manifest) (keep out : List Bytes) (days weeks : Buckets) (a : Bytes)
      → keep_loop h policy i ms keep days weeks ≡ ok out
      → contains keep a ≡ true
      → contains out a ≡ true
  unfolding keep_loop
  keep_loop_grows i [] keep out days weeks a q c = ground arith
  keep_loop_grows i (m ∷ ms) keep out days weeks a q c =
      elim (Result-cases (h.parse_time m.created_at)) [
        | inr (x, e) ↦ absurd (ground arith)
        | inl (t, e) ↦
            keep_loop_grows (i + 1) ms _ out _ _ a (rw e at q)
              (ground (arith, contains-insert m.snapshot_id a keep))
      ]

  pub keep_loop_newest :
      (i : ℕ) (ms : List Manifest) (keep out : List Bytes) (days weeks : Buckets)
      → keep_loop h policy i ms keep days weeks ≡ ok out
      → (n : ℕ) → n + i ≡ pos_part policy.keep_last
      → All (λ (m : Manifest). contains out m.snapshot_id ≡ true) (take n ms)
  unfolding keep_loop
  keep_loop_newest i ms keep out days weeks q zero b = tt
  keep_loop_newest i [] keep out days weeks q (suc n) b = tt
  keep_loop_newest i (m ∷ ms) keep out days weeks q (suc n) b =
      elim (Result-cases (h.parse_time m.created_at)) [
        | inr (x, e) ↦ absurd (ground arith)
        | inl (t, e) ↦ (
          keep_loop_grows (i + 1) ms _ out _ _ m.snapshot_id (rw e at q)
              (ground (arith, contains-insert m.snapshot_id m.snapshot_id keep)),
          keep_loop_newest (i + 1) ms _ out _ _ (rw e at q) n (omega arith),
        )
      ]

  -- No element of the selection has an identifier that is kept.
  select_drops :
      (keep : List Bytes) (ms : List Manifest) (a : Bytes)
      → contains keep a ≡ true
      → any
          (λ (c : Manifest). c.snapshot_id == a)
          (select (λ (m : Manifest). not (contains keep m.snapshot_id)) ms)
        ≡ false
  select_drops keep [] a c = refl
  select_drops keep (m ∷ ms) a c = ground (arith, select_drops keep ms a c)

  -- No snapshot of the list is among the candidates, by its identifier.
  abbrev pub IsProtected : List Manifest → Manifest → Type 0
  IsProtected cs m = any (λ (c : Manifest). c.snapshot_id == m.snapshot_id) cs ≡ false

  kept-IsProtected :
      (keep : List Bytes) (ms ns : List Manifest)
      → All (λ (m : Manifest). contains keep m.snapshot_id ≡ true) ns
      → All (IsProtected (select (λ (m : Manifest). not (contains keep m.snapshot_id)) ms)) ns
  kept-IsProtected keep ms [] k = tt
  kept-IsProtected keep ms (n ∷ ns) k =
      (select_drops keep ms n.snapshot_id k.0, kept-IsProtected keep ms ns k.1)

  candidates-IsProtected :
      (ms cs : List Manifest)
      → candidates h policy ms ≡ ok cs
      → All (IsProtected cs) (take (pos_part policy.keep_last) ms)
  unfolding candidates
  candidates-IsProtected ms cs q =
      let none_yet : Buckets = record { taken = []; count = 0 } in
      elim (Result-cases (keep_loop h policy 0 ms [] none_yet none_yet)) [
        | inr (x, e) ↦ absurd (ground arith)
        | inl (keep, e) ↦
            let kept =
              keep_loop_newest 0 ms [] keep none_yet none_yet e (pos_part policy.keep_last)
                (omega arith) in
            rw (← ok_injective (rw e at q))
              (kept-IsProtected keep ms (take (pos_part policy.keep_last) ms) kept)
      ]

  -- Of the published snapshots, the `KeepLast` newest ones, by their identifiers, are never among the
  -- candidates for removal, nor is another snapshot with the same identifier.
  pub retention_candidates-IsProtected :
      (S : ObjectStore) (r : Repository) (ms cs : List Manifest) (w : World S)
      → (snapshots S h r w).0 ≡ ok ms
      → (retention_candidates S h r policy w).0 ≡ ok cs
      → All (IsProtected cs) (take (pos_part policy.keep_last) (newest_first h ms))
  unfolding retention_candidates
  retention_candidates-IsProtected S r ms cs w p q =
      candidates-IsProtected (newest_first h ms) cs (ground arith)
