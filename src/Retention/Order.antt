-- ===== src/Retention/Order.antt =====
-- A candidate for removal is older than enough other snapshots.
use vestige.Prelude.{
  ◌≡◌, refl, ℕ, ◌+◌, ◌≤◌, zero, suc, Bytes, Bool, true, false, not, List, [], ◌∷◌, All, take,
  select, length, inl, inr, arith, contains, pos_part, ◌==◌, lt_bytes, sort, insert_sorted,
  Bool-cases,
}
use vestige.Errors.{ok, Result-cases}
use vestige.Host.{Host}
use vestige.Model.{Manifest}
use vestige.Store.{ObjectStore}
use vestige.Repository.{Repository, World}
use vestige.Snapshots.{snapshots}
use vestige.Retention.{RetentionPolicy, Buckets, keep_loop, candidates, newest_first}
use vestige.Retention.Newest.{keep_loop_newest, ok_injective}
use vestige.Retention.Preview.{retention_candidates}

lt_bytes_asym : (a b : Bytes) → lt_bytes a b ≡ true → lt_bytes b a ≡ false
unfolding lt_bytes
lt_bytes_asym [] [] h = refl
lt_bytes_asym [] (y ∷ b) h = refl
lt_bytes_asym (x ∷ a) [] h = absurd (ground arith)
lt_bytes_asym (x ∷ a) (y ∷ b) h = ground (arith, lt_bytes_asym a b)

lt_bytes_cotrans :
    (a b c : Bytes) → lt_bytes a b ≡ false → lt_bytes b c ≡ false → lt_bytes a c ≡ false
unfolding lt_bytes
lt_bytes_cotrans [] [] c h k = k
lt_bytes_cotrans [] (y ∷ b) c h k = absurd (ground arith)
lt_bytes_cotrans (x ∷ a) [] [] h k = refl
lt_bytes_cotrans (x ∷ a) [] (z ∷ c) h k = absurd (ground arith)
lt_bytes_cotrans (x ∷ a) (y ∷ b) [] h k = refl
lt_bytes_cotrans (x ∷ a) (y ∷ b) (z ∷ c) h k = ground (arith, lt_bytes_cotrans a b c)

-- Of two texts that differ, one is the smaller.
lt_bytes_total : (a b : Bytes) → lt_bytes a b ≡ false → (a == b) ≡ false → lt_bytes b a ≡ true
unfolding lt_bytes vestige.Prelude.Bytes-discrete
lt_bytes_total [] [] h k = absurd (ground arith)
lt_bytes_total [] (y ∷ b) h k = absurd (ground arith)
lt_bytes_total (x ∷ a) [] h k = refl
lt_bytes_total (x ∷ a) (y ∷ b) h k = ground (arith, lt_bytes_total a b)

-- The snapshots of a list whose identifier is greater: identifiers start with the time.
abbrev pub newer_than : Manifest → List Manifest → List Manifest
newer_than c ms = select (λ (m : Manifest). lt_bytes c.snapshot_id m.snapshot_id) ms

-- No snapshot has a smaller identifier than one behind it.
abbrev IsNoOlder : Manifest → Manifest → Type 0
IsNoOlder x y = lt_bytes x.snapshot_id y.snapshot_id ≡ false

abbrev IsDescending : List Manifest → Type 0
IsDescending [] = Unit
IsDescending (x ∷ xs) = All (IsNoOlder x) xs × IsDescending xs

abbrev later_first : Manifest → Manifest → Bool
later_first a b = lt_bytes b.snapshot_id a.snapshot_id

All-IsNoOlder :
    (x y : Manifest) (zs : List Manifest)
    → IsNoOlder x y
    → All (IsNoOlder y) zs
    → All (IsNoOlder x) zs
All-IsNoOlder x y [] h k = tt
All-IsNoOlder x y (z ∷ zs) h (k, ks) =
    (lt_bytes_cotrans x.snapshot_id y.snapshot_id z.snapshot_id h k, All-IsNoOlder x y zs h ks)

insert_sorted-All :
    (w x : Manifest) (ys : List Manifest)
    → IsNoOlder w x
    → All (IsNoOlder w) ys
    → All (IsNoOlder w) (insert_sorted later_first x ys)
unfolding insert_sorted
insert_sorted-All w x [] h k = (h, tt)
insert_sorted-All w x (y ∷ ys) h (k, ks) = elim (Bool-cases (later_first y x)) [
  | inl t ↦ rw t (k, insert_sorted-All w x ys h ks)
  | inr f ↦ rw f (h, (k, ks))
]

insert_sorted-IsDescending :
    (x : Manifest) (ys : List Manifest)
    → IsDescending ys
    → IsDescending (insert_sorted later_first x ys)
unfolding insert_sorted
insert_sorted-IsDescending x [] d = (tt, tt)
insert_sorted-IsDescending x (y ∷ ys) (k, d) = elim (Bool-cases (later_first y x)) [
  | inl t ↦ rw t (
    insert_sorted-All y x ys (lt_bytes_asym x.snapshot_id y.snapshot_id t) k,
    insert_sorted-IsDescending x ys d,
  )
  | inr f ↦ rw f ((f, All-IsNoOlder x y ys f k), (k, d))
]

sort-IsDescending : (ms : List Manifest) → IsDescending (sort later_first ms)
unfolding sort
sort-IsDescending [] = tt
sort-IsDescending (m ∷ ms) =
    insert_sorted-IsDescending m (sort later_first ms) (sort-IsDescending ms)

length-insert_sorted :
    (c x : Manifest) (ys : List Manifest)
    → length (newer_than c (insert_sorted later_first x ys)) ≡ length (newer_than c (x ∷ ys))
unfolding insert_sorted
length-insert_sorted c x [] = refl
length-insert_sorted c x (y ∷ ys) = ground (arith, length-insert_sorted c x ys)

-- Sorting leaves the number of the newer ones.
length-sort :
    (c : Manifest) (ms : List Manifest)
    → length (newer_than c (sort later_first ms)) ≡ length (newer_than c ms)
unfolding sort
length-sort c [] = refl
length-sort c (m ∷ ms) =
    ground (arith, length-insert_sorted c m (sort later_first ms), length-sort c ms)

module _ (keep : List Bytes) where
  abbrev dropped : List Manifest → List Manifest
  dropped ms = select (λ (m : Manifest). not (contains keep m.snapshot_id)) ms

  contains_cong :
      (a b : Bytes) → contains keep a ≡ true → contains keep b ≡ false → (a == b) ≡ false
  contains_cong a b h k = ground (arith, h, k)

  -- One more snapshot in front, which is kept and no older than the others.
  step :
      (x : Manifest) (ys zs : List Manifest) (n : ℕ)
      → contains keep x.snapshot_id ≡ true
      → All (IsNoOlder x) zs
      → All (λ (c : Manifest). n ≤ length (newer_than c ys)) (dropped zs)
      → All (λ (c : Manifest). suc n ≤ length (newer_than c (x ∷ ys))) (dropped zs)
  step x ys [] n k o h = tt
  step x ys (z ∷ zs) n k (o, os) h = elim (Bool-cases (contains keep z.snapshot_id)) [
    | inl t ↦ rw t (step x ys zs n k os (rw t at h))
    | inr f ↦
        let (l, rest) = rw f at h in
        let newer =
          lt_bytes_total x.snapshot_id z.snapshot_id o
            (contains_cong x.snapshot_id z.snapshot_id k f) in
        rw f (rw newer (omega (arith, l)), step x ys zs n k os rest)
  ]

  All-zero : (ms zs : List Manifest) → All (λ (c : Manifest). 0 ≤ length (newer_than c ms)) zs
  All-zero ms [] = tt
  All-zero ms (z ∷ zs) = (omega arith, All-zero ms zs)

  -- The first n are kept, so that all that is dropped has n newer ones.
  dropped-newer_than :
      (n : ℕ) (ms : List Manifest)
      → IsDescending ms
      → All (λ (m : Manifest). contains keep m.snapshot_id ≡ true) (take n ms)
      → All (λ (c : Manifest). n ≤ length (newer_than c ms)) (dropped ms)
  dropped-newer_than zero ms d k = All-zero ms (dropped ms)
  dropped-newer_than (suc n) [] d k = tt
  dropped-newer_than (suc n) (m ∷ ms) (o, d) (k, ks) =
      rw k (step m ms ms n k o (dropped-newer_than n ms d ks))

All-sort :
    (n : ℕ) (ms cs : List Manifest)
    → All (λ (c : Manifest). n ≤ length (newer_than c (sort later_first ms))) cs
    → All (λ (c : Manifest). n ≤ length (newer_than c ms)) cs
All-sort n ms [] h = tt
All-sort n ms (c ∷ cs) (h, hs) = (rw (length-sort c ms) at h, All-sort n ms cs hs)

candidates_older :
    (h : Host) (policy : RetentionPolicy) (ms cs : List Manifest)
    → candidates h policy (newest_first h ms) ≡ ok cs
    → All (λ (c : Manifest). pos_part policy.keep_last ≤ length (newer_than c ms)) cs
unfolding candidates newest_first
candidates_older h policy ms cs q =
    let none_yet : Buckets = record { taken = []; count = 0 } in
    let sorted = sort later_first ms in
    elim (Result-cases (keep_loop h policy 0 sorted [] none_yet none_yet)) [
      | inr (x, e) ↦ absurd (ground arith)
      | inl (keep, e) ↦
          let kept =
            keep_loop_newest h policy 0 sorted [] keep none_yet none_yet e
              (pos_part policy.keep_last) (omega arith) in
          rw (← ok_injective (rw e at q)) (
            All-sort (pos_part policy.keep_last) ms (dropped keep sorted) (
              dropped-newer_than keep (pos_part policy.keep_last) sorted (sort-IsDescending ms)
                kept))
    ]

-- Every candidate for removal has at least `KeepLast` published snapshots with a greater identifier, so
-- that the `KeepLast` newest ones, by their identifiers, are never given up.
pub retention_candidates_older :
    (S : ObjectStore) (h : Host) (r : Repository) (policy : RetentionPolicy) (ms cs : List Manifest)
    (w : World S)
    → (snapshots S h r w).0 ≡ ok ms
    → (retention_candidates S h r policy w).0 ≡ ok cs
    → All (λ (c : Manifest). pos_part policy.keep_last ≤ length (newer_than c ms)) cs
unfolding retention_candidates
retention_candidates_older S h r policy ms cs w p q = candidates_older h policy ms cs (ground arith)
