-- ===== src/Store/Failures.antt =====
-- internal/repository/store.go: what a call that fails leaves, whether it has done its work or not.
use vestige.Prelude.{◌≡◌, ◌≢◌, arith, Bytes, Option, none, some, inl, inr}
use vestige.Errors.{Error, err}
use vestige.Store.{ObjectStore, IsLawful, IsPresent}

module _ (S : ObjectStore) (object : S.State → Bytes → Option Bytes) (L : IsLawful S object) where
  pub put_failed_keeps :
      (k d j x : Bytes) (s : S.State) (e : Error)
      → (S.put_if_absent k d s).0 ≡ err e
      → object s j ≡ some x
      → object (S.put_if_absent k d s).1 j ≡ some x
  put_failed_keeps k d j x s e q p = elim (L.put_failed k d s e q) [
    | inl f ↦ ground (arith, f j)
    | inr (n, f) ↦ ground (arith, f j)
  ]

  pub put_failed_present :
      (k d : Bytes) (s : S.State) (e : Error)
      → (S.put_if_absent k d s).0 ≡ err e
      → IsPresent (object s k)
      → IsPresent (object (S.put_if_absent k d s).1 k)
  put_failed_present k d s e q p = elim (L.put_failed k d s e q) [
    | inl f ↦ rw (f k) p
    | inr (n, f) ↦ absurd (rw n at p)
  ]

  pub put_failed_other :
      (k d j : Bytes) (s : S.State) (e : Error)
      → k ≢ j
      → (S.put_if_absent k d s).0 ≡ err e
      → object (S.put_if_absent k d s).1 j ≡ object s j
  put_failed_other k d j s e o q = elim (L.put_failed k d s e q) [
    | inl f ↦ f j
    | inr (n, f) ↦ ground (arith, f j)
  ]

  pub delete_if_failed_other :
      (k v j : Bytes) (s : S.State) (e : Error)
      → k ≢ j
      → (S.delete_if_version k v s).0 ≡ err e
      → object (S.delete_if_version k v s).1 j ≡ object s j
  delete_if_failed_other k v j s e o q = elim (L.delete_if_failed k v s e q) [
    | inl f ↦ f j
    | inr f ↦ ground (arith, f j)
  ]

  pub delete_failed_other :
      (k j : Bytes) (s : S.State) (e : Error)
      → k ≢ j
      → (S.delete k s).0 ≡ err e
      → object (S.delete k s).1 j ≡ object s j
  delete_failed_other k j s e o q = elim (L.delete_failed k s e q) [
    | inl f ↦ f j
    | inr f ↦ ground (arith, f j)
  ]

  pub delete_failed_absent :
      (k j : Bytes) (s : S.State) (e : Error)
      → (S.delete k s).0 ≡ err e
      → object s j ≡ none
      → object (S.delete k s).1 j ≡ none
  delete_failed_absent k j s e q p = elim (L.delete_failed k s e q) [
    | inl f ↦ ground (arith, f j)
    | inr f ↦ ground (arith, f j)
  ]
