-- ===== src/Prelude/Sort.antt =====
-- sort.Slice: an insertion sort by a strict order.
use mathlib.Core.Path.{◌≡◌, refl}
use mathlib.Core.Bool.{Bool, false, ◌||◌}
use native.Mathlib.Omega.{arith}
use mathlib.Core.Logic.{inl, inr}
use vestige.Prelude.Texts.{Distinct, Bytes, contains, ◌==◌}
use mathlib.Core.List.{List, [], ◌∷◌}
use vestige.Prelude.Tests.{Bool-cases, if◌then◌else◌}

module _ {ℓ} {A : Type ℓ} (less : A → A → Bool) where
  unfoldable pub insert_sorted : A → List A → List A
  insert_sorted x [] = x ∷ []
  insert_sorted x (y ∷ ys) = if less y x then y ∷ insert_sorted x ys else x ∷ y ∷ ys

  unfoldable pub sort : List A → List A
  unfolding insert_sorted
  sort [] = []
  sort (x ∷ xs) = insert_sorted x (sort xs)

module _ (less : Bytes → Bytes → Bool) where
  contains-insert_sorted :
      (x : Bytes) (ys : List Bytes) (a : Bytes)
      → contains (insert_sorted less x ys) a ≡ (a == x || contains ys a)
  unfolding insert_sorted
  contains-insert_sorted x [] a = refl
  contains-insert_sorted x (y ∷ ys) a = ground (arith, contains-insert_sorted x ys a)

  pub contains-sort : (xs : List Bytes) (a : Bytes) → contains (sort less xs) a ≡ contains xs a
  unfolding sort
  contains-sort [] a = refl
  contains-sort (x ∷ xs) a =
      ground (arith, contains-insert_sorted x (sort less xs) a, contains-sort xs a)

  insert_sorted-Distinct :
      (x : Bytes) (ys : List Bytes)
      → contains ys x ≡ false
      → Distinct ys
      → Distinct (insert_sorted less x ys)
  unfolding insert_sorted
  insert_sorted-Distinct x [] n h = (refl, tt)
  insert_sorted-Distinct x (y ∷ ys) n (m, h) = elim (Bool-cases (less y x)) [
    | inl t ↦ rw t (
      ground (arith, contains-insert_sorted x ys y, n, m),
      insert_sorted-Distinct x ys (ground (arith, n)) h,
    )
    | inr f ↦ rw f (n, (m, h))
  ]

  pub sort-Distinct : (xs : List Bytes) → Distinct xs → Distinct (sort less xs)
  unfolding sort
  sort-Distinct [] h = tt
  sort-Distinct (x ∷ xs) (n, h) =
      insert_sorted-Distinct x (sort less xs) (ground (arith, contains-sort xs x, n))
        (sort-Distinct xs h)

module _ {A : Type 0} (less : A → A → Bool) where
  insert_sorted_nonempty : (x : A) (ys : List A) → insert_sorted less x ys ≡ [] → ⊥
  unfolding insert_sorted
  insert_sorted_nonempty x [] h = ground arith
  insert_sorted_nonempty x (y ∷ ys) h = ground arith

  pub sort_nil : (xs : List A) → sort less xs ≡ [] → xs ≡ []
  unfolding sort
  sort_nil [] h = refl
  sort_nil (x ∷ xs) h = absurd (insert_sorted_nonempty x (sort less xs) h)
