-- ===== src/RestoreTree/Below.antt =====
-- Paths at and below a base, by components.
use vestige.Prelude.{
  ◌≡◌, refl, Bytes, List, [], ◌∷◌, ◌++◌, append_assoc, arith, split_on, inl, inr, ap,
  split_on_nonempty,
}
use vestige.Errors.{Result-cases, ok}
use vestige.Paths.{FilePath, pop_part, safe_join, validate_path}
use vestige.Paths.Safety.{IsClean, safe_join_lem}
use vestige.FileSystem.{child, IsBelow}
use vestige.RestoreTree.{dir}

pub child-IsBelow :
    (base p : FilePath) (name : Bytes) → IsBelow p base → IsBelow (child p name) base
child-IsBelow base p name (rest, e) =
    (rest ++ name ∷ [], rw e (append_assoc base.parts rest (name ∷ [])))

pub pop-append :
    (xs : List Bytes) (y : Bytes) (ys : List Bytes)
    → pop_part (xs ++ y ∷ ys) ≡ xs ++ pop_part (y ∷ ys)
unfolding pop_part
pop-append [] y ys = refl
pop-append (x ∷ []) y ys = refl
pop-append (x ∷ z ∷ xs) y ys = ap (λ t. x ∷ t) (pop-append (z ∷ xs) y ys)

-- A path that `safe_join` gives is strictly below its base.
abbrev pub IsInside : FilePath → FilePath → Type 0
IsInside p base = (y : Bytes) × (ys : List Bytes) × (p.parts ≡ base.parts ++ y ∷ ys)

pub inside-IsBelow : (p base : FilePath) → IsInside p base → IsBelow p base
inside-IsBelow p base (y, ys, e) = (y ∷ ys, e)

pub dir-IsBelow : (p base : FilePath) → IsInside p base → IsBelow (dir p) base
dir-IsBelow p base (y, ys, e) = (pop_part (y ∷ ys), rw e (pop-append base.parts y ys))

pub appended-IsInside :
    (base p : FilePath) (ys : List Bytes)
    → (ys ≡ [] → ⊥)
    → p.parts ≡ base.parts ++ ys
    → IsInside p base
appended-IsInside base p [] n e = absurd (n refl)
appended-IsInside base p (y ∷ ys) n e = (y, ys, e)

pub joined-IsInside :
    (base p : FilePath) (rel : Bytes)
    → IsClean base.parts
    → safe_join base rel ≡ ok p
    → IsInside p base
joined-IsInside base p rel k q =
    appended-IsInside base p (split_on b'/' rel) (split_on_nonempty b'/' rel)
      (elim (Result-cases (validate_path rel)) [
        | inr (x, e) ↦ absurd (ground (arith, safe_join_lem base rel k))
        | inl (_, e) ↦ ground (arith, safe_join_lem base rel k)
      ])
