-- ===== src/Actions/Maintains.antt =====
-- Predicates on the state that an action maintains, with one rule for each way to build an action.
use mathlib.Core.Path.{subst}
use vestige.Prelude.{◌≡◌, refl, arith, Bool, true, false, String, if◌then◌else◌}
use vestige.Errors.{wrapping, Error, Result, ok, err}
use vestige.Actions.{Action, continue, ◌>>=◌, ◌>>◌, pure, raise, lift, wrapped, attempt, raise_if}

-- The predicate holds after the action, also when it fails, if it held before.
pub record Maintains {S A : Type 0} (P : S → Type 0) (m : Action S A) : Type 0 where
  pub at : (s : S) → P s → P (m s).1

module _ {S A : Type 0} {P : S → Type 0} where
  pub Maintains-pure : (a : A) → Maintains P (pure a)
  Maintains-pure a = record { at = λ s h. h }

  pub Maintains-raise : (e : Error) → Maintains P (raise {A = A} e)
  Maintains-raise e = record { at = λ s h. h }

  pub Maintains-lift : (r : Result A) → Maintains P (lift r)
  Maintains-lift r = record { at = λ s h. h }

  pub Maintains-if :
      (b : Bool) (m n : Action S A)
      → Maintains P m
      → Maintains P n
      → Maintains P (if b then m else n)
  Maintains-if true m n h k = h
  Maintains-if false m n h k = k

  pub Maintains-attempt : (m : Action S A) → Maintains P m → Maintains P (attempt m)
  Maintains-attempt m h = record { at = λ s p. h.at s p }

  pub Maintains-wrapped : (t : String) (m : Action S A) → Maintains P m → Maintains P (wrapped t m)
  Maintains-wrapped t m h = record { at = λ s p. h.at s p }

pub Maintains-raise_if :
    {S : Type 0} {P : S → Type 0} (b : Bool) (t : String) → Maintains P (raise_if b t)
Maintains-raise_if true t = record { at = λ s h. h }
Maintains-raise_if false t = record { at = λ s h. h }

module _ {S A B : Type 0} {P : S → Type 0} where
  maintains_continue :
      (f : A → Action S B)
      → ((a : A) → Maintains P (f a))
      → (r : Result A × S) → P r.1
      → P (continue f r).1
  maintains_continue f k (ok a, s) p = (k a).at s p
  maintains_continue f k (err e, s) p = p

  pub Maintains-bind :
      (m : Action S A) (f : A → Action S B)
      → Maintains P m
      → ((a : A) → Maintains P (f a))
      → Maintains P (m >>= f)
  Maintains-bind m f h k = record { at = λ s p. maintains_continue f k (m s) (h.at s p) }

  pub Maintains-then :
      (m : Action S A) (n : Action S B) → Maintains P m → Maintains P n → Maintains P (m >> n)
  Maintains-then m n h k = record {
    at = λ s p. maintains_continue (λ _. n) (λ _. k) (m s) (h.at s p);
  }

pub ruleset maintains_rules = (
  Maintains-pure, Maintains-raise, Maintains-lift, Maintains-if, Maintains-attempt,
  Maintains-wrapped, Maintains-raise_if, Maintains-bind, Maintains-then,
)

-- The predicate is maintained, and a value that is returned satisfies Q.
pub record Gives {S A : Type 0} (P : S → Type 0) (Q : A → Type 0) (m : Action S A) : Type 0 where
  pub at : (s : S) → P s → P (m s).1
  pub gives : (s : S) (a : A) → P s → (m s).0 ≡ ok a → Q a

ok_injective : {A : Type 0} {a b : A} → ok a ≡ ok b → a ≡ b
ok_injective p = cc

err_ok : {A : Type 0} (e : Error) (a : A) → err e ≡ ok a → ⊥
err_ok e a p = ground arith

wrapping_ok : {A : Type 0} (t : String) (r : Result A) (a : A) → wrapping t r ≡ ok a → r ≡ ok a
wrapping_ok t (ok b) a e = e
wrapping_ok t (err x) a e = absurd (ground arith)

module _ {S A : Type 0} {P : S → Type 0} where
  pub Gives-pure : (Q : A → Type 0) (a : A) → Q a → Gives P Q (pure a)
  Gives-pure Q a q = record { at = λ s p. p; gives = λ s b p e. subst Q (ok_injective e) q }

  pub Gives-if :
      (Q : A → Type 0) (b : Bool) (m n : Action S A)
      → Gives P Q m
      → Gives P Q n
      → Gives P Q (if b then m else n)
  Gives-if Q true m n h k = h
  Gives-if Q false m n h k = k

  pub Gives-lift : (Q : A → Type 0) (r : Result A) → ((a : A) → r ≡ ok a → Q a) → Gives P Q (lift r)
  Gives-lift Q r k = record { at = λ s p. p; gives = λ s a p e. k a e }

  pub Gives-wrapped :
      (Q : A → Type 0) (t : String) (m : Action S A) → Gives P Q m → Gives P Q (wrapped t m)
  Gives-wrapped Q t m h = record {
    at = λ s p. h.at s p;
    gives = λ s a p e. h.gives s a p (wrapping_ok t (m s).0 a e);
  }

  pub Gives-any : (m : Action S A) → Maintains P m → Gives P (λ _. Unit {0}) m
  Gives-any m h = record { at = h.at; gives = λ s a p e. tt }

  pub Maintains-given : (Q : A → Type 0) (m : Action S A) → Gives P Q m → Maintains P m
  Maintains-given Q m h = record { at = h.at }

module _ {S A B : Type 0} {P : S → Type 0} (Q : A → Type 0) (R : B → Type 0) where
  Gives-continue :
      (f : A → Action S B) (r : Result A × S)
      → ((a : A) → Q a → Gives P R (f a))
      → P r.1
      → ((a : A) → r.0 ≡ ok a → Q a)
      → P (continue f r).1 × ((b : B) → (continue f r).0 ≡ ok b → R b)
  Gives-continue f (ok a, s) k p q =
      ((k a (q a refl)).at s p, λ b e. (k a (q a refl)).gives s b p e)
  Gives-continue f (err e, s) k p q = (p, λ b x. absurd (err_ok e b x))

  pub Gives-bind :
      (m : Action S A) (f : A → Action S B)
      → Gives P Q m
      → ((a : A) → Q a → Gives P R (f a))
      → Gives P R (m >>= f)
  Gives-bind m f h k = record {
    at = λ s p. (Gives-continue f (m s) k (h.at s p) (λ a e. h.gives s a p e)).0;
    gives = λ s b p e. (Gives-continue f (m s) k (h.at s p) (λ a e'. h.gives s a p e')).1 b e;
  }

module _ {S A B : Type 0} {P : S → Type 0} (Q : A → Type 0) where
  -- What is given may be used by what follows.
  pub Maintains-bind_given :
      (m : Action S A) (f : A → Action S B)
      → Gives P Q m
      → ((a : A) → Q a → Maintains P (f a))
      → Maintains P (m >>= f)
  Maintains-bind_given m f h k =
      Maintains-given (λ _. Unit {0}) _
        (Gives-bind Q (λ _. Unit {0}) m f h (λ a q. Gives-any (f a) (k a q)))
