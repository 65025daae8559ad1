-- ===== src/Actions.antt =====
-- Code that changes a state and may return an error: an action keeps the state that it reached, also
-- when it fails.
pub mod Maintains
use vestige.Prelude.{◌≡◌, refl, Bool, true, false, String}
use vestige.Errors.{Error, Result, ok, err, message, wrapping}

abbrev pub Action {ℓ} : Type ℓ → Type ℓ → Type ℓ
Action S A = S → Result A × S

abbrev pub continue {ℓ} : {S A B : Type ℓ} → (A → Action S B) → Result A × S → Result B × S
continue f (ok a, s) = f a s
continue f (err e, s) = (err e, s)

infixl 5 ◌>>=◌ ◌>>◌
abbrev pub ◌>>=◌ {ℓ} : {S A B : Type ℓ} → Action S A → (A → Action S B) → Action S B
◌>>=◌ m f s = continue f (m s)

abbrev pub ◌>>◌ {ℓ} : {S A B : Type ℓ} → Action S A → Action S B → Action S B
◌>>◌ m k s = continue (λ _. k) (m s)

abbrev pub pure {ℓ} : {S A : Type ℓ} → A → Action S A
pure a s = (ok a, s)

abbrev pub raise {ℓ} : {S A : Type ℓ} → Error → Action S A
raise e s = (err e, s)

-- A result that touches no state.
abbrev pub lift {ℓ} : {S A : Type ℓ} → Result A → Action S A
lift r s = (r, s)

abbrev pub raise_if : {S : Type 0} → Bool → String → Action S (Unit {0})
raise_if true t s = (err (message t), s)
raise_if false t s = (ok tt, s)

-- fmt.Errorf("text: %w", err) around a call
abbrev pub wrapped {ℓ} : {S A : Type ℓ} → String → Action S A → Action S A
wrapped t m s = let (r, s') = m s in (wrapping t r, s')

-- The result of a call as a value, for code that looks at `err` itself.
abbrev pub attempt {ℓ} : {S A : Type ℓ} → Action S A → Action S (Result A)
attempt m s = let (r, s') = m s in (ok r, s')

pub continue_assoc {ℓ} :
    {S A B C : Type ℓ} (f : A → Action S B) (g : B → Action S C) (r : Result A × S)
    → continue g (continue f r) ≡ continue (λ a s. continue g (f a s)) r
continue_assoc f g (ok a, s) = refl
continue_assoc f g (err e, s) = refl

pub continue_ext {ℓ} :
    {S A B : Type ℓ} (f g : A → Action S B) (r : Result A × S)
    → ((a : A) (s : S) → f a s ≡ g a s)
    → continue f r ≡ continue g r
continue_ext f g (ok a, s) h = h a s
continue_ext f g (err e, s) h = refl
