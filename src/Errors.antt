-- ===== src/Errors.antt =====
-- Go's errors as values: the sentinels of internal/repository/store.go, errors of code outside the
-- repository, and messages; `wrap` is fmt.Errorf with %w. Of a message only the fixed text is kept.
use vestige.Prelude.{ℕ, ◌≡◌, refl, ◌⊎◌, inl, inr, Bool, true, false, String}

pub data Error : Type 0 where
  object_not_found object_exists object_changed : Error
  -- os.ErrNotExist and os.ErrExist
  not_exist exist : Error
  external : ℕ → Error
  message : String → Error
  wrap : String → Error → Error

-- errors.Is(err, errObjectNotFound), errors.Is(err, errObjectExists), errors.Is(err, errObjectChanged)
unfoldable pub is_not_found : Error → Bool
is_not_found object_not_found = true
is_not_found (wrap s e) = is_not_found e
is_not_found _ = false

unfoldable pub is_exists : Error → Bool
is_exists object_exists = true
is_exists (wrap s e) = is_exists e
is_exists _ = false

unfoldable pub is_changed : Error → Bool
is_changed object_changed = true
is_changed (wrap s e) = is_changed e
is_changed _ = false

unfoldable pub is_not_exist : Error → Bool
is_not_exist not_exist = true
is_not_exist (wrap s e) = is_not_exist e
is_not_exist _ = false

pub data Result {ℓ} (A : Type ℓ) : Type ℓ where
  ok : A → Result A
  err : Error → Result A

infixl 5 ◌>>=◌ ◌>>◌
abbrev pub ◌>>=◌ {ℓ κ} : {A : Type ℓ} {B : Type κ} → Result A → (A → Result B) → Result B
err failure >>= next = err failure
ok a >>= next = next a

abbrev pub ◌>>◌ {ℓ} : {B : Type ℓ} → Result (Unit {0}) → Result B → Result B
first >> next = first >>= λ _. next

-- `if cond { return errors.New(text) }`
abbrev pub fail_if : Bool → String → Result (Unit {0})
fail_if true s = err (message s)
fail_if false s = ok tt

-- fmt.Errorf("text: %w", err) around a call
abbrev pub wrapping {ℓ} : {A : Type ℓ} → String → Result A → Result A
wrapping s (ok a) = ok a
wrapping s (err e) = err (wrap s e)

abbrev pub is_ok {ℓ} : {A : Type ℓ} → Result A → Bool
is_ok (ok a) = true
is_ok (err e) = false

-- `err == nil`, as an optional error.
abbrev pub error_of {ℓ} : {A : Type ℓ} → Result A → Result (Unit {0})
error_of (ok a) = ok tt
error_of (err e) = err e

pub Result-cases {ℓ} :
    {A : Type ℓ} (r : Result A) → ((a : A) × (r ≡ ok a)) ⊎ ((e : Error) × (r ≡ err e))
Result-cases (ok a) = inl (a, refl)
Result-cases (err e) = inr (e, refl)
