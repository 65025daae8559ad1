-- ===== src/Store/S3/Listing.antt =====
-- The keys of the bucket and those of the store, and what a listing gives.
use vestige.Prelude.{
  ◌≡◌, refl, arith, ℕ, true, Bytes, List, [], ◌∷◌, ◌++◌, append_assoc, ◌==◌, str, Bytes-discrete,
  has_prefix, has_prefix-append, ◌∙◌, contains, map, length, drop, Bool-cases, inl, inr, ap, All,
}
use vestige.Errors.{Result-cases, ok}
use vestige.Store.{StoredObject}
use vestige.Store.S3.{
  Answer, done, failed, ListedObject, trim_prefix, full_key, listed_key, list_page, list_pages,
}

abbrev pub listed_keys : List ListedObject → List Bytes
listed_keys objects = map (λ (o : ListedObject). o.key) objects

-- Every page was answered, with the objects of all of them.
pub data AreDone : List (Answer (List ListedObject)) → List ListedObject → Type 0 where
  all_done : AreDone [] []
  one_done :
      {objects rest : List ListedObject} {pages : List (Answer (List ListedObject))}
      → AreDone pages rest
      → AreDone (done objects ∷ pages) (objects ++ rest)

pub cons_eq : (c : ℕ) (s t : Bytes) → (c ∷ s == c ∷ t) ≡ (s == t)
cons_eq c s t = ground arith

pub append_eq : (p s t : Bytes) → (p ++ s == p ++ t) ≡ (s == t)
append_eq [] s t = refl
append_eq (c ∷ p) s t = cons_eq c (p ++ s) (p ++ t) ∙ append_eq p s t

pub has_prefix-append_append : (p s t : Bytes) → has_prefix (p ++ s) (p ++ t) ≡ has_prefix s t
unfolding has_prefix
has_prefix-append_append [] s t = refl
has_prefix-append_append (c ∷ p) s t = ground (arith, has_prefix-append_append p s t)

pub drop-append : (p s : Bytes) → drop (length p) (p ++ s) ≡ s
drop-append [] s = refl
drop-append (c ∷ p) s = drop-append p s

pub has_prefix_split : (s p : Bytes) → has_prefix s p ≡ true → s ≡ p ++ drop (length p) s
unfolding has_prefix
has_prefix_split s [] h = refl
has_prefix_split [] (c ∷ p) h = absurd (ground arith)
has_prefix_split (d ∷ s) (c ∷ p) h =
    ground (arith, ap (λ t. c ∷ t) (has_prefix_split s p (ground arith)))

pub trim_prefix-append : (p s : Bytes) → trim_prefix (p ++ s) p ≡ s
unfolding trim_prefix
trim_prefix-append p s = rw (has_prefix-append p s) (drop-append p s)

pub unprefixed :
    (k prefix : Bytes)
    → prefix ≡ []
    → (has_prefix k (str "/") ≡ true → ⊥)
    → listed_key prefix (full_key prefix k) ≡ k
unfolding full_key listed_key trim_prefix str has_prefix Bytes-discrete
unprefixed k [] e n = elim (Bool-cases (has_prefix k (b'/' ∷ []))) [
  | inl t ↦ absurd (n t)
  | inr f ↦ rw f refl
]
unprefixed k (c ∷ prefix) e n = absurd (ground arith)

module _ (prefix : Bytes) where
  -- Two keys are equal when they are equal below the prefix.
  pub full_key_eq : (j k : Bytes) → (full_key prefix j == full_key prefix k) ≡ (j == k)
  unfolding full_key
  full_key_eq j k = elim (Bool-cases (prefix == [])) [
    | inl t ↦ rw t refl
    | inr f ↦ rw f (append_eq prefix (b'/' ∷ j) (b'/' ∷ k) ∙ cons_eq b'/' j k)
  ]

  pub full_key_bare : (k : Bytes) → prefix ≡ [] → full_key prefix k ≡ k
  unfolding full_key
  full_key_bare k e = ground (arith, e)

  pub has_prefix-full_key :
      (k p : Bytes) → has_prefix (full_key prefix k) (full_key prefix p) ≡ has_prefix k p
  unfolding full_key
  has_prefix-full_key k p = elim (Bool-cases (prefix == [])) [
    | inl t ↦ rw t refl
    | inr f ↦ rw f (
        has_prefix-append_append prefix (b'/' ∷ k) (b'/' ∷ p)
        ∙ has_prefix-append_append (b'/' ∷ []) k p)
  ]

  pub full_key-append : (p s : Bytes) → full_key prefix p ++ s ≡ full_key prefix (p ++ s)
  unfolding full_key
  full_key-append p s = elim (Bool-cases (prefix == [])) [
    | inl t ↦ rw t refl
    | inr f ↦ rw f (append_assoc prefix (b'/' ∷ p) s)
  ]

  -- A key of the bucket that starts with a slash, where there is no prefix.
  abbrev pub IsBare : Bytes → Type 0
  IsBare k = (prefix ≡ []) × (has_prefix k (str "/") ≡ true)

  pub listed_key-full_key : (k : Bytes) → (IsBare k → ⊥) → listed_key prefix (full_key prefix k) ≡ k
  unfolding full_key listed_key str
  listed_key-full_key k n = elim (Bool-cases (prefix == [])) [
    | inl t ↦ unprefixed k prefix (ground arith) (λ s. n (ground arith, s))
    | inr f ↦ rw (f, trim_prefix-append prefix (b'/' ∷ k)) (trim_prefix-append (b'/' ∷ []) k)
  ]

  -- A key of the bucket that stands for one of the store, and is listed as it.
  abbrev pub IsListed : ListedObject → Type 0
  IsListed o = (k : Bytes) × (o.key ≡ full_key prefix k) × (listed_key prefix o.key ≡ k)

  pub contains-list_page :
      (objects : List ListedObject) (k : Bytes)
      → All IsListed objects
      → contains (map (λ (o : StoredObject). o.key) (list_page prefix objects)) k
        ≡ contains (listed_keys objects) (full_key prefix k)
  unfolding list_page
  contains-list_page [] k h = refl
  contains-list_page (o ∷ objects) k ((j, e, l), h) =
      rw (contains-list_page objects k h, l, e, full_key_eq k j) refl

  pub list_page-append :
      (xs ys : List ListedObject)
      → list_page prefix (xs ++ ys) ≡ list_page prefix xs ++ list_page prefix ys
  unfolding list_page
  list_page-append [] ys = refl
  list_page-append (x ∷ xs) ys = rw (list_page-append xs ys) refl

  -- All pages were answered if the listing succeeds.
  pub list_pages_done :
      (pages : List (Answer (List ListedObject))) (stored : List StoredObject)
      → list_pages prefix pages ≡ ok stored
      → (objects : List ListedObject) × AreDone pages objects × (stored ≡ list_page prefix objects)
  unfolding list_pages list_page
  list_pages_done [] stored h = ([], all_done, ground arith)
  list_pages_done (failed f ∷ pages) stored h = absurd (ground arith)
  list_pages_done (done objects ∷ pages) stored h = elim (Result-cases (list_pages prefix pages)) [
    | inr (e, x) ↦ absurd (ground (arith, x))
    | inl (rest, x) ↦
        let (others, d, q) = list_pages_done pages rest x in
        let s : stored ≡ list_page prefix objects ++ rest = ground (arith, x) in
        (objects ++ others, one_done d, s ∙ rw (q, list_page-append objects others) refl)
  ]

  pub IsListed-All :
      (objects : List ListedObject)
      → ((k : Bytes)
          → contains (listed_keys objects) k ≡ true
          → (j : Bytes) × (k ≡ full_key prefix j) × (listed_key prefix k ≡ j))
      → All IsListed objects
  IsListed-All [] f = tt
  IsListed-All (o ∷ objects) f =
      (f o.key (ground arith), IsListed-All objects (λ k c. f k (ground (arith, c))))
