-- ===== src/Paths/Safety.antt =====
-- A path that `safe_join` returns stays below its base, and what `is_within` decides.
use vestige.Prelude.{
  ◌≡◌, refl, ◌↔◌, true, false, Bytes, List, [], ◌∷◌, ◌++◌, append-nil, append_assoc, arith, any,
  split_on, Bytes-discrete,
}
use vestige.Errors.{ok, ◌>>◌}
use vestige.Paths.{
  FilePath, is_bad_part, validate_path, clean_parts, relative, goes_up, is_within, safe_join,
}

-- No component is empty, "." or "..".
abbrev pub IsClean : List Bytes → Type 0
IsClean ps = any is_bad_part ps ≡ false

IsClean-append : (ps qs : List Bytes) → IsClean ps → IsClean qs → IsClean (ps ++ qs)
IsClean-append [] qs h k = k
IsClean-append (p ∷ ps) qs h k = ground (arith, IsClean-append ps qs (ground arith) k)

clean_parts-append : (walked ps : List Bytes) → IsClean ps → clean_parts walked ps ≡ walked ++ ps
unfolding clean_parts is_bad_part
clean_parts-append walked [] h = rw append-nil
clean_parts-append walked (p ∷ ps) h = ground (
  arith,
  clean_parts-append (walked ++ p ∷ []) ps (ground arith),
  append_assoc walked (p ∷ []) ps,
)

pub relative-append : (ps qs : List Bytes) → relative ps (ps ++ qs) ≡ qs
unfolding relative
relative-append [] qs = refl
relative-append (p ∷ ps) qs = ground (arith, relative-append ps qs)

goes_up_clean : (qs : List Bytes) → IsClean qs → goes_up qs ≡ false
unfolding is_bad_part goes_up
goes_up_clean [] h = refl
goes_up_clean (q ∷ qs) h = ground arith

is_within-append :
    (ps qs : List Bytes)
    → IsClean qs
    → is_within (record { parts = ps ++ qs }) (record { parts = ps }) ≡ true
unfolding is_within
is_within-append ps qs h = rw (relative-append ps qs) (rw (goes_up_clean qs h))

suffix-IsClean : (ps qs : List Bytes) → IsClean (ps ++ qs) → IsClean qs
suffix-IsClean [] qs h = h
suffix-IsClean (p ∷ ps) qs h = suffix-IsClean ps qs (ground arith)

extension_of :
    (ps cs : List Bytes)
    → goes_up (relative ps cs) ≡ false
    → (rest : List Bytes) × (cs ≡ ps ++ rest)
unfolding relative goes_up
extension_of [] cs h = (cs, refl)
extension_of (p ∷ ps) [] h = absurd (ground arith)
extension_of (p ∷ ps) (c ∷ cs) h = extend (Bytes-discrete p c) (extension_of ps cs)
  where
    extend :
        Dec (p ≡ c)
        → (goes_up (relative ps cs) ≡ false → (rest : List Bytes) × (cs ≡ ps ++ rest))
        → (rest : List Bytes) × (c ∷ cs ≡ p ∷ (ps ++ rest))
    extend (yes e) ih = let (rest, q) = ih (ground arith) in (rest, cc)
    extend (no n) ih = absurd (ground arith)

-- A clean path is within another exactly when it extends it by components: "/data/x" is within
-- "/data", "/data-old" is not.
pub is_within_lem :
    (child parent : FilePath)
    → IsClean child.parts
    → (is_within child parent ≡ true) ↔ ((rest : List Bytes) × (child.parts ≡ parent.parts ++ rest))
unfolding is_within
is_within_lem child parent h = (
  λ w. extension_of parent.parts child.parts (ground arith),
  λ (rest, e). rw e (
      rw (relative-append parent.parts rest)
        (rw (goes_up_clean rest (suffix-IsClean parent.parts rest (rw e at h))))),
)

-- Below a clean base, `safe_join` succeeds exactly on the paths that `validate_path` accepts, and
-- then adds their components to the base and nothing else; its own test for an escape never fails.
pub safe_join_lem :
    (base : FilePath) (rel : Bytes)
    → IsClean base.parts
    → safe_join base rel
      ≡ (do validate_path rel; ok (record { parts = base.parts ++ split_on b'/' rel }))
unfolding safe_join validate_path
safe_join_lem base rel h = ground (
  arith,
  clean_parts-append [] (base.parts ++ split_on b'/' rel),
  IsClean-append base.parts (split_on b'/' rel) h,
  is_within-append base.parts (split_on b'/' rel),
)
