-- ===== src/Prelude/Texts.antt =====
-- Go strings and byte slices, as lists of bytes, with the functions of package strings that are used.
use Prim.Native.Char.{code}
use Prim.Native.Nat.{ℕ, zero, suc}
use Prim.Native.String.{String}
use mathlib.Core.Path.{◌≡◌, refl}
use mathlib.Core.Bool.{Bool, true, false, ◌&&◌, ◌||◌}
use mathlib.Core.Logic.{ite}
use mathlib.Core.List.{List, [], ◌∷◌, ◌++◌}
use native.Mathlib.Decide.{ℕ_discrete}
use native.Mathlib.Omega.{arith}
use vestige.Prelude.Tests.{ltb, leb, nat_eq, if◌then◌else◌}
use vestige.Prelude.Lists.{any}

abbrev pub Bytes : Type 0
Bytes = List ℕ

abbrev codes : String → Bytes
codes String.[] = []
codes (String.◌∷◌ c s) = code c ∷ codes s

-- A string literal of the source.
unfoldable pub str : String → Bytes
str s = codes s

unfoldable pub Bytes-discrete : Discrete Bytes
unfolding ℕ_discrete
Bytes-discrete = hlevel ℕ_discrete

infix 50 ◌==◌
abbrev pub ◌==◌ : Bytes → Bytes → Bool
a == b = ite (Bytes-discrete a b) true false

-- Whether a key is in a set or list of strings.
abbrev pub contains : List Bytes → Bytes → Bool
contains [] a = false
contains (x ∷ xs) a = a == x || contains xs a

-- `m[key] = struct{}{}`
abbrev pub insert : Bytes → List Bytes → List Bytes
insert a xs = if contains xs a then xs else xs ++ a ∷ []

-- Go's `<` on strings.
unfoldable pub lt_bytes : Bytes → Bytes → Bool
lt_bytes [] [] = false
lt_bytes [] (y ∷ ys) = true
lt_bytes (x ∷ xs) [] = false
lt_bytes (x ∷ xs) (y ∷ ys) = ltb x y || (nat_eq x y && lt_bytes xs ys)

-- strings.HasPrefix
unfoldable pub has_prefix : Bytes → Bytes → Bool
has_prefix s [] = true
has_prefix [] (p ∷ ps) = false
has_prefix (c ∷ s) (p ∷ ps) = nat_eq c p && has_prefix s ps

-- Whether a byte occurs.
unfoldable pub has_byte : ℕ → Bytes → Bool
has_byte b [] = false
has_byte b (c ∷ s) = nat_eq b c || has_byte b s

-- strings.ContainsAny
unfoldable pub contains_any : Bytes → Bytes → Bool
unfolding has_byte
contains_any s chars = any (λ c. has_byte c chars) s

cons_first : ℕ → List Bytes → List Bytes
cons_first c [] = (c ∷ []) ∷ []
cons_first c (p ∷ ps) = (c ∷ p) ∷ ps

-- strings.Split by a separator of one byte: always at least one part.
unfoldable pub split_on : ℕ → Bytes → List Bytes
unfolding cons_first
split_on sep [] = [] ∷ []
split_on sep (c ∷ s) =
    let rest = split_on sep s in if nat_eq c sep then [] ∷ rest else cons_first c rest

pub split_on_nonempty : (sep : ℕ) (s : Bytes) → split_on sep s ≡ [] → ⊥
unfolding split_on cons_first
split_on_nonempty sep [] h = ground arith
split_on_nonempty sep (c ∷ s) h = ground (arith, split_on_nonempty sep s)

-- The white space of ASCII.
is_space : ℕ → Bool
is_space c = nat_eq c 32 || (leb 9 c && leb c 13)

-- The other white space of unicode.IsSpace, in UTF-8.
is_wide_space : ℕ → ℕ → Bool
is_wide_space a b = nat_eq a 194 && (nat_eq b 133 || nat_eq b 160)

is_wider_space : ℕ → ℕ → ℕ → Bool
is_wider_space a b c =
    (nat_eq a 225 && nat_eq b 154 && nat_eq c 128)
    || (nat_eq a 226
        && nat_eq b 128
        && ((leb 128 c && leb c 138) || nat_eq c 168 || nat_eq c 169 || nat_eq c 175))
    || (nat_eq a 226 && nat_eq b 129 && nat_eq c 159)
    || (nat_eq a 227 && nat_eq b 128 && nat_eq c 128)

-- The bytes of the white space that a text starts with, or 0.
space_width : Bytes → ℕ
unfolding is_space is_wide_space is_wider_space
space_width [] = 0
space_width (a ∷ []) = if is_space a then 1 else 0
space_width (a ∷ b ∷ []) = if is_space a then 1 else if is_wide_space a b then 2 else 0
space_width (a ∷ b ∷ c ∷ s) =
    if is_space a then 1 else if is_wide_space a b then 2 else if is_wider_space a b c then 3 else 0

-- The same at the end of a text, which is given from its last byte.
last_space_width : Bytes → ℕ
unfolding is_space is_wide_space is_wider_space
last_space_width [] = 0
last_space_width (a ∷ []) = if is_space a then 1 else 0
last_space_width (b ∷ a ∷ []) = if is_space b then 1 else if is_wide_space a b then 2 else 0
last_space_width (c ∷ b ∷ a ∷ s) =
    if is_space c then 1 else if is_wide_space b c then 2 else if is_wider_space a b c then 3 else 0

-- The text behind its white space; the first n bytes belong to one that is being left out.
trim_start : (Bytes → ℕ) → ℕ → Bytes → Bytes
trim_start width n [] = []
trim_start width (suc n) (c ∷ s) = trim_start width n s
trim_start width zero (c ∷ s) = elim (width (c ∷ s)) [ zero ↦ c ∷ s | suc n ↦ trim_start width n s ]

reverse_onto : Bytes → Bytes → Bytes
reverse_onto done [] = done
reverse_onto done (c ∷ s) = reverse_onto (c ∷ done) s

-- strings.TrimSpace
unfoldable pub trim_space : Bytes → Bytes
unfolding space_width last_space_width trim_start reverse_onto
trim_space s =
    reverse_onto [] (trim_start last_space_width 0 (reverse_onto [] (trim_start space_width 0 s)))

test_eq : str "abc" == str "abc" ≡ true
unfolding str Bytes-discrete
test_eq = refl

test_split : split_on b'/' (str "a//bc") ≡ str "a" ∷ [] ∷ str "bc" ∷ []
unfolding split_on str
test_split = refl

test_trim : trim_space (str "  a b ") ≡ str "a b"
unfolding trim_space str
test_trim = refl

-- U+00A0 and U+3000 around a letter, and a letter in two bytes that ends in 0xA0
test_trim_wide : trim_space (194 ∷ 160 ∷ 97 ∷ 227 ∷ 128 ∷ 128 ∷ []) ≡ 97 ∷ []
unfolding trim_space
test_trim_wide = refl

test_trim_letter : trim_space (195 ∷ 160 ∷ 32 ∷ []) ≡ 195 ∷ 160 ∷ []
unfolding trim_space
test_trim_letter = refl

pub contains-append :
    (xs ys : List Bytes) (a : Bytes) → contains (xs ++ ys) a ≡ (contains xs a || contains ys a)
contains-append [] ys a = refl
contains-append (x ∷ xs) ys a = ground (arith, contains-append xs ys a)

pub contains-insert :
    (a b : Bytes) (xs : List Bytes) → contains (insert a xs) b ≡ (b == a || contains xs b)
contains-insert a b xs = ground (arith, contains-append xs (a ∷ []) b)

-- No string stands twice.
abbrev pub Distinct : List Bytes → Type 0
Distinct [] = Unit
Distinct (x ∷ xs) = (contains xs x ≡ false) × Distinct xs

pub has_prefix-append : (p s : Bytes) → has_prefix (p ++ s) p ≡ true
unfolding has_prefix
has_prefix-append [] s = refl
has_prefix-append (c ∷ p) s = ground (arith, has_prefix-append p s)
