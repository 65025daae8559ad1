-- ===== src/Paths.antt =====
-- internal/repository/repository.go: validatePath, safeJoin, isWithin, chunk paths and object keys;
-- filepath.Clean, Join and Rel of a Unix system, on paths kept as their components.
pub mod Safety
use vestige.Prelude.{
  ℕ, ◌-◌, Bool, true, false, not, ◌&&◌, ◌||◌, Bytes, String, List, [], ◌∷◌, ◌++◌, map, nat_eq, leb,
  if◌then◌else◌, str, ◌==◌, has_prefix, has_byte, split_on, length, take, drop, is_empty, any, all,
  ◌≡◌, refl, ◌+◌, ◌*◌, ◌/◌, ◌%◌, ◌<◌, ltb, arith, All,
}
use vestige.Errors.{Result, ok, err, message, fail_if, ◌>>=◌, ◌>>◌}

-- `p == "" || p == "." || p == ".."`
unfoldable pub is_bad_part : Bytes → Bool
unfolding str
is_bad_part p = p == [] || p == str "." || p == str ".."

unfoldable pub validate_path : Bytes → Result (Unit {0})
unfolding is_bad_part
validate_path path = do
  fail_if (path == [] || has_prefix path (str "/") || has_byte b'\\' path) "unsafe manifest path"
  fail_if (any is_bad_part (split_on b'/' path)) "unsafe manifest path"

-- A cleaned absolute path, by its components.
pub record FilePath : Type 0 where
  pub parts : List Bytes

-- Drops the last component.
unfoldable pub pop_part : List Bytes → List Bytes
pop_part [] = []
pop_part (p ∷ []) = []
pop_part (p ∷ q ∷ ps) = p ∷ pop_part (q ∷ ps)

-- filepath.Clean of an absolute path: empty and "." components go, and ".." takes the last one off.
clean_step : List Bytes → Bytes → List Bytes
unfolding str pop_part
clean_step walked p =
    if p == [] || p == str "."
    then walked
    else if p == str ".."
    then pop_part walked
    else walked ++ p ∷ []

unfoldable pub clean_parts : List Bytes → List Bytes → List Bytes
unfolding clean_step
clean_parts walked [] = walked
clean_parts walked (p ∷ ps) = clean_parts (clean_step walked p) ps

-- filepath.Join(base, filepath.FromSlash(rel))
unfoldable pub join : FilePath → Bytes → FilePath
unfolding clean_parts
join base rel = record { parts = clean_parts [] (base.parts ++ split_on b'/' rel) }

-- filepath.Rel(parent, child) between cleaned absolute paths: the common components go, and each
-- component that is left of the parent is one "..".
unfoldable pub relative : List Bytes → List Bytes → List Bytes
unfolding str
relative [] child = child
relative (p ∷ parent) [] = map (λ _. str "..") (p ∷ parent)
relative (p ∷ parent) (c ∷ child) =
    let rest = relative parent child in
    if p == c then rest else map (λ _. str "..") (p ∷ parent) ++ c ∷ child

-- `rel == ".." || strings.HasPrefix(rel, "../")`: the first component is "..".
goes_up : List Bytes → Bool
unfolding str
goes_up [] = false
goes_up (p ∷ ps) = p == str ".."

unfoldable pub is_within : FilePath → FilePath → Bool
unfolding relative goes_up
is_within child parent = not (goes_up (relative parent.parts child.parts))

unfoldable pub paths_overlap : FilePath → FilePath → Bool
unfolding is_within
paths_overlap a b = is_within a b || is_within b a

unfoldable pub safe_join : FilePath → Bytes → Result FilePath
unfolding join is_within
safe_join base rel = do
  validate_path rel
  fail_if (not (is_within (join base rel) base)) "restore path escapes destination"
  ok (join base rel)

-- hex.DecodeString accepts an even number of hexadecimal digits.
is_hex : ℕ → Bool
is_hex c = (leb b'0' c && leb c b'9') || (leb b'a' c && leb c b'f') || (leb b'A' c && leb c b'F')

unfoldable pub is_chunk_id : Bytes → Bool
unfolding is_hex
is_chunk_id id = nat_eq (length id) 64 && all is_hex id

-- rChunkPath, and the tests of chunkPath.
unfoldable pub chunk_path : Bytes → Result Bytes
unfolding is_chunk_id
chunk_path id = if is_chunk_id id then ok id else err (message "invalid chunk ID")

unfoldable pub chunk_key : Bytes → Result Bytes
unfolding str
chunk_key id = do
  checked ← chunk_path id
  ok (str "chunks/" ++ take 2 id ++ str "/" ++ take 2 (drop 2 id) ++ str "/" ++ id)

-- path.Base of an object key: the last part that is not empty, "/" if there is none, "." of nothing.
unfoldable pub last_part : Bytes → List Bytes → Bytes
last_part found [] = found
last_part found (p ∷ ps) = last_part (if p == [] then found else p) ps

unfoldable pub key_base : Bytes → Bytes
unfolding last_part str
key_base key = if key == [] then str "." else last_part (str "/") (split_on b'/' key)

-- hex.EncodeToString
hex_digit : ℕ → ℕ
hex_digit n = if ltb n 10 then b'0' + n else b'a' + n - 10

unfoldable pub hex_encode : Bytes → Bytes
unfolding hex_digit
hex_encode [] = []
hex_encode (b ∷ bs) = hex_digit (b / 16) ∷ hex_digit (b % 16) ∷ hex_encode bs

hex_encode-IsHex : (bs : Bytes) → All (λ b. b < 256) bs → all is_hex (hex_encode bs) ≡ true
unfolding hex_encode is_hex
hex_encode-IsHex [] h = refl
hex_encode-IsHex (b ∷ bs) h = ground (arith, hex_encode-IsHex bs h.1)

length-hex_encode : (bs : Bytes) → length (hex_encode bs) ≡ 2 * length bs
unfolding hex_encode
length-hex_encode [] = omega arith
length-hex_encode (b ∷ bs) = omega (arith, length-hex_encode bs)

-- The hexadecimal form of a digest of 32 bytes is a chunk identifier.
pub hex_encode-is_chunk_id :
    (bs : Bytes) → length bs ≡ 32 → All (λ b. b < 256) bs → is_chunk_id (hex_encode bs) ≡ true
unfolding is_chunk_id
hex_encode-is_chunk_id bs n h = ground (arith, hex_encode-IsHex bs h, length-hex_encode bs)
