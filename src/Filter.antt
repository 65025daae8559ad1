-- ===== src/Filter.antt =====
-- internal/filter/filter.go: include and exclude patterns. `glob` is path.Match, which is outside
-- the repository: it answers, or refuses a malformed pattern.
pub mod Priority
use vestige.Prelude.{Bool, true, false, ◌||◌, Bytes, List, [], ◌∷◌, ◌++◌, is_empty, if◌then◌else◌}
use vestige.Errors.{Error, Result, ok, err, wrap, ◌>>=◌, ◌>>◌}

pub record Matcher : Type 0 where
  pub includes : List Bytes
  pub excludes : List Bytes

abbrev pub Glob : Type 0
Glob = Bytes → Bytes → Result Bool

module _ (glob : Glob) where
  check_patterns : List Bytes → Result (Unit {0})
  check_patterns [] = ok tt
  check_patterns (pattern ∷ rest) = elim (glob pattern []) [
    | ok _ ↦ check_patterns rest
    | err e ↦ err (wrap "invalid glob" e)
  ]

  unfoldable pub new_matcher : List Bytes → List Bytes → Result Matcher
  unfolding check_patterns
  new_matcher includes excludes = do
    check_patterns (includes ++ excludes)
    ok (record { includes = includes; excludes = excludes })

  -- `ok, _ := path.Match(pattern, name)`: an error counts as no match
  pub glob_matches : Bytes → Bytes → Bool
  glob_matches pattern name = elim (glob pattern name) [ ok b ↦ b | err _ ↦ false ]

  unfoldable pub matches : List Bytes → Bytes → Bool
  unfolding glob_matches
  matches [] name = false
  matches (pattern ∷ rest) name = glob_matches pattern name || matches rest name

  unfoldable pub excluded : Matcher → Bytes → Bool
  unfolding matches
  excluded m name = matches m.excludes name

  unfoldable pub include : Matcher → Bytes → Bool
  unfolding matches excluded
  include m name = if excluded m name then false else is_empty m.includes || matches m.includes name
