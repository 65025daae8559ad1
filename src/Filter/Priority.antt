-- ===== src/Filter/Priority.antt =====
-- What a matcher made by `new_matcher` includes.
use vestige.Prelude.{◌≡◌, ◌↔◌, ◌⊎◌, true, false, Bytes, List, [], ◌∷◌, arith, any}
use vestige.Errors.{ok}
use vestige.Filter.{Matcher, Glob, new_matcher, glob_matches, matches, excluded, include}

module _ (glob : Glob) where
  matches-eq-any :
      (ps : List Bytes) (name : Bytes)
      → matches glob ps name ≡ any (λ p. glob_matches glob p name) ps
  unfolding matches
  matches-eq-any [] name = ground arith
  matches-eq-any (p ∷ ps) name = ground (arith, matches-eq-any ps name)

  -- A name is included exactly when no exclude pattern matches it, and some include pattern does or
  -- there are none: an exclusion wins over every inclusion. The matcher holds the patterns given.
  pub include-new_matcher :
      (includes excludes : List Bytes) (m : Matcher) (name : Bytes)
      → new_matcher glob includes excludes ≡ ok m
      → (include glob m name ≡ true) ↔ (
          (any (λ p. glob_matches glob p name) excludes ≡ false)
          × ((includes ≡ []) ⊎ (any (λ p. glob_matches glob p name) includes ≡ true)))
  unfolding new_matcher include excluded
  include-new_matcher [] excludes m name h =
      ground (arith, matches-eq-any excludes name, matches-eq-any [] name)
  include-new_matcher (i ∷ is) excludes m name h =
      ground (arith, matches-eq-any excludes name, matches-eq-any (i ∷ is) name)
