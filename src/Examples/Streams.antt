-- ===== src/Examples/Streams.antt =====
-- The theorems on streams, patterns, paths and manifests at concrete inputs.
use vestige.Prelude.{
  split_on, ◌≡◌, refl, ◌↔◌, ◌⊎◌, ℕ, Bytes, str, true, false, List, [], ◌∷◌, ◌++◌, any, concat,
  length, All, pos, pos_part, ◌<◌,
}
use vestige.Errors.{ok, err, external, ◌>>◌}
use vestige.Filter.{new_matcher, include, Matcher, glob_matches}
use vestige.Filter.Priority.{include-new_matcher}
use vestige.Paths.{safe_join, is_within, validate_path, FilePath}
use vestige.Paths.Safety.{safe_join_lem, is_within_lem}
use vestige.Manifest.{validate_manifest}
use vestige.Manifest.Valid.{IsValid, validate_manifest_lem}
use vestige.Chunker.{Config, validate, Reader, more, eof, failed, split}
use vestige.Chunker.Contents.{contents, ending, split_segmentation}
use vestige.Chunker.Chunks.{collect, IsSplit, IsFull, split-IsSplit, split_failed}
use vestige.Examples.{toy_host, sample}

abbrev tiny : Config
tiny = record { window = pos 2; min_size = pos 2; target_size = pos 2; max_size = pos 3 }

abbrev stream : Reader
stream = more (str "ab") (more (str "cde") (eof (str "f")))

abbrev stream_at_once : Reader
stream_at_once = eof (str "abcdef")

abbrev broken_stream : Reader
broken_stream = more (str "ab") (failed (str "c") (external 5))

tiny_valid : validate tiny ≡ ok tt
unfolding validate
tiny_valid = refl

stream_ends : ending stream ≡ ok tt
unfolding ending
stream_ends = refl

broken_ends : ending broken_stream ≡ err (external 5)
unfolding ending
broken_ends = refl

same_contents : contents stream ≡ contents stream_at_once
unfolding contents str
same_contents = refl

same_ending : ending stream ≡ ending stream_at_once
unfolding ending
same_ending = refl

-- The chunks that a run gives.
stream_chunks : concat (split collect tiny stream []).1 ≡ str "abcdef"
unfolding split str validate vestige.Chunker.process vestige.Chunker.process_byte
    vestige.Chunker.at_boundary vestige.Chunker.absorb vestige.Chunker.start
    vestige.Chunker.rotate_left64 vestige.Chunker.table_at collect
stream_chunks = refl

split-IsSplit_example : IsSplit tiny (contents stream) (split collect tiny stream [])
split-IsSplit_example = split-IsSplit tiny stream tiny_valid stream_ends

split_segmentation_example : split collect tiny stream [] ≡ split collect tiny stream_at_once []
split_segmentation_example =
    split_segmentation collect tiny stream stream_at_once [] same_contents same_ending

split_failed_example :
    (rest : Bytes) × ((split collect tiny broken_stream []).0 ≡ err (external 5))
    × (concat (split collect tiny broken_stream []).1 ++ rest ≡ contents broken_stream)
    × All (IsFull tiny) (split collect tiny broken_stream []).1
    × (length rest < pos_part tiny.max_size)
split_failed_example = split_failed tiny broken_stream (external 5) tiny_valid broken_ends

abbrev text_matcher : Matcher
text_matcher = record { includes = str "a" ∷ []; excludes = str "b" ∷ [] }

text_matcher_made : new_matcher toy_host.glob (str "a" ∷ []) (str "b" ∷ []) ≡ ok text_matcher
unfolding new_matcher
text_matcher_made = refl

include-new_matcher_example : (include toy_host.glob text_matcher (str "a") ≡ true) ↔ (
    (any (λ p. glob_matches toy_host.glob p (str "a")) (str "b" ∷ []) ≡ false)
    × ((str "a" ∷ [] ≡ [])
        ⊎ (any (λ p. glob_matches toy_host.glob p (str "a")) (str "a" ∷ []) ≡ true)))
include-new_matcher_example =
    include-new_matcher toy_host.glob (str "a" ∷ []) (str "b" ∷ []) text_matcher (str "a")
      text_matcher_made

abbrev target : FilePath
target = record { parts = str "data" ∷ [] }

abbrev sibling : FilePath
sibling = record { parts = str "data-old" ∷ [] }

safe_join_example : safe_join target (str "a/b") ≡ (do
  validate_path (str "a/b")
  ok (record { parts = target.parts ++ split_on b'/' (str "a/b") }))
unfolding vestige.Paths.is_bad_part vestige.Prelude.Bytes-discrete
safe_join_example = safe_join_lem target (str "a/b") refl

is_within_example :
    (is_within sibling target ≡ true)
    ↔ ((rest : List Bytes) × (sibling.parts ≡ target.parts ++ rest))
unfolding vestige.Paths.is_bad_part vestige.Prelude.Bytes-discrete
is_within_example = is_within_lem sibling target refl

validate_manifest_example : (validate_manifest sample ≡ ok tt) ↔ IsValid sample
validate_manifest_example = validate_manifest_lem sample

sample_valid : validate_manifest sample ≡ ok tt
unfolding validate_manifest vestige.Prelude.Bytes-discrete vestige.Manifest.check_entry
    validate_path vestige.Prelude.has_prefix vestige.Prelude.has_byte split_on
    vestige.Manifest.sum_chunks
sample_valid = refl
