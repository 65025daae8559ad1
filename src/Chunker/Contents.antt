-- ===== src/Chunker/Contents.antt =====
-- How the calls of Read cut the stream makes no difference.
use vestige.Prelude.{◌≡◌, refl, sym, ap, ◌∙◌, Bytes, [], ◌∷◌, ◌++◌}
use vestige.Errors.{Result, ok, err}
use vestige.Actions.{Action, continue, continue_ext, continue_assoc, ◌>>=◌, raise, lift}
use vestige.Chunker.{
  Config, validate, State, start, Reader, more, eof, failed, flush, process_byte, process,
  read_loop, split,
}

-- All bytes that the reads give, in order, and how the last read ends.
unfoldable pub contents : Reader → Bytes
contents (more bs r) = bs ++ contents r
contents (eof bs) = bs
contents (failed bs e) = bs

unfoldable pub ending : Reader → Result (Unit {0})
ending (more bs r) = ending r
ending (eof bs) = ok tt
ending (failed bs e) = err e

module _ {E : Type 0} (emit : Bytes → Action E (Unit {0})) where
  process-append :
      (c : Config) (xs ys : Bytes) (s : State) (e : E)
      → process emit c (xs ++ ys) s e ≡ (process emit c xs s >>= λ s'. process emit c ys s') e
  unfolding process
  process-append c [] ys s e = refl
  process-append c (x ∷ xs) ys s e =
      continue_ext _ _ (process_byte emit c s x e) (process-append c xs ys)
      ∙ sym (
          continue_assoc (process emit c xs) (λ s'. process emit c ys s')
            (process_byte emit c s x e))

  unfoldable pub finish : Result (Unit {0}) → State → Action E State
  finish (ok _) s = flush emit s
  finish (err x) s = raise x

  read_loop-process :
      (c : Config) (r : Reader) (s : State) (e : E)
      → read_loop emit c r s e ≡ (process emit c (contents r) s >>= finish (ending r)) e
  unfolding read_loop contents ending finish
  read_loop-process c (more bs r) s e =
      continue_ext _ _ (process emit c bs s e) (read_loop-process c r)
      ∙ sym
          (continue_assoc (process emit c (contents r)) (finish (ending r)) (process emit c bs s e))
      ∙ ap (continue (finish (ending r))) (sym (process-append c bs (contents r) s e))
  read_loop-process c (eof bs) s e = refl
  read_loop-process c (failed bs x) s e = refl

  pub split_eq :
      (c : Config) (r : Reader) (e : E)
      → validate c ≡ ok tt
      → split emit c r e ≡ (process emit c (contents r) (start c) >>= finish (ending r)) e
  unfolding split
  split_eq c r e v = rw v (read_loop-process c r (start c) e)

  -- Two readers with the same bytes and the same ending are split alike, whatever the callback does
  -- and however the bytes are spread over the calls of Read.
  pub split_segmentation :
      (c : Config) (r q : Reader) (e : E)
      → contents r ≡ contents q
      → ending r ≡ ending q
      → split emit c r e ≡ split emit c q e
  unfolding split
  split_segmentation c r q e h k = continue_ext _ _ (lift (validate c) e) (λ _ e'.
      read_loop-process c r (start c) e' ∙ rw (h, k) (sym (read_loop-process c q (start c) e')))
