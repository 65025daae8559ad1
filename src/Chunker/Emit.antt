-- ===== src/Chunker/Emit.antt =====
-- A callback that never fails sees the chunks, in order, that a callback which keeps them sees.
use vestige.Prelude.{inl, inr, concat, ℕ, ◌≡◌, refl, sym, Bytes, List, [], ◌∷◌, ◌++◌, arith}
use vestige.Errors.{Result, Result-cases, ok, err}
use vestige.Actions.{Action, continue, ◌>>=◌, lift}
use vestige.Chunker.{
  Config, validate, State, start, Reader, more, eof, failed, flush, absorb, process_byte, process,
  read_loop, split,
}
use vestige.Chunker.Contents.{contents, ending}
use vestige.Chunker.Chunks.{collect, split-IsSplit, split_failed}

-- The states that a callback goes through.
unfoldable pub run : {E : Type 0} → (Bytes → E → E) → E → List Bytes → E
run next e [] = e
run next e (c ∷ cs) = run next (next c e) cs

pub run-append :
    {E : Type 0} (next : Bytes → E → E) (e : E) (cs ds : List Bytes)
    → run next e (cs ++ ds) ≡ run next (run next e cs) ds
unfolding run
run-append next e [] ds = refl
run-append next e (c ∷ cs) ds = run-append next (next c e) cs ds

module _ {E : Type 0} (next : Bytes → E → E) (e₀ : E) where
  -- The callback that goes to the next state.
  abbrev pub emit : Bytes → Action E (Unit {0})
  emit c e = (ok tt, next c e)

  -- Both end alike, and the state is the one after the chunks that were kept.
  abbrev Follows : {A : Type 0} → Result A × E → Result A × List Bytes → Type 0
  Follows x y = (x.0 ≡ y.0) × (x.1 ≡ run next e₀ y.1)

  record Sim {A : Type 0} (m : Action E A) (n : Action (List Bytes) A) : Type 0 where
    at : (cs : List Bytes) → Follows (m (run next e₀ cs)) (n cs)

  emit-Sim : (c : Bytes) → Sim (emit c) (collect c)
  unfolding collect run
  emit-Sim c = record { at = λ cs. (refl, sym (run-append next e₀ cs (c ∷ []))) }

  continue-Follows :
      {A B : Type 0} (f : A → Action E B) (g : A → Action (List Bytes) B)
      → ((a : A) → Sim (f a) (g a))
      → (x : Result A × E) (y : Result A × List Bytes) → Follows x y
      → Follows (continue f x) (continue g y)
  continue-Follows f g k (ok a, e) (ok b, cs) q = ground (arith, (k b).at cs)
  continue-Follows f g k (err a, e) (err b, cs) q = ground arith
  continue-Follows f g k (ok a, e) (err b, cs) q = absurd (ground arith)
  continue-Follows f g k (err a, e) (ok b, cs) q = absurd (ground arith)

  bind-Sim :
      {A B : Type 0} (m : Action E A) (n : Action (List Bytes) A) (f : A → Action E B)
      (g : A → Action (List Bytes) B)
      → Sim m n
      → ((a : A) → Sim (f a) (g a))
      → Sim (m >>= f) (n >>= g)
  bind-Sim m n f g h k = record {
    at = λ cs. continue-Follows f g k (m (run next e₀ cs)) (n cs) (h.at cs);
  }

  lift-Sim : {A : Type 0} (r : Result A) → Sim (lift r) (lift r)
  lift-Sim r = record { at = λ cs. (refl, refl) }

  flush-Sim : (s : State) → Sim (flush emit s) (flush collect s)
  unfolding flush
  flush-Sim s = record { at = λ cs. ground (arith, (emit-Sim s.buf).at cs) }

  process_byte-Sim :
      (c : Config) (s : State) (b : ℕ) → Sim (process_byte emit c s b) (process_byte collect c s b)
  unfolding process_byte
  process_byte-Sim c s b = record { at = λ cs. ground (arith, (flush-Sim (absorb c s b)).at cs) }

  process-Sim :
      (c : Config) (bs : Bytes) (s : State) → Sim (process emit c bs s) (process collect c bs s)
  unfolding process
  process-Sim c [] s = record { at = λ cs. (refl, refl) }
  process-Sim c (b ∷ bs) s = bind-Sim _ _ _ _ (process_byte-Sim c s b) (process-Sim c bs)

  read_loop-Sim :
      (c : Config) (r : Reader) (s : State) → Sim (read_loop emit c r s) (read_loop collect c r s)
  unfolding read_loop
  read_loop-Sim c (more bs r) s = bind-Sim _ _ _ _ (process-Sim c bs s) (read_loop-Sim c r)
  read_loop-Sim c (eof bs) s = bind-Sim _ _ _ _ (process-Sim c bs s) flush-Sim
  read_loop-Sim c (failed bs x) s =
      bind-Sim _ _ _ _ (process-Sim c bs s) (λ _. record { at = λ cs. (refl, refl) })

  -- What `split` gives with this callback, by what it gives when the chunks are kept.
  pub split-run :
      (c : Config) (r : Reader)
      → split emit c r e₀ ≡ ((split collect c r []).0, run next e₀ (split collect c r []).1)
  unfolding split run
  split-run c r =
      let both = bind-Sim _ _ _ _ (lift-Sim (validate c)) (λ _. read_loop-Sim c r (start c)) in
      let q : Follows (split emit c r e₀) (split collect c r []) = both.at [] in λ i. (q.0 i, q.1 i)

-- A split that succeeds had valid sizes and a stream that ended well, and its chunks are the stream.
pub split_ended :
    (c : Config) (r : Reader) (s : State)
    → (split collect c r []).0 ≡ ok s
    → (ending r ≡ ok tt) × (concat (split collect c r []).1 ≡ contents r)
unfolding split
split_ended c r s q = elim (Result-cases (validate c)) [
  | inr (x, e) ↦ absurd (ground arith)
  | inl (_, e) ↦ elim (Result-cases (ending r)) [
    | inr (x, f) ↦ let (_, p, _, _, _) = split_failed c r x e f in absurd (ground arith)
    | inl (_, f) ↦ (f, (split-IsSplit c r e f).joined)
  ]
]
