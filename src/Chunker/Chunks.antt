-- ===== src/Chunker/Chunks.antt =====
-- The chunks of a stream, joined, are the stream, and their sizes are within the bounds.
use vestige.Prelude.{
  ℕ, ◌≤◌, ◌<◌, ◌≡◌, refl, sym, ap, ◌∙◌, true, false, pos_part, Bytes, List, [], ◌∷◌, ◌++◌,
  append-nil, append_assoc, arith, length, length-append, concat, concat-append, All, All-append,
  inl, inr, Bool-cases, is_empty,
}
use vestige.Errors.{Error, Result, ok, err, is_ok}
use vestige.Actions.{Action}
use vestige.Chunker.{
  Config, validate, State, start, absorb, at_boundary, Reader, flush, process_byte, process, split,
}
use vestige.Chunker.Contents.{contents, ending, finish, split_eq}

-- A callback that keeps the chunks.
unfoldable pub collect : Bytes → Action (List Bytes) (Unit {0})
collect chunk chunks = (ok tt, chunks ++ chunk ∷ [])

-- Every element but the last satisfies P.
abbrev pub AllButLast : (Bytes → Type 0) → List Bytes → Type 0
AllButLast P [] = Unit
AllButLast P (x ∷ []) = Unit
AllButLast P (x ∷ y ∷ ys) = P x × AllButLast P (y ∷ ys)

AllButLast-snoc :
    (P : Bytes → Type 0) (cs : List Bytes) (x : Bytes) → All P cs → AllButLast P (cs ++ x ∷ [])
AllButLast-snoc P [] x h = tt
AllButLast-snoc P (c ∷ []) x h = (h.0, tt)
AllButLast-snoc P (c ∷ d ∷ cs) x h = (h.0, AllButLast-snoc P (d ∷ cs) x h.1)

AllButLast-All : (P : Bytes → Type 0) (cs : List Bytes) → All P cs → AllButLast P cs
AllButLast-All P [] h = tt
AllButLast-All P (c ∷ []) h = tt
AllButLast-All P (c ∷ d ∷ cs) h = (h.0, AllButLast-All P (d ∷ cs) h.1)

All-weaken :
    (P Q : Bytes → Type 0) → ((x : Bytes) → P x → Q x) → (cs : List Bytes) → All P cs → All Q cs
All-weaken P Q f [] h = tt
All-weaken P Q f (c ∷ cs) h = (f c h.0, All-weaken P Q f cs h.1)

abbrev pub IsFull : Config → Bytes → Type 0
IsFull c chunk = (pos_part c.min_size ≤ length chunk) × (length chunk ≤ pos_part c.max_size)

abbrev pub IsBounded : Config → Bytes → Type 0
IsBounded c chunk = (1 ≤ length chunk) × (length chunk ≤ pos_part c.max_size)

-- Between bytes: the bytes so far are in the chunks and the buffer, and the chunks are full.
record Holds (c : Config) (input : Bytes) (s : State) (chunks : List Bytes) : Type 0 where
  joined : concat chunks ++ s.buf ≡ input
  full : All (IsFull c) chunks
  room : length s.buf < pos_part c.max_size

validate_bounds :
    (c : Config)
    → validate c ≡ ok tt
    → (1 ≤ pos_part c.min_size)
      × (pos_part c.min_size ≤ pos_part c.max_size)
      × (1 ≤ pos_part c.window)
unfolding validate
validate_bounds c h = ground arith

buf-absorb : (c : Config) (s : State) (b : ℕ) → (absorb c s b).buf ≡ s.buf ++ b ∷ []
unfolding absorb
buf-absorb c s b = ground arith

is_empty-snoc : (xs : Bytes) (x : ℕ) → is_empty (xs ++ x ∷ []) ≡ false
is_empty-snoc [] x = refl
is_empty-snoc (y ∷ ys) x = refl

concat-snoc : (xs : List Bytes) (x : Bytes) → concat (xs ++ x ∷ []) ≡ concat xs ++ x
concat-snoc xs x = simp (concat-append xs (x ∷ []), append-nil)

flush-collect :
    (s : State) (chunks : List Bytes)
    → is_empty s.buf ≡ false
    → flush collect s chunks ≡ (ok (record s { buf = [] }), chunks ++ s.buf ∷ [])
unfolding flush collect
flush-collect s chunks h = ground arith

at_boundary_sizes :
    (c : Config) (s : State)
    → validate c ≡ ok tt
    → (at_boundary c s ≡ true → pos_part c.min_size ≤ length s.buf)
      × (at_boundary c s ≡ false → length s.buf < pos_part c.max_size)
unfolding at_boundary
at_boundary_sizes c s v = ground (arith, validate_bounds c v)

module _ (c : Config) (v : validate c ≡ ok tt) (input : Bytes) (s : State) (chunks : List Bytes)
    (b : ℕ) (h : Holds c input s chunks) where
  joined_after : concat chunks ++ (absorb c s b).buf ≡ input ++ b ∷ []
  joined_after =
      rw (buf-absorb c s b)
        (sym (append_assoc (concat chunks) s.buf (b ∷ [])) ∙ ap (λ z. z ++ b ∷ []) h.joined)

  length_after : length (absorb c s b).buf ≤ pos_part c.max_size
  length_after = rw (buf-absorb c s b) (omega (arith, length-append s.buf (b ∷ []), h.room))

  cut-Holds :
      at_boundary c (absorb c s b) ≡ true
      → Holds c
          (input ++ b ∷ [])
          (record (absorb c s b) { buf = [] })
          (chunks ++ (absorb c s b).buf ∷ [])
  cut-Holds cut = record {
    joined = append-nil _ ∙ concat-snoc chunks (absorb c s b).buf ∙ joined_after;
    full =
        All-append (IsFull c) chunks _ h.full
          ((((at_boundary_sizes c (absorb c s b) v).0 cut), length_after), tt);
    room = omega (arith, validate_bounds c v);
  }

  step-Holds :
      (s' : State) × (chunks' : List Bytes) × (process_byte collect c s b chunks ≡ (ok s', chunks'))
      × Holds c (input ++ b ∷ []) s' chunks'
  unfolding process_byte
  step-Holds = elim (Bool-cases (at_boundary c (absorb c s b))) [
    | inl cut ↦ (
      record (absorb c s b) { buf = [] },
      chunks ++ (absorb c s b).buf ∷ [],
      rw cut (flush-collect (absorb c s b) chunks (rw (buf-absorb c s b) (is_empty-snoc s.buf b))),
      cut-Holds cut,
    )
    | inr go ↦ (
      absorb c s b,
      chunks,
      rw go refl,
      record {
        joined = joined_after;
        full = h.full;
        room = (at_boundary_sizes c (absorb c s b) v).1 go;
      },
    )
  ]

process-Holds :
    (c : Config) (v : validate c ≡ ok tt) (bs input : Bytes) (s : State) (chunks : List Bytes)
    → Holds c input s chunks
    → (s' : State) × (chunks' : List Bytes) × (process collect c bs s chunks ≡ (ok s', chunks'))
      × Holds c (input ++ bs) s' chunks'
unfolding process
process-Holds c v [] input s chunks h = (s, chunks, refl, rw append-nil h)
process-Holds c v (b ∷ bs) input s chunks h =
    let (s', chunks', e, h') = step-Holds c v input s chunks b h in
    let (s'', chunks'', e', h'') = process-Holds c v bs (input ++ b ∷ []) s' chunks' h' in
    (s'', chunks'', rw e e', rw (append_assoc input (b ∷ []) bs) at h'')

start-Holds : (c : Config) → validate c ≡ ok tt → Holds c [] (start c) []
unfolding start
start-Holds c v = record { joined = refl; full = tt; room = omega (arith, validate_bounds c v) }

-- `out` carries the chunks of a complete stream.
pub record IsSplit (c : Config) (input : Bytes) (out : Result State × List Bytes) : Type 0 where
  pub succeeds : is_ok out.0 ≡ true
  pub joined : concat out.1 ≡ input
  pub bounded : All (IsBounded c) out.1
  pub filled : AllButLast (λ chunk. pos_part c.min_size ≤ length chunk) out.1

IsBounded-of_full :
    (c : Config) → validate c ≡ ok tt → (cs : List Bytes) → All (IsFull c) cs → All (IsBounded c) cs
IsBounded-of_full c v cs h =
    All-weaken (IsFull c) (IsBounded c) (λ x f. omega (arith, validate_bounds c v)) cs h

flush_empty :
    (s : State) (chunks : List Bytes)
    → is_empty s.buf ≡ true
    → (flush collect s chunks ≡ (ok s, chunks)) × (s.buf ≡ [])
unfolding flush
flush_empty s chunks h = ground arith

nonempty_length : (xs : Bytes) → is_empty xs ≡ false → 1 ≤ length xs
nonempty_length xs h = ground arith

module _ (c : Config) (v : validate c ≡ ok tt) where
  empty-IsSplit :
      (input : Bytes) (s : State) (chunks : List Bytes)
      → Holds c input s chunks
      → s.buf ≡ []
      → IsSplit c input (ok s, chunks)
  empty-IsSplit input s chunks h e = record {
    succeeds = refl;
    joined = sym (append-nil _) ∙ (rw (← e) refl) ∙ h.joined;
    bounded = IsBounded-of_full c v chunks h.full;
    filled =
        AllButLast-All _ chunks
          (All-weaken (IsFull c) (λ x. pos_part c.min_size ≤ length x) (λ x f. f.0) chunks h.full);
  }

  rest-IsSplit :
      (input : Bytes) (s : State) (chunks : List Bytes)
      → Holds c input s chunks
      → is_empty s.buf ≡ false
      → IsSplit c input (ok (record s { buf = [] }), chunks ++ s.buf ∷ [])
  rest-IsSplit input s chunks h e = record {
    succeeds = refl;
    joined = concat-snoc chunks s.buf ∙ h.joined;
    bounded =
        All-append (IsBounded c) chunks _ (IsBounded-of_full c v chunks h.full)
          ((nonempty_length s.buf e, omega (arith, h.room)), tt);
    filled =
        AllButLast-snoc _ chunks s.buf
          (All-weaken (IsFull c) (λ x. pos_part c.min_size ≤ length x) (λ x f. f.0) chunks h.full);
  }

  flush-IsSplit :
      (input : Bytes) (s : State) (chunks : List Bytes)
      → Holds c input s chunks
      → IsSplit c input (flush collect s chunks)
  flush-IsSplit input s chunks h = elim (Bool-cases (is_empty s.buf)) [
    | inl e ↦ let (q, z) = flush_empty s chunks e in rw q (empty-IsSplit input s chunks h z)
    | inr e ↦ rw (flush-collect s chunks e) (rest-IsSplit input s chunks h e)
  ]

-- With valid sizes and a stream that ends well, `Split` succeeds; its chunks, joined, are the stream;
-- none is empty or longer than the maximum, and all but the last have at least the minimum size.
pub split-IsSplit :
    (c : Config) (r : Reader)
    → validate c ≡ ok tt
    → ending r ≡ ok tt
    → IsSplit c (contents r) (split collect c r [])
unfolding finish
split-IsSplit c r v e =
    let (s, chunks, q, h) = process-Holds c v (contents r) [] (start c) [] (start-Holds c v) in
    rw (split_eq collect c r [] v) (rw (q, e) (flush-IsSplit c v (contents r) s chunks h))

-- With valid sizes, if the stream fails, Split returns that error, and the chunks that it emitted
-- are full and are the beginning of the bytes read; what it had not yet emitted is shorter than
-- the maximum.
pub split_failed :
    (c : Config) (r : Reader) (x : Error)
    → validate c ≡ ok tt
    → ending r ≡ err x
    → (rest : Bytes) × ((split collect c r []).0 ≡ err x)
      × (concat (split collect c r []).1 ++ rest ≡ contents r)
      × All (IsFull c) (split collect c r []).1
      × (length rest < pos_part c.max_size)
unfolding finish
split_failed c r x v e =
    let (s, chunks, q, h) = process-Holds c v (contents r) [] (start c) [] (start-Holds c v) in
    rw (split_eq collect c r [] v) (rw (q, e) (s.buf, refl, h.joined, h.full, h.room))
