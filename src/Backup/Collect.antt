-- ===== src/Backup/Collect.antt =====
-- The collection of the chunk workers' results puts each reference at its own place, in whatever order
-- the results come.
use vestige.Prelude.{
  ◌≡◌, ◌≢◌, ◌⊎◌, refl, ◌∙◌, ℕ, zero, suc, ◌<◌, some, List, [], ◌∷◌, All, length, set, replicate,
  get_elem?, inl, inr, arith,
}
use mathlib.Core.Path.{subst}
use vestige.Errors.{Result-cases, ok}
use vestige.Model.{ChunkRef}
use vestige.Chunks.{Stored}
use vestige.Backup.{
  ChunkResult, Collected, nothing_collected, receive, receive_outcome, place, in_order,
}

module _ {A : Type 0} where
  length-set : (xs : List A) (i : ℕ) (v : A) → length (set xs i v) ≡ length xs
  length-set [] i v = refl
  length-set (x ∷ xs) zero v = refl
  length-set (x ∷ xs) (suc i) v = ground (arith, length-set xs i v)

  set_here : (xs : List A) (i : ℕ) (v : A) → i < length xs → get_elem? (set xs i v) i ≡ some v
  set_here [] i v b = absurd (omega arith)
  set_here (x ∷ xs) zero v b = refl
  set_here (x ∷ xs) (suc i) v b = set_here xs i v (omega arith)

  set_elsewhere :
      (xs : List A) (i j : ℕ) (v : A) → i ≢ j → get_elem? (set xs i v) j ≡ get_elem? xs j
  set_elsewhere [] i j v n = refl
  set_elsewhere (x ∷ xs) zero zero v n = absurd (n refl)
  set_elsewhere (x ∷ xs) zero (suc j) v n = refl
  set_elsewhere (x ∷ xs) (suc i) zero v n = refl
  set_elsewhere (x ∷ xs) (suc i) (suc j) v n = set_elsewhere xs i j v (λ e. n (omega arith))

length-place :
    (found : List (ℕ × ChunkRef)) (refs : List ChunkRef) → length (place found refs) ≡ length refs
unfolding place
length-place [] refs = refl
length-place ((n, ref) ∷ found) refs = length-set (place found refs) n ref ∙ length-place found refs

length-replicate : (n : ℕ) (ref : ChunkRef) → length (replicate n ref) ≡ n
length-replicate zero ref = refl
length-replicate (suc n) ref = omega (arith, length-replicate n ref)

-- No two results have the same sequence number.
abbrev pub IsNumbered : List ChunkResult → Type 0
IsNumbered [] = Unit
IsNumbered (r ∷ rs) = All (λ (x : ChunkResult). x.sequence ≢ r.sequence) rs × IsNumbered rs

abbrev pub IsAmong : ChunkResult → List ChunkResult → Type 0
IsAmong r [] = ⊥
IsAmong r (x ∷ xs) = (x ≡ r) ⊎ IsAmong r xs

receive_later :
    (base : List ChunkRef) (i : ℕ) (rs : List ChunkResult) (c : Collected)
    → All (λ (x : ChunkResult). x.sequence ≢ i) rs
    → get_elem? (place (receive c rs).refs base) i ≡ get_elem? (place c.refs base) i
unfolding receive place
receive_later base i [] c f = refl
receive_later base i (r ∷ rs) c f = elim (Result-cases r.outcome) [
  | inl (s, e) ↦
      receive_later base i rs (receive_outcome c r.sequence r.ref r.outcome) f.1
      ∙ rw (e, receive_outcome, place) (set_elsewhere (place c.refs base) r.sequence i r.ref f.0)
  | inr (x, e) ↦
      receive_later base i rs (receive_outcome c r.sequence r.ref r.outcome) f.1
      ∙ rw (e, receive_outcome) refl
]

receive_first :
    (base : List ChunkRef) (r : ChunkResult) (rs : List ChunkResult) (c : Collected) (s : Stored)
    → All (λ (x : ChunkResult). x.sequence ≢ r.sequence) rs
    → r.outcome ≡ ok s
    → r.sequence < length base
    → get_elem? (place (receive c (r ∷ rs)).refs base) r.sequence ≡ some r.ref
unfolding receive place
receive_first base r rs c s n e b =
    receive_later base r.sequence rs (receive_outcome c r.sequence r.ref r.outcome) n
    ∙ rw (e, receive_outcome, place)
        (set_here (place c.refs base) r.sequence r.ref (omega (arith, length-place c.refs base)))

receive_found :
    (base : List ChunkRef) (rs : List ChunkResult) (c : Collected) (r : ChunkResult) (s : Stored)
    → IsNumbered rs
    → IsAmong r rs
    → r.outcome ≡ ok s
    → r.sequence < length base
    → get_elem? (place (receive c rs).refs base) r.sequence ≡ some r.ref
unfolding receive
receive_found base [] c r s n a e b = absurd a
receive_found base (x ∷ rs) c r s n (inr a) e b =
    receive_found base rs (receive_outcome c x.sequence x.ref x.outcome) r s n.1 a e b
receive_found base (x ∷ rs) c r s n (inl p) e b =
    subst
      (λ (y : ChunkResult).
        get_elem? (place (receive c (x ∷ rs)).refs base) y.sequence ≡ some y.ref)
      p (receive_first base x rs c s n.0 (rw p e) (rw p b))

-- When the results have different sequence numbers, the reference of each result without an error stands
-- at the result's sequence number in the list of references, in whatever order the results come.
pub in_order-receive :
    (next : ℕ) (rs : List ChunkResult) (r : ChunkResult) (s : Stored)
    → IsNumbered rs
    → IsAmong r rs
    → r.outcome ≡ ok s
    → r.sequence < next
    → get_elem? (in_order next (receive nothing_collected rs).refs) r.sequence ≡ some r.ref
unfolding in_order
in_order-receive next rs r s n a e b =
    receive_found (replicate next _) rs nothing_collected r s n a e
      (omega (arith, length-replicate next _))
