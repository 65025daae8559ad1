-- ===== src/Command/Find/Matches.antt =====
-- What `vestige find` prints.
use vestige.Prelude.{
  nat_eq, ◌∙◌, sym, ◌≡◌, refl, arith, ℕ, ◌+◌, Bool, Bytes, List, [], ◌∷◌, ◌++◌, append_assoc,
  append-nil, select, map, All, is_empty, length, if◌then◌else◌, Bool-cases, inl, inr,
}
use vestige.Actions.{raise_if}
use vestige.Errors.{Result, ok, err, message}
use vestige.Model.{FileEntry}
use vestige.Command.Find.{Line, line_of, print_when, print_matches, find_paths}

same :
    {a b : ℕ} {x y : List Line} → a ≡ b → x ≡ y → ◌≡◌ {A = Result ℕ × List Line} (ok a, x) (ok b, y)
same p q = cc

decided :
    {A : Type 0} (xs : List A) (out : List Line)
    → raise_if (nat_eq (0 + length xs) 0) "no paths matched" out
      ≡ (if is_empty xs then err (message "no paths matched") else ok tt, out)
decided [] out = refl
decided (x ∷ xs) out = ground arith

module _ (glob : Bytes → Bytes → Result Bool) (pattern : Bytes) (matches : Bytes → Bool) where
  -- The pattern has an answer for the path of an entry.
  abbrev pub IsAnswered : FileEntry → Type 0
  IsAnswered e = glob pattern e.path ≡ ok (matches e.path)

  abbrev pub matching : List FileEntry → List FileEntry
  matching es = select (λ (e : FileEntry). matches e.path) es

  print_matches_lem :
      (es : List FileEntry) (n : ℕ) (out : List Line)
      → All IsAnswered es
      → print_matches glob pattern es n out
        ≡ (ok (n + length (matching es)), out ++ map line_of (matching es))
  unfolding print_matches print_when
  print_matches_lem [] n out h = same (omega arith) (sym (append-nil out))
  print_matches_lem (e ∷ es) n out (g, h) = elim (Bool-cases (matches e.path)) [
    | inl t ↦
        rw (g, t)
          (print_matches_lem es (n + 1) (out ++ line_of e ∷ []) h
            ∙ same (omega arith) (append_assoc out (line_of e ∷ []) (map line_of (matching es))))
    | inr f ↦ rw (g, f) (print_matches_lem es (n + 0) out h ∙ same (omega arith) refl)
  ]

-- When the pattern has an answer for every path, `vestige find` prints one line for each entry that
-- matches, in order, and fails exactly when there is none.
pub find_paths_lem :
    (glob : Bytes → Bytes → Result Bool) (pattern : Bytes) (matches : Bytes → Bool)
    (es : List FileEntry)
    → All (IsAnswered glob pattern matches) es
    → find_paths glob pattern es [] ≡ (
      if is_empty (matching glob pattern matches es)
          then err (message "no paths matched")
          else ok tt,
      map line_of (matching glob pattern matches es),
    )
unfolding find_paths
find_paths_lem glob pattern matches es h =
    rw (print_matches_lem glob pattern matches es 0 [] h)
      (decided (matching glob pattern matches es) (map line_of (matching glob pattern matches es)))
