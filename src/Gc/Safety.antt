-- ===== src/Gc/Safety.antt =====
-- Garbage collection spares what a snapshot refers to, and removes the other chunks.
use vestige.Store.Failures.{delete_failed_absent, delete_failed_other}
use vestige.Prelude.{
  contains-insert, insert, Bytes-discrete, any, ◌||◌, ◌≡◌, Bytes, Option, none, Bool, true, false,
  arith, inl, inr, Bool-cases, ◌==◌, List, [], ◌∷◌, contains, map, ◌≢◌,
}
use vestige.Model.{ChunkRef, FileEntry, Manifest}
use vestige.Gc.{mark_entries, mark_refs, count_orphan, GcStats, sweep, remove_unless, mark}
use vestige.Actions.Maintains.{Maintains-pure, Maintains-then, Maintains}
use vestige.Errors.{ok, Result-cases}
use vestige.Host.{Host}
use vestige.Store.{ObjectStore, IsLawful, StoredObject}
use vestige.Paths.{key_base}
use vestige.Repository.{World}

module _ (S : ObjectStore) (h : Host) (object : S.State → Bytes → Option Bytes)
    (L : IsLawful S object) where
  -- What stands under a key.
  abbrev pub At : Bytes → Option Bytes → World S → Type 0
  At j x w = object w.store j ≡ x

  remove_other :
      (dry_run : Bool) (key j : Bytes) (x : Option Bytes)
      → key ≢ j
      → Maintains (At j x) (remove_unless S h dry_run key)
  unfolding remove_unless
  remove_other true key j x n = record { at = λ w a. a }
  remove_other false key j x n = record {
    at = λ w a. elim (Result-cases (S.delete key w.store).0) [
      | inl (_, q) ↦ ground (arith, L.delete_ok key w.store q j)
      | inr (e, q) ↦ ground (arith, delete_failed_other S object L key j w.store e n q)
    ];
  }

  live_differs :
      (live : List Bytes) (key j : Bytes)
      → contains live (key_base j) ≡ true
      → contains live (key_base key) ≡ false
      → key ≢ j
  live_differs live key j p q = λ e. cc

  remove_absent :
      (dry_run : Bool) (key j : Bytes) → Maintains (At j none) (remove_unless S h dry_run key)
  unfolding remove_unless
  remove_absent true key j = record { at = λ w a. a }
  remove_absent false key j = record {
    at = λ w a. elim (Result-cases (S.delete key w.store).0) [
      | inl (_, q) ↦ ground (arith, L.delete_ok key w.store q j)
      | inr (e, q) ↦ ground (arith, delete_failed_absent S object L key j w.store e q)
    ];
  }

  pub sweep_dry :
      (live : List Bytes) (objects : List StoredObject) (st : GcStats) (j : Bytes)
      (x : Option Bytes)
      → Maintains (At j x) (sweep S h true live objects st)
  unfolding sweep remove_unless
  sweep_dry live [] st j x = record { at = λ w a. a }
  sweep_dry live (o ∷ objects) st j x = elim (Bool-cases (contains live (key_base o.key))) [
    | inl t ↦ rw (t, sweep) (sweep_dry live objects st j x)
    | inr f ↦
        rw (f, sweep)
          (Maintains-then _ _ (Maintains-pure tt) (sweep_dry live objects (count_orphan o st) j x))
  ]

  pub sweep_spares :
      (dry_run : Bool) (live : List Bytes) (objects : List StoredObject) (st : GcStats) (j : Bytes)
      (x : Option Bytes)
      → contains live (key_base j) ≡ true
      → Maintains (At j x) (sweep S h dry_run live objects st)
  unfolding sweep
  sweep_spares dry_run live [] st j x p = record { at = λ w a. a }
  sweep_spares dry_run live (o ∷ objects) st j x p =
      elim (Bool-cases (contains live (key_base o.key))) [
        | inl t ↦ rw (t, sweep) (sweep_spares dry_run live objects st j x p)
        | inr f ↦
            rw (f, sweep)
              (Maintains-then _ _ (remove_other dry_run o.key j x (live_differs live o.key j p f))
                (sweep_spares dry_run live objects (count_orphan o st) j x p))
      ]

  -- Nothing is under the key of an orphan afterwards, and nothing comes back.
  pub absent_stays :
      (dry_run : Bool) (live : List Bytes) (objects : List StoredObject) (st : GcStats) (j : Bytes)
      → Maintains (At j none) (sweep S h dry_run live objects st)
  unfolding sweep
  absent_stays dry_run live [] st j = record { at = λ w a. a }
  absent_stays dry_run live (o ∷ objects) st j =
      elim (Bool-cases (contains live (key_base o.key))) [
        | inl t ↦ rw (t, sweep) (absent_stays dry_run live objects st j)
        | inr f ↦
            rw (f, sweep)
              (Maintains-then _ _ (remove_absent dry_run o.key j)
                (absent_stays dry_run live objects (count_orphan o st) j))
      ]

  pub sweep_removes :
      (live : List Bytes) (objects : List StoredObject) (st st' : GcStats) (w : World S) (j : Bytes)
      → (sweep S h false live objects st w).0 ≡ ok st'
      → contains (map (λ (o : StoredObject). o.key) objects) j ≡ true
      → contains live (key_base j) ≡ false
      → object (sweep S h false live objects st w).1.store j ≡ none
  unfolding sweep
  sweep_removes live [] st st' w j q m n = absurd (ground arith)
  sweep_removes live (o ∷ objects) st st' w j q m n =
      elim (Bool-cases (contains live (key_base o.key))) [
        | inl t ↦
            rw (t, sweep) (sweep_removes live objects st st' w j (ground arith) (ground arith) n)
        | inr f ↦ elim (Result-cases (S.delete o.key w.store).0) [
          | inr (e, p) ↦ absurd (ground arith)
          | inl (_, p) ↦
              let w₁ : World S = record w { store = (S.delete o.key w.store).1 } in
              elim (Bytes-discrete j o.key) [
                | yes e ↦
                    rw (f, sweep)
                      (rw (p, sweep)
                        ((absent_stays false live objects (count_orphan o st) j).at w₁
                          (ground (arith, L.delete_ok o.key w.store p j))))
                | no ne ↦
                    rw (f, sweep)
                      (rw (p, sweep)
                        (sweep_removes live objects (count_orphan o st) st' w₁ j (ground arith)
                          (ground arith) n))
              ]
        ]
      ]

-- Whether some entry of a published manifest refers to the chunk.
abbrev pub is_referenced : Bytes → List Manifest → Bool
is_referenced id ms =
    any
      (λ (m : Manifest).
        any (λ (e : FileEntry). any (λ (ref : ChunkRef). id == ref.id) e.chunks) m.files)
      ms

contains-mark_refs :
    (live : List Bytes) (refs : List ChunkRef) (id : Bytes)
    → contains (mark_refs live refs) id
      ≡ (contains live id || any (λ (ref : ChunkRef). id == ref.id) refs)
unfolding mark_refs
contains-mark_refs live [] id = ground arith
contains-mark_refs live (ref ∷ refs) id =
    ground (arith, contains-mark_refs (insert ref.id live) refs id, contains-insert ref.id id live)

pub contains-mark_entries :
    (live : List Bytes) (es : List FileEntry) (id : Bytes)
    → contains (mark_entries live es) id ≡ (
        contains live id
        || any (λ (e : FileEntry). any (λ (ref : ChunkRef). id == ref.id) e.chunks) es)
unfolding mark_entries
contains-mark_entries live [] id = ground arith
contains-mark_entries live (e ∷ es) id = ground (
  arith,
  contains-mark_entries (mark_refs live e.chunks) es id,
  contains-mark_refs live e.chunks id,
)

contains-mark_onto :
    (live : List Bytes) (ms : List Manifest) (id : Bytes)
    → contains (mark live ms) id ≡ (contains live id || is_referenced id ms)
unfolding mark
contains-mark_onto live [] id = ground arith
contains-mark_onto live (m ∷ ms) id = ground (
  arith,
  contains-mark_onto (mark_entries live m.files) ms id,
  contains-mark_entries live m.files id,
)

pub contains-mark :
    (ms : List Manifest) (id : Bytes) → contains (mark [] ms) id ≡ is_referenced id ms
contains-mark ms id = contains-mark_onto [] ms id
