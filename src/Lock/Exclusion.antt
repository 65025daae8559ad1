-- ===== src/Lock/Exclusion.antt =====
-- Several writers on one repository, none of which recovers stale locks. The writers take turns in any
-- order; a turn is one call of the lock object, or work that leaves the lock object alone.
use vestige.Store.Failures.{put_failed_present}
use vestige.Prelude.{
  ◌≡◌, refl, sym, ◌∙◌, arith, ℕ, Bytes, Option, none, some, if◌then◌else◌, nat_eq, inl, inr, pos,
  [], ◌∷◌, ◌++◌, Bool-cases,
}
use vestige.Errors.{message, is_exists, Error, Result, ok, err, Result-cases}
use vestige.Host.{Host}
use vestige.Store.{ObjectStore, IsLawful, IsPresent}
use vestige.Repository.{World, store_put_if_absent}
use vestige.Lock.{
  WriteLock, lock_key, acquire_result, acquire_loop, acquire_write_lock, release, taken,
}

module _ (S : ObjectStore) (h : Host) (object : S.State → Bytes → Option Bytes) where
  -- The repository, and the lock that each writer has.
  pub record System : Type 0 where
    pub world : World S
    pub held : ℕ → Option WriteLock

  abbrev pub lock_object : World S → Option Bytes
  lock_object w = object w.store lock_key

  abbrev pub update : (ℕ → Option WriteLock) → ℕ → Option WriteLock → ℕ → Option WriteLock
  update held i x j = if nat_eq i j then x else held j

  -- What a writer has after it asked for the lock.
  abbrev pub got : Result WriteLock → Option WriteLock
  got (ok lock) = some lock
  got (err e) = none

  pub data Step : System → System → Type 0 where
    acquires :
        {w : World S} {held : ℕ → Option WriteLock} (i : ℕ)
        → held i ≡ none
        → Step
            (record { world = w; held = held })
            (record {
              world = (acquire_write_lock S h (pos 0) w).1;
              held = update held i (got (acquire_write_lock S h (pos 0) w).0);
            })
    works :
        {w w' : World S} {held : ℕ → Option WriteLock}
        → lock_object w' ≡ lock_object w
        → Step (record { world = w; held = held }) (record { world = w'; held = held })
    releases :
        {w : World S} {held : ℕ → Option WriteLock} (i : ℕ) (lock : WriteLock)
        → held i ≡ some lock
        → Step
            (record { world = w; held = held })
            (record { world = (release S h lock w).1; held = update held i none })

  -- From a repository that nobody has locked.
  pub data Reach : System → Type 0 where
    start : (w : World S) → Reach (record { world = w; held = λ _. none })
    later : {s t : System} → Reach s → Step s t → Reach t

  -- A lock is held by one writer at most, and its object is there while it is held.
  pub record IsExclusive (s : System) : Type 0 where
    pub present :
        (i : ℕ) (lock : WriteLock) → s.held i ≡ some lock → IsPresent (lock_object s.world)
    pub unique : (i j : ℕ) (a b : WriteLock) → s.held i ≡ some a → s.held j ≡ some b → i ≡ j

  -- A lock that exists is not recovered.
  taken_fails : (e : Error) (w : World S) → (x : Error) × (taken S h (pos 0) e w ≡ (err x, w))
  unfolding taken
  taken_fails e w = elim (Bool-cases (is_exists e)) [
    | inl t ↦ (message "repository is locked by another writer", rw t refl)
    | inr f ↦ (e, rw f refl)
  ]

  -- What asking for the lock once does, by the answer of the store.
  data IsAsked (w : World S) : Result WriteLock × World S → Type 0 where
    unasked : (e : Error) → IsAsked w (err e, w)
    created :
        (d v : Bytes)
        → (S.put_if_absent lock_key d w.store).0 ≡ ok v
        → IsAsked w (ok (record { version = v }), (store_put_if_absent S lock_key d w).1)
    not_created :
        (d : Bytes) (e x : Error)
        → (S.put_if_absent lock_key d w.store).0 ≡ err e
        → IsAsked w (err x, (store_put_if_absent S lock_key d w).1)

  acquire-IsAsked : (w : World S) → IsAsked w (acquire_write_lock S h (pos 0) w)
  unfolding acquire_write_lock acquire_loop acquire_result
  acquire-IsAsked w =
      elim (Result-cases
        (h.marshal_lock (record { pid = h.process_id; created_at = h.format_time w.now }))) [
          | inr (e, q) ↦ rw q (unasked e)
          | inl (d, q) ↦
              elim (Result-cases (S.put_if_absent lock_key (d ++ b'\n' ∷ []) w.store).0) [
                | inl (v, k) ↦ rw (q, k) (created (d ++ b'\n' ∷ []) v k)
                | inr (e, k) ↦
                    let (x, f) =
                      taken_fails e (store_put_if_absent S lock_key (d ++ b'\n' ∷ []) w).1 in
                    rw (q, k, f) (not_created (d ++ b'\n' ∷ []) e x k)
              ]
        ]

  module _ (L : IsLawful S object) where
    acquired :
        (w : World S) (r : Result WriteLock × World S)
        → IsAsked w r
        → (lock : WriteLock) → r.0 ≡ ok lock
        → (lock_object w ≡ none) × IsPresent (lock_object r.1)
    acquired w r (unasked e) lock q = absurd (ground (arith, q))
    acquired w r (created d v k) lock q =
        let (n, f) = L.put_ok lock_key d w.store v k in
        let there : object (S.put_if_absent lock_key d w.store).1 lock_key ≡ some d =
          ground (arith, f lock_key) in
        (n, rw there tt)
    acquired w r (not_created d e x k) lock q = absurd (ground (arith, q))

    refused :
        (w : World S) (r : Result WriteLock × World S)
        → IsAsked w r
        → (e : Error) → r.0 ≡ err e
        → IsPresent (lock_object w)
        → IsPresent (lock_object r.1)
    refused w r (unasked x) e q p = p
    refused w r (created d v k) e q p = absurd (ground (arith, q))
    refused w r (not_created d x y k) e q p = put_failed_present S object L lock_key d w.store x k p

    absent_present : (o : Option Bytes) → o ≡ none → IsPresent o → ⊥
    absent_present none e p = p
    absent_present (some d) e p = ground (arith, e)

    -- An entry of the updated table.
    only :
        (held : ℕ → Option WriteLock) (i j : ℕ) (x : Option WriteLock) (a : WriteLock)
        → update held i x j ≡ some a
        → (held j ≡ some a → ⊥)
        → i ≡ j
    only held i j x a e n = ground (arith, e, n)

    kept :
        (held : ℕ → Option WriteLock) (i j : ℕ) (a : WriteLock)
        → update held i none j ≡ some a
        → (held j ≡ some a) × (i ≡ j → ⊥)
    kept held i j a e = (ground (arith, e), λ q. absurd (ground (arith, e, q)))

    acquired-IsExclusive :
        (w : World S) (held : ℕ → Option WriteLock) (i : ℕ) (r : Result WriteLock × World S)
        → IsAsked w r
        → IsExclusive (record { world = w; held = held })
        → IsExclusive (record { world = r.1; held = update held i (got r.0) })
    acquired-IsExclusive w held i (ok lock, w') k x =
        let (free, there) = acquired w (ok lock, w') k lock refl in
        let nobody : (j : ℕ) (a : WriteLock) → held j ≡ some a → ⊥ =
          λ j a e. absent_present (lock_object w) free (x.present j a e) in
        record {
          present = λ j a e. there;
          unique = λ j l a b e f.
              sym (only held i j (some lock) a e (nobody j a))
              ∙ only held i l (some lock) b f (nobody l b);
        }
    acquired-IsExclusive w held i (err e, w') k x = record {
      present = λ j a q. refused w (err e, w') k e refl (x.present j a (kept held i j a q).0);
      unique = λ j l a b q f. x.unique j l a b (kept held i j a q).0 (kept held i l b f).0;
    }

    released-IsExclusive :
        (w w' : World S) (held : ℕ → Option WriteLock) (i : ℕ) (lock : WriteLock)
        → held i ≡ some lock
        → IsExclusive (record { world = w; held = held })
        → IsExclusive (record { world = w'; held = update held i none })
    released-IsExclusive w w' held i lock e x =
        let nobody : (j : ℕ) (a : WriteLock) → update held i none j ≡ some a → ⊥ =
          λ j a q. let (f, n) = kept held i j a q in n (x.unique i j lock a e f) in
        record {
          present = λ j a q. absurd (nobody j a q);
          unique = λ j l a b q f. absurd (nobody j a q);
        }

    Step-IsExclusive : (s t : System) → Step s t → IsExclusive s → IsExclusive t
    Step-IsExclusive s t (acquires {w} {held} i e) x =
        acquired-IsExclusive w held i (acquire_write_lock S h (pos 0) w) (acquire-IsAsked w) x
    Step-IsExclusive s t (works {w} {w'} {held} e) x = record {
      present = λ j a q. rw e (x.present j a q);
      unique = x.unique;
    }
    Step-IsExclusive s t (releases {w} {held} i lock e) x =
        released-IsExclusive w (release S h lock w).1 held i lock e x

    reach-IsExclusive : (s : System) → Reach s → IsExclusive s
    reach-IsExclusive s (start w) = record {
      present = λ i lock e. absurd (ground (arith, e));
      unique = λ i j a b e f. absurd (ground (arith, e));
    }
    reach-IsExclusive _ (later {s} {t} r st) = Step-IsExclusive s t st (reach-IsExclusive s r)

-- Whatever turns writers without recovery take on a repository that nobody has locked, a lock is held by
-- one of them at most, and the lock object is there while it is held, when the store is lawful.
pub Reach-IsExclusive :
    (S : ObjectStore) (h : Host) (object : S.State → Bytes → Option Bytes)
    → IsLawful S object
    → (s : System S h object) → Reach S h object s
    → IsExclusive S h object s
Reach-IsExclusive S h object L s r = reach-IsExclusive S h object L s r
