-- ===== src/Store/S3/Laws.antt =====
-- The S3 store as an object store, from what is documented of the client.
use vestige.Prelude.{
  ◌||◌, str, ◌⊎◌, Bool, ◌≡◌, ◌↔◌, true, Bytes, Option, none, some, List, if◌then◌else◌, ◌==◌,
  has_prefix, contains,
}
use vestige.Store.S3.{
  lower, contains_text, Failure, done, failed, Condition, unconditional, if_absent, if_match,
  ListedObject, Client, full_key,
}
use vestige.Store.S3.Listing.{listed_keys, AreDone, IsBare}
use vestige.Store.{IsPresent}

-- The text of an error names one of the codes of a missing key.
unfoldable pub names_missing : Bytes → Bool
unfolding lower contains_text str
names_missing text =
    contains_text (lower text) (str "nosuchkey")
    || contains_text (lower text) (str "notfound")
    || contains_text (lower text) (str "status code: 404")

-- Whatever an object of the bucket is read with has this ETag.
abbrev pub HasEtag : (C : Client) → Bytes → Bytes → C.State → Type 0
HasEtag C k v s = (d w : Bytes) → C.get_object k s ≡ done (done d, w) → w ≡ v

-- The condition of a call on a key holds.
abbrev pub IsMet :
    (C : Client) → (C.State → Bytes → Option Bytes) → Condition → Bytes → C.State → Type 0
IsMet C view unconditional k s = Unit
IsMet C view if_absent k s = view s k ≡ none
IsMet C view (if_match v) k s = HasEtag C k v s

-- What is documented of the client and relied on, over the object under each key of the bucket and
-- the failures whose code is that of a missing key. A call that is answered has found its condition
-- true and has done its work and nothing else; one that fails has done nothing, or its work, if the
-- answer was lost. An object is read with the ETag that storing it has returned. A failure to read for a
-- missing key means that there is none, and the text of a failure names such a code only if it is its
-- own. The pages list the objects with the prefix.
pub record IsLawfulClient (C : Client) (view : C.State → Bytes → Option Bytes)
    (is_missing : Failure → Bool) : Type 0 where
  pub get_done :
      (k : Bytes) (s : C.State) (d v : Bytes)
      → C.get_object k s ≡ done (done d, v)
      → view s k ≡ some d
  pub get_missing :
      (k : Bytes) (s : C.State) (f : Failure)
      → C.get_object k s ≡ failed f
      → is_missing f ≡ true
      → view s k ≡ none
  pub text_missing : (f : Failure) → names_missing f.text ≡ true → is_missing f ≡ true
  pub put_done :
      (k d v : Bytes) (c : Condition) (s : C.State)
      → (C.put_object k d c s).0 ≡ done v
      → IsMet C view c k s
        × ((j : Bytes) → view (C.put_object k d c s).1 j ≡ (if k == j then some d else view s j))
  pub put_etag :
      (k d v : Bytes) (c : Condition) (s : C.State)
      → (C.put_object k d c s).0 ≡ done v
      → HasEtag C k v (C.put_object k d c s).1
  pub put_found :
      (k d v w : Bytes) (s : C.State)
      → (C.put_object k d (if_match w) s).0 ≡ done v
      → IsPresent (view s k)
  pub put_failed :
      (k d : Bytes) (c : Condition) (s : C.State) (f : Failure)
      → (C.put_object k d c s).0 ≡ failed f
      → ((j : Bytes) → view (C.put_object k d c s).1 j ≡ view s j)
        ⊎ (IsMet C view c k s
            × ((j : Bytes)
                → view (C.put_object k d c s).1 j ≡ (if k == j then some d else view s j)))
  pub delete_done :
      (k : Bytes) (c : Condition) (s : C.State)
      → (C.delete_object k c s).0 ≡ done tt
      → IsMet C view c k s
        × ((j : Bytes) → view (C.delete_object k c s).1 j ≡ (if k == j then none else view s j))
  pub delete_failed :
      (k : Bytes) (c : Condition) (s : C.State) (f : Failure)
      → (C.delete_object k c s).0 ≡ failed f
      → ((j : Bytes) → view (C.delete_object k c s).1 j ≡ view s j)
        ⊎ ((j : Bytes) → view (C.delete_object k c s).1 j ≡ (if k == j then none else view s j))
  pub pages_done :
      (p : Bytes) (s : C.State) (objects : List ListedObject)
      → AreDone (C.pages p s) objects
      → (k : Bytes)
      → (contains (listed_keys objects) k ≡ true) ↔ ((has_prefix k p ≡ true) × IsPresent (view s k))

module _ (C : Client) (prefix : Bytes) (view : C.State → Bytes → Option Bytes)
    (is_missing : Failure → Bool) (L : IsLawfulClient C view is_missing)
    (bare : (s : C.State) (k : Bytes) → IsBare prefix k → view s k ≡ none) where
  -- The objects of the repository.
  abbrev pub object : C.State → Bytes → Option Bytes
  object s k = view s (full_key prefix k)
