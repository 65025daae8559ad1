-- ===== src/Store/S3.antt =====
-- internal/repository/store.go: s3Store, over the calls of the AWS client that it makes. The client is
-- a parameter; of an error it sees the text.
pub mod Laws
pub mod Listing
use vestige.Prelude.{
  ℕ, ◌+◌, Bool, true, false, ◌&&◌, ◌||◌, Bytes, Option, none, some, List, [], ◌∷◌, ◌++◌,
  if◌then◌else◌, ◌==◌, str, has_prefix, leb, map, length, drop,
}
use vestige.Errors.{
  Error, Result, ok, err, external, object_not_found, object_exists, object_changed, is_exists,
}
use vestige.Actions.{Action}
use vestige.Model.{Int64}
use vestige.Store.{StoredObject, ObjectStore}

-- An error of the client: `err.Error()`, and a number for what else it is.
pub record Failure : Type 0 where
  pub text : Bytes
  pub code : ℕ

pub data Answer (A : Type 0) : Type 0 where
  done : A → Answer A
  failed : Failure → Answer A

-- IfNoneMatch "*", IfMatch, or neither.
pub data Condition : Type 0 where
  unconditional if_absent : Condition
  if_match : Bytes → Condition

pub record ListedObject : Type 0 where
  pub key : Bytes
  pub size : Int64
  pub etag : Bytes

-- GetObject gives the body, as io.ReadAll reads it, and the ETag; `pages` is what NextPage returns as long
-- as HasMorePages.
pub record Client : Type 1 where
  pub State : Type 0
  pub get_object : Bytes → State → Answer (Answer Bytes × Bytes)
  pub put_object : Bytes → Bytes → Condition → State → Answer Bytes × State
  pub delete_object : Bytes → Condition → State → Answer (Unit {0}) × State
  pub pages : Bytes → State → List (Answer (List ListedObject))

-- strings.ToLower over ASCII, and strings.Contains
unfoldable pub lower : Bytes → Bytes
lower s = map (λ c. if leb b'A' c && leb c b'Z' then c + 32 else c) s

unfoldable pub contains_text : Bytes → Bytes → Bool
contains_text [] t = has_prefix [] t
contains_text (c ∷ s) t = has_prefix (c ∷ s) t || contains_text s t

unfoldable pub s3_key_error : Failure → Error
unfolding lower contains_text str
s3_key_error f =
    let text = lower f.text in
    if contains_text text (str "nosuchkey")
      || contains_text text (str "notfound")
      || contains_text text (str "status code: 404")
    then object_not_found
    else if contains_text text (str "preconditionfailed")
        || contains_text text (str "conditionalrequestconflict")
        || contains_text text (str "status code: 412")
        || contains_text text (str "status code: 409")
    then object_exists
    else external f.code

-- `mapped := s3KeyError(err)`, and a failed condition means that the object has changed.
unfoldable pub changed_error : Failure → Error
unfolding s3_key_error
changed_error f = if is_exists (s3_key_error f) then object_changed else s3_key_error f

-- strings.TrimPrefix
unfoldable pub trim_prefix : Bytes → Bytes → Bytes
trim_prefix s prefix = if has_prefix s prefix then drop (length prefix) s else s

answered : {A : Type 0} → (Failure → Error) → Answer A → Result A
answered f (done a) = ok a
answered f (failed e) = err (f e)

read_object : Answer (Answer Bytes × Bytes) → Result (Bytes × Bytes)
read_object (done (done contents, etag)) = ok (contents, etag)
read_object (done (failed e, etag)) = err (external e.code)
read_object (failed e) = err (s3_key_error e)

module _ (prefix : Bytes) where
  unfoldable pub full_key : Bytes → Bytes
  full_key key = if prefix == [] then key else prefix ++ b'/' ∷ key

  unfoldable pub listed_key : Bytes → Bytes
  unfolding trim_prefix str
  listed_key key = trim_prefix (trim_prefix key prefix) (str "/")

  pub list_page : List ListedObject → List StoredObject
  unfolding listed_key
  list_page objects =
      map (λ (o : ListedObject). record { key = listed_key o.key; size = o.size; version = o.etag })
        objects

  -- The loop over the pages, up to the first error.
  pub list_pages : List (Answer (List ListedObject)) → Result (List StoredObject)
  unfolding list_page
  list_pages [] = ok []
  list_pages (failed e ∷ pages) = err (s3_key_error e)
  list_pages (done objects ∷ pages) = elim (list_pages pages) [
    | ok rest ↦ ok (list_page objects ++ rest)
    | err e ↦ err e
  ]

module _ (C : Client) (prefix : Bytes) where
  unfoldable pub get : Bytes → C.State → Result (Bytes × Bytes)
  unfolding full_key read_object
  get key s = read_object (C.get_object (full_key prefix key) s)

  unfoldable pub put_if_absent : Bytes → Bytes → Action C.State Bytes
  unfolding full_key answered
  put_if_absent key contents s =
      let (a, s') = C.put_object (full_key prefix key) contents if_absent s in
      (answered s3_key_error a, s')

  unfoldable pub replace_if_version : Bytes → Bytes → Bytes → Action C.State Bytes
  unfolding full_key answered changed_error
  replace_if_version key contents version s =
      let (a, s') = C.put_object (full_key prefix key) contents (if_match version) s in
      (answered changed_error a, s')

  unfoldable pub delete_if_version : Bytes → Bytes → Action C.State (Unit {0})
  unfolding full_key answered changed_error
  delete_if_version key version s =
      let (a, s') = C.delete_object (full_key prefix key) (if_match version) s in
      (answered changed_error a, s')

  unfoldable pub delete : Bytes → Action C.State (Unit {0})
  unfolding full_key answered
  delete key s =
      let (a, s') = C.delete_object (full_key prefix key) unconditional s in
      (answered s3_key_error a, s')

  unfoldable pub list : Bytes → C.State → Result (List StoredObject)
  unfolding full_key list_pages
  list p s = list_pages prefix (C.pages (full_key prefix p) s)

  abbrev pub s3_store : ObjectStore
  s3_store = record {
    State = C.State;
    get = get;
    put_if_absent = put_if_absent;
    replace_if_version = replace_if_version;
    delete_if_version = delete_if_version;
    delete = delete;
    list = list;
  }
