-- ===== src/Examples/Buckets.antt =====
-- A bucket whose calls do what is documented.
use vestige.Prelude.{
  ◌==◌, Bool, Bytes, Option, none, some, List, [], ◌∷◌, if◌then◌else◌, str, has_prefix, lookup, put,
  erase,
}
use vestige.Store.S3.{
  Failure, Answer, done, failed, Condition, unconditional, if_absent, if_match, ListedObject,
  Client,
}
use vestige.Store.S3.Laws.{names_missing}

abbrev Bucket : Type 0
Bucket = List (Bytes × Bytes)

abbrev missing : Failure
missing = record { text = str "NoSuchKey"; code = 404 }

abbrev refused : Failure
refused = record { text = str "PreconditionFailed"; code = 412 }

-- The ETag of an object is its contents.
abbrev read : Option Bytes → Answer (Answer Bytes × Bytes)
read none = failed missing
read (some d) = done (done d, d)

abbrev stored : Bytes → Bytes → Condition → Bucket → Option Bytes → Answer Bytes × Bucket
stored k d unconditional b o = (done d, put k d b)
stored k d if_absent b (some x) = (failed refused, b)
stored k d if_absent b none = (done d, put k d b)
stored k d (if_match v) b (some x) = if x == v then (done d, put k d b) else (failed refused, b)
stored k d (if_match v) b none = (failed missing, b)

abbrev erased : Bytes → Condition → Bucket → Option Bytes → Answer (Unit {0}) × Bucket
erased k (if_match v) b (some x) = if x == v then (done tt, erase k b) else (failed refused, b)
erased k if_absent b o = (failed refused, b)
erased k c b o = (done tt, erase k b)

abbrev page : Bytes → Bucket → List ListedObject
page p [] = []
page p ((k, d) ∷ b) =
    let rest = page p b in
    if has_prefix k p then record { key = k; size = 0; etag = str "1" } ∷ rest else rest

abbrev bucket : Client
bucket = record {
  State = Bucket;
  get_object = λ k b. read (lookup k b);
  put_object = λ k d c b. stored k d c b (lookup k b);
  delete_object = λ k c b. erased k c b (lookup k b);
  pages = λ p b. done (page p b) ∷ [];
}

abbrev view : Bucket → Bytes → Option Bytes
view b k = lookup k b

abbrev names_none : Failure → Bool
names_none f = names_missing f.text
