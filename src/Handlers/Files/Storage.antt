-- ===== src/Handlers/Files/Storage.antt =====
-- xotero/src/s3.rs. The S3 client library is a parameter: the bucket is a state of its own type, and
-- a call gives the bucket after it and the status code of the answer, with an error as `none`.
use zhost.Prelude.{ℕ, String, Bool, true, ◌&&◌, Option, some, List, ◌≡◌, is_some_and, leb, ltb}

pub record Bucket (S : Type 0) : Type 0 where
  pub put_object_with_content_type : S → String → List ℕ → String → S × Option ℕ
  pub delete_object : S → String → S × Option ℕ
  pub presign_get : S → String → Option String
  -- What is under a key.
  pub holds : S → String → Option (List ℕ)

abbrev pub is_success : ℕ → Bool
is_success code = leb 200 code && ltb code 300

module _ {S : Type 0} (bucket : Bucket S) where
  -- `Storage::put`, with an error as `false`.
  unfoldable pub put : S → String → List ℕ → String → S × Bool
  put s key bytes content_type =
      let answer = bucket.put_object_with_content_type s key bytes content_type in
      (answer.0, is_some_and is_success answer.1)

  -- `Storage::delete`, with an error as `false`.
  unfoldable pub delete : S → String → S × Bool
  delete s key =
      let answer = bucket.delete_object s key in (answer.0, is_some_and is_success answer.1)

-- What S3 documents: an object that is put can be read.
pub record BucketLaws {S : Type 0} (bucket : Bucket S) : Type 0 where
  pub put_same :
      (s : S) (key : String) (bytes : List ℕ) (content_type : String)
      → is_some_and is_success (bucket.put_object_with_content_type s key bytes content_type).1
        ≡ true
      → bucket.holds (bucket.put_object_with_content_type s key bytes content_type).0 key
        ≡ some bytes
