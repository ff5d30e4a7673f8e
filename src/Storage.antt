-- ===== src/Storage.antt =====
-- The object storage calls of the S3 client (@aws-sdk/client-s3), which is not part of the
-- repository. `Memory` has a value of the record. A call may fail with an exception: it then answers `none` or `false`.
pub mod Memory
pub mod Objects
use redbox.Prelude.{ℕ, String, ◌≡◌, Bool, true, false, List, Option, some, ◌===◌, if◌then◌else◌}

-- A part of a multipart upload: its number and its ETag.
pub record Part : Type 0 where
  pub part_number : ℕ
  pub etag : Option String

pub record Storage : Type 1 where
  pub State : Type 0
  -- CreateMultipartUpload of a key: the upload's id, if storage returned one.
  pub create_multipart : State → String → State × Option (Option String)
  -- UploadPart of a key, an upload, a part number and a body: the part's ETag.
  pub upload_part : State → String → String → ℕ → String → State × Option (Option String)
  -- CompleteMultipartUpload of a key, an upload and its parts.
  pub complete_multipart : State → String → String → List Part → State × Bool
  -- AbortMultipartUpload of a key and an upload.
  pub abort_multipart : State → String → String → State × Bool
  -- HeadObject: the object's ContentLength.
  pub head_object : State → String → Option (Option ℕ)
  pub delete_object : State → String → State × Bool
  -- Whether ListMultipartUploads names an upload, and whether a key has an object.
  pub is_open : State → String → Bool
  pub has_object : State → String → Bool
  pub is_open-create :
      (s : State) (k u j : String)
      → (create_multipart s k).1 ≡ some (some u)
      → is_open (create_multipart s k).0 j ≡ (if u === j then true else is_open s j)
  pub is_open-upload_part :
      (s : State) (k u : String) (n : ℕ) (b j : String)
      → is_open (upload_part s k u n b).0 j ≡ is_open s j
  pub is_open-abort :
      (s : State) (k u j : String)
      → (abort_multipart s k u).1 ≡ true
      → is_open (abort_multipart s k u).0 j ≡ (if u === j then false else is_open s j)
  pub has_object-delete :
      (s : State) (k j : String)
      → (delete_object s k).1 ≡ true
      → has_object (delete_object s k).0 j ≡ (if k === j then false else has_object s j)
