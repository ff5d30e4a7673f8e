-- ===== src/Files/Downloads.antt =====
-- Downloads, deletion and the hourly cleanup of files.service.ts. Log lines are left out; a failed
-- deletion of a storage object is logged and ignored. The constants that only describe the format
-- are left out of the answers.
use redbox.Prelude.{
  ℕ, ◌*◌, String, Bool, false, not, List, [], ◌∷◌, Option, none, some, ltb, ◌==◌, ◌===◌,
  if◌then◌else◌, is_some, template, Exec, Result, ok, err, not_found, forbidden, internal, fault,
  pure, throw, gets, modify, ◌>>=◌, ◌>>◌,
}
use redbox.Prelude.Text.{truthy}
use redbox.Database.{find_first, find_many}
use redbox.RateLimit.{assert_available, consume_attempt, clear_attempts}
use redbox.Files.Limits.{chunk_count, get_expected_encrypted_size}
use redbox.Files.State.{Services, World, File}

-- What GetObject answers: a body, if there is one, and its ContentLength.
pub record StoredObject : Type 0 where
  pub body : Option String
  pub content_length : Option ℕ

pub record DownloadMetadata : Type 0 where
  pub file_name : String
  pub mime_type : String
  pub plaintext_size : ℕ
  pub encrypted_size : ℕ
  pub chunks : ℕ
  pub password_protected : Bool

pub record FileDownload : Type 0 where
  pub stream : String
  pub file_name : String
  pub mime_type : String
  pub plaintext_size : ℕ
  pub encrypted_size : ℕ
  pub chunks : ℕ

abbrev pub download_namespace : String
download_namespace = "files:download:password-failure"

unfoldable pub download_attempt_subject : String → String → String
download_attempt_subject id client_ip = template ("file:" ∷ id ∷ ":ip:" ∷ client_ip ∷ [])

abbrev pub has_expired : ℕ → File → Bool
has_expired now f = ltb f.expires_at now

-- `get_object` is `none` where the call throws.
module _ (sv : Services) (get_object : sv.storage.State → String → Option StoredObject) where
  abbrev pub file_with : String → World sv → Option File
  file_with file_id w = find_first sv.files w.files (λ f. f.id === file_id)

  abbrev pub delete_row : File → World sv → World sv
  delete_row file w = record w {
    storage = (sv.storage.delete_object w.storage file.storage_name).0;
    files = sv.files.delete_many w.files (λ f. f.id === file.id);
  }

  unfoldable pub delete_file_internal : String → World sv → World sv
  delete_file_internal file_id w = elim (file_with file_id w) [
    | none ↦ w
    | some file ↦ delete_row file w
  ]

  unfoldable pub delete_file : String → String → Exec (World sv) (Unit {0})
  unfolding delete_file_internal
  delete_file user_id file_id = do
    found ← gets (file_with file_id)
    elim found [
      | none ↦ throw (not_found "File not found")
      | some file ↦
          if file.user_id === user_id
          then modify (delete_file_internal file_id)
          else throw (not_found "File not found")
    ]

  -- Deletion of the files in turn.
  unfoldable pub delete_files : List File → World sv → World sv
  unfolding delete_file_internal
  delete_files [] w = w
  delete_files (file ∷ files) w = delete_files files (delete_file_internal file.id w)

  unfoldable pub handle_cleanup : ℕ → World sv → World sv
  unfolding delete_files
  handle_cleanup now w = delete_files (find_many sv.files w.files (has_expired now)) w

  unfoldable pub get_downloadable_file : String → String → ℕ → Exec (World sv) File
  unfolding delete_file_internal
  get_downloadable_file file_id token now = do
    found ← gets (file_with file_id)
    elim found [
      | none ↦ throw (not_found "File not found or invalid token")
      | some file ↦
          if not (file.share_token === token)
          then throw (not_found "File not found or invalid token")
          else if has_expired now file
          then (do modify (delete_file_internal file.id); throw (not_found "File has expired"))
          else pure file
    ]

  -- A call of the rate limit service.
  abbrev pub on_counters : {A : Type 0} → Exec sv.counters.State A → Exec (World sv) A
  on_counters m w = ((m w.counters).0, record w { counters = (m w.counters).1 })

  unfoldable pub compare_password : String → String → String → Exec (World sv) (Unit {0})
  compare_password hash provided subject = do
    on_counters (assert_available sv.counters sv.hash download_namespace subject 10 (15 * 60))
    if sv.bcrypt_compare provided hash
        then on_counters (clear_attempts sv.counters sv.hash download_namespace subject)
        else (do
          on_counters (consume_attempt sv.counters sv.hash download_namespace subject 10 (15 * 60))
          throw (forbidden "Incorrect password"))

  unfoldable pub assert_download_password :
      File → Option String → String → Exec (World sv) (Unit {0})
  unfolding truthy compare_password download_attempt_subject
  assert_download_password file provided client_ip = elim (truthy file.password_hash) [
    | none ↦ pure tt
    | some hash ↦ elim (truthy provided) [
      | none ↦ throw (forbidden "This file is password protected")
      | some password ↦ compare_password hash password (download_attempt_subject file.id client_ip)
    ]
  ]

  unfoldable pub get_download_metadata :
      String → String → Option String → String → ℕ → Exec (World sv) DownloadMetadata
  get_download_metadata file_id token provided client_ip now = do
    file ← get_downloadable_file file_id token now
    assert_download_password file provided client_ip
    encrypted_size ← (λ w. (get_expected_encrypted_size file.size, w))
    pure (record {
      file_name = file.original_name;
      mime_type = file.mimetype;
      plaintext_size = file.size;
      encrypted_size = encrypted_size;
      chunks = chunk_count file.size;
      password_protected = is_some (truthy file.password_hash);
    })

  abbrev pub download_of : File → String → ℕ → FileDownload
  download_of file stream encrypted_size = record {
    stream = stream;
    file_name = file.original_name;
    mime_type = file.mimetype;
    plaintext_size = file.size;
    encrypted_size = encrypted_size;
    chunks = chunk_count file.size;
  }

  abbrev pub has_length : Option ℕ → ℕ → Bool
  has_length none n = false
  has_length (some m) n = m == n

  unfoldable pub open_stream : File → StoredObject → Result FileDownload
  open_stream file object = elim object.body [
    | none ↦ err (internal "File not found in storage")
    | some stream ↦ elim (get_expected_encrypted_size file.size) [
      | err e ↦ err e
      | ok encrypted_size ↦
          if has_length object.content_length encrypted_size
          then ok (download_of file stream encrypted_size)
          else err (internal "Stored file size validation failed")
    ]
  ]

  unfoldable pub read_object : File → World sv → Result FileDownload
  unfolding open_stream
  read_object file w = elim (get_object w.storage file.storage_name) [
    | none ↦ err fault
    | some object ↦ open_stream file object
  ]

  unfoldable pub download_file :
      String → String → Option String → String → ℕ → Exec (World sv) FileDownload
  download_file file_id token provided client_ip now = do
    file ← get_downloadable_file file_id token now
    assert_download_password file provided client_ip
    answer ← gets (read_object file)
    elim answer [ ok d ↦ pure d | err e ↦ throw e ]
