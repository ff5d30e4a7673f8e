-- ===== src/Tests/Starts.antt =====
-- The start of an upload, and the cleanup of files, on servers in memory.
use redbox.Prelude.{keep, ltb, ℕ, String, ◌≡◌, refl, [], ◌∷◌, Option, none, ok}
use redbox.Prelude.Text.{truthy, is_blank}
use redbox.Files.Limits.{chunk_count, get_file_limits_for_username}
use redbox.Files.Downloads.{StoredObject, handle_cleanup}
use redbox.Files.Cleanup.{rows-handle_cleanup}
use redbox.Files.State.{File, World, master_key_key}
use redbox.Files.Steps.{
  acquire_upload_init_lock, release_upload_init_lock, set_upload_storage_index,
  get_master_key_for_user,
}
use redbox.Files.Upload.{
  Fresh, check_quota, open_upload, create_upload, locked_create, initialize_upload,
}
use redbox.Files.Active.{reserve_active_upload, make_room_for_active_upload}
use redbox.Files.Started.{Started, initialize_upload-Started}
use redbox.Tests.Uploads.{services, world_of, half}

-- The user has no upload yet.
abbrev idle : World services
idle = record (world_of half) { active = λ k. [] }

abbrev fresh : Fresh
fresh = record { token = "tok"; storage_uuid = "k"; upload_id = "new"; now = 7 }

idle_initialized : (initialize_upload services "u" 60000000 2 none none fresh idle).0 ≡ ok "new"
unfolding initialize_upload locked_create create_upload open_upload check_quota
    acquire_upload_init_lock release_upload_init_lock set_upload_storage_index reserve_active_upload
    make_room_for_active_upload get_master_key_for_user master_key_key get_file_limits_for_username
    chunk_count truthy is_blank
idle_initialized = refl

initialize_upload-Started_example :
    Started services "u" 60000000 2 none none fresh "new" idle
      (initialize_upload services "u" 60000000 2 none none fresh idle).1
initialize_upload-Started_example =
    initialize_upload-Started services "u" 60000000 2 none none fresh "new" idle tt idle_initialized

abbrev file_at : String → ℕ → File
file_at id expires_at = record {
  id = id;
  share_token = "t";
  original_name = "a.txt";
  storage_name = "k.bin";
  size = 4;
  mimetype = "text/plain";
  user_id = "u";
  password_hash = none;
  expires_at = expires_at;
  encrypted_file_key = "";
  file_key_iv = "";
}

-- A file that has expired and one that has not.
abbrev two_files : World services
two_files = record (world_of half) { files = file_at "f" 5 ∷ file_at "g" 20 ∷ [] }

abbrev no_object : services.storage.State → String → Option StoredObject
no_object s k = none

rows-handle_cleanup_example :
    ((handle_cleanup services no_object 10 two_files).files ≡ file_at "g" 20 ∷ [])
    × (keep (λ f. ltb f.expires_at 10) (handle_cleanup services no_object 10 two_files).files ≡ [])
rows-handle_cleanup_example = rows-handle_cleanup services no_object 10 two_files
