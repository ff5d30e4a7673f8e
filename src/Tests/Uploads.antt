-- ===== src/Tests/Uploads.antt =====
-- Uploads on servers in memory.
use redbox.Prelude.{
  ℕ, String, ◌≡◌, refl, true, false, List, [], ◌∷◌, Option, none, some, arith, ◌===◌, if◌then◌else◌,
  is_some, ok, ◌<◌,
}
use redbox.Prelude.Text.{truthy, is_blank}
use redbox.Redis.Memory.{memory_counters, no_counters, memory_texts, memory_sets}
use redbox.Storage.Memory.{memory_storage}
use redbox.Storage.{Part}
use redbox.Database.Memory.{memory_table}
use redbox.Dates.{utc}
use redbox.Files.Limits.{
  chunk_count, expected_chunk_size, get_expected_encrypted_size, accepted_bytes,
  accepted_bytes-get_expected_encrypted_size, calculate_expiration, get_file_limits_for_username,
}
use redbox.Files.State.{
  Codec, UploadMeta, UploadStorageIndex, File, User, Services, World, get_upload_meta_key,
  master_key_key,
}
use redbox.Files.Steps.{
  refresh_upload_state, get_master_key_for_user, abort_multipart_upload, release_active_upload,
}
use redbox.Files.Upload.{Chunk, check_quota}
use redbox.Files.Chunks.{
  Drawn, handle_chunk, finalize_upload, complete_upload, check_object, create_row, read_meta,
  drop_upload, cancel_upload, abort_tracked,
}
use redbox.Files.Cancel.{Cancelled, cancelling, handle_chunk-Cancelled}
use redbox.Files.Progress.{IsTracked, stored, handle_chunk_accepts, sending, sent}
use redbox.Files.Whole.{
  Accepted, handle_chunk-Accepted, send_all, send_all-Finished, Finished, TakesParts,
}
use redbox.Files.Quota.{Stored, finalize_upload-Stored}

accepted_bytes-get_expected_encrypted_size_example :
    get_expected_encrypted_size 60000000 ≡ ok (accepted_bytes 60000000 (chunk_count 60000000))
accepted_bytes-get_expected_encrypted_size_example =
    accepted_bytes-get_expected_encrypted_size 60000000 (omega arith) (omega arith)

two_chunks : 1 < chunk_count 60000000
unfolding chunk_count
two_chunks = omega arith

-- JSON texts as the values that they are printed from.
pub data Json : Type 0 where
  meta_text : UploadMeta → Json
  index_text : UploadStorageIndex → Json

abbrev pub parse_meta : Json → Option UploadMeta
parse_meta (meta_text m) = some m
parse_meta (index_text i) = none

abbrev pub parse_index : Json → Option UploadStorageIndex
parse_index (meta_text m) = none
parse_index (index_text i) = some i

abbrev pub meta_codec : Codec UploadMeta Json
meta_codec = record { stringify = meta_text; parse = parse_meta; parse-stringify = λ m. refl }

abbrev pub index_codec : Codec UploadStorageIndex Json
index_codec = record { stringify = index_text; parse = parse_index; parse-stringify = λ i. refl }

abbrev pub services : Services
services = record {
  Json = Json;
  texts = memory_texts String;
  documents = memory_texts Json;
  sets = memory_sets;
  counters = memory_counters;
  storage = memory_storage;
  files = memory_table File;
  users = memory_table User;
  metas = meta_codec;
  indexes = index_codec;
  dates = utc;
  admin_username = none;
  bcrypt_hash = λ s. s;
  bcrypt_compare = λ a b. a === b;
  encrypt = λ key iv text. text;
  hash = λ s. s;
}

-- An upload of 60,000,000 bytes in two chunks, of which `n` parts have arrived.
abbrev pub meta_at : ℕ → List Part → UploadMeta
meta_at n parts = record {
  total_chunks = 2;
  next_expected_chunk = n;
  file_size = 60000000;
  password_hash = none;
  expires_in = "7d";
  storage_key = "k.bin";
  s3_upload_id = some "k.bin";
  parts = parts;
  created_at = some 1;
  updated_at = some 1;
}

abbrev pub part_of : ℕ → Part
part_of n = record { part_number = n; etag = some "e" }

abbrev pub world_of : UploadMeta → World services
world_of meta = record {
  metas = λ k. if k === get_upload_meta_key "u" "id" then some (meta_text meta) else none;
  indexes = λ k. none;
  locks = λ k. none;
  master_keys = λ k. if k === master_key_key "u" then some "00" else none;
  active = λ k. "id" ∷ [];
  counters = no_counters;
  storage = record { opened = λ k. true; objects = λ k. false; content_length = 60000056 };
  files = [];
  users = record { id = "u"; username = "alice" } ∷ [];
}

abbrev second_chunk : Chunk
second_chunk = record { size = 7571228; buffer = "bytes" }

stored_half :
    stored services "u" "id" (world_of (meta_at 1 (part_of 1 ∷ [])))
    ≡ some (meta_text (meta_at 1 (part_of 1 ∷ [])))
unfolding get_upload_meta_key
stored_half = refl

abbrev pub half : UploadMeta
half = meta_at 1 (part_of 1 ∷ [])

abbrev quiet : World services → World services
quiet w = w

half-IsTracked : IsTracked half
unfolding chunk_count
half-IsTracked = record { total = refl; ordered = refl; bounded = omega arith }

second_sized : second_chunk.size ≡ expected_chunk_size 60000000 2 1
unfolding expected_chunk_size
second_sized = refl

still_stored :
    is_some (
      stored services "u" "id"
        (sent services "u" "id" quiet "k.bin" 9 half second_chunk (world_of half)))
    ≡ true
unfolding refresh_upload_state get_upload_meta_key truthy is_blank
still_stored = refl

half_known : truthy half.s3_upload_id ≡ some "k.bin"
unfolding truthy is_blank
half_known = refl

half_cancelled :
    (cancel_upload services "u" "id" (
      quiet (
        sending services "u" "id"
          (cancelling services "u" "id" quiet "k.bin" 9)
          "k.bin"
          9
          half
          (world_of half)))).0
    ≡ ok tt
unfolding cancel_upload abort_tracked abort_multipart_upload release_active_upload
    refresh_upload_state get_upload_meta_key truthy is_blank
half_cancelled = refl

handle_chunk-Cancelled_example :
    let r =
      handle_chunk services
        (cancelling services "u" "id" quiet "k.bin" 9)
        "u"
        "id"
        (some second_chunk)
        1
        9
        (world_of half) in
    Cancelled services "u" "id" quiet "k.bin" 9 r.0 r.1
handle_chunk-Cancelled_example =
    handle_chunk-Cancelled services "u" "id" quiet "k.bin" 9 half second_chunk (some "bytes")
      (world_of half) stored_half half_known (omega arith) second_sized refl half_cancelled

second_accepted :
    (handle_chunk services quiet "u" "id" (some second_chunk) 1 9 (world_of half)).0 ≡ ok tt
second_accepted =
    (handle_chunk_accepts services "u" "id" quiet "k.bin" 9 half second_chunk (some "bytes")
      (world_of half) stored_half half_known (omega arith) second_sized refl still_stored).0

handle_chunk-Accepted_example :
    Accepted services "u" "id" half second_chunk 1 9
      (handle_chunk services quiet "u" "id" (some second_chunk) 1 9 (world_of half)).1
handle_chunk-Accepted_example =
    handle_chunk-Accepted services "u" "id" quiet half second_chunk 1 9 (world_of half) stored_half
      half-IsTracked second_accepted

takes_parts : TakesParts services "u" "id"
takes_parts s key s3_id n body = (some body, refl)

sized : (7571228 ≡ expected_chunk_size 60000000 2 1) × Unit {0}
sized = (second_sized, tt)

send_all-Finished_example :
    ((send_all services "u" "id" (second_chunk ∷ []) 1 9 (world_of half)).0 ≡ ok tt)
    × Finished services "u" "id" half
        (send_all services "u" "id" (second_chunk ∷ []) 1 9 (world_of half)).1
send_all-Finished_example =
    send_all-Finished services "u" "id" (second_chunk ∷ []) half "k.bin" 9 (world_of half)
      takes_parts stored_half half-IsTracked half_known refl sized

abbrev full : UploadMeta
full = meta_at 2 (part_of 1 ∷ part_of 2 ∷ [])

abbrev drawn : Drawn
drawn = record { file_key_iv = "iv"; file_id = "f"; share_token = "t"; now = 10 }

abbrev full_row : File
full_row = record {
  id = "f";
  share_token = "t";
  original_name = "a.txt";
  storage_name = "k.bin";
  size = 60000000;
  mimetype = "text/plain";
  user_id = "u";
  password_hash = none;
  expires_at = 604800010;
  encrypted_file_key = "key";
  file_key_iv = "iv";
}

full_finalized :
    (finalize_upload services "u" "id" "a.txt" "text/plain" "key" 2 drawn (world_of full)).0
    ≡ ok full_row
unfolding finalize_upload complete_upload check_object create_row check_quota read_meta drop_upload
    get_master_key_for_user get_upload_meta_key master_key_key get_expected_encrypted_size
    get_file_limits_for_username calculate_expiration utc chunk_count truthy is_blank
full_finalized = refl

finalize_upload-Stored_example :
    Stored services "u" full_row
      (world_of full)
      (finalize_upload services "u" "id" "a.txt" "text/plain" "key" 2 drawn (world_of full)).1
finalize_upload-Stored_example =
    finalize_upload-Stored services "u" "id" "a.txt" "text/plain" "key" 2 drawn (world_of full)
      full_row full_finalized
