-- ===== src/Files/Limits.antt =====
-- The constants of files.service.ts, the sizes of chunks and stored objects, the limits of a user
-- and the expiry of a file.
use redbox.Prelude.{
  ℕ, zero, suc, ◌+◌, ◌-◌, ◌*◌, ◌/◌, ◌≤◌, ◌<◌, String, ◌≡◌, refl, ◌||◌, Option, none, some, arith,
  ◌===◌, if◌then◌else◌, ltb, Result, ok, err, internal,
}
use redbox.Dates.{DateFns}

abbrev pub max_active_uploads_per_user : ℕ
max_active_uploads_per_user = 1

abbrev pub upload_meta_ttl_seconds : ℕ
upload_meta_ttl_seconds = 86400

abbrev pub upload_init_lock_ttl_seconds : ℕ
upload_init_lock_ttl_seconds = 120

abbrev pub incomplete_upload_stale_ms : ℕ
incomplete_upload_stale_ms = 60 * 60 * 1000

abbrev pub default_max_file_size_bytes : ℕ
default_max_file_size_bytes = 2 * 1024 * 1024 * 1024 - 1

abbrev pub admin_max_file_size_bytes : ℕ
admin_max_file_size_bytes = 50 * 1024 * 1024 * 1024

abbrev pub default_file_quota_bytes : ℕ
default_file_quota_bytes = 2 * 1024 * 1024 * 1024

abbrev pub admin_file_quota_bytes : ℕ
admin_file_quota_bytes = 50 * 1024 * 1024 * 1024

abbrev pub plaintext_chunk_size_bytes : ℕ
plaintext_chunk_size_bytes = 50 * 1024 * 1024

abbrev pub encrypted_chunk_overhead_bytes : ℕ
encrypted_chunk_overhead_bytes = 12 + 16

-- `Math.ceil(fileSize / PLAINTEXT_CHUNK_SIZE_BYTES)`
unfoldable pub chunk_count : ℕ → ℕ
chunk_count size = (size + (plaintext_chunk_size_bytes - 1)) / plaintext_chunk_size_bytes

-- `expectedEncryptedSize` of one chunk in `handleChunk`.
unfoldable pub expected_chunk_size : ℕ → ℕ → ℕ → ℕ
expected_chunk_size file_size total_chunks chunk_index =
    (if ltb (chunk_index + 1) total_chunks
      then plaintext_chunk_size_bytes
      else file_size - (total_chunks - 1) * plaintext_chunk_size_bytes)
    + encrypted_chunk_overhead_bytes

-- Sizes are safe integers below 2^53.
unfoldable pub get_expected_encrypted_size : ℕ → Result ℕ
get_expected_encrypted_size plaintext_size =
    if ltb plaintext_size 1 || ltb admin_max_file_size_bytes plaintext_size
    then err (internal "Invalid stored file size")
    else ok (plaintext_size + chunk_count plaintext_size * encrypted_chunk_overhead_bytes)

pub record FileLimits : Type 0 where
  pub max_file_size : ℕ
  pub quota_limit : ℕ

-- `getFileLimitsForUsername`; the first argument is `getAdminForwardUsername()`.
unfoldable pub get_file_limits_for_username : Option String → String → FileLimits
get_file_limits_for_username none username = record {
  max_file_size = default_max_file_size_bytes;
  quota_limit = default_file_quota_bytes;
}
get_file_limits_for_username (some admin) username =
    if username === admin
    then record { max_file_size = admin_max_file_size_bytes; quota_limit = admin_file_quota_bytes }
    else record {
      max_file_size = default_max_file_size_bytes;
      quota_limit = default_file_quota_bytes;
    }

-- `calculateExpiration` at the time `now`.
unfoldable pub calculate_expiration : DateFns → ℕ → String → ℕ
calculate_expiration dates now expires_in =
    if expires_in === "1h"
    then dates.add_hours now 1
    else if expires_in === "24h"
    then dates.add_hours now 24
    else if expires_in === "7d"
    then dates.add_days now 7
    else dates.add_days now 30

-- The bytes of the first `k` chunks that `handleChunk` accepts for a file.
pub accepted_bytes : ℕ → ℕ → ℕ
accepted_bytes size zero = 0
accepted_bytes size (suc k) = accepted_bytes size k + expected_chunk_size size (chunk_count size) k

accepted_full :
    (size k : ℕ)
    → k < chunk_count size
    → accepted_bytes size k ≡ k * (plaintext_chunk_size_bytes + encrypted_chunk_overhead_bytes)
unfolding accepted_bytes expected_chunk_size
accepted_full size zero h = refl
accepted_full size (suc k) h = ground (arith, accepted_full size k)

accepted_all :
    (size n : ℕ)
    → chunk_count size ≡ suc n
    → accepted_bytes size (suc n) ≡ size + suc n * encrypted_chunk_overhead_bytes
unfolding accepted_bytes expected_chunk_size chunk_count
accepted_all size n h = ground (arith, accepted_full size n (unfold chunk_count in omega arith))

accepted_total :
    (size n : ℕ)
    → 0 < n
    → chunk_count size ≡ n
    → accepted_bytes size n ≡ size + n * encrypted_chunk_overhead_bytes
accepted_total size zero p h = absurd (omega arith)
accepted_total size (suc n) p h = accepted_all size n h

chunk_count_pos : (size : ℕ) → 0 < size → 0 < chunk_count size
unfolding chunk_count
chunk_count_pos size h = omega arith

-- The chunks that `handleChunk` accepts for a file add up to exactly the size that
-- `finalizeUpload` and the downloads require of the stored object, for every size that a user
-- can have.
pub accepted_bytes-get_expected_encrypted_size :
    (size : ℕ)
    → 0 < size
    → size ≤ admin_max_file_size_bytes
    → get_expected_encrypted_size size ≡ ok (accepted_bytes size (chunk_count size))
unfolding get_expected_encrypted_size
accepted_bytes-get_expected_encrypted_size size h k =
    rw (accepted_total size (chunk_count size) (chunk_count_pos size h) refl) (ground arith)

-- Every accepted chunk is larger than the overhead, and no larger than the upload limit.
pub expected_chunk_size_bounds :
    (size i : ℕ)
    → i < chunk_count size
    → (encrypted_chunk_overhead_bytes < expected_chunk_size size (chunk_count size) i)
      × (expected_chunk_size size (chunk_count size) i
          ≤ plaintext_chunk_size_bytes + encrypted_chunk_overhead_bytes)
unfolding expected_chunk_size chunk_count
expected_chunk_size_bounds size i h = ground arith

-- A file never expires at once, whatever was asked for.
pub calculate_expiration_later :
    (dates : DateFns) (now : ℕ) (expires_in : String)
    → now < calculate_expiration dates now expires_in
unfolding calculate_expiration
calculate_expiration_later dates now expires_in = ground (
  arith,
  dates.add_hours_later now 1,
  dates.add_hours_later now 24,
  dates.add_days_later now 7,
  dates.add_days_later now 30,
)
