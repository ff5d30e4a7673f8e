-- ===== src/Storage/Memory.antt =====
-- Object storage that keeps the open uploads and the objects as tests, and answers every call.
use redbox.Prelude.{ℕ, String, ◌≡◌, refl, Bool, true, false, some, arith, ◌===◌, if◌then◌else◌}
use redbox.Storage.{Storage}

-- `content_length` is what HeadObject answers for every object.
pub record Bucket : Type 0 where
  pub opened : String → Bool
  pub objects : String → Bool
  pub content_length : ℕ

abbrev pub switch : (String → Bool) → String → Bool → String → Bool
switch f k b j = if k === j then b else f j

pub opened_after :
    (s : Bucket) (k u j : String)
    → some (some k) ≡ some (some u)
    → switch s.opened k true j ≡ (if u === j then true else s.opened j)
opened_after s k u j h = ground arith

-- An upload's id is its key.
abbrev pub memory_storage : Storage
memory_storage = record {
  State = Bucket;
  create_multipart = λ s k. (record s { opened = switch s.opened k true }, some (some k));
  upload_part = λ s k u n b. (s, some (some b));
  complete_multipart = λ s k u ps.
      (record s { opened = switch s.opened u false; objects = switch s.objects k true }, true);
  abort_multipart = λ s k u. (record s { opened = switch s.opened u false }, true);
  head_object = λ s k. some (some s.content_length);
  delete_object = λ s k. (record s { objects = switch s.objects k false }, true);
  is_open = λ s u. s.opened u;
  has_object = λ s k. s.objects k;
  is_open-create = opened_after;
  is_open-upload_part = λ s k u n b j. refl;
  is_open-abort = λ s k u j h. refl;
  has_object-delete = λ s k j h. refl;
}
