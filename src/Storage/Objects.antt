-- ===== src/Storage/Objects.antt =====
-- PutObject, GetObject and DeleteObject of the S3 client, with the objects' bodies. `put` and
-- `delete` answer false and `get` answers `none` where the call throws; `get` of a missing key
-- answers `some none`.
use redbox.Prelude.{String, ◌≡◌, refl, Bool, true, Option, none, some, ◌===◌, if◌then◌else◌, arith}

pub record Objects : Type 1 where
  pub State : Type 0
  pub put : State → String → String → State × Bool
  pub get : State → String → Option (Option String)
  pub delete : State → String → State × Bool
  -- The object that is stored under a key.
  pub stored : State → String → Option String
  pub get_reply : (s : State) (k : String) (r : Option String) → get s k ≡ some r → r ≡ stored s k
  pub stored-put :
      (s : State) (k v j : String)
      → (put s k v).1 ≡ true
      → stored (put s k v).0 j ≡ (if k === j then some v else stored s j)
  pub stored-delete :
      (s : State) (k j : String)
      → (delete s k).1 ≡ true
      → stored (delete s k).0 j ≡ (if k === j then none else stored s j)

abbrev pub put_body : (String → Option String) → String → Option String → String → Option String
put_body s k v j = if k === j then v else s j

pub reply_in_memory :
    (s : String → Option String) (k : String) (r : Option String) → some (s k) ≡ some r → r ≡ s k
reply_in_memory s k r h = ground arith

-- Storage that answers every call.
abbrev pub memory_objects : Objects
memory_objects = record {
  State = String → Option String;
  put = λ s k v. (put_body s k (some v), true);
  get = λ s k. some (s k);
  delete = λ s k. (put_body s k none, true);
  stored = λ s k. s k;
  get_reply = reply_in_memory;
  stored-put = λ s k v j h. refl;
  stored-delete = λ s k j h. refl;
}
