-- ===== src/Redis/Memory.antt =====
-- Values of the Redis interfaces: a server that keeps its keys in functions.
use redbox.Prelude.{
  ℕ, ◌<◌, String, ◌≡◌, refl, Option, none, some, arith, ◌===◌, if◌then◌else◌, eq_iff, or_else, ℤ,
  pos, negsuc, next, prev, is_some, Bool, true, false, not, List, [], ◌∷◌, ◌||◌, ◌&&◌, keep,
  contains,
}
use redbox.Redis.{Counters, Texts, Sets}

-- What a key holds, and its time to live.
pub record Cell : Type 0 where
  pub value : ℤ
  pub left : ℤ

abbrev pub Cells : Type 0
Cells = String → Option Cell

abbrev pub value_of : Option Cell → Option ℤ
value_of none = none
value_of (some c) = some c.value

abbrev pub left_of : Option Cell → ℤ
left_of none = negsuc 1
left_of (some c) = c.left

abbrev pub put : Cells → String → Option Cell → Cells
put s k c j = if k === j then c else s j

abbrev no_expiry : Option Cell → ℤ
no_expiry none = negsuc 0
no_expiry (some c) = c.left

abbrev pub shift : (ℤ → ℤ) → Cells → String → Cells × ℤ
shift f s k =
    let v = f (or_else (value_of (s k)) (pos 0)) in
    (put s k (some (record { value = v; left = no_expiry (s k) })), v)

abbrev expire_cell : Option Cell → ℕ → Option Cell
expire_cell none n = none
expire_cell (some c) n = some (record c { left = pos n })

abbrev pub expire : Cells → String → ℕ → Cells
expire s k n = put s k (expire_cell (s k) n)

pub value_after_shift :
    (f : ℤ → ℤ) (s : Cells) (k j : String)
    → value_of ((shift f s k).0 j)
      ≡ (if k === j then some (f (or_else (value_of (s k)) (pos 0))) else value_of (s j))
value_after_shift f s k j = ground arith

pub left_after_shift :
    (s : Cells) (k j : String)
    → left_of ((shift next s k).0 j) ≡ (
        if k === j
        then (if is_some (value_of (s k)) then left_of (s k) else negsuc 0)
        else left_of (s j))
left_after_shift s k j = ground arith

pub value_after_expire :
    (s : Cells) (k j : String) (n : ℕ) → 0 < n → value_of (expire s k n j) ≡ value_of (s j)
value_after_expire s k j n h = ground (arith, eq_iff k j)

pub left_after_expire :
    (s : Cells) (k j : String) (n : ℕ)
    → 0 < n
    → left_of (expire s k n j) ≡ (
        if k === j
        then (if is_some (value_of (s k)) then pos n else left_of (s k))
        else left_of (s j))
left_after_expire s k j n h = ground (arith, eq_iff k j)

pub value_after_del :
    (s : Cells) (k j : String)
    → value_of (put s k none j) ≡ (if k === j then none else value_of (s j))
value_after_del s k j = ground arith

abbrev pub memory_counters : Counters
memory_counters = record {
  State = Cells;
  read = λ s k. value_of (s k);
  ttl = λ s k. left_of (s k);
  incr = shift next;
  decr = shift prev;
  expire = expire;
  del = λ s k. put s k none;
  incr_reply = λ s k. refl;
  read-incr = value_after_shift next;
  ttl-incr = left_after_shift;
  decr_reply = λ s k. refl;
  read-decr = value_after_shift prev;
  read-expire = value_after_expire;
  ttl-expire = left_after_expire;
  read-del = value_after_del;
}

-- A server without keys.
abbrev pub no_counters : Cells
no_counters k = none

module _ (V : Type 0) where
  abbrev pub Keys : Type 0
  Keys = String → Option V

  abbrev pub put_text : Keys → String → Option V → Keys
  put_text s k v j = if k === j then v else s j

  abbrev pub put_new : Keys → String → V → Keys × Bool
  put_new s k v = if is_some (s k) then (s, false) else (put_text s k (some v), true)

  pub put_new_reply :
      (s : Keys) (k : String) (v : V) (n : ℕ) → (put_new s k v).1 ≡ not (is_some (s k))
  put_new_reply s k v n = ground arith

  pub get_after_put_new :
      (s : Keys) (k : String) (v : V) (n : ℕ) (j : String)
      → (put_new s k v).0 j ≡ (if is_some (s k) then s j else if k === j then some v else s j)
  get_after_put_new s k v n j = ground arith

  abbrev pub memory_texts : Texts V
  memory_texts = record {
    State = Keys;
    get = λ s k. s k;
    set = λ s k v n. put_text s k (some v);
    set_nx = λ s k v n. put_new s k v;
    del = λ s k. put_text s k none;
    expire = λ s k n. s;
    get-set = λ s k v n j. refl;
    set_nx_reply = put_new_reply;
    get-set_nx = get_after_put_new;
    get-del = λ s k j. refl;
    get-expire = λ s k n j h. refl;
  }

abbrev pub SetKeys : Type 0
SetKeys = String → List String

abbrev pub put_set : SetKeys → String → List String → SetKeys
put_set s k xs j = if k === j then xs else s j

abbrev pub without : List String → List String → List String
without xs ys = keep (λ y. not (contains y xs)) ys

pub contains-without :
    (y : String) (xs ys : List String)
    → contains y (without xs ys) ≡ (not (contains y xs) && contains y ys)
contains-without y xs [] = ground arith
contains-without y xs (z ∷ ys) = ground (arith, eq_iff z y, contains-without y xs ys)

pub contains_after_add :
    (s : SetKeys) (k x j y : String)
    → contains y (put_set s k (x ∷ s k) j)
      ≡ (if k === j then x === y || contains y (s j) else contains y (s j))
contains_after_add s k x j y = ground (arith, eq_iff k j)

pub contains_after_remove :
    (s : SetKeys) (k : String) (xs : List String) (j y : String)
    → contains y (put_set s k (without xs (s k)) j)
      ≡ (if k === j then not (contains y xs) && contains y (s j) else contains y (s j))
contains_after_remove s k xs j y = ground (arith, eq_iff k j, contains-without y xs (s k))

abbrev pub memory_sets : Sets
memory_sets = record {
  State = SetKeys;
  members = λ s k. s k;
  add = λ s k x. put_set s k (x ∷ s k);
  remove = λ s k xs. put_set s k (without xs (s k));
  expire = λ s k n. s;
  contains-add = contains_after_add;
  contains-remove = contains_after_remove;
  members-expire = λ s k n j h. refl;
}
