-- ===== src/Redis.antt =====
-- The Redis commands that the services call. The server and its client (ioredis) are not part of
-- the repository: each kind of value is a record of commands with the documented behaviour that
-- the code relies on. `Memory` has values of these records.
pub mod Memory
pub mod Scan
use redbox.Prelude.{
  ℕ, ◌<◌, String, ◌≡◌, Bool, true, false, List, ◌++◌, Option, none, some, ◌===◌, if◌then◌else◌,
  or_else, ℤ, pos, negsuc, next, prev, is_some, contains, not, ◌||◌, ◌&&◌, keep, not,
}

-- Keys that hold a number: INCR, DECR, EXPIRE, TTL, DEL and GET.
pub record Counters : Type 1 where
  pub State : Type 0
  pub read : State → String → Option ℤ
  pub ttl : State → String → ℤ
  pub incr : State → String → State × ℤ
  pub decr : State → String → State × ℤ
  pub expire : State → String → ℕ → State
  pub del : State → String → State
  pub incr_reply : (s : State) (k : String) → (incr s k).1 ≡ next (or_else (read s k) (pos 0))
  pub read-incr :
      (s : State) (k j : String)
      → read (incr s k).0 j
        ≡ (if k === j then some (next (or_else (read s k) (pos 0))) else read s j)
  pub ttl-incr :
      (s : State) (k j : String)
      → ttl (incr s k).0 j
        ≡ (if k === j then (if is_some (read s k) then ttl s k else negsuc 0) else ttl s j)
  pub decr_reply : (s : State) (k : String) → (decr s k).1 ≡ prev (or_else (read s k) (pos 0))
  pub read-decr :
      (s : State) (k j : String)
      → read (decr s k).0 j
        ≡ (if k === j then some (prev (or_else (read s k) (pos 0))) else read s j)
  pub read-expire : (s : State) (k j : String) (n : ℕ) → 0 < n → read (expire s k n) j ≡ read s j
  pub ttl-expire :
      (s : State) (k j : String) (n : ℕ)
      → 0 < n
      → ttl (expire s k n) j
        ≡ (if k === j then (if is_some (read s k) then pos n else ttl s k) else ttl s j)
  pub read-del :
      (s : State) (k j : String) → read (del s k) j ≡ (if k === j then none else read s j)

-- Keys that hold a text of a type `V`: GET, EXISTS, SET with EX, SET with EX and NX, DEL and EXPIRE.
pub record Texts (V : Type 0) : Type 1 where
  pub State : Type 0
  pub get : State → String → Option V
  -- SET key value EX seconds
  pub set : State → String → V → ℕ → State
  -- SET key value EX seconds NX, and whether it answered OK
  pub set_nx : State → String → V → ℕ → State × Bool
  pub del : State → String → State
  pub expire : State → String → ℕ → State
  pub get-set :
      (s : State) (k : String) (v : V) (n : ℕ) (j : String)
      → get (set s k v n) j ≡ (if k === j then some v else get s j)
  pub set_nx_reply :
      (s : State) (k : String) (v : V) (n : ℕ) → (set_nx s k v n).1 ≡ not (is_some (get s k))
  pub get-set_nx :
      (s : State) (k : String) (v : V) (n : ℕ) (j : String)
      → get (set_nx s k v n).0 j
        ≡ (if is_some (get s k) then get s j else if k === j then some v else get s j)
  pub get-del : (s : State) (k j : String) → get (del s k) j ≡ (if k === j then none else get s j)
  pub get-expire :
      (s : State) (k : String) (n : ℕ) (j : String) → 0 < n → get (expire s k n) j ≡ get s j

-- The script that gives a lock back:
-- `if redis.call('get', KEYS[1]) == ARGV[1] then return redis.call('del', KEYS[1]) else return 0 end`
module _ (redis : Texts String) where
  open redis use {State, get, del}

  unfoldable pub release_script : String → String → State → State
  release_script key token s = elim (get s key) [
    | none ↦ s
    | some held ↦ if held === token then del s key else s
  ]

-- Keys that hold a set of texts: SMEMBERS, SADD, SREM and EXPIRE.
pub record Sets : Type 1 where
  pub State : Type 0
  pub members : State → String → List String
  pub add : State → String → String → State
  pub remove : State → String → List String → State
  pub expire : State → String → ℕ → State
  pub contains-add :
      (s : State) (k x j y : String)
      → contains y (members (add s k x) j)
        ≡ (if k === j then x === y || contains y (members s j) else contains y (members s j))
  pub contains-remove :
      (s : State) (k : String) (xs : List String) (j y : String)
      → contains y (members (remove s k xs) j) ≡ (
          if k === j
          then not (contains y xs) && contains y (members s j)
          else contains y (members s j))
  pub members-expire :
      (s : State) (k : String) (n : ℕ) (j : String) → 0 < n → members (expire s k n) j ≡ members s j
