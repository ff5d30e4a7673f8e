-- ===== src/Accounts/Machine.antt =====
-- A user as the account services see it from outside, without tables, Redis or messages: a status
-- and a session key. `K` says which session keys an operation sets.
use redbox.Prelude.{String, ◌≡◌, refl, ◌≢◌, ◌⊎◌, inl, inr}
use redbox.Accounts.State.{UserStatus, deleted, User}

pub record Account : Type 0 where
  pub status : UserStatus
  pub session_key : String

pub data Move (K : String → Type 0) : Account → Account → Type 0 where
  -- A session key of the operation: refresh, logout, a new password or name.
  rotate : (a : Account) (key : String) → K key → Move K a (record a { session_key = key })
  -- Another status, with a session key of the operation, unless the user is deleted.
  enter :
      (a : Account) (status : UserStatus) (key : String)
      → K key
      → a.status ≢ deleted
      → Move K a (record { status = status; session_key = key })

pub data Moves (K : String → Type 0) (a : Account) : Account → Type 0 where
  here : Moves K a a
  after : {b c : Account} → Moves K a b → Move K b c → Moves K a c

module _ {K : String → Type 0} where
  pub Moves-trans : {a b c : Account} → Moves K a b → Moves K b c → Moves K a c
  Moves-trans r here = r
  Moves-trans r (after s e) = after (Moves-trans r s) e

  Move-deleted : {a b : Account} → Move K a b → a.status ≡ deleted → b.status ≡ deleted
  Move-deleted (rotate a key k) h = h
  Move-deleted (enter a status key k n) h = absurd (n h)

  -- A deleted account keeps its status for good.
  pub Moves-deleted : {a b : Account} → Moves K a b → a.status ≡ deleted → b.status ≡ deleted
  Moves-deleted here h = h
  Moves-deleted (after r e) h = Move-deleted e (Moves-deleted r h)

  Move-key : {a b : Account} → Move K a b → K b.session_key
  Move-key (rotate a key k) = k
  Move-key (enter a status key k n) = k

  -- An account that moved has one of the session keys of `K`.
  pub Moves-key : {a b : Account} → Moves K a b → (b ≡ a) ⊎ K b.session_key
  Moves-key here = inl refl
  Moves-key (after r e) = inr (Move-key e)

module _ {K L : String → Type 0} (up : (key : String) → K key → L key) where
  Move-widen : {a b : Account} → Move K a b → Move L a b
  Move-widen (rotate a key k) = rotate a key (up key k)
  Move-widen (enter a status key k n) = enter a status key (up key k) n

  pub Moves-widen : {a b : Account} → Moves K a b → Moves L a b
  Moves-widen here = here
  Moves-widen (after r e) = after (Moves-widen r) (Move-widen e)

abbrev pub account : User → Account
account u = record { status = u.status; session_key = u.session_key }
