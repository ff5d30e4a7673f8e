-- ===== src/Accounts/Rotation.antt =====
-- What an accepted `refreshToken` hands out, and what it does to the old session key.
use mathlib.Core.Option
use redbox.Prelude.{
  ℕ, String, ◌≡◌, refl, sym, ap, ◌∙◌, subst, true, false, Bool, none, some, arith, ok, err,
  Result-cases, Option-cases, Bool-cases, inl, inr, ◌===◌, ◌≢◌, forbidden, eq_iff, find, map,
  if◌then◌else◌, List, [], ◌∷◌, unauthorized, is_some,
}
use redbox.Accounts.State.{User, Services, World, active}
use redbox.Accounts.Users.{user_of}
use redbox.Accounts.Lifecycle.{assert_user_can_login}
use redbox.Accounts.Secrets.{Crypto, Jwt, Tokens, get_tokens}
use redbox.Accounts.Credentials.{
  refresh_token, validate, rotate_session, has_session, holds_session, extend_master_key,
}
use redbox.Accounts.Rows.{differ, user_of_id, find-map}
use redbox.Accounts.Sessions.{assert_user_can_login-HasActive}
use redbox.Accounts.Tokens.{Granted, granted}

ok_injective : {A : Type 0} {a b : A} → ok a ≡ ok b → a ≡ b
ok_injective h = ground (arith, h)

find-none :
    {A : Type 0} (q : A → Bool) (g : A → A)
    → ((a : A) → q (g a) ≡ false)
    → (xs : List A) → find q (map g xs) ≡ none
find-none q g never [] = refl
find-none q g never (x ∷ xs) = ground (arith, never x, find-none q g never xs)

module _ (sv : Services) (crypto : Crypto) (jwt : Jwt) (user_id key uuid : String) where
  abbrev rotated : User → User
  rotated u =
      if holds_session sv crypto jwt user_id key u then record u { session_key = uuid } else u

  rotated_id : (u : User) → (rotated u).id ≡ u.id
  rotated_id u = elim (Bool-cases (holds_session sv crypto jwt user_id key u)) [
    | inl e ↦ ground (arith, e)
    | inr e ↦ ground (arith, e)
  ]

  rotated_status : (u : User) → (rotated u).status ≡ u.status
  rotated_status u = elim (Bool-cases (holds_session sv crypto jwt user_id key u)) [
    | inl e ↦ ground (arith, e)
    | inr e ↦ ground (arith, e)
  ]

  rotated_key :
      uuid ≢ key → (u : User) → holds_session sv crypto jwt user_id key (rotated u) ≡ false
  rotated_key n u = elim (Bool-cases (holds_session sv crypto jwt user_id key u)) [
    | inl e ↦ ground (arith, e, differ uuid key n)
    | inr e ↦ ground (arith, e)
  ]

  user_of-rotate_session :
      (w : World sv)
      → user_of sv user_id (rotate_session sv crypto jwt user_id key uuid w)
        ≡ Option.map rotated (user_of sv user_id w)
  user_of-rotate_session w =
      rw
        (sv.users.rows-update_many w.users (holds_session sv crypto jwt user_id key)
          (λ u. record u { session_key = uuid }))
        (find-map (λ u. u.id === user_id) rotated (λ u. rw (rotated_id u)) (sv.users.rows w.users))

  has_session-rotate_session :
      uuid ≢ key
      → (w : World sv)
      → has_session sv crypto jwt user_id key (rotate_session sv crypto jwt user_id key uuid w)
        ≡ false
  has_session-rotate_session n w =
      rw
        (sv.users.rows-update_many w.users (holds_session sv crypto jwt user_id key)
          (λ u. record u { session_key = uuid }))
        (ap is_some (
          find-none (holds_session sv crypto jwt user_id key) rotated (rotated_key n)
            (sv.users.rows w.users)))

  -- What an accepted refresh leaves.
  record Refreshed (tokens : Tokens) (w' : World sv) : Type 0 where
    row : User
    found : user_of sv user_id w' ≡ some row
    status : row.status ≡ active
    tokens_of : tokens ≡ get_tokens jwt row.id row.username row.session_key
    retired : uuid ≢ key → holds_session sv crypto jwt user_id key row ≡ false
    before : World sv
    users : w'.users ≡ (rotate_session sv crypto jwt user_id key uuid before).users

  refresh_token_answer :
      (now : ℕ) (drawn : String) (u v : User) (w : World sv)
      → user_of sv user_id w ≡ some u
      → (assert_user_can_login sv u now drawn w).0 ≡ ok tt
      → has_session sv crypto jwt user_id key (assert_user_can_login sv u now drawn w).1 ≡ true
      → user_of sv user_id
          (rotate_session sv crypto jwt user_id key uuid (assert_user_can_login sv u now drawn w).1)
        ≡ some v
      → refresh_token sv crypto jwt user_id key now drawn uuid w ≡ (
        ok (get_tokens jwt v.id v.username v.session_key),
        extend_master_key sv crypto jwt user_id (
            rotate_session sv crypto jwt user_id key uuid
              (assert_user_can_login sv u now drawn w).1),
      )
  unfolding refresh_token
  refresh_token_answer now drawn u v w e a c f = ground (arith, e, a, c, f)

  refresh_token-Refreshed :
      (now : ℕ) (drawn : String) (tokens : Tokens) (w : World sv)
      → (refresh_token sv crypto jwt user_id key now drawn uuid w).0 ≡ ok tokens
      → Refreshed tokens (refresh_token sv crypto jwt user_id key now drawn uuid w).1
  unfolding refresh_token
  refresh_token-Refreshed now drawn tokens w h = elim (Option-cases (user_of sv user_id w)) [
    | inl e ↦ absurd (ground (arith, e))
    | inr (u, e) ↦ elim (Result-cases (assert_user_can_login sv u now drawn w).0) [
      | inr (x, a) ↦ absurd (ground (arith, e, a))
      | inl (t, a) ↦
          let w1 = (assert_user_can_login sv u now drawn w).1 in
          let r = assert_user_can_login-HasActive sv user_id u now drawn w e a in
          let f = user_of-rotate_session w1 ∙ ap (Option.map rotated) r.found in
          elim (Bool-cases (has_session sv crypto jwt user_id key w1)) [
            | inr c ↦ absurd (ground (arith, e, a, c))
            | inl c ↦
                let answer = refresh_token_answer now drawn u (rotated r.row) w e a c f in
                record {
                  row = rotated r.row;
                  found = ap (λ p. user_of sv user_id p.1) answer ∙ f;
                  status = rotated_status r.row ∙ r.status;
                  tokens_of = ok_injective (sym h ∙ ap (λ p. p.0) answer);
                  retired = λ n. rotated_key n r.row;
                  before = w1;
                  users = ap (λ p. p.1.users) answer;
                }
          ]
    ]
  ]

  stale_validate :
      (u : User) (w : World sv) (username : String)
      → user_of sv user_id w ≡ some u
      → holds_session sv crypto jwt user_id key u ≡ false
      → (validate sv (record { sub = user_id; username = username; session_key = key }) w).0
        ≡ err (unauthorized "Access Denied (Session Expired)")
  unfolding validate
  stale_validate u w username e n =
      let i : (u.id === user_id) ≡ true = (eq_iff u.id user_id).1 (user_of_id sv user_id u w e) in
      ground (arith, e, n, i)

  stale_refresh :
      (u : User) (w : World sv) (now : ℕ) (drawn uuid2 : String)
      → user_of sv user_id w ≡ some u
      → u.status ≡ active
      → has_session sv crypto jwt user_id key w ≡ false
      → (refresh_token sv crypto jwt user_id key now drawn uuid2 w).0
        ≡ err (forbidden "Access Denied (Session invalid)")
  unfolding refresh_token assert_user_can_login
  stale_refresh u w now drawn uuid2 e s n = ground (arith, e, s, n)

  module _ (now : ℕ) (drawn : String) (tokens : Tokens) (w : World sv) where
    -- An accepted refresh returns tokens whose payload JwtStrategy.validate accepts at once.
    pub refresh_token-Granted :
        (refresh_token sv crypto jwt user_id key now drawn uuid w).0 ≡ ok tokens
        → (row : User) × Granted sv crypto jwt tokens row
            (refresh_token sv crypto jwt user_id key now drawn uuid w).1
    refresh_token-Granted h =
        let r = refresh_token-Refreshed now drawn tokens w h in
        let w' = (refresh_token sv crypto jwt user_id key now drawn uuid w).1 in
        let i = sym (user_of_id sv user_id r.row w' r.found) in
        (
          r.row,
          subst (λ t. Granted sv crypto jwt t r.row w') (sym r.tokens_of)
              (granted sv crypto jwt r.row w' (subst (λ j. user_of sv j w' ≡ some r.row) i r.found)
                r.status),
        )

    -- After an accepted refresh that draws another session key, the key of the old tokens is dead:
    -- JwtStrategy.validate refuses a payload with it, and a second refresh with it is refused,
    -- whatever time and keys that one draws.
    pub refresh_token_once :
        uuid ≢ key
        → (refresh_token sv crypto jwt user_id key now drawn uuid w).0 ≡ ok tokens
        → ((username : String)
            → (validate sv
                (record { sub = user_id; username = username; session_key = key })
                (refresh_token sv crypto jwt user_id key now drawn uuid w).1).0
              ≡ err (unauthorized "Access Denied (Session Expired)"))
          × ((later : ℕ) (drawn2 uuid2 : String)
              → (refresh_token sv crypto jwt user_id key later drawn2 uuid2
                  (refresh_token sv crypto jwt user_id key now drawn uuid w).1).0
                ≡ err (forbidden "Access Denied (Session invalid)"))
    refresh_token_once n h =
        let r = refresh_token-Refreshed now drawn tokens w h in
        let w' = (refresh_token sv crypto jwt user_id key now drawn uuid w).1 in
        (
          λ username. stale_validate r.row w' username r.found (r.retired n),
          λ later drawn2 uuid2. stale_refresh r.row w' later drawn2 uuid2 r.found r.status (
              ap (λ s. is_some (find (holds_session sv crypto jwt user_id key) (sv.users.rows s)))
                r.users
              ∙ has_session-rotate_session n r.before),
        )
