-- ===== src/Sharing/Lockout.antt =====
-- The limit of `getBinContent` on wrong passwords from one address.
use redbox.Prelude.{
  ℕ, zero, suc, ◌+◌, ◌≤◌, ◌<◌, String, ◌≡◌, sym, ◌∙◌, subst, true, false, some, ===_refl, arith, ok,
  err, inl, inr, Result-cases, forbidden, ℤ, pos, Result,
}
use redbox.RateLimit.{
  RateLimitResult, too_many_attempts, retry_after, assert_available, consume_attempt,
  build_rate_limit_key, count_of,
}
use redbox.RateLimit.Window.{succeeds, read-consume_attempt, consume_attempt_admits}
use redbox.Prelude.Text.{truthy}
use redbox.Sharing.Bins.{
  Bin, Services, World, has_expired, password_namespace, password_attempt_subject, password_limit,
  password_window, bin_with, compare_password, check_password, get_bin_content,
}

module _ (sv : Services) where
  module _ (b : Bin) (hash client_ip : String) (now : ℕ) where
    -- The counter of wrong passwords for this bin and address.
    abbrev pub failures : World sv → ℤ
    failures w =
        count_of sv.counters w.counters (
          build_rate_limit_key sv.hash password_namespace (password_attempt_subject b.id client_ip))

    -- A bin that is shared, live and has a password.
    pub record IsGuarded (w : World sv) : Type 0 where
      pub found : bin_with sv b.id w ≡ some b
      pub live : has_expired now b ≡ false
      pub locked : truthy b.password_hash ≡ some hash

    abbrev pub guess : String → World sv → World sv
    guess password w = (get_bin_content sv b.id b.share_token (some password) client_ip now w).1

    -- A run of guesses, from the last to the first.
    unfoldable pub guesses : ℕ → (ℕ → String) → World sv → World sv
    guesses zero passwords w = w
    guesses (suc n) passwords w = guesses n passwords (guess (passwords n) w)

    abbrev subject : String
    subject = password_attempt_subject b.id client_ip

    abbrev attempt : World sv → Result RateLimitResult × sv.counters.State
    attempt w =
        consume_attempt sv.counters sv.hash password_namespace subject password_limit
          password_window w.counters

    available_below :
        (m : ℕ) (w : World sv)
        → failures w ≡ pos m
        → m < 10
        → assert_available sv.counters sv.hash password_namespace subject password_limit
            password_window w.counters
          ≡ (ok tt, w.counters)
    unfolding assert_available
    available_below m w f l = ground (arith, f)

    -- The answer to a caller with too many failures.
    pub record Refused {A : Type 0} (r : Result A) : Type 0 where
      pub seconds : ℕ
      pub answer : r ≡ err (too_many_attempts seconds)

    limit-Refused :
        (w : World sv)
        → failures w ≡ pos 10
        → Refused
            (assert_available sv.counters sv.hash password_namespace subject password_limit
              password_window w.counters).0
    unfolding assert_available
    limit-Refused w f = record {
      seconds =
          retry_after
            (sv.counters.ttl w.counters (build_rate_limit_key sv.hash password_namespace subject))
            password_window;
      answer = ground (arith, f);
    }

    check_password-Refused :
        (password : String) (w : World sv)
        → failures w ≡ pos 10
        → Refused (check_password sv (some hash) b.id client_ip (some password) w).0
    unfolding check_password
    check_password-Refused password w f =
        let r = limit-Refused w f in
        record { seconds = r.seconds; answer = ground (arith, r.answer) }

    guess-Refused :
        (password : String) (w : World sv)
        → IsGuarded w
        → truthy (some password) ≡ some password
        → failures w ≡ pos 10
        → Refused (get_bin_content sv b.id b.share_token (some password) client_ip now w).0
    unfolding get_bin_content
    guess-Refused password w g t f =
        let r = check_password-Refused password w f in
        record {
          seconds = r.seconds;
          answer = ground (arith, g.found, g.live, g.locked, t, ===_refl b.share_token, r.answer);
        }

    admitted_below :
        (m : ℕ) (w : World sv) → failures w ≡ pos m → m < 10 → succeeds (attempt w).0 ≡ true
    admitted_below m w f l =
        consume_attempt_admits sv.counters sv.hash password_namespace subject password_limit
          password_window m w.counters (omega arith) f
        ∙ ground arith

    check_wrong :
        (m : ℕ) (password : String) (w : World sv)
        → sv.bcrypt_compare password hash ≡ false
        → failures w ≡ pos m
        → m < 10
        → check_password sv (some hash) b.id client_ip (some password) w
          ≡ (err (forbidden "Incorrect password"), record w { counters = (attempt w).1 })
    unfolding check_password compare_password
    check_wrong m password w n f l = elim (Result-cases (attempt w).0) [
      | inl (y, c) ↦ ground (arith, available_below m w f l, n, c)
      | inr (x, c) ↦ absurd (ground (arith, admitted_below m w f l, c))
    ]

    guess_wrong :
        (m : ℕ) (password : String) (w : World sv)
        → IsGuarded w
        → truthy (some password) ≡ some password
        → sv.bcrypt_compare password hash ≡ false
        → failures w ≡ pos m
        → m < 10
        → guess password w ≡ record w { counters = (attempt w).1 }
    unfolding get_bin_content
    guess_wrong m password w g t n f l = ground (
      arith,
      g.found,
      g.live,
      g.locked,
      t,
      ===_refl b.share_token,
      check_wrong m password w n f l,
    )

    failures-attempt :
        (m : ℕ) (w : World sv)
        → failures w ≡ pos m
        → failures (record w { counters = (attempt w).1 }) ≡ pos (m + 1)
    failures-attempt m w f =
        let key = build_rate_limit_key sv.hash password_namespace subject in
        ground (
          arith,
          ===_refl key,
          read-consume_attempt sv.counters sv.hash password_namespace subject password_limit
              password_window m w.counters key (omega arith) f,
        )

    wrong_guesses :
        (n m : ℕ) (passwords : ℕ → String) (w : World sv)
        → IsGuarded w
        → ((i : ℕ) → truthy (some (passwords i)) ≡ some (passwords i))
        → ((i : ℕ) → sv.bcrypt_compare (passwords i) hash ≡ false)
        → failures w ≡ pos m
        → m + n ≤ 10
        → (failures (guesses n passwords w) ≡ pos (m + n)) × IsGuarded (guesses n passwords w)
    unfolding guesses
    wrong_guesses zero m passwords w g t wrong f l = (ground (arith, f), g)
    wrong_guesses (suc n) m passwords w g t wrong f l =
        let e = guess_wrong m (passwords n) w g (t n) (wrong n) f (ground arith) in
        let w' : World sv = record w { counters = (attempt w).1 } in
        let g' : IsGuarded w' = record { found = g.found; live = g.live; locked = g.locked } in
        let r =
          wrong_guesses n (m + 1) passwords w' g' t wrong (failures-attempt m w f) (ground arith) in
        subst
          (λ v.
            (failures (guesses n passwords v) ≡ pos (m + suc n))
            × IsGuarded (guesses n passwords v))
          (sym e) (ground (arith, r.0), r.1)

    -- After ten wrong passwords from one address, with no failure counted before and no key expired
    -- since, getBinContent refuses every further password from that address, the right one included.
    pub get_bin_content_locks :
        (passwords : ℕ → String) (password : String) (w : World sv)
        → IsGuarded w
        → ((i : ℕ) → truthy (some (passwords i)) ≡ some (passwords i))
        → ((i : ℕ) → sv.bcrypt_compare (passwords i) hash ≡ false)
        → failures w ≡ pos 0
        → truthy (some password) ≡ some password
        → Refused
            (get_bin_content sv b.id b.share_token
              (some password)
              client_ip
              now
              (guesses 10 passwords w)).0
    get_bin_content_locks passwords password w g t wrong f u =
        let r = wrong_guesses 10 0 passwords w g t wrong f (omega arith) in
        guess-Refused password (guesses 10 passwords w) r.1 u r.0
