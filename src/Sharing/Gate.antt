-- ===== src/Sharing/Gate.antt =====
-- The password gate of `getBinContent`.
use redbox.Prelude.{
  ℕ, String, ◌≡◌, refl, true, false, Option, none, some, ◌===◌, eq_iff, arith, ok, inl, inr, ◌⊎◌,
  Option-cases, Bool-cases, Result-cases,
}
use redbox.RateLimit.{assert_available, consume_attempt}
use redbox.Prelude.Text.{truthy}
use redbox.Sharing.Bins.{
  Bin, BinContent, Services, World, has_expired, password_namespace, password_attempt_subject,
  password_limit, password_window, bin_with, compare_password, check_password, get_bin_content,
}

module _ (sv : Services) where
  -- Why content was handed out.
  pub record Opened (bin_id token : String) (provided : Option String) (now : ℕ)
      (content : BinContent) (w : World sv) : Type 0 where
    pub bin : Bin
    pub found : bin_with sv bin_id w ≡ some bin
    pub shared : bin.share_token ≡ token
    pub live : has_expired now bin ≡ false
    pub same : content.content ≡ bin.content
    pub allowed :
        (truthy bin.password_hash ≡ none)
        ⊎ ((hash : String) × (password : String) × (truthy bin.password_hash ≡ some hash)
            × (truthy provided ≡ some password)
            × (sv.bcrypt_compare password hash ≡ true))

  check_password_sound :
      (hash provided : Option String) (id client_ip : String) (w : World sv)
      → (check_password sv hash id client_ip provided w).0 ≡ ok tt
      → (hash ≡ none)
        ⊎ ((h : String) × (p : String) × (hash ≡ some h)
            × (provided ≡ some p)
            × (sv.bcrypt_compare p h ≡ true))
  unfolding check_password compare_password
  check_password_sound none provided id client_ip w e = inl refl
  check_password_sound (some h) none id client_ip w e = absurd (ground (arith, e))
  check_password_sound (some h) (some p) id client_ip w e =
      let subject = password_attempt_subject id client_ip in
      let a =
        assert_available sv.counters sv.hash password_namespace subject password_limit
          password_window w.counters in
      elim (Result-cases a.0) [
        | inr (x, r) ↦ absurd (ground (arith, e, r))
        | inl (t, r) ↦ elim (Bool-cases (sv.bcrypt_compare p h)) [
          | inl b ↦ inr (h, p, refl, refl, b)
          | inr b ↦
              elim (Result-cases
                (consume_attempt sv.counters sv.hash password_namespace subject password_limit
                  password_window a.1).0) [
                    | inr (x, c) ↦ absurd (ground (arith, e, r, b, c))
                    | inl (y, c) ↦ absurd (ground (arith, e, r, b, c))
                  ]
        ]
      ]

  module _ (bin_id token : String) (provided : Option String) (client_ip : String) (now : ℕ)
      (content : BinContent) (w : World sv) where
    -- When getBinContent hands out content, it is that of a bin with this id and share token that has
    -- not expired, and the bin has no password or the given one matches its hash.
    pub get_bin_content-Opened :
        (get_bin_content sv bin_id token provided client_ip now w).0 ≡ ok content
        → Opened bin_id token provided now content w
    unfolding get_bin_content
    get_bin_content-Opened h = elim (Option-cases (bin_with sv bin_id w)) [
      | inl e ↦ absurd (ground (arith, e))
      | inr (b, e) ↦ elim (Bool-cases (b.share_token === token)) [
        | inr t ↦ absurd (ground (arith, e, t))
        | inl t ↦ elim (Bool-cases (has_expired now b)) [
          | inl x ↦ absurd (ground (arith, e, t, x))
          | inr x ↦
              elim (Result-cases
                (check_password sv (truthy b.password_hash) b.id client_ip (truthy provided) w).0) [
                  | inr (y, c) ↦ absurd (ground (arith, e, t, x, c))
                  | inl (u, c) ↦ record {
                    bin = b;
                    found = e;
                    shared = (eq_iff b.share_token token).0 t;
                    live = x;
                    same = ground (arith, e, t, x, c);
                    allowed =
                        check_password_sound (truthy b.password_hash) (truthy provided) b.id
                          client_ip w c;
                  }
                ]
        ]
      ]
    ]
