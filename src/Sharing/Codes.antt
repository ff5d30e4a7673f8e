-- ===== src/Sharing/Codes.antt =====
-- Short codes: what a created link answers, what it leaves to the others, and the limit.
use redbox.Prelude.{
  ℕ, zero, suc, ◌+◌, ◌≤◌, ◌<◌, String, ◌≡◌, sym, ap, subst, Bool, List, [], ◌∷◌, ◌++◌, length, none,
  some, ◌===◌, leb, is_some, arith, ok, Option-cases, Bool-cases, inl, inr, find, keep,
  if◌then◌else◌,
}
use redbox.Sharing.Links.{
  LinkServices, Link, Draw, max_short_code_attempts, links_of, link_with, attempt_create,
  create_link, get_original_url,
}

module _ {A : Type 0} (q : A → Bool) where
  find-append :
      (xs : List A) (x : A)
      → find q (xs ++ x ∷ [])
        ≡ (if is_some (find q xs) then find q xs else if q x then some x else none)
  find-append [] x = elim (Bool-cases (q x)) [
    | inl e ↦ ground (arith, e)
    | inr e ↦ ground (arith, e)
  ]
  find-append (y ∷ ys) x = elim (Bool-cases (q y)) [
    | inl e ↦ ground (arith, e)
    | inr e ↦ ground (arith, e, find-append ys x)
  ]

  length-keep-append :
      (xs : List A) (x : A) → length (keep q (xs ++ x ∷ [])) ≤ length (keep q xs) + 1
  length-keep-append [] x = elim (Bool-cases (q x)) [
    | inl e ↦ ground (arith, e)
    | inr e ↦ ground (arith, e)
  ]
  length-keep-append (y ∷ ys) x = elim (Bool-cases (q y)) [
    | inl e ↦ ground (arith, e, length-keep-append ys x)
    | inr e ↦ ground (arith, e, length-keep-append ys x)
  ]

module _ (sv : LinkServices) (link_limit : ℕ) (user_id url : String) (now : ℕ)
    (draws : ℕ → Draw) where
  open sv use {links}
  open links use {State}

  -- A created link: its code was free and its row is the last one.
  record Created (link : Link) (s s' : State) : Type 0 where
    free : link_with sv link.short_code s ≡ none
    url_of : link.original_url ≡ url
    next : s' ≡ links.create s link

  attempt_create-Created :
      (n : ℕ) (link : Link) (s : State)
      → (attempt_create sv n user_id url now draws s).0 ≡ ok link
      → Created link s (attempt_create sv n user_id url now draws s).1
  unfolding attempt_create
  attempt_create-Created zero link s h = absurd (ground (arith, h))
  attempt_create-Created (suc n) link s h =
      elim (Option-cases (link_with sv (draws n).short_code s)) [
        | inr (l, e) ↦
            subst (Created link s) (sym (ground (arith, e)))
              (attempt_create-Created n link s (ground (arith, e)))
        | inl e ↦ record {
          free = ground (arith, e);
          url_of = ground (arith, e);
          next = ground (arith, e);
        }
      ]

  create_link-Created :
      (link : Link) (s : State)
      → (create_link sv link_limit user_id url now draws s).0 ≡ ok link
      → Created link s (create_link sv link_limit user_id url now draws s).1
  unfolding create_link
  create_link-Created link s h =
      elim (Bool-cases (leb link_limit (length (links_of sv user_id s)))) [
        | inl e ↦ absurd (ground (arith, e))
        | inr e ↦
            subst (Created link s) (sym (ground (arith, e)))
              (attempt_create-Created max_short_code_attempts link s (ground (arith, e)))
      ]

  module _ (link : Link) (s : State) where
    link_with-create :
        (code : String)
        → link_with sv code (links.create s link) ≡ (
            if is_some (link_with sv code s)
            then link_with sv code s
            else if sv.same_text link.short_code code
            then some link
            else none)
    link_with-create code =
        rw (links.rows-create s link)
          (find-append (λ l. sv.same_text l.short_code code) (links.rows s) link)

    -- A created link's code leads to the url, and a code that led somewhere before still does.
    pub get_original_url-create_link :
        (create_link sv link_limit user_id url now draws s).0 ≡ ok link
        → ((get_original_url sv link.short_code
              (create_link sv link_limit user_id url now draws s).1).0
            ≡ ok url)
          × ((code other : String)
              → (get_original_url sv code s).0 ≡ ok other
              → (get_original_url sv code (create_link sv link_limit user_id url now draws s).1).0
                ≡ ok other)
    unfolding get_original_url
    get_original_url-create_link h =
        let c = create_link-Created link s h in
        (
          ground (
            arith,
            c.next,
            c.free,
            c.url_of,
            link_with-create link.short_code,
            sv.same_text-refl link.short_code,
          ),
          λ code other k. elim (Option-cases (link_with sv code s)) [
            | inl e ↦ absurd (ground (arith, e))
            | inr (l, e) ↦ ground (arith, e, c.next, link_with-create code)
          ],
        )

    room :
        (create_link sv link_limit user_id url now draws s).0 ≡ ok link
        → length (links_of sv user_id s) < link_limit
    unfolding create_link
    room h = elim (Bool-cases (leb link_limit (length (links_of sv user_id s)))) [
      | inl e ↦ absurd (ground (arith, e))
      | inr e ↦ ground (arith, e)
    ]

    -- A created link keeps the number of the user's links within the limit.
    pub length-create_link :
        (create_link sv link_limit user_id url now draws s).0 ≡ ok link
        → length (links_of sv user_id (create_link sv link_limit user_id url now draws s).1)
          ≤ link_limit
    length-create_link h = ground (
      arith,
      room h,
      (create_link-Created link s h).next,
      ap (λ rs. length (keep (λ l. l.user_id === user_id) rs)) (links.rows-create s link),
      length-keep-append (λ l. l.user_id === user_id) (links.rows s) link,
    )
