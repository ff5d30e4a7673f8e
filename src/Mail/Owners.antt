-- ===== src/Mail/Owners.antt =====
-- Changes of the mails of one user, seen by another user.
use redbox.Prelude.{
  String, ◌≡◌, refl, sym, ap, subst, ◌∙◌, ◌≢◌, Bool, true, false, not, ◌&&◌, List, [], ◌∷◌, ◌++◌,
  map, some, arith, ◌===◌, if◌then◌else◌, keep, find, is_some, Bool-cases, inl, inr,
}
use redbox.Database.{find_many}
use redbox.Accounts.Rows.{differ}
use redbox.Mail.State.{Mail, BlockedSender, MailEvent, Services, World, update_mails, emit_to_user}
use redbox.Mail.Mailbox.{delete_storage_objects, delete_storage_object_by_key}

abbrev pub is_own : String → String → Mail → Bool
is_own user_id mail_id m = m.id === mail_id && m.user_id === user_id

-- The rows that meet a condition are one user's.
abbrev pub Within : (Mail → Bool) → String → List Mail → Type 0
Within p u [] = Unit
Within p u (m ∷ ms) = (p m ≡ true → m.user_id ≡ u) × Within p u ms

-- A mail id has one owner: what the primary key of the table says.
abbrev pub Keyed : List Mail → Type 0
Keyed rows =
    (u k : String) → is_some (find (is_own u k) rows) ≡ true → Within (λ m. m.id === k) u rows

-- A mail that a read by id finds is found as its owner's.
pub found-own :
    (u mail_id : String) (mail : Mail) (rows : List Mail)
    → find (λ m. m.id === mail_id) rows ≡ some mail
    → (mail.user_id === u) ≡ true
    → is_some (find (is_own u mail_id) rows) ≡ true
found-own u mail_id mail [] e h = absurd (ground (arith, e))
found-own u mail_id mail (x ∷ xs) e h = elim (Bool-cases (x.id === mail_id)) [
  | inl g ↦
      let same : x ≡ mail = ground (arith, g, e) in ground (arith, g, h, ap (λ m. m.user_id) same)
  | inr g ↦ ground (arith, g, found-own u mail_id mail xs (ground (arith, g, e)) h)
]

module _ (u v : String) (other : u ≢ v) (p : Mail → Bool) where
  keep-delete :
      (rows : List Mail)
      → Within p u rows
      → keep (λ m. m.user_id === v) (keep (λ m. not (p m)) rows) ≡ keep (λ m. m.user_id === v) rows
  keep-delete [] h = refl
  keep-delete (m ∷ ms) h = elim (Bool-cases (p m)) [
    | inl e ↦
        let d : (m.user_id === v) ≡ false = ap (λ x. x === v) (h.0 e) ∙ differ u v other in
        ground (arith, e, d, keep-delete ms h.1)
    | inr e ↦ ground (arith, e, keep-delete ms h.1)
  ]

  module _ (f : Mail → Mail) (keeps : (m : Mail) → (f m).user_id ≡ m.user_id) where
    keep-update :
        (rows : List Mail)
        → Within p u rows
        → keep (λ m. m.user_id === v) (map (λ m. if p m then f m else m) rows)
          ≡ keep (λ m. m.user_id === v) rows
    keep-update [] h = refl
    keep-update (m ∷ ms) h = elim (Bool-cases (p m)) [
      | inl e ↦
          let d : (m.user_id === v) ≡ false = ap (λ x. x === v) (h.0 e) ∙ differ u v other in
          ground (arith, e, d, keeps m, keep-update ms h.1)
      | inr e ↦ ground (arith, e, keep-update ms h.1)
    ]

module _ (p : Mail → Bool) (u k : String) where
  Within-delete :
      (rows : List Mail)
      → Within (λ m. m.id === k) u rows
      → Within (λ m. m.id === k) u (keep (λ m. not (p m)) rows)
  Within-delete [] h = tt
  Within-delete (m ∷ ms) h =
      elim (Bool-cases (p m))
        as (λ _. Within (λ m. m.id === k) u (keep (λ m. not (p m)) (m ∷ ms))) [
          | inl e ↦ rw e (Within-delete ms h.1)
          | inr e ↦ rw e (h.0, Within-delete ms h.1)
        ]

  found-delete :
      (rows : List Mail)
      → is_some (find (is_own u k) (keep (λ m. not (p m)) rows)) ≡ true
      → is_some (find (is_own u k) rows) ≡ true
  found-delete [] h = h
  found-delete (m ∷ ms) h = elim (Bool-cases (p m)) [
    | inl e ↦ ground (arith, e, h, found-delete ms)
    | inr e ↦ elim (Bool-cases (is_own u k m)) [
      | inl g ↦ ground (arith, e, g)
      | inr g ↦ ground (arith, e, g, found-delete ms (ground (arith, e, g, h)))
    ]
  ]

  module _ (f : Mail → Mail) (id_of : (m : Mail) → (f m).id ≡ m.id)
      (user_of : (m : Mail) → (f m).user_id ≡ m.user_id) where
    Within-update :
        (rows : List Mail)
        → Within (λ m. m.id === k) u rows
        → Within (λ m. m.id === k) u (map (λ m. if p m then f m else m) rows)
    Within-update [] h = tt
    Within-update (m ∷ ms) h =
        elim (Bool-cases (p m))
          as (λ _. Within (λ m. m.id === k) u (map (λ m. if p m then f m else m) (m ∷ ms))) [
            | inl e ↦
                rw e (
                  λ g. user_of m ∙ h.0 (sym (ap (λ x. x === k) (id_of m)) ∙ g),
                  Within-update ms h.1,
                )
            | inr e ↦ rw e (h.0, Within-update ms h.1)
          ]

    found-update :
        (rows : List Mail)
        → is_some (find (is_own u k) (map (λ m. if p m then f m else m) rows)) ≡ true
        → is_some (find (is_own u k) rows) ≡ true
    found-update [] h = h
    found-update (m ∷ ms) h = elim (Bool-cases (is_own u k m)) [
      | inl g ↦ ground (arith, g)
      | inr g ↦ elim (Bool-cases (p m)) [
        | inl e ↦ ground (arith, e, g, h, id_of m, user_of m, found-update ms)
        | inr e ↦ ground (arith, e, g, h, found-update ms)
      ]
    ]

-- Elements that a filter leaves out.
module _ {A : Type 0} (q : A → Bool) where
  pub keep-snoc : (xs : List A) (x : A) → q x ≡ false → keep q (xs ++ x ∷ []) ≡ keep q xs
  keep-snoc [] x h = ground (arith, h)
  keep-snoc (y ∷ ys) x h = ground (arith, keep-snoc ys x h)

  pub keep-without :
      (p : A → Bool)
      → ((a : A) → p a ≡ true → q a ≡ false)
      → (xs : List A) → keep q (keep (λ a. not (p a)) xs) ≡ keep q xs
  keep-without p h [] = refl
  keep-without p h (x ∷ xs) = elim (Bool-cases (p x)) [
    | inl e ↦ ground (arith, e, h x e, keep-without p h xs)
    | inr e ↦ ground (arith, e, keep-without p h xs)
  ]

module _ (sv : Services) (v : String) where
  abbrev mine : World sv → List Mail
  mine w = find_many sv.mails w.mails (λ m. m.user_id === v)

  abbrev blocked : World sv → List BlockedSender
  blocked w = find_many sv.blocked_senders w.blocked_senders (λ b. b.user_id === v)

  abbrev told : World sv → List MailEvent
  told w = keep (λ e. e.user_id === v) w.events

  -- The mails, the blocked senders and the events of a user are the same, and mail ids still have
  -- one owner.
  pub record Untouched (w w' : World sv) : Type 0 where
    pub mails : mine w' ≡ mine w
    pub blocked_senders : blocked w' ≡ blocked w
    pub events : told w' ≡ told w
    pub keyed : Keyed (sv.mails.rows w.mails) → Keyed (sv.mails.rows w'.mails)

  pub Untouched-refl : (w : World sv) → Untouched w w
  Untouched-refl w = record { mails = refl; blocked_senders = refl; events = refl; keyed = λ k. k }

  pub Untouched-same : (w t : World sv) → t ≡ w → Untouched w t
  Untouched-same w t e = subst (Untouched w) (sym e) (Untouched-refl w)

  pub Untouched-trans : {w w1 w2 : World sv} → Untouched w w1 → Untouched w1 w2 → Untouched w w2
  Untouched-trans a b = record {
    mails = b.mails ∙ a.mails;
    blocked_senders = b.blocked_senders ∙ a.blocked_senders;
    events = b.events ∙ a.events;
    keyed = λ k. b.keyed (a.keyed k);
  }

  module _ (u : String) (other : u ≢ v) where
    pub Untouched-emit :
        (e : MailEvent) (w : World sv) → e.user_id ≡ u → Untouched w (emit_to_user sv e w)
    unfolding emit_to_user
    Untouched-emit e w h = record {
      mails = refl;
      blocked_senders = refl;
      events = keep-snoc (λ x. x.user_id === v) w.events e (ap (λ x. x === v) h ∙ differ u v other);
      keyed = λ k. k;
    }

    pub Untouched-update :
        (p : Mail → Bool) (f : Mail → Mail) (w : World sv)
        → ((m : Mail) → (f m).id ≡ m.id)
        → ((m : Mail) → (f m).user_id ≡ m.user_id)
        → Within p u (sv.mails.rows w.mails)
        → Untouched w (update_mails sv p f w)
    Untouched-update p f w id_of user_of h =
        let rows = sv.mails.rows w.mails in
        let changed = sv.mails.rows-update_many w.mails p f in
        record {
          mails =
              ap (keep (λ m. m.user_id === v)) changed ∙ keep-update u v other p f user_of rows h;
          blocked_senders = refl;
          events = refl;
          keyed = λ keyed. subst Keyed (sym changed) (λ o k found.
              Within-update p o k f id_of user_of rows
                (keyed o k (found-update p o k f id_of user_of rows found)));
        }

    pub Untouched-delete :
        (p : Mail → Bool) (ds : sv.deliveries.State) (w : World sv)
        → Within p u (sv.mails.rows w.mails)
        → Untouched w (record w { mails = sv.mails.delete_many w.mails p; deliveries = ds })
    Untouched-delete p ds w h =
        let rows = sv.mails.rows w.mails in
        let changed = sv.mails.rows-delete_many w.mails p in
        record {
          mails = ap (keep (λ m. m.user_id === v)) changed ∙ keep-delete u v other p rows h;
          blocked_senders = refl;
          events = refl;
          keyed = λ keyed.
              subst Keyed (sym changed)
                (λ o k found. Within-delete p o k rows (keyed o k (found-delete p o k rows found)));
        }

  pub Untouched-objects :
      (keys : List String) (w : World sv) → Untouched w (delete_storage_objects sv keys w)
  unfolding delete_storage_objects delete_storage_object_by_key
  Untouched-objects [] w = Untouched-refl w
  Untouched-objects (key ∷ keys) w =
      let w1 = delete_storage_object_by_key sv key w in
      let first : Untouched w w1 = record {
        mails = refl;
        blocked_senders = refl;
        events = refl;
        keyed = λ k. k;
      } in
      Untouched-trans first (Untouched-objects keys w1)

  pub mails-delete_storage_objects :
      (keys : List String) (w : World sv) → (delete_storage_objects sv keys w).mails ≡ w.mails
  unfolding delete_storage_objects delete_storage_object_by_key
  mails-delete_storage_objects [] w = refl
  mails-delete_storage_objects (key ∷ keys) w =
      mails-delete_storage_objects keys (delete_storage_object_by_key sv key w)

  -- The rows of one user after storage objects were deleted.
  pub Within-delete_storage_objects :
      (keys : List String) (p : Mail → Bool) (u : String) (w : World sv)
      → Within p u (sv.mails.rows w.mails)
      → Within p u (sv.mails.rows (delete_storage_objects sv keys w).mails)
  Within-delete_storage_objects keys p u w h =
      subst (λ t. Within p u (sv.mails.rows t)) (sym (mails-delete_storage_objects keys w)) h
