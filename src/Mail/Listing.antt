-- ===== src/Mail/Listing.antt =====
-- getUserMails: a page of a folder, sorted and searched. Of equal rows the table's order is kept.
use redbox.Prelude.{
  ℕ, zero, suc, ◌+◌, String, Bool, true, false, not, ◌&&◌, ◌||◌, List, [], ◌∷◌, map, length, Option,
  none, some, ltb, ◌===◌, if◌then◌else◌, Exec, ok, err, not_found, internal,
}
use redbox.Prelude.Text.{trim, truthy}
use redbox.Database.{find_many}
use redbox.Mail.State.{Mail, Services, World}
use redbox.Mail.Aliases.{MailEnv}
use redbox.Mail.Reading.{
  user_with, get_user_mail_storage_used, get_mail_quota_limit_for_username, shared_attachments,
}

-- The rows of a folder. A name that is none of the three selects all.
unfoldable pub in_folder : String → Mail → Bool
in_folder folder m =
    if folder === "inbox"
    then not m.is_archived && not m.is_spam
    else if folder === "archive"
    then m.is_archived && not m.is_spam
    else if folder === "spam"
    then m.is_spam
    else true

-- Whether a row comes strictly before another in the asked order.
abbrev newer : Mail → Mail → Bool
newer a b = ltb b.created_at a.created_at

abbrev by_read : Bool → Mail → Mail → Bool
by_read first a b =
    if a.is_read
    then (if b.is_read then newer a b else first)
    else if b.is_read
    then not first
    else newer a b

unfoldable pub comes_before : String → Mail → Mail → Bool
comes_before sort a b =
    if sort === "oldest"
    then ltb a.created_at b.created_at
    else if sort === "unread"
    then by_read false a b
    else if sort === "read"
    then by_read true a b
    else newer a b

module _ (before : Mail → Mail → Bool) where
  abbrev pub insert : Mail → List Mail → List Mail
  insert m [] = m ∷ []
  insert m (x ∷ xs) = if before x m then x ∷ insert m xs else m ∷ x ∷ xs

  abbrev pub sort_mails : List Mail → List Mail
  sort_mails [] = []
  sort_mails (m ∷ ms) = insert m (sort_mails ms)

abbrev pub skip {ℓ} : {A : Type ℓ} → ℕ → List A → List A
skip zero xs = xs
skip (suc n) [] = []
skip (suc n) (x ∷ xs) = skip n xs

abbrev pub take {ℓ} : {A : Type ℓ} → ℕ → List A → List A
take zero xs = []
take (suc n) [] = []
take (suc n) (x ∷ xs) = x ∷ take n xs

pub record MailEntry : Type 0 where
  pub mail : Mail
  pub attachment_count : ℕ
  pub has_attachments : Bool

pub record MailPage : Type 0 where
  pub mails : List MailEntry
  pub total_count : ℕ
  pub total_used : ℕ
  pub quota_limit : ℕ

module _ (sv : Services) where
  -- `search.trim() !== ''`, and the two columns that are searched.
  unfoldable pub matches_search : Option String → Mail → Bool
  unfolding trim truthy
  matches_search search m = elim (truthy search) [
    | none ↦ true
    | some text ↦ elim (truthy (some (trim text))) [
      | none ↦ true
      | some term ↦ sv.like term m.subject || sv.like term m.sender
    ]
  ]

  abbrev pub listed : String → String → Option String → Mail → Bool
  listed user_id folder search m =
      m.user_id === user_id && in_folder folder m && matches_search search m

  abbrev pub entry_of : World sv → Mail → MailEntry
  entry_of w m =
      let n = length m.attachments + length (shared_attachments sv m.id w) in
      record { mail = m; attachment_count = n; has_attachments = ltb 0 n }

  -- A malformed MAIL_ADMIN_FORWARD_USERNAME is caught like any other error.
  unfoldable pub get_user_mails :
      MailEnv → String → ℕ → ℕ → String → String → Option String → Exec (World sv) MailPage
  get_user_mails env user_id limit offset sort folder search w =
      let rows = find_many sv.mails w.mails (listed user_id folder search) in
      elim (user_with sv user_id w) [
        | none ↦ (err (not_found "User not found"), w)
        | some user ↦ elim (get_mail_quota_limit_for_username env user.username) [
          | err e ↦ (err (internal "Could not fetch emails"), w)
          | ok quota ↦ (
            ok (record {
              mails =
                  map (entry_of w) (take limit (skip offset (sort_mails (comes_before sort) rows)));
              total_count = length rows;
              total_used = get_user_mail_storage_used sv user_id w;
              quota_limit = quota;
            }),
            w,
          )
        ]
      ]
