-- ===== src/Mail/Isolation.antt =====
-- What users do with their own mails, seen by another user.
use redbox.Prelude.{
  String, ◌≡◌, refl, sym, ap, ◌∙◌, ◌≢◌, subst, Bool, true, List, [], ◌∷◌, Option, none, some, arith,
  ◌===◌, find, Bool-cases, Option-cases, Result-cases, inl, inr, eq_iff,
}
use redbox.Accounts.Rows.{find_holds}
use redbox.Mail.State.{Mail, Services, World, MailEvent, mail_event, emit_to_user, update_mails}
use redbox.Mail.Mailbox.{
  mail_with, object_keys, delete_storage_objects, delete_mail_row, unlink_deliveries,
  delete_mail_record_by_id,
}
use redbox.Mail.Reading.{user_with, open_mail_key, read_content, mark_read, get_single_mail}
use redbox.Mail.Actions.{
  filed, is_among, update_by_id, bulk_event, bulk_update, delete_mail, count_among, move_mail,
  set_read_status,
}
use redbox.Mail.Owners.{
  is_own, found-own, Within, Keyed, Untouched, Untouched-same, Untouched-trans,
  Within-delete_storage_objects, Untouched-emit, Untouched-update, Untouched-delete,
  Untouched-objects,
}

module _ (sv : Services) (u v : String) (other : u ≢ v) where
  pub among-Within :
      (mail_ids : List String) (rows : List Mail) → Within (is_among u mail_ids) u rows
  among-Within mail_ids [] = tt
  among-Within mail_ids (m ∷ ms) =
      (λ h. (eq_iff m.user_id u).0 (ground (arith, h)), among-Within mail_ids ms)

  -- The rows with the id of a mail that was found as the user's.
  own-Within :
      (mail_id : String) (mail : Mail) (rows : List Mail)
      → Keyed rows
      → find (is_own u mail_id) rows ≡ some mail
      → Within (λ m. m.id === mail_id) u rows
  own-Within mail_id mail rows keyed e = keyed u mail_id (ground (arith, e))

  pub bulk_update-Untouched :
      (mail_ids : List String) (f : Mail → Mail) (folder : Option String) (b : Option Bool)
      (w : World sv)
      → ((m : Mail) → (f m).id ≡ m.id)
      → ((m : Mail) → (f m).user_id ≡ m.user_id)
      → Untouched sv v w (bulk_update sv u mail_ids f folder b w).1
  bulk_update-Untouched mail_ids f folder b w id_of user_of =
      let w1 = update_mails sv (is_among u mail_ids) f w in
      Untouched-trans sv v
        (Untouched-update sv v u other (is_among u mail_ids) f w id_of user_of
          (among-Within mail_ids (sv.mails.rows w.mails)))
        (Untouched-emit sv v u other
          (bulk_event sv u mail_ids (count_among sv u mail_ids w) folder b) w1 refl)

  update_own-Untouched :
      (mail_id : String) (f : Mail → Mail) (e : MailEvent) (w : World sv)
      → ((m : Mail) → (f m).id ≡ m.id)
      → ((m : Mail) → (f m).user_id ≡ m.user_id)
      → e.user_id ≡ u
      → Within (λ m. m.id === mail_id) u (sv.mails.rows w.mails)
      → Untouched sv v w (emit_to_user sv e (update_by_id sv mail_id f w))
  update_own-Untouched mail_id f e w id_of user_of to within =
      Untouched-trans sv v
        (Untouched-update sv v u other (λ m. m.id === mail_id) f w id_of user_of within)
        (Untouched-emit sv v u other e (update_by_id sv mail_id f w) to)

  pub move_mail-Untouched :
      (mail_id folder : String) (w : World sv)
      → Keyed (sv.mails.rows w.mails)
      → Untouched sv v w (move_mail sv u mail_id folder w).1
  unfolding move_mail filed
  move_mail-Untouched mail_id folder w keyed =
      let rows = sv.mails.rows w.mails in
      elim (Option-cases (find (is_own u mail_id) rows)) [
        | inl e ↦ Untouched-same sv v w (move_mail sv u mail_id folder w).1 (ground (arith, e))
        | inr (mail, e) ↦
            let event : MailEvent = record (mail_event u "mail.updated" (mail_id ∷ []) "user") {
              folder = some folder;
            } in
            let last : (move_mail sv u mail_id folder w).1
                ≡ emit_to_user sv event (update_by_id sv mail_id (filed folder) w) =
              ground (arith, e) in
            subst (Untouched sv v w) (sym last) (
              update_own-Untouched mail_id (filed folder) event w (λ m. refl) (λ m. refl) refl
                (own-Within mail_id mail rows keyed e))
      ]

  pub set_read_status-Untouched :
      (mail_id : String) (b : Bool) (w : World sv)
      → Keyed (sv.mails.rows w.mails)
      → Untouched sv v w (set_read_status sv u mail_id b w).1
  unfolding set_read_status
  set_read_status-Untouched mail_id b w keyed =
      let rows = sv.mails.rows w.mails in
      let f : Mail → Mail = λ m. record m { is_read = b } in
      elim (Option-cases (find (is_own u mail_id) rows)) [
        | inl e ↦ Untouched-same sv v w (set_read_status sv u mail_id b w).1 (ground (arith, e))
        | inr (mail, e) ↦
            let event : MailEvent = record (mail_event u "mail.updated" (mail_id ∷ []) "user") {
              is_read = some b;
            } in
            let last : (set_read_status sv u mail_id b w).1
                ≡ emit_to_user sv event (update_by_id sv mail_id f w) =
              ground (arith, e) in
            subst (Untouched sv v w) (sym last) (
              update_own-Untouched mail_id f event w (λ m. refl) (λ m. refl) refl
                (own-Within mail_id mail rows keyed e))
      ]

  Within-find :
      (p : Mail → Bool) (rows : List Mail) (m : Mail)
      → Within p u rows
      → find p rows ≡ some m
      → m.user_id ≡ u
  Within-find p [] m h e = absurd (ground arith)
  Within-find p (x ∷ xs) m h e = elim (Bool-cases (p x)) [
    | inl g ↦ let same : x ≡ m = ground (arith, g, e) in sym (ap (λ r. r.user_id) same) ∙ h.0 g
    | inr g ↦ Within-find p xs m h.1 (ground (arith, g, e))
  ]

  delete_by_id-Untouched :
      (mail_id : String) (w : World sv)
      → Within (λ m. m.id === mail_id) u (sv.mails.rows w.mails)
      → Untouched sv v w (delete_mail_record_by_id sv mail_id true none none w).1
  unfolding delete_mail_record_by_id
  delete_by_id-Untouched mail_id w within = elim (Option-cases (mail_with sv mail_id w)) [
    | inl e ↦
        Untouched-same sv v w (delete_mail_record_by_id sv mail_id true none none w).1
          (ground (arith, e))
    | inr (mail, e) ↦
        let w1 = delete_storage_objects sv (object_keys mail) w in
        let w2 = delete_mail_row sv mail_id w1 in
        let event : MailEvent = mail_event mail.user_id "mail.deleted" (mail_id ∷ []) "user" in
        let last : (delete_mail_record_by_id sv mail_id true none none w).1
            ≡ emit_to_user sv event w2 =
          ground (arith, e) in
        let owner = Within-find (λ m. m.id === mail_id) (sv.mails.rows w.mails) mail within e in
        subst (Untouched sv v w) (sym last) (
          Untouched-trans sv v (Untouched-objects sv v (object_keys mail) w) (
            Untouched-trans sv v
              (Untouched-delete sv v u other (λ m. m.id === mail_id)
                (unlink_deliveries sv (λ id. id === mail_id) w1) w1
                (Within-delete_storage_objects sv v (object_keys mail) (λ m. m.id === mail_id) u w
                  within))
              (Untouched-emit sv v u other event w2 owner)))
  ]

  pub delete_mail-Untouched :
      (mail_id : String) (w : World sv)
      → Keyed (sv.mails.rows w.mails)
      → Untouched sv v w (delete_mail sv u mail_id w).1
  unfolding delete_mail
  delete_mail-Untouched mail_id w keyed =
      let rows = sv.mails.rows w.mails in
      elim (Option-cases (find (is_own u mail_id) rows)) [
        | inl e ↦ Untouched-same sv v w (delete_mail sv u mail_id w).1 (ground (arith, e))
        | inr (mail, e) ↦
            let holds = find_holds (is_own u mail_id) rows mail e in
            let id_of : mail.id ≡ mail_id = (eq_iff mail.id mail_id).0 (ground (arith, holds)) in
            let last : (delete_mail sv u mail_id w).1
                ≡ (delete_mail_record_by_id sv mail.id true none none w).1 =
              ground (arith, e) in
            subst (Untouched sv v w) (sym last) (
              delete_by_id-Untouched mail.id w (
                subst (λ k. Within (λ m. m.id === k) u rows) (sym id_of)
                  (own-Within mail_id mail rows keyed e)))
      ]

  mark_read-Untouched :
      (mail : Mail) (w : World sv)
      → Within (λ m. m.id === mail.id) u (sv.mails.rows w.mails)
      → Untouched sv v w (mark_read sv u mail w)
  unfolding mark_read
  mark_read-Untouched mail w within =
      let f : Mail → Mail = λ m. record m { is_read = true } in
      let event : MailEvent = record (mail_event u "mail.updated" (mail.id ∷ []) "user") {
        is_read = some true;
      } in
      elim (Bool-cases mail.is_read) [
        | inl e ↦ Untouched-same sv v w (mark_read sv u mail w) (ground (arith, e))
        | inr e ↦
            let last : mark_read sv u mail w ≡ emit_to_user sv event (update_by_id sv mail.id f w) =
              ground (arith, e) in
            subst (Untouched sv v w) (sym last)
              (update_own-Untouched mail.id f event w (λ m. refl) (λ m. refl) refl within)
      ]

  pub get_single_mail-Untouched :
      (mail_id : String) (w : World sv)
      → Keyed (sv.mails.rows w.mails)
      → Untouched sv v w (get_single_mail sv u mail_id w).1
  unfolding get_single_mail
  get_single_mail-Untouched mail_id w keyed =
      let rows = sv.mails.rows w.mails in
      let t = (get_single_mail sv u mail_id w).1 in
      elim (Option-cases (mail_with sv mail_id w)) [
        | inl e ↦ Untouched-same sv v w t (ground (arith, e))
        | inr (mail, e) ↦ elim (Option-cases (user_with sv u w)) [
          | inl f ↦ Untouched-same sv v w t (ground (arith, e, f))
          | inr (user, f) ↦ elim (Bool-cases (mail.user_id === u)) [
            | inr g ↦ Untouched-same sv v w t (ground (arith, e, f, g))
            | inl g ↦ elim (Result-cases (open_mail_key sv u user mail w)) [
              | inr (x, k) ↦ Untouched-same sv v w t (ground (arith, e, f, g, k))
              | inl (key, k) ↦ elim (Result-cases (read_content sv mail key w)) [
                | inr (x, c) ↦ Untouched-same sv v w t (ground (arith, e, f, g, k, c))
                | inl (content, c) ↦
                    let last : t ≡ mark_read sv u mail w = ground (arith, e, f, g, k, c) in
                    let id_of : mail.id ≡ mail_id =
                      (eq_iff mail.id mail_id).0 (find_holds (λ m. m.id === mail_id) rows mail e) in
                    subst (Untouched sv v w) (sym last) (
                      mark_read-Untouched mail w (
                        subst (λ i. Within (λ m. m.id === i) u rows) (sym id_of)
                          (keyed u mail_id (found-own u mail_id mail rows e g))))
              ]
            ]
          ]
        ]
      ]
