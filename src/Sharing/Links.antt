-- ===== src/Sharing/Links.antt =====
-- links.service.ts. The table `links` is the state. The unique index on `shortCode` makes `create`
-- fail with P2002; other failures of the database are left out. The limit of LINK_LIMIT is an
-- argument, and `draws` has what each attempt draws.
use redbox.Prelude.{
  ℕ, zero, suc, String, ◌≡◌, Bool, true, not, List, length, Option, none, some, ◌===◌,
  if◌then◌else◌, leb, is_some, Exec, bad_request, not_found, forbidden, pure, throw, gets, modify,
  ◌>>=◌,
}
use redbox.Database.{Table, find_first, find_many}

pub record Link : Type 0 where
  pub id : String
  pub original_url : String
  pub short_code : String
  pub user_id : String
  pub created_at : ℕ

-- The id and the random short code of one attempt.
pub record Draw : Type 0 where
  pub id : String
  pub short_code : String

abbrev pub max_short_code_attempts : ℕ
max_short_code_attempts = 8

-- The table, and equality of texts in a query: under the database's collation, which ignores case.
pub record LinkServices : Type 1 where
  pub links : Table Link
  pub same_text : String → String → Bool
  pub same_text-refl : (s : String) → same_text s s ≡ true

module _ (sv : LinkServices) where
  open sv use {links}
  open links use {State}

  abbrev pub links_of : String → State → List Link
  links_of user_id s = find_many links s (λ l. l.user_id === user_id)

  abbrev pub link_with : String → State → Option Link
  link_with code s = find_first links s (λ l. sv.same_text l.short_code code)

  abbrev pub new_link : String → String → ℕ → Draw → Link
  new_link user_id url now draw = record {
    id = draw.id;
    original_url = url;
    short_code = draw.short_code;
    user_id = user_id;
    created_at = now;
  }

  -- The loop, with the number of attempts that are left.
  unfoldable pub attempt_create : ℕ → String → String → ℕ → (ℕ → Draw) → Exec State Link
  attempt_create zero user_id url now draws s =
      throw (bad_request "Could not generate a unique short code") s
  attempt_create (suc n) user_id url now draws s =
      let rest = attempt_create n user_id url now draws s in
      let link = new_link user_id url now (draws n) in
      if is_some (link_with link.short_code s) then rest else pure link (links.create s link)

  unfoldable pub create_link : ℕ → String → String → ℕ → (ℕ → Draw) → Exec State Link
  create_link link_limit user_id url now draws s =
      if leb link_limit (length (links_of user_id s))
      then throw (bad_request "You have reached the limit of links.") s
      else attempt_create max_short_code_attempts user_id url now draws s

  unfoldable pub delete_link : String → String → Exec State (Unit {0})
  delete_link user_id link_id = do
    link ← gets (λ s. find_first links s (λ l. l.id === link_id))
    elim link [
      | none ↦ throw (not_found "Link not found.")
      | some l ↦
          if not (l.user_id === user_id)
          then throw (forbidden "Link not found.")
          else modify (λ s. links.delete_many s (λ l. l.id === link_id))
    ]

  unfoldable pub get_original_url : String → Exec State String
  get_original_url code = do
    link ← gets (link_with code)
    elim link [ none ↦ throw (not_found "Link not found") | some l ↦ pure l.original_url ]
