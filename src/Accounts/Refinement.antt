-- ===== src/Accounts/Refinement.antt =====
-- What it is for a method to be a run of the abstract machine for every user, and how runs compose.
use mathlib.Core.Option
use redbox.Prelude.{
  String, ◌≡◌, refl, sym, ap, ◌∙◌, subst, Bool, true, some, arith, Exec, ◌===◌, if◌then◌else◌, find,
  Bool-cases, Result-cases, inl, inr, ◌>>=◌, ◌>>◌,
}
use redbox.Accounts.State.{User, Services, World}
use redbox.Accounts.Users.{user_of}
use redbox.Accounts.Rows.{find-map}
use redbox.Accounts.Machine.{Moves, here, Moves-trans, Moves-widen, account}

module _ (sv : Services) (K : String → Type 0) where
  -- Each user's row is still there, and a run of the machine leads from its old account to its new
  -- one.
  pub record Runs (id : String) (u : User) (w' : World sv) : Type 0 where
    pub row : User
    pub found : user_of sv id w' ≡ some row
    pub run : Moves K (account u) (account row)

  abbrev pub Refines : World sv → World sv → Type 0
  Refines w w' = (id : String) (u : User) → user_of sv id w ≡ some u → Runs id u w'

  pub Refines-refl : (w : World sv) → Refines w w
  Refines-refl w id u e = record { row = u; found = e; run = here }

  pub Refines-trans : (w v t : World sv) → Refines w v → Refines v t → Refines w t
  Refines-trans w v t r s id u e =
      let a = r id u e in
      let b = s id a.row a.found in
      record { row = b.row; found = b.found; run = Moves-trans a.run b.run }

  -- A step that leaves the table of users alone.
  pub Refines-users : (w w' : World sv) → w'.users ≡ w.users → Refines w w'
  Refines-users w w' h id u e = record {
    row = u;
    found = ap (λ s. find (λ v. v.id === id) (sv.users.rows s)) h ∙ e;
    run = here;
  }

  -- An update of some rows by a change that is a step of each.
  pub Refines-update :
      (p : User → Bool) (f : User → User) (w w' : World sv)
      → w'.users ≡ sv.users.update_many w.users p f
      → ((u : User) → (f u).id ≡ u.id)
      → ((id : String) (u : User)
          → user_of sv id w ≡ some u
          → p u ≡ true
          → Moves K (account u) (account (f u)))
      → Refines w w'
  Refines-update p f w w' h keeps step id u e =
      let g : User → User = λ v. if p v then f v else v in
      let same : (j : String) (v : User) → ((g v).id === j) ≡ (v.id === j) = λ j v.
        elim (Bool-cases (p v)) [
          | inl t ↦ ground (arith, t, keeps v)
          | inr t ↦ ground (arith, t)
        ] in
      let found : user_of sv id w' ≡ Option.map g (some u) =
        ap (λ s. find (λ v. v.id === id) (sv.users.rows s)) h
        ∙ ap (find (λ v. v.id === id)) (sv.users.rows-update_many w.users p f)
        ∙ find-map (λ v. v.id === id) g (λ v. same id v) (sv.users.rows w.users)
        ∙ ap (Option.map g) e in
      elim (Bool-cases (p u)) [
        | inl t ↦ record { row = f u; found = found ∙ ap some (rw t refl); run = step id u e t }
        | inr t ↦ record { row = u; found = found ∙ ap some (rw t refl); run = here }
      ]

  -- A method that refines from every state.
  abbrev pub RefinesExec : {A : Type 0} → Exec (World sv) A → Type 0
  RefinesExec m = (w : World sv) → Refines w (m w).1

  module _ {A B : Type 0} where
    pub RefinesExec->>= :
        (m : Exec (World sv) A) (f : A → Exec (World sv) B)
        → RefinesExec m
        → ((a : A) → RefinesExec (f a))
        → RefinesExec (m >>= f)
    RefinesExec->>= m f r s w = elim (Result-cases (m w).0) [
      | inl (a, e) ↦
          subst (Refines w) (sym (ground (arith, e)))
            (Refines-trans w (m w).1 (f a (m w).1).1 (r w) (s a (m w).1))
      | inr (x, e) ↦ subst (Refines w) (sym (ground (arith, e))) (r w)
    ]

    -- The same from one state, where the second method does not read the first's answer.
    pub RefinesExec-then :
        (m : Exec (World sv) A) (n : Exec (World sv) B) (w : World sv)
        → Refines w (m w).1
        → RefinesExec n
        → Refines w ((m >> n) w).1
    RefinesExec-then m n w r s = elim (Result-cases (m w).0) [
      | inl (a, e) ↦
          subst (Refines w) (sym (ground (arith, e)))
            (Refines-trans w (m w).1 (n (m w).1).1 r (s (m w).1))
      | inr (x, e) ↦ subst (Refines w) (sym (ground (arith, e))) r
    ]

pub Refines-widen :
    {K L : String → Type 0} (sv : Services)
    → ((key : String) → K key → L key)
    → (w w' : World sv) → Refines sv K w w'
    → Refines sv L w w'
Refines-widen sv up w w' r id u e =
    let a = r id u e in record { row = a.row; found = a.found; run = Moves-widen up a.run }
