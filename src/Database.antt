-- ===== src/Database.antt =====
-- The Prisma calls that the services make. The client and the database are not part of the
-- repository: a table is a record of calls with their documented effect on its rows, in the
-- order in which an unordered query returns them. `Memory` has values of this record.
pub mod Memory
use redbox.Prelude.{
  ℕ, ◌≡◌, Bool, List, [], ◌∷◌, ◌++◌, map, Option, none, some, if◌then◌else◌, not, find, keep,
}

pub record Table (Row : Type 0) : Type 1 where
  pub State : Type 0
  -- findMany without a filter
  pub rows : State → List Row
  pub create : State → Row → State
  pub update_many : State → (Row → Bool) → (Row → Row) → State
  pub delete_many : State → (Row → Bool) → State
  pub rows-create : (s : State) (r : Row) → rows (create s r) ≡ rows s ++ r ∷ []
  pub rows-update_many :
      (s : State) (p : Row → Bool) (f : Row → Row)
      → rows (update_many s p f) ≡ map (λ r. if p r then f r else r) (rows s)
  pub rows-delete_many :
      (s : State) (p : Row → Bool) → rows (delete_many s p) ≡ keep (λ r. not (p r)) (rows s)

module _ {Row : Type 0} (table : Table Row) where
  -- findFirst and findUnique: the first row that meets the condition.
  abbrev pub find_first : table.State → (Row → Bool) → Option Row
  find_first s p = find p (table.rows s)

  -- findMany
  abbrev pub find_many : table.State → (Row → Bool) → List Row
  find_many s p = keep p (table.rows s)
