-- ===== src/Database/Memory.antt =====
-- A table that is the list of its rows.
use redbox.Prelude.{refl, List, [], ◌∷◌, ◌++◌, map, if◌then◌else◌, not, keep}
use redbox.Database.{Table}

abbrev pub memory_table : (Row : Type 0) → Table Row
memory_table Row = record {
  State = List Row;
  rows = λ s. s;
  create = λ s r. s ++ r ∷ [];
  update_many = λ s p f. map (λ r. if p r then f r else r) s;
  delete_many = λ s p. keep (λ r. not (p r)) s;
  rows-create = λ s r. refl;
  rows-update_many = λ s p f. refl;
  rows-delete_many = λ s p. refl;
}
