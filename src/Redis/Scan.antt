-- ===== src/Redis/Scan.antt =====
-- Keys in memory with a list of the names in use, for SCAN.
use redbox.Prelude.{
  String, ◌≡◌, refl, Bool, true, false, not, List, [], ◌∷◌, Option, none, some, arith, ◌===◌,
  if◌then◌else◌, is_some, contains, keep, template, Bool-cases, inl, inr, eq_iff,
}
use text.Mathlib.TextPositions.{starts_with-append}
use text.Mathlib.Text.{starts_with}
use redbox.Redis.{Texts}

module _ (V : Type 0) where
  pub record Listed : Type 0 where
    pub names : List String
    pub value : String → Option V

  abbrev pub lookup : Listed → String → Option V
  lookup s k = if contains k s.names then s.value k else none

  abbrev pub put : Listed → String → Option V → Listed
  put s k v = record { names = k ∷ s.names; value = λ j. if k === j then v else s.value j }

  abbrev pub put_new : Listed → String → V → Listed × Bool
  put_new s k v = if is_some (lookup s k) then (s, false) else (put s k (some v), true)

  pub lookup-put :
      (s : Listed) (k j : String) (v : Option V)
      → lookup (put s k v) j ≡ (if k === j then v else lookup s j)
  lookup-put s k j v = ground arith

  pub put_new_reply :
      (s : Listed) (k : String) (v : V) → (put_new s k v).1 ≡ not (is_some (lookup s k))
  put_new_reply s k v = ground arith

  pub lookup-put_new :
      (s : Listed) (k j : String) (v : V)
      → lookup (put_new s k v).0 j
        ≡ (if is_some (lookup s k) then lookup s j else if k === j then some v else lookup s j)
  lookup-put_new s k j v = ground (arith, lookup-put s k j (some v))

  abbrev pub listed_texts : Texts V
  listed_texts = record {
    State = Listed;
    get = lookup;
    set = λ s k v n. put s k (some v);
    set_nx = λ s k v n. put_new s k v;
    del = λ s k. put s k none;
    expire = λ s k n. s;
    get-set = λ s k v n j. lookup-put s k j (some v);
    set_nx_reply = λ s k v n. put_new_reply s k v;
    get-set_nx = λ s k v n j. lookup-put_new s k j v;
    get-del = λ s k j. lookup-put s k j none;
    get-expire = λ s k n j h. refl;
  }

  -- SCAN … MATCH prefix*
  abbrev pub scan : Listed → String → List String
  scan s prefix = keep (λ name. starts_with name prefix) s.names

  contains-keep :
      (q : String → Bool) (k : String) (xs : List String)
      → q k ≡ true
      → contains k xs ≡ true
      → contains k (keep q xs) ≡ true
  contains-keep q k [] h c = c
  contains-keep q k (x ∷ xs) h c = elim (Bool-cases (x === k)) [
    | inl e ↦ let f : x ≡ k = (eq_iff x k).0 e in ground (arith, e, f)
    | inr e ↦ elim (Bool-cases (q x)) [
      | inl g ↦ ground (arith, e, g, contains-keep q k xs h)
      | inr g ↦ ground (arith, e, g, contains-keep q k xs h)
    ]
  ]

  pub contains-scan :
      (s : Listed) (prefix rest : String) (v : V)
      → lookup s (template (prefix ∷ rest ∷ [])) ≡ some v
      → contains (template (prefix ∷ rest ∷ [])) (scan s prefix) ≡ true
  contains-scan s prefix rest v h =
      contains-keep (λ name. starts_with name prefix) (template (prefix ∷ rest ∷ [])) s.names
        (starts_with-append prefix (template (rest ∷ []))) (ground (arith, h))
