-- ===== src/Psql/Inserted.antt =====
-- A new row of `dir`: what the statements see of it, and which names lead to it.
use pgfuse.Base.{
  none, suc, ℕ, ◌≡◌, refl, sym, ap, ◌∙◌, Bool, true, some, List, [], ◌∷◌, ◌++◌, arith, filterb,
  countb, length, str_eq_refl, str_eq-eq, Bool-cases, inl, inr, ==-refl,
}
use pgfuse.Db.{DirRow, Db, has_id, is_entry, exists_id, select_child, select_meta, insert_dir}
use pgfuse.Psql.Meta.{s_isdir}
use pgfuse.Psql.Stored.{length-filterb}
use pgfuse.Psql.Path.Leads.{Leads, here, down, Leads-append}

pub filterb-append :
    {A : Type 0} (p : A → Bool) (xs ys : List A)
    → filterb p (xs ++ ys) ≡ filterb p xs ++ filterb p ys
filterb-append p [] ys = refl
filterb-append p (x ∷ xs) ys = ground (arith, filterb-append p xs ys)

-- `dir` with one more row.
abbrev pub with_row : Db → DirRow → Db
with_row d row = record d { dir = d.dir ++ row ∷ [] }

-- The name is free under the parent, and the id is free.
pub record IsNew (d : Db) (row : DirRow) : Type 0 where
  pub free_name : select_child row.name row.parent_id d ≡ []
  pub free_id : select_meta row.id d ≡ []

module _ (d : Db) (row : DirRow) (fresh : IsNew d row) where
  open fresh use {free_name, free_id}

  pub insert_dir-with_row :
      exists_id row.parent_id d ≡ true → insert_dir row d ≡ some (with_row d row)
  unfolding insert_dir select_child select_meta
  insert_dir-with_row there =
      let no_name : countb (is_entry row.parent_id row.name) d.dir ≡ 0 =
        sym (length-filterb _ d.dir) ∙ ap length free_name in
      let no_id : countb (has_id row.id) d.dir ≡ 0 =
        sym (length-filterb _ d.dir) ∙ ap length free_id in
      ground (arith, no_name, no_id, there)

  pub select_meta-with_row : select_meta row.id (with_row d row) ≡ row ∷ []
  unfolding select_meta
  select_meta-with_row =
      filterb-append (has_id row.id) d.dir (row ∷ []) ∙ ground (arith, free_id, ==-refl row.id)

  pub select_child-with_row : select_child row.name row.parent_id (with_row d row) ≡ row ∷ []
  unfolding select_child
  select_child-with_row =
      filterb-append (is_entry row.parent_id row.name) d.dir (row ∷ [])
      ∙ ground (arith, free_name, ==-refl row.parent_id, str_eq_refl row.name)

  -- A name that was found is found as before.
  select_child_kept :
      (name : List ℕ) (i : ℕ) (r : DirRow)
      → select_child name i d ≡ r ∷ []
      → select_child name i (with_row d row) ≡ r ∷ []
  unfolding select_child
  select_child_kept name i r one = elim (Bool-cases (is_entry i name row)) [
    | inl e ↦
        let same_parent : row.parent_id ≡ i = ground (arith, e) in
        let same_name : row.name ≡ name = str_eq-eq row.name name (ground (arith, e)) in
        let found : select_child row.name row.parent_id d ≡ r ∷ [] =
          rw (same_parent, same_name) one in
        let clash : [] ≡ r ∷ [] = sym free_name ∙ found in cc
    | inr e ↦ filterb-append (is_entry i name) d.dir (row ∷ []) ∙ ground (arith, one, e)
  ]

  -- Names that led to an entry lead to it still.
  pub Leads-with_row :
      (i m j k : ℕ) (names : List (List ℕ))
      → Leads d i m names j k
      → Leads (with_row d row) i m names j k
  Leads-with_row i m j k [] (here _ _) = here i m
  Leads-with_row i m j k (n ∷ ns) (down _ _ _ _ _ _ r is_dir one rest) =
      down i m j k n ns r is_dir (select_child_kept n i r one)
        (Leads-with_row r.id r.mode j k ns rest)

  -- And the names of the parent, with the new name behind them, lead to the new row.
  pub Leads-new :
      (i m k : ℕ) (names : List (List ℕ))
      → Leads d i m names row.parent_id k
      → s_isdir k ≡ true
      → Leads (with_row d row) i m (names ++ row.name ∷ []) row.id row.mode
  Leads-new i m k names leads is_dir =
      Leads-append (with_row d row) i m row.parent_id k names row.name row
        (Leads-with_row i m row.parent_id k names leads) is_dir select_child-with_row

-- A name that is taken under the parent.
pub insert_dir-taken :
    (d : Db) (row r : DirRow) (rs : List DirRow)
    → select_child row.name row.parent_id d ≡ r ∷ rs
    → insert_dir row d ≡ none
unfolding insert_dir select_child
insert_dir-taken d row r rs taken =
    let some_name : countb (is_entry row.parent_id row.name) d.dir ≡ suc (length rs) =
      sym (length-filterb _ d.dir) ∙ ap length taken in
    ground (arith, some_name)
