-- ===== src/Psql/Moved.antt =====
-- The statement of psql_rename, pgsql.c, lines 823-880: a row that gets another parent and name.
use pgfuse.Base.{
  ℕ, ◌≡◌, ◌≢◌, refl, sym, ap, ◌∙◌, Bool, true, false, not, some, List, [], ◌∷◌, ◌++◌, arith,
  filterb, countb, updateb, map, length, str_eq_refl, str_eq-eq, ==-refl, Bool-cases, inl, inr,
}
use pgfuse.Db.{DirRow, Db, has_id, is_entry, exists_id, select_child, select_meta, update_parent}
use pgfuse.Psql.Meta.{s_isdir}
use pgfuse.Psql.Stored.{length-filterb, row_there}
use pgfuse.Psql.Path.{s_ifdir}
use pgfuse.Psql.Path.Leads.{Leads, here, down, Leads-append}

-- Rows that are changed so that none of them is selected are no longer selected.
filterb-updateb_out :
    {A : Type 0} (p h : A → Bool) (f : A → A) (xs : List A)
    → ((x : A) → p (f x) ≡ false)
    → filterb p (updateb h f xs) ≡ filterb (λ x. not (h x)) (filterb p xs)
filterb-updateb_out p h f [] out = refl
filterb-updateb_out p h f (x ∷ xs) out = ground (arith, filterb-updateb_out p h f xs out, out x)

-- Where none was selected, those that are changed so that they are become all of them.
filterb-updateb_in :
    {A : Type 0} (p h : A → Bool) (f : A → A) (xs : List A)
    → ((x : A) → p (f x) ≡ true)
    → filterb p xs ≡ []
    → filterb p (updateb h f xs) ≡ map f (filterb h xs)
filterb-updateb_in p h f [] within none_yet = refl
filterb-updateb_in p h f (x ∷ xs) within none_yet =
    ground (arith, filterb-updateb_in p h f xs within, none_yet, within x)

countb-updateb :
    {A : Type 0} (p h : A → Bool) (f : A → A) (xs : List A)
    → ((x : A) → p (f x) ≡ p x)
    → countb p (updateb h f xs) ≡ countb p xs
countb-updateb p h f [] same = refl
countb-updateb p h f (x ∷ xs) same = ground (arith, countb-updateb p h f xs same, same x)

filterb-swap :
    {A : Type 0} (p h : A → Bool) (xs : List A)
    → filterb h (filterb p xs) ≡ filterb p (filterb h xs)
filterb-swap p h [] = refl
filterb-swap p h (x ∷ xs) = ground (arith, filterb-swap p h xs)

filterb_first :
    {A : Type 0} (p : A → Bool) (x : A) (xs ys : List A) → filterb p xs ≡ x ∷ ys → p x ≡ true
filterb_first p x [] ys e = cc
filterb_first p x (y ∷ xs) ys e = ground (arith, e, filterb_first p x xs ys)

-- The row of an entry with its new parent and name.
abbrev pub moved_row : ℕ → List ℕ → DirRow → DirRow
moved_row p n r = record r { parent_id = p; name = n }

abbrev pub moved : ℕ → ℕ → List ℕ → Db → Db
moved i p n d = record d { dir = updateb (has_id i) (moved_row p n) d.dir }

module _ (d : Db) (r : DirRow) (p : ℕ) (n : List ℕ) (one : select_meta r.id d ≡ r ∷ []) where
  row_of : (q : DirRow) (i : ℕ) (m : List ℕ) → select_child m i d ≡ q ∷ [] → q.id ≡ r.id → q ≡ r
  unfolding select_child select_meta
  row_of q i m child same =
      let swap : filterb (has_id r.id) (filterb (is_entry i m) d.dir)
          ≡ filterb (is_entry i m) (filterb (has_id r.id) d.dir) =
        filterb-swap (is_entry i m) (has_id r.id) d.dir in
      let swapped : filterb (has_id r.id) (q ∷ []) ≡ filterb (is_entry i m) (r ∷ []) =
        rw (child, one) at swap in
      let both : q ∷ [] ≡ filterb (is_entry i m) (r ∷ []) =
        ground (arith, same, ==-refl r.id, swapped) in
      elim (Bool-cases (is_entry i m r)) [
        | inl e ↦ let found : q ∷ [] ≡ r ∷ [] = both ∙ ground (arith, e) in cc
        | inr e ↦ let found : q ∷ [] ≡ [] = both ∙ ground (arith, e) in cc
      ]

  -- The entry is in its new place.
  pub select_child-moved :
      select_child n p d ≡ [] → select_child n p (moved r.id p n d) ≡ moved_row p n r ∷ []
  unfolding select_child select_meta
  select_child-moved free =
      filterb-updateb_in (is_entry p n) (has_id r.id) (moved_row p n) d.dir
        (λ x. ground (arith, ==-refl p, str_eq_refl n)) free
      ∙ ap (map (moved_row p n)) one

  -- And no longer in its old one.
  pub select_child-left :
      (i : ℕ) (m : List ℕ)
      → is_entry i m (moved_row p n r) ≡ false
      → select_child m i d ≡ r ∷ []
      → select_child m i (moved r.id p n d) ≡ []
  unfolding select_child
  select_child-left i m other child =
      filterb-updateb_out (is_entry i m) (has_id r.id) (moved_row p n) d.dir (λ x. other)
      ∙ (rw child ground (arith, ==-refl r.id))

  -- Every other entry is found as before.
  pub select_child-stays :
      (i : ℕ) (m : List ℕ) (q : DirRow)
      → is_entry i m (moved_row p n r) ≡ false
      → select_child m i d ≡ q ∷ []
      → q.id ≢ r.id
      → select_child m i (moved r.id p n d) ≡ q ∷ []
  unfolding select_child
  select_child-stays i m q other child differs =
      let no : has_id r.id q ≡ false = ground arith in
      filterb-updateb_out (is_entry i m) (has_id r.id) (moved_row p n) d.dir (λ x. other)
      ∙ (rw child ground (arith, no))

  exists_id-moved : (q : DirRow) → select_meta p d ≡ q ∷ [] → exists_id p (moved r.id p n d) ≡ true
  exists_id-moved q there =
      let before : exists_id p d ≡ true = row_there p q d there in
      rw (sym (countb-updateb (has_id p) (has_id r.id) (moved_row p n) d.dir (λ x. refl))) at before

  -- The statement is answered.
  pub update_parent-moved :
      (q : DirRow)
      → select_child n p d ≡ []
      → select_meta p d ≡ q ∷ []
      → update_parent p n r.id d ≡ some (1, moved r.id p n d)
  unfolding update_parent select_child select_meta
  update_parent-moved q free there =
      let rows : countb (has_id r.id) d.dir ≡ 1 = sym (length-filterb _ d.dir) ∙ ap length one in
      let entries : countb (is_entry p n) (moved r.id p n d).dir ≡ 1 =
        sym (length-filterb _ (moved r.id p n d).dir)
        ∙ ap length (unfold select_child in select_child-moved free) in
      simp (rows, entries, exists_id-moved q (unfold select_meta in there)) refl

-- What leads to a directory starts at one.
Leads-start :
    (d : Db) (i m j k : ℕ) (names : List (List ℕ))
    → Leads d i m names j k
    → s_isdir k ≡ true
    → s_isdir m ≡ true
Leads-start d i m j k [] (here _ _) is_dir = is_dir
Leads-start d i m j k (n ∷ ns) (down _ _ _ _ _ _ q h one rest) is_dir = h

-- An entry that is not a directory gets a name that is free.
module _ (d : Db) (r : DirRow) (p : ℕ) (n : List ℕ) (one : select_meta r.id d ≡ r ∷ [])
    (file : s_isdir r.mode ≡ false) (free : select_child n p d ≡ []) where
  -- It is at no other name than its new one, where no entry was.
  not_there :
      (i : ℕ) (m : List ℕ) (q : DirRow)
      → select_child m i d ≡ q ∷ []
      → is_entry i m (moved_row p n r) ≡ false
  not_there i m q child = elim (Bool-cases (is_entry i m (moved_row p n r))) [
    | inl e ↦
        let same_parent : p ≡ i = ground (arith, e) in
        let same_name : n ≡ m = str_eq-eq n m (ground (arith, e)) in
        let taken : select_child n p d ≡ q ∷ [] = rw (same_parent, same_name) child in
        let clash : [] ≡ q ∷ [] = sym free ∙ taken in cc
    | inr e ↦ e
  ]

  pub Leads-moved :
      (i m j k : ℕ) (names : List (List ℕ))
      → Leads d i m names j k
      → s_isdir k ≡ true
      → Leads (moved r.id p n d) i m names j k
  Leads-moved i m j k [] (here _ _) is_dir = here i m
  Leads-moved i m j k (name ∷ ns) (down _ _ _ _ _ _ q h child rest) is_dir =
      let q_dir = Leads-start d q.id q.mode j k ns rest is_dir in
      let differs : q.id ≢ r.id = λ e. let same = row_of d r p n one q i name child e in cc in
      down i m j k name ns q h
        (select_child-stays d r p n one i name q (not_there i name q child) child differs)
        (Leads-moved q.id q.mode j k ns rest is_dir)

  -- The names of the new directory, with the new name behind them, lead to the entry.
  pub Leads-moved_row :
      (names : List (List ℕ)) (k : ℕ)
      → Leads d 0 s_ifdir names p k
      → s_isdir k ≡ true
      → Leads (moved r.id p n d) 0 s_ifdir (names ++ n ∷ []) r.id r.mode
  Leads-moved_row names k leads is_dir =
      Leads-append (moved r.id p n d) 0 s_ifdir p k names n (moved_row p n r)
        (Leads-moved 0 s_ifdir p k names leads is_dir) is_dir (select_child-moved d r p n one free)

  -- And no entry has the old name.
  pub old_name_free :
      (i : ℕ) (m : List ℕ) → select_child m i d ≡ r ∷ [] → select_child m i (moved r.id p n d) ≡ []
  old_name_free i m child = select_child-left d r p n one i m (not_there i m r child) child
