-- ===== src/Psql/Path/Leads.antt =====
-- What psql_path_to_id finds: the entry that a list of names leads to.
use pgfuse.Base.{false, ℕ, ◌%◌, ◌^◌, ◌<◌, ◌≡◌, true, List, [], ◌∷◌, ◌++◌, arith, ltb-lt}
use pgfuse.Db.{DirRow, Db, select_child, select_meta}
use pgfuse.Session.{ok, err, Env, enoent}
use pgfuse.Session.Runs.{Answers, Runs, Runs-pure, Runs-bind, Runs-allocate, Runs-select}
use pgfuse.Session.Numbered.{Runs-raise, Runs-bind-err}
use pgfuse.Psql.Meta.{s_isdir, one_row, to_meta}
use pgfuse.Psql.Stored.{psql_read_meta-Runs}
use pgfuse.Psql.Path.{walk, psql_path_to_id, path_parts, as_int, s_ifdir, psql_read_meta_from_path}

-- From the entry `i` with the mode `m`, the names lead to `i'` with the mode `m'`: every entry on
-- the way but the last is a directory, and has one child of the next name.
pub data Leads (d : Db) : ℕ → ℕ → List (List ℕ) → ℕ → ℕ → Type 0 where
  here : (i m : ℕ) → Leads d i m [] i m
  down :
      (i m i' m' : ℕ) (name : List ℕ) (names : List (List ℕ)) (r : DirRow)
      → s_isdir m ≡ true
      → select_child name i d ≡ r ∷ []
      → Leads d r.id r.mode names i' m'
      → Leads d i m (name ∷ names) i' m'

pub Leads-append :
    (d : Db) (i m j k : ℕ) (names : List (List ℕ)) (name : List ℕ) (r : DirRow)
    → Leads d i m names j k
    → s_isdir k ≡ true
    → select_child name j d ≡ r ∷ []
    → Leads d i m (names ++ name ∷ []) r.id r.mode
Leads-append d i m j k [] name r (here _ _) is_dir one =
    down i m r.id r.mode name [] r is_dir one (here r.id r.mode)
Leads-append d i m j k (n ∷ ns) name r (down _ _ _ _ _ _ q h e rest) is_dir one =
    down i m r.id r.mode n (ns ++ name ∷ []) q h e
      (Leads-append d q.id q.mode j k ns name r rest is_dir one)

module _ {env : Env} (answers : Answers env) (d : Db) where
  walk-Leads :
      (i m j k : ℕ) (names : List (List ℕ))
      → Leads d i m names j k
      → Runs env (walk names i m) d (ok j) d
  unfolding walk one_row
  walk-Leads i m j k [] (here _ _) = Runs-pure i d
  walk-Leads i m j k (n ∷ ns) (down _ _ _ _ _ _ r is_dir one rest) = simp is_dir (
      Runs-bind _ _ (Runs-select answers _ d)
        (simp one (Runs-bind _ _ (Runs-pure r d) (walk-Leads r.id r.mode j k ns rest))))

  walk_missing :
      (i m j k : ℕ) (names : List (List ℕ)) (name : List ℕ)
      → Leads d i m names j k
      → s_isdir k ≡ true
      → select_child name j d ≡ []
      → Runs env (walk (names ++ name ∷ []) i m) d (err enoent) d
  unfolding walk one_row
  walk_missing i m j k [] name (here _ _) is_dir none_there = simp is_dir (
      Runs-bind _ _ (Runs-select answers _ d)
        (simp none_there (Runs-bind-err _ _ (Runs-raise enoent d))))
  walk_missing i m j k (n ∷ ns) name (down _ _ _ _ _ _ r h one rest) is_dir none_there = simp h (
      Runs-bind _ _ (Runs-select answers _ d) (
        simp one (
          Runs-bind _ _ (Runs-pure r d)
            (walk_missing r.id r.mode j k ns name rest is_dir none_there))))

  -- The entry that the parts of a path lead to is found.
  pub psql_path_to_id-Leads :
      (path : List ℕ) (i m : ℕ)
      → Leads d 0 s_ifdir (path_parts path) i m
      → Runs env (psql_path_to_id path) d (ok i) d
  unfolding psql_path_to_id
  psql_path_to_id-Leads path i m leads =
      Runs-bind _ _ (Runs-allocate answers d) (walk-Leads 0 s_ifdir i m (path_parts path) leads)

  -- Inside a transaction, while no statement fails, a path whose parts lead to an entry that has one
  -- row gives the id of the entry and the metadata of the row, if the id fits into an int.
  pub psql_read_meta_from_path-Leads :
      (path : List ℕ) (i m : ℕ) (r : DirRow)
      → i < 2 ^ 31
      → select_meta i d ≡ r ∷ []
      → Leads d 0 s_ifdir (path_parts path) i m
      → Runs env (psql_read_meta_from_path path) d (ok (i, to_meta env.order r)) d
  unfolding psql_read_meta_from_path as_int
  psql_read_meta_from_path-Leads path i m r small one leads =
      let same : i % 2 ^ 32 ≡ i = omega arith in
      Runs-bind _ _ (psql_path_to_id-Leads path i m leads) (
        simp (same, ltb-lt i (2 ^ 31) small)
          (Runs-bind _ _ (Runs-pure i d)
            (Runs-bind _ _ (psql_read_meta-Runs answers i r d small one) (Runs-pure _ d))))

  -- A last name that no entry has is not found.
  pub psql_read_meta_from_path_missing :
      (path name : List ℕ) (names : List (List ℕ)) (i m : ℕ)
      → path_parts path ≡ names ++ name ∷ []
      → Leads d 0 s_ifdir names i m
      → s_isdir m ≡ true
      → select_child name i d ≡ []
      → Runs env (psql_read_meta_from_path path) d (err enoent) d
  unfolding psql_read_meta_from_path psql_path_to_id
  psql_read_meta_from_path_missing path name names i m parts leads is_dir none_there =
      Runs-bind-err _ _ (
        Runs-bind _ _ (Runs-allocate answers d)
          (simp parts (walk_missing 0 s_ifdir i m names name leads is_dir none_there)))

  walk_past :
      (i m j k : ℕ) (names more : List (List ℕ))
      → Leads d i m names j k
      → s_isdir k ≡ false
      → Runs env (walk (names ++ more) i m) d (ok j) d
  unfolding walk one_row
  walk_past i m j k [] [] (here _ _) file = Runs-pure i d
  walk_past i m j k [] (n ∷ ns) (here _ _) file = simp file (Runs-pure i d)
  walk_past i m j k (n ∷ ns) more (down _ _ _ _ _ _ r is_dir one rest) file = simp is_dir (
      Runs-bind _ _ (Runs-select answers _ d)
        (simp one (Runs-bind _ _ (Runs-pure r d) (walk_past r.id r.mode j k ns more rest file))))

  -- Inside a transaction, while no statement fails, whatever stands behind the name of an entry that is not a directory
  -- makes no difference: the path is taken for that of the entry.
  pub path_past_file :
      (path : List ℕ) (names more : List (List ℕ)) (i m : ℕ)
      → path_parts path ≡ names ++ more
      → Leads d 0 s_ifdir names i m
      → s_isdir m ≡ false
      → Runs env (psql_path_to_id path) d (ok i) d
  unfolding psql_path_to_id
  path_past_file path names more i m parts leads file =
      Runs-bind _ _ (Runs-allocate answers d)
        (simp parts (walk_past 0 s_ifdir i m names more leads file))
