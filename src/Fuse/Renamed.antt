-- ===== src/Fuse/Renamed.antt =====
-- pgfuse_rename, pgfuse.c, lines 1285-1381, and psql_rename, pgsql.c, lines 823-880: a file that
-- gets a new name when nothing outside of the program fails.
use pgfuse.Base.{ℕ, ◌^◌, ◌<◌, ◌≡◌, ◌≢◌, refl, sym, true, false, List, [], ◌∷◌, ◌++◌}
use pgfuse.Db.{DirRow, Db, select_child, select_meta}
use pgfuse.Session.{ok, err, Env, idle, active, Session, enoent, ◌>>=◌, give_back}
use pgfuse.Session.Runs.{
  Answers, Runs, Runs-pure, Runs-bind, Runs-attempt, Runs-allocate, Runs-execute,
}
use pgfuse.Session.Numbered.{Runs-attempt-err}
use pgfuse.Psql.Meta.{s_isdir, to_meta, one_tuple, expect_dir, psql_rename}
use pgfuse.Psql.Stored.{psql_read_meta-Runs}
use pgfuse.Psql.Moved.{moved, update_parent-moved, Leads-moved_row, old_name_free}
use pgfuse.Psql.Path.{s_ifdir, psql_read_meta_from_path}
use pgfuse.Psql.Path.Parts.{NoSlash, AllNames, path_of}
use pgfuse.Psql.Path.Leads.{
  Leads, Leads-append, psql_read_meta_from_path-Leads, psql_read_meta_from_path_missing,
}
use pgfuse.Fuse.Context.{PgFuseData, commit}
use pgfuse.Fuse.Attr.{refuse_read_only}
use pgfuse.Fuse.Rename.{rename_body, rename_on, rename_found, pgfuse_rename}
use pgfuse.Fuse.Atomic.{PoolServes}
use pgfuse.Fuse.Leak.{acquired, begun, acquire_served, begin_answered}
use pgfuse.Fuse.Committed.{IsCommitted, closing-Runs}
use pgfuse.Fuse.Places.{IsPlace, Splits-path_of}

-- The parts of a path with a last one.
pub record IsNamed (names : List (List ℕ)) (name : List ℕ) : Type 0 where
  pub parts : AllNames names
  pub full : name ≢ []
  pub plain : NoSlash name

-- The one row of a name in a directory, which is not the row of a directory.
pub record IsFile (d : Db) (name : List ℕ) (k : ℕ) (r : DirRow) : Type 0 where
  pub child : select_child name k d ≡ r ∷ []
  pub one : select_meta r.id d ≡ r ∷ []
  pub file : s_isdir r.mode ≡ false
  pub small : r.id < 2 ^ 31

-- The number has one row, which is that of a directory.
pub record IsDir (d : Db) (i : ℕ) : Type 0 where
  pub row : DirRow
  pub one : select_meta i d ≡ row ∷ []
  pub is_dir : s_isdir row.mode ≡ true
  pub small : i < 2 ^ 31

module _ (env : Env) (answers : Answers env) (t : Db) (r : DirRow) (j : ℕ) (name : List ℕ)
    (parent : DirRow) (one : select_meta r.id t ≡ r ∷ []) (free : select_child name j t ≡ []) where
  psql_rename-Runs :
      (i : ℕ)
      → IsDir t i
      → select_meta j t ≡ parent ∷ []
      → s_isdir parent.mode ≡ true
      → j < 2 ^ 31
      → Runs env (psql_rename r.id i j name) t (ok tt) (moved r.id j name t)
  unfolding psql_rename expect_dir one_tuple to_meta
  psql_rename-Runs i old there is_dir small =
      Runs-bind _ _ (psql_read_meta-Runs answers i old.row t old.small old.one) (
        simp old.is_dir (
          Runs-bind _ _ (Runs-pure tt t) (
            Runs-bind _ _ (psql_read_meta-Runs answers j parent t small there) (
              simp is_dir (
                Runs-bind _ _ (Runs-pure tt t) (
                  Runs-bind _ _
                    (Runs-execute answers _ t
                      (update_parent-moved t r j name one parent free there))
                    (Runs-pure tt _)))))))

module _ (env : Env) (answers : Answers env) (d : PgFuseData) (rw_mount : d.read_only ≡ false)
    (t : Db) (r : DirRow) (one : select_meta r.id t ≡ r ∷ [])
    (checked : IsDir t (to_meta env.order r).parent_id) (to_names : List (List ℕ))
    (to_name : List ℕ) (j : ℕ) (parent : DirRow) (named : IsNamed to_names to_name)
    (place : IsPlace t to_names j parent) (free : select_child to_name j t ≡ []) where
  abbrev to : List ℕ
  to = path_of to_names ++ b'/' ∷ to_name

  rename_body-Runs :
      Runs env
        (rename_body d r.id (to_meta env.order r) to)
        t
        (ok (commit (ok tt)))
        (moved r.id j to_name t)
  unfolding rename_body refuse_read_only to_meta
  rename_body-Runs =
      let splits = Splits-path_of to_names to_name named.parts named.full named.plain in
      Runs-bind _ _ (Runs-allocate answers t) (
        Runs-bind _ _
          (psql_read_meta_from_path-Leads answers t _ j place.mode parent place.small place.one
            (rw (sym splits.directory) at place.leads))
          (simp (place.parent_dir, rw_mount)
            (Runs-bind _ _ (Runs-pure tt t) (
              Runs-bind _ _ (Runs-allocate answers t) (
                Runs-bind _ _ (Runs-pure tt t) (
                  simp splits.last (
                    Runs-bind _ _
                      (Runs-attempt _ (
                        psql_rename-Runs env answers t r j to_name parent one free _ checked
                          place.one place.parent_dir place.small))
                      (Runs-pure _ _))))))))

  rename_on-IsCommitted :
      (pool : PoolServes env) (s : Session)
      → s.tx ≡ active
      → s.work ≡ t
      → IsCommitted tt (moved r.id j to_name t) (rename_on d r.id (to_meta env.order r) to env s)
  unfolding rename_on give_back ◌>>=◌
  rename_on-IsCommitted pool s in_tx sees =
      let done =
        closing-Runs env answers d pool (rename_body d r.id (to_meta env.order r) to) (ok tt) s
          in_tx sees rename_body-Runs in
      record {
        returned = simp done.returned refl;
        base = simp done.returned done.base;
        work = simp done.returned done.work;
        closed = simp done.returned done.closed;
      }

  missing : Runs env (psql_read_meta_from_path to) t (err enoent) t
  missing =
      let splits = Splits-path_of to_names to_name named.parts named.full named.plain in
      psql_read_meta_from_path_missing answers t to to_name to_names j place.mode splits.parts
        place.leads place.is_dir free

  pub pgfuse_rename-IsCommitted :
      (pool : PoolServes env) (from : List ℕ) (s : Session)
      → s.tx ≡ idle
      → s.work ≡ t
      → Runs env (psql_read_meta_from_path from) t (ok (r.id, to_meta env.order r)) t
      → IsCommitted tt (moved r.id j to_name t) (pgfuse_rename d from to env s)
  unfolding pgfuse_rename rename_found ◌>>=◌
  pgfuse_rename-IsCommitted pool from s closed sees found =
      let (e, w, x) = found.at (begun d s) refl sees in
      let s1 = (psql_read_meta_from_path from env (begun d s)).1 in
      let (e', w', x') = (Runs-attempt-err _ missing).at s1 x w in
      simp
        (acquire_served d env s pool, begin_answered env (acquired d s) closed (answers _), e, e')
        (rename_on-IsCommitted pool _ x' w')

-- On a mount that is not read-only, while no statement and no request to the pool fails, renaming a
-- file to a name that is free in a directory that names lead to succeeds and commits: the names of
-- that directory with the new name behind them lead to the same number with the same mode, and the
-- old name is free. The number that the metadata of the file give as its parent must be that of a
-- directory, and the numbers must fit into an int.
pub pgfuse_rename-Leads :
    (env : Env) (answers : Answers env) (d : PgFuseData) (pool : PoolServes env) (s : Session)
    (from_names to_names : List (List ℕ)) (from_name to_name : List ℕ) (k j : ℕ)
    (from_parent to_parent r : DirRow)
    → s.tx ≡ idle
    → d.read_only ≡ false
    → IsNamed from_names from_name
    → IsNamed to_names to_name
    → IsPlace s.work from_names k from_parent
    → IsPlace s.work to_names j to_parent
    → IsFile s.work from_name k r
    → IsDir s.work (to_meta env.order r).parent_id
    → select_child to_name j s.work ≡ []
    → ((pgfuse_rename d
          (path_of from_names ++ b'/' ∷ from_name)
          (path_of to_names ++ b'/' ∷ to_name)
          env
          s).0
        ≡ ok tt)
      × ((pgfuse_rename d
            (path_of from_names ++ b'/' ∷ from_name)
            (path_of to_names ++ b'/' ∷ to_name)
            env
            s).1.base
          ≡ moved r.id j to_name s.work)
      × Leads (moved r.id j to_name s.work) 0 s_ifdir (to_names ++ to_name ∷ []) r.id r.mode
      × (select_child from_name k (moved r.id j to_name s.work) ≡ [])
pgfuse_rename-Leads env answers d pool s from_names to_names from_name to_name k j from_parent
      to_parent r closed rw_mount from_named to_named from_place to_place entry checked free =
    let splits =
      Splits-path_of from_names from_name from_named.parts from_named.full from_named.plain in
    let leads =
      Leads-append s.work 0 s_ifdir k from_place.mode from_names from_name r from_place.leads
        from_place.is_dir entry.child in
    let found =
      psql_read_meta_from_path-Leads answers s.work (path_of from_names ++ b'/' ∷ from_name) r.id
        r.mode r entry.small entry.one (rw (sym splits.parts) at leads) in
    let done =
      pgfuse_rename-IsCommitted env answers d rw_mount s.work r entry.one checked to_names to_name j
        to_parent to_named to_place free pool _ s closed refl found in
    (
      done.returned,
      done.base,
      Leads-moved_row s.work r j to_name entry.one entry.file free to_names to_place.mode
          to_place.leads to_place.is_dir,
      old_name_free s.work r j to_name entry.one entry.file free k from_name entry.child,
    )
