-- ===== src/Fuse/Created.antt =====
-- pgfuse_create, pgfuse.c, lines 287-404: the new file when nothing outside of the program fails.
use pgfuse.Base.{ℕ, ◌+◌, ◌^◌, ◌<◌, ◌≡◌, ◌≢◌, refl, sym, true, false, some, List, [], ◌∷◌, ◌++◌}
use pgfuse.Db.{DirRow, Db, select_meta, insert_dir}
use pgfuse.Session.{ok, err, Env, idle, Session, enoent}
use pgfuse.Session.Keeps.{Keeps-pure, Keeps-gets, Keeps-attempt}
use pgfuse.Session.Runs.{
  Answers, Runs, Runs-pure, Runs-gets, Runs-bind, Runs-attempt, Runs-allocate, Runs-execute,
}
use pgfuse.Session.Numbered.{
  Numbers, AtNumber-ReadsKeep, execute-AtNumber, Runs-Numbers, Numbers-nextval, Numbers-bind,
  Runs-attempt-err,
}
use pgfuse.Psql.Meta.{PgMeta, s_isdir, to_meta, new_row, inserted, one_tuple, psql_create_file}
use pgfuse.Psql.Stored.{row_there}
use pgfuse.Psql.Inserted.{with_row, IsNew, insert_dir-with_row, select_meta-with_row, Leads-new}
use pgfuse.Psql.Path.{s_ifdir, psql_read_meta_from_path}
use pgfuse.Psql.Path.Parts.{NoSlash, AllNames, path_of}
use pgfuse.Psql.Path.Leads.{Leads, psql_read_meta_from_path-Leads, psql_read_meta_from_path_missing}
use pgfuse.Psql.Uncommitted.{psql_read_meta_from_path-Keeps}
use pgfuse.Fuse.Context.{PgFuseData, commit, dirname}
use pgfuse.Fuse.Attr.{refuse_read_only}
use pgfuse.Fuse.Create.{expect_missing, parent_of, created, create_body, pgfuse_create}
use pgfuse.Fuse.Bodies.{parent_of-Keeps, copy_again-Keeps, new_meta-Keeps}
use pgfuse.Fuse.Atomic.{PoolServes}
use pgfuse.Fuse.Committed.{IsCommitted, transact-Numbers}
use pgfuse.Fuse.Places.{Splits, file_of, IsPlace, Splits-path_of, copy_again-Runs, new_meta-Runs}

module _ (env : Env) (answers : Answers env) (d : Db) (path name : List ℕ) (names : List (List ℕ))
    (i k mode : ℕ) (parent : DirRow) (splits : Splits path names name)
    (leads : Leads d 0 s_ifdir names i k) (is_dir : s_isdir k ≡ true)
    (one : select_meta i d ≡ parent ∷ []) (parent_dir : s_isdir parent.mode ≡ true)
    (small : i < 2 ^ 31) where
  pub parent_of-Runs : Runs env (parent_of path) d (ok (i, to_meta env.order parent)) d
  unfolding parent_of to_meta
  parent_of-Runs = Runs-bind _ _ (Runs-allocate answers d) (
      Runs-bind _ _
        (psql_read_meta_from_path-Leads answers d (dirname path) i k parent small one
          (rw (sym splits.directory) at leads))
        (simp parent_dir (Runs-pure _ d)))

  module _ (n : ℕ) (fresh : IsNew d (file_of env n i name mode parent)) (n_small : n < 2 ^ 31) where
    abbrev new_file : DirRow
    new_file = file_of env n i name mode parent

    abbrev file_meta : PgMeta
    file_meta = record (to_meta env.order parent) {
      size = 0;
      mode = mode;
      uid = env.uid;
      gid = env.gid;
      ctime = env.now;
      mtime = env.now;
      atime = env.now;
    }

    inserts : inserted (insert_dir new_file d) ≡ some (1, with_row d new_file)
    unfolding new_row
    inserts = rw (insert_dir-with_row d new_file fresh (row_there i parent d one)) refl

    psql_create_file-Numbers :
        Numbers env (psql_create_file i name file_meta) d n (ok tt) (with_row d new_file) (n + 1)
    unfolding psql_create_file one_tuple
    psql_create_file-Numbers = Numbers-bind _ _ (Runs-Numbers _ n (Runs-gets _ d) (Keeps-gets _)) (
        Numbers-bind _ _ (Numbers-nextval d n) (
          Numbers-bind _ _
            (Runs-Numbers _ (n + 1) (Runs-execute answers _ d inserts) (execute-AtNumber _))
            (Runs-Numbers _ (n + 1) (Runs-pure tt _) (Keeps-pure tt))))

    found_again :
        Runs env
          (psql_read_meta_from_path path)
          (with_row d new_file)
          (ok (n, to_meta env.order new_file))
          (with_row d new_file)
    unfolding new_row
    found_again =
        psql_read_meta_from_path-Leads answers (with_row d new_file) path n mode new_file n_small
          (select_meta-with_row d new_file fresh)
          (rw (sym splits.parts) at (Leads-new d new_file fresh 0 s_ifdir k names leads is_dir))

    missing : Runs env (psql_read_meta_from_path path) d (err enoent) d
    unfolding new_row
    missing =
        psql_read_meta_from_path_missing answers d path name names i k splits.parts leads is_dir
          fresh.free_name

    pub create_body-Numbers :
        (data_of : PgFuseData)
        → data_of.read_only ≡ false
        → Numbers env
            (create_body data_of path mode)
            d
            n
            (ok (commit (some n)))
            (with_row d new_file)
            (n + 1)
    unfolding create_body refuse_read_only expect_missing created
    create_body-Numbers data_of rw_mount =
        let reads = AtNumber-ReadsKeep n in
        let reads' = AtNumber-ReadsKeep (n + 1) in
        simp rw_mount (
          Numbers-bind _ _ (Runs-Numbers _ n (Runs-pure tt d) (Keeps-pure tt)) (
            Numbers-bind _ _
              (Runs-Numbers _ n (Runs-attempt-err _ missing)
                (Keeps-attempt _ (psql_read_meta_from_path-Keeps reads path)))
              (Numbers-bind _ _ (Runs-Numbers _ n (Runs-pure tt d) (Keeps-pure tt)) (
                Numbers-bind _ _ (Runs-Numbers _ n parent_of-Runs (parent_of-Keeps reads path)) (
                  Numbers-bind _ _
                    (Runs-Numbers _ n (copy_again-Runs env answers d) (copy_again-Keeps reads))
                    (Numbers-bind _ _
                      (Runs-Numbers _ n (new_meta-Runs env answers d 0 mode _)
                        (new_meta-Keeps 0 mode _))
                      (simp splits.last (
                        Numbers-bind _ _ psql_create_file-Numbers (
                          Numbers-bind _ _
                            (Runs-Numbers _ (n + 1) (Runs-attempt _ found_again)
                              (Keeps-attempt _ (psql_read_meta_from_path-Keeps reads' path)))
                            (Runs-Numbers _ (n + 1) (Runs-pure _ _) (Keeps-pure _)))))))))))

module _ (env : Env) (answers : Answers env) (d : PgFuseData) (pool : PoolServes env)
    (names : List (List ℕ)) (name : List ℕ) (mode i : ℕ) (parent : DirRow) where
  pub pgfuse_create-IsCommitted :
      (s : Session)
      → s.tx ≡ idle
      → d.read_only ≡ false
      → AllNames names
      → name ≢ []
      → NoSlash name
      → IsPlace s.work names i parent
      → IsNew s.work (file_of env s.serial i name mode parent)
      → s.serial < 2 ^ 31
      → IsCommitted
          (some s.serial)
          (with_row s.work (file_of env s.serial i name mode parent))
          (pgfuse_create d (path_of names ++ b'/' ∷ name) mode env s)
  unfolding pgfuse_create
  pgfuse_create-IsCommitted s t rw_mount h full plain place fresh small =
      let path = path_of names ++ b'/' ∷ name in
      let row = file_of env s.serial i name mode parent in
      transact-Numbers env answers d pool (create_body d path mode) (some s.serial) s
        (with_row s.work row) t
        (create_body-Numbers env answers s.work path name names i place.mode mode parent
          (Splits-path_of names name h full plain) place.leads place.is_dir place.one
          place.parent_dir place.small s.serial fresh small d rw_mount)
