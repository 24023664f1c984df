-- ===== src/Fuse/Refused.antt =====
-- pgfuse.c: the bodies of the hooks on a mount with `ro`, up to the test that refuses them.
use pgfuse.Base.{ℕ, ◌≡◌, true, List}
use pgfuse.Db.{Db}
use pgfuse.Session.{Ret, ok, err, fault, M, raise, ◌>>=◌}
use pgfuse.Session.Keeps.{
  Keeps, Keeps-bind, Keeps-attempt, keeps_rules, IsClean, IsClean-ReadsKeep, ReadsKeep,
}
use pgfuse.Psql.Meta.{PgMeta}
use pgfuse.Psql.Uncommitted.{psql_read_meta-Keeps, psql_read_meta_from_path-Keeps}
use pgfuse.Fuse.Bodies.{parent_of-Keeps, body_rules, expect_handle-Keeps}
use pgfuse.Fuse.Attr.{refuse_read_only, chmod_body, chown_body}
use pgfuse.Fuse.Create.{create_body, mkdir_body, symlink_body}
use pgfuse.Fuse.Remove.{rmdir_body, unlink_body}
use pgfuse.Fuse.FileIo.{pgfuse_fsync, write_body, truncate_body, ftruncate_body}
use pgfuse.Fuse.Rename.{pgfuse_rename, rename_found, rename_on, rename_body}
use pgfuse.Fuse.Context.{PgFuseData}
use pgfuse.Fuse.Clean.{begin-IsClean, acquire-IsClean, closing-IsClean, give_back-IsClean}

module _ {base : Db} (d : PgFuseData) (ro : d.read_only ≡ true) where
  abbrev reads : ReadsKeep (IsClean base)
  reads = IsClean-ReadsKeep base

  refused :
      {A : Type 0} (n : ℕ) (f : Unit {0} → M A) → Keeps (IsClean base) (refuse_read_only d n >>= f)
  unfolding refuse_read_only ◌>>=◌ raise
  refused n f = record { at = λ env s h. rw ro h }

  pub look_up :
      (path : List ℕ) → Keeps (IsClean base) (pgfuse.Psql.Path.psql_read_meta_from_path path)
  look_up = psql_read_meta_from_path-Keeps reads

  ruleset refusals = (body_rules, refused)

  pub chmod_refused : (path : List ℕ) (mode : ℕ) → Keeps (IsClean base) (chmod_body d path mode)
  unfolding chmod_body
  chmod_refused path mode = Keeps-bind _ _ (look_up path) λ r. refused _ _

  pub chown_refused :
      (path : List ℕ) (uid gid : ℕ) → Keeps (IsClean base) (chown_body d path uid gid)
  unfolding chown_body
  chown_refused path uid gid = Keeps-bind _ _ (look_up path) λ r. refused _ _

  pub mkdir_refused : (path : List ℕ) (mode : ℕ) → Keeps (IsClean base) (mkdir_body d path mode)
  unfolding mkdir_body
  mkdir_refused path mode = refused _ _

  pub create_refused : (path : List ℕ) (mode : ℕ) → Keeps (IsClean base) (create_body d path mode)
  unfolding create_body
  create_refused path mode = refused _ _

  pub symlink_refused : (from to : List ℕ) → Keeps (IsClean base) (symlink_body d from to)
  unfolding symlink_body
  symlink_refused from to =
      Keeps-bind _ _ (parent_of-Keeps reads to) λ r. Keeps-bind _ _ reads.allocates λ _. refused _ _

  pub rmdir_refused : (path : List ℕ) → Keeps (IsClean base) (rmdir_body d path)
  unfolding rmdir_body
  rmdir_refused path =
      Keeps-bind _ _ (look_up path) λ r. Keeps-bind _ _ (search keeps_rules) λ _. refused _ _

  pub unlink_refused : (path : List ℕ) → Keeps (IsClean base) (unlink_body d path)
  unfolding unlink_body
  unlink_refused path =
      Keeps-bind _ _ (look_up path) λ r. Keeps-bind _ _ (search keeps_rules) λ _. refused _ _

  pub write_refused :
      (fh : ℕ) (buf : List ℕ) (size offset : ℕ)
      → Keeps (IsClean base) (write_body d fh buf size offset)
  unfolding write_body
  write_refused fh buf size offset = Keeps-bind _ _ (expect_handle-Keeps fh) λ _. refused _ _

  pub truncate_refused :
      (path : List ℕ) (offset : ℕ) → Keeps (IsClean base) (truncate_body d path offset)
  unfolding truncate_body
  truncate_refused path offset =
      Keeps-bind _ _ (look_up path) λ r. Keeps-bind _ _ (search keeps_rules) λ _. refused _ _

  pub ftruncate_refused : (fh offset : ℕ) → Keeps (IsClean base) (ftruncate_body d fh offset)
  unfolding ftruncate_body
  ftruncate_refused fh offset =
      Keeps-bind _ _ (expect_handle-Keeps fh)
        λ _. Keeps-bind _ _ (psql_read_meta-Keeps reads fh) λ m. refused _ _

  pub fsync_refused : (fh : ℕ) → Keeps (IsClean base) (pgfuse_fsync d fh)
  unfolding pgfuse_fsync
  fsync_refused fh = refused _ _

  pub rename_body_refused :
      (from_id : ℕ) (m : PgMeta) (to : List ℕ) → Keeps (IsClean base) (rename_body d from_id m to)
  unfolding rename_body
  rename_body_refused from_id m to = Keeps-bind _ _ reads.allocates λ _.
      Keeps-bind _ _ (look_up _) λ r.
        Keeps-bind _ _ (search keeps_rules) λ _. Keeps-bind _ _ reads.allocates λ _. refused _ _

  pub rename_on_refused :
      (from_id : ℕ) (m : PgMeta) (to : List ℕ) → Keeps (IsClean base) (rename_on d from_id m to)
  unfolding rename_on
  rename_on_refused from_id m to =
      Keeps-bind _ _ (closing-IsClean d _ (rename_body_refused from_id m to))
        λ r. give_back-IsClean r

  pub rename_found_refused :
      (from_id : ℕ) (m : PgMeta) (from to : List ℕ) (r : Ret (ℕ × PgMeta))
      → Keeps (IsClean base) (rename_found d from_id m from to r)
  unfolding rename_found
  rename_found_refused from_id m from to (ok (id, n)) = search (keeps_rules, rename_on_refused)
  rename_found_refused from_id m from to (err n) = search (keeps_rules, rename_on_refused)
  rename_found_refused from_id m from to fault = search keeps_rules

  pub rename_refused : (from to : List ℕ) → Keeps (IsClean base) (pgfuse_rename d from to)
  unfolding pgfuse_rename
  rename_refused from to = Keeps-bind _ _ (acquire-IsClean d) λ _. Keeps-bind _ _ begin-IsClean λ _.
      Keeps-bind _ _ (look_up from) λ r.
        Keeps-bind _ _ (Keeps-attempt _ (look_up to)) λ found. rename_found_refused _ _ _ _ found
