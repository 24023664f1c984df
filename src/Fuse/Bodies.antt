-- ===== src/Fuse/Bodies.antt =====
-- What the bodies of the hooks keep: a property that the statements keep.
use pgfuse.Base.{ℕ, List}
use pgfuse.Wire.{Timespec}
use pgfuse.Session.{Ret, ok, err, fault, Session}
use pgfuse.Session.Keeps.{
  Keeps, Keeps-pure, Keeps-raise, Keeps-undefined, Keeps-bind, Keeps-gets, Keeps-attempt,
  keeps_rules, ReadsKeep, WritesKeep,
}
use pgfuse.Psql.Meta.{PgMeta}
use pgfuse.Psql.Uncommitted.{
  psql_read_meta-Keeps, psql_read_meta_from_path-Keeps, psql_readdir-Keeps, psql_read_buf-Keeps,
  psql_write_meta-Keeps, psql_create_file-Keeps, psql_create_dir-Keeps, psql_delete_file-Keeps,
  psql_delete_dir-Keeps, psql_write_buf-Keeps, psql_truncate-Keeps,
}
use pgfuse.Fuse.Context.{PgFuseData}
use pgfuse.Fuse.Attr.{
  fgetattr_body, getattr_body, readdir_body, refuse_read_only, chmod_body, chown_body, utimens_body,
}
use pgfuse.Fuse.Create.{
  expect_missing, parent_of, new_meta, created, freed_twice, copy_again, create_body, mkdir_body,
  symlink_body,
}
use pgfuse.Fuse.Remove.{rmdir_body, unlink_body}
use pgfuse.Fuse.FileIo.{
  open_body, expect_handle, write_body, read_body, truncate_body, ftruncate_body, readlink_body,
}

module _ {P : Session → Type 0} where
  pub refuse_read_only-Keeps : (d : PgFuseData) (n : ℕ) → Keeps P (refuse_read_only d n)
  unfolding refuse_read_only
  refuse_read_only-Keeps d n = search keeps_rules

  pub expect_handle-Keeps : (fh : ℕ) → Keeps P (expect_handle fh)
  unfolding expect_handle
  expect_handle-Keeps fh = search keeps_rules

  pub expect_missing-Keeps : (r : Ret (ℕ × PgMeta)) → Keeps P (expect_missing r)
  unfolding expect_missing
  expect_missing-Keeps (ok (id, meta)) = search keeps_rules
  expect_missing-Keeps (err n) = search keeps_rules
  expect_missing-Keeps fault = search keeps_rules

  pub created-Keeps : (r : Ret (ℕ × PgMeta)) → Keeps P (created r)
  unfolding created
  created-Keeps (ok (id, meta)) = search keeps_rules
  created-Keeps (err n) = search keeps_rules
  created-Keeps fault = search keeps_rules

  pub new_meta-Keeps : (size mode : ℕ) (m : PgMeta) → Keeps P (new_meta size mode m)
  unfolding new_meta
  new_meta-Keeps size mode m =
      Keeps-bind _ _ (Keeps-gets _) λ uid.
        Keeps-bind _ _ (Keeps-gets _) λ gid. Keeps-bind _ _ (Keeps-gets _) λ now. Keeps-pure _

pub ruleset body_rules = (
  keeps_rules, refuse_read_only-Keeps, expect_handle-Keeps, expect_missing-Keeps, created-Keeps,
  new_meta-Keeps,
)

module _ {P : Session → Type 0} (reads : ReadsKeep P) where
  pub fgetattr_body-Keeps : (d : PgFuseData) (fh : ℕ) → Keeps P (fgetattr_body d fh)
  unfolding fgetattr_body
  fgetattr_body-Keeps d fh = search (body_rules, psql_read_meta-Keeps reads)

  pub getattr_body-Keeps : (d : PgFuseData) (path : List ℕ) → Keeps P (getattr_body d path)
  unfolding getattr_body
  getattr_body-Keeps d path = search (body_rules, psql_read_meta_from_path-Keeps reads)

  pub readdir_body-Keeps : (path : List ℕ) → Keeps P (readdir_body path)
  unfolding readdir_body
  readdir_body-Keeps path =
      search (body_rules, psql_read_meta_from_path-Keeps reads, psql_readdir-Keeps reads)

  pub read_body-Keeps :
      (d : PgFuseData) (fh : ℕ) (buf : List ℕ) (size offset : ℕ)
      → Keeps P (read_body d fh buf size offset)
  unfolding read_body
  read_body-Keeps d fh buf size offset = search (body_rules, psql_read_buf-Keeps reads)

  pub readlink_body-Keeps :
      (d : PgFuseData) (path buf : List ℕ) (size : ℕ) → Keeps P (readlink_body d path buf size)
  unfolding readlink_body
  readlink_body-Keeps d path buf size =
      search (body_rules, psql_read_meta_from_path-Keeps reads, psql_read_buf-Keeps reads)

  pub parent_of-Keeps : (path : List ℕ) → Keeps P (parent_of path)
  unfolding parent_of
  parent_of-Keeps path =
      Keeps-bind _ _ reads.allocates λ _. search (body_rules, psql_read_meta_from_path-Keeps reads)

  freed_twice-Keeps : (copy : Ret (Unit {0})) → Keeps P (freed_twice copy)
  unfolding freed_twice
  freed_twice-Keeps (ok _) = Keeps-pure tt
  freed_twice-Keeps (err n) = Keeps-undefined
  freed_twice-Keeps fault = Keeps-undefined

  pub copy_again-Keeps : Keeps P copy_again
  unfolding copy_again
  copy_again-Keeps = Keeps-bind _ _ (Keeps-attempt _ reads.allocates) freed_twice-Keeps

module _ {P : Session → Type 0} (writes : WritesKeep P) where
  open writes use {reads}
  open reads use {allocates}

  look_up : (path : List ℕ) → Keeps P (pgfuse.Psql.Path.psql_read_meta_from_path path)
  look_up = psql_read_meta_from_path-Keeps reads

  pub chmod_body-Keeps :
      (d : PgFuseData) (path : List ℕ) (mode : ℕ) → Keeps P (chmod_body d path mode)
  unfolding chmod_body
  chmod_body-Keeps d path mode = search (body_rules, look_up, psql_write_meta-Keeps writes)

  pub chown_body-Keeps :
      (d : PgFuseData) (path : List ℕ) (uid gid : ℕ) → Keeps P (chown_body d path uid gid)
  unfolding chown_body
  chown_body-Keeps d path uid gid = search (body_rules, look_up, psql_write_meta-Keeps writes)

  pub utimens_body-Keeps :
      (path : List ℕ) (atime mtime : Timespec) → Keeps P (utimens_body path atime mtime)
  unfolding utimens_body
  utimens_body-Keeps path atime mtime = search (body_rules, look_up, psql_write_meta-Keeps writes)

  pub mkdir_body-Keeps :
      (d : PgFuseData) (path : List ℕ) (mode : ℕ) → Keeps P (mkdir_body d path mode)
  unfolding mkdir_body
  mkdir_body-Keeps d path mode = Keeps-bind _ _ (refuse_read_only-Keeps d _) λ _.
      Keeps-bind _ _ (parent_of-Keeps reads path) λ r.
        Keeps-bind _ _ (copy_again-Keeps reads)
          λ _. search (body_rules, psql_create_dir-Keeps writes)

  pub create_body-Keeps :
      (d : PgFuseData) (path : List ℕ) (mode : ℕ) → Keeps P (create_body d path mode)
  unfolding create_body
  create_body-Keeps d path mode = Keeps-bind _ _ (refuse_read_only-Keeps d _) λ _.
      Keeps-bind _ _ (Keeps-attempt _ (look_up path)) λ found.
        Keeps-bind _ _ (expect_missing-Keeps found) λ _.
          Keeps-bind _ _ (parent_of-Keeps reads path) λ r.
            Keeps-bind _ _ (copy_again-Keeps reads)
              λ _. search (body_rules, look_up, psql_create_file-Keeps writes) depth 8

  pub symlink_body-Keeps : (d : PgFuseData) (from to : List ℕ) → Keeps P (symlink_body d from to)
  unfolding symlink_body
  symlink_body-Keeps d from to = Keeps-bind _ _ (parent_of-Keeps reads to) λ r.
      Keeps-bind _ _ allocates λ _. Keeps-bind _ _ (refuse_read_only-Keeps d _) λ _.
        search (body_rules, look_up, psql_create_file-Keeps writes, psql_write_buf-Keeps writes)
          depth 8

  pub rmdir_body-Keeps : (d : PgFuseData) (path : List ℕ) → Keeps P (rmdir_body d path)
  unfolding rmdir_body
  rmdir_body-Keeps d path = search (body_rules, look_up, psql_delete_dir-Keeps writes) depth 8

  pub unlink_body-Keeps : (d : PgFuseData) (path : List ℕ) → Keeps P (unlink_body d path)
  unfolding unlink_body
  unlink_body-Keeps d path = search (body_rules, look_up, psql_delete_file-Keeps writes) depth 8

  pub open_body-Keeps :
      (d : PgFuseData) (path : List ℕ) (flags : ℕ) → Keeps P (open_body d path flags)
  unfolding open_body
  open_body-Keeps d path flags = search (body_rules, look_up, psql_write_meta-Keeps writes) depth 8

  pub write_body-Keeps :
      (d : PgFuseData) (fh : ℕ) (buf : List ℕ) (size offset : ℕ)
      → Keeps P (write_body d fh buf size offset)
  unfolding write_body
  write_body-Keeps d fh buf size offset =
      search
        (
          body_rules,
          psql_read_meta-Keeps reads,
          psql_write_buf-Keeps writes,
          psql_write_meta-Keeps writes,
        )
        depth 10

  pub truncate_body-Keeps :
      (d : PgFuseData) (path : List ℕ) (offset : ℕ) → Keeps P (truncate_body d path offset)
  unfolding truncate_body
  truncate_body-Keeps d path offset =
      search (body_rules, look_up, psql_truncate-Keeps writes, psql_write_meta-Keeps writes) depth
        10

  pub ftruncate_body-Keeps : (d : PgFuseData) (fh offset : ℕ) → Keeps P (ftruncate_body d fh offset)
  unfolding ftruncate_body
  ftruncate_body-Keeps d fh offset =
      search
        (
          body_rules,
          psql_read_meta-Keeps reads,
          psql_truncate-Keeps writes,
          psql_write_meta-Keeps writes,
        )
        depth 10
