-- ===== src/Fuse/ReadOnly.antt =====
-- The option `ro`: what a mount that is read-only may still change.
use pgfuse.Base.{◌≡◌, refl, true, false}
use pgfuse.Db.{Db}
use pgfuse.Session.{Env, Session, M, pure}
use pgfuse.Session.Keeps.{Keeps, Keeps-pure, Keeps-bind, IsClean, IsClean-ReadsKeep, ReadsKeep}
use pgfuse.Fuse.Oper.{Call, discard, perform, still_updates}
use pgfuse.Fuse.Bodies.{
  fgetattr_body-Keeps, getattr_body-Keeps, readdir_body-Keeps, read_body-Keeps, readlink_body-Keeps,
}
use pgfuse.Fuse.Attr.{
  pgfuse_fgetattr, pgfuse_getattr, pgfuse_access, pgfuse_readdir, pgfuse_chmod, pgfuse_chown,
}
use pgfuse.Fuse.Create.{pgfuse_create, pgfuse_mkdir, pgfuse_symlink}
use pgfuse.Fuse.Remove.{pgfuse_rmdir, pgfuse_unlink}
use pgfuse.Fuse.FileIo.{
  pgfuse_write, pgfuse_read, pgfuse_truncate, pgfuse_ftruncate, pgfuse_readlink,
}
use pgfuse.Fuse.Statfs.{pgfuse_statfs}
use pgfuse.Fuse.Statfs.Keeping.{find_space-Keeps, statfs_body-Keeps}
use pgfuse.Fuse.Nothing.{
  pgfuse_opendir, pgfuse_releasedir, pgfuse_fsyncdir, pgfuse_flush, pgfuse_release,
}
use pgfuse.Fuse.Context.{PgFuseData, Ending, transact}
use pgfuse.Fuse.Clean.{
  transact-IsClean, discard-IsClean, acquire-IsClean, begin-IsClean, closing-IsClean,
}
use pgfuse.Fuse.Refused.{
  chmod_refused, chown_refused, mkdir_refused, create_refused, symlink_refused, rmdir_refused,
  unlink_refused, write_refused, truncate_refused, ftruncate_refused, fsync_refused, rename_refused,
}

module _ {base : Db} (d : PgFuseData) (ro : d.read_only ≡ true) where
  abbrev reads : ReadsKeep (IsClean base)
  reads = IsClean-ReadsKeep base

  pure_clean : {A : Type 0} (a : A) → Keeps (IsClean base) (pure a)
  pure_clean = Keeps-pure

  hook :
      {A : Type 0} (body : M (Ending A))
      → Keeps (IsClean base) body
      → Keeps (IsClean base) (transact d body)
  hook = transact-IsClean d

  value :
      {A : Type 0} (body : M (Ending A))
      → Keeps (IsClean base) body
      → Keeps (IsClean base) (discard (transact d body))
  value body keeps = discard-IsClean _ (hook body keeps)

  perform_refused : (c : Call) → still_updates c ≡ false → Keeps (IsClean base) (perform d c)
  unfolding perform
  perform_refused (Call.getattr path) n =
      unfold pgfuse_getattr in value _ (getattr_body-Keeps reads d path)
  perform_refused (Call.readlink path buf size) n =
      unfold pgfuse_readlink in value _ (readlink_body-Keeps reads d path buf size)
  perform_refused (Call.mkdir path mode) n =
      unfold pgfuse_mkdir in hook _ (mkdir_refused d ro path mode)
  perform_refused (Call.unlink path) n = unfold pgfuse_unlink in hook _ (unlink_refused d ro path)
  perform_refused (Call.rmdir path) n = unfold pgfuse_rmdir in hook _ (rmdir_refused d ro path)
  perform_refused (Call.symlink from to) n =
      unfold pgfuse_symlink in hook _ (symlink_refused d ro from to)
  perform_refused (Call.rename from to) n = rename_refused d ro from to
  perform_refused (Call.chmod path mode) n =
      unfold pgfuse_chmod in hook _ (chmod_refused d ro path mode)
  perform_refused (Call.chown path uid gid) n =
      unfold pgfuse_chown in hook _ (chown_refused d ro path uid gid)
  perform_refused (Call.open_file path flags) n = cc
  perform_refused (Call.read fh buf size offset) n =
      unfold pgfuse_read in value _ (read_body-Keeps reads d fh buf size offset)
  perform_refused (Call.write fh buf size offset) n =
      unfold pgfuse_write in value _ (write_refused d ro fh buf size offset)
  perform_refused (Call.fsync fh) n = fsync_refused d ro fh
  perform_refused (Call.readdir path) n =
      unfold pgfuse_readdir in value _ (readdir_body-Keeps reads path)
  perform_refused (Call.access path mode) n = unfold pgfuse_access in pure_clean tt
  perform_refused (Call.create path mode) n =
      unfold pgfuse_create in value _ (create_refused d ro path mode)
  perform_refused (Call.truncate path offset) n =
      unfold pgfuse_truncate in hook _ (truncate_refused d ro path offset)
  perform_refused (Call.ftruncate fh offset) n =
      unfold pgfuse_ftruncate in hook _ (ftruncate_refused d ro fh offset)
  perform_refused (Call.fgetattr fh) n =
      unfold pgfuse_fgetattr in value _ (fgetattr_body-Keeps reads d fh)
  perform_refused (Call.utimens path atime mtime) n = cc
  perform_refused (Call.statfs catalog machine) n =
      unfold pgfuse_statfs in
      discard-IsClean _ (
        Keeps-bind _ _ (acquire-IsClean d) λ _. Keeps-bind _ _ begin-IsClean λ _.
          Keeps-bind _ _ (find_space-Keeps reads d catalog machine)
            λ space. closing-IsClean d _ (statfs_body-Keeps reads d space))
  perform_refused (Call.opendir path) n = unfold pgfuse_opendir in pure_clean tt
  perform_refused (Call.releasedir path) n = unfold pgfuse_releasedir in pure_clean tt
  perform_refused (Call.fsyncdir path) n = unfold pgfuse_fsyncdir in pure_clean tt
  perform_refused (Call.flush path) n = unfold pgfuse_flush in pure_clean tt
  perform_refused (Call.release path) n = unfold pgfuse_release in pure_clean tt

-- On a mount with `ro`, no call but open and utimens changes a committed row, whatever it returns
-- and whatever fails on the way, if it starts with a session that has nothing uncommitted.
pub perform_read_only :
    (d : PgFuseData) (c : Call) (env : Env) (s : Session)
    → d.read_only ≡ true
    → still_updates c ≡ false
    → s.work ≡ s.base
    → (perform d c env s).1.base ≡ s.base
perform_read_only d c env s ro n clean =
    ((perform_refused d ro c n).at env s (record { same_base = refl; same_work = clean })).same_base
