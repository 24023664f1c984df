-- ===== src/Fuse/Oper.antt =====
-- pgfuse.c, lines 1465-1506: the table of hooks, as one function on calls of the file system. The
-- hooks that the table leaves out have no call here; `init` and `destroy` are in Fuse/Mount.
use pgfuse.Base.{ℕ, List, Bool, true, false}
use pgfuse.Wire.{Timespec}
use pgfuse.Session.{M, pure, ◌>>=◌}
use pgfuse.Fuse.Context.{PgFuseData}
use pgfuse.Fuse.Attr.{
  pgfuse_fgetattr, pgfuse_getattr, pgfuse_access, pgfuse_readdir, pgfuse_chmod, pgfuse_chown,
  pgfuse_utimens,
}
use pgfuse.Fuse.Create.{pgfuse_create, pgfuse_mkdir, pgfuse_symlink}
use pgfuse.Fuse.Remove.{pgfuse_rmdir, pgfuse_unlink}
use pgfuse.Fuse.FileIo.{
  pgfuse_open, pgfuse_fsync, pgfuse_write, pgfuse_read, pgfuse_truncate, pgfuse_ftruncate,
  pgfuse_readlink,
}
use pgfuse.Fuse.Rename.{pgfuse_rename}
use pgfuse.Fuse.Statfs.{Machine, pgfuse_statfs}
use pgfuse.Fuse.Nothing.{
  pgfuse_opendir, pgfuse_releasedir, pgfuse_fsyncdir, pgfuse_flush, pgfuse_release,
}
use pgfuse.Psql.Tablespace.{Catalog}

-- A call of statfs comes with what the catalogs of the server and the machine answer.
pub data Call : Type 0 where
  getattr : (path : List ℕ) → Call
  readlink : (path buf : List ℕ) (size : ℕ) → Call
  mkdir : (path : List ℕ) (mode : ℕ) → Call
  unlink : (path : List ℕ) → Call
  rmdir : (path : List ℕ) → Call
  symlink : (from to : List ℕ) → Call
  rename : (from to : List ℕ) → Call
  chmod : (path : List ℕ) (mode : ℕ) → Call
  chown : (path : List ℕ) (uid gid : ℕ) → Call
  open_file : (path : List ℕ) (flags : ℕ) → Call
  read : (fh : ℕ) (buf : List ℕ) (size offset : ℕ) → Call
  write : (fh : ℕ) (buf : List ℕ) (size offset : ℕ) → Call
  fsync : (fh : ℕ) → Call
  readdir : (path : List ℕ) → Call
  access : (path : List ℕ) (mode : ℕ) → Call
  create : (path : List ℕ) (mode : ℕ) → Call
  truncate : (path : List ℕ) (offset : ℕ) → Call
  ftruncate : (fh offset : ℕ) → Call
  fgetattr : (fh : ℕ) → Call
  utimens : (path : List ℕ) (atime mtime : Timespec) → Call
  statfs : (catalog : Catalog) (machine : Machine) → Call
  opendir : (path : List ℕ) → Call
  releasedir : (path : List ℕ) → Call
  fsyncdir : (path : List ℕ) → Call
  flush : (path : List ℕ) → Call
  release : (path : List ℕ) → Call

-- The hook without what it hands back beside the return code.
unfoldable pub discard : {A : Type 0} → M A → M (Unit {0})
discard m = m >>= λ _. pure tt

unfoldable pub perform : PgFuseData → Call → M (Unit {0})
perform d (Call.getattr path) = discard (pgfuse_getattr d path)
perform d (Call.readlink path buf size) = discard (pgfuse_readlink d path buf size)
perform d (Call.mkdir path mode) = pgfuse_mkdir d path mode
perform d (Call.unlink path) = pgfuse_unlink d path
perform d (Call.rmdir path) = pgfuse_rmdir d path
perform d (Call.symlink from to) = pgfuse_symlink d from to
perform d (Call.rename from to) = pgfuse_rename d from to
perform d (Call.chmod path mode) = pgfuse_chmod d path mode
perform d (Call.chown path uid gid) = pgfuse_chown d path uid gid
perform d (Call.open_file path flags) = discard (pgfuse_open d path flags)
perform d (Call.read fh buf size offset) = discard (pgfuse_read d fh buf size offset)
perform d (Call.write fh buf size offset) = discard (pgfuse_write d fh buf size offset)
perform d (Call.fsync fh) = pgfuse_fsync d fh
perform d (Call.readdir path) = discard (pgfuse_readdir d path)
perform d (Call.access path mode) = pgfuse_access path mode
perform d (Call.create path mode) = discard (pgfuse_create d path mode)
perform d (Call.truncate path offset) = pgfuse_truncate d path offset
perform d (Call.ftruncate fh offset) = pgfuse_ftruncate d fh offset
perform d (Call.fgetattr fh) = discard (pgfuse_fgetattr d fh)
perform d (Call.utimens path atime mtime) = pgfuse_utimens d path atime mtime
perform d (Call.statfs catalog machine) = discard (pgfuse_statfs d catalog machine)
perform d (Call.opendir path) = pgfuse_opendir path
perform d (Call.releasedir path) = pgfuse_releasedir path
perform d (Call.fsyncdir path) = pgfuse_fsyncdir path
perform d (Call.flush path) = pgfuse_flush path
perform d (Call.release path) = pgfuse_release path

abbrev pub is_rename : Call → Bool
is_rename (Call.rename from to) = true
is_rename _ = false

-- The calls that a read-only mount still turns into an UPDATE of `dir`.
abbrev pub still_updates : Call → Bool
still_updates (Call.open_file path flags) = true
still_updates (Call.utimens path atime mtime) = true
still_updates _ = false
