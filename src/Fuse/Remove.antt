-- ===== src/Fuse/Remove.antt =====
-- pgfuse.c, lines 598-690: rmdir and unlink.
use pgfuse.Base.{ℕ, List, if◌then◌else◌}
use pgfuse.Session.{M, pure, raise, ◌>>=◌, ◌>>◌, enotdir, eperm, erofs}
use pgfuse.Psql.Meta.{s_isdir, psql_delete_dir, psql_delete_file}
use pgfuse.Psql.Path.{psql_read_meta_from_path}
use pgfuse.Fuse.Context.{PgFuseData, Ending, transact, commits}
use pgfuse.Fuse.Attr.{refuse_read_only}

unfoldable pub rmdir_body : PgFuseData → List ℕ → M (Ending (Unit {0}))
rmdir_body d path = do
  (id, meta) ← psql_read_meta_from_path path
  if s_isdir meta.mode then pure tt else raise enotdir
  refuse_read_only d erofs
  psql_delete_dir id
  commits tt

unfoldable pub pgfuse_rmdir : PgFuseData → List ℕ → M (Unit {0})
pgfuse_rmdir d path = transact d (rmdir_body d path)

unfoldable pub unlink_body : PgFuseData → List ℕ → M (Ending (Unit {0}))
unlink_body d path = do
  (id, meta) ← psql_read_meta_from_path path
  if s_isdir meta.mode then raise eperm else pure tt
  refuse_read_only d erofs
  psql_delete_file id
  commits tt

unfoldable pub pgfuse_unlink : PgFuseData → List ℕ → M (Unit {0})
pgfuse_unlink d path = transact d (unlink_body d path)
