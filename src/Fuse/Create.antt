-- ===== src/Fuse/Create.antt =====
-- pgfuse.c, lines 287-404, 516-596 and 1182-1283: new files, directories and symbolic links.
use pgfuse.Base.{ℕ, Option, none, some, List, ◌==◌, if◌then◌else◌, length}
use pgfuse.Session.{
  Ret, ok, err, fault, M, pure, raise, undefined, gets, ◌>>=◌, ◌>>◌, attempt, allocate, enoent, eio,
  eisdir, eexist, erofs,
}
use pgfuse.Psql.Meta.{PgMeta, s_isdir, with_ifdir, psql_create_file, psql_create_dir}
use pgfuse.Psql.Path.{psql_read_meta_from_path}
use pgfuse.Psql.Data.{psql_write_buf}
use pgfuse.Fuse.Context.{PgFuseData, Ending, rollback, transact, commits, dirname, basename}
use pgfuse.Fuse.Attr.{refuse_read_only}

-- `id < 0 && id != -ENOENT` is handed on, a directory is EISDIR, any other entry EEXIST.
unfoldable pub expect_missing : Ret (ℕ × PgMeta) → M (Unit {0})
expect_missing (ok (id, meta)) = if s_isdir meta.mode then raise eisdir else raise eexist
expect_missing (err n) = if n == enoent then pure tt else raise n
expect_missing fault = undefined

-- The id of `dirname( path )`, which must be a directory.
unfoldable pub parent_of : List ℕ → M (ℕ × PgMeta)
parent_of path = do
  allocate
  (id, meta) ← psql_read_meta_from_path (dirname path)
  if s_isdir meta.mode then pure (id, meta) else raise enoent

-- The metadata of a new entry: the caller's ids and one time for all three.
unfoldable pub new_meta : ℕ → ℕ → PgMeta → M PgMeta
new_meta size mode meta = do
  uid ← gets (λ env. env.uid)
  gid ← gets (λ env. env.gid)
  now ← gets (λ env. env.now)
  pure (record meta {
    size = size;
    mode = mode;
    uid = uid;
    gid = gid;
    ctime = now;
    mtime = now;
    atime = now;
  })

-- `if( id < 0 ) { ...; PSQL_ROLLBACK( conn ); RELEASE( conn ); return res; }`, where `res` is the
-- result of psql_create_file, 0. The handle is `fi->fh`, `none` if it is not set.
unfoldable pub created : Ret (ℕ × PgMeta) → M (Ending (Option ℕ))
created (ok (id, meta)) = commits (some id)
created (err n) = pure (rollback none)
created fault = undefined

-- The second strdup of create and mkdir. If it gives NULL, `free( parent_path )` frees what
-- `free( copy_path )` has freed before.
unfoldable pub freed_twice : Ret (Unit {0}) → M (Unit {0})
freed_twice (ok _) = pure tt
freed_twice (err n) = undefined
freed_twice fault = undefined

unfoldable pub copy_again : M (Unit {0})
copy_again = do copy ← attempt allocate; freed_twice copy

unfoldable pub create_body : PgFuseData → List ℕ → ℕ → M (Ending (Option ℕ))
create_body d path mode = do
  refuse_read_only d erofs
  found ← attempt (psql_read_meta_from_path path)
  expect_missing found
  (parent_id, parent_meta) ← parent_of path
  copy_again
  meta ← new_meta 0 mode parent_meta
  psql_create_file parent_id (basename path) meta
  again ← attempt (psql_read_meta_from_path path)
  created again

unfoldable pub pgfuse_create : PgFuseData → List ℕ → ℕ → M (Option ℕ)
pgfuse_create d path mode = transact d (create_body d path mode)

unfoldable pub mkdir_body : PgFuseData → List ℕ → ℕ → M (Ending (Unit {0}))
mkdir_body d path mode = do
  refuse_read_only d erofs
  (parent_id, parent_meta) ← parent_of path
  copy_again
  meta ← new_meta 0 (with_ifdir mode) parent_meta
  psql_create_dir parent_id (basename path) meta
  commits tt

unfoldable pub pgfuse_mkdir : PgFuseData → List ℕ → ℕ → M (Unit {0})
pgfuse_mkdir d path mode = transact d (mkdir_body d path mode)

-- `0777 | S_IFLNK`.
abbrev pub link_mode : ℕ
link_mode = 41471

unfoldable pub symlink_body : PgFuseData → List ℕ → List ℕ → M (Ending (Unit {0}))
symlink_body d from to = do
  (parent_id, parent_meta) ← parent_of to
  allocate
  refuse_read_only d erofs
  meta ← new_meta (length from) link_mode parent_meta
  psql_create_file parent_id (basename to) meta
  (id, _) ← psql_read_meta_from_path to
  res ← psql_write_buf d.block_size id from 0 (length from)
  if res == length from then commits tt else raise eio

unfoldable pub pgfuse_symlink : PgFuseData → List ℕ → List ℕ → M (Unit {0})
pgfuse_symlink d from to = transact d (symlink_body d from to)
