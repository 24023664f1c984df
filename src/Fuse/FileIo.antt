-- ===== src/Fuse/FileIo.antt =====
-- pgfuse.c, lines 407-459, 692-936 and 1383-1425: open, read, write, truncate and readlink.
use pgfuse.Base.{ℕ, ◌+◌, ◌%◌, ◌^◌, not, ◌&&◌, List, ◌==◌, ltb, if◌then◌else◌, set}
use pgfuse.Session.{M, pure, raise, ◌>>=◌, ◌>>◌, eisdir, erofs, ebadf, eio, enoent, enomem}
use pgfuse.Psql.Meta.{PgMeta, s_isdir, s_islnk, psql_read_meta, psql_write_meta}
use pgfuse.Psql.Path.{psql_read_meta_from_path}
use pgfuse.Psql.Data.{psql_read_buf, psql_write_buf, psql_truncate}
use pgfuse.Fuse.Context.{PgFuseData, Ending, transact, commits}
use pgfuse.Fuse.Attr.{refuse_read_only}

-- `( fi->flags & O_ACCMODE ) != O_RDONLY`, with O_ACCMODE 3 and O_RDONLY 0.
unfoldable pub open_body : PgFuseData → List ℕ → ℕ → M (Ending ℕ)
open_body d path flags = do
  (id, meta) ← psql_read_meta_from_path path
  if s_isdir meta.mode then raise eisdir else pure tt
  if d.read_only && not (flags % 4 == 0) then raise erofs else pure tt
  psql_write_meta id meta
  commits id

-- The result is `fi->fh`.
unfoldable pub pgfuse_open : PgFuseData → List ℕ → ℕ → M ℕ
pgfuse_open d path flags = transact d (open_body d path flags)

unfoldable pub expect_handle : ℕ → M (Unit {0})
expect_handle fh = if fh == 0 then raise ebadf else pure tt

unfoldable pub pgfuse_fsync : PgFuseData → ℕ → M (Unit {0})
pgfuse_fsync d fh = do refuse_read_only d erofs; expect_handle fh

-- `if( offset + size > meta.size ) meta.size = offset + size;`
abbrev pub grown : PgMeta → ℕ → PgMeta
grown meta end = if ltb meta.size end then record meta { size = end } else meta

unfoldable pub write_body : PgFuseData → ℕ → List ℕ → ℕ → ℕ → M (Ending ℕ)
write_body d fh buf size offset = do
  expect_handle fh
  refuse_read_only d ebadf
  meta ← psql_read_meta fh
  res ← psql_write_buf d.block_size fh buf offset size
  if res == size then pure tt else raise eio
  psql_write_meta fh (grown meta ((offset + size) % 2 ^ 64))
  commits size

unfoldable pub pgfuse_write : PgFuseData → ℕ → List ℕ → ℕ → ℕ → M ℕ
pgfuse_write d fh buf size offset = transact d (write_body d fh buf size offset)

unfoldable pub read_body : PgFuseData → ℕ → List ℕ → ℕ → ℕ → M (Ending (ℕ × List ℕ))
read_body d fh buf size offset = do
  expect_handle fh
  (res, buf') ← psql_read_buf d.block_size fh buf offset size
  commits (res, buf')

-- The number of bytes read, and the buffer.
unfoldable pub pgfuse_read : PgFuseData → ℕ → List ℕ → ℕ → ℕ → M (ℕ × List ℕ)
pgfuse_read d fh buf size offset = transact d (read_body d fh buf size offset)

unfoldable pub truncate_body : PgFuseData → List ℕ → ℕ → M (Ending (Unit {0}))
truncate_body d path offset = do
  (id, meta) ← psql_read_meta_from_path path
  if s_isdir meta.mode then raise eisdir else pure tt
  refuse_read_only d erofs
  psql_truncate d.block_size id offset
  psql_write_meta id (record meta { size = offset })
  commits tt

unfoldable pub pgfuse_truncate : PgFuseData → List ℕ → ℕ → M (Unit {0})
pgfuse_truncate d path offset = transact d (truncate_body d path offset)

unfoldable pub ftruncate_body : PgFuseData → ℕ → ℕ → M (Ending (Unit {0}))
ftruncate_body d fh offset = do
  expect_handle fh
  meta ← psql_read_meta fh
  refuse_read_only d erofs
  psql_truncate d.block_size fh offset
  psql_write_meta fh (record meta { size = offset })
  commits tt

unfoldable pub pgfuse_ftruncate : PgFuseData → ℕ → ℕ → M (Unit {0})
pgfuse_ftruncate d fh offset = transact d (ftruncate_body d fh offset)

-- `buf[meta.size] = '\0'`.
unfoldable pub readlink_body : PgFuseData → List ℕ → List ℕ → ℕ → M (Ending (List ℕ))
readlink_body d path buf size = do
  (id, meta) ← psql_read_meta_from_path path
  if s_islnk meta.mode then pure tt else raise enoent
  if ltb size ((meta.size + 1) % 2 ^ 64) then raise enomem else pure tt
  (_, buf') ← psql_read_buf d.block_size id buf 0 meta.size
  commits (set buf' meta.size 0)

-- The buffer.
unfoldable pub pgfuse_readlink : PgFuseData → List ℕ → List ℕ → ℕ → M (List ℕ)
pgfuse_readlink d path buf size = transact d (readlink_body d path buf size)
