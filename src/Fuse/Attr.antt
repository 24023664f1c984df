-- ===== src/Fuse/Attr.antt =====
-- pgfuse.c, lines 157-263, 461-514, 1099-1180 and 1427-1462: attributes and directory listings.
use pgfuse.Base.{ℕ, ◌+◌, ◌-◌, ◌/◌, ◌%◌, ◌^◌, List, [], ◌∷◌, if◌then◌else◌}
use pgfuse.Wire.{Timespec}
use pgfuse.Session.{M, pure, raise, ◌>>=◌, ◌>>◌, erofs}
use pgfuse.Psql.Meta.{PgMeta, psql_read_meta, psql_write_meta, psql_readdir}
use pgfuse.Psql.Path.{psql_read_meta_from_path}
use pgfuse.Fuse.Context.{PgFuseData, Ending, transact, commits}

-- The fields of struct stat that are set.
pub record Stat : Type 0 where
  pub st_ino : ℕ
  pub st_mode : ℕ
  pub st_size : ℕ
  pub st_blksize : ℕ
  pub st_blocks : ℕ
  pub st_nlink : ℕ
  pub st_uid : ℕ
  pub st_gid : ℕ
  pub st_atime : ℕ
  pub st_mtime : ℕ
  pub st_ctime : ℕ

-- `memset( stbuf, 0, ... )` and the assignments that pgfuse_fgetattr makes.
unfoldable pub fill_fstat : PgFuseData → ℕ → PgMeta → Stat
fill_fstat d id meta = record {
  st_ino = id;
  st_mode = meta.mode;
  st_size = meta.size;
  st_blksize = d.block_size;
  st_blocks = (meta.size + d.block_size + 2 ^ 64 - 1) % 2 ^ 64 / d.block_size;
  st_nlink = 1;
  st_uid = meta.uid;
  st_gid = meta.gid;
  st_atime = 0;
  st_mtime = 0;
  st_ctime = 0;
}

-- pgfuse_getattr sets the times too.
unfoldable pub fill_stat : PgFuseData → ℕ → PgMeta → Stat
fill_stat d id meta = record (fill_fstat d id meta) {
  st_atime = meta.atime.tv_sec;
  st_mtime = meta.mtime.tv_sec;
  st_ctime = meta.ctime.tv_sec;
}

unfoldable pub fgetattr_body : PgFuseData → ℕ → M (Ending Stat)
fgetattr_body d fh = do meta ← psql_read_meta fh; commits (fill_fstat d fh meta)

unfoldable pub pgfuse_fgetattr : PgFuseData → ℕ → M Stat
pgfuse_fgetattr d fh = transact d (fgetattr_body d fh)

unfoldable pub getattr_body : PgFuseData → List ℕ → M (Ending Stat)
getattr_body d path = do (id, meta) ← psql_read_meta_from_path path; commits (fill_stat d id meta)

unfoldable pub pgfuse_getattr : PgFuseData → List ℕ → M Stat
pgfuse_getattr d path = transact d (getattr_body d path)

unfoldable pub pgfuse_access : List ℕ → ℕ → M (Unit {0})
pgfuse_access path mode = pure tt

unfoldable pub readdir_body : List ℕ → M (Ending (List (List ℕ)))
readdir_body path = do
  (id, meta) ← psql_read_meta_from_path path
  names ← psql_readdir id
  commits ((b'.' ∷ []) ∷ (b'.' ∷ b'.' ∷ []) ∷ names)

-- The entries that `filler` is given.
unfoldable pub pgfuse_readdir : PgFuseData → List ℕ → M (List (List ℕ))
pgfuse_readdir d path = transact d (readdir_body path)

-- Read the row, change it, write it back: chmod, chown and utimens.
unfoldable pub refuse_read_only : PgFuseData → ℕ → M (Unit {0})
refuse_read_only d n = if d.read_only then raise n else pure tt

unfoldable pub chmod_body : PgFuseData → List ℕ → ℕ → M (Ending (Unit {0}))
chmod_body d path mode = do
  (id, meta) ← psql_read_meta_from_path path
  refuse_read_only d erofs
  psql_write_meta id (record meta { mode = mode })
  commits tt

unfoldable pub pgfuse_chmod : PgFuseData → List ℕ → ℕ → M (Unit {0})
pgfuse_chmod d path mode = transact d (chmod_body d path mode)

unfoldable pub chown_body : PgFuseData → List ℕ → ℕ → ℕ → M (Ending (Unit {0}))
chown_body d path uid gid = do
  (id, meta) ← psql_read_meta_from_path path
  refuse_read_only d erofs
  psql_write_meta id (record meta { uid = uid; gid = gid })
  commits tt

unfoldable pub pgfuse_chown : PgFuseData → List ℕ → ℕ → ℕ → M (Unit {0})
pgfuse_chown d path uid gid = transact d (chown_body d path uid gid)

-- There is no test of `read_only` here.
unfoldable pub utimens_body : List ℕ → Timespec → Timespec → M (Ending (Unit {0}))
utimens_body path atime mtime = do
  (id, meta) ← psql_read_meta_from_path path
  psql_write_meta id (record meta { atime = atime; mtime = mtime })
  commits tt

unfoldable pub pgfuse_utimens : PgFuseData → List ℕ → Timespec → Timespec → M (Unit {0})
pgfuse_utimens d path atime mtime = transact d (utimens_body path atime mtime)
