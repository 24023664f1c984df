-- ===== src/Psql/Stat.antt =====
-- pgsql.c, lines 905-959 and 1139-1158: sizes and counts of the tables.
use pgfuse.Base.{ℕ, Option, none, some}
use pgfuse.Db.{select_octet_length, count_rows, count_dir}
use pgfuse.Session.{M, pure, ◌>>=◌, select}
use pgfuse.Psql.Path.{as_int}

abbrev or_given : ℕ → Option ℕ → ℕ
or_given given none = given
or_given given (some n) = n

-- The result is a size_t; the error -EIO comes back as a size_t too, and main converts it to int.
unfoldable pub psql_get_block_size : ℕ → M ℕ
psql_get_block_size block_size = do
  found ← select select_octet_length
  pure (or_given block_size found)

-- `atoi` of the sum.
unfoldable pub psql_get_fs_blocks_used : M ℕ
psql_get_fs_blocks_used = do n ← select count_rows; as_int n

unfoldable pub psql_get_fs_files_used : M ℕ
psql_get_fs_files_used = select count_dir
