-- ===== src/Psql/Meta.antt =====
-- pgsql.c, lines 163-306, 425-563 and 849-903, and PgMeta of pgsql.h: the rows of `dir`.
use pgfuse.Base.{
  ℕ, ◌+◌, ◌/◌, ◌%◌, Bool, not, Option, some, List, [], ◌∷◌, ◌==◌, ltb, if◌then◌else◌, sext32,
  is_negative, ◌^◌, ◌-◌, str_eq, filterb,
}
use mathlib.Core.Option
use pgfuse.Wire.{
  ByteOrder, Timespec, ntohl, column64, param64, convert_to_timestamp, convert_from_timestamp,
}
use pgfuse.Db.{
  DirRow, Db, select_meta, update_meta, insert_dir, select_names, count_children, delete_dir,
  update_parent,
}
use pgfuse.Session.{
  M, pure, raise, gets, ◌>>=◌, ◌>>◌, execute, select, nextval, eio, enoent, enotempty,
}

pub record PgMeta : Type 0 where
  pub size : ℕ
  pub mode : ℕ
  pub uid : ℕ
  pub gid : ℕ
  pub ctime : Timespec
  pub mtime : Timespec
  pub atime : Timespec
  pub parent_id : ℕ

-- sys/stat.h: `( mode & S_IFMT ) == S_IFDIR`, and so on.
abbrev pub s_isdir : ℕ → Bool
s_isdir mode = mode / 4096 % 16 == 4

abbrev pub s_isreg : ℕ → Bool
s_isreg mode = mode / 4096 % 16 == 8

abbrev pub s_islnk : ℕ → Bool
s_islnk mode = mode / 4096 % 16 == 10

-- `mode | S_IFDIR`.
abbrev pub with_ifdir : ℕ → ℕ
with_ifdir mode = if mode / 16384 % 2 == 0 then mode + 16384 else mode

-- A timestamp column as PgMeta has it, and a timestamp parameter as the server has it.
abbrev pub got_time : ByteOrder → ℕ → Timespec
got_time o raw = convert_from_timestamp o (column64 o raw)

abbrev pub sent_time : ByteOrder → Timespec → ℕ
sent_time o t = param64 o (convert_to_timestamp o t)

-- The three tests on PQntuples.
unfoldable pub one_row : List DirRow → M DirRow
one_row [] = raise enoent
one_row (r ∷ []) = pure r
one_row (r ∷ _ ∷ _) = raise eio

-- `parent_id`, a bigint, is read through `ntohl`.
unfoldable pub to_meta : ByteOrder → DirRow → PgMeta
to_meta o r = record {
  size = r.size;
  mode = r.mode;
  uid = r.uid;
  gid = r.gid;
  ctime = got_time o r.ctime;
  mtime = got_time o r.mtime;
  atime = got_time o r.atime;
  parent_id = ntohl o (column64 o r.parent_id);
}

-- The id is sent as an integer of 32 bits. It is also what is returned, and to the callers a
-- negative one is an error.
unfoldable pub psql_read_meta : ℕ → M PgMeta
psql_read_meta id = do
  rows ← select (select_meta (sext32 id))
  row ← one_row rows
  o ← gets (λ env. env.order)
  if is_negative id then raise (2 ^ 64 - id) else pure (to_meta o row)

unfoldable pub set_meta : ByteOrder → PgMeta → DirRow → DirRow
set_meta o m r = record r {
  size = m.size;
  mode = m.mode;
  uid = m.uid;
  gid = m.gid;
  ctime = sent_time o m.ctime;
  mtime = sent_time o m.mtime;
  atime = sent_time o m.atime;
}

unfoldable pub psql_write_meta : ℕ → PgMeta → M (Unit {0})
psql_write_meta id meta = do
  o ← gets (λ env. env.order)
  execute (λ d. some (tt, update_meta id (set_meta o meta) d))

-- `atoi( PQcmdTuples( res ) ) != 1`
unfoldable pub one_tuple : ℕ → M (Unit {0})
one_tuple n = if n == 1 then pure tt else raise eio

-- An INSERT of one row reports one tuple.
abbrev pub inserted : Option Db → Option (ℕ × Db)
inserted = Option.map (λ d. (1, d))

unfoldable pub new_row : ByteOrder → ℕ → ℕ → List ℕ → PgMeta → DirRow
new_row o id parent_id name m = record {
  id = id;
  parent_id = parent_id;
  name = name;
  size = m.size;
  mode = m.mode;
  uid = m.uid;
  gid = m.gid;
  ctime = sent_time o m.ctime;
  mtime = sent_time o m.mtime;
  atime = sent_time o m.atime;
}

unfoldable pub psql_create_file : ℕ → List ℕ → PgMeta → M (Unit {0})
psql_create_file parent_id new_file meta = do
  o ← gets (λ env. env.order)
  id ← nextval
  tuples ← execute (λ d. inserted (insert_dir (new_row o id parent_id new_file meta) d))
  one_tuple tuples

-- The column `size` is left to its default, 0.
unfoldable pub psql_create_dir : ℕ → List ℕ → PgMeta → M (Unit {0})
psql_create_dir parent_id new_dir meta = do
  o ← gets (λ env. env.order)
  id ← nextval
  tuples ←
      execute
        (λ d. inserted (insert_dir (new_row o id parent_id new_dir (record meta { size = 0 })) d))
  one_tuple tuples

-- The names that are handed to `filler`, in their order.
unfoldable pub psql_readdir : ℕ → M (List (List ℕ))
psql_readdir parent_id = do
  names ← select (select_names parent_id)
  pure (filterb (λ n. not (str_eq n (b'/' ∷ []))) names)

unfoldable pub psql_delete_file : ℕ → M (Unit {0})
psql_delete_file id = execute (λ d. Option.map (λ d'. (tt, d')) (delete_dir id d))

unfoldable pub psql_delete_dir : ℕ → M (Unit {0})
psql_delete_dir id = do
  count ← select (count_children id)
  if ltb 0 count
      then raise enotempty
      else execute (λ d. Option.map (λ d'. (tt, d')) (delete_dir id d))

unfoldable pub expect_dir : PgMeta → M (Unit {0})
expect_dir meta = if s_isdir meta.mode then pure tt else raise eio

unfoldable pub psql_rename : ℕ → ℕ → ℕ → List ℕ → M (Unit {0})
psql_rename from_id from_parent_id to_parent_id rename_to = do
  from_parent_meta ← psql_read_meta from_parent_id
  expect_dir from_parent_meta
  to_parent_meta ← psql_read_meta to_parent_id
  expect_dir to_parent_meta
  tuples ← execute (update_parent to_parent_id rename_to from_id)
  one_tuple tuples
