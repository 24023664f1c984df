-- ===== src/Fuse/Rename.antt =====
-- pgfuse.c, lines 1285-1381: rename. The returns before the first strdup leave the connection and
-- the transaction as they are.
use pgfuse.Base.{ℕ, List, ltb, ◌==◌, if◌then◌else◌, str_eq}
use pgfuse.Session.{
  Ret, ok, err, fault, M, pure, raise, undefined, ◌>>=◌, ◌>>◌, attempt, give_back, allocate, enoent,
  eexist, einval, eio, erofs,
}
use pgfuse.Psql.Meta.{PgMeta, s_isdir, s_isreg, psql_rename}
use pgfuse.Psql.Path.{psql_read_meta_from_path}
use pgfuse.Psql.Tx.{psql_begin}
use pgfuse.Fuse.Context.{PgFuseData, Ending, acquire, closing, commits, dirname, basename}
use pgfuse.Fuse.Attr.{refuse_read_only}

-- From the first strdup on. `psql_rename` fails or not, the transaction is committed.
unfoldable pub rename_body : PgFuseData → ℕ → PgMeta → List ℕ → M (Ending (Ret (Unit {0})))
rename_body d from_id from_meta to = do
  allocate
  (to_parent_id, to_parent_meta) ← psql_read_meta_from_path (dirname to)
  if s_isdir to_parent_meta.mode then pure tt else raise eio
  allocate
  refuse_read_only d erofs
  res ← attempt (psql_rename from_id from_meta.parent_id to_parent_id (basename to))
  commits res

unfoldable pub rename_on : PgFuseData → ℕ → PgMeta → List ℕ → M (Unit {0})
rename_on d from_id from_meta to = do
  res ← closing d (rename_body d from_id from_meta to)
  give_back res

-- What the lookup of the new name decides.
unfoldable pub rename_found :
    PgFuseData → ℕ → PgMeta → List ℕ → List ℕ → Ret (ℕ × PgMeta) → M (Unit {0})
rename_found d from_id from_meta from to (ok (to_id, to_meta)) =
    if ltb 0 to_id
    then (if s_isreg to_meta.mode
        then (if str_eq from to then pure tt else raise eexist)
        else raise einval)
    else rename_on d from_id from_meta to
rename_found d from_id from_meta from to (err n) =
    if n == enoent then rename_on d from_id from_meta to else raise n
rename_found d from_id from_meta from to fault = undefined

unfoldable pub pgfuse_rename : PgFuseData → List ℕ → List ℕ → M (Unit {0})
pgfuse_rename d from to = do
  acquire d
  psql_begin
  (from_id, from_meta) ← psql_read_meta_from_path from
  found ← attempt (psql_read_meta_from_path to)
  rename_found d from_id from_meta from to found
