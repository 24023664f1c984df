-- ===== src/Psql/Path.antt =====
-- pgsql.c, lines 95-159 and 231-240: paths.
use pgfuse.Base.{ℕ, ◌-◌, ◌%◌, ◌^◌, List, [], ◌∷◌, ◌++◌, ◌==◌, ltb, if◌then◌else◌}
use pgfuse.Db.{select_child}
use pgfuse.Session.{M, pure, raise, ◌>>=◌, ◌>>◌, allocate, select}
use pgfuse.Psql.Meta.{PgMeta, s_isdir, one_row, psql_read_meta}
pub mod Parts
pub mod Leads

-- `strtok_r( ..., "/", ... )` till NULL: the parts that are not empty. `part` is the one at hand.
abbrev emit : List ℕ → List (List ℕ) → List (List ℕ)
emit [] parts = parts
emit (c ∷ cs) parts = (c ∷ cs) ∷ parts

unfoldable pub split_from : List ℕ → List ℕ → List (List ℕ)
split_from part [] = emit part []
split_from part (c ∷ cs) =
    let at_slash = emit part (split_from [] cs) in
    let inside = split_from (part ++ c ∷ []) cs in if c == b'/' then at_slash else inside

unfoldable pub path_parts : List ℕ → List (List ℕ)
path_parts path = split_from [] path

-- The loop of psql_path_to_id: it goes down while the row at hand is a directory.
unfoldable pub walk : List (List ℕ) → ℕ → ℕ → M ℕ
walk [] id mode = pure id
walk (name ∷ names) id mode =
    if s_isdir mode
    then (do rows ← select (select_child name id); row ← one_row rows; walk names row.id row.mode)
    else pure id

abbrev pub s_ifdir : ℕ
s_ifdir = 16384

unfoldable pub psql_path_to_id : List ℕ → M ℕ
psql_path_to_id path = do allocate; walk (path_parts path) 0 s_ifdir

-- The conversion of an int64_t that is not negative to `int`: a value that does not fit comes out
-- as another number, negative when bit 31 is set.
unfoldable pub as_int : ℕ → M ℕ
as_int n = if ltb (n % 2 ^ 32) (2 ^ 31) then pure (n % 2 ^ 32) else raise (2 ^ 32 - n % 2 ^ 32)

-- The id and the metadata.
unfoldable pub psql_read_meta_from_path : List ℕ → M (ℕ × PgMeta)
psql_read_meta_from_path path = do
  found ← psql_path_to_id path
  id ← as_int found
  meta ← psql_read_meta id
  pure (id, meta)
