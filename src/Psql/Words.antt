-- ===== src/Psql/Words.antt =====
-- psql_read_meta, pgsql.c, line 224, and psql_read_buf, line 372: bigint columns that are read as
-- integers of 32 bits.
use pgfuse.Base.{
  ℕ, ◌^◌, ◌/◌, ◌%◌, ◌<◌, ◌≡◌, refl, true, false, List, [], ◌∷◌, arith, slt64, replicate,
}
use pgfuse.Wire.{little, big, ntohl, column64}
use pgfuse.Wire.Laws.{word_taken, ntohl-column64}
use pgfuse.Db.{DirRow, DataRow, Db, select_meta}
use pgfuse.Session.{ok, Env}
use pgfuse.Session.Runs.{Answers, Runs}
use pgfuse.Psql.Meta.{PgMeta, to_meta, psql_read_meta}
use pgfuse.Psql.Stored.{psql_read_meta-Runs}
use pgfuse.Psql.Data.{next_data}

psql_read_meta_parent :
    (env : Env) (answers : Answers env) (id : ℕ) (r : DirRow) (d : Db)
    → id < 2 ^ 31
    → select_meta id d ≡ r ∷ []
    → r.parent_id < 2 ^ 64
    → (m : PgMeta) × Runs env (psql_read_meta id) d (ok m) d
      × (m.parent_id ≡ word_taken env.order r.parent_id)
psql_read_meta_parent env answers id r d small one wide = (
  to_meta env.order r,
  psql_read_meta-Runs answers id r d small one,
  unfold to_meta in ntohl-column64 env.order r.parent_id wide,
)

next_data_hole :
    (block_size block_no : ℕ) (r : DataRow) (rows : List DataRow)
    → block_no < r.block_no
    → r.block_no < 2 ^ 32
    → (next_data little block_size block_no (r ∷ rows) ≡ (r.bytes, rows))
      × (next_data big block_size block_no (r ∷ rows) ≡ (replicate block_size 0, r ∷ rows))
unfolding next_data
next_data_hole block_size block_no r rows hole small =
    let high : ntohl little (column64 little r.block_no) ≡ r.block_no / 2 ^ 32 =
      ntohl-column64 little r.block_no (omega arith) in
    let low : ntohl big (column64 big r.block_no) ≡ r.block_no % 2 ^ 32 =
      ntohl-column64 big r.block_no (omega arith) in
    let stored : slt64 block_no (r.block_no / 2 ^ 32) ≡ false = ground arith in
    let later : slt64 block_no (r.block_no % 2 ^ 32) ≡ true = ground arith in
    (simp (high, stored) refl, simp (low, later) refl)

-- Inside a transaction, while no statement fails, psql_read_meta on the one row of an id below
-- 2 ^ 31 gives as the parent one word of the parent's number: the high word on a little-endian
-- host, so that it is 0 for each number below 2 ^ 32, and the low word on a big-endian one. And
-- where the next stored block is a later one than the block at hand, and has a number below 2 ^ 32,
-- psql_read_buf takes it for the block at hand on a little-endian host, and a block of zeros on a
-- big-endian one.
pub bigint_columns :
    (env : Env) (answers : Answers env) (id : ℕ) (r : DirRow) (d : Db) (block_size block_no : ℕ)
    (b : DataRow) (rows : List DataRow)
    → id < 2 ^ 31
    → select_meta id d ≡ r ∷ []
    → r.parent_id < 2 ^ 64
    → block_no < b.block_no
    → b.block_no < 2 ^ 32
    → ((m : PgMeta) × Runs env (psql_read_meta id) d (ok m) d
        × (m.parent_id ≡ word_taken env.order r.parent_id))
      × (next_data little block_size block_no (b ∷ rows) ≡ (b.bytes, rows))
      × (next_data big block_size block_no (b ∷ rows) ≡ (replicate block_size 0, b ∷ rows))
bigint_columns env answers id r d block_size block_no b rows small one wide hole block_small =
    let (on_little, on_big) = next_data_hole block_size block_no b rows hole block_small in
    (psql_read_meta_parent env answers id r d small one wide, on_little, on_big)
