-- ===== src/Psql/Data.antt =====
-- pgsql.c, lines 308-423 and 565-799: the bytes of a file, in blocks of `block_size`.
use pgfuse.Base.{
  ℕ, zero, suc, ◌+◌, ◌-◌, ◌/◌, ◌%◌, ◌^◌, Bool, ◌&&◌, Option, none, some, List, [], ◌∷◌, ◌++◌, ◌==◌,
  ltb, leb, if◌then◌else◌, sle64, slt64, take, drop, replicate, length,
}
use pgfuse.Wire.{ByteOrder, ntohl, column64}
use pgfuse.Db.{DataRow, Db, substring, update_block, insert_block, delete_blocks, select_blocks}
use pgfuse.Block.{PgDataInfo, compute_block_info}
use pgfuse.Session.{
  Ret, ok, Env, Session, M, pure, raise, undefined, gets, ◌>>=◌, ◌>>◌, allocate, execute, select,
  eio, called,
}
use pgfuse.Psql.Meta.{PgMeta, psql_read_meta, psql_write_meta}
use pgfuse.Psql.Path.{as_int}
pub mod Splice
pub mod Put
pub mod Again
pub mod Written
pub mod WriteBuf
pub mod Cut
pub mod Truncate
pub mod Rows
pub mod NextRow
pub mod Copy
pub mod ReadLoop
pub mod Readable
pub mod ReadBuf
pub mod Unaligned

-- Arithmetic of size_t.
abbrev pub sub64 : ℕ → ℕ → ℕ
sub64 a b = (a + 2 ^ 64 - b) % 2 ^ 64

-- The four UPDATE texts of psql_write_block, as functions of the old block; `param` is $3.
unfoldable pub write_text : ℕ → ℕ → ℕ → List ℕ → Option (List ℕ → List ℕ)
write_text block_size offset len param =
    if (offset == 0) && (len == block_size)
    then some (λ old. param)
    else if (offset == 0) && ltb len block_size
    then some (λ old. param ++ substring old (len + 1) (block_size - len))
    else if ltb 0 offset && (offset + len == block_size)
    then some (λ old. substring old 1 offset ++ param)
    else if ltb 0 offset && ltb (offset + len) block_size
    then some (λ old.
      substring old 1 offset
      ++ (param ++ substring old (offset + len + 1) (block_size - (offset + len))))
    else none

-- From `update_again` on. Each round but the last adds the missing block, so two rounds are enough.
unfoldable pub update_again : ℕ → ℕ → ℕ → ℕ → ℕ → (List ℕ → List ℕ) → M ℕ
update_again zero block_size id block_no len text = undefined
update_again (suc rounds) block_size id block_no len text = do
  tuples ← execute (λ d. some (update_block id block_no text d))
  if tuples == 1
      then as_int len
      else if tuples == 0
      then (do
        execute (λ d. elim (insert_block id block_no block_size d) [
          | none ↦ none
          | some d' ↦ some (tt, d')
        ])
        update_again rounds block_size id block_no len text)
      else raise eio

unfoldable pub write_chosen : ℕ → ℕ → ℕ → ℕ → Option (List ℕ → List ℕ) → M ℕ
write_chosen block_size id block_no len none = raise eio
write_chosen block_size id block_no len (some text) = update_again 2 block_size id block_no len text

unfoldable pub psql_write_block : ℕ → ℕ → List ℕ → ℕ → ℕ → ℕ → M ℕ
psql_write_block block_size id buf block_no offset len =
    if ltb block_size ((offset + len) % 2 ^ 64)
    then raise eio
    else write_chosen block_size id block_no len (write_text block_size offset len (take len buf))

-- `res != len`, a partial write.
unfoldable pub expect_len : ℕ → ℕ → M (Unit {0})
expect_len len res = if res == len then pure tt else raise eio

-- All full blocks: `rounds` are left; the rest of the buffer is handed on.
unfoldable pub write_full : ℕ → ℕ → ℕ → List ℕ → ℕ → M (List ℕ)
write_full zero block_size id buf block_no = pure buf
write_full (suc rounds) block_size id buf block_no = do
  res ← psql_write_block block_size id buf block_no 0 block_size
  expect_len block_size res
  write_full rounds block_size id (drop block_size buf) (block_no + 1)

-- The number of rounds of `for( b = from; b < to; b++ )` and of `for( b = from; b <= to; b++ )`.
abbrev pub rounds_below : ℕ → ℕ → ℕ
rounds_below from to = if slt64 from to then sub64 to from else 0

abbrev pub rounds_upto : ℕ → ℕ → ℕ
rounds_upto from to = if sle64 from to then sub64 to from + 1 else 0

unfoldable pub write_rest : ℕ → ℕ → PgDataInfo → List ℕ → ℕ → M ℕ
write_rest block_size id info buf len = do
  rest ←
      write_full (rounds_below (info.from_block + 1) info.to_block) block_size id
        (drop info.from_len buf) (info.from_block + 1)
  res ← psql_write_block block_size id rest info.to_block 0 info.to_len
  expect_len info.to_len res
  as_int len

unfoldable pub write_blocks : ℕ → ℕ → PgDataInfo → List ℕ → ℕ → M ℕ
write_blocks block_size id info buf len = do
  res ← psql_write_block block_size id buf info.from_block info.from_offset info.from_len
  expect_len info.from_len res
  if info.from_block == info.to_block then pure res else write_rest block_size id info buf len

unfoldable pub psql_write_buf : ℕ → ℕ → List ℕ → ℕ → ℕ → M ℕ
psql_write_buf block_size id buf offset len =
    if len == 0
    then pure 0
    else write_blocks block_size id (compute_block_info block_size offset len) buf len

-- `memcpy( buf + dst, src + off, n )`; `none` where it leaves the memory of either.
unfoldable pub memcpy : List ℕ → ℕ → List ℕ → ℕ → ℕ → Option (List ℕ)
memcpy buf dst src off n =
    if leb (off + n) (length src) && leb (dst + n) (length buf)
    then some (take dst buf ++ (take n (drop off src) ++ drop (dst + n) buf))
    else none

-- Which bytes stand for block `block_no`, and the rows that are left: the next row, unless it is
-- of a later block. Its number, a bigint, is read through `ntohl`.
unfoldable pub next_data : ByteOrder → ℕ → ℕ → List DataRow → List ℕ × List DataRow
next_data o block_size block_no [] = (replicate block_size 0, [])
next_data o block_size block_no (r ∷ rows) =
    if slt64 block_no (ntohl o (column64 o r.block_no))
    then (replicate block_size 0, r ∷ rows)
    else (r.bytes, rows)

-- One round: the copy, and by how much `dst` and `copied` go on.
unfoldable pub copy_block : ℕ → PgDataInfo → ℕ → List ℕ → ℕ → List ℕ → Option (List ℕ) × ℕ
copy_block block_size info block_no bytes dst buf =
    if block_no == info.from_block
    then (
      memcpy buf dst bytes info.from_offset (sub64 info.from_len info.from_offset),
      info.from_len,
    )
    else if block_no == info.to_block
    then (memcpy buf dst bytes 0 info.to_len, info.to_len)
    else (memcpy buf dst bytes 0 block_size, block_size)

-- The loop of psql_read_buf; `dst` and `copied` agree until the last round, and `dst` is not used
-- after it. The result is `copied` and the buffer.
unfoldable pub read_loop :
    ℕ → ByteOrder → ℕ → PgDataInfo → ℕ → List DataRow → ℕ → List ℕ → Option (ℕ × List ℕ)
read_loop zero o block_size info block_no rows copied buf = some (copied, buf)
read_loop (suc rounds) o block_size info block_no rows copied buf =
    let (bytes, rows') = next_data o block_size block_no rows in
    let (buf', n) = copy_block block_size info block_no bytes copied buf in
    elim buf' [
      | none ↦ none
      | some b ↦ read_loop rounds o block_size info (block_no + 1) rows' (copied + n) b
    ]

unfoldable pub or_undefined : {A : Type 0} → Option A → M A
or_undefined none = undefined
or_undefined (some a) = pure a

unfoldable pub read_blocks : ℕ → ℕ → ℕ → ℕ → List ℕ → M (ℕ × List ℕ)
read_blocks block_size id offset size buf = do
  let info = compute_block_info block_size offset size
  o ← gets (λ env. env.order)
  rows ← select (select_blocks id info.from_block info.to_block)
  allocate
  (copied, buf') ← or_undefined (
      read_loop (rounds_upto info.from_block info.to_block) o block_size info info.from_block rows 0
        buf)
  if copied == size then (do n ← as_int copied; pure (n, buf')) else raise eio

-- `size = len`, cut at the end of the file.
abbrev pub clipped : ℕ → ℕ → ℕ → ℕ
clipped file_size offset len =
    if ltb file_size ((offset + len) % 2 ^ 64) then sub64 file_size offset else len

-- The number of bytes read, and the caller's buffer.
unfoldable pub psql_read_buf : ℕ → ℕ → List ℕ → ℕ → ℕ → M (ℕ × List ℕ)
psql_read_buf block_size id buf offset len = do
  meta ← psql_read_meta id
  if meta.size == 0
      then pure (0, buf)
      else read_blocks block_size id offset (clipped meta.size offset len) buf

unfoldable pub psql_truncate : ℕ → ℕ → ℕ → M (Unit {0})
psql_truncate block_size id offset = do
  meta ← psql_read_meta id
  let info = compute_block_info block_size 0 offset
  execute (λ d. some (tt, delete_blocks id info.to_block d))
  tuples ← execute (λ d. some (
      update_block id info.to_block
        (λ old. substring old 1 info.to_len ++ replicate (block_size - info.to_len) 0) d))
  if ltb 1 tuples then raise eio else psql_write_meta id (record meta { size = offset })
