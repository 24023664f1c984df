-- ===== src/Db.antt =====
-- schema.sql and the SQL texts in pgsql.c: the tables `dir` and `data`, and each statement as a
-- function on them. A statement that the schema's keys and references refuse is `none`. Numbers of
-- type bigint are 64-bit patterns; a timestamp is the server's count of microseconds.
use pgfuse.Base.{
  ℕ, ◌+◌, ◌-◌, ◌/◌, ◌%◌, Bool, not, ◌&&◌, ◌||◌, Option, none, some, List, [], ◌∷◌, ◌++◌, ◌==◌, ltb,
  leb, if◌then◌else◌, sle64, slt64, str_eq, filterb, countb, updateb, map, take, drop, replicate,
  length,
}

-- A row of `dir`.
pub record DirRow : Type 0 where
  pub id : ℕ
  pub parent_id : ℕ
  pub name : List ℕ
  pub size : ℕ
  pub mode : ℕ
  pub uid : ℕ
  pub gid : ℕ
  pub ctime : ℕ
  pub mtime : ℕ
  pub atime : ℕ

-- A row of `data`; its bytea is `bytes`.
pub record DataRow : Type 0 where
  pub dir_id : ℕ
  pub block_no : ℕ
  pub bytes : List ℕ

pub record Db : Type 0 where
  pub dir : List DirRow
  pub blocks : List DataRow

-- `id = $1`, `parent_id = $1`, and `name = $1 AND parent_id = $2`.
abbrev pub has_id : ℕ → DirRow → Bool
has_id i r = r.id == i

abbrev pub has_parent : ℕ → DirRow → Bool
has_parent p r = r.parent_id == p

abbrev pub is_entry : ℕ → List ℕ → DirRow → Bool
is_entry p n r = (r.parent_id == p) && str_eq r.name n

abbrev pub exists_id : ℕ → Db → Bool
exists_id i d = ltb 0 (countb (has_id i) d.dir)

-- SELECT id, mode FROM dir WHERE name = $1 and parent_id = $2
unfoldable pub select_child : List ℕ → ℕ → Db → List DirRow
select_child n p d = filterb (is_entry p n) d.dir

-- SELECT size, mode, ... FROM dir WHERE id = $1
unfoldable pub select_meta : ℕ → Db → List DirRow
select_meta i d = filterb (has_id i) d.dir

-- UPDATE dir SET size=$2, mode=$3, uid=$4, gid=$5, ctime=$6, mtime=$7, atime=$8 WHERE id=$1
unfoldable pub update_meta : ℕ → (DirRow → DirRow) → Db → Db
update_meta i change d = record d { dir = updateb (has_id i) change d.dir }

-- INSERT INTO dir: the keys PRIMARY KEY( id ) and UNIQUE( name, parent_id ) are free, and the
-- referenced parent is there.
unfoldable pub insert_dir : DirRow → Db → Option Db
insert_dir r d =
    if not (exists_id r.id d)
      && (countb (is_entry r.parent_id r.name) d.dir == 0)
      && ((r.parent_id == r.id) || exists_id r.parent_id d)
    then some (record d { dir = d.dir ++ r ∷ [] })
    else none

-- SELECT name FROM dir WHERE parent_id = $1
unfoldable pub select_names : ℕ → Db → List (List ℕ)
select_names p d = map (λ r. r.name) (filterb (has_parent p) d.dir)

-- SELECT COUNT(*) FROM dir where parent_id=$1
unfoldable pub count_children : ℕ → Db → ℕ
count_children p d = countb (has_parent p) d.dir

-- Rule "dir_remove": the blocks of a deleted row go with it if `OLD.mode & 16384 = 0`.
abbrev pub is_collected : List DirRow → DataRow → Bool
is_collected gone b = ltb 0 (countb (λ r. (r.id == b.dir_id) && (r.mode / 16384 % 2 == 0)) gone)

-- DELETE FROM dir where id=$1: the rule, and then the references to the row that are left.
unfoldable pub delete_dir : ℕ → Db → Option Db
delete_dir i d =
    let gone = filterb (has_id i) d.dir in
    let rest = filterb (λ r. not (has_id i r)) d.dir in
    let kept = filterb (λ b. not (is_collected gone b)) d.blocks in
    if (length gone == 0)
      || ((countb (has_parent i) rest == 0) && (countb (λ b. b.dir_id == i) kept == 0))
    then some (record d { dir = rest; blocks = kept })
    else none

-- UPDATE dir SET parent_id=$1, name=$2 WHERE id=$3, with the number of rows.
unfoldable pub update_parent : ℕ → List ℕ → ℕ → Db → Option (ℕ × Db)
update_parent p n i d =
    let d' = record d {
      dir = updateb (has_id i) (λ r. record r { parent_id = p; name = n }) d.dir;
    } in
    let rows = countb (has_id i) d.dir in
    if (rows == 0) || (leb (countb (is_entry p n) d'.dir) 1 && exists_id p d')
    then some (rows, d')
    else none

-- `dir_id=$1 AND block_no=$2`.
abbrev pub is_block : ℕ → ℕ → DataRow → Bool
is_block i b r = (r.dir_id == i) && (r.block_no == b)

-- `substring( data from a for n )`, with `a` counted from 1.
abbrev pub substring : List ℕ → ℕ → ℕ → List ℕ
substring bytes a n = take n (drop (a - 1) bytes)

-- UPDATE data set data = ... WHERE dir_id=$1 AND block_no=$2, with the number of rows.
unfoldable pub update_block : ℕ → ℕ → (List ℕ → List ℕ) → Db → ℕ × Db
update_block i b change d = (
  countb (is_block i b) d.blocks,
  record d { blocks = updateb (is_block i b) (λ r. record r { bytes = change r.bytes }) d.blocks },
)

-- INSERT INTO data( dir_id, block_no, data ) VALUES ( $1, $2, repeat(E'\\000',n)::bytea )
unfoldable pub insert_block : ℕ → ℕ → ℕ → Db → Option Db
insert_block i b n d =
    if (countb (is_block i b) d.blocks == 0) && exists_id i d
    then some (record d {
      blocks = d.blocks ++ record { dir_id = i; block_no = b; bytes = replicate n 0 } ∷ [];
    })
    else none

-- DELETE FROM data WHERE dir_id=$1 AND block_no>$2
unfoldable pub delete_blocks : ℕ → ℕ → Db → Db
delete_blocks i b d = record d {
  blocks = filterb (λ r. not ((r.dir_id == i) && slt64 b r.block_no)) d.blocks;
}

-- ORDER BY block_no ASC.
abbrev pub insert_row : DataRow → List DataRow → List DataRow
insert_row r [] = r ∷ []
insert_row r (x ∷ xs) = if sle64 r.block_no x.block_no then r ∷ x ∷ xs else x ∷ insert_row r xs

abbrev pub order_rows : List DataRow → List DataRow
order_rows [] = []
order_rows (x ∷ xs) = insert_row x (order_rows xs)

-- SELECT block_no, data FROM data WHERE dir_id=$1 AND block_no>=$2 AND block_no<=$3 ORDER BY ...
unfoldable pub select_blocks : ℕ → ℕ → ℕ → Db → List DataRow
select_blocks i lo hi d =
    order_rows
      (filterb (λ r. (r.dir_id == i) && sle64 lo r.block_no && sle64 r.block_no hi) d.blocks)

-- SELECT distinct octet_length(data) FROM data: the first row of it, for which the length of the
-- first block stands. The server may give another of the lengths first, if there is more than one.
unfoldable pub select_octet_length : Db → Option ℕ
select_octet_length d = elim d.blocks [ [] ↦ none | r ∷ _ ↦ some (length r.bytes) ]

-- SELECT (SELECT COUNT(*) FROM data) + (SELECT COUNT(*) FROM dir), and SELECT COUNT(*) FROM dir
unfoldable pub count_rows : Db → ℕ
count_rows d = length d.blocks + length d.dir

unfoldable pub count_dir : Db → ℕ
count_dir d = length d.dir
