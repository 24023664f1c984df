-- ===== src/Psql/Uncommitted.antt =====
-- What the functions of pgsql.c keep: a property that their statements keep.
use pgfuse.Base.{ℕ, zero, suc, Option, none, some, List, [], ◌∷◌}
use pgfuse.Block.{PgDataInfo}
use pgfuse.Db.{DirRow}
use pgfuse.Session.{Session}
use pgfuse.Session.Keeps.{Keeps, Keeps-bind, Keeps-gets, keeps_rules, ReadsKeep, WritesKeep}
use pgfuse.Psql.Meta.{
  PgMeta, one_row, psql_read_meta, psql_write_meta, one_tuple, psql_create_file, psql_create_dir,
  psql_readdir, psql_delete_file, psql_delete_dir, expect_dir, psql_rename,
}
use pgfuse.Psql.Path.{walk, psql_path_to_id, as_int, psql_read_meta_from_path}
use pgfuse.Psql.Data.{
  update_again, write_chosen, psql_write_block, expect_len, write_full, write_rest, write_blocks,
  psql_write_buf, or_undefined, read_blocks, psql_read_buf, psql_truncate,
}

module _ {P : Session → Type 0} where
  one_row-Keeps : (rows : List DirRow) → Keeps P (one_row rows)
  unfolding one_row
  one_row-Keeps [] = search keeps_rules
  one_row-Keeps (r ∷ []) = search keeps_rules
  one_row-Keeps (r ∷ q ∷ rows) = search keeps_rules

  pub as_int-Keeps : (n : ℕ) → Keeps P (as_int n)
  unfolding as_int
  as_int-Keeps n = search keeps_rules

  one_tuple-Keeps : (n : ℕ) → Keeps P (one_tuple n)
  unfolding one_tuple
  one_tuple-Keeps n = search keeps_rules

  expect_dir-Keeps : (m : PgMeta) → Keeps P (expect_dir m)
  unfolding expect_dir
  expect_dir-Keeps m = search keeps_rules

  expect_len-Keeps : (n k : ℕ) → Keeps P (expect_len n k)
  unfolding expect_len
  expect_len-Keeps n k = search keeps_rules

  or_undefined-Keeps : {A : Type 0} (o : Option A) → Keeps P (or_undefined o)
  unfolding or_undefined
  or_undefined-Keeps none = search keeps_rules
  or_undefined-Keeps (some a) = search keeps_rules

ruleset small = (
  keeps_rules, one_row-Keeps, as_int-Keeps, one_tuple-Keeps, expect_dir-Keeps, expect_len-Keeps,
  or_undefined-Keeps,
)

-- The functions that only read.
module _ {P : Session → Type 0} (reads : ReadsKeep P) where
  open reads use {allocates, selects}

  pub psql_read_meta-Keeps : (id : ℕ) → Keeps P (psql_read_meta id)
  unfolding psql_read_meta
  psql_read_meta-Keeps id = search (small, selects)

  walk-Keeps : (names : List (List ℕ)) (id mode : ℕ) → Keeps P (walk names id mode)
  unfolding walk
  walk-Keeps [] id mode = search small
  walk-Keeps (name ∷ names) id mode = search (small, selects, walk-Keeps names)

  psql_path_to_id-Keeps : (path : List ℕ) → Keeps P (psql_path_to_id path)
  unfolding psql_path_to_id
  psql_path_to_id-Keeps path = search (small, allocates, walk-Keeps)

  pub psql_read_meta_from_path-Keeps : (path : List ℕ) → Keeps P (psql_read_meta_from_path path)
  unfolding psql_read_meta_from_path
  psql_read_meta_from_path-Keeps path = search (small, psql_path_to_id-Keeps, psql_read_meta-Keeps)

  pub psql_readdir-Keeps : (id : ℕ) → Keeps P (psql_readdir id)
  unfolding psql_readdir
  psql_readdir-Keeps id = search (small, selects)

  read_blocks-Keeps :
      (block_size id offset size : ℕ) (buf : List ℕ)
      → Keeps P (read_blocks block_size id offset size buf)
  unfolding read_blocks
  read_blocks-Keeps block_size id offset size buf = Keeps-bind _ _ (Keeps-gets _) (λ o.
      Keeps-bind _ _ (selects _) (λ rows.
        Keeps-bind _ _ allocates (λ t. Keeps-bind _ _ (or_undefined-Keeps _) (λ r. search small))))

  pub psql_read_buf-Keeps :
      (block_size id : ℕ) (buf : List ℕ) (offset len : ℕ)
      → Keeps P (psql_read_buf block_size id buf offset len)
  unfolding psql_read_buf
  psql_read_buf-Keeps block_size id buf offset len =
      search (small, psql_read_meta-Keeps, read_blocks-Keeps)

-- The functions that write.
module _ {P : Session → Type 0} (writes : WritesKeep P) where
  open writes use {reads, numbers, executes}

  pub psql_write_meta-Keeps : (id : ℕ) (m : PgMeta) → Keeps P (psql_write_meta id m)
  unfolding psql_write_meta
  psql_write_meta-Keeps id m = search (small, executes)

  pub psql_create_file-Keeps :
      (parent : ℕ) (name : List ℕ) (m : PgMeta) → Keeps P (psql_create_file parent name m)
  unfolding psql_create_file
  psql_create_file-Keeps parent name m =
      Keeps-bind _ _ (Keeps-gets _)
        (λ o. Keeps-bind _ _ numbers (λ id. Keeps-bind _ _ (executes _) (λ n. one_tuple-Keeps n)))

  pub psql_create_dir-Keeps :
      (parent : ℕ) (name : List ℕ) (m : PgMeta) → Keeps P (psql_create_dir parent name m)
  unfolding psql_create_dir
  psql_create_dir-Keeps parent name m =
      Keeps-bind _ _ (Keeps-gets _)
        (λ o. Keeps-bind _ _ numbers (λ id. Keeps-bind _ _ (executes _) (λ n. one_tuple-Keeps n)))

  pub psql_delete_file-Keeps : (id : ℕ) → Keeps P (psql_delete_file id)
  unfolding psql_delete_file
  psql_delete_file-Keeps id = search executes

  pub psql_delete_dir-Keeps : (id : ℕ) → Keeps P (psql_delete_dir id)
  unfolding psql_delete_dir
  psql_delete_dir-Keeps id = search (small, executes, reads.selects)

  pub psql_rename-Keeps :
      (from_id from_parent to_parent : ℕ) (name : List ℕ)
      → Keeps P (psql_rename from_id from_parent to_parent name)
  unfolding psql_rename
  psql_rename-Keeps from_id from_parent to_parent name =
      search (small, executes, psql_read_meta-Keeps reads) depth 8

  update_again-Keeps :
      (rounds block_size id block_no len : ℕ) (text : List ℕ → List ℕ)
      → Keeps P (update_again rounds block_size id block_no len text)
  unfolding update_again
  update_again-Keeps zero block_size id block_no len text = search small
  update_again-Keeps (suc rounds) block_size id block_no len text =
      search (small, executes, update_again-Keeps rounds) depth 8

  write_chosen-Keeps :
      (block_size id block_no len : ℕ) (o : Option (List ℕ → List ℕ))
      → Keeps P (write_chosen block_size id block_no len o)
  unfolding write_chosen
  write_chosen-Keeps block_size id block_no len none = search small
  write_chosen-Keeps block_size id block_no len (some text) = search update_again-Keeps

  psql_write_block-Keeps :
      (block_size id : ℕ) (buf : List ℕ) (block_no offset len : ℕ)
      → Keeps P (psql_write_block block_size id buf block_no offset len)
  unfolding psql_write_block
  psql_write_block-Keeps block_size id buf block_no offset len = search (small, write_chosen-Keeps)

  write_full-Keeps :
      (rounds block_size id : ℕ) (buf : List ℕ) (block_no : ℕ)
      → Keeps P (write_full rounds block_size id buf block_no)
  unfolding write_full
  write_full-Keeps zero block_size id buf block_no = search small
  write_full-Keeps (suc rounds) block_size id buf block_no =
      search (small, psql_write_block-Keeps, write_full-Keeps rounds)

  write_rest-Keeps :
      (block_size id : ℕ) (info : PgDataInfo) (buf : List ℕ) (len : ℕ)
      → Keeps P (write_rest block_size id info buf len)
  unfolding write_rest
  write_rest-Keeps block_size id info buf len =
      search (small, psql_write_block-Keeps, write_full-Keeps)

  write_blocks-Keeps :
      (block_size id : ℕ) (info : PgDataInfo) (buf : List ℕ) (len : ℕ)
      → Keeps P (write_blocks block_size id info buf len)
  unfolding write_blocks
  write_blocks-Keeps block_size id info buf len =
      search (small, psql_write_block-Keeps, write_rest-Keeps)

  pub psql_write_buf-Keeps :
      (block_size id : ℕ) (buf : List ℕ) (offset len : ℕ)
      → Keeps P (psql_write_buf block_size id buf offset len)
  unfolding psql_write_buf
  psql_write_buf-Keeps block_size id buf offset len = search (small, write_blocks-Keeps)

  pub psql_truncate-Keeps :
      (block_size id offset : ℕ) → Keeps P (psql_truncate block_size id offset)
  unfolding psql_truncate
  psql_truncate-Keeps block_size id offset =
      search (small, executes, psql_read_meta-Keeps reads, psql_write_meta-Keeps) depth 8
