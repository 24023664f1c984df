-- ===== src/Psql/Data/Put.antt =====
-- psql_write_block on the tables: the block is there after at most two rounds of `update_again`.
use pgfuse.Base.{
  ℕ, suc, ◌%◌, ◌^◌, ◌≤◌, ◌<◌, ◌≡◌, refl, true, some, List, [], ◌∷◌, ◌++◌, arith, ◌==◌,
  if◌then◌else◌, length, countb, updateb, replicate, byte_or-replicate, length-replicate,
  Bool-cases, inl, inr, ==-eq, ltb-lt,
}
use pgfuse.Db.{DataRow, Db, is_block, exists_id, update_block, insert_block}
use pgfuse.Session.{ok, Env, pure}
use pgfuse.Session.Runs.{Answers, Runs, Runs-pure, Runs-bind, Runs-execute}
use pgfuse.Store.{find_block, byte_in, set_bytes, find_block-none, find_block-append, countb-append}
use pgfuse.Psql.Path.{as_int}
use pgfuse.Psql.Data.{update_again}

-- The blocks once block `b` of file `i` is there.
abbrev pub with_block : ℕ → ℕ → ℕ → List DataRow → List DataRow
with_block block_size i b rs =
    if countb (is_block i b) rs == 0
    then rs ++ record { dir_id = i; block_no = b; bytes = replicate block_size 0 } ∷ []
    else rs

abbrev pub put_block : ℕ → ℕ → ℕ → (List ℕ → List ℕ) → Db → Db
put_block block_size i b text d = record d {
  blocks = updateb (is_block i b) (set_bytes text) (with_block block_size i b d.blocks);
}

pub as_int_small : (n : ℕ) → n < 2 ^ 31 → as_int n ≡ pure n
unfolding as_int
as_int_small n h = let e : n % 2 ^ 32 ≡ n = omega arith in rw (e, ltb-lt n (2 ^ 31) h)

module _ (block_size i b : ℕ) (rs : List DataRow) where
  abbrev zero_row : DataRow
  zero_row = record { dir_id = i; block_no = b; bytes = replicate block_size 0 }

  -- A block that is added is a block of zeros, as the missing one was.
  pub byte_in-with_block :
      (j c k : ℕ)
      → byte_in (find_block j c (with_block block_size i b rs)) k ≡ byte_in (find_block j c rs) k
  byte_in-with_block j c k = elim (Bool-cases (countb (is_block i b) rs == 0)) [
    | inl e ↦ rw e (
        ground (
          arith,
          find_block-append zero_row j c rs (==-eq _ _ e),
          find_block-none i b rs (==-eq _ _ e),
          byte_or-replicate block_size k,
        ))
    | inr e ↦ rw e
  ]

  pub count-with_block :
      (j c : ℕ)
      → countb (is_block j c) rs ≤ 1
      → countb (is_block j c) (with_block block_size i b rs) ≤ 1
  count-with_block j c h = elim (Bool-cases (countb (is_block i b) rs == 0)) [
    | inl e ↦ rw e (ground (arith, countb-append zero_row j c rs, ==-eq _ _ e))
    | inr e ↦ rw e h
  ]

  pub count-with_block_self :
      countb (is_block i b) rs ≤ 1 → countb (is_block i b) (with_block block_size i b rs) ≡ 1
  count-with_block_self h = elim (Bool-cases (countb (is_block i b) rs == 0)) [
    | inl e ↦ rw e (ground (arith, countb-append zero_row i b rs, ==-eq _ _ e))
    | inr e ↦ rw e (ground arith)
  ]

  pub full-with_block :
      (j c : ℕ) (bytes : List ℕ)
      → ((xs : List ℕ) → find_block j c rs ≡ some xs → length xs ≡ block_size)
      → find_block j c (with_block block_size i b rs) ≡ some bytes
      → length bytes ≡ block_size
  full-with_block j c bytes h = elim (Bool-cases (countb (is_block i b) rs == 0)) [
    | inl e ↦ rw e λ q. ground (
      arith,
      h bytes,
      find_block-append zero_row j c rs (==-eq _ _ e),
      length-replicate {A = ℕ} block_size 0,
    )
    | inr e ↦ rw e (h bytes)
  ]

updateb-none :
    (i b : ℕ) (f : DataRow → DataRow) (rs : List DataRow)
    → countb (is_block i b) rs ≡ 0
    → updateb (is_block i b) f rs ≡ rs
updateb-none i b f [] h = refl
updateb-none i b f (r ∷ rs) h = ground (arith, updateb-none i b f rs)

abbrev zeroed : ℕ → ℕ → ℕ → Db → Db
zeroed block_size i b d = record d { blocks = d.blocks ++ zero_row block_size i b d.blocks ∷ [] }

abbrev updated : ℕ → ℕ → (List ℕ → List ℕ) → List DataRow → List DataRow
updated i b text rs = updateb (is_block i b) (set_bytes text) rs

insert_missing :
    (block_size i b : ℕ) (d : Db)
    → countb (is_block i b) d.blocks ≡ 0
    → exists_id i d ≡ true
    → insert_block i b block_size d
      ≡ some (record d { blocks = d.blocks ++ zero_row block_size i b d.blocks ∷ [] })
unfolding insert_block
insert_missing block_size i b d none_there there = simp (none_there, there)

module _ {env : Env} (answers : Answers env) (block_size i b len : ℕ) (text : List ℕ → List ℕ)
    (small : len < 2 ^ 31) where
  update_present :
      (n : ℕ) (d : Db)
      → countb (is_block i b) d.blocks ≡ 1
      → Runs env
          (update_again (suc n) block_size i b len text)
          d
          (ok len)
          (record d { blocks = updated i b text d.blocks })
  unfolding update_again update_block
  update_present n d one =
      Runs-bind _ _ (Runs-execute answers _ d refl)
        (simp (one, as_int_small len small) (Runs-pure len _))

  update_missing :
      (d : Db)
      → countb (is_block i b) d.blocks ≡ 0
      → exists_id i d ≡ true
      → Runs env
          (update_again 2 block_size i b len text)
          d
          (ok len)
          (record (zeroed block_size i b d) {
            blocks = updated i b text (zeroed block_size i b d).blocks;
          })
  unfolding update_again update_block
  update_missing d none_there there = Runs-bind _ _ (Runs-execute answers _ d refl) (
      simp (none_there, updateb-none i b (set_bytes text) d.blocks none_there)
        (Runs-bind _ _ {d' = zeroed block_size i b d}
          (Runs-execute answers _ _ (rw (insert_missing block_size i b d none_there there) refl))
          (update_present 0 (zeroed block_size i b d)
            (ground (arith, countb-append (zero_row block_size i b d.blocks) i b d.blocks)))))

  -- update_again, whether the block is there or not.
  pub update_again-put_block :
      (d : Db)
      → countb (is_block i b) d.blocks ≤ 1
      → exists_id i d ≡ true
      → Runs env
          (update_again 2 block_size i b len text)
          d
          (ok len)
          (put_block block_size i b text d)
  update_again-put_block d unique there = elim (Bool-cases (countb (is_block i b) d.blocks == 0)) [
    | inl e ↦ simp e (update_missing d (==-eq _ _ e) there)
    | inr e ↦ simp e (update_present 1 d (ground arith))
  ]
