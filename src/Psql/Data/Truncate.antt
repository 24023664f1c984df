-- ===== src/Psql/Data/Truncate.antt =====
-- psql_truncate: the bytes of the file after it.
use pgfuse.Base.{
  ℕ, ◌+◌, ◌*◌, ◌^◌, ◌<◌, ◌≡◌, refl, false, [], ◌∷◌, arith, ltb, filterb, countb, sext32_small,
}
use pgfuse.Db.{DirRow, Db, is_block, delete_blocks, update_block, update_meta, select_meta}
use pgfuse.Block.{compute_block_info}
use pgfuse.Block.Bounds.{InRange, compute_block_info-Covers}
use pgfuse.Session.{ok, Env}
use pgfuse.Session.Runs.{Answers, Runs, Runs-bind, Runs-execute}
use pgfuse.Store.{IsStored}
use pgfuse.Psql.Meta.{to_meta, set_meta}
use pgfuse.Psql.Resized.{HasTimes, Resized, update_meta-Resized}
use pgfuse.Psql.Stored.{psql_read_meta-Runs, psql_write_meta-Runs}
use pgfuse.Psql.Data.{psql_truncate}
use pgfuse.Psql.Data.Cut.{Truncated, keeps, truncated, countb-filterb, truncated-Truncated}

-- What an empty range comes to: all of block 0.
zero_block : (block_size : ℕ) → 0 < block_size → (compute_block_info block_size 0 0).to_block ≡ 0
unfolding compute_block_info
zero_block block_size positive = ground (arith, sext32_small 0)

zero_len :
    (block_size : ℕ) → 0 < block_size → (compute_block_info block_size 0 0).to_len ≡ block_size
unfolding compute_block_info
zero_len block_size positive = ground (arith, sext32_small 0)

module _ {env : Env} (answers : Answers env) (block_size i len : ℕ) (r : DirRow) (d : Db) where
  -- The statements of psql_truncate, with the block numbers that it computes.
  truncate-Runs :
      i < 2 ^ 31
      → select_meta i d ≡ r ∷ []
      → IsStored block_size d
      → Runs env (psql_truncate block_size i len) d (ok tt) (
          update_meta i (set_meta env.order (record (to_meta env.order r) { size = len })) (
            truncated block_size i
              (compute_block_info block_size 0 len).to_block
              (compute_block_info block_size 0 len).to_len
              d))
  unfolding psql_truncate delete_blocks update_block
  truncate-Runs small one stored =
      let info = compute_block_info block_size 0 len in
      let few : ltb 1 (countb (is_block i info.to_block) (filterb (keeps i info.to_block) d.blocks))
          ≡ false =
        ground (
          arith,
          countb-filterb i info.to_block i info.to_block d.blocks,
          stored.unique i info.to_block,
        ) in
      Runs-bind _ _ (psql_read_meta-Runs answers i r d small one) (
        Runs-bind _ _ (Runs-execute answers _ d refl) (
          Runs-bind _ _ (Runs-execute answers _ _ refl)
            (simp few (psql_write_meta-Runs answers i _ _))))

  -- The blocks that are left, before the size is written.
  pub cut-Truncated :
      InRange block_size 0 len
      → 0 < len
      → i < 2 ^ 31
      → select_meta i d ≡ r ∷ []
      → IsStored block_size d
      → (t : Db) × Truncated block_size i len d t
        × Runs env
            (psql_truncate block_size i len)
            d
            (ok tt)
            (update_meta i (set_meta env.order (record (to_meta env.order r) { size = len })) t)
  cut-Truncated fits some_left small one stored =
      let info = compute_block_info block_size 0 len in
      let c = compute_block_info-Covers block_size 0 len fits some_left in
      let cut =
        truncated-Truncated block_size i info.to_block info.to_len d fits.positive c.last_fits
          c.to_small stored in
      let size_left : info.to_block * block_size + info.to_len ≡ len = omega (arith, c.finish) in
      (
        truncated block_size i info.to_block info.to_len d,
        rw size_left at cut,
        truncate-Runs small one stored,
      )

  -- Inside a transaction, while no statement fails, cutting a file whose row is there to a size
  -- that is not 0 and is below 2 ^ 30 succeeds; then every byte from the size on is 0, every other
  -- byte of every file is as it was, the table still has at most one block per file and number,
  -- each of the block size, the row of the file has the new size and is otherwise as it was, and so
  -- are the rows of all other ids. The block size and the id are below 2 ^ 31, and the positions of
  -- the bytes below 2 ^ 62.
  pub psql_truncate-Truncated :
      InRange block_size 0 len
      → 0 < len
      → i < 2 ^ 31
      → select_meta i d ≡ r ∷ []
      → HasTimes r
      → IsStored block_size d
      → (t : Db) × Truncated block_size i len d t
        × (d' : Db) × Runs env (psql_truncate block_size i len) d (ok tt) d'
        × (d'.blocks ≡ t.blocks)
        × Resized i len r d d'
  psql_truncate-Truncated fits some_left small one times stored =
      let (t, cut, runs) = cut-Truncated fits some_left small one stored in
      (
        t,
        cut,
        update_meta i (set_meta env.order (record (to_meta env.order r) { size = len })) t,
        runs,
        unfold update_meta in refl,
        update_meta-Resized env.order i len r d t times one cut.same_dir,
      )

-- Inside a transaction, while no statement fails, cutting a file whose row is there to size 0 writes
-- the size 0 but leaves all bytes of the first block: what is cut is what a truncation to one block
-- size would cut.
pub psql_truncate_to_zero :
    (env : Env) (answers : Answers env) (block_size i : ℕ) (r : DirRow) (d : Db)
    → 0 < block_size
    → i < 2 ^ 31
    → select_meta i d ≡ r ∷ []
    → IsStored block_size d
    → (t : Db) × Truncated block_size i block_size d t
      × Runs env
          (psql_truncate block_size i 0)
          d
          (ok tt)
          (update_meta i (set_meta env.order (record (to_meta env.order r) { size = 0 })) t)
psql_truncate_to_zero env answers block_size i r d positive small one stored =
    let all =
      truncated-Truncated block_size i 0 block_size d positive (omega arith) (omega arith) stored in
    let same : 0 * block_size + block_size ≡ block_size = omega arith in
    let runs = truncate-Runs {env = env} answers block_size i 0 r d small one stored in
    (
      truncated block_size i 0 block_size d,
      rw same at all,
      simp (zero_block block_size positive, zero_len block_size positive) at runs,
    )
