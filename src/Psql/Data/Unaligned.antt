-- ===== src/Psql/Data/Unaligned.antt =====
-- psql_read_buf, pgsql.c, lines 380-393: the copy of the first block when the read does not start at
-- the start of a block.
use pgfuse.Base.{
  suc, ℕ, ◌+◌, ◌-◌, ◌*◌, ◌%◌, ◌^◌, ◌≤◌, ◌<◌, ◌≡◌, refl, ap, Option, none, some, List, arith, ltb,
  false, ◌==◌, [], ◌∷◌, if◌then◌else◌, length, ==-refl, Bool-cases, inl, inr,
}
use pgfuse.Wire.{ByteOrder}
use pgfuse.Db.{DirRow, DataRow, Db, select_blocks, select_meta}
use pgfuse.Block.{PgDataInfo, compute_block_info}
use pgfuse.Block.Bounds.{InRange, Covers, compute_block_info-Covers}
use pgfuse.Session.{fault, Env}
use pgfuse.Session.Runs.{Answers, Runs, Runs-gets, Runs-bind, Runs-select, Runs-allocate}
use pgfuse.Session.Numbered.{Runs-undefined, Runs-bind-fault}
use pgfuse.Psql.Meta.{to_meta}
use pgfuse.Psql.Stored.{psql_read_meta-Runs}
use pgfuse.Psql.Data.{
  memcpy, next_data, copy_block, read_loop, read_blocks, or_undefined, psql_read_buf,
}
use pgfuse.Psql.Data.Copy.{further}
use pgfuse.Psql.Data.Readable.{rounds_all, readable, clipped-readable}

-- How many bytes of the request are in its first block.
abbrev pub first_part : ℕ → ℕ → ℕ → ℕ
first_part block_size offset n =
    if ltb (block_size - offset % block_size) n then block_size - offset % block_size else n

module _ (block_size offset n : ℕ) (fits : InRange block_size offset n) (some_len : 0 < n)
    (short : first_part block_size offset n < offset % block_size) where
  abbrev info : PgDataInfo
  info = compute_block_info block_size offset n

  covers : Covers block_size offset n info
  covers = compute_block_info-Covers block_size offset n fits some_len

  first_offset : info.from_offset ≡ offset % block_size
  unfolding compute_block_info
  first_offset = refl

  from_len-first_part : info.from_len ≡ first_part block_size offset n
  from_len-first_part = elim (Bool-cases (ltb info.from_block info.to_block)) [
    | inl e ↦ ground (
      arith,
      e,
      first_offset,
      covers.many,
      covers.start,
      covers.finish,
      covers.some_last,
      further block_size info.from_block info.to_block,
    )
    | inr e ↦
        let same : info.from_block ≡ info.to_block = ground (arith, e, covers.ordered) in
        let rows : info.from_block * block_size ≡ info.to_block * block_size =
          ap (λ x. x * block_size) same in
        ground (
          arith,
          first_offset,
          rows,
          covers.one same,
          covers.start,
          covers.finish,
          covers.last_fits,
        )
  ]

  -- The length given to memcpy is below 0.
  copy_overrun :
      (bytes buf : List ℕ)
      → length buf < 2 ^ 63
      → (copy_block block_size info info.from_block bytes 0 buf).0 ≡ none
  unfolding copy_block memcpy
  copy_overrun bytes buf room = rw (==-refl info.from_block) (
      ground
        (arith, from_len-first_part, short, first_offset, covers.inside, fits.block_small, room))

  read_loop_overrun :
      (o : ByteOrder) (rounds : ℕ) (rows : List DataRow) (buf : List ℕ)
      → length buf < 2 ^ 63
      → read_loop (suc rounds) o block_size info info.from_block rows 0 buf ≡ none
  unfolding read_loop
  read_loop_overrun o rounds rows buf room =
      let next = next_data o block_size info.from_block rows in
      let m = copy_block block_size info info.from_block next.0 0 buf in
      ap
        (λ (x : Option (List ℕ)). elim x as (λ y. Option (ℕ × List ℕ)) [
          | none ↦ none
          | some buf' ↦
              read_loop rounds o block_size info (info.from_block + 1) next.1 (0 + m.1) buf'
        ])
        (copy_overrun next.0 buf room)

  read_blocks_overrun :
      {env : Env} (answers : Answers env) (i : ℕ) (d : Db) (buf : List ℕ)
      → length buf < 2 ^ 63
      → Runs env (read_blocks block_size i offset n buf) d fault d
  unfolding read_blocks or_undefined
  read_blocks_overrun {env} answers i d buf room = Runs-bind _ _ (Runs-gets _ d) (
      Runs-bind _ _ (Runs-select answers _ d) (
        Runs-bind _ _ (Runs-allocate answers d) (
          simp
            (
              rounds_all info.from_block info.to_block covers.ordered covers.to_small,
              read_loop_overrun env.order (info.to_block - info.from_block)
                  (select_blocks i info.from_block info.to_block d) buf room,
            )
            (Runs-bind-fault _ _ (Runs-undefined d)))))

-- Inside a transaction, while no statement fails, a read of a file that goes on behind its position,
-- for which fewer bytes are wanted of the first block than lie before the position in it, hands
-- memcpy a negative length, that is one of nearly 2 ^ 64 bytes: its behaviour is undefined.
pub psql_read_buf_overrun :
    (env : Env) (answers : Answers env) (block_size i offset len : ℕ) (buf : List ℕ) (r : DirRow)
    (d : Db)
    → i < 2 ^ 31
    → select_meta i d ≡ r ∷ []
    → offset < r.size
    → r.size < 2 ^ 61
    → InRange block_size offset len
    → 0 < len
    → first_part block_size offset (readable r.size offset len) < offset % block_size
    → length buf < 2 ^ 63
    → Runs env (psql_read_buf block_size i buf offset len) d fault d
unfolding psql_read_buf to_meta
psql_read_buf_overrun env answers block_size i offset len buf r d i_small one inside size_small fits
      some_len short room =
    let n = readable r.size offset len in
    let shorter : n ≤ len = ground arith in
    let some_n : 0 < n = ground arith in
    let fits_n : InRange block_size offset n = record {
      positive = fits.positive;
      block_small = fits.block_small;
      end_small = omega (arith, shorter, fits.end_small);
      len_small = omega (arith, shorter, fits.len_small);
    } in
    let not_empty : (r.size == 0) ≡ false = ground (arith, inside) in
    Runs-bind _ _ (psql_read_meta-Runs answers i r d i_small one) (
      simp (not_empty, clipped-readable r.size offset len inside size_small fits.end_small)
        (read_blocks_overrun block_size offset n fits_n some_n short answers i d buf room))
