-- ===== src/Psql/Data/ReadBuf.antt =====
-- psql_read_buf: the bytes that are read, for a position at the start of a block.
use native.Mathlib.Nat.{div-add-mod', mod-lt}
use pgfuse.Base.{
  ℕ, ◌+◌, ◌-◌, ◌*◌, ◌/◌, ◌%◌, ◌^◌, ◌≤◌, ◌<◌, ◌≡◌, ◌⊎◌, ◌∙◌, sym, ap, refl, false, ◌&&◌, none, some,
  List, [], ◌∷◌, arith, ◌==◌, ltb, leb, if◌then◌else◌, length, byte_or, Bool-cases, inl, inr,
  ==-refl,
}
use pgfuse.Wire.{ByteOrder, big}
use pgfuse.Db.{DirRow, DataRow, Db, select_blocks, select_meta}
use pgfuse.Block.{PgDataInfo, compute_block_info}
use pgfuse.Block.Bounds.{InRange, Covers, compute_block_info-Covers}
use pgfuse.Session.{ok, Env}
use pgfuse.Session.Runs.{Answers, Runs, Runs-pure, Runs-gets, Runs-bind, Runs-select, Runs-allocate}
use pgfuse.Store.{find_block, byte_in, content, IsStored}
use pgfuse.Psql.Meta.{to_meta}
use pgfuse.Psql.Stored.{psql_read_meta-Runs}
use pgfuse.Psql.Data.{psql_read_buf, read_blocks, or_undefined}
use pgfuse.Psql.Data.Put.{as_int_small}
use pgfuse.Psql.Data.Rows.{
  Sorted, AllSmall, Sorted-none, Sorted-above, ordered-Sorted, find-ordered,
}
use pgfuse.Psql.Data.NextRow.{Present}
use pgfuse.Psql.Data.Copy.{Aligned, further, div_at}
use pgfuse.Psql.Data.ReadLoop.{read_loop-Filled}
use pgfuse.Psql.Data.Readable.{
  rounds_all, compute_block_info-Aligned, times_le, gap, readable, clipped-readable, NoHole,
}

module _ (block_size i offset n : ℕ) (d : Db) (fits : InRange block_size offset n)
    (some_len : 0 < n) (start : offset % block_size ≡ 0)
    (blocks_small : offset + n ≤ 2 ^ 32 * block_size) (stored : IsStored block_size d)
    (small : AllSmall d.blocks) where
  abbrev info : PgDataInfo
  info = compute_block_info block_size offset n

  covers : Covers block_size offset n info
  covers = compute_block_info-Covers block_size offset n fits some_len

  first_offset : info.from_offset ≡ offset % block_size
  unfolding compute_block_info
  first_offset = refl

  aligned : Aligned block_size info
  aligned = compute_block_info-Aligned block_size offset n fits some_len (first_offset ∙ start)

  to_small : info.to_block < 2 ^ 32
  to_small = elim (Bool-cases (ltb info.to_block (2 ^ 32))) [
    | inl e ↦ ground (arith, e)
    | inr e ↦ absurd (
        omega (
          arith,
          covers.finish,
          covers.some_last,
          times_le block_size (2 ^ 32) info.to_block (ground (arith, e)),
          blocks_small,
        ))
  ]

  abbrev rows : List DataRow
  rows = select_blocks i info.from_block info.to_block d

  rows-Sorted : Sorted i info.from_block info.to_block rows
  unfolding select_blocks
  rows-Sorted =
      ordered-Sorted i info.to_block (omega (arith, to_small)) info.from_block d.blocks
        covers.ordered small (λ c. stored.unique i c)

  find-rows :
      (c : ℕ)
      → info.from_block ≤ c
      → c ≤ info.to_block
      → find_block i c rows ≡ find_block i c d.blocks
  unfolding select_blocks
  find-rows c l u =
      find-ordered i info.to_block (omega (arith, to_small)) info.from_block c d.blocks l u
        (λ b. stored.unique i b)

  total_n : (info.to_block - info.from_block) * block_size + info.to_len ≡ n
  total_n = omega (
    arith,
    covers.start,
    covers.finish,
    aligned.at_start,
    gap block_size info.from_block info.to_block covers.ordered,
  )

  base : info.from_block * block_size ≡ offset
  base = omega (arith, covers.start, aligned.at_start)

  -- The blocks that the bytes of the range are in.
  block_at :
      (k : ℕ)
      → k < n
      → (info.from_block ≤ (offset + k) / block_size) × ((offset + k) / block_size ≤ info.to_block)
  block_at k h =
      let p = offset + k in
      (
        ground (
          arith,
          base,
          div-add-mod' p block_size,
          mod-lt p fits.positive,
          further block_size (p / block_size) info.from_block,
        ),
        ground (
          arith,
          covers.finish,
          covers.last_fits,
          div-add-mod' p block_size,
          mod-lt p fits.positive,
          further block_size info.to_block (p / block_size),
        ),
      )

  rows-Present :
      (o : ByteOrder)
      → (o ≡ big) ⊎ NoHole block_size i offset n d
      → Present o i info.from_block info.to_block rows
  rows-Present o (inl host) = inl host
  rows-Present o (inr whole) = inr λ c l u q.
      let (block, _) =
        div_at block_size (c * block_size) c fits.positive (omega arith)
          (omega (arith, fits.positive)) in
      whole (c * block_size) (omega (arith, base, times_le block_size info.from_block c l))
        (omega (arith, covers.finish, covers.some_last, times_le block_size c info.to_block u))
        (ap (λ x. find_block i x d.blocks) block ∙ sym (find-rows c l u) ∙ q)

  outside :
      (c : ℕ) → (leb info.from_block c && leb c info.to_block) ≡ false → find_block i c rows ≡ none
  outside c e = elim (Bool-cases (ltb c info.from_block)) [
    | inl below ↦ Sorted-none i info.from_block info.to_block c rows rows-Sorted (ground arith)
    | inr above ↦
        Sorted-above i info.from_block info.to_block c rows rows-Sorted (ground (arith, e, above))
  ]

  rows_full : (c : ℕ) (xs : List ℕ) → find_block i c rows ≡ some xs → length xs ≡ block_size
  rows_full c xs q = elim (Bool-cases (leb info.from_block c && leb c info.to_block)) [
    | inl e ↦ stored.full i c xs (sym (find-rows c (ground (arith, e)) (ground (arith, e))) ∙ q)
    | inr e ↦ let gone : none ≡ some xs = sym (outside c e) ∙ q in cc
  ]

  place-content :
      (k : ℕ)
      → k < n
      → byte_in
          (find_block i ((info.from_block * block_size + k) / block_size) rows)
          ((info.from_block * block_size + k) % block_size)
        ≡ content block_size d i (offset + k)
  place-content k h =
      let (l, u) = block_at k h in
      rw base (
        ap (λ f. byte_in f ((offset + k) % block_size)) (find-rows ((offset + k) / block_size) l u))

  pub read_blocks-Runs :
      {env : Env} (answers : Answers env) (buf : List ℕ)
      → n < 2 ^ 31
      → n ≤ length buf
      → (env.order ≡ big) ⊎ NoHole block_size i offset n d
      → (buf' : List ℕ) × Runs env (read_blocks block_size i offset n buf) d (ok (n, buf')) d
        × (length buf' ≡ length buf)
        × ((k : ℕ)
            → byte_or buf' k
              ≡ (if ltb k n then content block_size d i (offset + k) else byte_or buf k))
  unfolding read_blocks or_undefined
  read_blocks-Runs {env} answers buf n_small room host =
      let (buf', eq, (len, bytes)) =
        read_loop-Filled env.order block_size i info aligned to_small
          (info.to_block - info.from_block) info.from_block rows 0 buf
          (omega (arith, covers.ordered)) (omega arith) (omega arith) (omega (arith, total_n))
          rows-Sorted (rows-Present env.order host) rows_full in
      (
        buf',
        Runs-bind _ _ (Runs-gets _ d) (
            Runs-bind _ _ (Runs-select answers _ d) (
              Runs-bind _ _ (Runs-allocate answers d) (
                simp
                  (
                    rounds_all info.from_block info.to_block covers.ordered covers.to_small,
                    eq,
                    total_n,
                  )
                  (Runs-bind _ _ (Runs-pure _ d) (
                    simp (==-refl n, as_int_small n n_small)
                      (Runs-bind _ _ (Runs-pure n d) (Runs-pure _ d))))))),
        len,
        λ k. bytes k ∙ ground (arith, total_n, place-content k),
      )

-- Inside a transaction, while no statement fails, a read that starts at the start of a block, of a
-- file whose row is there and has a size beyond that position, into a buffer that is large enough,
-- returns the number of bytes up to the end of the file or of the request, puts the bytes of the
-- file into the buffer and leaves the rest of the buffer and the tables. This holds on a big-endian
-- host, with zeros for blocks that are missing, and on any host if no block of the range is missing.
pub psql_read_buf-content :
    (env : Env) (answers : Answers env) (block_size i offset len : ℕ) (buf : List ℕ) (r : DirRow)
    (d : Db)
    → i < 2 ^ 31
    → select_meta i d ≡ r ∷ []
    → offset < r.size
    → r.size < 2 ^ 61
    → InRange block_size offset len
    → 0 < len
    → offset % block_size ≡ 0
    → offset + len ≤ 2 ^ 32 * block_size
    → IsStored block_size d
    → AllSmall d.blocks
    → len ≤ length buf
    → (env.order ≡ big) ⊎ NoHole block_size i offset (readable r.size offset len) d
    → (buf' : List ℕ) × Runs env
        (psql_read_buf block_size i buf offset len)
        d
        (ok (readable r.size offset len, buf'))
        d
      × (length buf' ≡ length buf)
      × ((k : ℕ)
          → byte_or buf' k ≡ (
              if ltb k (readable r.size offset len)
              then content block_size d i (offset + k)
              else byte_or buf k))
unfolding psql_read_buf to_meta
psql_read_buf-content env answers block_size i offset len buf r d i_small one inside size_small fits
      some_len start blocks_small stored small room host =
    let n = readable r.size offset len in
    let shorter : n ≤ len = ground arith in
    let some_n : 0 < n = ground arith in
    let fits_n : InRange block_size offset n = record {
      positive = fits.positive;
      block_small = fits.block_small;
      end_small = omega (arith, shorter, fits.end_small);
      len_small = omega (arith, shorter, fits.len_small);
    } in
    let (buf', runs, len_same, bytes) =
      read_blocks-Runs block_size i offset n d fits_n some_n start (omega (arith, shorter)) stored
        small {env = env} answers buf (omega (arith, shorter, fits.len_small))
        (omega (arith, shorter)) host in
    let not_empty : (r.size == 0) ≡ false = ground (arith, inside) in
    (
      buf',
      Runs-bind _ _ (psql_read_meta-Runs answers i r d i_small one) (
          simp (not_empty, clipped-readable r.size offset len inside size_small fits.end_small)
            runs),
      len_same,
      bytes,
    )
