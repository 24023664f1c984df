-- ===== src/Block/Bounds.antt =====
-- Where the blocks of a range lie, in the domain where no conversion of compute_block_info wraps.
use native.Mathlib.Nat.{div-mul-le_self, div-add-mod', mod-lt}
use pgfuse.Base.{
  zero, suc, Bool-cases, inl, inr, ==-eq, ℕ, ◌+◌, ◌-◌, ◌*◌, ◌/◌, ◌%◌, ◌^◌, ◌<◌, ◌≤◌, ◌≡◌, ap, arith,
  ◌==◌, if◌then◌else◌, sext32, sext32_small,
}
use pgfuse.Block.{PgDataInfo, compute_block_info, step_back}

-- A request that the C types carry without wrapping.
pub record InRange (block_size offset len : ℕ) : Type 0 where
  pub positive : 0 < block_size
  pub block_small : block_size < 2 ^ 31
  pub end_small : offset + len < 2 ^ 61
  pub len_small : len < 2 ^ 30

-- The first and the last block of a range of bytes, and what of each belongs to it.
pub record Covers (block_size offset len : ℕ) (info : PgDataInfo) : Type 0 where
  pub start : info.from_block * block_size + info.from_offset ≡ offset
  pub inside : info.from_offset < block_size
  pub finish : info.to_block * block_size + info.to_len ≡ offset + len
  pub some_last : 0 < info.to_len
  pub last_fits : info.to_len ≤ block_size
  pub ordered : info.from_block ≤ info.to_block
  pub to_small : info.to_block < 2 ^ 62
  pub one : info.from_block ≡ info.to_block → info.from_len ≡ len
  pub many : info.from_block < info.to_block → info.from_offset + info.from_len ≡ block_size

mul_le_of_lt : (q bs n : ℕ) → q * bs < bs + n → 0 < bs → q ≤ n + 1
mul_le_of_lt zero bs n h p = omega arith
mul_le_of_lt (suc q) bs n h p = grind arith

pub div_le : (n bs : ℕ) → 0 < bs → n / bs ≤ n
div_le n bs h = grind arith

add_back : (a q bs : ℕ) → 0 < q → (a + q - 1) * bs + bs ≡ a * bs + q * bs
add_back a zero bs h = absurd (omega arith)
add_back a (suc q) bs h = let e : a + suc q - 1 ≡ a + q = omega arith in rw e (omega arith)

-- The computed block numbers with every conversion gone.
module _ (block_size offset len : ℕ) (fits : InRange block_size offset len) where
  open fits use {positive, block_small, end_small, len_small}

  abbrev from_offset : ℕ
  from_offset = offset % block_size

  abbrev end : ℕ
  end = from_offset + len

  inside_lem : from_offset < block_size
  inside_lem = grind arith

  end_plain : end % 2 ^ 64 ≡ end
  end_plain = omega (arith, inside_lem)

  blocks_small : end / block_size < 2 ^ 31
  blocks_small = omega (
    arith,
    mul_le_of_lt (end / block_size) block_size len
        (omega (arith, inside_lem, div-mul-le_self end block_size)) positive,
  )

  blocks_plain : sext32 (end / block_size) ≡ end / block_size
  blocks_plain = sext32_small (end / block_size) blocks_small

  to_block_plain :
      (offset / block_size + end / block_size) % 2 ^ 64 ≡ offset / block_size + end / block_size
  to_block_plain = omega (arith, div_le offset block_size positive, blocks_small)

  abbrev plain : PgDataInfo
  plain = record {
    from_block = offset / block_size;
    from_offset = from_offset;
    from_len = if end / block_size == 0 then len else block_size - from_offset;
    to_block =
        if end % block_size == 0
        then offset / block_size + end / block_size - 1
        else offset / block_size + end / block_size;
    to_len = if end % block_size == 0 then block_size else end % block_size;
  }

  some_block : 0 < len → end % block_size ≡ 0 → 0 < end / block_size
  some_block some e = grind (arith, div-add-mod' end block_size)

  step_back_plain : (b : ℕ) → 0 < b → b < 2 ^ 62 → step_back b ≡ b - 1
  step_back_plain b h k = ground arith

  sum_small : offset / block_size + end / block_size < 2 ^ 62
  sum_small = omega (arith, div_le offset block_size positive, blocks_small)

  pub compute_block_info_lem : 0 < len → compute_block_info block_size offset len ≡ plain
  unfolding compute_block_info
  compute_block_info_lem some =
      rw (end_plain, blocks_plain, to_block_plain)
        (ground (arith, some_block some, sum_small, inside_lem))

  finish_lem : 0 < len → plain.to_block * block_size + plain.to_len ≡ offset + len
  finish_lem some = elim (Bool-cases (end % block_size == 0)) [
    | inl e ↦ rw e (
        omega (
          arith,
          add_back (offset / block_size) (end / block_size) block_size
              (some_block some (==-eq _ _ e)),
          div-add-mod' offset block_size,
          div-add-mod' end block_size,
          ==-eq (end % block_size) 0 e,
        ))
    | inr e ↦ rw e (omega (arith, div-add-mod' offset block_size, div-add-mod' end block_size))
  ]

  -- The last block is the first only where the range stays in one block.
  one_block : 0 < len → end % block_size ≡ 0 → end / block_size ≡ 1 → len ≡ block_size - from_offset
  one_block some e q =
      let counted : end / block_size * block_size ≡ 1 * block_size = ap (λ x. x * block_size) q in
      omega (arith, div-add-mod' end block_size, counted, e)

  -- On a request that is not empty and within range, the block numbers, offsets and lengths that
  -- are computed cut the bytes of the request exactly: the first block starts where the request
  -- starts, the last one ends where it ends and holds at least one of its bytes, and a first block
  -- that is not the last is taken up to its end.
  pub compute_block_info-Covers :
      0 < len → Covers block_size offset len (compute_block_info block_size offset len)
  compute_block_info-Covers some = rw (compute_block_info_lem some) (record {
    start = omega (arith, div-add-mod' offset block_size);
    inside = inside_lem;
    finish = finish_lem some;
    some_last = ground arith;
    last_fits = ground (arith, mod-lt end positive);
    ordered = ground (arith, some_block some);
    to_small = ground (arith, sum_small);
    one = ground (arith, some_block some, one_block some);
    many = ground (arith, inside_lem);
  })
