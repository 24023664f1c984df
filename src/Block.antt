-- ===== src/Block.antt =====
-- pgsql.c, lines 57-93: how a range of bytes falls on the blocks of the data table. Sizes are
-- size_t; `from_block` and `to_block` are int64_t patterns, and `nof_blocks` is an int.
use pgfuse.Base.{
  ℕ, ◌+◌, ◌-◌, ◌*◌, ◌/◌, ◌%◌, ◌^◌, ◌<◌, ◌≤◌, ◌≡◌, arith, ◌==◌, if◌then◌else◌, sext32, is_negative,
}
pub mod Bounds

pub record PgDataInfo : Type 0 where
  pub from_block : ℕ
  pub from_offset : ℕ
  pub from_len : ℕ
  pub to_block : ℕ
  pub to_len : ℕ

-- `info.to_block--; if( info.to_block < 0 ) info.to_block = 0;`
abbrev step_back : ℕ → ℕ
step_back b = let p = (b + 2 ^ 64 - 1) % 2 ^ 64 in if is_negative p then 0 else p

unfoldable pub compute_block_info : ℕ → ℕ → ℕ → PgDataInfo
compute_block_info block_size offset len =
    let from_offset = offset % block_size in
    let end = (from_offset + len) % 2 ^ 64 in
    let nof_blocks = sext32 (end / block_size) in
    let to_block = (offset / block_size + nof_blocks) % 2 ^ 64 in
    record {
      from_block = offset / block_size;
      from_offset = from_offset;
      from_len = if nof_blocks == 0 then len else (block_size + 2 ^ 64 - from_offset) % 2 ^ 64;
      to_block = if end % block_size == 0 then step_back to_block else to_block;
      to_len = if end % block_size == 0 then block_size else end % block_size;
    }
