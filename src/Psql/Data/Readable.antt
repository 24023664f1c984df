-- ===== src/Psql/Data/Readable.antt =====
-- psql_read_buf, pgsql.c, lines 336-347: how many bytes a read comes to, and in which blocks.
use pgfuse.Base.{
  ℕ, suc, ◌+◌, ◌-◌, ◌*◌, ◌/◌, ◌^◌, ◌≤◌, ◌<◌, ◌≡◌, ◌≢◌, ◌∙◌, sym, ap, none, arith, ltb,
  if◌then◌else◌, sle64-eq-leb,
}
use pgfuse.Db.{Db}
use pgfuse.Block.{compute_block_info}
use pgfuse.Block.Bounds.{InRange, compute_block_info-Covers}
use pgfuse.Store.{find_block}
use pgfuse.Psql.Data.{rounds_upto, clipped}
use pgfuse.Psql.Data.Copy.{Aligned}

pub rounds_all : (from to : ℕ) → from ≤ to → to < 2 ^ 62 → rounds_upto from to ≡ suc (to - from)
rounds_all from to h small = ground (arith, sle64-eq-leb from to)

-- A request at the start of a block.
pub compute_block_info-Aligned :
    (block_size offset len : ℕ)
    → InRange block_size offset len
    → 0 < len
    → (compute_block_info block_size offset len).from_offset ≡ 0
    → Aligned block_size (compute_block_info block_size offset len)
compute_block_info-Aligned block_size offset len fits some_len at =
    let c = compute_block_info-Covers block_size offset len fits some_len in
    record {
      positive = fits.positive;
      block_small = fits.block_small;
      at_start = at;
      ordered = c.ordered;
      last_fits = c.last_fits;
      one = λ e. omega (arith, c.one e, c.start, c.finish, at, ap (λ x. x * block_size) e);
      many = λ h. omega (arith, c.many h, at);
    }

pub times_le : (bs a b : ℕ) → a ≤ b → a * bs ≤ b * bs
times_le bs a b h = grind arith

pub gap : (bs a b : ℕ) → a ≤ b → (b - a) * bs + a * bs ≡ b * bs
gap bs a b h =
    let apart : b ≡ b - a + a = omega arith in
    let spread : (b - a) * bs + a * bs ≡ (b - a + a) * bs = omega arith in
    spread ∙ ap (λ x. x * bs) (sym apart)

-- How many bytes a read comes to.
abbrev pub readable : ℕ → ℕ → ℕ → ℕ
readable size offset len = if ltb size (offset + len) then size - offset else len

pub clipped-readable :
    (size offset len : ℕ)
    → offset < size
    → size < 2 ^ 61
    → offset + len < 2 ^ 61
    → clipped size offset len ≡ readable size offset len
clipped-readable size offset len h s e = ground arith

-- Every byte of the range is in a block that is there.
abbrev pub NoHole : ℕ → ℕ → ℕ → ℕ → Db → Type 0
NoHole block_size i offset n d =
    (p : ℕ) → offset ≤ p → p < offset + n → find_block i (p / block_size) d.blocks ≢ none
