-- ===== src/Psql/Data/Copy.antt =====
-- The copies of psql_read_buf into the buffer of the caller, and the blocks that bytes are in.
use native.Mathlib.Nat.{div-add-mod', mod-lt}
use pgfuse.Base.{
  ℕ, ◌+◌, ◌-◌, ◌*◌, ◌/◌, ◌%◌, ◌^◌, ◌≤◌, ◌<◌, ◌≡◌, ap, refl, true, ◌&&◌, Option, some, List, ◌++◌,
  arith, ltb, leb, if◌then◌else◌, length, byte_or, take, drop, byte_or-append, byte_or-take,
  byte_or-drop, length-append, length-take, length-drop,
}
use pgfuse.Block.{PgDataInfo}
use pgfuse.Psql.Data.{memcpy, sub64}

-- The copy stays inside of both buffers.
pub memcpy_inside :
    (buf : List ℕ) (dst : ℕ) (src : List ℕ) (n : ℕ)
    → n ≤ length src
    → dst + n ≤ length buf
    → (buf' : List ℕ) × (memcpy buf dst src 0 n ≡ some buf')
      × (length buf' ≡ length buf)
      × ((k : ℕ)
          → byte_or buf' k
            ≡ (if leb dst k && ltb k (dst + n) then byte_or src (k - dst) else byte_or buf k))
unfolding memcpy
memcpy_inside buf dst src n hs hb =
    let inside : (leb (0 + n) (length src) && leb (dst + n) (length buf)) ≡ true = ground arith in
    (
      take dst buf ++ (take n (drop 0 src) ++ drop (dst + n) buf),
      rw inside refl,
      omega (
        arith,
        length-append (take dst buf) (take n src ++ drop (dst + n) buf),
        length-append (take n src) (drop (dst + n) buf),
        length-take dst buf (omega arith),
        length-take n src hs,
        length-drop (dst + n) buf,
      ),
      λ k.
          simp
            (
              byte_or-append,
              byte_or-take,
              byte_or-drop,
              length-take dst buf (omega arith),
              length-take n src hs,
            )
            (ground arith),
    )

pub further : (bs a q : ℕ) → a < q → a * bs + bs ≤ q * bs
further bs a q less = grind arith

pub div_at :
    (bs p q : ℕ) → 0 < bs → q * bs ≤ p → p < q * bs + bs → (p / bs ≡ q) × (p % bs ≡ p - q * bs)
div_at bs p q positive low high =
    let block : p / bs ≡ q =
      ground (
        arith,
        div-add-mod' p bs,
        mod-lt p positive,
        further bs q (p / bs),
        further bs (p / bs) q,
      ) in
    let start : p / bs * bs ≡ q * bs = ap (λ x. x * bs) block in
    (block, omega (arith, div-add-mod' p bs, start))

sub64-zero : (n : ℕ) → n < 2 ^ 64 → sub64 n 0 ≡ n
sub64-zero n h = omega arith

pub first_copy :
    (buf bytes : List ℕ) (dst off len n : ℕ)
    → off ≡ 0
    → len ≡ n
    → n < 2 ^ 64
    → ◌≡◌ {A = Option (List ℕ) × ℕ}
        (memcpy buf dst bytes off (sub64 len off), len)
        (memcpy buf dst bytes 0 n, n)
first_copy buf bytes dst off len n e f h =
    rw (e, f) (ap (λ x. (memcpy buf dst bytes 0 x, n)) (sub64-zero n h))

-- A range that starts at the start of a block.
pub record Aligned (block_size : ℕ) (info : PgDataInfo) : Type 0 where
  pub positive : 0 < block_size
  pub block_small : block_size < 2 ^ 31
  pub at_start : info.from_offset ≡ 0
  pub ordered : info.from_block ≤ info.to_block
  pub last_fits : info.to_len ≤ block_size
  pub one : info.from_block ≡ info.to_block → info.from_len ≡ info.to_len
  pub many : info.from_block < info.to_block → info.from_len ≡ block_size
