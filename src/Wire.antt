-- ===== src/Wire.antt =====
-- pgsql.c, lines 36-55, and endian.h: the binary parameters and columns of libpq. PostgreSQL sends
-- and reads numbers most significant byte first; the host keeps its words in its own byte order.
use pgfuse.Base.{ℕ, ◌+◌, ◌-◌, ◌*◌, ◌/◌, ◌%◌, ◌^◌, ◌<◌, ◌≤◌, ◌≡◌, refl, arith, List, [], ◌∷◌}
pub mod Laws

-- `__BYTE_ORDER`.
pub data ByteOrder : Type 0 where
  little big : ByteOrder

-- The byte of weight 256 ^ k.
abbrev byte : ℕ → ℕ → ℕ
byte x k = x / 256 ^ k % 256

unfoldable pub bswap_32 : ℕ → ℕ
bswap_32 x = byte x 0 * 256 ^ 3 + byte x 1 * 256 ^ 2 + byte x 2 * 256 + byte x 3

unfoldable pub bswap_64 : ℕ → ℕ
bswap_64 x =
    byte x 0 * 256 ^ 7
    + byte x 1 * 256 ^ 6
    + byte x 2 * 256 ^ 5
    + byte x 3 * 256 ^ 4
    + byte x 4 * 256 ^ 3
    + byte x 5 * 256 ^ 2
    + byte x 6 * 256
    + byte x 7

unfoldable pub htobe64 : ByteOrder → ℕ → ℕ
htobe64 little x = bswap_64 x
htobe64 big x = x

unfoldable pub be64toh : ByteOrder → ℕ → ℕ
be64toh little x = bswap_64 x
be64toh big x = x

-- The argument of `htonl` and `ntohl` is a uint32_t: a wider value is truncated.
unfoldable pub htonl : ByteOrder → ℕ → ℕ
htonl little x = bswap_32 (x % 2 ^ 32)
htonl big x = x % 2 ^ 32

unfoldable pub ntohl : ByteOrder → ℕ → ℕ
ntohl little x = bswap_32 (x % 2 ^ 32)
ntohl big x = x % 2 ^ 32

-- `*( (int64_t *)data )` on the eight bytes that the server sent for the bigint `n`.
unfoldable pub column64 : ByteOrder → ℕ → ℕ
column64 little n = bswap_64 n
column64 big n = n

-- `*( (uint32_t *)data )` on the four bytes that the server sent for the integer `n`.
unfoldable pub column32 : ByteOrder → ℕ → ℕ
column32 little n = bswap_32 n
column32 big n = n

-- What the server reads from the eight bytes of a parameter that holds `w` on the host.
unfoldable pub param64 : ByteOrder → ℕ → ℕ
param64 little w = bswap_64 w
param64 big w = w

abbrev pub postgres_epoch_date : ℕ
postgres_epoch_date = 946684800

pub record Timespec : Type 0 where
  pub tv_sec : ℕ
  pub tv_nsec : ℕ

-- The arithmetic is that of uint64_t; `tv_sec` is the pattern of a time_t.
unfoldable pub convert_to_timestamp : ByteOrder → Timespec → ℕ
convert_to_timestamp o t =
    htobe64 o
      (((t.tv_sec + 2 ^ 64 - postgres_epoch_date) % 2 ^ 64 * 1000000 + t.tv_nsec / 1000) % 2 ^ 64)

unfoldable pub convert_from_timestamp : ByteOrder → ℕ → Timespec
convert_from_timestamp o raw = record {
  tv_sec = (postgres_epoch_date + be64toh o raw / 1000000) % 2 ^ 64;
  tv_nsec = be64toh o raw % 1000000 * 1000;
}
