-- ===== src/Wire/Laws.antt =====
-- Byte orders cancel out, and where pgsql.c takes a bigint through `ntohl` they do not.
use pgfuse.Base.{◌∙◌, ℕ, ◌+◌, ◌-◌, ◌*◌, ◌/◌, ◌%◌, ◌^◌, ◌<◌, ◌≤◌, ◌≡◌, refl, ap, arith}
use pgfuse.Wire.{
  ByteOrder, little, big, bswap_32, bswap_64, htobe64, be64toh, ntohl, column64, column32, param64,
  Timespec, convert_to_timestamp, convert_from_timestamp, postgres_epoch_date,
}

pub bswap_32-bswap_32 : (x : ℕ) → x < 2 ^ 32 → bswap_32 (bswap_32 x) ≡ x
unfolding bswap_32
bswap_32-bswap_32 x h = omega arith

pub bswap_64-bswap_64 : (x : ℕ) → x < 2 ^ 64 → bswap_64 (bswap_64 x) ≡ x
unfolding bswap_64
bswap_64-bswap_64 x h = omega arith

pub bswap_64-lt : (x : ℕ) → bswap_64 x < 2 ^ 64
unfolding bswap_64
bswap_64-lt x = omega arith

-- A bigint column is read back as the value that the server holds.
pub be64toh-column64 : (o : ByteOrder) (n : ℕ) → n < 2 ^ 64 → be64toh o (column64 o n) ≡ n
unfolding be64toh column64
be64toh-column64 little n h = bswap_64-bswap_64 n h
be64toh-column64 big n h = refl

-- A parameter that `htobe64` made reaches the server as the value of the host.
pub param64-htobe64 : (o : ByteOrder) (n : ℕ) → n < 2 ^ 64 → param64 o (htobe64 o n) ≡ n
unfolding param64 htobe64
param64-htobe64 little n h = bswap_64-bswap_64 n h
param64-htobe64 big n h = refl

-- An integer column is read back by `ntohl` as the value that the server holds.
pub ntohl-column32 : (o : ByteOrder) (n : ℕ) → n < 2 ^ 32 → ntohl o (column32 o n) ≡ n
unfolding ntohl column32 bswap_32
ntohl-column32 little n h = omega arith
ntohl-column32 big n h = omega arith

pub htobe64-be64toh : (o : ByteOrder) (x : ℕ) → x < 2 ^ 64 → htobe64 o (be64toh o x) ≡ x
unfolding htobe64 be64toh
htobe64-be64toh little x h = bswap_64-bswap_64 x h
htobe64-be64toh big x h = refl

pub be64toh-htobe64 : (o : ByteOrder) (x : ℕ) → x < 2 ^ 64 → be64toh o (htobe64 o x) ≡ x
unfolding htobe64 be64toh
be64toh-htobe64 little x h = bswap_64-bswap_64 x h
be64toh-htobe64 big x h = refl

-- What `ntohl` makes of a bigint column: on a big-endian host the low word of the value, on a
-- little-endian host the high word.
abbrev pub word_taken : ByteOrder → ℕ → ℕ
word_taken little n = n / 2 ^ 32
word_taken big n = n % 2 ^ 32

-- On every host `ntohl` of a bigint column is one word of it: the high word on a little-endian
-- host, the low word on a big-endian one.
pub ntohl-column64 : (o : ByteOrder) (n : ℕ) → n < 2 ^ 64 → ntohl o (column64 o n) ≡ word_taken o n
unfolding ntohl column64 bswap_32 bswap_64
ntohl-column64 little n h = omega arith
ntohl-column64 big n h = refl

-- A time of at least the year 2000 comes back with its seconds, and with its nanoseconds cut to
-- microseconds.
pub convert_from_timestamp-convert_to_timestamp :
    (o : ByteOrder) (t : Timespec)
    → postgres_epoch_date ≤ t.tv_sec
    → t.tv_sec < 2 ^ 44
    → t.tv_nsec < 1000000000
    → convert_from_timestamp o (convert_to_timestamp o t)
      ≡ record { tv_sec = t.tv_sec; tv_nsec = t.tv_nsec / 1000 * 1000 }
unfolding convert_from_timestamp convert_to_timestamp
convert_from_timestamp-convert_to_timestamp o t after far nano =
    rw
      (be64toh-htobe64 o
        ((((t.tv_sec + 2 ^ 64 - postgres_epoch_date) % 2 ^ 64) * 1000000 + t.tv_nsec / 1000)
          % 2 ^ 64)
        (omega arith))
      (ground arith)

pub be64toh-lt : (o : ByteOrder) (x : ℕ) → x < 2 ^ 64 → be64toh o x < 2 ^ 64
unfolding be64toh
be64toh-lt little x h = bswap_64-lt x
be64toh-lt big x h = h

micros :
    (t : ℕ)
    → t < 2 ^ 64
    → (((postgres_epoch_date + t / 1000000) % 2 ^ 64 + 2 ^ 64 - postgres_epoch_date)
            % 2 ^ 64
            * 1000000
          + t % 1000000 * 1000 / 1000)
        % 2 ^ 64
      ≡ t
micros t h = omega arith

-- Reading a stored timestamp and writing it again leaves the column as it was, for every value of
-- the column and on every host.
pub convert_to_timestamp-convert_from_timestamp :
    (o : ByteOrder) (raw : ℕ)
    → raw < 2 ^ 64
    → convert_to_timestamp o (convert_from_timestamp o raw) ≡ raw
unfolding convert_from_timestamp convert_to_timestamp
convert_to_timestamp-convert_from_timestamp o raw h =
    ap (htobe64 o) (micros (be64toh o raw) (be64toh-lt o raw h)) ∙ htobe64-be64toh o raw h

-- A parameter that comes back as a column is the same 64 bits.
pub column64-param64 : (o : ByteOrder) (x : ℕ) → x < 2 ^ 64 → column64 o (param64 o x) ≡ x
unfolding column64 param64
column64-param64 little x h = bswap_64-bswap_64 x h
column64-param64 big x h = refl

pub convert_to_timestamp-lt : (o : ByteOrder) (t : Timespec) → convert_to_timestamp o t < 2 ^ 64
unfolding convert_to_timestamp htobe64
convert_to_timestamp-lt little t = bswap_64-lt _
convert_to_timestamp-lt big t = omega arith

-- And a column that is sent back as a parameter is the same 64 bits.
pub param64-column64 : (o : ByteOrder) (x : ℕ) → x < 2 ^ 64 → param64 o (column64 o x) ≡ x
unfolding column64 param64
param64-column64 little x h = bswap_64-bswap_64 x h
param64-column64 big x h = refl

pub column64-lt : (o : ByteOrder) (x : ℕ) → x < 2 ^ 64 → column64 o x < 2 ^ 64
unfolding column64
column64-lt little x h = bswap_64-lt x
column64-lt big x h = h
