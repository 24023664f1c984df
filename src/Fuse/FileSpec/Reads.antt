-- ===== src/Fuse/FileSpec/Reads.antt =====
-- pgfuse_read, pgfuse.c, lines 799-829, against the array of bytes.
use pgfuse.Base.{
  ℕ, ◌+◌, ◌*◌, ◌%◌, ◌^◌, ◌≤◌, ◌<◌, ◌≡◌, ◌≢◌, ◌⊎◌, ◌∙◌, sym, ap, false, List, arith, ◌==◌, ltb,
  if◌then◌else◌, length, byte_or,
}
use pgfuse.Wire.{big}
use pgfuse.Db.{Db}
use pgfuse.Block.Bounds.{InRange}
use pgfuse.Session.{ok, Env, idle, Session}
use pgfuse.Session.Runs.{Answers, Runs, Runs-pure, Runs-bind}
use pgfuse.Psql.Data.{psql_read_buf}
use pgfuse.Psql.Data.Rows.{AllSmall}
use pgfuse.Psql.Data.ReadBuf.{psql_read_buf-content}
use pgfuse.Psql.Data.Readable.{readable, NoHole}
use pgfuse.Fuse.Context.{PgFuseData, commit}
use pgfuse.Fuse.FileIo.{expect_handle, read_body, pgfuse_read}
use pgfuse.Fuse.Atomic.{PoolServes}
use pgfuse.Fuse.Committed.{IsCommitted, transact-Runs}
use pgfuse.Fuse.FileSpec.{File, Represents}

-- The first `n` bytes are those of the file from `offset` on, the others those of the old buffer.
pub record IsRead (f : File) (offset n : ℕ) (buf buf' : List ℕ) : Type 0 where
  pub room : length buf' ≡ length buf
  pub bytes : (k : ℕ) → byte_or buf' k ≡ (if ltb k n then f.byte (offset + k) else byte_or buf k)

read_body-Runs :
    (env : Env) (d : PgFuseData) (fh : ℕ) (buf buf' : List ℕ) (size offset n : ℕ) (t : Db)
    → fh ≢ 0
    → Runs env (psql_read_buf d.block_size fh buf offset size) t (ok (n, buf')) t
    → Runs env (read_body d fh buf size offset) t (ok (commit (n, buf'))) t
unfolding read_body expect_handle
read_body-Runs env d fh buf buf' size offset n t some runs =
    let handle : (fh == 0) ≡ false = ground arith in
    simp handle (Runs-bind _ _ (Runs-pure tt t) (Runs-bind _ _ runs (Runs-pure _ t)))

-- While no statement and no request to the pool fails, a read through the handle of a file, from the
-- start of a block that is before its end, returns the number of bytes up to the end of the file or
-- of the request and puts the bytes of the array that the tables stand for into the buffer, of
-- which it leaves the rest; the committed tables stay as they are. The request is within range and
-- the buffer large enough, block numbers are below 2 ^ 32, and the host is big-endian or no block of
-- the range is missing.
pub pgfuse_read-Represents :
    (env : Env) (answers : Answers env) (d : PgFuseData) (pool : PoolServes env) (fh : ℕ)
    (buf : List ℕ) (size offset : ℕ) (s : Session) (f : File)
    → s.tx ≡ idle
    → fh ≢ 0
    → fh < 2 ^ 31
    → Represents d.block_size fh s.work f
    → offset < f.size
    → f.size < 2 ^ 61
    → InRange d.block_size offset size
    → 0 < size
    → offset % d.block_size ≡ 0
    → offset + size ≤ 2 ^ 32 * d.block_size
    → AllSmall s.work.blocks
    → size ≤ length buf
    → (env.order ≡ big) ⊎ NoHole d.block_size fh offset (readable f.size offset size) s.work
    → (buf' : List ℕ) × IsCommitted
        (readable f.size offset size, buf')
        s.work
        (pgfuse_read d fh buf size offset env s)
      × IsRead f offset (readable f.size offset size) buf buf'
unfolding pgfuse_read
pgfuse_read-Represents env answers d pool fh buf size offset s f closed some small h inside
      size_small fits some_len start blocks_small all_small room host =
    let same = h.sized in
    let (buf', runs, len, bytes) =
      psql_read_buf-content env answers d.block_size fh offset size buf h.row s.work small h.one
        (rw (sym same) at inside) (rw (sym same) at size_small) fits some_len start blocks_small
        h.stored all_small room (rw (sym same) at host) in
    let at_size : readable h.row.size offset size ≡ readable f.size offset size =
      ap (λ x. readable x offset size) same in
    (
      buf',
      rw (sym at_size) (
          transact-Runs env answers d pool (read_body d fh buf size offset) _ s s.work closed
            (read_body-Runs env d fh buf buf' size offset _ s.work some runs)),
      record {
        room = len;
        bytes = λ k. bytes k ∙ ground (arith, same, h.bytes (offset + k), fits.end_small);
      },
    )
