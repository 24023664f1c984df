-- ===== src/Tests.antt =====
-- Tables, sessions and hosts for the tests.
use pgfuse.Base.{
  ℕ, some, none, ltb, if◌then◌else◌, ◌==◌, ◌≢◌, ◌/◌, ◌+◌, ◌*◌, ◌≡◌, refl, true, false, List, [],
  ◌∷◌, arith,
}
use pgfuse.Wire.{little, Timespec, convert_to_timestamp, convert_from_timestamp, column64, ntohl}
use pgfuse.Wire.Laws.{
  word_taken, ntohl-column64, convert_from_timestamp-convert_to_timestamp,
  convert_to_timestamp-convert_from_timestamp,
}
use pgfuse.Block.{compute_block_info}
use pgfuse.Block.Bounds.{InRange, Covers, compute_block_info-Covers}
use pgfuse.Psql.Resized.{HasTimes}
use pgfuse.Db.{DirRow, Db, select_child}
use pgfuse.Session.{ok, err, Env, idle, Session, pure, raise, ◌>>=◌, allocate, execute, select}
use pgfuse.Session.Runs.{Runs}
use pgfuse.Store.{IsStored}
use pgfuse.Psql.Data.{write_text, psql_write_buf}
use pgfuse.Psql.Data.Splice.{Splices, write_text-Splices}
use pgfuse.Psql.Data.Written.{Written}
use pgfuse.Psql.Data.WriteBuf.{psql_write_buf-Written}
use pgfuse.Psql.Meta.{one_row}
use pgfuse.Psql.Path.{psql_read_meta_from_path, psql_path_to_id, path_parts, split_from, walk}
use pgfuse.Pool.{
  Slot, available, error, Start, connect_slots, psql_pool_init, find_free, psql_pool_release,
  psql_pool_destroy,
}
use pgfuse.Pool.Owner.{owner}
use pgfuse.Pool.Run.{
  System, IsFresh, Reachable, starts, acquires, acquire_exclusive, release_succeeds,
  destroy_finishes_all,
}
use pgfuse.Fuse.Context.{PgFuseData}
use pgfuse.Fuse.Rename.{pgfuse_rename}
use pgfuse.Fuse.Leak.{begun, pgfuse_rename_leaks}
use pgfuse.Fuse.Oper.{Call, perform}
use pgfuse.Fuse.Atomic.{IsAtomic, perform-IsAtomic}
use pgfuse.Fuse.ReadOnly.{perform_read_only}
use pgfuse.Base.{◌++◌, ◌%◌, ◌^◌}
use pgfuse.Db.{select_meta, update_meta, select_octet_length}
use pgfuse.Session.{◌>>◌}
use pgfuse.Psql.Meta.{PgMeta, to_meta, set_meta, psql_read_meta, psql_write_meta}
use pgfuse.Psql.Stat.{psql_get_block_size}
use pgfuse.Psql.Stored.{IsRecent, kept, psql_read_meta-psql_write_meta}
use pgfuse.Psql.Path.Parts.{path_of, path_parts-append, path_parts-path_of}
use pgfuse.Psql.Data.{psql_truncate}
use pgfuse.Psql.Data.Cut.{Truncated}
use pgfuse.Psql.Data.Truncate.{psql_truncate-Truncated, psql_truncate_to_zero}
use pgfuse.Fuse.FileIo.{pgfuse_write, grown}
use pgfuse.Fuse.Committed.{pgfuse_write-Written}
use pgfuse.Main.{PgFuseOptions, default_options, Tested, mounts, main}
use pgfuse.Base.{byte_or, inr, length}
use pgfuse.Store.{content}
use pgfuse.Psql.Data.{psql_read_buf}
use pgfuse.Psql.Data.ReadBuf.{psql_read_buf-content}
use pgfuse.Psql.Data.Readable.{NoHole}
pub mod Blocks
pub mod Hooks
pub mod Rows
pub mod Statfs
pub mod Shared
pub mod Begin
pub mod Files
pub mod Created
pub mod Renamed

-- A server that answers, one that does not, and a mount of blocks of four bytes.
abbrev pub answering : Env
answering = record {
  fails = λ n. false;
  pool_fails = λ n. false;
  order = little;
  now = record { tv_sec = 1000000000; tv_nsec = 0 };
  uid = 1000;
  gid = 1000;
}

abbrev pub silent : Env
silent = record answering { fails = λ n. true }

abbrev pub mount : PgFuseData
mount = record {
  conninfo = none;
  mountpoint = none;
  verbose = false;
  read_only = false;
  multi_threaded = true;
  block_size = 4;
}

abbrev pub mount_ro : PgFuseData
mount_ro = record mount { read_only = true }

-- The root, and a file `/f` with one block.
abbrev pub root_row : DirRow
root_row = record {
  id = 0;
  parent_id = 0;
  name = b'/' ∷ [];
  size = 0;
  mode = 16895;
  uid = 0;
  gid = 0;
  ctime = 0;
  mtime = 0;
  atime = 0;
}

abbrev pub file_row : DirRow
file_row = record root_row { id = 2; name = b'f' ∷ []; size = 4; mode = 33188 }

abbrev pub tables : Db
tables = record {
  dir = root_row ∷ file_row ∷ [];
  blocks = record { dir_id = 2; block_no = 0; bytes = 9 ∷ 8 ∷ 7 ∷ 6 ∷ [] } ∷ [];
}

abbrev pub session : Session
session = record { base = tables; work = tables; tx = idle; serial = 3; calls = 0; leases = 0 }

abbrev pub path_f : List ℕ
path_f = b'/' ∷ b'f' ∷ []

abbrev pub six : List ℕ
six = 1 ∷ 2 ∷ 3 ∷ 4 ∷ 5 ∷ 6 ∷ []

pub tables-IsStored : IsStored 4 tables
tables-IsStored = record { unique = λ i b. ground arith; full = λ i b bytes. ground arith }

pub small_request : InRange 4 3 6
small_request = record {
  positive = omega arith;
  block_small = omega arith;
  end_small = omega arith;
  len_small = omega arith;
}

pub large_request : InRange 4 0 3
large_request = record {
  positive = omega arith;
  block_small = omega arith;
  end_small = omega arith;
  len_small = omega arith;
}

pub row_of_f : select_meta 2 tables ≡ file_row ∷ []
unfolding select_meta
row_of_f = refl

abbrev pub path_x : List ℕ
path_x = b'/' ∷ b'x' ∷ []

pub file_times : HasTimes file_row
file_times = record { ctime = omega arith; mtime = omega arith; atime = omega arith }
