-- ===== src/Lib.antt =====
-- PgFuse: a file system in a PostgreSQL database. FUSE calls the hooks of pgfuse.c; a hook takes a
-- connection, its own or one of the pool of pool.c, begins a transaction, calls the functions of
-- pgsql.c, which send SQL to the tables of schema.sql, and ends the transaction.
--
-- Base (Ints, Lists, Bytes): tests, lists and words over the native numbers.
-- Wire, Wire/Laws: endian.h and pgsql.c, lines 36-55. The byte order of the host is a parameter.
-- Block, Block/Bounds: PgDataInfo and compute_block_info of pgsql.c, with every conversion between
--   off_t, size_t, int64_t and int.
-- Db: schema.sql and the SQL texts of pgsql.c. A table is a list of rows, a statement a function
--   on the two tables; a statement that a key or a reference refuses is `none`. The functions
--   state what PostgreSQL documents of these statements.
-- Session: a connection as a state (what is committed, what the session sees, whether it is in a
--   transaction, the sequence of dir.id, how many calls left the program, how many connections are
--   leased) and an action `M` with the C return codes: `ok` for 0 and above, `err n` for -n,
--   `fault` for undefined behaviour. Which statements and allocations fail is a parameter,
--   `Env.fails`, and so are the byte order, the time and the caller's ids. Session/Keeps,
--   Session/Runs, Session/Numbered, Session/Fails and Session/Always have one rule for each way to
--   build an action: what it keeps, what it does when nothing fails, with the sequence beside it
--   or with an error, and what its results have.
-- Store: the bytes of a file as the table `data` holds them; a missing block stands for zeros.
-- Pool, Pool/Owner, Pool/Run, Pool/Served: pool.c. An array slot is a connection and a pthread_t.
--   In Pool/Run each scan and each release under the lock is one step, and the steps of the
--   threads come in any order; in Pool/Served psql_pool_acquire runs over the turns that its
--   thread gets.
-- Psql: the functions of pgsql.c by their names: Tx (begin, commit, rollback), Meta (rows of
--   dir), Path (paths), Data (blocks: write, read, truncate), Stat (counts), Tablespace (where
--   the server stores them, from the answers of its catalogs). Psql/Uncommitted says that none
--   of them commits; Data/Splice, Data/Put, Data/Written and Data/WriteBuf follow a write from
--   one UPDATE text to the whole request; Data/Rows, Data/NextRow, Data/Copy, Data/ReadLoop,
--   Data/Readable and Data/ReadBuf follow a read from the start of a block, Data/Unaligned has
--   one from within a block, Data/Cut and Data/Truncate a truncation; Stored has the metadata
--   written and read, Removed the deletion of a file, Inserted a new row, Moved a row with
--   another name, Resized a row with another size, Words the columns that are read short,
--   Path/Parts how a path is cut, Path/Leads where its names lead.
-- Fuse: the hooks of pgfuse.c by their names. `transact` is the frame that a hook has around its
--   body: ACQUIRE, PSQL_BEGIN, and on every way out PSQL_COMMIT or PSQL_ROLLBACK and RELEASE.
--   Context, Attr, Create, Remove, FileIo, Rename, Statfs and Nothing have the hooks, Oper the
--   table pgfuse_oper, Mount init and destroy; Bodies, Atomic, Clean, Refused, ReadOnly, Leak
--   and Committed have what is proved of them, and so have the modules below Statfs. FileSpec
--   has an open file as an array of bytes, FileSpec/Refines and FileSpec/Reads that the hooks
--   are as good as it, Places the directory of a path, Created what create commits, Unlinked
--   what unlink makes of it, Renamed what rename commits, Errors what the hooks refuse.
-- Main, Main/Start, Main/Arguments: the options, and the tests of main before it mounts.
-- Tests (Blocks, Hooks, Rows, Shared, Begin, Statfs, Files, Created, Renamed): the theorems at
--   concrete inputs.
--
-- Bounds: the jump `update_again` is recursion on two rounds, since the first round without a row
-- adds the row and the second updates it (Psql/Data/Again has that more rounds change nothing);
-- the loops over blocks are recursion on their number of rounds, computed as the C comparisons
-- compute it. All other loops are recursion on a list.
--
-- Not modelled: syslog and verbose output, print_usage and flags_to_string; fuse_opt_parse and
-- fuse_main of libfuse, of which the calls of pgfuse_opt_proc and the result are parameters. The
-- catalogs of the server, realpath, the mount table and statfs(2) are parameters, and so are the
-- results of the pthread functions. Memory is modelled where the code meets NULL or copies out of
-- range. The isolation of concurrent transactions is the server's.
pub mod Base
pub mod Wire
pub mod Block
pub mod Db
pub mod Session
pub mod Store
pub mod Pool
pub mod Psql
pub mod Fuse
pub mod Main
pub mod Tests
