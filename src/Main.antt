-- ===== src/Main.antt =====
-- pgfuse.c, lines 1508-1580 and 1613-1714: the options, and the tests that main makes before it
-- mounts. libfuse calls pgfuse_opt_proc for each argument and stops at the first -1.
use pgfuse.Base.{
  ℕ, ◌+◌, ◌-◌, ◌%◌, ◌^◌, Bool, true, false, Option, none, some, List, [], ◌∷◌, ◌==◌, ltb, leb,
  if◌then◌else◌, str_eq,
}
use pgfuse.Session.{Ret, ok, err, fault, Env, Session, M}
use pgfuse.Psql.Stat.{psql_get_block_size}
use pgfuse.Fuse.Context.{PgFuseData}
pub mod Start
pub mod Arguments

pub record PgFuseOptions : Type 0 where
  pub print_help : Bool
  pub print_version : Bool
  pub verbose : Bool
  pub conninfo : Option (List ℕ)
  pub mountpoint : Option (List ℕ)
  pub read_only : Bool
  pub multi_threaded : Bool
  pub block_size : ℕ

-- DEFAULT_BLOCK_SIZE of config.h.
abbrev pub default_block_size : ℕ
default_block_size = 4096

abbrev pub default_options : PgFuseOptions
default_options = record {
  print_help = false;
  print_version = false;
  verbose = false;
  conninfo = none;
  mountpoint = none;
  read_only = false;
  multi_threaded = true;
  block_size = default_block_size;
}

-- What an argument is to fuse_opt_parse.
pub data Key : Type 0 where
  opt nonopt help be_verbose version other : Key

-- The return values 1, 0 and -1.
pub data Verdict : Type 0 where
  keep discard fail : Verdict

abbrev pub no_threads : List ℕ
no_threads = b'-' ∷ b's' ∷ []

abbrev copied : Bool → List ℕ → Option (List ℕ)
copied given arg = if given then some arg else none

-- `given` says whether strdup has memory.
abbrev nonopt_proc :
    Option (List ℕ) → Option (List ℕ) → PgFuseOptions → Bool → List ℕ → Verdict × PgFuseOptions
nonopt_proc none m o given arg = (Verdict.discard, record o { conninfo = copied given arg })
nonopt_proc (some c) none o given arg = (Verdict.keep, record o { mountpoint = copied given arg })
nonopt_proc (some c) (some m) o given arg = (Verdict.fail, o)

unfoldable pub pgfuse_opt_proc : PgFuseOptions → Bool → List ℕ → Key → Verdict × PgFuseOptions
pgfuse_opt_proc o given arg Key.opt =
    (Verdict.keep, if str_eq arg no_threads then record o { multi_threaded = false } else o)
pgfuse_opt_proc o given arg Key.nonopt = nonopt_proc o.conninfo o.mountpoint o given arg
pgfuse_opt_proc o given arg Key.help = (Verdict.fail, record o { print_help = true })
pgfuse_opt_proc o given arg Key.be_verbose = (Verdict.discard, record o { verbose = true })
pgfuse_opt_proc o given arg Key.version = (Verdict.fail, record o { print_version = true })
pgfuse_opt_proc o given arg Key.other = (Verdict.fail, o)

-- The connection that main tests: whether it is CONNECTION_OK, and `integer_datetimes`.
pub record Tested : Type 0 where
  pub connected : Bool
  pub integer_datetimes : Option (List ℕ)

-- How main ends: with a status, or in fuse_main with the data of the mount.
pub data Outcome : Type 0 where
  exits : ℕ → Outcome
  mounts : PgFuseData → Outcome

abbrev on : List ℕ
on = b'o' ∷ b'n' ∷ []

-- `res = psql_get_block_size( ... )` as an int, which may be negative.
abbrev compare_size : PgFuseOptions → Ret ℕ → Outcome
compare_size o (ok n) =
    if leb (2 ^ 31) (n % 2 ^ 32)
    then exits 1
    else if n % 2 ^ 32 == o.block_size
    then mounts (record {
      conninfo = o.conninfo;
      mountpoint = o.mountpoint;
      verbose = o.verbose;
      read_only = o.read_only;
      multi_threaded = o.multi_threaded;
      block_size = o.block_size;
    })
    else exits 1
compare_size o (err n) = exits 1
compare_size o fault = exits 1

abbrev check_datetimes : PgFuseOptions → Option (List ℕ) → Env → Session → Outcome
check_datetimes o none env s = exits 1
check_datetimes o (some value) env s =
    if str_eq value on then compare_size o (psql_get_block_size o.block_size env s).0 else exits 1

abbrev check_connection : PgFuseOptions → Option (List ℕ) → Tested → Env → Session → Outcome
check_connection o none t env s = exits 1
check_connection o (some conninfo) t env s =
    if t.connected then check_datetimes o t.integer_datetimes env s else exits 1

-- What main does when fuse_opt_parse returns -1.
abbrev refused : PgFuseOptions → Outcome
refused o = if o.print_help then exits 0 else if o.print_version then exits 0 else exits 1

-- `parsed` says whether fuse_opt_parse has returned 0, with the options `o`.
unfoldable pub main : Bool → PgFuseOptions → Tested → Env → Session → Outcome
main true o t env s = check_connection o o.conninfo t env s
main false o t env s = refused o

-- One call of pgfuse_opt_proc by libfuse.
pub record OptCall : Type 0 where
  pub given : Bool
  pub arg : List ℕ
  pub key : Key

-- The first -1 ends the calls.
abbrev pub unless_fail :
    Verdict × PgFuseOptions → (PgFuseOptions → Bool × PgFuseOptions) → Bool × PgFuseOptions
unless_fail (Verdict.fail, o) later = (false, o)
unless_fail (Verdict.keep, o) later = later o
unless_fail (Verdict.discard, o) later = later o

-- The calls in their order, and whether all went well.
unfoldable pub opt_calls : PgFuseOptions → List OptCall → Bool × PgFuseOptions
opt_calls o [] = (true, o)
opt_calls o (c ∷ cs) = unless_fail (pgfuse_opt_proc o c.given c.arg c.key) (λ o'. opt_calls o' cs)
