-- ===== src/Fuse/Statfs.antt =====
-- pgfuse_statfs, pgfuse.c, lines 938-1097. The mount table, `realpath` and statfs(2) are the
-- machine's; the values of statfs(2) and of the result are 64-bit patterns.
use pgfuse.Base.{
  ℕ, ◌+◌, ◌-◌, ◌*◌, ◌/◌, ◌%◌, ◌^◌, Bool, true, false, ◌&&◌, Option, none, some, List, [], ◌∷◌, map,
  ◌==◌, ltb, if◌then◌else◌, length,
}
use pgfuse.Session.{M, pure, raise, undefined, ◌>>=◌, ◌>>◌}
use pgfuse.Psql.Tx.{psql_begin}
use pgfuse.Psql.Stat.{psql_get_fs_blocks_used, psql_get_fs_files_used}
use pgfuse.Psql.Tablespace.{Catalog, max_tablespace_oids, dup, psql_get_tablespace_locations}
use pgfuse.Fuse.Context.{PgFuseData, Ending, acquire, closing, commits}
pub mod Keeping
pub mod LastMatch
pub mod Committed
pub mod Leak

-- statfs(2): the fields that are read.
pub record FsStat : Type 0 where
  pub f_bfree : ℕ
  pub f_bavail : ℕ
  pub f_frsize : ℕ

-- The machine: `realpath`, the entries of the mount table (none if it cannot be opened; `mnt_dir`
-- may be NULL) and statfs(2), which fails with -1.
pub record Machine : Type 0 where
  pub realpath : List ℕ → Option (List ℕ)
  pub mtab : Option (List (Option (List ℕ)))
  pub statfs : List ℕ → Option FsStat

pub record StatVfs : Type 0 where
  pub f_bsize : ℕ
  pub f_frsize : ℕ
  pub f_blocks : ℕ
  pub f_bfree : ℕ
  pub f_bavail : ℕ
  pub f_files : ℕ
  pub f_ffree : ℕ
  pub f_favail : ℕ
  pub f_fsid : ℕ
  pub f_flag : ℕ
  pub f_namemax : ℕ

abbrev pub int64_max : ℕ
int64_max = 2 ^ 63 - 1

-- A location whose path cannot be resolved stays as it is; so does NULL.
abbrev pub or_old : List ℕ → Option (List ℕ) → Option (List ℕ)
or_old old_path none = some old_path
or_old old_path (some new_path) = some new_path

abbrev pub resolve : Machine → Option (List ℕ) → Option (List ℕ)
resolve machine none = none
resolve machine (some old_path) = or_old old_path (machine.realpath old_path)

-- `strncmp( dir, location, strlen( dir ) ) == 0`
abbrev pub is_prefix : List ℕ → List ℕ → Bool
is_prefix [] location = true
is_prefix (c ∷ cs) [] = false
is_prefix (c ∷ cs) (e ∷ es) = (c == e) && is_prefix cs es

-- blocks_free and blocks_avail.
pub record Space : Type 0 where
  pub blocks_free : ℕ
  pub blocks_avail : ℕ

abbrev pub unlimited : Space
unlimited = record { blocks_free = int64_max; blocks_avail = int64_max }

-- The variables of the loop over the locations.
pub record Found : Type 0 where
  pub prefix : Option (List ℕ)
  pub prefix_len : ℕ
  pub space : Space

unfoldable pub match_location : List ℕ → Option (List ℕ) → Found → M Found
match_location dir none found = undefined
match_location dir (some location) found =
    if is_prefix dir location && ltb found.prefix_len (length dir)
    then (do
      prefix ← dup dir
      pure (record { prefix = prefix; prefix_len = length dir; space = unlimited }))
    else pure found

unfoldable pub match_locations : List ℕ → List (Option (List ℕ)) → Found → M Found
match_locations dir [] found = pure found
match_locations dir (location ∷ locations) found = do
  next ← match_location dir location found
  match_locations dir locations next

-- `if( count * frsize < blocks * block_size ) blocks = count * frsize / block_size;`
abbrev pub smaller : ℕ → ℕ → ℕ → ℕ → ℕ
smaller block_size frsize count blocks =
    if ltb (count * frsize % 2 ^ 64) (blocks * block_size % 2 ^ 64)
    then count * frsize % 2 ^ 64 / block_size
    else blocks

abbrev pub narrowed : ℕ → FsStat → Space → Space
narrowed block_size fs space = record {
  blocks_free = smaller block_size fs.f_frsize fs.f_bfree space.blocks_free;
  blocks_avail = smaller block_size fs.f_frsize fs.f_bavail space.blocks_avail;
}

-- The `return res` of a statfs(2) that failed: -1.
unfoldable pub measured : ℕ → Space → Option FsStat → M Space
measured block_size space none = raise 1
measured block_size space (some fs) = pure (narrowed block_size fs space)

unfoldable pub measure : ℕ → Machine → Space → Option (List ℕ) → M Space
measure block_size machine space none = pure space
measure block_size machine space (some prefix) = measured block_size space (machine.statfs prefix)

abbrev pub not_yet : Space → Found
not_yet space = record { prefix = none; prefix_len = 0; space = space }

-- The loop over the mount table.
unfoldable pub scan_mounts :
    ℕ → Machine → List (Option (List ℕ)) → List (Option (List ℕ)) → Space → M Space
scan_mounts block_size machine locations [] space = pure space
scan_mounts block_size machine locations (none ∷ mounts) space =
    scan_mounts block_size machine locations mounts space
scan_mounts block_size machine locations (some dir ∷ mounts) space = do
  found ← match_locations dir locations (not_yet space)
  next ← measure block_size machine found.space found.prefix
  scan_mounts block_size machine locations mounts next

unfoldable pub open_mtab :
    ℕ → Machine → List (Option (List ℕ)) → Option (List (Option (List ℕ))) → M Space
open_mtab block_size machine locations none = undefined
open_mtab block_size machine locations (some mounts) =
    scan_mounts block_size machine locations mounts unlimited

-- Lines 967-1041, with the two returns that end neither the transaction nor the lease.
unfoldable pub find_space : PgFuseData → Catalog → Machine → M Space
find_space d catalog machine = do
  locations ← psql_get_tablespace_locations catalog max_tablespace_oids
  open_mtab d.block_size machine (map (resolve machine) locations) machine.mtab

-- Lines 1049-1092. The sums of int64_t wrap, as the compiled code has it.
abbrev pub filled : PgFuseData → ℕ → ℕ → ℕ → StatVfs
filled d blocks_avail blocks_used files_used = record {
  f_bsize = d.block_size;
  f_frsize = d.block_size;
  f_blocks = (blocks_avail + blocks_used) % 2 ^ 64;
  f_bfree = blocks_avail;
  f_bavail = blocks_avail;
  f_files = (int64_max + files_used) % 2 ^ 64;
  f_ffree = int64_max;
  f_favail = int64_max;
  f_fsid = 1340318564;
  f_flag = if d.read_only then 1 else 0;
  f_namemax = 4096;
}

unfoldable pub statfs_body : PgFuseData → Space → M (Ending StatVfs)
statfs_body d space = do
  blocks_used ← psql_get_fs_blocks_used
  files_used ← psql_get_fs_files_used
  commits (filled d space.blocks_avail blocks_used files_used)

unfoldable pub pgfuse_statfs : PgFuseData → Catalog → Machine → M StatVfs
pgfuse_statfs d catalog machine = do
  acquire d
  psql_begin
  space ← find_space d catalog machine
  closing d (statfs_body d space)
