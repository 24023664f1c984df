-- ===== src/Fuse/Statfs/Committed.antt =====
-- pgfuse_statfs, pgfuse.c, lines 938-1097: what it returns when nothing outside of the program
-- fails.
use pgfuse.Base.{ℕ, ◌≡◌, ◌^◌, Option, none, some, List, map}
use pgfuse.Base.{◌+◌, ◌-◌}
use pgfuse.Fuse.Statfs.{StatVfs}
use pgfuse.Db.{Db}
use pgfuse.Session.{Session}
use pgfuse.Session.Runs.{Runs}
use pgfuse.Psql.Tablespace.{Catalog}
use pgfuse.Psql.Tablespace.Paths.{space_of}
use pgfuse.Fuse.Context.{PgFuseData}
use pgfuse.Fuse.Statfs.{Machine}

-- The path of a location, without symbolic links if it can be resolved.
abbrev pub or_itself : List ℕ → Option (List ℕ) → List ℕ
or_itself path none = path
or_itself path (some real) = real

-- The paths of the tablespaces that `pg_class` names.
abbrev pub real_paths : Catalog → Machine → (ℕ → List ℕ) → List (List ℕ)
real_paths catalog machine path =
    map (λ oid. or_itself (path oid) (machine.realpath (path oid)))
      (map (space_of catalog) catalog.relation_oids)

-- What is reported of `free` blocks that are left, `used` blocks that are used, and `files` entries.
pub record Reports (d : PgFuseData) (free used files : ℕ) (v : StatVfs) : Type 0 where
  pub block_size : v.f_bsize ≡ d.block_size
  pub fragment_size : v.f_frsize ≡ d.block_size
  pub blocks : v.f_blocks ≡ free + used
  pub blocks_free : v.f_bfree ≡ free
  pub blocks_avail : v.f_bavail ≡ free
  pub files_total : v.f_files ≡ 2 ^ 63 - 1 + files
  pub files_free : v.f_ffree ≡ 2 ^ 63 - 1
  pub files_avail : v.f_favail ≡ 2 ^ 63 - 1
