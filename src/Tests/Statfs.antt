-- ===== src/Tests/Statfs.antt =====
-- Tablespaces and statfs, at concrete inputs.
use pgfuse.Base.{ℕ, ◌≤◌, ◌<◌, ◌≡◌, ◌≢◌, refl, Option, none, some, List, [], ◌∷◌, length}
use pgfuse.Session.{ok, err, idle, pure, raise, ◌>>=◌, attempt, allocate, execute, select}
use pgfuse.Psql.Tablespace.{
  Catalog, dup, get_default_tablespace, or_directory, location_of, get_tablespace_location,
  replace_default, replace_defaults, get_locations, psql_get_tablespace_locations,
}
use pgfuse.Psql.Tablespace.Locations.{locations_in_array}
use pgfuse.Fuse.Statfs.{FsStat, Machine, find_space, pgfuse_statfs}
use pgfuse.Fuse.Statfs.Leak.{pgfuse_statfs_leaks}
use pgfuse.Fuse.Leak.{begun}
use pgfuse.Tests.{answering, mount, session}

abbrev path_v : List ℕ
path_v = b'/' ∷ b'v' ∷ []

abbrev path_root : List ℕ
path_root = b'/' ∷ []

abbrev path_w : List ℕ
path_w = b'/' ∷ b'w' ∷ []

-- A server with one tablespace, the default one, on `/v`.
abbrev catalog : Catalog
catalog = record {
  server_version = 90300;
  relation_oids = 0 ∷ [];
  database_oid = 1663;
  data_directory = none;
  function_location = λ oid. some path_v;
  column_location = λ oid. some path_v;
}

abbrev no_catalog : Catalog
no_catalog = record catalog { relation_oids = [] }

abbrev large_disk : FsStat
large_disk = record { f_bfree = 9000; f_bavail = 8000; f_frsize = 4096 }

abbrev mounts : List (Option (List ℕ))
mounts = some path_root ∷ none ∷ some path_v ∷ some path_w ∷ []

abbrev machine : Machine
machine = record { realpath = λ p. none; mtab = some mounts; statfs = λ p. some large_disk }

found_v : (psql_get_tablespace_locations catalog 16 answering session).0 ≡ ok (some path_v ∷ [])
unfolding psql_get_tablespace_locations replace_defaults replace_default get_default_tablespace
    get_locations get_tablespace_location location_of or_directory dup select execute attempt
    allocate pure ◌>>=◌
found_v = refl

no_space : (find_space mount no_catalog machine answering (begun mount session)).0 ≡ err 5
unfolding find_space psql_get_tablespace_locations select execute raise ◌>>=◌
no_space = refl

locations_in_array_example :
    (length (some path_v ∷ []) ≡ 1)
    × (0 < length (some path_v ∷ []))
    × (length (some path_v ∷ []) ≤ 16)
locations_in_array_example =
    locations_in_array catalog 16 answering session (some path_v ∷ []) found_v

pgfuse_statfs_leaks_example :
    ((pgfuse_statfs mount no_catalog machine answering session).0 ≡ err 5)
    × ((pgfuse_statfs mount no_catalog machine answering session).1.tx ≢ idle)
    × ((pgfuse_statfs mount no_catalog machine answering session).1.leases ≡ 1)
pgfuse_statfs_leaks_example =
    pgfuse_statfs_leaks mount answering (λ n. refl) session no_catalog machine 5 refl refl no_space
