-- ===== src/Fuse/Statfs/Keeping.antt =====
-- pgfuse_statfs, pgfuse.c, lines 963-1084: what the search for the free space and the counts keep.
use pgfuse.Base.{ℕ, Option, none, some, List, [], ◌∷◌}
use pgfuse.Session.{Session}
use pgfuse.Session.Keeps.{Keeps, Keeps-bind, Keeps-pure, Keeps-undefined, keeps_rules, ReadsKeep}
use pgfuse.Psql.Uncommitted.{as_int-Keeps}
use pgfuse.Psql.Stat.{psql_get_fs_blocks_used, psql_get_fs_files_used}
use pgfuse.Psql.Tablespace.{Catalog}
use pgfuse.Psql.Tablespace.Locations.{dup-Keeps, psql_get_tablespace_locations-Keeps}
use pgfuse.Fuse.Context.{PgFuseData}
use pgfuse.Fuse.Statfs.{
  FsStat, Machine, Space, Found, match_location, match_locations, measured, measure, not_yet,
  scan_mounts, open_mtab, find_space, statfs_body,
}

module _ {P : Session → Type 0} (reads : ReadsKeep P) where
  open reads use {selects}

  match_location-Keeps :
      (dir : List ℕ) (location : Option (List ℕ)) (found : Found)
      → Keeps P (match_location dir location found)
  unfolding match_location
  match_location-Keeps dir none found = Keeps-undefined
  match_location-Keeps dir (some location) found = search (keeps_rules, dup-Keeps reads)

  match_locations-Keeps :
      (dir : List ℕ) (locations : List (Option (List ℕ))) (found : Found)
      → Keeps P (match_locations dir locations found)
  unfolding match_locations
  match_locations-Keeps dir [] found = Keeps-pure found
  match_locations-Keeps dir (location ∷ locations) found =
      Keeps-bind _ _ (match_location-Keeps dir location found)
        λ next. match_locations-Keeps dir locations next

  measured-Keeps :
      (block_size : ℕ) (space : Space) (fs : Option FsStat) → Keeps P (measured block_size space fs)
  unfolding measured
  measured-Keeps block_size space none = search keeps_rules
  measured-Keeps block_size space (some fs) = search keeps_rules

  measure-Keeps :
      (block_size : ℕ) (machine : Machine) (space : Space) (prefix : Option (List ℕ))
      → Keeps P (measure block_size machine space prefix)
  unfolding measure
  measure-Keeps block_size machine space none = Keeps-pure space
  measure-Keeps block_size machine space (some prefix) = measured-Keeps block_size space _

  module _ (block_size : ℕ) (machine : Machine) where
    scan_mounts-Keeps :
        (locations mounts : List (Option (List ℕ))) (space : Space)
        → Keeps P (scan_mounts block_size machine locations mounts space)
    unfolding scan_mounts
    scan_mounts-Keeps locations [] space = Keeps-pure space
    scan_mounts-Keeps locations (none ∷ mounts) space = scan_mounts-Keeps locations mounts space
    scan_mounts-Keeps locations (some dir ∷ mounts) space =
        Keeps-bind _ _ (match_locations-Keeps dir locations (not_yet space)) λ found.
          Keeps-bind _ _ (measure-Keeps block_size machine found.space found.prefix)
            λ next. scan_mounts-Keeps locations mounts next

    open_mtab-Keeps :
        (locations : List (Option (List ℕ))) (mtab : Option (List (Option (List ℕ))))
        → Keeps P (open_mtab block_size machine locations mtab)
    unfolding open_mtab
    open_mtab-Keeps locations none = Keeps-undefined
    open_mtab-Keeps locations (some mounts) = scan_mounts-Keeps locations mounts _

  pub find_space-Keeps :
      (d : PgFuseData) (catalog : Catalog) (machine : Machine)
      → Keeps P (find_space d catalog machine)
  unfolding find_space
  find_space-Keeps d catalog machine =
      Keeps-bind _ _ (psql_get_tablespace_locations-Keeps reads catalog _)
        λ locations. open_mtab-Keeps d.block_size machine _ machine.mtab

  blocks_used-Keeps : Keeps P psql_get_fs_blocks_used
  unfolding psql_get_fs_blocks_used
  blocks_used-Keeps = Keeps-bind _ _ (selects _) λ n. as_int-Keeps n

  files_used-Keeps : Keeps P psql_get_fs_files_used
  unfolding psql_get_fs_files_used
  files_used-Keeps = selects _

  pub statfs_body-Keeps : (d : PgFuseData) (space : Space) → Keeps P (statfs_body d space)
  unfolding statfs_body
  statfs_body-Keeps d space =
      Keeps-bind _ _ blocks_used-Keeps
        λ used. Keeps-bind _ _ files_used-Keeps λ files. search keeps_rules
