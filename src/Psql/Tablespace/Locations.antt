-- ===== src/Psql/Tablespace/Locations.antt =====
-- psql_get_tablespace_locations, pgsql.c, lines 1067-1137: what it keeps and how many locations it
-- finds.
use pgfuse.Base.{
  ℕ, suc, ◌∙◌, ◌≤◌, ◌<◌, ◌≡◌, refl, ap, ◌||◌, false, Option, none, some, List, [], ◌∷◌, arith, ltb,
  ◌==◌, length,
}
use pgfuse.Session.{Ret, ok, err, fault, Env, Session, eio}
use pgfuse.Session.Always.{
  Always, Always-pure, Always-guard, Always-any, Always-select, Always-bind, Always-weaken,
  Returns_ok,
}
use pgfuse.Session.Keeps.{Keeps, Keeps-bind, Keeps-attempt, keeps_rules, ReadsKeep}
use pgfuse.Psql.Tablespace.{
  max_tablespace_oids, Catalog, dup, get_default_tablespace, directory_of, get_data_directory,
  or_directory, location_of, get_tablespace_location, replace_default, replace_defaults,
  get_locations, psql_get_tablespace_locations,
}

module _ {P : Session → Type 0} (reads : ReadsKeep P) where
  open reads use {allocates, selects}

  pub dup-Keeps : (path : List ℕ) → Keeps P (dup path)
  unfolding dup
  dup-Keeps path = Keeps-bind _ _ (Keeps-attempt _ allocates) λ _. search keeps_rules

  directory_of-Keeps : (answer : Ret (Option (List ℕ))) → Keeps P (directory_of answer)
  unfolding directory_of
  directory_of-Keeps (ok none) = dup-Keeps _
  directory_of-Keeps (ok (some path)) = dup-Keeps path
  directory_of-Keeps (err n) = search keeps_rules
  directory_of-Keeps fault = search keeps_rules

  module _ (catalog : Catalog) where
    get_default_tablespace-Keeps : Keeps P (get_default_tablespace catalog)
    unfolding get_default_tablespace
    get_default_tablespace-Keeps = search (keeps_rules, selects)

    get_data_directory-Keeps : Keeps P (get_data_directory catalog)
    unfolding get_data_directory
    get_data_directory-Keeps =
        Keeps-bind _ _ (Keeps-attempt _ (selects _)) λ answer. directory_of-Keeps answer

    or_directory-Keeps : (path : Option (List ℕ)) → Keeps P (or_directory catalog path)
    unfolding or_directory
    or_directory-Keeps none = search keeps_rules
    or_directory-Keeps (some []) = get_data_directory-Keeps
    or_directory-Keeps (some (c ∷ cs)) = search keeps_rules

    location_of-Keeps : (answer : Ret (Option (List ℕ))) → Keeps P (location_of catalog answer)
    unfolding location_of
    location_of-Keeps (ok none) = search keeps_rules
    location_of-Keeps (ok (some path)) = Keeps-bind _ _ (dup-Keeps path) or_directory-Keeps
    location_of-Keeps (err n) = search keeps_rules
    location_of-Keeps fault = search keeps_rules

    get_tablespace_location-Keeps : (oid : ℕ) → Keeps P (get_tablespace_location catalog oid)
    unfolding get_tablespace_location
    get_tablespace_location-Keeps oid =
        Keeps-bind _ _ (Keeps-attempt _ (selects _)) location_of-Keeps

    replace_default-Keeps : (oid : ℕ) → Keeps P (replace_default catalog oid)
    unfolding replace_default
    replace_default-Keeps oid = search (keeps_rules, get_default_tablespace-Keeps)

    replace_defaults-Keeps : (oids : List ℕ) → Keeps P (replace_defaults catalog oids)
    unfolding replace_defaults
    replace_defaults-Keeps [] = search keeps_rules
    replace_defaults-Keeps (oid ∷ oids) =
        Keeps-bind _ _ (replace_default-Keeps oid)
          λ o. Keeps-bind _ _ (replace_defaults-Keeps oids) λ os. search keeps_rules

    get_locations-Keeps : (oids : List ℕ) → Keeps P (get_locations catalog oids)
    unfolding get_locations
    get_locations-Keeps [] = search keeps_rules
    get_locations-Keeps (oid ∷ oids) =
        Keeps-bind _ _ (get_tablespace_location-Keeps oid)
          λ l. Keeps-bind _ _ (get_locations-Keeps oids) λ ls. search keeps_rules

    pub psql_get_tablespace_locations-Keeps :
        (nof_oids : ℕ) → Keeps P (psql_get_tablespace_locations catalog nof_oids)
    unfolding psql_get_tablespace_locations
    psql_get_tablespace_locations-Keeps nof_oids =
        search (keeps_rules, selects, replace_defaults-Keeps, get_locations-Keeps)

module _ (catalog : Catalog) where
  replace_defaults-length :
      (oids : List ℕ) → Always (λ os. length os ≡ length oids) (replace_defaults catalog oids)
  unfolding replace_defaults
  replace_defaults-length [] = Always-pure [] refl
  replace_defaults-length (oid ∷ oids) =
      Always-bind _ _ (Always-any _)
        λ o _. Always-bind _ _ (replace_defaults-length oids) λ os l. Always-pure _ (ap suc l)

  get_locations-length :
      (oids : List ℕ) → Always (λ ls. length ls ≡ length oids) (get_locations catalog oids)
  unfolding get_locations
  get_locations-length [] = Always-pure [] refl
  get_locations-length (oid ∷ oids) =
      Always-bind _ _ (Always-any _)
        λ l _. Always-bind _ _ (get_locations-length oids) λ ls e. Always-pure _ (ap suc e)

  -- One location for each OID of `pg_class`, and room for all of them.
  abbrev pub InArray : List (Option (List ℕ)) → Type 0
  InArray ls =
      (length ls ≡ length catalog.relation_oids)
      × (0 < length ls)
      × (length ls ≤ max_tablespace_oids)

  in_array :
      (oids : List ℕ) (ls : List (Option (List ℕ)))
      → catalog.relation_oids ≡ oids
      → (length oids == 0 || ltb max_tablespace_oids (length oids)) ≡ false
      → length ls ≡ length oids
      → InArray ls
  in_array oids ls e fits l = rw e (ground (arith, fits, l))

  each-InArray : (nof_oids : ℕ) → Always InArray (psql_get_tablespace_locations catalog nof_oids)
  unfolding psql_get_tablespace_locations
  each-InArray nof_oids = Always-guard (ltb max_tablespace_oids nof_oids) eio _ λ room.
      Always-bind _ _ (Always-select catalog.relation_oids) λ oids e.
        Always-guard (length oids == 0 || ltb max_tablespace_oids (length oids)) eio _ λ fits.
          Always-bind _ _ (replace_defaults-length oids) λ found l.
            Always-weaken _ (λ ls k. in_array oids ls e fits (k ∙ l)) (get_locations-length found)

-- Whatever the server answers and whatever fails, the locations that psql_get_tablespace_locations
-- returns are one for each OID of the answer, at least one and at most MAX_TABLESPACE_OIDS, so that
-- the arrays `oid` and `location` have room for them.
pub locations_in_array :
    (catalog : Catalog) (nof_oids : ℕ) (env : Env) (s : Session) (ls : List (Option (List ℕ)))
    → (psql_get_tablespace_locations catalog nof_oids env s).0 ≡ ok ls
    → (length ls ≡ length catalog.relation_oids)
      × (0 < length ls)
      × (length ls ≤ max_tablespace_oids)
locations_in_array catalog nof_oids env s ls e =
    Returns_ok (InArray catalog) _ ls e ((each-InArray catalog nof_oids).at env s)
