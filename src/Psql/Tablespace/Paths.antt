-- ===== src/Psql/Tablespace/Paths.antt =====
-- psql_get_tablespace_locations, pgsql.c, lines 1067-1137: what it finds when the catalogs know all
-- tablespaces.
use pgfuse.Base.{
  ℕ, ◌≤◌, ◌<◌, ◌≡◌, ◌^◌, ◌||◌, false, some, List, [], ◌∷◌, map, arith, ltb, ◌==◌, if◌then◌else◌,
  length, Bool-cases, inl, inr, ltb-lt,
}
use pgfuse.Db.{Db}
use pgfuse.Session.{ok, Env}
use pgfuse.Session.Runs.{
  Answers, Runs, Runs-pure, Runs-bind, Runs-attempt, Runs-allocate, Runs-select,
}
use pgfuse.Psql.Tablespace.{
  max_tablespace_oids, Catalog, dup, get_default_tablespace, or_directory, location_of,
  location_query, get_tablespace_location, replace_default, replace_defaults, get_locations,
  psql_get_tablespace_locations,
}

-- Every tablespace has a location of its own, and `pg_class` names no more of them than there is
-- room for.
pub record Known (catalog : Catalog) (path : ℕ → List ℕ) : Type 0 where
  pub some_oid : 0 < length catalog.relation_oids
  pub in_room : length catalog.relation_oids ≤ max_tablespace_oids
  pub default_small : catalog.database_oid < 2 ^ 31
  pub located : (oid : ℕ) → location_query catalog oid ≡ some (path oid)
  pub named : (oid : ℕ) → 0 < length (path oid)

-- The tablespace that an OID of `pg_class` stands for.
abbrev pub space_of : Catalog → ℕ → ℕ
space_of catalog oid = if oid == 0 then catalog.database_oid else oid

module _ {env : Env} (answers : Answers env) (d : Db) where
  pub dup-Runs : (p : List ℕ) → Runs env (dup p) d (ok (some p)) d
  unfolding dup
  dup-Runs p = Runs-bind _ _ (Runs-attempt _ (Runs-allocate answers d)) (Runs-pure _ d)

module _ {env : Env} (answers : Answers env) (catalog : Catalog) (d : Db) where
  or_directory-Runs :
      (p : List ℕ) → 0 < length p → Runs env (or_directory catalog (some p)) d (ok (some p)) d
  unfolding or_directory
  or_directory-Runs [] h = absurd (omega arith)
  or_directory-Runs (c ∷ cs) h = Runs-pure _ d

  module _ {path : ℕ → List ℕ} (known : Known catalog path) where
    get_tablespace_location-Runs :
        (oid : ℕ) → Runs env (get_tablespace_location catalog oid) d (ok (some (path oid))) d
    unfolding get_tablespace_location location_of
    get_tablespace_location-Runs oid = Runs-bind _ _ (Runs-attempt _ (Runs-select answers _ d)) (
        rw (known.located oid) (
          Runs-bind _ _ (dup-Runs answers d (path oid))
            (or_directory-Runs (path oid) (known.named oid))))

    replace_default-Runs :
        (oid : ℕ) → Runs env (replace_default catalog oid) d (ok (space_of catalog oid)) d
    unfolding replace_default get_default_tablespace
    replace_default-Runs oid = elim (Bool-cases (oid == 0)) [
      | inl e ↦ simp e (
          Runs-bind _ _ (Runs-select answers _ d)
            (simp (ltb-lt catalog.database_oid (2 ^ 31) known.default_small) (Runs-pure _ d)))
      | inr e ↦ simp e (Runs-pure oid d)
    ]

    replace_defaults-Runs :
        (oids : List ℕ)
        → Runs env (replace_defaults catalog oids) d (ok (map (space_of catalog) oids)) d
    unfolding replace_defaults
    replace_defaults-Runs [] = Runs-pure [] d
    replace_defaults-Runs (oid ∷ oids) =
        Runs-bind _ _ (replace_default-Runs oid)
          (Runs-bind _ _ (replace_defaults-Runs oids) (Runs-pure _ d))

    get_locations-Runs :
        (oids : List ℕ)
        → Runs env (get_locations catalog oids) d (ok (map (λ oid. some (path oid)) oids)) d
    unfolding get_locations
    get_locations-Runs [] = Runs-pure [] d
    get_locations-Runs (oid ∷ oids) =
        Runs-bind _ _ (get_tablespace_location-Runs oid)
          (Runs-bind _ _ (get_locations-Runs oids) (Runs-pure _ d))

    pub psql_get_tablespace_locations-Runs :
        Runs env
          (psql_get_tablespace_locations catalog max_tablespace_oids)
          d
          (ok (map (λ oid. some (path oid)) (map (space_of catalog) catalog.relation_oids)))
          d
    unfolding psql_get_tablespace_locations
    psql_get_tablespace_locations-Runs =
        let fits : (length catalog.relation_oids == 0
              || ltb max_tablespace_oids (length catalog.relation_oids))
            ≡ false =
          ground (arith, known.some_oid, known.in_room) in
        Runs-bind _ _ (Runs-select answers _ d) (
          simp fits
            (Runs-bind _ _ (replace_defaults-Runs catalog.relation_oids) (get_locations-Runs _)))
