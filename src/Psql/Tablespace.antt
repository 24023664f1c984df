-- ===== src/Psql/Tablespace.antt =====
-- pgsql.c, lines 961-1137: where the server stores the tablespaces of the tables and their indexes.
use pgfuse.Base.{
  ℕ, ◌-◌, ◌^◌, ◌||◌, Option, none, some, List, [], ◌∷◌, ◌==◌, ltb, leb, if◌then◌else◌, length,
}
use pgfuse.Session.{
  Ret, ok, err, fault, M, pure, raise, undefined, ◌>>=◌, ◌>>◌, allocate, select, attempt, eio,
}
pub mod Locations
pub mod Paths

-- config.h
abbrev pub max_tablespace_oids : ℕ
max_tablespace_oids = 16

-- What the catalogs of the server answer: `pg_class.reltablespace` of the relations, the default
-- tablespace of the database (an int4, as 32 bits), the setting `data_directory`, which has no row
-- without the right to see it, and the location of a tablespace by its OID, as the function of 9.2
-- and the column of the older catalog have it.
pub record Catalog : Type 0 where
  pub server_version : ℕ
  pub relation_oids : List ℕ
  pub database_oid : ℕ
  pub data_directory : Option (List ℕ)
  pub function_location : ℕ → Option (List ℕ)
  pub column_location : ℕ → Option (List ℕ)

-- `strdup`, which gives NULL when there is no memory.
abbrev pub if_given : List ℕ → Ret (Unit {0}) → Option (List ℕ)
if_given path (ok u) = some path
if_given path (err n) = none
if_given path fault = none

unfoldable pub dup : List ℕ → M (Option (List ℕ))
dup path = do given ← attempt allocate; pure (if_given path given)

unfoldable pub get_default_tablespace : Catalog → M ℕ
get_default_tablespace catalog = do
  oid ← select (λ _. catalog.database_oid)
  if ltb oid (2 ^ 31) then pure oid else raise (2 ^ 32 - oid)

abbrev pub default_directory : List ℕ
default_directory =
    b'/' ∷ b'v' ∷ b'a' ∷ b'r' ∷ b'/' ∷ b'l' ∷ b'i' ∷ b'b' ∷ b'/' ∷ b'p' ∷ b'o' ∷ b's' ∷ b't' ∷ b'g'
    ∷ b'r' ∷ b'e' ∷ b's' ∷ []

unfoldable pub directory_of : Ret (Option (List ℕ)) → M (Option (List ℕ))
directory_of (ok none) = dup default_directory
directory_of (ok (some path)) = dup path
directory_of (err n) = pure none
directory_of fault = undefined

unfoldable pub get_data_directory : Catalog → M (Option (List ℕ))
get_data_directory catalog = do
  answer ← attempt (select (λ _. catalog.data_directory))
  directory_of answer

-- `strcmp( data, "" ) == 0`, where a NULL is read through.
unfoldable pub or_directory : Catalog → Option (List ℕ) → M (Option (List ℕ))
or_directory catalog none = undefined
or_directory catalog (some []) = get_data_directory catalog
or_directory catalog (some (c ∷ cs)) = pure (some (c ∷ cs))

-- A result without a row has the value NULL, which `strdup` reads through.
unfoldable pub location_of : Catalog → Ret (Option (List ℕ)) → M (Option (List ℕ))
location_of catalog (ok none) = undefined
location_of catalog (ok (some path)) = do copy ← dup path; or_directory catalog copy
location_of catalog (err n) = pure none
location_of catalog fault = undefined

abbrev pub location_query : Catalog → ℕ → Option (List ℕ)
location_query catalog oid =
    if leb 90200 catalog.server_version
    then catalog.function_location oid
    else catalog.column_location oid

unfoldable pub get_tablespace_location : Catalog → ℕ → M (Option (List ℕ))
get_tablespace_location catalog oid = do
  answer ← attempt (select (λ _. location_query catalog oid))
  location_of catalog answer

-- The OID 0 stands for the default tablespace, which is asked for each time.
unfoldable pub replace_default : Catalog → ℕ → M ℕ
replace_default catalog oid = if oid == 0 then get_default_tablespace catalog else pure oid

unfoldable pub replace_defaults : Catalog → List ℕ → M (List ℕ)
replace_defaults catalog [] = pure []
replace_defaults catalog (oid ∷ oids) = do
  o ← replace_default catalog oid
  os ← replace_defaults catalog oids
  pure (o ∷ os)

unfoldable pub get_locations : Catalog → List ℕ → M (List (Option (List ℕ)))
get_locations catalog [] = pure []
get_locations catalog (oid ∷ oids) = do
  l ← get_tablespace_location catalog oid
  ls ← get_locations catalog oids
  pure (l ∷ ls)

-- `nof_oids` is the room of the caller's array on the way in, the number of locations on the way
-- out; the result is the array. A location that was not found is NULL.
unfoldable pub psql_get_tablespace_locations : Catalog → ℕ → M (List (Option (List ℕ)))
psql_get_tablespace_locations catalog nof_oids =
    if ltb max_tablespace_oids nof_oids then raise eio else (do
      oids ← select (λ _. catalog.relation_oids)
      if length oids == 0 || ltb max_tablespace_oids (length oids)
          then raise eio
          else (do found ← replace_defaults catalog oids; get_locations catalog found))
