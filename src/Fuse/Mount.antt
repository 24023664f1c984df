-- ===== src/Fuse/Mount.antt =====
-- pgfuse_init and pgfuse_destroy, pgfuse.c, lines 112-155: the connections of a mount.
use pgfuse.Base.{ℕ, Bool, List, [], ◌∷◌, if◌then◌else◌}
use pgfuse.Session.{Ret, ok, err, fault}
use pgfuse.Pool.{Slot, Start, psql_pool_init, psql_pool_destroy}
use pgfuse.Fuse.Context.{PgFuseData}

-- config.h
abbrev pub max_db_connections : ℕ
max_db_connections = 8

-- `data->conn`, or `data->pool`.
pub data Conns : Type 0 where
  one : (conn : ℕ) → Conns
  many : (slots : List Slot) → Conns

-- How pgfuse_init ends: it returns, or it calls exit( EXIT_FAILURE ) with these connections handed
-- to PQfinish.
pub data Init : Type 0 where
  started : Conns → Init
  exits : (closed : List ℕ) → Init

-- What psql_pool_init has handed to PQfinish is done with.
unfoldable pub pool_made : Ret (List Slot × List ℕ) → Init
pool_made (ok (slots, closed)) = started (many slots)
pool_made (err n) = exits []
pool_made fault = exits []

-- `conn` and `good` are what PQconnectdb and PQstatus give for the one connection.
unfoldable pub pgfuse_init : PgFuseData → ℕ → Bool → Start → Init
pgfuse_init d conn good start =
    if d.multi_threaded
    then pool_made (psql_pool_init start max_db_connections)
    else if good
    then started (one conn)
    else exits (conn ∷ [])

-- The connections that are handed to PQfinish.
unfoldable pub pgfuse_destroy : ℕ → ℕ → Conns → List ℕ
pgfuse_destroy cond_res mutex_res (one conn) = conn ∷ []
pgfuse_destroy cond_res mutex_res (many slots) = (psql_pool_destroy cond_res mutex_res slots).1
