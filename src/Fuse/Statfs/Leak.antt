-- ===== src/Fuse/Statfs/Leak.antt =====
-- pgfuse_statfs, pgfuse.c, lines 968-970 and 1014-1018: the returns that end neither the
-- transaction nor the lease of the connection.
use pgfuse.Base.{ℕ, ◌≡◌, ◌≢◌, refl, false}
use pgfuse.Session.{err, Env, idle, Session, ◌>>=◌}
use pgfuse.Session.Keeps.{Uncommitted-WritesKeep}
use pgfuse.Psql.Tablespace.{Catalog}
use pgfuse.Fuse.Context.{PgFuseData}
use pgfuse.Fuse.Atomic.{PoolServes, held}
use pgfuse.Fuse.Leak.{acquired, begun, acquire_served, begin_answered, begun-Uncommitted}
use pgfuse.Fuse.Statfs.{Machine, find_space, pgfuse_statfs}
use pgfuse.Fuse.Statfs.Keeping.{find_space-Keeps}

-- While the pool serves its callers, a call of statfs whose search for the tablespaces or whose
-- statfs(2) fails returns that error without ending the transaction that it began and without
-- giving back the connection that it acquired.
pub pgfuse_statfs_leaks :
    (d : PgFuseData) (env : Env) (pool : PoolServes env) (s : Session) (catalog : Catalog)
    (machine : Machine) (n : ℕ)
    → s.tx ≡ idle
    → env.fails (acquired d s).calls ≡ false
    → (find_space d catalog machine env (begun d s)).0 ≡ err n
    → ((pgfuse_statfs d catalog machine env s).0 ≡ err n)
      × ((pgfuse_statfs d catalog machine env s).1.tx ≢ idle)
      × ((pgfuse_statfs d catalog machine env s).1.leases ≡ held d s)
unfolding pgfuse_statfs ◌>>=◌
pgfuse_statfs_leaks d env pool s catalog machine n t begins failed =
    let kept =
      (find_space-Keeps (Uncommitted-WritesKeep s.base (held d s)).reads d catalog machine).at env
        (begun d s) (begun-Uncommitted d s) in
    simp (acquire_served d env s pool, begin_answered env (acquired d s) t begins, failed)
      (refl, kept.open_tx, kept.same_leases)
