-- ===== src/Fuse/Leak.antt =====
-- pgfuse_rename, pgfuse.c, lines 1308-1332: the returns that end neither the transaction nor the
-- lease of the connection.
use pgfuse.Base.{ℕ, ◌+◌, ◌≡◌, ◌≢◌, refl, false, List, if◌then◌else◌, Bool-cases, inl, inr}
use pgfuse.Session.{ok, err, Env, idle, active, Session, ◌>>=◌}
use pgfuse.Session.Keeps.{Uncommitted, Uncommitted-WritesKeep}
use pgfuse.Psql.Path.{psql_read_meta_from_path}
use pgfuse.Psql.Tx.{psql_begin}
use pgfuse.Psql.Uncommitted.{psql_read_meta_from_path-Keeps}
use pgfuse.Fuse.Context.{PgFuseData, acquire}
use pgfuse.Fuse.Rename.{pgfuse_rename}
use pgfuse.Fuse.Atomic.{PoolServes, held}

abbrev pub acquired : PgFuseData → Session → Session
acquired d s = record s {
  calls = if d.multi_threaded then s.calls + 1 else s.calls;
  leases = held d s;
}

-- The session once the connection is acquired and the transaction has begun.
abbrev pub begun : PgFuseData → Session → Session
begun d s = record (acquired d s) { tx = active; calls = (acquired d s).calls + 1 }

pub acquire_served :
    (d : PgFuseData) (env : Env) (s : Session)
    → PoolServes env
    → acquire d env s ≡ (ok tt, acquired d s)
unfolding acquire
acquire_served d env s pool = elim (Bool-cases d.multi_threaded) [
  | inl e ↦ simp (e, pool s.calls) refl
  | inr e ↦ simp e refl
]

pub begin_answered :
    (env : Env) (s : Session)
    → s.tx ≡ idle
    → env.fails s.calls ≡ false
    → psql_begin env s ≡ (ok tt, record s { tx = active; calls = s.calls + 1 })
unfolding psql_begin
begin_answered env s t answered = simp (t, answered) refl

pub begun-Uncommitted : (d : PgFuseData) (s : Session) → Uncommitted s.base (held d s) (begun d s)
begun-Uncommitted d s = record { open_tx = λ p. cc; same_base = refl; same_leases = refl }

module _ (d : PgFuseData) (env : Env) (pool : PoolServes env) (s : Session) (from to : List ℕ)
    (n : ℕ) where
  -- A rename whose source is not found, or whose lookup of the source fails, returns that error
  -- without ending the transaction that it began and without giving back the connection that it
  -- acquired.
  pub pgfuse_rename_leaks :
      s.tx ≡ idle
      → env.fails (acquired d s).calls ≡ false
      → (psql_read_meta_from_path from env (begun d s)).0 ≡ err n
      → ((pgfuse_rename d from to env s).0 ≡ err n)
        × ((pgfuse_rename d from to env s).1.tx ≢ idle)
        × ((pgfuse_rename d from to env s).1.leases ≡ held d s)
  unfolding pgfuse_rename ◌>>=◌
  pgfuse_rename_leaks t begins missing =
      let kept =
        (psql_read_meta_from_path-Keeps (Uncommitted-WritesKeep s.base (held d s)).reads from).at
          env (begun d s) (begun-Uncommitted d s) in
      simp (acquire_served d env s pool, begin_answered env (acquired d s) t begins, missing)
        (refl, kept.open_tx, kept.same_leases)
