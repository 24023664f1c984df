-- ===== src/Fuse/Context.antt =====
-- pgfuse.c, lines 50-106, and the macros of pgsql.h: a hook acquires a connection, begins a
-- transaction, and ends both on every way out.
use pgfuse.Base.{Option, ℕ, ◌+◌, ◌-◌, Bool, false, List, [], ◌∷◌, ◌==◌, if◌then◌else◌}
use mathlib.Core.List.{reverse}
use pgfuse.Session.{Ret, ok, err, fault, M, pure, raise, undefined, ◌>>◌, eio, called}
use pgfuse.Psql.Tx.{psql_begin, psql_commit, psql_rollback}

-- The connection or the pool, which pgfuse_init fills in, is Conns of Fuse/Mount.
pub record PgFuseData : Type 0 where
  pub conninfo : Option (List ℕ)
  pub mountpoint : Option (List ℕ)
  pub verbose : Bool
  pub read_only : Bool
  pub multi_threaded : Bool
  pub block_size : ℕ

-- ACQUIRE: one shared connection, or one of the pool; `leases` counts those of the pool.
unfoldable pub acquire : PgFuseData → M (Unit {0})
acquire d env s =
    if d.multi_threaded
    then (if env.pool_fails s.calls
        then (err eio, called s)
        else (ok tt, record (called s) { leases = s.leases + 1 }))
    else (ok tt, s)

-- RELEASE.
unfoldable pub release : PgFuseData → M (Unit {0})
release d env s =
    if d.multi_threaded
    then (if env.pool_fails s.calls
        then (err eio, called s)
        else (ok tt, record (called s) { leases = s.leases - 1 }))
    else (ok tt, s)

-- How a hook ends that does not fail: with PSQL_COMMIT or with PSQL_ROLLBACK.
pub data Ending (A : Type 0) : Type 0 where
  commit : A → Ending A
  rollback : A → Ending A

module _ {A : Type 0} where
  -- `PSQL_COMMIT( conn ); RELEASE( conn ); return a;` and `PSQL_ROLLBACK( conn ); RELEASE( conn );
  -- return r;`
  unfoldable pub leave : PgFuseData → Ret (Ending A) → M A
  leave d (ok (commit a)) = do psql_commit; release d; pure a
  leave d (ok (rollback a)) = do psql_rollback; release d; pure a
  leave d (err n) = do psql_rollback; release d; raise n
  leave d fault = undefined

  unfoldable pub closing : PgFuseData → M (Ending A) → M A
  closing d body env s = let (r, s') = body env s in leave d r env s'

  -- `ACQUIRE( conn ); PSQL_BEGIN( conn );` and the rest of a hook.
  unfoldable pub transact : PgFuseData → M (Ending A) → M A
  transact d body = do acquire d; psql_begin; closing d body

  abbrev pub commits : A → M (Ending A)
  commits a = pure (commit a)

-- libgen.h, over paths of bytes: the parent of a path and its last part.
abbrev pub drop_slashes : List ℕ → List ℕ
drop_slashes [] = []
drop_slashes (c ∷ cs) = if c == b'/' then drop_slashes cs else c ∷ cs

abbrev pub drop_part : List ℕ → List ℕ
drop_part [] = []
drop_part (c ∷ cs) = if c == b'/' then c ∷ cs else drop_part cs

abbrev pub take_part : List ℕ → List ℕ
take_part [] = []
take_part (c ∷ cs) = if c == b'/' then [] else c ∷ take_part cs

abbrev pub starts_with_slash : List ℕ → Bool
starts_with_slash [] = false
starts_with_slash (c ∷ cs) = c == b'/'

abbrev pub root_path : List ℕ
root_path = b'/' ∷ []

abbrev pub or_default : List ℕ → List ℕ → List ℕ
or_default [] p = p
or_default (c ∷ cs) p = c ∷ cs

unfoldable pub dirname : List ℕ → List ℕ
dirname path =
    or_default (reverse (drop_slashes (drop_part (drop_slashes (reverse path)))))
      (if starts_with_slash path then root_path else b'.' ∷ [])

unfoldable pub basename : List ℕ → List ℕ
basename path =
    or_default (reverse (take_part (drop_slashes (reverse path))))
      (if starts_with_slash path then root_path else b'.' ∷ [])
