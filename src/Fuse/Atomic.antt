-- ===== src/Fuse/Atomic.antt =====
-- A hook that fails has changed nothing, and one that succeeds has closed its transaction and given
-- its connection back.
use pgfuse.Base.{ℕ, ◌+◌, ◌≡◌, refl, false, arith, if◌then◌else◌, Bool-cases, inl, inr}
use pgfuse.Session.{Ret, ok, err, fault, Env, idle, Session, M, pure, raise, ◌>>=◌}
use pgfuse.Session.Keeps.{Keeps, WritesKeep, Uncommitted, Uncommitted-WritesKeep}
use pgfuse.Psql.Tx.{psql_begin, psql_commit, psql_rollback}
use pgfuse.Fuse.Oper.{Call, discard, perform, is_rename}
use pgfuse.Fuse.Bodies.{
  fgetattr_body-Keeps, getattr_body-Keeps, readdir_body-Keeps, read_body-Keeps, readlink_body-Keeps,
  chmod_body-Keeps, chown_body-Keeps, utimens_body-Keeps, mkdir_body-Keeps, create_body-Keeps,
  symlink_body-Keeps, rmdir_body-Keeps, unlink_body-Keeps, open_body-Keeps, write_body-Keeps,
  truncate_body-Keeps, ftruncate_body-Keeps,
}
use pgfuse.Fuse.Attr.{
  pgfuse_fgetattr, pgfuse_getattr, pgfuse_access, pgfuse_readdir, pgfuse_chmod, pgfuse_chown,
  pgfuse_utimens, refuse_read_only,
}
use pgfuse.Fuse.Create.{pgfuse_create, pgfuse_mkdir, pgfuse_symlink}
use pgfuse.Fuse.Remove.{pgfuse_rmdir, pgfuse_unlink}
use pgfuse.Fuse.FileIo.{
  pgfuse_open, pgfuse_fsync, pgfuse_write, pgfuse_read, pgfuse_truncate, pgfuse_ftruncate,
  pgfuse_readlink, expect_handle,
}
use pgfuse.Fuse.Statfs.{statfs_body, pgfuse_statfs}
use pgfuse.Fuse.Statfs.Keeping.{find_space-Keeps, statfs_body-Keeps}
use pgfuse.Fuse.Nothing.{
  pgfuse_opendir, pgfuse_releasedir, pgfuse_fsyncdir, pgfuse_flush, pgfuse_release,
}
use pgfuse.Fuse.Context.{
  PgFuseData, acquire, release, Ending, commit, rollback, leave, closing, transact,
}

-- What a call that began at `s` has done, by how it ended.
abbrev pub IsAtomic : {A : Type 0} → Session → Ret A × Session → Type 0
IsAtomic s (ok a, s') = (s'.tx ≡ idle) × (s'.leases ≡ s.leases)
IsAtomic s (err n, s') = s'.base ≡ s.base
IsAtomic s (fault, s') = s'.base ≡ s.base

-- Every connection that a hook holds is one of the pool, and the pool has one for every hook.
abbrev pub PoolServes : Env → Type 0
PoolServes env = (n : ℕ) → env.pool_fails n ≡ false

abbrev pub held : PgFuseData → Session → ℕ
held d s = if d.multi_threaded then s.leases + 1 else s.leases

module _ {A : Type 0} (d : PgFuseData) (env : Env) (pool : PoolServes env) (s0 : Session) where
  leave-IsAtomic :
      (r : Ret (Ending A)) (s : Session)
      → Uncommitted s0.base (held d s0) s
      → IsAtomic s0 (leave d r env s)
  unfolding leave psql_commit psql_rollback release ◌>>=◌
  leave-IsAtomic (ok (commit a)) s h = ground (arith, pool (s.calls + 1))
  leave-IsAtomic (ok (rollback a)) s h = ground (arith, pool (s.calls + 1))
  leave-IsAtomic (err n) s h = ground (arith, pool (s.calls + 1))
  leave-IsAtomic fault s h = ground arith

  closing-IsAtomic :
      (body : M (Ending A)) (s : Session)
      → Keeps (Uncommitted s0.base (held d s0)) body
      → Uncommitted s0.base (held d s0) s
      → IsAtomic s0 (closing d body env s)
  unfolding closing
  closing-IsAtomic body s keeps h =
      let (r, s') = body env s in leave-IsAtomic r s' (keeps.at env s h)

  -- What a hook does once its transaction has begun.
  abbrev AtomicFrom : M A → Type 0
  AtomicFrom rest = (s : Session) → Uncommitted s0.base (held d s0) s → IsAtomic s0 (rest env s)

  begin-IsAtomic :
      (rest : M A) (s : Session)
      → AtomicFrom rest
      → s.tx ≡ idle
      → s.base ≡ s0.base
      → s.leases ≡ held d s0
      → IsAtomic s0 ((psql_begin >>= λ _. rest) env s)
  unfolding psql_begin ◌>>=◌
  begin-IsAtomic rest s keeps t b l = elim (Bool-cases (env.fails s.calls)) [
    | inl e ↦ rw e b
    | inr e ↦ rw (e, t) (keeps _ (record { open_tx = λ p. cc; same_base = b; same_leases = l }))
  ]

  framed-IsAtomic :
      (rest : M A)
      → AtomicFrom rest
      → s0.tx ≡ idle
      → IsAtomic s0 ((acquire d >>= λ _. psql_begin >>= λ _. rest) env s0)
  unfolding acquire ◌>>=◌
  framed-IsAtomic rest keeps t = elim (Bool-cases d.multi_threaded) [
    | inl e ↦ simp (e, pool s0.calls) (begin-IsAtomic rest _ keeps t refl (rw e))
    | inr e ↦ simp e (begin-IsAtomic rest _ keeps t refl (rw e))
  ]

  pub transact-IsAtomic :
      (body : M (Ending A))
      → Keeps (Uncommitted s0.base (held d s0)) body
      → s0.tx ≡ idle
      → IsAtomic s0 (transact d body env s0)
  unfolding transact
  transact-IsAtomic body keeps t = framed-IsAtomic _ (λ s h. closing-IsAtomic body s keeps h) t

  module _ {X : Type 0} (body : X → M (Ending A))
      (keeps : (x : X) → Keeps (Uncommitted s0.base (held d s0)) (body x)) where
    continue-IsAtomic :
        (r : Ret X) (s : Session)
        → Uncommitted s0.base (held d s0) s
        → IsAtomic s0 (◌>>=◌ (λ _ _. (r, s)) (λ x. closing d (body x)) env s)
    unfolding ◌>>=◌
    continue-IsAtomic (ok x) s h = closing-IsAtomic (body x) s (keeps x) h
    continue-IsAtomic (err n) s h = h.same_base
    continue-IsAtomic fault s h = h.same_base

    -- An action that may return before the part of the hook that ends the transaction.
    early-IsAtomic :
        (m : M X)
        → Keeps (Uncommitted s0.base (held d s0)) m
        → AtomicFrom (m >>= λ x. closing d (body x))
    unfolding ◌>>=◌
    early-IsAtomic m km s h = let (r, s') = m env s in continue-IsAtomic r s' (km.at env s h)

module _ (d : PgFuseData) (env : Env) (pool : PoolServes env) (s : Session) (t : s.tx ≡ idle) where
  discard-IsAtomic : {A : Type 0} (m : M A) → IsAtomic s (m env s) → IsAtomic s (discard m env s)
  unfolding discard ◌>>=◌ pure
  discard-IsAtomic m h = let (r, s') = m env s in discarded r s' h
    where
      discarded :
          {A : Type 0} (r : Ret A) (s' : Session)
          → IsAtomic s (r, s')
          → IsAtomic s (discard (λ _ _. (r, s')) env s)
      discarded (ok a) s' h = h
      discarded (err n) s' h = h
      discarded fault s' h = h

  abbrev statements : WritesKeep (Uncommitted s.base (held d s))
  statements = Uncommitted-WritesKeep s.base (held d s)

  atomic :
      {A : Type 0} (body : M (Ending A))
      → Keeps (Uncommitted s.base (held d s)) body
      → IsAtomic s (transact d body env s)
  atomic body keeps = transact-IsAtomic d env pool s body keeps t

  quiet :
      {A : Type 0} (body : M (Ending A))
      → Keeps (Uncommitted s.base (held d s)) body
      → IsAtomic s (discard (transact d body) env s)
  quiet body keeps = discard-IsAtomic _ (atomic body keeps)

  -- While the pool serves its callers, a call other than rename that starts outside a transaction
  -- leaves the tables as they were if it fails, whichever statement or allocation it was that
  -- failed, and also if it ends in undefined behaviour; if it succeeds it ends outside a
  -- transaction with as many connections acquired as before.
  pub perform-IsAtomic : (c : Call) → is_rename c ≡ false → IsAtomic s (perform d c env s)
  unfolding perform
  perform-IsAtomic (Call.getattr path) n =
      unfold pgfuse_getattr in quiet _ (getattr_body-Keeps statements.reads d path)
  perform-IsAtomic (Call.readlink path buf size) n =
      unfold pgfuse_readlink in quiet _ (readlink_body-Keeps statements.reads d path buf size)
  perform-IsAtomic (Call.mkdir path mode) n =
      unfold pgfuse_mkdir in atomic _ (mkdir_body-Keeps statements d path mode)
  perform-IsAtomic (Call.unlink path) n =
      unfold pgfuse_unlink in atomic _ (unlink_body-Keeps statements d path)
  perform-IsAtomic (Call.rmdir path) n =
      unfold pgfuse_rmdir in atomic _ (rmdir_body-Keeps statements d path)
  perform-IsAtomic (Call.symlink from to) n =
      unfold pgfuse_symlink in atomic _ (symlink_body-Keeps statements d from to)
  perform-IsAtomic (Call.rename from to) n = cc
  perform-IsAtomic (Call.chmod path mode) n =
      unfold pgfuse_chmod in atomic _ (chmod_body-Keeps statements d path mode)
  perform-IsAtomic (Call.chown path uid gid) n =
      unfold pgfuse_chown in atomic _ (chown_body-Keeps statements d path uid gid)
  perform-IsAtomic (Call.open_file path flags) n =
      unfold pgfuse_open in quiet _ (open_body-Keeps statements d path flags)
  perform-IsAtomic (Call.read fh buf size offset) n =
      unfold pgfuse_read in quiet _ (read_body-Keeps statements.reads d fh buf size offset)
  perform-IsAtomic (Call.write fh buf size offset) n =
      unfold pgfuse_write in quiet _ (write_body-Keeps statements d fh buf size offset)
  perform-IsAtomic (Call.fsync fh) n =
      unfold pgfuse_fsync refuse_read_only expect_handle pure raise ◌>>=◌ in ground arith
  perform-IsAtomic (Call.readdir path) n =
      unfold pgfuse_readdir in quiet _ (readdir_body-Keeps statements.reads path)
  perform-IsAtomic (Call.access path mode) n = unfold pgfuse_access pure in (t, refl)
  perform-IsAtomic (Call.create path mode) n =
      unfold pgfuse_create in quiet _ (create_body-Keeps statements d path mode)
  perform-IsAtomic (Call.truncate path offset) n =
      unfold pgfuse_truncate in atomic _ (truncate_body-Keeps statements d path offset)
  perform-IsAtomic (Call.ftruncate fh offset) n =
      unfold pgfuse_ftruncate in atomic _ (ftruncate_body-Keeps statements d fh offset)
  perform-IsAtomic (Call.fgetattr fh) n =
      unfold pgfuse_fgetattr in quiet _ (fgetattr_body-Keeps statements.reads d fh)
  perform-IsAtomic (Call.utimens path atime mtime) n =
      unfold pgfuse_utimens in atomic _ (utimens_body-Keeps statements path atime mtime)
  perform-IsAtomic (Call.statfs catalog machine) n =
      unfold pgfuse_statfs in
      discard-IsAtomic _ (
        framed-IsAtomic d env pool s _
          (early-IsAtomic d env pool s (statfs_body d) (statfs_body-Keeps statements.reads d) _
            (find_space-Keeps statements.reads d catalog machine))
          t)
  perform-IsAtomic (Call.opendir path) n = unfold pgfuse_opendir pure in (t, refl)
  perform-IsAtomic (Call.releasedir path) n = unfold pgfuse_releasedir pure in (t, refl)
  perform-IsAtomic (Call.fsyncdir path) n = unfold pgfuse_fsyncdir pure in (t, refl)
  perform-IsAtomic (Call.flush path) n = unfold pgfuse_flush pure in (t, refl)
  perform-IsAtomic (Call.release path) n = unfold pgfuse_release pure in (t, refl)
