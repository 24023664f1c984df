-- ===== src/Fuse/Committed.antt =====
-- pgfuse_write, pgfuse.c, lines 738-797: what it commits when nothing outside of the program fails.
use pgfuse.Base.{
  ℕ, ◌+◌, ◌%◌, ◌^◌, ◌≤◌, ◌<◌, ◌≡◌, ◌≢◌, refl, false, List, [], ◌∷◌, arith, ◌==◌, length, ==-refl,
}
use pgfuse.Db.{DirRow, Db, select_meta, update_meta}
use pgfuse.Block.Bounds.{InRange}
use pgfuse.Session.{Ret, ok, Env, idle, active, Session, M, pure, ◌>>=◌}
use pgfuse.Session.Runs.{Answers, Runs, Runs-pure, Runs-bind}
use pgfuse.Session.Numbered.{Numbers}
use pgfuse.Store.{IsStored}
use pgfuse.Psql.Meta.{to_meta, set_meta}
use pgfuse.Wire.{ByteOrder}
use pgfuse.Base.{Bool-cases, inl, inr, ap, ◌∙◌, ltb, if◌then◌else◌}
use pgfuse.Psql.Resized.{HasTimes, Resized, update_meta-Resized}
use pgfuse.Psql.Stored.{row_there, psql_read_meta-Runs, psql_write_meta-Runs}
use pgfuse.Psql.Tx.{psql_commit}
use pgfuse.Psql.Data.{psql_write_buf}
use pgfuse.Psql.Data.Written.{Written}
use pgfuse.Psql.Data.WriteBuf.{psql_write_buf-Written}
use pgfuse.Fuse.Context.{PgFuseData, Ending, commit, release, leave, closing, transact}
use pgfuse.Fuse.Attr.{refuse_read_only}
use pgfuse.Fuse.FileIo.{write_body, pgfuse_write, expect_handle, grown}
use pgfuse.Fuse.Atomic.{PoolServes}
use pgfuse.Fuse.Leak.{acquired, begun, acquire_served, begin_answered}

-- A hook that has returned `a` and committed the tables `d'`.
pub record IsCommitted {A : Type 0} (a : A) (d' : Db) (out : Ret A × Session) : Type 0 where
  pub returned : out.0 ≡ ok a
  pub base : out.1.base ≡ d'
  pub work : out.1.work ≡ d'
  pub closed : out.1.tx ≡ idle

module _ (env : Env) (answers : Answers env) where
  -- A body that ends with a commit: the tables that it leaves are committed.
  closing_done :
      {A : Type 0} (d : PgFuseData) (pool : PoolServes env) (body : M (Ending A)) (a : A)
      (s : Session) {t' : Db}
      → (body env s).0 ≡ ok (commit a)
      → (body env s).1.work ≡ t'
      → (body env s).1.tx ≡ active
      → IsCommitted a t' (closing d body env s)
  unfolding closing leave release psql_commit pure ◌>>=◌
  closing_done d pool body a s e w x =
      let s' = (body env s).1 in
      record {
        returned = simp (e, answers s'.calls, x, pool (s'.calls + 1)) (ground arith);
        base = simp (e, answers s'.calls, x, w, pool (s'.calls + 1)) (ground arith);
        work = simp (e, answers s'.calls, x, w, pool (s'.calls + 1)) (ground arith);
        closed = simp (e, answers s'.calls, x, pool (s'.calls + 1)) (ground arith);
      }

  pub closing-Runs :
      {A : Type 0} (d : PgFuseData) (pool : PoolServes env) (body : M (Ending A)) (a : A)
      (s : Session) {t t' : Db}
      → s.tx ≡ active
      → s.work ≡ t
      → Runs env body t (ok (commit a)) t'
      → IsCommitted a t' (closing d body env s)
  closing-Runs d pool body a s in_tx sees runs =
      let (e, w, x) = runs.at s in_tx sees in closing_done d pool body a s e w x

  module _ {A : Type 0} (d : PgFuseData) (pool : PoolServes env) (body : M (Ending A)) (a : A)
      (s : Session) (d' : Db) (t : s.tx ≡ idle) where
    begun_done :
        IsCommitted a d' (closing d body env (begun d s)) → IsCommitted a d' (transact d body env s)
    unfolding transact ◌>>=◌
    begun_done h =
        simp (acquire_served d env s pool, begin_answered env (acquired d s) t (answers _)) h

    -- A hook with such a body.
    pub transact-Runs :
        Runs env body s.work (ok (commit a)) d' → IsCommitted a d' (transact d body env s)
    transact-Runs runs = begun_done (closing-Runs d pool body a (begun d s) refl refl runs)

    -- A hook whose body takes a number.
    pub transact-Numbers :
        {n : ℕ}
        → Numbers env body s.work s.serial (ok (commit a)) d' n
        → IsCommitted a d' (transact d body env s)
    transact-Numbers runs =
        let (e, w, x, _) = runs.at (begun d s) refl refl refl in
        begun_done (closing_done d pool body a (begun d s) e w x)

  pub write_body-Runs :
      (d : PgFuseData) (fh : ℕ) (buf : List ℕ) (size offset : ℕ) (r : DirRow) (t t' : Db)
      → d.read_only ≡ false
      → fh ≢ 0
      → fh < 2 ^ 31
      → select_meta fh t ≡ r ∷ []
      → Runs env (psql_write_buf d.block_size fh buf offset size) t (ok size) t'
      → Runs env (write_body d fh buf size offset) t (ok (commit size)) (
          update_meta fh
            (set_meta env.order (grown (to_meta env.order r) ((offset + size) % 2 ^ 64)))
            t')
  unfolding write_body expect_handle refuse_read_only
  write_body-Runs d fh buf size offset r t t' rw_mount some small one wrote =
      let handle : (fh == 0) ≡ false = ground arith in
      simp (handle, rw_mount)
        (Runs-bind _ _ (Runs-pure tt t) (
          Runs-bind _ _ (Runs-pure tt t) (
            Runs-bind _ _ (psql_read_meta-Runs answers fh r t small one) (
              Runs-bind _ _ wrote (
                simp (==-refl size) (
                  Runs-bind _ _ (Runs-pure tt t')
                    (Runs-bind _ _ (psql_write_meta-Runs answers fh _ t') (Runs-pure _ _))))))))

  grown-resized :
      (o : ByteOrder) (r : DirRow) (end : ℕ)
      → end < 2 ^ 64
      → grown (to_meta o r) (end % 2 ^ 64)
        ≡ record (to_meta o r) { size = if ltb r.size end then end else r.size }
  unfolding to_meta
  grown-resized o r end small =
      let same : end % 2 ^ 64 ≡ end = omega arith in
      elim (Bool-cases (ltb r.size end)) [
        | inl e ↦ simp (same, e) refl
        | inr e ↦ simp (same, e) refl
      ]

  -- On a mount that is not read-only, while no statement and no request to the pool fails, a write
  -- within range through the handle of a file whose row is there returns the size that was asked
  -- for and commits: the bytes of the range are those of the buffer, every other byte of every file
  -- is as it was, the row of the file has the larger of its old size and the end of the range and
  -- is otherwise as it was, and so are the rows of all other ids. The size is below 2 ^ 30, the end
  -- of the range below 2 ^ 61, the block size and the handle below 2 ^ 31.
  pub pgfuse_write-Written :
      (d : PgFuseData) (pool : PoolServes env) (fh : ℕ) (buf : List ℕ) (size offset : ℕ)
      (r : DirRow) (s : Session)
      → s.tx ≡ idle
      → d.read_only ≡ false
      → fh ≢ 0
      → fh < 2 ^ 31
      → select_meta fh s.work ≡ r ∷ []
      → HasTimes r
      → InRange d.block_size offset size
      → size ≤ length buf
      → IsStored d.block_size s.work
      → ((pgfuse_write d fh buf size offset env s).0 ≡ ok size)
        × (t : Db) × Written d.block_size fh offset size buf s.work t
        × ((pgfuse_write d fh buf size offset env s).1.base.blocks ≡ t.blocks)
        × Resized fh
            (if ltb r.size (offset + size) then offset + size else r.size)
            r
            s.work
            (pgfuse_write d fh buf size offset env s).1.base
  unfolding pgfuse_write
  pgfuse_write-Written d pool fh buf size offset r s idle_tx rw_mount some small one times fits
        given stored =
      let (t, runs, written) =
        psql_write_buf-Written env answers d.block_size fh fits.positive fits.block_small buf offset
          size s.work fits given stored (row_there fh r s.work one) in
      let done =
        transact-Runs d pool (write_body d fh buf size offset) size s _ idle_tx
          (write_body-Runs d fh buf size offset r s.work t rw_mount some small one runs) in
      (
        done.returned,
        t,
        written,
        ap (λ x. x.blocks) done.base ∙ (unfold update_meta in refl),
        rw (done.base, grown-resized env.order r (offset + size) (omega (arith, fits.end_small)))
            (update_meta-Resized env.order fh _ r s.work t times one written.same_dir),
      )
