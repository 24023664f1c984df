-- ===== src/Fuse/FileSpec/Refines.antt =====
-- The hooks on an open file refine the array of bytes: one request, and any sequence of them.
use pgfuse.Base.{ℕ, ◌^◌, ◌<◌, ◌≡◌, ◌≢◌, refl, sym, ap, ◌∙◌, false, List, [], ◌∷◌, arith, ◌==◌}
use pgfuse.Db.{DirRow, Db, select_meta, update_meta}
use pgfuse.Session.{Ret, ok, Env, idle, Session, M, pure, ◌>>=◌}
use pgfuse.Session.Runs.{Answers, Runs, Runs-pure, Runs-bind}
use pgfuse.Store.{content}
use pgfuse.Psql.Meta.{PgMeta, to_meta, set_meta}
use pgfuse.Psql.Stored.{row_there, psql_read_meta-Runs, psql_write_meta-Runs}
use pgfuse.Psql.Data.{psql_truncate}
use pgfuse.Psql.Data.WriteBuf.{psql_write_buf-Written}
use pgfuse.Psql.Data.Truncate.{cut-Truncated}
use pgfuse.Fuse.Context.{PgFuseData, commit}
use pgfuse.Fuse.Attr.{refuse_read_only}
use pgfuse.Fuse.FileIo.{expect_handle, write_body, pgfuse_write, ftruncate_body, pgfuse_ftruncate}
use pgfuse.Fuse.Oper.{discard, perform}
use pgfuse.Fuse.Atomic.{PoolServes}
use pgfuse.Fuse.Committed.{IsCommitted, transact-Runs, write_body-Runs}
use pgfuse.Fuse.FileSpec.{
  File, Request, write_at, cut_to, apply, apply_all, call_of, serve, IsFit, AllFit, Represents,
  SameOthers,
}
use pgfuse.Fuse.FileSpec.Rows.{
  Written-Represents, Written-SameOthers, Truncated-Represents, Truncated-SameOthers,
  meta-Represents, meta-SameOthers,
}

-- What is left after a call that has been served: the file `f` is committed, and nothing else has
-- changed but the metadata.
pub record Served (block_size fh : ℕ) (s : Session) (f : File) (out : Ret (Unit {0}) × Session)
    : Type 0 where
  pub returned : out.0 ≡ ok tt
  pub closed : out.1.tx ≡ idle
  pub shared : out.1.work ≡ out.1.base
  pub holds : Represents block_size fh out.1.base f
  pub others : SameOthers block_size fh s.work out.1.base

-- A hook that has committed tables with the file.
committed-Served :
    (block_size fh : ℕ) (s : Session) (f : File) (t : Db) {out : Ret (Unit {0}) × Session}
    → IsCommitted tt t out
    → Represents block_size fh t f
    → SameOthers block_size fh s.work t
    → Served block_size fh s f out
committed-Served block_size fh s f t done holds others = record {
  returned = done.returned;
  closed = done.closed;
  shared = done.work ∙ sym done.base;
  holds = rw done.base holds;
  others = λ j p other lt. rw done.base (others j p other lt);
}

discard-IsCommitted :
    {A : Type 0} (hook : M A) (env : Env) (s : Session) (a : A) (t : Db)
    → IsCommitted a t (hook env s)
    → IsCommitted tt t (discard hook env s)
unfolding discard ◌>>=◌ pure
discard-IsCommitted hook env s a t done =
    simp done.returned
      (record { returned = refl; base = done.base; work = done.work; closed = done.closed })

module _ (env : Env) (answers : Answers env) (d : PgFuseData) (pool : PoolServes env)
    (rw_mount : d.read_only ≡ false) (fh : ℕ) (some : fh ≢ 0) (small : fh < 2 ^ 31) where
  ftruncate_body-Runs :
      (offset : ℕ) (r : DirRow) (t t' : Db)
      → select_meta fh t ≡ r ∷ []
      → Runs env (psql_truncate d.block_size fh offset) t (ok tt) t'
      → Runs env
          (ftruncate_body d fh offset)
          t
          (ok (commit tt))
          (update_meta fh (set_meta env.order (record (to_meta env.order r) { size = offset })) t')
  unfolding ftruncate_body expect_handle refuse_read_only
  ftruncate_body-Runs offset r t t' one cut =
      let handle : (fh == 0) ≡ false = ground arith in
      simp (handle, rw_mount)
        (Runs-bind _ _ (Runs-pure tt t) (
          Runs-bind _ _ (psql_read_meta-Runs answers fh r t small one) (
            Runs-bind _ _ (Runs-pure tt t) (
              Runs-bind _ _ cut
                (Runs-bind _ _ (psql_write_meta-Runs answers fh _ t') (Runs-pure _ _))))))

  serve_one :
      (q : Request) (s : Session) (f : File)
      → s.tx ≡ idle
      → IsFit d.block_size q
      → Represents d.block_size fh s.work f
      → Served d.block_size fh s (apply q f) (perform d (call_of fh q) env s)
  unfolding perform pgfuse_write pgfuse_ftruncate
  serve_one (write_at buf size offset) s f closed (fits, given) h =
      let (t, runs, w) =
        psql_write_buf-Written env answers d.block_size fh fits.positive fits.block_small buf offset
          size s.work fits given h.stored (row_there fh h.row s.work h.one) in
      let done =
        transact-Runs env answers d pool (write_body d fh buf size offset) size s _ closed (
          write_body-Runs env answers d fh buf size offset h.row s.work t rw_mount some small h.one
            runs) in
      committed-Served d.block_size fh s _ _
        (discard-IsCommitted (pgfuse_write d fh buf size offset) env s size _ done)
        (Written-Represents env.order d.block_size fh s.work t f h buf size offset fits.end_small w)
        (Written-SameOthers env.order d.block_size fh s.work t f h buf size offset _ w)
  serve_one (cut_to offset) s f closed (fits, left) h =
      let (t, w, runs) =
        cut-Truncated answers d.block_size fh offset h.row s.work fits left small h.one h.stored in
      let m : PgMeta = record (to_meta env.order h.row) { size = offset } in
      let done =
        transact-Runs env answers d pool (ftruncate_body d fh offset) tt s _ closed
          (ftruncate_body-Runs offset h.row s.work _ h.one runs) in
      committed-Served d.block_size fh s _ _ done
        (meta-Represents env.order d.block_size fh _ _ m refl
          (Truncated-Represents env.order d.block_size fh s.work t f h offset m refl w))
        (meta-SameOthers env.order d.block_size fh s.work _ m
          (Truncated-SameOthers env.order d.block_size fh s.work t f h offset m w))

  -- On a mount that is not read-only, while no statement and no request to the pool fails, any
  -- sequence of writes and cuts within range, none of them a cut to the size 0, through the handle
  -- of a file whose row is there succeeds, and leaves the file that the array of bytes gives when
  -- the same requests are applied to it, with the bytes of all other files as they were. Within
  -- range are a write of less than 2 ^ 30 bytes that the buffer has and that ends below 2 ^ 61, and
  -- a cut to a size below 2 ^ 30, with a block size below 2 ^ 31; bytes are compared at positions
  -- below 2 ^ 62.
  pub serve_refines :
      (qs : List Request) (s : Session) (f : File)
      → s.tx ≡ idle
      → s.work ≡ s.base
      → AllFit d.block_size qs
      → Represents d.block_size fh s.work f
      → Served d.block_size fh s (apply_all qs f) (serve d fh qs env s)
  unfolding serve ◌>>=◌ pure
  serve_refines [] s f closed shared fit h = record {
    returned = refl;
    closed = closed;
    shared = shared;
    holds = rw shared at h;
    others = λ j p other lt. ap (λ t. content d.block_size t j p) (sym shared);
  }
  serve_refines (q ∷ qs) s f closed shared (fit, fits) h =
      let one = serve_one q s f closed fit h in
      let s' = (perform d (call_of fh q) env s).1 in
      let rest =
        serve_refines qs s' (apply q f) one.closed one.shared fits
          (rw (sym one.shared) at one.holds) in
      simp one.returned (record {
        returned = rest.returned;
        closed = rest.closed;
        shared = rest.shared;
        holds = rest.holds;
        others = λ j p other lt.
            rest.others j p other lt
            ∙ ap (λ t. content d.block_size t j p) one.shared
            ∙ one.others j p other lt;
      })
