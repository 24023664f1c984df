-- ===== src/Fuse/Errors.antt =====
-- What the hooks answer to a path that is not as they want it.
use pgfuse.Base.{
  ℕ, ◌+◌, ◌^◌, ◌<◌, ◌≡◌, ◌≢◌, refl, Bool, true, false, List, [], ◌∷◌, ◌++◌, arith, ltb-lt,
  if◌then◌else◌,
}
use pgfuse.Db.{DirRow, Db, select_child, select_meta, count_children}
use pgfuse.Session.{
  Ret, ok, err, Env, idle, Session, M, raise, ◌>>=◌, enotempty, eexist, eisdir, eio,
}
use pgfuse.Session.Keeps.{Keeps, Uncommitted, Uncommitted-WritesKeep}
use pgfuse.Session.Runs.{Answers, Runs, Runs-pure, Runs-attempt, Runs-select}
use pgfuse.Session.Fails.{Fails, Fails-raise, Fails-first, Fails-bind}
use pgfuse.Psql.Tx.{psql_rollback}
use pgfuse.Psql.Meta.{s_isdir, to_meta, psql_delete_dir}
use pgfuse.Psql.Path.{path_parts, s_ifdir}
use pgfuse.Psql.Path.Leads.{Leads, psql_read_meta_from_path-Leads}
use pgfuse.Fuse.Context.{PgFuseData, Ending, release, leave, closing, transact}
use pgfuse.Fuse.Attr.{refuse_read_only}
use pgfuse.Fuse.Create.{expect_missing, create_body, pgfuse_create}
use pgfuse.Fuse.Remove.{rmdir_body, pgfuse_rmdir}
use pgfuse.Fuse.Bodies.{rmdir_body-Keeps, create_body-Keeps}
use pgfuse.Psql.Meta.{PgMeta, new_row, with_ifdir, psql_create_dir}
use pgfuse.Session.Runs.{Runs-gets}
use pgfuse.Session.Fails.{Fails-nextval, Fails-execute}
use pgfuse.Psql.Inserted.{insert_dir-taken}
use pgfuse.Psql.Path.Parts.{NoSlash, AllNames, path_of}
use pgfuse.Fuse.Create.{mkdir_body, pgfuse_mkdir}
use pgfuse.Fuse.Bodies.{mkdir_body-Keeps}
use pgfuse.Fuse.Created.{parent_of-Runs}
use pgfuse.Fuse.Places.{IsPlace, Splits-path_of, copy_again-Runs, new_meta-Runs}
use pgfuse.Fuse.Atomic.{PoolServes, IsAtomic, held, transact-IsAtomic}
use pgfuse.Fuse.Leak.{acquired, begun, acquire_served, begin_answered}

-- The hook returns -n, the tables stay as they were, and the transaction is over.
pub record IsRefused {A : Type 0} (s : Session) (n : ℕ) (out : Ret A × Session) : Type 0 where
  pub returned : out.0 ≡ err n
  pub base : out.1.base ≡ s.base
  pub closed : out.1.tx ≡ idle

unchanged :
    {A : Type 0} (s s' : Session) (r : Ret A) (n : ℕ)
    → r ≡ err n
    → IsAtomic s (r, s')
    → s'.base ≡ s.base
unchanged s s' r n e h = rw e at h

module _ (env : Env) (answers : Answers env) (d : PgFuseData) (pool : PoolServes env) where
  closing-Fails :
      {A : Type 0} (body : M (Ending A)) (s : Session) (n : ℕ)
      → (body env s).0 ≡ err n
      → ((closing d body env s).0 ≡ err n) × ((closing d body env s).1.tx ≡ idle)
  unfolding closing leave release psql_rollback ◌>>=◌ raise
  closing-Fails body s n e =
      let s' = (body env s).1 in simp (e, answers s'.calls, pool (s'.calls + 1)) (ground arith)

  module _ {A : Type 0} (body : M (Ending A)) (s : Session) (t : s.tx ≡ idle) where
    transact-begun : transact d body env s ≡ closing d body env (begun d s)
    unfolding transact ◌>>=◌
    transact-begun =
        simp (acquire_served d env s pool, begin_answered env (acquired d s) t (answers _)) refl

    transact-Fails :
        (n : ℕ)
        → Keeps (Uncommitted s.base (held d s)) body
        → Fails env body s.work n
        → IsRefused s n (transact d body env s)
    transact-Fails n keeps fails =
        let (e, x) = closing-Fails body (begun d s) n (fails.at (begun d s) refl refl) in
        let returns : (transact d body env s).0 ≡ err n = rw transact-begun e in
        record {
          returned = returns;
          base = unchanged s _ _ n returns (transact-IsAtomic d env pool s body keeps t);
          closed = rw transact-begun x;
        }

raises_either :
    {env : Env} (b : Bool) (m n : ℕ) (t : Db)
    → Fails env {A = Unit {0}} (if b then raise m else raise n) t (if b then m else n)
raises_either true m n t = Fails-raise m t
raises_either false m n t = Fails-raise n t

-- The path leads to the entry `i` with the row `row`.
pub record Finds (t : Db) (path : List ℕ) (i : ℕ) (row : DirRow) : Type 0 where
  pub mode : ℕ
  pub leads : Leads t 0 s_ifdir (path_parts path) i mode
  pub one : select_meta i t ≡ row ∷ []
  pub small : i < 2 ^ 31

module _ (env : Env) (answers : Answers env) (d : PgFuseData) (pool : PoolServes env) (s : Session)
    (path : List ℕ) (i : ℕ) (row : DirRow) (t : s.tx ≡ idle) (rw_mount : d.read_only ≡ false)
    (finds : Finds s.work path i row) where
  found :
      Runs env
        (pgfuse.Psql.Path.psql_read_meta_from_path path)
        s.work
        (ok (i, to_meta env.order row))
        s.work
  found =
      psql_read_meta_from_path-Leads answers s.work path i finds.mode row finds.small finds.one
        finds.leads

  -- On a mount that is not read-only, while no statement and no request to the pool fails, removing
  -- a directory that is the parent of an entry is refused with ENOTEMPTY, and changes nothing.
  pub rmdir_not_empty :
      s_isdir row.mode ≡ true
      → 0 < count_children i s.work
      → IsRefused s enotempty (pgfuse_rmdir d path env s)
  unfolding pgfuse_rmdir rmdir_body refuse_read_only psql_delete_dir to_meta
  rmdir_not_empty is_dir some_child =
      transact-Fails env answers d pool (rmdir_body d path) s t enotempty
        (rmdir_body-Keeps (Uncommitted-WritesKeep s.base (held d s)) d path)
        (Fails-bind _ _ found (
          simp (is_dir, rw_mount)
            (Fails-bind _ _ (Runs-pure tt s.work) (
              Fails-bind _ _ (Runs-pure tt s.work) (
                Fails-first _ _ (
                  Fails-bind _ _ (Runs-select answers _ s.work) (
                    simp (ltb-lt 0 (count_children i s.work) some_child)
                      (Fails-raise enotempty s.work))))))))

  -- On a mount that is not read-only, while no statement and no request to the pool fails, creating
  -- a file by a path that leads to an entry is refused, with EISDIR if the entry is a directory and
  -- with EEXIST if it is not, and changes nothing.
  pub create_existing :
      (mode : ℕ)
      → IsRefused s (if s_isdir row.mode then eisdir else eexist) (pgfuse_create d path mode env s)
  unfolding pgfuse_create create_body refuse_read_only expect_missing to_meta
  create_existing mode =
      transact-Fails env answers d pool (create_body d path mode) s t _
        (create_body-Keeps (Uncommitted-WritesKeep s.base (held d s)) d path mode)
        (simp rw_mount (
          Fails-bind _ _ (Runs-pure tt s.work) (
            Fails-bind _ _ (Runs-attempt _ found)
              (Fails-first _ _ (raises_either (s_isdir row.mode) eisdir eexist s.work)))))

module _ (env : Env) (answers : Answers env) (d : PgFuseData) (pool : PoolServes env) (s : Session)
    (names : List (List ℕ)) (name : List ℕ) (i : ℕ) (parent r : DirRow) (t : s.tx ≡ idle)
    (rw_mount : d.read_only ≡ false) (h : AllNames names) (full : name ≢ []) (plain : NoSlash name)
    (place : IsPlace s.work names i parent) (taken : select_child name i s.work ≡ r ∷ []) where
  -- The INSERT that the key UNIQUE( name, parent_id ) refuses.
  create_dir-Fails : (m : PgMeta) → Fails env (psql_create_dir i name m) s.work eio
  unfolding psql_create_dir new_row
  create_dir-Fails m = Fails-bind _ _ (Runs-gets _ s.work) (
      Fails-nextval _ λ k. Fails-first _ _ (
        Fails-execute answers _ s.work (
          rw
            (insert_dir-taken s.work (new_row env.order k i name (record m { size = 0 })) r []
              taken)
            refl)))

  -- On a mount that is not read-only, while no statement and no request to the pool fails, making a
  -- directory whose name is taken in a directory that names lead to is refused with EIO, not with
  -- EEXIST, and changes nothing.
  pub mkdir_existing :
      (mode : ℕ) → IsRefused s eio (pgfuse_mkdir d (path_of names ++ b'/' ∷ name) mode env s)
  unfolding pgfuse_mkdir mkdir_body refuse_read_only
  mkdir_existing mode =
      let path = path_of names ++ b'/' ∷ name in
      let splits = Splits-path_of names name h full plain in
      transact-Fails env answers d pool (mkdir_body d path mode) s t eio
        (mkdir_body-Keeps (Uncommitted-WritesKeep s.base (held d s)) d path mode)
        (simp rw_mount (
          Fails-bind _ _ (Runs-pure tt s.work) (
            Fails-bind _ _
              (parent_of-Runs env answers s.work path name names i place.mode mode parent splits
                place.leads place.is_dir place.one place.parent_dir place.small)
              (Fails-bind _ _ (copy_again-Runs env answers s.work) (
                Fails-bind _ _ (new_meta-Runs env answers s.work 0 (with_ifdir mode) _)
                  (simp splits.last (Fails-first _ _ (create_dir-Fails _))))))))
