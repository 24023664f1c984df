-- ===== src/Fuse/Unlinked.antt =====
-- pgfuse_unlink, pgfuse.c, lines 645-690, after pgfuse_create.
use pgfuse.Base.{
  ℕ, ◌^◌, ◌<◌, ◌≡◌, ◌≢◌, refl, sym, ap, ◌∙◌, Bool, false, not, some, List, [], ◌∷◌, ◌++◌, arith,
  ◌==◌, filterb, countb, length, ==-refl,
}
use mathlib.Core.List.{append-nil}
use pgfuse.Db.{DirRow, DataRow, Db, has_id, has_parent, is_collected, select_meta, delete_dir}
use pgfuse.Session.{ok, Env, idle, Session, ◌>>=◌}
use pgfuse.Session.Runs.{Answers, Runs, Runs-pure, Runs-bind, Runs-execute}
use pgfuse.Psql.Meta.{s_isdir, to_meta, new_row, psql_delete_file}
use pgfuse.Psql.Stored.{length-filterb}
use pgfuse.Psql.Inserted.{filterb-append, with_row, IsNew, select_meta-with_row, Leads-new}
use pgfuse.Psql.Path.{path_parts, s_ifdir}
use pgfuse.Psql.Path.Parts.{NoSlash, AllNames, path_of}
use pgfuse.Psql.Path.Leads.{Leads, psql_read_meta_from_path-Leads}
use pgfuse.Fuse.Context.{PgFuseData, commit}
use pgfuse.Fuse.Attr.{refuse_read_only}
use pgfuse.Fuse.Create.{pgfuse_create}
use pgfuse.Fuse.Remove.{unlink_body, pgfuse_unlink}
use pgfuse.Fuse.Atomic.{PoolServes}
use pgfuse.Fuse.Committed.{IsCommitted, transact-Runs}
use pgfuse.Fuse.Created.{pgfuse_create-IsCommitted}
use pgfuse.Fuse.Places.{file_of, IsPlace, Splits-path_of}

-- No row and no block refers to the id.
pub record IsUnused (d : Db) (i : ℕ) : Type 0 where
  pub no_child : countb (has_parent i) d.dir ≡ 0
  pub no_block : countb (λ b. b.dir_id == i) d.blocks ≡ 0

filterb-not :
    {A : Type 0} (p : A → Bool) (xs : List A) → countb p xs ≡ 0 → filterb (λ x. not (p x)) xs ≡ xs
filterb-not p [] h = refl
filterb-not p (x ∷ xs) h = ground (arith, h, filterb-not p xs)

not_collected :
    (row : DirRow) (bs : List DataRow)
    → countb (λ b. b.dir_id == row.id) bs ≡ 0
    → filterb (λ b. not (is_collected (row ∷ []) b)) bs ≡ bs
not_collected row [] h = refl
not_collected row (b ∷ bs) h = ground (arith, h, not_collected row bs)

module _ (d : Db) (row : DirRow) (fresh : IsNew d row) (unused : IsUnused d row.id) where
  -- The row that has been added is taken away again.
  delete_dir-with_row : delete_dir row.id (with_row d row) ≡ some d
  unfolding delete_dir select_meta
  delete_dir-with_row =
      let found : filterb (has_id row.id) (d.dir ++ row ∷ []) ≡ row ∷ [] =
        unfold select_meta in select_meta-with_row d row fresh in
      let free : countb (has_id row.id) d.dir ≡ 0 =
        unfold select_meta in sym (length-filterb _ d.dir) ∙ ap length fresh.free_id in
      let rest : filterb (λ x. not (has_id row.id x)) (d.dir ++ row ∷ []) ≡ d.dir =
        filterb-append (λ x. not (has_id row.id x)) d.dir (row ∷ [])
        ∙ ground
            (arith, filterb-not (has_id row.id) d.dir free, append-nil d.dir, ==-refl row.id) in
      simp
        (found, rest, not_collected row d.blocks unused.no_block, unused.no_child, unused.no_block)
        refl

module _ (env : Env) (answers : Answers env) (d : PgFuseData) (rw_mount : d.read_only ≡ false)
    (t : Db) (path : List ℕ) (i m : ℕ) (row : DirRow) (t' : Db) where
  unlink_body-Runs :
      i < 2 ^ 31
      → select_meta i t ≡ row ∷ []
      → s_isdir row.mode ≡ false
      → Leads t 0 s_ifdir (path_parts path) i m
      → delete_dir i t ≡ some t'
      → Runs env (unlink_body d path) t (ok (commit tt)) t'
  unfolding unlink_body refuse_read_only psql_delete_file to_meta
  unlink_body-Runs small one file leads gone =
      Runs-bind _ _ (psql_read_meta_from_path-Leads answers t path i m row small one leads) (
        simp (file, rw_mount)
          (Runs-bind _ _ (Runs-pure tt t) (
            Runs-bind _ _ (Runs-pure tt t)
              (Runs-bind _ _ (Runs-execute answers _ t (rw gone refl)) (Runs-pure _ t')))))

-- On a mount that is not read-only, while no statement and no request to the pool fails, a file that
-- is created in a directory that names lead to and then unlinked by the same path leaves the
-- committed tables as they were, if its name and its number are free, no row or block refers to the
-- number, and its mode is not that of a directory.
pub pgfuse_unlink-pgfuse_create :
    (env : Env) (answers : Answers env) (d : PgFuseData) (pool : PoolServes env) (s : Session)
    (names : List (List ℕ)) (name : List ℕ) (mode i : ℕ) (parent : DirRow)
    → s.tx ≡ idle
    → d.read_only ≡ false
    → AllNames names
    → name ≢ []
    → NoSlash name
    → IsPlace s.work names i parent
    → IsNew s.work (file_of env s.serial i name mode parent)
    → IsUnused s.work s.serial
    → s_isdir mode ≡ false
    → s.serial < 2 ^ 31
    → IsCommitted tt s.work (
        (pgfuse_create d (path_of names ++ b'/' ∷ name) mode >>= λ _.
        pgfuse_unlink d (path_of names ++ b'/' ∷ name))
          env s)
unfolding pgfuse_unlink new_row ◌>>=◌
pgfuse_unlink-pgfuse_create env answers d pool s names name mode i parent t rw_mount h full plain
      place fresh unused file small =
    let path = path_of names ++ b'/' ∷ name in
    let row = file_of env s.serial i name mode parent in
    let done =
      pgfuse_create-IsCommitted env answers d pool names name mode i parent s t rw_mount h full
        plain place fresh small in
    let leads = Leads-new s.work row fresh 0 s_ifdir place.mode names place.leads place.is_dir in
    let runs =
      unlink_body-Runs env answers d rw_mount (with_row s.work row) path s.serial mode row s.work
        small (select_meta-with_row s.work row fresh) file
        (rw (sym (Splits-path_of names name h full plain).parts) at leads)
        (delete_dir-with_row s.work row fresh unused) in
    simp done.returned (
      transact-Runs env answers d pool (unlink_body d path) tt (pgfuse_create d path mode env s).1
        s.work done.closed (rw done.work runs))
