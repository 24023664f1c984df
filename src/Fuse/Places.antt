-- ===== src/Fuse/Places.antt =====
-- pgfuse_create and pgfuse_mkdir, pgfuse.c, lines 287-404 and 516-596: the directory of a path, and
-- the metadata of a new file.
use pgfuse.Base.{ℕ, ◌^◌, ◌<◌, ◌≡◌, ◌≢◌, refl, ◌∙◌, true, List, [], ◌∷◌, ◌++◌}
use pgfuse.Db.{DirRow, Db, select_meta}
use pgfuse.Session.{ok, Env}
use pgfuse.Session.Runs.{
  Answers, Runs, Runs-pure, Runs-gets, Runs-bind, Runs-attempt, Runs-allocate,
}
use pgfuse.Psql.Meta.{PgMeta, s_isdir, to_meta, new_row}
use pgfuse.Psql.Path.{path_parts, s_ifdir}
use pgfuse.Psql.Path.Parts.{
  NoSlash, AllNames, path_of, path_parts-append, path_parts-path_of, one_name,
}
use pgfuse.Fuse.PathNames.{basename-path_of, path_parts-dirname}
use pgfuse.Psql.Path.Leads.{Leads}
use pgfuse.Fuse.Context.{dirname, basename}
use pgfuse.Fuse.Create.{new_meta, freed_twice, copy_again}

-- The path is a name behind the path of its directory.
pub record Splits (path : List ℕ) (names : List (List ℕ)) (name : List ℕ) : Type 0 where
  pub parts : path_parts path ≡ names ++ name ∷ []
  pub directory : path_parts (dirname path) ≡ names
  pub last : basename path ≡ name

-- The row of a new file.
abbrev pub file_of : Env → ℕ → ℕ → List ℕ → ℕ → DirRow → DirRow
file_of env id parent_id name mode parent =
    new_row env.order id parent_id name (record (to_meta env.order parent) {
      size = 0;
      mode = mode;
      uid = env.uid;
      gid = env.gid;
      ctime = env.now;
      mtime = env.now;
      atime = env.now;
    })

-- A directory that the names lead to, with its one row.
pub record IsPlace (d : Db) (names : List (List ℕ)) (i : ℕ) (parent : DirRow) : Type 0 where
  pub mode : ℕ
  pub leads : Leads d 0 s_ifdir names i mode
  pub is_dir : s_isdir mode ≡ true
  pub one : select_meta i d ≡ parent ∷ []
  pub parent_dir : s_isdir parent.mode ≡ true
  pub small : i < 2 ^ 31

pub Splits-path_of :
    (names : List (List ℕ)) (name : List ℕ)
    → AllNames names
    → name ≢ []
    → NoSlash name
    → Splits (path_of names ++ b'/' ∷ name) names name
Splits-path_of names name h full plain = record {
  parts =
      path_parts-append (path_of names) name
      ∙ (rw (path_parts-path_of names h, one_name name full plain) refl);
  directory = path_parts-dirname names name h full plain;
  last = basename-path_of names name full plain;
}

module _ (env : Env) (answers : Answers env) (d : Db) where
  pub copy_again-Runs : Runs env copy_again d (ok tt) d
  unfolding copy_again freed_twice
  copy_again-Runs = Runs-bind _ _ (Runs-attempt _ (Runs-allocate answers d)) (Runs-pure tt d)

  pub new_meta-Runs :
      (size mode : ℕ) (m : PgMeta)
      → Runs env
          (new_meta size mode m)
          d
          (ok (record m {
            size = size;
            mode = mode;
            uid = env.uid;
            gid = env.gid;
            ctime = env.now;
            mtime = env.now;
            atime = env.now;
          }))
          d
  unfolding new_meta
  new_meta-Runs size mode m =
      Runs-bind _ _ (Runs-gets _ d)
        (Runs-bind _ _ (Runs-gets _ d) (Runs-bind _ _ (Runs-gets _ d) (Runs-pure _ d)))
