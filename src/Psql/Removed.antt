-- ===== src/Psql/Removed.antt =====
-- psql_delete_file: the row goes, and the rule of the schema takes its blocks along.
use pgfuse.Base.{
  ℕ, ◌/◌, ◌%◌, ◌≡◌, refl, ap, Bool, true, not, none, some, List, [], ◌∷◌, arith, ◌==◌,
  if◌then◌else◌, filterb, countb, Bool-cases, inl, inr, ==-eq,
}
use pgfuse.Db.{DirRow, DataRow, Db, has_id, has_parent, is_collected, select_meta, delete_dir}
use pgfuse.Session.{ok, Env}
use pgfuse.Session.Runs.{Answers, Runs, Runs-execute}
use pgfuse.Store.{find_block}
use pgfuse.Psql.Meta.{psql_delete_file}

filterb-head :
    {A : Type 0} (p : A → Bool) (x : A) (ys xs : List A) → filterb p xs ≡ x ∷ ys → p x ≡ true
filterb-head p x ys [] h = cc
filterb-head p x ys (z ∷ xs) h = elim (Bool-cases (p z)) [
  | inl e ↦
      let whole : z ∷ filterb p xs ≡ x ∷ ys = rw e at h in let same : z ≡ x = cc in rw same at e
  | inr e ↦ filterb-head p x ys xs (rw e at h)
]

-- The blocks of other entries.
abbrev others : ℕ → List DataRow → List DataRow
others i rs = filterb (λ b. not (i == b.dir_id)) rs

find-others :
    (i j c : ℕ) (rs : List DataRow)
    → find_block j c (others i rs) ≡ (if i == j then none else find_block j c rs)
find-others i j c [] = ground arith
find-others i j c (r ∷ rs) = ground (arith, find-others i j c rs)

none-others : (i : ℕ) (rs : List DataRow) → countb (λ b. b.dir_id == i) (others i rs) ≡ 0
none-others i [] = refl
none-others i (r ∷ rs) = ground (arith, none-others i rs)

collected :
    (i : ℕ) (r : DirRow) (b : DataRow)
    → r.id ≡ i
    → r.mode / 16384 % 2 ≡ 0
    → is_collected (r ∷ []) b ≡ (i == b.dir_id)
collected i r b e m = ground (arith, e, m)

filterb-same :
    {A : Type 0} (p q : A → Bool) (xs : List A)
    → ((x : A) → p x ≡ q x)
    → filterb p xs ≡ filterb q xs
filterb-same p q [] h = refl
filterb-same p q (x ∷ xs) h = ground (arith, h x, filterb-same p q xs h)

module _ (i : ℕ) (r : DirRow) (d : Db) (one : select_meta i d ≡ r ∷ [])
    (plain : r.mode / 16384 % 2 ≡ 0) where
  abbrev left : List DirRow
  left = filterb (λ x. not (has_id i x)) d.dir

  id_same : r.id ≡ i
  unfolding select_meta
  id_same = ==-eq r.id i (filterb-head (has_id i) r [] d.dir one)

  kept_blocks : filterb (λ b. not (is_collected (r ∷ []) b)) d.blocks ≡ others i d.blocks
  kept_blocks = filterb-same _ _ d.blocks λ b. ap not (collected i r b id_same plain)

  delete_dir-some :
      countb (has_parent i) left ≡ 0
      → delete_dir i d ≡ some (record d { dir = left; blocks = others i d.blocks })
  unfolding delete_dir select_meta
  delete_dir-some childless = simp (one, kept_blocks, childless, none-others i d.blocks) refl

-- Inside a transaction, while no statement fails, deleting an entry that is not a directory and that
-- no row has for its parent succeeds; then the id has no row and no block, and the blocks of all
-- other entries are as they were.
pub psql_delete_file-removes :
    (env : Env) (answers : Answers env) (i : ℕ) (r : DirRow) (d : Db)
    → select_meta i d ≡ r ∷ []
    → r.mode / 16384 % 2 ≡ 0
    → countb (has_parent i) (filterb (λ x. not (has_id i x)) d.dir) ≡ 0
    → (t : Db) × Runs env (psql_delete_file i) d (ok tt) t
      × (select_meta i t ≡ [])
      × ((j c : ℕ) → find_block j c t.blocks ≡ (if i == j then none else find_block j c d.blocks))
unfolding psql_delete_file select_meta
psql_delete_file-removes env answers i r d one plain childless = (
  record d { dir = left i r d one plain; blocks = others i d.blocks },
  Runs-execute answers _ d (rw (delete_dir-some i r d one plain childless) refl),
  filterb-none i d.dir,
  λ j c. find-others i j c d.blocks,
)
  where
    filterb-none :
        (i : ℕ) (xs : List DirRow) → filterb (has_id i) (filterb (λ x. not (has_id i x)) xs) ≡ []
    filterb-none i [] = refl
    filterb-none i (x ∷ xs) = ground (arith, filterb-none i xs)
