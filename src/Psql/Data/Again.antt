-- ===== src/Psql/Data/Again.antt =====
-- psql_write_block, pgsql.c, lines 582-668: the jump to update_again is taken once at most.
use pgfuse.Base.{
  ℕ, suc, ◌≡◌, refl, true, Option, none, some, List, arith, ◌==◌, countb, replicate, Bool-cases,
  inl, inr,
}
use pgfuse.Db.{Db, is_block, update_block, insert_block}
use pgfuse.Session.{ok, Env, Session, execute}
use pgfuse.Session.Steps.{bind_same, execute-ok}
use pgfuse.Store.{countb-append}
use pgfuse.Psql.Data.{update_again}

-- A block that has been added is there.
added_block :
    (i b n : ℕ) (d d' : Db) → insert_block i b n d ≡ some d' → countb (is_block i b) d'.blocks ≡ 1
unfolding insert_block
added_block i b n d d' h = ground (
  arith,
  h,
  countb-append (record { dir_id = i; block_no = b; bytes = replicate n 0 }) i b d.blocks,
)

abbrev with_unit : Option Db → Option (Unit {0} × Db)
with_unit o = elim o [ none ↦ none | some d' ↦ some (tt, d') ]

one_result : (o : Option Db) (d : Db) → with_unit o ≡ some (tt, d) → o ≡ some d
one_result none d h = cc
one_result (some d') d h = ground (arith, h)

module _ (block_size i b len : ℕ) (text : List ℕ → List ℕ) (env : Env) where
  abbrev update : Db → Option (ℕ × Db)
  update d = some (update_block i b text d)

  abbrev insert : Db → Option (Unit {0} × Db)
  insert d = elim (insert_block i b block_size d) [ none ↦ none | some d' ↦ some (tt, d') ]

  inserted_row :
      (s : Session)
      → (execute insert env s).0 ≡ ok tt
      → countb (is_block i b) (execute insert env s).1.work.blocks ≡ 1
  inserted_row s e =
      added_block i b block_size s.work _
        (one_result (insert_block i b block_size s.work) _ (execute-ok insert env s tt e))

  one_updated :
      (s : Session) (tuples : ℕ)
      → countb (is_block i b) s.work.blocks ≡ 1
      → (execute update env s).0 ≡ ok tuples
      → (tuples == 1) ≡ true
  unfolding update_block
  one_updated s tuples one e = ground (arith, one, execute-ok update env s tuples e)

  last_round :
      (n m : ℕ) (s : Session)
      → countb (is_block i b) s.work.blocks ≡ 1
      → update_again (suc n) block_size i b len text env s
        ≡ update_again (suc m) block_size i b len text env s
  unfolding update_again
  last_round n m s one =
      bind_same (execute update) _ _ env s λ tuples e. simp (one_updated s tuples one e) refl

  -- Whatever fails and whatever the tables hold, psql_write_block takes the jump to update_again once
  -- at most: with any larger number of rounds it returns the same and leaves the same session as
  -- with two.
  pub update_again_ends :
      (n : ℕ) (s : Session)
      → update_again (suc (suc n)) block_size i b len text env s
        ≡ update_again 2 block_size i b len text env s
  unfolding update_again
  update_again_ends n s = bind_same (execute update) _ _ env s λ tuples e.
      elim (Bool-cases (tuples == 1)) [
        | inl f ↦ simp f refl
        | inr f ↦ elim (Bool-cases (tuples == 0)) [
          | inl g ↦
              simp (f, g)
                (bind_same (execute insert) _ _ env _ λ u e'. last_round n 0 _ (inserted_row _ e'))
          | inr g ↦ simp (f, g) refl
        ]
      ]
