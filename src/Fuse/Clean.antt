-- ===== src/Fuse/Clean.antt =====
-- The frame of a hook, acquire to release, over a body that writes nothing.
use pgfuse.Base.{arith}
use pgfuse.Db.{Db}
use pgfuse.Session.{Ret, ok, err, fault, M, give_back}
use pgfuse.Session.Keeps.{Keeps, Keeps-bind, keeps_rules, IsClean}
use pgfuse.Psql.Tx.{psql_begin, psql_commit, psql_rollback}
use pgfuse.Fuse.Oper.{discard}
use pgfuse.Fuse.Context.{
  PgFuseData, acquire, release, Ending, commit, rollback, leave, closing, transact,
}

module _ {base : Db} where
  pub begin-IsClean : Keeps (IsClean base) psql_begin
  unfolding psql_begin
  begin-IsClean = record { at = λ env s h. ground arith }

  pub commit-IsClean : Keeps (IsClean base) psql_commit
  unfolding psql_commit
  commit-IsClean = record { at = λ env s h. ground arith }

  pub rollback-IsClean : Keeps (IsClean base) psql_rollback
  unfolding psql_rollback
  rollback-IsClean = record { at = λ env s h. ground arith }

  pub acquire-IsClean : (d : PgFuseData) → Keeps (IsClean base) (acquire d)
  unfolding acquire
  acquire-IsClean d = record { at = λ env s h. ground arith }

  pub release-IsClean : (d : PgFuseData) → Keeps (IsClean base) (release d)
  unfolding release
  release-IsClean d = record { at = λ env s h. ground arith }

  module _ {A : Type 0} (d : PgFuseData) where
    pub leave-IsClean : (r : Ret (Ending A)) → Keeps (IsClean base) (leave d r)
    unfolding leave
    leave-IsClean (ok (commit a)) = search (keeps_rules, commit-IsClean, release-IsClean)
    leave-IsClean (ok (rollback a)) = search (keeps_rules, rollback-IsClean, release-IsClean)
    leave-IsClean (err n) = search (keeps_rules, rollback-IsClean, release-IsClean)
    leave-IsClean fault = search keeps_rules

    pub closing-IsClean :
        (body : M (Ending A)) → Keeps (IsClean base) body → Keeps (IsClean base) (closing d body)
    unfolding closing
    closing-IsClean body keeps = record {
      at = λ env s h. let (r, s') = body env s in (leave-IsClean r).at env s' (keeps.at env s h);
    }

    pub transact-IsClean :
        (body : M (Ending A)) → Keeps (IsClean base) body → Keeps (IsClean base) (transact d body)
    unfolding transact
    transact-IsClean body keeps =
        Keeps-bind _ _ (acquire-IsClean d)
          λ _. Keeps-bind _ _ begin-IsClean λ _. closing-IsClean body keeps

  pub give_back-IsClean : {A : Type 0} (r : Ret A) → Keeps (IsClean base) (give_back r)
  unfolding give_back
  give_back-IsClean r = record { at = λ env s h. h }

  pub discard-IsClean :
      {A : Type 0} (m : M A) → Keeps (IsClean base) m → Keeps (IsClean base) (discard m)
  unfolding discard
  discard-IsClean m keeps = search (keeps_rules, keeps)
