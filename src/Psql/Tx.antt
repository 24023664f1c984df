-- ===== src/Psql/Tx.antt =====
-- pgsql.c, lines 801-847: transactions.
use pgfuse.Base.{if◌then◌else◌}
use pgfuse.Session.{Ret, ok, err, idle, active, aborted, Session, M, eio, refuse, called}

-- BEGIN inside a transaction is a warning, and an error once the transaction is aborted.
abbrev begin_tx : Session → Ret (Unit {0}) × Session
begin_tx s = elim s.tx [
  | idle ↦ (ok tt, record s { tx = active })
  | active ↦ (ok tt, s)
  | aborted ↦ (err eio, s)
]

-- COMMIT of an aborted transaction rolls it back, with the status of a success.
abbrev commit_tx : Session → Ret (Unit {0}) × Session
commit_tx s = elim s.tx [
  | idle ↦ (ok tt, s)
  | active ↦ (ok tt, record s { base = s.work; tx = idle })
  | aborted ↦ (ok tt, record s { work = s.base; tx = idle })
]

abbrev rolled_back : Session → Session
rolled_back s = record s { work = s.base; tx = idle }

unfoldable pub psql_begin : M (Unit {0})
psql_begin env s =
    if env.fails s.calls
    then (err eio, record (called s) { tx = refuse s.tx })
    else begin_tx (called s)

-- A COMMIT that the server reports as failed has rolled the transaction back.
unfoldable pub psql_commit : M (Unit {0})
psql_commit env s =
    if env.fails s.calls then (err eio, rolled_back (called s)) else commit_tx (called s)

unfoldable pub psql_rollback : M (Unit {0})
psql_rollback env s =
    if env.fails s.calls
    then (err eio, record (called s) { tx = refuse s.tx })
    else (ok tt, rolled_back (called s))
