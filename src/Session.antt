-- ===== src/Session.antt =====
-- One call of the file system: a connection in its transaction state, what fails outside of the
-- program, and C return codes. Every function of pgsql.c and pgfuse.c is an action of `M`.
use pgfuse.Base.{ℕ, ◌+◌, ◌-◌, Bool, true, false, Option, none, some, List, ◌==◌, if◌then◌else◌}
use pgfuse.Wire.{ByteOrder, Timespec}
use pgfuse.Db.{Db}
pub mod Keeps
pub mod Runs
pub mod Always
pub mod Steps
pub mod Numbered
pub mod Fails

-- A return value that is not negative, a negative one (`err n` is -n), or undefined behaviour.
pub data Ret {ℓ} (A : Type ℓ) : Type ℓ where
  ok : A → Ret A
  err : ℕ → Ret A
  fault : Ret A

-- errno.h
abbrev pub eperm : ℕ
eperm = 1

abbrev pub enoent : ℕ
enoent = 2

abbrev pub eio : ℕ
eio = 5

abbrev pub ebadf : ℕ
ebadf = 9

abbrev pub enomem : ℕ
enomem = 12

abbrev pub eexist : ℕ
eexist = 17

abbrev pub enotdir : ℕ
enotdir = 20

abbrev pub eisdir : ℕ
eisdir = 21

abbrev pub einval : ℕ
einval = 22

abbrev pub erofs : ℕ
erofs = 30

abbrev pub enotempty : ℕ
enotempty = 39

-- What the program meets and does not decide. `fails n` says whether the n-th call out of the
-- program fails: a statement that the server does not answer, or memory that is not given.
-- `pool_fails n` says whether the pool answers the n-th call with NULL or an error.
pub record Env : Type 0 where
  pub fails : ℕ → Bool
  pub pool_fails : ℕ → Bool
  pub order : ByteOrder
  pub now : Timespec
  pub uid : ℕ
  pub gid : ℕ

-- The state of a PostgreSQL session between BEGIN and COMMIT or ROLLBACK.
pub data Tx : Type 0 where
  idle active aborted : Tx

-- `base` is what is committed, `work` what the session sees; `serial` is the sequence of `dir.id`,
-- `calls` counts the calls out of the program, `leases` the connections that are acquired.
pub record Session : Type 0 where
  pub base : Db
  pub work : Db
  pub tx : Tx
  pub serial : ℕ
  pub calls : ℕ
  pub leases : ℕ

abbrev pub M : Type 0 → Type 0
M A = Env → Session → Ret A × Session

module _ {A : Type 0} where
  unfoldable pub pure : A → M A
  pure a env s = (ok a, s)

  unfoldable pub raise : ℕ → M A
  raise n env s = (err n, s)

  unfoldable pub undefined : M A
  undefined env s = (fault, s)

  unfoldable pub gets : (Env → A) → M A
  gets f env s = (ok (f env), s)

module _ {A B : Type 0} where
  abbrev continue : Ret A → (A → M B) → M B
  continue (ok a) f env s = f a env s
  continue (err n) f env s = (err n, s)
  continue fault f env s = (fault, s)

  infixl 10 ◌>>=◌ ◌>>◌
  unfoldable pub ◌>>=◌ : M A → (A → M B) → M B
  unfolding pure raise undefined gets
  ◌>>=◌ m f env s = let (r, s') = m env s in continue r f env s'

  abbrev pub ◌>>◌ : M A → M B → M B
  m >> n = m >>= λ _. n

-- What a refused call leaves of the transaction.
abbrev pub refuse : Tx → Tx
refuse idle = idle
refuse active = aborted
refuse aborted = aborted

-- One call out of the program: whether it fails.
abbrev pub called : Session → Session
called s = record s { calls = s.calls + 1 }

-- malloc, calloc and strdup: ENOMEM is the caller's answer to NULL.
unfoldable pub allocate : M (Unit {0})
allocate env s = (if env.fails s.calls then err enomem else ok tt, called s)

module _ {A : Type 0} where
  -- A statement in a transaction changes `work`, one outside is committed at once.
  abbrev done : Tx → Option (A × Db) → Session → Ret A × Session
  done idle none s = (err eio, s)
  done idle (some (a, d)) s = (ok a, record s { base = d; work = d })
  done active none s = (err eio, record s { tx = aborted })
  done active (some (a, d)) s = (ok a, record s { work = d })
  done aborted r s = (err eio, s)

  -- PQexecParams with the test of PQresultStatus, and the `return -EIO` of a status that is not
  -- the expected one.
  unfoldable pub execute : (Db → Option (A × Db)) → M A
  execute stmt env s =
      if env.fails s.calls
      then (err eio, record (called s) { tx = refuse s.tx })
      else done s.tx (stmt s.work) (called s)

  -- A SELECT.
  unfoldable pub select : (Db → A) → M A
  unfolding execute
  select f = execute (λ d. some (f d, d))

-- The default of `dir.id`: a sequence, which no rollback takes back.
unfoldable pub nextval : M ℕ
nextval env s = (ok s.serial, record s { serial = s.serial + 1 })

-- A call whose return value the caller looks at itself.
module _ {A : Type 0} where
  abbrev seen : Ret A → Session → Ret (Ret A) × Session
  seen (ok a) s = (ok (ok a), s)
  seen (err n) s = (ok (err n), s)
  seen fault s = (fault, s)

  unfoldable pub attempt : M A → M (Ret A)
  attempt m env s = let (r, s') = m env s in seen r s'

  -- A return value that is handed on.
  unfoldable pub give_back : Ret A → M A
  give_back r env s = (r, s)
