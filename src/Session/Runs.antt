-- ===== src/Session/Runs.antt =====
-- Runs in which nothing outside of the program fails: what an action returns and what it makes of
-- the tables, inside a transaction.
use pgfuse.Base.{ℕ, ◌≡◌, refl, false, Option, some}
use pgfuse.Db.{Db}
use pgfuse.Session.{
  Ret, ok, Env, active, Session, M, pure, gets, ◌>>=◌, allocate, execute, select, attempt,
}

-- The server answers, and memory is given.
abbrev pub Answers : Env → Type 0
Answers env = (n : ℕ) → env.fails n ≡ false

-- In a transaction that sees `d`, the action returns `r` and then sees `d'`, and the transaction
-- goes on.
pub record Runs (env : Env) {A : Type 0} (m : M A) (d : Db) (r : Ret A) (d' : Db) : Type 0 where
  pub at :
      (s : Session)
      → s.tx ≡ active
      → s.work ≡ d
      → ((m env s).0 ≡ r) × ((m env s).1.work ≡ d') × ((m env s).1.tx ≡ active)

module _ {env : Env} {A : Type 0} where
  pub Runs-pure : (a : A) (d : Db) → Runs env (pure a) d (ok a) d
  unfolding pure
  Runs-pure a d = record { at = λ s t w. (refl, w, t) }

  pub Runs-gets : (f : Env → A) (d : Db) → Runs env (gets f) d (ok (f env)) d
  unfolding gets
  Runs-gets f d = record { at = λ s t w. (refl, w, t) }

  -- What a call returns, where the caller looks at it itself.
  pub Runs-attempt :
      (m : M A) {d d' : Db} {a : A} → Runs env m d (ok a) d' → Runs env (attempt m) d (ok (ok a)) d'
  unfolding attempt
  Runs-attempt m h = record { at = λ s t w. let (e, w', t') = h.at s t w in rw e (refl, w', t') }

module _ {env : Env} {A B : Type 0} where
  pub Runs-bind :
      (m : M A) (f : A → M B) {d d' d'' : Db} {a : A} {r : Ret B}
      → Runs env m d (ok a) d'
      → Runs env (f a) d' r d''
      → Runs env (m >>= f) d r d''
  unfolding ◌>>=◌
  Runs-bind m f hm hf = record {
    at = λ s t w. let (e, w', t') = hm.at s t w in rw e (hf.at (m env s).1 t' w');
  }

module _ {env : Env} (answers : Answers env) where
  pub Runs-allocate : (d : Db) → Runs env allocate d (ok tt) d
  unfolding allocate
  Runs-allocate d = record { at = λ s t w. rw (answers s.calls) (refl, w, t) }

  pub Runs-execute :
      {A : Type 0} (stmt : Db → Option (A × Db)) (d : Db) {a : A} {d' : Db}
      → stmt d ≡ some (a, d')
      → Runs env (execute stmt) d (ok a) d'
  unfolding execute
  Runs-execute stmt d e = record { at = λ s t w. rw (answers s.calls, t, w, e) (refl, refl, refl) }

  pub Runs-select : {A : Type 0} (f : Db → A) (d : Db) → Runs env (select f) d (ok (f d)) d
  unfolding select
  Runs-select f d = Runs-execute _ d refl
