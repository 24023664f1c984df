-- ===== src/Session/Fails.antt =====
-- Actions that end in an error although nothing outside of the program fails.
use pgfuse.Base.{ℕ, ◌≡◌, refl, Option, none}
use pgfuse.Db.{Db}
use pgfuse.Session.{ok, err, Env, active, Session, M, raise, ◌>>=◌, execute, nextval, eio}
use pgfuse.Session.Runs.{Answers, Runs}

-- In a transaction that sees `d`, the action returns -n, whatever it leaves of the transaction.
pub record Fails (env : Env) {A : Type 0} (m : M A) (d : Db) (n : ℕ) : Type 0 where
  pub at : (s : Session) → s.tx ≡ active → s.work ≡ d → (m env s).0 ≡ err n

module _ {env : Env} where
  pub Fails-raise : {A : Type 0} (n : ℕ) (d : Db) → Fails env (raise {A = A} n) d n
  unfolding raise
  Fails-raise n d = record { at = λ s t w. refl }

  pub Fails-Runs :
      {A : Type 0} (m : M A) {d d' : Db} {n : ℕ} → Runs env m d (err n) d' → Fails env m d n
  Fails-Runs m runs = record { at = λ s t w. (runs.at s t w).0 }

  module _ {A B : Type 0} (m : M A) (f : A → M B) {d : Db} {n : ℕ} where
    pub Fails-first : Fails env m d n → Fails env (m >>= f) d n
    unfolding ◌>>=◌
    Fails-first h = record { at = λ s t w. rw (h.at s t w) refl }

    pub Fails-bind :
        {d' : Db} {a : A} → Runs env m d (ok a) d' → Fails env (f a) d' n → Fails env (m >>= f) d n
    unfolding ◌>>=◌
    Fails-bind runs h = record {
      at = λ s t w. let (e, w', t') = runs.at s t w in rw e (h.at (m env s).1 t' w');
    }

  -- A number of the sequence, whichever it is.
  pub Fails-nextval :
      {B : Type 0} (f : ℕ → M B) {d : Db} {n : ℕ}
      → ((k : ℕ) → Fails env (f k) d n)
      → Fails env (nextval >>= f) d n
  unfolding nextval ◌>>=◌
  Fails-nextval f h = record { at = λ s t w. (h s.serial).at _ t w }

-- A statement that a key or a reference of the schema refuses.
pub Fails-execute :
    {env : Env} (answers : Answers env) {A : Type 0} (stmt : Db → Option (A × Db)) (d : Db)
    → stmt d ≡ none
    → Fails env (execute stmt) d eio
unfolding execute
Fails-execute answers stmt d e = record { at = λ s t w. rw (answers s.calls, t, w, e) refl }
