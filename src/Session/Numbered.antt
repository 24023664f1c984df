-- ===== src/Session/Numbered.antt =====
-- Runs in which nothing fails, with the sequence of `dir.id` beside them.
use pgfuse.Base.{ℕ, ◌+◌, ◌≡◌, refl, Option, arith}
use pgfuse.Db.{Db}
use pgfuse.Session.{
  Ret, ok, err, fault, undefined, Env, active, Session, M, raise, ◌>>=◌, nextval, attempt, allocate,
  select, execute,
}
use pgfuse.Session.Keeps.{Keeps, ReadsKeep}
use pgfuse.Session.Runs.{Runs}

-- As `Runs`, where the sequence goes from `k` to `k'`.
pub record Numbers (env : Env) {A : Type 0} (m : M A) (d : Db) (k : ℕ) (r : Ret A) (d' : Db)
    (k' : ℕ) : Type 0 where
  pub at :
      (s : Session)
      → s.tx ≡ active
      → s.work ≡ d
      → s.serial ≡ k
      → ((m env s).0 ≡ r)
        × ((m env s).1.work ≡ d')
        × ((m env s).1.tx ≡ active)
        × ((m env s).1.serial ≡ k')

-- The session of which the sequence stands at `k`.
abbrev pub AtNumber : ℕ → Session → Type 0
AtNumber k s = s.serial ≡ k

module _ {env : Env} where
  -- An action that takes no number.
  pub Runs-Numbers :
      {A : Type 0} (m : M A) {d d' : Db} {r : Ret A} (k : ℕ)
      → Runs env m d r d'
      → Keeps (AtNumber k) m
      → Numbers env m d k r d' k
  Runs-Numbers m k runs keeps = record {
    at = λ s t w n. let (e, w', t') = runs.at s t w in (e, w', t', keeps.at env s n);
  }

  pub Numbers-nextval : (d : Db) (k : ℕ) → Numbers env nextval d k (ok k) d (k + 1)
  unfolding nextval
  Numbers-nextval d k = record { at = λ s t w n. rw n (refl, w, t, refl) }

  pub Numbers-bind :
      {A B : Type 0} (m : M A) (f : A → M B) {d d' d'' : Db} {k k' k'' : ℕ} {a : A} {r : Ret B}
      → Numbers env m d k (ok a) d' k'
      → Numbers env (f a) d' k' r d'' k''
      → Numbers env (m >>= f) d k r d'' k''
  unfolding ◌>>=◌
  Numbers-bind m f hm hf = record {
    at = λ s t w n. let (e, w', t', n') = hm.at s t w n in rw e (hf.at (m env s).1 t' w' n');
  }

  -- Runs that end in an error.
  pub Runs-raise : {A : Type 0} (n : ℕ) (d : Db) → Runs env (raise {A = A} n) d (err n) d
  unfolding raise
  Runs-raise n d = record { at = λ s t w. (refl, w, t) }

  pub Runs-bind-err :
      {A B : Type 0} (m : M A) (f : A → M B) {d d' : Db} {n : ℕ}
      → Runs env m d (err n) d'
      → Runs env (m >>= f) d (err n) d'
  unfolding ◌>>=◌
  Runs-bind-err m f h = record { at = λ s t w. let (e, w', t') = h.at s t w in rw e (refl, w', t') }

  pub Runs-undefined : {A : Type 0} (d : Db) → Runs env (undefined {A = A}) d fault d
  unfolding undefined
  Runs-undefined d = record { at = λ s t w. (refl, w, t) }

  pub Runs-bind-fault :
      {A B : Type 0} (m : M A) (f : A → M B) {d d' : Db}
      → Runs env m d fault d'
      → Runs env (m >>= f) d fault d'
  unfolding ◌>>=◌
  Runs-bind-fault m f h = record {
    at = λ s t w. let (e, w', t') = h.at s t w in rw e (refl, w', t');
  }

  pub Runs-attempt-err :
      {A : Type 0} (m : M A) {d d' : Db} {n : ℕ}
      → Runs env m d (err n) d'
      → Runs env (attempt m) d (ok (err n)) d'
  unfolding attempt
  Runs-attempt-err m h = record {
    at = λ s t w. let (e, w', t') = h.at s t w in rw e (refl, w', t');
  }

module _ {k : ℕ} where
  allocate-AtNumber : Keeps (AtNumber k) allocate
  unfolding allocate
  allocate-AtNumber = record { at = λ env s h. ground arith }

  select-AtNumber : {A : Type 0} (f : Db → A) → Keeps (AtNumber k) (select f)
  unfolding select
  select-AtNumber f = record { at = λ env s h. ground arith }

  pub execute-AtNumber :
      {A : Type 0} (stmt : Db → Option (A × Db)) → Keeps (AtNumber k) (execute stmt)
  unfolding execute
  execute-AtNumber stmt = record { at = λ env s h. ground arith }

pub AtNumber-ReadsKeep : (k : ℕ) → ReadsKeep (AtNumber k)
AtNumber-ReadsKeep k = record { allocates = allocate-AtNumber; selects = select-AtNumber }
