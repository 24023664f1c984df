-- ===== src/Session/Keeps.antt =====
-- Invariants of actions: one rule for each way to build an action.
use pgfuse.Base.{ℕ, ◌≡◌, Bool, true, false, Option, if◌then◌else◌, ◌≢◌, arith}
use pgfuse.Db.{Db}
use pgfuse.Session.{
  Ret, ok, err, fault, Env, idle, Session, M, pure, raise, undefined, gets, ◌>>=◌, allocate,
  execute, select, nextval, attempt,
}

-- `m` keeps `P`, however it ends.
pub record Keeps {A : Type 0} (P : Session → Type 0) (m : M A) : Type 0 where
  pub at : (env : Env) (s : Session) → P s → P (m env s).1

module _ {A : Type 0} {P : Session → Type 0} where
  pub Keeps-pure : (a : A) → Keeps P (pure a)
  unfolding pure
  Keeps-pure a = record { at = λ env s h. h }

  pub Keeps-raise : (n : ℕ) → Keeps P (raise {A = A} n)
  unfolding raise
  Keeps-raise n = record { at = λ env s h. h }

  pub Keeps-undefined : Keeps P (undefined {A = A})
  unfolding undefined
  Keeps-undefined = record { at = λ env s h. h }

  pub Keeps-gets : (f : Env → A) → Keeps P (gets f)
  unfolding gets
  Keeps-gets f = record { at = λ env s h. h }

  pub Keeps-if : (b : Bool) (m n : M A) → Keeps P m → Keeps P n → Keeps P (if b then m else n)
  Keeps-if true m n km kn = km
  Keeps-if false m n km kn = kn

module _ {A B : Type 0} {P : Session → Type 0} where
  Keeps-continue :
      (r : Ret A) (f : A → M B) (env : Env) (s : Session)
      → ((a : A) → Keeps P (f a))
      → P s
      → P (◌>>=◌ (λ _ _. (r, s)) f env s).1
  unfolding ◌>>=◌
  Keeps-continue (ok a) f env s kf h = (kf a).at env s h
  Keeps-continue (err n) f env s kf h = h
  Keeps-continue fault f env s kf h = h

  pub Keeps-bind :
      (m : M A) (f : A → M B) → Keeps P m → ((a : A) → Keeps P (f a)) → Keeps P (m >>= f)
  unfolding ◌>>=◌
  Keeps-bind m f km kf = record {
    at = λ env s h. let (r, s') = m env s in Keeps-continue r f env s' kf (km.at env s h);
  }

module _ {A : Type 0} (P : Session → Type 0) where
  seen_lem : (r : Ret A) (env : Env) (s : Session) → P s → P (attempt (λ _ _. (r, s)) env s).1
  unfolding attempt
  seen_lem (ok a) env s h = h
  seen_lem (err n) env s h = h
  seen_lem fault env s h = h

module _ {A : Type 0} {P : Session → Type 0} where
  pub Keeps-attempt : (m : M A) → Keeps P m → Keeps P (attempt m)
  unfolding attempt
  Keeps-attempt m km = record {
    at = λ env s h. let (r, s') = m env s in seen_lem P r env s' (km.at env s h);
  }

pub ruleset keeps_rules =
    (Keeps-pure, Keeps-raise, Keeps-undefined, Keeps-gets, Keeps-if, Keeps-bind, Keeps-attempt)

-- A property of sessions that no call which only reads can break.
pub record ReadsKeep (P : Session → Type 0) : Type 1 where
  pub allocates : Keeps P allocate
  pub selects : {A : Type 0} (f : Db → A) → Keeps P (select f)

-- A property of sessions that no statement inside a hook can break.
pub record WritesKeep (P : Session → Type 0) : Type 1 where
  pub reads : ReadsKeep P
  pub numbers : Keeps P nextval
  pub executes : {A : Type 0} (stmt : Db → Option (A × Db)) → Keeps P (execute stmt)

-- A transaction is open, and nothing has been committed or acquired since `base` and `leases`.
pub record Uncommitted (base : Db) (leases : ℕ) (s : Session) : Type 0 where
  pub open_tx : s.tx ≢ idle
  pub same_base : s.base ≡ base
  pub same_leases : s.leases ≡ leases

-- The tables are those of `base`, for this session and for all others.
pub record IsClean (base : Db) (s : Session) : Type 0 where
  pub same_base : s.base ≡ base
  pub same_work : s.work ≡ base

module _ {base : Db} {leases : ℕ} where
  allocate-Uncommitted : Keeps (Uncommitted base leases) allocate
  unfolding allocate
  allocate-Uncommitted = record { at = λ env s h. ground arith }

  nextval-Uncommitted : Keeps (Uncommitted base leases) nextval
  unfolding nextval
  nextval-Uncommitted = record { at = λ env s h. ground arith }

  execute-Uncommitted :
      {A : Type 0} (stmt : Db → Option (A × Db)) → Keeps (Uncommitted base leases) (execute stmt)
  unfolding execute
  execute-Uncommitted stmt = record { at = λ env s h. ground arith }

  select-Uncommitted : {A : Type 0} (f : Db → A) → Keeps (Uncommitted base leases) (select f)
  unfolding select
  select-Uncommitted f = record { at = λ env s h. ground arith }

pub Uncommitted-WritesKeep : (base : Db) (leases : ℕ) → WritesKeep (Uncommitted base leases)
Uncommitted-WritesKeep base leases = record {
  reads = record { allocates = allocate-Uncommitted; selects = select-Uncommitted };
  numbers = nextval-Uncommitted;
  executes = execute-Uncommitted;
}

module _ {base : Db} where
  allocate-IsClean : Keeps (IsClean base) allocate
  unfolding allocate
  allocate-IsClean = record { at = λ env s h. ground arith }

  select-IsClean : {A : Type 0} (f : Db → A) → Keeps (IsClean base) (select f)
  unfolding select
  select-IsClean f = record { at = λ env s h. ground arith }

pub IsClean-ReadsKeep : (base : Db) → ReadsKeep (IsClean base)
IsClean-ReadsKeep base = record { allocates = allocate-IsClean; selects = select-IsClean }
