-- ===== src/Session/Always.antt =====
-- What every result of an action that is not an error has, whatever fails.
use pgfuse.Base.{ℕ, ◌≡◌, refl, Bool, true, false, arith, if◌then◌else◌}
use pgfuse.Session.{Ret, ok, err, fault, Env, Session, M, pure, raise, ◌>>=◌, select, execute}

abbrev pub Returns : {A : Type 0} → (A → Type 0) → Ret A → Type 0
Returns Q (ok a) = Q a
Returns Q (err n) = Unit {0}
Returns Q fault = Unit {0}

-- Whatever the environment and the session are.
pub record Always {A : Type 0} (Q : A → Type 0) (m : M A) : Type 0 where
  pub at : (env : Env) (s : Session) → Returns Q (m env s).0

module _ {A : Type 0} {Q : A → Type 0} where
  pub Always-pure : (a : A) → Q a → Always Q (pure a)
  unfolding pure
  Always-pure a h = record { at = λ env s. h }

  -- A test that raises an error.
  pub Always-guard :
      (b : Bool) (n : ℕ) (m : M A) → (b ≡ false → Always Q m) → Always Q (if b then raise n else m)
  unfolding raise
  Always-guard true n m h = record { at = λ env s. tt }
  Always-guard false n m h = h refl

module _ {A : Type 0} where
  any_result : (r : Ret A) → Returns (λ _. Unit {0}) r
  any_result (ok a) = tt
  any_result (err n) = tt
  any_result fault = tt

  pub Always-any : (m : M A) → Always (λ _. Unit {0}) m
  Always-any m = record { at = λ env s. any_result (m env s).0 }

  -- A question whose answer is not in the two tables.
  pub Always-select : (a : A) → Always (λ b. a ≡ b) (select (λ _. a))
  unfolding select execute
  Always-select a = record { at = λ env s. ground arith }

module _ {A B : Type 0} {P : A → Type 0} {Q : B → Type 0} where
  Returns-continue :
      (r : Ret A) (f : A → M B) (env : Env) (s : Session)
      → Returns P r
      → ((a : A) → P a → Always Q (f a))
      → Returns Q (◌>>=◌ (λ _ _. (r, s)) f env s).0
  unfolding ◌>>=◌
  Returns-continue (ok a) f env s h k = (k a h).at env s
  Returns-continue (err n) f env s h k = tt
  Returns-continue fault f env s h k = tt

  pub Always-bind :
      (m : M A) (f : A → M B) → Always P m → ((a : A) → P a → Always Q (f a)) → Always Q (m >>= f)
  unfolding ◌>>=◌
  Always-bind m f h k = record {
    at = λ env s. let (r, s') = m env s in Returns-continue r f env s' (h.at env s) k;
  }

module _ {A : Type 0} {P Q : A → Type 0} where
  Returns-weaken : (r : Ret A) → ((a : A) → P a → Q a) → Returns P r → Returns Q r
  Returns-weaken (ok a) f h = f a h
  Returns-weaken (err n) f h = tt
  Returns-weaken fault f h = tt

  pub Always-weaken : (m : M A) → ((a : A) → P a → Q a) → Always P m → Always Q m
  Always-weaken m f h = record { at = λ env s. Returns-weaken (m env s).0 f (h.at env s) }

-- A result that is known.
pub Returns_ok : {A : Type 0} (P : A → Type 0) (r : Ret A) (a : A) → r ≡ ok a → Returns P r → P a
Returns_ok P r a e h = rw e at h
