-- ===== src/Session/Steps.antt =====
-- What an action does next depends only on what the one before has done, if that is known.
use pgfuse.Base.{◌≡◌, refl, Option, some, arith}
use pgfuse.Db.{Db}
use pgfuse.Session.{Ret, ok, err, fault, Env, Session, M, ◌>>=◌, execute}

module _ {A B : Type 0} where
  continue_same :
      (r : Ret A) (f g : A → M B) (env : Env) (s : Session)
      → ((a : A) → r ≡ ok a → f a env s ≡ g a env s)
      → ◌>>=◌ (λ _ _. (r, s)) f env s ≡ ◌>>=◌ (λ _ _. (r, s)) g env s
  unfolding ◌>>=◌
  continue_same (ok a) f g env s h = h a refl
  continue_same (err n) f g env s h = refl
  continue_same fault f g env s h = refl

  -- Two continuations that agree on what the first action returns.
  pub bind_same :
      (m : M A) (f g : A → M B) (env : Env) (s : Session)
      → ((a : A) → (m env s).0 ≡ ok a → f a env (m env s).1 ≡ g a env (m env s).1)
      → (m >>= f) env s ≡ (m >>= g) env s
  unfolding ◌>>=◌
  bind_same m f g env s h = let (r, s') = m env s in continue_same r f g env s' h

-- A statement that has been answered was run on what the session sees.
pub execute-ok :
    {A : Type 0} (stmt : Db → Option (A × Db)) (env : Env) (s : Session) (a : A)
    → (execute stmt env s).0 ≡ ok a
    → stmt s.work ≡ some (a, (execute stmt env s).1.work)
unfolding execute
execute-ok stmt env s a h = ground (arith, h)
