-- ===== src/System/Kept.antt =====
-- Actions that keep a property of the world, whether they succeed or fail.
use longhub_manager.Common.{
  ◌≡◌, refl, Option, none, some, Result, ok, err, Action, Ends, Triple, Triple-bind, ◌>>=◌,
}
use longhub_manager.System.{FileError, run_or}

abbrev pub Kept : {E Env A : Type 0} → (Env → Type 0) → Action E Env A → Type 0
Kept P m = Triple P m (λ _. P) (λ _. P)

-- From `P` the action returns in `Q`, or it fails.
abbrev pub Gives :
    {E Env A : Type 0} → (Env → Type 0) → Action E Env A → (A → Env → Type 0) → Type 0
Gives P m Q = Triple P m Q (λ _ _. Unit {0})

module _ {E Env : Type 0} where
  pub Kept-bind :
      {A B : Type 0}
      → (P : Env → Type 0) (m : Action E Env A) (f : A → Action E Env B) → Kept P m
      → ((a : A) → Kept P (f a))
      → Kept P (m >>= f)
  Kept-bind P m f h k = Triple-bind m f h k

  -- A fact that does not depend on the world is taken out of the condition.
  pub Triple-given :
      {A : Type 0}
      → (P : Env → Type 0) (F : Type 0) (m : Action E Env A) (Q : A → Env → Type 0)
        (X : E → Env → Type 0)
      → (F → Triple P m Q X)
      → Triple (λ env. P env × F) m Q X
  Triple-given P F m Q X h = record { at = λ env i. (h i.1).at env i.0 }

  pub run_or-Triple :
      (P Q X : Env → Type 0) (wrap : FileError → E) (call : Env → Option FileError × Env)
      → ((env : Env) → P env → (call env).0 ≡ none → Q (call env).1)
      → ((env : Env) (e : FileError) → P env → (call env).0 ≡ some e → X (call env).1)
      → Triple P (run_or wrap call) (λ _. Q) (λ _. X)
  unfolding run_or
  run_or-Triple P Q X wrap call good bad = record { at = λ env i. go env i (call env).0 refl }
    where
      go :
          (env : Env)
          → P env
          → (o : Option FileError) → (call env).0 ≡ o
          → Ends (λ _. Q) (λ _. X) (run_or wrap call env).0 (run_or wrap call env).1
      go env i none q = rw (q, run_or) (good env i q)
      go env i (some e) q = rw (q, run_or) (bad env e i q)

  pub run_or-Kept :
      (P : Env → Type 0) (wrap : FileError → E) (call : Env → Option FileError × Env)
      → ((env : Env) → P env → P (call env).1)
      → Kept P (run_or wrap call)
  run_or-Kept P wrap call h =
      run_or-Triple P P P wrap call (λ env i q. h env i) (λ env e i q. h env i)

  -- What two conditions give, both give.
  pub Gives-both :
      {A : Type 0}
      → (P P' : Env → Type 0) (m : Action E Env A) (Q Q' : A → Env → Type 0) (X : E → Env → Type 0)
      → Gives P m Q
      → Triple P' m Q' X
      → Gives (λ env. P env × P' env) m (λ a env. Q a env × Q' a env)
  Gives-both {A} P P' m Q Q' X h k = record {
    at = λ env i. go (m env).0 (m env).1 (h.at env i.0) (k.at env i.1);
  }
    where
      go :
          (r : Result E A) (env : Env)
          → Ends Q (λ _ _. Unit {0}) r env
          → Ends Q' X r env
          → Ends (λ a env. Q a env × Q' a env) (λ _ _. Unit {0}) r env
      go (ok a) env i j = (i, j)
      go (err e) env i j = tt

  pub Triple-pre :
      {A : Type 0}
      → (P P' : Env → Type 0) (m : Action E Env A) (Q : A → Env → Type 0) (X : E → Env → Type 0)
      → ((env : Env) → P' env → P env)
      → Triple P m Q X
      → Triple P' m Q X
  Triple-pre P P' m Q X f h = record { at = λ env i. h.at env (f env i) }

  -- An action that turns its errors into others, and its world with them.
  pub Triple-map_err :
      {A : Type 0}
      → (P : Env → Type 0) (m m' : Action E Env A) (Q : A → Env → Type 0) (X X' : E → Env → Type 0)
      → ((env env' : Env) (a : A) → m env ≡ (ok a, env') → m' env ≡ (ok a, env'))
      → ((env env' : Env) (e : E)
          → m env ≡ (err e, env')
          → X e env'
          → Ends Q X' (m' env).0 (m' env).1)
      → Triple P m Q X
      → Triple P m' Q X'
  Triple-map_err {A} P m m' Q X X' good bad h = record {
    at = λ env i. go env (m env).0 (m env).1 refl (h.at env i);
  }
    where
      go :
          (env : Env) (r : Result E A) (env' : Env)
          → m env ≡ (r, env')
          → Ends Q X r env'
          → Ends Q X' (m' env).0 (m' env).1
      go env (ok a) env' q i = rw (good env env' a q) i
      go env (err e) env' q i = bad env env' e q i

  pub Gives-any :
      {A : Type 0} → (P : Env → Type 0) (m : Action E Env A) → Gives P m (λ _ _. Unit {0})
  Gives-any {A} P m = record { at = λ env i. go (m env).0 (m env).1 }
    where
      go :
          (r : Result E A) (env : Env)
          → Ends (λ (a : A) (env : Env). Unit {0}) (λ (e : E) (env : Env). Unit {0}) r env
      go (ok a) env = tt
      go (err e) env = tt

  pub Ends-ok :
      {A : Type 0}
      → (Q : A → Env → Type 0) (X : E → Env → Type 0) (r : Result E A) (a : A) (env : Env)
      → r ≡ ok a
      → Ends Q X r env
      → Q a env
  Ends-ok Q X r a env e h = rw e at h
