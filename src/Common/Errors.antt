-- ===== src/Common/Errors.antt =====
-- Go's `(value, error)` pairs as values, and methods that mutate a receiver and may fail: what was
-- written before the error stays written, so the state comes back on both sides.
use mathlib.Core.Path.{◌≡◌, refl, ap}
use mathlib.Core.Logic.{◌≢◌}
use native.Mathlib.Omega.{arith}
use mathlib.Core.Bool.{Bool, true, false}
use longhub_manager.Common.Tests.{if◌then◌else◌}

pub data Result {ℓ} (E A : Type ℓ) : Type ℓ where
  ok : A → Result E A
  err : E → Result E A

abbrev pub Action {ℓ} : Type ℓ → Type ℓ → Type ℓ → Type ℓ
Action E S A = S → Result E A × S

module _ {ℓ} {E S A : Type ℓ} where
  unfoldable pub pure : A → Action E S A
  pure a s = (ok a, s)

  unfoldable pub fail : E → Action E S A
  fail e s = (err e, s)

-- What fails does not return.
pub not_ok {ℓ} :
    {E S B : Type ℓ}
    → (e : E) (s s' : S) (b : B) → (let r : Result E B × S = (err e, s) in r) ≢ (ok b, s')
not_ok e s s' b h = absurd (ground (arith, ap (λ x. x.0) h))

module _ {ℓ} {E S A B : Type ℓ} where
  abbrev pub after : Result E A → (A → Action E S B) → Action E S B
  after (ok a) f s = f a s
  after (err e) f s = (err e, s)

  infixl 10 ◌>>=◌ ◌>>◌
  unfoldable pub ◌>>=◌ : Action E S A → (A → Action E S B) → Action E S B
  ◌>>=◌ m f s = let (r, s') = m s in after r f s'

  abbrev pub ◌>>◌ : Action E S A → Action E S B → Action E S B
  m >> n = m >>= λ _. n

  -- An action whose first part is known to return goes on from there.
  pub bind_ok :
      (m : Action E S A) (f : A → Action E S B) (s s' : S) (a : A)
      → m s ≡ (ok a, s')
      → (m >>= f) s ≡ f a s'
  unfolding ◌>>=◌
  bind_ok m f s s' a h = rw h refl

  -- A sequence that returns: what its first part returned, and the rest from there.
  pub bind_inv :
      (m : Action E S A) (f : A → Action E S B) (s s' : S) (b : B)
      → (m >>= f) s ≡ (ok b, s')
      → (a : A) × (t : S) × (m s ≡ (ok a, t)) × (f a t ≡ (ok b, s'))
  unfolding ◌>>=◌
  bind_inv m f s s' b h = go (m s) refl h
    where
      go :
          (x : Result E A × S)
          → m s ≡ x
          → after x.0 f x.1 ≡ (ok b, s')
          → (a : A) × (t : S) × (m s ≡ (ok a, t)) × (f a t ≡ (ok b, s'))
      go (ok a, t) q k = (a, t, q, k)
      go (err e, t) q k = absurd (not_ok e t s' b k)

-- What holds after an action, by how it ended.
abbrev pub Ends {ℓ} :
    {E S A : Type ℓ} → (A → S → Type ℓ) → (E → S → Type ℓ) → Result E A → S → Type ℓ
Ends Q X (ok a) s = Q a s
Ends Q X (err e) s = X e s

-- From `P` the action ends in `Q` when it returns and in `X` when it fails.
pub record Triple {ℓ} {E S A : Type ℓ} (P : S → Type ℓ) (m : Action E S A) (Q : A → S → Type ℓ)
    (X : E → S → Type ℓ) : Type ℓ where
  pub at : (s : S) → P s → Ends Q X (m s).0 (m s).1

module _ {ℓ} {E S A : Type ℓ} {X : E → S → Type ℓ} where
  pub Triple-pure : {Q : A → S → Type ℓ} (a : A) → Triple (Q a) (pure a) Q X
  unfolding pure
  Triple-pure a = record { at = λ s h. h }

  pub Triple-fail :
      {P : S → Type ℓ} {Q : A → S → Type ℓ} (e : E)
      → ((s : S) → P s → X e s)
      → Triple P (fail e) Q X
  unfolding fail
  Triple-fail e h = record { at = h }

  pub Triple-if :
      {P : S → Type ℓ} {Q : A → S → Type ℓ} (b : Bool) (m n : Action E S A)
      → (b ≡ true → Triple P m Q X)
      → (b ≡ false → Triple P n Q X)
      → Triple P (if b then m else n) Q X
  Triple-if true m n h k = h refl
  Triple-if false m n h k = k refl

module _ {ℓ} {E S A B : Type ℓ} {X : E → S → Type ℓ} where
  after-Ends :
      {Q : A → S → Type ℓ} {R : B → S → Type ℓ} (f : A → Action E S B)
      → ((a : A) → Triple (Q a) (f a) R X)
      → (r : Result E A) (s : S) → Ends Q X r s
      → Ends R X (after r f s).0 (after r f s).1
  after-Ends f h (ok a) s q = (h a).at s q
  after-Ends f h (err e) s q = q

  pub Triple-bind :
      {P : S → Type ℓ} {Q : A → S → Type ℓ} {R : B → S → Type ℓ} (m : Action E S A)
      (f : A → Action E S B)
      → Triple P m Q X
      → ((a : A) → Triple (Q a) (f a) R X)
      → Triple P (m >>= f) R X
  unfolding ◌>>=◌
  Triple-bind m f h k = record { at = λ s p. let (r, s') = m s in after-Ends f k r s' (h.at s p) }

module _ {ℓ} {E S A : Type ℓ} {Q R : A → S → Type ℓ} {X Y : E → S → Type ℓ} where
  pub Ends-mono :
      ((a : A) (s : S) → Q a s → R a s)
      → ((e : E) (s : S) → X e s → Y e s)
      → (r : Result E A) (s : S) → Ends Q X r s
      → Ends R Y r s
  Ends-mono f g (ok a) s h = f a s h
  Ends-mono f g (err e) s h = g e s h

  pub Triple-mono :
      {P : S → Type ℓ} (m : Action E S A)
      → ((a : A) (s : S) → Q a s → R a s)
      → ((e : E) (s : S) → X e s → Y e s)
      → Triple P m Q X
      → Triple P m R Y
  Triple-mono m f g h = record { at = λ s p. Ends-mono f g (m s).0 (m s).1 (h.at s p) }
