-- ===== src/Base/Yields.antt =====
-- What an operation establishes from what it starts with: one condition for a return, one for a
-- raise.

use mathlib.Core.Bool.{Bool, true, false}
use drukbox.Base.Tests.{if◌then◌else◌}
use drukbox.Base.Op.{Result, ok, err, Op, pure, raise, attempt, ◌>>=◌, resume, caught}
use drukbox.Base.Keeps.{Keeps, Outcome}

pub record Yields {ℓ} {S E A : Type ℓ} (P : S → Type ℓ) (Q : A → S → Type ℓ) (X : E → S → Type ℓ)
    (m : Op S E A) : Type ℓ where
  pub at : (s : S) → P s → Outcome Q X (m s)

module _ {ℓ} {S E A : Type ℓ} {P : S → Type ℓ} {Q : A → S → Type ℓ} {X : E → S → Type ℓ} where
  pub Yields-pure : (a : A) → ((s : S) → P s → Q a s) → Yields P Q X (pure a)
  unfolding pure
  Yields-pure a h = record { at = h }

  pub Yields-raise : (e : E) → ((s : S) → P s → X e s) → Yields P Q X (raise e)
  unfolding raise
  Yields-raise e h = record { at = h }

  pub Yields-if :
      (b : Bool) (m n : Op S E A)
      → Yields P Q X m
      → Yields P Q X n
      → Yields P Q X (if b then m else n)
  Yields-if true m n ym yn = ym
  Yields-if false m n ym yn = yn

caught-Outcome {ℓ} :
    {S E A : Type ℓ} (P : S → Type ℓ) (X : E → S → Type ℓ) (r : Result E A × S)
    → P r.1
    → Outcome (λ a. P) X (caught r)
caught-Outcome P X (r, s) p = p

module _ {ℓ} {S E A : Type ℓ} {P : S → Type ℓ} {X : E → S → Type ℓ} where
  kept-Outcome :
      (r : Result E A × S) → P r.1 → ((e : E) (s : S) → P s → X e s) → Outcome (λ a. P) X r
  kept-Outcome (ok a, s) p weaken = p
  kept-Outcome (err e, s) p weaken = weaken e s p

  pub Yields-Keeps :
      (m : Op S E A) → ((e : E) (s : S) → P s → X e s) → Keeps P m → Yields P (λ a. P) X m
  Yields-Keeps m weaken km = record { at = λ s p. kept-Outcome (m s) (km.at s p) weaken }

  -- An attempt never raises.
  pub Yields-attempt : (m : Op S E A) → Keeps P m → Yields P (λ a. P) X (attempt m)
  unfolding attempt
  Yields-attempt m km = record { at = λ s p. caught-Outcome P X (m s) (km.at s p) }

resume-Outcome {ℓ} :
    {S E A B : Type ℓ} {X : E → S → Type ℓ} {R : A → S → Type ℓ} {Q : B → S → Type ℓ}
    (r : Result E A × S) (f : A → Op S E B)
    → ((a : A) → Yields (R a) Q X (f a))
    → Outcome R X r
    → Outcome Q X (resume r f)
resume-Outcome (ok a, s) f yf p = (yf a).at s p
resume-Outcome (err e, s) f yf p = p

module _ {ℓ} {S E A B : Type ℓ} {P : S → Type ℓ} {X : E → S → Type ℓ} where
  pub Yields-bind :
      {R : A → S → Type ℓ} {Q : B → S → Type ℓ} (m : Op S E A) (f : A → Op S E B)
      → Yields P R X m
      → ((a : A) → Yields (R a) Q X (f a))
      → Yields P Q X (m >>= f)
  unfolding ◌>>=◌
  Yields-bind m f ym yf = record { at = λ s p. resume-Outcome (m s) f yf (ym.at s p) }

module _ {ℓ} {S E A : Type ℓ} {P : S → Type ℓ} {Q : A → S → Type ℓ} {X : E → S → Type ℓ} where
  pub Yields-from :
      {O : S → Type ℓ} (m : Op S E A) → ((s : S) → O s → P s) → Yields P Q X m → Yields O Q X m
  Yields-from m h y = record { at = λ s o. y.at s (h s o) }
