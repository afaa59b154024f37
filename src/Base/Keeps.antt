-- ===== src/Base/Keeps.antt =====
-- What an operation keeps and what it establishes, with one rule for each way to build one.

use mathlib.Core.Bool.{Bool, true, false}
use drukbox.Base.Tests.{if◌then◌else◌}
use drukbox.Base.Op.{
  Result, ok, err, Op, pure, raise, gets, lift, try_except, attempt, modify, pass, ◌>>=◌, resume,
  handled,
}

-- `m` keeps `P`, whether it returns or raises.
pub record Keeps {ℓ} {S E A : Type ℓ} (P : S → Type ℓ) (m : Op S E A) : Type ℓ where
  pub at : (s : S) → P s → P (m s).1

-- From `P`, a return of `m` establishes `Q` and a raise establishes `X`.
abbrev pub Outcome {ℓ} :
    {S E A : Type ℓ} → (A → S → Type ℓ) → (E → S → Type ℓ) → Result E A × S → Type ℓ
Outcome Q X (ok a, s) = Q a s
Outcome Q X (err e, s) = X e s

pub Outcome-map {ℓ} :
    {S E A : Type ℓ} (Q R : A → S → Type ℓ) (X : E → S → Type ℓ) (r : Result E A × S)
    → ((a : A) (s : S) → Q a s → R a s)
    → Outcome Q X r
    → Outcome R X r
Outcome-map Q R X (ok a, s) f q = f a s q
Outcome-map Q R X (err e, s) f x = x

module _ {ℓ} {S E A : Type ℓ} {P : S → Type ℓ} where
  pub Keeps-pure : (a : A) → Keeps P (pure {E = E} a)
  unfolding pure
  Keeps-pure a = record { at = λ s h. h }

  pub Keeps-raise : (e : E) → Keeps P (raise {A = A} e)
  unfolding raise
  Keeps-raise e = record { at = λ s h. h }

  pub Keeps-gets : (f : S → A) → Keeps P (gets {E = E} f)
  unfolding gets
  Keeps-gets f = record { at = λ s h. h }

  pub Keeps-lift : (r : Result E A) → Keeps P (lift r)
  unfolding lift
  Keeps-lift r = record { at = λ s h. h }

  pub Keeps-if : (b : Bool) (m n : Op S E A) → Keeps P m → Keeps P n → Keeps P (if b then m else n)
  Keeps-if true m n km kn = km
  Keeps-if false m n km kn = kn

  handled_keeps :
      (r : Result E A × S) (h : E → Op S E A)
      → ((e : E) → Keeps P (h e))
      → P r.1
      → P (handled r h).1
  handled_keeps (ok a, s) h kh p = p
  handled_keeps (err e, s) h kh p = (kh e).at s p

  pub Keeps-try_except :
      (m : Op S E A) (h : E → Op S E A)
      → Keeps P m
      → ((e : E) → Keeps P (h e))
      → Keeps P (try_except m h)
  unfolding try_except
  Keeps-try_except m h km kh = record { at = λ s p. handled_keeps (m s) h kh (km.at s p) }

  pub Keeps-attempt : (m : Op S E A) → Keeps P m → Keeps P (attempt m)
  unfolding attempt
  Keeps-attempt m km = record { at = λ s p. km.at s p }

module _ {ℓ} {S E : Type ℓ} {P : S → Type ℓ} where
  pub Keeps-modify : (f : S → S) → ((s : S) → P s → P (f s)) → Keeps P (modify {E = E} f)
  unfolding modify
  Keeps-modify f k = record { at = k }

  pub Keeps-pass : Keeps P (pass {S = S} {E = E})
  unfolding pass
  Keeps-pass = record { at = λ s h. h }

module _ {ℓ} {S E A B : Type ℓ} {P : S → Type ℓ} where
  resume_keeps :
      (r : Result E A × S) (f : A → Op S E B) → ((a : A) → Keeps P (f a)) → P r.1 → P (resume r f).1
  resume_keeps (ok a, s) f kf p = (kf a).at s p
  resume_keeps (err e, s) f kf p = p

  pub Keeps-bind :
      (m : Op S E A) (f : A → Op S E B) → Keeps P m → ((a : A) → Keeps P (f a)) → Keeps P (m >>= f)
  unfolding ◌>>=◌
  Keeps-bind m f km kf = record { at = λ s p. resume_keeps (m s) f kf (km.at s p) }

pub ruleset keeps_rules = (
  Keeps-pure, Keeps-raise, Keeps-gets, Keeps-lift, Keeps-if, Keeps-try_except, Keeps-pass,
  Keeps-attempt, Keeps-bind,
)
