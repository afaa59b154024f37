-- ===== src/Base/Op.antt =====
-- Operations that change a state and may raise. What was written before a raise stays written.
use mathlib.Core.Path.{◌≡◌, refl}
use mathlib.Core.Logic.{◌⊎◌, inl, inr}

pub data Result {ℓ} (E A : Type ℓ) : Type ℓ where
  ok : A → Result E A
  err : E → Result E A

pub Result-cases {ℓ} :
    {E A : Type ℓ} (r : Result E A) → ((e : E) × (r ≡ err e)) ⊎ ((a : A) × (r ≡ ok a))
Result-cases (ok a) = inr (a, refl)
Result-cases (err e) = inl (e, refl)

abbrev pub Op {ℓ} : Type ℓ → Type ℓ → Type ℓ → Type ℓ
Op S E A = S → Result E A × S

module _ {ℓ} {S E A : Type ℓ} where
  unfoldable pub pure : A → Op S E A
  pure a s = (ok a, s)

  unfoldable pub raise : E → Op S E A
  raise e s = (err e, s)

  unfoldable pub gets : (S → A) → Op S E A
  gets f s = (ok (f s), s)

  unfoldable pub lift : Result E A → Op S E A
  lift r s = (r, s)

  abbrev pub handled : Result E A × S → (E → Op S E A) → Result E A × S
  handled (ok a, s) h = (ok a, s)
  handled (err e, s) h = h e s

  -- `try: m  except E as e: h e`; what `h` does not handle it raises again.
  unfoldable pub try_except : Op S E A → (E → Op S E A) → Op S E A
  try_except m h s = handled (m s) h

  abbrev pub caught : Result E A × S → Result E (Result E A) × S
  caught (r, s) = (ok r, s)

  -- The raise of `m` as a value, to be looked at by the statement that follows.
  unfoldable pub attempt : Op S E A → Op S E (Result E A)
  attempt m s = caught (m s)

module _ {ℓ} {S E : Type ℓ} where
  unfoldable pub modify : (S → S) → Op S E (Unit {ℓ})
  modify f s = (ok tt, f s)

  unfoldable pub pass : Op S E (Unit {ℓ})
  pass s = (ok tt, s)

module _ {ℓ} {S E A B : Type ℓ} where
  abbrev pub resume : Result E A × S → (A → Op S E B) → Result E B × S
  resume (ok a, s) f = f a s
  resume (err e, s) f = (err e, s)

  infixl 10 ◌>>=◌ ◌>>◌
  -- Opening this opens the other ways to build an operation too.
  unfoldable pub ◌>>=◌ : Op S E A → (A → Op S E B) → Op S E B
  unfolding pure raise gets lift modify pass try_except attempt
  ◌>>=◌ m f s = resume (m s) f

  abbrev pub ◌>>◌ : Op S E A → Op S E B → Op S E B
  m >> n = m >>= λ _. n
