-- ===== src/Templates/Janitor/Abandoned.antt =====
-- What the janitor's UPDATE of src/templates/janitor.py leaves.
use drukbox.Base.{
  ℕ, ◌+◌, ◌≤◌, String, true, false, ◌≡◌, refl, List, [], ◌∷◌, if◌then◌else◌, arith, Bool-cases, inl,
  inr,
}
use drukbox.Templates.Model.{Template, is_failed}
use drukbox.Templates.Service.{Lives, is_reapable}
use drukbox.Templates.Janitor.{is_abandoned, abandoned, abandon_all}
use drukbox.Hosts.World.{seconds}

-- A row after the UPDATE, at a later time: its build has not outlived its time limit; if it had, the
-- row is failed and not reapable yet, and otherwise the row is what it was.
abbrev pub IsSettled : Lives → ℕ → ℕ → Template → Template → Type 0
IsSettled lives now at old new =
    (is_abandoned lives now new ≡ false)
    × (if is_abandoned lives now old
        then (is_failed new.status ≡ true) × (is_reapable lives at new ≡ false)
        else new ≡ old)

abbrev pub AllSettled : Lives → ℕ → ℕ → List Template → List Template → Type 0
AllSettled lives now at [] [] = Unit {0}
AllSettled lives now at (t ∷ ts) (u ∷ us) =
    IsSettled lives now at t u × AllSettled lives now at ts us
AllSettled lives now at _ _ = ⊥

updated-IsSettled :
    (lives : Lives) (text : String) (now later at : ℕ) (t : Template)
    → at ≤ later + seconds lives.failed_retention
    → IsSettled lives now at t (if is_abandoned lives now t then abandoned text later t else t)
unfolding is_reapable
updated-IsSettled lives text now later at t soon = elim (Bool-cases (is_abandoned lives now t)) [
  | inl old ↦ rw old (refl, (refl, ground arith))
  | inr young ↦ rw young (young, refl)
]

-- After the janitor's UPDATE no row is a build that has outlived its time limit. Such a build has
-- become a failed row, which the sweep leaves for the whole retention from the UPDATE on, so that
-- its error stays readable; every other row is what it was.
pub abandon_all-AllSettled :
    (lives : Lives) (text : String) (now later at : ℕ) (ts : List Template)
    → at ≤ later + seconds lives.failed_retention
    → AllSettled lives now at ts (abandon_all lives text now later ts)
unfolding abandon_all
abandon_all-AllSettled lives text now later at [] soon = tt
abandon_all-AllSettled lives text now later at (t ∷ ts) soon = (
  updated-IsSettled lives text now later at t soon,
  abandon_all-AllSettled lives text now later at ts soon,
)
