-- ===== src/Tests/Headers.antt =====
-- A multidict with the laws of mitmproxy's.
use drukbox.Base.{
  ℕ, ◌≡◌, refl, sym, ap, ◌∙◌, true, false, not, List, [], ◌∷◌, ◌++◌, map, keep_if, arith, inl, inr,
  Bool-cases,
}
use mathlib.Core.Bool.{false≢true}
use mathlib.Core.Path.{subst}
use drukbox.HostSecrets.Placeholder.{code_eq}
use drukbox.Proxy.Header.{lower}
use drukbox.Proxy.Addon.{Headers, is_same_name}
use drukbox.Proxy.Swap.Multidict.{MultidictLaws, code_eq→eq}

abbrev Fields : Type 0
Fields = List (List ℕ × List ℕ)

abbrev without : List ℕ → Fields → Fields
without n h = keep_if (λ f. not (is_same_name f.0 n)) h

abbrev pub fields : Headers Fields
fields = record { items = λ h. h; remove = without; set = λ n v h. without n h ++ (n, v) ∷ [] }

abbrev named : List ℕ → Fields → List (List ℕ)
named m h = map (λ f. f.1) (keep_if (λ f. is_same_name f.0 m) h)

code_eq_refl : (a : List ℕ) → code_eq a a ≡ true
code_eq_refl [] = refl
code_eq_refl (c ∷ a) = ground (arith, code_eq_refl a)

same_right : (f n m : List ℕ) → is_same_name n m ≡ true → is_same_name f m ≡ is_same_name f n
same_right f n m h = ap (code_eq (lower f)) (sym (code_eq→eq (lower n) (lower m) h))

apart :
    (f n m : List ℕ) → is_same_name n m ≡ false → is_same_name f m ≡ true → is_same_name f n ≡ false
apart f n m differs same = elim (Bool-cases (is_same_name f n)) [
  | inr other ↦ other
  | inl too ↦ absurd (
      false≢true (
        sym differs
        ∙ subst (λ x. code_eq x (lower m) ≡ true) (code_eq→eq (lower f) (lower n) too) same))
]

without-named : (n m : List ℕ) (h : Fields) → is_same_name n m ≡ true → named m (without n h) ≡ []
without-named n m [] same = refl
without-named n m ((k, v) ∷ h) same = elim (Bool-cases (is_same_name k n)) [
  | inl gone ↦ rw gone (without-named n m h same)
  | inr kept ↦ rw kept (rw (same_right k n m same ∙ kept) (without-named n m h same))
]

without-other :
    (n m : List ℕ) (h : Fields) → is_same_name n m ≡ false → named m (without n h) ≡ named m h
without-other n m [] differs = refl
without-other n m ((k, v) ∷ h) differs = elim (Bool-cases (is_same_name k m)) [
  | inl same ↦ rw (apart k n m differs same) (rw same (rw (without-other n m h differs) refl))
  | inr other ↦ elim (Bool-cases (is_same_name k n)) [
    | inl gone ↦ rw gone (rw other (without-other n m h differs))
    | inr kept ↦ rw kept (rw other (without-other n m h differs))
  ]
]

named-append_same :
    (n m v : List ℕ) (h : Fields)
    → is_same_name n m ≡ true
    → named m (h ++ (n, v) ∷ []) ≡ named m h ++ v ∷ []
named-append_same n m v [] same = rw same refl
named-append_same n m v ((k, w) ∷ h) same = elim (Bool-cases (is_same_name k m)) [
  | inl kept ↦ rw kept (ap (λ l. w ∷ l) (named-append_same n m v h same))
  | inr gone ↦ rw gone (named-append_same n m v h same)
]

named-append_other :
    (n m v : List ℕ) (h : Fields)
    → is_same_name n m ≡ false
    → named m (h ++ (n, v) ∷ []) ≡ named m h
named-append_other n m v [] differs = rw differs refl
named-append_other n m v ((k, w) ∷ h) differs = elim (Bool-cases (is_same_name k m)) [
  | inl kept ↦ rw kept (ap (λ l. w ∷ l) (named-append_other n m v h differs))
  | inr gone ↦ rw gone (named-append_other n m v h differs)
]

pub fields-laws : MultidictLaws fields
fields-laws = record {
  remove_named = without-named;
  remove_other = without-other;
  set_named = λ n m v h same.
      named-append_same n m v (without n h) same ∙ (rw (without-named n m h same) refl);
  set_other = λ n m v h differs.
      named-append_other n m v (without n h) differs ∙ without-other n m h differs;
}
