-- ===== src/Proxy/Swap/Multidict.antt =====
-- The headers of a request, which deploy/proxy/swap.py deletes and sets.
use drukbox.Base.{
  ℕ, ◌≡◌, refl, sym, ◌∙◌, inl, inr, Bool, true, false, Option, none, some, List, [], ◌∷◌,
  if◌then◌else◌, ◌==◌, any, map, keep_if, arith, Bool-cases, Option-cases, ==→eq,
}
use drukbox.HostSecrets.Placeholder.{code_eq}
use drukbox.Proxy.Header.{lower, lower_code}
use drukbox.Proxy.Addon.{Headers, is_same_name}
use drukbox.Proxy.Swap.{names_of, remove_all, set_all}

-- The values of one header, in their order.
abbrev pub values_of : {H : Type 0} → Headers H → List ℕ → H → List (List ℕ)
values_of multidict m h = map (λ f. f.1) (keep_if (λ f. is_same_name f.0 m) (multidict.items h))

-- What mitmproxy documents of its multidict.
pub record MultidictLaws {H : Type 0} (multidict : Headers H) : Type 0 where
  pub remove_named :
      (n m : List ℕ) (h : H)
      → is_same_name n m ≡ true
      → values_of multidict m (multidict.remove n h) ≡ []
  pub remove_other :
      (n m : List ℕ) (h : H)
      → is_same_name n m ≡ false
      → values_of multidict m (multidict.remove n h) ≡ values_of multidict m h
  pub set_named :
      (n m v : List ℕ) (h : H)
      → is_same_name n m ≡ true
      → values_of multidict m (multidict.set n v h) ≡ v ∷ []
  pub set_other :
      (n m v : List ℕ) (h : H)
      → is_same_name n m ≡ false
      → values_of multidict m (multidict.set n v h) ≡ values_of multidict m h

-- The credential that is set for a header.
abbrev pub credential_for : List ℕ → List (List ℕ × List ℕ) → Option (List ℕ)
credential_for m [] = none
credential_for m ((n, v) ∷ cs) = elim (credential_for m cs) [
  | some later ↦ some later
  | none ↦ if is_same_name n m then some v else none
]

-- The values of a header of the request that goes on.
abbrev pub swapped_values : Option (List ℕ) → Bool → List (List ℕ) → List (List ℕ)
swapped_values (some credential) removed before = credential ∷ []
swapped_values none removed before = if removed then [] else before

module _ {H : Type 0} (multidict : Headers H) (laws : MultidictLaws multidict) (m : List ℕ) where
  pub set_all-values :
      (cs : List (List ℕ × List ℕ)) (h : H)
      → values_of multidict m (set_all multidict cs h)
        ≡ swapped_values (credential_for m cs) false (values_of multidict m h)
  unfolding set_all
  set_all-values [] h = refl
  set_all-values ((n, v) ∷ cs) h = elim (Option-cases (credential_for m cs)) [
    | inr (later, found) ↦ set_all-values cs (multidict.set n v h) ∙ (rw found refl)
    | inl none_later ↦ elim (Bool-cases (is_same_name n m)) [
      | inl same ↦
          set_all-values cs (multidict.set n v h)
          ∙ (rw none_later (rw same (laws.set_named n m v h same)))
      | inr other ↦
          set_all-values cs (multidict.set n v h)
          ∙ (rw none_later (rw other (laws.set_other n m v h other)))
    ]
  ]

  pub remove_all-values :
      (ns : List (List ℕ)) (h : H)
      → values_of multidict m (remove_all multidict ns h)
        ≡ (if any (λ n. is_same_name n m) ns then [] else values_of multidict m h)
  unfolding remove_all
  remove_all-values [] h = refl
  remove_all-values (n ∷ ns) h = elim (Bool-cases (is_same_name n m)) [
    | inl same ↦ elim (Bool-cases (any (λ x. is_same_name x m) ns)) [
      | inl later ↦ remove_all-values ns (multidict.remove n h) ∙ (rw later (rw same refl))
      | inr never ↦
          remove_all-values ns (multidict.remove n h)
          ∙ (rw never (rw same (laws.remove_named n m h same)))
    ]
    | inr other ↦
        remove_all-values ns (multidict.remove n h)
        ∙ (rw other (rw (laws.remove_other n m h other) refl))
  ]

lower_code_twice : (c : ℕ) → lower_code (lower_code c) ≡ lower_code c
lower_code_twice c = ground arith

lower_twice : (a : List ℕ) → lower (lower a) ≡ lower a
lower_twice [] = refl
lower_twice (c ∷ a) = rw (lower_code_twice c) (rw (lower_twice a) refl)

pub code_eq→eq : (a b : List ℕ) → code_eq a b ≡ true → a ≡ b
code_eq→eq [] [] h = refl
code_eq→eq (x ∷ a) [] h = absurd (ground arith)
code_eq→eq [] (y ∷ b) h = absurd (ground arith)
code_eq→eq (x ∷ a) (y ∷ b) h = elim (Bool-cases (x == y)) [
  | inl same ↦ rw (==→eq x y same) (rw (code_eq→eq a b (ground (arith, same, h))) refl)
  | inr other ↦ absurd (ground (arith, other, h))
]

-- A name that is kept is one of the rest.
any_eq :
    (a m : List ℕ) (ns : List (List ℕ))
    → any (code_eq a) ns ≡ true
    → is_same_name a m ≡ true
    → any (λ n. is_same_name n m) ns ≡ true
any_eq a m [] h same = absurd (ground arith)
any_eq a m (n ∷ ns) h same = elim (Bool-cases (code_eq a n)) [
  | inl first ↦ rw (sym (code_eq→eq a n first)) (rw same refl)
  | inr later ↦ ground (arith, any_eq a m ns (ground (arith, later, h)) same)
]

pub names_of-found :
    (m : List ℕ) (found : List (List ℕ × List ℕ))
    → any (λ n. is_same_name n m) (names_of found) ≡ any (λ f. is_same_name f.0 m) found
unfolding names_of
names_of-found m [] = refl
names_of-found m ((name, p) ∷ found) =
    elim (Bool-cases (any (code_eq (lower name)) (names_of found))) [
      | inr new ↦ rw new (rw (lower_twice name) (rw (names_of-found m found) refl))
      | inl kept ↦ rw kept (elim (Bool-cases (is_same_name name m)) [
        | inl same ↦
            rw same (any_eq (lower name) m (names_of found) kept (rw (lower_twice name) same))
        | inr other ↦ rw other (names_of-found m found)
      ])
    ]

pub swapped_values-removed :
    (c : Option (List ℕ)) (removed : Bool) (before : List (List ℕ))
    → swapped_values c false (if removed then [] else before) ≡ swapped_values c removed before
swapped_values-removed (some c) removed before = refl
swapped_values-removed none removed before = refl
