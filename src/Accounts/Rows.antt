-- ===== src/Accounts/Rows.antt =====
-- service_accounts: what holds of the rows, and a row that comes or goes.
use drukbox.Base.{
  String, ◌≡◌, refl, sym, ap, ◌∙◌, Bool, true, false, not, ◌||◌, Option, none, some, List, [], ◌∷◌,
  ◌++◌, str_eq, opt_text_eq, any, keep_if, arith, inl, inr, Bool-cases, eq_iff,
}
use mathlib.Core.Bool.{false≢true}
use drukbox.Accounts.{Account, has_fingerprint, has_name}

-- Does a row have this fingerprint; none is shared by no one.
abbrev pub shares : Option String → List Account → Bool
shares none rows = false
shares (some fingerprint) rows = has_fingerprint fingerprint rows

-- No two rows have one name or one fingerprint.
abbrev pub Unique : List Account → Type 0
Unique [] = Unit
Unique (a ∷ rows) =
    (has_name a.name rows ≡ false) × (shares a.fingerprint rows ≡ false) × Unique rows

-- The row of the admin account has no fingerprint.
abbrev pub is_guarded : Account → Bool
is_guarded a = not (str_eq a.name "admin") || opt_text_eq a.fingerprint none

pub record IsSound (rows : List Account) : Type 0 where
  pub unique : Unique rows
  pub admin_kept : has_name "admin" rows ≡ true
  pub guarded : any (λ a. not (is_guarded a)) rows ≡ false

has_name-append :
    (name : String) (rows : List Account) (x : Account)
    → has_name name (rows ++ x ∷ []) ≡ (has_name name rows || str_eq x.name name)
has_name-append name [] x = ground arith
has_name-append name (a ∷ rows) x = rw (has_name-append name rows x) (ground arith)

has_name-keep_if :
    (name : String) (p : Account → Bool) (rows : List Account)
    → has_name name rows ≡ false
    → has_name name (keep_if p rows) ≡ false
has_name-keep_if name p [] h = refl
has_name-keep_if name p (a ∷ rows) h = elim (Bool-cases (p a)) [
  | inl kept ↦ rw kept (ground (arith, h, has_name-keep_if name p rows))
  | inr gone ↦ rw gone (has_name-keep_if name p rows (ground (arith, h)))
]

str_eq-false : (a b : String) → str_eq a b ≡ false → str_eq b a ≡ false
str_eq-false a b h = elim (Bool-cases (str_eq b a)) [
  | inr differs ↦ differs
  | inl same ↦ absurd (false≢true (sym h ∙ (eq_iff a b).1 (sym ((eq_iff b a).0 same))))
]

has_name-new :
    (name : String) (rows : List Account) (x : Account)
    → has_name name rows ≡ false
    → str_eq name x.name ≡ false
    → has_name name (rows ++ x ∷ []) ≡ false
has_name-new name rows x h k = has_name-append name rows x ∙ (rw h (str_eq-false name x.name k))

shares-new :
    (o : Option String) (rows : List Account) (name fingerprint : String)
    → shares o rows ≡ false
    → opt_text_eq o (some fingerprint) ≡ false
    → shares o (rows ++ record { name = name; fingerprint = some fingerprint } ∷ []) ≡ false
shares-new none rows name fingerprint h k = refl
shares-new (some g) [] name fingerprint h k = rw (str_eq-false g fingerprint k) refl
shares-new (some g) (a ∷ rows) name fingerprint h k =
    ground (arith, h, shares-new (some g) rows name fingerprint (ground (arith, h)) k)

shares-keep_if :
    (o : Option String) (p : Account → Bool) (rows : List Account)
    → shares o rows ≡ false
    → shares o (keep_if p rows) ≡ false
shares-keep_if none p rows h = refl
shares-keep_if (some f) p [] h = refl
shares-keep_if (some f) p (a ∷ rows) h = elim (Bool-cases (p a)) [
  | inl kept ↦ rw kept (ground (arith, h, shares-keep_if (some f) p rows))
  | inr gone ↦ rw gone (shares-keep_if (some f) p rows (ground (arith, h)))
]

Unique-new :
    (rows : List Account) (name fingerprint : String)
    → Unique rows
    → has_name name rows ≡ false
    → has_fingerprint fingerprint rows ≡ false
    → Unique (rows ++ record { name = name; fingerprint = some fingerprint } ∷ [])
Unique-new [] name fingerprint u h k = (refl, refl, tt)
Unique-new (a ∷ rows) name fingerprint u h k = (
  has_name-new a.name rows _ u.0 (ground (arith, h)),
  shares-new a.fingerprint rows name fingerprint u.1 (ground (arith, k)),
  Unique-new rows name fingerprint u.2 (ground (arith, h)) (ground (arith, k)),
)

Unique-keep_if : (p : Account → Bool) (rows : List Account) → Unique rows → Unique (keep_if p rows)
Unique-keep_if p [] u = tt
Unique-keep_if p (a ∷ rows) u = elim (Bool-cases (p a)) [
  | inl kept ↦ rw kept (
    has_name-keep_if a.name p rows u.0,
    shares-keep_if a.fingerprint p rows u.1,
    Unique-keep_if p rows u.2,
  )
  | inr gone ↦ rw gone (Unique-keep_if p rows u.2)
]

differs_from_admin :
    (name : String) (rows : List Account)
    → has_name "admin" rows ≡ true
    → has_name name rows ≡ false
    → str_eq name "admin" ≡ false
differs_from_admin name rows there h = elim (Bool-cases (str_eq name "admin")) [
  | inr differs ↦ differs
  | inl same ↦
      absurd (false≢true (sym h ∙ ap (λ n. has_name n rows) ((eq_iff name "admin").0 same) ∙ there))
]

guarded-new :
    (rows : List Account) (x : Account)
    → any (λ a. not (is_guarded a)) rows ≡ false
    → is_guarded x ≡ true
    → any (λ a. not (is_guarded a)) (rows ++ x ∷ []) ≡ false
guarded-new [] x h k = rw k refl
guarded-new (a ∷ rows) x h k = ground (arith, h, guarded-new rows x (ground (arith, h)) k)

guarded-keep_if :
    (p : Account → Bool) (rows : List Account)
    → any (λ a. not (is_guarded a)) rows ≡ false
    → any (λ a. not (is_guarded a)) (keep_if p rows) ≡ false
guarded-keep_if p [] h = refl
guarded-keep_if p (a ∷ rows) h = elim (Bool-cases (p a)) [
  | inl kept ↦ rw kept (ground (arith, h, guarded-keep_if p rows))
  | inr gone ↦ rw gone (guarded-keep_if p rows (ground (arith, h)))
]

admin-keep_if :
    (name : String) (rows : List Account)
    → str_eq name "admin" ≡ false
    → has_name "admin" rows ≡ true
    → has_name "admin" (keep_if (λ a. not (str_eq a.name name)) rows) ≡ true
admin-keep_if name [] differs h = h
admin-keep_if name (a ∷ rows) differs h = elim (Bool-cases (str_eq a.name name)) [
  | inr kept ↦ rw kept (ground (arith, h, admin-keep_if name rows differs))
  | inl gone ↦
      let other : str_eq a.name "admin" ≡ false =
        ap (λ n. str_eq n "admin") ((eq_iff a.name name).0 gone) ∙ differs in
      rw gone (admin-keep_if name rows differs (ground (arith, h, other)))
]

pub IsSound-new :
    (rows : List Account) (name fingerprint : String)
    → IsSound rows
    → has_name name rows ≡ false
    → has_fingerprint fingerprint rows ≡ false
    → IsSound (rows ++ record { name = name; fingerprint = some fingerprint } ∷ [])
IsSound-new rows name fingerprint s h k = record {
  unique = Unique-new rows name fingerprint s.unique h k;
  admin_kept = has_name-append "admin" rows _ ∙ (rw s.admin_kept refl);
  guarded = guarded-new rows _ s.guarded (rw (differs_from_admin name rows s.admin_kept h) refl);
}

pub IsSound-without :
    (name : String) (rows : List Account)
    → str_eq name "admin" ≡ false
    → IsSound rows
    → IsSound (keep_if (λ a. not (str_eq a.name name)) rows)
IsSound-without name rows differs s = record {
  unique = Unique-keep_if _ rows s.unique;
  admin_kept = admin-keep_if name rows differs s.admin_kept;
  guarded = guarded-keep_if _ rows s.guarded;
}
