-- ===== src/Accounts/Tokens.antt =====
-- service_accounts: a token that is issued, and the account that it is for.
use drukbox.Base.{
  ℕ, String, ◌≡◌, refl, sym, ap, ◌∙◌, true, false, not, ◌||◌, Option, none, some, List, [], ◌∷◌,
  ◌++◌, str_eq, is_text, opt_text_eq, keep_if, arith, inl, inr, Bool-cases, eq_iff,
}
use mathlib.Core.Bool.{false≢true}
use drukbox.Base.Op.{Result, ok, err, pure, raise, ◌>>=◌}
use drukbox.Base.Keeps.{Outcome}
use drukbox.Exchange.Secret.{codes}
use drukbox.Accounts.{
  Account, Accounts, Site, AuthError, find_fingerprint, has_fingerprint, has_name, is_account_name,
  issue_token, insert_account, create_named, create_service_account, remove_service_account,
  authenticate, known,
}

find_fingerprint-new :
    (name fingerprint : String) (rows : List Account)
    → has_fingerprint fingerprint rows ≡ false
    → find_fingerprint fingerprint
        (rows ++ record { name = name; fingerprint = some fingerprint } ∷ [])
      ≡ some name
unfolding find_fingerprint
find_fingerprint-new name fingerprint [] h = rw ((eq_iff fingerprint fingerprint).1 refl) refl
find_fingerprint-new name fingerprint (a ∷ rows) h =
    elim (Bool-cases (opt_text_eq a.fingerprint (some fingerprint))) [
      | inl same ↦ absurd (ground (arith, same, h))
      | inr other ↦ rw other (find_fingerprint-new name fingerprint rows (ground (arith, other, h)))
    ]

account_name-text : (name : String) → is_account_name (codes name) ≡ true → is_text name ≡ true
unfolding is_account_name
account_name-text name h = elim (Bool-cases (str_eq name "")) [
  | inl blank ↦
      absurd (false≢true (ap (λ n. is_account_name (codes n)) (sym ((eq_iff name "").0 blank)) ∙ h))
  | inr text ↦ rw text refl
]

abbrev AuthenticatesAs : Site → String → List ℕ → Accounts → Type 0
AuthenticatesAs site name token s = (authenticate site token s).0 ≡ ok name

create_named-Authenticates :
    (site : Site) (name : String) (s : Accounts)
    → is_text name ≡ true
    → Outcome (AuthenticatesAs site name) (λ e s'. s'.rows ≡ s.rows) (create_named site name s)
unfolding create_named issue_token insert_account authenticate known ◌>>=◌
create_named-Authenticates site name s text =
    let fingerprint : String = site.sha256 (codes "drkb_" ++ site.token_urlsafe s.drawn) in
    elim (Bool-cases (has_name name s.rows || has_fingerprint fingerprint s.rows)) [
      | inl taken ↦ rw taken refl
      | inr free ↦
          rw free (
            rw (find_fingerprint-new name fingerprint s.rows (ground (arith, free))) (rw text refl))
    ]

-- The token of an account that was created authenticates as this account; when the account is not
-- created no row has changed.
pub create_service_account-authenticate :
    (site : Site) (name : String) (s : Accounts)
    → Outcome
        (AuthenticatesAs site name)
        (λ e s'. s'.rows ≡ s.rows)
        (create_service_account site name s)
unfolding create_service_account raise
create_service_account-authenticate site name s = elim (Bool-cases (is_account_name (codes name))) [
  | inr refused ↦ rw refused refl
  | inl allowed ↦
      rw allowed (create_named-Authenticates site name s (account_name-text name allowed))
]

-- A caller that is not this account.
abbrev pub IsOther : String → Result AuthError String → Type 0
IsOther name (ok caller) = str_eq caller name ≡ false
IsOther name (err e) = Unit

abbrev IsOtherName : String → Option String → Type 0
IsOtherName name none = Unit
IsOtherName name (some n) = str_eq n name ≡ false

known-IsOther :
    (name : String) (found : Option String) (s : Accounts)
    → IsOtherName name found
    → IsOther name (known found s).0
unfolding known pure raise
known-IsOther name none s h = tt
known-IsOther name (some n) s h = elim (Bool-cases (is_text n)) [
  | inl text ↦ rw text h
  | inr blank ↦ rw blank tt
]

find_fingerprint-gone :
    (name fingerprint : String) (rows : List Account)
    → IsOtherName name (find_fingerprint fingerprint (keep_if (λ a. not (str_eq a.name name)) rows))
unfolding find_fingerprint
find_fingerprint-gone name fingerprint [] = tt
find_fingerprint-gone name fingerprint (a ∷ rows) = elim (Bool-cases (str_eq a.name name)) [
  | inl gone ↦ rw gone (find_fingerprint-gone name fingerprint rows)
  | inr kept ↦ rw kept (elim (Bool-cases (opt_text_eq a.fingerprint (some fingerprint))) [
    | inl found ↦ rw found kept
    | inr other ↦ rw other (find_fingerprint-gone name fingerprint rows)
  ])
]

-- Once an account is removed no token authenticates as it; when it is not removed no row has
-- changed.
pub remove_service_account-authenticate :
    (site : Site) (name : String) (token : List ℕ) (s : Accounts)
    → Outcome
        (λ u s'. IsOther name (authenticate site token s').0)
        (λ e s'. s' ≡ s)
        (remove_service_account site name s)
unfolding remove_service_account authenticate ◌>>=◌
remove_service_account-authenticate site name token s = elim (Bool-cases (has_name name s.rows)) [
  | inr missing ↦ rw missing refl
  | inl there ↦ rw there (elim (Bool-cases (str_eq name "admin")) [
    | inl reserved ↦ rw reserved refl
    | inr removable ↦
        rw removable
          (known-IsOther name _ _ (find_fingerprint-gone name (site.sha256 token) s.rows))
  ])
]
