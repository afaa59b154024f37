-- ===== src/Accounts/Sound.antt =====
-- service_accounts: what every sequence of requests keeps.
use drukbox.Base.{
  ℕ, String, ◌≡◌, Bool, true, false, not, ◌||◌, Option, none, some, List, [], ◌∷◌, ◌++◌, str_eq,
  is_text, opt_text_eq, any, arith, inl, inr, Bool-cases,
}
use drukbox.Base.Op.{pure, raise, ◌>>=◌}
use drukbox.Base.Keeps.{
  Keeps, keeps_rules, Keeps-bind, Keeps-attempt, Keeps-raise, Keeps-pass, Keeps-if,
}
use drukbox.Exchange.Secret.{codes}
use drukbox.Accounts.{
  Account, Accounts, Site, invalid_name, key_required, key_rejected, find_fingerprint,
  has_fingerprint, has_name, is_admin_key, issue_token, insert_account, create_named,
  create_service_account, remove_service_account, authenticate, known, require_admin_auth,
  require_auth, require_token, Call, create, remove, serve, serve_all,
}
use drukbox.Accounts.Tokens.{IsOther}
use drukbox.Accounts.Rows.{IsSound, is_guarded, IsSound-new, IsSound-without}

module _ (site : Site) where
  IsKept : Accounts → Type 0
  IsKept s = IsSound s.rows

  create_named-IsSound : (name : String) → Keeps IsKept (create_named site name)
  unfolding create_named issue_token insert_account IsKept ◌>>=◌
  create_named-IsSound name = record {
    at = λ s sound.
        let fingerprint : String = site.sha256 (codes "drkb_" ++ site.token_urlsafe s.drawn) in
        (elim (Bool-cases (has_name name s.rows || has_fingerprint fingerprint s.rows)) [
          | inl taken ↦ rw taken sound
          | inr free ↦ rw free (
              IsSound-new s.rows name fingerprint sound (ground (arith, free))
                (ground (arith, free)))
        ]);
  }

  remove-IsSound : (name : String) → Keeps IsKept (remove_service_account site name)
  unfolding remove_service_account IsKept ◌>>=◌
  remove-IsSound name = record {
    at = λ s sound. elim (Bool-cases (has_name name s.rows)) [
      | inr missing ↦ rw missing sound
      | inl there ↦ rw there (elim (Bool-cases (str_eq name "admin")) [
        | inl reserved ↦ rw reserved sound
        | inr removable ↦ rw removable (IsSound-without name s.rows removable sound)
      ])
    ];
  }

  require_admin_auth-IsSound :
      (credentials : Option (List ℕ)) → Keeps IsKept (require_admin_auth site credentials)
  unfolding require_admin_auth
  require_admin_auth-IsSound none = Keeps-raise key_required
  require_admin_auth-IsSound (some token) = Keeps-if _ _ _ Keeps-pass (Keeps-raise key_rejected)

  create-IsSound : (name : String) → Keeps IsKept (create_service_account site name)
  unfolding create_service_account
  create-IsSound name = Keeps-if _ _ _ (create_named-IsSound name) (Keeps-raise invalid_name)

  serve-IsSound : (c : Call) → Keeps IsKept (serve site c)
  unfolding serve
  serve-IsSound (create credentials name) =
      search (keeps_rules, require_admin_auth-IsSound, create-IsSound)
  serve-IsSound (remove credentials name) =
      search (keeps_rules, require_admin_auth-IsSound, remove-IsSound)

  serve_all-Keeps : (cs : List Call) → Keeps IsKept (serve_all site cs)
  unfolding serve_all
  serve_all-Keeps [] = Keeps-pass
  serve_all-Keeps (c ∷ cs) =
      Keeps-bind _ _ (Keeps-attempt _ (serve-IsSound c)) λ ended. serve_all-Keeps cs

-- No sequence of requests to the router takes the admin account away or gives it a token, or makes
-- two accounts with one name or one fingerprint, if that holds of the rows at first.
pub serve_all-IsSound :
    (site : Site) (calls : List Call) (s : Accounts)
    → IsSound s.rows
    → IsSound (serve_all site calls s).1.rows
unfolding IsKept
serve_all-IsSound site calls s sound = (serve_all-Keeps site calls).at s sound

abbrev IsUnlike : Option String → Type 0
IsUnlike none = Unit
IsUnlike (some name) = str_eq name "admin" ≡ false

matched_unlike :
    (name fingerprint : String) (o : Option String)
    → not (is_guarded (record { name = name; fingerprint = o })) ≡ false
    → opt_text_eq o (some fingerprint) ≡ true
    → str_eq name "admin" ≡ false
matched_unlike name fingerprint none guarded found = absurd (ground arith)
matched_unlike name fingerprint (some f) guarded found = ground (arith, guarded)

find_fingerprint-IsUnlike :
    (fingerprint : String) (rows : List Account)
    → any (λ a. not (is_guarded a)) rows ≡ false
    → IsUnlike (find_fingerprint fingerprint rows)
unfolding find_fingerprint
find_fingerprint-IsUnlike fingerprint [] h = tt
find_fingerprint-IsUnlike fingerprint (a ∷ rows) h =
    elim (Bool-cases (opt_text_eq a.fingerprint (some fingerprint))) [
      | inr other ↦ rw other (find_fingerprint-IsUnlike fingerprint rows (ground (arith, h)))
      | inl found ↦
          rw found (matched_unlike a.name fingerprint a.fingerprint (ground (arith, h)) found)
    ]

known-IsUnlike :
    (found : Option String) (s : Accounts) → IsUnlike found → IsOther "admin" (known found s).0
unfolding known pure raise
known-IsUnlike none s h = tt
known-IsUnlike (some n) s h = elim (Bool-cases (is_text n)) [
  | inl text ↦ rw text h
  | inr blank ↦ rw blank tt
]

abbrev pub has_admin_key : Site → Option (List ℕ) → Bool
has_admin_key site none = false
has_admin_key site (some token) = is_admin_key site token

require_token-IsOther :
    (site : Site) (token : List ℕ) (s : Accounts)
    → IsSound s.rows
    → IsOther "admin" (require_token site token s).0
unfolding require_token authenticate raise ◌>>=◌
require_token-IsOther site token s sound = elim (Bool-cases s.reachable) [
  | inr down ↦ rw down tt
  | inl up ↦
      rw up
        (known-IsUnlike _ _ (find_fingerprint-IsUnlike (site.sha256 token) s.rows sound.guarded))
]

-- After any requests to the router, a caller without an admin key is never taken for the admin
-- account, whatever its credentials are, if the admin account had no token at first.
pub require_auth-IsOther :
    (site : Site) (calls : List Call) (credentials : Option (List ℕ)) (s : Accounts)
    → IsSound s.rows
    → has_admin_key site credentials ≡ false
    → IsOther "admin" (require_auth site credentials (serve_all site calls s).1).0
unfolding require_auth raise pure
require_auth-IsOther site calls none s sound h = tt
require_auth-IsOther site calls (some token) s sound h =
    rw h (require_token-IsOther site token _ (serve_all-IsSound site calls s sound))
