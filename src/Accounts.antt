-- ===== src/Accounts.antt =====
-- service_accounts: the accounts, their tokens and the handlers of api.py, and src/hosts/auth.py, by
-- which the API knows its callers. A handler's statements run with no other request between.
pub mod Tokens
pub mod Rows
pub mod Sound
use drukbox.Base.{
  ℕ, suc, String, Bool, true, false, not, ◌&&◌, ◌||◌, Option, none, some, List, [], ◌∷◌, ◌++◌, leb,
  ◌==◌, if◌then◌else◌, str_eq, is_text, opt_text_eq, any, all, length, keep_if,
}
use drukbox.Base.Op.{Result, ok, err, Op, pure, raise, gets, modify, pass, attempt, ◌>>=◌, ◌>>◌}
use drukbox.Exchange.Secret.{codes}
use drukbox.HostSecrets.Placeholder.{code_eq}

-- A row of `service_accounts`.
pub record Account : Type 0 where
  pub name : String
  pub fingerprint : Option String

-- What the handlers raise, with the status of the response.
pub data AuthError : Type 0 where
  -- 422, a name that the pattern refuses
  invalid_name : AuthError
  -- ServiceAccountExistsError and ServiceAccountStateError, 409
  account_exists : AuthError
  account_state : AuthError
  -- ResourceNotFoundError, 404
  account_not_found : AuthError
  -- ServiceAccountTokenRejectedError, 403
  token_rejected : AuthError
  -- HTTPException 401, 403 and 503 of auth.py
  key_required : AuthError
  key_rejected : AuthError
  tokens_unavailable : AuthError

-- The rows, whether the database answers, and how many tokens were drawn.
pub record Accounts : Type 0 where
  pub rows : List Account
  pub reachable : Bool
  pub drawn : ℕ

-- SHA-256 in hexadecimal, `secrets.token_urlsafe(32)` by draw, and `settings.service_tokens`.
pub record Site : Type 0 where
  pub sha256 : List ℕ → String
  pub token_urlsafe : ℕ → List ℕ
  pub service_tokens : List (List ℕ)

abbrev pub Act : Type 0 → Type 0
Act A = Op Accounts AuthError A

-- `ServiceAccount.ADMIN`
abbrev pub admin : String
admin = "admin"

abbrev pub is_name_start : ℕ → Bool
is_name_start c = leb b'a' c && leb c b'z' || leb b'0' c && leb c b'9'

abbrev pub is_name_code : ℕ → Bool
is_name_code c = is_name_start c || c == b'-'

-- `SERVICE_ACCOUNT_NAME_PATTERN`
unfoldable pub is_account_name : List ℕ → Bool
is_account_name [] = false
is_account_name (c ∷ cs) = is_name_start c && all is_name_code cs && leb (length cs) 63

unfoldable pub find_fingerprint : String → List Account → Option String
find_fingerprint fingerprint [] = none
find_fingerprint fingerprint (a ∷ rows) =
    if opt_text_eq a.fingerprint (some fingerprint)
    then some a.name
    else find_fingerprint fingerprint rows

abbrev pub has_name : String → List Account → Bool
has_name name rows = any (λ a. str_eq a.name name) rows

abbrev pub has_fingerprint : String → List Account → Bool
has_fingerprint fingerprint rows = any (λ a. opt_text_eq a.fingerprint (some fingerprint)) rows

unfoldable pub known : Option String → Act String
known none = raise token_rejected
known (some name) = if is_text name then pure name else raise token_rejected

module _ (site : Site) where
  -- `issue_token`: the token; its fingerprint goes into the row.
  unfoldable pub issue_token : Act (List ℕ)
  issue_token = do
    n ← gets (λ s. s.drawn)
    modify (λ s. record s { drawn = suc s.drawn })
    pure (codes "drkb_" ++ site.token_urlsafe n)

  -- The commit of a new row: the names and the fingerprints are unique.
  unfoldable pub insert_account : Account → String → Act (Unit {0})
  insert_account account fingerprint = do
    rows ← gets (λ s. s.rows)
    if has_name account.name rows || has_fingerprint fingerprint rows
        then raise account_exists
        else modify (λ s. record s { rows = s.rows ++ account ∷ [] })

  unfoldable pub create_named : String → Act (List ℕ)
  unfolding issue_token insert_account
  create_named name = do
    token ← issue_token
    insert_account (record { name = name; fingerprint = some (site.sha256 token) })
        (site.sha256 token)
    pure token

  -- `create_service_account`
  unfoldable pub create_service_account : String → Act (List ℕ)
  unfolding create_named is_account_name
  create_service_account name =
      if is_account_name (codes name) then create_named name else raise invalid_name

  -- `remove_service_account`
  unfoldable pub remove_service_account : String → Act (Unit {0})
  remove_service_account name = do
    rows ← gets (λ s. s.rows)
    if has_name name rows
        then (if str_eq name admin
            then raise account_state
            else modify (λ s. record s { rows = keep_if (λ a. not (str_eq a.name name)) s.rows }))
        else raise account_not_found

  -- `ServiceAccount.authenticate`
  unfoldable pub authenticate : List ℕ → Act String
  unfolding known find_fingerprint
  authenticate token = do
    found ← gets (λ s. find_fingerprint (site.sha256 token) s.rows)
    known found

  -- `is_admin_key`: `compare_digest` tells equal bytes.
  unfoldable pub is_admin_key : List ℕ → Bool
  is_admin_key token = any (code_eq token) site.service_tokens

  unfoldable pub require_token : List ℕ → Act String
  unfolding authenticate
  require_token token = do
    reachable ← gets (λ s. s.reachable)
    if reachable then authenticate token else raise tokens_unavailable

  -- `require_auth`
  unfoldable pub require_auth : Option (List ℕ) → Act String
  unfolding require_token is_admin_key
  require_auth none = raise key_required
  require_auth (some token) = if is_admin_key token then pure admin else require_token token

  -- `require_admin_auth`
  unfoldable pub require_admin_auth : Option (List ℕ) → Act (Unit {0})
  unfolding is_admin_key
  require_admin_auth none = raise key_required
  require_admin_auth (some token) = if is_admin_key token then pass else raise key_rejected

-- A request to the router, with the credentials that `require_admin_auth` looks at first.
pub data Call : Type 0 where
  create : Option (List ℕ) → String → Call
  remove : Option (List ℕ) → String → Call

module _ (site : Site) where
  unfoldable pub serve : Call → Act (Unit {0})
  unfolding create_service_account remove_service_account require_admin_auth
  serve (create credentials name) = do
    require_admin_auth site credentials
    token ← create_service_account site name
    pass
  serve (remove credentials name) = do
    require_admin_auth site credentials
    remove_service_account site name

  unfoldable pub serve_all : List Call → Act (Unit {0})
  unfolding serve
  serve_all [] = pass
  serve_all (c ∷ cs) = do ended ← attempt (serve c); serve_all cs
