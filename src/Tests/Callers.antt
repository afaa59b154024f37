-- ===== src/Tests/Callers.antt =====
-- The theorems about the callers of the API and their requests, at concrete inputs.
use drukbox.Base.{◌≡◌, refl, none, some, List, [], ◌∷◌, true, false}
use drukbox.Base.Op.{ok}
use drukbox.Base.Keeps.{Outcome}
use drukbox.Exchange.Secret.{codes}
use drukbox.Accounts.{
  Accounts, Site, Call, create, remove, authenticate, create_service_account,
  remove_service_account, require_auth, serve_all, is_admin_key,
}
use drukbox.Accounts.Tokens.{
  IsOther, create_service_account-authenticate, remove_service_account-authenticate,
}
use drukbox.Accounts.Rows.{IsSound}
use drukbox.Accounts.Sound.{has_admin_key, serve_all-IsSound, require_auth-IsOther}
use drukbox.HttpProxies as Http
use drukbox.HttpProxies.{attach, detach, attach_http_proxy, detach_http_proxy}
use drukbox.HttpProxies.Guarded.{IsBound, IsUnbound, bind_http_proxy-IsGuarded}
use drukbox.Requests.SecretEntry.{SecretEntry}
use drukbox.Requests.HostCreate.{check_secrets}
use drukbox.Requests.HostCreate.Served.{IsChecked, check_secrets-IsChecked}
use drukbox.Tests.Samples.{docker, warm_host}

abbrev site : Site
site = record {
  sha256 = λ text. "digest";
  token_urlsafe = λ n. n ∷ [];
  service_tokens = codes "key" ∷ [];
}

abbrev accounts : Accounts
accounts = record {
  rows = record { name = "admin"; fingerprint = none } ∷ [];
  reachable = true;
  drawn = 7;
}

accounts-IsSound : IsSound accounts.rows
accounts-IsSound = record { unique = (refl, refl, tt); admin_kept = refl; guarded = refl }

abbrev calls : List Call
calls = create (some (codes "key")) "ci" ∷ remove (some (codes "key")) "admin" ∷ []

create_service_account-authenticate_example :
    Outcome
      (λ token s. (authenticate site token s).0 ≡ ok "ci")
      (λ e s'. s'.rows ≡ accounts.rows)
      (create_service_account site "ci" accounts)
create_service_account-authenticate_example = create_service_account-authenticate site "ci" accounts

remove_service_account-authenticate_example :
    Outcome
      (λ u s'. IsOther "ci" (authenticate site (codes "drkb_") s').0)
      (λ e s'. s' ≡ accounts)
      (remove_service_account site "ci" accounts)
remove_service_account-authenticate_example =
    remove_service_account-authenticate site "ci" (codes "drkb_") accounts

serve_all-IsSound_example : IsSound (serve_all site calls accounts).1.rows
serve_all-IsSound_example = serve_all-IsSound site calls accounts accounts-IsSound

other_key : has_admin_key site (some (codes "other")) ≡ false
unfolding is_admin_key
other_key = refl

require_auth-IsOther_example :
    IsOther "admin" (require_auth site (some (codes "other")) (serve_all site calls accounts).1).0
require_auth-IsOther_example =
    require_auth-IsOther site calls (some (codes "other")) accounts accounts-IsSound other_key

abbrev proxies : Http.Site
proxies = record {
  registry = record {
    factories = ("docker", record docker { name = "exe" }) ∷ [];
    default_host_provider = "docker";
  };
  answer = λ c. ok tt;
  hosts = warm_host ∷ [];
}

bind_http_proxy-IsGuarded_example :
    Outcome
      (λ u. IsBound proxies warm_host.id (attach "p") [])
      (IsUnbound proxies warm_host.id (attach "p") [])
      (attach_http_proxy proxies "p" warm_host.id [])
    × Outcome
        (λ u. IsBound proxies warm_host.id (detach "p") [])
        (IsUnbound proxies warm_host.id (detach "p") [])
        (detach_http_proxy proxies "p" warm_host.id [])
bind_http_proxy-IsGuarded_example = bind_http_proxy-IsGuarded proxies "p" warm_host.id []

abbrev entry : SecretEntry
entry = record {
  host = none;
  auth_variable = none;
  auth_header = "Authorization";
  auth_prefix = "Bearer ";
  value = some "v";
  issuer = none;
  service_fields = false;
}

-- Two names for one service are refused, one is not.
github_accepted : check_secrets [] (("github", entry) ∷ []) ≡ ok tt
unfolding check_secrets
github_accepted = refl

check_secrets-IsChecked_example :
    IsChecked [] (("github", entry) ∷ []) (check_secrets [] (("github", entry) ∷ []))
check_secrets-IsChecked_example = check_secrets-IsChecked [] (("github", entry) ∷ [])
