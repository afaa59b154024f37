-- ===== src/Exchange/Authorize.antt =====
-- src/secrets_exchange/app.py: what the proxy asks of the exchange, and the timer's round.
pub mod Grant
use drukbox.Base.{
  ℕ, String, Bool, true, false, not, ◌&&◌, Option, none, some, List, [], ◌∷◌, ◌++◌, if◌then◌else◌,
  str_eq, map, keep_if,
}
use drukbox.Base.Op.{Result, ok, err, pure, raise, gets, lift, modify, pass, attempt, ◌>>=◌, ◌>>◌}
use drukbox.HostSecrets.Catalog.{Entry, Upstream, Service, service, credential}
use drukbox.HostSecrets.Placeholder.{Placeholder, read, code_eq}
use drukbox.Providers.{Registry}
use drukbox.Hosts.Model.{Host, is_active}
use drukbox.Hosts.World.{find_host}
use drukbox.Exchange.Secret.{Secret, codes}
use drukbox.Exchange.Refreshable.{World}
use drukbox.Exchange.Table.{
  Table, Act, Fault, unavailable, no_issuer, current, push, forget_deleted_hosts,
}

-- The answers of `authorize`; the last one is the server's error on an uncaught KeyError.
pub data Response : Type 0 where
  forbidden : Response
  retry_after : Response
  granted : (host header credential : String) → Response
  server_error : Response

-- What the handlers read: the rows of `hosts`, SHA-256 in hexadecimal, base64 and the providers.
pub record Site : Type 0 where
  pub world : World
  pub hosts : List Host
  pub registry : Registry
  pub sha256 : List ℕ → String
  pub base64 : String → String

-- `host.secrets[placeholder.service]`
unfoldable pub find_entry : List ℕ → List (String × Entry) → Option (String × Entry)
find_entry name [] = none
find_entry name (e ∷ es) = if code_eq (codes e.0) name then some e else find_entry name es

-- `upstreams[x_forwarded_host]`: of two upstreams at one host the later one stands.
unfoldable pub find_upstream : String → List Upstream → Option Upstream
find_upstream host [] = none
find_upstream host (u ∷ us) = elim (find_upstream host us) [
  | some later ↦ some later
  | none ↦ if str_eq u.host host then some u else none
]

module _ (site : Site) where
  unfoldable pub answer : Upstream → Result Fault Secret → Act Response
  answer upstream (ok secret) =
      pure
        (granted upstream.host upstream.auth_header (credential site.base64 upstream secret.value))
  answer upstream (err unavailable) = pure retry_after
  answer upstream (err e) = pure server_error

  unfoldable pub give : Host → String → Entry → Upstream → Act Response
  unfolding answer
  give host name entry upstream = do
    secret ← attempt (current site.world host name entry)
    answer upstream secret

  unfoldable pub for_upstream : Host → String → Entry → Option Upstream → Act Response
  unfolding give
  for_upstream host name entry none = pure forbidden
  for_upstream host name entry (some upstream) = give host name entry upstream

  unfoldable pub for_service : String → Host → String → Entry → Option Service → Act Response
  unfolding for_upstream find_upstream
  for_service forwarded host name entry none = pure server_error
  for_service forwarded host name entry (some known) =
      for_upstream host name entry (find_upstream forwarded known.upstreams)

  -- The fingerprints are compared by `Placeholder.matches`.
  unfoldable pub for_entry : String → List ℕ → Host → Option (String × Entry) → Act Response
  unfolding for_service
  for_entry forwarded secret host none = pure forbidden
  for_entry forwarded secret host (some (name, entry)) = elim entry.placeholder_fingerprint [
    | none ↦ pure server_error
    | some fingerprint ↦
        if str_eq (site.sha256 secret) fingerprint
        then for_service forwarded host name entry (service name entry)
        else pure forbidden
  ]

  unfoldable pub for_host : String → Placeholder → Option Host → Act Response
  unfolding for_entry find_entry
  for_host forwarded p none = pure forbidden
  for_host forwarded p (some host) =
      for_entry forwarded p.secret host (find_entry p.service host.secrets)

  unfoldable pub for_placeholder : String → Option Placeholder → Act Response
  unfolding for_host
  for_placeholder forwarded none = pure forbidden
  for_placeholder forwarded (some p) = for_host forwarded p (find_host p.host_id site.hosts)

  -- `authorize`, on the two headers.
  unfoldable pub authorize : List ℕ → String → Act Response
  unfolding for_placeholder
  authorize authorization forwarded = for_placeholder forwarded (read authorization)

  -- `push_to_host`: a failure ends the round of this host and is logged.
  unfoldable pub push_entries : Host → List (String × Entry) → Act (Unit {0})
  push_entries host [] = pass
  push_entries host ((name, entry) ∷ entries) = do
    elim entry.issuer [ none ↦ pass | some issuer ↦ push site.world site.registry host name entry ]
    push_entries host entries

  unfoldable pub push_hosts : List Host → Act (Unit {0})
  unfolding push_entries
  push_hosts [] = pass
  push_hosts (h ∷ hs) = do ended ← attempt (push_entries h h.secrets); push_hosts hs

  -- `push_active_hosts`; the hosts are visited one after the other.
  unfoldable pub push_active_hosts : Act (Unit {0})
  unfolding push_hosts
  push_active_hosts = do
    forget_deleted_hosts site.world (map (λ h. h.id) site.hosts)
    push_hosts (keep_if (λ h. is_active h.status) site.hosts)
