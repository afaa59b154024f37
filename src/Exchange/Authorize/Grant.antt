-- ===== src/Exchange/Authorize/Grant.antt =====
-- To whom `authorize` of src/secrets_exchange/app.py gives a credential.
use drukbox.Base.{
  ℕ, String, ◌≡◌, refl, some, List, [], ◌∷◌, str_eq, arith, Bool-cases, Option-cases, inl, inr,
  eq_iff,
}
use drukbox.Base.Op.{Result, ok, err, pure, attempt, caught, resume, ◌>>=◌}
use drukbox.Base.Keeps.{Outcome}
use drukbox.HostSecrets.Catalog.{Entry, Upstream, Service, service, credential}
use drukbox.HostSecrets.Placeholder.{Placeholder, read}
use drukbox.Hosts.Model.{Host}
use drukbox.Hosts.World.{find_host}
use drukbox.Exchange.Secret.{Secret}
use drukbox.Exchange.Table.{Table, Fault, refreshable, provider, unavailable, no_issuer, current}
use drukbox.Exchange.Table.Served.{IsEntryServed, current-IsEntryServed}
use drukbox.Exchange.Authorize.{
  Response, granted, Site, find_entry, find_upstream, answer, give, for_upstream, for_service,
  for_entry, for_host, for_placeholder, authorize,
}

-- Why a credential was given: the placeholder names a host that is there and a secret that is
-- registered for it, its own secret has the fingerprint of that entry, and the host to which the
-- request goes is one of the service's upstreams, whose header the credential is for.
-- The secret is the one that `Secrets.current` returned for the entry.
pub record Grant (site : Site) (authorization : List ℕ) (forwarded : String) (start t : Table)
    (host header given : String) : Type 0 where
  pub placeholder : Placeholder
  pub row : Host
  pub name : String
  pub entry : Entry
  pub fingerprint : String
  pub known : Service
  pub upstream : Upstream
  pub secret : Secret
  pub parsed : read authorization ≡ some placeholder
  pub there : find_host placeholder.host_id site.hosts ≡ some row
  pub registered : find_entry placeholder.service row.secrets ≡ some (name, entry)
  pub minted : entry.placeholder_fingerprint ≡ some fingerprint
  pub matches : site.sha256 placeholder.secret ≡ fingerprint
  pub of_service : service name entry ≡ some known
  pub goes_to : find_upstream forwarded known.upstreams ≡ some upstream
  pub same_host : host ≡ forwarded
  pub same_header : header ≡ upstream.auth_header
  pub returned : current site.world row name entry start ≡ (ok secret, t)
  pub served : IsEntryServed entry start.clock secret t
  pub carried : given ≡ credential site.base64 upstream secret.value

abbrev pub IsJustified : Site → List ℕ → String → Table → Response → Table → Type 0
IsJustified site authorization forwarded start (granted host header given) t =
    Grant site authorization forwarded start t host header given
IsJustified site authorization forwarded start _ t = Unit {0}

find_upstream-host :
    (forwarded : String) (us : List Upstream) (u : Upstream)
    → find_upstream forwarded us ≡ some u
    → u.host ≡ forwarded
unfolding find_upstream
find_upstream-host forwarded [] u h = absurd (ground arith)
find_upstream-host forwarded (x ∷ us) u h = elim (Option-cases (find_upstream forwarded us)) [
  | inr (later, found) ↦ find_upstream-host forwarded us u (ground (arith, found, h))
  | inl none_later ↦ elim (Bool-cases (str_eq x.host forwarded)) [
    | inl same ↦ ground (arith, none_later, same, h, eq_iff x.host forwarded)
    | inr other ↦ absurd (ground (arith, none_later, other, h))
  ]
]

module _ (site : Site) (authorization : List ℕ) (forwarded : String) (start : Table) where
  -- What the answer to the entry's secret is, however the secret was got.
  answer-IsJustified :
      (row : Host) (name : String) (entry : Entry) (upstream : Upstream)
      (r : Result Fault Secret × Table)
      → current site.world row name entry start ≡ r
      → ((secret : Secret) (t : Table)
          → current site.world row name entry start ≡ (ok secret, t)
          → IsEntryServed entry start.clock secret t
          → Grant site authorization forwarded start t upstream.host upstream.auth_header
              (credential site.base64 upstream secret.value))
      → Outcome (IsEntryServed entry start.clock) (λ e t. Unit {0}) r
      → Outcome
          (IsJustified site authorization forwarded start)
          (λ e t. ⊥)
          (resume (caught r) (answer site upstream))
  unfolding answer pure
  answer-IsJustified row name entry upstream (ok secret, t) same why served =
      why secret t same served
  answer-IsJustified row name entry upstream (err (refreshable f), t) same why served = tt
  answer-IsJustified row name entry upstream (err (provider p), t) same why served = tt
  answer-IsJustified row name entry upstream (err unavailable, t) same why served = tt
  answer-IsJustified row name entry upstream (err no_issuer, t) same why served = tt

  give-IsJustified :
      (row : Host) (name : String) (entry : Entry) (upstream : Upstream)
      → ((secret : Secret) (t' : Table)
          → current site.world row name entry start ≡ (ok secret, t')
          → IsEntryServed entry start.clock secret t'
          → Grant site authorization forwarded start t' upstream.host upstream.auth_header
              (credential site.base64 upstream secret.value))
      → Outcome
          (IsJustified site authorization forwarded start)
          (λ e t'. ⊥)
          (give site row name entry upstream start)
  unfolding give attempt ◌>>=◌
  give-IsJustified row name entry upstream why =
      answer-IsJustified row name entry upstream _ refl why
        (current-IsEntryServed site.world row name entry start)

  entry-IsJustified :
      (p : Placeholder) (row : Host) (name : String) (entry : Entry)
      → read authorization ≡ some p
      → find_host p.host_id site.hosts ≡ some row
      → find_entry p.service row.secrets ≡ some (name, entry)
      → Outcome
          (IsJustified site authorization forwarded start)
          (λ e t'. ⊥)
          (for_entry site forwarded p.secret row (some (name, entry)) start)
  unfolding for_entry for_service for_upstream pure
  entry-IsJustified p row name entry parsed there registered =
      elim (Option-cases entry.placeholder_fingerprint) [
        | inl unminted ↦ rw unminted tt
        | inr (fingerprint, minted) ↦
            rw minted (elim (Bool-cases (str_eq (site.sha256 p.secret) fingerprint)) [
              | inr other ↦ rw other tt
              | inl same ↦ rw same (elim (Option-cases (service name entry)) [
                | inl unknown ↦ rw unknown tt
                | inr (known, of_service) ↦
                    rw of_service (elim (Option-cases (find_upstream forwarded known.upstreams)) [
                      | inl elsewhere ↦ rw elsewhere tt
                      | inr (upstream, goes_to) ↦ rw goes_to (
                          give-IsJustified row name entry upstream λ secret t' returned served.
                            record {
                              placeholder = p;
                              row = row;
                              name = name;
                              entry = entry;
                              fingerprint = fingerprint;
                              known = known;
                              upstream = upstream;
                              secret = secret;
                              parsed = parsed;
                              there = there;
                              registered = registered;
                              minted = minted;
                              matches = (eq_iff (site.sha256 p.secret) fingerprint).0 same;
                              of_service = of_service;
                              goes_to = goes_to;
                              same_host =
                                  find_upstream-host forwarded known.upstreams upstream goes_to;
                              same_header = refl;
                              returned = returned;
                              served = served;
                              carried = refl;
                            })
                    ])
              ])
            ])
      ]

-- The exchange gives a credential only as `Grant` says, and it always answers: it never raises. The
-- value in the credential is the one that `Secrets.current` returned: the entry's static one, or the
-- value of a secret that was valid at a reading of the clock during the call.
pub authorize-IsJustified :
    (site : Site) (authorization : List ℕ) (forwarded : String) (t : Table)
    → Outcome
        (IsJustified site authorization forwarded t)
        (λ e t'. ⊥)
        (authorize site authorization forwarded t)
unfolding authorize for_placeholder for_host for_entry pure
authorize-IsJustified site authorization forwarded t = elim (Option-cases (read authorization)) [
  | inl unread ↦ rw unread tt
  | inr (p, parsed) ↦ rw parsed (elim (Option-cases (find_host p.host_id site.hosts)) [
    | inl gone ↦ rw gone tt
    | inr (row, there) ↦ rw there (elim (Option-cases (find_entry p.service row.secrets)) [
      | inl unknown ↦ rw unknown tt
      | inr ((name, entry), registered) ↦ rw registered (
          entry-IsJustified site authorization forwarded t p row name entry parsed there registered)
    ])
  ])
]
