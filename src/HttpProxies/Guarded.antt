-- ===== src/HttpProxies/Guarded.antt =====
-- When src/http_proxies/service.py calls exe.dev, and how what it says is answered.
use drukbox.Base.{
  ℕ, String, ◌≡◌, refl, ◌⊎◌, inl, inr, true, false, none, some, List, ◌∷◌, str_eq, Bool-cases,
  Option-cases, eq_iff, arith,
}
use drukbox.Base.Op.{Result, ok, err, Result-cases, raise, ◌>>=◌}
use drukbox.Base.Keeps.{Outcome}
use drukbox.Providers.{
  Provider, ProviderError, ProviderKind, get_vm_provider, target_vm_not_found, proxy_not_found,
}
use drukbox.Hosts.Model.{Host, HostStatus}
use drukbox.Hosts.World.{find_host}
use drukbox.HttpProxies.{
  ProxyError, proxy_unsupported, host_missing, host_without_vm, status_code, ProxyCall, attach,
  detach, Site, is_attachable, attachment_error, exe_only, exe_provider, call, bind,
  attach_http_proxy, detach_http_proxy,
}

-- A host of this status has a machine that a proxy can be attached to.
abbrev pub HasMachine : HostStatus → Type 0
HasMachine HostStatus.bootstrapping = Unit
HasMachine HostStatus.active = Unit
HasMachine _ = ⊥

-- exe.dev was asked, once, about a host that is there, has a machine by its status, and is on the
-- provider of this name.
pub record IsAsked (site : Site) (host_id : ℕ) (c : String → ProxyCall)
    (before after : List ProxyCall) (answer : Result ProviderError (Unit {0})) : Type 0 where
  pub row : Host
  pub vm : Provider
  pub there : find_host host_id site.hosts ≡ some row
  pub attachable : HasMachine row.status
  pub of_provider : get_vm_provider site.registry (some row.provider) ≡ ok vm
  pub on_exe : vm.name ≡ "exe"
  pub asked : after ≡ c row.name ∷ before
  pub answered : site.answer (c row.name) ≡ answer

-- The status of the response to an error of the provider.
abbrev pub code_for : ProviderKind → ℕ
code_for target_vm_not_found = 409
code_for proxy_not_found = 404
code_for _ = 503

-- The host's provider is not registered, or is another one.
abbrev pub IsElsewhere : Site → Host → Type 0
IsElsewhere site row =
    ((e : ProviderError) × (get_vm_provider site.registry (some row.provider) ≡ err e))
    ⊎ ((vm : Provider) × (get_vm_provider site.registry (some row.provider) ≡ ok vm)
        × (str_eq vm.name "exe" ≡ false))

-- Without a call the host is missing, has no machine or is on another provider, and the response has
-- the status of this.
abbrev pub IsRefused : Site → ℕ → ProxyError → Type 0
IsRefused site host_id host_missing =
    (find_host host_id site.hosts ≡ none) × (status_code host_missing ≡ 404)
IsRefused site host_id host_without_vm =
    (row : Host) × (find_host host_id site.hosts ≡ some row)
    × (¬ HasMachine row.status)
    × (status_code host_without_vm ≡ 409)
IsRefused site host_id proxy_unsupported =
    (row : Host) × (find_host host_id site.hosts ≡ some row)
    × HasMachine row.status
    × IsElsewhere site row
    × (status_code proxy_unsupported ≡ 501)
IsRefused site host_id _ = ⊥

abbrev pub IsBound : Site → ℕ → (String → ProxyCall) → List ProxyCall → List ProxyCall → Type 0
IsBound site host_id c before after = IsAsked site host_id c before after (ok tt)

abbrev pub IsUnbound :
    Site → ℕ → (String → ProxyCall) → List ProxyCall → ProxyError → List ProxyCall → Type 0
IsUnbound site host_id c before e after =
    ((after ≡ before) × IsRefused site host_id e)
    ⊎ ((p : ProviderError) × IsAsked site host_id c before after (err p)
        × (status_code e ≡ code_for p.kind))

attachment_code : (kind : ProviderKind) → status_code (attachment_error kind) ≡ code_for kind
unfolding status_code attachment_error
attachment_code ProviderKind.auth = refl
attachment_code ProviderKind.transport = refl
attachment_code ProviderKind.command = refl
attachment_code ProviderKind.not_found = refl
attachment_code ProviderKind.target_vm_not_found = refl
attachment_code ProviderKind.proxy_exists = refl
attachment_code ProviderKind.proxy_not_found = refl
attachment_code ProviderKind.unknown_provider = refl
attachment_code ProviderKind.capability_unsupported = refl
attachment_code ProviderKind.unsupported_sizing = refl

attachable-HasMachine : (status : HostStatus) → is_attachable status ≡ true → HasMachine status
unfolding is_attachable
attachable-HasMachine HostStatus.provisioning h = ground (arith, h)
attachable-HasMachine HostStatus.creating_network h = ground (arith, h)
attachable-HasMachine HostStatus.creating_vm h = ground (arith, h)
attachable-HasMachine HostStatus.bootstrapping h = tt
attachable-HasMachine HostStatus.active h = tt
attachable-HasMachine HostStatus.error h = ground (arith, h)

unattachable-HasMachine : (status : HostStatus) → is_attachable status ≡ false → ¬ HasMachine status
unfolding is_attachable
unattachable-HasMachine HostStatus.provisioning h = λ m. m
unattachable-HasMachine HostStatus.creating_network h = λ m. m
unattachable-HasMachine HostStatus.creating_vm h = λ m. m
unattachable-HasMachine HostStatus.bootstrapping h = absurd (ground (arith, h))
unattachable-HasMachine HostStatus.active h = absurd (ground (arith, h))
unattachable-HasMachine HostStatus.error h = λ m. m

bind-IsGuarded :
    (site : Site) (host_id : ℕ) (c : String → ProxyCall) (calls : List ProxyCall)
    → Outcome
        (λ u. IsBound site host_id c calls)
        (IsUnbound site host_id c calls)
        (bind site c (find_host host_id site.hosts) calls)
unfolding bind exe_provider exe_only call raise status_code ◌>>=◌
bind-IsGuarded site host_id c calls = elim (Option-cases (find_host host_id site.hosts)) [
  | inl gone ↦ rw gone (inl (refl, (gone, refl)))
  | inr (row, there) ↦ rw there (elim (Bool-cases (is_attachable row.status)) [
    | inr without ↦
        rw without (inl (refl, (row, there, unattachable-HasMachine row.status without, refl)))
    | inl attachable ↦
        let has_machine = attachable-HasMachine row.status attachable in
        rw attachable (elim (Result-cases (get_vm_provider site.registry (some row.provider))) [
          | inl (e, unknown) ↦
              rw unknown (inl (refl, (row, there, has_machine, inl (e, unknown), refl)))
          | inr (vm, known) ↦ rw known (elim (Bool-cases (str_eq vm.name "exe")) [
            | inr other ↦
                rw other (inl (refl, (row, there, has_machine, inr (vm, known, other), refl)))
            | inl same ↦ rw same (elim (Result-cases (site.answer (c row.name))) [
              | inl (p, failed) ↦ rw failed (
                  inr (
                    p,
                    record {
                      row = row;
                      vm = vm;
                      there = there;
                      attachable = has_machine;
                      of_provider = known;
                      on_exe = (eq_iff vm.name "exe").0 same;
                      asked = refl;
                      answered = failed;
                    },
                    attachment_code p.kind,
                  ))
              | inr (u, done) ↦ rw done (record {
                row = row;
                vm = vm;
                there = there;
                attachable = has_machine;
                of_provider = known;
                on_exe = (eq_iff vm.name "exe").0 same;
                asked = refl;
                answered = done;
              })
            ])
          ])
        ])
  ])
]

-- Attaching and detaching ask exe.dev exactly once, about the host's machine, if the host is there,
-- is bootstrapping or active and is on exe.dev; they return only if exe.dev did it, and what it
-- raises is answered with 409 for a machine that is not there, 404 for a proxy that is not there and
-- 503 otherwise. In every other case exe.dev is not asked, and the answer is 404 for a host that is not
-- there, 409 for one that is not bootstrapping or active, and 501 for one on another provider.
pub bind_http_proxy-IsGuarded :
    (site : Site) (name : String) (host_id : ℕ) (calls : List ProxyCall)
    → Outcome
        (λ u. IsBound site host_id (attach name) calls)
        (IsUnbound site host_id (attach name) calls)
        (attach_http_proxy site name host_id calls)
      × Outcome
          (λ u. IsBound site host_id (detach name) calls)
          (IsUnbound site host_id (detach name) calls)
          (detach_http_proxy site name host_id calls)
unfolding attach_http_proxy detach_http_proxy
bind_http_proxy-IsGuarded site name host_id calls = (
  bind-IsGuarded site host_id (attach name) calls,
  bind-IsGuarded site host_id (detach name) calls,
)
