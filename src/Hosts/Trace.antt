-- ===== src/Hosts/Trace.antt =====
-- The events of a run (src/hosts/service.py), read back from the log of the world, and the
-- statements that leave the log as it is.
pub mod Statuses
pub mod Provisioning
pub mod Teardown
use drukbox.Base.{
  ℕ, zero, suc, ◌/◌, ◌+◌, String, ◌≡◌, refl, Option, none, some, List, [], ◌∷◌, arith, update,
}
use drukbox.Base.Op.{Result, ok, err, gets, modify, ◌>>=◌}
use drukbox.Base.Keeps.{
  Keeps, keeps_rules, Keeps-bind, Keeps-if, Keeps-raise, Keeps-pure, Keeps-attempt, Keeps-gets,
  Keeps-lift, Keeps-modify,
}
use drukbox.Exchange.Secret.{Issuer}
use drukbox.HostSecrets.Catalog.{Entry}
use drukbox.Providers.{Provider, ProviderError}
use drukbox.Providers.Environment.{Variables}
use drukbox.Hosts.Model.{Host, HostStatus, Error}
use drukbox.Hosts.World.{
  Env, World, Db, Event, NetworkFault, Tailscale, await_others, utc_now, sleep, query, store,
}
use drukbox.Hosts.Session.{
  vm_of, provider_call, network_call, commit_host, get_host, refresh, insert_host,
}
use drukbox.Hosts.KeyScan.{scan_result, scan_round, scan_rounds, scan_known_hosts, scan_targets}
use drukbox.Hosts.Provision.{value_or_fetch, current_value, put_secret, put_secrets, Fingerprinted}

-- A condition on the log alone.
pub record Logged (L : List Event → Type 0) (w : World) : Type 0 where
  pub events : L w.log

module _ (env : Env) {L : List Event → Type 0} where
  pub await_others-Logged : Keeps (Logged L) (await_others env)
  unfolding await_others modify
  await_others-Logged = record { at = λ s h. record { events = h.events } }

  pub utc_now-Logged : Keeps (Logged L) (utc_now env)
  unfolding utc_now
  utc_now-Logged = record { at = λ s h. record { events = h.events } }

  pub query-Logged : {A : Type 0} (f : Db → A) → Keeps (Logged L) (query env f)
  unfolding query
  query-Logged f = Keeps-gets _

  pub store-Logged : (f : Db → Db) → Keeps (Logged L) (store env f)
  unfolding store modify
  store-Logged f = record { at = λ s h. record { events = h.events } }

  pub sleep-Logged : (n : ℕ) → Keeps (Logged L) (sleep env n)
  unfolding sleep
  sleep-Logged n =
      Keeps-bind _ _ (Keeps-modify _ (λ s h. record { events = h.events }))
        (λ _. await_others-Logged)

  pub vm_of-Logged : (name : Option String) → Keeps (Logged L) (vm_of env name)
  unfolding vm_of
  vm_of-Logged name = Keeps-lift _

  pub provider_call-Logged :
      {A : Type 0} (r : Result ProviderError A) → Keeps (Logged L) (provider_call env r)
  unfolding provider_call
  provider_call-Logged r = Keeps-bind _ _ await_others-Logged (λ _. Keeps-lift _)

  pub network_call-Logged :
      {A : Type 0} (r : Result NetworkFault A) → Keeps (Logged L) (network_call env r)
  unfolding network_call
  network_call-Logged r = Keeps-bind _ _ await_others-Logged (λ _. Keeps-lift _)

  pub ruleset logged_rules = (
    keeps_rules, await_others-Logged, utc_now-Logged, query-Logged, store-Logged, sleep-Logged,
    vm_of-Logged, provider_call-Logged, network_call-Logged,
  )

  pub commit_host-Logged : (i : ℕ) (f : Host → Host) → Keeps (Logged L) (commit_host env i f)
  unfolding commit_host
  commit_host-Logged i f = search logged_rules depth 12

  scan_result-Logged : (o : Option (String × String)) → Keeps (Logged L) (scan_result env o)
  unfolding scan_result
  scan_result-Logged none = Keeps-raise _
  scan_result-Logged (some out) = Keeps-pure _

  scan_round-Logged : (targets : List (String × ℕ)) → Keeps (Logged L) (scan_round env targets)
  unfolding scan_round
  scan_round-Logged [] = Keeps-pure _
  scan_round-Logged ((h, p) ∷ targets) = Keeps-bind _ _ await_others-Logged λ _.
      Keeps-bind _ _ (Keeps-gets _) λ turn.
        Keeps-bind _ _ (scan_result-Logged _)
          λ scanned. Keeps-bind _ _ (scan_round-Logged targets) (λ rest. Keeps-pure _)

  scan_rounds-Logged :
      (n : ℕ) (targets : List (String × ℕ)) (deadline : ℕ)
      → Keeps (Logged L) (scan_rounds env n targets deadline)
  unfolding scan_rounds
  scan_rounds-Logged zero targets deadline = Keeps-raise _
  scan_rounds-Logged (suc n) targets deadline = Keeps-bind _ _ (scan_round-Logged targets) λ out.
      Keeps-if _ _ _ (Keeps-pure _) (
        Keeps-bind _ _ utc_now-Logged λ now.
          Keeps-if _ _ _ (Keeps-raise _)
            (Keeps-bind _ _ (sleep-Logged 500) (λ _. scan_rounds-Logged n targets deadline)))

  pub scan_known_hosts-Logged :
      (vm : Provider) (h : Host) → Keeps (Logged L) (scan_known_hosts env vm h)
  unfolding scan_known_hosts
  scan_known_hosts-Logged vm h = search (logged_rules, scan_rounds-Logged) depth 12

  value_or_fetch-Logged :
      (value : Option String) (issuer : Option Issuer)
      → Keeps (Logged L) (value_or_fetch env value issuer)
  unfolding value_or_fetch
  value_or_fetch-Logged (some value) issuer = Keeps-pure _
  value_or_fetch-Logged none none = Keeps-raise _
  value_or_fetch-Logged none (some issuer) = search logged_rules depth 14

  put_secret-Logged :
      (vm : Provider) (host : Host) (name : String) (entry : Entry) (placeholder : List ℕ)
      → Keeps (Logged L) (put_secret env vm host name entry placeholder)
  unfolding put_secret current_value
  put_secret-Logged vm host name entry placeholder =
      search (logged_rules, value_or_fetch-Logged) depth 14

  pub put_secrets-Logged :
      (vm : Provider) (host : Host) (entries : Fingerprinted) (environment : Variables)
      → Keeps (Logged L) (put_secrets env vm host entries environment)
  unfolding put_secrets
  put_secrets-Logged vm host [] environment = Keeps-pure _
  put_secrets-Logged vm host ((name, entry) ∷ entries) environment =
      Keeps-bind _ _ (Keeps-gets _) λ turn.
        Keeps-bind _ _ (Keeps-attempt _ (put_secret-Logged vm host name entry _)) (elim [
          | err e ↦ Keeps-pure _
          | ok more ↦
              Keeps-bind _ _ (put_secrets-Logged vm host entries (update environment more))
                (λ rest. Keeps-pure _)
        ])
