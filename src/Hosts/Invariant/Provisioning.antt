-- ===== src/Hosts/Invariant/Provisioning.antt =====
-- `provision` of src/hosts/service.py keeps the database sound, however it ends.
use drukbox.Base.{
  ℕ, zero, suc, ◌+◌, ◌/◌, String, ◌≡◌, refl, Option, none, some, List, [], ◌∷◌, arith, update,
}
use drukbox.Base.Op.{Result, ok, err}
use drukbox.Base.Keeps.{
  Keeps, Keeps-bind, Keeps-if, Keeps-raise, Keeps-pure, Keeps-attempt, Keeps-gets, Keeps-lift,
}
use drukbox.Exchange.Secret.{Issuer, missing_secret, key_error}
use drukbox.HostSecrets.Catalog.{Entry}
use drukbox.Providers.{Provider, VmCreateResult}
use drukbox.Providers.Environment.{Variables}
use drukbox.Hosts.Model.{
  Host, HostStatus, Error, provider_error, issuer_fault, invalid_env, host_key_scan,
}
use drukbox.Hosts.World.{Env, Tailscale}
use drukbox.Hosts.KeyScan.{scan_result, scan_round, scan_rounds, scan_known_hosts, scan_targets}
use drukbox.Hosts.Provision.{
  mark_failed, give_up, value_or_fetch, put_secret, put_secrets, activate, discover, boot,
  create_vm, secrets_failed, with_secrets, join_tailnet, provision, reachable, touched,
  with_entries, with_device, activated, create_persisted, create_with, Fingerprinted,
}
use drukbox.Hosts.Invariant.Defs.{OthersKeep, Sound}
use drukbox.Hosts.Invariant.Statements.{
  await_others-Sound, utc_now-Sound, note-Sound, sleep-Sound, vm_of-Sound, provider_call-Sound,
  network_call-Sound, commit_host-Sound, commit_status-Sound, commit_named-Sound,
}

module _ (env : Env) (rely : OthersKeep env) where
  scan_result-Sound : (o : Option (String × String)) → Keeps Sound (scan_result env o)
  unfolding scan_result
  scan_result-Sound none = Keeps-raise _
  scan_result-Sound (some out) = Keeps-pure _

  scan_round-Sound : (targets : List (String × ℕ)) → Keeps Sound (scan_round env targets)
  unfolding scan_round
  scan_round-Sound [] = Keeps-pure _
  scan_round-Sound ((h, p) ∷ targets) = Keeps-bind _ _ (await_others-Sound env rely) λ _.
      Keeps-bind _ _ (Keeps-gets _) λ turn.
        Keeps-bind _ _ (scan_result-Sound _)
          λ scanned. Keeps-bind _ _ (scan_round-Sound targets) (λ rest. Keeps-pure _)

  scan_rounds-Sound :
      (n : ℕ) (targets : List (String × ℕ)) (deadline : ℕ)
      → Keeps Sound (scan_rounds env n targets deadline)
  unfolding scan_rounds
  scan_rounds-Sound zero targets deadline = Keeps-raise _
  scan_rounds-Sound (suc n) targets deadline = Keeps-bind _ _ (scan_round-Sound targets) λ scanned.
      Keeps-if _ _ _ (Keeps-pure _) (
        Keeps-bind _ _ (utc_now-Sound env rely) λ now.
          Keeps-if _ _ _ (Keeps-raise _)
            (Keeps-bind _ _ (sleep-Sound env rely 500) (λ _. scan_rounds-Sound n targets deadline)))

  scan_known_hosts-Sound : (vm : Provider) (h : Host) → Keeps Sound (scan_known_hosts env vm h)
  unfolding scan_known_hosts
  scan_known_hosts-Sound vm h = Keeps-bind _ _ (utc_now-Sound env rely) λ now.
      scan_rounds-Sound (suc (suc (vm.bootstrap_ssh_timeout / 500))) (scan_targets h)
        (now + vm.bootstrap_ssh_timeout)

  -- What an instance may have pending when its failure is committed.
  abbrev IsPending : (Host → Host) → Type 0
  IsPending f =
      (h : Host)
      → ((f h).id ≡ h.id)
        × ((f h).name ≡ h.name)
        × ((f h).pool_member ≡ h.pool_member)
        × ((f h).claimed_at ≡ h.claimed_at)
        × ((f h).service_account ≡ h.service_account)

  mark_failed-Sound :
      (i : ℕ) (f : Host → Host) (exc : Error) → IsPending f → Keeps Sound (mark_failed env i f exc)
  unfolding mark_failed
  mark_failed-Sound i f exc p = Keeps-bind _ _ (utc_now-Sound env rely) λ now.
      commit_status-Sound env rely i HostStatus.error _ (λ h. ((p h).0, λ r. ground (arith, p h)))
        (λ h. (p h).1)

  give_up-Sound :
      (i : ℕ) (f : Host → Host) (exc : Error) → IsPending f → Keeps Sound (give_up env i f exc)
  unfolding give_up
  give_up-Sound i f exc p = Keeps-bind _ _ (mark_failed-Sound i f exc p) (λ _. Keeps-pure _)

  -- Nothing is pending.
  unchanged : IsPending (λ h. h)
  unchanged h = (refl, refl, refl, refl, refl)

  value_or_fetch-Sound :
      (v : Option String) (o : Option Issuer) → Keeps Sound (value_or_fetch env v o)
  unfolding value_or_fetch
  value_or_fetch-Sound (some value) o = Keeps-pure _
  value_or_fetch-Sound none none = Keeps-raise _
  value_or_fetch-Sound none (some issuer) = Keeps-bind _ _ (await_others-Sound env rely) λ _.
      Keeps-bind _ _ (Keeps-gets _) λ turn. Keeps-bind _ _ (utc_now-Sound env rely) λ now.
        Keeps-bind _ _ (utc_now-Sound env rely)
          λ later. Keeps-bind _ _ (Keeps-lift _) (λ secret. Keeps-pure _)

  put_secret-Sound :
      (vm : Provider) (h : Host) (name : String) (entry : Entry) (placeholder : List ℕ)
      → Keeps Sound (put_secret env vm h name entry placeholder)
  unfolding put_secret
  put_secret-Sound vm h name entry placeholder =
      Keeps-bind _ _ (Keeps-if vm.needs_value _ _ (value_or_fetch-Sound _ _) (Keeps-pure _))
        λ value. Keeps-bind _ _ (Keeps-lift _) (λ known. provider_call-Sound env rely _)

  put_secrets-Sound :
      (vm : Provider) (h : Host) (entries : List (String × Entry)) (environment : Variables)
      → Keeps Sound (put_secrets env vm h entries environment)
  unfolding put_secrets
  put_secrets-Sound vm h [] environment = Keeps-pure _
  put_secrets-Sound vm h ((name, entry) ∷ entries) environment =
      Keeps-bind _ _ (Keeps-gets _) λ turn.
        Keeps-bind _ _ (Keeps-attempt _ (put_secret-Sound vm h name entry _)) (elim [
          | err e ↦ Keeps-pure _
          | ok more ↦
              Keeps-bind _ _ (put_secrets-Sound vm h entries (update environment more))
                (λ rest. Keeps-pure _)
        ])

  activate-Sound : (vm : Provider) (h : Host) → Keeps Sound (activate env vm h)
  unfolding activate
  activate-Sound vm h = Keeps-bind _ _ (Keeps-attempt _ (scan_known_hosts-Sound vm h)) (elim [
    | err (host_key_scan text) ↦ mark_failed-Sound h.id (λ x. x) _ unchanged
    | err _ ↦ Keeps-raise _
    | ok known_hosts ↦ Keeps-bind _ _ (utc_now-Sound env rely) λ now.
        Keeps-bind _ _ (utc_now-Sound env rely) λ later.
          commit_status-Sound env rely h.id HostStatus.active (activated known_hosts now later)
            (λ x. (refl, λ r. ground arith)) (λ x. refl)
  ])

  discover-Sound :
      (vm : Provider) (t : Option Tailscale) (h : Host) → Keeps Sound (discover env vm t h)
  unfolding discover
  discover-Sound vm none h = activate-Sound vm h
  discover-Sound vm (some tailscale) h =
      Keeps-bind _ _ (Keeps-attempt _ (network_call-Sound env rely _)) (elim [
        | err e ↦ mark_failed-Sound h.id (λ x. x) _ unchanged
        | ok device ↦ Keeps-bind _ _ (utc_now-Sound env rely) λ now.
            Keeps-bind _ _
              (commit_host-Sound env rely h.id (with_device (some device) now) (λ x. (refl, λ r. r))
                (λ x. refl))
              (λ _. activate-Sound vm h)
      ])

  boot-Sound :
      (vm : Provider) (t : Option Tailscale) (h : Host) (result : VmCreateResult)
      → Keeps Sound (boot env vm t h result)
  unfolding boot
  boot-Sound vm t h result = Keeps-bind _ _ (note-Sound env rely _) λ _.
      Keeps-bind _ _ (utc_now-Sound env rely) λ now.
        Keeps-bind _ _
          (commit_named-Sound env rely h.id HostStatus.bootstrapping result.name
            (λ x. touched now (reachable env vm t result x)) (λ x. (refl, λ r. ground arith)))
          λ _. Keeps-bind _ _ (discover-Sound vm t _) (λ _. Keeps-pure _)

  create_vm-Sound :
      (vm : Provider) (t : Option Tailscale) (h : Host) (environment : Variables)
      (script : Option String)
      → Keeps Sound (create_vm env vm t h environment script)
  unfolding create_vm
  create_vm-Sound vm t h environment script = Keeps-bind _ _ (utc_now-Sound env rely) λ now.
      Keeps-bind _ _
        (commit_status-Sound env rely h.id HostStatus.creating_vm
          (λ x. touched now (with_entries h.secrets x)) (λ x. (refl, λ r. ground arith))
          (λ x. refl))
        λ _. Keeps-if _ _ _ (give_up-Sound h.id (λ x. x) _ unchanged) (
          Keeps-bind _ _ (Keeps-attempt _ (provider_call-Sound env rely _)) (elim [
            | err e ↦ give_up-Sound h.id (λ x. x) _ unchanged
            | ok result ↦ boot-Sound vm t h result
          ]))

  secrets_failed-Sound :
      (i : ℕ) (f : Host → Host) (exc : Error)
      → IsPending f
      → Keeps Sound (secrets_failed env i f exc)
  unfolding secrets_failed
  secrets_failed-Sound i f (issuer_fault key_error) p = Keeps-raise _
  secrets_failed-Sound i f (issuer_fault (missing_secret text)) p =
      Keeps-bind _ _ (mark_failed-Sound i f _ p) (λ _. Keeps-raise _)
  secrets_failed-Sound i f (issuer_fault _) p = give_up-Sound i f _ p
  secrets_failed-Sound i f (provider_error e) p = give_up-Sound i f _ p
  secrets_failed-Sound i f (invalid_env text) p = give_up-Sound i f _ p
  secrets_failed-Sound i f _ p = Keeps-raise _

  entries-IsPending : (entries : Fingerprinted) → IsPending (with_entries entries)
  entries-IsPending entries h = (refl, refl, refl, refl, refl)

  create_persisted-Sound :
      (vm : Provider) (t : Option Tailscale) (h : Host) (environment : Variables)
      (script : Option String) (r : Result Error (Unit {0}))
      → Keeps Sound (create_persisted env vm t h environment script r)
  unfolding create_persisted
  create_persisted-Sound vm t h environment script (err e) =
      secrets_failed-Sound h.id (with_entries h.secrets) e (entries-IsPending h.secrets)
  create_persisted-Sound vm t h environment script (ok _) =
      create_vm-Sound vm t h environment script

  create_with-Sound :
      (vm : Provider) (t : Option Tailscale) (h : Host) (environment : Variables)
      (script : Option String) (r : Result Error Variables)
      → Keeps Sound (create_with env vm t h environment script r)
  unfolding create_with
  create_with-Sound vm t h environment script (err e) =
      secrets_failed-Sound h.id (with_entries h.secrets) e (entries-IsPending h.secrets)
  create_with-Sound vm t h environment script (ok more) =
      create_persisted-Sound vm t h (update environment more) script _

  with_secrets-Sound :
      (vm : Provider) (t : Option Tailscale) (h : Host) (environment : Variables)
      (script : Option String)
      → Keeps Sound (with_secrets env vm t h environment script)
  unfolding with_secrets
  with_secrets-Sound vm t h environment script =
      Keeps-bind _ _ (put_secrets-Sound vm h h.secrets [])
        λ put. create_with-Sound vm t (with_entries put.0 h) environment script put.1

  join_tailnet-Sound :
      (vm : Provider) (t : Option Tailscale) (h : Host) → Keeps Sound (join_tailnet env vm t h)
  unfolding join_tailnet
  join_tailnet-Sound vm none h = with_secrets-Sound vm none h h.env none
  join_tailnet-Sound vm (some tailscale) h =
      Keeps-bind _ _ (Keeps-attempt _ (network_call-Sound env rely _)) (elim [
        | err e ↦ give_up-Sound h.id (λ x. x) e unchanged
        | ok key ↦ with_secrets-Sound vm (some tailscale) h _ _
      ])

  -- Whatever the provider, the tailnet, the issuers and the other requests do, and however it ends,
  -- `provision` leaves the database sound.
  pub provision-Sound : (h : Host) → Keeps Sound (provision env h)
  unfolding provision
  provision-Sound h = Keeps-bind _ _ (utc_now-Sound env rely) λ now.
      Keeps-bind _ _
        (commit_status-Sound env rely h.id HostStatus.creating_network (touched now)
          (λ x. (refl, λ r. ground arith)) (λ x. refl))
        λ _.
          Keeps-bind _ _ (vm_of-Sound env rely _) λ vm.
            Keeps-if _ _ _ (give_up-Sound h.id (λ x. x) _ unchanged) (join_tailnet-Sound vm _ h)
