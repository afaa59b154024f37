-- ===== src/Hosts/Invariant/Maintenance.antt =====
-- Renewal and teardown of src/hosts/service.py, src/hosts/pool.py and src/hosts/janitor.py keep the
-- database sound.
use drukbox.Base.{ℕ, ◌+◌, String, Bool, true, false, refl, Option, none, some, List, [], ◌∷◌}
use drukbox.Base.Op.{Result, ok, err}
use drukbox.Base.Keeps.{
  Keeps, Keeps-bind, Keeps-if, Keeps-raise, Keeps-pass, Keeps-pure, Keeps-attempt,
}
use drukbox.Providers.{lease_end}
use drukbox.Hosts.Model.{Host, Error, provider_error}
use drukbox.Hosts.World.{Env, Tailscale}
use drukbox.Hosts.Provision.{with_device}
use drukbox.Hosts.Session.{delete_secrets, delete_vm, release_call}
use drukbox.Hosts.Lifecycle.{
  existing, end_or_default, renewed, renew_host, release_device, absent_is_gone, tear_down,
  delete_found, delete_host,
}
use drukbox.Hosts.Pool.{excess_over, excess_ids, top_up, shed, maintain_pool}
use drukbox.Hosts.Pool.Batch.{Deficits}
use drukbox.Hosts.Janitor.{noted, reap, reap_expired_hosts}
use drukbox.Hosts.Invariant.Defs.{OthersKeep, Sound}
use drukbox.Hosts.Invariant.Statements.{
  await_others-Sound, utc_now-Sound, note-Sound, query-Sound, vm_of-Sound, provider_call-Sound,
  network_call-Sound, get_host-Sound, refresh-Sound, commit_host-Sound, delete_row-Sound,
}
use drukbox.Hosts.Invariant.Operations.{default_lease-Sound, create_host-Sound}

module _ (env : Env) (rely : OthersKeep env) where
  existing-Sound : (o : Option Host) → Keeps Sound (existing env o)
  unfolding existing
  existing-Sound none = Keeps-raise _
  existing-Sound (some h) = Keeps-pure _

  end_or_default-Sound : (o : Option ℕ) → Keeps Sound (end_or_default env o)
  unfolding end_or_default
  end_or_default-Sound none = default_lease-Sound env rely
  end_or_default-Sound (some end) = Keeps-pure _

  pub renew_host-Sound : (i : ℕ) (e : Option ℕ) → Keeps Sound (renew_host env i e)
  unfolding renew_host
  renew_host-Sound i e = Keeps-bind _ _ (get_host-Sound env rely i) λ found.
      Keeps-bind _ _ (existing-Sound found) λ h.
        Keeps-bind _ _ (Keeps-if _ _ _ (Keeps-raise _) Keeps-pass) λ _.
          Keeps-bind _ _ (Keeps-if _ _ _ (Keeps-raise _) Keeps-pass) λ _.
            Keeps-bind _ _ (vm_of-Sound env rely _) λ vm.
              Keeps-bind _ _ (end_or_default-Sound e) λ end.
                Keeps-bind _ _ (utc_now-Sound env rely) λ now.
                  Keeps-bind _ _
                    (commit_host-Sound env rely i
                      (renewed (lease_end vm h.created_at (some end)) now) (λ x. (refl, λ r. r))
                      (λ x. refl))
                    (λ _. refresh-Sound env rely h)

  release_device-Sound :
      (i : ℕ) (d : Option String) (t : Option Tailscale) → Keeps Sound (release_device env i d t)
  unfolding release_device release_call
  release_device-Sound i (some device) (some tailscale) =
      Keeps-if _ _ _
        (Keeps-bind _ _ (Keeps-bind _ _ (note-Sound env rely _) λ _. network_call-Sound env rely _)
          λ _. Keeps-bind _ _ (utc_now-Sound env rely) λ now.
            commit_host-Sound env rely i (with_device none now) (λ x. (refl, λ r. r)) (λ x. refl))
        Keeps-pass
  release_device-Sound i none t = Keeps-pass
  release_device-Sound i (some device) none = Keeps-pass

  absent_is_gone-Sound : (r : Result Error (Unit {0})) → Keeps Sound (absent_is_gone env r)
  unfolding absent_is_gone
  absent_is_gone-Sound (ok _) = Keeps-pass
  absent_is_gone-Sound (err (provider_error e)) = Keeps-if _ _ _ Keeps-pass (Keeps-raise _)
  absent_is_gone-Sound (err _) = Keeps-raise _

  tear_down-Sound : (h : Host) → Keeps Sound (tear_down env h)
  unfolding tear_down delete_secrets delete_vm
  tear_down-Sound h =
      Keeps-bind _ _ (release_device-Sound h.id h.tailscale_device_id env.tailscale) λ _.
        Keeps-bind _ _ (vm_of-Sound env rely _) λ vm.
          Keeps-bind _ _
            (Keeps-bind _ _ (note-Sound env rely _) λ _. provider_call-Sound env rely _)
            λ _.
              Keeps-bind _ _
                (Keeps-attempt _
                  (Keeps-bind _ _ (note-Sound env rely _) λ _. provider_call-Sound env rely _))
                λ deleted. absent_is_gone-Sound deleted

  delete_found-Sound : (force : Bool) (h : Host) → Keeps Sound (delete_found env force h)
  unfolding delete_found
  delete_found-Sound force h = Keeps-bind _ _ (Keeps-if _ _ _ (Keeps-raise _) Keeps-pass) λ _.
      Keeps-bind _ _ (Keeps-if _ _ _ (tear_down-Sound h) Keeps-pass)
        λ _. Keeps-bind _ _ (delete_row-Sound env rely h.id) (λ _. Keeps-pure _)

  pub delete_host-Sound :
      (force pool_shed expired_only : Bool) (i : ℕ)
      → Keeps Sound (delete_host env force pool_shed expired_only i)
  unfolding delete_host
  delete_host-Sound force pool_shed expired_only i =
      Keeps-bind _ _ (get_host-Sound env rely i) λ found. Keeps-bind _ _ (existing-Sound found) λ h.
        Keeps-bind _ _ (utc_now-Sound env rely)
          λ now. Keeps-if _ _ _ (Keeps-pure _) (delete_found-Sound force h)

  top_up-Sound :
      (providers : List String) (created failures : ℕ)
      → Keeps Sound (top_up env providers created failures)
  unfolding top_up
  top_up-Sound [] created failures = Keeps-pure _
  top_up-Sound (p ∷ providers) created failures = Keeps-bind _ _ (utc_now-Sound env rely) λ now.
      Keeps-bind _ _ (Keeps-attempt _ (create_host-Sound env rely _ true refl)) (elim [
        | ok host ↦ top_up-Sound providers (created + 1) 0
        | err e ↦ Keeps-if _ _ _ (Keeps-pure _) (top_up-Sound providers created (failures + 1))
      ])

  shed-Sound : (ids : List ℕ) (removed : ℕ) → Keeps Sound (shed env ids removed)
  unfolding shed
  shed-Sound [] removed = Keeps-pure _
  shed-Sound (i ∷ ids) removed =
      Keeps-bind _ _ (Keeps-attempt _ (delete_host-Sound false true false i)) (elim [
        | ok true ↦ shed-Sound ids (removed + 1)
        | ok false ↦ shed-Sound ids removed
        | err e ↦ shed-Sound ids removed
      ])

  excess_over-Sound :
      (now : ℕ) (counted : List Host) (targets : List (String × ℕ)) (providers : List String)
      → Keeps Sound (excess_over env now counted targets providers)
  unfolding excess_over
  excess_over-Sound now counted targets [] = Keeps-pure _
  excess_over-Sound now counted targets (p ∷ ps) =
      Keeps-bind _ _
        (Keeps-if _ _ _ (Keeps-pure _)
          (Keeps-bind _ _ (await_others-Sound env rely) λ _. query-Sound env rely _))
        λ ids. Keeps-bind _ _ (excess_over-Sound now counted targets ps) (λ others. Keeps-pure _)

  -- So does a tick of the pool maintainer, failed creates and deletes included.
  pub maintain_pool-Sound :
      (shuffle : Deficits → Deficits) → Keeps Sound (maintain_pool env shuffle)
  unfolding maintain_pool excess_ids
  maintain_pool-Sound shuffle = Keeps-if _ _ _ (Keeps-pure _) (
      Keeps-bind _ _ (utc_now-Sound env rely) λ now.
        Keeps-bind _ _ (query-Sound env rely _) λ hosts.
          Keeps-bind _ _ (excess_over-Sound _ _ _ _) λ excess.
            Keeps-bind _ _ (top_up-Sound _ 0 0)
              λ created. Keeps-bind _ _ (shed-Sound _ 0) (λ removed. Keeps-pure _))

  reap-Sound : (ids : List ℕ) → Keeps Sound (reap env ids)
  unfolding reap
  reap-Sound [] = Keeps-pure _
  reap-Sound (i ∷ ids) =
      Keeps-bind _ _ (Keeps-attempt _ (delete_host-Sound true false true i))
        λ deleted. Keeps-bind _ _ (reap-Sound ids) λ others. reaped deleted others
    where
      reaped : (d : Result Error Bool) (others : List ℕ) → Keeps Sound (noted env i d others)
      reaped (ok true) others = Keeps-pure _
      reaped (ok false) others = Keeps-pure _
      reaped (err e) others = Keeps-pure _

  -- And a sweep of the janitor.
  pub reap_expired_hosts-Sound : Keeps Sound (reap_expired_hosts env)
  unfolding reap_expired_hosts
  reap_expired_hosts-Sound = Keeps-bind _ _ (utc_now-Sound env rely) λ now.
      Keeps-bind _ _ (query-Sound env rely _)
        λ expired. Keeps-bind _ _ (await_others-Sound env rely) (λ _. reap-Sound expired)
