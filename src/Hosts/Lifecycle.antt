-- ===== src/Hosts/Lifecycle.antt =====
-- src/hosts/service.py: renewal, the refresh of a secret, and teardown.
use drukbox.Base.{
  ℕ, String, Bool, true, false, not, ◌&&◌, ◌||◌, Option, none, some, if◌then◌else◌, is_some,
  is_text, lookup,
}
use drukbox.Base.Op.{Result, ok, err, pure, raise, lift, pass, attempt, ◌>>=◌, ◌>>◌}
use drukbox.HostSecrets.Catalog.{Entry}
use drukbox.Providers.{lease_end, is_not_found}
use drukbox.Hosts.Model.{
  Host, Error, provider_error, host_state, resource_not_found, secret_static, is_delete_blocked,
  is_vm_backed, is_renewable, is_unexpired,
}
use drukbox.Hosts.World.{Env, Act, Tailscale, await_others, utc_now}
use drukbox.Hosts.Session.{
  vm_of, delete_secrets, delete_vm, release_call, get_host, refresh, commit_host, delete_row,
}
use drukbox.Hosts.Provision.{with_device}
use drukbox.Hosts.Create.{default_lease_expires_at}

abbrev pub renewed : Option ℕ → ℕ → Host → Host
renewed end now h = record h { expires_at = end; updated_at = now }

module _ (env : Env) where
  -- A row that the code expects, or ResourceNotFoundError.
  unfoldable pub existing : Option Host → Act Host
  existing none = raise (resource_not_found "host not found")
  existing (some h) = pure h

  unfoldable pub end_or_default : Option ℕ → Act ℕ
  unfolding default_lease_expires_at
  end_or_default none = default_lease_expires_at env
  end_or_default (some end) = pure end

  -- `renew_host`
  unfoldable pub renew_host : ℕ → Option ℕ → Act Host
  unfolding existing end_or_default
  renew_host i expires_at = do
    found ← get_host env i
    host ← existing found
    if host.pool_member && not (is_some host.claimed_at)
        then raise (host_state "unclaimed pool host is managed by pool maintenance")
        else pass
    if not (is_renewable host.status)
        then raise (host_state "cannot renew a host in this status")
        else pass
    vm ← vm_of env (some host.provider)
    end ← end_or_default expires_at
    now ← utc_now env
    commit_host env i (renewed (lease_end vm host.created_at (some end)) now)
    refresh env host

  unfoldable pub refresh_entry : Result Error (Unit {0}) → String → Option Entry → Act (Unit {0})
  refresh_entry exchange service none = raise (resource_not_found "secret not found")
  refresh_entry exchange service (some entry) =
      if is_some entry.value
      then raise (secret_static service)
      else (do await_others env; lift exchange)

  -- `refresh_secret`; `exchange` is how the call of the secrets exchange ends.
  unfoldable pub refresh_secret : Result Error (Unit {0}) → ℕ → String → Act (Unit {0})
  unfolding existing refresh_entry
  refresh_secret exchange i service = do
    found ← get_host env i
    host ← existing found
    refresh_entry exchange service (lookup service host.secrets)

  -- The guards by which a maintenance run spares a host.
  unfoldable pub is_spared : Bool → Bool → ℕ → Host → Bool
  is_spared pool_shed expired_only now host =
      pool_shed && is_some host.claimed_at || expired_only && is_unexpired host.expires_at now

  -- The device goes first, and its id leaves the row, so that a retry does not release it again.
  unfoldable pub release_device : ℕ → Option String → Option Tailscale → Act (Unit {0})
  unfolding release_call
  release_device i (some device) (some tailscale) =
      if is_text device
      then (do
        release_call env tailscale device
        now ← utc_now env
        commit_host env i (with_device none now))
      else pass
  release_device i _ _ = pass

  -- A machine that the provider does not know is gone already.
  unfoldable pub absent_is_gone : Result Error (Unit {0}) → Act (Unit {0})
  absent_is_gone (ok _) = pass
  absent_is_gone (err (provider_error e)) =
      if is_not_found e then pass else raise (provider_error e)
  absent_is_gone (err e) = raise e

  unfoldable pub tear_down : Host → Act (Unit {0})
  unfolding release_device absent_is_gone delete_secrets delete_vm
  tear_down host = do
    release_device host.id host.tailscale_device_id env.tailscale
    vm ← vm_of env (some host.provider)
    delete_secrets env vm host.name
    deleted ← attempt (delete_vm env vm host.name)
    absent_is_gone deleted

  -- The rest of `delete_host` once no guard has spared the host.
  unfoldable pub delete_found : Bool → Host → Act Bool
  unfolding tear_down
  delete_found force host = do
    if not force && is_delete_blocked host.status
        then raise (host_state "host is still provisioning")
        else pass
    if force || is_vm_backed host.status then tear_down host else pass
    delete_row env host.id
    pure true

  -- `delete_host`; the clock is read whether or not `expired_only` asks for it.
  unfoldable pub delete_host : Bool → Bool → Bool → ℕ → Act Bool
  unfolding existing is_spared delete_found
  delete_host force pool_shed expired_only i = do
    found ← get_host env i
    host ← existing found
    now ← utc_now env
    if is_spared pool_shed expired_only now host then pure false else delete_found force host
