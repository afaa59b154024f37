-- ===== src/Hosts/Create.antt =====
-- src/hosts/service.py: `create_host`, the row with its safety TTL, the provision, the lease.
use drukbox.Base.{
  ℕ, ◌+◌, max, String, Bool, true, false, not, ◌&&◌, Option, none, some, List, if◌then◌else◌,
  is_text, is_some_text, is_some_count, is_empty, text_or, leb, str_eq, opt_eq, count_if, lookup,
}
use drukbox.Base.Op.{Result, ok, err, pure, raise, gets, lift, modify, pass, ◌>>=◌, ◌>>◌}
use drukbox.HostSecrets.Catalog.{Entry}
use drukbox.Templates.Model.{Template, is_available, is_failed}
use drukbox.Providers.{Provider, lease_end, ProviderKind}
use drukbox.Hosts.Model.{
  Host, HostStatus, Error, provider_error, host_capacity, provisioning_failed, is_error,
  secrets_proxy_not_configured, unknown_template, template_not_available, is_unexpired,
}
use drukbox.Hosts.Name.{build_name}
use drukbox.Hosts.World.{
  Env, Db, Act, query, store, utc_now, await_others, seconds, find_template, update_template,
  update_row,
}
use drukbox.Hosts.Session.{vm_of, insert_host, refresh, on_hosts}
use drukbox.Hosts.Provision.{provision}

-- The arguments of `create_host` and `get_or_create_host`.
pub record HostRequest : Type 0 where
  pub service_account : Option String
  pub env : List (String × String)
  pub secrets : List (String × Entry)
  pub image : Option String
  pub template : Option ℕ
  pub expires_at : Option ℕ
  pub permanent : Bool
  pub provider : Option String
  pub instance_type : Option String
  pub disk_gb : Option ℕ

-- `max(expires_at, safety_expires_at) if expires_at else safety_expires_at`
abbrev initial_end : Option ℕ → ℕ → ℕ
initial_end none safety = safety
initial_end (some end) safety = max end safety

-- The rows that `_count_live_hosts` counts.
unfoldable pub count_live : (Host → Bool) → ℕ → List Host → ℕ
count_live condition now =
    count_if (λ h. condition h && not (is_error h.status) && is_unexpired h.expires_at now)

-- The UPDATE of the lease, whose WHERE has the in-flight end.
abbrev pub stamped : ℕ → Option ℕ → ℕ → Host → Host
stamped initial end now h =
    if opt_eq h.expires_at (some initial)
    then record h { expires_at = end; updated_at = now }
    else h

-- The pending `last_used_at` of a template.
abbrev pub template_used : Option (ℕ × ℕ) → Db → Db
template_used none db = db
template_used (some (wanted, now)) db = record db {
  templates = update_template wanted (λ t. record t { last_used_at = some now }) db.templates;
}

module _ (env : Env) where
  -- `_count_live_hosts`, without the advisory lock.
  unfoldable pub count_live_hosts : (Host → Bool) → Act ℕ
  unfolding count_live
  count_live_hosts condition = do
    await_others env
    now ← utc_now env
    query env (λ db. count_live condition now db.hosts)

  -- `_default_lease_expires_at`
  unfoldable pub default_lease_expires_at : Act ℕ
  default_lease_expires_at = do
    now ← utc_now env
    pure (now + seconds env.settings.lease_default_ttl)

  -- `None if permanent else expires_at or self._default_lease_expires_at()`
  unfoldable pub lease_of : Bool → Option ℕ → Act (Option ℕ)
  unfolding default_lease_expires_at
  lease_of true expires_at = pure none
  lease_of false (some end) = pure (some end)
  lease_of false none = do end ← default_lease_expires_at; pure (some end)

  -- The checks of a request against what its provider can do.
  unfoldable pub check_request : Provider → HostRequest → Act (Unit {0})
  check_request vm r = do
    if is_some_text r.instance_type && not vm.supports_instance_type
        then raise (
            provider_error
              (record { kind = ProviderKind.unsupported_sizing; message = "instance_type" }))
        else pass
    if is_some_count r.disk_gb && not vm.supports_disk_gb
        then raise (
            provider_error (record { kind = ProviderKind.unsupported_sizing; message = "disk_gb" }))
        else pass
    if not (is_empty r.secrets)
          && not vm.needs_value
          && not
              (is_text env.settings.secrets_proxy_url && is_text env.settings.secrets_proxy_ca_file)
        then raise secrets_proxy_not_configured
        else pass

  unfoldable pub template_usable : Provider → Option Template → Result Error Template
  template_usable vm none = err unknown_template
  template_usable vm (some found) =
      if not (str_eq found.provider vm.name)
      then err unknown_template
      else if is_available found.status
      then ok found
      else err (template_not_available (if is_failed found.status then found.last_error else ""))

  -- The image that a request forks from, and the use of a template that the row's INSERT commits.
  unfoldable pub image_of :
      Provider → Option String → Option ℕ → Act (Option String × Option (ℕ × ℕ))
  unfolding template_usable
  image_of vm image none = pure (image, none)
  image_of vm image (some wanted) = do
    found ← query env (λ db. find_template wanted db.templates)
    usable ← lift (template_usable vm found)
    now ← utc_now env
    pure (some usable.image, some (wanted, now))

  -- The row of `create_host`, before it is provisioned.
  unfoldable pub new_host : Provider → HostRequest → Option String → Bool → (i now end : ℕ) → Host
  new_host vm r image pool_member i now end = record {
    id = i;
    env = r.env;
    secrets = r.secrets;
    name = build_name i;
    service_account = r.service_account;
    status = HostStatus.provisioning;
    provider = vm.name;
    image = text_or image vm.default_image;
    instance_type = r.instance_type;
    disk_gb = r.disk_gb;
    external_ssh_host = "";
    external_ssh_port = 22;
    ssh_username = "";
    public_key = "";
    internal_ssh_host = none;
    known_hosts = "";
    tailscale_device_id = none;
    created_at = now;
    updated_at = now;
    activated_at = none;
    expires_at = some end;
    claimed_at = none;
    pool_member = pool_member;
    last_error = "";
    private_key = none;
  }

  unfoldable pub check_limit : String → Option ℕ → Act (Unit {0})
  unfolding count_live_hosts
  check_limit name none = pass
  check_limit name (some limit) = do
    live ← count_live_hosts (λ h. str_eq h.provider name)
    if leb limit live then raise (host_capacity name) else pass

  unfoldable pub check_provider_limit : Provider → Act (Unit {0})
  unfolding check_limit
  check_provider_limit vm = check_limit vm.name (lookup vm.name env.settings.host_limits)

  -- The lease that replaces the safety TTL, unless the row's end has changed since.
  unfoldable pub stamp_lease : Provider → Host → ℕ → Bool → Option ℕ → Act (Unit {0})
  unfolding lease_of
  stamp_lease vm host initial permanent expires_at = do
    end ← lease_of permanent expires_at
    now ← utc_now env
    store env
        (on_hosts (update_row host.id (stamped initial (lease_end vm host.created_at end) now)))
    await_others env

  -- What follows the INSERT: the provision, its failure, and the lease.
  unfoldable pub finish_host : Provider → HostRequest → ℕ → Host → Act Host
  unfolding stamp_lease
  finish_host vm r initial host = do
    private_key ← provision env host
    present ← refresh env (record host { private_key = private_key })
    if is_error present.status then raise (provisioning_failed present.last_error) else pass
    stamp_lease vm present initial r.permanent r.expires_at
    refresh env present

  -- `create_host`
  unfoldable pub create_host : HostRequest → Bool → Act Host
  unfolding check_request image_of check_provider_limit finish_host
  create_host r pool_member = do
    vm ← vm_of env r.provider
    check_request vm r
    image ← image_of vm r.image r.template
    uid ← gets (λ w. w.fresh)
    modify (λ w. record w { fresh = w.fresh + 1 })
    now ← utc_now env
    let safety = now + seconds env.settings.provisioning_grace_seconds
    let initial = initial_end r.expires_at safety
    let host = new_host vm r image.0 pool_member (env.uuid7 uid) now initial
    check_provider_limit vm
    insert_host env (template_used image.1) host
    finish_host vm r initial host
