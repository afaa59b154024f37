-- ===== src/Hosts/Session.antt =====
-- The statements and calls that HostService (src/hosts/service.py) is made of. A commit and a call
-- to the outside each let the other requests run.
use drukbox.Base.{
  ℕ, String, ◌||◌, Option, none, some, List, [], ◌∷◌, ◌++◌, if◌then◌else◌, any, str_eq, ◌&&◌, not,
  ◌==◌,
}
use drukbox.Base.Op.{Result, ok, err, pure, raise, lift, pass, ◌>>=◌, ◌>>◌}
use drukbox.Providers.{Provider, ProviderError, get_vm_provider}
use drukbox.Hosts.Model.{
  Host, HostStatus, Error, provider_error, network_error, integrity_error, stale_row,
}
use drukbox.Hosts.World.{
  Env, Db, status_committed, row_deleted, vm_delete_called, secrets_delete_called,
  device_release_called, Tailscale, Act, NetworkFault, await_others, note, query, store, find_host,
  has_host, has_name, update_row, remove_row, remove_keys,
}

abbrev pub on_hosts : (List Host → List Host) → Db → Db
on_hosts f db = record db { hosts = f db.hosts }

module _ (env : Env) where
  unfoldable pub from_provider : {A : Type 0} → Result ProviderError A → Result Error A
  from_provider (ok a) = ok a
  from_provider (err e) = err (provider_error e)

  unfoldable pub from_network : {A : Type 0} → Result NetworkFault A → Result Error A
  from_network (ok a) = ok a
  from_network (err e) = err (network_error e.kind e.text)

  -- `get_vm_provider` touches no database.
  unfoldable pub vm_of : Option String → Act Provider
  unfolding from_provider
  vm_of name = lift (from_provider (get_vm_provider env.registry name))

  -- An awaited call to a provider, and to the tailnet.
  unfoldable pub provider_call : {A : Type 0} → Result ProviderError A → Act A
  unfolding from_provider
  provider_call r = do await_others env; lift (from_provider r)

  unfoldable pub network_call : {A : Type 0} → Result NetworkFault A → Act A
  unfolding from_network
  network_call r = do await_others env; lift (from_network r)

  -- The calls that delete; each is noted with its answer when it is made.
  unfoldable pub delete_secrets : Provider → String → Act (Unit {0})
  unfolding provider_call
  delete_secrets vm name = do
    note env (secrets_delete_called name (vm.delete_secrets name))
    provider_call (vm.delete_secrets name)

  unfoldable pub delete_vm : Provider → String → Act (Unit {0})
  unfolding provider_call
  delete_vm vm name = do
    note env (vm_delete_called name (vm.delete_vm name))
    provider_call (vm.delete_vm name)

  unfoldable pub release_call : Tailscale → String → Act (Unit {0})
  unfolding network_call
  release_call tailscale device = do
    note env (device_release_called device (tailscale.release_device device))
    network_call (tailscale.release_device device)

  -- `session.get(Host, id)` and the `select … for update` of one row.
  unfoldable pub get_host : ℕ → Act (Option Host)
  get_host i = query env (λ db. find_host i db.hosts)

  -- `session.refresh`: the row's present columns, with what the instance alone carries.
  unfoldable pub refreshed : Host → Option Host → Act Host
  refreshed old none = raise stale_row
  refreshed old (some h) = pure (record h { private_key = old.private_key })

  unfoldable pub refresh : Host → Act Host
  unfolding refreshed get_host
  refresh h = do found ← get_host h.id; refreshed h found

  -- A flush of changed columns of one row, and the commit. An UPDATE that matches no row raises.
  unfoldable pub commit_host : ℕ → (Host → Host) → Act (Unit {0})
  commit_host i f = do
    present ← query env (λ db. has_host i db.hosts)
    if present then store env (on_hosts (update_row i f)) else raise stale_row
    await_others env

  unfoldable pub commit_status : ℕ → HostStatus → (Host → Host) → Act (Unit {0})
  unfolding commit_host
  commit_status i status f = do
    commit_host i (λ h. record (f h) { status = status })
    note env (status_committed i status)

  -- The commit that writes the name which the provider gave; a name of another row is refused.
  unfoldable pub commit_named : ℕ → HostStatus → String → (Host → Host) → Act (Unit {0})
  unfolding commit_status
  commit_named i status name f = do
    taken ← query env (λ db. any (λ h. str_eq h.name name && not (h.id == i)) db.hosts)
    if taken then raise integrity_error else pass
    commit_status i status (λ h. record (f h) { name = name })

  -- The INSERT of a new row, its id and its name being unique, in a commit with another change.
  unfoldable pub insert_host : (Db → Db) → Host → Act (Unit {0})
  insert_host also h = do
    taken ← query env (λ db. has_host h.id db.hosts || has_name h.name db.hosts)
    if taken
        then raise integrity_error
        else store env (λ db. on_hosts (λ hs. hs ++ h ∷ []) (also db))
    await_others env

  -- `session.delete` and the commit. A row that is already gone is no error.
  unfoldable pub delete_row : ℕ → Act (Unit {0})
  delete_row i = do
    store env (λ db. record db { hosts = remove_row i db.hosts; keys = remove_keys i db.keys })
    note env (row_deleted i)
    await_others env
