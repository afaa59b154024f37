-- ===== src/Hosts/Provision.antt =====
-- src/hosts/service.py: `provision`, from the row to a host that a caller can reach.
use Prim.Native.String as Text
use drukbox.Base.{
  ℕ, String, not, ◌&&◌, Option, none, some, List, [], ◌∷◌, if◌then◌else◌, is_text, is_some, update,
  put, text_or,
}
use drukbox.Base.Op.{Result, ok, err, pure, raise, gets, lift, attempt, ◌>>=◌, ◌>>◌}
use drukbox.Exchange.Secret.{codes, Fault, missing_secret, key_error, fetch, Issuer}
use drukbox.HostSecrets.Catalog.{Entry, service}
use drukbox.HostSecrets.Placeholder.{print}
use drukbox.Providers.{Provider, VmCreateResult}
use drukbox.Providers.Environment.{Variables, get_persist}
use drukbox.Hosts.Model.{
  Host, HostStatus, Error, provider_error, issuer_fault, invalid_env, host_key_scan,
  provisioning_failed, failure_text,
}
use drukbox.Hosts.World.{Env, Act, Tailscale, vm_created, await_others, note, utc_now}
use drukbox.Hosts.KeyScan.{scan_known_hosts}
use drukbox.Hosts.Session.{
  vm_of, provider_call, network_call, commit_host, commit_named, commit_status,
}

abbrev pub Fingerprinted : Type 0
Fingerprinted = List (String × Entry)

-- What the commits of `provision` write.
abbrev pub touched : ℕ → Host → Host
touched now h = record h { updated_at = now }

abbrev pub with_entries : Fingerprinted → Host → Host
with_entries entries h = record h { secrets = entries }

abbrev pub with_device : Option String → ℕ → Host → Host
with_device device now h = record h { tailscale_device_id = device; updated_at = now }

abbrev pub activated : String → ℕ → ℕ → Host → Host
activated known_hosts now later h = record h {
  known_hosts = known_hosts;
  activated_at = some now;
  updated_at = later;
}

-- `f"provider {vm.name!r} …"`
abbrev provider_text : Provider → String → String
provider_text vm text = Text.◌++◌ "provider '" (Text.◌++◌ vm.name (Text.◌++◌ "' " text))

module _ (env : Env) where
  -- `mark_failed`: an errored host has expired, so the janitor tears it down. The commit also
  -- writes what the instance has pending.
  unfoldable pub mark_failed : ℕ → (Host → Host) → Error → Act (Unit {0})
  mark_failed i pending exc = do
    now ← utc_now env
    commit_status env i HostStatus.error (λ h. record (pending h) {
      last_error = failure_text exc;
      expires_at = some now;
      updated_at = now;
    })

  -- The end of `provision` on a failure that is kept in the row.
  unfoldable pub give_up : ℕ → (Host → Host) → Error → Act (Option String)
  unfolding mark_failed
  give_up i pending exc = do mark_failed i pending exc; pure none

  unfoldable pub of_fetch : {A : Type 0} → Result Fault A → Result Error A
  of_fetch (ok a) = ok a
  of_fetch (err e) = err (issuer_fault e)

  unfoldable pub value_or_fetch : Option String → Option Issuer → Act String
  unfolding of_fetch
  value_or_fetch (some value) issuer = pure value
  value_or_fetch none none = raise (issuer_fault key_error)
  value_or_fetch none (some issuer) = do
    await_others env
    turn ← gets (λ w. w.turn)
    now ← utc_now env
    later ← utc_now env
    secret ← lift (of_fetch (fetch issuer (env.answer turn) now later))
    pure secret.value

  -- `current_value`
  unfoldable pub current_value : Entry → Act String
  unfolding value_or_fetch
  current_value entry = value_or_fetch entry.value entry.issuer

  unfoldable pub of_service : {A : Type 0} → Option A → Result Error A
  of_service none = err (issuer_fault key_error)
  of_service (some a) = ok a

  -- What one round of `put_secrets` does after the fingerprint is set.
  unfoldable pub put_secret : Provider → Host → String → Entry → List ℕ → Act Variables
  unfolding current_value of_service
  put_secret vm host name entry placeholder = do
    value ← (if vm.needs_value then current_value entry else pure "")
    known ← lift (of_service (service name entry))
    provider_call env (
        vm.put_secret (record {
          vm = host.name;
          auth_variable = known.auth_variable;
          placeholder = placeholder;
          value = value;
        }))

  -- `put_secrets` over the entries left. The entries come back with the fingerprints that were set,
  -- also when a round raised.
  unfoldable pub put_secrets :
      Provider → Host → Fingerprinted → Variables → Act (Fingerprinted × Result Error Variables)
  unfolding put_secret
  put_secrets vm host [] environment = pure ([], ok environment)
  put_secrets vm host ((name, entry) ∷ entries) environment = do
    turn ← gets (λ w. w.turn)
    let secret = env.token turn
    let minted = record entry { placeholder_fingerprint = some (env.sha256 secret) }
    let placeholder = print (record { host_id = host.id; service = codes name; secret = secret })
    put ← attempt (put_secret vm host name entry placeholder)
    elim put [
      | err e ↦ pure ((name, minted) ∷ entries, err e)
      | ok more ↦ (do
        rest ← put_secrets vm host entries (update environment more)
        pure ((name, minted) ∷ rest.0, rest.1))
    ]

  -- From BOOTSTRAPPING to ACTIVE: the scan of the host's keys.
  unfoldable pub activate : Provider → Host → Act (Unit {0})
  unfolding mark_failed
  activate vm host = do
    scanned ← attempt (scan_known_hosts env vm host)
    elim scanned [
      | err (host_key_scan text) ↦ mark_failed host.id (λ h. h) (host_key_scan text)
      | err e ↦ raise e
      | ok known_hosts ↦ (do
        now ← utc_now env
        later ← utc_now env
        commit_status env host.id HostStatus.active (activated known_hosts now later))
    ]

  -- A tailnet host waits until its device is known.
  unfoldable pub discover : Provider → Option Tailscale → Host → Act (Unit {0})
  unfolding activate
  discover vm none host = activate vm host
  discover vm (some tailscale) host = do
    found ← attempt (
        network_call env
          (tailscale.wait_for_device host.name env.settings.device_discovery_timeout))
    elim found [
      | err e ↦ mark_failed host.id (λ h. h) e
      | ok device ↦ (do
        now ← utc_now env
        commit_host env host.id (with_device (some device) now)
        activate vm host)
    ]

  -- The columns that a created machine fills. The gateway is the SSH path of a gateway provider.
  unfoldable pub reachable : Provider → Option Tailscale → VmCreateResult → Host → Host
  reachable vm tailscale result h = record h {
    name = result.name;
    external_ssh_host = if vm.gateway then env.settings.gateway_ssh_host else result.ssh_host;
    external_ssh_port = if vm.gateway then env.settings.gateway_ssh_port else result.ssh_port;
    ssh_username = if vm.gateway then result.name else result.ssh_username;
    public_key = text_or result.public_key "";
    internal_ssh_host = elim tailscale [
      | none ↦ h.internal_ssh_host
      | some t ↦ some (Text.◌++◌ result.name (Text.◌++◌ "." t.tailnet))
    ];
  }

  unfoldable pub boot : Provider → Option Tailscale → Host → VmCreateResult → Act (Option String)
  unfolding reachable discover
  boot vm tailscale host result = do
    note env (vm_created result.name)
    now ← utc_now env
    commit_named env host.id HostStatus.bootstrapping result.name
        (λ h. touched now (reachable vm tailscale result h))
    discover vm tailscale (reachable vm tailscale result host)
    pure result.private_key

  unfoldable pub create_vm :
      Provider → Option Tailscale → Host → Variables → Option String → Act (Option String)
  unfolding boot give_up
  create_vm vm tailscale host environment setup_script = do
    now ← utc_now env
    commit_status env host.id HostStatus.creating_vm
        (λ h. touched now (with_entries host.secrets h))
    if vm.gateway && not (is_text env.settings.gateway_ssh_host)
        then give_up host.id (λ h. h)
            (provisioning_failed
              (provider_text vm "requires the SSH gateway; set GATEWAY_SSH_HOST"))
        else (do
          created ← attempt (
              provider_call env (
                vm.create_vm (record {
                  name = host.name;
                  image = host.image;
                  env = environment;
                  setup_script = setup_script;
                  instance_type = host.instance_type;
                  disk_gb = host.disk_gb;
                })))
          elim created [
            | err e ↦ give_up host.id (λ h. h) e
            | ok result ↦ boot vm tailscale host result
          ])

  -- What `put_secrets` and `get_persist` raised. A missing secret goes on to the caller.
  unfoldable pub secrets_failed : ℕ → (Host → Host) → Error → Act (Option String)
  unfolding give_up
  secrets_failed i pending (issuer_fault key_error) = raise (issuer_fault key_error)
  secrets_failed i pending (issuer_fault (missing_secret text)) = do
    mark_failed i pending (issuer_fault (missing_secret text))
    raise (issuer_fault (missing_secret text))
  secrets_failed i pending (issuer_fault e) = give_up i pending (issuer_fault e)
  secrets_failed i pending (provider_error e) = give_up i pending (provider_error e)
  secrets_failed i pending (invalid_env text) = give_up i pending (invalid_env text)
  secrets_failed i pending e = raise e

  unfoldable pub persisted : Variables → Result Error (Unit {0})
  persisted environment = elim (get_persist environment) [
    | err key ↦ err (invalid_env key)
    | ok lines ↦ ok tt
  ]

  unfoldable pub create_persisted :
      Provider
      → Option Tailscale
      → Host
      → Variables
      → Option String
      → Result Error (Unit {0})
      → Act (Option String)
  unfolding create_vm secrets_failed
  create_persisted vm tailscale host environment setup_script (err e) =
      secrets_failed host.id (with_entries host.secrets) e
  create_persisted vm tailscale host environment setup_script (ok _) =
      create_vm vm tailscale host environment setup_script

  unfoldable pub create_with :
      Provider
      → Option Tailscale
      → Host
      → Variables
      → Option String
      → Result Error Variables
      → Act (Option String)
  unfolding persisted create_persisted secrets_failed
  create_with vm tailscale host environment setup_script (err e) =
      secrets_failed host.id (with_entries host.secrets) e
  create_with vm tailscale host environment setup_script (ok more) =
      let whole = update environment more in
      create_persisted vm tailscale host whole setup_script (persisted whole)

  unfoldable pub with_secrets :
      Provider → Option Tailscale → Host → Variables → Option String → Act (Option String)
  unfolding create_with put_secrets
  with_secrets vm tailscale host environment setup_script = do
    put ← put_secrets vm host host.secrets []
    create_with vm tailscale (with_entries put.0 host) environment setup_script put.1

  -- Only a tailnet host runs the bootstrap script, which needs the auth key.
  unfoldable pub join_tailnet : Provider → Option Tailscale → Host → Act (Option String)
  unfolding with_secrets
  join_tailnet vm none host = with_secrets vm none host host.env none
  join_tailnet vm (some tailscale) host = do
    issued ← attempt (network_call env (tailscale.issue_join_credentials host.name))
    elim issued [
      | err e ↦ give_up host.id (λ h. h) e
      | ok key ↦
          with_secrets vm (some tailscale) host
            (update host.env (("TAILSCALE_AUTHKEY", key) ∷ ("TAILSCALE_HOSTNAME", host.name) ∷ []))
            (some env.bootstrap_script)
    ]

  -- `provision` on the instance of a committed row. It returns the private key that the instance
  -- carries to the response, and a failure that it keeps in the row is no raise.
  unfoldable pub provision : Host → Act (Option String)
  unfolding join_tailnet
  provision host = do
    now ← utc_now env
    commit_status env host.id HostStatus.creating_network (touched now)
    vm ← vm_of env (some host.provider)
    if vm.tailnet && not (is_some env.tailscale)
        then give_up host.id (λ h. h)
            (provisioning_failed (
              provider_text vm (
                Text.◌++◌ "joins the tailnet; set TAILSCALE_TAILNET, TAILSCALE_AUTH_TAGS, "
                  "TAILSCALE_OAUTH_CLIENT_ID and TAILSCALE_OAUTH_CLIENT_SECRET")))
        else join_tailnet vm (if vm.tailnet then env.tailscale else none) host
