-- ===== src/Vendors/Hetzner/Provider.antt =====
-- src/providers/hetzner/provider.py: `HetznerProvider`.
use Prim.Native.String as Text
use drukbox.Base.{ℕ, String, Option, none, some, List, [], ◌∷◌, if◌then◌else◌, is_text, text_or}
use drukbox.Base.Op.{Result, ok, err, pure, raise, lift, attempt, ◌>>=◌, ◌>>◌}
use drukbox.Exchange.Secret.{codes}
use drukbox.Providers.{VmRequest, VmCreateResult}
use drukbox.Providers.Environment.{Variables, get_cloud_init}
use drukbox.Vendors.Hetzner.Api.{
  HetznerFault, vm_not_found, transport, provider_transport, provider_not_found, value_error,
  Hetzner, Act, ensure_ssh_key, delete_ssh_key, create_server, wait_for_running_with_ip,
  find_server_id_by_name, delete_server, count_servers,
}

-- The private and the public part of a new key.
abbrev pub Pair : Type 0
Pair = String × String

abbrev pub key_name : String → String
key_name name = Text.◌++◌ "drukbox-" name

-- `except HetznerProviderError as exc: raise ProviderTransportError(str(exc)) from exc`
unfoldable pub neutral : {A : Type 0} → Result HetznerFault A → Act A
neutral (ok a) = pure a
neutral (err vm_not_found) = raise provider_transport
neutral (err transport) = raise provider_transport
neutral (err e) = raise e

unfoldable pub cloud_init : Option String → Variables → Result HetznerFault (List ℕ)
unfolding get_cloud_init
cloud_init setup_script env = elim (get_cloud_init (codes (text_or setup_script "")) env) [
  | err text ↦ err value_error
  | ok script ↦ ok script
]

module _ (hetzner : Hetzner) where
  -- The `except` clause of `create_server`: the key is deleted first.
  unfoldable pub after_refusal : String → Result HetznerFault String → Act String
  unfolding delete_ssh_key neutral
  after_refusal name (ok server_id) = pure server_id
  after_refusal name (err vm_not_found) = do
    delete_ssh_key hetzner (key_name name)
    raise provider_transport
  after_refusal name (err transport) = do
    delete_ssh_key hetzner (key_name name)
    raise provider_transport
  after_refusal name (err e) = raise e

  abbrev pub labels_of : String → List (String × String)
  labels_of name = ("managed-by", hetzner.service_label) ∷ ("drukbox-host-name", name) ∷ []

  -- `create_vm` with a new key
  unfoldable pub create_vm : Pair → VmRequest → Act VmCreateResult
  unfolding ensure_ssh_key neutral cloud_init create_server after_refusal wait_for_running_with_ip
  create_vm pair vm = do
    ensured ← attempt (ensure_ssh_key hetzner (key_name vm.name) pair.1 (labels_of vm.name))
    neutral ensured
    user_data ← lift (cloud_init vm.setup_script vm.env)
    created ← attempt (
        create_server hetzner vm.name vm.image (key_name vm.name) user_data (labels_of vm.name)
          vm.instance_type)
    server_id ← after_refusal vm.name created
    waited ← attempt (wait_for_running_with_ip hetzner server_id)
    ssh_host ← neutral waited
    pure (record {
      provider_id = server_id;
      name = vm.name;
      ssh_username = hetzner.ssh_username;
      ssh_host = ssh_host;
      ssh_port = 22;
      private_key = some pair.0;
      public_key = none;
    })

  unfoldable pub delete_found : Option String → Act (Unit {0})
  unfolding delete_server
  delete_found none = raise provider_not_found
  delete_found (some server_id) =
      if is_text server_id then delete_server hetzner server_id else raise provider_not_found

  unfoldable pub delete_all : String → Act (Unit {0})
  unfolding delete_ssh_key find_server_id_by_name delete_found
  delete_all name = do
    delete_ssh_key hetzner (key_name name)
    server_id ← find_server_id_by_name hetzner name
    delete_found server_id

  -- `delete_vm`
  unfoldable pub delete_vm : String → Act (Unit {0})
  unfolding delete_all neutral
  delete_vm name = do answer ← attempt (delete_all name); neutral answer

  -- `diagnose`
  unfoldable pub diagnose : Act String
  unfolding count_servers
  diagnose = do
    count ← count_servers hetzner
    pure (Text.◌++◌ "location=" (Text.◌++◌ hetzner.location (Text.◌++◌ " servers=" count)))
