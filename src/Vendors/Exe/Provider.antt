-- ===== src/Vendors/Exe/Provider.antt =====
-- src/providers/exe/provider.py: `ExeProvider.create_vm` and `diagnose`, with
-- `get_registry_auth` of src/core/settings.py.
pub mod Credentials
use drukbox.Base.{
  ℕ, String, Bool, true, false, not, ◌&&◌, Option, none, some, List, [], ◌∷◌, ◌++◌, ◌==◌,
  if◌then◌else◌, is_text, lookup,
}
use drukbox.Base.Op.{
  Result, ok, err, Op, pure, raise, gets, lift, modify, pass, attempt, ◌>>=◌, ◌>>◌,
}
use drukbox.Exchange.Secret.{codes}
use drukbox.Providers.{VmCreateResult}
use drukbox.Providers.Environment.{Variables}
use drukbox.Vendors.Exe.Reply.{Json, object, array, scalar, key_error, value_error}
use drukbox.Vendors.Exe.Api.{
  Exe, Act, create_vm as api_create_vm, delete_vm as api_delete_vm, whoami, exec_dict, instead,
}

-- The part of the settings that says where images are kept, and with which credentials.
pub record Registry : Type 0 where
  pub host : String
  pub username : List ℕ
  pub password : List ℕ

-- `image.partition("/")[0]`
unfoldable pub registry_of : List ℕ → List ℕ
registry_of [] = []
registry_of (c ∷ cs) = let rest = registry_of cs in if c == b'/' then [] else c ∷ rest

unfoldable pub is_same_text : List ℕ → List ℕ → Bool
is_same_text [] [] = true
is_same_text (c ∷ cs) (d ∷ ds) = let rest = is_same_text cs ds in c == d && rest
is_same_text _ _ = false

-- The image is kept on the configured registry.
unfoldable pub is_own : Registry → String → Bool
unfolding registry_of is_same_text
is_own registry image =
    is_text registry.host && is_same_text (registry_of (codes image)) (codes registry.host)

-- `get_registry_auth`, as `create_vm` writes it.
unfoldable pub get_registry_auth : Registry → String → Option (List ℕ)
unfolding is_own
get_registry_auth registry image =
    if is_own registry image then some (registry.username ++ b':' ∷ registry.password) else none

module _ (exe : Exe) where
  -- A member of a payload; a payload without it is a KeyError.
  unfoldable pub member : String → Json → Act String
  member key (object members vms) = elim (lookup key members) [
    | none ↦ raise key_error
    | some text ↦ pure text
  ]
  member key (array names) = raise key_error
  member key scalar = raise key_error

  unfoldable pub port_of : String → Act ℕ
  port_of text = elim (exe.int text) [ none ↦ raise value_error | some port ↦ pure port ]

  -- `ExeProvider.create_vm`
  unfoldable pub create_vm :
      Registry → String → String → Variables → Option (List ℕ) → Act VmCreateResult
  unfolding get_registry_auth api_create_vm member port_of
  create_vm registry name image env script = do
    payload ← api_create_vm exe name (some image) (get_registry_auth registry image) env script
    vm ← member "vm_name" payload
    port_text ← member "ssh_port" payload
    port ← port_of port_text
    host ← member "ssh_dest" payload
    pure (record {
      provider_id = vm;
      name = vm;
      ssh_username = exe.ssh_username;
      ssh_host = host;
      ssh_port = port;
      private_key = none;
      public_key = none;
    })

  -- `ExeProvider.diagnose`
  unfoldable pub diagnose : Act String
  unfolding whoami member
  diagnose = do payload ← whoami exe; member "email" payload
