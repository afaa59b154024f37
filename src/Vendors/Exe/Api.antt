-- ===== src/Vendors/Exe/Api.antt =====
-- src/providers/exe/api.py: `ExeAPI`, and the errors of `ExeProvider` in src/providers/exe/provider.py.
-- The template images, which Docker builds, are left out.
use drukbox.Base.{
  ℕ, String, Option, none, some, List, [], ◌∷◌, ◌++◌, if◌then◌else◌, str_eq, text_or, length,
  lookup,
}
use drukbox.Base.Op.{
  Result, ok, err, Op, pure, raise, gets, lift, modify, pass, attempt, ◌>>=◌, ◌>>◌,
}
use drukbox.Exchange.Secret.{codes}
use drukbox.Providers.{ProviderKind}
use drukbox.Providers.Environment.{Variables}
use drukbox.Vendors.Exe.Script.{setup_script, script_argument}
use drukbox.Vendors.Exe.Commands.{
  list_command, new_command, add_command, edit_command, remove_command, binding_command,
  machine_command, rename_command,
}
use drukbox.Vendors.Exe.Reply.{
  ExeError, exe_auth, exe_response, exe_command, exe_vm_not_found, integration_not_found,
  integration_exists, key_error, value_error, Json, object, array, scalar, Reply, read_reply,
  parse_json_response, mentions, attachment_error,
}

-- The settings of the adapter, what exe.dev answers to a command, `json.loads` and `int`.
pub record Exe : Type 0 where
  pub default_image : String
  pub ssh_username : String
  pub service_label : String
  pub reply : ℕ → List ℕ → Reply
  pub loads : List ℕ → Option Json
  pub int : String → Option ℕ

-- The commands that were sent, the last one first.
abbrev pub Act : Type 0 → Type 0
Act A = Op (List (List ℕ)) ExeError A

module _ (exe : Exe) where
  -- `_request`
  unfoldable pub request : List ℕ → Act (List ℕ)
  unfolding read_reply
  request command = do
    turn ← gets length
    modify (λ sent. command ∷ sent)
    lift (read_reply (exe.reply turn command))

  unfoldable pub object_of : Json → Act Json
  object_of (object members vms) = pure (object members vms)
  object_of (array names) = raise exe_response
  object_of scalar = raise exe_response

  -- `_exec_dict`
  unfoldable pub exec_dict : List ℕ → Act Json
  unfolding request parse_json_response object_of
  exec_dict command = do
    text ← request command
    json ← lift (parse_json_response exe.loads text)
    object_of json

  unfoldable pub script_of : Variables → Option (List ℕ) → Result ExeError (List (List ℕ))
  unfolding setup_script script_argument
  script_of env script = elim (setup_script env script) [
    | err text ↦ err value_error
    | ok whole ↦ elim (script_argument whole) [
      | err length ↦ err (exe_command (codes "the setup script is over the exe.dev limit"))
      | ok argument ↦ ok argument
    ]
  ]

  -- `ExeAPI.create_vm`, with the tag of `ExeProvider`.
  unfoldable pub create_vm :
      String → Option String → Option (List ℕ) → Variables → Option (List ℕ) → Act Json
  unfolding script_of exec_dict
  create_vm name image registry_auth env script = do
    argument ← lift (script_of env script)
    exec_dict (
        new_command name (some (text_or image exe.default_image)) registry_auth argument
          (codes "managed-by-" ++ codes exe.service_label) env)

  unfoldable pub vms_of : Json → Act (List (List (String × String)))
  vms_of (object members (some vms)) = pure vms
  vms_of json = raise key_error

  -- `list_vms` with a pattern, in detail.
  unfoldable pub list_vms : String → Act (List (List (String × String)))
  unfolding exec_dict vms_of
  list_vms pattern = do json ← exec_dict (list_command pattern); vms_of json

  unfoldable pub find_vm : String → List (List (String × String)) → Act (List (String × String))
  find_vm name [] = raise (exe_vm_not_found name)
  find_vm name (vm ∷ vms) =
      let rest = find_vm name vms in
      elim (lookup "vm_name" vm) [
        | none ↦ raise key_error
        | some found ↦ if str_eq found name then pure vm else rest
      ]

  -- `whoami`
  unfoldable pub whoami : Act Json
  unfolding exec_dict
  whoami = exec_dict (codes "whoami --json")

  -- `get_vm`
  unfoldable pub get_vm : String → Act (List (String × String))
  unfolding list_vms find_vm
  get_vm name = do vms ← list_vms name; find_vm name vms

  -- `restart_vm` and `rename_vm`
  unfoldable pub restart_vm : String → Act Json
  unfolding exec_dict
  restart_vm name = exec_dict (machine_command "restart" name)

  unfoldable pub rename_vm : String → String → Act Json
  unfolding exec_dict
  rename_vm name new_name = exec_dict (rename_command name new_name)

  -- An ExeCommandError whose text has the phrase becomes another error.
  unfoldable pub instead : {A : Type 0} → String → ExeError → Result ExeError A → Act A
  unfolding mentions
  instead phrase other (ok a) = pure a
  instead phrase other (err (exe_command detail)) =
      if mentions phrase detail then raise other else raise (exe_command detail)
  instead phrase other (err e) = raise e

  -- `delete_vm`
  unfoldable pub delete_vm : String → Act Json
  unfolding exec_dict instead
  delete_vm name = do
    answer ← attempt (exec_dict (machine_command "rm" name))
    instead "not found" (exe_vm_not_found name) answer

  unfoldable pub send : String → ExeError → List ℕ → Act (Unit {0})
  unfolding request instead
  send phrase other command = do
    answer ← attempt (request command)
    text ← instead phrase other answer
    pass

  -- `create_http_proxy`, `update_http_proxy` and `delete_http_proxy`
  unfoldable pub create_http_proxy : String → String → List (String × String) → Act (Unit {0})
  unfolding send
  create_http_proxy name target headers =
      send "already exists" (integration_exists name) (add_command name target headers)

  unfoldable pub update_http_proxy : String → String → List (String × String) → Act (Unit {0})
  unfolding send
  update_http_proxy name target headers =
      send "not found" (integration_not_found name) (edit_command name target headers)

  unfoldable pub delete_http_proxy : String → Act (Unit {0})
  unfolding send
  delete_http_proxy name = send "not found" (integration_not_found name) (remove_command name)

  unfoldable pub bound : String → String → Result ExeError (List ℕ) → Act (Unit {0})
  unfolding attachment_error
  bound name vm (ok text) = pass
  bound name vm (err (exe_command detail)) = raise (attachment_error name vm detail)
  bound name vm (err e) = raise e

  -- `attach_http_proxy` and `detach_http_proxy`
  unfoldable pub attach_http_proxy : String → String → Act (Unit {0})
  unfolding request bound
  attach_http_proxy name vm = do
    answer ← attempt (request (binding_command "attach" name vm))
    bound name vm answer

  unfoldable pub detach_http_proxy : String → String → Act (Unit {0})
  unfolding request bound
  detach_http_proxy name vm = do
    answer ← attempt (request (binding_command "detach" name vm))
    bound name vm answer

  unfoldable pub names_of : List (Option String) → Act (List String)
  names_of [] = pure []
  names_of (none ∷ names) = raise exe_response
  names_of (some name ∷ names) = do rest ← names_of names; pure (name ∷ rest)

  unfoldable pub array_of : Json → Act (List String)
  unfolding names_of
  array_of (array names) = names_of names
  array_of (object members vms) = raise exe_response
  array_of scalar = raise exe_response

  -- `list_http_proxies`
  unfoldable pub list_http_proxies : Act (List String)
  unfolding request parse_json_response array_of
  list_http_proxies = do
    text ← request (codes "integrations list --json")
    json ← lift (parse_json_response exe.loads text)
    array_of json

-- The class of src/providers/exceptions.py that an error of `ExeAPI` belongs to once the `except`
-- clauses of `ExeProvider` have turned the three errors of a machine or an integration into the
-- provider's own; none is an error that is no ProviderError. `ExeProvider` has no update_http_proxy.
unfoldable pub kind_of : (on_machine : ProviderKind) → ExeError → Option ProviderKind
kind_of on_machine exe_auth = some ProviderKind.auth
kind_of on_machine exe_response = some ProviderKind.transport
kind_of on_machine (exe_command detail) = some ProviderKind.command
kind_of on_machine (exe_vm_not_found name) = some on_machine
kind_of on_machine (integration_not_found name) = some ProviderKind.proxy_not_found
kind_of on_machine (integration_exists name) = some ProviderKind.proxy_exists
kind_of on_machine key_error = none
kind_of on_machine value_error = none
