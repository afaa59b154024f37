-- ===== src/Vendors/Exe/Commands.antt =====
-- src/providers/exe/api.py: the command lines of `ExeAPI`.
use drukbox.Base.{String, Option, none, some, List, [], ◌∷◌, ◌++◌, if◌then◌else◌, is_text, ℕ}
use drukbox.Exchange.Secret.{codes}
use drukbox.Providers.Environment.{Variables, quote}

-- `" ".join`
unfoldable pub join_blank : List (List ℕ) → List ℕ
join_blank [] = []
join_blank (part ∷ []) = part
join_blank (part ∷ next ∷ parts) = part ++ b' ' ∷ join_blank (next ∷ parts)

abbrev pub quoted : String → List ℕ
quoted text = quote (codes text)

-- `f"{option}={shlex.quote(text)}"`
abbrev pub option : String → String → List ℕ
option name text = codes name ++ quoted text

abbrev pub option_if : String → Option String → List (List ℕ)
option_if name none = []
option_if name (some text) = if is_text text then option name text ∷ [] else []

abbrev pub auth_option : Option (List ℕ) → List (List ℕ)
auth_option none = []
auth_option (some auth) = (codes "--registry-auth=" ++ quote auth) ∷ []

unfoldable pub env_arguments : Variables → List (List ℕ)
env_arguments [] = []
env_arguments ((key, value) ∷ env) =
    codes "--env" ∷ quote (codes key ++ b'=' ∷ codes value) ∷ env_arguments env

unfoldable pub header_arguments : List (String × String) → List (List ℕ)
header_arguments [] = []
header_arguments ((name, value) ∷ headers) =
    (codes "--header=" ++ quote (codes name ++ codes ": " ++ codes value))
    ∷ header_arguments headers

-- `command_parts` of `create_vm`, around the setup script; the tags are one, and `no_email` is true.
abbrev pub new_command :
    String → Option String → Option (List ℕ) → List (List ℕ) → List ℕ → Variables → List ℕ
new_command name image registry_auth script tag env = join_blank (
    (codes "new" ∷ codes "--json" ∷ option_if "--name=" (some name))
    ++ (option_if "--image=" image
        ++ (auth_option registry_auth
            ++ (script
                ++ ((codes "--tag=" ++ quote tag) ∷ codes "--no-email" ∷ env_arguments env)))))

-- The commands on integrations and on one machine.
abbrev pub add_command : String → String → List (String × String) → List ℕ
add_command name target headers = join_blank (
    codes "integrations"
    ∷ codes "add"
    ∷ codes "http-proxy"
    ∷ option "--name=" name
    ∷ option "--target=" target
    ∷ header_arguments headers)

abbrev pub edit_command : String → String → List (String × String) → List ℕ
edit_command name target headers = join_blank (
    codes "integrations"
    ∷ codes "edit"
    ∷ quoted name
    ∷ option "--target=" target
    ∷ header_arguments headers)

abbrev pub remove_command : String → List ℕ
remove_command name = join_blank (codes "integrations" ∷ codes "remove" ∷ quoted name ∷ [])

abbrev pub binding_command : String → String → String → List ℕ
binding_command verb name vm =
    join_blank
      (codes "integrations" ∷ codes verb ∷ quoted name ∷ quote (codes "vm:" ++ codes vm) ∷ [])

abbrev pub machine_command : String → String → List ℕ
machine_command verb name = join_blank (codes verb ∷ codes "--json" ∷ quoted name ∷ [])

abbrev pub rename_command : String → String → List ℕ
rename_command name new_name =
    join_blank (codes "rename" ∷ codes "--json" ∷ quoted name ∷ quoted new_name ∷ [])

-- The command of `list_vms`, in detail.
abbrev pub list_command : String → List ℕ
list_command pattern = join_blank (
    codes "ls"
    ∷ codes "--json"
    ∷ codes "-l"
    ∷ (if is_text pattern then quoted pattern ∷ [] else []))
