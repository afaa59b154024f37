-- ===== src/Tests/Vendors.antt =====
-- The theorems about the adapters of the vendors, at concrete inputs.
use drukbox.Base.{ℕ, zero, suc, arith, String, ◌≡◌, refl, none, some, List, [], ◌∷◌, ◌++◌}
use drukbox.Base.Op.{◌>>=◌}
use drukbox.Exchange.Secret.{codes}
use drukbox.Providers.Environment.{Variables, quote}
use drukbox.Vendors.Exe.Script.{encode_setup_script}
use drukbox.Vendors.Exe.Script.RoundTrip.{read_argument, read_argument-encode_setup_script}
use drukbox.Vendors.Exe.Reply.{object, Reply, replied}
use drukbox.Vendors.Exe.Commands.{
  join_blank, env_arguments, add_command, edit_command, remove_command, binding_command,
  machine_command, rename_command, list_command, new_command,
}
use drukbox.Vendors.Exe.Api.{
  Exe, create_http_proxy, update_http_proxy, delete_http_proxy, attach_http_proxy,
  detach_http_proxy,
}
use drukbox.Vendors.Exe.Words.{Reads, pattern_texts, new_texts, header_texts, read_words-command}
use drukbox.Vendors.Exe.Sent.{IsSent, http_proxies-AreSent}
use drukbox.Vendors.Exe.Provider.{Registry, create_vm, registry_of}
use drukbox.Vendors.Exe.Provider.Credentials.{create_vm-other_registry}
use drukbox.Base.{false, ◌+◌, ◌⊎◌}
use drukbox.Base.Keeps.{Outcome}
use drukbox.Vendors.Hetzner.Api.{
  Payload, json, Hetzner, Request, get_servers, get_keys, delete_server_of, State, run_timeout,
  wait_for_running_with_ip,
}
use drukbox.Vendors.Hetzner.Api as Api
use drukbox.Vendors.Hetzner.Provider.{key_name, delete_vm}
use drukbox.Vendors.Hetzner.Replies.{is_missing}
use drukbox.Vendors.Hetzner.Ready.{IsEnd, wait_for_running_with_ip-IsEnd}
use drukbox.Vendors.Hetzner.Gone.{KeyGone, ServerGone, NoServer, delete_vm-IsGone}

-- Its first reply has a payload, the others are errors of a command.
abbrev answer : ℕ → List ℕ → Reply
answer zero command = replied 200 (codes "{}")
answer (suc turn) command = replied 404 (codes "VM not found")

abbrev exe : Exe
exe = record {
  default_image = "";
  ssh_username = "exedev";
  service_label = "drukbox";
  reply = answer;
  loads = λ text.
      some
        (object (("vm_name", "box") ∷ ("ssh_port", "22") ∷ ("ssh_dest", "box.exe.xyz") ∷ []) none);
  int = λ text. some 22;
}

abbrev registry : Registry
registry = record { host = "ghcr.io"; username = codes "bot"; password = codes "secret" }

abbrev headers : List (String × String)
headers = ("Authorization", "Bearer it's") ∷ []

read_argument-encode_setup_script_example :
    read_argument (encode_setup_script (codes "echo \"hi\"\nls") ++ codes " --no-email")
    ≡ some (codes "echo \"hi\"\nls", codes " --no-email")
read_argument-encode_setup_script_example =
    read_argument-encode_setup_script (codes "echo \"hi\"\nls") (codes " --no-email")

abbrev variables : Variables
variables = ("GREETING", "hello world") ∷ []

read_words-command_example :
    Reads (add_command "a b" "https://x" headers) (
      codes "integrations"
      ∷ codes "add"
      ∷ codes "http-proxy"
      ∷ (codes "--name=" ++ codes "a b")
      ∷ (codes "--target=" ++ codes "https://x")
      ∷ header_texts headers)
    × Reads (edit_command "a b" "https://x" headers) (
        codes "integrations"
        ∷ codes "edit"
        ∷ codes "a b"
        ∷ (codes "--target=" ++ codes "https://x")
        ∷ header_texts headers)
    × Reads
        (binding_command "attach" "a b" "box;rm")
        (codes "integrations" ∷ codes "attach" ∷ codes "a b" ∷ (codes "vm:" ++ codes "box;rm") ∷ [])
    × Reads
        (binding_command "detach" "a b" "box;rm")
        (codes "integrations" ∷ codes "detach" ∷ codes "a b" ∷ (codes "vm:" ++ codes "box;rm") ∷ [])
    × Reads (remove_command "a b") (codes "integrations" ∷ codes "remove" ∷ codes "a b" ∷ [])
    × Reads (machine_command "rm" "box;rm") (codes "rm" ∷ codes "--json" ∷ codes "box;rm" ∷ [])
    × Reads
        (machine_command "restart" "box;rm")
        (codes "restart" ∷ codes "--json" ∷ codes "box;rm" ∷ [])
    × Reads
        (rename_command "box;rm" "box")
        (codes "rename" ∷ codes "--json" ∷ codes "box;rm" ∷ codes "box" ∷ [])
    × Reads (list_command "b*") (codes "ls" ∷ codes "--json" ∷ codes "-l" ∷ pattern_texts "b*")
    × Reads
        (new_command "a b" (some "ubuntu") none [] (codes "tag") variables)
        (new_texts "a b" (some "ubuntu") none (codes "tag") variables)
read_words-command_example =
    read_words-command "a b" "https://x" "box;rm" "box" "b*" headers (some "ubuntu") none
      (codes "tag") variables

http_proxies-AreSent_example :
    IsSent exe (add_command "p" "t" headers) [] (create_http_proxy exe "p" "t" headers [])
    × IsSent exe (edit_command "p" "t" headers) [] (update_http_proxy exe "p" "t" headers [])
    × IsSent exe (remove_command "p") [] (delete_http_proxy exe "p" [])
    × IsSent exe (binding_command "attach" "p" "box") [] (attach_http_proxy exe "p" "box" [])
    × IsSent exe (binding_command "detach" "p" "box") [] (detach_http_proxy exe "p" "box" [])
http_proxies-AreSent_example = http_proxies-AreSent exe "p" "t" "box" headers []

docker_io : ¬ (registry_of (codes "docker.io/ubuntu") ≡ codes registry.host)
unfolding registry_of
docker_io h = ground (arith, h)

create_vm-other_registry_example :
    create_vm exe registry "box" "docker.io/ubuntu" [] none []
    ≡ create_vm exe
        (record { host = registry.host; username = codes "eve"; password = [] })
        "box"
        "docker.io/ubuntu"
        []
        none
        []
create_vm-other_registry_example =
    create_vm-other_registry exe registry (codes "eve") [] "box" "docker.io/ubuntu" [] none []
      docker_io

create_vm_run :
    (create_vm exe registry "box" "docker.io/ubuntu" [] none []).1
    ≡ codes "new --json --name=box --image=docker.io/ubuntu --tag=managed-by-drukbox --no-email"
      ∷ []
unfolding create_vm ◌>>=◌ join_blank quote env_arguments
create_vm_run = refl

-- Hetzner lists no key, and a server that is running.
abbrev listed : Payload
listed = record {
  ssh_keys = some [];
  servers = some (some "7" ∷ []);
  server = some (record { id = some "7"; status = some "running"; ip = some "192.0.2.1" });
  total_entries = some "1";
}

abbrev hetzner : Hetzner
hetzner = record {
  default_image = "debian-12";
  location = "fsn1";
  server_type = "cx22";
  ssh_username = "root";
  service_label = "drukbox";
  reply = λ turn r. Api.replied 200 (json listed);
  delay = λ turn. 40;
}

abbrev start : State
start = record { clock = 5; asked = [] }

wait_for_running_with_ip-IsEnd_example :
    IsEnd hetzner "7" (start.clock + run_timeout) (wait_for_running_with_ip hetzner "7" start)
wait_for_running_with_ip-IsEnd_example = wait_for_running_with_ip-IsEnd hetzner "7" start

delete_vm-IsGone_example :
    Outcome
      (λ u s'.
        (mid : List Request) × KeyGone hetzner (key_name "box") mid
        × ServerGone hetzner "box" mid s'.asked)
      (λ e s'.
        (is_missing e ≡ false)
        ⊎ ((mid : List Request) × KeyGone hetzner (key_name "box") mid
            × NoServer hetzner "box" mid s'.asked))
      (delete_vm hetzner "box" start)
delete_vm-IsGone_example = delete_vm-IsGone hetzner "box" start

delete_vm_run :
    (delete_vm hetzner "box" start).1.asked
    ≡ delete_server_of "7" ∷ get_servers "box" ∷ get_keys "drukbox-box" ∷ []
unfolding delete_vm ◌>>=◌
delete_vm_run = refl
