-- ===== src/Vendors/Hetzner/Api.antt =====
-- src/providers/hetzner/api.py: `HetznerAPI`. Times are milliseconds; nothing else runs between two
-- statements of one call.
use drukbox.Base.{
  ℕ, zero, suc, ◌+◌, String, Option, none, some, List, [], ◌∷◌, leb, ◌==◌, if◌then◌else◌, is_text,
  str_eq, text_or, length,
}
use drukbox.Base.Op.{
  Result, ok, err, Op, pure, raise, gets, lift, modify, pass, attempt, ◌>>=◌, ◌>>◌,
}

-- HetznerVMNotFoundError and HetznerTransportError, the errors of src/providers/exceptions.py that the
-- provider makes of them, the KeyError of a payload, the ValueError of a variable, and the end of the
-- fuel of the loop.
pub data HetznerFault : Type 0 where
  vm_not_found : HetznerFault
  transport : HetznerFault
  provider_transport : HetznerFault
  provider_not_found : HetznerFault
  key_error : HetznerFault
  value_error : HetznerFault
  unfinished : HetznerFault

-- A server of a payload: its members as `str` writes them; `ip` is none too where the path to it ends.
pub record Server : Type 0 where
  pub id : Option String
  pub status : Option String
  pub ip : Option String

-- The members of a payload that the code looks for; of keys and servers in a list, the ids.
pub record Payload : Type 0 where
  pub ssh_keys : Option (List (Option String))
  pub servers : Option (List (Option String))
  pub server : Option Server
  pub total_entries : Option String

pub data Content : Type 0 where
  no_content : Content
  no_json : Content
  json : Payload → Content

pub data Reply : Type 0 where
  unreachable : Reply
  replied : (status : ℕ) (content : Content) → Reply

-- The body of `create_server`, without its constant members.
pub record ServerBody : Type 0 where
  pub name : String
  pub server_type : String
  pub image : String
  pub location : String
  pub ssh_key : String
  pub labels : List (String × String)
  pub user_data : Option (List ℕ)

pub data Request : Type 0 where
  get_keys : (name : String) → Request
  post_key : (name public_key : String) (labels : List (String × String)) → Request
  delete_key : (id : String) → Request
  post_server : ServerBody → Request
  get_server : (id : String) → Request
  get_servers : (name : String) → Request
  delete_server_of : (id : String) → Request
  get_one_page : Request

-- The clock is `time.monotonic`; `asked` are the requests, the last one first.
pub record State : Type 0 where
  pub clock : ℕ
  pub asked : List Request

-- The settings, the reply to the request of each turn and the time that it takes.
pub record Hetzner : Type 0 where
  pub default_image : String
  pub location : String
  pub server_type : String
  pub ssh_username : String
  pub service_label : String
  pub reply : ℕ → Request → Reply
  pub delay : ℕ → ℕ

abbrev pub Act : Type 0 → Type 0
Act A = Op State HetznerFault A

abbrev pub empty_payload : Payload
empty_payload = record { ssh_keys = none; servers = none; server = none; total_entries = none }

unfoldable pub read_content : Content → Result HetznerFault Payload
read_content no_content = ok empty_payload
read_content no_json = err transport
read_content (json payload) = ok payload

-- `_request`, once the reply is there.
unfoldable pub read_reply : Reply → Result HetznerFault Payload
unfolding read_content
read_reply unreachable = err transport
read_reply (replied status content) =
    if status == 404
    then err vm_not_found
    else if leb 400 status
    then err transport
    else read_content content

-- A member that the code reads with `[...]`.
unfoldable pub needed : {A : Type 0} → Option A → Result HetznerFault A
needed none = err key_error
needed (some a) = ok a

abbrev pub text_or_none : Option String → Option String
text_or_none none = none
text_or_none (some text) = if is_text text then some text else none

-- The address of a server that is running and has one.
unfoldable pub ready_ip : (status ip : Option String) → Result HetznerFault (Option String)
ready_ip none ip = err key_error
ready_ip (some status) ip = if str_eq status "running" then ok (text_or_none ip) else ok none

abbrev pub data_or_none : List ℕ → Option (List ℕ)
data_or_none [] = none
data_or_none (c ∷ cs) = some (c ∷ cs)

-- `_RUN_TO_IP_POLL_SECONDS` and `_RUN_TO_IP_TIMEOUT_SECONDS`
abbrev pub poll_time : ℕ
poll_time = 3000

abbrev pub run_timeout : ℕ
run_timeout = 300000

unfoldable pub sleep : State → State
sleep s = record { clock = s.clock + poll_time; asked = s.asked }

-- One question at each end of the 100 pauses that fit into the limit.
abbrev pub rounds : ℕ
rounds = 101

-- A HetznerVMNotFoundError is suppressed.
unfoldable pub or_gone : Result HetznerFault Payload → Act (Unit {0})
or_gone (ok answer) = pass
or_gone (err vm_not_found) = pass
or_gone (err e) = raise e

unfoldable pub first_id : List (Option String) → Act (Option String)
unfolding needed
first_id [] = pure none
first_id (server ∷ servers) = do id ← lift (needed server); pure (some id)

-- The rest of a turn of the loop, with the turns that follow.
unfoldable pub go_on : Act String → ℕ → Option String → Act String
unfolding sleep
go_on again deadline (some ip) = pure ip
go_on again deadline none = do
  now ← gets (λ s. s.clock)
  if leb deadline now then raise transport else (do modify sleep; again)

module _ (hetzner : Hetzner) where
  unfoldable pub note : Request → State → State
  note r s = record { clock = s.clock + hetzner.delay (length s.asked); asked = r ∷ s.asked }

  -- `_request`
  unfoldable pub request : Request → Act Payload
  unfolding note read_reply
  request r = do
    turn ← gets (λ s. length s.asked)
    modify (note r)
    lift (read_reply (hetzner.reply turn r))

  unfoldable pub add_key :
      String → String → List (String × String) → List (Option String) → Act (Unit {0})
  unfolding request
  add_key name public_key labels [] = do answer ← request (post_key name public_key labels); pass
  add_key name public_key labels (key ∷ keys) = pass

  -- `ensure_ssh_key`
  unfoldable pub ensure_ssh_key : String → String → List (String × String) → Act (Unit {0})
  unfolding request needed add_key
  ensure_ssh_key name public_key labels = do
    existing ← request (get_keys name)
    keys ← lift (needed existing.ssh_keys)
    add_key name public_key labels keys

  unfoldable pub delete_first_key : List (Option String) → Act (Unit {0})
  unfolding request needed or_gone
  delete_first_key [] = pass
  delete_first_key (key ∷ keys) = do
    id ← lift (needed key)
    answer ← attempt (request (delete_key id))
    or_gone answer

  -- `delete_ssh_key`
  unfoldable pub delete_ssh_key : String → Act (Unit {0})
  unfolding request needed delete_first_key
  delete_ssh_key name = do
    existing ← request (get_keys name)
    keys ← lift (needed existing.ssh_keys)
    delete_first_key keys

  -- `create_server`
  unfoldable pub create_server :
      String → String → String → List ℕ → List (String × String) → Option String → Act String
  unfolding request needed
  create_server name image ssh_key_name user_data labels server_type = do
    response ← request (
        post_server (record {
          name = name;
          server_type = text_or server_type hetzner.server_type;
          image = image;
          location = hetzner.location;
          ssh_key = ssh_key_name;
          labels = labels;
          user_data = data_or_none user_data;
        }))
    server ← lift (needed response.server)
    lift (needed server.id)

  -- One question of the loop of `wait_for_running_with_ip`.
  unfoldable pub ask_ip : String → Act (Option String)
  unfolding request needed ready_ip
  ask_ip server_id = do
    answer ← request (get_server server_id)
    server ← lift (needed answer.server)
    lift (ready_ip server.status server.ip)

  unfoldable pub wait_until : (fuel : ℕ) (server_id : String) (deadline : ℕ) → Act String
  unfolding ask_ip go_on
  wait_until zero server_id deadline = raise unfinished
  wait_until (suc fuel) server_id deadline =
      let again = wait_until fuel server_id deadline in
      do found ← ask_ip server_id; go_on again deadline found

  -- `wait_for_running_with_ip`
  unfoldable pub wait_for_running_with_ip : String → Act String
  unfolding wait_until
  wait_for_running_with_ip server_id = do
    now ← gets (λ s. s.clock)
    wait_until rounds server_id (now + run_timeout)

  -- `find_server_id_by_name`
  unfoldable pub find_server_id_by_name : String → Act (Option String)
  unfolding request needed first_id
  find_server_id_by_name name = do
    response ← request (get_servers name)
    servers ← lift (needed response.servers)
    first_id servers

  -- `delete_server`
  unfoldable pub delete_server : String → Act (Unit {0})
  unfolding request or_gone
  delete_server server_id = do
    answer ← attempt (request (delete_server_of server_id))
    or_gone answer

  -- `count_servers`; the count is what `str` makes of it.
  unfoldable pub count_servers : Act String
  unfolding request needed
  count_servers = do response ← request get_one_page; lift (needed response.total_entries)
