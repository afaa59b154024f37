-- ===== src/Networking/Api.antt =====
-- networking/tailscale.py: `TailscaleAPI` and `Tailscale`. Times are seconds; nothing else runs
-- between two statements of one call.
pub mod Live
pub mod Deleted
use Prim.Native.String as Text
use drukbox.Base.{
  ℕ, zero, suc, ◌+◌, ◌-◌, ◌*◌, String, Bool, true, false, ◌&&◌, ◌||◌, Option, none, some, List, [],
  ◌∷◌, ltb, leb, ◌==◌, if◌then◌else◌, is_text, is_empty, text_or, lookup, length, map,
}
use drukbox.Base.Op.{
  Result, ok, err, Op, pure, raise, gets, lift, modify, pass, attempt, ◌>>=◌, ◌>>◌,
}
use drukbox.Exchange.Secret.{codes}

pub data NetworkFault : Type 0 where
  -- NetworkAuthError
  network_auth : String → NetworkFault
  -- NetworkTransportError: a text, or a status and a detail
  network_transport : String → NetworkFault
  network_status : ℕ → String → NetworkFault
  -- DeviceDiscoveryTimeoutError
  discovery_timeout : String → NetworkFault
  -- the KeyError of a member that is not there, the ValueError of a number
  key_error : NetworkFault
  value_error : NetworkFault

pub record Device : Type 0 where
  pub id : String
  pub hostname : String

pub record AuthKey : Type 0 where
  pub id : String
  pub key : String
  pub description : String
  pub key_type : String

-- The members of a JSON object as `str` writes them, and its list of devices.
pub record Document : Type 0 where
  pub members : List (String × String)
  pub devices : Option (List Device)

-- What httpx gives: a RequestError, or a status with the body, stripped, and its JSON.
pub data Reply : Type 0 where
  unreachable : String → Reply
  replied : (status : ℕ) (text : String) (json : Option Document) → Reply

pub data Request : Type 0 where
  get_token : (client_id client_secret : String) → Request
  post_key :
      (token tailnet description : String) (tags : List String) (expiry_seconds : ℕ)
      (preauthorized ephemeral reusable : Bool)
      → Request
  get_devices : (token tailnet : String) → Request
  delete : (token device_id : String) → Request

-- `expires_at` and the clock are `time.monotonic`; `asked` are the requests, the last one first.
pub record Api : Type 0 where
  pub oauth_client_id : String
  pub oauth_client_secret : String
  pub tailnet : String
  pub auth_key_tags : List String
  pub access_token : Option String
  pub expires_at : ℕ
  pub clock : ℕ
  pub turn : ℕ
  pub asked : List Request

-- The outside: the reply to the request of each turn and the time that it takes.
pub record Tailnet : Type 0 where
  pub reply : ℕ → Request → Reply
  pub delay : ℕ → ℕ

abbrev pub Act : Type 0 → Type 0
Act A = Op Api NetworkFault A

-- `access_token_expiry_buffer_seconds`
abbrev pub buffer : ℕ
buffer = 60

-- `int` of a text of digits; a sign, blanks and underscores, which `int` would take, are refused.
unfoldable pub digits : ℕ → List ℕ → Option ℕ
digits n [] = some n
digits n (c ∷ cs) = if leb b'0' c && leb c b'9' then digits (n * 10 + (c - b'0')) cs else none

unfoldable pub int_of : String → Option ℕ
unfolding digits
int_of text = if is_text text then digits 0 (codes text) else none

-- `response[name]`
unfoldable pub member : String → Document → Result NetworkFault String
member name document = elim (lookup name document.members) [
  | none ↦ err key_error
  | some value ↦ ok value
]

-- The token of a document and the seconds that it is for.
unfoldable pub read_token : Document → Result NetworkFault (String × ℕ)
unfolding int_of
read_token document = elim (lookup "expires_in" document.members) [
  | none ↦ err key_error
  | some life ↦ elim (int_of life) [
    | none ↦ err value_error
    | some seconds ↦ elim (lookup "access_token" document.members) [
      | none ↦ err key_error
      | some token ↦ ok (token, seconds)
    ]
  ]
]

-- The detail of a refused request: the message, the error, or the body.
unfoldable pub detail_of : String → Document → String
detail_of text document =
    text_or (lookup "message" document.members) (text_or (lookup "error" document.members) text)

-- `_request`, once the reply is there.
unfoldable pub read_reply : Reply → Result NetworkFault Document
unfolding detail_of
read_reply (unreachable text) =
    err (network_transport (Text.◌++◌ "Tailscale API transport failed: " text))
read_reply (replied status text json) =
    if status == 401
    then err (network_auth "Tailscale API authentication failed")
    else if status == 403
    then err (network_auth "Tailscale API request was rejected by access control")
    else elim json [
      | none ↦ err (network_transport "Tailscale API returned non-JSON output")
      | some document ↦
          if leb 400 status
          then err (network_status status (detail_of text document))
          else ok document
    ]

-- `delete_device`, once the reply is there.
unfoldable pub read_deleted : Reply → Result NetworkFault (Unit {0})
read_deleted (unreachable text) =
    err (network_transport (Text.◌++◌ "Tailscale API transport failed: " text))
read_deleted (replied status text json) =
    if status == 401
    then err (network_auth "Tailscale API authentication failed")
    else if status == 403
    then err (network_auth "Tailscale API request was rejected by access control")
    else if status == 404
    then ok tt
    else if status == 200 || status == 204
    then ok tt
    else if is_text text
    then err (network_transport text)
    else err (network_status status "")

-- The cached token, before its end.
unfoldable pub unexpired : Option String → ℕ → ℕ → Option String
unexpired none now expires_at = none
unexpired (some token) now expires_at =
    if is_text token && ltb now expires_at then some token else none

-- `response["devices"]`
unfoldable pub devices_of : Option (List Device) → Act (List Device)
devices_of none = raise key_error
devices_of (some devices) = pure devices

module _ (net : Tailnet) where
  unfoldable pub send : Request → Act Reply
  send request api = (
    ok (net.reply api.turn request),
    record api {
      clock = api.clock + net.delay api.turn;
      turn = suc api.turn;
      asked = request ∷ api.asked;
    },
  )

  -- `_request`
  unfoldable pub request : Request → Act Document
  unfolding send read_reply
  request r = do reply ← send r; lift (read_reply reply)

  unfoldable pub ask_token : ℕ → Request → Act String
  unfolding request read_token
  ask_token now r = do
    document ← request r
    (token, seconds) ← lift (read_token document)
    modify (λ api. record api { access_token = some token; expires_at = now + seconds - buffer })
    pure token

  unfoldable pub from_cache : Option String → ℕ → Request → Act String
  unfolding ask_token
  from_cache (some token) now r = pure token
  from_cache none now r = ask_token now r

  -- `get_access_token`
  unfoldable pub get_access_token : Act String
  unfolding from_cache unexpired
  get_access_token = do
    now ← gets (λ api. api.clock)
    found ← gets (λ api. unexpired api.access_token now api.expires_at)
    r ← gets (λ api. get_token api.oauth_client_id api.oauth_client_secret)
    from_cache found now r

  abbrev pub or_tags : List String → List String → List String
  or_tags [] own = own
  or_tags (t ∷ ts) own = t ∷ ts

  -- `create_auth_key`
  unfoldable pub create_auth_key :
      String → List String → ℕ → (preauthorized ephemeral reusable : Bool) → Act AuthKey
  unfolding get_access_token request member
  create_auth_key description tags expiry_seconds preauthorized ephemeral reusable = do
    token ← get_access_token
    api ← gets (λ a. a)
    document ← request (
        post_key token api.tailnet description (or_tags tags api.auth_key_tags) expiry_seconds
          preauthorized ephemeral reusable)
    id ← lift (member "id" document)
    key ← lift (member "key" document)
    described ← lift (member "description" document)
    key_type ← lift (member "keyType" document)
    pure (record { id = id; key = key; description = described; key_type = key_type })

  -- `list_devices`
  unfoldable pub list_devices : Act (List Device)
  unfolding get_access_token request devices_of
  list_devices = do
    token ← get_access_token
    api ← gets (λ a. a)
    document ← request (get_devices token api.tailnet)
    devices_of document.devices

  -- `delete_device`
  unfoldable pub delete_device : String → Act (Unit {0})
  unfolding get_access_token send read_deleted
  delete_device device_id = do
    token ← get_access_token
    reply ← send (delete token device_id)
    lift (read_deleted reply)

  -- `Tailscale.issue_join_credentials`: the environment with which a machine joins.
  unfoldable pub issue_join_credentials : String → Act (List (String × String))
  unfolding create_auth_key
  issue_join_credentials host_name = do
    key ← create_auth_key (Text.◌++◌ "drukbox " host_name) [] 86400 true true false
    pure (("TAILSCALE_AUTHKEY", key.key) ∷ ("TAILSCALE_HOSTNAME", host_name) ∷ [])

  -- `Tailscale.diagnose`: the tailnet and the number of its devices.
  unfoldable pub diagnose : Act (String × ℕ)
  unfolding list_devices
  diagnose = do devices ← list_devices; api ← gets (λ a. a); pure (api.tailnet, length devices)

-- The calls of one API object, one after the other, each ending as it may.
pub data Call : Type 0 where
  join : (host_name : String) → Call
  discover : Call
  release : (device_ref : String) → Call

module _ (net : Tailnet) where
  unfoldable pub serve : Call → Act (Unit {0})
  unfolding issue_join_credentials list_devices delete_device
  serve (join host_name) = do env ← issue_join_credentials net host_name; pass
  serve discover = do devices ← list_devices net; pass
  serve (release device_ref) = delete_device net device_ref

  unfoldable pub serve_all : List Call → Act (Unit {0})
  unfolding serve
  serve_all [] = pass
  serve_all (c ∷ cs) = do ended ← attempt (serve c); serve_all cs

-- `Tailscale.build_ssh_host`
unfoldable pub build_ssh_host : String → Api → String
build_ssh_host name api = Text.◌++◌ name (Text.◌++◌ "." api.tailnet)
