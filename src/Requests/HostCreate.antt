-- ===== src/Requests/HostCreate.antt =====
-- src/hosts/schemas.py: the body of a create, and its validators. Times are milliseconds.
pub mod Served
pub mod Environment
use drukbox.Base.{
  ℕ, String, Bool, true, false, not, ◌&&◌, ◌||◌, Option, none, some, List, [], ◌∷◌, leb, ltb, ◌==◌,
  if◌then◌else◌, str_eq, is_text, is_some, is_empty, all, any, map, put,
}
use drukbox.Base.Op.{Result, ok, err}
use drukbox.Exchange.Secret.{codes}
use drukbox.HostSecrets.Catalog.{Service, service, catalog}
use drukbox.Base.{lookup}
use drukbox.Providers.Environment.{Variables, get_persist, is_name}
use drukbox.Proxy.Header.{is_blank}
use drukbox.Requests.Patterns.{is_secret_name}
use drukbox.Requests.SecretEntry.{SecretEntry, is_named, to_storage}

-- A `datetime` of a request: the time, and whether it has an offset.
pub record Stamp : Type 0 where
  pub time : ℕ
  pub aware : Bool

-- Why a body is refused; the last one is no ValueError, but the KeyError of `catalog.service`.
pub data Refusal : Type 0 where
  naive_expiry : Refusal
  past_expiry : Refusal
  blank_field : String → Refusal
  bad_disk : Refusal
  bad_secret_name : String → Refusal
  unknown_service : String → Refusal
  shared_variable : (first second variable : String) → Refusal
  bad_env_keys : List String → Refusal
  reserved_env_keys : List String → Refusal
  bad_env : String → Refusal
  image_and_template : Refusal
  key_error : Refusal

-- `expires_at` is none if the body leaves it out, and some none for null.
pub record HostCreate : Type 0 where
  pub image : Option String
  pub template : Option ℕ
  pub env : Variables
  pub secrets : List (String × SecretEntry)
  pub expires_at : Option (Option Stamp)
  pub provider : Option String
  pub instance_type : Option String
  pub disk_gb : Option ℕ

abbrev pub Check : Type 0
Check = Result Refusal (Unit {0})

infixl 12 ◌then◌
abbrev pub ◌then◌ : Check → Check → Check
ok u then c = c
err e then c = err e

abbrev pub require : Bool → Refusal → Check
require true e = ok tt
require false e = err e

-- `_expires_at_must_be_future_and_tz_aware`
unfoldable pub check_expiry : ℕ → Option Stamp → Check
check_expiry now none = ok tt
check_expiry now (some at) =
    require at.aware naive_expiry then require (ltb now at.time) past_expiry

-- `reject_blank`
unfoldable pub reject_blank : String → Option String → Check
reject_blank name none = ok tt
reject_blank name (some value) = require (not (all is_blank (codes value))) (blank_field name)

abbrev pub check_disk : Option ℕ → Check
check_disk none = ok tt
check_disk (some gb) = require (leb 1 gb) bad_disk

-- `name not in catalog.CATALOG`, where the entry names no host.
abbrev pub is_known : String → SecretEntry → Bool
is_known name entry = is_named entry.host || is_some (lookup name catalog)

-- The end of one round of the loop: a variable is for one name.
unfoldable pub add_variable :
    List (String × String)
    → String
    → String
    → Option String
    → Result Refusal (List (String × String))
add_variable variables name variable none = ok (put variable name variables)
add_variable variables name variable (some first) = err (shared_variable first name variable)

unfoldable pub take_variable :
    List (String × String) → String → Option Service → Result Refusal (List (String × String))
unfolding add_variable
take_variable variables name none = err key_error
take_variable variables name (some known) =
    add_variable variables name known.auth_variable (lookup known.auth_variable variables)

-- One round of the loop of `reject_unknown_secret_services`.
unfoldable pub check_secret :
    List (String × String) → String → SecretEntry → Result Refusal (List (String × String))
unfolding is_secret_name take_variable service to_storage
check_secret variables name entry =
    if not (is_secret_name (codes name))
    then err (bad_secret_name name)
    else if not (is_known name entry)
    then err (unknown_service name)
    else take_variable variables name (service name (to_storage entry))

-- `reject_unknown_secret_services`
unfoldable pub check_secrets : List (String × String) → List (String × SecretEntry) → Check
unfolding check_secret
check_secrets variables [] = ok tt
check_secrets variables ((name, entry) ∷ secrets) = elim (check_secret variables name entry) [
  | err e ↦ err e
  | ok more ↦ check_secrets more secrets
]

unfoldable pub keys_if : (String → Bool) → Variables → List String
keys_if p [] = []
keys_if p ((key, value) ∷ env) = let rest = keys_if p env in if p key then key ∷ rest else rest

abbrev pub from_persist : Result String (List (List ℕ)) → Check
from_persist (ok lines) = ok tt
from_persist (err text) = err (bad_env text)

-- `RESERVED_HOST_ENV_KEYS`
abbrev pub is_reserved : String → Bool
is_reserved key = str_eq key "TAILSCALE_AUTHKEY"

-- `reject_reserved_env_keys`; the order of the keys in the text is not modelled.
unfoldable pub check_env : Variables → Check
unfolding keys_if get_persist is_name
check_env env =
    require (is_empty (keys_if (λ k. not (is_name (codes k))) env))
      (bad_env_keys (keys_if (λ k. not (is_name (codes k))) env))
    then require (is_empty (keys_if is_reserved env)) (reserved_env_keys (keys_if is_reserved env))
    then from_persist (get_persist env)

-- `reject_image_with_template`
abbrev pub check_image : Option String → Option ℕ → Check
check_image (some image) (some template) = require (not (is_text image)) image_and_template
check_image _ _ = ok tt

abbrev pub expiry_of : Option (Option Stamp) → Option Stamp
expiry_of none = none
expiry_of (some e) = e

-- `HostCreate`, its fields in order and then the model.
unfoldable pub validate : ℕ → HostCreate → Check
unfolding check_expiry reject_blank check_secrets check_env
validate now body =
    reject_blank "image" body.image
    then check_env body.env
    then check_secrets [] body.secrets
    then check_expiry now (expiry_of body.expires_at)
    then reject_blank "instance_type" body.instance_type
    then check_disk body.disk_gb
    then check_image body.image body.template

-- `permanent` of `create_host` in src/hosts/api.py.
unfoldable pub is_permanent : HostCreate → Bool
is_permanent body = is_some body.expires_at && not (is_some (expiry_of body.expires_at))
