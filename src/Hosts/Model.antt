-- ===== src/Hosts/Model.antt =====
-- src/hosts/models.py: the rows of `hosts` and `idempotency_keys`, and src/hosts/exceptions.py with
-- the other exceptions that reach HostService. A UUID is a number; times are
-- milliseconds.
use Prim.Native.String as Text
use drukbox.Base.{ℕ, zero, suc, ◌/◌, ◌%◌, String, Bool, true, false, Option, none, some, List, ltb}
use drukbox.Exchange.Secret.{Fault, issuer_error, bad_status, missing_secret}
use drukbox.HostSecrets.Catalog.{Entry}
use drukbox.Providers.{ProviderError, ProviderKind}

pub data HostStatus : Type 0 where
  provisioning creating_network creating_vm bootstrapping active error : HostStatus

abbrev pub is_error : HostStatus → Bool
is_error HostStatus.error = true
is_error _ = false

abbrev pub is_active : HostStatus → Bool
is_active HostStatus.active = true
is_active _ = false

-- DELETE_BLOCKED_STATUSES, VM_BACKED_STATUSES and RENEWABLE_STATUSES of src/hosts/service.py.
unfoldable pub is_delete_blocked : HostStatus → Bool
is_delete_blocked HostStatus.provisioning = true
is_delete_blocked HostStatus.creating_network = true
is_delete_blocked HostStatus.creating_vm = true
is_delete_blocked _ = false

unfoldable pub is_vm_backed : HostStatus → Bool
is_vm_backed HostStatus.bootstrapping = true
is_vm_backed HostStatus.active = true
is_vm_backed HostStatus.error = true
is_vm_backed _ = false

unfoldable pub is_renewable : HostStatus → Bool
is_renewable HostStatus.bootstrapping = true
is_renewable HostStatus.active = true
is_renewable _ = false

-- A row of `hosts`.
pub record Host : Type 0 where
  pub id : ℕ
  pub env : List (String × String)
  pub secrets : List (String × Entry)
  pub name : String
  pub service_account : Option String
  pub status : HostStatus
  pub provider : String
  pub image : String
  pub instance_type : Option String
  pub disk_gb : Option ℕ
  pub external_ssh_host : String
  pub external_ssh_port : ℕ
  pub ssh_username : String
  pub public_key : String
  pub internal_ssh_host : Option String
  pub known_hosts : String
  pub tailscale_device_id : Option String
  pub created_at : ℕ
  pub updated_at : ℕ
  pub activated_at : Option ℕ
  pub expires_at : Option ℕ
  pub claimed_at : Option ℕ
  pub pool_member : Bool
  pub last_error : String
  -- never stored: the instance that `provision` fills carries it to the response
  pub private_key : Option String

pub record IdempotencyKey : Type 0 where
  pub key : String
  pub host_id : ℕ
  pub created_at : ℕ
  pub expires_at : ℕ

-- `expires_at IS NULL OR expires_at > now`
abbrev pub is_unexpired : Option ℕ → ℕ → Bool
is_unexpired none now = true
is_unexpired (some end) now = ltb now end

-- What HostService raises or handles.
pub data Error : Type 0 where
  provider_error : ProviderError → Error
  issuer_fault : Fault → Error
  invalid_env : String → Error
  -- a `NetworkError`, with the name of its class
  network_error : (kind text : String) → Error
  host_key_scan : String → Error
  resource_not_found : String → Error
  host_state : String → Error
  idempotency_key_conflict : String → Error
  host_capacity : String → Error
  provisioning_failed : String → Error
  secrets_proxy_not_configured : Error
  secret_static : String → Error
  secret_refresh : String → Error
  unknown_template : Error
  template_not_available : String → Error
  template_state : String → Error
  -- raised by the database session: a unique index, or a row that is gone
  integrity_error : Error
  stale_row : Error
  -- a loop of the model ran out of rounds; none does
  out_of_rounds : Error

-- `type(exc).__name__`
abbrev kind_name : ProviderKind → String
kind_name ProviderKind.auth = "ProviderAuthError"
kind_name ProviderKind.transport = "ProviderTransportError"
kind_name ProviderKind.command = "ProviderCommandError"
kind_name ProviderKind.not_found = "ProviderNotFoundError"
kind_name ProviderKind.target_vm_not_found = "ProviderTargetVMNotFoundError"
kind_name ProviderKind.proxy_exists = "ProviderHttpProxyExistsError"
kind_name ProviderKind.proxy_not_found = "ProviderHttpProxyNotFoundError"
kind_name ProviderKind.unknown_provider = "UnknownProviderError"
kind_name ProviderKind.capability_unsupported = "CapabilityUnsupportedError"
kind_name ProviderKind.unsupported_sizing = "UnsupportedSizingError"

abbrev joined : String → String → String
joined a b = Text.◌++◌ a (Text.◌++◌ ": " b)

abbrev digit : ℕ → String
digit d = elim d [
  | zero ↦ "0"
  | suc zero ↦ "1"
  | suc (suc zero) ↦ "2"
  | suc (suc (suc zero)) ↦ "3"
  | suc (suc (suc (suc zero))) ↦ "4"
  | suc (suc (suc (suc (suc zero)))) ↦ "5"
  | suc (suc (suc (suc (suc (suc zero))))) ↦ "6"
  | suc (suc (suc (suc (suc (suc (suc zero)))))) ↦ "7"
  | suc (suc (suc (suc (suc (suc (suc (suc zero))))))) ↦ "8"
  | _ ↦ "9"
]

-- An HTTP status in decimal.
three_digits : ℕ → String
three_digits n = Text.◌++◌ (digit (n / 100)) (Text.◌++◌ (digit (n / 10 % 10)) (digit (n % 10)))

-- `f"{type(exc).__name__}: {exc}"`, for the exceptions that `provision` hands to `mark_failed`.
unfoldable pub failure_text : Error → String
unfolding three_digits
failure_text (provider_error e) = joined (kind_name e.kind) e.message
failure_text (issuer_fault (issuer_error text)) = joined "IssuerError" text
failure_text (issuer_fault (bad_status n)) =
    joined "IssuerError" (Text.◌++◌ "status " (three_digits n))
failure_text (issuer_fault (missing_secret text)) = joined "MissingSecretError" text
failure_text (invalid_env text) = joined "ValueError" text
failure_text (network_error kind text) = joined kind text
failure_text (host_key_scan text) = joined "HostKeyScanError" text
failure_text (provisioning_failed text) = joined "ProvisioningFailedError" text
failure_text _ = "Exception"
