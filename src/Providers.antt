-- ===== src/Providers.antt =====
-- src/providers: the contract of base.py, the failures of exceptions.py, and registry.py. An
-- adapter of one vendor is a value of `Provider`: its calls are fields.
pub mod Lease
pub mod Environment
use Prim.Native.String as Text
use drukbox.Base.{
  ℕ, ◌+◌, min, String, Bool, true, false, Option, none, some, List, [], ◌∷◌, map, ltb,
  if◌then◌else◌, lookup,
}
use drukbox.Base.Op.{Result, ok, err}

-- The classes of exceptions.py, all of them `ProviderError`.
pub data ProviderKind : Type 0 where
  auth transport command not_found target_vm_not_found proxy_exists : ProviderKind
  proxy_not_found unknown_provider capability_unsupported unsupported_sizing : ProviderKind

pub record ProviderError : Type 0 where
  pub kind : ProviderKind
  pub message : String

-- What `except ProviderNotFoundError` catches.
unfoldable pub is_not_found : ProviderError → Bool
is_not_found e = elim e.kind [
  | not_found ↦ true
  | target_vm_not_found ↦ true
  | proxy_not_found ↦ true
  | _ ↦ false
]

pub record VmRequest : Type 0 where
  pub name : String
  pub image : String
  pub env : List (String × String)
  pub setup_script : Option String
  pub instance_type : Option String
  pub disk_gb : Option ℕ

pub record VmCreateResult : Type 0 where
  pub provider_id : String
  pub name : String
  pub ssh_username : String
  pub ssh_host : String
  pub ssh_port : ℕ
  pub private_key : Option String
  pub public_key : Option String

-- What `put_secret` is told of one secret.
pub record SecretRequest : Type 0 where
  pub vm : String
  pub auth_variable : String
  pub placeholder : List ℕ
  pub value : String

-- `VMProvider` with its `SecretInjectionCapability`; `gateway` says that it has a gateway process
-- class.
pub record Provider : Type 0 where
  pub name : String
  pub default_image : String
  pub needs_value : Bool
  pub gateway : Bool
  pub supports_instance_type : Bool
  pub supports_disk_gb : Bool
  pub tailnet : Bool
  pub max_lifetime : Option ℕ
  pub bootstrap_ssh_timeout : ℕ
  pub create_vm : VmRequest → Result ProviderError VmCreateResult
  pub delete_vm : String → Result ProviderError (Unit {0})
  pub put_secret : SecretRequest → Result ProviderError (List (String × String))
  pub delete_secrets : String → Result ProviderError (Unit {0})

-- The truth of `max_lifetime`, a `timedelta | None`: zero is false.
abbrev pub lifetime : Provider → Option ℕ
lifetime vm = elim vm.max_lifetime [
  | none ↦ none
  | some seconds ↦ if ltb 0 seconds then some seconds else none
]

-- `VMProvider.lease_end`
unfoldable pub lease_end : Provider → ℕ → Option ℕ → Option ℕ
lease_end vm created_at expires_at = elim (lifetime vm) [
  | none ↦ expires_at
  | some seconds ↦ elim expires_at [
    | none ↦ some (created_at + seconds)
    | some end ↦ some (min end (created_at + seconds))
  ]
]

-- registry.py: the registered providers by name, and the default's name.
pub record Registry : Type 0 where
  pub factories : List (String × Provider)
  pub default_host_provider : String

unfoldable pub get_vm_provider : Registry → Option String → Result ProviderError Provider
get_vm_provider registry name =
    let resolved : String = elim name [ none ↦ registry.default_host_provider | some n ↦ n ] in
    elim (lookup resolved registry.factories) [
      | none ↦
          err (record {
            kind = unknown_provider;
            message = Text.◌++◌ "unknown VM provider: " resolved;
          })
      | some vm ↦ ok vm
    ]

unfoldable pub get_provider_names : Registry → List String
get_provider_names registry = map (λ entry. entry.0) registry.factories
