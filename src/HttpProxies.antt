-- ===== src/HttpProxies.antt =====
-- src/http_proxies: the service that binds a provider's HTTP proxies to hosts, its exceptions and the
-- names that the API takes.
pub mod Guarded
use drukbox.Base.{
  ℕ, String, Bool, true, false, not, ◌&&◌, ◌||◌, Option, none, some, List, [], ◌∷◌, leb, ◌==◌,
  if◌then◌else◌, str_eq, all,
}
use drukbox.Base.Op.{Result, ok, err, Op, pure, raise, gets, lift, modify, pass, ◌>>=◌, ◌>>◌}
use drukbox.Providers.{
  Provider, ProviderError, ProviderKind, target_vm_not_found, proxy_exists, proxy_not_found,
  Registry, get_vm_provider,
}
use drukbox.Hosts.Model.{Host, HostStatus}
use drukbox.Hosts.World.{find_host}

-- What the service raises.
pub data ProxyError : Type 0 where
  -- HTTPProxyError and its subclasses
  proxy_failed : ProxyError
  proxy_there : ProxyError
  proxy_missing : ProxyError
  proxy_unsupported : ProxyError
  -- ResourceNotFoundError and HostStateError
  host_missing : ProxyError
  host_without_vm : ProxyError

-- `status_code`
unfoldable pub status_code : ProxyError → ℕ
status_code proxy_failed = 503
status_code proxy_there = 409
status_code proxy_missing = 404
status_code proxy_unsupported = 501
status_code host_missing = 404
status_code host_without_vm = 409

-- The calls of `ExeProvider`.
pub data ProxyCall : Type 0 where
  create : (name target : String) (headers : List (String × String)) → ProxyCall
  delete : (name : String) → ProxyCall
  attach : (name vm : String) → ProxyCall
  detach : (name vm : String) → ProxyCall

-- The registered providers, what exe.dev answers, and the rows.
pub record Site : Type 0 where
  pub registry : Registry
  pub answer : ProxyCall → Result ProviderError (Unit {0})
  pub hosts : List Host

-- The calls that were made, the last one first.
abbrev pub Act : Type 0 → Type 0
Act A = Op (List ProxyCall) ProxyError A

-- `ExeProvider.name`
abbrev pub exe : String
exe = "exe"

-- `ATTACHABLE_HOST_STATUSES`
unfoldable pub is_attachable : HostStatus → Bool
is_attachable HostStatus.bootstrapping = true
is_attachable HostStatus.active = true
is_attachable _ = false

abbrev pub is_start : ℕ → Bool
is_start c = leb b'A' c && leb c b'Z' || leb b'a' c && leb c b'z' || leb b'0' c && leb c b'9'

-- `HTTP_PROXY_NAME_PATTERN`
unfoldable pub is_proxy_name : List ℕ → Bool
is_proxy_name [] = false
is_proxy_name (c ∷ cs) =
    is_start c && all (λ d. is_start d || d == b'_' || d == b'.' || d == b'-') cs

-- The `except` clauses of the four methods.
unfoldable pub creation_error : ProviderKind → ProxyError
creation_error proxy_exists = proxy_there
creation_error _ = proxy_failed

unfoldable pub deletion_error : ProviderKind → ProxyError
deletion_error proxy_not_found = proxy_missing
deletion_error _ = proxy_failed

unfoldable pub attachment_error : ProviderKind → ProxyError
attachment_error target_vm_not_found = host_without_vm
attachment_error proxy_not_found = proxy_missing
attachment_error _ = proxy_failed

unfoldable pub exe_only : Result ProviderError Provider → Result ProxyError Provider
exe_only (err e) = err proxy_unsupported
exe_only (ok vm) = if str_eq vm.name exe then ok vm else err proxy_unsupported

unfoldable pub mapped :
    (ProviderKind → ProxyError) → Result ProviderError (Unit {0}) → Result ProxyError (Unit {0})
mapped f (ok u) = ok u
mapped f (err e) = err (f e.kind)

module _ (site : Site) where
  -- `_exe_provider`
  unfoldable pub exe_provider : Option String → Act Provider
  unfolding exe_only
  exe_provider name = lift (exe_only (get_vm_provider site.registry name))

  unfoldable pub call : (ProviderKind → ProxyError) → ProxyCall → Act (Unit {0})
  unfolding mapped
  call f c = do modify (λ calls. c ∷ calls); lift (mapped f (site.answer c))

  -- `create_http_proxy`
  unfoldable pub create_http_proxy : String → String → List (String × String) → Act (Unit {0})
  unfolding exe_provider call
  create_http_proxy name target headers = do
    vm ← exe_provider none
    call creation_error (create name target headers)

  -- `delete_http_proxy`
  unfoldable pub delete_http_proxy : String → Act (Unit {0})
  unfolding exe_provider call
  delete_http_proxy name = do vm ← exe_provider none; call deletion_error (delete name)

  -- The steps that `attach_http_proxy` and `detach_http_proxy` share.
  unfoldable pub bind : (String → ProxyCall) → Option Host → Act (Unit {0})
  unfolding exe_provider call is_attachable
  bind c none = raise host_missing
  bind c (some host) =
      if is_attachable host.status
      then (do vm ← exe_provider (some host.provider); call attachment_error (c host.name))
      else raise host_without_vm

  -- `attach_http_proxy`
  unfoldable pub attach_http_proxy : String → ℕ → Act (Unit {0})
  unfolding bind
  attach_http_proxy name host_id = bind (attach name) (find_host host_id site.hosts)

  -- `detach_http_proxy`
  unfoldable pub detach_http_proxy : String → ℕ → Act (Unit {0})
  unfolding bind
  detach_http_proxy name host_id = bind (detach name) (find_host host_id site.hosts)
