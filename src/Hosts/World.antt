-- ===== src/Hosts/World.antt =====
-- The world of HostService (src/hosts/service.py): the database, the clock, the calls that went
-- out, and the parts that the code does not implement. Times are milliseconds.
use drukbox.Base.{
  ◌≡◌, ℕ, suc, ◌+◌, ◌*◌, String, Bool, Option, none, some, List, [], ◌∷◌, ◌++◌, ◌==◌, if◌then◌else◌,
  str_eq, any,
}
use drukbox.Base.Op.{Result, ok, Op, gets, modify, ◌>>=◌, ◌>>◌}
use drukbox.Exchange.Secret.{Answer}
use drukbox.Templates.Model.{Template}
use drukbox.Providers.{Registry, ProviderError}
use drukbox.Hosts.Model.{Host, HostStatus, IdempotencyKey, Error}

abbrev pub seconds : ℕ → ℕ
seconds n = n * 1000

abbrev pub hours : ℕ → ℕ
hours n = n * 3600000

-- The settings of src/core/settings.py and src/gateway/settings.py that the hosts read.
pub record Settings : Type 0 where
  pub secrets_proxy_url : String
  pub secrets_proxy_ca_file : String
  pub device_discovery_timeout : ℕ
  pub idempotency_key_ttl_hours : ℕ
  pub provisioning_grace_seconds : ℕ
  pub lease_default_ttl : ℕ
  pub pool_sizes : List (String × ℕ)
  pub host_limits : List (String × ℕ)
  pub host_limit_per_service_account : Option ℕ
  pub pool_size : ℕ
  pub pool_host_max_age_hours : ℕ
  pub pool_max_creates_per_tick : ℕ
  pub gateway_ssh_host : String
  pub gateway_ssh_port : ℕ

pub record NetworkFault : Type 0 where
  pub kind : String
  pub text : String

-- src/networking/tailscale.py as HostService calls it.
pub record Tailscale : Type 0 where
  pub tailnet : String
  pub issue_join_credentials : String → Result NetworkFault String
  pub release_device : String → Result NetworkFault (Unit {0})
  pub wait_for_device : String → ℕ → Result NetworkFault String

pub record Db : Type 0 where
  pub hosts : List Host
  pub keys : List IdempotencyKey
  pub templates : List Template

-- What a run did outside the database and which statuses it committed, oldest first.
pub data Event : Type 0 where
  status_committed : ℕ → HostStatus → Event
  vm_created : String → Event
  -- A call that deletes, with what it answered.
  vm_delete_called : (vm : String) (answer : Result ProviderError (Unit {0})) → Event
  secrets_delete_called : (vm : String) (answer : Result ProviderError (Unit {0})) → Event
  device_release_called : (device : String) (answer : Result NetworkFault (Unit {0})) → Event
  row_deleted : ℕ → Event

pub record World : Type 0 where
  pub db : Db
  pub clock : ℕ
  pub turn : ℕ
  pub fresh : ℕ
  pub log : List Event

-- What a run takes from outside, each at the turn at which it is asked: what the other requests do
-- to the database while this one waits, how far the clock goes on before the next reading, the
-- issuer's answers, random tokens, `uuid7`, what ssh-keyscan writes (none when it cannot be run),
-- SHA-256 in hexadecimal, and the text of src/hosts/scripts/sandbox_bootstrap.sh.
pub record Env : Type 0 where
  pub settings : Settings
  pub registry : Registry
  pub tailscale : Option Tailscale
  pub others : ℕ → Db → Db
  pub delay : ℕ → ℕ
  pub answer : ℕ → Answer
  pub token : ℕ → List ℕ
  pub uuid7 : ℕ → ℕ
  pub keyscan : ℕ → String → ℕ → Option (String × String)
  pub sha256 : List ℕ → String
  pub bootstrap_script : String

-- When the other requests leave the database alone.
abbrev pub IsIdle : Env → Type 0
IsIdle env = (n : ℕ) (db : Db) → env.others n db ≡ db

abbrev pub Act : Type 0 → Type 0
Act A = Op World Error A

abbrev pub find_host : ℕ → List Host → Option Host
find_host i [] = none
find_host i (h ∷ hs) = if h.id == i then some h else find_host i hs

abbrev pub has_host : ℕ → List Host → Bool
has_host i = any (λ h. h.id == i)

abbrev pub has_name : String → List Host → Bool
has_name name = any (λ h. str_eq h.name name)

-- `UPDATE hosts SET … WHERE id = i`
abbrev pub update_row : ℕ → (Host → Host) → List Host → List Host
update_row i f [] = []
update_row i f (h ∷ hs) = (if h.id == i then f h else h) ∷ update_row i f hs

abbrev pub remove_row : ℕ → List Host → List Host
remove_row i [] = []
remove_row i (h ∷ hs) = if h.id == i then remove_row i hs else h ∷ remove_row i hs

-- The foreign key of `idempotency_keys` cascades.
abbrev pub remove_keys : ℕ → List IdempotencyKey → List IdempotencyKey
remove_keys i [] = []
remove_keys i (k ∷ ks) = if k.host_id == i then remove_keys i ks else k ∷ remove_keys i ks

abbrev pub update_template : ℕ → (Template → Template) → List Template → List Template
update_template i f [] = []
update_template i f (t ∷ ts) = (if t.id == i then f t else t) ∷ update_template i f ts

abbrev pub find_template : ℕ → List Template → Option Template
find_template i [] = none
find_template i (t ∷ ts) = if t.id == i then some t else find_template i ts

module _ (env : Env) where
  -- Between two statements of a run, other requests and processes may change the database.
  unfoldable pub await_others : Act (Unit {0})
  unfolding ◌>>=◌
  await_others = modify (λ w. record w { db = env.others w.turn w.db; turn = suc w.turn })

  -- `datetime.now(UTC)` and `time.monotonic()`
  unfoldable pub utc_now : Act ℕ
  utc_now w =
      let now = w.clock + env.delay w.turn in (ok now, record w { clock = now; turn = suc w.turn })

  -- `asyncio.sleep`
  unfoldable pub sleep : ℕ → Act (Unit {0})
  unfolding ◌>>=◌ await_others
  sleep n = do modify (λ w. record w { clock = w.clock + n }); await_others

  unfoldable pub note : Event → Act (Unit {0})
  unfolding ◌>>=◌
  note e = modify (λ w. record w { log = w.log ++ e ∷ [] })

  -- The state of the database that a query sees.
  unfoldable pub query : {A : Type 0} → (Db → A) → Act A
  unfolding ◌>>=◌
  query f = gets (λ w. f w.db)

  unfoldable pub store : (Db → Db) → Act (Unit {0})
  unfolding ◌>>=◌
  store f = modify (λ w. record w { db = f w.db })
