-- ===== src/Exchange/Table.antt =====
-- src/secrets_exchange/secrets.py: `Secrets`, the entries' objects by host and service. An entry's
-- object is known by a number, so that a background fetch whose object has left the table since
-- leaves the new one alone. One call runs at a time, and a background fetch is a call of its own.
pub mod Served
use drukbox.Base.{
  ℕ, suc, ◌+◌, String, Bool, true, false, not, ◌&&◌, Option, none, some, List, [], ◌∷◌, ◌++◌, ◌==◌,
  if◌then◌else◌, str_eq, is_some, keep_if, any,
}
use drukbox.Base.Op.{
  Result, ok, err, Op, pure, raise, gets, lift, modify, pass, attempt, ◌>>=◌, ◌>>◌,
}
use drukbox.HostSecrets.Catalog.{Entry}
use drukbox.Providers.{Provider, ProviderError, Registry, get_vm_provider}
use drukbox.Hosts.Model.{Host}
use drukbox.Exchange.Secret.{Secret, Issuer, is_valid, is_stale}
use drukbox.Exchange.Refreshable as One
use drukbox.Exchange.Refreshable.{
  Cell, Held, Refreshable, World, Failure, delivery_failed, fresh, is_due,
}

pub record Slot : Type 0 where
  pub host_id : ℕ
  pub service : String
  pub object : ℕ
  pub held : Refreshable
  pub fetching : Bool

-- A task of `refresh_in_background`.
pub record Task : Type 0 where
  pub object : ℕ
  pub issuer : Issuer

pub record Table : Type 0 where
  pub slots : List Slot
  pub tasks : List Task
  pub next_object : ℕ
  pub clock : ℕ
  pub turn : ℕ
  pub delivered : List String

pub data Fault : Type 0 where
  refreshable : Failure → Fault
  provider : ProviderError → Fault
  -- IssuerUnavailableError
  unavailable : Fault
  -- the `KeyError` of an entry without an issuer
  no_issuer : Fault

abbrev pub Act : Type 0 → Type 0
Act A = Op Table Fault A

abbrev pub is_at : ℕ → String → Slot → Bool
is_at i service s = s.host_id == i && str_eq s.service service

abbrev pub find_slot : ℕ → String → List Slot → Option Slot
find_slot i service [] = none
find_slot i service (s ∷ ss) = if is_at i service s then some s else find_slot i service ss

abbrev pub update_object : ℕ → (Slot → Slot) → List Slot → List Slot
update_object o f [] = []
update_object o f (s ∷ ss) = (if s.object == o then f s else s) ∷ update_object o f ss

-- The object of a slot, with the clock and what the providers took.
abbrev pub cell_of : Table → Slot → Cell
cell_of t s = record { held = s.held; clock = t.clock; turn = t.turn; delivered = t.delivered }

abbrev pub from_one : {A : Type 0} → Result Failure A → Result Fault A
from_one (ok a) = ok a
from_one (err e) = err (refreshable e)

-- A method of one entry's object.
unfoldable pub on_slot : {A : Type 0} → Slot → One.Act A → Act A
on_slot s op t =
    let r = op (cell_of t s) in
    (
      from_one r.0,
      record t {
        slots = update_object s.object (λ x. record x { held = r.1.held }) t.slots;
        clock = r.1.clock;
        turn = r.1.turn;
        delivered = r.1.delivered;
      },
    )

module _ (w : World) where
  -- `datetime.now(UTC)`
  unfoldable pub now : Act ℕ
  now t = let at = t.clock + w.delay t.turn in (ok at, record t { clock = at; turn = suc t.turn })

  abbrev pub new_slot : ℕ → String → ℕ → Table → Slot
  new_slot i service at t = record {
    host_id = i;
    service = service;
    object = t.next_object;
    held = fresh at;
    fetching = false;
  }

  -- `self._refreshable[(host.id, service)] = RefreshableSecret()`
  unfoldable pub assign : ℕ → String → Act Slot
  unfolding now
  assign i service = do
    at ← now
    slot ← gets (new_slot i service at)
    modify (λ t. record t {
      slots = slot ∷ keep_if (λ s. not (is_at i service s)) t.slots;
      next_object = suc t.next_object;
    })
    pure slot

  -- `setdefault((host.id, service), RefreshableSecret())`
  unfoldable pub slot_of : ℕ → String → Act Slot
  unfolding assign
  slot_of i service = do
    found ← gets (λ t. find_slot i service t.slots)
    elim found [ some s ↦ pure s | none ↦ assign i service ]

  -- `Secrets.forget_deleted_hosts`
  unfoldable pub forget_deleted_hosts : List ℕ → Act (Unit {0})
  forget_deleted_hosts ids =
      modify (λ t. record t { slots = keep_if (λ s. any (λ i. s.host_id == i) ids) t.slots })

  -- `refresh_in_background`
  unfoldable pub refresh_in_background : Slot → Issuer → Act (Unit {0})
  refresh_in_background s issuer =
      if s.fetching
      then pass
      else modify (λ t. record t {
        slots = update_object s.object (λ x. record x { fetching = true }) t.slots;
        tasks = t.tasks ++ record { object = s.object; issuer = issuer } ∷ [];
      })

  abbrev pub find_object : ℕ → List Slot → Option Slot
  find_object o [] = none
  find_object o (s ∷ ss) = if s.object == o then some s else find_object o ss

  unfoldable pub run_on : Option Slot → Issuer → Act (Unit {0})
  unfolding on_slot
  run_on none issuer = pass
  run_on (some s) issuer = on_slot s (One.refresh w issuer)

  -- A background task to its end, when its done callback lets the next one start. What it raises
  -- goes nowhere.
  unfoldable pub run_task : Task → Act (Unit {0})
  unfolding run_on
  run_task task = do
    found ← gets (λ t. find_object task.object t.slots)
    ended ← attempt (run_on found task.issuer)
    modify (λ t. record t {
      slots = update_object task.object (λ x. record x { fetching = false }) t.slots;
      tasks = keep_if (λ k. not (k.object == task.object)) t.tasks;
    })

  unfoldable pub served : Option Held → ℕ → Act Secret
  served none at = raise unavailable
  served (some h) at = if is_valid h.secret at then pure h.secret else raise unavailable

  -- The object's latest value, as the table has it now.
  unfoldable pub latest_of : ℕ → List Slot → Option Held
  latest_of o [] = none
  latest_of o (s ∷ ss) = if s.object == o then s.held.latest else latest_of o ss

  unfoldable pub issuer_of : Entry → Act Issuer
  issuer_of entry = elim entry.issuer [ none ↦ raise no_issuer | some issuer ↦ pure issuer ]

  unfoldable pub fetched : Slot → Entry → Act Secret
  unfolding on_slot served now latest_of issuer_of
  fetched s entry = do
    issuer ← issuer_of entry
    on_slot s (One.refresh w issuer)
    at ← now
    latest ← gets (λ t. latest_of s.object t.slots)
    served latest at

  unfoldable pub renewed_if : Bool → Slot → Entry → Act (Unit {0})
  unfolding refresh_in_background issuer_of
  renewed_if stale s entry =
      if stale then (do issuer ← issuer_of entry; refresh_in_background s issuer) else pass

  unfoldable pub current_of : Slot → Entry → Act Secret
  unfolding fetched renewed_if
  current_of s entry = do
    at ← now
    elim s.held.latest [
      | none ↦ fetched s entry
      | some h ↦
          (if is_valid h.secret at
            then (do renewed_if (is_stale h.secret at) s entry; pure h.secret)
            else fetched s entry)
    ]

  -- `Secrets.current`
  unfoldable pub current : Host → String → Entry → Act Secret
  unfolding slot_of current_of
  current host service entry = elim entry.value [
    | some value ↦ pure (record { value = value; expires_at = none })
    | none ↦ (do s ← slot_of host.id service; current_of s entry)
  ]

  from_registry : {A : Type 0} → Result ProviderError A → Result Fault A
  from_registry (ok a) = ok a
  from_registry (err e) = err (provider e)

  -- A failed delivery is logged.
  unfoldable pub logged : Result Fault Bool → Act (Unit {0})
  logged (ok pushed) = pass
  logged (err (refreshable (delivery_failed text))) = pass
  logged (err e) = raise e

  -- `Secrets.push`
  unfoldable pub push : Registry → Host → String → Entry → Act (Unit {0})
  unfolding slot_of issuer_of logged from_registry
  push registry host service entry = do
    vm ← lift (from_registry (get_vm_provider registry (some host.provider)))
    s ← slot_of host.id service
    at ← now
    if vm.needs_value && is_due s.held at
        then (do
          issuer ← issuer_of entry
          pushed ← attempt (on_slot s (One.push w issuer))
          logged pushed)
        else pass

  unfoldable pub refetched : Slot → Issuer → Act Bool
  unfolding on_slot latest_of
  refetched s issuer = do
    on_slot s (One.refresh w issuer)
    gets (λ t. is_some (latest_of s.object t.slots))

  -- `Secrets.refresh`
  unfoldable pub refresh : Registry → Host → String → Entry → Act (Unit {0})
  unfolding assign issuer_of refetched from_registry
  refresh registry host service entry = do
    vm ← lift (from_registry (get_vm_provider registry (some host.provider)))
    s ← assign host.id service
    issuer ← issuer_of entry
    got ← (if vm.needs_value then on_slot s (One.push w issuer) else refetched s issuer)
    if got then pass else raise unavailable
