-- ===== src/Networking/Waiter.antt =====
-- networking/tailscale.py: `_DeviceWaiter`, the steps of its poller and of those who wait. A step
-- has no await inside, so nothing comes between. `aclose` is not modelled.
pub mod Served
pub mod Alone
use drukbox.Base.{
  ℕ, String, Bool, true, false, not, Option, none, some, List, [], ◌∷◌, if◌then◌else◌, str_eq,
  is_empty, is_some, keep_if, lookup, put, ◌≡◌,
}
use drukbox.Base.Op.{Result, ok, err}
use drukbox.Networking.Api.{Device, NetworkFault, network_auth}

-- A future of `_waiters`.
pub data Future : Type 0 where
  pending : Future
  resolved : (device_id : String) → Future
  failed : NetworkFault → Future

-- The task: none or done, before the test of its loop, or awaiting `list_devices`.
pub data Poller : Type 0 where
  idle : Poller
  at_test : Poller
  at_listing : Poller

pub record Waiter : Type 0 where
  pub waiters : List (String × Future)
  pub poller : Poller

abbrev pub start_if_idle : Poller → Poller
start_if_idle idle = at_test
start_if_idle at_test = at_test
start_if_idle at_listing = at_listing

-- `wait_for` up to its await. A second waiter on one hostname takes the place of the first, whose
-- future then only its own time limit ends.
unfoldable pub register : String → Waiter → Waiter
register host_name w = record {
  waiters = put host_name pending w.waiters;
  poller = start_if_idle w.poller;
}

-- The `finally` of `wait_for`: the future was resolved, failed, timed out or was cancelled.
unfoldable pub leave : String → Waiter → Waiter
leave host_name w = record w { waiters = keep_if (λ e. not (str_eq e.0 host_name)) w.waiters }

-- `while self._waiters`
unfoldable pub test_loop : Waiter → Waiter
test_loop w = record w { poller = if is_empty w.waiters then idle else at_listing }

-- `set_result`, unless the future is done.
unfoldable pub set_result : String → Future → Future
set_result id pending = resolved id
set_result id (resolved other) = resolved other
set_result id (failed e) = failed e

unfoldable pub set_exception : NetworkFault → Future → Future
set_exception e pending = failed e
set_exception e (resolved id) = resolved id
set_exception e (failed other) = failed other

-- The future of a device's hostname, if there is one.
unfoldable pub resolve_device : Device → List (String × Future) → List (String × Future)
unfolding set_result
resolve_device device [] = []
resolve_device device ((host_name, f) ∷ waiters) =
    if str_eq host_name device.hostname
    then (host_name, set_result device.id f) ∷ waiters
    else (host_name, f) ∷ resolve_device device waiters

unfoldable pub resolve_devices : List Device → List (String × Future) → List (String × Future)
unfolding resolve_device
resolve_devices [] waiters = waiters
resolve_devices (d ∷ ds) waiters = resolve_devices ds (resolve_device d waiters)

-- `_fail_waiters`
unfoldable pub fail_waiters : NetworkFault → List (String × Future) → List (String × Future)
unfolding set_exception
fail_waiters e [] = []
fail_waiters e ((host_name, f) ∷ waiters) = (host_name, set_exception e f) ∷ fail_waiters e waiters

-- `list_devices` is done: its devices, an error that does not heal, or one that may; then the sleep.
unfoldable pub take_listing : Result NetworkFault (List Device) → Waiter → Waiter
unfolding resolve_devices fail_waiters
take_listing (ok devices) w = record {
  waiters = resolve_devices devices w.waiters;
  poller = at_test;
}
take_listing (err (network_auth text)) w = record {
  waiters = fail_waiters (network_auth text) w.waiters;
  poller = idle;
}
take_listing (err e) w = record w { poller = at_test }

-- What may happen next; the tailnet lists `listing`.
pub data Step (listing : Result NetworkFault (List Device) → Type 0)
    : Waiter → Waiter → Type 0 where
  registers : {w : Waiter} → (host_name : String) → Step listing w (register host_name w)
  leaves : {w : Waiter} → (host_name : String) → Step listing w (leave host_name w)
  tests : {w : Waiter} → w.poller ≡ at_test → Step listing w (test_loop w)
  lists :
      {w : Waiter} (reply : Result NetworkFault (List Device))
      → w.poller ≡ at_listing
      → listing reply
      → Step listing w (take_listing reply w)

pub data Reach (listing : Result NetworkFault (List Device) → Type 0) (w : Waiter)
    : Waiter → Type 0 where
  here : Reach listing w w
  next : {v u : Waiter} → Reach listing w v → Step listing v u → Reach listing w u

abbrev pub start : Waiter
start = record { waiters = []; poller = idle }
