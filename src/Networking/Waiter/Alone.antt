-- ===== src/Networking/Waiter/Alone.antt =====
-- The shared poller of networking/tailscale.py against a poller for each waiter.
use drukbox.Base.{
  String, ◌≡◌, refl, sym, ap, ◌∙◌, inl, inr, Option, none, some, List, [], ◌∷◌, if◌then◌else◌,
  str_eq, lookup, Bool-cases, Option-cases, eq_iff,
}
use mathlib.Core.Bool.{false≢true}
use drukbox.Base.Op.{Result, ok, err}
use drukbox.Networking.Api.{
  Device, NetworkFault, network_auth, network_transport, network_status, discovery_timeout,
  key_error, value_error,
}
use drukbox.Networking.Waiter.{
  Future, pending, resolved, failed, Waiter, set_result, set_exception, resolve_device,
  resolve_devices, fail_waiters, take_listing,
}

-- The first device of a hostname.
unfoldable pub first_id : String → List Device → Option String
first_id host_name [] = none
first_id host_name (d ∷ ds) =
    if str_eq host_name d.hostname then some d.id else first_id host_name ds

-- What one waiter with a poller of its own gets from what the tailnet lists: it lists again until
-- its device is there or an error does not heal.
unfoldable pub await_alone : String → List (Result NetworkFault (List Device)) → Future
await_alone host_name [] = pending
await_alone host_name (ok devices ∷ replies) =
    let rest = await_alone host_name replies in
    elim (first_id host_name devices) [ none ↦ rest | some id ↦ resolved id ]
await_alone host_name (err (network_auth text) ∷ replies) = failed (network_auth text)
await_alone host_name (err e ∷ replies) = await_alone host_name replies

-- The shared poller over the same listings.
unfoldable pub poll_all : List (Result NetworkFault (List Device)) → Waiter → Waiter
poll_all [] w = w
poll_all (reply ∷ replies) w = poll_all replies (take_listing reply w)

abbrev on_future : (Future → Future) → Option Future → Option Future
on_future g none = none
on_future g (some f) = some (g f)

abbrev found_alone : Option String → Future → Future
found_alone none f = f
found_alone (some id) f = set_result id f

lookup-resolve_device :
    (host_name : String) (d : Device) (ws : List (String × Future))
    → lookup host_name (resolve_device d ws) ≡ (
        if str_eq host_name d.hostname
        then on_future (set_result d.id) (lookup host_name ws)
        else lookup host_name ws)
unfolding resolve_device
lookup-resolve_device host_name d [] = elim (Bool-cases (str_eq host_name d.hostname)) [
  | inl own ↦ rw own refl
  | inr other ↦ rw other refl
]
lookup-resolve_device host_name d ((k, f) ∷ ws) = elim (Bool-cases (str_eq k host_name)) [
  | inl same ↦
      let e : k ≡ host_name = (eq_iff k host_name).0 same in
      (elim (Bool-cases (str_eq k d.hostname)) [
        | inl own ↦ rw own (rw same (rw (sym (ap (λ x. str_eq x d.hostname) e) ∙ own) refl))
        | inr other ↦ rw other (rw same (rw (sym (ap (λ x. str_eq x d.hostname) e) ∙ other) refl))
      ])
  | inr differs ↦ elim (Bool-cases (str_eq k d.hostname)) [
    | inr other ↦ rw other (rw differs (lookup-resolve_device host_name d ws))
    | inl own ↦ elim (Bool-cases (str_eq host_name d.hostname)) [
      | inr not_own ↦ rw own (rw differs (rw not_own refl))
      | inl also ↦ absurd (
          false≢true (
            sym differs
            ∙ (eq_iff k host_name).1
                ((eq_iff k d.hostname).0 own ∙ sym ((eq_iff host_name d.hostname).0 also))))
    ]
  ]
]

set_result-twice : (a b : String) (f : Future) → set_result b (set_result a f) ≡ set_result a f
unfolding set_result
set_result-twice a b pending = refl
set_result-twice a b (resolved id) = refl
set_result-twice a b (failed e) = refl

found_alone-set_result :
    (id : String) (later : Option String) (f : Future)
    → found_alone later (set_result id f) ≡ set_result id f
found_alone-set_result id none f = refl
found_alone-set_result id (some b) f = set_result-twice id b f

on_found-set_result :
    (id : String) (later : Option String) (o : Option Future)
    → on_future (found_alone later) (on_future (set_result id) o) ≡ on_future (set_result id) o
on_found-set_result id later none = refl
on_found-set_result id later (some f) = ap (λ x. some x) (found_alone-set_result id later f)

on_found-none : (o : Option Future) → on_future (found_alone none) o ≡ o
on_found-none none = refl
on_found-none (some f) = refl

lookup-resolve_devices :
    (host_name : String) (ds : List Device) (ws : List (String × Future))
    → lookup host_name (resolve_devices ds ws)
      ≡ on_future (found_alone (first_id host_name ds)) (lookup host_name ws)
unfolding resolve_devices first_id
lookup-resolve_devices host_name [] ws = sym (on_found-none (lookup host_name ws))
lookup-resolve_devices host_name (d ∷ ds) ws =
    lookup-resolve_devices host_name ds (resolve_device d ws)
    ∙ (rw (lookup-resolve_device host_name d ws) (elim (Bool-cases (str_eq host_name d.hostname)) [
      | inl own ↦ rw own (on_found-set_result d.id (first_id host_name ds) (lookup host_name ws))
      | inr other ↦ rw other refl
    ]))

lookup-fail_waiters :
    (host_name : String) (e : NetworkFault) (ws : List (String × Future))
    → lookup host_name (fail_waiters e ws) ≡ on_future (set_exception e) (lookup host_name ws)
unfolding fail_waiters
lookup-fail_waiters host_name e [] = refl
lookup-fail_waiters host_name e ((k, f) ∷ ws) = elim (Bool-cases (str_eq k host_name)) [
  | inl same ↦ rw same refl
  | inr other ↦ rw other (lookup-fail_waiters host_name e ws)
]

-- A future that is done stays as it is.
abbrev settle : Future → Future → Future
settle pending later = later
settle (resolved id) later = resolved id
settle (failed e) later = failed e

await_after :
    (host_name : String) (devices : List Device) (later f : Future)
    → settle (found_alone (first_id host_name devices) f) later
      ≡ settle f (elim (first_id host_name devices) [ none ↦ later | some id ↦ resolved id ])
unfolding set_result
await_after host_name devices later pending = elim (Option-cases (first_id host_name devices)) [
  | inl missing ↦ rw missing refl
  | inr (id, there) ↦ rw there refl
]
await_after host_name devices later (resolved x) =
    elim (Option-cases (first_id host_name devices)) [
      | inl missing ↦ rw missing refl
      | inr (id, there) ↦ rw there refl
    ]
await_after host_name devices later (failed e) = elim (Option-cases (first_id host_name devices)) [
  | inl missing ↦ rw missing refl
  | inr (id, there) ↦ rw there refl
]

settle-pending : (f : Future) → settle f pending ≡ f
settle-pending pending = refl
settle-pending (resolved id) = refl
settle-pending (failed e) = refl

settle-failed :
    (e : NetworkFault) (f later : Future) → settle (set_exception e f) later ≡ settle f (failed e)
unfolding set_exception
settle-failed e pending later = refl
settle-failed e (resolved id) later = refl
settle-failed e (failed other) later = refl

lookup-poll_all :
    (host_name : String) (replies : List (Result NetworkFault (List Device))) (w : Waiter)
    (f : Future)
    → lookup host_name w.waiters ≡ some f
    → lookup host_name (poll_all replies w).waiters
      ≡ some (settle f (await_alone host_name replies))
unfolding poll_all await_alone take_listing
lookup-poll_all host_name [] w f there = there ∙ ap (λ x. some x) (sym (settle-pending f))
lookup-poll_all host_name (ok devices ∷ replies) w f there =
    lookup-poll_all host_name replies (take_listing (ok devices) w)
      (found_alone (first_id host_name devices) f)
      (lookup-resolve_devices host_name devices w.waiters
        ∙ ap (on_future (found_alone (first_id host_name devices))) there)
    ∙ ap (λ x. some x) (await_after host_name devices (await_alone host_name replies) f)
lookup-poll_all host_name (err (network_auth text) ∷ replies) w f there =
    lookup-poll_all host_name replies (take_listing (err (network_auth text)) w)
      (set_exception (network_auth text) f)
      (lookup-fail_waiters host_name (network_auth text) w.waiters
        ∙ ap (on_future (set_exception (network_auth text))) there)
    ∙ ap (λ x. some x) (settle-failed (network_auth text) f (await_alone host_name replies))
lookup-poll_all host_name (err (network_transport text) ∷ replies) w f there =
    lookup-poll_all host_name replies (take_listing (err (network_transport text)) w) f there
lookup-poll_all host_name (err (network_status n text) ∷ replies) w f there =
    lookup-poll_all host_name replies (take_listing (err (network_status n text)) w) f there
lookup-poll_all host_name (err (discovery_timeout text) ∷ replies) w f there =
    lookup-poll_all host_name replies (take_listing (err (discovery_timeout text)) w) f there
lookup-poll_all host_name (err key_error ∷ replies) w f there =
    lookup-poll_all host_name replies (take_listing (err key_error) w) f there
lookup-poll_all host_name (err value_error ∷ replies) w f there =
    lookup-poll_all host_name replies (take_listing (err value_error) w) f there

-- Over any listings, the shared poller gives each waiter what a poller of its own would have got
-- from the same listings: the first device of its hostname in the first listing that has one, or
-- the error that does not heal if that comes first, or nothing yet.
pub poll_all-await_alone :
    (host_name : String) (replies : List (Result NetworkFault (List Device))) (w : Waiter)
    → lookup host_name w.waiters ≡ some pending
    → lookup host_name (poll_all replies w).waiters ≡ some (await_alone host_name replies)
poll_all-await_alone host_name replies w there = lookup-poll_all host_name replies w pending there
