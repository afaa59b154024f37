-- ===== src/Networking/Waiter/Served.antt =====
-- What holds of the waiters of networking/tailscale.py at every step.
use drukbox.Base.{
  String, ◌≡◌, refl, sym, inl, inr, Bool, true, false, not, ◌||◌, List, [], ◌∷◌, if◌then◌else◌,
  str_eq, is_empty, keep_if, put, all, All, IsIn, arith, Bool-cases, eq_iff,
}
use mathlib.Core.Path.{subst}
use drukbox.Base.Op.{Result, ok, err}
use drukbox.Networking.Api.{
  Device, NetworkFault, network_auth, network_transport, network_status, discovery_timeout,
  key_error, value_error,
}
use drukbox.Networking.Waiter.{
  Future, pending, resolved, failed, Poller, idle, at_test, at_listing, Waiter, register, leave,
  test_loop, set_result, set_exception, resolve_device, resolve_devices, fail_waiters, take_listing,
  Step, registers, leaves, tests, lists, Reach, here, next, start, start_if_idle,
}

abbrev pub is_done : Future → Bool
is_done pending = false
is_done (resolved id) = true
is_done (failed e) = true

abbrev pub is_running : Poller → Bool
is_running idle = false
is_running at_test = true
is_running at_listing = true

-- The future of a hostname has a device of that hostname that was listed, or an error that was.
abbrev pub IsAnswered : (Result NetworkFault (List Device) → Type 0) → String × Future → Type 0
IsAnswered listing (host_name, pending) = Unit
IsAnswered listing (host_name, resolved id) =
    (devices : List Device) × listing (ok devices)
    × IsIn (record { id = id; hostname = host_name }) devices
IsAnswered listing (host_name, failed e) = listing (err e)

-- While a future is pending the poller runs, and every future that is done was answered truly.
pub record IsServed (listing : Result NetworkFault (List Device) → Type 0) (w : Waiter)
    : Type 0 where
  pub polled : (is_running w.poller || all (λ e. is_done e.1) w.waiters) ≡ true
  pub answered : All (IsAnswered listing) w.waiters

module _ (listing : Result NetworkFault (List Device) → Type 0) where
  put-IsAnswered :
      (host_name : String) (ws : List (String × Future))
      → All (IsAnswered listing) ws
      → All (IsAnswered listing) (put host_name pending ws)
  put-IsAnswered host_name [] a = (tt, tt)
  put-IsAnswered host_name ((k, f) ∷ ws) a = elim (Bool-cases (str_eq k host_name)) [
    | inl same ↦ rw same (tt, a.1)
    | inr other ↦ rw other (a.0, put-IsAnswered host_name ws a.1)
  ]

  keep_if-IsAnswered :
      (p : String × Future → Bool) (ws : List (String × Future))
      → All (IsAnswered listing) ws
      → All (IsAnswered listing) (keep_if p ws)
  keep_if-IsAnswered p [] a = tt
  keep_if-IsAnswered p (e ∷ ws) a = elim (Bool-cases (p e)) [
    | inl kept ↦ rw kept (a.0, keep_if-IsAnswered p ws a.1)
    | inr gone ↦ rw gone (keep_if-IsAnswered p ws a.1)
  ]

  set_result-IsAnswered :
      (d : Device) (devices : List Device) (host_name : String) (f : Future)
      → listing (ok devices)
      → IsIn d devices
      → host_name ≡ d.hostname
      → IsAnswered listing (host_name, f)
      → IsAnswered listing (host_name, set_result d.id f)
  unfolding set_result
  set_result-IsAnswered d devices host_name pending l there same a =
      (devices, l, subst (λ h. IsIn (record { id = d.id; hostname = h }) devices) (sym same) there)
  set_result-IsAnswered d devices host_name (resolved id) l there same a = a
  set_result-IsAnswered d devices host_name (failed e) l there same a = a

  resolve_device-IsAnswered :
      (d : Device) (devices : List Device) (ws : List (String × Future))
      → listing (ok devices)
      → IsIn d devices
      → All (IsAnswered listing) ws
      → All (IsAnswered listing) (resolve_device d ws)
  unfolding resolve_device
  resolve_device-IsAnswered d devices [] l there a = tt
  resolve_device-IsAnswered d devices ((k, f) ∷ ws) l there a =
      elim (Bool-cases (str_eq k d.hostname)) [
        | inl same ↦
            rw same
              (set_result-IsAnswered d devices k f l there ((eq_iff k d.hostname).0 same) a.0, a.1)
        | inr other ↦ rw other (a.0, resolve_device-IsAnswered d devices ws l there a.1)
      ]

  resolve_devices-IsAnswered :
      (ds devices : List Device) (ws : List (String × Future))
      → listing (ok devices)
      → All (λ d. IsIn d devices) ds
      → All (IsAnswered listing) ws
      → All (IsAnswered listing) (resolve_devices ds ws)
  unfolding resolve_devices
  resolve_devices-IsAnswered [] devices ws l there a = a
  resolve_devices-IsAnswered (d ∷ ds) devices ws l there a =
      resolve_devices-IsAnswered ds devices (resolve_device d ws) l there.1
        (resolve_device-IsAnswered d devices ws l there.0 a)

  set_exception-IsAnswered :
      (e : NetworkFault) (host_name : String) (f : Future)
      → listing (err e)
      → IsAnswered listing (host_name, f)
      → IsAnswered listing (host_name, set_exception e f)
  unfolding set_exception
  set_exception-IsAnswered e host_name pending l a = l
  set_exception-IsAnswered e host_name (resolved id) l a = a
  set_exception-IsAnswered e host_name (failed other) l a = a

  fail_waiters-IsAnswered :
      (e : NetworkFault) (ws : List (String × Future))
      → listing (err e)
      → All (IsAnswered listing) ws
      → All (IsAnswered listing) (fail_waiters e ws)
  unfolding fail_waiters
  fail_waiters-IsAnswered e [] l a = tt
  fail_waiters-IsAnswered e ((k, f) ∷ ws) l a =
      (set_exception-IsAnswered e k f l a.0, fail_waiters-IsAnswered e ws l a.1)

IsIn-later :
    {A : Type 0} (x : A) (xs ds : List A) → All (λ d. IsIn d xs) ds → All (λ d. IsIn d (x ∷ xs)) ds
IsIn-later x xs [] h = tt
IsIn-later x xs (d ∷ ds) h = (inr h.0, IsIn-later x xs ds h.1)

IsIn-self : {A : Type 0} (xs : List A) → All (λ d. IsIn d xs) xs
IsIn-self [] = tt
IsIn-self (x ∷ xs) = (inl refl, IsIn-later x xs xs (IsIn-self xs))

set_exception-done : (e : NetworkFault) (f : Future) → is_done (set_exception e f) ≡ true
unfolding set_exception
set_exception-done e pending = refl
set_exception-done e (resolved id) = refl
set_exception-done e (failed other) = refl

fail_waiters-done :
    (e : NetworkFault) (ws : List (String × Future))
    → all (λ x. is_done x.1) (fail_waiters e ws) ≡ true
unfolding fail_waiters
fail_waiters-done e [] = refl
fail_waiters-done e ((k, f) ∷ ws) = rw (set_exception-done e f) (fail_waiters-done e ws)

all-keep_if :
    (p q : String × Future → Bool) (ws : List (String × Future))
    → all p ws ≡ true
    → all p (keep_if q ws) ≡ true
all-keep_if p q [] h = refl
all-keep_if p q (e ∷ ws) h = elim (Bool-cases (q e)) [
  | inl kept ↦ ground (arith, kept, h, all-keep_if p q ws)
  | inr gone ↦ ground (arith, gone, h, all-keep_if p q ws)
]

start_if_idle-running : (p : Poller) → is_running (start_if_idle p) ≡ true
start_if_idle-running idle = refl
start_if_idle-running at_test = refl
start_if_idle-running at_listing = refl

test_loop-polled :
    (ws : List (String × Future))
    → (is_running (if is_empty ws then idle else at_listing) || all (λ e. is_done e.1) ws) ≡ true
test_loop-polled [] = refl
test_loop-polled (e ∷ ws) = refl

module _ (listing : Result NetworkFault (List Device) → Type 0) where
  take_listing-IsServed :
      (reply : Result NetworkFault (List Device)) (w : Waiter)
      → listing reply
      → IsServed listing w
      → IsServed listing (take_listing reply w)
  unfolding take_listing
  take_listing-IsServed (ok devices) w l s = record {
    polled = refl;
    answered =
        resolve_devices-IsAnswered listing devices devices w.waiters l (IsIn-self devices)
          s.answered;
  }
  take_listing-IsServed (err (network_auth text)) w l s = record {
    polled = fail_waiters-done (network_auth text) w.waiters;
    answered = fail_waiters-IsAnswered listing (network_auth text) w.waiters l s.answered;
  }
  take_listing-IsServed (err (network_transport text)) w l s = record {
    polled = refl;
    answered = s.answered;
  }
  take_listing-IsServed (err (network_status n text)) w l s = record {
    polled = refl;
    answered = s.answered;
  }
  take_listing-IsServed (err (discovery_timeout text)) w l s = record {
    polled = refl;
    answered = s.answered;
  }
  take_listing-IsServed (err key_error) w l s = record { polled = refl; answered = s.answered }
  take_listing-IsServed (err value_error) w l s = record { polled = refl; answered = s.answered }

  Step-IsServed : (w u : Waiter) → Step listing w u → IsServed listing w → IsServed listing u
  unfolding register leave test_loop
  Step-IsServed w _ (registers host_name) s = record {
    polled = rw (start_if_idle-running w.poller) refl;
    answered = put-IsAnswered listing host_name w.waiters s.answered;
  }
  Step-IsServed w _ (leaves host_name) s = record {
    polled = elim (Bool-cases (is_running w.poller)) [
      | inl running ↦ rw running refl
      | inr stopped ↦ ground (
        arith,
        stopped,
        s.polled,
        all-keep_if (λ e. is_done e.1) (λ e. not (str_eq e.0 host_name)) w.waiters,
      )
    ];
    answered = keep_if-IsAnswered listing _ w.waiters s.answered;
  }
  Step-IsServed w _ (tests at) s = record {
    polled = test_loop-polled w.waiters;
    answered = s.answered;
  }
  Step-IsServed w _ (lists reply at l) s = take_listing-IsServed reply w l s

-- In every state that is reached from the start, the poller runs while a future is pending, a
-- future that was resolved has the id of a device with its hostname that the tailnet listed, and
-- one that failed has an error that the listing raised.
pub Reach-IsServed :
    (listing : Result NetworkFault (List Device) → Type 0) (w : Waiter)
    → Reach listing start w
    → IsServed listing w
Reach-IsServed listing _ here = record { polled = refl; answered = tt }
Reach-IsServed listing w (next before step) =
    Step-IsServed listing _ w step (Reach-IsServed listing _ before)
