-- ===== src/Hosts/Trace/Provisioning.antt =====
-- `provision` of src/hosts/service.py takes a row through its statuses in order.
use drukbox.Base.{ℕ, String, true, ◌≡◌, refl, Option, none, some, List, []}
use drukbox.Base.Op.{Result, ok, err, Op, raise, modify, ◌>>=◌}
use drukbox.Base.Keeps.{Keeps, Outcome, Keeps-if, Keeps-raise, Keeps-pass}
use drukbox.Base.Yields.{
  Yields, Yields-pure, Yields-raise, Yields-if, Yields-Keeps, Yields-attempt, Yields-bind,
}
use drukbox.Exchange.Secret.{missing_secret, key_error}
use drukbox.Providers.{Provider, VmCreateResult}
use drukbox.Providers.Environment.{Variables}
use drukbox.Hosts.Model.{
  Host, HostStatus, Error, provider_error, issuer_fault, invalid_env, host_key_scan,
}
use drukbox.Hosts.World.{Env, World, Event, status_committed, vm_created, Tailscale, note}
use drukbox.Hosts.Session.{commit_status, commit_named}
use drukbox.Hosts.Provision.{
  mark_failed, give_up, activate, discover, boot, create_vm, secrets_failed, with_secrets,
  join_tailnet, provision, create_persisted, create_with, reachable, touched, with_entries,
  with_device, activated,
}
use drukbox.Hosts.Trace.{
  Logged, utc_now-Logged, query-Logged, vm_of-Logged, provider_call-Logged, network_call-Logged,
  commit_host-Logged, scan_known_hosts-Logged, put_secrets-Logged,
}
use drukbox.Hosts.Trace.Statuses.{
  is_next, is_final, Reaches, IsOrdered, IsFinished, follow-append, follow-append_vm_created,
}

ordered : (i : ℕ) (s : HostStatus) (w : World) → Logged (Reaches i s) w → Logged (IsOrdered i) w
ordered i s w h = record { events = (s, h.events) }

finished :
    (i : ℕ) (s : HostStatus) (w : World)
    → is_final s ≡ true
    → Logged (Reaches i s) w
    → Logged (IsFinished i) w
finished i s w f h = record { events = (s, f, h.events) }

-- From one status of a row to what a return and a raise leave.
abbrev Stages : {A : Type 0} → ℕ → HostStatus → (List Event → Type 0) → Op World Error A → Type 0
Stages i s L m = Yields (Logged (Reaches i s)) (λ a. Logged L) (λ e. Logged (IsOrdered i)) m

failed :
    {A : Type 0} (i : ℕ) (r : Result Error A × World)
    → Outcome (λ a. Logged (Reaches i HostStatus.error)) (λ e. Logged (IsOrdered i)) r
    → Outcome (λ a. Logged (IsFinished i)) (λ e. Logged (IsOrdered i)) r
failed i (ok a, w) h = finished i HostStatus.error w refl h
failed i (err e, w) h = h

reached :
    {A : Type 0} (i : ℕ) (r : Result Error A × World)
    → Outcome (λ a. Logged (Reaches i HostStatus.active)) (λ e. Logged (IsOrdered i)) r
    → Outcome (λ a. Logged (IsFinished i)) (λ e. Logged (IsOrdered i)) r
reached i (ok a, w) h = finished i HostStatus.active w refl h
reached i (err e, w) h = h

unfinished : (i : ℕ) (w : World) → Logged (IsFinished i) w → Logged (IsOrdered i) w
unfinished i w h = let (s, f, r) = h.events in record { events = (s, r) }

module _ (env : Env) where
  Stages-quiet :
      {A : Type 0} (i : ℕ) (s : HostStatus) (m : Op World Error A)
      → Keeps (Logged (Reaches i s)) m
      → Stages i s (Reaches i s) m
  Stages-quiet i s m k = Yields-Keeps m (λ e w h. ordered i s w h) k

  Stages-bind :
      {A B : Type 0} {L : List Event → Type 0} (i : ℕ) (s : HostStatus) (m : Op World Error A)
      (f : A → Op World Error B)
      → Keeps (Logged (Reaches i s)) m
      → ((a : A) → Stages i s L (f a))
      → Stages i s L (m >>= f)
  Stages-bind i s m f k y = Yields-bind m f (Stages-quiet i s m k) y

  note-Stages :
      (i : ℕ) (s t : HostStatus)
      → is_next s t ≡ true
      → Stages i s (Reaches i t) (note env (status_committed i t))
  unfolding note modify
  note-Stages i s t n = record {
    at = λ w h. record { events = follow-append i HostStatus.provisioning s t w.log h.events n };
  }

  commit_status-Stages :
      (i : ℕ) (s t : HostStatus) (f : Host → Host)
      → is_next s t ≡ true
      → Stages i s (Reaches i t) (commit_status env i t f)
  unfolding commit_status
  commit_status-Stages i s t f n =
      Stages-bind i s _ _ (commit_host-Logged env i _) (λ _. note-Stages i s t n)

  -- A commit of the next status, and what follows it.
  Stages-commit :
      {B : Type 0} {L : List Event → Type 0} (i : ℕ) (s t : HostStatus) (f : Host → Host)
      (k : Unit {0} → Op World Error B)
      → is_next s t ≡ true
      → Stages i t L (k tt)
      → Stages i s L (commit_status env i t f >>= k)
  Stages-commit i s t f k n y = Yields-bind _ _ (commit_status-Stages i s t f n) (λ _. y)

  mark_failed-Stages :
      (i : ℕ) (s : HostStatus) (pending : Host → Host) (exc : Error)
      → is_next s HostStatus.error ≡ true
      → Stages i s (IsFinished i) (mark_failed env i pending exc)
  unfolding mark_failed
  mark_failed-Stages i s pending exc n = Stages-bind i s _ _ (utc_now-Logged env) λ now. record {
    at = λ w h. failed i _ ((commit_status-Stages i s HostStatus.error _ n).at w h);
  }

  note_vm-Stages :
      (i : ℕ) (s : HostStatus) (name : String)
      → Stages i s (Reaches i s) (note env (vm_created name))
  unfolding note modify
  note_vm-Stages i s name = record {
    at = λ w h. record {
      events = follow-append_vm_created i HostStatus.provisioning s name w.log h.events;
    };
  }

  give_up-Stages :
      (i : ℕ) (s : HostStatus) (pending : Host → Host) (exc : Error)
      → is_next s HostStatus.error ≡ true
      → Stages i s (IsFinished i) (give_up env i pending exc)
  unfolding give_up
  give_up-Stages i s pending exc n =
      Yields-bind _ _ (mark_failed-Stages i s pending exc n) (λ _. Yields-pure none (λ w h. h))

  raise-Stages :
      {A : Type 0} (i : ℕ) (s : HostStatus) (e : Error)
      → Stages {A = A} i s (IsFinished i) (raise e)
  raise-Stages i s e = Yields-raise e (λ w h. ordered i s w h)

  active-Stages :
      (i : ℕ) (f : Host → Host)
      → Stages i HostStatus.bootstrapping (IsFinished i) (commit_status env i HostStatus.active f)
  active-Stages i f = record {
    at = λ w h.
        reached i _
          ((commit_status-Stages i HostStatus.bootstrapping HostStatus.active f refl).at w h);
  }

  activate-Stages :
      (vm : Provider) (host : Host)
      → Stages host.id HostStatus.bootstrapping (IsFinished host.id) (activate env vm host)
  unfolding activate
  activate-Stages vm host =
      Yields-bind _ _ (Yields-attempt _ (scan_known_hosts-Logged env vm host)) (elim [
        | err (host_key_scan text) ↦
            mark_failed-Stages host.id HostStatus.bootstrapping (λ h. h) _ refl
        | err e ↦ raise-Stages host.id HostStatus.bootstrapping e
        | ok known ↦ Stages-bind host.id HostStatus.bootstrapping _ _ (utc_now-Logged env) λ now.
            Stages-bind host.id HostStatus.bootstrapping _ _ (utc_now-Logged env)
              λ later. active-Stages host.id (activated known now later)
      ])

  discover-Stages :
      (vm : Provider) (tailscale : Option Tailscale) (host : Host)
      → Stages host.id HostStatus.bootstrapping
          (IsFinished host.id)
          (discover env vm tailscale host)
  unfolding discover
  discover-Stages vm none host = activate-Stages vm host
  discover-Stages vm (some tailscale) host =
      Yields-bind _ _ (Yields-attempt _ (network_call-Logged env _)) (elim [
        | err e ↦ mark_failed-Stages host.id HostStatus.bootstrapping (λ h. h) e refl
        | ok device ↦ Stages-bind host.id HostStatus.bootstrapping _ _ (utc_now-Logged env) λ now.
            Stages-bind host.id HostStatus.bootstrapping _ _
              (commit_host-Logged env host.id (with_device (some device) now))
              λ _. activate-Stages vm host
      ])

  commit_named-Stages :
      (i : ℕ) (name : String) (f : Host → Host)
      → Stages i HostStatus.creating_vm
          (Reaches i HostStatus.bootstrapping)
          (commit_named env i HostStatus.bootstrapping name f)
  unfolding commit_named
  commit_named-Stages i name f =
      Stages-bind i HostStatus.creating_vm _ _ (query-Logged env _) λ taken.
        Stages-bind i HostStatus.creating_vm _ _ (Keeps-if taken _ _ (Keeps-raise _) Keeps-pass)
          λ _.
            commit_status-Stages i HostStatus.creating_vm HostStatus.bootstrapping
              (λ h. record (f h) { name = name }) refl

  boot-Stages :
      (vm : Provider) (tailscale : Option Tailscale) (host : Host) (result : VmCreateResult)
      → Stages host.id HostStatus.creating_vm
          (IsFinished host.id)
          (boot env vm tailscale host result)
  unfolding boot
  boot-Stages vm tailscale host result =
      Yields-bind _ _ (note_vm-Stages host.id HostStatus.creating_vm result.name) λ _.
        Stages-bind host.id HostStatus.creating_vm _ _ (utc_now-Logged env) λ now.
          Yields-bind _ _
            (commit_named-Stages host.id result.name
              (λ h. touched now (reachable env vm tailscale result h)))
            λ _.
              Yields-bind _ _
                (discover-Stages vm tailscale (reachable env vm tailscale result host))
                λ _. Yields-pure _ (λ w h. h)

  create_vm-Stages :
      (vm : Provider) (tailscale : Option Tailscale) (host : Host) (environment : Variables)
      (script : Option String)
      → Stages host.id HostStatus.creating_network
          (IsFinished host.id)
          (create_vm env vm tailscale host environment script)
  unfolding create_vm
  create_vm-Stages vm tailscale host environment script =
      Stages-bind host.id HostStatus.creating_network _ _ (utc_now-Logged env) λ now.
        Stages-commit host.id HostStatus.creating_network HostStatus.creating_vm
          (λ h. touched now (with_entries host.secrets h)) _ refl
          (Yields-if _ _ _ (give_up-Stages host.id HostStatus.creating_vm (λ h. h) _ refl) (
            Yields-bind _ _ (Yields-attempt _ (provider_call-Logged env _)) (elim [
              | err e ↦ give_up-Stages host.id HostStatus.creating_vm (λ h. h) e refl
              | ok result ↦ boot-Stages vm tailscale host result
            ])))

  secrets_failed-Stages :
      (i : ℕ) (pending : Host → Host) (e : Error)
      → Stages i HostStatus.creating_network (IsFinished i) (secrets_failed env i pending e)
  unfolding secrets_failed
  secrets_failed-Stages i pending (issuer_fault key_error) =
      raise-Stages i HostStatus.creating_network _
  secrets_failed-Stages i pending (issuer_fault (missing_secret text)) =
      Yields-bind _ _ (mark_failed-Stages i HostStatus.creating_network pending _ refl)
        λ _. Yields-raise _ (λ w h. unfinished i w h)
  secrets_failed-Stages i pending (issuer_fault e) =
      give_up-Stages i HostStatus.creating_network pending _ refl
  secrets_failed-Stages i pending (provider_error e) =
      give_up-Stages i HostStatus.creating_network pending _ refl
  secrets_failed-Stages i pending (invalid_env text) =
      give_up-Stages i HostStatus.creating_network pending _ refl
  secrets_failed-Stages i pending e = raise-Stages i HostStatus.creating_network e

  create_persisted-Stages :
      (vm : Provider) (tailscale : Option Tailscale) (host : Host) (environment : Variables)
      (script : Option String) (r : Result Error (Unit {0}))
      → Stages host.id HostStatus.creating_network
          (IsFinished host.id)
          (create_persisted env vm tailscale host environment script r)
  unfolding create_persisted
  create_persisted-Stages vm tailscale host environment script (err e) =
      secrets_failed-Stages host.id (with_entries host.secrets) e
  create_persisted-Stages vm tailscale host environment script (ok _) =
      create_vm-Stages vm tailscale host environment script

  create_with-Stages :
      (vm : Provider) (tailscale : Option Tailscale) (host : Host) (environment : Variables)
      (script : Option String) (r : Result Error Variables)
      → Stages host.id HostStatus.creating_network
          (IsFinished host.id)
          (create_with env vm tailscale host environment script r)
  unfolding create_with
  create_with-Stages vm tailscale host environment script (err e) =
      secrets_failed-Stages host.id (with_entries host.secrets) e
  create_with-Stages vm tailscale host environment script (ok more) =
      create_persisted-Stages vm tailscale host _ script _

  with_secrets-Stages :
      (vm : Provider) (tailscale : Option Tailscale) (host : Host) (environment : Variables)
      (script : Option String)
      → Stages host.id HostStatus.creating_network
          (IsFinished host.id)
          (with_secrets env vm tailscale host environment script)
  unfolding with_secrets
  with_secrets-Stages vm tailscale host environment script =
      Stages-bind host.id HostStatus.creating_network _ _
        (put_secrets-Logged env vm host host.secrets [])
        λ put. create_with-Stages vm tailscale (with_entries put.0 host) environment script put.1

  join_tailnet-Stages :
      (vm : Provider) (tailscale : Option Tailscale) (host : Host)
      → Stages host.id HostStatus.creating_network
          (IsFinished host.id)
          (join_tailnet env vm tailscale host)
  unfolding join_tailnet
  join_tailnet-Stages vm none host = with_secrets-Stages vm none host host.env none
  join_tailnet-Stages vm (some tailscale) host =
      Yields-bind _ _ (Yields-attempt _ (network_call-Logged env _)) (elim [
        | err e ↦ give_up-Stages host.id HostStatus.creating_network (λ h. h) e refl
        | ok key ↦ with_secrets-Stages vm (some tailscale) host _ _
      ])

  -- `provision` of a row whose commits so far lead to PROVISIONING commits its statuses in order,
  -- CREATING_NETWORK, CREATING_VM, BOOTSTRAPPING, ACTIVE, any after the first of which may be
  -- followed by ERROR as the last. When it returns, the last one is ACTIVE or ERROR; when it
  -- raises, those that it committed are still in order.
  pub provision-IsFinished :
      (host : Host) (w : World)
      → Reaches host.id HostStatus.provisioning w.log
      → Outcome
          (λ key. Logged (IsFinished host.id))
          (λ e. Logged (IsOrdered host.id))
          (provision env host w)
  unfolding provision
  provision-IsFinished host w h =
      (Stages-bind host.id HostStatus.provisioning _ _ (utc_now-Logged env) λ now.
          Stages-commit host.id HostStatus.provisioning HostStatus.creating_network (touched now) _
            refl
            (Stages-bind host.id HostStatus.creating_network _ _ (vm_of-Logged env _) λ vm.
              Yields-if _ _ _ (give_up-Stages host.id HostStatus.creating_network (λ h. h) _ refl)
                (join_tailnet-Stages vm _ host))).at
        w (record { events = h })
