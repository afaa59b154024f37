-- ===== src/Hosts/Trace/Teardown.antt =====
-- The order in which `delete_host` of src/hosts/service.py takes a host down.
pub mod Phases
use drukbox.Base.{
  ℕ, String, Bool, true, false, not, ◌&&◌, ◌||◌, ◌≡◌, refl, sym, ap, ◌∙◌, Option, none, some, List,
  [], ◌∷◌, ◌++◌, if◌then◌else◌, is_text, arith, Bool-cases, inl, inr, ◌⊎◌,
}
use mathlib.Core.List.{append_assoc, append-nil}
use drukbox.Base.Op.{Result, ok, err, Op, pure, raise, lift, pass, attempt, modify, ◌>>=◌}
use drukbox.Base.Keeps.{Keeps, Outcome, Outcome-map, Keeps-pass, Keeps-raise, Keeps-if}
use drukbox.Base.Yields.{
  Yields, Yields-pure, Yields-raise, Yields-if, Yields-Keeps, Yields-attempt, Yields-bind,
}
use drukbox.Providers.{
  Provider, ProviderError, ProviderKind, not_found, target_vm_not_found, proxy_not_found, Registry,
  get_vm_provider, is_not_found,
}
use drukbox.Hosts.Model.{Host, HostStatus, Error, provider_error, is_delete_blocked, is_vm_backed}
use drukbox.Hosts.World.{
  Env, World, Event, vm_delete_called, secrets_delete_called, device_release_called, row_deleted,
  Tailscale, NetworkFault, note, find_host, query, store, await_others,
}
use drukbox.Hosts.Session.{
  delete_row, get_host, from_provider, from_network, vm_of, provider_call, network_call,
  delete_secrets, delete_vm, release_call,
}
use drukbox.Hosts.Lifecycle.{
  release_device, absent_is_gone, tear_down, delete_found, delete_host, existing, is_spared,
}
use drukbox.Hosts.Provision.{with_device}
use drukbox.Hosts.Trace.{
  Logged, await_others-Logged, utc_now-Logged, vm_of-Logged, provider_call-Logged,
  network_call-Logged, commit_host-Logged,
}
pub use drukbox.Hosts.Trace.Teardown.Phases.{torn_down, DidPart, IsTornDown}
use drukbox.Hosts.Trace.Teardown.Phases.{
  released, backed, IsAbsentKind, IsGone, IsReleased, Did, kind-IsAbsentKind, Phase, part,
  Phase-quiet, Phase-then, noted, note-Phase, Gives, Gives-then, Phase-Gives, provider-Gives,
  network-Gives, Always, called-Gives, attempted-Gives, is_not_found-IsAbsentKind,
  absent_is_gone-Gives, release_device-Gives, delete_row-Phase,
}

module _ (env : Env) (base : List Event) (host : Host) where
  abbrev device : List Event
  device = released host.tailscale_device_id env.tailscale

  tear_down-Gives :
      Gives env base
        (torn_down env host)
        []
        (torn_down env host)
        (λ u. IsTornDown env host)
        (tear_down env host)
  unfolding tear_down vm_of delete_secrets delete_vm provider_call
  tear_down-Gives =
      let whole = torn_down env host in
      let name = host.name in
      Gives-then env base whole [] device whole _ _ _ _
        (release_device-Gives env base whole host.id host.tailscale_device_id env.tailscale _ refl)
        λ _ released.
          Gives-then env base whole device device whole _ _ _ _
            (provider-Gives env base whole device _
              (get_vm_provider env.registry (some host.provider)) refl)
            λ vm known.
              let secrets = secrets_delete_called name (vm.delete_secrets name) in
              let gone = vm_delete_called name (vm.delete_vm name) in
              let prefix : whole ≡ (device ++ secrets ∷ []) ++ gone ∷ [] =
                ap (λ p. device ++ backed p name) known
                ∙ sym (append_assoc device (secrets ∷ []) (gone ∷ [])) in
              Gives-then env base whole device (device ++ secrets ∷ []) whole _ _ _ _
                (called-Gives env base whole device (device ++ secrets ∷ []) (gone ∷ []) secrets
                  (λ u. vm.delete_secrets name ≡ ok u) _ refl prefix
                  (provider-Gives env base whole (device ++ secrets ∷ []) (gone ∷ [])
                    (vm.delete_secrets name) prefix))
                λ _ deleted.
                  Gives-then env base whole (device ++ secrets ∷ []) whole whole
                    (λ a. a ≡ from_provider env (vm.delete_vm name)) _ _ _
                    (attempted-Gives env base whole (device ++ secrets ∷ []) whole gone
                      (from_provider env (vm.delete_vm name)) (sym prefix))
                    λ answer same. rw same (
                      absent_is_gone-Gives env base whole whole [] (vm.delete_vm name)
                        (IsTornDown env host) (sym (append-nil whole))
                        (λ vm_gone. record {
                          vm = vm;
                          of_provider = known;
                          device_released = released;
                          secrets_deleted = deleted;
                          vm_gone = vm_gone;
                        }))

  -- A host that no status keeps from being deleted has a machine to tear down.
  unblocked_backed :
      (force : Bool) (status : HostStatus)
      → (not force && is_delete_blocked status) ≡ false
      → (force || is_vm_backed status) ≡ true
  unfolding is_delete_blocked is_vm_backed
  unblocked_backed true status h = refl
  unblocked_backed false HostStatus.provisioning h = absurd (ground arith)
  unblocked_backed false HostStatus.creating_network h = absurd (ground arith)
  unblocked_backed false HostStatus.creating_vm h = absurd (ground arith)
  unblocked_backed false _ h = refl

  -- What a deletion leaves: all calls of a teardown, answered as they should be, and the row's
  -- deletion, or nothing for a host that was spared.
  abbrev pub AfterDeletion : Bool → World → Type 0
  AfterDeletion true w =
      (w.log ≡ base ++ (torn_down env host ++ row_deleted host.id ∷ [])) × IsTornDown env host
  AfterDeletion false w = w.log ≡ base ++ []

  delete_found-Yields :
      (force : Bool)
      → Yields
          (Logged (Did base []))
          AfterDeletion
          (λ e. Logged (DidPart base (torn_down env host)))
          (delete_found env force host)
  unfolding delete_found
  delete_found-Yields force =
      let whole = torn_down env host in
      elim (Bool-cases (not force && is_delete_blocked host.status)) [
        | inl blocked ↦ rw blocked (
            Yields-bind {R = λ a w. ⊥} _ _
              (Yields-raise _ (λ w h. part env base whole [] whole w refl h))
              (λ _. record { at = λ w none_left. absurd none_left }))
        | inr free ↦ rw free (
            rw (unblocked_backed force host.status free) (
              Yields-bind _ _ (Phase-quiet env base whole [] whole _ refl Keeps-pass) λ _.
                Yields-bind _ _ tear_down-Gives λ _. record {
                  at = λ w h.
                      (Yields-bind {R = λ u. Logged (Did base (whole ++ row_deleted host.id ∷ []))}
                          _ _ (delete_row-Phase env base whole whole host.id)
                          (λ _. Yields-pure true (λ v k. (k.events, h.1)))).at
                        w h.0;
                }))
      ]

  spared : (w : World) → Logged (Did base []) w → AfterDeletion false w
  spared w h = h.events

module _ (env : Env) (base : List Event) (host : Host) where
  guarded-Yields :
      (force pool_shed expired_only : Bool) (now : ℕ)
      → Yields
          (Logged (Did base []))
          (AfterDeletion env base host)
          (λ e. Logged (DidPart base (torn_down env host)))
          (if is_spared env pool_shed expired_only now host
            then pure false
            else delete_found env force host)
  guarded-Yields force pool_shed expired_only now =
      Yields-if _ _ _ (Yields-pure false (λ w h. spared env base host w h))
        (delete_found-Yields env base host force)

-- `delete_host` of a row that is there, under any options: when it returns true it has asked the
-- tailnet to release the device, if there is one, the provider to delete the secrets and then the
-- machine, each call with the answer that it did so or, for the machine, that it does not know it,
-- and then it has deleted the row, in this order; when it returns false it has made none of these
-- calls; and when it raises it has made a first part of them and has not deleted the row.
pub delete_host-torn_down :
    (env : Env) (force pool_shed expired_only : Bool) (i : ℕ) (host : Host) (w : World)
    → find_host i w.db.hosts ≡ some host
    → Outcome
        (AfterDeletion env w.log host)
        (λ e. Logged (DidPart w.log (torn_down env host)))
        (delete_host env force pool_shed expired_only i w)
unfolding delete_host get_host existing query ◌>>=◌
delete_host-torn_down env force pool_shed expired_only i host w there = rw there (
    (Yields-bind _ _
        (Phase-quiet env w.log (torn_down env host) [] (torn_down env host) _ refl
          (utc_now-Logged env))
        λ now. guarded-Yields env w.log host force pool_shed expired_only now).at
      w (record { events = sym (append-nil w.log) }))
