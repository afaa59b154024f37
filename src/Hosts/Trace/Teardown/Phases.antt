-- ===== src/Hosts/Trace/Teardown/Phases.antt =====
-- The calls of a teardown (src/hosts/service.py, `delete_host`), with their answers, and the phases in
-- which they are made.
use drukbox.Base.{
  ℕ, String, true, false, ◌≡◌, refl, ap, ◌∙◌, Option, none, some, List, [], ◌∷◌, ◌++◌,
  if◌then◌else◌, is_text, arith, Bool-cases, inl, inr, ◌⊎◌,
}
use mathlib.Core.List.{append_assoc}
use drukbox.Base.Op.{Result, ok, err, Op, raise, lift, pass, attempt, modify, ◌>>=◌}
use drukbox.Base.Keeps.{Keeps, Outcome-map, Keeps-pass}
use drukbox.Base.Yields.{Yields, Yields-Keeps, Yields-bind}
use drukbox.Providers.{
  Provider, ProviderError, ProviderKind, not_found, target_vm_not_found, proxy_not_found,
  get_vm_provider, is_not_found,
}
use drukbox.Hosts.Model.{Host, Error}
use drukbox.Hosts.World.{
  Env, World, Event, vm_delete_called, secrets_delete_called, device_release_called, row_deleted,
  Tailscale, NetworkFault, note, store, await_others,
}
use drukbox.Hosts.Session.{delete_row, from_provider, from_network, network_call, release_call}
use drukbox.Hosts.Lifecycle.{release_device, absent_is_gone}
use drukbox.Hosts.Provision.{with_device}
use drukbox.Hosts.Trace.{Logged, await_others-Logged, utc_now-Logged, commit_host-Logged}

abbrev pub released : Option String → Option Tailscale → List Event
released (some device) (some tailscale) =
    if is_text device
    then device_release_called device (tailscale.release_device device) ∷ []
    else []
released _ _ = []

abbrev pub backed : Result ProviderError Provider → String → List Event
backed (err e) name = []
backed (ok vm) name =
    secrets_delete_called name (vm.delete_secrets name)
    ∷ vm_delete_called name (vm.delete_vm name)
    ∷ []

-- The calls of a teardown with their answers: the tailnet device, the secrets, then the machine.
abbrev pub torn_down : Env → Host → List Event
torn_down env host =
    released host.tailscale_device_id env.tailscale
    ++ backed (get_vm_provider env.registry (some host.provider)) host.name

-- The provider deleted the machine or does not know it.
abbrev pub IsAbsentKind : ProviderKind → Type 0
IsAbsentKind not_found = Unit
IsAbsentKind target_vm_not_found = Unit
IsAbsentKind proxy_not_found = Unit
IsAbsentKind _ = ⊥

abbrev pub IsGone : Result ProviderError (Unit {0}) → Type 0
IsGone (ok u) = Unit
IsGone (err e) = IsAbsentKind e.kind

-- There was no device to release, or the tailnet released it.
abbrev pub IsReleased : Option String → Option Tailscale → Type 0
IsReleased (some device) (some tailscale) =
    (is_text device ≡ false) ⊎ (tailscale.release_device device ≡ ok tt)
IsReleased _ _ = Unit

-- Every call of the teardown was answered as it should be.
pub record IsTornDown (env : Env) (host : Host) : Type 0 where
  pub vm : Provider
  pub of_provider : get_vm_provider env.registry (some host.provider) ≡ ok vm
  pub device_released : IsReleased host.tailscale_device_id env.tailscale
  pub secrets_deleted : vm.delete_secrets host.name ≡ ok tt
  pub vm_gone : IsGone (vm.delete_vm host.name)

-- The log that was there, with what has been done since.
abbrev pub Did : List Event → List Event → List Event → Type 0
Did base done log = log ≡ base ++ done

-- A first part of a teardown has been done, and the row has not been deleted.
abbrev pub DidPart : List Event → List Event → List Event → Type 0
DidPart base whole log =
    (done : List Event) × (rest : List Event) × (whole ≡ done ++ rest) × Did base done log

pub kind-IsAbsentKind :
    (kind : ProviderKind)
    → (elim kind [
      | not_found ↦ true
      | target_vm_not_found ↦ true
      | proxy_not_found ↦ true
      | _ ↦ false
    ])
      ≡ true
    → IsAbsentKind kind
kind-IsAbsentKind ProviderKind.not_found h = tt
kind-IsAbsentKind ProviderKind.target_vm_not_found h = tt
kind-IsAbsentKind ProviderKind.proxy_not_found h = tt
kind-IsAbsentKind ProviderKind.auth h = absurd (ground (arith, h))
kind-IsAbsentKind ProviderKind.transport h = absurd (ground (arith, h))
kind-IsAbsentKind ProviderKind.command h = absurd (ground (arith, h))
kind-IsAbsentKind ProviderKind.proxy_exists h = absurd (ground (arith, h))
kind-IsAbsentKind ProviderKind.unknown_provider h = absurd (ground (arith, h))
kind-IsAbsentKind ProviderKind.capability_unsupported h = absurd (ground (arith, h))
kind-IsAbsentKind ProviderKind.unsupported_sizing h = absurd (ground (arith, h))

module _ (env : Env) (base whole : List Event) where
  abbrev pub Phase : {A : Type 0} → List Event → List Event → Op World Error A → Type 0
  Phase done later m =
      Yields (Logged (Did base done)) (λ a. Logged (Did base later))
        (λ e. Logged (DidPart base whole)) m

  pub part :
      (done rest : List Event) (w : World)
      → whole ≡ done ++ rest
      → Logged (Did base done) w
      → Logged (DidPart base whole) w
  part done rest w e h = record { events = (done, rest, e, h.events) }

  pub Phase-quiet :
      {A : Type 0} (done rest : List Event) (m : Op World Error A)
      → whole ≡ done ++ rest
      → Keeps (Logged (Did base done)) m
      → Phase done done m
  Phase-quiet done rest m e k = Yields-Keeps m (λ x w h. part done rest w e h) k

  -- A statement that notes nothing, and what follows it.
  pub Phase-then :
      {A B : Type 0} (done rest later : List Event) (m : Op World Error A)
      (f : A → Op World Error B)
      → whole ≡ done ++ rest
      → Keeps (Logged (Did base done)) m
      → ((a : A) → Phase done later (f a))
      → Phase done later (m >>= f)
  Phase-then done rest later m f e k y = Yields-bind m f (Phase-quiet done rest m e k) y

  pub noted :
      (done later log : List Event) (e : Event)
      → done ++ e ∷ [] ≡ later
      → Did base done log
      → Did base later (log ++ e ∷ [])
  noted done later log e next h =
      ap (λ l. l ++ e ∷ []) h ∙ append_assoc base done (e ∷ []) ∙ ap (λ l. base ++ l) next

  pub note-Phase :
      (done later : List Event) (e : Event) → done ++ e ∷ [] ≡ later → Phase done later (note env e)
  unfolding note modify
  note-Phase done later e next = record {
    at = λ w h. record { events = noted done later w.log e next h.events };
  }

  -- A phase that also gives a fact about its value, and what follows it.
  abbrev pub Gives :
      {A : Type 0} → List Event → List Event → (A → Type 0) → Op World Error A → Type 0
  Gives done later F m =
      Yields (Logged (Did base done)) (λ a w. Logged (Did base later) w × F a)
        (λ e. Logged (DidPart base whole)) m

  pub Gives-then :
      {A B : Type 0} (done later last : List Event) (F : A → Type 0) (G : B → Type 0)
      (m : Op World Error A) (f : A → Op World Error B)
      → Gives done later F m
      → ((a : A) → F a → Gives later last G (f a))
      → Gives done last G (m >>= f)
  Gives-then done later last F G m f y next =
      Yields-bind m f y (λ a. record { at = λ w h. (next a h.1).at w h.0 })

  pub Phase-Gives :
      {A : Type 0} (done later : List Event) (F : A → Type 0) (m : Op World Error A)
      → ((a : A) → F a)
      → Phase done later m
      → Gives done later F m
  Phase-Gives done later F m fact y = record {
    at = λ w h. Outcome-map _ _ _ (m w) (λ a s q. (q, fact a)) (y.at w h);
  }

  pub provider-Gives :
      {A : Type 0} (done rest : List Event) (r : Result ProviderError A)
      → whole ≡ done ++ rest
      → Gives done done (λ a. r ≡ ok a) (lift (from_provider env r))
  unfolding from_provider lift
  provider-Gives done rest (ok a) e = record { at = λ w h. (h, refl) }
  provider-Gives done rest (err x) e = record { at = λ w h. part done rest w e h }

  pub network-Gives :
      {A : Type 0} (done rest : List Event) (r : Result NetworkFault A)
      → whole ≡ done ++ rest
      → Gives done done (λ a. r ≡ ok a) (lift (from_network env r))
  unfolding from_network lift
  network-Gives done rest (ok a) e = record { at = λ w h. (h, refl) }
  network-Gives done rest (err x) e = record { at = λ w h. part done rest w e h }

  abbrev pub Always : {A : Type 0} → A → Type 0
  Always a = Unit

  -- A call that is noted with its answer.
  pub called-Gives :
      {A : Type 0} (done later rest : List Event) (e : Event) (F : A → Type 0)
      (m : Op World Error A)
      → done ++ e ∷ [] ≡ later
      → whole ≡ later ++ rest
      → Gives later later F m
      → Gives done later F (note env e >>= λ _. await_others env >>= λ _. m)
  called-Gives done later rest e F m next prefix y =
      Gives-then done later later Always F _ _
        (Phase-Gives done later Always _ (λ a. tt) (note-Phase done later e next))
        λ _ _.
          Gives-then later later later Always F _ _
            (Phase-Gives later later Always _ (λ a. tt)
              (Phase-quiet later rest _ prefix (await_others-Logged env)))
            (λ _ _. y)

  pub attempted-Gives :
      (done later : List Event) (e : Event) (r : Result Error (Unit {0}))
      → done ++ e ∷ [] ≡ later
      → Gives done later
          (λ answer. answer ≡ r)
          (attempt (note env e >>= λ _. await_others env >>= λ _. lift r))
  unfolding attempt note await_others modify lift ◌>>=◌
  attempted-Gives done later e r next = record {
    at = λ w h. (record { events = noted done later w.log e next h.events }, refl);
  }

  pub is_not_found-IsAbsentKind : (e : ProviderError) → is_not_found e ≡ true → IsAbsentKind e.kind
  unfolding is_not_found
  is_not_found-IsAbsentKind e h = kind-IsAbsentKind e.kind h

  pub absent_is_gone-Gives :
      (done rest : List Event) (r : Result ProviderError (Unit {0})) (F : Type 0)
      → whole ≡ done ++ rest
      → (IsGone r → F)
      → Gives done done (λ u. F) (absent_is_gone env (from_provider env r))
  unfolding absent_is_gone from_provider pass raise
  absent_is_gone-Gives done rest (ok u) F e fact = record { at = λ w h. (h, fact tt) }
  absent_is_gone-Gives done rest (err x) F e fact = elim (Bool-cases (is_not_found x)) [
    | inl gone ↦ rw gone (record { at = λ w h. (h, fact (is_not_found-IsAbsentKind x gone)) })
    | inr other ↦ rw other (record { at = λ w h. part done rest w e h })
  ]

  pub release_device-Gives :
      (i : ℕ) (device : Option String) (tailscale : Option Tailscale) (rest : List Event)
      → whole ≡ released device tailscale ++ rest
      → Gives []
          (released device tailscale)
          (λ u. IsReleased device tailscale)
          (release_device env i device tailscale)
  unfolding release_device release_call network_call
  release_device-Gives i none tailscale rest e =
      Phase-Gives [] [] _ _ (λ a. tt) (Phase-quiet [] rest _ e Keeps-pass)
  release_device-Gives i (some device) none rest e =
      Phase-Gives [] [] _ _ (λ a. tt) (Phase-quiet [] rest _ e Keeps-pass)
  release_device-Gives i (some device) (some tailscale) rest e =
      let answer = tailscale.release_device device in
      let call = device_release_called device answer in
      elim (Bool-cases (is_text device)) [
        | inr empty ↦ rw empty (
            Phase-Gives [] [] _ _ (λ a. inl refl)
              (Phase-quiet [] rest _ (ground (arith, e, empty)) Keeps-pass))
        | inl text ↦
            let prefix : whole ≡ (call ∷ []) ++ rest = ground (arith, e, text) in
            rw text (
              Gives-then [] (call ∷ []) (call ∷ []) (λ u. answer ≡ ok u) _ _ _
                (called-Gives [] (call ∷ []) rest call (λ u. answer ≡ ok u) _ refl prefix
                  (network-Gives (call ∷ []) rest answer prefix))
                λ u released.
                  Phase-Gives (call ∷ []) (call ∷ []) _ _ (λ a. inr released)
                    (Phase-then (call ∷ []) rest (call ∷ []) _ _ prefix (utc_now-Logged env) λ now.
                      Phase-quiet _ rest _ prefix
                        (commit_host-Logged env i (with_device none now))))
      ]

  -- The deletion of the row, which raises nothing.
  pub delete_row-Phase :
      (done : List Event) (i : ℕ) → Phase done (done ++ row_deleted i ∷ []) (delete_row env i)
  unfolding delete_row store note await_others modify
  delete_row-Phase done i = record {
    at = λ w h. record {
      events = noted done (done ++ row_deleted i ∷ []) w.log (row_deleted i) refl h.events;
    };
  }
