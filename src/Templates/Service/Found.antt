-- ===== src/Templates/Service/Found.antt =====
-- What `get_or_create` of src/templates/service.py answers.
use drukbox.Base.{
  ℕ, String, Bool, true, false, ◌≡◌, refl, sym, ap, ◌∙◌, Option, none, some, List, [], ◌∷◌, arith,
  text_or, Bool-cases, inl, inr, eq_iff, if◌then◌else◌,
}
use drukbox.Base.Op.{Result, ok, err, Op, pure, gets, lift, ◌>>=◌}
use drukbox.Base.Keeps.{Keeps, Outcome, Outcome-map}
use drukbox.Base.Yields.{Yields, Yields-pure, Yields-raise, Yields-bind, Yields-Keeps}
use drukbox.Exchange.Secret.{codes}
use drukbox.Providers.{Provider, ProviderError, get_vm_provider}
use drukbox.Hosts.Model.{Error}
use drukbox.Hosts.World.{Env, World, query}
use drukbox.Hosts.Session.{vm_of, provider_call, from_provider}
use drukbox.Templates.Model.{Template, is_building, is_failed}
use drukbox.Templates.Service.{
  Capability, Lives, is_same, find_same, insert_template, take_winner, get_or_create,
}

-- The template is the one that was asked for: the provider and its capability are those of the
-- request, and the reference is what the provider made of the image.
pub record IsWanted (env : Env) (resolve_capability : String → Result Error Capability)
    (provider base_image : Option String) (setup_script : String) (t : Template) : Type 0 where
  pub vm : Provider
  pub capability : Capability
  pub of_provider : get_vm_provider env.registry provider ≡ ok vm
  pub capable : resolve_capability vm.name ≡ ok capability
  pub same_provider : t.provider ≡ vm.name
  pub same_image : t.base_image ≡ text_or base_image vm.default_image
  pub refreshed : capability.refresh_base_image t.base_image ≡ ok t.base_image_ref
  pub same_script : t.setup_script_hash ≡ env.sha256 (codes setup_script)

-- A template to build is marked as being built, and one that is handed back without a build has not
-- failed.
abbrev pub IsDue : Template → Bool → Type 0
IsDue t true = is_building t.status ≡ true
IsDue t false = is_failed t.status ≡ false

-- Two rows that the unique index takes for one.
pub record IsTwin (a b : Template) : Type 0 where
  pub provider : a.provider ≡ b.provider
  pub base_image : a.base_image ≡ b.base_image
  pub base_image_ref : a.base_image_ref ≡ b.base_image_ref
  pub setup_script_hash : a.setup_script_hash ≡ b.setup_script_hash

is_same-IsTwin : (a b : Template) → is_same a b ≡ true → IsTwin a b
is_same-IsTwin a b h = record {
  provider = (eq_iff a.provider b.provider).0 (ground (arith, h));
  base_image = (eq_iff a.base_image b.base_image).0 (ground (arith, h));
  base_image_ref = (eq_iff a.base_image_ref b.base_image_ref).0 (ground (arith, h));
  setup_script_hash = (eq_iff a.setup_script_hash b.setup_script_hash).0 (ground (arith, h));
}

find_same-IsTwin :
    (wanted : Template) (ts : List Template) (t : Template)
    → find_same wanted ts ≡ some t
    → IsTwin t wanted
find_same-IsTwin wanted [] t h = absurd (ground (arith, h))
find_same-IsTwin wanted (x ∷ ts) t h = elim (Bool-cases (is_same x wanted)) [
  | inl same ↦ is_same-IsTwin t wanted (ground (arith, h, same))
  | inr other ↦ find_same-IsTwin wanted ts t (ground (arith, h, other))
]

anything : {A : Type 0} (m : Op World Error A) → Keeps (λ w. Unit {0}) m
anything m = record { at = λ w h. tt }

module _ (env : Env) (lives : Lives) (resolve_capability : String → Result Error Capability)
    (wanted : Template) where
  abbrev Answers : Template × Bool → World → Type 0
  Answers a w = IsTwin a.0 wanted × IsDue a.0 a.1

  abbrev Any : Error → World → Type 0
  Any e w = Unit

  take_winner-Answers :
      (now : ℕ) (found : Option Template)
      → ((t : Template) → found ≡ some t → IsTwin t wanted)
      → Yields (λ w. Unit {0}) Answers Any (take_winner env lives resolve_capability now found)
  unfolding take_winner
  take_winner-Answers now none twin = Yields-raise _ (λ w h. tt)
  take_winner-Answers now (some winner) twin =
      let same = twin winner refl in
      elim (Bool-cases (is_failed winner.status)) [
        | inl failed ↦ rw failed (
            Yields-bind _ _ (Yields-Keeps _ (λ e w h. tt) (anything _)) λ _. Yields-pure _ (λ w h. (
              record {
                provider = same.provider;
                base_image = same.base_image;
                base_image_ref = same.base_image_ref;
                setup_script_hash = same.setup_script_hash;
              },
              refl,
            )))
        | inr kept ↦ rw kept (Yields-pure _ (λ w h. (same, kept)))
      ]

  after_insert-Answers :
      (now : ℕ)
      → is_building wanted.status ≡ true
      → (inserted : Bool)
      → Yields
          (λ w. Unit {0})
          Answers
          Any
          (query env (λ db. find_same wanted db.templates) >>= λ winner.
            if inserted
            then pure (wanted, true)
            else take_winner env lives resolve_capability now winner)
  unfolding query gets pure ◌>>=◌
  after_insert-Answers now building true = record {
    at = λ w h. (
      record {
        provider = refl;
        base_image = refl;
        base_image_ref = refl;
        setup_script_hash = refl;
      },
      building,
    );
  }
  after_insert-Answers now building false = record {
    at = λ w h.
        (take_winner-Answers now (find_same wanted w.db.templates)
            (find_same-IsTwin wanted w.db.templates)).at
          w tt;
  }

  answered-Answers :
      (now : ℕ)
      → is_building wanted.status ≡ true
      → Yields
          (λ w. Unit {0})
          Answers
          Any
          (insert_template env lives resolve_capability wanted >>= λ inserted.
            query env (λ db. find_same wanted db.templates) >>= λ winner.
            if inserted
            then pure (wanted, true)
            else take_winner env lives resolve_capability now winner)
  answered-Answers now building =
      Yields-bind {A = Bool} _ _ (Yields-Keeps _ (λ e w h. tt) (anything _))
        (after_insert-Answers now building)

-- A value that is given, and a call to a provider, with what they say of the result.
abbrev AnyError : Error → World → Type 0
AnyError e w = Unit

lift-Yields :
    {A : Type 0} (r : Result Error A) → Yields (λ w. Unit {0}) (λ a w. r ≡ ok a) AnyError (lift r)
unfolding lift
lift-Yields (ok a) = record { at = λ w h. refl }
lift-Yields (err e) = record { at = λ w h. tt }

provider-Yields :
    {A : Type 0} (env : Env) (r : Result ProviderError A)
    → Yields (λ w. Unit {0}) (λ a w. r ≡ ok a) AnyError (lift (from_provider env r))
unfolding lift from_provider
provider-Yields env (ok a) = record { at = λ w h. refl }
provider-Yields env (err e) = record { at = λ w h. tt }

-- What follows a value of which something is known.
known-then :
    {A B : Type 0} (F : A → Type 0) (Q : B → World → Type 0) (m : Op World Error A)
    (f : A → Op World Error B)
    → Yields (λ w. Unit {0}) (λ a w. F a) AnyError m
    → ((a : A) → F a → Yields (λ w. Unit {0}) Q AnyError (f a))
    → Yields (λ w. Unit {0}) Q AnyError (m >>= f)
known-then F Q m f y next = Yields-bind m f y (λ a. record { at = λ w h. (next a h).at w tt })

anything-then :
    {A B : Type 0} (Q : B → World → Type 0) (m : Op World Error A) (f : A → Op World Error B)
    → ((a : A) → Yields (λ w. Unit {0}) Q AnyError (f a))
    → Yields (λ w. Unit {0}) Q AnyError (m >>= f)
anything-then Q m f next = Yields-bind m f (Yields-Keeps m (λ e w h. tt) (anything m)) next

module _ (env : Env) (lives : Lives) (resolve_capability : String → Result Error Capability)
    (provider base_image : Option String) (setup_script label : String) where
  abbrev pub IsAnswer : Template × Bool → World → Type 0
  IsAnswer a w =
      IsWanted env resolve_capability provider base_image setup_script a.0 × IsDue a.0 a.1

  get_or_create-Yields :
      Yields
        (λ w. Unit {0})
        IsAnswer
        AnyError
        (get_or_create env lives resolve_capability provider base_image setup_script label)
  unfolding get_or_create vm_of provider_call
  get_or_create-Yields = anything-then IsAnswer _ _ λ _.
      known-then (λ vm. get_vm_provider env.registry provider ≡ ok vm) IsAnswer _ _
        (provider-Yields env (get_vm_provider env.registry provider))
        λ vm of_provider.
          known-then (λ c. resolve_capability vm.name ≡ ok c) IsAnswer _ _
            (lift-Yields (resolve_capability vm.name))
            λ capability capable.
              let image = text_or base_image vm.default_image in
              let refresh = capability.refresh_base_image in
              known-then (λ reference. refresh image ≡ ok reference) IsAnswer _ _
                (anything-then (λ a w. refresh image ≡ ok a) _ _
                  λ _. provider-Yields env (refresh image))
                λ reference refreshed. anything-then IsAnswer _ _ λ now.
                  anything-then IsAnswer _ _ λ uid. anything-then IsAnswer _ _ λ _. record {
                    at = λ w h.
                        Outcome-map {A = Template × Bool} _ IsAnswer AnyError _
                          (λ a s answer. (
                            record {
                              vm = vm;
                              capability = capability;
                              of_provider = of_provider;
                              capable = capable;
                              same_provider = answer.0.provider;
                              same_image = answer.0.base_image;
                              refreshed =
                                  ap refresh answer.0.base_image
                                  ∙ refreshed
                                  ∙ ap ok (sym answer.0.base_image_ref);
                              same_script = answer.0.setup_script_hash;
                            },
                            answer.1,
                          ))
                          ((answered-Answers env lives resolve_capability _ now refl).at w tt);
                  }

-- Whatever the other requests do, a template that `get_or_create` returns is of the provider that was
-- asked for, of the base image with the reference that the provider gave for it, and of the setup
-- script; the caller is asked to build only a template that is marked as being built, and is never
-- handed one that has failed.
pub get_or_create-IsAnswer :
    (env : Env) (lives : Lives) (resolve_capability : String → Result Error Capability)
    (provider base_image : Option String) (setup_script label : String) (w : World)
    → Outcome
        (IsAnswer env lives resolve_capability provider base_image setup_script label)
        (λ e w'. Unit {0})
        (get_or_create env lives resolve_capability provider base_image setup_script label w)
get_or_create-IsAnswer env lives resolve_capability provider base_image setup_script label w =
    (get_or_create-Yields env lives resolve_capability provider base_image setup_script label).at w
      tt
