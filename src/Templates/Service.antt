-- ===== src/Templates/Service.antt =====
-- src/templates/service.py: `TemplateService`, over the world of the hosts.
pub mod Guards
pub mod Found
use Prim.Native.String as Text
use drukbox.Base.{
  ℕ, ◌+◌, String, Bool, true, false, not, ◌&&◌, ◌||◌, Option, none, some, List, [], ◌∷◌, ◌++◌, ◌==◌,
  ltb, if◌then◌else◌, str_eq, is_text, is_some, any, text_or, or_else,
}
use drukbox.Base.Op.{Result, ok, err, pure, raise, gets, lift, modify, pass, attempt, ◌>>=◌, ◌>>◌}
use drukbox.Exchange.Secret.{codes}
use drukbox.Providers.{Provider, ProviderError}
use drukbox.Hosts.Model.{
  Error, resource_not_found, template_state, provider_error, integrity_error, stale_row,
  failure_text,
}
use drukbox.Hosts.World.{
  Env, Db, Act, query, store, utc_now, await_others, seconds, find_template, update_template,
}
use drukbox.Hosts.Session.{vm_of, provider_call}
use drukbox.Hosts.Request.{check_provider_name}
use drukbox.Hosts.Lifecycle.{absent_is_gone}
use drukbox.Templates.Model.{Template, TemplateStatus, is_available, is_failed, is_building}

-- What a provider with the capability does, and the settings of templates.
pub record Capability : Type 0 where
  pub refresh_base_image : String → Result ProviderError String
  pub build_template_image : (base_image setup_script label : String) → Result ProviderError String
  pub delete_template_image : String → Result ProviderError (Unit {0})

pub record Lives : Type 0 where
  pub failed_retention : ℕ
  pub unused_ttl : ℕ
  pub build_timeout : ℕ

-- `reapable`, at a reading of the clock: failed for longer than it is kept, or unused.
unfoldable pub is_reapable : Lives → ℕ → Template → Bool
is_reapable lives now t =
    is_failed t.status && ltb (t.updated_at + seconds lives.failed_retention) now
    || is_available t.status
      && ltb (or_else t.last_used_at t.created_at + seconds lives.unused_ttl) now

-- The unique index of `templates`.
abbrev pub is_same : Template → Template → Bool
is_same a b =
    str_eq a.provider b.provider
    && str_eq a.base_image b.base_image
    && str_eq a.base_image_ref b.base_image_ref
    && str_eq a.setup_script_hash b.setup_script_hash

abbrev pub has_template : ℕ → List Template → Bool
has_template i = any (λ t. t.id == i)

abbrev pub find_same : Template → List Template → Option Template
find_same wanted [] = none
find_same wanted (t ∷ ts) = if is_same t wanted then some t else find_same wanted ts

abbrev pub remove_template : ℕ → List Template → List Template
remove_template i [] = []
remove_template i (t ∷ ts) = if t.id == i then remove_template i ts else t ∷ remove_template i ts

abbrev pub on_templates : (List Template → List Template) → Db → Db
on_templates f db = record db { templates = f db.templates }

abbrev pub rebuilding : ℕ → Template → Template
rebuilding now t = record t { status = TemplateStatus.building; updated_at = now }

abbrev pub built : String → ℕ → Template → Template
built image now t = record t {
  image = image;
  status = TemplateStatus.available;
  last_error = "";
  updated_at = now;
}

abbrev pub broken : Error → ℕ → Template → Template
broken exc now t = record t {
  status = TemplateStatus.failed;
  last_error = failure_text exc;
  updated_at = now;
}

-- `resolve_capability` is a parameter: it refuses a provider without templates.
module _ (env : Env) (lives : Lives) (resolve_capability : String → Result Error Capability) where
  -- A flush of changed columns of one row, and the commit.
  unfoldable pub commit_template : ℕ → (Template → Template) → Act (Unit {0})
  commit_template i f = do
    present ← query env (λ db. has_template i db.templates)
    if present then store env (on_templates (update_template i f)) else raise stale_row
    await_others env

  -- The INSERT: false when the unique index refuses the row.
  unfoldable pub insert_template : Template → Act Bool
  insert_template t = do
    taken ← query env (λ db. has_template t.id db.templates || is_some (find_same t db.templates))
    if taken then pass else store env (on_templates (λ ts. ts ++ t ∷ []))
    await_others env
    pure (not taken)

  -- A failed template is built again by the request that finds it.
  unfoldable pub take_winner : ℕ → Option Template → Act (Template × Bool)
  unfolding commit_template
  take_winner now none = raise (template_state "template creation race could not be resolved")
  take_winner now (some winner) =
      if is_failed winner.status
      then (do commit_template winner.id (rebuilding now); pure (rebuilding now winner, true))
      else pure (winner, false)

  -- `get_or_create`; true asks the caller to build the template.
  unfoldable pub get_or_create :
      Option String → Option String → (setup_script label : String) → Act (Template × Bool)
  unfolding insert_template take_winner
  get_or_create provider base_image setup_script label = do
    check_provider_name env provider
    vm ← vm_of env provider
    capability ← lift (resolve_capability vm.name)
    reference ←
        provider_call env (capability.refresh_base_image (text_or base_image vm.default_image))
    now ← utc_now env
    uid ← gets (λ w. w.fresh)
    modify (λ w. record w { fresh = w.fresh + 1 })
    let template : Template = record {
      id = env.uuid7 uid;
      provider = vm.name;
      base_image = text_or base_image vm.default_image;
      base_image_ref = reference;
      setup_script_hash = env.sha256 (codes setup_script);
      setup_script = setup_script;
      label = label;
      image = "";
      status = TemplateStatus.building;
      last_error = "";
      created_at = now;
      updated_at = now;
      last_used_at = none;
    }
    inserted ← insert_template template
    winner ← query env (λ db. find_same template db.templates)
    if inserted then pure (template, true) else take_winner now winner

  unfoldable pub image_built : Template → Act String
  image_built t = do
    vm ← vm_of env (some t.provider)
    capability ← lift (resolve_capability vm.name)
    provider_call env (capability.build_template_image t.base_image_ref t.setup_script t.label)

  unfoldable pub close_build : ℕ → Result Error String → Act (Unit {0})
  unfolding commit_template
  close_build i (ok image) = do now ← utc_now env; commit_template i (built image now)
  close_build i (err exc) = do now ← utc_now env; commit_template i (broken exc now)

  unfoldable pub build_found : Option Template → Act (Unit {0})
  unfolding image_built close_build
  build_found none = raise (resource_not_found "template not found")
  build_found (some t) = do
    await_others env
    image ← attempt (image_built t)
    close_build t.id image

  -- `build`
  unfoldable pub build : ℕ → Act (Unit {0})
  unfolding build_found
  build i = do found ← query env (λ db. find_template i db.templates); build_found found

  unfoldable pub delete_image : Template → Act (Unit {0})
  delete_image t =
      if is_text t.image
      then (do
        vm ← vm_of env (some t.provider)
        capability ← lift (resolve_capability vm.name)
        deleted ← attempt (provider_call env (capability.delete_template_image t.image))
        absent_is_gone env deleted)
      else pass

  unfoldable pub delete_unspared : Template → Act Bool
  unfolding delete_image
  delete_unspared t = do
    if is_building t.status then raise (template_state "template is still building") else pass
    delete_image t
    store env (on_templates (remove_template t.id))
    await_others env
    pure true

  unfoldable pub delete_found : Bool → Option Template → Act Bool
  unfolding delete_unspared
  delete_found expired_only none = raise (resource_not_found "template not found")
  delete_found expired_only (some t) = do
    now ← utc_now env
    if expired_only && not (is_reapable lives now t) then pure false else delete_unspared t

  -- `delete`; the clock is read whether or not `expired_only` asks for it.
  unfoldable pub delete : ℕ → Bool → Act Bool
  unfolding delete_found
  delete i expired_only = do
    found ← query env (λ db. find_template i db.templates)
    delete_found expired_only found
