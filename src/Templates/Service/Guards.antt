-- ===== src/Templates/Service/Guards.antt =====
-- What `delete` of src/templates/service.py spares, and what it does to the rest.
use drukbox.Base.{ℕ, suc, ◌+◌, String, Bool, true, false, not, ◌||◌, ◌≡◌, ◌⊎◌, is_text}
use drukbox.Base.Op.{Op, Result}
use drukbox.Base.Keeps.{Outcome}
use drukbox.Hosts.Model.{Error, template_state}
use drukbox.Hosts.World.{Env, World}
use drukbox.Templates.Model.{Template, is_building}
use drukbox.Templates.Service.{Capability, Lives, is_reapable, on_templates, remove_template}

-- The world after one reading of the clock, and after the other requests have run once.
abbrev pub ticked : Env → World → World
ticked env w = record w { clock = w.clock + env.delay w.turn; turn = suc w.turn }

abbrev pub awaited : Env → World → World
awaited env w = record w { db = env.others w.turn w.db; turn = suc w.turn }

-- The world after the row is gone.
abbrev pub dropped : Env → ℕ → World → World
dropped env i w = awaited env (record w { db = on_templates (remove_template i) w.db })

-- The provider was not asked to delete the image, or was asked once.
abbrev pub IsAfterImage : Env → Template → World → World → Type 0
IsAfterImage env t w w' =
    ((is_text t.image ≡ false) × (w' ≡ w)) ⊎ ((is_text t.image ≡ true) × (w' ≡ awaited env w))

-- What `delete` has done when it returns, and when it raises.
abbrev pub AfterDelete : Env → Lives → Bool → Template → World → Bool → World → Type 0
AfterDelete env lives expired_only t w true w' =
    (is_building t.status ≡ false)
    × ((not expired_only || is_reapable lives w.clock t) ≡ true)
    × ((between : World) × IsAfterImage env t w between × (w' ≡ dropped env t.id between))
AfterDelete env lives expired_only t w false w' =
    (expired_only ≡ true) × (is_reapable lives w.clock t ≡ false) × (w' ≡ w)

abbrev pub AfterRaise : Env → Template → World → Error → World → Type 0
AfterRaise env t w e w' =
    ((is_building t.status ≡ true) × (e ≡ template_state "template is still building") × (w' ≡ w))
    ⊎ ((is_building t.status ≡ false)
        × (is_text t.image ≡ true)
        × ((w' ≡ w) ⊎ (w' ≡ awaited env w)))

module _ (env : Env) (lives : Lives) (resolve_capability : String → Result Error Capability)
    (t : Template) (w : World) where
  -- The image is deleted, or is gone, before the row; else the row stays.
  abbrev AfterImage : Result Error (Unit {0}) × World → Type 0
  AfterImage =
      Outcome (λ u w'. IsAfterImage env t w w')
        (λ e w'. (is_text t.image ≡ true) × ((w' ≡ w) ⊎ (w' ≡ awaited env w)))
