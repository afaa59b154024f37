-- ===== src/Templates/Janitor.antt =====
-- src/templates/janitor.py: `reap_templates`.
pub mod Abandoned
use Prim.Native.String as Text
use drukbox.Base.{
  ℕ, ◌+◌, String, Bool, true, false, ◌&&◌, List, [], ◌∷◌, ltb, if◌then◌else◌, map, keep_if,
}
use drukbox.Base.Op.{Result, ok, err, pure, raise, modify, pass, attempt, ◌>>=◌, ◌>>◌}
use drukbox.Hosts.Model.{Error}
use drukbox.Hosts.World.{Env, Act, query, store, utc_now, await_others, seconds}
use drukbox.Templates.Model.{Template, TemplateStatus, is_building}
use drukbox.Templates.Service.{Capability, Lives, is_reapable, on_templates, delete}

abbrev pub is_abandoned : Lives → ℕ → Template → Bool
is_abandoned lives now t =
    is_building t.status && ltb (t.updated_at + seconds lives.build_timeout) now

-- `text` has the number of seconds of the time limit in it.
abbrev pub abandoned : String → ℕ → Template → Template
abandoned text later t = record t {
  status = TemplateStatus.failed;
  last_error = text;
  updated_at = later;
}

-- The guarded UPDATE.
unfoldable pub abandon_all : Lives → String → (now later : ℕ) → List Template → List Template
abandon_all lives text now later =
    map (λ t. if is_abandoned lives now t then abandoned text later t else t)

module _ (env : Env) (lives : Lives) (resolve_capability : String → Result Error Capability)
    (timeout_text : String) where
  unfoldable pub reap_all : List ℕ → Act (Unit {0})
  reap_all [] = pass
  reap_all (i ∷ is) = do deleted ← attempt (delete env lives resolve_capability i true); reap_all is

  -- `reap_templates`
  unfoldable pub reap_templates : Act (Unit {0})
  unfolding abandon_all reap_all
  reap_templates = do
    now ← utc_now env
    later ← utc_now env
    store env (on_templates (abandon_all lives timeout_text now later))
    await_others env
    at ← utc_now env
    candidates ←
        query env (λ db. map (λ t. t.id) (keep_if (λ t. is_reapable lives at t) db.templates))
    reap_all candidates
