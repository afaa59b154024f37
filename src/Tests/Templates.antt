-- ===== src/Tests/Templates.antt =====
-- The theorems about templates, at concrete inputs.
use drukbox.Base.{refl, String, false, ◌≡◌, none, some, [], ◌∷◌, arith}
use drukbox.Base.Op.{Result, ok, ◌>>=◌}
use drukbox.Base.Keeps.{Outcome}
use drukbox.Hosts.Model.{Error}
use drukbox.Providers.{get_vm_provider}
use drukbox.Hosts.World.{World, await_others, utc_now, query}
use drukbox.Hosts.Session.{vm_of, provider_call}
use drukbox.Hosts.Request.{check_provider_name}
use drukbox.Templates.Model.{Template, TemplateStatus}
use drukbox.Templates.Service.{Capability, Lives, get_or_create}
use drukbox.Templates.Service.Found.{IsAnswer, get_or_create-IsAnswer}
use drukbox.Templates.Janitor.{abandon_all}
use drukbox.Templates.Janitor.Abandoned.{AllSettled, abandon_all-AllSettled}
use drukbox.Tests.Samples.{quiet, start, empty_db}

abbrev lives : Lives
lives = record { failed_retention = 3600; unused_ttl = 86400; build_timeout = 1800 }

abbrev capability : String → Result Error Capability
capability provider = ok (record {
  refresh_base_image = λ image. ok image;
  build_template_image = λ base script label. ok "snapshot";
  delete_template_image = λ image. ok tt;
})

abbrev stale_build : Template
stale_build = record {
  id = 3;
  provider = "docker";
  base_image = "base";
  base_image_ref = "base";
  setup_script_hash = "digest";
  setup_script = "apt install git";
  label = "git";
  image = "";
  status = TemplateStatus.building;
  last_error = "";
  created_at = 0;
  updated_at = 0;
  last_used_at = none;
}

abbrev shelf : World
shelf = record start { db = record empty_db { templates = stale_build ∷ [] } }

get_or_create-IsAnswer_example :
    Outcome
      (IsAnswer quiet lives capability none (some "base") "apt install git" "git")
      (λ e w'. Unit {0})
      (get_or_create quiet lives capability none (some "base") "apt install git" "git" shelf)
get_or_create-IsAnswer_example =
    get_or_create-IsAnswer quiet lives capability none (some "base") "apt install git" "git" shelf

-- The request finds the build of another one.
get_or_create_found :
    (get_or_create quiet lives capability none (some "base") "apt install git" "git" shelf).0
    ≡ ok (stale_build, false)
unfolding get_or_create ◌>>=◌ check_provider_name vm_of get_vm_provider provider_call await_others
    utc_now query
get_or_create_found = refl

abandon_all-AllSettled_example :
    AllSettled lives 2000000 2000010
      (stale_build ∷ [])
      (abandon_all lives "build abandoned" 2000000 2000005 (stale_build ∷ []))
abandon_all-AllSettled_example =
    abandon_all-AllSettled lives "build abandoned" 2000000 2000005 2000010 (stale_build ∷ [])
      (omega arith)
