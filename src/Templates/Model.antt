-- ===== src/Templates/Model.antt =====
-- src/templates/models.py
use drukbox.Base.{ℕ, String, Bool, true, false, Option}

pub data TemplateStatus : Type 0 where
  building available failed : TemplateStatus

abbrev pub is_available : TemplateStatus → Bool
is_available TemplateStatus.available = true
is_available _ = false

abbrev pub is_failed : TemplateStatus → Bool
is_failed TemplateStatus.failed = true
is_failed _ = false

abbrev pub is_building : TemplateStatus → Bool
is_building TemplateStatus.building = true
is_building _ = false

-- A row of `templates`. The unique index is on the provider, the base image, its reference and the
-- script's hash.
pub record Template : Type 0 where
  pub id : ℕ
  pub provider : String
  pub base_image : String
  pub base_image_ref : String
  pub setup_script_hash : String
  pub setup_script : String
  pub label : String
  pub image : String
  pub status : TemplateStatus
  pub last_error : String
  pub created_at : ℕ
  pub updated_at : ℕ
  pub last_used_at : Option ℕ
