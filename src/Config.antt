-- ===== src/Config.antt =====
-- crates/tsk-core/src/config.rs: the settings that the service reads. Reading the settings file and
-- its other fields are not modelled.
use hypr_taskspace.Prelude.{ℕ, Bool, List}
use hypr_taskspace.Prelude.Text.{Text}

pub record TskConfig : Type 0 where
  pub hyprland_enabled : Bool
  pub default_workspace_count : ℕ
  pub global_workspace_slots : List ℕ
  pub tasks_base_dir : Text
  pub max_tasks : ℕ
  pub container_prefix : Text
  -- without the blanks around it
  pub distrobox_image : Text
