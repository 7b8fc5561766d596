-- ===== src/App/Navigation.antt =====
-- The listener of `setup_vt_client` for the soft keys, and `Application::stop`, of src/app.cpp.
use aog_task_controller.Prelude.{
  ℕ, Bool, not, ◌&&◌, List, [], ◌∷◌, ◌++◌, Option, none, some, ◌==◌, if◌then◌else◌,
}

pub record NavigationIds : Type 0 where
  pub nav_status : ℕ
  pub nav_network : ℕ
  pub nav_implement : ℕ
  pub nav_diagnostics : ℕ
  pub nav_config : ℕ
  pub data_mask_1000 : ℕ
  pub data_mask_network : ℕ
  pub data_mask_implement : ℕ
  pub data_mask_diagnostics : ℕ
  pub data_mask_config : ℕ

-- The `switch`
unfoldable pub target_mask : NavigationIds → ℕ → ℕ
target_mask ids object =
    if object == ids.nav_status
    then ids.data_mask_1000
    else if object == ids.nav_network
    then ids.data_mask_network
    else if object == ids.nav_implement
    then ids.data_mask_implement
    else if object == ids.nav_diagnostics
    then ids.data_mask_diagnostics
    else if object == ids.nav_config
    then ids.data_mask_config
    else 0xFFFF

-- The mask that is shown after the event of a key, if it changes.
unfoldable pub press_soft_key : NavigationIds → Bool → ℕ → Option ℕ
unfolding target_mask
press_soft_key ids pressed_or_latched object =
    let mask = target_mask ids object in
    if not pressed_or_latched then none else if mask == 0xFFFF then none else some mask

-- What `stop` ends, in order.
pub data Stopping : Type 0 where
  terminates_vt_client terminates_server stops_can_hardware : Stopping

abbrev stop_if : Bool → Stopping → List Stopping
stop_if condition stopping = if condition then stopping ∷ [] else []

unfoldable pub stop :
    (has_vt_client vt_client_started has_server can_running : Bool) → List Stopping
stop has_vt_client vt_client_started has_server can_running =
    stop_if (has_vt_client && vt_client_started) terminates_vt_client
    ++ (stop_if has_server terminates_server ++ stop_if can_running stops_can_hardware)
