-- ===== src/Server/Run.antt =====
-- The server as a machine: each call of the isobus stack or of the application is one step, since
-- each runs whole under the same mutex, so every interleaving of the two threads is a list of calls.
use aog_task_controller.Prelude.{ℕ, Bool, List, [], ◌∷◌, ◌++◌}
use aog_task_controller.Isobus.{DataDictionary, PoolLibrary}
use aog_task_controller.Server.{
  Server, Message, deactivate_object_pool, delete_device_descriptor_object_pool, on_client_timeout,
  store_device_descriptor_object_pool,
}
use aog_task_controller.Server.ValueCommand.{on_value_command}
use aog_task_controller.Server.Setpoints.{
  update_section_states, update_section_control_enabled, send_gnss_quality,
}
use aog_task_controller.Server.Measurement.{request_measurement_commands}
use aog_task_controller.Server.Activation.{activate_object_pool}

pub data Call : Type 0 where
  activates : (name partner : ℕ) → Call
  deactivates deletes times_out : (partner : ℕ) → Call
  stores : (partner : ℕ) → List ℕ → Bool → Call
  commands : (partner ddi element_number value : ℕ) → Call
  requests_measurements : Call
  updates_sections : List Bool → Call
  updates_control : Bool → Call
  sends_quality : ℕ → Call

module _ (lib : PoolLibrary) (dd : DataDictionary) (path_fails : ℕ → List ℕ → Bool) where
  open lib use {Pool, default_pool}

  unfoldable pub step : Server Pool → Call → Server Pool × List Message
  step server (activates name partner) =
      ((activate_object_pool lib dd path_fails name server partner).0, [])
  step server (deactivates partner) = ((deactivate_object_pool server partner).0, [])
  step server (deletes partner) = ((delete_device_descriptor_object_pool server partner).0, [])
  step server (times_out partner) = (on_client_timeout server partner, [])
  step server (stores partner chunk append) =
      ((store_device_descriptor_object_pool server partner chunk append).0, [])
  step server (commands partner ddi element_number value) =
      ((on_value_command dd default_pool server partner ddi element_number value).0, [])
  step server requests_measurements = request_measurement_commands lib dd server
  step server (updates_sections demand) = update_section_states lib dd server demand
  step server (updates_control enabled) = update_section_control_enabled dd server enabled
  step server (sends_quality quality) = send_gnss_quality dd server quality

  unfoldable pub run : Server Pool → List Call → Server Pool × List Message
  run server [] = (server, [])
  run server (call ∷ calls) =
      let (server', now) = step server call in
      let (server'', later) = run server' calls in (server'', now ++ later)
