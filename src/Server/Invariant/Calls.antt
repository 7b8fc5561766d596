-- ===== src/Server/Invariant/Calls.antt =====
-- The invariant of the server over every sequence of calls.
use aog_task_controller.Prelude.{ℕ, Bool, List, [], ◌∷◌}
use aog_task_controller.Isobus.{DataDictionary, PoolLibrary}
use aog_task_controller.Client.Invariant.{IsValid}
use aog_task_controller.Server.{
  Server, deactivate_object_pool, delete_device_descriptor_object_pool, on_client_timeout,
  store_device_descriptor_object_pool,
}
use aog_task_controller.Server.Run.{
  Call, activates, deactivates, deletes, times_out, stores, commands, requests_measurements,
  updates_sections, updates_control, sends_quality, step, run,
}
use aog_task_controller.Server.Invariant.{AllClients-erase, IsValidServer}
use aog_task_controller.Server.Invariant.Reports.{on_value_command-IsValidServer}
use aog_task_controller.Server.Invariant.Sending.{
  update_section_control_enabled-IsValidServer, send_gnss_quality-IsValidServer,
  request_measurement_commands-IsValidServer, update_section_states-IsValidServer,
}
use aog_task_controller.Server.Invariant.Activating.{activate_object_pool-IsValidServer}

module _ (lib : PoolLibrary) (dd : DataDictionary) (path_fails : ℕ → List ℕ → Bool) where
  open lib use {Pool, default_pool}

  step-IsValidServer :
      (server : Server Pool) (call : Call)
      → IsValidServer server
      → IsValidServer (step lib dd path_fails server call).0
  unfolding step deactivate_object_pool delete_device_descriptor_object_pool on_client_timeout
      store_device_descriptor_object_pool
  step-IsValidServer server (activates name partner) v =
      activate_object_pool-IsValidServer lib dd path_fails name server partner v
  step-IsValidServer server (deactivates partner) v =
      AllClients-erase IsValid partner server.clients v
  step-IsValidServer server (deletes partner) v = AllClients-erase IsValid partner server.clients v
  step-IsValidServer server (times_out partner) v =
      AllClients-erase IsValid partner server.clients v
  step-IsValidServer server (stores partner chunk append) v = v
  step-IsValidServer server (commands partner ddi element_number value) v =
      on_value_command-IsValidServer dd default_pool server partner ddi element_number value v
  step-IsValidServer server requests_measurements v =
      request_measurement_commands-IsValidServer lib dd server v
  step-IsValidServer server (updates_sections demand) v =
      update_section_states-IsValidServer lib dd server demand v
  step-IsValidServer server (updates_control enabled) v =
      update_section_control_enabled-IsValidServer dd server enabled v
  step-IsValidServer server (sends_quality quality) v =
      send_gnss_quality-IsValidServer dd server quality v

  -- After any sequence of calls that starts with a valid server, the state of every client is valid:
  -- its vectors have one entry for each section, every state fits two bits, and the map from elements
  -- to sections leads to sections that there are.
  pub run-IsValidServer :
      (server : Server Pool) (calls : List Call)
      → IsValidServer server
      → IsValidServer (run lib dd path_fails server calls).0
  unfolding run
  run-IsValidServer server [] v = v
  run-IsValidServer server (call ∷ calls) v =
      run-IsValidServer (step lib dd path_fails server call).0 calls
        (step-IsValidServer server call v)
