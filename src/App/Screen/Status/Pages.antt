-- ===== src/App/Screen/Status/Pages.antt =====
-- The strings of `update_vt_status_strings`, page by page.
use aog_task_controller.Prelude.{ℕ, Bool, not, List, [], ◌∷◌, ◌++◌, if◌then◌else◌, length, take}
use aog_task_controller.Prelude.Text.{codes, decimal}
use aog_task_controller.Client.{ClientState}
use aog_task_controller.App.{is_negative}
use aog_task_controller.App.Screen.Status.{
  StatusIds, ImplementDetails, StatusInputs, address_if_valid, claimed_text, is_address, online,
  on_off, first_16, lines, distance_text, ImplementTexts, total_sections, implement_texts,
  network_rows_text, packet_age, nmea_send_text, is_empty_map, alarm_text,
}

unfoldable pub implement_strings : StatusIds → ImplementTexts → List (ℕ × List ℕ)
implement_strings ids texts =
    (ids.implement_active_ddop, first_16 texts.implement_name)
    ∷ (ids.implement_section_control, texts.section_control)
    ∷ (ids.implement_working_width, texts.working_width)
    ∷ (ids.implement_boom_offset, first_16 texts.boom_offset)
    ∷ (ids.implement_section_count, decimal texts.implement_sections)
    ∷ []

module _ {P : Type 0} where
  -- The page of the diagnostics.
  unfoldable pub diagnostics_strings :
      StatusIds → StatusInputs P → Bool → List ℕ → List (ℕ × List ℕ)
  unfolding packet_age claimed_text alarm_text
  diagnostics_strings ids i aog_connected implement_name =
      (ids.diagnostics_values, if aog_connected then codes "ONLINE" else codes "OFFLINE")
      ∷ (ids.diagnostics_last_packet, packet_age i)
      ∷ (ids.diagnostics_tc_address, claimed_text (address_if_valid i.tc))
      ∷ (
        ids.diagnostics_task_state,
        if i.task_totals_active then codes "RUNNING" else codes "STOPPED",
      )
      ∷ (
        ids.diagnostics_active_ddop,
        if is_empty_map i.clients then codes "none" else implement_name,
      )
      ∷ (ids.diagnostics_tc_clients, decimal (length i.clients))
      ∷ (ids.diagnostics_alarm_value, alarm_text i aog_connected)
      ∷ []

  unfoldable pub main_strings :
      StatusIds → (ℕ → ℕ → ℕ → List ℕ) → StatusInputs P → Bool → ImplementTexts → List (ℕ × List ℕ)
  unfolding packet_age distance_text total_sections online
  main_strings ids fixed i aog_connected texts =
      let status =
        if not (is_address (address_if_valid i.tc) i.preferred_tc_address)
        then codes "ADDR!"
        else if aog_connected
        then codes "OK"
        else codes "OFF" in
      let implement_status =
        (codes "Name             " ++ first_16 texts.implement_name)
        ∷ (codes "Sections         " ++ decimal (total_sections i.clients))
        ∷ (codes "Section control  " ++ texts.section_control)
        ∷ [] in
      let direction =
        if not aog_connected
        then codes "--"
        else if is_negative i.last_speed_value
        then codes "REV"
        else codes "FWD" in
      let system_status =
        (codes "Control funcs    " ++ decimal (length (online i.control_functions)))
        ∷ (codes "Task state       "
            ++ (if i.task_totals_active then codes "RUNNING" else codes "STOPPED"))
        ∷ (codes "Direction        " ++ direction)
        ∷ (codes "Distance         " ++ distance_text fixed i.last_distance_mm)
        ∷ (codes "AOG packet age   " ++ packet_age i)
        ∷ [] in
      (ids.vt_working_set_status_label, codes "AOG IP")
      ∷ (ids.vt_aog_ip_str, i.bound_ip_address)
      ∷ (ids.vt_working_set_status_str, status)
      ∷ (ids.vt_sections_from_aogs, lines implement_status)
      ∷ (ids.vt_control_functions_str, lines system_status)
      ∷ []

  unfoldable pub config_strings : StatusIds → StatusInputs P → List (ℕ × List ℕ)
  unfolding nmea_send_text
  config_strings ids i =
      (ids.config_hydlift_label, codes "Hydlift: not impl.")
      ∷ (ids.config_nmea_read_label, codes "NMEA Read: N/A")
      ∷ (ids.config_nmea_send_label, nmea_send_text i)
      ∷ (
        ids.config_tecu_label,
        codes "TECU: " ++ (on_off i.settings.tecu_enabled ++ codes " (restart req)"),
      )
      ∷ []

  unfoldable pub network_strings : StatusIds → StatusInputs P → List (ℕ × List ℕ)
  unfolding online network_rows_text
  network_strings ids i =
      let members = online i.control_functions in
      (ids.network_connected_value, decimal (length members))
      ∷ (ids.network_rows, network_rows_text i.clients (take 7 members))
      ∷ []

  -- The strings in the order in which they are sent.
  unfoldable pub status_strings :
      StatusIds
      → (ℕ → ℕ → ℕ → List ℕ)
      → (ClientState P → ImplementDetails)
      → StatusInputs P
      → Bool
      → List (ℕ × List ℕ)
  unfolding main_strings config_strings network_strings implement_strings diagnostics_strings
      implement_texts
  status_strings ids fixed details i aog_connected =
      let texts = implement_texts details i.clients in
      main_strings ids fixed i aog_connected texts
      ++ (config_strings ids i
          ++ (network_strings ids i
              ++ (implement_strings ids texts
                  ++ diagnostics_strings ids i aog_connected (first_16 texts.implement_name))))
