-- ===== src/Examples/Circuit.antt =====
-- The demand of the second section, its report, and the heartbeat.
use aog_task_controller.Prelude.{
  ℕ, ◌+◌, ◌*◌, ◌≡◌, refl, ap, ◌∙◌, sym, false, List, [], ◌∷◌, Option, none, some, arith, get_or,
  to_nat,
}
use aog_task_controller.Prelude.Map.{find, contains}
use aog_task_controller.Isobus.{Object}
use aog_task_controller.Hierarchy.Chain.{Ancestor}
use aog_task_controller.Client.{
  ClientState, new_state, get_element_number_for_section, set_element_number_for_section,
  set_section_actual_state, get_section_setpoint_state, set_section_setpoint_state,
  has_element_number_for_ddi, is_any_section_setpoint_on, set_setpoint_work_state,
}
use aog_task_controller.Client.ParentOff.{IsOff}
use aog_task_controller.Server.Setpoints.{
  condensed_value, update_client_sections, send_last, update_sections, apply_demand, send_previous,
  send_block, send_section_setpoint_states, send_setpoint_work_state,
}
use aog_task_controller.Server.ValueCommand.{
  value_command, is_actual_condensed, is_condensed_from, report_condensed, report_sections,
}
use aog_task_controller.App.{bit, section_states, byte_states, demand_from}
use aog_task_controller.App.Demand.{handle_packet-update_client_sections}
use aog_task_controller.App.Circuit.{handle_packet-heartbeat}
use aog_task_controller.App.Heartbeat.{heartbeat}
use aog_task_controller.Examples.Bus.{
  dictionary, dictionary-IsStandard, library, client, client-IsValid, none_recorded,
}
use aog_task_controller.Examples.Packets.{app, moment, second_section, client_known}

abbrev demanded : ClientState (List Object)
demanded =
    (update_client_sections library dictionary (section_states second_section.payload) 1 client).0

abbrev or_demanded : Option (ClientState (List Object)) → ClientState (List Object)
or_demanded none = demanded
or_demanded (some s) = s

abbrev reported : ClientState (List Object)
reported = or_demanded (value_command dictionary 161 2 (condensed_value demanded 0) demanded)

is_reported : value_command dictionary 161 2 (condensed_value demanded 0) demanded ≡ some reported
unfolding value_command is_actual_condensed is_condensed_from
is_reported = refl

settled : (reported.uses_per_element_control ≡ false) × (reported.element_work_states ≡ [])
unfolding value_command update_client_sections section_states condensed_value new_state
    is_actual_condensed is_condensed_from report_condensed report_sections
    set_element_number_for_section set_section_actual_state send_last update_sections apply_demand
    bit get_section_setpoint_state send_previous set_section_setpoint_state send_block
    send_section_setpoint_states has_element_number_for_ddi contains byte_states demand_from
    send_setpoint_work_state is_any_section_setpoint_on set_setpoint_work_state
settled = (refl, refl)

none-IsOff :
    (a : ℕ)
    → Ancestor reported.element_parents
        (get_element_number_for_section reported (16 * 0 + (8 * 0 + 1)))
        a
    → ¬ IsOff reported a
none-IsOff a above off = none_recorded a (ap (find a) (sym settled.1) ∙ off)

handle_packet-heartbeat_example :
    (bytes : List ℕ) × (heartbeat 33 reported
      ≡ some (to_nat reported.section_control_enabled ∷ reported.number_of_sections ∷ bytes))
    × (bit (get_or bytes (2 * 0 + 0) 0) 1 ≡ bit (get_or second_section.payload (2 * 0 + 0) 0) 1)
handle_packet-heartbeat_example =
    handle_packet-heartbeat library dictionary moment second_section app 1 client demanded reported
      2 0 0 1 dictionary-IsStandard refl refl (omega arith) client_known client-IsValid refl
      (omega arith) (omega arith) (omega arith) (omega arith)
      (handle_packet-update_client_sections library dictionary moment second_section app 1 client
        refl refl (omega arith) client_known)
      is_reported settled.0 none-IsOff
