-- ===== src/Examples/Terminal.antt =====
-- The virtual terminal and the watch over the demand.
use aog_task_controller.Prelude.{
  ℕ, suc, ◌+◌, ◌*◌, ◌<◌, ◌≡◌, inl, refl, Bool, true, false, List, [], ◌∷◌, leb, none, ◌==◌,
  if◌then◌else◌, arith, length, get_or,
}
use aog_task_controller.Prelude.Map.{find}
use aog_task_controller.Prelude.Text.{codes}
use aog_task_controller.Settings.{cannot_rename}
use aog_task_controller.Client.{get_section_actual_state}
use aog_task_controller.Client.SectionState
use aog_task_controller.App.Screen.{ScreenIds, section_map, Vt, Terminal}
use aog_task_controller.App.Screen.Strings.{
  Event, wants, disconnects, handle_all, replay, handle_all-replay,
}
use aog_task_controller.App.Screen.Sections.{between, section_map_chars}
use aog_task_controller.App.Screen.Config.{
  Shows, setting_of, change_numeric_value, change_numeric_value-Shows,
}
use aog_task_controller.App.Watch.{
  Tracked, Check, check_clients, describe_section_demand, demand_ranges, described_count,
}
use aog_task_controller.App.Watch.Ranges.{covered, demand_ranges-covered}
use aog_task_controller.App.Watch.Warning.{
  warnings_for, any_late, late_after_first, check_clients-due,
}
use aog_task_controller.Settings.{nmea_send}
use aog_task_controller.Examples.Bus.{client}
use aog_task_controller.Examples.Stored.{json, world}

abbrev vt : Vt
vt = record {
  started = true;
  config_synced = true;
  was_connected = true;
  connection_warning_logged = false;
  capabilities_logged = true;
  disconnected_since_ms = 0;
  last_status_update_ms = 0;
  last_section_update_ms = 0;
  last_strings = [];
}

abbrev terminal : Terminal
terminal = record {
  timestamp_ms = 3000;
  expired = λ last span. leb (last + span) 3000;
  partner_valid = false;
  is_connected = false;
  has_update_helper = true;
  has_nmea2000_messages = false;
}

-- A string twice, a lost connection, and the string again.
abbrev events : List Event
events =
    wants ((7, codes "ready") ∷ (7, codes "ready") ∷ [])
    ∷ disconnects terminal []
    ∷ wants ((7, codes "ready") ∷ [])
    ∷ []

handle_all-replay_example :
    find 7 (handle_all (record { vt = vt; screen = [] }) events).screen ≡ find 7 (replay [] events)
handle_all-replay_example = handle_all-replay vt [] events 7 refl

abbrev ids : ScreenIds
ids = record {
  vt_speed_value = 1;
  vt_xte_value = 2;
  config_nmea_send = 3;
  config_tecu_enabled = 4;
  config_nmea_read = 5;
  config_hydlift_aux_n = 6;
  implement_section_map = 7;
}

change_numeric_value-Shows_example :
    Shows json 3 nmea_send 1 (change_numeric_value json ids true cannot_rename world 3 1)
unfolding setting_of
change_numeric_value-Shows_example =
    change_numeric_value-Shows json ids true cannot_rename world 3 1 (inl refl)

-- Seen at 7 s for the first time; the other checks come 5 s and 11 s later.
abbrev working : ℕ → Check
working now = record { name = 5; now_ms = now; arriving = true; works_without_demand = true }

not_tracked : find {V = Tracked} 5 [] ≡ none
unfolding find
not_tracked = refl

check_clients-due_example :
    warnings_for 5 (check_clients [] (working 7000 ∷ working 12000 ∷ working 18000 ∷ [])).1 ≡ 1
unfolding late_after_first any_late
check_clients-due_example =
    check_clients-due 5 (working 7000 ∷ working 12000 ∷ working 18000 ∷ []) [] none not_tracked
      ((λ h. refl), ((λ h. refl), ((λ h. refl), tt)))

first : 0 < client.number_of_sections
first = omega arith

section_map_chars_example :
    (length (section_map ((1, client) ∷ [])) + 1 ≡ 2 * 2)
    × ((i : ℕ)
        → i < 2
        → get_or (section_map ((1, client) ∷ [])) (2 * i) 0
          ≡ (if get_section_actual_state client i == SectionState.on then b'1' else b'0'))
    × ((i : ℕ)
        → suc i < 2
        → get_or (section_map ((1, client) ∷ [])) (2 * i + 1) 0 ≡ between (suc i))
section_map_chars_example = section_map_chars client 1 [] first

-- Two ranges, 2 and 4 to 5, of five sections.
abbrev demand : List Bool
demand = false ∷ true ∷ false ∷ true ∷ true ∷ []

described : describe_section_demand demand 0 ≡ codes "3 on: 2,4-5"
unfolding describe_section_demand
described = refl

demand_ranges-covered_example : covered (demand_ranges demand 5 5 0).1 4 ≡ true
unfolding described_count
demand_ranges-covered_example = demand_ranges-covered demand 0 4
