-- ===== src/App/Screen/Status.antt =====
-- `Application::update_vt_status_strings` of src/app.cpp: the strings of the status pages. The formatting
-- of a floating-point number, the details of an implement and the object IDs are parameters.
pub mod Pages
use aog_task_controller.Prelude.{
  ℕ, zero, suc, ◌+◌, ◌-◌, ◌/◌, ◌%◌, ◌≤◌, ◌≡◌, refl, Bool, true, false, not, ◌&&◌, ◌||◌, List, [],
  ◌∷◌, ◌++◌, Option, none, some, arith, ltb, leb, ◌==◌, if◌then◌else◌, length, take, replicate, u32,
}
use aog_task_controller.Prelude.Map.{Map, find}
use aog_task_controller.Prelude.Text.{codes, decimal}
use aog_task_controller.Client.{ClientState}
use aog_task_controller.Settings.{Settings}
use aog_task_controller.App.{is_negative}

pub record StatusIds : Type 0 where
  pub vt_working_set_status_label : ℕ
  pub vt_aog_ip_str : ℕ
  pub vt_working_set_status_str : ℕ
  pub vt_sections_from_aogs : ℕ
  pub vt_control_functions_str : ℕ
  pub config_hydlift_label : ℕ
  pub config_nmea_read_label : ℕ
  pub config_nmea_send_label : ℕ
  pub config_tecu_label : ℕ
  pub network_connected_value : ℕ
  pub network_rows : ℕ
  pub implement_active_ddop : ℕ
  pub implement_section_control : ℕ
  pub implement_working_width : ℕ
  pub implement_boom_offset : ℕ
  pub implement_section_count : ℕ
  pub diagnostics_values : ℕ
  pub diagnostics_last_packet : ℕ
  pub diagnostics_tc_address : ℕ
  pub diagnostics_task_state : ℕ
  pub diagnostics_active_ddop : ℕ
  pub diagnostics_tc_clients : ℕ
  pub diagnostics_alarm_value : ℕ

-- `ImplementDetails`
pub record ImplementDetails : Type 0 where
  pub display_name : List ℕ
  pub sections : ℕ
  pub width_text : List ℕ
  pub boom_offset_text : List ℕ

-- A control function on the bus.
pub record BusMember : Type 0 where
  pub handle : ℕ
  pub address_valid : Bool
  pub address : ℕ
  pub function_code : ℕ
  pub manufacturer_code : ℕ
  pub identity_number : ℕ

-- What the strings are made of: members of `Application`, and answers of the CAN stack.
pub record StatusInputs (P : Type 0) : Type 0 where
  pub bound_ip_address : List ℕ
  pub last_aog_packet_ms : ℕ
  pub packet_age_ms : ℕ
  pub task_totals_active : Bool
  pub clients : Map (ClientState P)
  pub tc : Option BusMember
  pub preferred_tc_address : ℕ
  pub control_functions : List (Option BusMember)
  pub last_distance_mm : ℕ
  pub last_speed_value : ℕ
  pub settings : Settings
  pub has_nmea2000_messages : Bool

-- `std::left` with `std::setw`
unfoldable pub padded : ℕ → List ℕ → List ℕ
padded width text = text ++ replicate (width - length text) 32

abbrev pub hex_digit : ℕ → ℕ
hex_digit d = if ltb d 10 then d + b'0' else d - 10 + b'A'

-- `format_hex_address`, of a byte.
unfoldable pub format_hex_address : ℕ → List ℕ
format_hex_address address = b'0' ∷ b'x' ∷ hex_digit (address / 16) ∷ hex_digit (address % 16) ∷ []

abbrev pub address_if_valid : Option BusMember → Option ℕ
address_if_valid none = none
address_if_valid (some cf) = if cf.address_valid then some cf.address else none

unfoldable pub claimed_text : Option ℕ → List ℕ
unfolding format_hex_address
claimed_text none = codes "not claimed"
claimed_text (some address) = format_hex_address address

-- `havePreferredAddress`
abbrev pub is_address : Option ℕ → ℕ → Bool
is_address none preferred = false
is_address (some address) preferred = address == preferred

-- `cfCount`, and the members that are shown.
unfoldable pub online : List (Option BusMember) → List BusMember
online [] = []
online (none ∷ rest) = online rest
online (some cf ∷ rest) =
    let others = online rest in if cf.address_valid then cf ∷ others else others

abbrev pub on_off : Bool → List ℕ
on_off b = if b then codes "ON" else codes "OFF"

abbrev pub first_16 : List ℕ → List ℕ
first_16 text = take 16 text

abbrev pub or_not_available : List ℕ → List ℕ
or_not_available [] = codes "n/a"
or_not_available (c ∷ rest) = c ∷ rest

abbrev pub lines : List (List ℕ) → List ℕ
lines [] = []
lines (line ∷ []) = line
lines (line ∷ rest) = line ++ (10 ∷ lines rest)

-- `fixed digits n d` is the text of `n / d` with so many digits behind the point.
unfoldable pub distance_text : (ℕ → ℕ → ℕ → List ℕ) → ℕ → List ℕ
distance_text fixed mm =
    if ltb mm 1000000 then fixed 1 mm 1000 ++ codes " m" else fixed 2 mm 1000000 ++ codes " km"

-- The texts about the first client, or those without a client.
pub record ImplementTexts : Type 0 where
  pub implement_name : List ℕ
  pub section_control : List ℕ
  pub working_width : List ℕ
  pub boom_offset : List ℕ
  pub implement_sections : ℕ

-- The text about NMEA 2000, whether there is an interface and whether it sends.
abbrev pub nmea_text : Bool → Bool → List ℕ
nmea_text true sends = codes "NMEA Send: " ++ on_off sends
nmea_text false sends = codes "NMEA Send: N/A"

nmea_text-length : (available sends : Bool) → length (nmea_text available sends) ≤ 14
nmea_text-length true true = omega arith
nmea_text-length true false = omega arith
nmea_text-length false sends = omega arith

module _ {P : Type 0} where
  unfoldable pub total_sections : Map (ClientState P) → ℕ
  total_sections [] = 0
  total_sections ((client, s) ∷ rest) = u32 (s.number_of_sections + total_sections rest)

  unfoldable pub implement_texts :
      (ClientState P → ImplementDetails) → Map (ClientState P) → ImplementTexts
  implement_texts details [] = record {
    implement_name = codes "No implement";
    section_control = codes "DISABLED";
    working_width = codes "n/a";
    boom_offset = codes "n/a";
    implement_sections = 0;
  }
  implement_texts details ((client, s) ∷ rest) = record {
    implement_name = (details s).display_name;
    section_control = if s.section_control_enabled then codes "ENABLED" else codes "DISABLED";
    working_width = or_not_available (details s).width_text;
    boom_offset = or_not_available (details s).boom_offset_text;
    implement_sections = (details s).sections;
  }

  abbrev pub sections_of : Option (ClientState P) → ℕ
  sections_of none = 0
  sections_of (some s) = s.number_of_sections

  -- One row of the network page.
  unfoldable pub network_row : Map (ClientState P) → BusMember → List ℕ
  unfolding padded format_hex_address
  network_row clients cf =
      padded 6 (format_hex_address cf.address)
      ++ (padded 10 (decimal cf.function_code)
          ++ (padded 6 (decimal cf.manufacturer_code)
              ++ (padded 9 (decimal cf.identity_number)
                  ++ decimal (sections_of (find cf.handle clients)))))

  -- The rows, of which seven are shown, with a line feed between two.
  unfoldable pub network_rows_text : Map (ClientState P) → List BusMember → List ℕ
  unfolding network_row
  network_rows_text clients [] = codes "No control functions online"
  network_rows_text clients (cf ∷ []) = network_row clients cf
  network_rows_text clients (cf ∷ next ∷ rest) =
      network_row clients cf ++ (10 ∷ network_rows_text clients (next ∷ rest))

  unfoldable pub packet_age : StatusInputs P → List ℕ
  packet_age i =
      if i.last_aog_packet_ms == 0
      then codes "never"
      else decimal (i.packet_age_ms / 1000) ++ codes " s"

  unfoldable pub nmea_send_text : StatusInputs P → List ℕ
  nmea_send_text i = nmea_text i.has_nmea2000_messages i.settings.nmea_send_enabled

  abbrev pub is_empty_map : Map (ClientState P) → Bool
  is_empty_map [] = true
  is_empty_map (c ∷ rest) = false

  unfoldable pub alarm_text : StatusInputs P → Bool → List ℕ
  alarm_text i aog_connected =
      if not (is_address (address_if_valid i.tc) i.preferred_tc_address)
      then elim (address_if_valid i.tc) [
        | none ↦ codes "TC address not claimed"
        | some address ↦ codes "TC address conflict"
      ]
      else if not aog_connected
      then codes "AOG heartbeat missing"
      else if is_empty_map i.clients
      then codes "Waiting for implement"
      else codes "No active alarms"

  -- The label has room for 14 characters.
  nmea_send_text-length : (i : StatusInputs P) → length (nmea_send_text i) ≤ 14
  unfolding nmea_send_text
  nmea_send_text-length i = nmea_text-length i.has_nmea2000_messages i.settings.nmea_send_enabled
