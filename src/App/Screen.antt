-- ===== src/App/Screen.antt =====
-- The client of the virtual terminal (VT) in src/app.cpp: `send_vt_string_if_changed`,
-- `update_vt_section_map`, `sync_vt_config_once`, `handle_vt_disconnected` and `update_vt_client`. The
-- object IDs come from the object pool that the build embeds, and the calls of the client library are
-- commands.
pub mod Strings
pub mod Sections
pub mod Config
pub mod Status
use aog_task_controller.Prelude.{
  ℕ, zero, suc, ◌+◌, ◌-◌, ◌%◌, ◌^◌, Bool, true, false, not, ◌&&◌, List, [], ◌∷◌, ◌++◌, Option, none,
  some, ltb, leb, ◌==◌, if◌then◌else◌, to_nat, u8,
}
use aog_task_controller.Prelude.Map.{Map, find, assign}
use aog_task_controller.Prelude.Text.{codes, same_text}
use aog_task_controller.Client.{ClientState, get_section_actual_state}
use aog_task_controller.Client.SectionState
use aog_task_controller.Settings.{Settings}

pub record ScreenIds : Type 0 where
  pub vt_speed_value : ℕ
  pub vt_xte_value : ℕ
  pub config_nmea_send : ℕ
  pub config_tecu_enabled : ℕ
  pub config_nmea_read : ℕ
  pub config_hydlift_aux_n : ℕ
  pub implement_section_map : ℕ

-- The calls of the VT client and of its update helper.
pub data Command : Type 0 where
  initialize update : Command
  change_string : (object : ℕ) → List ℕ → Command
  change_numeric : (object value : ℕ) → Command
  enable_object : (object : ℕ) → Bool → Command
  track_numeric : (object value : ℕ) → Command

-- The members of `Application` for the VT.
pub record Vt : Type 0 where
  pub started : Bool
  pub config_synced : Bool
  pub was_connected : Bool
  pub connection_warning_logged : Bool
  pub capabilities_logged : Bool
  pub disconnected_since_ms : ℕ
  pub last_status_update_ms : ℕ
  pub last_section_update_ms : ℕ
  pub last_strings : Map (List ℕ)

-- The time, `time_expired_ms` at that time, and what the library says of the connection.
pub record Terminal : Type 0 where
  pub timestamp_ms : ℕ
  pub expired : ℕ → ℕ → Bool
  pub partner_valid : Bool
  pub is_connected : Bool
  pub has_update_helper : Bool
  pub has_nmea2000_messages : Bool

abbrev is_cached : Option (List ℕ) → List ℕ → Bool
is_cached none value = false
is_cached (some cached) value = same_text cached value

unfoldable pub send_vt_string_if_changed : ℕ → List ℕ → Map (List ℕ) → Map (List ℕ) × List Command
send_vt_string_if_changed object value strings =
    if is_cached (find object strings) value
    then (strings, [])
    else (assign object value strings, change_string object value ∷ [])

-- Several such calls, in order.
unfoldable pub send_strings : List (ℕ × List ℕ) → Map (List ℕ) → Map (List ℕ) × List Command
unfolding send_vt_string_if_changed
send_strings [] strings = (strings, [])
send_strings ((object, value) ∷ rest) strings =
    let (strings', now) = send_vt_string_if_changed object value strings in
    let (strings'', later) = send_strings rest strings' in (strings'', now ++ later)

-- What stands before the character of a section.
abbrev pub separator : ℕ → List ℕ
separator section = if section == 0 then [] else (if section % 16 == 0 then 10 else 32) ∷ []

module _ {P : Type 0} where
  -- The character of a section: '1' or '0'.
  unfoldable pub section_char : ClientState P → ℕ → ℕ
  section_char s section =
      if get_section_actual_state s section == SectionState.on then b'1' else b'0'

  -- The loop: the rounds left, and the section.
  unfoldable pub section_chars : ClientState P → ℕ → ℕ → List ℕ
  unfolding section_char
  section_chars s zero section = []
  section_chars s (suc rounds) section =
      separator section ++ (section_char s section ∷ section_chars s rounds (section + 1))

  -- The text for the first client, where there is one.
  unfoldable pub section_map : Map (ClientState P) → List ℕ
  unfolding section_chars
  section_map [] = codes "No sections connected"
  section_map ((client, s) ∷ rest) =
      let count = if ltb 64 s.number_of_sections then 64 else s.number_of_sections in
      if count == 0 then codes "No sections connected" else section_chars s count 0

  unfoldable pub update_vt_section_map :
      ScreenIds → Terminal → Map (ClientState P) → Vt → Vt × List Command
  unfolding send_vt_string_if_changed
  update_vt_section_map ids now clients vt =
      let (strings, sent) =
        send_vt_string_if_changed ids.implement_section_map (section_map clients) vt.last_strings in
      if now.expired vt.last_section_update_ms 100
      then (record vt { last_strings = strings; last_section_update_ms = now.timestamp_ms }, sent)
      else (vt, [])

unfoldable pub try_start_vt_client : Terminal → Vt → Vt × List Command
try_start_vt_client now vt =
    if now.partner_valid
    then (record vt { started = true; disconnected_since_ms = now.timestamp_ms }, initialize ∷ [])
    else (vt, [])

-- The first `if`.
unfoldable pub note_disconnected : Terminal → Vt → Vt
note_disconnected now vt =
    if vt.was_connected
    then record vt {
      disconnected_since_ms = now.timestamp_ms;
      connection_warning_logged = false;
      capabilities_logged = false;
    }
    else if vt.disconnected_since_ms == 0
    then record vt { disconnected_since_ms = now.timestamp_ms }
    else vt

unfoldable pub handle_vt_disconnected : Terminal → Vt → Vt
unfolding note_disconnected
handle_vt_disconnected now vt =
    let vt' = note_disconnected now vt in
    let warns = not vt'.connection_warning_logged && now.expired vt'.disconnected_since_ms 30000 in
    record vt' {
      was_connected = false;
      connection_warning_logged = if warns then true else vt'.connection_warning_logged;
      last_strings = [];
      config_synced = false;
    }

unfoldable pub sync_vt_config_once : ScreenIds → Terminal → Settings → Vt → Vt × List Command
sync_vt_config_once ids now settings vt = if vt.config_synced then (vt, []) else (
  record vt { config_synced = true },
  enable_object ids.config_hydlift_aux_n false
      ∷ enable_object ids.config_nmea_read false
      ∷ enable_object ids.config_nmea_send now.has_nmea2000_messages
      ∷ change_numeric ids.config_nmea_send (to_nat settings.nmea_send_enabled)
      ∷ change_numeric ids.config_tecu_enabled (to_nat settings.tecu_enabled)
      ∷ [],
)

-- What the application knows of AOG: `lastAogPacketMs`, and the last values as 32 bits.
pub record Aog : Type 0 where
  pub last_aog_packet_ms : ℕ
  pub last_speed_value : ℕ
  pub last_xte_value : ℕ

unfoldable pub is_aog_connected : Terminal → Aog → Bool
is_aog_connected now aog =
    not (aog.last_aog_packet_ms == 0) && not (now.expired aog.last_aog_packet_ms 3000)

-- `abs` of an `int32_t`, and the exclusive or with the sign bit, on 32 bits.
abbrev magnitude : ℕ → ℕ
magnitude value = if leb (2 ^ 31) value then 2 ^ 32 - value else value

abbrev flip_sign : ℕ → ℕ
flip_sign value = (value + 2 ^ 31) % 2 ^ 32

unfoldable pub tracked_values : ScreenIds → Settings → Bool → Aog → List Command
tracked_values ids settings connected aog =
    track_numeric ids.vt_speed_value (if connected then magnitude aog.last_speed_value else 0)
    ∷ track_numeric ids.vt_xte_value (if connected then flip_sign aog.last_xte_value else 2 ^ 31)
    ∷ track_numeric ids.config_nmea_send (to_nat settings.nmea_send_enabled)
    ∷ track_numeric ids.config_tecu_enabled (to_nat settings.tecu_enabled)
    ∷ []

unfoldable pub note_connected : Vt → Vt
note_connected vt =
    if vt.was_connected then record vt { capabilities_logged = true } else record vt {
      was_connected = true;
      disconnected_since_ms = 0;
      connection_warning_logged = false;
      capabilities_logged = true;
    }

module _ {P : Type 0} where
  -- The end of `update_vt_client`; `status` is the strings of `update_vt_status_strings`.
  unfoldable pub update_screen :
      ScreenIds
      → Terminal
      → Settings
      → Aog
      → Map (ClientState P)
      → (Bool → List (ℕ × List ℕ))
      → Vt
      → Vt × List Command
  unfolding sync_vt_config_once is_aog_connected tracked_values update_vt_section_map send_strings
  update_screen ids now settings aog clients status vt =
      let (vt', synced) = sync_vt_config_once ids now settings vt in
      let connected = is_aog_connected now aog in
      let (vt'', mapped) = update_vt_section_map ids now clients vt' in
      let (strings, sent) = send_strings (status connected) vt''.last_strings in
      let before = synced ++ (tracked_values ids settings connected aog ++ mapped) in
      if now.expired vt''.last_status_update_ms 1000
      then (
        record vt'' { last_strings = strings; last_status_update_ms = now.timestamp_ms },
        before ++ sent,
      )
      else (vt'', before)

  unfoldable pub update_vt_client :
      ScreenIds
      → Terminal
      → Settings
      → Aog
      → Map (ClientState P)
      → (Bool → List (ℕ × List ℕ))
      → Vt
      → Vt × List Command
  unfolding try_start_vt_client handle_vt_disconnected note_connected update_screen
  update_vt_client ids now settings aog clients status vt =
      let (vt', sent) = update_screen ids now settings aog clients status (note_connected vt) in
      if not vt.started
      then try_start_vt_client now vt
      else if not now.is_connected
      then (handle_vt_disconnected now vt, update ∷ [])
      else if not now.has_update_helper
      then (note_connected vt, update ∷ [])
      else (vt', update ∷ sent)
