-- ===== src/App.antt =====
-- `Application::setup_udp_connections` of src/app.cpp: what the application does with a packet of AOG.
-- The time, the objects of the AgIsoStack library that send speed and position, and whether the bus
-- takes a message are arguments. The text of the log is left out.
pub mod Demand
pub mod Circuit
pub mod Setup
pub mod HardwareMessage
pub mod Heartbeat
pub mod Implements
pub mod Cyclic
pub mod Details
pub mod Navigation
pub mod Screen
pub mod Watch
use aog_task_controller.Prelude.{
  ℕ, zero, suc, ◌+◌, ◌-◌, ◌*◌, ◌/◌, ◌%◌, ◌^◌, ◌≡◌, Bool, true, false, not, ◌&&◌, List, [], ◌∷◌,
  ◌++◌, ltb, leb, ◌==◌, if◌then◌else◌, u8, u16, length, get_or,
}
use aog_task_controller.Isobus.{DataDictionary, PoolLibrary}
use aog_task_controller.Server.{Server, Message}
use aog_task_controller.Server.Setpoints.{update_section_states, update_section_control_enabled}
use aog_task_controller.Udp.{Packet}

-- The members of `Application` and the static variables that the handler changes.
pub record App (P : Type 0) : Type 0 where
  pub server : Server P
  pub gnss_fix_quality : ℕ
  pub last_gnss_quality_ms : ℕ
  pub last_aog_packet_ms : ℕ
  pub section_demand : List Bool
  pub section_demand_changes_since_log : ℕ
  pub last_section_demand_ms : ℕ
  pub last_speed_value : ℕ
  pub last_xte_value : ℕ
  pub last_distance_mm : ℕ
  pub nmea2000_sequence_identifier : ℕ
  pub xte_sid : ℕ
  pub last_xte_transmit : ℕ

-- What the handler reads of the world around it, with two numbers of the data dictionary. `xte_due` is
-- `time_expired_ms(lastXteTransmit, 1000)`.
pub record Moment : Type 0 where
  pub timestamp_ms : ℕ
  pub has_speed_messages : Bool
  pub has_nmea2000_messages : Bool
  pub xte_due : ℕ → Bool
  pub can_sends : Bool
  pub actual_speed : ℕ
  pub guidance_line_deviation : ℕ

-- The messages to the clients, the values that the cyclic messages take, and the message that carries
-- the cross-track error, by its bytes.
pub data Output : Type 0 where
  to_clients : List Message → Output
  machine_speed : (reverse : Bool) (speed : ℕ) → Output
  speed_over_ground : (sequence speed : ℕ) → Output
  machine_distance : ℕ → Output
  cross_track_error : List ℕ → Output

-- `data[j] & (1 << i)`
unfoldable pub bit : ℕ → ℕ → Bool
bit byte i = (byte / 2 ^ i) % 2 == 1

-- The inner loop, and both: the rounds left and the index of the next.
unfoldable pub byte_states : ℕ → ℕ → ℕ → List Bool
byte_states byte zero i = []
byte_states byte (suc rounds) i = bit byte i ∷ byte_states byte rounds (i + 1)

unfoldable pub demand_from : List ℕ → ℕ → ℕ → List Bool
unfolding byte_states
demand_from payload zero j = []
demand_from payload (suc rounds) j =
    byte_states (get_or payload j 0) 8 0 ++ demand_from payload rounds (j + 1)

unfoldable pub section_states : List ℕ → List Bool
unfolding demand_from
section_states payload = demand_from payload 8 0

unfoldable pub same_states : List Bool → List Bool → Bool
same_states [] [] = true
same_states (true ∷ xs) (true ∷ ys) = same_states xs ys
same_states (false ∷ xs) (false ∷ ys) = same_states xs ys
same_states _ _ = false

-- `value < 0`, the magnitude, and the division of an `int32_t`, on its 32 bits.
abbrev pub is_negative : ℕ → Bool
is_negative value = leb (2 ^ 31) value

abbrev pub magnitude : ℕ → ℕ
magnitude value = if is_negative value then 2 ^ 32 - value else value

abbrev divided : ℕ → ℕ → ℕ
divided value by =
    if is_negative value then (2 ^ 32 - (2 ^ 32 - value) / by) % 2 ^ 32 else value / by

module _ {P : Type 0} where
  unfoldable pub receive_gnss : Moment → List ℕ → App P → App P
  receive_gnss now payload app =
      let quality = get_or payload 38 0 in
      if ltb (length payload) 39 then app else record app {
        gnss_fix_quality = if leb quality 8 then quality else 1;
        last_gnss_quality_ms = now.timestamp_ms;
      }

  -- The branch of the speed.
  unfoldable pub receive_speed : Moment → ℕ → App P → App P × List Output
  receive_speed now value app =
      let speed = u16 (magnitude value) in
      let app' = record app { last_speed_value = value } in
      let machine =
        if now.has_speed_messages then machine_speed (is_negative value) speed ∷ [] else [] in
      if now.has_nmea2000_messages
      then (
        record app' { nmea2000_sequence_identifier = u8 (app.nmea2000_sequence_identifier + 1) },
        machine ++ (speed_over_ground app.nmea2000_sequence_identifier (speed / 10) ∷ []),
      )
      else (app', machine)

  -- The branch of the cross-track error, which is sent in metres.
  unfoldable pub receive_xte : Moment → ℕ → App P → App P × List Output
  receive_xte now value app =
      let xte = divided value 1000 in
      let sid = app.xte_sid % 253 + 1 in
      let app' = record app { last_xte_value = value; xte_sid = sid } in
      let message =
        sid
        ∷ 0x71
        ∷ xte % 256
        ∷ xte / 2 ^ 8 % 256
        ∷ xte / 2 ^ 16 % 256
        ∷ xte / 2 ^ 24 % 256
        ∷ 0xFF
        ∷ 0xFF
        ∷ [] in
      if now.xte_due app.last_xte_transmit
      then (
        (if now.can_sends then record app' { last_xte_transmit = now.timestamp_ms } else app'),
        cross_track_error message ∷ [],
      )
      else (app', [])

  unfoldable pub receive_distance : Moment → ℕ → App P → App P × List Output
  receive_distance now value app =
      let distance = if is_negative value then 0 else value in
      (
        record app { last_distance_mm = distance },
        (if now.has_speed_messages then machine_distance distance ∷ [] else []),
      )

  unfoldable pub receive_process_data : Moment → List ℕ → App P → App P × List Output
  unfolding receive_speed receive_xte receive_distance
  receive_process_data now payload app =
      let byte = λ (i : ℕ). get_or payload i 0 in
      let identifier = byte 0 + byte 1 * 2 ^ 8 in
      let value = byte 2 + byte 3 * 2 ^ 8 + byte 4 * 2 ^ 16 + byte 5 * 2 ^ 24 in
      let app' = record app { last_aog_packet_ms = now.timestamp_ms } in
      if identifier == now.actual_speed
      then receive_speed now value app'
      else if identifier == now.guidance_line_deviation
      then receive_xte now value app'
      else if identifier == 597
      then receive_distance now value app'
      else (app', [])

module _ (lib : PoolLibrary) (dd : DataDictionary) where
  open lib use {Pool}

  unfoldable pub receive_demand : Moment → List ℕ → App Pool → App Pool × List Output
  unfolding section_states same_states
  receive_demand now payload app =
      let states = section_states payload in
      let changed = not (same_states states app.section_demand) in
      let (server, sent) = update_section_states lib dd app.server states in
      (
        record app {
          server = server;
          last_aog_packet_ms = now.timestamp_ms;
          last_section_demand_ms = now.timestamp_ms;
          section_demand = if changed then states else app.section_demand;
          section_demand_changes_since_log =
              if changed
              then app.section_demand_changes_since_log + 1
              else app.section_demand_changes_since_log;
        },
        to_clients sent ∷ [],
      )

  unfoldable pub receive_control : Moment → List ℕ → App Pool → App Pool × List Output
  receive_control now payload app =
      let (server, sent) = update_section_control_enabled dd app.server (get_or payload 0 0 == 1) in
      (record app { server = server; last_aog_packet_ms = now.timestamp_ms }, to_clients sent ∷ [])

  -- `packetHandler`
  unfoldable pub handle_packet : Moment → Packet → App Pool → App Pool × List Output
  unfolding receive_gnss receive_demand receive_control receive_process_data
  handle_packet now p app =
      if p.src == 0x7C && p.pgn == 0xD6
      then (receive_gnss now p.payload app, [])
      else if not (p.src == 0x7F)
      then (app, [])
      else if p.pgn == 0xE5 && leb 8 (length p.payload)
      then receive_demand now p.payload app
      else if p.pgn == 0xF1 && ltb 0 (length p.payload)
      then receive_control now p.payload app
      else if p.pgn == 0xF2 && leb 6 (length p.payload)
      then receive_process_data now p.payload app
      else (app, [])
