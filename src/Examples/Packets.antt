-- ===== src/Examples/Packets.antt =====
-- Packets of AOG.
use aog_task_controller.Prelude.{
  ℕ, ◌+◌, ◌*◌, ◌/◌, ◌≤◌, ◌<◌, ◌≡◌, refl, true, false, List, [], ◌∷◌, ◌++◌, some, arith, ◌==◌,
  length, get_or, take, replicate,
}
use aog_task_controller.Prelude.Map.{find}
use aog_task_controller.Isobus.{Object}
use aog_task_controller.Client.{ClientState}
use aog_task_controller.Udp.{Packet}
use aog_task_controller.App.{App, Moment, bit, handle_packet}
use aog_task_controller.App.Demand.{handle_packet-demand}
use aog_task_controller.App.HardwareMessage.{
  hardware_message, is_continuation, hardware_message_cut,
}
use aog_task_controller.App.Heartbeat.{heartbeat, is_working}
use aog_task_controller.App.Heartbeat.Packing.{heartbeat_states}
use aog_task_controller.Examples.Bus.{library, dictionary, client, client-IsValid}

abbrev pub moment : Moment
moment = record {
  timestamp_ms = 5000;
  has_speed_messages = true;
  has_nmea2000_messages = false;
  xte_due = λ last. true;
  can_sends = true;
  actual_speed = 397;
  guidance_line_deviation = 513;
}

abbrev pub app : App (List Object)
app = record {
  server = record { clients = (1, client) ∷ []; uploaded_pools = [] };
  gnss_fix_quality = 0;
  last_gnss_quality_ms = 0;
  last_aog_packet_ms = 0;
  section_demand = [];
  section_demand_changes_since_log = 0;
  last_section_demand_ms = 0;
  last_speed_value = 0;
  last_xte_value = 0;
  last_distance_mm = 0;
  nmea2000_sequence_identifier = 0;
  xte_sid = 0;
  last_xte_transmit = 0;
}

-- The second section, and no other.
abbrev pub second_section : Packet
second_section = record { src = 0x7F; pgn = 0xE5; payload = 2 ∷ replicate 7 0 }

pub client_known : find 1 app.server.clients ≡ some client
unfolding find
client_known = refl

handle_packet-demand_example :
    (s' : ClientState (List Object)) × (find 1
        (handle_packet library dictionary moment second_section app).0.server.clients
      ≡ some s')
    × ((get_or s'.section_setpoint_states (8 * 0 + 1) 0 == 1)
        ≡ bit (get_or second_section.payload 0 0) 1)
handle_packet-demand_example =
    handle_packet-demand library dictionary moment second_section app 1 client 0 1 refl refl
      (omega arith) client_known client-IsValid refl (omega arith) (omega arith) (omega arith)

abbrev greeting : List ℕ
greeting = replicate 59 b'a' ++ (0xC3 ∷ 0xA4 ∷ [])

last_starts : is_continuation (get_or greeting 59 0) ≡ false
unfolding is_continuation
last_starts = refl

-- The last character has two bytes, so 59 bytes are sent.
hardware_message_cut_example :
    (n : ℕ) × (hardware_message greeting 5 1 ≡ some (5 ∷ 1 ∷ take n greeting))
    × (57 ≤ n)
    × (n ≤ 60)
    × (is_continuation (get_or greeting n 0) ≡ false)
hardware_message_cut_example =
    hardware_message_cut greeting 5 1 59 (omega arith) (omega arith) (omega arith) last_starts

heartbeat_states_example :
    (bytes : List ℕ) × (heartbeat 33 client ≡ some (1 ∷ 2 ∷ bytes))
    × (length bytes ≡ (2 + 7) / 8)
    × ((a i : ℕ) → i < 8 → 8 * a + i < 2 → bit (get_or bytes a 0) i ≡ is_working client (8 * a + i))
heartbeat_states_example = heartbeat_states client (omega arith) 33 (omega arith)
