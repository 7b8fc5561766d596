-- ===== src/Examples/Cyclic.antt =====
-- What the application sends in turn, and the implements that come and go.
use aog_task_controller.Prelude.{
  ◌+◌, ◌*◌, ◌≤◌, ◌≡◌, refl, true, List, [], ◌∷◌, ◌++◌, none, false, arith, leb, ◌-◌, ◌^◌, replicate,
}
use aog_task_controller.Prelude.Map.{Map, contains}
use aog_task_controller.Prelude.Text.{codes}
use aog_task_controller.Isobus.{Object}
use aog_task_controller.Client.{ClientState}
use aog_task_controller.Udp.{Packet}
use aog_task_controller.App.{Moment, magnitude}
use aog_task_controller.App.Cyclic.{Tick, j1939_speed_data, forwarded_quality}
use aog_task_controller.App.Cyclic.Speed.{read_speed, j1939_speed_data-bounds}
use aog_task_controller.App.Cyclic.Quality.{
  handle_packets, quality_to_send, last_quality, forwarded_quality-bounds,
}
use aog_task_controller.App.Implements.{Snapshot, scans, told, told-scans}
use aog_task_controller.Examples.Bus.{library, dictionary, client}
use aog_task_controller.Examples.Packets.{app, moment, second_section}

-- 10 km/h in reverse.
j1939_speed_data-bounds_example :
    (625 * read_speed (j1939_speed_data (2 ^ 32 - 2778)) ≤ 576 * magnitude (2 ^ 32 - 2778) + 312)
    × (576 * magnitude (2 ^ 32 - 2778) ≤ 625 * read_speed (j1939_speed_data (2 ^ 32 - 2778)) + 312)
j1939_speed_data-bounds_example = j1939_speed_data-bounds (2 ^ 32 - 2778) (omega arith)

abbrev tick : Tick
tick = record {
  timestamp_ms = 9000;
  expired = λ last span. leb (last + span) 9000;
  can_sends = true;
}

-- A packet with the quality 200, and one with none.
abbrev packets : List (Moment × Packet)
packets =
    (moment, record { src = 0x7C; pgn = 0xD6; payload = replicate 39 200 })
    ∷ (moment, second_section)
    ∷ []

forwarded_quality-bounds_example :
    let app' = handle_packets library dictionary packets app in
    let quality = forwarded_quality tick app'.gnss_fix_quality app'.last_gnss_quality_ms in
    (quality ≡ quality_to_send tick.expired (last_quality none packets)) × (quality ≤ 8)
forwarded_quality-bounds_example =
    forwarded_quality-bounds library dictionary packets app tick refl
      ((λ h. omega (arith, h)), ((λ h. omega (arith, h)), tt))

abbrev details : ClientState (List Object) → Snapshot
details s = record { display_name = codes "Boom"; sections = 2; width_text = [] }

-- The implement comes and stays, and goes at the last scan.
abbrev seconds : List (Map (ClientState (List Object)))
seconds = ((1, client) ∷ []) ∷ ((1, client) ∷ []) ∷ []

told-scans_example :
    told 101
      (scans (λ c. c + 100) details [] (seconds ++ ([] ∷ []))).1
      (contains {V = Snapshot} 101 [])
    ≡ false
told-scans_example = told-scans (λ c. c + 100) details 101 [] seconds []
